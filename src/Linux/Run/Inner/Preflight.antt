-- ===== src/Linux/Run/Inner/Preflight.antt =====
-- When the program of a run is started: only after a preflight that was verified.
use cargo_cage.Base.{
  ◌≡◌, refl, ◌⊎◌, ◌↔◌, inl, inr, true, some, List, ok, err, Bool-cases, arith, list_eq, nat_eq,
  list_beq_iff,
}
use cargo_cage.Os.Text.{OsString, bytes}
use cargo_cage.Os.FilePath.{FilePath}
use cargo_cage.Core.Error.{CageResult, successfully_exited}
use cargo_cage.Core.Request.{OutputMode, SandboxOutcome}
use cargo_cage.Linux.Resources.{EffectiveResourceLimits, EventCounters}
use cargo_cage.Linux.Run.Quiet.{Grows}
use cargo_cage.Linux.Run.Session.{Log, Machine, Session, Outcome, Step, followed_by}
use cargo_cage.Linux.Run.Inner.{
  run_inner, is_verified, preflight_output, not_verified, verified, run_verified,
}
use cargo_cage.Linux.Run.Inner.Laws.{IsLaunched, run_inner-IsLaunched}

-- The preflight exits with 0 and prints just the expected line.
abbrev pub IsExpected : SandboxOutcome → Type 0
IsExpected outcome =
    (outcome.status.code ≡ some 0) × (outcome.stdout ≡ bytes "cargo-cage-namespace-preflight-ok\n")

is_verified_iff : (outcome : SandboxOutcome) → (is_verified outcome ≡ true) ↔ IsExpected outcome
unfolding is_verified successfully_exited
is_verified_iff outcome = ground (arith, list_beq_iff outcome.stdout preflight_output)

-- What a run of Bubblewrap needs: the place of its group, the limits and counters that it was prepared
-- with, its command and its output mode.
pub record Run : Type 0 where
  pub path : FilePath
  pub limits : EffectiveResourceLimits
  pub counters : EventCounters
  pub command : CageResult (List OsString)
  pub mode : OutputMode

module _ (machine : Machine) (bwrap : FilePath) where
  abbrev pub run_of : Run → Step SandboxOutcome
  run_of r = run_inner machine bwrap r.path (ok (r.limits, r.counters)) r.command r.mode

  -- No process is started, or just the one of the run.
  abbrev pub StartsOnly : Run → Log → Log → Type 0
  StartsOnly r before after =
      Grows before after ⊎ IsLaunched machine bwrap r.path r.limits r.command before after

  run_of-StartsOnly :
      (r : Run) (session : Session) → StartsOnly r session.log (run_of r session).1.log
  run_of-StartsOnly r session =
      run_inner-IsLaunched machine bwrap r.path r.limits r.counters r.command r.mode session

  -- How a run ends, by how its preflight did.
  pub IsContinued : Run → Outcome SandboxOutcome → Outcome SandboxOutcome → Type 0
  IsContinued program (err e, between) end = end ≡ (err e, between)
  IsContinued program (ok outcome, between) end =
      (IsExpected outcome
        × (end ≡ run_of program between)
        × StartsOnly program between.log end.1.log)
      ⊎ (¬ IsExpected outcome × (end ≡ (err not_verified, between)))

  verified-IsContinued :
      (program : Run) (first : Outcome SandboxOutcome)
      → IsContinued program first (followed_by first (verified (run_of program)))
  unfolding verified IsContinued
  verified-IsContinued program (err e, between) = refl
  verified-IsContinued program (ok outcome, between) = elim (Bool-cases (is_verified outcome)) [
    | inl v ↦
        inl (
          rw (v, verified) ((is_verified_iff outcome).0 v, refl, run_of-StartsOnly program between))
    | inr v ↦ inr (
      (λ expected. absurd (ground (arith, v, (is_verified_iff outcome).1 expected))),
      rw (v, verified) refl,
    )
  ]

  -- Once their groups are prepared, the preflight starts no process but its own. If it fails, so does the run, with the same error. If it
  -- exits with 0 and prints just the expected line, the run goes on as that of the program, from the
  -- session that the preflight left, and starts no process but that of the program. After any other
  -- preflight there is an error, and nothing more is called.
  pub run_verified-IsContinued :
      (preflight program : Run) (session : Session)
      → StartsOnly preflight session.log (run_of preflight session).1.log
        × IsContinued program
            (run_of preflight session)
            (run_verified (run_of preflight) (run_of program) session)
  unfolding run_verified
  run_verified-IsContinued preflight program session =
      (run_of-StartsOnly preflight session, verified-IsContinued program (run_of preflight session))
