-- ===== src/Linux/Run/Output.antt =====
-- cage-linux/src/backend/process.rs: `capture_child_output`. The two readers run beside the loop, which
-- sees their flags as they are at the time.
pub mod Quiet
use cargo_cage.Base.{
  ℕ, zero, suc, ◌+◌, ◌*◌, ◌≤◌, ◌≡◌, ◌≢◌, refl, sym, ap, subst, Bool, true, false, not, ◌&&◌, ◌||◌,
  Option, none, some, List, [], ◌∷◌, Result, ok, err, map_err, leb, answer_of, Result-cases,
  Bool-cases, inl, inr, ◌⊎◌, arith, if◌then◌else◌,
}
use cargo_cage.Os.Text.{OsString}
use cargo_cage.Os.FilePath.{FilePath}
use cargo_cage.Os.Fs.{IoError, IoResult}
use cargo_cage.Core.Error.{CageError, CageResult, io, sandbox_setup, named}
use cargo_cage.Linux.Resources.{ExitStatus}
use cargo_cage.Linux.Run.Group.{sleep}
use cargo_cage.Linux.Run.Group.Cleanup.{kill_all}
use cargo_cage.Linux.Run.Wait.{wait}
use cargo_cage.Linux.Run.Capture.{read_capped, hand_over, max_captured_output}
use cargo_cage.Linux.Run.Session.{
  Call, kill_child, slept, Log, Machine, Session, Outcome, Step, call, since_kill, followed_by,
  ◌>>=◌, ◌>>◌, done, failed, told, ignored,
}

abbrev output_unmonitored : CageError
output_unmonitored = io "could not monitor captured Bubblewrap output" (named "Bubblewrap")

abbrev pipes_missing : CageError
pipes_missing = io "captured Bubblewrap output pipes could not be prepared" (named "Bubblewrap")

module _ (machine : Machine) (path : FilePath) where
  unfoldable pub end_child : Step (Unit {0})
  unfolding call
  end_child = ignored (call machine kill_child (io "" (named "Bubblewrap")))

  kill_everything : Step (Unit {0})
  unfolding kill_all end_child
  kill_everything = do kill_all machine path; end_child

  check_output : Bool → Step Bool
  unfolding kill_everything
  check_output killed session =
      (if machine.over_limit session.log && not killed
          then kill_everything >> done true
          else done killed)
        session

  -- Whether the child was killed, and whether because its time was up.
  check_time : ℕ → Bool × Bool → Step (Bool × Bool)
  unfolding kill_everything
  check_time deadline (killed, expired) session =
      (if leb deadline (machine.now session.log) && not killed
          then kill_everything >> done (true, true)
          else done (killed, expired))
        session

  checks : ℕ → Bool × Bool → Step (Bool × Bool)
  unfolding check_output check_time
  checks deadline (killed, expired) = do
    killed' ← check_output killed
    check_time deadline (killed', expired)

  give_up : CageError → Step (ExitStatus × Bool)
  unfolding kill_all end_child wait
  give_up error = do
    ignored (kill_all machine path)
    end_child
    ignored (wait machine path)
    failed error

  unfoldable pub capture_loop : ℕ → ℕ → Bool × Bool → Session → Option (Outcome (ExitStatus × Bool))
  unfolding checks give_up sleep
  capture_loop deadline zero state session = none
  capture_loop deadline (suc fuel) state session =
      let (checked, now) = checks deadline state session in
      elim checked [
        | err error ↦ some (err error, now)
        | ok (killed, expired) ↦ elim (machine.try_wait now.log) [
          | ok (some status) ↦ some (ok (status, expired), now)
          | ok none ↦ capture_loop deadline fuel (killed, expired) (sleep machine 5_000_000 now)
          | err error ↦ some (give_up output_unmonitored now)
        ]
      ]

  checks_killed :
      (deadline : ℕ) (expired : Bool) (session : Session)
      → checks deadline (true, expired) session ≡ (ok (true, expired), session)
  unfolding checks check_output check_time
  checks_killed deadline expired session = ground arith

  -- A killed child is waited for in the rounds of its grace.
  capture_loop-killed :
      (deadline rounds n : ℕ) (expired : Bool) (session : Session)
      → since_kill session.log ≡ some n
      → machine.grace ≤ n + rounds
      → capture_loop deadline (suc rounds) (true, expired) session ≢ none
  unfolding capture_loop sleep since_kill
  capture_loop-killed deadline zero n expired session k g e =
      ground (arith, checks_killed deadline expired session, machine.dies session.log n k)
  capture_loop-killed deadline (suc rounds) n expired session k g e =
      let later =
        capture_loop-killed deadline rounds (suc n) expired (sleep machine 5_000_000 session) in
      ground (arith, checks_killed deadline expired session, later)

  killed_child :
      (o : Outcome (Unit {0})) (now : Session)
      → followed_by o (λ _. end_child) ≡ (ok tt, now)
      → since_kill now.log ≡ some 0
  unfolding end_child call since_kill
  killed_child (ok done, session) now h = ap (λ r. since_kill r.1.log) (sym h)
  killed_child (err error, session) now h = cc

  IsKilled : Outcome (Unit {0}) → Bool × Bool → Session → Type 0
  IsKilled o state now = (state.0 ≡ true) × (o ≡ (ok tt, now))

  output-IsKilled :
      (deadline : ℕ) (expired : Bool) (o : Outcome (Unit {0})) (state : Bool × Bool) (now : Session)
      → followed_by (followed_by o (λ _. done true)) (λ k. check_time deadline (k, expired))
        ≡ (ok state, now)
      → IsKilled o state now
  unfolding check_time IsKilled
  output-IsKilled deadline expired (ok tt, session) state now h = ground arith
  output-IsKilled deadline expired (err error, session) state now h = cc

  time-IsKilled :
      (o : Outcome (Unit {0})) (state : Bool × Bool) (now : Session)
      → followed_by o (λ _. done (true, true)) ≡ (ok state, now)
      → IsKilled o state now
  unfolding IsKilled
  time-IsKilled (ok tt, session) state now h = ground arith
  time-IsKilled (err error, session) state now h = cc

  -- What the checks leave: the child was killed just now, or the time is not up.
  checks-cases :
      (deadline : ℕ) (expired : Bool) (session now : Session) (state : Bool × Bool)
      → checks deadline (false, expired) session ≡ (ok state, now)
      → ((state.0 ≡ true) × (since_kill now.log ≡ some 0))
        ⊎ ((state ≡ (false, expired))
            × (now ≡ session)
            × (leb deadline (machine.now session.log) ≡ false))
  unfolding checks check_output check_time kill_everything IsKilled
  checks-cases deadline expired session now state h =
      elim (Bool-cases (machine.over_limit session.log)) [
        | inl e ↦
            let (k, o) =
              output-IsKilled deadline expired (kill_everything session) state now
                (rw (e, checks, check_output) at h) in
            inl (k, killed_child (kill_all machine path session) now o)
        | inr e ↦ elim (Bool-cases (leb deadline (machine.now session.log))) [
          | inl t ↦
              let (k, o) =
                time-IsKilled (kill_everything session) state now
                  (rw (e, t, checks, check_output, check_time) at h) in
              inl (k, killed_child (kill_all machine path session) now o)
          | inr t ↦
              let same : Path (Outcome (Bool × Bool)) (ok (false, expired), session)
                  (ok state, now) =
                rw (e, t, checks, check_output, check_time) at h in
              inr (cc, cc, t)
        ]
      ]

  -- A round that leads nowhere left a child that runs on.
  round_none :
      (deadline fuel : ℕ) (state : Bool × Bool) (session : Session)
      → capture_loop deadline (suc fuel) state session ≡ none
      → (next : Bool × Bool) × (now : Session) × (checks deadline state session ≡ (ok next, now))
        × (machine.try_wait now.log ≡ ok none)
        × (capture_loop deadline fuel next (sleep machine 5_000_000 now) ≡ none)
  unfolding capture_loop
  round_none deadline fuel state session h =
      let now = (checks deadline state session).1 in
      elim (Result-cases (checks deadline state session).0) [
        | inr (error, e) ↦ absurd (ground arith)
        | inl (next, e) ↦ elim (Result-cases (machine.try_wait now.log)) [
          | inr (error, w) ↦ absurd (ground arith)
          | inl (some status, w) ↦ absurd (ground arith)
          | inl (none, w) ↦ (next, now, ap (λ r. (r, now)) e, w, rw (e, w, capture_loop) at h)
        ]
      ]

  after_kill :
      (deadline fuel : ℕ) (state : Bool × Bool) (now : Session)
      → machine.grace ≤ fuel
      → state.0 ≡ true
      → since_kill now.log ≡ some 0
      → machine.try_wait now.log ≡ ok none
      → capture_loop deadline fuel state (sleep machine 5_000_000 now) ≢ none
  unfolding since_kill sleep
  after_kill deadline zero state now g k s w e = machine.dies now.log 0 s g w
  after_kill deadline (suc fuel) (killed, expired) now g k s w e =
      let once : since_kill (sleep machine 5_000_000 now).log ≡ some 1 =
        rw (s, sleep, since_kill) refl in
      capture_loop-killed deadline fuel 1 expired (sleep machine 5_000_000 now) once
        (omega (arith, g))
        (subst
          (λ b. capture_loop deadline (suc fuel) (b, expired) (sleep machine 5_000_000 now) ≡ none)
          k e)

  -- The loop ends within the rounds of the time that is left and of the grace of the child.
  pub capture_loop-returns :
      (deadline rounds fuel : ℕ) (session : Session)
      → deadline ≤ machine.now session.log + 5_000_000 * rounds
      → rounds + machine.grace ≤ fuel
      → capture_loop deadline (suc fuel) (false, false) session ≢ none
  unfolding sleep
  capture_loop-returns deadline zero fuel session h g e =
      let (next, now, c, w, l) = round_none deadline fuel (false, false) session e in
      elim (checks-cases deadline false session now next c) [
        | inl (k, s) ↦ after_kill deadline fuel next now (omega (arith, g)) k s w l
        | inr (same, here, t) ↦ ground arith
      ]
  capture_loop-returns deadline (suc rounds) zero session h g e = absurd (omega (arith, g))
  capture_loop-returns deadline (suc rounds) (suc fuel) session h g e =
      let (next, now, c, w, l) = round_none deadline (suc fuel) (false, false) session e in
      elim (checks-cases deadline false session now next c) [
        | inl (k, s) ↦ after_kill deadline (suc fuel) next now (omega (arith, g)) k s w l
        | inr (same, here, t) ↦
            let slow = machine.sleeps session.log 5_000_000 in
            capture_loop-returns deadline rounds fuel (sleep machine 5_000_000 session)
              (omega (arith, h, slow)) (omega (arith, g))
              (subst
                (λ n.
                  capture_loop deadline (suc fuel) (false, false) (sleep machine 5_000_000 n)
                  ≡ none)
                here
                (subst
                  (λ s. capture_loop deadline (suc fuel) s (sleep machine 5_000_000 now) ≡ none)
                  same l))
      ]

  pub capture_in_time : (now wall_time : ℕ) → now + wall_time ≤ now + 5_000_000 * wall_time
  capture_in_time now wall_time = omega arith

  pub same_fuel : (wall_time : ℕ) → wall_time + machine.grace ≤ wall_time + machine.grace
  same_fuel wall_time = omega arith

  watch : ℕ → Step (ExitStatus × Bool)
  unfolding capture_loop answer_of
  watch wall_time session =
      let start = machine.now session.log in
      answer_of
        (capture_loop (start + wall_time) (suc (wall_time + machine.grace)) (false, false) session)
        (capture_loop-returns (start + wall_time) wall_time (wall_time + machine.grace) session
          (capture_in_time start wall_time) (same_fuel wall_time))

  -- The two readers are joined.
  joined : ExitStatus × Bool → Step ((ExitStatus × OsString × OsString) × Bool)
  unfolding read_capped hand_over
  joined result session =
      told
        (hand_over result
          (read_capped max_captured_output [] false (machine.stdout_reads session.log))
          (read_capped max_captured_output [] false (machine.stderr_reads session.log)))
        session

  no_pipes : Step (ExitStatus × Bool)
  unfolding kill_all end_child wait
  no_pipes = do
    ignored (kill_all machine path)
    end_child
    ignored (wait machine path)
    failed pipes_missing

  watched : ℕ → Step (ExitStatus × Bool)
  unfolding watch no_pipes
  watched wall_time session =
      (if machine.pipes session.log then watch wall_time else no_pipes) session

  unfoldable pub capture_child_output : ℕ → Step ((ExitStatus × OsString × OsString) × Bool)
  unfolding watched joined
  capture_child_output wall_time = watched wall_time >>= joined
