-- ===== src/Linux/Run/Wait.antt =====
-- cage-linux/src/backend/process.rs: `wait_for_child`, which gives the status of the child and whether
-- its time was up.
pub mod Quiet
use cargo_cage.Base.{
  ℕ, zero, suc, ◌+◌, ◌*◌, ◌/◌, ◌≤◌, ◌≡◌, ◌≢◌, refl, Bool, true, false, Option, none, some, List, [],
  ◌∷◌, Result, ok, err, map_err, leb, answer_of, arith, if◌then◌else◌,
}
use cargo_cage.Os.FilePath.{FilePath}
use cargo_cage.Os.Fs.{IoError}
use cargo_cage.Core.Error.{CageError, CageResult, io, named}
use cargo_cage.Linux.Resources.{ExitStatus}
use cargo_cage.Linux.Run.Group.{sleep}
use cargo_cage.Linux.Run.Group.Cleanup.{kill_all}
use cargo_cage.Linux.Run.Session.{
  Call, wait_child, Log, Machine, Session, Outcome, Step, followed_by, ◌>>=◌, ◌>>◌, done, failed,
  ignored,
}

abbrev pub unmonitored : CageError
unmonitored = io "could not monitor the Bubblewrap process" (named "Bubblewrap")

module _ (machine : Machine) (path : FilePath) where
  unfoldable pub wait : Step ExitStatus
  wait session = (
    map_err (machine.wait session.log)
        (λ _. io "could not wait for the timed-out Bubblewrap process" (named "Bubblewrap")),
    record session { log = wait_child ∷ session.log },
  )

  time_up : Step (ExitStatus × Bool)
  unfolding kill_all wait
  time_up = do kill_all machine path; status ← wait; done (status, true)

  not_monitored : Step (ExitStatus × Bool)
  unfolding kill_all wait
  not_monitored = do ignored (kill_all machine path); ignored wait; failed unmonitored

  unfoldable pub wait_loop : ℕ → ℕ → Session → Option (Outcome (ExitStatus × Bool))
  unfolding time_up not_monitored sleep
  wait_loop deadline zero session = none
  wait_loop deadline (suc fuel) session =
      let later = wait_loop deadline fuel (sleep machine 10_000_000 session) in
      elim (machine.try_wait session.log) [
        | ok (some status) ↦ some (ok (status, false), session)
        | ok none ↦ if leb deadline (machine.now session.log) then some (time_up session) else later
        | err error ↦ some (not_monitored session)
      ]

  -- The loop ends in one round more than the units of ten milliseconds that are left.
  pub wait_loop-returns :
      (deadline rounds : ℕ) (session : Session)
      → deadline ≤ machine.now session.log + 10_000_000 * rounds
      → wait_loop deadline (suc rounds) session ≢ none
  unfolding wait_loop sleep
  wait_loop-returns deadline zero session h e = ground arith
  wait_loop-returns deadline (suc rounds) session h e =
      let later = wait_loop-returns deadline rounds (sleep machine 10_000_000 session) in
      let slow = machine.sleeps session.log 10_000_000 in ground (arith, later, slow)

  pub wall_in_time : (now wall_time : ℕ) → now + wall_time ≤ now + 10_000_000 * wall_time
  wall_in_time now wall_time = omega arith

  -- The wall time is in nanoseconds.
  unfoldable pub wait_for_child : ℕ → Step (ExitStatus × Bool)
  unfolding wait_loop answer_of
  wait_for_child wall_time session =
      let start = machine.now session.log in
      answer_of (wait_loop (start + wall_time) (suc wall_time) session)
        (wait_loop-returns (start + wall_time) wall_time session (wall_in_time start wall_time))
