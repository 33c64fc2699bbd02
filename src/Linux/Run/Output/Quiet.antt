-- ===== src/Linux/Run/Output/Quiet.antt =====
-- Capturing the output of the child starts no process.
use cargo_cage.Base.{
  ℕ, zero, suc, ◌+◌, ◌≡◌, inl, inr, Bool, true, false, not, ◌&&◌, none, some, leb, Result-cases,
}
use cargo_cage.Os.FilePath.{FilePath}
use cargo_cage.Core.Error.{CageError, io, named}
use cargo_cage.Linux.Resources.{ExitStatus}
use cargo_cage.Linux.Run.Group.{sleep}
use cargo_cage.Linux.Run.Group.Cleanup.{kill_all}
use cargo_cage.Linux.Run.Wait.{wait}
use cargo_cage.Linux.Run.Wait.Quiet.{wait-Quiet}
use cargo_cage.Linux.Run.Output.{
  output_unmonitored, pipes_missing, end_child, kill_everything, check_output, check_time, checks,
  give_up, capture_loop, watch, joined, no_pipes, watched, capture_child_output,
}
use cargo_cage.Linux.Run.Quiet.{
  Grows, Quiet, stays, grows, onward, found, answer-Grows, if-Quiet, bind-Quiet, done-Quiet,
  failed-Quiet, ignored-Quiet, call-Quiet, kill_all-Quiet,
}
use cargo_cage.Linux.Run.Session.{kill_child, slept, Machine, Session, Outcome}

module _ (machine : Machine) (path : FilePath) where
  pub end_child-Quiet : Quiet (end_child machine path)
  unfolding end_child
  end_child-Quiet = ignored-Quiet _ (call-Quiet machine kill_child (io "" (named "Bubblewrap")) tt)

  kill_everything-Quiet : Quiet (kill_everything machine path)
  unfolding kill_everything
  kill_everything-Quiet = bind-Quiet _ _ (kill_all-Quiet machine path) λ _. end_child-Quiet

  check_output-Quiet : (killed : Bool) → Quiet (check_output machine path killed)
  unfolding check_output Quiet
  check_output-Quiet killed session =
      if-Quiet (machine.over_limit session.log && not killed) _ _
        (bind-Quiet _ _ kill_everything-Quiet λ _. done-Quiet true) (done-Quiet killed) session

  check_time-Quiet :
      (deadline : ℕ) (state : Bool × Bool) → Quiet (check_time machine path deadline state)
  unfolding check_time Quiet
  check_time-Quiet deadline (killed, expired) session =
      if-Quiet (leb deadline (machine.now session.log) && not killed) _ _
        (bind-Quiet _ _ kill_everything-Quiet λ _. done-Quiet {A = Bool × Bool} (true, true))
        (done-Quiet {A = Bool × Bool} (killed, expired)) session

  checks-Quiet : (deadline : ℕ) (state : Bool × Bool) → Quiet (checks machine path deadline state)
  unfolding checks
  checks-Quiet deadline (killed, expired) =
      bind-Quiet _ _ (check_output-Quiet killed) λ k. check_time-Quiet deadline (k, expired)

  give_up-Quiet : (error : CageError) → Quiet (give_up machine path error)
  unfolding give_up
  give_up-Quiet error =
      bind-Quiet _ _ (ignored-Quiet (kill_all machine path) (kill_all-Quiet machine path)) λ _.
        bind-Quiet _ _ end_child-Quiet λ _.
          bind-Quiet _ _ (ignored-Quiet (wait machine path) (wait-Quiet machine path))
            λ _. failed-Quiet (ExitStatus × Bool) error

  capture_loop-Grows :
      (deadline fuel : ℕ) (state : Bool × Bool) (session : Session)
      (o : Outcome (ExitStatus × Bool))
      → capture_loop machine path deadline fuel state session ≡ some o
      → Grows session.log o.1.log
  unfolding capture_loop sleep Quiet
  capture_loop-Grows deadline zero state session o h = cc
  capture_loop-Grows deadline (suc fuel) state session o h =
      let now = (checks machine path deadline state session).1 in
      let checked = checks-Quiet deadline state session in
      elim (Result-cases (checks machine path deadline state session).0) [
        | inr (x, e) ↦ found session.log _ o checked (rw (e, capture_loop) at h)
        | inl (next, e) ↦ elim (Result-cases (machine.try_wait now.log)) [
          | inr (x, w) ↦
              found session.log _ o
                (onward session.log now.log _ checked (give_up-Quiet output_unmonitored now))
                (rw (e, w, capture_loop) at h)
          | inl (some status, w) ↦ found session.log _ o checked (rw (e, w, capture_loop) at h)
          | inl (none, w) ↦
              let later = sleep machine 5_000_000 now in
              onward session.log now.log o.1.log checked (
                onward now.log later.log o.1.log (grows (slept 5_000_000) now.log tt)
                  (capture_loop-Grows deadline fuel next later o (rw (e, w, capture_loop) at h)))
        ]
      ]

  watch-Quiet : (wall_time : ℕ) → Quiet (watch machine path wall_time)
  unfolding watch Quiet
  watch-Quiet wall_time session = answer-Grows machine session.log _ _ (
      capture_loop-Grows (machine.now session.log + wall_time) (suc (wall_time + machine.grace))
        (false, false) session)

  joined-Quiet : (result : ExitStatus × Bool) → Quiet (joined machine path result)
  unfolding joined Quiet
  joined-Quiet result session = stays session.log

  no_pipes-Quiet : Quiet (no_pipes machine path)
  unfolding no_pipes
  no_pipes-Quiet =
      bind-Quiet _ _ (ignored-Quiet (kill_all machine path) (kill_all-Quiet machine path)) λ _.
        bind-Quiet _ _ end_child-Quiet λ _.
          bind-Quiet _ _ (ignored-Quiet (wait machine path) (wait-Quiet machine path))
            λ _. failed-Quiet (ExitStatus × Bool) pipes_missing

  watched-Quiet : (wall_time : ℕ) → Quiet (watched machine path wall_time)
  unfolding watched Quiet
  watched-Quiet wall_time session =
      if-Quiet (machine.pipes session.log) (watch machine path wall_time) (no_pipes machine path)
        (watch-Quiet wall_time) no_pipes-Quiet session

  pub capture_child_output-Quiet :
      (wall_time : ℕ) → Quiet (capture_child_output machine path wall_time)
  unfolding capture_child_output
  capture_child_output-Quiet wall_time =
      bind-Quiet (watched machine path wall_time) (joined machine path) (watched-Quiet wall_time)
        joined-Quiet
