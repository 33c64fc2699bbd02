-- ===== src/Linux/Run/Wait/Quiet.antt =====
-- Waiting for the child starts no process.
use cargo_cage.Base.{
  ℕ, zero, suc, ◌+◌, ◌≡◌, inl, inr, Bool, true, none, some, leb, Result-cases, Bool-cases,
}
use cargo_cage.Os.FilePath.{FilePath}
use cargo_cage.Linux.Resources.{ExitStatus}
use cargo_cage.Linux.Run.Group.{sleep}
use cargo_cage.Linux.Run.Group.Cleanup.{kill_all}
use cargo_cage.Linux.Run.Wait.{unmonitored, wait, time_up, not_monitored, wait_loop, wait_for_child}
use cargo_cage.Linux.Run.Quiet.{
  Grows, Quiet, stays, grows, onward, found, answer-Grows, bind-Quiet, done-Quiet, failed-Quiet,
  ignored-Quiet, kill_all-Quiet,
}
use cargo_cage.Linux.Run.Session.{wait_child, slept, Machine, Session, Outcome}

module _ (machine : Machine) (path : FilePath) where
  pub wait-Quiet : Quiet (wait machine path)
  unfolding wait Quiet
  wait-Quiet session = grows wait_child session.log tt

  time_up-Quiet : Quiet (time_up machine path)
  unfolding time_up
  time_up-Quiet =
      bind-Quiet _ _ (kill_all-Quiet machine path)
        λ _. bind-Quiet _ _ wait-Quiet λ status. done-Quiet (status, true)

  not_monitored-Quiet : Quiet (not_monitored machine path)
  unfolding not_monitored
  not_monitored-Quiet =
      bind-Quiet _ _ (ignored-Quiet (kill_all machine path) (kill_all-Quiet machine path)) λ _.
        bind-Quiet _ _ (ignored-Quiet (wait machine path) wait-Quiet)
          λ _. failed-Quiet (ExitStatus × Bool) unmonitored

  wait_loop-Grows :
      (deadline fuel : ℕ) (session : Session) (o : Outcome (ExitStatus × Bool))
      → wait_loop machine path deadline fuel session ≡ some o
      → Grows session.log o.1.log
  unfolding wait_loop sleep Quiet
  wait_loop-Grows deadline zero session o h = cc
  wait_loop-Grows deadline (suc fuel) session o h =
      elim (Result-cases (machine.try_wait session.log)) [
        | inr (x, e) ↦ found session.log _ o (not_monitored-Quiet session) (rw (e, wait_loop) at h)
        | inl (some status, e) ↦ found session.log _ o (stays session.log) (rw (e, wait_loop) at h)
        | inl (none, e) ↦ elim (Bool-cases (leb deadline (machine.now session.log))) [
          | inl t ↦ found session.log _ o (time_up-Quiet session) (rw (e, t, wait_loop) at h)
          | inr t ↦
              let later = sleep machine 10_000_000 session in
              onward session.log later.log o.1.log (grows (slept 10_000_000) session.log tt)
                (wait_loop-Grows deadline fuel later o (rw (e, t, wait_loop) at h))
        ]
      ]

  pub wait_for_child-Quiet : (wall_time : ℕ) → Quiet (wait_for_child machine path wall_time)
  unfolding Quiet wait_for_child
  wait_for_child-Quiet wall_time session =
      answer-Grows machine session.log _ _
        (wait_loop-Grows (machine.now session.log + wall_time) (suc wall_time) session)
