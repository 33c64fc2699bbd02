-- ===== src/Linux/Run/Group/Cleanup.antt =====
-- cage-linux/src/resources.rs: `kill_all`, `finish` and `drop` of `ResourceGroup`.
use cargo_cage.Base.{
  ℕ, zero, suc, ◌+◌, ◌*◌, ◌≤◌, ◌≢◌, true, false, not, none, ok, err, map_err, answer_of, arith,
  if◌then◌else◌,
}
use cargo_cage.Os.FilePath.{FilePath}
use cargo_cage.Core.Error.{sandbox_setup, at_path}
use cargo_cage.Linux.Resources.{EventCounters}
use cargo_cage.Linux.Run.Group.{
  restore_current_process, remove_descendants, is_tree_empty, sleep, await_empty, cleanup_timeout,
}
use cargo_cage.Linux.Run.Session.{
  kill_group, remove_group, Machine, Session, Outcome, Step, call, ◌>>=◌, ◌>>◌, done,
}

module _ (machine : Machine) where
  -- The loop ends in one round more than the units of ten milliseconds that are left.
  pub await_empty-returns :
      (path : FilePath) (deadline rounds : ℕ) (session : Session)
      → deadline ≤ machine.now session.log + 10_000_000 * rounds
      → await_empty machine path deadline (suc rounds) session ≢ none
  unfolding await_empty sleep
  await_empty-returns path deadline zero session h e = ground arith
  await_empty-returns path deadline (suc rounds) session h e =
      let later = await_empty-returns path deadline rounds (sleep machine 10_000_000 session) in
      let slow = machine.sleeps session.log 10_000_000 in ground (arith, later, slow)

  pub cleanup_in_time : (now : ℕ) → now + cleanup_timeout ≤ now + 10_000_000 * 200
  cleanup_in_time now = omega arith

  unfoldable pub await_all : FilePath → Step (Unit {0})
  unfolding await_empty answer_of
  await_all path session =
      let start = machine.now session.log in
      answer_of (await_empty machine path (start + cleanup_timeout) 201 session)
        (await_empty-returns path (start + cleanup_timeout) 200 session (cleanup_in_time start))

  unfoldable pub kill_all : FilePath → Step (Unit {0})
  unfolding call await_all
  kill_all path = do
    call machine kill_group (
        sandbox_setup (at_path path)
          "the entire sandbox process tree must be killable through cgroup.kill")
    await_all path

  unfoldable pub read_events : FilePath → Step EventCounters
  read_events path session = (
    map_err (machine.events session.log) (λ _.
        sandbox_setup (at_path path)
          "resource event counters must remain readable after the child exits"),
    session,
  )

  unfoldable pub restore_if_entered : Step (Unit {0})
  unfolding restore_current_process
  restore_if_entered session =
      if session.entered then restore_current_process machine session else (ok tt, session)

  unfoldable pub set_finished : Step (Unit {0})
  set_finished session = (ok tt, record session { finished = true })

  -- The counters after the run, if the group could be emptied and removed.
  unfoldable pub finish : FilePath → Step EventCounters
  unfolding restore_if_entered is_tree_empty kill_all remove_descendants read_events call
      set_finished
  finish path = do
    restore_if_entered
    empty ← is_tree_empty machine path
    (if not empty then kill_all path else remove_descendants machine path)
    after ← read_events path
    call machine (remove_group path) (
        sandbox_setup (at_path path)
          "the empty resource cgroup must be removable after the child exits")
    set_finished
    done after

  -- `Drop`: the group is killed unless the supervisor is still in it.
  unfoldable pub kill_if_restored : FilePath → Outcome (Unit {0}) → Session
  unfolding kill_all
  kill_if_restored path (ok restored, session) = (kill_all path session).1
  kill_if_restored path (err error, session) = session

  unfoldable pub drop_group : FilePath → Session → Session
  unfolding restore_if_entered kill_if_restored remove_descendants call
  drop_group path session =
      if session.finished
      then session
      else (let killed = kill_if_restored path (restore_if_entered session) in
          let emptied = (remove_descendants machine path killed).1 in
          (call machine (remove_group path) (sandbox_setup (at_path path) "") emptied).1)

  -- What is run while a `ResourceGroup` is in scope.
  unfoldable pub with_group : {A : Type 0} → FilePath → Step A → Step A
  unfolding drop_group
  with_group path body session =
      let (answer, end) = body (record session { entered = false; finished = false }) in
      (answer, drop_group path end)
