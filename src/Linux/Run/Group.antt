-- ===== src/Linux/Run/Group.antt =====
-- cage-linux/src/resources.rs: `ResourceGroup`, from the inherited limits to the cleanup.
pub mod Cleanup
use cargo_cage.Base.{
  ℕ, zero, suc, ◌+◌, ◌-◌, ◌<◌, min, Bool, true, false, not, ◌&&◌, Option, none, some, List, [], ◌∷◌,
  Result, ok, err, map_err, leb, ltb, nat_beq, if◌then◌else◌,
}
use cargo_cage.Os.FilePath.{FilePath}
use cargo_cage.Os.Fs.{is_dir}
use cargo_cage.Core.Error.{CageError, CageResult, sandbox_setup, at_path, named}
use cargo_cage.Linux.Resources.{EffectiveResourceLimits, EventCounters}
use cargo_cage.Linux.Run.Cgroup.{check_children, unreadable_hierarchy, cgroup_tree_is_empty}
use cargo_cage.Linux.Run.Session.{
  Resource, fsize, nofile, core, Call, set_limit, enter_group, restore_supervisor, kill_group,
  slept, remove_group, Cgroup, unlisted, listed, CgroupEntries, no_more, unread_entry, entry,
  Machine, Session, Outcome, Step, call, followed_by, ◌>>=◌, ◌>>◌, done, failed, told, ignored,
}

module _ (machine : Machine) where
  unfoldable pub lower_to : Resource → ℕ → ℕ → Step ℕ
  unfolding call
  lower_to resource requested effective =
      if ltb 0 requested && nat_beq effective 0
      then failed (
          sandbox_setup (named "current cargo-cage process")
            "a resource limit must allow a positive inherited limit")
      else (do
        call machine (set_limit resource effective) (
            sandbox_setup (named "current cargo-cage process")
              "a resource limit must be lowered before Bubblewrap starts")
        done effective)

  -- Neither the soft nor the hard limit is above what was asked for.
  unfoldable pub set_lower_limit : Resource → ℕ → Step ℕ
  unfolding lower_to
  set_lower_limit resource requested session =
      let hard : ℕ = elim (machine.hard_limit session.log resource) [
        | none ↦ requested
        | some maximum ↦ maximum
      ] in
      lower_to resource requested (min requested hard) session

  unfoldable pub apply_inherited_limits : EffectiveResourceLimits → Step EffectiveResourceLimits
  unfolding set_lower_limit
  apply_inherited_limits limits = do
    file_size ← set_lower_limit fsize limits.max_file_size_bytes
    open_files ← set_lower_limit nofile limits.max_open_files
    core_size ← set_lower_limit core 0
    done (record limits { max_file_size_bytes = file_size; max_open_files = open_files })

  unfoldable pub set_entered : Bool → Step (Unit {0})
  set_entered b session = (ok tt, record session { entered = b })

  unfoldable pub enter_current_process : Step (Unit {0})
  unfolding call set_entered
  enter_current_process = do
    call machine enter_group (
        sandbox_setup (named "cgroup.procs")
          "the supervisor must be able to enter the resource cgroup safely")
    set_entered true

  unfoldable pub restore_current_process : Step (Unit {0})
  unfolding call set_entered
  restore_current_process = do
    call machine restore_supervisor (
        sandbox_setup (named "cgroup.procs")
          "the supervisor must be able to restore the cargo-cage supervisor safely")
    set_entered false

  unfoldable mutual
    unfolding call check_children

    -- Children first, each removed after its own.
    pub remove_descendant_cgroups : FilePath → Cgroup → Step (Unit {0})
    remove_descendant_cgroups path (unlisted procs error) = failed (unreadable_hierarchy path)
    remove_descendant_cgroups path (listed procs entries) =
        told (check_children path entries) >> remove_children entries

    pub remove_children : CgroupEntries → Step (Unit {0})
    remove_children no_more = done tt
    remove_children (unread_entry error entries) = remove_children entries
    remove_children (entry child (err error) group entries) = remove_children entries
    remove_children (entry child (ok metadata) group entries) =
        let here : Step (Unit {0}) =
          remove_descendant_cgroups child group
          >> call machine (remove_group child) (
              sandbox_setup (at_path child)
                "empty descendant resource cgroups must be removable after cleanup") in
        let others = remove_children entries in if is_dir metadata then here >> others else others

  -- `remove_descendant_cgroups` on the group as it is now.
  unfoldable pub remove_descendants : FilePath → Step (Unit {0})
  unfolding remove_descendant_cgroups
  remove_descendants path session =
      remove_descendant_cgroups path (machine.group session.log) session

  unfoldable pub is_tree_empty : FilePath → Step Bool
  unfolding cgroup_tree_is_empty
  is_tree_empty path session = (cgroup_tree_is_empty path (machine.group session.log), session)

  unfoldable pub sleep : ℕ → Session → Session
  sleep duration session = record session { log = slept duration ∷ session.log }

  -- The loop of `kill_all`, which ends when the group is empty, unreadable, or the time is up.
  unfoldable pub await_empty : FilePath → ℕ → ℕ → Session → Option (Outcome (Unit {0}))
  unfolding is_tree_empty remove_descendants sleep
  await_empty path deadline zero session = none
  await_empty path deadline (suc fuel) session =
      let later = await_empty path deadline fuel (sleep 10_000_000 session) in
      elim (cgroup_tree_is_empty path (machine.group session.log)) [
        | err error ↦ some (err error, session)
        | ok true ↦ some (remove_descendants path session)
        | ok false ↦
            if leb deadline (machine.now session.log)
            then some (
              err (
                  sandbox_setup (at_path path)
                    "all sandbox descendants must exit during resource cleanup"),
              session,
            )
            else later
      ]

-- Nanoseconds: two seconds.
abbrev pub cleanup_timeout : ℕ
cleanup_timeout = 2_000_000_000
