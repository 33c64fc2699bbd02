-- ===== src/Linux/Run/Inner/Laws.antt =====
-- What stands in the log of a run around the start of its child.
use cargo_cage.Base.{
  ℕ, ◌≤◌, ◌≡◌, refl, sym, ap, ◌∙◌, subst, ◌⊎◌, inl, inr, false, List, ◌∷◌, ok, err, ok_injective,
  arith, list_eq, nat_eq,
}
use cargo_cage.Os.Text.{OsString}
use cargo_cage.Os.FilePath.{FilePath}
use cargo_cage.Core.Error.{CageError, CageResult}
use cargo_cage.Core.Request.{OutputMode, inherit_output, capture, SandboxOutcome}
use cargo_cage.Linux.Resources.{EffectiveResourceLimits, EventCounters}
use cargo_cage.Linux.Run.Group.{
  lower_to, set_lower_limit, apply_inherited_limits, set_entered, enter_current_process,
}
use cargo_cage.Linux.Run.Group.Cleanup.{with_group}
use cargo_cage.Linux.Run.Wait.{wait}
use cargo_cage.Linux.Run.Wait.Quiet.{wait-Quiet, wait_for_child-Quiet}
use cargo_cage.Linux.Run.Output.Quiet.{end_child-Quiet, capture_child_output-Quiet}
use cargo_cage.Linux.Run.Quiet.{
  Grows, Quiet, stays, onward, followed_by-Grows, bind-Quiet, done-Quiet, failed-Quiet, told-Quiet,
  ignored-Quiet, set_lower_limit-Quiet, restore-Quiet, enter-Quiet, finish-Quiet, drop_group-Grows,
}
use cargo_cage.Linux.Run.Session.{
  Resource, fsize, nofile, core, spawn, set_limit, enter_group, Log, Machine, Session, Outcome,
  Step, call, followed_by, ◌>>◌, told,
}
use cargo_cage.Linux.Run.Inner.{
  kill_unrestored, wait_only, with_no_output, restored_or_killed, restore_or_kill, supervise,
  report, enter_limited, see_through, spawn_child, in_group, run_inner,
}

-- The parts of two steps that succeed.
step_ok :
    {A B : Type 0} (o : Outcome A) (next : A → Step B) (b : B) (end : Session)
    → followed_by o next ≡ (ok b, end)
    → (a : A) × (between : Session) × (o ≡ (ok a, between)) × (next a between ≡ (ok b, end))
step_ok (ok a, session) next b end h = (a, session, refl, h)
step_ok (err e, session) next b end h = cc

module _ (machine : Machine) where
  lowered_limit :
      (resource : Resource) (requested effective n : ℕ) (session end : Session)
      → lower_to machine resource requested effective session ≡ (ok n, end)
      → (n ≡ effective) × (end.log ≡ set_limit resource effective ∷ session.log)
  unfolding lower_to call
  lowered_limit resource requested effective n session end h = ground arith

  lower_limit :
      (resource : Resource) (requested n : ℕ) (session end : Session)
      → set_lower_limit machine resource requested session ≡ (ok n, end)
      → (n ≤ requested) × (end.log ≡ set_limit resource n ∷ session.log)
  unfolding set_lower_limit
  lower_limit resource requested n session end h =
      let (same, l) = lowered_limit resource requested _ n session end h in
      (omega (arith, same), l ∙ ap (λ k. set_limit resource k ∷ session.log) (sym same))

  -- The calls before the child is spawned, none of whose limits exceeds what is allowed.
  pub record IsReady (limits lowered : EffectiveResourceLimits) (before ready : Log) : Type 0 where
    pub calls :
        ready
        ≡ enter_group
          ∷ set_limit core 0
          ∷ set_limit nofile lowered.max_open_files
          ∷ set_limit fsize lowered.max_file_size_bytes
          ∷ before
    pub few_files : lowered.max_open_files ≤ limits.max_open_files
    pub small_files : lowered.max_file_size_bytes ≤ limits.max_file_size_bytes

  AreLowered : EffectiveResourceLimits → EffectiveResourceLimits → Log → Log → Type 0
  AreLowered limits lowered before after =
      (after
        ≡ set_limit core 0
          ∷ set_limit nofile lowered.max_open_files
          ∷ set_limit fsize lowered.max_file_size_bytes
          ∷ before)
      × (lowered.max_open_files ≤ limits.max_open_files)
      × (lowered.max_file_size_bytes ≤ limits.max_file_size_bytes)

  with_limits : EffectiveResourceLimits → ℕ → ℕ → EffectiveResourceLimits
  with_limits limits size files = record limits {
    max_file_size_bytes = size;
    max_open_files = files;
  }

  with_limits-AreLowered :
      (limits lowered : EffectiveResourceLimits) (size files rest : ℕ) (a b c d : Log)
      → size ≤ limits.max_file_size_bytes
      → files ≤ limits.max_open_files
      → rest ≤ 0
      → b ≡ set_limit fsize size ∷ a
      → c ≡ set_limit nofile files ∷ b
      → d ≡ set_limit core rest ∷ c
      → with_limits limits size files ≡ lowered
      → AreLowered limits lowered a d
  unfolding AreLowered with_limits
  with_limits-AreLowered limits lowered size files rest a b c d small few at_zero e f g same =
      let none_left : rest ≡ 0 = omega arith in
      let same_files : files ≡ lowered.max_open_files = ap (λ l. l.max_open_files) same in
      let same_size : size ≡ lowered.max_file_size_bytes = ap (λ l. l.max_file_size_bytes) same in
      (
        cc,
        subst (λ n. n ≤ limits.max_open_files) same_files few,
        subst (λ n. n ≤ limits.max_file_size_bytes) same_size small,
      )

  apply_inherited_limits-AreLowered :
      (limits lowered : EffectiveResourceLimits) (session end : Session)
      → apply_inherited_limits machine limits session ≡ (ok lowered, end)
      → AreLowered limits lowered session.log end.log
  unfolding apply_inherited_limits with_limits
  apply_inherited_limits-AreLowered limits lowered session end h =
      let (f, s1, e1, h1) =
        step_ok (set_lower_limit machine fsize limits.max_file_size_bytes session) _ lowered end
          h in
      let (o, s2, e2, h2) =
        step_ok (set_lower_limit machine nofile limits.max_open_files s1) _ lowered end h1 in
      let (c, s3, e3, h3) = step_ok (set_lower_limit machine core 0 s2) _ lowered end h2 in
      let (small, l1) = lower_limit fsize limits.max_file_size_bytes f session s1 e1 in
      let (few, l2) = lower_limit nofile limits.max_open_files o s1 s2 e2 in
      let (at_zero, l3) = lower_limit core 0 c s2 s3 e3 in
      with_limits-AreLowered limits lowered f o c session.log s1.log s2.log end.log small few
        at_zero l1 l2 (subst (λ s. s.log ≡ set_limit core c ∷ s2.log) (ap (λ r. r.1) h3) l3)
        (ok_injective (ap (λ r. r.0) h3))

  enter-log :
      (session end : Session)
      → enter_current_process machine session ≡ (ok tt, end)
      → end.log ≡ enter_group ∷ session.log
  unfolding enter_current_process set_entered call
  enter-log session end h = ground arith

  lowered_log : EffectiveResourceLimits → Log → Log
  lowered_log lowered before =
      set_limit core 0
      ∷ set_limit nofile lowered.max_open_files
      ∷ set_limit fsize lowered.max_file_size_bytes
      ∷ before

  ready :
      (limits lowered found : EffectiveResourceLimits) (before between after : Log)
      → found ≡ lowered
      → between ≡ lowered_log found before
      → found.max_open_files ≤ limits.max_open_files
      → found.max_file_size_bytes ≤ limits.max_file_size_bytes
      → after ≡ enter_group ∷ between
      → IsReady limits lowered before after
  unfolding lowered_log
  ready limits lowered found before between after same l few small e =
      subst (λ f. IsReady limits f before after) same
        (record { calls = e ∙ ap (λ b. enter_group ∷ b) l; few_files = few; small_files = small })

  enter_limited-IsReady :
      (limits lowered : EffectiveResourceLimits) (command : CageResult (List OsString))
      (args : List OsString) (session end : Session)
      → enter_limited machine limits command session ≡ (ok (args, lowered), end)
      → (command ≡ ok args) × IsReady limits lowered session.log end.log
  unfolding enter_limited AreLowered lowered_log
  enter_limited-IsReady limits lowered command args session end h =
      let (a, s1, e1, h1) = step_ok (told command session) _ (args, lowered) end h in
      let (l, s2, e2, h2) =
        step_ok (apply_inherited_limits machine limits s1) _ (args, lowered) end h1 in
      let (u, s3, e3, h3) = step_ok (enter_current_process machine s2) _ (args, lowered) end h2 in
      let same : (a, l) ≡ (args, lowered) = ok_injective (ap (λ r. r.0) h3) in
      let start : session ≡ s1 = ap (λ r. r.1) e1 in
      let (c, few, small) = apply_inherited_limits-AreLowered limits l s1 s2 e2 in
      (
        ap (λ r. r.0) e1 ∙ ap (λ p. ok p.0) same,
        ready limits lowered l session.log s2.log end.log (ap (λ p. p.1) same)
            (c ∙ ap (λ s. lowered_log l s.log) (sym start)) few small
            (sym (ap (λ r. r.1.log) h3) ∙ enter-log s2 s3 e3),
      )

  apply_inherited_limits-Quiet :
      (limits : EffectiveResourceLimits) → Quiet (apply_inherited_limits machine limits)
  unfolding apply_inherited_limits with_limits
  apply_inherited_limits-Quiet limits =
      bind-Quiet _ _ (set_lower_limit-Quiet machine fsize limits.max_file_size_bytes) λ size.
        bind-Quiet _ _ (set_lower_limit-Quiet machine nofile limits.max_open_files) λ files.
          bind-Quiet _ _ (set_lower_limit-Quiet machine core 0)
            λ _. done-Quiet (with_limits limits size files)

  enter_limited-Quiet :
      (limits : EffectiveResourceLimits) (command : CageResult (List OsString))
      → Quiet (enter_limited machine limits command)
  unfolding enter_limited
  enter_limited-Quiet limits command = bind-Quiet _ _ (told-Quiet command) λ args.
      bind-Quiet _ _ (apply_inherited_limits-Quiet limits) λ lowered.
        bind-Quiet _ _ (enter-Quiet machine)
          λ _. done-Quiet {A = List OsString × EffectiveResourceLimits} (args, lowered)

  module _ (bwrap path : FilePath) where
    kill_unrestored-Quiet : (error : CageError) → Quiet (kill_unrestored machine path error)
    unfolding kill_unrestored
    kill_unrestored-Quiet error = bind-Quiet _ _ (end_child-Quiet machine path) λ _.
        bind-Quiet _ _ (ignored-Quiet (wait machine path) (wait-Quiet machine path))
          λ _. failed-Quiet (Unit {0}) error

    wait_only-Quiet : (wall_time : ℕ) → Quiet (wait_only machine path wall_time)
    unfolding wait_only
    wait_only-Quiet wall_time =
        bind-Quiet _ _ (wait_for_child-Quiet machine path wall_time)
          λ result. done-Quiet (with_no_output machine path result)

    restored_or_killed-Grows :
        (log : Log) (o : Outcome (Unit {0}))
        → Grows log o.1.log
        → Grows log (restored_or_killed machine path o).1.log
    unfolding restored_or_killed Quiet
    restored_or_killed-Grows log (ok restored, session) g = g
    restored_or_killed-Grows log (err error, session) g =
        onward log session.log _ g (kill_unrestored-Quiet error session)

    restore_or_kill-Quiet : Quiet (restore_or_kill machine path)
    unfolding restore_or_kill Quiet
    restore_or_kill-Quiet session =
        restored_or_killed-Grows session.log _ (restore-Quiet machine session)

    supervise-Quiet :
        (mode : OutputMode) (wall_time : ℕ) → Quiet (supervise machine path mode wall_time)
    unfolding supervise Quiet
    supervise-Quiet inherit_output wall_time session = wait_only-Quiet wall_time session
    supervise-Quiet capture wall_time session =
        capture_child_output-Quiet machine path wall_time session

    see_through-Quiet :
        (before : EventCounters) (mode : OutputMode) (limits : EffectiveResourceLimits)
        → Quiet (see_through machine path before mode limits)
    unfolding see_through
    see_through-Quiet before mode limits = bind-Quiet _ _ restore_or_kill-Quiet λ _.
        bind-Quiet _ _ (supervise-Quiet mode limits.max_wall_time) λ result.
          bind-Quiet _ _ (finish-Quiet machine path) λ after.
            bind-Quiet _ _ (told-Quiet result)
              λ output. told-Quiet (report machine path before after output)

    -- The child is spawned and seen through.
    go_on :
        EventCounters
        → OutputMode
        → Outcome (List OsString × EffectiveResourceLimits)
        → Outcome SandboxOutcome
    unfolding spawn_child see_through
    go_on before mode o = followed_by o (λ (args, lowered).
        spawn_child machine bwrap path args >> see_through machine path before mode lowered)

    -- One process is started, with the arguments of the command, when the supervisor has just entered
    -- the group and lowered the limits that the child inherits; no other is started before or after.
    pub record IsLaunched (limits : EffectiveResourceLimits) (command : CageResult (List OsString))
        (before after : Log) : Type 0 where
      pub args : List OsString
      pub lowered : EffectiveResourceLimits
      pub ready : Log
      pub asked : command ≡ ok args
      pub prepared : IsReady limits lowered before ready
      pub later : Grows (spawn args ∷ ready) after

    launched :
        (limits : EffectiveResourceLimits) (before : EventCounters)
        (command : CageResult (List OsString)) (mode : OutputMode) (session : Session)
        (o : Outcome (List OsString × EffectiveResourceLimits))
        → enter_limited machine limits command session ≡ o
        → Grows session.log o.1.log
        → Grows session.log (go_on before mode o).1.log
          ⊎ IsLaunched limits command session.log (go_on before mode o).1.log
    unfolding go_on spawn_child call Quiet
    launched limits before command mode session (err e, end) h g = inl g
    launched limits before command mode session (ok (args, lowered), end) h g =
        let (asked, ready) = enter_limited-IsReady limits lowered command args session end h in
        inr (record {
          args = args;
          lowered = lowered;
          ready = end.log;
          asked = asked;
          prepared = ready;
          later =
              followed_by-Grows (spawn args ∷ end.log) (spawn_child machine bwrap path args end)
                (λ _. see_through machine path before mode lowered) (stays (spawn args ∷ end.log))
                (λ _. see_through-Quiet before mode lowered);
        })

    in_group-IsLaunched :
        (limits : EffectiveResourceLimits) (before : EventCounters)
        (command : CageResult (List OsString)) (mode : OutputMode) (session : Session)
        → Grows session.log (in_group machine bwrap path limits before command mode session).1.log
          ⊎ IsLaunched limits command session.log
              (in_group machine bwrap path limits before command mode session).1.log
    unfolding in_group go_on Quiet
    in_group-IsLaunched limits before command mode session =
        launched limits before command mode session (enter_limited machine limits command session)
          refl (enter_limited-Quiet limits command session)

    -- A run starts no process at all, or just one, when it is ready.
    pub run_inner-IsLaunched :
        (limits : EffectiveResourceLimits) (before : EventCounters)
        (command : CageResult (List OsString)) (mode : OutputMode) (session : Session)
        → Grows session.log
            (run_inner machine bwrap path (ok (limits, before)) command mode session).1.log
          ⊎ IsLaunched limits command session.log
              (run_inner machine bwrap path (ok (limits, before)) command mode session).1.log
    unfolding run_inner with_group
    run_inner-IsLaunched limits before command mode session =
        let fresh = record session { entered = false; finished = false } in
        let end = (in_group machine bwrap path limits before command mode fresh).1 in
        let dropped = drop_group-Grows machine path end in
        elim (in_group-IsLaunched limits before command mode fresh) [
          | inl g ↦ inl (onward session.log end.log _ g dropped)
          | inr l ↦ inr (record {
            args = l.args;
            lowered = l.lowered;
            ready = l.ready;
            asked = l.asked;
            prepared = l.prepared;
            later = onward (spawn l.args ∷ l.ready) end.log _ l.later dropped;
          })
        ]
