-- ===== src/Linux/Launcher/Launch/Laws.antt =====
-- What a program that the launcher starts may do.
use cargo_cage.Base.{
  ◌≡◌, refl, ap, ◌∙◌, subst, Bool, true, false, not, ◌&&◌, ◌||◌, List, ok, map_err_ok, bind_ok,
  guard_ok, ok_injective, In, In-keep, arith, list_eq, nat_eq, list_beq_iff,
}
use cargo_cage.Os.Text.{OsString}
use cargo_cage.Os.FilePath.{FilePath}
use cargo_cage.Core.Environment.Names.{
  is_allowed_sandbox_environment_name, is_sensitive_environment_name,
}
use cargo_cage.Linux.Launcher.{LauncherPlan, parse}
use cargo_cage.Linux.Launcher.Rules.{
  Access, Rule, Kernel, landlock_setup_error, apply_landlock, write_file, execute_file,
}
use cargo_cage.Linux.Launcher.Rules.Laws.{IsHandled, apply_landlock-IsApplied}
use cargo_cage.Linux.Launcher.Launch.{
  Process, context_path, launcher_context_content, inspect_marker, read_marker, check_marker,
  verify_launcher_context, is_passed, Launch, launch_plan, launch,
}
use cargo_cage.Linux.Launcher.Rules.Granted.{
  IsGranted, MayWrite, MayExecute, rules_of-IsGranted, IsGranted-MayWrite, IsGranted-MayExecute,
}

passed : (a b c : Bool) → (a || (b && not c)) ≡ true → a ≡ false → (b ≡ true) × (c ≡ false)
passed a b c h e = ground arith

module _ (process : Process) (kernel : Kernel) (plan : LauncherPlan) where
  -- What a started program is under.
  pub record IsEnforced (launched : Launch) : Type 0 where
    pub marked : process.read context_path ≡ ok launcher_context_content
    pub enforced : launched.status.fully_enforced ≡ true
    pub unprivileged : launched.status.no_new_privs ≡ true
    pub restricted : kernel.restrict_self launched.restriction ≡ ok launched.status
    pub granted :
        (path : FilePath) (rights : List Access)
        → In (path, rights) launched.restriction.rules
        → IsGranted plan path rights
    pub written :
        (path : FilePath) (rights : List Access)
        → In (path, rights) launched.restriction.rules
        → In write_file rights
        → MayWrite plan path
    pub executed :
        (path : FilePath) (rights : List Access)
        → In (path, rights) launched.restriction.rules
        → In execute_file rights
        → MayExecute plan path
    pub handled : IsHandled kernel plan launched.restriction
    pub added : (rule : Rule) → In rule launched.restriction.rules → kernel.add_rule rule ≡ ok tt
    pub few_variables :
        (k v : OsString)
        → In (k, v) launched.environment
        → plan.inherit_environment ≡ false
        → (is_allowed_sandbox_environment_name k ≡ true) × (is_sensitive_environment_name k ≡ false)
    pub same_program : launched.program ≡ plan.program

  verify_launcher_context-marked :
      verify_launcher_context process ≡ ok tt
      → process.read context_path ≡ ok launcher_context_content
  unfolding verify_launcher_context read_marker check_marker
  verify_launcher_context-marked h =
      let (u, e1, h1) = bind_ok (inspect_marker process) _ tt h in
      let (content, e2, h2) = bind_ok (read_marker process) check_marker tt h1 in
      let same : content ≡ launcher_context_content =
        ground (arith, list_beq_iff content launcher_context_content) in
      map_err_ok (process.read context_path) _ content e2 ∙ ap ok same

  is_passed-safe :
      (k v : OsString)
      → is_passed plan (k, v) ≡ true
      → plan.inherit_environment ≡ false
      → (is_allowed_sandbox_environment_name k ≡ true) × (is_sensitive_environment_name k ≡ false)
  unfolding is_passed
  is_passed-safe k v h e =
      passed plan.inherit_environment (is_allowed_sandbox_environment_name k)
        (is_sensitive_environment_name k) h e

  launch_plan-IsEnforced :
      (launched : Launch) → launch_plan process kernel plan ≡ ok launched → IsEnforced launched
  unfolding launch_plan
  launch_plan-IsEnforced launched h =
      let (u, marked, h1) = bind_ok (verify_launcher_context process) _ launched h in
      let ((made, status), applied, h2) = bind_ok (apply_landlock kernel plan) _ launched h1 in
      let (ok_status, h3) =
        guard_ok (not status.fully_enforced || not status.no_new_privs) landlock_setup_error _
          launched h2 in
      let done = apply_landlock-IsApplied kernel plan made status applied in
      subst IsEnforced (ok_injective h3) (record {
        marked = verify_launcher_context-marked marked;
        enforced = ground arith;
        unprivileged = ground arith;
        restricted = done.restricted;
        granted = λ path rights m.
            rules_of-IsGranted plan path rights (subst (In (path, rights)) done.same_rules m);
        written = λ path rights m.
            IsGranted-MayWrite plan path rights
              (rules_of-IsGranted plan path rights (subst (In (path, rights)) done.same_rules m));
        executed = λ path rights m.
            IsGranted-MayExecute plan path rights
              (rules_of-IsGranted plan path rights (subst (In (path, rights)) done.same_rules m));
        handled = done.handled;
        added = done.added;
        few_variables =
            λ k v m. is_passed-safe k v ((In-keep (is_passed plan) process.vars (k, v)).0 m).1;
        same_program = refl;
      })

-- A program that the launcher starts is the one of the arguments, and it runs below the marker of
-- Bubblewrap under fully enforced rules without new privileges. The ruleset handles the file system's
-- rights of a supported ABI from the fifth on, of the ninth if it is supported, TCP if the network is
-- denied, and scopes if they are supported. Its rules, which the kernel took, grant a path no other
-- rights than its option does; those to write files go to writable, lockfile, private and device
-- paths, and those to execute files to executable, writable and private ones. Unless the environment
-- is inherited, the variables of the program are allowed and not sensitive.
pub launch-IsEnforced :
    (process : Process) (kernel : Kernel) (args : List OsString) (launched : Launch)
    → launch process kernel args ≡ ok launched
    → (plan : LauncherPlan) × (parse args ≡ ok plan) × IsEnforced process kernel plan launched
unfolding launch
launch-IsEnforced process kernel args launched h =
    let (plan, parsed, h1) = bind_ok (parse args) _ launched h in
    (plan, parsed, launch_plan-IsEnforced process kernel plan launched h1)
