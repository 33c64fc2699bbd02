-- ===== src/Linux/Launcher/Rules.antt =====
-- cage-linux/src/landlock.rs: the rules that the launcher makes of its plan. The crate `landlock` and the
-- kernel are a parameter.
pub mod Granted
pub mod Laws
use cargo_cage.Base.{
  ℕ, ◌≡◌, refl, ap, ◌∙◌, subst, inl, inr, bind_ok, ok_injective, Result-cases, arith, Bool, not,
  List, [], ◌∷◌, ◌++◌, map, ok, ◌>>=◌, ◌>>◌, map_err, reject_if, for_each, if◌then◌else◌,
}
use cargo_cage.Os.FilePath.{FilePath}
use cargo_cage.Os.Fs.{IoResult}
use cargo_cage.Core.Error.{CageError, CageResult, sandbox_setup, named}
use cargo_cage.Linux.Launcher.{LauncherPlan}

-- `AccessFs`, as far as the rules name it.
pub data Access : Type 0 where
  execute_file write_file read_file read_dir remove_dir remove_file make_dir make_reg make_sock
        make_fifo make_sym refer truncate :
      Access

abbrev pub read_access : List Access
read_access = read_file ∷ read_dir ∷ []

abbrev pub execute_access : List Access
execute_access = execute_file ∷ read_file ∷ read_dir ∷ []

abbrev pub write_access : List Access
write_access =
    execute_file ∷ write_file ∷ read_file ∷ read_dir ∷ remove_dir ∷ remove_file ∷ make_dir
    ∷ make_reg ∷ make_sym ∷ refer ∷ truncate ∷ []

abbrev pub private_access : List Access
private_access =
    execute_file ∷ write_file ∷ read_file ∷ read_dir ∷ remove_dir ∷ remove_file ∷ make_dir
    ∷ make_reg ∷ make_sock ∷ make_fifo ∷ make_sym ∷ refer ∷ truncate ∷ []

abbrev pub lockfile_access : List Access
lockfile_access = read_file ∷ write_file ∷ truncate ∷ []

abbrev pub proc_access : List Access
proc_access = read_file ∷ read_dir ∷ []

abbrev pub device_access : List Access
device_access = read_file ∷ read_dir ∷ write_file ∷ []

abbrev pub Rule : Type 0
Rule = FilePath × List Access

-- All rights of the ABI are handled, and so denied where no rule grants them.
pub record Ruleset : Type 0 where
  pub filesystem_abi : ℕ
  pub denies_tcp : Bool
  pub scoped : Bool
  pub rules : List Rule

-- `RestrictionStatus`
pub record RestrictionStatus : Type 0 where
  pub fully_enforced : Bool
  pub no_new_privs : Bool

-- What the probes find, whether the kernel takes the rights that are handled, a ruleset and a rule, and
-- what it answers when the process is restricted.
pub record Kernel : Type 0 where
  pub supports_filesystem_abi : ℕ → Bool
  pub supports_scope_abi_v6 : Bool
  pub handle_filesystem : ℕ → IoResult (Unit {0})
  pub handle_tcp : IoResult (Unit {0})
  pub handle_scope : IoResult (Unit {0})
  pub create : IoResult (Unit {0})
  pub add_rule : Rule → IoResult (Unit {0})
  pub restrict_self : Ruleset → IoResult RestrictionStatus

abbrev pub landlock_setup_error : CageError
landlock_setup_error =
    sandbox_setup (named "Landlock policy")
      "every required Landlock restriction must be enforced before the child starts"

pub record LandlockFeatures : Type 0 where
  pub filesystem_abi : ℕ
  pub scope_supported : Bool

unfoldable pub required_landlock_features : Kernel → CageResult LandlockFeatures
required_landlock_features kernel = do
  reject_if (not (kernel.supports_filesystem_abi 5)) landlock_setup_error
  ok (record {
    filesystem_abi = if kernel.supports_filesystem_abi 9 then 9 else 5;
    scope_supported = kernel.supports_scope_abi_v6;
  })

-- The rules in the order in which they are added.
unfoldable pub rules_of : LauncherPlan → List Rule
rules_of plan =
    map (λ p. (p, read_access)) plan.read_paths
    ++ (map (λ p. (p, execute_access)) plan.execute_paths
        ++ (map (λ p. (p, write_access)) plan.write_paths
            ++ (map (λ p. (p, lockfile_access)) plan.lockfile_paths
                ++ (map (λ p. (p, private_access)) plan.private_paths
                    ++ (map (λ p. (p, proc_access)) plan.proc_paths
                        ++ map (λ p. (p, device_access)) plan.device_paths)))))

add_path_rule : Kernel → Rule → CageResult (Unit {0})
add_path_rule kernel rule = map_err (kernel.add_rule rule) (λ _. landlock_setup_error)

-- The rights that are handled, the ruleset that is created, and the rules that are added.
prepare_ruleset : Kernel → LauncherPlan → LandlockFeatures → CageResult (Unit {0})
unfolding rules_of add_path_rule for_each
prepare_ruleset kernel plan features = do
  map_err (kernel.handle_filesystem features.filesystem_abi) (λ _. landlock_setup_error)
  (if plan.network_deny then map_err kernel.handle_tcp (λ _. landlock_setup_error) else ok tt)
  (if features.scope_supported
      then map_err kernel.handle_scope (λ _. landlock_setup_error)
      else ok tt)
  map_err kernel.create (λ _. landlock_setup_error)
  for_each (add_path_rule kernel) (rules_of plan)

prepared_ruleset : LauncherPlan → LandlockFeatures → Ruleset
unfolding rules_of
prepared_ruleset plan features = record {
  filesystem_abi = features.filesystem_abi;
  denies_tcp = plan.network_deny;
  scoped = features.scope_supported;
  rules = rules_of plan;
}

restrict_self : Kernel → Ruleset → CageResult (Ruleset × RestrictionStatus)
restrict_self kernel made = do
  status ← map_err (kernel.restrict_self made) (λ _. landlock_setup_error)
  ok (made, status)

unfoldable pub apply_landlock : Kernel → LauncherPlan → CageResult (Ruleset × RestrictionStatus)
unfolding required_landlock_features prepare_ruleset prepared_ruleset restrict_self
apply_landlock kernel plan = do
  features ← required_landlock_features kernel
  prepare_ruleset kernel plan features
  restrict_self kernel (prepared_ruleset plan features)
