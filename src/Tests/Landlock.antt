-- ===== src/Tests/Landlock.antt =====
-- Runs of the internal launcher.
use cargo_cage.Base.{◌≡◌, refl, Bool, true, false, List, [], ◌∷◌, ok, err, list_beq, for_each}
use cargo_cage.Os.Text.{OsString, bytes, is_utf8}
use cargo_cage.Os.FilePath.{path_of, is_absolute, has_parent_dir, component_beq}
use cargo_cage.Os.Fs.{Metadata, regular}
use cargo_cage.Core.Environment.Names.{
  is_allowed_sandbox_environment_name, is_sensitive_environment_name,
}
use cargo_cage.Linux.Launcher.{LauncherPlan, parse}
use cargo_cage.Linux.Launcher.Rules.{Kernel, landlock_setup_error}
use cargo_cage.Linux.Launcher.Launch.{Process, launcher_context_content, is_passed, Launch, launch}
use cargo_cage.Linux.Launcher.Launch.Laws.{IsEnforced, launch-IsEnforced}

abbrev marker : Metadata
marker = record { file_type = regular; nlink = 1; dev = 0; ino = 1; mode = 0; len = 31 }

abbrev process : Process
process = record {
  fs = record {
    symlink_metadata = λ p. ok marker;
    metadata = λ p. ok marker;
    canonicalize = λ p. ok p;
  };
  read = λ p. ok launcher_context_content;
  vars = (bytes "PATH", bytes "/usr/bin") ∷ (bytes "GITHUB_TOKEN", bytes "x") ∷ [];
}

-- A kernel that grants everything, or one that enforces only a part.
kernel_with : Bool → Kernel
kernel_with enforces = record {
  supports_filesystem_abi = λ abi. true;
  supports_scope_abi_v6 = true;
  handle_filesystem = λ abi. ok tt;
  handle_tcp = ok tt;
  handle_scope = ok tt;
  create = ok tt;
  add_rule = λ rule. ok tt;
  restrict_self = λ made. ok (record { fully_enforced = enforces; no_new_privs = true });
}

abbrev line : List OsString
line =
    bytes "--landlock-write"
    ∷ bytes "/w"
    ∷ bytes "--landlock-network-deny"
    ∷ bytes "--"
    ∷ bytes "/usr/bin/cargo"
    ∷ bytes "build"
    ∷ []

launched : (l : Launch) × (launch process (kernel_with true) line ≡ ok l)
unfolding launch kernel_with parse path_of list_beq component_beq is_absolute has_parent_dir
    for_each is_allowed_sandbox_environment_name is_sensitive_environment_name
launched = (_, refl)

-- The token does not reach the program.
variables : launched.0.environment ≡ (bytes "PATH", bytes "/usr/bin") ∷ []
unfolding launched is_allowed_sandbox_environment_name is_sensitive_environment_name is_utf8
    list_beq is_passed
variables = refl

half_enforced : launch process (kernel_with false) line ≡ err landlock_setup_error
unfolding launch kernel_with parse path_of list_beq component_beq is_absolute has_parent_dir
    for_each is_allowed_sandbox_environment_name is_sensitive_environment_name
half_enforced = refl

launch_example :
    (plan : LauncherPlan) × (parse line ≡ ok plan)
    × IsEnforced process (kernel_with true) plan launched.0
launch_example = launch-IsEnforced process (kernel_with true) line launched.0 launched.1
