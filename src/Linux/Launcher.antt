-- ===== src/Linux/Launcher.antt =====
-- cage-linux/src/landlock.rs: the arguments of the internal launcher and their parser.
pub mod Options
pub mod Rules
pub mod Launch
use Prim.Native.String.{◌++◌ as ◌<>◌}
use cargo_cage.Base.{
  Bool, true, false, not, List, [], ◌∷◌, ◌++◌, Result, ok, err, ◌>>=◌, ◌>>◌, reject_if, ◌==◌,
  list_eq, nat_eq, list_beq, if◌then◌else◌, String,
}
use cargo_cage.Os.Text.{OsString, bytes}
use cargo_cage.Os.FilePath.{
  FilePath, root, path_of, is_absolute, has_parent_dir, component_eq, component_beq,
}
use cargo_cage.Core.Error.{CageResult, invalid_invocation, policy, at_path}
use Options.{
  PathOption, read, execute, write, lockfile, private, proc, device, LauncherOption, path_option,
  network_deny_option, inherit_environment_option, separator, unknown, launcher_option,
  option_label,
}

pub record LauncherPlan : Type 0 where
  pub read_paths : List FilePath
  pub execute_paths : List FilePath
  pub write_paths : List FilePath
  pub lockfile_paths : List FilePath
  pub private_paths : List FilePath
  pub proc_paths : List FilePath
  pub device_paths : List FilePath
  pub network_deny : Bool
  pub inherit_environment : Bool
  pub program : FilePath
  pub args : List OsString

abbrev pub empty_launcher_plan : LauncherPlan
empty_launcher_plan = record {
  read_paths = [];
  execute_paths = [];
  write_paths = [];
  lockfile_paths = [];
  private_paths = [];
  proc_paths = [];
  device_paths = [];
  network_deny = false;
  inherit_environment = false;
  program = [];
  args = [];
}

unfoldable pub validate_launcher_path : OsString → String → CageResult FilePath
validate_launcher_path value label = do
  let path = path_of value
  reject_if (not (is_absolute path))
      (policy (at_path path) (label <> " must be an absolute sandbox path"))
  reject_if (has_parent_dir path)
      (policy (at_path path) (label <> " must not contain parent-directory traversal"))
  reject_if (path == root) (policy (at_path path) (label <> " must not be the filesystem root"))
  ok path

-- `plan.read_paths.push(path)`, and so for each option.
abbrev pub push_path : PathOption → FilePath → LauncherPlan → LauncherPlan
push_path read p plan = record plan { read_paths = plan.read_paths ++ p ∷ [] }
push_path execute p plan = record plan { execute_paths = plan.execute_paths ++ p ∷ [] }
push_path write p plan = record plan { write_paths = plan.write_paths ++ p ∷ [] }
push_path lockfile p plan = record plan { lockfile_paths = plan.lockfile_paths ++ p ∷ [] }
push_path private p plan = record plan { private_paths = plan.private_paths ++ p ∷ [] }
push_path proc p plan = record plan { proc_paths = plan.proc_paths ++ p ∷ [] }
push_path device p plan = record plan { device_paths = plan.device_paths ++ p ∷ [] }

abbrev missing_separator : CageResult LauncherPlan
missing_separator =
    err (invalid_invocation "internal Landlock launcher is missing the -- program separator")

-- The loop of `LauncherPlan::parse`, with `next_path` in the case of an option that takes a path.
unfoldable pub parse_from : LauncherPlan → List OsString → CageResult LauncherPlan
parse_from plan [] = missing_separator
parse_from plan (option ∷ []) = elim (launcher_option option) [
  | separator ↦ err (invalid_invocation "internal Landlock launcher is missing its program")
  | path_option o ↦ err (
      invalid_invocation
        ("internal Landlock launcher option " <> option_label o <> " needs a path"))
  | network_deny_option ↦ missing_separator
  | inherit_environment_option ↦ missing_separator
  | unknown ↦ err (invalid_invocation "unknown internal Landlock launcher option")
]
parse_from plan (option ∷ value ∷ rest) = elim (launcher_option option) [
  | separator ↦ do
    program ← validate_launcher_path value "internal launcher program"
    ok (record plan { program = program; args = plan.args ++ rest })
  | path_option o ↦ do
    path ← validate_launcher_path value (option_label o)
    parse_from (push_path o path plan) rest
  | network_deny_option ↦ parse_from (record plan { network_deny = true }) (value ∷ rest)
  | inherit_environment_option ↦
      parse_from (record plan { inherit_environment = true }) (value ∷ rest)
  | unknown ↦ err (invalid_invocation "unknown internal Landlock launcher option")
]

unfoldable pub parse : List OsString → CageResult LauncherPlan
unfolding parse_from launcher_option validate_launcher_path path_of is_absolute has_parent_dir
    list_beq component_beq
parse args = parse_from empty_launcher_plan args
