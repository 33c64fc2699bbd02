-- ===== src/Linux/Mounts.antt =====
-- cage-linux/src/backend/mounts.rs: the command line of Bubblewrap. A mount source is an open
-- descriptor, by its number; sources by path exist in the crate's own tests only.
pub mod Parents
pub mod RoundTrip
use Prim.Native.String.{◌++◌ as ◌<>◌}
use cargo_cage.Base.{
  ℕ, Bool, true, false, not, List, [], ◌∷◌, ◌++◌, Option, none, some, Result, ok, err, ◌==◌,
  list_eq, nat_eq, list_beq, contains, if◌then◌else◌, sort_by_key, length, dedup, String,
}
use cargo_cage.Os.Text.{OsString, bytes}
use cargo_cage.Os.Decimal.{decimal}
use cargo_cage.Os.FilePath.{FilePath, path_of, into_os_string, component_eq, component_beq}
use cargo_cage.Core.Error.{CageResult, sandbox_setup, named}
use cargo_cage.Core.Environment.{Environment}
use cargo_cage.Core.Request.{NetworkAccess, deny, allow}
use cargo_cage.Linux.Overlap.{BindMount, MaskPath, directory_mask, file_mask}
use cargo_cage.Linux.Plan.{SandboxPlan}
use cargo_cage.Linux.Launcher.Options.{
  PathOption, read, execute, write, lockfile, private, proc, device, option_text, network_deny_text,
  inherit_environment_text,
}
use Parents.{collect_parent_directories, private_mount_order}

pub data MountKind : Type 0 where
  directory_kind file_kind executable_kind special_kind : MountKind

pub record MountArgument : Type 0 where
  pub source : ℕ
  pub destination : FilePath
  pub kind : MountKind

pub record MountArguments : Type 0 where
  pub runtime : List MountArgument
  pub read_only : List MountArgument
  pub caches : List MountArgument
  pub hidden_files : List MountArgument
  pub writable : List MountArgument
  pub launcher : Option MountArgument

abbrev pub cargo_home_in_sandbox : OsString
cargo_home_in_sandbox = bytes "/run/cargo-cage-home"

abbrev pub launcher_destination : OsString
launcher_destination = bytes "/run/cargo-cage-landlock-launcher"

abbrev pub launcher_context_destination : OsString
launcher_context_destination = bytes "/run/cargo-cage-launcher-context"

abbrev pub internal_launcher_arg : OsString
internal_launcher_arg = bytes "__cargo_cage_landlock_exec"

abbrev pub fd_scrubber_shell : OsString
fd_scrubber_shell = bytes "/bin/bash"

-- The script that closes inherited descriptors.
abbrev pub fd_scrubber : String
fd_scrubber =
    "set -eu\n" <> "[ -d /proc/self/fd ] || {\n"
    <> "  printf 'cargo-cage file-descriptor scrubber failed: /proc/self/fd is unavailable\\n' >&2\n"
    <> "  exit 125\n" <> "}\n" <> "for fd_path in /proc/self/fd/*; do\n" <> "  fd=${fd_path##*/}\n"
    <> "  case \"$fd\" in\n" <> "    ''|*[!0-9]*) continue ;;\n" <> "  esac\n"
    <> "  if [ \"$fd\" -ge 3 ]; then\n" <> "    eval \"exec ${fd}>&-\"\n" <> "  fi\n" <> "done\n"
    <> "exec \"$@\"\n"

-- `for item in items { push_args(&mut command, f(item)) }`
abbrev pub concat_map : {A : Type 0} → (A → List OsString) → List A → List OsString
concat_map f [] = []
concat_map f (x ∷ xs) = f x ++ concat_map f xs

-- `push_mount_argument`
unfoldable pub mount_argument : Bool → MountArgument → List OsString
unfolding decimal into_os_string
mount_argument read_only mount =
    (if read_only then bytes "--ro-bind-fd" else bytes "--bind-fd")
    ∷ decimal mount.source
    ∷ into_os_string mount.destination
    ∷ []

-- `push_parent_directories`
unfoldable pub parent_directories : List FilePath → List FilePath → List BindMount → List OsString
unfolding collect_parent_directories into_os_string
parent_directories paths blocked runtime =
    concat_map (λ directory. bytes "--dir" ∷ into_os_string directory ∷ [])
      (collect_parent_directories paths blocked runtime)

abbrev pub option_with : PathOption → FilePath → List OsString
option_with o path = option_text o ∷ into_os_string path ∷ []

-- The option of a writable mount; `none` is a panic, `unreachable!`.
unfoldable pub writable_option : MountArgument → Option (List OsString)
unfolding into_os_string
writable_option mount = elim mount.kind [
  | directory_kind ↦ some (option_with write mount.destination)
  | file_kind ↦ some (option_with lockfile mount.destination)
  | executable_kind ↦ none
  | special_kind ↦ none
]

unfoldable pub writable_options : List MountArgument → Option (List OsString)
unfolding writable_option
writable_options [] = some []
writable_options (m ∷ ms) = elim (writable_option m) [
  | none ↦ none
  | some here ↦ elim (writable_options ms) [ none ↦ none | some rest ↦ some (here ++ rest) ]
]

-- The options without a value.
unfoldable pub flag_options : NetworkAccess → Bool → List OsString
flag_options network inherit =
    (elim network [ deny ↦ network_deny_text ∷ [] | allow ↦ [] ])
    ++ (if inherit then inherit_environment_text ∷ [] else [])

unfoldable pub landlock_launcher_args :
    SandboxPlan → MountArguments → FilePath → List OsString → Option (List OsString)
unfolding writable_options flag_options into_os_string
landlock_launcher_args plan mounts program args = elim (writable_options mounts.writable) [
  | none ↦ none
  | some writable ↦ some (
      concat_map (λ m. option_with execute m.destination) mounts.runtime
      ++ (concat_map (λ m. option_with execute m.destination) mounts.read_only
          ++ (concat_map (λ m. option_with read m.destination) mounts.caches
              ++ (writable
                  ++ (concat_map (option_with private) plan.private_paths
                      ++ option_text private
                        ∷ cargo_home_in_sandbox
                        ∷ option_text proc
                        ∷ bytes "/proc"
                        ∷ option_text device
                        ∷ bytes "/dev"
                        ∷ (flag_options plan.network plan.environment.inherit
                            ++ bytes "--" ∷ into_os_string program ∷ args))))))
]

directory_masks : List MaskPath → List OsString
unfolding into_os_string
directory_masks [] = []
directory_masks (directory_mask path ∷ masks) =
    bytes "--tmpfs" ∷ into_os_string path ∷ directory_masks masks
directory_masks (file_mask path ∷ masks) = directory_masks masks

-- The options for namespaces, capabilities and the session, and the working directory.
isolation_args : SandboxPlan → List OsString
unfolding into_os_string
isolation_args plan =
    (elim plan.network [ deny ↦ bytes "--unshare-net" ∷ [] | allow ↦ [] ])
    ++ bytes "--unshare-user"
      ∷ bytes "--unshare-ipc"
      ∷ bytes "--unshare-pid"
      ∷ bytes "--unshare-uts"
      ∷ bytes "--disable-userns"
      ∷ bytes "--assert-userns-disabled"
      ∷ bytes "--cap-drop"
      ∷ bytes "ALL"
      ∷ bytes "--new-session"
      ∷ bytes "--die-with-parent"
      ∷ bytes "--hostname"
      ∷ bytes "cargo-cage"
      ∷ bytes "--chdir"
      ∷ into_os_string plan.current_dir
      ∷ []

environment_args : Environment → List OsString
unfolding contains list_beq
environment_args environment =
    (if environment.inherit then [] else bytes "--clearenv" ∷ [])
    ++ concat_map (λ key. bytes "--unsetenv" ∷ key ∷ []) environment.remove
    ++ concat_map (λ (key, value). bytes "--setenv" ∷ key ∷ value ∷ []) environment.set
    ++ (if contains environment.remove (bytes "CARGO_HOME")
        then []
        else bytes "--setenv" ∷ bytes "CARGO_HOME" ∷ cargo_home_in_sandbox ∷ [])

context_args : Option ℕ → List OsString
unfolding decimal
context_args none = []
context_args (some fd) = bytes "--file" ∷ decimal fd ∷ launcher_context_destination ∷ []

-- The mounts, in the order in which Bubblewrap makes them.
mount_args : SandboxPlan → MountArguments → List OsString
unfolding mount_argument parent_directories private_mount_order directory_masks into_os_string
mount_args plan mounts =
    concat_map (mount_argument true) mounts.runtime
    ++ (bytes "--proc" ∷ bytes "/proc" ∷ bytes "--dev" ∷ bytes "/dev" ∷ [])
    ++ parent_directories plan.private_paths [] plan.runtime_mounts
    ++ concat_map (λ path. bytes "--tmpfs" ∷ into_os_string path ∷ [])
        (private_mount_order plan.private_paths)
    ++ (bytes "--dir" ∷ cargo_home_in_sandbox ∷ [])
    ++ parent_directories plan.read_only_paths plan.private_paths plan.runtime_mounts
    ++ concat_map (mount_argument true) mounts.read_only
    ++ concat_map (mount_argument true) mounts.caches
    ++ directory_masks plan.hidden_paths
    ++ concat_map (mount_argument true) mounts.hidden_files
    ++ concat_map (mount_argument false) mounts.writable

-- The program that Bubblewrap starts: the scrubber, and through it the launcher.
scrubber_args : List OsString
scrubber_args =
    bytes "--"
    ∷ fd_scrubber_shell
    ∷ bytes "-c"
    ∷ bytes fd_scrubber
    ∷ bytes "cargo-cage-fd-scrubber"
    ∷ launcher_destination
    ∷ internal_launcher_arg
    ∷ []

-- `none` is the panic of `landlock_launcher_args`.
unfoldable pub build_bwrap_args_with_mounts :
    SandboxPlan
    → MountArguments
    → FilePath
    → List OsString
    → Option ℕ
    → Option (CageResult (List OsString))
unfolding mount_args context_args isolation_args environment_args scrubber_args
    landlock_launcher_args
build_bwrap_args_with_mounts plan mounts program args launcher_context_fd = elim mounts.launcher [
  | none ↦ some (
      err (
        sandbox_setup (named "/run/cargo-cage-landlock-launcher")
          "Cargo must start only after the internal Landlock launcher is mounted"))
  | some launcher ↦ elim (landlock_launcher_args plan mounts program args) [
    | none ↦ none
    | some launcher_args ↦ some (
        ok (
          mount_args plan mounts
          ++ context_args launcher_context_fd
          ++ isolation_args plan
          ++ environment_args plan.environment
          ++ mount_argument true launcher
          ++ scrubber_args
          ++ launcher_args))
  ]
]
