-- ===== src/Cargo/Workspace.antt =====
-- cage-cargo/src/workspace.rs: the workspace that Cargo names, and the directory Cargo is started in.
pub mod Laws
pub mod Located
use cargo_cage.Base.{
  Bool, true, false, not, ◌&&◌, ◌||◌, Option, none, some, List, [], ◌∷◌, ◌++◌, ok, err, ◌>>=◌, ◌>>◌,
  reject_if, ok_or, is_ok_and, ◌==◌, list_eq, list_beq, nat_eq, keep, any, contains, if◌then◌else◌,
}
use cargo_cage.Os.Text.{OsString, bytes}
use cargo_cage.Os.Text.White.{trim}
use cargo_cage.Os.Text.Lossy.{from_utf8_lossy}
use cargo_cage.Os.FilePath.{
  FilePath, path_of, is_absolute, join, starts_with, parent, file_name, component_eq, component_beq,
}
use cargo_cage.Os.Fs.{Fs, is_file}
use cargo_cage.Core.Error.{
  CageResult, CageError, policy, sandbox_setup, process_failed, at_path, named, successfully_exited,
}
use cargo_cage.Core.Paths.{canonical_existing_path_without_symlinks}
use cargo_cage.Core.Request.{SandboxPolicy, SandboxRequest, SandboxOutcome, capture, new_request}
use cargo_cage.Cargo.Options.{manifest_path_arg, target_dir_arg, resolved_manifest_path}
use cargo_cage.Cargo.HostEnvironment.{Toolchain, cargo_environment}
use cargo_cage.Cargo.Policy.{cargo_policy}
use cargo_cage.Cargo.Driver.{HostVariables}

-- `path == base || path.starts_with(base)`
unfoldable pub is_within : FilePath → FilePath → Bool
unfolding starts_with list_beq component_beq
is_within path base = path == base || starts_with path base

unfoldable pub manifest_parent_path : Fs → List OsString → FilePath → CageResult (Option FilePath)
unfolding resolved_manifest_path parent
manifest_parent_path fs args current_dir = do
  found ← resolved_manifest_path fs args current_dir
  elim found [
    | none ↦ ok none
    | some manifest ↦ do
      reject_if (not (is_ok_and (fs.metadata manifest) is_file))
          (policy (at_path manifest) "the manifest path must be a regular file")
      ok (parent manifest)
  ]

unfoldable pub sandbox_current_dir : Fs → FilePath → FilePath → List OsString → CageResult FilePath
unfolding is_within manifest_parent_path
sandbox_current_dir fs current_dir workspace args =
    if is_within current_dir workspace then ok current_dir else do
      found ← manifest_parent_path fs args current_dir
      ok (elim found [
        | none ↦ workspace
        | some directory ↦ if is_within directory workspace then directory else workspace
      ])

-- `Vec::dedup`, behind an element that is kept.
dedup_from : FilePath → List FilePath → List FilePath
unfolding list_beq component_beq
dedup_from last [] = []
dedup_from last (path ∷ paths) =
    let dropped = dedup_from last paths in
    let kept = path ∷ dedup_from path paths in if path == last then dropped else kept

unfoldable pub dedup : List FilePath → List FilePath
unfolding dedup_from
dedup [] = []
dedup (path ∷ paths) = path ∷ dedup_from path paths

-- `symlink_metadata(path).is_ok()`
pub exists_at : Fs → FilePath → Bool
exists_at fs path = is_ok_and (fs.symlink_metadata path) (λ m. true)

-- The target directory of the options, if it is one and lies within the base.
target_within : Option OsString → List OsString → FilePath → FilePath → List FilePath
unfolding target_dir_arg is_within
target_within cargo_target_dir args current_dir base =
    elim (target_dir_arg cargo_target_dir args current_dir current_dir) [
      | err e ↦ []
      | ok target ↦ if is_within target base then target ∷ [] else []
    ]

-- There is one base: the directory of the manifest, or else the current one.
unfoldable pub discovery_writable_paths :
    Fs → Option OsString → List OsString → FilePath → CageResult (List FilePath)
unfolding manifest_parent_path dedup exists_at target_within join
discovery_writable_paths fs cargo_target_dir args current_dir = do
  found ← manifest_parent_path fs args current_dir
  let base : FilePath = elim found [ none ↦ current_dir | some directory ↦ directory ]
  ok (
      dedup (
        keep (exists_at fs) (
          join base (path_of (bytes "target"))
          ∷ target_within cargo_target_dir args current_dir base)))

-- The text that names the manifest: one line that is not empty.
is_one_line : OsString → Bool
unfolding list_beq contains
is_one_line text = not (text == [] || contains text b'\n' || contains text b'\r')

pub is_cargo_toml : FilePath → Bool
unfolding file_name list_beq
is_cargo_toml manifest = elim (file_name manifest) [
  | none ↦ false
  | some name ↦ name == bytes "Cargo.toml"
]

-- The last checks: the workspace holds the requested manifest, or else the current directory.
check_contains : Option FilePath → FilePath → FilePath → CageResult FilePath
unfolding is_within starts_with
check_contains (some requested) current_dir workspace = do
  reject_if (not (starts_with requested workspace)) (
      policy (at_path workspace)
        "workspace discovery returned a root that does not contain the requested manifest")
  ok workspace
check_contains none current_dir workspace = do
  reject_if (not (is_within current_dir workspace)) (
      policy (at_path workspace)
        "workspace discovery returned a root that does not contain the current directory")
  ok workspace

unfoldable pub workspace_from_output :
    Fs → OsString → FilePath → List OsString → CageResult FilePath
unfolding trim from_utf8_lossy is_one_line is_cargo_toml check_contains is_absolute join path_of
    parent canonical_existing_path_without_symlinks resolved_manifest_path
workspace_from_output fs output current_dir args = do
  let text = trim (from_utf8_lossy output)
  reject_if (not (is_one_line text)) (
      sandbox_setup (named "Cargo workspace discovery")
        "locate-project must return exactly one manifest path")
  let named_path = path_of text
  manifest ←
      canonical_existing_path_without_symlinks fs
        (if is_absolute named_path then named_path else join current_dir named_path)
        "workspace manifest"
  reject_if (not (is_ok_and (fs.metadata manifest) is_file))
      (policy (at_path manifest) "workspace discovery must return a regular Cargo.toml file")
  reject_if (not (is_cargo_toml manifest))
      (policy (at_path manifest) "workspace discovery must return a Cargo.toml path")
  workspace ←
      ok_or (parent manifest)
        (policy (at_path manifest) "the workspace manifest must have a parent directory")
  requested ← resolved_manifest_path fs args current_dir
  check_contains requested current_dir workspace

-- The variables of the host, and CARGO_TARGET_DIR.
module _ (fs : Fs) (host : HostVariables) (cargo_target_dir : Option OsString) where
  unfoldable pub locate_request : Toolchain → FilePath → List OsString → CageResult SandboxRequest
  unfolding new_request manifest_path_arg cargo_policy manifest_parent_path discovery_writable_paths
      cargo_environment
  locate_request toolchain current_dir args = do
    manifest_path ← manifest_path_arg args
    base ← cargo_policy host.home host.cargo_home host.vars false
    manifest_parent ← manifest_parent_path fs args current_dir
    writable ← discovery_writable_paths fs cargo_target_dir args current_dir
    ok (record (new_request toolchain.cargo current_dir) {
      args =
          bytes "locate-project"
          ∷ bytes "--workspace"
          ∷ bytes "--message-format"
          ∷ bytes "plain"
          ∷ (elim manifest_path [ none ↦ [] | some value ↦ bytes "--manifest-path" ∷ value ∷ [] ]);
      policy = record base {
        read_only_paths =
            base.read_only_paths
            ++ (current_dir ∷ [])
            ++ (elim manifest_parent [ none ↦ [] | some directory ↦ directory ∷ [] ])
            ++ toolchain.read_only_paths;
        writable_paths = base.writable_paths ++ writable;
      };
      environment = cargo_environment host.vars toolchain current_dir [];
      output = capture;
    })

  -- The backend is a function of the request. What Cargo printed is left out of the error's text.
  unfoldable pub locate_workspace :
      (SandboxRequest → CageResult SandboxOutcome)
      → Toolchain
      → FilePath
      → List OsString
      → CageResult FilePath
  unfolding locate_request workspace_from_output successfully_exited
  locate_workspace backend toolchain current_dir args = do
    request ← locate_request toolchain current_dir args
    outcome ← backend request
    reject_if (not (successfully_exited outcome.status))
        (process_failed outcome.status "Cargo workspace discovery failed")
    workspace_from_output fs outcome.stdout current_dir args
