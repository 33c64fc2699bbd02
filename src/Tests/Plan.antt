-- ===== src/Tests/Plan.antt =====
-- Runs of `SandboxPlan::from_request`.
use cargo_cage.Base.{
  ◌≡◌, refl, none, some, [], ◌∷◌, ok, err, answer_of, ◌==◌, list_eq, nat_eq, list_beq, try_map,
  for_each, contains, sort_by_key, if◌then◌else◌,
}
use cargo_cage.Os.Text.{OsString, bytes}
use cargo_cage.Os.FilePath.{
  FilePath, path_of, join, push_component, is_absolute, has_parent_dir, starts_with, component_eq,
  component_beq,
}
use cargo_cage.Os.Fs.{Metadata, FileType, regular, directory}
use cargo_cage.Core.Error.{policy_about, at_path}
use cargo_cage.Core.Request.{SandboxRequest, new_request, default_policy}
use cargo_cage.Linux.Tree.Hardlinks.{validate_hardlink_aliases}
use cargo_cage.Linux.Tree.MountTable.{nonempty_lines, validate_no_nested_mounts}
use cargo_cage.Linux.Tree.Walk.{readable, last, walk, listing_size}
use cargo_cage.Linux.Tree.Validate.{Host, validate_tree}
use cargo_cage.Linux.Plan.{SandboxPlan}
use cargo_cage.Linux.Plan.FromRequest.{from_request}
use cargo_cage.Linux.Plan.FromRequest.Invariant.{IsSafePlan}
use cargo_cage.Linux.Plan.FromRequest.Laws.{from_request-IsSafePlan}
use cargo_cage.Cargo.Args.{build}
use cargo_cage.Cargo.HostEnvironment.{Toolchain}
use cargo_cage.Cargo.Driver.{Prepared, HostVariables, cargo_request}
use cargo_cage.Cargo.Driver.Laws.{IsConfined, cargo_request-IsConfined}

abbrev cargo : FilePath
cargo = path_of (bytes "/usr/bin/cargo")

kind_at : FilePath → FileType
unfolding list_beq component_beq
kind_at path = if path == cargo then regular else directory

metadata_at : FilePath → Metadata
metadata_at path = record {
  file_type = kind_at path;
  nlink = 2;
  dev = 8;
  ino = 3;
  mode = 0;
  len = 0;
}

-- A host without links, on which `/usr/bin/cargo` is a file and everything else an empty directory.
abbrev host : Host
host = record {
  fs = record {
    symlink_metadata = λ p. ok (metadata_at p);
    metadata = λ p. ok (metadata_at p);
    canonicalize = λ p. ok p;
  };
  mountinfo = ok [];
  listing = λ p. readable last;
}

request_writing : FilePath → SandboxRequest
unfolding new_request
request_writing target = record (new_request cargo (path_of (bytes "/p"))) {
  policy = record default_policy {
    writable_paths = target ∷ [];
    read_only_paths = path_of (bytes "/p") ∷ [];
    private_paths = path_of (bytes "/home/u") ∷ [];
    hidden_paths = path_of (bytes "/home/u/.ssh") ∷ [];
  };
}

plan_made :
    (plan : SandboxPlan) × (from_request host none
        (some (bytes "/home/u"))
        (request_writing (path_of (bytes "/p/target")))
      ≡ ok plan)
unfolding from_request kind_at metadata_at request_writing path_of validate_tree answer_of walk
    validate_hardlink_aliases validate_no_nested_mounts nonempty_lines starts_with component_beq
    list_beq listing_size sort_by_key contains try_map for_each join is_absolute has_parent_dir
    push_component
plan_made = (_, refl)

-- A writable path that holds a hidden one is refused.
exposing :
    from_request host none (some (bytes "/home/u")) (request_writing (path_of (bytes "/home/u")))
    ≡ err (
        policy_about
          (at_path (path_of (bytes "/home/u")))
          "the writable path would re-expose hidden path"
          (path_of (bytes "/home/u/.ssh")))
unfolding from_request kind_at metadata_at request_writing path_of validate_tree answer_of walk
    validate_hardlink_aliases validate_no_nested_mounts nonempty_lines starts_with component_beq
    list_beq listing_size sort_by_key contains try_map for_each join is_absolute has_parent_dir
    push_component
exposing = refl

from_request_example :
    IsSafePlan host none
      (some (bytes "/home/u"))
      (request_writing (path_of (bytes "/p/target")))
      plan_made.0
from_request_example =
    from_request-IsSafePlan host none (some (bytes "/home/u"))
      (request_writing (path_of (bytes "/p/target"))) plan_made.0 plan_made.1

abbrev toolchain : Toolchain
toolchain = record {
  cargo = cargo;
  rustc = path_of (bytes "/opt/rust/bin/rustc");
  rustdoc = none;
  sysroot = path_of (bytes "/opt/rust");
  home = path_of (bytes "/home/u");
  path = bytes "/usr/bin";
  read_only_paths = path_of (bytes "/opt/rust") ∷ [];
}

abbrev run : Prepared
run = record {
  command = build;
  current_dir = path_of (bytes "/p");
  toolchain = toolchain;
  workspace = path_of (bytes "/p");
  target_dir = path_of (bytes "/p/target");
  build_dir = path_of (bytes "/p/target/build");
  lockfile = path_of (bytes "/p/Cargo.lock");
  sandbox_current_dir = path_of (bytes "/p");
  cargo_args = [];
}

abbrev variables : HostVariables
variables = record {
  home = some (bytes "/home/u");
  cargo_home = none;
  vars = (bytes "LANG", bytes "C") ∷ (bytes "GITHUB_TOKEN", bytes "x") ∷ [];
}

request_made : (request : SandboxRequest) × (cargo_request variables run ≡ ok request)
unfolding cargo_request path_of is_absolute component_beq list_beq join
request_made = (_, refl)

cargo_plan_made :
    (plan : SandboxPlan) × (from_request host none (some (bytes "/home/u")) request_made.0
      ≡ ok plan)
unfolding from_request request_made kind_at metadata_at path_of validate_tree answer_of walk
    validate_hardlink_aliases validate_no_nested_mounts nonempty_lines starts_with component_beq
    list_beq listing_size sort_by_key contains try_map for_each join is_absolute has_parent_dir
    push_component
cargo_plan_made = (_, refl)

cargo_request_example :
    (home : OsString) × (some (bytes "/home/u") ≡ some home)
    × IsConfined host variables run cargo_plan_made.0 (path_of home)
cargo_request_example =
    cargo_request-IsConfined host variables run cargo_plan_made.0 request_made.0 request_made.1
      cargo_plan_made.1
