-- ===== src/Tests/Policy.antt =====
-- Runs of the policy and the environment for Cargo, and of the directories above mount points.
use cargo_cage.Base.{
  ◌≡◌, ◌≢◌, refl, ◌⊎◌, inl, true, false, none, some, List, [], ◌∷◌, ok, err, In, IsSortedByKey,
  length, sort_by_key,
}
use cargo_cage.Os.Text.{OsString, bytes}
use cargo_cage.Os.FilePath.{
  FilePath, component_beq, absolute, path_of, is_absolute, root, into_os_string,
}
use cargo_cage.Core.Error.{policy, named}
use cargo_cage.Core.Environment.Names.{
  is_allowed_host_environment_name, is_allowed_sandbox_environment_name,
}
use cargo_cage.Core.Request.{SandboxPolicy}
use cargo_cage.Cargo.Policy.{cargo_policy}
use cargo_cage.Cargo.Policy.Laws.{IsGuarded, cargo_home_of, cargo_policy-IsGuarded}
use cargo_cage.Cargo.HostEnvironment.{Toolchain, cargo_environment, cargo_environment-allowed}
use cargo_cage.Linux.Mounts.Parents.{is_blocked, collect_parent_directories}
use cargo_cage.Linux.Mounts.Parents.Laws.{
  below, goes_on, IsOpen, collect_parent_directories-reaches,
}

no_home :
    cargo_policy none none [] true
    ≡ err (policy (named "HOME") "HOME must be set to construct the sandbox policy")
unfolding cargo_policy
no_home = refl

abbrev vars : List (OsString × OsString)
vars = (bytes "MY_SECRET", bytes "x") ∷ (bytes "LANG", bytes "C") ∷ []

policy_made : (p : SandboxPolicy) × (cargo_policy (some (bytes "/home/u")) none vars false ≡ ok p)
unfolding cargo_policy path_of is_absolute component_beq
policy_made = (_, refl)

cargo_policy_example :
    (is_absolute (path_of (bytes "/home/u")) ≡ true)
    × (path_of (bytes "/home/u") ≢ root)
    × IsGuarded
        (path_of (bytes "/home/u"))
        (cargo_home_of (path_of (bytes "/home/u")) none)
        vars
        policy_made.0
cargo_policy_example =
    cargo_policy-IsGuarded (bytes "/home/u") none vars false policy_made.0 policy_made.1

abbrev toolchain : Toolchain
toolchain = record {
  cargo = absolute (bytes "cargo" ∷ []);
  rustc = absolute (bytes "rustc" ∷ []);
  rustdoc = none;
  sysroot = absolute (bytes "rust" ∷ []);
  home = absolute (bytes "h" ∷ []);
  path = bytes "/bin";
  read_only_paths = [];
}

cargo_variables :
    (cargo_environment vars toolchain (absolute []) []).set
    ≡ (bytes "LANG", bytes "C")
      ∷ (bytes "HOME", bytes "/h")
      ∷ (bytes "PATH", bytes "/bin")
      ∷ (bytes "PWD", bytes "/")
      ∷ (bytes "RUSTC", bytes "/rustc")
      ∷ []
unfolding cargo_environment is_allowed_host_environment_name into_os_string
cargo_variables = refl

lang_set : In (bytes "LANG", bytes "C") (cargo_environment vars toolchain (absolute []) []).set
lang_set = rw cargo_variables (inl refl)

cargo_environment_example :
    (is_allowed_sandbox_environment_name (bytes "LANG") ≡ true)
    ⊎ In {A = OsString × OsString} (bytes "LANG", bytes "C") []
cargo_environment_example =
    cargo_environment-allowed vars [] toolchain (absolute []) (bytes "LANG") (bytes "C") lang_set

abbrev up : FilePath
up = absolute (bytes "home" ∷ [])

abbrev mounted : List FilePath
mounted = absolute (bytes "home" ∷ bytes "u" ∷ bytes "w" ∷ []) ∷ []

way_up : IsOpen [] [] up (bytes "u" ∷ [])
unfolding goes_on below component_beq is_blocked
way_up = (refl, refl)

collected :
    collect_parent_directories mounted [] [] ≡ up ∷ absolute (bytes "home" ∷ bytes "u" ∷ []) ∷ []
unfolding collect_parent_directories sort_by_key
collected = refl

is_below : In (below up (bytes "w" ∷ bytes "u" ∷ [])) mounted
unfolding below
is_below = inl refl

collect_parent_directories_example :
    In up (collect_parent_directories mounted [] [])
    × IsSortedByKey length (collect_parent_directories mounted [] [])
collect_parent_directories_example =
    collect_parent_directories-reaches [] [] mounted up (bytes "w") (bytes "u" ∷ []) is_below way_up
