-- ===== src/Cargo/HostEnvironment.antt =====
-- cage-cargo/src/environment.rs: the environment of Cargo. The variables of the host are a parameter.
use cargo_cage.Base.{
  ◌≡◌, refl, ◌⊎◌, inl, inr, true, Option, none, some, List, [], ◌∷◌, keep, In, All, All-at, In-snoc,
  In-keep,
}
use cargo_cage.Os.Text.{OsString, bytes}
use cargo_cage.Os.FilePath.{FilePath, into_os_string}
use cargo_cage.Core.Environment.{Environment, clean, with_set}
use cargo_cage.Core.Environment.Names.Laws.{allowed_host-allowed_sandbox}
use cargo_cage.Core.Environment.Names.{
  is_allowed_host_environment_name, is_allowed_sandbox_environment_name,
}

pub record Toolchain : Type 0 where
  pub cargo : FilePath
  pub rustc : FilePath
  pub rustdoc : Option FilePath
  pub sysroot : FilePath
  pub home : FilePath
  pub path : OsString
  pub read_only_paths : List FilePath

-- `for (key, value) in values { environment = environment.set(key, value); }`
set_all : Environment → List (OsString × OsString) → Environment
unfolding with_set
set_all environment [] = environment
set_all environment ((key, value) ∷ values) = set_all (with_set environment key value) values

unfoldable pub safe_host_environment : List (OsString × OsString) → List (OsString × OsString)
safe_host_environment vars = keep (λ (key, value). is_allowed_host_environment_name key) vars

-- The four variables that every run sets, and RUSTDOC if there is one.
own_variables : Toolchain → FilePath → List (OsString × OsString)
unfolding into_os_string
own_variables toolchain current_dir =
    (bytes "HOME", into_os_string toolchain.home)
    ∷ (bytes "PATH", toolchain.path)
    ∷ (bytes "PWD", into_os_string current_dir)
    ∷ (bytes "RUSTC", into_os_string toolchain.rustc)
    ∷ (elim toolchain.rustdoc [
      | none ↦ []
      | some rustdoc ↦ (bytes "RUSTDOC", into_os_string rustdoc) ∷ []
    ])

unfoldable pub cargo_environment :
    List (OsString × OsString) → Toolchain → FilePath → List (OsString × OsString) → Environment
unfolding set_all safe_host_environment own_variables
cargo_environment vars toolchain current_dir overrides =
    set_all
      (set_all (set_all clean (safe_host_environment vars)) (own_variables toolchain current_dir))
      overrides

set_all-set :
    (environment : Environment) (values : List (OsString × OsString)) (k v : OsString)
    → In (k, v) (set_all environment values).set
    → In (k, v) environment.set ⊎ In (k, v) values
unfolding set_all with_set
set_all-set environment [] k v m = inl m
set_all-set environment ((key, value) ∷ values) k v m =
    elim (set_all-set (with_set environment key value) values k v m) [
      | inl i ↦ elim (In-snoc environment.set (k, v) (key, value) i) [
        | inl j ↦ inl j
        | inr e ↦ inr (inl e)
      ]
      | inr i ↦ inr (inr i)
    ]

safe_host_environment-allowed :
    (vars : List (OsString × OsString)) (k v : OsString)
    → In (k, v) (safe_host_environment vars)
    → is_allowed_sandbox_environment_name k ≡ true
unfolding safe_host_environment
safe_host_environment-allowed vars k v m =
    allowed_host-allowed_sandbox k
      ((In-keep (λ (key, value). is_allowed_host_environment_name key) vars (k, v)).0 m).1

abbrev HasAllowedName : OsString × OsString → Type 0
HasAllowedName (key, value) = is_allowed_sandbox_environment_name key ≡ true

rustdoc_allowed :
    (rustdoc : Option FilePath)
    → All HasAllowedName
        (elim rustdoc [ none ↦ [] | some path ↦ (bytes "RUSTDOC", into_os_string path) ∷ [] ])
unfolding is_allowed_sandbox_environment_name
rustdoc_allowed none = tt
rustdoc_allowed (some path) = (refl, tt)

own_variables-allowed :
    (toolchain : Toolchain) (current_dir : FilePath) (k v : OsString)
    → In (k, v) (own_variables toolchain current_dir)
    → is_allowed_sandbox_environment_name k ≡ true
unfolding own_variables is_allowed_sandbox_environment_name
own_variables-allowed toolchain current_dir k v m =
    All-at HasAllowedName (own_variables toolchain current_dir)
      (refl, (refl, (refl, (refl, rustdoc_allowed toolchain.rustdoc)))) m

-- Every variable that Cargo is given has a name that a sandbox may see, or is an override.
pub cargo_environment-allowed :
    (vars overrides : List (OsString × OsString)) (toolchain : Toolchain) (current_dir : FilePath)
    (k v : OsString)
    → In (k, v) (cargo_environment vars toolchain current_dir overrides).set
    → (is_allowed_sandbox_environment_name k ≡ true) ⊎ In (k, v) overrides
unfolding cargo_environment
cargo_environment-allowed vars overrides toolchain current_dir k v m =
    let host = set_all clean (safe_host_environment vars) in
    let own = set_all host (own_variables toolchain current_dir) in
    elim (set_all-set own overrides k v m) [
      | inr i ↦ inr i
      | inl i ↦ elim (set_all-set host (own_variables toolchain current_dir) k v i) [
        | inr j ↦ inl (own_variables-allowed toolchain current_dir k v j)
        | inl j ↦ elim (set_all-set clean (safe_host_environment vars) k v j) [
          | inr l ↦ inl (safe_host_environment-allowed vars k v l)
          | inl l ↦ absurd l
        ]
      ]
    ]
