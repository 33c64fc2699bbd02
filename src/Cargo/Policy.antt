-- ===== src/Cargo/Policy.antt =====
-- cage-cargo/src/policy.rs: the policy for Cargo. HOME, CARGO_HOME and the variables of the host
-- are parameters.
pub mod Parts
pub mod Laws
use cargo_cage.Base.{
  Bool, true, false, not, ◌&&◌, Option, none, some, List, [], ◌∷◌, ◌++◌, map, Result, ok, err,
  ◌>>=◌, ◌>>◌, reject_if, ok_or, ◌==◌, list_eq, list_beq, nat_eq, contains, if◌then◌else◌,
}
use cargo_cage.Os.Text.{OsString, bytes}
use cargo_cage.Os.FilePath.{FilePath, path_of, is_absolute, join, root, component_eq}
use cargo_cage.Core.Error.{CageResult, policy, at_path, named}
use cargo_cage.Core.Limits.{default_limits}
use cargo_cage.Core.Environment.Names.{is_sensitive_environment_name}
use cargo_cage.Core.Request.{SandboxPolicy, deny}

abbrev pub secret_names : List OsString
secret_names =
    bytes ".ssh"
    ∷ bytes ".aws"
    ∷ bytes ".config"
    ∷ bytes ".gnupg"
    ∷ bytes ".kube"
    ∷ bytes ".docker"
    ∷ bytes ".password-store"
    ∷ bytes ".netrc"
    ∷ []

-- The files of a Cargo home that hold credentials, or name programs to run.
unfoldable pub hidden_in : FilePath → List FilePath
hidden_in cargo_home =
    join cargo_home (path_of (bytes "credentials"))
    ∷ join cargo_home (path_of (bytes "credentials.toml"))
    ∷ join cargo_home (path_of (bytes "config"))
    ∷ join cargo_home (path_of (bytes "config.toml"))
    ∷ []

pub hidden_in_all : List FilePath → List FilePath
unfolding hidden_in
hidden_in_all [] = []
hidden_in_all (cargo_home ∷ cargo_homes) = hidden_in cargo_home ++ hidden_in_all cargo_homes

-- The configured Cargo home, and the default one if it is another.
pub cargo_homes : FilePath → FilePath → List FilePath
unfolding list_beq
cargo_homes cargo_home default_cargo_home =
    if cargo_home == default_cargo_home
    then cargo_home ∷ []
    else cargo_home ∷ default_cargo_home ∷ []

abbrev known_sensitive_names : List OsString
known_sensitive_names =
    bytes "AWS_ACCESS_KEY_ID"
    ∷ bytes "AWS_SECRET_ACCESS_KEY"
    ∷ bytes "AWS_SESSION_TOKEN"
    ∷ bytes "AWS_SECURITY_TOKEN"
    ∷ bytes "GITHUB_TOKEN"
    ∷ bytes "GH_TOKEN"
    ∷ bytes "GITLAB_TOKEN"
    ∷ bytes "CARGO_REGISTRY_TOKEN"
    ∷ bytes "RUSTUP_TOKEN"
    ∷ bytes "SSH_AUTH_SOCK"
    ∷ bytes "GPG_AGENT_INFO"
    ∷ bytes "DBUS_SESSION_BUS_ADDRESS"
    ∷ bytes "DOCKER_HOST"
    ∷ bytes "KUBECONFIG"
    ∷ bytes "NPM_TOKEN"
    ∷ bytes "PYPI_TOKEN"
    ∷ []

add_sensitive_name : List OsString → OsString → List OsString
unfolding is_sensitive_environment_name contains list_beq
add_sensitive_name names name =
    if is_sensitive_environment_name name && not (contains names name)
    then names ++ name ∷ []
    else names

-- The loop over the variables of the host.
pub add_sensitive_names : List OsString → List (OsString × OsString) → List OsString
unfolding add_sensitive_name
add_sensitive_names names [] = names
add_sensitive_names names ((name, value) ∷ vars) =
    add_sensitive_names (add_sensitive_name names name) vars

unfoldable pub sensitive_environment_names : List (OsString × OsString) → List OsString
unfolding add_sensitive_names
sensitive_environment_names vars = add_sensitive_names known_sensitive_names vars

-- The private file systems of a build, beside the home.
abbrev scratch_paths : List FilePath
scratch_paths = path_of (bytes "/tmp") ∷ path_of (bytes "/var/tmp") ∷ path_of (bytes "/run") ∷ []

policy_for : FilePath → FilePath → List (OsString × OsString) → Bool → SandboxPolicy
unfolding hidden_in_all cargo_homes sensitive_environment_names join path_of
policy_for home cargo_home vars main_build = record {
  network = deny;
  resources = default_limits;
  writable_paths = [];
  hidden_paths =
      path_of (bytes "/etc/cargo")
      ∷ (map (λ name. join home (path_of name)) secret_names
          ++ hidden_in_all (cargo_homes cargo_home (join home (path_of (bytes ".cargo")))));
  private_paths = home ∷ (if main_build then scratch_paths else []);
  read_only_paths = [];
  remove_environment = sensitive_environment_names vars;
}

unfoldable pub cargo_policy :
    Option OsString → Option OsString → List (OsString × OsString) → Bool → CageResult SandboxPolicy
unfolding policy_for path_of join is_absolute
cargo_policy home_variable cargo_home_variable vars main_build = do
  home_text ←
      ok_or home_variable (policy (named "HOME") "HOME must be set to construct the sandbox policy")
  let home = path_of home_text
  reject_if (not (is_absolute home)) (policy (at_path home) "HOME must be an absolute path")
  reject_if (home == root) (policy (at_path home) "HOME must not be the filesystem root")
  let cargo_home : FilePath = elim cargo_home_variable [
    | none ↦ join home (path_of (bytes ".cargo"))
    | some text ↦ path_of text
  ]
  ok (policy_for home cargo_home vars main_build)
