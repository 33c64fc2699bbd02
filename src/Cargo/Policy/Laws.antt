-- ===== src/Cargo/Policy/Laws.antt =====
-- What every policy for Cargo keeps from the sandbox.
use cargo_cage.Base.{
  ◌⊎◌, contains-In, ◌≡◌, ◌≢◌, refl, subst, inl, inr, Bool, true, false, not, Option, none, some,
  List, [], ◌∷◌, map, ok, arith, All, All-of, In, contains, list_eq, list_beq_iff, nat_eq, ◌==◌,
  guard_ok, reject_if, ◌>>◌,
}
use cargo_cage.Os.Text.{OsString, bytes}
use cargo_cage.Os.FilePath.{FilePath, path_of, is_absolute, join, root, component_eq}
use cargo_cage.Core.Error.{CageError}
use cargo_cage.Core.Environment.Names.{is_sensitive_environment_name}
use cargo_cage.Core.Request.{SandboxPolicy, deny}
use cargo_cage.Cargo.Policy.{
  secret_names, hidden_in, hidden_in_all, cargo_homes, sensitive_environment_names, policy_for,
  cargo_policy,
}
use cargo_cage.Cargo.Policy.Parts.{
  In-map, In-left, In-right, hidden_in_all-In, cargo_homes-default, add_sensitive_names-keeps,
  add_sensitive_names-only, In-contains, add_sensitive_names-In,
}

-- The files of a Cargo home that hold credentials or name programs to run, as the policy must hide them.
abbrev pub AreCredentialsHidden : FilePath → List FilePath → Type 0
AreCredentialsHidden cargo_home hidden =
    All (λ name. In (join cargo_home (path_of name)) hidden)
      (bytes "credentials" ∷ bytes "credentials.toml" ∷ bytes "config" ∷ bytes "config.toml" ∷ [])

-- The variables that a policy removes from every environment.
abbrev pub known_names : List OsString
known_names =
    bytes "AWS_ACCESS_KEY_ID"
    ∷ bytes "AWS_SECRET_ACCESS_KEY"
    ∷ bytes "AWS_SESSION_TOKEN"
    ∷ bytes "AWS_SECURITY_TOKEN"
    ∷ bytes "GITHUB_TOKEN"
    ∷ bytes "GH_TOKEN"
    ∷ bytes "GITLAB_TOKEN"
    ∷ bytes "CARGO_REGISTRY_TOKEN"
    ∷ bytes "RUSTUP_TOKEN"
    ∷ bytes "SSH_AUTH_SOCK"
    ∷ bytes "GPG_AGENT_INFO"
    ∷ bytes "DBUS_SESSION_BUS_ADDRESS"
    ∷ bytes "DOCKER_HOST"
    ∷ bytes "KUBECONFIG"
    ∷ bytes "NPM_TOKEN"
    ∷ bytes "PYPI_TOKEN"
    ∷ []

-- What the policy keeps from the sandbox, for a home and a Cargo home.
pub record IsGuarded (home cargo_home : FilePath) (vars : List (OsString × OsString))
    (made : SandboxPolicy) : Type 0 where
  pub offline : made.network ≡ deny
  pub nothing_writable : made.writable_paths ≡ []
  pub home_private : In home made.private_paths
  pub secrets_hidden :
      (name : OsString) → In name secret_names → In (join home (path_of name)) made.hidden_paths
  pub cargo_hidden : (path : FilePath) → In path (hidden_in cargo_home) → In path made.hidden_paths
  pub default_cargo_hidden :
      (path : FilePath)
      → In path (hidden_in (join home (path_of (bytes ".cargo"))))
      → In path made.hidden_paths
  pub home_secrets_hidden :
      All
        (λ name. In (join home (path_of name)) made.hidden_paths)
        (bytes ".ssh"
          ∷ bytes ".aws"
          ∷ bytes ".config"
          ∷ bytes ".gnupg"
          ∷ bytes ".kube"
          ∷ bytes ".docker"
          ∷ bytes ".password-store"
          ∷ bytes ".netrc"
          ∷ [])
  pub credentials_hidden : AreCredentialsHidden cargo_home made.hidden_paths
  pub default_credentials_hidden :
      AreCredentialsHidden (join home (path_of (bytes ".cargo"))) made.hidden_paths
  pub system_configuration_hidden : In (path_of (bytes "/etc/cargo")) made.hidden_paths
  pub known_names_removed :
      (name : OsString) → In name known_names → contains made.remove_environment name ≡ true
  pub removed_only :
      (k : OsString)
      → contains made.remove_environment k ≡ true
      → In k known_names
        ⊎ ((is_sensitive_environment_name k ≡ true) × (v : OsString) × In (k, v) vars)
  pub variables_removed :
      (k v : OsString)
      → In (k, v) vars
      → is_sensitive_environment_name k ≡ true
      → contains made.remove_environment k ≡ true

policy_for-hides :
    (home cargo_home : FilePath) (vars : List (OsString × OsString)) (main_build : Bool)
    (path : FilePath)
    → In path (hidden_in_all (cargo_homes cargo_home (join home (path_of (bytes ".cargo")))))
    → In path (policy_for home cargo_home vars main_build).hidden_paths
unfolding policy_for
policy_for-hides home cargo_home vars main_build path m = inr (
    In-right (map (λ name. join home (path_of name)) secret_names)
      (hidden_in_all (cargo_homes cargo_home (join home (path_of (bytes ".cargo"))))) path m)

policy_for-secret :
    (home cargo_home : FilePath) (vars : List (OsString × OsString)) (main_build : Bool)
    (name : OsString)
    → In name secret_names
    → In (join home (path_of name)) (policy_for home cargo_home vars main_build).hidden_paths
unfolding policy_for
policy_for-secret home cargo_home vars main_build name m = inr (
    In-left (map (λ n. join home (path_of n)) secret_names)
      (hidden_in_all (cargo_homes cargo_home (join home (path_of (bytes ".cargo")))))
      (join home (path_of name)) (In-map (λ n. join home (path_of n)) secret_names name m))

policy_for-variable :
    (home cargo_home : FilePath) (vars : List (OsString × OsString)) (main_build : Bool)
    (k v : OsString)
    → In (k, v) vars
    → is_sensitive_environment_name k ≡ true
    → contains (policy_for home cargo_home vars main_build).remove_environment k ≡ true
unfolding policy_for sensitive_environment_names
policy_for-variable home cargo_home vars main_build k v m h = add_sensitive_names-In vars _ k v m h

hidden_in-credentials :
    (cargo_home : FilePath) → AreCredentialsHidden cargo_home (hidden_in cargo_home)
unfolding hidden_in
hidden_in-credentials cargo_home =
    (inl refl, (inr (inl refl), (inr (inr (inl refl)), (inr (inr (inr (inl refl))), tt))))

-- Whatever the files of a Cargo home are hidden in, its credentials are.
credentials-hidden :
    (cargo_home : FilePath) (hidden : List FilePath)
    → ((path : FilePath) → In path (hidden_in cargo_home) → In path hidden)
    → AreCredentialsHidden cargo_home hidden
credentials-hidden cargo_home hidden f =
    let (a, (b, (c, (d, _)))) = hidden_in-credentials cargo_home in
    (f _ a, (f _ b, (f _ c, (f _ d, tt))))

-- A known name stays removed, whatever the variables of the host add.
policy_for-known :
    (home cargo_home : FilePath) (vars : List (OsString × OsString)) (main_build : Bool)
    (name : OsString)
    → In name known_names
    → contains (policy_for home cargo_home vars main_build).remove_environment name ≡ true
unfolding policy_for sensitive_environment_names
policy_for-known home cargo_home vars main_build name m =
    add_sensitive_names-keeps vars known_names name (In-contains known_names name m)

policy_for-only :
    (home cargo_home : FilePath) (vars : List (OsString × OsString)) (main_build : Bool)
    (k : OsString)
    → contains (policy_for home cargo_home vars main_build).remove_environment k ≡ true
    → In k known_names
      ⊎ ((is_sensitive_environment_name k ≡ true) × (v : OsString) × In (k, v) vars)
unfolding policy_for sensitive_environment_names
policy_for-only home cargo_home vars main_build k h =
    elim (add_sensitive_names-only vars known_names k h) [
      | inl c ↦ inl (contains-In known_names k c)
      | inr m ↦ inr m
    ]

policy_for-system :
    (home cargo_home : FilePath) (vars : List (OsString × OsString)) (main_build : Bool)
    → In (path_of (bytes "/etc/cargo")) (policy_for home cargo_home vars main_build).hidden_paths
unfolding policy_for
policy_for-system home cargo_home vars main_build = inl refl

policy_for-private :
    (home cargo_home : FilePath) (vars : List (OsString × OsString)) (main_build : Bool)
    → ((policy_for home cargo_home vars main_build).network ≡ deny)
      × In home (policy_for home cargo_home vars main_build).private_paths
unfolding policy_for
policy_for-private home cargo_home vars main_build = (refl, inl refl)

policy_for-nothing_writable :
    (home cargo_home : FilePath) (vars : List (OsString × OsString)) (main_build : Bool)
    → (policy_for home cargo_home vars main_build).writable_paths ≡ []
unfolding policy_for
policy_for-nothing_writable home cargo_home vars main_build = refl

policy_for-IsGuarded :
    (home cargo_home : FilePath) (vars : List (OsString × OsString)) (main_build : Bool)
    → IsGuarded home cargo_home vars (policy_for home cargo_home vars main_build)
policy_for-IsGuarded home cargo_home vars main_build =
    let default = join home (path_of (bytes ".cargo")) in
    let homes = cargo_homes-default cargo_home default in
    let private = policy_for-private home cargo_home vars main_build in
    let hides = policy_for-hides home cargo_home vars main_build in
    record {
      offline = private.0;
      nothing_writable = policy_for-nothing_writable home cargo_home vars main_build;
      home_private = private.1;
      secrets_hidden = policy_for-secret home cargo_home vars main_build;
      cargo_hidden = λ path h.
          hides path (hidden_in_all-In (cargo_homes cargo_home default) cargo_home path homes.1 h);
      default_cargo_hidden = λ path h.
          hides path (hidden_in_all-In (cargo_homes cargo_home default) default path homes.0 h);
      home_secrets_hidden =
          All-of _ secret_names (policy_for-secret home cargo_home vars main_build);
      credentials_hidden = credentials-hidden cargo_home _ (λ path h.
          hides path (hidden_in_all-In (cargo_homes cargo_home default) cargo_home path homes.1 h));
      default_credentials_hidden = credentials-hidden default _ (λ path h.
          hides path (hidden_in_all-In (cargo_homes cargo_home default) default path homes.0 h));
      system_configuration_hidden = policy_for-system home cargo_home vars main_build;
      known_names_removed = policy_for-known home cargo_home vars main_build;
      removed_only = policy_for-only home cargo_home vars main_build;
      variables_removed = policy_for-variable home cargo_home vars main_build;
    }

-- The Cargo home that a policy is made for.
pub cargo_home_of : FilePath → Option OsString → FilePath
cargo_home_of home none = join home (path_of (bytes ".cargo"))
cargo_home_of home (some text) = path_of text

not_root : (home : FilePath) → (home == root) ≡ false → home ≢ root
not_root home h e = ground (arith, list_beq_iff home root)

is_true : (b : Bool) → not b ≡ false → b ≡ true
is_true b h = ground arith

-- The two tests of HOME come before the policy is made.
policy_for-tested :
    (home cargo_home : FilePath) (vars : List (OsString × OsString)) (main_build : Bool)
    (e f : CageError) (made : SandboxPolicy)
    → (reject_if (not (is_absolute home)) e
        >> (reject_if (home == root) f >> ok (policy_for home cargo_home vars main_build)))
      ≡ ok made
    → (is_absolute home ≡ true) × (home ≢ root) × IsGuarded home cargo_home vars made
policy_for-tested home cargo_home vars main_build e f made h =
    let (absolute, h1) = guard_ok (not (is_absolute home)) e _ made h in
    let (other, h2) = guard_ok (home == root) f _ made h1 in
    let same : policy_for home cargo_home vars main_build ≡ made = cc in
    (
      is_true (is_absolute home) absolute,
      not_root home other,
      subst (λ p. IsGuarded home cargo_home vars p) same
          (policy_for-IsGuarded home cargo_home vars main_build),
    )

-- A policy that is made has an absolute home other than the root, denies the network, makes nothing
-- writable, has the home private, hides /etc/cargo, eight named files and directories of the home, and
-- the credentials and configuration of both Cargo homes, and removes just sixteen named variables and
-- the variables of the host with a sensitive name.
pub cargo_policy-IsGuarded :
    (home : OsString) (cargo_home : Option OsString) (vars : List (OsString × OsString))
    (main_build : Bool) (made : SandboxPolicy)
    → cargo_policy (some home) cargo_home vars main_build ≡ ok made
    → (is_absolute (path_of home) ≡ true)
      × (path_of home ≢ root)
      × IsGuarded (path_of home) (cargo_home_of (path_of home) cargo_home) vars made
unfolding cargo_policy cargo_home_of
cargo_policy-IsGuarded home none vars main_build made h =
    policy_for-tested (path_of home) (join (path_of home) (path_of (bytes ".cargo"))) vars
      main_build _ _ made h
cargo_policy-IsGuarded home (some text) vars main_build made h =
    policy_for-tested (path_of home) (path_of text) vars main_build _ _ made h
