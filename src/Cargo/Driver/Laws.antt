-- ===== src/Cargo/Driver/Laws.antt =====
-- What a run of Cargo may see and write, from the command line to the plan of the backend.
use cargo_cage.Base.{
  ◌≡◌, sym, ap, ◌∙◌, subst, ◌⊎◌, inl, inr, true, false, some, List, [], ◌∷◌, ◌++◌, ok, err, In,
  Option-cases, bind_ok, ok_injective, arith,
}
use cargo_cage.Os.Text.{OsString}
use cargo_cage.Os.FilePath.{FilePath, path_of, join}
use cargo_cage.Os.Fs.{not_found}
use cargo_cage.Core.Environment.Names.{is_sensitive_environment_name}
use cargo_cage.Core.Request.{SandboxPolicy, SandboxRequest, deny}
use cargo_cage.Linux.Overlap.{MaskPath, mask_path}
use cargo_cage.Linux.Overlap.Shared.{SharesPath}
use cargo_cage.Linux.Sources.Laws.{Masked}
use cargo_cage.Linux.Tree.Validate.{Host}
use cargo_cage.Linux.Plan.{SandboxPlan}
use cargo_cage.Linux.Plan.FromRequest.{from_request}
use cargo_cage.Linux.Plan.FromRequest.Invariant.{Includes, IsSafePlan}
use cargo_cage.Linux.Plan.FromRequest.Laws.{from_request-IsSafePlan}
use cargo_cage.Cargo.Policy.{cargo_policy, secret_names}
use cargo_cage.Cargo.Policy.Laws.{IsGuarded, cargo_home_of, cargo_policy-IsGuarded}
use cargo_cage.Cargo.Driver.{Prepared, HostVariables, run_policy, cargo_request}

-- The policy of a request for Cargo is the policy for Cargo with the paths of the run.
cargo_request-policy :
    (variables : HostVariables) (run : Prepared) (request : SandboxRequest)
    → cargo_request variables run ≡ ok request
    → (policy : SandboxPolicy) × (cargo_policy variables.home variables.cargo_home variables.vars
          true
        ≡ ok policy)
      × (request.policy ≡ run_policy run policy)
unfolding cargo_request
cargo_request-policy variables run request h =
    let (policy, e, h1) =
      bind_ok (cargo_policy variables.home variables.cargo_home variables.vars true) _ request h in
    (policy, e, ap (λ r. r.policy) (sym (ok_injective h1)))

-- Without HOME there is no policy, and so no request.
cargo_request-home :
    (variables : HostVariables) (run : Prepared) (request : SandboxRequest)
    → cargo_request variables run ≡ ok request
    → (home : OsString) × (variables.home ≡ some home)
unfolding cargo_request cargo_policy
cargo_request-home variables run request h = elim (Option-cases variables.home) [
  | inr (home, e) ↦ (home, e)
  | inl e ↦ absurd (ground arith)
]

module _ (host : Host) (variables : HostVariables) (run : Prepared) (plan : SandboxPlan) where
  -- A secret of the home is missing, or a mask covers it that shares no file with a writable or a
  -- read-only path.
  abbrev pub IsSecret : FilePath → Type 0
  IsSecret path =
      (host.fs.symlink_metadata path ≡ err not_found)
      ⊎ ((mask : MaskPath) × In mask plan.hidden_paths
          × Masked host.fs path mask
          × ((w : FilePath) → In w plan.writable_paths → ¬ SharesPath w (mask_path mask))
          × ((v : FilePath) → In v plan.read_only_paths → ¬ SharesPath v (mask_path mask)))

  pub record IsConfined (home : FilePath) : Type 0 where
    pub offline : plan.network ≡ deny
    pub home_private : Includes host plan.private_paths home
    pub writable_only :
        (w : FilePath)
        → In w plan.writable_paths
        → (host.fs.canonicalize run.target_dir ≡ ok w) ⊎ (host.fs.canonicalize run.lockfile ≡ ok w)
    pub secrets_masked :
        (name : OsString) → In name secret_names → IsSecret (join home (path_of name))
    pub variables_harmless :
        (k v : OsString) → In (k, v) plan.environment.set → is_sensitive_environment_name k ≡ false

  kept_apart :
      (request : SandboxRequest) (path : FilePath)
      → IsSafePlan host variables.cargo_home variables.home request plan
      → In path request.policy.hidden_paths
      → IsSecret path
  kept_apart request path safe i = elim (safe.hidden_masked path i) [
    | inl missing ↦ inl missing
    | inr (mask, m, covers) ↦ inr (
      mask,
      m,
      covers,
      (λ w j. (safe.writable_allowed w j).0.apart_from_hidden mask m),
      λ v j. (safe.read_only_allowed v j).apart_from_hidden mask m,
    )
  ]

  target_or_lockfile :
      (asked : List FilePath) (w : FilePath)
      → asked ≡ run.target_dir ∷ run.lockfile ∷ []
      → (p : FilePath) × In p asked × (host.fs.canonicalize p ≡ ok w)
      → (host.fs.canonicalize run.target_dir ≡ ok w) ⊎ (host.fs.canonicalize run.lockfile ≡ ok w)
  target_or_lockfile asked w e (p, i, c) = elim (subst (In p) e i) [
    | inl q ↦ inl (ap host.fs.canonicalize (sym q) ∙ c)
    | inr (inl q) ↦ inr (ap host.fs.canonicalize (sym q) ∙ c)
    | inr (inr q) ↦ absurd q
  ]

  plan-IsConfined :
      (home : OsString) (policy : SandboxPolicy) (request : SandboxRequest)
      → IsGuarded
          (path_of home)
          (cargo_home_of (path_of home) variables.cargo_home)
          variables.vars
          policy
      → request.policy ≡ run_policy run policy
      → IsSafePlan host variables.cargo_home variables.home request plan
      → IsConfined (path_of home)
  unfolding run_policy
  plan-IsConfined home policy request guarded e safe =
      let same_writable : request.policy.writable_paths ≡ run.target_dir ∷ run.lockfile ∷ [] =
        ap (λ p. p.writable_paths) e
        ∙ ap (λ w. w ++ run.target_dir ∷ run.lockfile ∷ []) guarded.nothing_writable in
      let same_hidden : request.policy.hidden_paths ≡ policy.hidden_paths =
        ap (λ p. p.hidden_paths) e in
      let same_private : request.policy.private_paths ≡ policy.private_paths =
        ap (λ p. p.private_paths) e in
      record {
        offline = safe.network_kept ∙ (ap (λ p. p.network) e ∙ guarded.offline);
        home_private =
            safe.private_kept (path_of home)
              (subst (In (path_of home)) (sym same_private) guarded.home_private);
        writable_only = λ w i.
            target_or_lockfile request.policy.writable_paths w same_writable
              (safe.writable_asked w i);
        secrets_masked = λ name i.
            let path = join (path_of home) (path_of name) in
            kept_apart request path safe
              (subst (In path) (sym same_hidden) (guarded.secrets_hidden name i));
        variables_harmless = λ k v i. (safe.secrets_unset k v i).0;
      }

  -- The plan of a Cargo run has a home from HOME, which is private, denies the network, writes only
  -- to the target and the lockfile, masks the secrets of the home that are there apart from all
  -- that it shares, and sets no sensitive variable.
  pub cargo_request-IsConfined :
      (request : SandboxRequest)
      → cargo_request variables run ≡ ok request
      → from_request host variables.cargo_home variables.home request ≡ ok plan
      → (home : OsString) × (variables.home ≡ some home) × IsConfined (path_of home)
  cargo_request-IsConfined request h planned =
      let (home, e) = cargo_request-home variables run request h in
      let (policy, made, same) = cargo_request-policy variables run request h in
      let (absolute, other, guarded) =
        cargo_policy-IsGuarded home variables.cargo_home variables.vars true policy (
          subst (λ v. cargo_policy v variables.cargo_home variables.vars true ≡ ok policy) e
            made) in
      (
        home,
        e,
        plan-IsConfined home policy request guarded same
            (from_request-IsSafePlan host variables.cargo_home variables.home request plan planned),
      )
