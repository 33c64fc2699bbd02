-- ===== src/Linux/Launcher/Rules/Laws.antt =====
-- What a process is restricted by, once the rules are applied.
use cargo_cage.Base.{
  ◌≤◌, ◌≡◌, refl, ap, ◌∙◌, subst, inl, inr, bind_ok, guard_ok, map_err_ok, ok_injective,
  Result-cases, Bool-cases, arith, Bool, true, not, ok, map_err, In, All-at, for_each-ok,
  if◌then◌else◌,
}
use cargo_cage.Core.Error.{CageResult}
use cargo_cage.Linux.Launcher.{LauncherPlan}
use cargo_cage.Linux.Launcher.Rules.{
  Rule, Ruleset, RestrictionStatus, Kernel, LandlockFeatures, landlock_setup_error,
  required_landlock_features, rules_of, add_path_rule, prepare_ruleset, prepared_ruleset,
  restrict_self, apply_landlock,
}

-- The rights that are handled, and so denied where no rule grants them: those of a supported ABI from
-- the fifth on, and of the ninth if it is supported.
pub record IsHandled (kernel : Kernel) (plan : LauncherPlan) (made : Ruleset) : Type 0 where
  pub supported : kernel.supports_filesystem_abi made.filesystem_abi ≡ true
  pub recent : 5 ≤ made.filesystem_abi
  pub newest : kernel.supports_filesystem_abi 9 ≡ true → made.filesystem_abi ≡ 9
  pub filesystem : kernel.handle_filesystem made.filesystem_abi ≡ ok tt
  pub tcp_denied : made.denies_tcp ≡ plan.network_deny
  pub tcp : plan.network_deny ≡ true → kernel.handle_tcp ≡ ok tt
  pub same_scope : made.scoped ≡ kernel.supports_scope_abi_v6
  pub scope : made.scoped ≡ true → kernel.handle_scope ≡ ok tt

pub record IsApplied (kernel : Kernel) (plan : LauncherPlan) (made : Ruleset)
    (status : RestrictionStatus) : Type 0 where
  pub handled : IsHandled kernel plan made
  pub created : kernel.create ≡ ok tt
  pub same_rules : made.rules ≡ rules_of plan
  pub added : (rule : Rule) → In rule made.rules → kernel.add_rule rule ≡ ok tt
  pub restricted : kernel.restrict_self made ≡ ok status

restrict_self-same :
    (kernel : Kernel) (given made : Ruleset) (status : RestrictionStatus)
    → restrict_self kernel given ≡ ok (made, status)
    → (given ≡ made) × (kernel.restrict_self given ≡ ok status)
unfolding restrict_self
restrict_self-same kernel given made status h = elim (Result-cases (kernel.restrict_self given)) [
  | inr (e, r) ↦ absurd (ground arith)
  | inl (s, r) ↦
      let same : (given, s) ≡ (made, status) = ok_injective (rw (r, restrict_self) at h) in
      (ap (λ p. p.0) same, r ∙ ap (λ p. ok p.1) same)
]

IsSelected : Kernel → LandlockFeatures → Type 0
IsSelected kernel features =
    (kernel.supports_filesystem_abi features.filesystem_abi ≡ true)
    × (5 ≤ features.filesystem_abi)
    × (kernel.supports_filesystem_abi 9 ≡ true → features.filesystem_abi ≡ 9)
    × (features.scope_supported ≡ kernel.supports_scope_abi_v6)

selected :
    (kernel : Kernel) (five : kernel.supports_filesystem_abi 5 ≡ true)
    → IsSelected kernel (record {
      filesystem_abi = if kernel.supports_filesystem_abi 9 then 9 else 5;
      scope_supported = kernel.supports_scope_abi_v6;
    })
unfolding IsSelected
selected kernel five = elim (Bool-cases (kernel.supports_filesystem_abi 9)) [
  | inl e ↦ rw e (e, omega arith, (λ _. refl), refl)
  | inr e ↦ rw e (five, omega arith, (λ h. absurd (ground (arith, h))), refl)
]

required_landlock_features-IsSelected :
    (kernel : Kernel) (features : LandlockFeatures)
    → required_landlock_features kernel ≡ ok features
    → IsSelected kernel features
unfolding required_landlock_features
required_landlock_features-IsSelected kernel features h =
    let (five, h1) =
      guard_ok (not (kernel.supports_filesystem_abi 5)) landlock_setup_error _ features h in
    subst (IsSelected kernel) (ok_injective h1) (selected kernel (ground (arith, five)))

-- A step that is taken only under a condition succeeds when it is met.
when_ok :
    (test : Bool) (step : CageResult (Unit {0}))
    → (if test then step else ok tt) ≡ ok tt
    → test ≡ true
    → step ≡ ok tt
when_ok test step h e = rw e at h

IsPrepared : Kernel → LauncherPlan → LandlockFeatures → Type 0
IsPrepared kernel plan features =
    (kernel.handle_filesystem features.filesystem_abi ≡ ok tt)
    × (plan.network_deny ≡ true → kernel.handle_tcp ≡ ok tt)
    × (features.scope_supported ≡ true → kernel.handle_scope ≡ ok tt)
    × (kernel.create ≡ ok tt)
    × ((rule : Rule) → In rule (rules_of plan) → kernel.add_rule rule ≡ ok tt)

prepare_ruleset-IsPrepared :
    (kernel : Kernel) (plan : LauncherPlan) (features : LandlockFeatures)
    → prepare_ruleset kernel plan features ≡ ok tt
    → IsPrepared kernel plan features
unfolding prepare_ruleset add_path_rule IsPrepared
prepare_ruleset-IsPrepared kernel plan features h =
    let tcp = map_err kernel.handle_tcp (λ _. landlock_setup_error) in
    let scope = map_err kernel.handle_scope (λ _. landlock_setup_error) in
    let (a, e1, h1) =
      bind_ok (map_err (kernel.handle_filesystem features.filesystem_abi) _) _ tt h in
    let (b, e2, h2) = bind_ok (if plan.network_deny then tcp else ok tt) _ tt h1 in
    let (c, e3, h3) = bind_ok (if features.scope_supported then scope else ok tt) _ tt h2 in
    let (d, e4, h4) = bind_ok (map_err kernel.create _) _ tt h3 in
    let rules = (for_each-ok (add_path_rule kernel) (rules_of plan)).0 h4 in
    (
      map_err_ok (kernel.handle_filesystem features.filesystem_abi) _ tt e1,
      (λ t. map_err_ok kernel.handle_tcp _ tt (when_ok plan.network_deny tcp e2 t)),
      (λ t. map_err_ok kernel.handle_scope _ tt (when_ok features.scope_supported scope e3 t)),
      map_err_ok kernel.create _ tt e4,
      λ rule i. map_err_ok (kernel.add_rule rule) _ tt (All-at _ (rules_of plan) rules i),
    )

pub apply_landlock-IsApplied :
    (kernel : Kernel) (plan : LauncherPlan) (made : Ruleset) (status : RestrictionStatus)
    → apply_landlock kernel plan ≡ ok (made, status)
    → IsApplied kernel plan made status
unfolding apply_landlock prepared_ruleset IsPrepared IsSelected
apply_landlock-IsApplied kernel plan made status h =
    let (features, e1, h1) = bind_ok (required_landlock_features kernel) _ (made, status) h in
    let (u, e2, h2) = bind_ok (prepare_ruleset kernel plan features) _ (made, status) h1 in
    let (same, r) = restrict_self-same kernel (prepared_ruleset plan features) made status h2 in
    let (five, recent, newest, scoped) = required_landlock_features-IsSelected kernel features e1 in
    let (filesystem, tcp, scope, created, added) =
      prepare_ruleset-IsPrepared kernel plan features e2 in
    subst (λ m. IsApplied kernel plan m status) same
      (record {
        handled = record {
          supported = five;
          recent = recent;
          newest = newest;
          filesystem = filesystem;
          tcp_denied = refl;
          tcp = tcp;
          same_scope = scoped;
          scope = scope;
        };
        created = created;
        same_rules = refl;
        added = added;
        restricted = r;
      })
