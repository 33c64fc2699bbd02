-- ===== src/Linux/Plan/FromRequest/Laws.antt =====
-- Every request that becomes a plan becomes a safe one.
use cargo_cage.Base.{
  ◌≡◌, ◌≢◌, refl, sym, ◌∙◌, subst, inl, inr, String, Option, none, some, List, [], ◌∷◌, ok, err, In,
  In-append, All-at, bind_ok, for_each, for_each-ok, ok_injective, Bool-cases, ◌⊎◌, try_map,
  try_map-In, contains, contains-In, list_eq, nat_eq,
}
use cargo_cage.Os.Text.{OsString}
use cargo_cage.Os.FilePath.{FilePath, root, component_eq}
use cargo_cage.Os.Fs.{not_found}
use cargo_cage.Core.Paths.{canonical_existing_path_without_symlinks}
use cargo_cage.Core.Paths.Laws.{canonical_existing_path_without_symlinks-canonicalize}
use cargo_cage.Core.Request.{SandboxRequest}
use cargo_cage.Linux.Overlap.{MaskPath, validate_read_only_paths, validate_writable_paths}
use cargo_cage.Linux.Overlap.Laws.{
  IsWritableAllowed, IsReadOnlyAllowed, validate_writable_paths-ok, validate_read_only_paths-ok,
}
use cargo_cage.Linux.Overlap.Shared.{Below, SharesPath}
use cargo_cage.Linux.Overlap.Caches.{validate_cache_source_policy-apart}
use cargo_cage.Linux.Merge.{merged_environment}
use cargo_cage.Linux.Merge.Laws.{merged_environment-set}
use cargo_cage.Linux.Sources.{
  flatten_options, canonical_existing_dir, make_mask, runtime_mounts, validate_program_path,
}
use cargo_cage.Linux.Sources.Laws.{
  In-flatten_options, canonical_existing_dir-canonicalize, make_mask-Masked, Masked,
  runtime_mounts-IsRuntimeMount, mapped-canonicalize, mapped-asked,
}
use cargo_cage.Linux.CargoHome.{host_cargo_home}
use cargo_cage.Linux.CargoHome.Laws.{
  IsAccepted, validate_cargo_cache_paths-IsAccepted, with_cargo_home-private,
}
use cargo_cage.Linux.Tree.Roots.{unique_mount_roots}
use cargo_cage.Linux.Tree.Walk.{TreeKind, cache, writable, read_only}
use cargo_cage.Linux.Tree.Validate.{
  Host, validate_tree, validate_writable_tree, validate_read_only_tree,
}
use cargo_cage.Linux.Tree.Validate.Laws.{validate_tree-IsSoundRoot}
use cargo_cage.Linux.Plan.{SandboxPlan}
use cargo_cage.Linux.Plan.FromRequest.{
  PlanPaths, run_dir, with_run, find_paths, add_cargo_home, check_paths, cache_paths, from_request,
}
use cargo_cage.Linux.Plan.FromRequest.Invariant.{IsCheckedTree, Includes, IsAsked, IsSafePlan}

module _ (host : Host) where
  checked :
      (kind : TreeKind) (path : FilePath) (excluded : List FilePath)
      → validate_tree host.fs host.mountinfo path kind (host.listing path) excluded ≡ ok tt
      → IsCheckedTree host kind excluded path
  checked kind path excluded h =
      validate_tree-IsSoundRoot host.fs host.mountinfo path kind (host.listing path) excluded h

  with_run-In :
      (private : List FilePath) (run_path : FilePath)
      → In run_path (with_run private run_path)
        × ((p : FilePath) → In p private → In p (with_run private run_path))
  unfolding with_run
  with_run-In private run_path = elim (Bool-cases (contains private run_path)) [
    | inl e ↦ rw (e, with_run) (contains-In private run_path e, λ p i. i)
    | inr e ↦
        rw (e, with_run)
          (
            In-append private (run_path ∷ []) run_path (inr (inl refl)),
            λ p i. In-append private (run_path ∷ []) p (inl i),
          )
  ]

  -- What the first part finds.
  record IsFound (request : SandboxRequest) (paths : PlanPaths) : Type 0 where
    runtime_found : runtime_mounts host.fs ≡ ok paths.runtime
    writable_found :
        (w : FilePath) → In w paths.writable → IsAsked host request.policy.writable_paths w
    read_only_found :
        (v : FilePath) → In v paths.read_only → IsAsked host request.policy.read_only_paths v
    run_found : Includes host paths.private run_dir
    private_found :
        (p : FilePath) → In p request.policy.private_paths → Includes host paths.private p
    hidden_found :
        (p : FilePath)
        → In p request.policy.hidden_paths
        → (host.fs.symlink_metadata p ≡ err not_found)
          ⊎ ((mask : MaskPath) × In mask paths.hidden × Masked host.fs p mask)

  masks-found :
      (asked : List FilePath) (masks : List (Option MaskPath)) (p : FilePath)
      → try_map (make_mask host.fs) asked ≡ ok masks
      → In p asked
      → (host.fs.symlink_metadata p ≡ err not_found)
        ⊎ ((mask : MaskPath) × In mask (flatten_options masks) × Masked host.fs p mask)
  masks-found asked masks p h i =
      let (answer, j, e) = (try_map-In (make_mask host.fs) asked masks h).1 p i in
      elim (make_mask-Masked host.fs p answer e) [
        | inl (n, missing) ↦ inl missing
        | inr (mask, s, m) ↦
            inr (mask, In-flatten_options masks mask (subst (λ a. In a masks) s j), m)
      ]

  find_paths-IsFound :
      (request : SandboxRequest) (paths : PlanPaths)
      → find_paths host request ≡ ok paths
      → IsFound request paths
  unfolding find_paths
  find_paths-IsFound request paths h =
      let label : String = "private path" in
      let (a, e1, h1) =
        bind_ok (canonical_existing_dir host.fs request.current_dir "current directory") _ paths
          h in
      let (b, e2, h2) = bind_ok (runtime_mounts host.fs) _ paths h1 in
      let (c, e3, h3) =
        bind_ok
          (try_map (λ p. canonical_existing_path_without_symlinks host.fs p "writable path")
            request.policy.writable_paths)
          _ paths h2 in
      let (d, e4, h4) =
        bind_ok
          (try_map (λ p. canonical_existing_dir host.fs p "read-only path")
            request.policy.read_only_paths)
          _ paths h3 in
      let (e, e5, h5) =
        bind_ok (try_map (λ p. canonical_existing_dir host.fs p label) request.policy.private_paths)
          _ paths h4 in
      let (f, e6, h6) = bind_ok (canonical_existing_dir host.fs run_dir label) _ paths h5 in
      let (g, e7, h7) =
        bind_ok (try_map (make_mask host.fs) request.policy.hidden_paths) _ paths h6 in
      subst (IsFound request) (ok_injective h7) (record {
        runtime_found = e2;
        writable_found =
            mapped-asked host.fs
              (λ p. canonical_existing_path_without_symlinks host.fs p "writable path")
              (λ p q.
                canonical_existing_path_without_symlinks-canonicalize host.fs p "writable path" q)
              request.policy.writable_paths c e3;
        read_only_found =
            mapped-asked host.fs (λ p. canonical_existing_dir host.fs p "read-only path")
              (λ p q. canonical_existing_dir-canonicalize host.fs p "read-only path" q)
              request.policy.read_only_paths d e4;
        run_found = (
          f,
          (with_run-In e f).0,
          canonical_existing_dir-canonicalize host.fs run_dir label f e6,
        );
        private_found = λ p i.
            let (q, j, k) =
              mapped-canonicalize host.fs (λ p. canonical_existing_dir host.fs p label)
                (λ p q. canonical_existing_dir-canonicalize host.fs p label q)
                request.policy.private_paths e e5 p i in
            (q, (with_run-In e f).1 q j, k);
        hidden_found = λ p i. masks-found request.policy.hidden_paths g p e7 i;
      })

  -- The parts of a plan that is made.
  record IsMade (cargo_home_variable home_variable : Option OsString) (request : SandboxRequest)
      (plan : SandboxPlan) : Type 0 where
    paths : PlanPaths
    cargo_home : Option FilePath
    found : find_paths host request ≡ ok paths
    home : host_cargo_home host cargo_home_variable home_variable ≡ ok cargo_home
    private : add_cargo_home host paths cargo_home ≡ ok plan.private_paths
    checks : check_paths host paths plan.private_paths ≡ ok tt
    caches : cache_paths host paths cargo_home ≡ ok plan.cargo_cache_paths
    same_runtime : plan.runtime_mounts ≡ paths.runtime
    same_writable : plan.writable_paths ≡ paths.writable
    same_hidden : plan.hidden_paths ≡ paths.hidden
    same_read_only : plan.read_only_paths ≡ paths.read_only
    same_environment : plan.environment ≡ merged_environment request
    same_network : plan.network ≡ request.policy.network
    same_resources : plan.resources ≡ request.policy.resources

  from_request-IsMade :
      (cargo_home_variable home_variable : Option OsString) (request : SandboxRequest)
      (plan : SandboxPlan)
      → from_request host cargo_home_variable home_variable request ≡ ok plan
      → IsMade cargo_home_variable home_variable request plan
  unfolding from_request
  from_request-IsMade cargo_home_variable home_variable request plan h =
      let (paths, e1, h1) = bind_ok (find_paths host request) _ plan h in
      let (u, e2, h2) =
        bind_ok
          (validate_program_path host.fs request.program paths.runtime paths.writable
            paths.read_only)
          _ plan h1 in
      let (cargo_home, e3, h3) =
        bind_ok (host_cargo_home host cargo_home_variable home_variable) _ plan h2 in
      let (private, e4, h4) = bind_ok (add_cargo_home host paths cargo_home) _ plan h3 in
      let (v, e5, h5) = bind_ok (check_paths host paths private) _ plan h4 in
      let (caches, e6, h6) = bind_ok (cache_paths host paths cargo_home) _ plan h5 in
      subst (IsMade cargo_home_variable home_variable request) (ok_injective h6) (record {
        paths = paths;
        cargo_home = cargo_home;
        found = e1;
        home = e3;
        private = e4;
        checks = e5;
        caches = e6;
        same_runtime = refl;
        same_writable = refl;
        same_hidden = refl;
        same_read_only = refl;
        same_environment = refl;
        same_network = refl;
        same_resources = refl;
      })

  -- The private paths with the Cargo home.
  add_cargo_home-private :
      (paths : PlanPaths) (cargo_home : Option FilePath) (private : List FilePath)
      → add_cargo_home host paths cargo_home ≡ ok private
      → ((p : FilePath) → In p paths.private → In p private)
        × ((h : FilePath)
            → cargo_home ≡ some h
            → (h ≢ root)
              × ((p : FilePath) × In p private × Below h p)
              × ((v : FilePath) → In v paths.read_only → ¬ SharesPath h v))
  unfolding add_cargo_home
  add_cargo_home-private paths none private h =
      (λ p i. subst (In p) (ok_injective h) i, λ c e. absurd cc)
  add_cargo_home-private paths (some c) private h =
      let (r, b, a, kept) =
        with_cargo_home-private paths.runtime paths.read_only paths.private c private h in
      (
        kept,
        λ d e.
            let same : c ≡ d = cc in
            subst
              (λ d.
                (d ≢ root)
                × ((p : FilePath) × In p private × Below d p)
                × ((v : FilePath) → In v paths.read_only → ¬ SharesPath d v))
              same (r, b, a),
      )

  cache_paths-IsAccepted :
      (paths : PlanPaths) (cargo_home : Option FilePath) (caches : List FilePath) (c : FilePath)
      → cache_paths host paths cargo_home ≡ ok caches
      → In c caches
      → IsAccepted host paths.writable paths.hidden c
  unfolding cache_paths
  cache_paths-IsAccepted paths none caches c h i = absurd (subst (In c) (sym (ok_injective h)) i)
  cache_paths-IsAccepted paths (some home) caches c h i =
      validate_cargo_cache_paths-IsAccepted host paths.writable paths.hidden home caches c h i

  -- The checks of the second part.
  check_paths-ok :
      (paths : PlanPaths) (private : List FilePath)
      → check_paths host paths private ≡ ok tt
      → ((v : FilePath) → In v paths.read_only → IsReadOnlyAllowed private paths.hidden v)
        × ((w : FilePath)
            → In w paths.writable
            → IsWritableAllowed paths.hidden private paths.read_only w
              × IsCheckedTree host writable [] w)
        × ((v : FilePath)
            → In v (unique_mount_roots paths.read_only)
            → IsCheckedTree host read_only paths.writable v)
  unfolding check_paths
  check_paths-ok paths private h =
      let (a, e1, h1) =
        bind_ok (validate_read_only_paths paths.read_only private paths.hidden) _ tt h in
      let (b, e2, h2) =
        bind_ok (validate_writable_paths paths.writable paths.hidden private paths.read_only) _ tt
          h1 in
      let (c, e3, h3) = bind_ok (for_each (validate_writable_tree host) paths.writable) _ tt h2 in
      let writable_ok = (for_each-ok (validate_writable_tree host) paths.writable).0 e3 in
      let roots = unique_mount_roots paths.read_only in
      let read_only_ok =
        (for_each-ok (λ p. validate_read_only_tree host p paths.writable) roots).0 h3 in
      (
        (validate_read_only_paths-ok paths.read_only private paths.hidden).0 e1,
        (λ w i. (
          (validate_writable_paths-ok paths.writable paths.hidden private paths.read_only).0 e2 w i,
          checked writable w [] (All-at _ paths.writable writable_ok i),
        )),
        λ v i. checked read_only v paths.writable (All-at _ roots read_only_ok i),
      )

  IsMade-IsSafePlan :
      (cargo_home_variable home_variable : Option OsString) (request : SandboxRequest)
      (plan : SandboxPlan)
      → IsMade cargo_home_variable home_variable request plan
      → IsSafePlan host cargo_home_variable home_variable request plan
  IsMade-IsSafePlan cargo_home_variable home_variable request plan made =
      let found = find_paths-IsFound request made.paths made.found in
      let (kept, home) =
        add_cargo_home-private made.paths made.cargo_home plan.private_paths made.private in
      let (read_ok, write_ok, trees_ok) =
        check_paths-ok made.paths plan.private_paths made.checks in
      record {
        writable_allowed = rw (made.same_writable, made.same_hidden, made.same_read_only) write_ok;
        writable_asked = rw made.same_writable found.writable_found;
        read_only_asked = rw made.same_read_only found.read_only_found;
        read_only_allowed = rw (made.same_hidden, made.same_read_only) read_ok;
        read_only_checked = rw (made.same_writable, made.same_read_only) trees_ok;
        caches_allowed = λ c i.
            let (p, t) =
              cache_paths-IsAccepted made.paths made.cargo_home plan.cargo_cache_paths c made.caches
                i in
            let (w, m) =
              validate_cache_source_policy-apart c made.paths.writable made.paths.hidden p in
            (
              record {
                from_writable = rw made.same_writable w;
                from_hidden = rw made.same_hidden m;
              },
              checked cache c [] t,
            );
        runtime_allowed = rw made.same_runtime (λ m i.
            runtime_mounts-IsRuntimeMount host.fs made.paths.runtime m found.runtime_found i);
        home_private = λ h e. rw made.same_read_only (home h (ok_injective (sym made.home ∙ e)));
        run_private = let (p, i, c) = found.run_found in (p, kept p i, c);
        private_kept = λ p i. let (q, j, c) = found.private_found p i in (q, kept q j, c);
        hidden_masked = rw made.same_hidden found.hidden_found;
        secrets_unset = λ k v i.
            let (a, s, r, q) =
              (merged_environment-set request k v).0
                (subst (λ e. In (k, v) e.set) made.same_environment i) in
            (s, r, q);
        network_kept = made.same_network;
        resources_kept = made.same_resources;
      }

  -- A request that becomes a plan becomes a safe one: its writable and read-only paths were asked for
  -- and are allowed beside each other, they (of read-only paths, the outermost) and the caches
  -- are directories with trees as they should be, or for a writable path a regular file without another name, the caches share no
  -- file with writable or hidden paths, no runtime mount is the root, the Cargo home and the asked
  -- private paths are private, every hidden path that is there has a mask, and no variable is set that
  -- is sensitive or that the policy or the environment of the request removes.
  pub from_request-IsSafePlan :
      (cargo_home_variable home_variable : Option OsString) (request : SandboxRequest)
      (plan : SandboxPlan)
      → from_request host cargo_home_variable home_variable request ≡ ok plan
      → IsSafePlan host cargo_home_variable home_variable request plan
  from_request-IsSafePlan cargo_home_variable home_variable request plan h =
      IsMade-IsSafePlan cargo_home_variable home_variable request plan
        (from_request-IsMade cargo_home_variable home_variable request plan h)
