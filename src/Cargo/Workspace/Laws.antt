-- ===== src/Cargo/Workspace/Laws.antt =====
-- What a workspace that is found is, and what the search for it may write.
use cargo_cage.Base.{
  ok_or-some, ◌≡◌, refl, sym, ap, ◌∙◌, subst, inl, inr, true, not, Option, none, some, List, [],
  ◌∷◌, ok, In, In-keep, is_ok_and, Result-cases, Bool-cases, if◌then◌else◌, ok_or, bind_ok,
  guard_ok, ok_injective, arith, ◌==◌, list_eq, list_beq_iff, keep,
}
use cargo_cage.Os.Text.{OsString, bytes}
use cargo_cage.Os.FilePath.{FilePath, path_of, join, starts_with, parent, is_absolute, component_eq}
use cargo_cage.Os.FilePath.Laws.{starts_with_refl, join-starts_with}
use cargo_cage.Os.Fs.{Fs, is_file}
use cargo_cage.Os.Text.White.{trim}
use cargo_cage.Os.Text.Lossy.{from_utf8_lossy}
use cargo_cage.Core.Paths.{canonical_existing_path_without_symlinks}
use cargo_cage.Cargo.Options.{target_dir_arg, resolved_manifest_path}
use cargo_cage.Cargo.Workspace.{
  is_within, manifest_parent_path, sandbox_current_dir, dedup_from, dedup, exists_at, target_within,
  discovery_writable_paths, is_one_line, is_cargo_toml, check_contains, workspace_from_output,
}

is_within-starts_with : (p q : FilePath) → is_within p q ≡ true → starts_with p q ≡ true
unfolding is_within
is_within-starts_with p q h = elim (Bool-cases (p == q)) [
  | inl e ↦ subst (λ r. starts_with p r ≡ true) ((list_beq_iff p q).0 e) (starts_with_refl p)
  | inr e ↦ ground (arith, e, h)
]

starts_with-is_within : (p q : FilePath) → starts_with p q ≡ true → is_within p q ≡ true
unfolding is_within
starts_with-is_within p q h = ground (arith, h)

dedup_from-In :
    (last : FilePath) (paths : List FilePath) (p : FilePath)
    → In p (dedup_from last paths)
    → In p paths
unfolding dedup_from
dedup_from-In last [] p m = m
dedup_from-In last (path ∷ paths) p m = elim (Bool-cases (path == last)) [
  | inl e ↦ inr (dedup_from-In last paths p (rw e at m))
  | inr e ↦ elim (rw e at m) [ inl q ↦ inl q | inr i ↦ inr (dedup_from-In path paths p i) ]
]

dedup-In : (paths : List FilePath) (p : FilePath) → In p (dedup paths) → In p paths
unfolding dedup
dedup-In [] p m = m
dedup-In (path ∷ paths) p (inl q) = inl q
dedup-In (path ∷ paths) p (inr i) = inr (dedup_from-In path paths p i)

In-if_within :
    (base target p : FilePath)
    → In p (if is_within target base then target ∷ [] else [])
    → is_within p base ≡ true
In-if_within base target p m = elim (Bool-cases (is_within target base)) [
  | inl e ↦ elim (rw e at m) [
    | inl q ↦ subst (λ r. is_within r base ≡ true) (sym q) e
    | inr i ↦ absurd i
  ]
  | inr e ↦ absurd (rw e at m)
]

chosen-within :
    (workspace : FilePath) (found : Option FilePath)
    → starts_with
        (elim found [
          | none ↦ workspace
          | some directory ↦ if is_within directory workspace then directory else workspace
        ])
        workspace
      ≡ true
chosen-within workspace none = starts_with_refl workspace
chosen-within workspace (some directory) = elim (Bool-cases (is_within directory workspace)) [
  | inl e ↦ rw e (is_within-starts_with directory workspace e)
  | inr e ↦ rw e (starts_with_refl workspace)
]

module _ (fs : Fs) (args : List OsString) (current_dir : FilePath) where
  -- The directory that the search may write below: that of the manifest, or else the current one.
  abbrev pub IsBase : FilePath → Type 0
  IsBase base =
      (found : Option FilePath) × (manifest_parent_path fs args current_dir ≡ ok found)
      × (base ≡ elim found [ none ↦ current_dir | some directory ↦ directory ])

  target_within-is_within :
      (cargo_target_dir : Option OsString) (base p : FilePath)
      → In p (target_within cargo_target_dir args current_dir base)
      → is_within p base ≡ true
  unfolding target_within
  target_within-is_within cargo_target_dir base p m =
      elim (Result-cases (target_dir_arg cargo_target_dir args current_dir current_dir)) [
        | inr (e, failed) ↦ absurd (rw (failed, target_within, In) at m)
        | inl (target, found) ↦ In-if_within base target p (rw (found, target_within) at m)
      ]

  -- Whatever the search may write is there, and lies at or below its base.
  pub discovery_writable_paths-within :
      (cargo_target_dir : Option OsString) (paths : List FilePath)
      → discovery_writable_paths fs cargo_target_dir args current_dir ≡ ok paths
      → (base : FilePath) × IsBase base
        × ((p : FilePath) → In p paths → (exists_at fs p ≡ true) × (starts_with p base ≡ true))
  unfolding discovery_writable_paths path_of
  discovery_writable_paths-within cargo_target_dir paths h =
      let (found, e, h1) = bind_ok (manifest_parent_path fs args current_dir) _ paths h in
      let base : FilePath = elim found [ none ↦ current_dir | some directory ↦ directory ] in
      let asked =
        join base (path_of (bytes "target"))
        ∷ target_within cargo_target_dir args current_dir base in
      (
        base,
        (found, e, refl),
        λ p i.
            let kept =
              dedup-In (keep (exists_at fs) asked) p (subst (In p) (sym (ok_injective h1)) i) in
            let (m, there) = (In-keep (exists_at fs) asked p).0 kept in
            (
              there,
              elim m [
                | inl q ↦
                    subst (λ r. starts_with r base ≡ true) (sym q)
                      (join-starts_with base (bytes "target") [])
                | inr j ↦
                    is_within-starts_with p base (target_within-is_within cargo_target_dir base p j)
              ],
            ),
      )

  -- What is found: the directory of a real Cargo.toml that holds the requested manifest, or else the
  -- current directory.
  pub record IsWorkspace (workspace : FilePath) : Type 0 where
    pub manifest : FilePath
    pub requested : Option FilePath
    pub is_real : is_ok_and (fs.metadata manifest) is_file ≡ true
    pub is_named : is_cargo_toml manifest ≡ true
    pub is_above : parent manifest ≡ some workspace
    pub is_resolved : resolved_manifest_path fs args current_dir ≡ ok requested
    pub is_held :
        starts_with (elim requested [ none ↦ current_dir | some path ↦ path ]) workspace ≡ true

  check_contains-held :
      (requested : Option FilePath) (workspace made : FilePath)
      → check_contains requested current_dir workspace ≡ ok made
      → (workspace ≡ made)
        × (starts_with (elim requested [ none ↦ current_dir | some path ↦ path ]) workspace ≡ true)
  unfolding check_contains
  check_contains-held none workspace made h =
      let (held, h1) = guard_ok (not (is_within current_dir workspace)) _ _ made h in
      (ok_injective h1, is_within-starts_with current_dir workspace (ground (arith, held)))
  check_contains-held (some path) workspace made h =
      let (held, h1) = guard_ok (not (starts_with path workspace)) _ _ made h in
      (ok_injective h1, ground (arith, held))

  pub workspace_from_output-IsWorkspace :
      (output : OsString) (workspace : FilePath)
      → workspace_from_output fs output current_dir args ≡ ok workspace
      → IsWorkspace workspace
  unfolding workspace_from_output
  workspace_from_output-IsWorkspace output workspace h =
      let (one_line, h1) =
        guard_ok (not (is_one_line (trim (from_utf8_lossy output)))) _ _ workspace h in
      let (manifest, found, h2) =
        bind_ok
          (canonical_existing_path_without_symlinks fs
            (if is_absolute (path_of (trim (from_utf8_lossy output)))
              then path_of (trim (from_utf8_lossy output))
              else join current_dir (path_of (trim (from_utf8_lossy output))))
            "workspace manifest")
          _ workspace h1 in
      let (real, h3) = guard_ok (not (is_ok_and (fs.metadata manifest) is_file)) _ _ workspace h2 in
      let (toml, h4) = guard_ok (not (is_cargo_toml manifest)) _ _ workspace h3 in
      let (directory, above, h5) = bind_ok (ok_or (parent manifest) _) _ workspace h4 in
      let (requested, resolved, h6) =
        bind_ok (resolved_manifest_path fs args current_dir) _ workspace h5 in
      let (same, held) = check_contains-held requested directory workspace h6 in
      let at_top : parent manifest ≡ some directory = ok_or-some _ _ _ above in
      record {
        manifest = manifest;
        requested = requested;
        is_real = ground (arith, real);
        is_named = ground (arith, toml);
        is_above = at_top ∙ ap some same;
        is_resolved = resolved;
        is_held =
            subst
              (λ w. starts_with (elim requested [ none ↦ current_dir | some path ↦ path ]) w ≡ true)
              same held;
      }

  -- The directory that Cargo is started in lies in the workspace.
  pub sandbox_current_dir-within :
      (workspace directory : FilePath)
      → sandbox_current_dir fs current_dir workspace args ≡ ok directory
      → starts_with directory workspace ≡ true
  unfolding sandbox_current_dir
  sandbox_current_dir-within workspace directory h =
      elim (Bool-cases (is_within current_dir workspace)) [
        | inl e ↦
            let same : current_dir ≡ directory = ok_injective (rw e at h) in
            subst (λ d. starts_with d workspace ≡ true) same
              (is_within-starts_with current_dir workspace e)
        | inr e ↦
            let (found, made, h1) =
              bind_ok (manifest_parent_path fs args current_dir) _ directory (rw e at h) in
            subst (λ d. starts_with d workspace ≡ true) (ok_injective h1)
              (chosen-within workspace found)
      ]
