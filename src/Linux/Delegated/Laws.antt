-- ===== src/Linux/Delegated/Laws.antt =====
-- What the search for a delegated control group finds.
use cargo_cage.Base.{
  ℕ, zero, suc, ◌<◌, ◌≡◌, refl, sym, ap, ◌∙◌, subst, ◌⊎◌, inl, inr, true, false, Option, none, some,
  List, [], ◌∷◌, ◌++◌, ok, err, ◌==◌, list_eq, list_beq_iff, Bool-cases, Result-cases, ◌>>=◌,
  bind_ok, ok_injective, length, arith, ◌≢◌,
}
use cargo_cage.Os.Text.{OsString}
use cargo_cage.Os.FilePath.{
  FilePath, Component, normal, root, absolute, is_absolute, parent, starts_with, component_eq,
}
use cargo_cage.Os.FilePath.Laws.{
  parent-snoc, starts_with_refl, starts_with_trans, starts_with_antisymm, starts_with-append,
  starts_with_snoc,
}
use cargo_cage.Core.Error.{CageResult, CageError}
use cargo_cage.Linux.Delegated.Upward.{path_up, path_up-grow, length-path_up, absolute-root}
use cargo_cage.Linux.Delegated.{ControlFiles, is_delegated, climb_to, find_delegated_parent, picked}

err_injective : {x y : CageError} → Path (CageResult (Option FilePath)) (err x) (err y) → x ≡ y
err_injective e = cc

module _ (files : ControlFiles) (mount : FilePath) where
  -- A control group from the candidate up to the mount.
  abbrev pub IsBetween : FilePath → FilePath → Type 0
  IsBetween candidate path = (starts_with candidate path ≡ true) × (starts_with path mount ≡ true)

  -- What is found is the nearest group up to the mount that is delegated; if nothing is, none is.
  abbrev pub IsNearest : FilePath → Option FilePath → Type 0
  IsNearest candidate none =
      (path : FilePath) → IsBetween candidate path → is_delegated files path ≡ ok false
  IsNearest candidate (some found) =
      (is_delegated files found ≡ ok true)
      × IsBetween candidate found
      × ((path : FilePath)
          → IsBetween candidate path
          → starts_with path found ≡ true
          → path ≢ found
          → is_delegated files path ≡ ok false)

  above : ℕ → FilePath → CageResult (Option FilePath)
  unfolding climb_to
  above fuel candidate = elim (parent candidate) [
    | none ↦ ok none
    | some next ↦ climb_to files fuel mount next
  ]

  -- One round ends the search, or refuses the candidate and goes on above it.
  round-cases :
      (fuel : ℕ) (candidate : FilePath) (found : Option FilePath)
      → starts_with candidate mount ≡ true
      → climb_to files (suc fuel) mount candidate ≡ ok found
      → IsNearest candidate found
        ⊎ ((candidate ≢ mount)
            × (is_delegated files candidate ≡ ok false)
            × (above fuel candidate ≡ ok found))
  unfolding climb_to above
  round-cases fuel candidate found held h =
      let (delegated, e, h1) = bind_ok (is_delegated files candidate) _ found h in
      elim (Bool-cases delegated) [
        | inl t ↦ inl (
            subst (IsNearest candidate) (ok_injective (rw t at h1)) (
              e ∙ ap ok t,
              (starts_with_refl candidate, held),
              λ path between over other.
                  absurd (other (starts_with_antisymm path candidate over between.0)),
            ))
        | inr f ↦ elim (Bool-cases (candidate == mount)) [
          | inl t ↦
              let same : candidate ≡ mount = (list_beq_iff candidate mount).0 t in
              inl (
                subst (IsNearest candidate) (ok_injective (rw (f, t) at h1)) (λ path between.
                  let here : candidate ≡ path =
                    starts_with_antisymm candidate path between.0
                      (subst (λ m. starts_with path m ≡ true) (sym same) between.1) in
                  subst (λ p. is_delegated files p ≡ ok false) here (e ∙ ap ok f)))
          | inr g ↦ inr (
            (λ same. absurd (ground (arith, g, (list_beq_iff candidate mount).1 same))),
            e ∙ ap ok f,
            rw (f, g) at h1,
          )
        ]
      ]

  -- The nearest group above a refused candidate is the nearest group above its parent.
  widen-IsNearest :
      (up : FilePath) (c : Component) (found : Option FilePath)
      → is_delegated files (up ++ c ∷ []) ≡ ok false
      → IsNearest up found
      → IsNearest (up ++ c ∷ []) found
  widen-IsNearest up c none refused nearest = λ path between.
      elim (starts_with_snoc up path c between.0) [
        | inl e ↦ subst (λ p. is_delegated files p ≡ ok false) e refused
        | inr s ↦ nearest path (s, between.1)
      ]
  widen-IsNearest up c (some found) refused (delegated, within, nearest) = (
    delegated,
    (starts_with_trans (up ++ c ∷ []) up found (starts_with-append up (c ∷ [])) within.0, within.1),
    λ path between over other. elim (starts_with_snoc up path c between.0) [
      | inl e ↦ subst (λ p. is_delegated files p ≡ ok false) e refused
      | inr s ↦ nearest path (s, between.1) over other
    ],
  )

  climb_to-IsNearest :
      (names : List OsString) (fuel : ℕ) (found : Option FilePath)
      → length names < fuel
      → is_absolute mount ≡ true
      → starts_with (path_up names) mount ≡ true
      → climb_to files fuel mount (path_up names) ≡ ok found
      → IsNearest (path_up names) found
  unfolding path_up above
  climb_to-IsNearest names zero found enough rooted held h = absurd (omega (arith, enough))
  climb_to-IsNearest [] (suc fuel) found enough rooted held h =
      elim (round-cases fuel root found held h) [
        | inl done ↦ done
        | inr (other, _, _) ↦ absurd (other (sym (absolute-root mount rooted held)))
      ]
  climb_to-IsNearest (name ∷ names) (suc fuel) found enough rooted held h =
      let up = path_up names in
      elim (round-cases fuel (up ++ normal name ∷ []) found held h) [
        | inl done ↦ done
        | inr (other, refused, more) ↦ elim (starts_with_snoc up mount (normal name) held) [
          | inl e ↦ absurd (other e)
          | inr s ↦ widen-IsNearest up (normal name) found refused (
              climb_to-IsNearest names fuel found (omega (arith, enough)) rooted s
                (rw (parent-snoc up name, above) at more))
        ]
      ]

  -- A control group from the candidate up to the mount cannot be asked.
  abbrev pub IsUnreadable : FilePath → CageError → Type 0
  IsUnreadable candidate e =
      (path : FilePath) × IsBetween candidate path × (is_delegated files path ≡ err e)

  round-failed :
      (fuel : ℕ) (candidate : FilePath) (e : CageError)
      → climb_to files (suc fuel) mount candidate ≡ err e
      → (is_delegated files candidate ≡ err e)
        ⊎ ((candidate ≢ mount) × (above fuel candidate ≡ err e))
  unfolding climb_to above
  round-failed fuel candidate e h = elim (Result-cases (is_delegated files candidate)) [
    | inr (f, t) ↦ let same : f ≡ e = err_injective (rw t at h) in inl (t ∙ ap err same)
    | inl (true, t) ↦ absurd (ground (arith, rw t at h))
    | inl (false, t) ↦ elim (Bool-cases (candidate == mount)) [
      | inl g ↦ absurd (ground (arith, rw (t, g) at h))
      | inr g ↦ inr (
        (λ same. absurd (ground (arith, g, (list_beq_iff candidate mount).1 same))),
        rw (t, g) at h,
      )
    ]
  ]

  climb_to-failed :
      (names : List OsString) (fuel : ℕ) (e : CageError)
      → is_absolute mount ≡ true
      → starts_with (path_up names) mount ≡ true
      → climb_to files fuel mount (path_up names) ≡ err e
      → IsUnreadable (path_up names) e
  unfolding path_up above climb_to
  climb_to-failed names zero e rooted held h = absurd (ground (arith, h))
  climb_to-failed [] (suc fuel) e rooted held h = elim (round-failed fuel root e h) [
    | inl t ↦ (root, (starts_with_refl root, held), t)
    | inr (other, more) ↦ absurd (other (sym (absolute-root mount rooted held)))
  ]
  climb_to-failed (name ∷ names) (suc fuel) e rooted held h =
      let up = path_up names in
      let here = up ++ normal name ∷ [] in
      elim (round-failed fuel here e h) [
        | inl t ↦ (here, (starts_with_refl here, held), t)
        | inr (other, more) ↦ elim (starts_with_snoc up mount (normal name) held) [
          | inl same ↦ absurd (other same)
          | inr s ↦
              let (path, (below, over), t) =
                climb_to-failed names fuel e rooted s (rw (parent-snoc up name, above) at more) in
              (
                path,
                (
                  starts_with_trans here up path (starts_with-append up (normal name ∷ [])) below,
                  over,
                ),
                t,
              )
        ]
      ]

  -- Either the nearest delegated group is found, or there is an error: then no group up to the mount
  -- is delegated, or one cannot be asked.
  abbrev pub IsSearched : FilePath → CageResult FilePath → Type 0
  IsSearched restore (ok found) = IsNearest restore (some found)
  IsSearched restore (err e) = IsNearest restore none ⊎ IsUnreadable restore e

  picked-IsSearched :
      (restore : FilePath) (end : CageResult (Option FilePath))
      → ((found : Option FilePath) → end ≡ ok found → IsNearest restore found)
      → ((e : CageError) → end ≡ err e → IsUnreadable restore e)
      → IsSearched restore (end >>= picked restore)
  unfolding picked
  picked-IsSearched restore (ok none) nearest failed = inl (nearest none refl)
  picked-IsSearched restore (ok (some found)) nearest failed = nearest (some found) refl
  picked-IsSearched restore (err e) nearest failed = inr (failed e refl)

  path_up-IsSearched :
      (names : List OsString) (restore : FilePath)
      → path_up names ≡ restore
      → length names < suc (length restore)
      → is_absolute mount ≡ true
      → starts_with restore mount ≡ true
      → IsSearched restore (find_delegated_parent files mount restore)
  unfolding find_delegated_parent
  path_up-IsSearched names restore same enough rooted held =
      let held' = subst (λ p. starts_with p mount ≡ true) (sym same) held in
      let fuel = suc (length restore) in
      picked-IsSearched restore (climb_to files fuel mount restore)
        (λ found h.
          subst (λ p. IsNearest p found) same
            (climb_to-IsNearest names fuel found enough rooted held'
              (ap (climb_to files fuel mount) same ∙ h)))
        (λ e h.
          subst (λ p. IsUnreadable p e) same
            (climb_to-failed names fuel e rooted held' (ap (climb_to files fuel mount) same ∙ h)))

  -- From an absolute group at or below an absolute mount, the search finds the nearest delegated group
  -- up to the mount, or there is an error: then no group up to the mount is delegated, or one cannot be
  -- asked.
  pub find_delegated_parent-IsSearched :
      (names : List OsString)
      → is_absolute mount ≡ true
      → starts_with (absolute names) mount ≡ true
      → IsSearched (absolute names) (find_delegated_parent files mount (absolute names))
  unfolding path_up
  find_delegated_parent-IsSearched names rooted held =
      let (all, same) = path_up-grow [] names in
      path_up-IsSearched all (absolute names) (sym same)
        (subst (λ p. length all < suc (length p)) (sym same) (length-path_up all)) rooted held
