-- ===== src/Linux/Merge/Laws.antt =====
-- Which variables of a request survive the merge.
use cargo_cage.Base.{
  In-keep, ◌≡◌, refl, ◌↔◌, inl, inr, Bool, true, false, not, ◌&&◌, ◌||◌, List, [], ◌∷◌, ◌++◌, arith,
  contains, In, list_eq, list_beq, list_beq_iff, nat_eq, ◌==◌, eq_self, Bool-cases, any, any_iff,
  any-false,
}
use cargo_cage.Os.Text.{OsString}
use cargo_cage.Core.Environment.Names.{is_sensitive_environment_name}
use cargo_cage.Core.Request.{SandboxRequest}
use cargo_cage.Linux.Merge.{add_missing, add_sensitive, merged_remove, merged_environment}

contains-append :
    (xs ys : List OsString) (k : OsString)
    → contains (xs ++ ys) k ≡ (contains xs k || contains ys k)
unfolding contains
contains-append [] ys k = refl
contains-append (x ∷ xs) ys k = ground (arith, contains-append xs ys k)

contains-snoc :
    (xs : List OsString) (j k : OsString) → contains (xs ++ j ∷ []) k ≡ (contains xs k || j == k)
unfolding contains
contains-snoc xs j k = ground (arith, contains-append xs (j ∷ []) k)

contains_same :
    (xs : List OsString) (j k : OsString) → list_beq j k ≡ true → contains xs j ≡ contains xs k
contains_same xs j k h = rw ((list_beq_iff j k).0 h)

contains-add_missing :
    (keys remove : List OsString) (k : OsString)
    → contains (add_missing keys remove) k ≡ (contains remove k || contains keys k)
unfolding add_missing contains
contains-add_missing [] remove k = ground arith
contains-add_missing (key ∷ keys) remove k = elim (Bool-cases (contains remove key)) [
  | inl e ↦ rw (e, contains-add_missing keys remove k) (ground (arith, contains_same remove key k))
  | inr e ↦
      rw (e, contains-add_missing keys (remove ++ key ∷ []) k, contains-snoc remove key k)
        (ground arith)
]

unfoldable sensitive_key : OsString → OsString × OsString → Bool
sensitive_key k (key, value) = is_sensitive_environment_name key && key == k

contains-add_sensitive :
    (set : List (OsString × OsString)) (remove : List OsString) (k : OsString)
    → contains (add_sensitive set remove) k ≡ (contains remove k || any (sensitive_key k) set)
unfolding add_sensitive sensitive_key
contains-add_sensitive [] remove k = ground arith
contains-add_sensitive ((key, value) ∷ set) remove k =
    elim (Bool-cases (is_sensitive_environment_name key)) [
      | inr s ↦ rw (s, contains-add_sensitive set remove k) refl
      | inl s ↦ elim (Bool-cases (contains remove key)) [
        | inl e ↦
            rw (s, e, contains-add_sensitive set remove k)
              (ground (arith, contains_same remove key k))
        | inr e ↦
            rw (s, e, contains-add_sensitive set (remove ++ key ∷ []) k, contains-snoc remove key k)
              (ground arith)
      ]
    ]

contains-merged_remove :
    (request : SandboxRequest) (k : OsString)
    → contains (merged_remove request) k
      ≡ (contains request.environment.remove k || contains request.policy.remove_environment k)
        || any (sensitive_key k) request.environment.set
unfolding merged_remove
contains-merged_remove request k =
    rw
      (
        contains-add_sensitive request.environment.set
            (add_missing request.policy.remove_environment request.environment.remove) k,
        contains-add_missing request.policy.remove_environment request.environment.remove k,
      )
      refl

-- A name that stands among the request's variables is sensitive exactly if the loop finds it.
sensitive_key_iff :
    (set : List (OsString × OsString)) (k v : OsString)
    → In (k, v) set
    → any (sensitive_key k) set ≡ is_sensitive_environment_name k
unfolding sensitive_key
sensitive_key_iff set k v m = elim (Bool-cases (any (sensitive_key k) set)) [
  | inl e ↦
      let ((j, w), i, h) = (any_iff (sensitive_key k) set).0 e in
      ground (arith, e, (list_beq_iff j k).0 (ground arith))
  | inr e ↦ let h = any-false (sensitive_key k) set e m in ground (arith, e, h, eq_self k)
]

-- A variable is set after the merge exactly if the request sets it, its name is no sensitive
-- one, and neither the policy nor the request removes it.
pub merged_environment-set :
    (request : SandboxRequest) (k v : OsString)
    → In (k, v) (merged_environment request).set ↔ (
        In (k, v) request.environment.set
        × (is_sensitive_environment_name k ≡ false)
        × (contains request.policy.remove_environment k ≡ false)
        × (contains request.environment.remove k ≡ false))
unfolding merged_environment
merged_environment-set request k v =
    let survives =
      In-keep (λ (key, value). not (contains (merged_remove request) key)) request.environment.set
        (k, v) in
    (
      λ m.
          let (i, h) = survives.0 m in
          let sensitive = sensitive_key_iff request.environment.set k v i in
          let removed = contains-merged_remove request k in
          (i, ground arith, ground arith, ground arith),
      λ (i, a, b, c). survives.1 (
        i,
        ground (
          arith,
          sensitive_key_iff request.environment.set k v i,
          contains-merged_remove request k,
        ),
      ),
    )
