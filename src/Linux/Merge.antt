-- ===== src/Linux/Merge.antt =====
-- cage-linux/src/backend.rs: `merged_environment`.
pub mod Laws
use cargo_cage.Base.{
  Bool, not, ◌&&◌, List, [], ◌∷◌, ◌++◌, contains, keep, list_eq, list_beq, nat_eq, if◌then◌else◌,
}
use cargo_cage.Os.Text.{OsString}
use cargo_cage.Core.Environment.{Environment}
use cargo_cage.Core.Environment.Names.{is_sensitive_environment_name}
use cargo_cage.Core.Request.{SandboxRequest}

-- The loop over the names that the policy removes.
add_missing : List OsString → List OsString → List OsString
add_missing [] remove = remove
add_missing (key ∷ keys) remove =
    add_missing keys (if contains remove key then remove else remove ++ key ∷ [])

-- The loop over the variables of the request.
add_sensitive : List (OsString × OsString) → List OsString → List OsString
add_sensitive [] remove = remove
add_sensitive ((key, value) ∷ set) remove = add_sensitive set (
    if is_sensitive_environment_name key && not (contains remove key)
    then remove ++ key ∷ []
    else remove)

merged_remove : SandboxRequest → List OsString
unfolding add_missing add_sensitive
merged_remove request =
    add_sensitive request.environment.set
      (add_missing request.policy.remove_environment request.environment.remove)

unfoldable pub merged_environment : SandboxRequest → Environment
unfolding merged_remove contains list_beq
merged_environment request = record {
  inherit = request.environment.inherit;
  set = keep (λ (key, value). not (contains (merged_remove request) key)) request.environment.set;
  remove = merged_remove request;
}
