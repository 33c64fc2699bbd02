-- ===== src/Tests/Merge.antt =====
-- Runs of the merge of the environments.
use cargo_cage.Base.{◌≡◌, refl, ◌↔◌, false, [], ◌∷◌, In, contains, list_eq, nat_eq}
use cargo_cage.Os.Text.{bytes}
use cargo_cage.Os.FilePath.{root}
use cargo_cage.Core.Environment.{clean}
use cargo_cage.Core.Environment.Names.{is_sensitive_environment_name}
use cargo_cage.Core.Request.{SandboxRequest, default_policy, inherit_output}
use cargo_cage.Linux.Merge.{merged_environment}
use cargo_cage.Linux.Merge.Laws.{merged_environment-set}

abbrev request : SandboxRequest
request = record {
  program = root;
  args = [];
  current_dir = root;
  environment = record clean {
    set =
        (bytes "LANG", bytes "C")
        ∷ (bytes "MY_TOKEN", bytes "x")
        ∷ (bytes "EDITOR", bytes "vi")
        ∷ [];
  };
  policy = record default_policy { remove_environment = bytes "EDITOR" ∷ [] };
  output = inherit_output;
}

survivors :
    ((merged_environment request).set ≡ (bytes "LANG", bytes "C") ∷ [])
    × ((merged_environment request).remove ≡ bytes "EDITOR" ∷ bytes "MY_TOKEN" ∷ [])
unfolding merged_environment is_sensitive_environment_name
survivors = (refl, refl)

merged_environment_example : In (bytes "LANG", bytes "C") (merged_environment request).set ↔ (
    In (bytes "LANG", bytes "C") request.environment.set
    × (is_sensitive_environment_name (bytes "LANG") ≡ false)
    × (contains request.policy.remove_environment (bytes "LANG") ≡ false)
    × (contains request.environment.remove (bytes "LANG") ≡ false))
merged_environment_example = merged_environment-set request (bytes "LANG") (bytes "C")
