-- ===== src/Tests/Delegated.antt =====
-- Runs of the search for a delegated control group.
use cargo_cage.Base.{
  ◌≡◌, refl, List, [], ◌∷◌, ok, err, ◌==◌, list_eq, list_beq, nat_eq, if◌then◌else◌,
}
use cargo_cage.Os.Text.{OsString, bytes}
use cargo_cage.Os.FilePath.{
  FilePath, absolute, component_eq, component_beq, root, starts_with, is_absolute, join,
}
use cargo_cage.Os.Fs.{permission_denied}
use cargo_cage.Linux.Tree.MountTable.{split_whitespace}
use cargo_cage.Linux.Delegated.{ControlFiles, find_delegated_parent}
use cargo_cage.Linux.Delegated.Laws.{IsSearched, find_delegated_parent-IsSearched}

abbrev group : FilePath
group = absolute (bytes "g" ∷ [])

abbrev inner : List OsString
inner = bytes "g" ∷ bytes "a" ∷ []

-- Control files where only /g may be written to.
files : ControlFiles
unfolding list_beq component_beq
files = record {
  read_to_string = λ path. ok (bytes "cpu memory +pids io");
  open_for_writing = λ path.
      if path == absolute (bytes "g" ∷ bytes "cgroup.procs" ∷ [])
      then ok tt
      else err permission_denied;
}

nearest : find_delegated_parent files root (absolute inner) ≡ ok group
unfolding find_delegated_parent files split_whitespace join is_absolute list_beq component_beq
nearest = refl

find_delegated_parent_example :
    IsSearched files root (absolute inner) (find_delegated_parent files root (absolute inner))
unfolding starts_with is_absolute component_beq
find_delegated_parent_example = find_delegated_parent-IsSearched files root inner refl refl
