-- ===== src/Core/Environment.antt =====
-- cage-core/src/policy.rs: `Environment`, and the three tests on names of variables.
pub mod Names
use cargo_cage.Base.{Bool, false, List, [], ◌∷◌, ◌++◌}
use cargo_cage.Os.Text.{OsString}

pub record Environment : Type 0 where
  pub inherit : Bool
  pub set : List (OsString × OsString)
  pub remove : List OsString

abbrev pub clean : Environment
clean = record { inherit = false; set = []; remove = [] }

-- `environment.set(key, value)`
unfoldable pub with_set : Environment → OsString → OsString → Environment
with_set e key value = record e { set = e.set ++ (key, value) ∷ [] }

unfoldable pub with_remove : Environment → OsString → Environment
with_remove e key = record e { remove = e.remove ++ key ∷ [] }
