-- ===== src/Tests/Launcher.antt =====
-- A plan for a build, as the backend writes it and as the launcher reads it.
use cargo_cage.Base.{◌≡◌, refl, List, [], ◌∷◌, some, ok, err, list_beq, inl}
use cargo_cage.Os.Text.{OsString, bytes}
use cargo_cage.Os.FilePath.{FilePath, absolute}
use cargo_cage.Os.FilePath.Spelling.{IsName, IsName-name_test}
use cargo_cage.Core.Limits.{default_limits}
use cargo_cage.Core.Environment.{clean}
use cargo_cage.Core.Request.{deny}
use cargo_cage.Core.Error.{invalid_invocation}
use cargo_cage.Linux.Plan.{SandboxPlan}
use cargo_cage.Linux.Launcher.{parse}
use cargo_cage.Linux.Mounts.{
  MountArguments, directory_kind, executable_kind, landlock_launcher_args,
}
use cargo_cage.Linux.Mounts.RoundTrip.{IsLaunchable, launcher_plan_of, parse-landlock_launcher_args}

abbrev target : FilePath
target = absolute (bytes "w" ∷ bytes "target" ∷ [])

abbrev cargo : FilePath
cargo = absolute (bytes "usr" ∷ bytes "cargo" ∷ [])

abbrev build_plan : SandboxPlan
build_plan = record {
  current_dir = absolute (bytes "w" ∷ []);
  runtime_mounts = [];
  writable_paths = target ∷ [];
  hidden_paths = [];
  private_paths = absolute (bytes "tmp" ∷ []) ∷ [];
  read_only_paths = absolute (bytes "w" ∷ []) ∷ [];
  cargo_cache_paths = [];
  environment = clean;
  network = deny;
  resources = default_limits;
}

abbrev build_mounts : MountArguments
build_mounts = record {
  runtime = [];
  read_only =
      record { source = 5; destination = absolute (bytes "w" ∷ []); kind = directory_kind } ∷ [];
  caches = [];
  hidden_files = [];
  writable = record { source = 6; destination = target; kind = directory_kind } ∷ [];
  launcher =
      some (record { source = 7; destination = absolute (bytes "l" ∷ []); kind = executable_kind });
}

-- The parser refuses a line with no separator.
no_separator :
    parse (bytes "--landlock-read" ∷ bytes "/usr" ∷ [])
    ≡ err (invalid_invocation "internal Landlock launcher is missing the -- program separator")
unfolding parse
no_separator = refl

abbrev is_w : IsName (bytes "w")
unfolding list_beq
is_w = IsName-name_test (bytes "w") refl

abbrev is_target : IsName (bytes "target")
unfolding list_beq
is_target = IsName-name_test (bytes "target") refl

abbrev is_usr : IsName (bytes "usr")
unfolding list_beq
is_usr = IsName-name_test (bytes "usr") refl

abbrev is_cargo : IsName (bytes "cargo")
unfolding list_beq
is_cargo = IsName-name_test (bytes "cargo") refl

abbrev is_tmp : IsName (bytes "tmp")
unfolding list_beq
is_tmp = IsName-name_test (bytes "tmp") refl

launchable : IsLaunchable build_plan build_mounts cargo
launchable = record {
  runtime_points = tt;
  read_only_points = ((bytes "w", [], is_w, tt, refl), tt);
  cache_points = tt;
  writable_points = ((bytes "w", bytes "target" ∷ [], is_w, (is_target, tt), refl), tt);
  writable_kinds = (inl refl, tt);
  private_points = ((bytes "tmp", [], is_tmp, tt, refl), tt);
  program_point = (bytes "usr", bytes "cargo" ∷ [], is_usr, (is_cargo, tt), refl);
}

parse-landlock_launcher_args_example :
    (line : List OsString) × (landlock_launcher_args build_plan build_mounts cargo
        (bytes "build" ∷ [])
      ≡ some line)
    × (parse line ≡ ok (launcher_plan_of build_plan build_mounts cargo (bytes "build" ∷ [])))
parse-landlock_launcher_args_example =
    parse-landlock_launcher_args build_plan build_mounts cargo (bytes "build" ∷ []) launchable
