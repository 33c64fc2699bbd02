-- ===== src/Linux/Mounts/RoundTrip.antt =====
-- The launcher reads back what the backend writes for it.
use mathlib.Core.List.{append_assoc, append-nil, map-id}
use cargo_cage.Base.{
  ◌≡◌, refl, sym, ap, ◌∙◌, ◌⊎◌, inl, inr, Bool, true, false, List, [], ◌∷◌, ◌++◌, map, some, ok,
  arith, All, String, list_beq_iff,
}
use cargo_cage.Os.Text.{OsString, bytes}
use cargo_cage.Os.FilePath.{
  FilePath, absolute, normal, root, path_of, into_os_string, is_absolute, has_parent_dir,
  component_eq, component_beq,
}
use cargo_cage.Os.FilePath.Spelling.{IsName, path_of-into_os_string}
use cargo_cage.Core.Request.{NetworkAccess, deny, allow}
use cargo_cage.Linux.Plan.{SandboxPlan}
use cargo_cage.Linux.Launcher.{
  LauncherPlan, empty_launcher_plan, validate_launcher_path, push_path, parse_from, parse,
}
use cargo_cage.Linux.Launcher.Options.{
  PathOption, read, execute, write, lockfile, private, proc, device, option_label, option_text,
  launcher_option, launcher_option-option_text,
}
use cargo_cage.Linux.Mounts.{
  MountArgument, MountArguments, directory_kind, file_kind, concat_map, option_with,
  writable_option, writable_options, flag_options, landlock_launcher_args, cargo_home_in_sandbox,
}

-- An absolute path below the root, spelled by names.
abbrev pub IsMountPoint : FilePath → Type 0
IsMountPoint p =
    (s : OsString) × (names : List OsString) × IsName s
    × All IsName names
    × (p ≡ absolute (s ∷ names))

names-no_parent_dir : (names : List OsString) → has_parent_dir (map normal names) ≡ false
unfolding has_parent_dir component_beq
names-no_parent_dir [] = refl
names-no_parent_dir (s ∷ names) = names-no_parent_dir names

absolute-no_parent_dir : (names : List OsString) → has_parent_dir (absolute names) ≡ false
unfolding has_parent_dir component_beq
absolute-no_parent_dir names = names-no_parent_dir names

validate_absolute :
    (s : OsString) (names : List OsString) (value : OsString) (label : String)
    → path_of value ≡ absolute (s ∷ names)
    → validate_launcher_path value label ≡ ok (absolute (s ∷ names))
unfolding validate_launcher_path is_absolute
validate_absolute s names value label e =
    ground (arith, absolute-no_parent_dir (s ∷ names), list_beq_iff (absolute (s ∷ names)) root)

-- The launcher accepts the text of a mount point, as that path.
validate_launcher_path-IsMountPoint :
    (p : FilePath) (label : String)
    → IsMountPoint p
    → validate_launcher_path (into_os_string p) label ≡ ok p
validate_launcher_path-IsMountPoint p label (s, names, is_name, are_names, e) = rw e (
    validate_absolute s names (into_os_string (absolute (s ∷ names))) label
      (path_of-into_os_string s names is_name are_names))

parse_from-value :
    (plan : LauncherPlan) (o : PathOption) (value : OsString) (p : FilePath) (rest : List OsString)
    → validate_launcher_path value (option_label o) ≡ ok p
    → parse_from plan (option_text o ∷ value ∷ rest) ≡ parse_from (push_path o p plan) rest
unfolding parse_from
parse_from-value plan o value p rest valid = rw (parse_from, launcher_option-option_text o, valid)

parse_from-option :
    (plan : LauncherPlan) (o : PathOption) (p : FilePath) (rest : List OsString)
    → IsMountPoint p
    → parse_from plan (option_with o p ++ rest) ≡ parse_from (push_path o p plan) rest
parse_from-option plan o p rest point =
    parse_from-value plan o (into_os_string p) p rest
      (validate_launcher_path-IsMountPoint p (option_label o) point)

-- All the paths of one option.
abbrev push_all : PathOption → List FilePath → LauncherPlan → LauncherPlan
push_all read ps plan = record plan { read_paths = plan.read_paths ++ ps }
push_all execute ps plan = record plan { execute_paths = plan.execute_paths ++ ps }
push_all write ps plan = record plan { write_paths = plan.write_paths ++ ps }
push_all lockfile ps plan = record plan { lockfile_paths = plan.lockfile_paths ++ ps }
push_all private ps plan = record plan { private_paths = plan.private_paths ++ ps }
push_all proc ps plan = record plan { proc_paths = plan.proc_paths ++ ps }
push_all device ps plan = record plan { device_paths = plan.device_paths ++ ps }

push_all-nil : (o : PathOption) (plan : LauncherPlan) → push_all o [] plan ≡ plan
push_all-nil read plan = rw append-nil
push_all-nil execute plan = rw append-nil
push_all-nil write plan = rw append-nil
push_all-nil lockfile plan = rw append-nil
push_all-nil private plan = rw append-nil
push_all-nil proc plan = rw append-nil
push_all-nil device plan = rw append-nil

push_all-cons :
    (o : PathOption) (p : FilePath) (ps : List FilePath) (plan : LauncherPlan)
    → push_all o ps (push_path o p plan) ≡ push_all o (p ∷ ps) plan
push_all-cons read p ps plan = rw append_assoc
push_all-cons execute p ps plan = rw append_assoc
push_all-cons write p ps plan = rw append_assoc
push_all-cons lockfile p ps plan = rw append_assoc
push_all-cons private p ps plan = rw append_assoc
push_all-cons proc p ps plan = rw append_assoc
push_all-cons device p ps plan = rw append_assoc

parse_from-options :
    {A : Type 0} (o : PathOption) (path : A → FilePath) (xs : List A) (plan : LauncherPlan)
    (rest : List OsString)
    → All (λ x. IsMountPoint (path x)) xs
    → parse_from plan (concat_map (λ x. option_with o (path x)) xs ++ rest)
      ≡ parse_from (push_all o (map path xs) plan) rest
parse_from-options o path [] plan rest points =
    ap (λ p. parse_from p rest) (sym (push_all-nil o plan))
parse_from-options o path (x ∷ xs) plan rest points =
    parse_from-option plan o (path x) (concat_map (λ x. option_with o (path x)) xs ++ rest) points.0
    ∙ parse_from-options o path xs (push_path o (path x) plan) rest points.1
    ∙ ap (λ p. parse_from p rest) (push_all-cons o (path x) (map path xs) plan)

-- The destinations of the mounts of one kind.
abbrev pub directories : List MountArgument → List FilePath
directories [] = []
directories (m ∷ ms) = elim m.kind [
  | directory_kind ↦ m.destination ∷ directories ms
  | _ ↦ directories ms
]

abbrev pub files : List MountArgument → List FilePath
files [] = []
files (m ∷ ms) = elim m.kind [ file_kind ↦ m.destination ∷ files ms | _ ↦ files ms ]

abbrev push_writable : List MountArgument → LauncherPlan → LauncherPlan
push_writable ms plan = push_all lockfile (files ms) (push_all write (directories ms) plan)

-- A writable mount is a directory or a file, as `PreparedMounts::open` makes them.
abbrev pub IsWritableKind : MountArgument → Type 0
IsWritableKind m = (m.kind ≡ directory_kind) ⊎ (m.kind ≡ file_kind)

push_writable-directory :
    (m : MountArgument) (ms : List MountArgument) (plan : LauncherPlan)
    → m.kind ≡ directory_kind
    → push_writable ms (push_path write m.destination plan) ≡ push_writable (m ∷ ms) plan
push_writable-directory m ms plan k =
    ground (arith, append_assoc plan.write_paths (m.destination ∷ []) (directories ms))

push_writable-file :
    (m : MountArgument) (ms : List MountArgument) (plan : LauncherPlan)
    → m.kind ≡ file_kind
    → push_writable ms (push_path lockfile m.destination plan) ≡ push_writable (m ∷ ms) plan
push_writable-file m ms plan k =
    ground (arith, append_assoc plan.lockfile_paths (m.destination ∷ []) (files ms))

abbrev WritableLine : List MountArgument → Type 0
WritableLine ms =
    (line : List OsString) × (writable_options ms ≡ some line)
    × ((plan : LauncherPlan) (rest : List OsString)
        → parse_from plan (line ++ rest) ≡ parse_from (push_writable ms plan) rest)

writable-line :
    (ms : List MountArgument)
    → All IsWritableKind ms
    → All (λ m. IsMountPoint m.destination) ms
    → WritableLine ms
unfolding writable_options
writable-line [] kinds points = (
  [],
  refl,
  λ plan rest.
      ap (λ p. parse_from p rest) (sym (push_all-nil lockfile _ ∙ push_all-nil write plan)),
)
writable-line (m ∷ ms) kinds points =
    let (line, e, parses) = writable-line ms kinds.1 points.1 in
    elim kinds.0 [
      | inl k ↦ (
        option_with write m.destination ++ line,
        rw (k, e, writable_option),
        λ plan rest.
            parse_from-option plan write m.destination (line ++ rest) points.0
            ∙ parses (push_path write m.destination plan) rest
            ∙ ap (λ p. parse_from p rest) (push_writable-directory m ms plan k),
      )
      | inr k ↦ (
        option_with lockfile m.destination ++ line,
        rw (k, e, writable_option),
        λ plan rest.
            parse_from-option plan lockfile m.destination (line ++ rest) points.0
            ∙ parses (push_path lockfile m.destination plan) rest
            ∙ ap (λ p. parse_from p rest) (push_writable-file m ms plan k),
      )
    ]

-- The plan that the launcher is meant to read.
abbrev pub launcher_plan_of : SandboxPlan → MountArguments → FilePath → List OsString → LauncherPlan
launcher_plan_of plan mounts program args = record {
  read_paths = map (λ m. m.destination) mounts.caches;
  execute_paths =
      map (λ m. m.destination) mounts.runtime ++ map (λ m. m.destination) mounts.read_only;
  write_paths = directories mounts.writable;
  lockfile_paths = files mounts.writable;
  private_paths = plan.private_paths ++ path_of cargo_home_in_sandbox ∷ [];
  proc_paths = path_of (bytes "/proc") ∷ [];
  device_paths = path_of (bytes "/dev") ∷ [];
  network_deny = elim plan.network [ deny ↦ true | allow ↦ false ];
  inherit_environment = plan.environment.inherit;
  program = program;
  args = args;
}

-- The paths that reach the launcher are mount points, and writable mounts are directories or files.
pub record IsLaunchable (plan : SandboxPlan) (mounts : MountArguments) (program : FilePath)
    : Type 0 where
  pub runtime_points : All (λ m. IsMountPoint m.destination) mounts.runtime
  pub read_only_points : All (λ m. IsMountPoint m.destination) mounts.read_only
  pub cache_points : All (λ m. IsMountPoint m.destination) mounts.caches
  pub writable_points : All (λ m. IsMountPoint m.destination) mounts.writable
  pub writable_kinds : All IsWritableKind mounts.writable
  pub private_points : All IsMountPoint plan.private_paths
  pub program_point : IsMountPoint program

validate_fixed :
    (label : String)
    → (validate_launcher_path cargo_home_in_sandbox label ≡ ok (path_of cargo_home_in_sandbox))
      × (validate_launcher_path (bytes "/proc") label ≡ ok (path_of (bytes "/proc")))
      × (validate_launcher_path (bytes "/dev") label ≡ ok (path_of (bytes "/dev")))
unfolding parse
validate_fixed label = (refl, refl, refl)

parse_from-flags :
    (network : NetworkAccess) (inherit : Bool) (plan : LauncherPlan) (value : OsString)
    (rest : List OsString)
    → plan.network_deny ≡ false
    → plan.inherit_environment ≡ false
    → parse_from plan (flag_options network inherit ++ value ∷ rest)
      ≡ parse_from
          (record plan {
            network_deny = elim network [ deny ↦ true | allow ↦ false ];
            inherit_environment = inherit;
          })
          (value ∷ rest)
unfolding parse_from flag_options launcher_option
parse_from-flags deny true plan value rest d i = refl
parse_from-flags deny false plan value rest d i = rw (← i)
parse_from-flags allow true plan value rest d i = rw (← d)
parse_from-flags allow false plan value rest d i =
    λ k. parse_from (record plan { network_deny = d k; inherit_environment = i k }) (value ∷ rest)

parse_from-program :
    (plan : LauncherPlan) (program : FilePath) (args : List OsString)
    → IsMountPoint program
    → parse_from plan (bytes "--" ∷ into_os_string program ∷ args)
      ≡ ok (record plan { program = program; args = plan.args ++ args })
unfolding parse_from launcher_option
parse_from-program plan program args point =
    rw (validate_launcher_path-IsMountPoint program "internal launcher program" point)

parse-parse_from : (line : List OsString) → parse line ≡ parse_from empty_launcher_plan line
unfolding parse
parse-parse_from line = refl

-- What the backend writes for the launcher, the launcher reads back: the arguments are there, and
-- parsing them gives the plan with the same mounts, flags, program and program arguments.
pub parse-landlock_launcher_args :
    (plan : SandboxPlan) (mounts : MountArguments) (program : FilePath) (args : List OsString)
    → IsLaunchable plan mounts program
    → (line : List OsString) × (landlock_launcher_args plan mounts program args ≡ some line)
      × (parse line ≡ ok (launcher_plan_of plan mounts program args))
unfolding landlock_launcher_args
parse-landlock_launcher_args plan mounts program args h =
    let (writable, e, parses) = writable-line mounts.writable h.writable_kinds h.writable_points in
    let tail =
      flag_options plan.network plan.environment.inherit
      ++ bytes "--" ∷ into_os_string program ∷ args in
    (
      concat_map (λ m. option_with execute m.destination) mounts.runtime
          ++ (concat_map (λ m. option_with execute m.destination) mounts.read_only
              ++ (concat_map (λ m. option_with read m.destination) mounts.caches
                  ++ (writable
                      ++ (concat_map (option_with private) plan.private_paths
                          ++ option_text private
                            ∷ cargo_home_in_sandbox
                            ∷ option_text proc
                            ∷ bytes "/proc"
                            ∷ option_text device
                            ∷ bytes "/dev"
                            ∷ tail)))),
      rw (e, landlock_launcher_args),
      parse-parse_from _
          ∙ parse_from-options execute (λ m. m.destination) mounts.runtime _ _ h.runtime_points
          ∙ parse_from-options execute (λ m. m.destination) mounts.read_only _ _ h.read_only_points
          ∙ parse_from-options read (λ m. m.destination) mounts.caches _ _ h.cache_points
          ∙ parses _ _
          ∙ parse_from-options private (λ p. p) plan.private_paths _ _ h.private_points
          ∙ parse_from-value _ private cargo_home_in_sandbox _ _ (validate_fixed _).0
          ∙ parse_from-value _ proc (bytes "/proc") _ _ (validate_fixed _).1
          ∙ parse_from-value _ device (bytes "/dev") _ _ (validate_fixed _).2
          ∙ parse_from-flags plan.network plan.environment.inherit _ _ _ refl refl
          ∙ parse_from-program _ program args h.program_point
          ∙ ap
              (λ ps. ok (record (launcher_plan_of plan mounts program args) {
                private_paths = ps ++ path_of cargo_home_in_sandbox ∷ [];
              }))
              (map-id plan.private_paths),
    )
