-- ===== src/Linux/Launcher/Rules/Granted.antt =====
-- What the rules of a plan grant, and where files may be written or run.
use cargo_cage.Base.{
  ◌≡◌, ap, subst, ◌⊎◌, inl, inr, List, [], ◌∷◌, map, In, append-In, list_eq, nat_eq,
}
use cargo_cage.Os.FilePath.{FilePath}
use cargo_cage.Linux.Launcher.{LauncherPlan}
use cargo_cage.Linux.Launcher.Rules.{
  Access, Rule, rules_of, write_file, execute_file, read_access, execute_access, write_access,
  lockfile_access, private_access, proc_access, device_access,
}

In-mapped :
    (access : List Access) (paths : List FilePath) (path : FilePath) (granted : List Access)
    → In {A = Rule} (path, granted) (map (λ p. (p, access)) paths)
    → In path paths × (granted ≡ access)
In-mapped access [] path granted m = absurd m
In-mapped access (p ∷ paths) path granted (inl e) = (inl (ap (λ r. r.0) e), ap (λ r. r.1) e)
In-mapped access (p ∷ paths) path granted (inr m) =
    let (i, e) = In-mapped access paths path granted m in (inr i, e)

-- Reading alone is granted for read-only and process paths, running for executable ones; a right that
-- writes needs a writable, lockfile, private or device path.
pub IsGranted : LauncherPlan → FilePath → List Access → Type 0
IsGranted plan path granted =
    (In path plan.read_paths × (granted ≡ read_access))
    ⊎ (In path plan.execute_paths × (granted ≡ execute_access))
    ⊎ (In path plan.write_paths × (granted ≡ write_access))
    ⊎ (In path plan.lockfile_paths × (granted ≡ lockfile_access))
    ⊎ (In path plan.private_paths × (granted ≡ private_access))
    ⊎ (In path plan.proc_paths × (granted ≡ proc_access))
    ⊎ (In path plan.device_paths × (granted ≡ device_access))

-- The paths in which files may be written, and those below which programs may run.
abbrev pub MayWrite : LauncherPlan → FilePath → Type 0
MayWrite plan path =
    In path plan.write_paths
    ⊎ In path plan.lockfile_paths
    ⊎ In path plan.private_paths
    ⊎ In path plan.device_paths

abbrev pub MayExecute : LauncherPlan → FilePath → Type 0
MayExecute plan path =
    In path plan.execute_paths ⊎ In path plan.write_paths ⊎ In path plan.private_paths

read_access_unwritten : ¬ In write_file read_access
read_access_unwritten m = elim m [ inl e ↦ cc | inr (inl e) ↦ cc | inr (inr e) ↦ e ]

execute_access_unwritten : ¬ In write_file execute_access
execute_access_unwritten m = elim m [
  | inl e ↦ cc
  | inr (inl e) ↦ cc
  | inr (inr (inl e)) ↦ cc
  | inr (inr (inr e)) ↦ e
]

read_access_inert : ¬ In execute_file read_access
read_access_inert m = elim m [ inl e ↦ cc | inr (inl e) ↦ cc | inr (inr e) ↦ e ]

lockfile_access_inert : ¬ In execute_file lockfile_access
lockfile_access_inert m = elim m [
  | inl e ↦ cc
  | inr (inl e) ↦ cc
  | inr (inr (inl e)) ↦ cc
  | inr (inr (inr e)) ↦ e
]

device_access_inert : ¬ In execute_file device_access
device_access_inert m = elim m [
  | inl e ↦ cc
  | inr (inl e) ↦ cc
  | inr (inr (inl e)) ↦ cc
  | inr (inr (inr e)) ↦ e
]

pub IsGranted-MayWrite :
    (plan : LauncherPlan) (path : FilePath) (granted : List Access)
    → IsGranted plan path granted
    → In write_file granted
    → MayWrite plan path
unfolding IsGranted
IsGranted-MayWrite plan path granted (inl (i, e)) w =
    absurd (read_access_unwritten (subst (In write_file) e w))
IsGranted-MayWrite plan path granted (inr (inl (i, e))) w =
    absurd (execute_access_unwritten (subst (In write_file) e w))
IsGranted-MayWrite plan path granted (inr (inr (inl (i, e)))) w = inl i
IsGranted-MayWrite plan path granted (inr (inr (inr (inl (i, e))))) w = inr (inl i)
IsGranted-MayWrite plan path granted (inr (inr (inr (inr (inl (i, e)))))) w = inr (inr (inl i))
IsGranted-MayWrite plan path granted (inr (inr (inr (inr (inr (inl (i, e))))))) w =
    absurd (read_access_unwritten (subst (In write_file) e w))
IsGranted-MayWrite plan path granted (inr (inr (inr (inr (inr (inr (i, e))))))) w =
    inr (inr (inr i))

pub IsGranted-MayExecute :
    (plan : LauncherPlan) (path : FilePath) (granted : List Access)
    → IsGranted plan path granted
    → In execute_file granted
    → MayExecute plan path
unfolding IsGranted
IsGranted-MayExecute plan path granted (inl (i, e)) w =
    absurd (read_access_inert (subst (In execute_file) e w))
IsGranted-MayExecute plan path granted (inr (inl (i, e))) w = inl i
IsGranted-MayExecute plan path granted (inr (inr (inl (i, e)))) w = inr (inl i)
IsGranted-MayExecute plan path granted (inr (inr (inr (inl (i, e))))) w =
    absurd (lockfile_access_inert (subst (In execute_file) e w))
IsGranted-MayExecute plan path granted (inr (inr (inr (inr (inl (i, e)))))) w = inr (inr i)
IsGranted-MayExecute plan path granted (inr (inr (inr (inr (inr (inl (i, e))))))) w =
    absurd (read_access_inert (subst (In execute_file) e w))
IsGranted-MayExecute plan path granted (inr (inr (inr (inr (inr (inr (i, e))))))) w =
    absurd (device_access_inert (subst (In execute_file) e w))

pub rules_of-IsGranted :
    (plan : LauncherPlan) (path : FilePath) (granted : List Access)
    → In (path, granted) (rules_of plan)
    → IsGranted plan path granted
unfolding rules_of IsGranted
rules_of-IsGranted plan path granted m = elim (append-In _ _ (path, granted) m) [
  | inl i ↦ inl (In-mapped read_access plan.read_paths path granted i)
  | inr m ↦ elim (append-In _ _ (path, granted) m) [
    | inl i ↦ inr (inl (In-mapped execute_access plan.execute_paths path granted i))
    | inr m ↦ elim (append-In _ _ (path, granted) m) [
      | inl i ↦ inr (inr (inl (In-mapped write_access plan.write_paths path granted i)))
      | inr m ↦ elim (append-In _ _ (path, granted) m) [
        | inl i ↦
            inr (inr (inr (inl (In-mapped lockfile_access plan.lockfile_paths path granted i))))
        | inr m ↦ elim (append-In _ _ (path, granted) m) [
          | inl i ↦
              inr
                (inr (inr (inr (inl (In-mapped private_access plan.private_paths path granted i)))))
          | inr m ↦ elim (append-In _ _ (path, granted) m) [
            | inl i ↦
                inr (
                  inr
                    (inr (inr (inr (inl (In-mapped proc_access plan.proc_paths path granted i))))))
            | inr i ↦ inr (
                inr (
                  inr (inr (inr (inr (In-mapped device_access plan.device_paths path granted i))))))
          ]
        ]
      ]
    ]
  ]
]
