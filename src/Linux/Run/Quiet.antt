-- ===== src/Linux/Run/Quiet.antt =====
-- The steps that start no process.
use cargo_cage.Base.{
  ℕ, zero, suc, ◌+◌, ◌≡◌, ◌≢◌, refl, sym, ap, ◌∙◌, subst, inl, inr, Bool, true, false, not, Option,
  none, some, [], ◌∷◌, ◌++◌, ok, err, leb, All, Result-cases, Bool-cases, answer_of, ltb, nat_beq,
  ◌&&◌, if◌then◌else◌,
}
use mathlib.Core.List.{append_assoc}
use cargo_cage.Os.FilePath.{FilePath}
use cargo_cage.Os.Fs.{is_dir}
use cargo_cage.Core.Error.{CageError, CageResult}
use cargo_cage.Linux.Run.Cgroup.{check_children, cgroup_tree_is_empty, unreadable_hierarchy}
use cargo_cage.Linux.Run.Group.{
  set_lower_limit, remove_descendant_cgroups, remove_children, remove_descendants, sleep,
  await_empty,
}
use cargo_cage.Linux.Run.Group.{
  set_entered, lower_to, restore_current_process, enter_current_process, is_tree_empty,
  cleanup_timeout,
}
use cargo_cage.Linux.Run.Group.Cleanup.{
  await_all, kill_all, restore_if_entered, read_events, set_finished, finish, kill_if_restored,
  drop_group,
}
use cargo_cage.Linux.Run.Session.{
  Resource, Call, spawn, set_limit, enter_group, restore_supervisor, kill_group, slept,
  remove_group, Log, Cgroup, unlisted, listed, CgroupEntries, no_more, unread_entry, entry, Machine,
  Session, Outcome, Step, call, followed_by, ◌>>=◌, done, failed, told, ignored,
}

abbrev pub IsNoSpawn : Call → Type 0
IsNoSpawn (spawn args) = ⊥
IsNoSpawn c = Unit

-- Only calls that start no process lie between two sessions.
unfoldable pub Grows : Log → Log → Type 0
Grows before after = (calls : Log) × (after ≡ calls ++ before) × All IsNoSpawn calls

All-append : (xs ys : Log) → All IsNoSpawn xs → All IsNoSpawn ys → All IsNoSpawn (xs ++ ys)
All-append [] ys h k = k
All-append (x ∷ xs) ys h k = (h.0, All-append xs ys h.1 k)

pub stays : (log : Log) → Grows log log
unfolding Grows
stays log = ([], refl, tt)

pub grows : (c : Call) (log : Log) → IsNoSpawn c → Grows log (c ∷ log)
unfolding Grows
grows c log h = (c ∷ [], refl, (h, tt))

pub onward : (a b c : Log) → Grows a b → Grows b c → Grows a c
unfolding Grows
onward a b c (xs, e, h) (ys, f, k) =
    (ys ++ xs, f ∙ (ap (λ l. ys ++ l) e ∙ sym (append_assoc ys xs a)), All-append ys xs k h)

-- A step that starts no process.
unfoldable pub Quiet : {A : Type 0} → Step A → Type 0
Quiet step = (session : Session) → Grows session.log (step session).1.log

module _ {A B : Type 0} where
  pub followed_by-Grows :
      (log : Log) (o : Outcome A) (next : A → Step B)
      → Grows log o.1.log
      → ((a : A) → Quiet (next a))
      → Grows log (followed_by o next).1.log
  unfolding Quiet
  followed_by-Grows log (ok a, session) next g q =
      onward log session.log (next a session).1.log g (q a session)
  followed_by-Grows log (err e, session) next g q = g

  pub bind-Quiet :
      (step : Step A) (next : A → Step B)
      → Quiet step
      → ((a : A) → Quiet (next a))
      → Quiet (step >>= next)
  unfolding Quiet
  bind-Quiet step next q r session = followed_by-Grows session.log (step session) next (q session) r

module _ {A : Type 0} where
  pub done-Quiet : (a : A) → Quiet (done a)
  unfolding Quiet
  done-Quiet a session = stays session.log

  pub told-Quiet : (answer : CageResult A) → Quiet (told answer)
  unfolding Quiet
  told-Quiet answer session = stays session.log

  pub ignored-Quiet : (step : Step A) → Quiet step → Quiet (ignored step)
  unfolding Quiet
  ignored-Quiet step q session = q session

pub failed-Quiet : (A : Type 0) (e : CageError) → Quiet {A = A} (failed e)
unfolding Quiet
failed-Quiet A e session = stays session.log

pub if-Quiet :
    {A : Type 0} (b : Bool) (x y : Step A) → Quiet x → Quiet y → Quiet (if b then x else y)
if-Quiet true x y q r = q
if-Quiet false x y q r = r

pub if-Grows :
    {A : Type 0} (log : Log) (b : Bool) (x y : Outcome A)
    → Grows log x.1.log
    → Grows log y.1.log
    → Grows log (if b then x else y).1.log
if-Grows log true x y g h = g
if-Grows log false x y g h = h

if_session-Grows :
    (log : Log) (b : Bool) (x y : Session)
    → Grows log x.log
    → Grows log y.log
    → Grows log (if b then x else y).log
if_session-Grows log true x y g h = g
if_session-Grows log false x y g h = h

pub call-Quiet :
    (machine : Machine) (c : Call) (e : CageError) → IsNoSpawn c → Quiet (call machine c e)
unfolding Quiet call
call-Quiet machine c e h session = grows c session.log h

-- An answer that is found.
pub found :
    {A : Type 0} (log : Log) (o p : Outcome A)
    → Grows log o.1.log
    → some o ≡ some p
    → Grows log p.1.log
found log o p g e = let same : o ≡ p = cc in subst (λ r. Grows log r.1.log) same g

module _ (machine : Machine) where
  mutual
    unfolding remove_descendant_cgroups

    remove_descendant_cgroups-Quiet :
        (path : FilePath) (group : Cgroup) → Quiet (remove_descendant_cgroups machine path group)
    remove_descendant_cgroups-Quiet path (unlisted procs error) =
        failed-Quiet (Unit {0}) (unreadable_hierarchy path)
    remove_descendant_cgroups-Quiet path (listed procs entries) =
        bind-Quiet (told (check_children path entries)) (λ _. remove_children machine entries)
          (told-Quiet (check_children path entries)) (λ _. remove_children-Quiet entries)

    remove_children-Quiet : (entries : CgroupEntries) → Quiet (remove_children machine entries)
    remove_children-Quiet no_more = done-Quiet tt
    remove_children-Quiet (unread_entry error entries) = remove_children-Quiet entries
    remove_children-Quiet (entry child (err error) group entries) = remove_children-Quiet entries
    remove_children-Quiet (entry child (ok metadata) group entries) =
        elim (Bool-cases (is_dir metadata)) [
          | inl e ↦
              rw (e, remove_children)
                (bind-Quiet _ _
                  (bind-Quiet _ _ (remove_descendant_cgroups-Quiet child group)
                    (λ _. call-Quiet machine (remove_group child) _ tt))
                  (λ _. remove_children-Quiet entries))
          | inr e ↦ rw (e, remove_children) (remove_children-Quiet entries)
        ]

  remove_descendants-Quiet : (path : FilePath) → Quiet (remove_descendants machine path)
  unfolding Quiet remove_descendants
  remove_descendants-Quiet path session =
      remove_descendant_cgroups-Quiet path (machine.group session.log) session

  -- What holds of the answer of a loop, if it has one.
  await_empty-Grows :
      (path : FilePath) (deadline fuel : ℕ) (session : Session) (o : Outcome (Unit {0}))
      → await_empty machine path deadline fuel session ≡ some o
      → Grows session.log o.1.log
  unfolding await_empty sleep Quiet
  await_empty-Grows path deadline zero session o h = cc
  await_empty-Grows path deadline (suc fuel) session o h =
      elim (Result-cases (cgroup_tree_is_empty path (machine.group session.log))) [
        | inr (x, e) ↦ found session.log _ o (stays session.log) (rw (e, await_empty) at h)
        | inl (true, e) ↦
            found session.log _ o (remove_descendants-Quiet path session) (rw (e, await_empty) at h)
        | inl (false, e) ↦ elim (Bool-cases (leb deadline (machine.now session.log))) [
          | inl t ↦ found session.log _ o (stays session.log) (rw (e, t, await_empty) at h)
          | inr t ↦
              let later = sleep machine 10_000_000 session in
              onward session.log later.log o.1.log (grows (slept 10_000_000) session.log tt)
                (await_empty-Grows path deadline fuel later o (rw (e, t, await_empty) at h))
        ]
      ]

  pub answer-Grows :
      {A : Type 0} (log : Log) (answer : Option (Outcome A)) (total : answer ≢ none)
      → ((o : Outcome A) → answer ≡ some o → Grows log o.1.log)
      → Grows log (answer_of answer total).1.log
  unfolding answer_of
  answer-Grows log none total g = absurd (total refl)
  answer-Grows log (some o) total g = g o refl

  await_all-Quiet : (path : FilePath) → Quiet (await_all machine path)
  unfolding Quiet await_all
  await_all-Quiet path session =
      answer-Grows session.log _ _
        (await_empty-Grows path (machine.now session.log + cleanup_timeout) 201 session)

  pub kill_all-Quiet : (path : FilePath) → Quiet (kill_all machine path)
  unfolding kill_all
  kill_all-Quiet path =
      bind-Quiet _ _ (call-Quiet machine kill_group _ tt) (λ _. await_all-Quiet path)

  lower_to-Quiet :
      (resource : Resource) (requested effective : ℕ)
      → Quiet (lower_to machine resource requested effective)
  unfolding lower_to
  lower_to-Quiet resource requested effective =
      if-Quiet (ltb 0 requested && nat_beq effective 0) _ _ (failed-Quiet ℕ _) (
        bind-Quiet _ _ (call-Quiet machine (set_limit resource effective) _ tt)
          (λ _. done-Quiet effective))

  pub set_lower_limit-Quiet :
      (resource : Resource) (requested : ℕ) → Quiet (set_lower_limit machine resource requested)
  unfolding set_lower_limit Quiet
  set_lower_limit-Quiet resource requested session = lower_to-Quiet resource requested _ session

  set_entered-Quiet : (b : Bool) → Quiet (set_entered machine b)
  unfolding set_entered Quiet
  set_entered-Quiet b session = stays session.log

  pub restore-Quiet : Quiet (restore_current_process machine)
  unfolding restore_current_process
  restore-Quiet =
      bind-Quiet _ _ (call-Quiet machine restore_supervisor _ tt) (λ _. set_entered-Quiet false)

  pub enter-Quiet : Quiet (enter_current_process machine)
  unfolding enter_current_process
  enter-Quiet = bind-Quiet _ _ (call-Quiet machine enter_group _ tt) (λ _. set_entered-Quiet true)

  restore_if_entered-Quiet : Quiet (restore_if_entered machine)
  unfolding restore_if_entered Quiet
  restore_if_entered-Quiet session =
      if-Grows session.log session.entered _ _ (restore-Quiet session) (stays session.log)

  is_tree_empty-Quiet : (path : FilePath) → Quiet (is_tree_empty machine path)
  unfolding is_tree_empty Quiet
  is_tree_empty-Quiet path session = stays session.log

  read_events-Quiet : (path : FilePath) → Quiet (read_events machine path)
  unfolding read_events Quiet
  read_events-Quiet path session = stays session.log

  set_finished-Quiet : Quiet (set_finished machine)
  unfolding set_finished Quiet
  set_finished-Quiet session = stays session.log

  pub finish-Quiet : (path : FilePath) → Quiet (finish machine path)
  unfolding finish
  finish-Quiet path = bind-Quiet _ _ restore_if_entered-Quiet λ _.
      bind-Quiet _ _ (is_tree_empty-Quiet path) λ empty.
        bind-Quiet _ _
          (if-Quiet (not empty) _ _ (kill_all-Quiet path) (remove_descendants-Quiet path))
          λ _. bind-Quiet _ _ (read_events-Quiet path) λ after.
            bind-Quiet _ _ (call-Quiet machine (remove_group path) _ tt)
              λ _. bind-Quiet _ _ set_finished-Quiet λ _. done-Quiet after

  kill_if_restored-Grows :
      (path : FilePath) (log : Log) (o : Outcome (Unit {0}))
      → Grows log o.1.log
      → Grows log (kill_if_restored machine path o).log
  unfolding kill_if_restored Quiet
  kill_if_restored-Grows path log (ok done, session) g =
      onward log session.log (kill_all machine path session).1.log g (kill_all-Quiet path session)
  kill_if_restored-Grows path log (err error, session) g = g

  pub drop_group-Grows :
      (path : FilePath) (session : Session)
      → Grows session.log (drop_group machine path session).log
  unfolding drop_group Quiet call
  drop_group-Grows path session =
      let killed = kill_if_restored machine path (restore_if_entered machine session) in
      let emptied = (remove_descendants machine path killed).1 in
      if_session-Grows session.log session.finished session
        (record emptied { log = remove_group path ∷ emptied.log }) (stays session.log)
        (onward session.log emptied.log (remove_group path ∷ emptied.log)
          (onward session.log killed.log emptied.log
            (kill_if_restored-Grows path session.log (restore_if_entered machine session)
              (restore_if_entered-Quiet session))
            (remove_descendants-Quiet path killed))
          (grows (remove_group path) emptied.log tt))
