-- ===== src/Linux/Run/Session.antt =====
-- A run of the backend as a sequence of calls to the host. A step gives an answer or an error, and the
-- calls that were made before an error stay made. What the host answers may depend on all calls so far.
use cargo_cage.Base.{
  ℕ, suc, ◌+◌, ◌≤◌, ◌≢◌, ◌≡◌, Bool, Option, none, some, List, [], ◌∷◌, ok, err, map_err,
}
use cargo_cage.Os.Text.{OsString}
use cargo_cage.Os.FilePath.{FilePath}
use cargo_cage.Os.Fs.{IoResult, IoError, Metadata}
use cargo_cage.Core.Error.{CageError, CageResult}
use cargo_cage.Linux.Resources.{ExitStatus, EventCounters}
use cargo_cage.Linux.Run.Capture.{Read}

-- `rustix::process::Resource`, as far as the limits of a run name it.
pub data Resource : Type 0 where
  fsize nofile core : Resource

-- The calls that change something, and the passing of time.
pub data Call : Type 0 where
  set_limit : Resource → ℕ → Call
  enter_group restore_supervisor kill_group kill_child wait_child : Call
  slept : ℕ → Call
  spawn : List OsString → Call
  remove_group : FilePath → Call

-- The calls so far, the latest first.
abbrev pub Log : Type 0
Log = List Call

mutual
  -- A control group as its files answer: the processes in `cgroup.procs`, and what `read_dir` gives.
  pub data Cgroup : Type 0 where
    unlisted : IoResult OsString → IoError → Cgroup
    listed : IoResult OsString → CgroupEntries → Cgroup

  pub data CgroupEntries : Type 0 where
    no_more : CgroupEntries
    unread_entry : IoError → CgroupEntries → CgroupEntries
    entry : FilePath → IoResult Metadata → Cgroup → CgroupEntries → CgroupEntries

-- How often the supervisor slept since it killed the child.
unfoldable pub since_kill : Log → Option ℕ
since_kill [] = none
since_kill (kill_child ∷ log) = some 0
since_kill (slept duration ∷ log) = elim (since_kill log) [ none ↦ none | some n ↦ some (suc n) ]
since_kill (call ∷ log) = since_kill log

-- The host. Time is told in nanoseconds, and `thread::sleep` sleeps at least as long as it is asked.
-- A child that was killed can be waited for after some sleeps. The reads are what the pipes of the
-- child give in all, and `over_limit` is what the supervisor sees of the flags of their readers.
pub record Machine : Type 0 where
  pub now : Log → ℕ
  pub act : Log → Call → IoResult (Unit {0})
  pub hard_limit : Log → Resource → Option ℕ
  pub try_wait : Log → IoResult (Option ExitStatus)
  pub wait : Log → IoResult ExitStatus
  pub group : Log → Cgroup
  pub events : Log → IoResult EventCounters
  pub pipes : Log → Bool
  pub stdout_reads : Log → List Read
  pub stderr_reads : Log → List Read
  pub over_limit : Log → Bool
  pub grace : ℕ
  pub sleeps : (log : Log) (duration : ℕ) → now log + duration ≤ now (slept duration ∷ log)
  pub dies : (log : Log) (n : ℕ) → since_kill log ≡ some n → grace ≤ n → try_wait log ≢ ok none

-- Whether the supervisor is in the group of the run, and whether the group is gone.
pub record Session : Type 0 where
  pub entered : Bool
  pub finished : Bool
  pub log : Log

abbrev pub Outcome : Type 0 → Type 0
Outcome A = CageResult A × Session

abbrev pub Step : Type 0 → Type 0
Step A = Session → Outcome A

-- What an error of a call becomes; the call is made in any case.
unfoldable pub call : Machine → Call → CageError → Step (Unit {0})
call machine c error session =
    (map_err (machine.act session.log c) (λ _. error), record session { log = c ∷ session.log })

module _ {A B : Type 0} where
  abbrev pub followed_by : Outcome A → (A → Step B) → Outcome B
  followed_by (ok a, session) next = next a session
  followed_by (err e, session) next = (err e, session)

  infixl 5 ◌>>=◌
  abbrev pub ◌>>=◌ : Step A → (A → Step B) → Step B
  (step >>= next) session = followed_by (step session) next

  infixl 5 ◌>>◌
  abbrev pub ◌>>◌ : Step A → Step B → Step B
  step >> next = step >>= λ _. next

module _ {A : Type 0} where
  abbrev pub done : A → Step A
  done a session = (ok a, session)

  abbrev pub failed : CageError → Step A
  failed e session = (err e, session)

  -- An answer that needs no call.
  abbrev pub told : CageResult A → Step A
  told answer session = (answer, session)

  -- `let _ = step;`
  abbrev pub ignored : Step A → Step (Unit {0})
  ignored step session = (ok tt, (step session).1)
