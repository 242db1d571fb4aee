-- ===== src/JobWorker.antt =====
-- trie_remote/job_worker.py: `run_job`. The pool carries the job store; its `queue`, `slots` and
-- `store` are what `resource_pool` was given.
pub mod Keeps
pub mod Waiting
pub mod Tests
pub mod Ending
use remote_worktree_runner.Prelude.{
  ℕ, Bool, true, false, not, ◌&&◌, ◌||◌, Option, none, some, List, [], ◌∷◌, ◌++◌, if◌then◌else◌,
  Text, codes, Result, ok, err, ◌>>=◌, ◌>>◌, lookup,
}
use remote_worktree_runner.Errors.{Error, scheduler_cancelled, file_missing, spawn_rejected}
use remote_worktree_runner.Common.{FilePath}
use remote_worktree_runner.ServerPaths.{ServerPaths}
use remote_worktree_runner.JobEnvironment.{create_job_environment}
use remote_worktree_runner.JobStore.State.{
  running, failed, cancelled, ℤ, pos, iso, epoch, no_details, Status, is_final,
}
use remote_worktree_runner.JobStore.Spec.{JobSpec}
use remote_worktree_runner.JobStore.{
  JobFiles, Store, Outcome, update, job_directory, read, load, status, transition, finish,
}
use remote_worktree_runner.Scheduler.Disk.{Pressure, cancel, warning}
use remote_worktree_runner.Scheduler.Slots.{ResourceLease, release}
use remote_worktree_runner.Scheduler.Pool.{ResourcePool, PoolOutcome, Clock, cancel_seen, wait}

-- One round of the loop over the running process: what the other processes have done to the pool
-- and the store, what `process.poll()` returns, and what `guard.monitor` reports.
pub record Round : Type 0 where
  pub others : ResourcePool → ResourcePool
  pub exited : Option ℤ
  pub pressure : Pressure

-- How `Popen` ends: the process runs, an OSError with its message, or the ValueError for arguments
-- that no process can have, as one with a zero byte.
pub data Spawn : Type 0 where
  spawned : Spawn
  spawn_failed : Text → Spawn
  rejected : Spawn

-- What comes from outside while the job is run. The job's files can be written, and the free space
-- can be read.
pub record Events : Type 0 where
  -- Path.resolve
  pub resolve : FilePath → FilePath
  pub paths : ServerPaths
  -- os.environ["PATH"]
  pub path : Text
  -- what the others do before each round of `wait`, and the clock when the ticket is filed
  pub waiting : List (ResourcePool → ResourcePool)
  pub clock : Clock
  -- `ensure_job_builder`, where it is called, and the text of a failed set-up
  pub builder : Result Error (Unit {0})
  pub setup_message : Text
  pub spawn : Spawn
  pub rounds : List Round
  -- the exit code of the process behind the signals
  pub signalled : ℤ
  pub utc_now : Text
  pub time : ℕ
  pub pid : ℕ

unfoldable pub bind {ℓ} :
    {A B : Type ℓ} → PoolOutcome A → (A → ResourcePool → PoolOutcome B) → PoolOutcome B
bind (err e, p) k = (err e, p)
bind (ok a, p) k = k a p

with_store {ℓ} : {A : Type ℓ} → ResourcePool → Outcome A → PoolOutcome A
with_store p (r, s) = (r, record p { store = some s })

-- A call on the store of the pool.
unfoldable pub in_store {ℓ} : {A : Type ℓ} → (Store → Outcome A) → ResourcePool → PoolOutcome A
unfolding with_store
in_store f p = elim p.store [ none ↦ (err file_missing, p) | some s ↦ with_store p (f s) ]

abbrev pub logged : Text → JobFiles → JobFiles
logged message d = record d {
  output = some (elim d.output [ none ↦ message | some text ↦ text ++ message ]);
}

append_at : Result Error JobFiles → Text → Text → Store → Outcome (Unit {0})
append_at (err e) job_id message s = (err e, s)
append_at (ok _) job_id message s = (ok tt, update job_id (logged message) s)

-- store.log_path(job_id).open("ab"), and a `write` of the message.
unfoldable pub append_log : Text → Text → Store → Outcome (Unit {0})
unfolding append_at
append_log job_id message s =
    append_at (job_directory job_id >>= λ name. read (lookup name s)) job_id message s

-- int(status.get("exit_code", 1))
abbrev pub recorded_code : Status → ℤ
recorded_code st = elim st.details.exit_code [ none ↦ pos 1 | some code ↦ code ]

-- What the `try` of the set-up runs.
unfoldable pub setup : JobSpec → Events → Result Error (Unit {0})
setup spec ev =
    create_job_environment ev.resolve ev.paths spec.job_id spec.repository spec.workspaces ev.path
    >> ev.builder

-- Its `except`: the exit code that `run_job` returns.
unfoldable pub setup_failed : Text → Events → ResourcePool → PoolOutcome (Option ℤ)
setup_failed job_id ev p = bind (in_store (append_log job_id ev.setup_message) p) λ _ p₁.
    bind (in_store (λ s. (status job_id s, s)) p₁) λ st p₂.
      if is_final st.state
      then (ok (some (recorded_code st)), p₂)
      else bind
          (in_store
            (transition job_id failed
              (record no_details {
                exit_code = some (pos 1);
                reason = some (codes "worker setup failed");
                finished_at = some (iso ev.utc_now);
              })
              ev.utc_now)
            p₂)
          λ _ p₃. (ok (some (pos 1)), p₃)

-- How the loop ended; `unfinished` if the process still runs behind the last round.
pub data Watched : Type 0 where
  exited : ℤ → Watched
  stopped unfinished : Watched

abbrev pub is_cancel : Pressure → Bool
is_cancel cancel = true
is_cancel _ = false

abbrev pub is_warning : Pressure → Bool
is_warning warning = true
is_warning _ = false

-- log.write(…) on the open stream.
unfoldable pub warn : Text → ResourcePool → ResourcePool
warn job_id p = record p {
  store = elim p.store [
    | none ↦ none
    | some s ↦ some (
        update job_id (logged (codes "[trie-runner] warning: server disk below warning threshold"))
          s)
  ];
}

unfoldable pub watch : Text → Bool → List Round → ResourcePool → Watched × ResourcePool
watch job_id warned [] p = (unfinished, p)
watch job_id warned (r ∷ rounds) p =
    let p₁ = r.others p in
    let warns = not warned && is_warning r.pressure in
    let rest = watch job_id (warned || warns) rounds (if warns then warn job_id p₁ else p₁) in
    elim r.exited [
      | some code ↦ (exited code, p₁)
      | none ↦ if cancel_seen job_id p₁.store || is_cancel r.pressure then (stopped, p₁) else rest
    ]

unfoldable pub conclude : Text → Events → Watched × ResourcePool → PoolOutcome (Option ℤ)
conclude job_id ev (unfinished, p) = (ok none, p)
conclude job_id ev (exited code, p) =
    bind (in_store (finish job_id code ev.utc_now) p) λ _ p₁. (ok (some code), p₁)
conclude job_id ev (stopped, p) =
    bind
      (in_store
        (transition job_id cancelled
          (record no_details { exit_code = some ev.signalled; finished_at = some (epoch ev.time) })
          ev.utc_now)
        p)
      λ _ p₁. (ok (some ev.signalled), p₁)

unfoldable pub run_command : Text → Events → ResourcePool → PoolOutcome (Option ℤ)
run_command job_id ev p =
    bind
      (in_store
        (transition job_id running
          (record no_details { pid = some ev.pid; started_at = some (epoch ev.time) }) ev.utc_now)
        p)
      λ _ p₁. bind (in_store (append_log job_id []) p₁) λ _ p₂. elim ev.spawn [
        | spawned ↦ conclude job_id ev (watch job_id false ev.rounds p₂)
        | rejected ↦ (err spawn_rejected, p₂)
        | spawn_failed message ↦ bind (in_store (append_log job_id message) p₂) λ _ p₃.
            bind (in_store (finish job_id (pos 127) ev.utc_now) p₃)
              λ _ p₄. (ok (some (pos 127)), p₄)
      ]

-- The body of the `try` that holds the lease.
unfoldable pub work : Text → JobSpec → Events → ResourcePool → PoolOutcome (Option ℤ)
work job_id spec ev p = elim (setup spec ev) [
  | err e ↦ setup_failed job_id ev p
  | ok _ ↦ run_command job_id ev p
]

released : Text → ResourcePool → ResourcePool
released job_id p = record p { slots = release job_id p.slots }

-- finally: lease.release(), once the body is left.
unfoldable pub finally : Text → PoolOutcome (Option ℤ) → PoolOutcome (Option ℤ)
unfolding released
finally job_id (ok none, p) = (ok none, p)
finally job_id (ok (some code), p) = (ok (some code), released job_id p)
finally job_id (err e, p) = (err e, released job_id p)

abbrev pub is_scheduler_cancelled : Error → Bool
is_scheduler_cancelled scheduler_cancelled = true
is_scheduler_cancelled _ = false

unfoldable pub after_wait :
    Text → JobSpec → Events → PoolOutcome (Option ResourceLease) → PoolOutcome (Option ℤ)
after_wait job_id spec ev (ok none, p) = (ok none, p)
after_wait job_id spec ev (ok (some lease), p) = finally job_id (work job_id spec ev p)
after_wait job_id spec ev (err e, p) =
    if is_scheduler_cancelled e
    then (bind
        (in_store
          (transition job_id cancelled
            (record no_details {
              exit_code = some (pos 130);
              reason = some (codes "cancelled while queued");
              finished_at = some (iso ev.utc_now);
            })
            ev.utc_now)
          p)
        λ _ p₁. (ok (some (pos 130)), p₁))
    else (err e, p)

-- The exit code, or `none` while the job waits or runs behind the rounds that are given.
unfoldable pub run_job : Text → Events → ResourcePool → PoolOutcome (Option ℤ)
run_job job_id ev p = bind (in_store (λ s. (load ev.utc_now job_id s, s)) p) λ spec p₁.
    after_wait job_id spec ev (wait job_id spec.weight spec.session ev.clock ev.waiting p₁)
