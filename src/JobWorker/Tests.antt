-- ===== src/JobWorker/Tests.antt =====
-- A worker whose process exits in the second round.
use remote_worktree_runner.JobStore.Spec.{
  from_dict, to_dict, build, post_init, check_session, is_command, check_roles, is_subset, JobSpec,
}
use remote_worktree_runner.JobStore.{
  load, transition, finish, update, job_directory, advance, status, empty_directory,
}
use remote_worktree_runner.JobStore.State.{may_transition, queued, pos, no_details, Status}
use remote_worktree_runner.JobWorker.{
  bind, in_store, work, setup, finally, run_command, conclude, watch, append_log, Round, Events,
  spawned, after_wait, run_job,
}
use remote_worktree_runner.JobEnvironment.{create_job_environment, job_resource_name, add_roles}
use remote_worktree_runner.Scheduler.Pool.{
  wait, wait_on, begin_wait, checked, cancel_seen, ResourcePool,
}
use remote_worktree_runner.Common.{ensure_below, is_identifier, validate_identifier}
use remote_worktree_runner.Prelude.{
  ◌≡◌, refl, ◌⊎◌, none, some, List, [], ◌∷◌, All, Text, codes, text_eq, one_of, ok, lookup, insert,
}
use remote_worktree_runner.ServerPaths.{from_root}
use remote_worktree_runner.Scheduler.Disk.{healthy}
use remote_worktree_runner.Scheduler.Slots.{locked, free_slot, ResourceLease, held}
use remote_worktree_runner.JobWorker.Ending.{Finished, Returns, Escapes, after_wait-Ends}
use remote_worktree_runner.JobWorker.Waiting.{run_job-Finished}

abbrev job : Text
job = codes "job-1"

abbrev spec : JobSpec
spec = record {
  job_id = job;
  repository = codes "center";
  workspace = codes "/w/center";
  workspaces = (codes "primary", codes "/w/center") ∷ [];
  includes = [];
  weight = codes "light";
  argv = codes "true" ∷ [];
  created_at = codes "2026-01-01T00:00:00+00:00";
  commits = [];
  overlays = [];
  workload = codes "generic";
  session = none;
}

abbrev queued_status : Status
queued_status = record {
  state = queued;
  created_at = spec.created_at;
  updated_at = none;
  details = no_details;
}

abbrev pool : ResourcePool
pool = record {
  capacity = 2;
  store =
      some
        ((job, record empty_directory { metadata = some spec; status = some queued_status }) ∷ []);
  worker_inactive = none;
  queue = [];
  slots = locked job ∷ free_slot ∷ [];
}

abbrev rounds : List Round
rounds =
    record { others = λ p. p; exited = none; pressure = healthy }
    ∷ record { others = λ p. p; exited = some (pos 0); pressure = healthy }
    ∷ []

abbrev events : Events
events = record {
  resolve = λ p. p;
  paths = from_root (λ p. p) (codes "srv" ∷ []);
  path = codes "/bin";
  waiting = [];
  clock = record { time_ns = 7; time = 7 };
  builder = ok tt;
  setup_message = [];
  spawn = spawned;
  rounds = rounds;
  signalled = pos 130;
  utc_now = codes "2026-01-01T12:00:00+00:00";
  time = 7;
  pid = 9;
}

abbrev lease : ResourceLease
lease = record { job = job; permits = 1 }

after_wait-Ends_example :
    (((after_wait job spec events (ok (some lease), pool)).0 ≡ ok none)
      × All (λ r. r.exited ≡ none) rounds)
    ⊎ ((Returns job (after_wait job spec events (ok (some lease), pool))
          ⊎ Escapes job events (after_wait job spec events (ok (some lease), pool)))
        × (held job (after_wait job spec events (ok (some lease), pool)).1.slots ≡ 0))
unfolding status validate_identifier is_identifier lookup text_eq
after_wait-Ends_example =
    after_wait-Ends job events spec lease pool queued_status refl refl
      ((λ p. refl), ((λ p. refl), tt))

run_job-Finished_example : Finished job (pos 0) (run_job job events pool).1
unfolding status validate_identifier is_identifier lookup text_eq run_job bind in_store load build
    from_dict to_dict post_init one_of check_session is_command check_roles is_subset after_wait
    work setup finally run_command conclude watch finish transition advance may_transition update
    insert append_log ensure_below create_job_environment job_resource_name add_roles wait wait_on
    begin_wait checked job_directory cancel_seen from_root
run_job-Finished_example =
    run_job-Finished job events pool queued_status refl refl tt ((λ p. refl), ((λ p. refl), tt))
      (pos 0) refl
