-- ===== src/ServerCli/Tests.antt =====
-- Concrete starts, reconciliations and Docker commands.
use remote_worktree_runner.Prelude.{
  insert, Option, partition, ◌≡◌, refl, none, some, List, [], ◌∷◌, Text, codes, text_eq, one_of,
  starts_with, ok, err, lookup,
}
use remote_worktree_runner.Errors.{reservation_mismatch}
use remote_worktree_runner.Scheduler.Units.{unit_is_inactive, read_properties, add_property}
use remote_worktree_runner.JobStore.Spec.{
  from_dict, to_dict, check_roles, check_session, post_init, build, is_subset, is_command, JobSpec,
}
use remote_worktree_runner.DockerPolicy.{
  is_blocked, check_path, tokens_from, validate_docker_arguments, check_command, command_tokens,
  is_option,
}
use remote_worktree_runner.Common.{is_alnum, is_identifier_char, validate_identifier, is_identifier}
use remote_worktree_runner.PortPolicy.{
  behind_compose, check_action, compose_action, validate_compose_command, Docker,
}
use remote_worktree_runner.ServerCli.DockerCommand.{
  docker_checked, docker_named, docker_allowed, drop_dashes, docker_command, builder_of,
}
use remote_worktree_runner.JobEnvironment.{job_resource_name}
use remote_worktree_runner.JobStore.{status, load, Store, empty_directory, job_directory}
use remote_worktree_runner.Scheduler.Disk.{needs_permits, admit}
use remote_worktree_runner.JobStore.State.{running, no_details, Status, passed, pos}
use remote_worktree_runner.JobStore.Creation.{IsSpec}
use remote_worktree_runner.ServerPaths.{ServerPaths, from_root}
use remote_worktree_runner.ServerCli.Execute.{
  execute_job, execute_from, execute_in, follow, read_round, read_job, exit_code_of,
}
use remote_worktree_runner.ServerCli.Followed.{Exits, execute_job-Exits}
use remote_worktree_runner.ServerCli.Start.{Launch, unit_refused, start_job}
use remote_worktree_runner.ServerCli.Started.{Abandons, start_job-new}
use remote_worktree_runner.ServerCli.Reconcile.{reconcile_inactive_unit}
use remote_worktree_runner.ServerCli.Finalized.{reconcile_inactive_unit-Settled}
use remote_worktree_runner.ServerCli.Executed.{Checked, docker_command-Checked}

abbrev job : Text
job = codes "job-1"

abbrev spec_with : Text → JobSpec
spec_with workspace = record {
  job_id = job;
  repository = codes "center";
  workspace = workspace;
  workspaces = (codes "primary", workspace) ∷ [];
  includes = [];
  weight = codes "heavy";
  argv = codes "make" ∷ [];
  created_at = codes "2026-01-01T00:00:00+00:00";
  commits = [];
  overlays = [];
  workload = codes "generic";
  session = none;
}

abbrev spec : JobSpec
spec = spec_with (codes "/w/a")

spec-IsSpec : IsSpec spec
unfolding is_identifier one_of text_eq is_command is_subset
spec-IsSpec = record {
  job_id = refl;
  repository = refl;
  weight = refl;
  workload = refl;
  session = tt;
  command = refl;
  roles = (refl, tt);
  overlay_roles = refl;
  commit_roles = refl;
}

abbrev launch : Launch
launch = record {
  guard = record { minimum = 20; warning = 15; cancellation = 10 };
  free = some 30;
  refusal = [];
  started = unit_refused;
  utc_now = codes "2026-01-01T12:00:00+00:00";
}

start_job-new_example : Abandons job (start_job launch spec [])
unfolding lookup admit needs_permits text_eq
start_job-new_example = ((start_job-new launch spec [] spec-IsSpec refl).1 30 refl).1 30 refl

abbrev in_state : Status
in_state = record {
  state = running;
  created_at = spec.created_at;
  updated_at = none;
  details = no_details;
}

abbrev store : Store
store = (job, record empty_directory { metadata = some spec; status = some in_state }) ∷ []

abbrev other : JobSpec
other = spec_with (codes "/w/b")

abbrev systemctl : Text → Option (List Text)
systemctl unit = some (codes "LoadState=loaded" ∷ codes "ActiveState=active" ∷ [])

reconcile_inactive_unit-Settled_example :
    reconcile_inactive_unit systemctl job in_state (λ s. s) [] store ≡ (ok none, store)
unfolding unit_is_inactive read_properties add_property partition lookup insert one_of text_eq
reconcile_inactive_unit-Settled_example =
    (reconcile_inactive_unit-Settled job (λ s. s) [] systemctl in_state store).0 refl

abbrev docker : Docker
docker = record { config = λ options. err reservation_mismatch; running = [] }

abbrev arguments : List Text
arguments = codes "ps" ∷ codes "-a" ∷ []

docker_command-Checked_example :
    (arguments ≡ arguments)
    × ((builder : Text) × (builder_of job store ≡ ok builder)
        × Checked job docker store builder arguments
            (docker_command job (codes "--" ∷ arguments) docker store).1)
unfolding docker_command builder_of lookup text_eq one_of starts_with is_blocked is_alnum
    is_identifier_char check_path tokens_from behind_compose check_action compose_action
    validate_compose_command docker_checked docker_named job_resource_name docker_allowed
    validate_docker_arguments check_command command_tokens drop_dashes is_option validate_identifier
    is_identifier
docker_command-Checked_example =
    docker_command-Checked job docker store (codes "--" ∷ arguments) arguments refl

abbrev paths : ServerPaths
paths = from_root (λ p. p) (codes "srv" ∷ [])

abbrev submitted : JobSpec
submitted = spec_with (codes "srv/workspaces/center/job-1/primary")

-- The worker finishes the job before the second reading.
abbrev ended : Status
ended = record in_state { state = passed }

abbrev worker : Store → Store
worker s =
    (job, record empty_directory { metadata = some spec; status = some ended; output = some [] })
    ∷ []

abbrev started : Store
started =
    (job, record empty_directory { metadata = some spec; status = some in_state; output = some [] })
    ∷ []

execute_job-Exits_example :
    Exits job (pos 0) (execute_job launch job ((λ s. s) ∷ worker ∷ []) started).1
unfolding execute_job execute_from execute_in follow read_round read_job exit_code_of load from_dict
    to_dict status job_directory validate_identifier is_identifier lookup text_eq build post_init
    one_of check_session is_command check_roles is_subset
execute_job-Exits_example =
    execute_job-Exits job launch ((λ s. s) ∷ worker ∷ []) started (pos 0) refl
