-- ===== src/LocalCli/Tests.antt =====
-- A run that loses its network during the transfer, and the status of a job.
use remote_worktree_runner.Common.{is_identifier}
use remote_worktree_runner.Prelude.{
  text_eq, true, ℕ, ◌≡◌, false, none, some, List, [], ◌∷◌, Text, codes, ok, pos,
}
use remote_worktree_runner.ServerWorkspace.{Completed}
use remote_worktree_runner.Effects.{done}
use remote_worktree_runner.JobStore.State.{passed}
use remote_worktree_runner.Repository.{RepositoryState}
use remote_worktree_runner.RunnerConfig.{RunnerConfig}
use remote_worktree_runner.Transport.{Call, Finish, ended, Remote, Transport, ssh_call, nothing}
use remote_worktree_runner.LocalCli.Plan.{Local, Request}
use remote_worktree_runner.LocalCli.Run.{run_worktrees}
use remote_worktree_runner.LocalCli.Submitted.{RunEnds, run_worktrees-RunEnds}
use remote_worktree_runner.LocalCli.Main.{status, job_arguments, on_job, main}
use remote_worktree_runner.LocalCli.Codes.{main-reported}

abbrev reply_code : ℕ → Completed
reply_code n = record { returncode = pos n; stdout = codes "{}"; stderr = [] }

-- The reservation succeeds; every later process fails.
abbrev lost : List Call → Call → Finish
lost [] call = ended (reply_code 0)
lost (first ∷ more) call = ended (reply_code 255)

abbrev place : Text
place = codes "/srv/workspaces/center/job-1/primary"

abbrev remote : Remote
remote = record {
  run = lost;
  read_reservation = λ _. some (record {
    protocol_version = pos 2;
    mirrors = [];
    workspaces = (codes "primary", place) ∷ [];
  });
  read_object = λ _. none;
  read_workspaces = λ _. none;
  is_json = λ _. true;
  is_text = λ _. true;
  read_status = λ _. some (record { state = some passed; exit_code = none });
}

abbrev transport : Transport
transport = record {
  ssh_alias = codes "server";
  remote_root = codes "srv" ∷ [];
  exclude_file = codes "etc" ∷ codes "excludes" ∷ [];
}

abbrev state : RepositoryState
state = record {
  name = codes "center";
  root = codes "home" ∷ codes "center" ∷ [];
  git_common_dir = codes "home" ∷ codes "center" ∷ codes ".git" ∷ [];
  commit = codes "0123456789abcdef0123456789abcdef01234567";
  branch = some (codes "main");
  dirty = false;
}

abbrev local : Local
local = record {
  discover = λ path allowed. ok state;
  overlay = λ s. ok (record { transfer = []; delete = [] });
  now = codes "2026-01-01T00:00:00+00:00";
}

abbrev q : Request
q = record {
  primary = state.root;
  includes = [];
  job_id = codes "job-1";
  weight = codes "heavy";
  argv = codes "make" ∷ [];
  allowed_repositories = codes "center" ∷ [];
  session = none;
  workload = codes "generic";
}

run_worktrees-RunEnds_example :
    RunEnds remote transport local q (run_worktrees remote transport local q [])
run_worktrees-RunEnds_example = run_worktrees-RunEnds remote transport local q

abbrev config : RunnerConfig
config = record {
  ssh_alias = codes "server";
  remote_root = codes "/srv";
  minimum_free_gib = pos 20;
  warning_free_gib = pos 15;
  cancellation_free_gib = pos 10;
  max_heavy_jobs = 2;
  allowed_repositories = codes "center" ∷ [];
}

abbrev status_call : Call
status_call = ssh_call remote transport (codes "status" ∷ codes "job-1" ∷ []) nothing

main-reported_example :
    main remote transport local (λ _. []) config [] (on_job status (codes "job-1")) []
    ≡ done (pos 0) (status_call ∷ [])
unfolding is_identifier job_arguments text_eq
main-reported_example =
    main-reported remote transport local (λ _. []) config [] status (codes "job-1") []
