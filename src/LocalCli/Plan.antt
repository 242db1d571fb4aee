-- ===== src/LocalCli/Plan.antt =====
-- trie_remote/local_cli.py: the spec that `run_worktrees` makes of the local worktrees.
use remote_worktree_runner.Prelude.{
  Option, List, [], ◌∷◌, if◌then◌else◌, Text, codes, text_eq, Result, ok, ◌>>=◌, ◌>>◌, require,
  Dict, lookup,
}
use remote_worktree_runner.Errors.{Error, unsupported_workload}
use remote_worktree_runner.Common.{FilePath, validate_identifier}
use remote_worktree_runner.ServerPaths.{◌//◌, path_text}
use remote_worktree_runner.JobStore.Spec.{JobSpec, OverlayManifest, build, check_session}
use remote_worktree_runner.Repository.{RepositoryState}
use remote_worktree_runner.Transport.{Transport}
use remote_worktree_runner.LocalCli.{validate_requested_command, workload_weights, is_known}

-- The arguments of `run_worktrees`.
pub record Request : Type 0 where
  pub primary : FilePath
  pub includes : Dict FilePath
  pub job_id : Text
  pub weight : Text
  pub argv : List Text
  pub allowed_repositories : List Text
  pub session : Option Text
  pub workload : Text

-- The local worktrees: `RepositoryState.discover` of a path with the allowed repositories, and
-- `RepositoryState.overlay` of a state; `now` is `datetime.now(timezone.utc).isoformat()`.
pub record Local : Type 0 where
  pub discover : FilePath → List Text → Result Error RepositoryState
  pub overlay : RepositoryState → Result Error OverlayManifest
  pub now : Text

-- The worktrees, where they go on the server, what is changed in each, and the spec.
pub record Plan : Type 0 where
  pub states : Dict RepositoryState
  pub workspaces : Dict Text
  pub overlays : Dict OverlayManifest
  pub spec : JobSpec

unfoldable pub discover_each :
    Local → List Text → Dict FilePath → Result Error (Dict RepositoryState)
discover_each local allowed [] = ok []
discover_each local allowed ((role, path) ∷ includes) = do
  state ← local.discover path allowed
  states ← discover_each local allowed includes
  ok ((role, state) ∷ states)

unfoldable pub overlay_each : Local → Dict RepositoryState → Result Error (Dict OverlayManifest)
overlay_each local [] = ok []
overlay_each local ((role, state) ∷ states) = do
  overlay ← local.overlay state
  overlays ← overlay_each local states
  ok ((role, overlay) ∷ overlays)

-- str(remote_root / "workspaces" / state.name / job_id / role) for each role.
unfoldable pub remote_workspaces : Transport → Text → Dict RepositoryState → Dict Text
remote_workspaces transport job_id [] = []
remote_workspaces transport job_id ((role, state) ∷ states) =
    (role, path_text (transport.remote_root // codes "workspaces" // state.name // job_id // role))
    ∷ remote_workspaces transport job_id states

unfoldable pub include_repositories : Dict RepositoryState → Dict Text
include_repositories [] = []
include_repositories ((role, state) ∷ states) =
    let rest = include_repositories states in
    if text_eq role (codes "primary") then rest else (role, state.name) ∷ rest

unfoldable pub commits_of : Dict RepositoryState → Dict Text
commits_of [] = []
commits_of ((role, state) ∷ states) = (role, state.commit) ∷ commits_of states

-- What `run_worktrees` does before it reserves the job; nothing is sent.
unfoldable pub make_plan : Local → Transport → Request → Result Error Plan
unfolding discover_each overlay_each remote_workspaces include_repositories commits_of
make_plan local transport q = do
  job ← validate_identifier q.job_id
  check_session q.session
  require (is_known (lookup q.workload workload_weights)) unsupported_workload
  validate_requested_command q.argv
  primary ← local.discover q.primary q.allowed_repositories
  included ← discover_each local q.allowed_repositories q.includes
  let states = (codes "primary", primary) ∷ included
  overlays ← overlay_each local states
  let workspaces = remote_workspaces transport q.job_id states
  spec ← build (record {
    job_id = q.job_id;
    repository = primary.name;
    workspace = path_text (
        transport.remote_root // codes "workspaces" // primary.name // q.job_id // codes "primary");
    workspaces = workspaces;
    includes = include_repositories states;
    weight = q.weight;
    argv = q.argv;
    created_at = local.now;
    commits = commits_of states;
    overlays = overlays;
    workload = q.workload;
    session = q.session;
  })
  ok (record { states = states; workspaces = workspaces; overlays = overlays; spec = spec })
