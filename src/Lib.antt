-- ===== src/Lib.antt =====
-- Remote Worktree Runner: the core logic of the Python package trie_remote, modelled and verified.
--
-- The program runs commands of a workstation on a server. A client submits a job; the server keeps
-- one directory per job (JobStore), a worker process per job waits for its turn and its permits
-- (Scheduler), builds the job's environment (JobEnvironment), and runs the command. The commands
-- that a job gives to Docker pass through two checks (DockerPolicy, PortPolicy). The client pushes
-- the commits and copies the changed files (LocalCli, Transport) into worktrees that the server
-- prepares (ServerWorkspace). A job may hand one of its containers to a named preview behind the
-- server's gateway (Preview, PreviewRegistry).
--
-- Files, each with its child modules in the folder of its name:
--   Prelude          texts as lists of codes, results with errors, dictionaries, list lemmas
--   Errors           the exceptions that the modelled code raises
--   Effects          steps that ask the world outside, with the events that happened so far
--   Common           src/trie_remote/common.py: validate_identifier, ensure_below
--   JobStore         src/trie_remote/job_store.py: JobSpec (Spec), the state machine (State) and
--                    JobStore.create, exists, load, status, transition, finish, request_cancel.
--                    A store is an association list from directory names to the files of a job;
--                    every operation returns its result or exception and the store afterwards.
--   Scheduler        src/trie_remote/scheduler.py: DiskGuard (Disk), the queue directory (Tickets),
--                    the slot files and leases (Slots), staleness and supersession (Stale), and
--                    ResourcePool.wait cut into its critical sections under queue.lock (Pool),
--                    ResourcePool.snapshot (Snapshot) and unit_is_inactive (Units). The other
--                    processes act between two sections: as steps of a relation in
--                    Scheduler/Exclusion, as functions on the pool in Scheduler/Pool.poll_rounds.
--   DockerPolicy     src/trie_remote/docker_policy.py: validate_docker_arguments
--   PortPolicy       src/trie_remote/port_policy.py: validate_published_ports,
--                    validate_compose_command
--   ServerPaths      src/trie_remote/server_paths.py: ServerPaths.from_root
--   JobEnvironment   src/trie_remote/job_environment.py: job_resource_name, the variables of
--                    create_job_environment
--   Overlay          src/trie_remote/overlay.py: the paths of an overlay, the parser of git's output
--                    (one field at a time, with what it expects next) and the deletions
--   ServerCli        src/trie_remote/server_cli.py: _validate_spec (Submission), _start_job (Start),
--                    _execute_job (Execute), _reconcile_inactive_unit (Reconcile) and the command
--                    docker (DockerCommand)
--   Preview          src/trie_remote/preview.py: the checks, the slot file (Slots), the gateway's
--                    file (Gateway), and the route files with their JSON metadata (Routes)
--   PreviewRegistry  src/trie_remote/preview_registry.py: polling (Probe), the route files and what
--                    is read (Site), containers and networks (Containers), who may publish
--                    (Authority), publish (Publish), unpublish and the check before a cleanup
--                    (Unpublish). The file system is a dictionary of route files.
--   RunnerConfig     src/trie_remote/config.py: RunnerConfig.load
--   ServerWorkspace  src/trie_remote/server_workspace.py: mirrors and worktrees, and all the
--                    workspaces of a job (Every)
--   Repository       src/trie_remote/repository.py: RepositoryState.discover
--   Transport        src/trie_remote/transport.py: the calls of ssh, git push and rsync
--   LocalCli         src/trie_remote/local_cli.py: the checks, the spec (Plan), run_worktrees (Run),
--                    the arguments of a run (Requested), and main with its exit codes (Main)
--   JobWorker        src/trie_remote/job_worker.py: run_job over the store and the pool, with the
--                    rounds of its loop and what the others do before each as an argument
--
-- Loops over lists are structural recursion. The polling loop of wait has no bound in the code;
-- Scheduler/Pool.poll_rounds takes the list of its rounds, with what the others do before each, so
-- a statement about it holds for every number of rounds. The loop of run_job over the running
-- process is a list of rounds in the same way. A ticket name has twenty digits for the
-- nanosecond clock, which are enough up to the year 5138.
--
-- Parameters, since their code is not in the repository: the resolution of paths, the readings of
-- the clock and of the free disk space, what systemd, Docker and git print, fnmatch, and how the
-- process of a job ends. The pool takes its callback worker_inactive as an argument too. The
-- kernel's file lock is the holder of a slot; it is free again when its process ends. Docker, HTTP
-- servers, git, ssh and rsync are functions of what has happened before and of the request, so
-- their answers may change from call to call. json.loads and datetime.fromisoformat are arguments.
-- The polls of the registry and the loop on a mirror have the rounds of the code: 20 and 3.
-- Whether a write of a route file fails, whether the free space can be read when a job is started,
-- whether a process can be started, and whether what it printed decodes are arguments too.
--
-- Not modelled: argparse and terminal output, the other commands of the server's command line, the
-- temporary files behind an atomic replacement, the waits between two polls, the directories and
-- shims that are written beside a job, and an OSError of the files of a job itself: its records, its
-- log, its ticket and its slots can be written, and the free space can be read while it runs. They
-- are listed with their reasons in the project's manifest.
pub mod Prelude
pub mod Errors
pub mod Effects
pub mod Common
pub mod JobStore
pub mod Scheduler
pub mod DockerPolicy
pub mod PortPolicy
pub mod ServerPaths
pub mod JobEnvironment
pub mod JobWorker
pub mod Overlay
pub mod Preview
pub mod PreviewRegistry
pub mod RunnerConfig
pub mod ServerWorkspace
pub mod ServerCli
pub mod Repository
pub mod Transport
pub mod LocalCli
