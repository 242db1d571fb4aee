-- ===== src/ServerCli/DockerCommand.antt =====
-- trie_remote/server_cli.py: the command `docker`.
use remote_worktree_runner.Prelude.{
  Bool, true, false, Option, none, some, List, [], ◌∷◌, ◌++◌, if◌then◌else◌, Text, codes, text_eq,
  one_of, Result, ok, err, lookup,
}
use remote_worktree_runner.Errors.{Error, unknown_job, port_conflict}
use remote_worktree_runner.JobStore.{JobFiles, Store, Outcome, update}
use remote_worktree_runner.JobEnvironment.{job_resource_name}
use remote_worktree_runner.DockerPolicy.{validate_docker_arguments}
use remote_worktree_runner.PortPolicy.{Docker, validate_compose_command}

-- What becomes of a Docker command: the exit code 2, or `execv` with the arguments.
pub data DockerAnswer : Type 0 where
  rejected : DockerAnswer
  executed : List Text → DockerAnswer

-- if docker_arguments and docker_arguments[0] == "--"
unfoldable pub drop_dashes : List Text → List Text
drop_dashes [] = []
drop_dashes (v ∷ vs) = if text_eq v (codes "--") then vs else v ∷ vs

unfoldable pub add_project : Text → List Text → List Text
add_project project projects =
    if one_of project projects then projects else projects ++ project ∷ []

abbrev pub recorded : Text → JobFiles → JobFiles
recorded project d = record d {
  compose_projects =
      some (add_project project (elim d.compose_projects [ none ↦ [] | some ps ↦ ps ]));
}

abbrev pub is_port_conflict : Error → Bool
is_port_conflict port_conflict = true
is_port_conflict _ = false

-- Behind the two checks.
unfoldable pub docker_checked :
    Text → List Text → Result Error (Option Text) → Store → Outcome DockerAnswer
docker_checked job_id arguments (err e) s =
    if is_port_conflict e then (ok rejected, s) else (err e, s)
docker_checked job_id arguments (ok none) s = (ok (executed arguments), s)
docker_checked job_id arguments (ok (some project)) s =
    (ok (executed arguments), update job_id (recorded project) s)

unfoldable pub docker_allowed :
    Text → List Text → Text → Docker → Result Error (Unit {0}) → Store → Outcome DockerAnswer
docker_allowed job_id arguments builder docker (err e) s = (err e, s)
docker_allowed job_id arguments builder docker (ok _) s =
    docker_checked job_id arguments (validate_compose_command arguments builder docker) s

unfoldable pub docker_named :
    Text → List Text → Docker → Result Error Text → Store → Outcome DockerAnswer
docker_named job_id arguments docker (err e) s = (err e, s)
docker_named job_id arguments docker (ok builder) s =
    docker_allowed job_id arguments builder docker (validate_docker_arguments arguments builder) s

-- metadata["repository"] of the job's metadata.json, if it is there.
unfoldable pub builder_of : Text → Store → Result Error Text
builder_of job_id s = elim (lookup job_id s) [
  | none ↦ err unknown_job
  | some d ↦ elim d.metadata [
    | none ↦ err unknown_job
    | some spec ↦ job_resource_name spec.repository job_id
  ]
]

unfoldable pub docker_command : Text → List Text → Docker → Store → Outcome DockerAnswer
docker_command job_id arguments docker s =
    docker_named job_id (drop_dashes arguments) docker (builder_of job_id s) s
