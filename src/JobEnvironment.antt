-- ===== src/JobEnvironment.antt =====
-- trie_remote/job_environment.py: resource names and the environment of a job. The directories and
-- shims that are written beside it are left out.
pub mod Names
pub mod Roles
pub mod Tests
use remote_worktree_runner.Errors.{Error}
use remote_worktree_runner.Common.{FilePath, ensure_below, validate_identifier}
use remote_worktree_runner.ServerPaths.{ServerPaths, ◌//◌, path_text}
use remote_worktree_runner.Prelude.{
  ℕ, ◌-◌, ◌&&◌, Option, none, some, [], ◌∷◌, ◌++◌, map, leb, ◌==◌, if◌then◌else◌, Text, codes,
  Result, ok, ◌>>=◌, Dict, lookup, insert,
}

-- f"trie-{repository}-{job_id}" with both parts validated.
abbrev pub resource_text : Text → Text → Text
resource_text repository job_id = codes "trie-" ++ (repository ++ b'-' ∷ job_id)

unfoldable pub job_resource_name : Text → Text → Result Error Text
job_resource_name repository job_id = do
  r ← validate_identifier repository
  j ← validate_identifier job_id
  ok (resource_text r j)

-- value.upper().replace("-", "_"), one character.
unfoldable pub variable_char : ℕ → ℕ
variable_char c = if leb b'a' c && leb c b'z' then c - 32 else if c == b'-' then b'_' else c

-- f"TRIE_{safe_role.upper().replace('-', '_')}_ROOT"
unfoldable pub role_variable : Text → Text
role_variable role = codes "TRIE_" ++ (map variable_char role ++ codes "_ROOT")

-- `docker_config`, `cache_home` and the other values of the literal; `path` is `os.environ["PATH"]`.
unfoldable pub base_environment : ServerPaths → FilePath → Text → Text → Text → Text → Dict Text
base_environment paths job_directory repository job_id resource path =
    (codes "TRIE_REMOTE_JOB_ID", job_id)
    ∷ (codes "COMPOSE_PROJECT_NAME", resource)
    ∷ (codes "BUILDX_BUILDER", resource)
    ∷ (codes "DOCKER_CONFIG", path_text (job_directory // codes "docker-config"))
    ∷ (
      codes "XDG_CACHE_HOME",
      path_text (paths.caches // codes "language" // repository // codes "xdg"),
    )
    ∷ (codes "PLAYWRIGHT_BROWSERS_PATH", path_text (paths.caches // codes "playwright"))
    ∷ (codes "PLAYWRIGHT_SKIP_BROWSER_GC", codes "1")
    ∷ (
      codes "TRIE_M4_CENTER_NODE_DIR",
      path_text (paths.toolchains // codes "center-node" // codes "bin"),
    )
    ∷ (
      codes "PATH",
      path_text (job_directory // codes "bin")
          ++ b':'
            ∷ (path_text paths.bin
                ++ b':'
                  ∷ (path_text (paths.toolchains // codes "process-node" // codes "bin")
                      ++ b':'
                        ∷ (path_text (paths.toolchains // codes "go" // codes "bin")
                            ++ b':' ∷ path))),
    )
    ∷ []

-- The loop over the workspaces.
unfoldable pub add_roles : Dict Text → Dict Text → Result Error (Dict Text)
add_roles [] environment = ok environment
add_roles ((role, workspace) ∷ workspaces) environment = validate_identifier role >>= λ safe_role.
    add_roles workspaces (insert (role_variable safe_role) workspace environment)

-- environment["TRIE_PRIMARY_ROOT"] = … where there is a primary workspace.
abbrev pub add_primary : Option Text → Dict Text → Dict Text
add_primary none environment = environment
add_primary (some workspace) environment = insert (codes "TRIE_PRIMARY_ROOT") workspace environment

unfoldable pub create_job_environment :
    (FilePath → FilePath) → ServerPaths → Text → Text → Dict Text → Text → Result Error (Dict Text)
create_job_environment resolve paths job_id repository workspaces path = do
  j ← validate_identifier job_id
  r ← validate_identifier repository
  job_directory ← ensure_below resolve paths.jobs (paths.jobs // j)
  resource ← job_resource_name r j
  environment ← add_roles workspaces (base_environment paths job_directory r j resource path)
  ok (add_primary (lookup (codes "primary") workspaces) environment)
