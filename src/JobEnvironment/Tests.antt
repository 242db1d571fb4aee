-- ===== src/JobEnvironment/Tests.antt =====
-- The environments of concrete jobs.
use remote_worktree_runner.Common.{ensure_below, is_identifier, validate_identifier}
use remote_worktree_runner.Prelude.{
  ◌≡◌, refl, some, [], ◌∷◌, Text, codes, text_eq, Dict, lookup, insert,
}
use remote_worktree_runner.ServerPaths.{ServerPaths, ◌//◌, from_root}
use remote_worktree_runner.JobEnvironment.{
  job_resource_name, resource_text, role_variable, create_job_environment, add_primary, add_roles,
  base_environment,
}
use remote_worktree_runner.JobEnvironment.Roles.{create_job_environment_lem}

abbrev paths : ServerPaths
paths = from_root (λ p. p) (codes "srv" ∷ [])

abbrev workspaces : Dict Text
workspaces = (codes "primary", codes "/w/a") ∷ (codes "docs", codes "/w/b") ∷ []

abbrev environment : Dict Text
environment = add_primary (some (codes "/w/a")) (
    insert (role_variable (codes "docs")) (codes "/w/b") (
      insert (role_variable (codes "primary")) (codes "/w/a") (
        base_environment paths (paths.jobs // codes "1") (codes "center") (codes "1")
          (resource_text (codes "center") (codes "1")) (codes "/bin"))))

create_job_environment_lem_example :
    lookup (role_variable (codes "docs")) environment ≡ some (codes "/w/b")
unfolding create_job_environment validate_identifier is_identifier job_resource_name add_roles
    insert lookup base_environment text_eq ensure_below from_root
create_job_environment_lem_example =
    (create_job_environment_lem (λ p. p) paths (codes "1") (codes "center") workspaces
        (codes "/bin") environment refl (refl, (refl, tt)) (((λ e. cc), tt), (tt, tt))).0
      (codes "docs") (codes "/w/b") refl
