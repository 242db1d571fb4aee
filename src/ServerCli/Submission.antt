-- ===== src/ServerCli/Submission.antt =====
-- trie_remote/server_cli.py: `_validate_spec`.
use remote_worktree_runner.Prelude.{
  Bool, false, ◌&&◌, Option, none, some, List, [], ◌∷◌, if◌then◌else◌, Text, codes, text_eq, Result,
  ok, err, ◌>>=◌, ◌>>◌, require, Dict, lookup, keys, values,
}
use remote_worktree_runner.Errors.{
  Error, repository_not_allowed, primary_mismatch, roles_mismatch, unexpected_workspace,
}
use remote_worktree_runner.Common.{FilePath, path_eq, ensure_below}
use remote_worktree_runner.ServerPaths.{ServerPaths, ◌//◌}
use remote_worktree_runner.JobStore.Spec.{JobSpec, is_subset}

-- spec.workspaces.get("primary") != spec.workspace
abbrev pub is_at : Text → Option Text → Bool
is_at path none = false
is_at path (some p) = text_eq p path

-- set(spec.workspaces) == {"primary", *spec.includes}
unfoldable pub same_roles : List Text → List Text → Bool
same_roles roles included =
    is_subset roles (codes "primary" ∷ included) && is_subset (codes "primary" ∷ included) roles

-- spec.repository if role == "primary" else spec.includes[role]; a missing role is a KeyError,
-- which the test of the roles has ruled out.
unfoldable pub repository_of : JobSpec → Text → Result Error Text
repository_of spec role =
    if text_eq role (codes "primary")
    then ok spec.repository
    else elim (lookup role spec.includes) [ none ↦ err roles_mismatch | some r ↦ ok r ]

-- `path_of` is `Path` of the text, and `resolve` follows the symbolic links.
unfoldable pub check_workspace :
    (FilePath → FilePath)
    → (Text → FilePath)
    → ServerPaths
    → JobSpec
    → Text × Text
    → Result Error (Unit {0})
check_workspace resolve path_of paths spec (role, workspace) = do
  repository ← repository_of spec role
  expected ←
      ensure_below resolve paths.workspaces (paths.workspaces // repository // spec.job_id // role)
  given ← ensure_below resolve paths.workspaces (path_of workspace)
  require (path_eq given expected) unexpected_workspace

unfoldable pub check_workspaces :
    (FilePath → FilePath)
    → (Text → FilePath)
    → ServerPaths
    → JobSpec
    → Dict Text
    → Result Error (Unit {0})
check_workspaces resolve path_of paths spec [] = ok tt
check_workspaces resolve path_of paths spec (w ∷ workspaces) =
    check_workspace resolve path_of paths spec w
    >> check_workspaces resolve path_of paths spec workspaces

unfoldable pub validate_spec :
    (FilePath → FilePath)
    → (Text → FilePath)
    → List Text
    → ServerPaths
    → JobSpec
    → Result Error (Unit {0})
validate_spec resolve path_of allowed paths spec = do
  require (is_subset (spec.repository ∷ values spec.includes) allowed) repository_not_allowed
  require (is_at spec.workspace (lookup (codes "primary") spec.workspaces)) primary_mismatch
  require (same_roles (keys spec.workspaces) (keys spec.includes)) roles_mismatch
  check_workspaces resolve path_of paths spec spec.workspaces
