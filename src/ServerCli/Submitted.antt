-- ===== src/ServerCli/Submitted.antt =====
-- What a submitted job's workspaces are.
use remote_worktree_runner.Prelude.{◌≡◌, ◌∷◌, ◌++◌, Text, ok}
use remote_worktree_runner.Common.{FilePath}
use remote_worktree_runner.ServerPaths.{ServerPaths, ◌//◌}
use remote_worktree_runner.JobStore.Spec.{JobSpec}
use remote_worktree_runner.ServerCli.Submission.{repository_of}

module _ (resolve : FilePath → FilePath) (path_of : Text → FilePath) (paths : ServerPaths)
    (spec : JobSpec) where
  -- The workspace of a role is the directory of its repository, the job and the role, and lies
  -- below the directory of all workspaces.
  abbrev pub Proper : Text × Text → Type 0
  Proper (role, workspace) =
      (repository : Text) × (repository_of spec role ≡ ok repository)
      × (resolve (path_of workspace)
          ≡ resolve (paths.workspaces // repository // spec.job_id // role))
      × ((name : Text) × (rest : FilePath) × (resolve (path_of workspace)
            ≡ resolve paths.workspaces ++ name ∷ rest))
