-- ===== src/ServerWorkspace/Every.antt =====
-- trie_remote/server_workspace.py: `prepare_all_workspaces`.
use remote_worktree_runner.Prelude.{
  Bool, ◌&&◌, Option, none, some, List, [], ◌∷◌, if◌then◌else◌, Text, codes, text_eq, Result, ok,
  err, require, Dict, lookup, keys, values,
}
use remote_worktree_runner.Errors.{Error, commits_mismatch, workspace_changed, key_missing}
use remote_worktree_runner.Common.{FilePath, path_eq}
use remote_worktree_runner.ServerPaths.{ServerPaths}
use remote_worktree_runner.JobStore.Spec.{JobSpec, OverlayManifest, is_subset}
use remote_worktree_runner.Preview.Slots.{sorted_items}
use remote_worktree_runner.Overlay.{Files, apply_overlay_deletions}
use remote_worktree_runner.Effects.{done, raised, ◌>>=◌, ◌>>◌, pure, lift}
use remote_worktree_runner.ServerWorkspace.{deleted, Host, Work, ask, prepare_workspace}

-- d[key]
unfoldable pub item {ℓ} : {V : Type ℓ} → Text → Dict V → Result Error V
item key d = elim (lookup key d) [ none ↦ err key_missing | some v ↦ ok v ]

-- spec.repository if role == "primary" else spec.includes[role]
unfoldable pub role_repository : JobSpec → Text → Result Error Text
unfolding item
role_repository spec role =
    if text_eq role (codes "primary") then ok spec.repository else item role spec.includes

-- spec.overlays.get(role, OverlayManifest()).delete
abbrev pub deletions : Option OverlayManifest → List Text
deletions none = []
deletions (some manifest) = manifest.delete

-- set(a) == set(b)
abbrev pub same_set : List Text → List Text → Bool
same_set a b = is_subset a b && is_subset b a

module _ (host : Host) (paths : ServerPaths) (path_of : Text → FilePath) (spec : JobSpec) where
  unfoldable pub after_deletions : FilePath → Result Error (Unit {0}) × Files → Work (Unit {0})
  after_deletions workspace (ok _, files) happened = done tt (deleted workspace files ∷ happened)
  after_deletions workspace (err e, files) happened = raised e (deleted workspace files ∷ happened)

  -- apply_overlay_deletions(workspace, paths)
  unfoldable pub delete_files : FilePath → List Text → Work (Unit {0})
  unfolding after_deletions
  delete_files workspace values happened =
      after_deletions workspace
        (apply_overlay_deletions (host.resolve happened) (host.resolve happened workspace) values
          (host.files happened))
        happened

  -- One round of the loop, for a role and the workspace that the spec names.
  unfoldable pub prepare_role : Text → Text → Work FilePath
  unfolding ask
  prepare_role role expected = do
    repository ← lift (role_repository spec role)
    commit ← lift (item role spec.commits)
    workspace ← prepare_workspace host paths spec.job_id repository commit role
    place ← ask host (λ happened. host.resolve happened (path_of expected))
    lift (require (path_eq workspace place) workspace_changed)
    delete_files workspace (deletions (lookup role spec.overlays))
    pure workspace

  unfoldable pub prepare_roles : Dict Text → Work (Dict FilePath)
  prepare_roles [] = pure []
  prepare_roles ((role, expected) ∷ roles) = do
    workspace ← prepare_role role expected
    prepared ← prepare_roles roles
    pure ((role, workspace) ∷ prepared)

  -- for role in sorted(spec.workspaces)
  unfoldable pub prepare_all_workspaces : Work (Dict FilePath)
  prepare_all_workspaces = do
    lift (require (same_set (keys spec.commits) (keys spec.workspaces)) commits_mismatch)
    prepare_roles (sorted_items spec.workspaces)
