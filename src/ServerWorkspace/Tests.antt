-- ===== src/ServerWorkspace/Tests.antt =====
-- A server whose mirror exists and has the commit, and where nothing stands at the workspace.
use remote_worktree_runner.ServerPaths.{path_text, from_root, ServerPaths}
use remote_worktree_runner.ServerWorkspace.{
  ask, make_parent, clear_workspace, replace_worktree, mirror_with, checked_names, after_reading,
  below, create_mirror, enable_from, ensure_bare_repository, is_commit, run_checked, run_unchecked,
  after_setting, Event, ran, made_directory, deleted, Host, get_command, object_command,
  add_command, git, enable_shallow_updates, prepare_workspace,
}
use remote_worktree_runner.Common.{
  ensure_below, is_alnum, is_identifier_char, is_relative_to, path_eq, is_identifier,
  validate_identifier, FilePath,
}
use remote_worktree_runner.Prelude.{
  ◌≡◌, refl, Bool, true, none, List, [], ◌∷◌, any_of, Text, codes, text_eq, one_of, text_ltb,
  ends_with, lookup, pos, strip_left, strip_right, lower,
}
use remote_worktree_runner.JobStore.Spec.{JobSpec, is_subset}
use remote_worktree_runner.Preview.Slots.{sorted_items, insert_sorted}
use remote_worktree_runner.Overlay.{apply_overlay_deletions, missing}
use remote_worktree_runner.Effects.{done}
use remote_worktree_runner.ServerWorkspace.Every.{
  prepare_roles, prepare_role, role_repository, item, delete_files, after_deletions,
  prepare_all_workspaces, same_set,
}
use remote_worktree_runner.ServerWorkspace.Shallow.{Enabling, enable_shallow_updates-Enabling}
use remote_worktree_runner.ServerWorkspace.Prepared.{Fresh, prepare_workspace-Fresh}
use remote_worktree_runner.ServerWorkspace.Complete.{AllReady, prepare_all_workspaces-AllReady}

-- Only the mirrors stand.
abbrev stands : FilePath → Bool
stands path = any_of (λ name. ends_with name (codes ".git")) path

abbrev host : Host
host = record {
  run = λ happened argv. record { returncode = pos 0; stdout = codes "true"; stderr = [] };
  exists = λ happened path. stands path;
  is_file = λ happened path. true;
  resolve = λ happened path. path;
  files = λ happened path. missing;
}

-- Git reads that shallow pushes are off.
abbrev slow_host : Host
slow_host = record host {
  run = λ happened argv. record { returncode = pos 0; stdout = codes "false"; stderr = [] };
}

abbrev mirror : Text
mirror = codes "/srv/repos/center.git"

enable_shallow_updates-Enabling_example :
    Enabling slow_host mirror 6 (enable_shallow_updates slow_host mirror [])
enable_shallow_updates-Enabling_example = enable_shallow_updates-Enabling slow_host mirror []

abbrev paths : ServerPaths
paths = from_root (λ p. p) (codes "srv" ∷ [])

abbrev commit : Text
commit = codes "0123456789abcdef0123456789abcdef01234567"

abbrev workspace : FilePath
workspace = codes "srv" ∷ codes "workspaces" ∷ codes "center" ∷ codes "job-1" ∷ codes "primary" ∷ []

abbrev events : List Event
events =
    ran (add_command mirror workspace commit)
    ∷ ran (git mirror (codes "worktree" ∷ codes "prune" ∷ []))
    ∷ made_directory workspace
    ∷ ran (object_command mirror commit)
    ∷ ran (get_command mirror)
    ∷ []

prepared :
    prepare_workspace host paths (codes "job-1") (codes "center") commit (codes "primary") []
    ≡ done workspace events
unfolding prepare_workspace checked_names validate_identifier is_identifier mirror_with ensure_below
    from_root text_eq ends_with lower strip_right strip_left replace_worktree clear_workspace
    make_parent path_text
prepared = refl

prepare_workspace-Fresh_example : Fresh host paths commit workspace events
prepare_workspace-Fresh_example =
    prepare_workspace-Fresh host paths (codes "job-1") (codes "center") commit (codes "primary") []
      events workspace prepared

abbrev spec : JobSpec
spec = record {
  job_id = codes "job-1";
  repository = codes "center";
  workspace = codes "/srv/workspaces/center/job-1/primary";
  workspaces = (codes "primary", codes "/srv/workspaces/center/job-1/primary") ∷ [];
  includes = [];
  weight = codes "heavy";
  argv = codes "make" ∷ [];
  created_at = codes "2026-01-01T00:00:00+00:00";
  commits = (codes "primary", commit) ∷ [];
  overlays = [];
  workload = codes "generic";
  session = none;
}

all_prepared :
    prepare_all_workspaces host paths (λ _. workspace) spec []
    ≡ done ((codes "primary", workspace) ∷ []) (deleted workspace (λ path. missing) ∷ events)
unfolding prepare_all_workspaces prepare_roles prepare_role role_repository item lookup text_eq
    one_of is_subset sorted_items insert_sorted delete_files after_deletions apply_overlay_deletions
    ask prepare_workspace path_text checked_names validate_identifier is_identifier mirror_with
    ensure_below from_root ends_with lower strip_right strip_left replace_worktree clear_workspace
    make_parent is_alnum is_identifier_char is_relative_to path_eq text_ltb after_reading below
    create_mirror enable_from enable_shallow_updates ensure_bare_repository is_commit run_checked
    run_unchecked after_setting
all_prepared = refl

prepare_all_workspaces-AllReady_example :
    AllReady host paths
      (λ _. workspace)
      spec
      ((codes "primary", codes "/srv/workspaces/center/job-1/primary") ∷ [])
      ((codes "primary", workspace) ∷ [])
    × (same_set (codes "primary" ∷ []) (codes "primary" ∷ []) ≡ true)
unfolding sorted_items
prepare_all_workspaces-AllReady_example =
    prepare_all_workspaces-AllReady host paths (λ _. workspace) spec
      ((codes "primary", workspace) ∷ []) [] (deleted workspace (λ path. missing) ∷ events)
      all_prepared
