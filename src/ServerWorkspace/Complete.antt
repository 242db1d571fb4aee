-- ===== src/ServerWorkspace/Complete.antt =====
-- All the roles of a job are prepared, or the call raises.
use mathlib.Core.Path.{subst}
use remote_worktree_runner.Prelude.{
  ◌≡◌, refl, ap, ◌∙◌, inl, inr, Bool, true, some, List, [], ◌∷◌, Option-cases, Text, ok, require,
  require-ok, Dict, lookup, keys, ok_injective,
}
use remote_worktree_runner.Errors.{commits_mismatch, workspace_changed}
use remote_worktree_runner.Common.{FilePath, path_eq}
use remote_worktree_runner.Common.Laws.{path_eq→eq}
use remote_worktree_runner.ServerPaths.{ServerPaths}
use remote_worktree_runner.JobStore.Spec.{JobSpec}
use remote_worktree_runner.Preview.Slots.{sorted_items}
use remote_worktree_runner.Effects.{done, lift}
use remote_worktree_runner.Effects.Laws.{>>=-done, lift-done, done_injective}
use remote_worktree_runner.ServerWorkspace.{Event, Host, ask, prepare_workspace}
use remote_worktree_runner.ServerWorkspace.Every.{
  item, role_repository, same_set, deletions, delete_files, prepare_role, prepare_roles,
  prepare_all_workspaces,
}
use remote_worktree_runner.ServerWorkspace.Prepared.{Fresh, prepare_workspace-Fresh}

module _ (host : Host) (paths : ServerPaths) (path_of : Text → FilePath) (spec : JobSpec) where
  -- A fresh worktree of the role's commit, at the place that the spec names for the role.
  abbrev pub Ready : Text → Text → FilePath → Type 0
  Ready role expected workspace =
      (commit : Text) × (lookup role spec.commits ≡ some commit)
      × ((now : List Event) × Fresh host paths commit workspace now)
      × ((moment : List Event) × (workspace ≡ host.resolve moment (path_of expected)))

  -- Every role of the first list, in its order, with a place that is ready for it.
  abbrev pub AllReady : Dict Text → Dict FilePath → Type 0
  AllReady [] [] = Unit
  AllReady ((role, expected) ∷ roles) ((name, workspace) ∷ prepared) =
      (name ≡ role) × Ready role expected workspace × AllReady roles prepared
  AllReady _ _ = ⊥

  item-ok : (key : Text) (d : Dict Text) (v : Text) → item key d ≡ ok v → lookup key d ≡ some v
  unfolding item
  item-ok key d v h = elim (Option-cases (lookup key d)) [
    | inl e ↦ absurd (cc (rw (e, item) at h))
    | inr (x, e) ↦
        (let same : x ≡ v = ok_injective (rw (e, item) at h) in e ∙ ap (λ (t : Text). some t) same)
  ]

  prepare_role-Ready :
      (role expected : Text) (workspace : FilePath) (start now : List Event)
      → prepare_role host paths path_of spec role expected start ≡ done workspace now
      → Ready role expected workspace
  unfolding prepare_role ask
  prepare_role-Ready role expected workspace start now h =
      let (repository, t1, e1, h1) = >>=-done (lift (role_repository spec role)) _ start h in
      let (commit, t2, e2, h2) = >>=-done (lift (item role spec.commits)) _ t1 h1 in
      let (place, t3, e3, h3) =
        >>=-done (prepare_workspace host paths spec.job_id repository commit role) _ t2 h2 in
      let (_, t4, e4, h4) =
        >>=-done
          (lift (require (path_eq place (host.resolve t3 (path_of expected))) workspace_changed)) _
          t3 h3 in
      let (_, t5, e5, h5) =
        >>=-done
          (delete_files host paths path_of spec place (deletions (lookup role spec.overlays))) _ t4
          h4 in
      let (tested, _) =
        lift-done (require (path_eq place (host.resolve t3 (path_of expected))) workspace_changed)
          t3 e4 in
      let same : place ≡ workspace = (done_injective h5).0 in
      subst (Ready role expected) same (
        commit,
        item-ok role spec.commits commit ((lift-done (item role spec.commits) t1 e2).0),
        (t3, prepare_workspace-Fresh host paths spec.job_id repository commit role t2 t3 place e3),
        (t3, path_eq→eq place _ (require-ok _ workspace_changed tested)),
      )

  prepare_roles-AllReady :
      (roles : Dict Text) (prepared : Dict FilePath) (start now : List Event)
      → prepare_roles host paths path_of spec roles start ≡ done prepared now
      → AllReady roles prepared
  unfolding prepare_roles
  prepare_roles-AllReady [] prepared start now h = subst (AllReady []) ((done_injective h).0) tt
  prepare_roles-AllReady ((role, expected) ∷ roles) prepared start now h =
      let (workspace, t1, e1, h1) =
        >>=-done (prepare_role host paths path_of spec role expected) _ start h in
      let (more, t2, e2, h2) = >>=-done (prepare_roles host paths path_of spec roles) _ t1 h1 in
      subst (AllReady ((role, expected) ∷ roles)) ((done_injective h2).0) (
        refl,
        prepare_role-Ready role expected workspace start t1 e1,
        prepare_roles-AllReady roles more t1 t2 e2,
      )

  -- If all the workspaces were prepared, the spec has a commit for exactly its roles, and for each
  -- role, in the order of the names, there is a fresh worktree of that commit, at the place which
  -- the spec names.
  pub prepare_all_workspaces-AllReady :
      (prepared : Dict FilePath) (start now : List Event)
      → prepare_all_workspaces host paths path_of spec start ≡ done prepared now
      → AllReady (sorted_items spec.workspaces) prepared
        × (same_set (keys spec.commits) (keys spec.workspaces) ≡ true)
  unfolding prepare_all_workspaces
  prepare_all_workspaces-AllReady prepared start now h =
      let test : Bool = same_set (keys spec.commits) (keys spec.workspaces) in
      let (_, t1, e1, h1) = >>=-done (lift (require test commits_mismatch)) _ start h in
      let (tested, _) = lift-done (require test commits_mismatch) start e1 in
      (
        prepare_roles-AllReady (sorted_items spec.workspaces) prepared t1 now h1,
        require-ok test commits_mismatch tested,
      )
