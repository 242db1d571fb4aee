-- ===== src/ServerWorkspace/Prepared.antt =====
-- A worktree that was prepared is a fresh one, of a commit that is there, below the workspaces.
use mathlib.Core.Path.{subst}
use remote_worktree_runner.Prelude.{
  ◌≡◌, refl, sym, ◌∙◌, inl, inr, Bool, true, false, not, ◌&&◌, List, [], ◌∷◌, ◌++◌, arith,
  Bool-cases, Text, codes, require, require-ok,
}
use remote_worktree_runner.Errors.{bad_commit, commit_missing, worktree_stays, git_failed}
use remote_worktree_runner.Common.{FilePath, validate_identifier, ensure_below}
use remote_worktree_runner.Common.Laws.{ensure_below-below}
use remote_worktree_runner.ServerPaths.{ServerPaths, ◌//◌, path_text}
use remote_worktree_runner.Effects.{done, raised, lift}
use remote_worktree_runner.Effects.Laws.{>>=-done, lift-done, done_injective}
use remote_worktree_runner.ServerWorkspace.{
  Event, ran, Completed, Host, succeeded, is_commit, git, run_unchecked, run_checked, ask,
  add_command, object_command, remove_command, checked_names, mirror_with, replace_worktree, below,
  ensure_bare_repository, clear_workspace, make_parent, prepare_workspace,
}

-- What is known of a worktree that was prepared.
pub record Fresh (host : Host) (paths : ServerPaths) (commit : Text) (workspace : FilePath)
    (now : List Event) : Type 0 where
  pub mirror : FilePath
  pub checked : List Event
  pub cleared : List Event
  pub before : List Event
  pub proper : is_commit commit ≡ true
  pub found : succeeded (host.run checked (object_command (path_text mirror) commit)) ≡ true
  pub inside :
      (moment : List Event) × (name : Text) × (rest : FilePath) × (workspace
        ≡ host.resolve moment paths.workspaces ++ name ∷ rest)
  pub gone : host.exists cleared workspace ≡ false
  pub added : succeeded (host.run before (add_command (path_text mirror) workspace commit)) ≡ true
  pub last : now ≡ ran (add_command (path_text mirror) workspace commit) ∷ before

second_false : (a b : Bool) → (a && not b) ≡ true → b ≡ false
second_false a b h = ground arith

module _ (host : Host) where
  run_checked-done :
      (argv : List Text) (start now : List Event) (c : Completed)
      → run_checked host argv start ≡ done c now
      → (succeeded (host.run start argv) ≡ true) × (now ≡ ran argv ∷ start)
  unfolding run_checked
  run_checked-done argv start now c h = elim (Bool-cases (succeeded (host.run start argv))) [
    | inl e ↦ (e, sym ((done_injective (rw (e, run_checked) at h)).1))
    | inr e ↦
        (let failed : raised git_failed (ran argv ∷ start) ≡ done c now =
            rw (e, run_checked) at h in
          absurd (cc (failed)))
  ]

  clear_workspace-gone :
      (paths : ServerPaths) (mirror : Text) (workspace : FilePath) (there : Bool)
      (start now : List Event)
      → host.exists start workspace ≡ there
      → clear_workspace host paths mirror workspace there start ≡ done tt now
      → host.exists now workspace ≡ false
  unfolding clear_workspace ask
  clear_workspace-gone paths mirror workspace false start now e h = rw (← (done_injective h).1) e
  clear_workspace-gone paths mirror workspace true start now e h =
      let t1 : List Event = ran (remove_command mirror workspace) ∷ start in
      let test : Bool =
        succeeded (host.run start (remove_command mirror workspace))
        && not (host.exists t1 workspace) in
      let (tested, same) = lift-done (require test worktree_stays) t1 h in
      let left : host.exists t1 workspace ≡ false =
        second_false (succeeded (host.run start (remove_command mirror workspace))) _
          (require-ok test worktree_stays tested) in
      rw same left

  below-inside :
      (paths : ServerPaths) (candidate workspace : FilePath) (start now : List Event)
      → below host paths paths.workspaces candidate start ≡ done workspace now
      → (moment : List Event) × (name : Text) × (rest : FilePath) × (workspace
          ≡ host.resolve moment paths.workspaces ++ name ∷ rest)
  unfolding below
  below-inside paths candidate workspace start now h =
      let (made, _) =
        lift-done (ensure_below (host.resolve start) paths.workspaces candidate) start h in
      let (_, (name, rest, e)) =
        ensure_below-below (host.resolve start) paths.workspaces candidate workspace made in
      (start, name, rest, e)

  checked_names-proper :
      (paths : ServerPaths) (job repository commit role : Text) (start now : List Event)
      (names : Text × Text × Text)
      → checked_names host paths job repository commit role start ≡ done names now
      → is_commit commit ≡ true
  unfolding checked_names
  checked_names-proper paths job repository commit role start now names h =
      let (j, t1, e1, h1) = >>=-done (lift (validate_identifier job)) _ start h in
      let (r, t2, e2, h2) = >>=-done (lift (validate_identifier repository)) _ t1 h1 in
      let (l, t3, e3, h3) = >>=-done (lift (validate_identifier role)) _ t2 h2 in
      let (_, t4, e4, h4) = >>=-done (lift (require (is_commit commit) bad_commit)) _ t3 h3 in
      require-ok _ bad_commit ((lift-done (require (is_commit commit) bad_commit) t3 e4).0)

  mirror_with-found :
      (paths : ServerPaths) (repository commit : Text) (start now : List Event) (mirror : FilePath)
      → mirror_with host paths repository commit start ≡ done mirror now
      → (checked : List Event) × (succeeded
            (host.run checked (object_command (path_text mirror) commit))
          ≡ true)
  unfolding mirror_with run_unchecked
  mirror_with-found paths repository commit start now mirror h =
      let (m, t1, e1, h1) = >>=-done (ensure_bare_repository host paths repository) _ start h in
      let object : Completed = host.run t1 (object_command (path_text m) commit) in
      let t2 : List Event = ran (object_command (path_text m) commit) ∷ t1 in
      let (_, t3, e3, h3) = >>=-done (lift (require (succeeded object) commit_missing)) _ t2 h1 in
      let (tested, _) = lift-done (require (succeeded object) commit_missing) t2 e3 in
      let same : m ≡ mirror = (done_injective h3).0 in
      let found : succeeded (host.run t1 (object_command (path_text m) commit)) ≡ true =
        require-ok (succeeded object) commit_missing tested in
      (
        t1,
        subst (λ p. succeeded (host.run t1 (object_command (path_text p) commit)) ≡ true) same
            found,
      )

  -- What is known when a worktree was put in place.
  Replaced : Text → FilePath → Text → FilePath → List Event → Type 0
  Replaced mirror workspace commit place now =
      (workspace ≡ place)
      × ((cleared : List Event) × (host.exists cleared workspace ≡ false))
      × ((before : List Event) × (succeeded (host.run before (add_command mirror workspace commit))
            ≡ true)
          × (now ≡ ran (add_command mirror workspace commit) ∷ before))

  replace_worktree-Replaced :
      (paths : ServerPaths) (mirror : Text) (workspace : FilePath) (commit : Text)
      (start now : List Event) (place : FilePath)
      → replace_worktree host paths mirror workspace commit start ≡ done place now
      → Replaced mirror workspace commit place now
  unfolding replace_worktree ask Replaced
  replace_worktree-Replaced paths mirror workspace commit start now place h =
      let (_, t1, e1, h1) =
        >>=-done (clear_workspace host paths mirror workspace (host.exists start workspace)) _ start
          h in
      let (_, t2, e2, h2) = >>=-done (make_parent host paths workspace) _ t1 h1 in
      let (_, t3, e3, h3) =
        >>=-done (run_checked host (git mirror (codes "worktree" ∷ codes "prune" ∷ []))) _ t2 h2 in
      let (c, t4, e4, h4) =
        >>=-done (run_checked host (add_command mirror workspace commit)) _ t3 h3 in
      let (added, last) = run_checked-done (add_command mirror workspace commit) t3 t4 c e4 in
      let (same, end) = done_injective h4 in
      (
        same,
        (t1, clear_workspace-gone paths mirror workspace _ start t1 refl e1),
        (t3, added, sym end ∙ last),
      )

-- Whatever Git and the file system answer: a call that returns has checked the commit's form and
-- that the mirror has it, returns a place strictly below the workspaces, where at some moment
-- nothing stood, and its last command, which succeeded, added a worktree of that commit there.
pub prepare_workspace-Fresh :
    (host : Host) (paths : ServerPaths) (job repository commit role : Text) (start now : List Event)
    (workspace : FilePath)
    → prepare_workspace host paths job repository commit role start ≡ done workspace now
    → Fresh host paths commit workspace now
unfolding prepare_workspace Replaced
prepare_workspace-Fresh host paths job repository commit role start now workspace h =
    let (names, t1, e1, h1) =
      >>=-done (checked_names host paths job repository commit role) _ start h in
    let (mirror, t2, e2, h2) = >>=-done (mirror_with host paths names.1 commit) _ t1 h1 in
    let (place, t3, e3, h3) =
      >>=-done
        (below host paths paths.workspaces (paths.workspaces // names.1 // names.0 // names.2)) _ t2
        h2 in
    let (checked, found) = mirror_with-found host paths names.1 commit t1 t2 mirror e2 in
    let (same, (cleared, gone), (before, added, last)) =
      replace_worktree-Replaced host paths (path_text mirror) place commit t3 now workspace h3 in
    subst (λ p. Fresh host paths commit p now) same
      (record {
        mirror = mirror;
        checked = checked;
        cleared = cleared;
        before = before;
        proper = checked_names-proper host paths job repository commit role start t1 names e1;
        found = found;
        inside = below-inside host paths _ place t2 t3 e3;
        gone = gone;
        added = added;
        last = last;
      })
