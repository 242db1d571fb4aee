-- ===== src/ServerWorkspace.antt =====
-- trie_remote/server_workspace.py: the bare mirrors, and the detached worktrees of the jobs.
pub mod Every
pub mod Prepared
pub mod Complete
pub mod Shallow
pub mod Tests
use remote_worktree_runner.Prelude.{
  ℕ, zero, suc, ◌+◌, ◌-◌, ◌*◌, ◌/◌, ◌%◌, ◌^◌, ◌≤◌, ◌<◌, ◌≡◌, refl, sym, ap, ◌∙◌, ◌≢◌, ◌↔◌, ◌⊎◌, inl,
  inr, Bool, true, false, not, ◌&&◌, ◌||◌, Option, none, some, List, [], ◌∷◌, ◌++◌, map, arith, ltb,
  leb, ◌==◌, if◌then◌else◌, ltb→lt, lt→ltb, leb→le, ==_iff, Bool-cases, Option-cases, length,
  all_of, any_of, take, drop, All, All-append, All-map, all_of-All, All-all_of, Text, codes,
  text_eq, text_eq_refl, text_eq→eq, text_eq_iff, text_eq_cases, one_of, text_ltb, starts_with,
  ends_with, has_char, partition, split, Result, ok, err, require, require-ok, >>=-eq-ok, Dict,
  lookup, insert, keys, values, lookup-insert, lookup-insert_self, lookup-insert_ne, ℤ, pos, negsuc,
  is_space, strip_left, strip_right, strip, remove_prefix, is_digit, digits_value, parse_int,
  digits, show_number, ok_injective, remove, lookup-remove, contains, lower,
}
use remote_worktree_runner.Errors.{
  Error, not_bare, bad_commit, commit_missing, commits_mismatch, workspace_changed, git_failed,
  mirror_not_ready, worktree_stays, key_missing,
}
use remote_worktree_runner.Common.{FilePath, validate_identifier, ensure_below, path_eq}
use remote_worktree_runner.ServerPaths.{ServerPaths, ◌//◌, path_text}
use remote_worktree_runner.JobStore.Spec.{JobSpec, OverlayManifest, is_subset}
use remote_worktree_runner.Overlay.{Files, apply_overlay_deletions}
use remote_worktree_runner.Effects.{Ended, done, raised, Step, ◌>>=◌, ◌>>◌, pure, lift}

-- A process that was run, a directory that was made, or the files that deletions left.
pub data Event : Type 0 where
  ran : List Text → Event
  made_directory : FilePath → Event
  deleted : FilePath → Files → Event

pub record Completed : Type 0 where
  pub returncode : ℤ
  pub stdout : Text
  pub stderr : Text

-- Git and the file system of the server, as they are after what has happened.
pub record Host : Type 0 where
  pub run : List Event → List Text → Completed
  pub exists : List Event → FilePath → Bool
  pub is_file : List Event → FilePath → Bool
  pub resolve : List Event → FilePath → FilePath
  pub files : List Event → Files

abbrev pub Work {ℓ} : Type ℓ → Type ℓ
Work A = Step Event A

abbrev pub succeeded : Completed → Bool
succeeded c = elim c.returncode [ pos n ↦ n == 0 | negsuc n ↦ false ]

-- COMMIT_PATTERN.fullmatch(commit)
abbrev pub is_commit_char : ℕ → Bool
is_commit_char c = is_digit c || (leb b'a' c && leb c b'f')

unfoldable pub is_commit : Text → Bool
is_commit commit =
    all_of is_commit_char commit && (leb 40 (length commit) && leb (length commit) 64)

abbrev pub git : Text → List Text → List Text
git mirror arguments = codes "git" ∷ codes "--git-dir" ∷ mirror ∷ arguments

abbrev pub get_command : Text → List Text
get_command mirror =
    git mirror
      (codes "config" ∷ codes "--type=bool" ∷ codes "--get" ∷ codes "receive.shallowUpdate" ∷ [])

abbrev pub set_command : Text → List Text
set_command mirror = git mirror (codes "config" ∷ codes "receive.shallowUpdate" ∷ codes "true" ∷ [])

abbrev pub add_command : Text → FilePath → Text → List Text
add_command mirror workspace commit =
    git mirror
      (codes "worktree" ∷ codes "add" ∷ codes "--detach" ∷ path_text workspace ∷ commit ∷ [])

abbrev pub remove_command : Text → FilePath → List Text
remove_command mirror workspace =
    git mirror (codes "worktree" ∷ codes "remove" ∷ codes "--force" ∷ path_text workspace ∷ [])

abbrev pub object_command : Text → Text → List Text
object_command mirror commit =
    git mirror (codes "cat-file" ∷ codes "-e" ∷ (commit ++ codes "^{commit}") ∷ [])

-- The configuration is read as true.
abbrev pub is_enabled : Completed → Bool
is_enabled current = succeeded current && text_eq (lower (strip current.stdout)) (codes "true")

module _ (host : Host) where
  -- _run(…, check=False)
  unfoldable pub run_unchecked : List Text → Work Completed
  run_unchecked argv happened = done (host.run happened argv) (ran argv ∷ happened)

  -- _run(…)
  unfoldable pub run_checked : List Text → Work Completed
  run_checked argv happened = elim (succeeded (host.run happened argv)) [
    | true ↦ done (host.run happened argv) (ran argv ∷ happened)
    | false ↦ raised git_failed (ran argv ∷ happened)
  ]

  -- What the file system answers now.
  unfoldable pub ask {ℓ} : {A : Type ℓ} → (List Event → A) → Work A
  ask question happened = done (question happened) happened

  -- Another attempt, if rounds are left.
  unfoldable pub next_round : ℕ → Work (Unit {0}) → Work (Unit {0})
  next_round zero again happened = raised mirror_not_ready happened
  next_round (suc rounds) again happened = again happened

  -- One attempt failed: another follows, if it was the configuration's lock.
  unfoldable pub retry : ℕ → Work (Unit {0}) → Text → Work (Unit {0})
  unfolding next_round
  retry rounds again detail happened =
      elim (contains (codes "could not lock config file") (lower detail)) [
        | false ↦ raised mirror_not_ready happened
        | true ↦ next_round rounds again happened
      ]

  unfoldable pub after_setting : ℕ → Work (Unit {0}) → Completed → Work (Unit {0})
  unfolding retry
  after_setting rounds again updated = elim (succeeded updated) [
    | true ↦ pure tt
    | false ↦ retry rounds again (strip updated.stderr)
  ]

  unfoldable pub after_reading : Text → ℕ → Work (Unit {0}) → Completed → Work (Unit {0})
  unfolding run_unchecked after_setting
  after_reading mirror rounds again current = elim (is_enabled current) [
    | true ↦ pure tt
    | false ↦ (run_unchecked (set_command mirror) >>= λ updated. after_setting rounds again updated)
  ]

  -- The `rounds` left of the loop, this one counted; the waits between them are left out.
  unfoldable pub enable_from : ℕ → Text → Work (Unit {0})
  unfolding run_unchecked after_reading
  enable_from zero mirror = lift (err mirror_not_ready)
  enable_from (suc rounds) mirror =
      run_unchecked (
        git mirror (
          codes "config"
          ∷ codes "--type=bool"
          ∷ codes "--get"
          ∷ codes "receive.shallowUpdate"
          ∷ []))
      >>= λ current. after_reading mirror rounds (enable_from rounds mirror) current

  -- _enable_shallow_updates
  unfoldable pub enable_shallow_updates : Text → Work (Unit {0})
  unfolding enable_from
  enable_shallow_updates mirror = enable_from 3 mirror

  module _ (paths : ServerPaths) where
    unfoldable pub below : FilePath → FilePath → Work FilePath
    below root candidate happened =
        lift (ensure_below (host.resolve happened) root candidate) happened

    unfoldable pub create_mirror : FilePath → Bool → Bool → Work (Unit {0})
    unfolding run_checked
    create_mirror mirror false head = do
      run_checked (codes "git" ∷ codes "init" ∷ codes "--bare" ∷ path_text mirror ∷ [])
      pure tt
    create_mirror mirror true head = lift (require head not_bare)

    unfoldable pub ensure_bare_repository : Text → Work FilePath
    unfolding below create_mirror ask enable_shallow_updates
    ensure_bare_repository repository = do
      name ← lift (validate_identifier repository)
      mirror ← below paths.repos (paths.repos // (name ++ codes ".git"))
      there ← ask (λ happened. host.exists happened mirror)
      head ← ask (λ happened. host.is_file happened (mirror // codes "HEAD"))
      create_mirror mirror there head
      enable_shallow_updates (path_text mirror)
      pure mirror

    -- A worktree that is in the way is removed.
    unfoldable pub clear_workspace : Text → FilePath → Bool → Work (Unit {0})
    unfolding run_unchecked ask
    clear_workspace mirror workspace false = pure tt
    clear_workspace mirror workspace true = do
      removal ← run_unchecked (remove_command mirror workspace)
      stays ← ask (λ happened. host.exists happened workspace)
      lift (require (succeeded removal && not stays) worktree_stays)

    unfoldable pub make_parent : FilePath → Work (Unit {0})
    make_parent workspace happened = done tt (made_directory workspace ∷ happened)

    -- The arguments: job, repository and role, and the form of the commit.
    unfoldable pub checked_names : Text → Text → Text → Text → Work (Text × Text × Text)
    unfolding is_commit
    checked_names job_id repository commit role = do
      job ← lift (validate_identifier job_id)
      safe_repository ← lift (validate_identifier repository)
      safe_role ← lift (validate_identifier role)
      lift (require (is_commit commit) bad_commit)
      pure (job, safe_repository, safe_role)

    -- The mirror, which has the commit.
    unfoldable pub mirror_with : Text → Text → Work FilePath
    unfolding ensure_bare_repository run_unchecked
    mirror_with repository commit = do
      mirror ← ensure_bare_repository repository
      object ← run_unchecked (object_command (path_text mirror) commit)
      lift (require (succeeded object) commit_missing)
      pure mirror

    -- The worktree, in place of what is there.
    unfoldable pub replace_worktree : Text → FilePath → Text → Work FilePath
    unfolding ask
    replace_worktree mirror workspace commit = do
      there ← ask (λ happened. host.exists happened workspace)
      clear_workspace mirror workspace there
      make_parent workspace
      run_checked (git mirror (codes "worktree" ∷ codes "prune" ∷ []))
      run_checked (add_command mirror workspace commit)
      pure workspace

    unfoldable pub prepare_workspace : Text → Text → Text → Text → Work FilePath
    prepare_workspace job_id repository commit role = do
      names ← checked_names job_id repository commit role
      mirror ← mirror_with names.1 commit
      workspace ← below paths.workspaces (paths.workspaces // names.1 // names.0 // names.2)
      replace_worktree (path_text mirror) workspace commit
