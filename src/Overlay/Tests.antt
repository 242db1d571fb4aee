-- ===== src/Overlay/Tests.antt =====
-- A worktree with a rename, a change and an untracked file.
use remote_worktree_runner.Prelude.{
  ◌≡◌, refl, List, [], ◌∷◌, Text, codes, text_eq, one_of, text_ltb, starts_with, ends_with,
  partition, split, ok,
}
use remote_worktree_runner.Common.{FilePath}
use remote_worktree_runner.JobStore.Spec.{OverlayManifest}
use remote_worktree_runner.Overlay.{
  scan, pop_empty, take_field, take_status, take_first, validate_overlay_path, is_overlay_path,
  has_bad_character, is_relative_name, begin_entry, enter_two, add, add_unless, check_submodule,
  delete_path, enter_one, is_excluded, matches, scan_untracked, strip_slashes, transfer_path,
  exclude_patterns, pattern_of, is_submodule, Tree, discover_overlay, Files, plain,
  apply_overlay_deletions,
}
use remote_worktree_runner.Overlay.Safety.{AreProper, discover_overlay-AreProper}
use remote_worktree_runner.Overlay.Deletion.{Spared, apply_overlay_deletions-Spared}

abbrev tree : Tree
tree = record {
  fnmatch = text_eq;
  exclude_file = codes "- cache/" ∷ codes "+ cache/keep" ∷ [];
  stage = λ path. codes "100644 ";
}

abbrev fields : List Text
fields = codes "R100" ∷ codes "old.py" ∷ codes "src/new.py" ∷ codes "M" ∷ codes "a.py" ∷ [] ∷ []

abbrev untracked : List Text
untracked = codes "cache/x" ∷ codes "b.py" ∷ [] ∷ []

abbrev overlay : OverlayManifest
overlay = record {
  transfer = codes "a.py" ∷ codes "b.py" ∷ codes "src/new.py" ∷ [];
  delete = codes "old.py" ∷ [];
}

found : discover_overlay tree fields untracked ≡ ok overlay
unfolding discover_overlay scan pop_empty take_field take_status partition take_first
    validate_overlay_path is_overlay_path has_bad_character starts_with split is_relative_name
    one_of text_eq begin_entry enter_two add add_unless check_submodule delete_path enter_one
    is_excluded matches scan_untracked strip_slashes transfer_path ends_with text_ltb
    exclude_patterns pattern_of is_submodule
found = refl

discover_overlay-AreProper_example : AreProper tree overlay
discover_overlay-AreProper_example = discover_overlay-AreProper tree fields untracked overlay found

abbrev root : FilePath
root = codes "w" ∷ []

abbrev files : Files
files = λ q. plain

apply_overlay_deletions-Spared_example :
    Spared root
      (codes "w" ∷ codes "old.py" ∷ [])
      files
      (apply_overlay_deletions (λ p. p) root (codes "old.py" ∷ []) files).1
apply_overlay_deletions-Spared_example =
    apply_overlay_deletions-Spared (λ p. p) root (codes "old.py" ∷ []) files
      (codes "w" ∷ codes "old.py" ∷ [])
