-- ===== src/Overlay/Deletion.antt =====
-- Which files the deletions of an overlay can reach.
use remote_worktree_runner.Overlay.{
  is_overlay_path, Files, Entry, plain, special, missing, unlink_file, delete_at, delete_in,
  delete_one, apply_overlay_deletions,
}
use remote_worktree_runner.Errors.{Error}
use remote_worktree_runner.Prelude.{
  ◌≡◌, refl, sym, ap, ◌∙◌, ◌⊎◌, inl, inr, false, not, ◌&&◌, List, [], ◌∷◌, ◌++◌, arith, Bool-cases,
  Text, Result, ok, err,
}
use remote_worktree_runner.Common.{FilePath, path_eq, is_relative_to}
use remote_worktree_runner.Common.Laws.{path_eq→eq, is_relative_to-split}
use mathlib.Core.List.{append_assoc}

-- The place lies strictly below the root.
abbrev pub Below : FilePath → FilePath → Type 0
Below root q = (name : Text) × (rest : FilePath) × (q ≡ root ++ name ∷ rest)

-- Nothing changes at `q`, or a file below the root is gone.
abbrev pub Spared : FilePath → FilePath → Files → Files → Type 0
Spared root q old new = (new q ≡ old q) ⊎ (Below root q × (old q ≡ plain) × (new q ≡ missing))

delete_at-Spared :
    (place q : FilePath) (files : Files) (entry : Entry)
    → files place ≡ entry
    → ((delete_at place files entry).1 q ≡ files q)
      ⊎ ((q ≡ place) × (files q ≡ plain) × ((delete_at place files entry).1 q ≡ missing))
unfolding delete_at unlink_file
delete_at-Spared place q files special e = inl refl
delete_at-Spared place q files missing e = inl refl
delete_at-Spared place q files plain e = elim (Bool-cases (path_eq place q)) [
  | inl h ↦ let same = path_eq→eq place q h in inr (sym same, rw (← same) e, rw h refl)
  | inr h ↦ inl (rw h refl)
]

-- A name in the root, or in a directory below it, lies below the root.
Below-append : (root rest : FilePath) (name : Text) → Below root ((root ++ rest) ++ name ∷ [])
Below-append root [] name = (name, [], append_assoc root [] (name ∷ []))
Below-append root (d ∷ rest) name = (d, rest ++ name ∷ [], append_assoc root (d ∷ rest) (name ∷ []))

Below-parent :
    (root parent : FilePath) (name : Text)
    → not (path_eq parent root) && not (is_relative_to parent root) ≡ false
    → Below root (parent ++ name ∷ [])
Below-parent root parent name h = elim (Bool-cases (path_eq parent root)) [
  | inl e ↦ (name, [], ap (λ p. p ++ name ∷ []) (path_eq→eq parent root e))
  | inr e ↦
      let (rest, same) = is_relative_to-split parent root (ground arith) in
      rw same (Below-append root rest name)
]

delete_in-Spared :
    (root parent : FilePath) (name : Text) (files : Files) (q : FilePath)
    → Spared root q files (delete_in root parent name files).1
unfolding delete_in
delete_in-Spared root parent name files q =
    let place = parent ++ name ∷ [] in
    elim (Bool-cases (not (path_eq parent root) && not (is_relative_to parent root))) [
      | inl c ↦ rw c (inl refl)
      | inr c ↦ rw c (elim (delete_at-Spared place q files (files place) refl) [
        | inl same ↦ inl same
        | inr (here, was, gone) ↦ inr (rw here (Below-parent root parent name c), was, gone)
      ])
    ]

delete_one-Spared :
    (resolve : FilePath → FilePath) (root : FilePath) (value : Text) (files : Files) (q : FilePath)
    → Spared root q files (delete_one resolve root value files).1
unfolding delete_one
delete_one-Spared resolve root value files q = elim (Bool-cases (is_overlay_path value)) [
  | inl e ↦ rw e (delete_in-Spared root _ _ files q)
  | inr e ↦ rw e (inl refl)
]

Spared-trans :
    (root q : FilePath) (a b c : Files) → Spared root q a b → Spared root q b c → Spared root q a c
Spared-trans root q a b c (inl e) (inl f) = inl (f ∙ e)
Spared-trans root q a b c (inl e) (inr (below, was, gone)) = inr (below, sym e ∙ was, gone)
Spared-trans root q a b c (inr (below, was, gone)) (inl f) = inr (below, was, f ∙ gone)
Spared-trans root q a b c (inr (below, was, gone)) (inr (_, _, gone')) = inr (below, was, gone')

-- Whatever paths are given, and however symbolic links are resolved: applying the deletions, also
-- up to an error, changes a place only by removing a regular file or a symbolic link there, and
-- only strictly below the resolved workspace.
pub apply_overlay_deletions-Spared :
    (resolve : FilePath → FilePath) (root : FilePath) (paths : List Text) (files : Files)
    (q : FilePath)
    → Spared root q files (apply_overlay_deletions resolve root paths files).1
unfolding apply_overlay_deletions
apply_overlay_deletions-Spared resolve root [] files q = inl refl
apply_overlay_deletions-Spared resolve root (value ∷ paths) files q =
    by_turn (delete_one resolve root value files) (delete_one-Spared resolve root value files q)
      (λ f. apply_overlay_deletions-Spared resolve root paths f q)
  where
    by_turn :
        (o : Result Error (Unit {0}) × Files)
        → Spared root q files o.1
        → ((f : Files) → Spared root q f (apply_overlay_deletions resolve root paths f).1)
        → Spared root q files
            (elim o.0 as (λ _. Result Error (Unit {0}) × Files) [
              | err e ↦ (err e, o.1)
              | ok _ ↦ apply_overlay_deletions resolve root paths o.1
            ]).1
    by_turn (err e, f) s rest = s
    by_turn (ok u, f) s rest =
        Spared-trans root q files f (apply_overlay_deletions resolve root paths f).1 s (rest f)
