-- ===== src/Overlay/Safety.antt =====
-- What `discover_overlay` puts into an overlay.
use remote_worktree_runner.Prelude.{
  ◌≡◌, inl, inr, Bool, true, false, Option, none, some, List, [], ◌∷◌, arith, if◌then◌else◌,
  Bool-cases, All, Text, codes, text_eq, text_ltb, starts_with, partition, ok, >>=-eq-ok,
}
use remote_worktree_runner.JobStore.Spec.{OverlayManifest}
use remote_worktree_runner.Overlay.{
  exclude_patterns, is_overlay_path, validate_overlay_path, is_excluded, add, Tree, add_unless,
  transfer_path, delete_path, Expect, status_field, first_path, second_path, enter_one, enter_two,
  begin_entry, take_first, take_status, take_field, scan, scan_untracked, discover_overlay,
  no_overlay, check_submodule, pop_empty, has_two_paths,
}

module _ (tree : Tree) where
  -- A path that is safe and not excluded.
  abbrev pub IsProper : Text → Type 0
  IsProper path =
      (is_overlay_path path ≡ true)
      × (is_excluded tree.fnmatch (exclude_patterns tree.exclude_file) path ≡ false)

  abbrev pub AreProper : OverlayManifest → Type 0
  AreProper m = All IsProper m.transfer × All IsProper m.delete

  add-All :
      (path : Text) (paths : List Text)
      → IsProper path
      → All IsProper paths
      → All IsProper (add path paths)
  unfolding add
  add-All path [] p h = (p, tt)
  add-All path (q ∷ qs) p (k, h) =
      let rest = add-All path qs p h in
      elim (Bool-cases (text_eq path q)) [
        | inl e ↦ rw e (k, h)
        | inr e ↦ elim (Bool-cases (text_ltb path q)) [
          | inl f ↦ rw (e, f) (p, (k, h))
          | inr f ↦ rw (e, f) (k, rest)
        ]
      ]

  add_unless-All :
      (path : Text) (paths : List Text)
      → is_overlay_path path ≡ true
      → All IsProper paths
      → All IsProper (add_unless tree path paths)
  unfolding add_unless
  add_unless-All path paths p h =
      elim (Bool-cases (is_excluded tree.fnmatch (exclude_patterns tree.exclude_file) path)) [
        | inl e ↦ rw e h
        | inr e ↦ rw e (add-All path paths (p, e) h)
      ]

  -- What the loop has read and not entered is safe.
  abbrev IsPending : Expect → Type 0
  IsPending status_field = Unit
  IsPending (first_path status) = Unit
  IsPending (second_path status first) = is_overlay_path first ≡ true

  validate_overlay_path-ok :
      (value path : Text)
      → validate_overlay_path value ≡ ok path
      → (is_overlay_path path ≡ true) × (path ≡ value)
  unfolding validate_overlay_path
  validate_overlay_path-ok value path h = ground arith

  transfer_path-AreProper :
      (path : Text) (m : OverlayManifest)
      → is_overlay_path path ≡ true
      → AreProper m
      → AreProper (transfer_path tree path m)
  unfolding transfer_path
  transfer_path-AreProper path m p (h, k) = (add_unless-All path m.transfer p h, k)

  delete_path-AreProper :
      (path : Text) (m : OverlayManifest)
      → is_overlay_path path ≡ true
      → AreProper m
      → AreProper (delete_path tree path m)
  unfolding delete_path
  delete_path-AreProper path m p (h, k) = (h, add_unless-All path m.delete p k)

  chosen :
      (b : Bool) (m n : OverlayManifest)
      → AreProper m
      → AreProper n
      → AreProper (if b then m else n)
  chosen true m n h k = h
  chosen false m n h k = k

  enter_one-AreProper :
      (status path : Text) (m n : OverlayManifest)
      → is_overlay_path path ≡ true
      → AreProper m
      → enter_one tree status path m ≡ ok n
      → AreProper n
  unfolding enter_one
  enter_one-AreProper status path m n p h e =
      let (u, _, made) = >>=-eq-ok (check_submodule tree path) _ e in
      let same : (if starts_with status (codes "D")
            then delete_path tree path m
            else transfer_path tree path m)
          ≡ n =
        cc in
      rw (← same) (
        chosen (starts_with status (codes "D")) _ _ (delete_path-AreProper path m p h)
          (transfer_path-AreProper path m p h))

  enter_two-AreProper :
      (status first second : Text) (m n : OverlayManifest)
      → is_overlay_path first ≡ true
      → is_overlay_path second ≡ true
      → AreProper m
      → enter_two tree status first second m ≡ ok n
      → AreProper n
  unfolding enter_two
  enter_two-AreProper status first second m n p q h e =
      let (u, _, e₁) = >>=-eq-ok (check_submodule tree first) _ e in
      let (v, _, made) = >>=-eq-ok (check_submodule tree second) _ e₁ in
      let deleted = if starts_with status (codes "R") then delete_path tree first m else m in
      let same : transfer_path tree second deleted ≡ n = cc in
      rw (← same) (
        transfer_path-AreProper second deleted q
          (chosen (starts_with status (codes "R")) _ _ (delete_path-AreProper first m p h) h))

  abbrev Taken : Expect × OverlayManifest → Type 0
  Taken (expect, m) = IsPending expect × AreProper m

  begin_entry-Taken :
      (status first : Text) (m : OverlayManifest) (t : Expect × OverlayManifest)
      → is_overlay_path first ≡ true
      → AreProper m
      → begin_entry tree status first m ≡ ok t
      → Taken t
  unfolding begin_entry
  begin_entry-Taken status first m t p h e = elim (Bool-cases (has_two_paths status)) [
    | inl two ↦
        let same : (second_path status first, m) ≡ t = let e' = rw two at e in cc in
        rw (← same) (p, h)
    | inr one ↦
        let (n, made, e') = >>=-eq-ok (enter_one tree status first m) _ (rw one at e) in
        let same : (status_field, n) ≡ t = cc in
        rw (← same) (tt, enter_one-AreProper status first m n p h made)
  ]

  take_first-Taken :
      (status value : Text) (m : OverlayManifest) (t : Expect × OverlayManifest)
      → AreProper m
      → take_first tree status value m ≡ ok t
      → Taken t
  unfolding take_first
  take_first-Taken status value m t h e =
      let (first, valid, e') = >>=-eq-ok (validate_overlay_path value) _ e in
      begin_entry-Taken status first m t (validate_overlay_path-ok value first valid).0 h e'

  take_status-Taken :
      (f : Text × Option Text) (m : OverlayManifest) (t : Expect × OverlayManifest)
      → AreProper m
      → take_status tree f m ≡ ok t
      → Taken t
  unfolding take_status
  take_status-Taken (status, none) m t h e =
      let same : (first_path status, m) ≡ t = cc in rw (← same) (tt, h)
  take_status-Taken (status, some first) m t h e = take_first-Taken status first m t h e

  take_field-Taken :
      (expect : Expect) (field : Text) (m : OverlayManifest) (t : Expect × OverlayManifest)
      → IsPending expect
      → AreProper m
      → take_field tree expect field m ≡ ok t
      → Taken t
  unfolding take_field
  take_field-Taken status_field field m t p h e = take_status-Taken (partition 9 field) m t h e
  take_field-Taken (first_path status) field m t p h e = take_first-Taken status field m t h e
  take_field-Taken (second_path status first) field m t p h e =
      let (second, valid, e₁) = >>=-eq-ok (validate_overlay_path field) _ e in
      let (n, made, e₂) = >>=-eq-ok (enter_two tree status first second m) _ e₁ in
      let same : (status_field, n) ≡ t = cc in
      rw (← same) (
        tt,
        enter_two-AreProper status first second m n p
            (validate_overlay_path-ok field second valid).0 h made,
      )

  scan-AreProper :
      (fields : List Text) (t : Expect × OverlayManifest) (n : OverlayManifest)
      → Taken t
      → scan tree fields t ≡ ok n
      → AreProper n
  unfolding scan
  scan-AreProper [] (status_field, m) n (p, h) e = let same : m ≡ n = cc in rw (← same) h
  scan-AreProper [] (first_path status, m) n (p, h) e = absurd (cc)
  scan-AreProper [] (second_path status first, m) n (p, h) e = absurd (cc)
  scan-AreProper (field ∷ fields) (expect, m) n (p, h) e =
      let (t, taken, e') = >>=-eq-ok (take_field tree expect field m) _ e in
      scan-AreProper fields t n (take_field-Taken expect field m t p h taken) e'

  scan_untracked-AreProper :
      (raw : List Text) (m n : OverlayManifest)
      → AreProper m
      → scan_untracked tree raw m ≡ ok n
      → AreProper n
  unfolding scan_untracked
  scan_untracked-AreProper [] m n h e = let same : m ≡ n = cc in rw (← same) h
  scan_untracked-AreProper ([] ∷ raw) m n h e = scan_untracked-AreProper raw m n h e
  scan_untracked-AreProper ((c ∷ path) ∷ raw) m n h e =
      let (safe, valid, e') = >>=-eq-ok (validate_overlay_path (c ∷ path)) _ e in
      scan_untracked-AreProper raw _ n
        (transfer_path-AreProper safe m (validate_overlay_path-ok _ safe valid).0 h) e'

  -- Whatever git prints: every path of an overlay that is found, transferred or deleted, passes
  -- `validate_overlay_path` and is not excluded by any pattern.
  pub discover_overlay-AreProper :
      (fields untracked : List Text) (m : OverlayManifest)
      → discover_overlay tree fields untracked ≡ ok m
      → AreProper m
  unfolding discover_overlay
  discover_overlay-AreProper fields untracked m e =
      let (n, scanned, e') =
        >>=-eq-ok (scan tree (pop_empty fields) (status_field, no_overlay)) _ e in
      scan_untracked-AreProper untracked n m
        (scan-AreProper (pop_empty fields) _ n (tt, (tt, tt)) scanned) e'
