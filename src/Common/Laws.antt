-- ===== src/Common/Laws.antt =====
-- What an identifier is, and what `ensure_below` lets through.
use remote_worktree_runner.Prelude.{
  ◌≤◌, ◌≡◌, ◌↔◌, refl, true, false, [], ◌∷◌, ◌++◌, arith, length, All, all_of-All, All-all_of, Text,
  text_eq→eq, text_eq_refl, ok,
}
use mathlib.Core.List.{append-nil}
use remote_worktree_runner.Common.{
  is_alnum, is_identifier_char, is_identifier, validate_identifier, FilePath, path_eq,
  is_relative_to, ensure_below,
}

-- An identifier, by its characters and its length.
abbrev pub IsIdentifier : Text → Type 0
IsIdentifier [] = ⊥
IsIdentifier (c ∷ s) =
    (is_alnum c ≡ true) × All (λ d. is_identifier_char d ≡ true) s × (length (c ∷ s) ≤ 63)

-- The pattern of the code accepts exactly the texts of one to 63 characters, all from a-z, 0-9 and
-- -, that do not begin with -.
pub is_identifier_iff : (s : Text) → (is_identifier s ≡ true) ↔ IsIdentifier s
unfolding is_identifier
is_identifier_iff [] = (λ h. cc, λ h. absurd h)
is_identifier_iff (c ∷ s) = (
  λ h. (ground arith, all_of-All is_identifier_char s (ground arith), ground arith),
  λ h. ground (arith, All-all_of is_identifier_char s h.1, h.0, h.2),
)

pub validate_identifier-eq-ok :
    (s t : Text) → validate_identifier s ≡ ok t → (is_identifier s ≡ true) × (t ≡ s)
unfolding validate_identifier
validate_identifier-eq-ok s t h = ground arith

pub path_eq→eq : (p q : FilePath) → path_eq p q ≡ true → p ≡ q
unfolding path_eq
path_eq→eq [] [] h = refl
path_eq→eq [] (d ∷ q) h = cc
path_eq→eq (c ∷ p) [] h = cc
path_eq→eq (c ∷ p) (d ∷ q) h = ground (arith, text_eq→eq c d, path_eq→eq p q)

path_eq_refl : (p : FilePath) → path_eq p p ≡ true
unfolding path_eq
path_eq_refl [] = refl
path_eq_refl (c ∷ p) = ground (arith, text_eq_refl c, path_eq_refl p)

pub is_relative_to-split :
    (p q : FilePath) → is_relative_to p q ≡ true → (rest : FilePath) × (p ≡ q ++ rest)
unfolding is_relative_to
is_relative_to-split p [] h = (p, refl)
is_relative_to-split [] (d ∷ q) h = absurd (cc)
is_relative_to-split (c ∷ p) (d ∷ q) h =
    let (rest, e) = is_relative_to-split p q (ground arith) in
    (rest, ground (arith, text_eq→eq c d, e))

is_relative_to-append : (q rest : FilePath) → is_relative_to (q ++ rest) q ≡ true
unfolding is_relative_to
is_relative_to-append [] rest = refl
is_relative_to-append (d ∷ q) rest = ground (arith, text_eq_refl d, is_relative_to-append q rest)

path_eq-append_cons : (q rest : FilePath) (d : Text) → path_eq (q ++ d ∷ rest) q ≡ false
unfolding path_eq
path_eq-append_cons [] rest d = refl
path_eq-append_cons (c ∷ q) rest d = ground (arith, path_eq-append_cons q rest d)

module _ (resolve : FilePath → FilePath) (root candidate : FilePath) where
  -- What comes back is the resolved candidate, and it lies strictly below the resolved root.
  pub ensure_below-below :
      (p : FilePath)
      → ensure_below resolve root candidate ≡ ok p
      → (p ≡ resolve candidate)
        × ((name : Text) × (rest : FilePath) × (p ≡ resolve root ++ name ∷ rest))
  unfolding ensure_below
  ensure_below-below p h =
      let (rest, e) = is_relative_to-split (resolve candidate) (resolve root) (ground arith) in
      (ground arith, strict rest e)
    where
      strict :
          (rest : FilePath)
          → resolve candidate ≡ resolve root ++ rest
          → (name : Text) × (rest' : FilePath) × (p ≡ resolve root ++ name ∷ rest')
      strict [] e = ground (arith, append-nil (resolve root), path_eq_refl (resolve root))
      strict (name ∷ rest) e = (name, rest, ground arith)

  -- Every candidate strictly below the root is let through.
  pub ensure_below_complete :
      (name : Text) (rest : FilePath)
      → resolve candidate ≡ resolve root ++ name ∷ rest
      → ensure_below resolve root candidate ≡ ok (resolve candidate)
  unfolding ensure_below
  ensure_below_complete name rest e = rw e (
      ground (
        arith,
        path_eq-append_cons (resolve root) rest name,
        is_relative_to-append (resolve root) (name ∷ rest),
      ))
