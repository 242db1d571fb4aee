-- ===== src/Preview/Routes/Lines.antt =====
-- The metadata of a route file stand on one line: JSON text has no line end in it.
use remote_worktree_runner.Prelude.{
  ℕ, zero, suc, ◌/◌, ◌≡◌, refl, ◌≢◌, inl, inr, ◌&&◌, Option, none, some, [], ◌∷◌, ◌++◌, arith, ltb,
  leb, Bool-cases, All, All-append, Text, partition, Dict, pos, negsuc, digits, show_number,
}
use remote_worktree_runner.Preview.Routes.{
  Scalar, text, number, other, hex_digit, unicode_escape, short_escape, escape_from, wide_escape,
  escape_char, escape, quoted, dump_scalar, dump_members, dumps,
}
use remote_worktree_runner.Preview.Slots.{sorted_items}

abbrev pub NoLineEnd : Text → Type 0
NoLineEnd = All (λ c. c ≢ 10)

append_NoLineEnd : (s t : Text) → NoLineEnd s → NoLineEnd t → NoLineEnd (s ++ t)
append_NoLineEnd = All-append (λ c. c ≢ 10)

pub partition-append :
    (s rest : Text) → NoLineEnd s → partition 10 (s ++ 10 ∷ rest) ≡ (s, some rest)
unfolding partition
partition-append [] rest h = refl
partition-append (c ∷ s) rest (p, h) = ground (arith, partition-append s rest h)

hex_digit-ne : (n : ℕ) → hex_digit n ≢ 10
unfolding hex_digit
hex_digit-ne n e = ground arith

unicode_escape-NoLineEnd : (n : ℕ) → NoLineEnd (unicode_escape n)
unfolding unicode_escape
unicode_escape-NoLineEnd n = (
  λ p. omega arith,
  (λ p. omega arith, (hex_digit-ne _, (hex_digit-ne _, (hex_digit-ne _, (hex_digit-ne _, tt))))),
)

wide_escape-NoLineEnd : (c : ℕ) → NoLineEnd (wide_escape c)
unfolding wide_escape
wide_escape-NoLineEnd c = elim (Bool-cases (ltb c 65536)) [
  | inl e ↦ rw e (unicode_escape-NoLineEnd c)
  | inr e ↦ rw e (
      append_NoLineEnd (unicode_escape _) (unicode_escape _) (unicode_escape-NoLineEnd _)
        (unicode_escape-NoLineEnd _))
]

escape_from-NoLineEnd : (c : ℕ) (o : Option ℕ) → short_escape c ≡ o → NoLineEnd (escape_from c o)
unfolding escape_from short_escape
escape_from-NoLineEnd c (some d) h = (λ p. omega arith, ground arith)
escape_from-NoLineEnd c none h = elim (Bool-cases (leb 32 c && leb c 126)) [
  | inl e ↦ rw e (λ p. ground arith, tt)
  | inr e ↦ rw e (wide_escape-NoLineEnd c)
]

escape_char-NoLineEnd : (c : ℕ) → NoLineEnd (escape_char c)
unfolding escape_char
escape_char-NoLineEnd c = escape_from-NoLineEnd c (short_escape c) refl

escape-NoLineEnd : (s : Text) → NoLineEnd (escape s)
unfolding escape
escape-NoLineEnd [] = tt
escape-NoLineEnd (c ∷ s) =
    append_NoLineEnd (escape_char c) (escape s) (escape_char-NoLineEnd c) (escape-NoLineEnd s)

digits-NoLineEnd : (f n : ℕ) (rest : Text) → NoLineEnd rest → NoLineEnd (digits f n rest)
unfolding digits
digits-NoLineEnd zero n rest h = h
digits-NoLineEnd (suc f) n rest h = elim (Bool-cases (ltb n 10)) [
  | inl e ↦ rw e (λ p. omega arith, h)
  | inr e ↦ rw e (digits-NoLineEnd f (n / 10) _ (λ p. omega arith, h))
]

quoted-NoLineEnd : (s : Text) → NoLineEnd (quoted s)
quoted-NoLineEnd s =
    (λ p. omega arith, append_NoLineEnd (escape s) _ (escape-NoLineEnd s) (λ p. omega arith, tt))

dump_scalar-NoLineEnd : (v : Scalar) → NoLineEnd (dump_scalar v)
unfolding dump_scalar show_number
dump_scalar-NoLineEnd (text t) = quoted-NoLineEnd t
dump_scalar-NoLineEnd (number (pos n)) = digits-NoLineEnd (suc n) n [] tt
dump_scalar-NoLineEnd (number (negsuc n)) =
    (λ p. omega arith, digits-NoLineEnd (suc (suc n)) (suc n) [] tt)
dump_scalar-NoLineEnd other =
    (λ p. omega arith, (λ p. omega arith, (λ p. omega arith, (λ p. omega arith, tt))))

dump_members-NoLineEnd : (d : Dict Scalar) → NoLineEnd (dump_members d)
unfolding dump_members
dump_members-NoLineEnd [] = tt
dump_members-NoLineEnd ((k, v) ∷ []) =
    append_NoLineEnd (quoted k) (b':' ∷ dump_scalar v) (quoted-NoLineEnd k)
      (λ p. omega arith, dump_scalar-NoLineEnd v)
dump_members-NoLineEnd ((k, v) ∷ m ∷ ms) = append_NoLineEnd (quoted k) _ (quoted-NoLineEnd k) (
  λ p. omega arith,
  append_NoLineEnd (dump_scalar v) _ (dump_scalar-NoLineEnd v)
      (λ p. omega arith, dump_members-NoLineEnd (m ∷ ms)),
)

pub dumps-NoLineEnd : (d : Dict Scalar) → NoLineEnd (dumps d)
unfolding dumps
dumps-NoLineEnd d = (
  λ p. omega arith,
  append_NoLineEnd (dump_members (sorted_items d)) _ (dump_members-NoLineEnd (sorted_items d))
      (λ p. omega arith, tt),
)
