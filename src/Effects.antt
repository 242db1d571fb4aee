-- ===== src/Effects.antt =====
-- Steps that ask the world outside. A step sees what has happened before, the newest event first,
-- and returns or raises, with what has happened by then.
pub mod Laws
pub mod Emits
pub mod Extends
use remote_worktree_runner.Prelude.{
  ℕ, zero, suc, ◌+◌, ◌-◌, ◌*◌, ◌/◌, ◌%◌, ◌^◌, ◌≤◌, ◌<◌, ◌≡◌, refl, sym, ap, ◌∙◌, ◌≢◌, ◌↔◌, ◌⊎◌, inl,
  inr, Bool, true, false, not, ◌&&◌, ◌||◌, Option, none, some, List, [], ◌∷◌, ◌++◌, map, arith, ltb,
  leb, ◌==◌, if◌then◌else◌, ltb→lt, lt→ltb, leb→le, ==_iff, Bool-cases, Option-cases, length,
  all_of, any_of, take, drop, All, All-append, All-map, all_of-All, All-all_of, Text, codes,
  text_eq, text_eq_refl, text_eq→eq, text_eq_iff, text_eq_cases, one_of, text_ltb, starts_with,
  ends_with, has_char, partition, split, Result, ok, err, require, require-ok, >>=-eq-ok, Dict,
  lookup, insert, keys, values, lookup-insert, lookup-insert_self, lookup-insert_ne, ℤ, pos, negsuc,
  is_space, strip_left, strip_right, strip, remove_prefix, is_digit, digits_value, parse_int,
  digits, show_number, ok_injective, remove, lookup-remove,
}
use remote_worktree_runner.Errors.{Error}

pub data Ended {ℓ κ} (E : Type ℓ) (A : Type κ) : Type (ℓ ⊔ κ) where
  done : A → List E → Ended E A
  raised : Error → List E → Ended E A

abbrev pub Step {ℓ κ} : Type ℓ → Type κ → Type (ℓ ⊔ κ)
Step E A = List E → Ended E A

module _ {ℓ κ μ} {E : Type ℓ} {A : Type κ} {B : Type μ} where
  infixl 5 ◌>>=◌ ◌>>◌
  abbrev pub ◌>>=◌ : Step E A → (A → Step E B) → Step E B
  ◌>>=◌ step continue happened = elim (step happened) [
    | done a now ↦ continue a now
    | raised e now ↦ raised e now
  ]

  abbrev pub ◌>>◌ : Step E A → Step E B → Step E B
  step >> more = step >>= λ _. more

module _ {ℓ κ} {E : Type ℓ} {A : Type κ} where
  abbrev pub pure : A → Step E A
  pure a happened = done a happened

  -- A check that asks nothing.
  abbrev pub lift : Result Error A → Step E A
  lift (ok a) happened = done a happened
  lift (err e) happened = raised e happened
