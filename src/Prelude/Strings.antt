-- ===== src/Prelude/Strings.antt =====
-- Python's `str` as the list of its code points, with the methods that the program calls.
use Prim.Native.Char.{code}
use Prim.Native.Nat.{ℕ, ◌+◌, ◌-◌}
use Prim.Native.String.{String}
use mathlib.Core.Path.{◌≡◌, refl}
use mathlib.Core.Logic.{◌↔◌, ◌⊎◌, inl, inr, ◌≢◌}
use mathlib.Core.Bool.{Bool, true, false, ◌&&◌, ◌||◌}
use mathlib.Core.Option.{Option, none, some}
use mathlib.Core.List.{List, [], ◌∷◌, ◌++◌}
use native.Mathlib.Omega.{arith}
use remote_worktree_runner.Prelude.Tests.{◌==◌, ltb, leb, if◌then◌else◌, Bool-cases}
use remote_worktree_runner.Prelude.Lists.{any_of, drop, length, take}

abbrev pub Text : Type 0
Text = List ℕ

abbrev pub codes : String → Text
codes String.[] = []
codes (String.◌∷◌ c s) = code c ∷ codes s

-- a == b
unfoldable pub text_eq : Text → Text → Bool
text_eq [] [] = true
text_eq [] (c ∷ t) = false
text_eq (c ∷ s) [] = false
text_eq (c ∷ s) (d ∷ t) = c == d && text_eq s t

pub text_eq_refl : (s : Text) → text_eq s s ≡ true
unfolding text_eq
text_eq_refl [] = refl
text_eq_refl (c ∷ s) = ground (arith, text_eq_refl s)

pub text_eq→eq : (s t : Text) → text_eq s t ≡ true → s ≡ t
unfolding text_eq
text_eq→eq [] [] h = refl
text_eq→eq [] (c ∷ t) h = cc
text_eq→eq (c ∷ s) [] h = cc
text_eq→eq (c ∷ s) (d ∷ t) h = ground (arith, text_eq→eq s t)

pub text_eq_iff : (s t : Text) → (text_eq s t ≡ true) ↔ (s ≡ t)
text_eq_iff s t = (text_eq→eq s t, λ e. rw e (text_eq_refl t))

pub text_eq_cases :
    (s t : Text) → ((text_eq s t ≡ true) × (s ≡ t)) ⊎ ((text_eq s t ≡ false) × (s ≢ t))
text_eq_cases s t = elim (Bool-cases (text_eq s t)) [
  | inl e ↦ inl (e, text_eq→eq s t e)
  | inr e ↦ inr (e, λ p. cc ((text_eq_iff s t).1 p))
]

-- value in {a, b, …}
unfoldable pub one_of : Text → List Text → Bool
one_of s ts = any_of (text_eq s) ts

-- a < b, the order of `sorted`
unfoldable pub text_ltb : Text → Text → Bool
text_ltb s [] = false
text_ltb [] (d ∷ t) = true
text_ltb (c ∷ s) (d ∷ t) = ltb c d || (c == d && text_ltb s t)

-- value.startswith(prefix)
unfoldable pub starts_with : Text → Text → Bool
starts_with s [] = true
starts_with [] (d ∷ t) = false
starts_with (c ∷ s) (d ∷ t) = c == d && starts_with s t

pub starts_with-eq : (s p : Text) → starts_with s p ≡ true → s ≡ p ++ drop (length p) s
unfolding starts_with
starts_with-eq s [] h = refl
starts_with-eq [] (d ∷ p) h = absurd (cc)
starts_with-eq (c ∷ s) (d ∷ p) h = ground (arith, starts_with-eq s p)

-- value.endswith(suffix)
unfoldable pub ends_with : Text → Text → Bool
unfolding text_eq
ends_with [] t = text_eq [] t
ends_with (c ∷ s) t = text_eq (c ∷ s) t || ends_with s t

-- separator in value, for one character
abbrev pub has_char : ℕ → Text → Bool
has_char c s = any_of (λ d. c == d) s

-- value.partition(separator) for one character: what stands before it, and what after if it occurs
unfoldable pub partition : ℕ → Text → Text × Option Text
partition c [] = ([], none)
partition c (d ∷ s) =
    let (before, after) = partition c s in if c == d then ([], some s) else (d ∷ before, after)

-- value.split(separator) for one character
unfoldable pub split : ℕ → Text → List Text
split c [] = [] ∷ []
split c (d ∷ s) =
    if c == d
    then [] ∷ split c s
    else elim (split c s) [ [] ↦ (d ∷ []) ∷ [] | w ∷ ws ↦ (d ∷ w) ∷ ws ]

-- The blanks of ASCII.
abbrev pub is_space : ℕ → Bool
is_space c = (leb 9 c && leb c 13) || (leb 28 c && leb c 32)

-- value.lstrip()
unfoldable pub strip_left : Text → Text
strip_left [] = []
strip_left (c ∷ s) = let rest = strip_left s in if is_space c then rest else c ∷ s

-- value.rstrip()
unfoldable pub strip_right : Text → Text
strip_right [] = []
strip_right (c ∷ s) = elim (strip_right s) [
  | [] ↦ (if is_space c then [] else c ∷ [])
  | d ∷ t ↦ c ∷ d ∷ t
]

-- value.strip()
abbrev pub strip : Text → Text
strip s = strip_right (strip_left s)

-- value.removeprefix(prefix), where the prefix stands there.
unfoldable pub remove_prefix : Text → Text → Text
remove_prefix [] s = s
remove_prefix (c ∷ p) [] = []
remove_prefix (c ∷ p) (d ∷ s) = remove_prefix p s

-- part in value
unfoldable pub contains : Text → Text → Bool
unfolding starts_with
contains part [] = starts_with [] part
contains part (c ∷ s) = starts_with (c ∷ s) part || contains part s

-- value.lower(), on ASCII.
unfoldable pub lower : Text → Text
lower [] = []
lower (c ∷ s) = (if leb b'A' c && leb c b'Z' then c + 32 else c) ∷ lower s

-- value.removesuffix(suffix)
unfoldable pub remove_suffix : Text → Text → Text
unfolding ends_with
remove_suffix suffix s = if ends_with s suffix then take (length s - length suffix) s else s
