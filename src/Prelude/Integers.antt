-- ===== src/Prelude/Integers.antt =====
-- Integers, and their decimal form: `int(text)` and `str(n)`.
use Prim.Native.Nat.{ℕ, zero, suc, ◌+◌, ◌-◌, ◌*◌, ◌/◌, ◌%◌}
use mathlib.Core.Bool.{Bool, true, false, ◌&&◌}
use mathlib.Core.Option.{Option, none, some}
use mathlib.Core.List.{[], ◌∷◌}
use remote_worktree_runner.Prelude.Tests.{◌==◌, ltb, leb, if◌then◌else◌}
use remote_worktree_runner.Prelude.Strings.{Text, strip}

-- `negsuc n` is -(n + 1): the exit code of a process that a signal killed is negative.
pub data ℤ : Type 0 where
  pos : ℕ → ℤ
  negsuc : ℕ → ℤ

abbrev pub is_digit : ℕ → Bool
is_digit c = leb b'0' c && leb c b'9'

-- The digits of a number, an underscore between two of them allowed; `after` says that a digit
-- stands before. Digits of other scripts are not read.
unfoldable pub digits_value : Bool → ℕ → Text → Option ℕ
digits_value false n [] = none
digits_value true n [] = some n
digits_value after n (c ∷ s) =
    let more = digits_value true (10 * n + (c - b'0')) s in
    let gap = digits_value false n s in
    if is_digit c then more else if after && c == b'_' then gap else none

negated : Option ℕ → Option ℤ
negated none = none
negated (some zero) = some (pos zero)
negated (some (suc n)) = some (negsuc n)

plain : Option ℕ → Option ℤ
plain none = none
plain (some n) = some (pos n)

signed : Text → Option ℤ
unfolding digits_value negated plain
signed [] = none
signed (c ∷ s) =
    if c == b'-'
    then negated (digits_value false 0 s)
    else if c == b'+'
    then plain (digits_value false 0 s)
    else plain (digits_value false 0 (c ∷ s))

-- int(text); `none` is the ValueError.
unfoldable pub parse_int : Text → Option ℤ
unfolding signed
parse_int text = signed (strip text)

-- The digits of `n` before `rest`, on fuel; more fuel than `n` is enough.
unfoldable pub digits : ℕ → ℕ → Text → Text
digits zero n rest = rest
digits (suc fuel) n rest =
    let c = b'0' + n % 10 in
    let more = digits fuel (n / 10) (c ∷ rest) in if ltb n 10 then c ∷ rest else more

-- str(n)
unfoldable pub show_number : ℕ → Text
unfolding digits
show_number n = digits (suc n) n []
