-- ===== src/Base/Strconv.antt =====
-- `strconv.Atoi` on a 64-bit platform: an optional sign, at least one decimal digit and nothing
-- else, and a value that an int64 holds.
pub mod Decimal
use aggregator_demo.Base.Tests.{ltb, leb, ◌==◌, nat_eq, if◌then◌else◌}
use aggregator_demo.Base.Word.{Int64, word}
use aggregator_demo.Base.Text.{Text}
use Prim.Native.Nat.{ℕ, ◌+◌, ◌-◌, ◌*◌, ◌%◌, ◌^◌, ◌<◌}
use mathlib.Core.Path.{◌≡◌}
use mathlib.Core.Bool.{◌&&◌}
use mathlib.Core.Option.{Option, none, some}
use mathlib.Core.List.{[], ◌∷◌}
use native.Mathlib.Omega.{arith}

digits : ℕ → Text → Option ℕ
digits n [] = some n
digits n (c ∷ s) = if leb b'0' c && leb c b'9' then digits (n * 10 + (c - b'0')) s else none

unsigned : Text → Option ℕ
unfolding digits
unsigned [] = none
unsigned (c ∷ s) = digits 0 (c ∷ s)

in_range_pos : ℕ → Option Int64
in_range_pos n = if ltb n (2 ^ 63) then some n else none

in_range_neg : ℕ → Option Int64
in_range_neg n = if leb n (2 ^ 63) then some ((word - n) % word) else none

unfoldable pub atoi : Text → Option Int64
unfolding unsigned in_range_pos in_range_neg
atoi [] = none
atoi (c ∷ s) =
    elim (if c == b'-' then unsigned s else if c == b'+' then unsigned s else unsigned (c ∷ s)) [
      | none ↦ none
      | some n ↦ if c == b'-' then in_range_neg n else in_range_pos n
    ]

-- What `Atoi` accepts is a 64-bit pattern.
pub atoi-lt : (s : Text) (n : Int64) → atoi s ≡ some n → n < word
unfolding atoi in_range_pos in_range_neg
atoi-lt [] n h = ground arith
atoi-lt (c ∷ s) n h = ground arith
