-- ===== src/Base/Word.antt =====
-- Go's `int` on a 64-bit platform: the bit pattern, a number below 2 ^ 64. Addition wraps.
use Prim.Native.Nat.{ℕ, ◌+◌, ◌%◌, ◌^◌, ◌<◌}
use mathlib.Core.Path.{◌≡◌}
use mathlib.Core.Bool.{Bool}
use native.Mathlib.Omega.{arith}
use aggregator_demo.Base.Tests.{leb}

abbrev pub Int64 : Type 0
Int64 = ℕ

abbrev pub word : ℕ
word = 2 ^ 64

unfoldable pub add64 : Int64 → Int64 → Int64
add64 a b = (a + b) % word

-- The sign bit.
unfoldable pub is_negative : Int64 → Bool
is_negative a = leb (2 ^ 63) a

pub add64-lt : (a b : ℕ) → add64 a b < word
unfolding add64
add64-lt a b = omega arith

pub add64_comm : (a b : ℕ) → add64 a b ≡ add64 b a
unfolding add64
add64_comm a b = omega arith

pub add64_assoc : (a b c : ℕ) → add64 (add64 a b) c ≡ add64 a (add64 b c)
unfolding add64
add64_assoc a b c = omega arith

pub zero-add64 : (a : ℕ) → a < word → add64 0 a ≡ a
unfolding add64
zero-add64 a h = omega arith
