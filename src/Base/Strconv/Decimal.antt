-- ===== src/Base/Strconv/Decimal.antt =====
-- The verb `%d` of package fmt for a number that is not negative, and that `Atoi` reads it back.
use Prim.Native.Nat.{ℕ, zero, suc, ◌+◌, ◌-◌, ◌*◌, ◌/◌, ◌%◌, ◌^◌, ◌<◌, ◌≤◌}
use mathlib.Core.Path.{◌≡◌, refl, ap, ◌∙◌}
use mathlib.Core.Bool.{Bool, true, false, ◌&&◌}
use mathlib.Core.Option.{some}
use mathlib.Core.List.{[], ◌∷◌, ◌++◌}
use native.Mathlib.Omega.{arith}
use mathlib.Core.Logic.{inl, inr, ◌≢◌}
use aggregator_demo.Base.Tests.{ltb, leb, nat_eq, if◌then◌else◌, Bool-cases}
use aggregator_demo.Base.Lists.{contains, length, length-append}
use aggregator_demo.Base.Text.{Text}
use aggregator_demo.Base.Strconv.{digits, atoi, in_range_pos, unsigned}

-- The digits of a number, the last one by its remainder. Twenty-one digits are enough for 64 bits.
unfoldable pub decimal : ℕ → ℕ → Text
decimal zero n = (b'0' + n % 10) ∷ []
decimal (suc k) n =
    let more = decimal k (n / 10) in
    if ltb n 10 then (b'0' + n) ∷ [] else more ++ (b'0' + n % 10) ∷ []

unfoldable pub itoa : ℕ → Text
unfolding decimal
itoa n = decimal 20 n

abbrev bound : ℕ → ℕ
bound zero = 10
bound (suc k) = 10 * bound k

digits-append :
    (s : Text) (acc c m : ℕ)
    → digits acc s ≡ some m
    → leb b'0' c && leb c b'9' ≡ true
    → digits acc (s ++ c ∷ []) ≡ some (m * 10 + (c - b'0'))
unfolding digits
digits-append [] acc c m h k = ground arith
digits-append (x ∷ s) acc c m h k = ground (arith, digits-append s (acc * 10 + (x - b'0')) c m)

is_digit : (n : ℕ) → n < 10 → leb b'0' (b'0' + n) && leb (b'0' + n) b'9' ≡ true
is_digit n h = ground arith

last_digit : (n : ℕ) → some (n / 10 * 10 + (b'0' + n % 10 - b'0')) ≡ some n
last_digit n = ap some (omega arith)

digits-decimal : (k n : ℕ) → n < bound k → digits 0 (decimal k n) ≡ some n
unfolding decimal digits
digits-decimal zero n h = ground arith
digits-decimal (suc k) n h = elim (Bool-cases (ltb n 10)) [
  | inl p ↦ rw p (ground (arith, p))
  | inr p ↦ rw p (
      digits-append (decimal k (n / 10)) 0 (b'0' + n % 10) (n / 10)
        (digits-decimal k (n / 10) (omega (arith, h))) (is_digit (n % 10) (omega arith))
      ∙ last_digit n)
]

-- A text of decimal digits.
abbrev pub are_digits : Text → Bool
are_digits [] = true
are_digits (c ∷ s) = leb b'0' c && leb c b'9' && are_digits s

are_digits-append :
    (s : Text) (c : ℕ)
    → are_digits s ≡ true
    → leb b'0' c && leb c b'9' ≡ true
    → are_digits (s ++ c ∷ []) ≡ true
are_digits-append [] c h k = ground arith
are_digits-append (x ∷ s) c h k = ground (arith, are_digits-append s c)

decimal-are_digits : (k n : ℕ) → are_digits (decimal k n) ≡ true
unfolding decimal
decimal-are_digits zero n = ground arith
decimal-are_digits (suc k) n = elim (Bool-cases (ltb n 10)) [
  | inl p ↦ rw p (ground (arith, p))
  | inr p ↦ rw p (
      are_digits-append (decimal k (n / 10)) (b'0' + n % 10) (decimal-are_digits k (n / 10))
        (is_digit (n % 10) (omega arith)))
]

pub itoa-are_digits : (n : ℕ) → are_digits (itoa n) ≡ true
unfolding itoa
itoa-are_digits n = decimal-are_digits 20 n

atoi-digits :
    (s : Text) (n : ℕ)
    → are_digits s ≡ true
    → s ≢ []
    → digits 0 s ≡ some n
    → n < 2 ^ 63
    → atoi s ≡ some n
unfolding atoi unsigned in_range_pos digits
atoi-digits [] n h e k l = absurd (e refl)
atoi-digits (c ∷ s) n h e k l = ground (arith, h, k, l)

append-nonempty : (s : Text) (c : ℕ) → s ++ c ∷ [] ≢ []
append-nonempty [] c h = cc h
append-nonempty (x ∷ s) c h = cc h

decimal-nonempty : (k n : ℕ) → decimal k n ≢ []
unfolding decimal
decimal-nonempty zero n h = cc h
decimal-nonempty (suc k) n h = elim (Bool-cases (ltb n 10)) [
  | inl p ↦ absurd (cc (rw p at h))
  | inr p ↦ append-nonempty (decimal k (n / 10)) (b'0' + n % 10) (rw p at h)
]

-- `Atoi` reads back what `%d` prints, for every number that an int64 holds.
pub atoi-itoa : (n : ℕ) → n < 2 ^ 63 → atoi (itoa n) ≡ some n
unfolding itoa
atoi-itoa n h =
    atoi-digits (decimal 20 n) n (decimal-are_digits 20 n) (decimal-nonempty 20 n)
      (digits-decimal 20 n (omega arith)) h

are_digits-absent :
    (s : Text) (c : ℕ)
    → are_digits s ≡ true
    → leb b'0' c && leb c b'9' ≡ false
    → contains s c ≡ false
are_digits-absent [] c h k = refl
are_digits-absent (x ∷ s) c h k = ground (arith, are_digits-absent s c)

-- A byte that is no digit is not in a printed number.
pub itoa-absent : (n c : ℕ) → leb b'0' c && leb c b'9' ≡ false → contains (itoa n) c ≡ false
itoa-absent n c h = are_digits-absent (itoa n) c (itoa-are_digits n) h

length-decimal : (k n : ℕ) → length (decimal k n) ≤ k + 1
unfolding decimal
length-decimal zero n = omega arith
length-decimal (suc k) n = elim (Bool-cases (ltb n 10)) [
  | inl p ↦ rw p (omega arith)
  | inr p ↦ rw p (
      omega (
        arith,
        length-decimal k (n / 10),
        length-append (decimal k (n / 10)) ((b'0' + n % 10) ∷ []),
      ))
]

pub length-itoa : (n : ℕ) → length (itoa n) ≤ 21
unfolding itoa
length-itoa n = length-decimal 20 n
