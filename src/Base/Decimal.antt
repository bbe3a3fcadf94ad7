-- ===== src/Base/Decimal.antt =====
-- `std::to_string` of an unsigned number, and `std::from_chars` into a 64-bit one.
use Prim.Native.Nat.{ℕ, zero, suc, ◌+◌, ◌-◌, ◌*◌, ◌/◌, ◌%◌, ◌^◌, ◌<◌}
use mathlib.Core.Path.{◌≡◌, refl, ◌∙◌, ap}
use mathlib.Core.Bool.{true}
use mathlib.Core.List.{[], ◌∷◌}
use mathlib.Core.Logic.{inl, inr}
use mathlib.Core.Option.{Option, none, some}
use native.Mathlib.Nat.{pow-suc}
use native.Mathlib.Omega.{arith}
use test_exchanges_helper.Base.Tests.{ltb, ltb→lt, Bool-cases, if◌then◌else◌}
use test_exchanges_helper.Base.Text.{Bytes, is_digit}

-- The most significant digit first, in front of `rest`; `fuel` bounds the number of digits.
unfoldable pub digits_onto : ℕ → ℕ → Bytes → Bytes
digits_onto zero n rest = rest
digits_onto (suc fuel) n rest =
    let more = digits_onto fuel (n / 10) ((b'0' + n % 10) ∷ rest) in
    if ltb n 10 then (b'0' + n) ∷ rest else more

-- `std::to_string`: a 64-bit number has at most 20 digits.
unfoldable pub to_string : ℕ → Bytes
to_string n = digits_onto 20 n []

-- The value of the digits read so far, and the text behind the last digit.
unfoldable pub scan_digits : ℕ → Bytes → ℕ × Bytes
scan_digits acc [] = (acc, [])
scan_digits acc (c ∷ cs) =
    let more = scan_digits (acc * 10 + (c - b'0')) cs in if is_digit c then more else (acc, c ∷ cs)

-- `std::from_chars` into an unsigned 64-bit number: `none` is `errc::invalid_argument` (no digit)
-- or `errc::result_out_of_range`; else the value and what stands behind it.
unfoldable pub from_chars : Bytes → Option (ℕ × Bytes)
from_chars [] = none
from_chars (c ∷ cs) =
    if is_digit c
    then (if ltb (scan_digits 0 (c ∷ cs)).0 (2 ^ 64) then some (scan_digits 0 (c ∷ cs)) else none)
    else none

-- One digit is read.
scan_digits_digit :
    (acc d : ℕ) (rest : Bytes)
    → d < 10
    → scan_digits acc ((b'0' + d) ∷ rest) ≡ scan_digits (acc * 10 + d) rest
unfolding scan_digits
scan_digits_digit acc d rest h = ground arith

-- Reading back what was printed.
scan_digits-digits_onto :
    (fuel n : ℕ) (rest : Bytes)
    → n < 10 ^ fuel
    → scan_digits 0 (digits_onto fuel n rest) ≡ scan_digits n rest
unfolding digits_onto
scan_digits-digits_onto zero n rest h = ap (λ m. scan_digits m rest) (omega arith)
scan_digits-digits_onto (suc fuel) n rest h = elim (Bool-cases (ltb n 10)) [
  | inl small ↦
      rw small (
        scan_digits_digit 0 n rest (ltb→lt n 10 small) ∙ ap (λ m. scan_digits m rest) (omega arith))
  | inr large ↦ rw large (
      scan_digits-digits_onto fuel (n / 10) _ (omega (arith, pow-suc 10 fuel))
      ∙ scan_digits_digit (n / 10) (n % 10) rest (omega arith)
      ∙ ap (λ m. scan_digits m rest) (omega arith))
]

digits_onto-is_digit :
    (fuel n : ℕ) (rest : Bytes)
    → n < 10 ^ suc fuel
    → (c : ℕ) × (cs : Bytes) × (digits_onto (suc fuel) n rest ≡ c ∷ cs) × (is_digit c ≡ true)
unfolding digits_onto
digits_onto-is_digit zero n rest h = (b'0' + n, rest, ground arith, ground arith)
digits_onto-is_digit (suc fuel) n rest h = elim (Bool-cases (ltb n 10)) [
  | inl small ↦ (b'0' + n, rest, rw small refl, ground arith)
  | inr large ↦
      let (c, cs, e, d) =
        digits_onto-is_digit fuel (n / 10) ((b'0' + n % 10) ∷ rest)
          (omega (arith, pow-suc 10 (suc fuel))) in
      (c, cs, rw large e, d)
]

scan_digits_nil : (n : ℕ) → scan_digits n [] ≡ (n, [])
unfolding scan_digits
scan_digits_nil n = refl

-- `from_chars` reads back what `to_string` printed of a 64-bit number.
pub from_chars-to_string : (n : ℕ) → n < 2 ^ 64 → from_chars (to_string n) ≡ some (n, [])
unfolding to_string
from_chars-to_string n h =
    let (c, cs, e, d) = digits_onto-is_digit 19 n [] (omega arith) in
    let read = scan_digits-digits_onto 20 n [] (omega arith) in
    unfold from_chars in ground (arith, e, read, d, scan_digits_nil n)
