-- ===== src/Analysis/Order/NativeId.antt =====
-- About `native_id_less` and the values of numeric identifiers.
use test_exchanges_helper.Base.{
  ℕ, suc, ◌+◌, ◌-◌, ◌*◌, ◌^◌, ◌≤◌, ◌<◌, ◌≡◌, refl, ◌∙◌, ap, ◌⊎◌, inl, inr, Bool, true, not, [], ◌∷◌,
  Bytes, bytes_lt, length, is_empty, ◌≢◌, all, is_digit, ltb, ◌==◌, if◌then◌else◌, arith,
}
use test_exchanges_helper.Analysis.Order.{drop_zeros, strip_zeros, all_digits, native_id_less}
use mathlib.Core.Path.{ap₂}
use native.Mathlib.Nat.{pow-suc}

-- The number that a text of digits stands for.
unfoldable pub decimal_value : Bytes → ℕ
decimal_value [] = 0
decimal_value (c ∷ cs) = (c - b'0') * 10 ^ length cs + decimal_value cs

pub value_step : (d p v : ℕ) → d ≤ 9 → v < p → d * p + v < p * 10
value_step d p v h k = grind arith

decimal_value-lt : (s : Bytes) → all is_digit s ≡ true → decimal_value s < 10 ^ length s
unfolding decimal_value
decimal_value-lt [] h = omega arith
decimal_value-lt (c ∷ cs) h = rw (pow-suc 10 (length cs)) (
    value_step (c - b'0') (10 ^ length cs) (decimal_value cs) (ground arith)
      (decimal_value-lt cs (ground arith)))

decimal_value-drop_zeros : (s : Bytes) → decimal_value (drop_zeros s) ≡ decimal_value s
unfolding decimal_value drop_zeros
decimal_value-drop_zeros [] = refl
decimal_value-drop_zeros (c ∷ cs) = ground (arith, decimal_value-drop_zeros cs)

value_of_empty : (s : Bytes) → is_empty s ≡ true → decimal_value s ≡ 0
unfolding decimal_value
value_of_empty [] h = refl
value_of_empty (c ∷ s) h = cc

value_of_zero : decimal_value (b'0' ∷ []) ≡ 0
unfolding decimal_value
value_of_zero = refl

pub decimal_value-strip_zeros : (s : Bytes) → decimal_value (strip_zeros s) ≡ decimal_value s
unfolding strip_zeros
decimal_value-strip_zeros s =
    ground (arith, decimal_value-drop_zeros s, value_of_empty (drop_zeros s), value_of_zero)

-- What is left of the digits when the leading zeros are gone begins with another digit, or is "0".
abbrev pub IsStripped : Bytes → Type 0
IsStripped [] = ⊥
IsStripped (c ∷ []) = is_digit c ≡ true
IsStripped (c ∷ d ∷ s) = (is_digit c ≡ true) × (c ≢ b'0') × (all is_digit (d ∷ s) ≡ true)

drop_zeros-IsStripped :
    (s : Bytes) → all is_digit s ≡ true → (drop_zeros s ≡ []) ⊎ IsStripped (drop_zeros s)
unfolding drop_zeros
drop_zeros-IsStripped [] h = inl refl
drop_zeros-IsStripped (c ∷ []) h = ground arith
drop_zeros-IsStripped (c ∷ d ∷ s) h = ground (arith, drop_zeros-IsStripped (d ∷ s))

pub strip_zeros-IsStripped : (s : Bytes) → all is_digit s ≡ true → IsStripped (strip_zeros s)
unfolding strip_zeros
strip_zeros-IsStripped s h = elim (drop_zeros-IsStripped s h) [
  | inl e ↦ rw e refl
  | inr k ↦ keep (drop_zeros s) k
]
  where
    keep : (t : Bytes) → IsStripped t → IsStripped (if is_empty t then b'0' ∷ [] else t)
    keep [] k = refl
    keep (c ∷ t) k = k

pub first_digit : (d p v : ℕ) → 1 ≤ d → p ≤ d * p + v
first_digit d p v h = grind arith

pow_mono : (m n : ℕ) → m ≤ n → 10 ^ m ≤ 10 ^ n
pow_mono m ℕ.zero h = rw (zero_only m h) (omega arith)
  where
    zero_only : (m : ℕ) → m ≤ 0 → m ≡ 0
    zero_only m h = omega arith
pow_mono m (suc n) h = elim (le_cases m n h) [
  | inl e ↦ rw e (omega arith)
  | inr k ↦ omega (arith, pow-suc 10 n, pow_mono m n k)
]
  where
    le_cases : (m n : ℕ) → m ≤ suc n → (m ≡ suc n) ⊎ (m ≤ n)
    le_cases m n h = grind arith

decimal_value-cons :
    (c : ℕ) (s : Bytes) → decimal_value (c ∷ s) ≡ (c - b'0') * 10 ^ length s + decimal_value s
unfolding decimal_value
decimal_value-cons c s = refl

tail_length : (x y : ℕ) (a b : Bytes) → length (x ∷ a) ≡ length (y ∷ b) → length a ≡ length b
tail_length x y a b h = omega arith

-- A longer stripped text stands for a larger number.
shorter-value :
    (a b : Bytes)
    → all is_digit a ≡ true
    → IsStripped b
    → length a < length b
    → 0 < length a
    → decimal_value a < decimal_value b
shorter-value a [] h k l m = absurd k
shorter-value a (c ∷ []) h k l m = absurd (omega arith)
shorter-value a (c ∷ d ∷ s) h k l m = omega (
  arith,
  decimal_value-lt a h,
  pow_mono (length a) (length (d ∷ s)) (omega arith),
  first_digit (c - b'0') (10 ^ length (d ∷ s)) (decimal_value (d ∷ s)) (ground (arith, k.1)),
  decimal_value-cons c (d ∷ s),
)

pub lower_digit : (d e p v w : ℕ) → d < e → v < p → d * p + v < e * p + w
lower_digit d e p v w h k = grind arith

-- Digit texts of one length stand in the order of their values.
bytes_lt-value :
    (a b : Bytes)
    → all is_digit a ≡ true
    → all is_digit b ≡ true
    → length a ≡ length b
    → bytes_lt a b ≡ ltb (decimal_value a) (decimal_value b)
unfolding bytes_lt decimal_value
bytes_lt-value [] [] h k l = refl
bytes_lt-value [] (y ∷ b) h k l = absurd (omega arith)
bytes_lt-value (x ∷ a) [] h k l = absurd (omega arith)
bytes_lt-value (x ∷ a) (y ∷ b) h k l = ground (
  arith,
  decimal_value-cons x a,
  decimal_value-cons y b,
  bytes_lt-value a b,
  decimal_value-lt a,
  decimal_value-lt b,
  lower_digit (x - b'0') (y - b'0') (10 ^ length a) (decimal_value a) (decimal_value b),
  lower_digit (y - b'0') (x - b'0') (10 ^ length a) (decimal_value b) (decimal_value a),
  ap (λ n. 10 ^ n) (tail_length x y a b l),
)

digits_of : (s : Bytes) → all_digits s ≡ true → all is_digit s ≡ true
unfolding all_digits
digits_of s h = ground arith

IsStripped-digits : (s : Bytes) → IsStripped s → all is_digit s ≡ true
IsStripped-digits [] k = absurd k
IsStripped-digits (c ∷ []) k = ground arith
IsStripped-digits (c ∷ d ∷ s) k = ground (arith, k.2)

IsStripped-pos : (s : Bytes) → IsStripped s → 0 < length s
IsStripped-pos [] k = absurd k
IsStripped-pos (c ∷ s) k = omega arith

-- The branch of `native_id_less` on two numeric identifiers.
abbrev pub stripped_less : Bytes → Bytes → Bool
stripped_less a b = if not (length a == length b) then ltb (length a) (length b) else bytes_lt a b

pub stripped_less-value :
    (a b : Bytes)
    → IsStripped a
    → IsStripped b
    → stripped_less a b ≡ ltb (decimal_value a) (decimal_value b)
stripped_less-value a b h k =
    let da = IsStripped-digits a h in
    let db = IsStripped-digits b k in
    ground (
      arith,
      bytes_lt-value a b da db,
      shorter-value a b da k,
      shorter-value b a db h,
      IsStripped-pos a h,
      IsStripped-pos b k,
    )

native_id_less-stripped :
    (a b : Bytes)
    → all_digits a ≡ true
    → all_digits b ≡ true
    → native_id_less a b ≡ stripped_less (strip_zeros a) (strip_zeros b)
unfolding native_id_less
native_id_less-stripped a b h k = rw (h, k)

-- On identifiers made of digits only, whatever zeros they begin with, `native_id_less` is the order
-- of the numbers that they stand for, at any length.
pub native_id_less-value :
    (a b : Bytes)
    → all_digits a ≡ true
    → all_digits b ≡ true
    → native_id_less a b ≡ ltb (decimal_value a) (decimal_value b)
native_id_less-value a b h k =
    native_id_less-stripped a b h k
    ∙ stripped_less-value (strip_zeros a) (strip_zeros b) (strip_zeros-IsStripped a (digits_of a h))
        (strip_zeros-IsStripped b (digits_of b k))
    ∙ ap₂ ltb (decimal_value-strip_zeros a) (decimal_value-strip_zeros b)
