-- ===== src/Analysis/Order/DecimalValue.antt =====
-- `DecimalLess` and the numbers that plain decimals stand for.
use test_exchanges_helper.Base.{
  ℕ, zero, suc, ◌+◌, ◌-◌, ◌*◌, ◌^◌, ◌≤◌, ◌<◌, ◌≡◌, refl, sym, ◌∙◌, ap, inl, inr, Bool, true, [],
  ◌∷◌, ◌++◌, Option, none, some, Bytes, bytes_eq_iff, bytes_lt_connex, length, is_empty, all,
  is_digit, ltb, ◌==◌, if◌then◌else◌, arith, Bool-cases,
}
use test_exchanges_helper.Analysis.Order.{
  char_lt, before_point, after_point, strip_zeros, trim_zeros, fraction_less, integer_part,
  fraction_part, normalized_less, decimal_less,
}
use test_exchanges_helper.Analysis.Order.NativeId.{
  decimal_value, IsStripped, stripped_less-value, strip_zeros-IsStripped, decimal_value-strip_zeros,
  first_digit, lower_digit, value_step,
}
use mathlib.Core.Path.{ap₂}
use native.Mathlib.Nat.{pow-suc}

-- A fraction in units of the n-th place behind the point.
unfoldable pub fraction_value : ℕ → Bytes → ℕ
fraction_value zero f = 0
fraction_value (suc n) [] = 0
fraction_value (suc n) (c ∷ cs) = (c - b'0') * 10 ^ n + fraction_value n cs

-- Digits, and where there is a point, a point and digits.
abbrev pub price_text : Bytes → Option Bytes → Bytes
price_text i none = i
price_text i (some f) = i ++ (b'.' ∷ f)

abbrev pub digits_behind : Option Bytes → Bytes
digits_behind none = []
digits_behind (some f) = f

-- The number in units of the n-th place behind the point.
abbrev pub price_value : ℕ → Bytes → Option Bytes → ℕ
price_value n i f = decimal_value i * 10 ^ n + fraction_value n (digits_behind f)

fraction_value-nil : (n : ℕ) → fraction_value n [] ≡ 0
unfolding fraction_value
fraction_value-nil zero = refl
fraction_value-nil (suc n) = refl

fraction_value-cons :
    (n c : ℕ) (cs : Bytes)
    → fraction_value (suc n) (c ∷ cs) ≡ (c - b'0') * 10 ^ n + fraction_value n cs
unfolding fraction_value
fraction_value-cons n c cs = refl

fraction_value-lt : (n : ℕ) (f : Bytes) → all is_digit f ≡ true → fraction_value n f < 10 ^ n
unfolding fraction_value
fraction_value-lt zero f h = omega arith
fraction_value-lt (suc n) [] h = omega (arith, pow-suc 10 n, fraction_value-lt n [] refl)
fraction_value-lt (suc n) (c ∷ cs) h = rw (pow-suc 10 n) (
    value_step (c - b'0') (10 ^ n) (fraction_value n cs) (ground arith)
      (fraction_value-lt n cs (ground arith)))

-- Where the lower parts are below the unit, the higher parts decide first.
ordered_parts :
    (d e p v w : ℕ)
    → v < p
    → w < p
    → ltb (d * p + v) (e * p + w) ≡ (if d == e then ltb v w else ltb d e)
ordered_parts d e p v w h k = ground (arith, lower_digit d e p v w, lower_digit e d p w v)

fraction_less-value :
    (n : ℕ) (a b : Bytes)
    → all is_digit a ≡ true
    → all is_digit b ≡ true
    → length a ≤ n
    → length b ≤ n
    → fraction_less a b ≡ ltb (fraction_value n a) (fraction_value n b)
unfolding fraction_less char_lt
fraction_less-value n [] [] h k l m = rw (fraction_value-nil n) refl
fraction_less-value zero [] (y ∷ b) h k l m = absurd (omega arith)
fraction_less-value zero (x ∷ a) b h k l m = absurd (omega arith)
fraction_less-value (suc n) [] (y ∷ b) h k l m = ground (
  arith,
  fraction_value-nil (suc n),
  fraction_value-nil n,
  fraction_value-cons n y b,
  fraction_less-value n [] b,
  fraction_value-lt n b,
  first_digit (y - b'0') (10 ^ n) (fraction_value n b),
)
fraction_less-value (suc n) (x ∷ a) [] h k l m = ground (
  arith,
  fraction_value-nil (suc n),
  fraction_value-nil n,
  fraction_value-cons n x a,
  fraction_less-value n a [],
)
fraction_less-value (suc n) (x ∷ a) (y ∷ b) h k l m = ground (
  arith,
  fraction_value-cons n x a,
  fraction_value-cons n y b,
  fraction_less-value n a b,
  ordered_parts (x - b'0') (y - b'0') (10 ^ n) (fraction_value n a) (fraction_value n b),
  fraction_value-lt n a,
  fraction_value-lt n b,
)

trim_zeros-digits : (f : Bytes) → all is_digit f ≡ true → all is_digit (trim_zeros f) ≡ true
unfolding trim_zeros
trim_zeros-digits [] h = refl
trim_zeros-digits (c ∷ cs) h = ground (arith, trim_zeros-digits cs)

trim_zeros-length : (f : Bytes) → length (trim_zeros f) ≤ length f
unfolding trim_zeros
trim_zeros-length [] = omega arith
trim_zeros-length (c ∷ cs) = ground (arith, trim_zeros-length cs)

empty_nil : (f : Bytes) → is_empty f ≡ true → f ≡ []
empty_nil [] h = refl
empty_nil (c ∷ f) h = cc

fraction_value-trim_zeros :
    (n : ℕ) (f : Bytes) → fraction_value n (trim_zeros f) ≡ fraction_value n f
unfolding fraction_value trim_zeros
fraction_value-trim_zeros zero f = refl
fraction_value-trim_zeros (suc n) [] = refl
fraction_value-trim_zeros (suc n) (c ∷ cs) = elim (Bool-cases (is_empty (trim_zeros cs))) [
  | inl e ↦ ground (
    arith,
    fraction_value-trim_zeros n cs,
    ap (fraction_value n) (empty_nil (trim_zeros cs) e),
    fraction_value-nil n,
  )
  | inr e ↦ rw e (ap (λ v. (c - b'0') * 10 ^ n + v) (fraction_value-trim_zeros n cs))
]

-- The texts before and behind the point.
before_point-digits : (i : Bytes) → all is_digit i ≡ true → before_point i ≡ i
unfolding before_point
before_point-digits [] h = refl
before_point-digits (c ∷ cs) h = ground (arith, before_point-digits cs)

after_point-digits : (i : Bytes) → all is_digit i ≡ true → after_point i ≡ []
unfolding after_point
after_point-digits [] h = refl
after_point-digits (c ∷ cs) h = ground (arith, after_point-digits cs)

before_point-append : (i f : Bytes) → all is_digit i ≡ true → before_point (i ++ (b'.' ∷ f)) ≡ i
unfolding before_point
before_point-append [] f h = refl
before_point-append (c ∷ cs) f h = ground (arith, before_point-append cs f)

after_point-append : (i f : Bytes) → all is_digit i ≡ true → after_point (i ++ (b'.' ∷ f)) ≡ f
unfolding after_point
after_point-append [] f h = refl
after_point-append (c ∷ cs) f h = ground (arith, after_point-append cs f)

integer_part-price_text :
    (i : Bytes) (f : Option Bytes)
    → all is_digit i ≡ true
    → integer_part (price_text i f) ≡ strip_zeros i
unfolding integer_part
integer_part-price_text i none h = ap strip_zeros (before_point-digits i h)
integer_part-price_text i (some f) h = ap strip_zeros (before_point-append i f h)

fraction_part-price_text :
    (i : Bytes) (f : Option Bytes)
    → all is_digit i ≡ true
    → fraction_part (price_text i f) ≡ trim_zeros (digits_behind f)
unfolding fraction_part
fraction_part-price_text i none h = ap trim_zeros (after_point-digits i h)
fraction_part-price_text i (some f) h = ap trim_zeros (after_point-append i f h)

normalized_less-value :
    (a b x y : Bytes)
    → IsStripped a
    → IsStripped b
    → normalized_less a x b y ≡ (
        if decimal_value a == decimal_value b
        then fraction_less x y
        else ltb (decimal_value a) (decimal_value b))
unfolding normalized_less
normalized_less-value a b x y h k = ground (
  arith,
  stripped_less-value a b h k,
  stripped_less-value b a k h,
  bytes_eq_iff a b,
  bytes_lt_connex a b,
  same_value,
)
  where
    same_value : a ≡ b → decimal_value a ≡ decimal_value b
    same_value e = ap decimal_value e

trimmed_less-value :
    (n : ℕ) (f g : Bytes)
    → all is_digit f ≡ true
    → all is_digit g ≡ true
    → length f ≤ n
    → length g ≤ n
    → fraction_less (trim_zeros f) (trim_zeros g) ≡ ltb (fraction_value n f) (fraction_value n g)
trimmed_less-value n f g h k l m =
    fraction_less-value n (trim_zeros f) (trim_zeros g) (trim_zeros-digits f h)
      (trim_zeros-digits g k) (omega (arith, l, trim_zeros-length f))
      (omega (arith, m, trim_zeros-length g))
    ∙ ap₂ ltb (fraction_value-trim_zeros n f) (fraction_value-trim_zeros n g)

-- On plain decimals, digits with or without a point and digits behind it, whatever zeros they begin
-- or end with, `DecimalLess` is the order of the numbers that they stand for: each number is taken
-- in units of the n-th place behind the point, for any n that both have places enough for.
pub decimal_less-value :
    (n : ℕ) (i j : Bytes) (f g : Option Bytes)
    → all is_digit i ≡ true
    → all is_digit j ≡ true
    → all is_digit (digits_behind f) ≡ true
    → all is_digit (digits_behind g) ≡ true
    → length (digits_behind f) ≤ n
    → length (digits_behind g) ≤ n
    → decimal_less (price_text i f) (price_text j g) ≡ ltb (price_value n i f) (price_value n j g)
unfolding decimal_less
decimal_less-value n i j f g hi hj hf hg lf lg =
    ap₂
      (λ a b. normalized_less a b (integer_part (price_text j g)) (fraction_part (price_text j g)))
      (integer_part-price_text i f hi) (fraction_part-price_text i f hi)
    ∙ ap₂ (normalized_less (strip_zeros i) (trim_zeros (digits_behind f)))
        (integer_part-price_text j g hj) (fraction_part-price_text j g hj)
    ∙ normalized_less-value (strip_zeros i) (strip_zeros j) (trim_zeros (digits_behind f))
        (trim_zeros (digits_behind g)) (strip_zeros-IsStripped i hi) (strip_zeros-IsStripped j hj)
    ∙ ap₂ parts (decimal_value-strip_zeros i) (decimal_value-strip_zeros j)
    ∙ ap
        (λ b.
          if decimal_value i == decimal_value j then b else ltb (decimal_value i) (decimal_value j))
        (trimmed_less-value n (digits_behind f) (digits_behind g) hf hg lf lg)
    ∙ sym (
        ordered_parts (decimal_value i) (decimal_value j) (10 ^ n)
          (fraction_value n (digits_behind f)) (fraction_value n (digits_behind g))
          (fraction_value-lt n (digits_behind f) hf) (fraction_value-lt n (digits_behind g) hg))
  where
    parts : ℕ → ℕ → Bool
    parts v w =
        if v == w
        then fraction_less (trim_zeros (digits_behind f)) (trim_zeros (digits_behind g))
        else ltb v w
