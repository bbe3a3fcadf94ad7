-- ===== src/Analysis/Order/DecimalLaws.antt =====
-- `DecimalLess` is a strict weak order, as `std::map` wants of its comparison.
use test_exchanges_helper.Base.{
  ◌≡◌, ◌⊎◌, inl, true, false, [], ◌∷◌, Bytes, bytes_eq_iff, bytes_lt_asymm, bytes_lt_compare,
  bytes_lt_connex, arith,
}
use test_exchanges_helper.Analysis.Order.{
  char_lt, fraction_less, normalized_less, decimal_less, integer_part, fraction_part,
}

fraction_less_asymm : (a b : Bytes) → fraction_less a b ≡ true → fraction_less b a ≡ false
unfolding fraction_less char_lt
fraction_less_asymm [] [] h = cc
fraction_less_asymm [] (y ∷ b) h = ground (arith, fraction_less_asymm [] b)
fraction_less_asymm (x ∷ a) [] h = ground (arith, fraction_less_asymm a [])
fraction_less_asymm (x ∷ a) (y ∷ b) h = ground (arith, fraction_less_asymm a b)

fraction_less_compare :
    (a b c : Bytes)
    → fraction_less a c ≡ true
    → (fraction_less a b ≡ true) ⊎ (fraction_less b c ≡ true)
unfolding fraction_less char_lt
fraction_less_compare [] [] [] h = inl h
fraction_less_compare [] [] (z ∷ c) h = ground (arith, fraction_less_compare [] [] c)
fraction_less_compare [] (y ∷ b) [] h = ground (arith, fraction_less_compare [] b [])
fraction_less_compare [] (y ∷ b) (z ∷ c) h = ground (arith, fraction_less_compare [] b c)
fraction_less_compare (x ∷ a) [] [] h = ground (arith, fraction_less_compare a [] [])
fraction_less_compare (x ∷ a) [] (z ∷ c) h = ground (arith, fraction_less_compare a [] c)
fraction_less_compare (x ∷ a) (y ∷ b) [] h = ground (arith, fraction_less_compare a b [])
fraction_less_compare (x ∷ a) (y ∷ b) (z ∷ c) h = ground (arith, fraction_less_compare a b c)

-- Two prices are never each below the other.
pub decimal_less_asymm : (a b : Bytes) → decimal_less a b ≡ true → decimal_less b a ≡ false
unfolding decimal_less normalized_less
decimal_less_asymm a b h = ground (
  arith,
  bytes_eq_iff (integer_part a) (integer_part b),
  bytes_eq_iff (integer_part b) (integer_part a),
  bytes_lt_asymm (integer_part a) (integer_part b),
  fraction_less_asymm (fraction_part a) (fraction_part b),
)

pub decimal_less_compare :
    (a b c : Bytes)
    → decimal_less a c ≡ true
    → (decimal_less a b ≡ true) ⊎ (decimal_less b c ≡ true)
unfolding decimal_less normalized_less
decimal_less_compare a b c h = ground (
  arith,
  bytes_eq_iff (integer_part a) (integer_part b),
  bytes_eq_iff (integer_part b) (integer_part c),
  bytes_eq_iff (integer_part a) (integer_part c),
  bytes_lt_compare (integer_part a) (integer_part b) (integer_part c),
  fraction_less_compare (fraction_part a) (fraction_part b) (fraction_part c),
  bytes_lt_connex (integer_part a) (integer_part b),
)
