-- ===== src/Contracts/Scalars.antt =====
-- src/Contracts.cpp: the tests on one member of a JSON object.
pub mod Decimals
use test_exchanges_helper.Base.{
  ℕ, ◌+◌, ◌/◌, ◌%◌, ◌^◌, Bool, true, false, not, ◌&&◌, ◌||◌, List, [], ◌∷◌, Option, none, some,
  Bytes, ◌==◌, is_digit, is_empty, if◌then◌else◌,
}
use test_exchanges_helper.Base.Int.{ℤ, pos, negsuc}
use test_exchanges_helper.Base.Decimal.{to_string}
use test_exchanges_helper.Json.{
  Value, null, boolean, int64, uint64, double, string, array, object, Items, nil, cons, Fields,
  field, end, if_contains,
}

-- `member`
unfoldable pub member : Fields → Bytes → Option Value
member fs name = if_contains name fs

unfoldable pub signed_text : ℤ → Bytes
signed_text (pos n) = to_string n
signed_text (negsuc n) = b'-' ∷ to_string (n + 1)

-- `scalar_text`: a null pointer and the other kinds have the empty text.
unfoldable pub scalar_text : Option Value → Bytes
scalar_text (some (string s)) = s
scalar_text (some (int64 n)) = signed_text n
scalar_text (some (uint64 n)) = to_string n
scalar_text _ = []

-- `nonempty`
unfoldable pub nonempty : Option Value → Bool
nonempty none = false
nonempty (some null) = false
nonempty (some (string s)) = not (is_empty s)
nonempty (some (array nil)) = false
nonempty (some (object end)) = false
nonempty (some v) = true

abbrev pub is_sign : ℕ → Bool
is_sign c = c == b'+' || c == b'-'

-- The cursor of `decimal_text` is the text that it has not passed. The optional sign:
unfoldable pub past_sign : Bytes → Bytes
past_sign [] = []
past_sign (c ∷ cs) = if is_sign c then cs else c ∷ cs

-- The loop over digits: those that it passes, and what stands behind them.
unfoldable pub span_digits : Bytes → Bytes × Bytes
span_digits [] = ([], [])
span_digits (c ∷ cs) =
    let (digits, behind) = span_digits cs in
    if is_digit c then (c ∷ digits, behind) else ([], c ∷ cs)

-- The optional point and the digits behind it.
unfoldable pub span_fraction : Bytes → Bytes × Bytes
span_fraction [] = ([], [])
span_fraction (c ∷ cs) = if c == b'.' then span_digits cs else ([], c ∷ cs)

-- The optional exponent, which has a digit, and then the end of the text.
unfoldable pub ends_in_exponent : Bytes → Bool
ends_in_exponent [] = true
ends_in_exponent (c ∷ cs) =
    let (digits, behind) = span_digits (past_sign cs) in
    (c == b'e' || c == b'E') && not (is_empty digits) && is_empty behind

-- `decimal_text`
unfoldable pub decimal_text : Bytes → Bool
decimal_text [] = false
decimal_text (c ∷ cs) =
    let (whole, behind) = span_digits (past_sign (c ∷ cs)) in
    let (fraction, exponent) = span_fraction behind in
    (not (is_empty whole) || not (is_empty fraction)) && ends_in_exponent exponent

-- `std::isfinite` of the double with these 64 bits: its eleven bits of exponent are not all ones.
unfoldable pub is_finite : ℕ → Bool
is_finite bits = not (bits / 2 ^ 52 % 2 ^ 11 == 2047)

-- `numeric_scalar`
unfoldable pub numeric_scalar : Option Value → Bool
numeric_scalar (some (int64 n)) = true
numeric_scalar (some (uint64 n)) = true
numeric_scalar (some (double bits)) = is_finite bits
numeric_scalar (some (string s)) = decimal_text s
numeric_scalar _ = false
