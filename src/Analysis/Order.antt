-- ===== src/Analysis/Order.antt =====
-- The two orders on numerals kept as text: `DecimalLess` of ResearchAnalysisInternal.hpp, by which
-- the sides of a book are sorted, and `native_id_less` of Book.cpp.
pub mod DecimalLaws
pub mod NativeId
pub mod DecimalValue
use test_exchanges_helper.Base.{
  ℕ, zero, suc, ◌+◌, ◌-◌, ◌*◌, ◌^◌, ◌≡◌, Bool, true, false, not, ◌&&◌, ◌||◌, List, [], ◌∷◌, Bytes,
  bytes_eq, bytes_lt, is_digit, is_empty, length, all, ltb, leb, ◌==◌, if◌then◌else◌,
}

-- `lhs < rhs` on plain `char`, which is signed on the program's targets: the bytes from 128 on
-- are negative.
unfoldable pub char_lt : ℕ → ℕ → Bool
char_lt a b =
    if leb 128 a
    then (if leb 128 b then ltb a b else true)
    else (if leb 128 b then false else ltb a b)

-- `value.substr(0, value.find('.'))` and `value.substr(value.find('.') + 1)`
unfoldable pub before_point : Bytes → Bytes
before_point [] = []
before_point (c ∷ cs) = if c == b'.' then [] else c ∷ before_point cs

unfoldable pub after_point : Bytes → Bytes
after_point [] = []
after_point (c ∷ cs) = if c == b'.' then cs else after_point cs

-- `text.substr(text.find_first_not_of('0'))`, empty where every byte is '0'
unfoldable pub drop_zeros : Bytes → Bytes
drop_zeros [] = []
drop_zeros (c ∷ cs) = if c == b'0' then drop_zeros cs else c ∷ cs

-- `first == npos ? "0" : text.substr(first)`
unfoldable pub strip_zeros : Bytes → Bytes
strip_zeros text = if is_empty (drop_zeros text) then b'0' ∷ [] else drop_zeros text

-- `while (!fraction.empty() && fraction.back() == '0') fraction.pop_back();`
unfoldable pub trim_zeros : Bytes → Bytes
trim_zeros [] = []
trim_zeros (c ∷ cs) = if is_empty (trim_zeros cs) && c == b'0' then [] else c ∷ trim_zeros cs

-- The loop over both fractions, the shorter one continued by '0'.
unfoldable pub fraction_less : Bytes → Bytes → Bool
fraction_less [] [] = false
fraction_less [] (y ∷ ys) = if not (b'0' == y) then char_lt b'0' y else fraction_less [] ys
fraction_less (x ∷ xs) [] = if not (x == b'0') then char_lt x b'0' else fraction_less xs []
fraction_less (x ∷ xs) (y ∷ ys) = if not (x == y) then char_lt x y else fraction_less xs ys

-- `normalize`, both parts
unfoldable pub integer_part : Bytes → Bytes
integer_part value = strip_zeros (before_point value)

unfoldable pub fraction_part : Bytes → Bytes
fraction_part value = trim_zeros (after_point value)

-- The comparison of two normalized pairs.
unfoldable pub normalized_less : Bytes → Bytes → Bytes → Bytes → Bool
normalized_less left left_fraction right right_fraction =
    if not (length left == length right)
    then ltb (length left) (length right)
    else if not (bytes_eq left right)
    then bytes_lt left right
    else fraction_less left_fraction right_fraction

-- `DecimalLess::operator()`
unfoldable pub decimal_less : Bytes → Bytes → Bool
decimal_less lhs rhs =
    normalized_less (integer_part lhs) (fraction_part lhs) (integer_part rhs) (fraction_part rhs)

-- `native_id_less`
unfoldable pub all_digits : Bytes → Bool
all_digits text = not (is_empty text) && all is_digit text

unfoldable pub native_id_less : Bytes → Bytes → Bool
native_id_less lhs rhs =
    if all_digits lhs && all_digits rhs
    then (if not (length (strip_zeros lhs) == length (strip_zeros rhs))
        then ltb (length (strip_zeros lhs)) (length (strip_zeros rhs))
        else bytes_lt (strip_zeros lhs) (strip_zeros rhs))
    else bytes_lt lhs rhs
