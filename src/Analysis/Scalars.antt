-- ===== src/Analysis/Scalars.antt =====
-- src/Research/Analysis/Normalization.cpp: scalars, timestamps, the hash, and paths into a document.
pub mod Time
pub mod Path
use test_exchanges_helper.Base.{
  ℕ, zero, suc, ◌+◌, ◌*◌, ◌/◌, ◌%◌, ◌^◌, ◌-◌, ◌≡◌, Bool, true, false, not, ◌||◌, List, [], ◌∷◌,
  ◌++◌, Option, none, some, Bytes, String, bytes_eq, codes, ltb, leb, ◌==◌, is_empty, length,
  if◌then◌else◌,
}
use test_exchanges_helper.Base.Int.{ℤ, pos, negsuc}
use test_exchanges_helper.Base.Decimal.{to_string, from_chars}
use test_exchanges_helper.Json.{
  Value, Items, null, boolean, int64, uint64, double, string, array, object, if_contains, size, at,
}
use Prim.Native.Nat.{bit_xor}

-- `std::to_string` of a signed number
unfoldable pub int_to_string : ℤ → Bytes
int_to_string (pos n) = to_string n
int_to_string (negsuc n) = b'-' ∷ to_string (n + 1)

-- `scalar_text`; `serialize` is boost's text of a double.
unfoldable pub scalar_text : (ℕ → Bytes) → Option Value → Bytes
scalar_text serialize none = []
scalar_text serialize (some (string s)) = s
scalar_text serialize (some (uint64 n)) = to_string n
scalar_text serialize (some (int64 n)) = int_to_string n
scalar_text serialize (some (double d)) = serialize d
scalar_text serialize (some (boolean b)) = if b then codes "true" else codes "false"
scalar_text serialize (some v) = []

-- A number that fills the whole text.
whole_number : Option (ℕ × Bytes) → Option ℕ
whole_number none = none
whole_number (some (n, [])) = some n
whole_number (some (n, c ∷ cs)) = none

-- `scalar_u64`
unfoldable pub scalar_u64 : Option Value → Option ℕ
unfolding whole_number
scalar_u64 none = none
scalar_u64 (some (uint64 n)) = some n
scalar_u64 (some (int64 (pos n))) = some n
scalar_u64 (some (string s)) = whole_number (from_chars s)
scalar_u64 (some v) = none

abbrev pub u64_max : ℕ
u64_max = 18446744073709551615

-- The multiplier of a unit; `none` is the unknown unit.
unfoldable pub unit_multiplier : Bytes → Option ℕ
unit_multiplier unit =
    if bytes_eq unit (codes "ns")
    then some 1
    else if bytes_eq unit (codes "us")
    then some 1000
    else if bytes_eq unit (codes "ms")
    then some 1000000
    else if bytes_eq unit (codes "s")
    then some 1000000000
    else none

-- The product in 64 bits, guarded by the division.
unfoldable pub scaled : ℕ → ℕ → Option ℕ
scaled raw multiplier =
    if ltb (u64_max / multiplier) raw then none else some ((raw * multiplier) % 2 ^ 64)

infixl 5 ◌>>=◌
abbrev ◌>>=◌ {ℓ κ} : {A : Type ℓ} {B : Type κ} → Option A → (A → Option B) → Option B
none >>= k = none
some a >>= k = k a

-- `timestamp_ns`
unfoldable pub timestamp_ns : Option Value → Bytes → Option ℕ
timestamp_ns value unit = do
  raw ← scalar_u64 value
  multiplier ← unit_multiplier unit
  scaled raw multiplier

-- One round of `fnv1a`, in 64 bits.
unfoldable pub fnv1a_round : ℕ → ℕ → ℕ
fnv1a_round hash character = (bit_xor hash character * 1099511628211) % 2 ^ 64

unfoldable pub fnv1a_from : ℕ → Bytes → ℕ
fnv1a_from hash [] = hash
fnv1a_from hash (c ∷ cs) = fnv1a_from (fnv1a_round hash c) cs

unfoldable pub fnv1a : Bytes → ℕ
fnv1a value = fnv1a_from 1469598103934665603 value

-- `path.substr(begin, path.find('.', begin) - begin)`: the token before the next point, and what
-- stands behind the point, if there is one.
unfoldable pub split_token : Bytes → Bytes × Option Bytes
split_token [] = ([], none)
split_token (c ∷ cs) =
    if c == b'.' then ([], some cs) else (c ∷ (split_token cs).0, (split_token cs).1)

-- `current->as_array()[index]`, with the text of the index
index_into : Items → Option ℕ → Option Value
index_into xs none = none
index_into xs (some i) = if ltb i (size xs) then at xs i else none

-- One step of the walk: a member of an object, an element of an array.
unfoldable pub descend : Value → Bytes → Option Value
unfolding index_into whole_number
descend (object fs) token = if_contains token fs
descend (array xs) token = index_into xs (whole_number (from_chars token))
descend v token = none

-- The loop of `json_path`. Each round takes a token and a point off the path, so its length and
-- one more are rounds enough; a path that ends in a point has an empty last token.
unfoldable pub walk : ℕ → Value → Bytes → Option Value
walk zero current path = none
walk (suc fuel) current path =
    let next = descend current (split_token path).0 >>= λ value. elim (split_token path).1 [
      | none ↦ some value
      | some rest ↦ walk fuel value rest
    ] in
    if is_empty (split_token path).0 then none else next

-- `path.starts_with("$.") ? 2 : 0`
unfoldable pub path_start : Bytes → Bytes
path_start (c ∷ d ∷ path) = if bytes_eq (c ∷ d ∷ []) (codes "$.") then path else c ∷ d ∷ path
path_start path = path

unfoldable pub json_path : Value → Bytes → Option Value
json_path root path =
    if is_empty path || bytes_eq path (codes "$")
    then some root
    else walk (suc (length path)) root (path_start path)
