-- ===== src/Network/Redaction.antt =====
-- src/Network/Redaction.cpp: what the reports show of a document and of a public frame.
pub mod Erasure
pub mod Frames
use test_exchanges_helper.Base.{
  ℕ, zero, suc, ◌+◌, ◌-◌, Bool, true, false, not, ◌&&◌, ◌||◌, List, [], ◌∷◌, ◌++◌, Option, none,
  some, Bytes, String, bytes_eq, bytes_lt, codes, leb, ltb, ◌==◌, is_digit, is_alpha, any, length,
  take, if◌then◌else◌,
}
use test_exchanges_helper.Json.{
  Value, null, boolean, int64, uint64, double, string, array, object, Items, nil, cons, Fields,
  field, end, size,
}

-- The letters, digits and underscores of a name, in lower case.
unfoldable pub normalized_name : Bytes → Bytes
normalized_name [] = []
normalized_name (c ∷ cs) =
    let rest = normalized_name cs in
    if is_alpha c || is_digit c || c == b'_'
    then (if leb b'A' c && leb c b'Z' then c - b'A' + b'a' else c) ∷ rest
    else rest

-- `text.starts_with(part)`, and `text.find(part) != npos`
unfoldable pub begins_with : Bytes → Bytes → Bool
begins_with [] text = true
begins_with (p ∷ ps) [] = false
begins_with (p ∷ ps) (c ∷ cs) = p == c && begins_with ps cs

unfoldable pub has_part : Bytes → Bytes → Bool
has_part part [] = begins_with part []
has_part part (c ∷ cs) = begins_with part (c ∷ cs) || has_part part cs

abbrev pub exact_names : List Bytes
exact_names =
    codes "apikey"
    ∷ codes "api_key"
    ∷ codes "key"
    ∷ codes "secret"
    ∷ codes "signature"
    ∷ codes "sign"
    ∷ codes "passphrase"
    ∷ codes "token"
    ∷ codes "listenkey"
    ∷ codes "authorization"
    ∷ codes "accountid"
    ∷ codes "account_id"
    ∷ codes "uid"
    ∷ codes "userid"
    ∷ codes "user_id"
    ∷ codes "wallet"
    ∷ codes "address"
    ∷ []

abbrev pub name_fragments : List Bytes
name_fragments =
    codes "secret"
    ∷ codes "signature"
    ∷ codes "passphrase"
    ∷ codes "privatekey"
    ∷ codes "listenkey"
    ∷ codes "authorization"
    ∷ codes "accesstoken"
    ∷ []

-- `sensitive_key`
unfoldable pub sensitive_key : Bytes → Bool
sensitive_key name =
    any (bytes_eq (normalized_name name)) exact_names
    || any (λ part. has_part part (normalized_name name)) name_fragments

abbrev pub redacted : Bytes
redacted = codes "<redacted>"

-- The fields of an object in the order of their keys, which are distinct.
unfoldable pub insert_field : Bytes → Value → Fields → Fields
insert_field key v end = field key v end
insert_field key v (field k w fs) =
    let after = field k w (insert_field key v fs) in
    if bytes_lt k key then after else field key v (field k w fs)

unfoldable pub sort_fields : Fields → Fields
sort_fields end = end
sort_fields (field key v fs) = insert_field key v (sort_fields fs)

-- `std::set<std::string>::insert`
unfoldable pub insert_key : Bytes → List Bytes → List Bytes
insert_key key [] = key ∷ []
insert_key key (k ∷ ks) =
    let after = k ∷ insert_key key ks in
    if bytes_lt key k then key ∷ k ∷ ks else if bytes_lt k key then after else k ∷ ks

-- The keys of one element of an array, and those of the first elements.
unfoldable pub field_keys : Fields → List Bytes → List Bytes
field_keys end keys = keys
field_keys (field key v fs) keys =
    field_keys fs (insert_key (if sensitive_key key then redacted else key) keys)

unfoldable pub item_keys : ℕ → Items → List Bytes → List Bytes
item_keys zero xs keys = keys
item_keys (suc left) nil keys = keys
item_keys (suc left) (cons (object fs) xs) keys = item_keys left xs (field_keys fs keys)
item_keys (suc left) (cons v xs) keys = item_keys left xs keys

unfoldable pub key_items : List Bytes → Items
key_items [] = nil
key_items (key ∷ keys) = cons (string key) (key_items keys)

-- `{{"type", "array"}, {"count", …}, {"item_keys", …}}`
unfoldable pub array_shape : Items → Value
array_shape xs = object (
    field (codes "type") (string (codes "array")) (
      field (codes "count") (uint64 (size xs))
        (field (codes "item_keys") (array (key_items (item_keys 32 xs []))) end)))

-- The name of the kind, from depth 4 on.
unfoldable pub deep_shape : Value → Value
deep_shape (object fs) = string (codes "object")
deep_shape (array xs) = string (codes "array")
deep_shape v = string (codes "scalar")

-- `shape_impl`; the depth falls to 0 where the source's rises to 4.
unfoldable mutual
  pub shape : ℕ → Value → Value
  shape left (object fs) = elim left [
    | zero ↦ deep_shape (object fs)
    | suc d ↦ object (sort_fields (shape_fields d fs))
  ]
  shape left (array xs) = elim left [ zero ↦ deep_shape (array xs) | suc d ↦ array_shape xs ]
  shape left null = elim left [ zero ↦ deep_shape null | suc d ↦ string (codes "null") ]
  shape left (boolean b) = elim left [
    | zero ↦ deep_shape (boolean b)
    | suc d ↦ string (codes "bool")
  ]
  shape left (string s) = elim left [
    | zero ↦ deep_shape (string s)
    | suc d ↦ string (codes "string")
  ]
  shape left (double x) = elim left [
    | zero ↦ deep_shape (double x)
    | suc d ↦ string (codes "double")
  ]
  shape left (int64 n) = elim left [ zero ↦ deep_shape (int64 n) | suc d ↦ string (codes "int64") ]
  shape left (uint64 n) = elim left [
    | zero ↦ deep_shape (uint64 n)
    | suc d ↦ string (codes "uint64")
  ]

  pub shape_fields : ℕ → Fields → Fields
  shape_fields left end = end
  shape_fields left (field key v fs) =
      field key (if sensitive_key key then string redacted else shape left v) (shape_fields left fs)

-- `shape_of(value, depth)`
unfoldable pub shape_of : Value → ℕ → Value
shape_of value depth = shape (4 - depth) value

abbrev pub max_raw_public_bytes : ℕ
max_raw_public_bytes = 4096

abbrev pub truncation_suffix : Bytes
truncation_suffix = codes "...<truncated>"

-- `bounded_public_frame`
unfoldable pub bounded_public_frame : Bytes → Bytes
bounded_public_frame payload =
    if leb (length payload) max_raw_public_bytes
    then payload
    else take (max_raw_public_bytes - length truncation_suffix) payload ++ truncation_suffix
