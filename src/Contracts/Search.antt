-- ===== src/Contracts/Search.antt =====
-- src/Contracts.cpp: the searches of a document for a text and for data. The depth that is left
-- falls to 0 where the source's depth rises above 6.
use test_exchanges_helper.Base.{
  ℕ, zero, suc, ◌-◌, Bool, true, false, ◌||◌, Option, some, Bytes, bytes_eq, codes, is_empty,
  if◌then◌else◌, option_or,
}
use test_exchanges_helper.Json.{
  Value, boolean, string, array, object, Items, nil, cons, Fields, field, end,
}
use test_exchanges_helper.Contracts.Scalars.{member, scalar_text, nonempty}
use test_exchanges_helper.Network.Redaction.{has_part}

-- `json_string_equals`
unfoldable pub json_string_equals : Fields → Bytes → Bytes → Bool
json_string_equals fs key expected = elim (member fs key) [
  | some (string s) ↦ bytes_eq s expected
  | _ ↦ false
]

-- `json_bool_true`
unfoldable pub json_bool_true : Fields → Bytes → Bool
json_bool_true fs key = elim (member fs key) [ some (boolean b) ↦ b | _ ↦ false ]

-- `value_matches_id`
unfoldable pub value_matches_id : Option Value → Bytes → Bool
value_matches_id value expected =
    if is_empty expected
    then option_or value false (λ v. true)
    else bytes_eq (scalar_text value) expected

-- The two tests that `contains_text` begins with.
unfoldable pub searched : ℕ → Bytes → Bool → Bool
searched left expected found =
    if is_empty expected then true else (elim left [ zero ↦ false | suc d ↦ found ])

-- `contains_text` with the depth that is left.
unfoldable mutual
  pub contains_within : ℕ → Value → Bytes → Bool
  contains_within left (string s) expected =
      searched left expected (bytes_eq s expected || has_part expected s)
  contains_within left (object fs) expected =
      searched left expected (field_contains (left - 1) fs expected)
  contains_within left (array xs) expected =
      searched left expected (item_contains (left - 1) xs expected)
  contains_within left v expected = searched left expected false

  pub field_contains : ℕ → Fields → Bytes → Bool
  field_contains left end expected = false
  field_contains left (field key v fs) expected =
      contains_within left v expected || field_contains left fs expected

  pub item_contains : ℕ → Items → Bytes → Bool
  item_contains left nil expected = false
  item_contains left (cons v xs) expected =
      contains_within left v expected || item_contains left xs expected

-- `contains_text(value, expected)`
unfoldable pub contains_text : Value → Bytes → Bool
contains_text value expected = contains_within 7 value expected

-- The member that an object is judged by: `data`, or else `tick`.
unfoldable pub payload_member : Fields → Option Value
payload_member fs = option_or (member fs (codes "data")) (member fs (codes "tick")) (λ v. some v)

abbrev pub has_fields : Fields → Bool
has_fields end = false
has_fields (field key v fs) = true

abbrev pub has_items : Items → Bool
has_items nil = false
has_items (cons v xs) = true

-- `contains_nonempty_data` with the depth that is left.
unfoldable mutual
  pub nonempty_within : ℕ → Value → Bool
  nonempty_within left (object fs) =
      let deeper = any_nonempty (left - 1) fs in
      elim left [
        | zero ↦ false
        | suc d ↦ option_or (payload_member fs) (deeper || has_fields fs) (λ v. nonempty (some v))
      ]
  nonempty_within left (array xs) = elim left [ zero ↦ false | suc d ↦ has_items xs ]
  nonempty_within left v = false

  pub any_nonempty : ℕ → Fields → Bool
  any_nonempty left end = false
  any_nonempty left (field key v fs) = nonempty_within left v || any_nonempty left fs

-- `contains_nonempty_data(value)`
unfoldable pub contains_nonempty_data : Value → Bool
contains_nonempty_data value = nonempty_within 7 value
