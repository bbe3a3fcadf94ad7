-- ===== src/Contracts/Wire/Encoding.antt =====
-- src/Contracts.cpp, valid_protobuf_wire: the messages that protobuf encodes.
use mathlib.Core.List.{append_assoc}
use test_exchanges_helper.Base.{
  ℕ, zero, suc, ◌+◌, ◌*◌, ◌^◌, ◌≤◌, ◌<◌, ◌≡◌, refl, sym, ◌∙◌, ap, Bool, true, false, not, ◌&&◌, all,
  none, if◌then◌else◌, List, [], ◌∷◌, ◌++◌, some, Bytes, ltb, length, length-append, drop, All,
  arith,
}
use test_exchanges_helper.Contracts.Wire.{
  skip, skip_value, skip_field, fields_from, valid_protobuf_wire,
}
use test_exchanges_helper.Contracts.Wire.Varint.{encode_varint, read_varint-encode_varint}

-- The fields that protobuf encodes, by their numbers; a group stands between its two markers.
pub data WireField : Type 0 where
  varint : ℕ → ℕ → WireField
  fixed64 : ℕ → Bytes → WireField
  delimited : ℕ → Bytes → WireField
  fixed32 : ℕ → Bytes → WireField
  start_group : ℕ → WireField
  end_group : ℕ → WireField

-- Wire types 3 and 4.
unfoldable pub is_group : WireField → Bool
is_group (start_group number) = true
is_group (end_group number) = true
is_group f = false

abbrev key_of : ℕ → ℕ → Bytes
key_of number wire = encode_varint 10 (number * 8 + wire)

unfoldable pub encode_field : WireField → Bytes
encode_field (varint number value) = key_of number 0 ++ encode_varint 10 value
encode_field (fixed64 number bytes) = key_of number 1 ++ bytes
encode_field (delimited number bytes) =
    key_of number 2 ++ (encode_varint 10 (length bytes) ++ bytes)
encode_field (fixed32 number bytes) = key_of number 5 ++ bytes
encode_field (start_group number) = key_of number 3
encode_field (end_group number) = key_of number 4

unfoldable pub encode_fields : List WireField → Bytes
encode_fields [] = []
encode_fields (f ∷ fs) = encode_field f ++ encode_fields fs

-- Field numbers are positive, and of 29 bits; what has a fixed width has it.
abbrev IsNumber : ℕ → Type 0
IsNumber number = (0 < number) × (number < 2 ^ 29)

unfoldable pub IsField : WireField → Type 0
IsField (varint number value) = IsNumber number × (value < 2 ^ 64)
IsField (fixed64 number bytes) = IsNumber number × (length bytes ≡ 8)
IsField (delimited number bytes) = IsNumber number × (length bytes < 2 ^ 64)
IsField (fixed32 number bytes) = IsNumber number × (length bytes ≡ 4)
IsField (start_group number) = IsNumber number
IsField (end_group number) = IsNumber number

drop-length : (bytes t : Bytes) → drop (length bytes) (bytes ++ t) ≡ t
drop-length [] t = refl
drop-length (b ∷ bytes) t = drop-length bytes t

long_enough : (bytes t : Bytes) → ltb (length (bytes ++ t)) (length bytes) ≡ false
long_enough bytes t = ground (arith, length-append bytes t)

skip-length : (bytes t : Bytes) → skip (length bytes) (bytes ++ t) ≡ some t
unfolding skip
skip-length bytes t = rw (long_enough bytes t) (ap (λ b. some b) (drop-length bytes t))

skip_key :
    (number wire : ℕ) (t : Bytes)
    → IsNumber number
    → wire < 8
    → skip_field (key_of number wire ++ t) ≡ skip_value wire t
unfolding skip_field
skip_key number wire t h small =
    rw (read_varint-encode_varint (number * 8 + wire) t (omega arith)) (ground (arith, h.0))

skip_varint :
    (value : ℕ) (t : Bytes) → value < 2 ^ 64 → skip_value 0 (encode_varint 10 value ++ t) ≡ some t
unfolding skip_value
skip_varint value t h = rw (read_varint-encode_varint value t h) refl

skip_fixed64 : (bytes t : Bytes) → length bytes ≡ 8 → skip_value 1 (bytes ++ t) ≡ some t
unfolding skip_value
skip_fixed64 bytes t h = ap (λ n. skip n (bytes ++ t)) (sym h) ∙ skip-length bytes t

skip_delimited :
    (bytes t : Bytes)
    → length bytes < 2 ^ 64
    → skip_value 2 (encode_varint 10 (length bytes) ++ (bytes ++ t)) ≡ some t
unfolding skip_value
skip_delimited bytes t h =
    rw (read_varint-encode_varint (length bytes) (bytes ++ t) h) (skip-length bytes t)

skip_fixed32 : (bytes t : Bytes) → length bytes ≡ 4 → skip_value 5 (bytes ++ t) ≡ some t
unfolding skip_value
skip_fixed32 bytes t h = ap (λ n. skip n (bytes ++ t)) (sym h) ∙ skip-length bytes t

skip_field-encode_field :
    (f : WireField) (t : Bytes)
    → IsField f
    → skip_field (encode_field f ++ t) ≡ (if is_group f then none else some t)
unfolding IsField encode_field is_group
skip_field-encode_field (varint number value) t h =
    ap skip_field (append_assoc (key_of number 0) (encode_varint 10 value) t)
    ∙ skip_key number 0 _ h.0 (omega arith)
    ∙ skip_varint value t h.1
skip_field-encode_field (fixed64 number bytes) t h =
    ap skip_field (append_assoc (key_of number 1) bytes t)
    ∙ skip_key number 1 _ h.0 (omega arith)
    ∙ skip_fixed64 bytes t h.1
skip_field-encode_field (delimited number bytes) t h =
    ap skip_field (append_assoc (key_of number 2) (encode_varint 10 (length bytes) ++ bytes) t)
    ∙ skip_key number 2 _ h.0 (omega arith)
    ∙ ap (skip_value 2) (append_assoc (encode_varint 10 (length bytes)) bytes t)
    ∙ skip_delimited bytes t h.1
skip_field-encode_field (fixed32 number bytes) t h =
    ap skip_field (append_assoc (key_of number 5) bytes t)
    ∙ skip_key number 5 _ h.0 (omega arith)
    ∙ skip_fixed32 bytes t h.1
skip_field-encode_field (start_group number) t h =
    skip_key number 3 t h (omega arith) ∙ (unfold skip_value in refl)
skip_field-encode_field (end_group number) t h =
    skip_key number 4 t h (omega arith) ∙ (unfold skip_value in refl)

encode_varint-length : (rounds n : ℕ) → 1 ≤ length (encode_varint (suc rounds) n)
unfolding encode_varint
encode_varint-length rounds n = ground arith

key_first : (n : ℕ) (t : Bytes) → 1 ≤ length (encode_varint 10 n ++ t)
key_first n t = omega (arith, length-append (encode_varint 10 n) t, encode_varint-length 9 n)

encode_field-length : (f : WireField) → 1 ≤ length (encode_field f)
unfolding encode_field
encode_field-length (varint number value) = key_first (number * 8 + 0) (encode_varint 10 value)
encode_field-length (fixed64 number bytes) = key_first (number * 8 + 1) bytes
encode_field-length (delimited number bytes) = key_first (number * 8 + 2) _
encode_field-length (fixed32 number bytes) = key_first (number * 8 + 5) bytes
encode_field-length (start_group number) = encode_varint-length 9 (number * 8 + 3)
encode_field-length (end_group number) = encode_varint-length 9 (number * 8 + 4)

-- A round over a field.
fields_from_field :
    (fuel : ℕ) (saw group : Bool) (payload behind : Bytes)
    → 1 ≤ length payload
    → skip_field payload ≡ (if group then none else some behind)
    → fields_from (suc fuel) saw payload ≡ not group && fields_from fuel true behind
unfolding fields_from
fields_from_field fuel saw group [] behind long skipped = ground arith
fields_from_field fuel saw true (b ∷ bytes) behind long skipped = rw skipped refl
fields_from_field fuel saw false (b ∷ bytes) behind long skipped = rw skipped refl

encoded_round :
    (fuel : ℕ) (saw : Bool) (f : WireField) (t : Bytes)
    → IsField f
    → fields_from (suc fuel) saw (encode_field f ++ t) ≡ not (is_group f) && fields_from fuel true t
encoded_round fuel saw f t h =
    fields_from_field fuel saw (is_group f) (encode_field f ++ t) t
      (omega (arith, length-append (encode_field f) t, encode_field-length f))
      (skip_field-encode_field f t h)

abbrev pub has_no_group : List WireField → Bool
has_no_group fs = all (λ f. not (is_group f)) fs

-- Enough rounds for the bytes that are left.
fields_from-encode_fields :
    (fs : List WireField) (fuel : ℕ)
    → All IsField fs
    → length (encode_fields fs) ≤ fuel
    → fields_from fuel true (encode_fields fs) ≡ has_no_group fs
unfolding encode_fields
fields_from-encode_fields [] fuel h enough = unfold fields_from in refl
fields_from-encode_fields (f ∷ fs) zero h enough =
    ground (arith, enough, length-append (encode_field f) (encode_fields fs), encode_field-length f)
fields_from-encode_fields (f ∷ fs) (suc fuel) h enough =
    encoded_round fuel true f (encode_fields fs) h.0
    ∙ ap (λ b. not (is_group f) && b)
        (fields_from-encode_fields fs fuel h.1 (
          omega (
            arith,
            enough,
            length-append (encode_field f) (encode_fields fs),
            encode_field-length f,
          )))

message_rounds :
    (n : ℕ) (f : WireField) (fs : List WireField)
    → IsField f
    → All IsField fs
    → length (encode_fields (f ∷ fs)) ≡ n
    → fields_from n false (encode_fields (f ∷ fs)) ≡ has_no_group (f ∷ fs)
unfolding encode_fields
message_rounds zero f fs h hs e =
    ground (arith, e, length-append (encode_field f) (encode_fields fs), encode_field-length f)
message_rounds (suc fuel) f fs h hs e =
    encoded_round fuel false f (encode_fields fs) h
    ∙ ap (λ b. not (is_group f) && b)
        (fields_from-encode_fields fs fuel hs (
          omega
            (arith, e, length-append (encode_field f) (encode_fields fs), encode_field-length f)))

-- A message of one field or more, of any wire type that protobuf has, with field numbers of 29
-- bits, passes as valid exactly where no field is the start or the end of a group.
pub valid_protobuf_wire-encode_fields :
    (f : WireField) (fs : List WireField)
    → IsField f
    → All IsField fs
    → valid_protobuf_wire (encode_fields (f ∷ fs)) ≡ has_no_group (f ∷ fs)
valid_protobuf_wire-encode_fields f fs h hs =
    unfold valid_protobuf_wire in message_rounds _ f fs h hs refl
