-- ===== src/Contracts/Wire.antt =====
-- src/Contracts.cpp: the wire formats of binary messages. A cursor is the text behind it.
pub mod Varint
pub mod Encoding
use test_exchanges_helper.Base.{
  ℕ, zero, suc, ◌+◌, ◌*◌, ◌%◌, ◌^◌, Bool, true, false, not, List, [], ◌∷◌, Option, none, some,
  Bytes, ltb, ◌==◌, length, drop, get_or, if◌then◌else◌, option_or,
}

-- `little_u16`; the bits of the two bytes are disjoint, so that `|` adds. Its reads are within the
-- eight bytes that the callers ask for.
unfoldable pub little_u16 : Bytes → ℕ → ℕ
little_u16 bytes offset = (get_or bytes offset 0 + get_or bytes (offset + 1) 0 * 2 ^ 8) % 2 ^ 16

-- The loop of `read_varint`, with the rounds that `shift < 64` leaves; the value so far is below
-- 2 ^ shift, so that `|=` adds.
unfoldable pub varint_from : ℕ → ℕ → ℕ → Bytes → Option (ℕ × Bytes)
varint_from zero shift value payload = none
varint_from (suc rounds) shift value [] = none
varint_from (suc rounds) shift value (byte ∷ bytes) =
    let value' = (value + byte % 2 ^ 7 * 2 ^ shift) % 2 ^ 64 in
    let later = varint_from rounds (shift + 7) value' bytes in
    if ltb byte 128 then some (value', bytes) else later

-- `read_varint`: the value, and what stands behind it. The shifts are 0, 7, …, 63.
unfoldable pub read_varint : Bytes → Option (ℕ × Bytes)
read_varint payload = varint_from 10 0 0 payload

-- `payload.size() - cursor < count`, or the cursor moves.
unfoldable pub skip : ℕ → Bytes → Option Bytes
skip count payload = if ltb (length payload) count then none else some (drop count payload)

-- The value of a field by its wire type: what stands behind it, or `return false`.
unfoldable pub skip_value : ℕ → Bytes → Option Bytes
skip_value wire payload =
    if wire == 0
    then option_or (read_varint payload) none (λ read. some read.1)
    else if wire == 1
    then skip 8 payload
    else if wire == 2
    then option_or (read_varint payload) none (λ read. skip read.0 read.1)
    else if wire == 5
    then skip 4 payload
    else none

-- One round of the loop of `valid_protobuf_wire`.
unfoldable pub skip_field : Bytes → Option Bytes
skip_field payload =
    option_or (read_varint payload) none
      (λ key. if key.0 == 0 then none else skip_value (key.0 % 2 ^ 3) key.1)

-- The loop of `valid_protobuf_wire`. Each round takes a byte at least, so the length of the
-- payload is rounds enough.
unfoldable pub fields_from : ℕ → Bool → Bytes → Bool
fields_from fuel saw_field [] = saw_field
fields_from zero saw_field (byte ∷ bytes) = false
fields_from (suc fuel) saw_field (byte ∷ bytes) =
    option_or (skip_field (byte ∷ bytes)) false (λ behind. fields_from fuel true behind)

-- `valid_protobuf_wire`
unfoldable pub valid_protobuf_wire : Bytes → Bool
valid_protobuf_wire payload = fields_from (length payload) false payload
