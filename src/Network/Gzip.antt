-- ===== src/Network/Gzip.antt =====
-- src/Network/Gzip.cpp. A read behind the end of the input is a fault of the model, so that a
-- theorem can say that there is none. boost's inflater and its checksum are parameters.
pub mod Safety
use Prim.Native.Nat.{bit_and, bit_or}
use test_exchanges_helper.Base.{
  ℕ, zero, suc, ◌+◌, ◌-◌, ◌*◌, ◌%◌, ◌^◌, min, Bool, true, false, not, ◌||◌, List, [], ◌∷◌, Option,
  none, some, Bytes, String, leb, ltb, ◌==◌, length, get_elem?, take, drop, if◌then◌else◌,
}

-- The outcome of a step: a value, `return false` with a message, or a read out of bounds.
pub data Outcome {ℓ} (A : Type ℓ) : Type ℓ where
  value : A → Outcome A
  refused : String → Outcome A
  fault : Outcome A

infixl 5 ◌>>=◌ ◌>>◌
abbrev pub ◌>>=◌ {ℓ κ} : {A : Type ℓ} {B : Type κ} → Outcome A → (A → Outcome B) → Outcome B
value a >>= f = f a
refused e >>= f = refused e
fault >>= f = fault

abbrev pub ◌>>◌ {ℓ} : {B : Type ℓ} → Outcome (Unit {0}) → Outcome B → Outcome B
m >> k = m >>= λ _. k

abbrev pub refuse_if : Bool → String → Outcome (Unit {0})
refuse_if true e = refused e
refuse_if false e = value tt

-- `input[index]`
unfoldable pub byte_at : Bytes → ℕ → Outcome ℕ
byte_at [] i = fault
byte_at (b ∷ bs) zero = value b
byte_at (b ∷ bs) (suc i) = byte_at bs i

-- `little_u16`
unfoldable pub little_u16 : Bytes → ℕ → Outcome ℕ
little_u16 bytes offset = do
  low ← byte_at bytes offset
  high ← byte_at bytes (offset + 1)
  value (bit_or low (high * 2 ^ 8) % 2 ^ 16)

-- `little_u32`
unfoldable pub little_u32 : Bytes → ℕ → Outcome ℕ
little_u32 bytes offset = do
  first ← byte_at bytes offset
  second ← byte_at bytes (offset + 1)
  third ← byte_at bytes (offset + 2)
  fourth ← byte_at bytes (offset + 3)
  value
      (bit_or first (bit_or (second * 2 ^ 8) (bit_or (third * 2 ^ 16) (fourth * 2 ^ 24))) % 2 ^ 32)

-- `skip_zero_terminated`; the rounds left are `limit - cursor`. `none` is `return false`.
unfoldable pub skip_from : ℕ → Bytes → ℕ → Outcome (Option ℕ)
skip_from zero input cursor = value none
skip_from (suc left) input cursor = do
  byte ← byte_at input cursor
  let more = skip_from left input (cursor + 1)
  if byte == 0 then value (some (cursor + 1)) else more

unfoldable pub skip_zero_terminated : Bytes → ℕ → ℕ → Outcome (Option ℕ)
skip_zero_terminated input cursor limit = skip_from (limit - cursor) input cursor

-- The first checks: the size, then the three magic bytes, read only in an input that is long enough.
unfoldable pub check_magic : Bytes → Outcome (Unit {0})
check_magic input = do
  refuse_if (ltb (length input) 18) "gzip_header_invalid"
  first ← byte_at input 0
  refuse_if (not (first == 0x1f)) "gzip_header_invalid"
  second ← byte_at input 1
  refuse_if (not (second == 0x8b)) "gzip_header_invalid"
  third ← byte_at input 2
  refuse_if (not (third == 8)) "gzip_header_invalid"

-- `(flags & mask) != 0`
abbrev pub has_flag : ℕ → ℕ → Bool
has_flag flags mask = not (bit_and flags mask == 0)

-- The extra field.
unfoldable pub skip_extra : Bytes → ℕ → ℕ → Outcome ℕ
skip_extra input trailer cursor = do
  refuse_if (ltb (trailer - min trailer cursor) 2) "gzip_extra_length_missing"
  extra_size ← little_u16 input cursor
  refuse_if (ltb (trailer - min trailer (cursor + 2)) extra_size) "gzip_extra_overflow"
  value (cursor + 2 + extra_size)

-- A name or a comment: `!skip_zero_terminated(…)` refuses with the message.
unfoldable pub skip_text : String → Bytes → ℕ → ℕ → Outcome ℕ
skip_text message input trailer cursor = do
  found ← skip_zero_terminated input cursor trailer
  elim found [ none ↦ refused message | some next ↦ value next ]

-- The checksum of the header.
unfoldable pub skip_header_crc : Bytes → ℕ → ℕ → Outcome ℕ
skip_header_crc input trailer cursor = do
  refuse_if (ltb (trailer - min trailer cursor) 2) "gzip_header_crc_missing"
  value (cursor + 2)

-- A part of the header that its flag announces.
abbrev pub optional : Bool → (ℕ → Outcome ℕ) → ℕ → Outcome ℕ
optional present skip cursor = if present then skip cursor else value cursor

-- The parts of the header behind the fixed one, each where its flag is set, and the last check.
unfoldable pub read_crc : Bytes → ℕ → ℕ → Outcome ℕ
read_crc input flags cursor = do
  data_start ← optional (has_flag flags 0x02) (skip_header_crc input (length input - 8)) cursor
  refuse_if (leb (length input - 8) data_start) "gzip_deflate_missing"
  value data_start

unfoldable pub read_comment : Bytes → ℕ → ℕ → Outcome ℕ
read_comment input flags cursor = do
  next ←
      optional (has_flag flags 0x10)
        (skip_text "gzip_comment_unterminated" input (length input - 8)) cursor
  read_crc input flags next

unfoldable pub read_name : Bytes → ℕ → ℕ → Outcome ℕ
read_name input flags cursor = do
  next ←
      optional (has_flag flags 0x08) (skip_text "gzip_name_unterminated" input (length input - 8))
        cursor
  read_comment input flags next

unfoldable pub read_extra : Bytes → ℕ → ℕ → Outcome ℕ
read_extra input flags cursor = do
  next ← optional (has_flag flags 0x04) (skip_extra input (length input - 8)) cursor
  read_name input flags next

-- The header, up to the first byte of the compressed data.
unfoldable pub read_header : Bytes → Outcome ℕ
read_header input = do
  check_magic input
  flags ← byte_at input 3
  refuse_if (has_flag flags 0xe0) "gzip_reserved_flags"
  read_extra input flags 10

-- `inflate_error`
pub data InflateCode : Type 0 where
  no_error end_of_stream : InflateCode
  failed : String → InflateCode

-- What one call of `inflater.write` leaves: the error, `avail_in`, and the bytes written, as many
-- as `total_out`.
pub record Inflated : Type 0 where
  pub code : InflateCode
  pub avail_in : ℕ
  pub written : Bytes

-- boost's part: inflating a slice into a buffer of a size, the message of `end_of_stream`, and
-- the checksum.
pub record Zlib : Type 0 where
  pub inflate : Bytes → ℕ → Inflated
  pub end_message : String
  pub crc_32 : Bytes → ℕ

abbrev pub is_end_of_stream : InflateCode → Bool
is_end_of_stream end_of_stream = true
is_end_of_stream _ = false

-- `inflate_error ? inflate_error.message() : "gzip_trailing_deflate"`
unfoldable pub inflate_message : Zlib → InflateCode → String
inflate_message zlib no_error = "gzip_trailing_deflate"
inflate_message zlib end_of_stream = zlib.end_message
inflate_message zlib (failed message) = message

-- `input` between the cursor and the trailer
unfoldable pub deflated : Bytes → ℕ → Bytes
deflated input cursor = take (length input - 8 - cursor) (drop cursor input)

-- The checks on what the inflater left.
unfoldable pub check_inflated : Zlib → Bytes → ℕ → ℕ → Inflated → Outcome Bytes
check_inflated zlib input output_limit expected_size result = do
  refuse_if (not (is_end_of_stream result.code) || not (result.avail_in == 0))
      (inflate_message zlib result.code)
  refuse_if
      (ltb output_limit (length result.written) || not (length result.written == expected_size))
      "gzip_output_size_mismatch"
  expected_crc ← little_u32 input (length input - 8)
  refuse_if (not (zlib.crc_32 result.written == expected_crc)) "gzip_crc_mismatch"
  value result.written

-- `decode_gzip_bounded`
unfoldable pub decode_gzip_bounded : Zlib → Bytes → ℕ → Outcome Bytes
decode_gzip_bounded zlib input output_limit = do
  cursor ← read_header input
  expected_size ← little_u32 input (length input - 4)
  refuse_if (ltb output_limit expected_size) "gzip_output_capacity_exceeded"
  check_inflated zlib input output_limit expected_size
      (zlib.inflate (deflated input cursor) (min (output_limit + 1) (expected_size + 1)))
