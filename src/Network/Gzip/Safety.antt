-- ===== src/Network/Gzip/Safety.antt =====
-- About the reads of the gzip decoder and the cursor in its input.
use Prim.Native.Nat.{bit_or}
use test_exchanges_helper.Base.{
  ℕ, zero, suc, ◌+◌, ◌-◌, ◌*◌, ◌%◌, ◌^◌, ◌≤◌, ◌<◌, ◌≡◌, refl, Bool, true, false, [], ◌∷◌, Option,
  none, some, Bytes, String, leb, ltb, ◌==◌, length, if◌then◌else◌, arith,
}
use test_exchanges_helper.Network.Gzip.{
  Outcome, value, refused, fault, ◌>>=◌, refuse_if, byte_at, little_u16, little_u32, skip_from,
  skip_zero_terminated, check_magic, has_flag, skip_extra, skip_text, skip_header_crc, optional,
  read_crc, read_comment, read_name, read_extra, read_header, Zlib, Inflated, check_inflated,
  decode_gzip_bounded,
}

-- No fault, and a postcondition of the value.
abbrev pub Safe {ℓ} : {A : Type ℓ} → (A → Type 0) → Outcome A → Type 0
Safe P (value a) = P a
Safe P (refused e) = Unit
Safe P fault = ⊥

abbrev Any {ℓ} : {A : Type ℓ} → A → Type 0
Any a = Unit

-- The rule for a step and what follows it.
pub Safe-bind {ℓ κ} :
    {A : Type ℓ} {B : Type κ} (P : A → Type 0) (Q : B → Type 0) (m : Outcome A) (f : A → Outcome B)
    → Safe P m
    → ((a : A) → P a → Safe Q (f a))
    → Safe Q (m >>= f)
Safe-bind P Q (value a) f h k = k a h
Safe-bind P Q (refused e) f h k = tt
Safe-bind P Q fault f h k = absurd h

Safe-refuse_if {ℓ} :
    {B : Type ℓ} (Q : B → Type 0) (b : Bool) (e : String) (k : Outcome B)
    → (b ≡ false → Safe Q k)
    → Safe Q (refuse_if b e >>= λ _. k)
Safe-refuse_if Q true e k h = tt
Safe-refuse_if Q false e k h = h refl

pub byte_at_reads : (bs : Bytes) (i : ℕ) → i < length bs → (b : ℕ) × (byte_at bs i ≡ value b)
unfolding byte_at
byte_at_reads [] i h = absurd (omega arith)
byte_at_reads (b ∷ bs) zero h = (b, refl)
byte_at_reads (b ∷ bs) (suc i) h = byte_at_reads bs i (omega arith)

pub little_u16_reads :
    (bs : Bytes) (i : ℕ) → i + 1 < length bs → (n : ℕ) × (little_u16 bs i ≡ value n)
unfolding little_u16
little_u16_reads bs i h =
    let (a, p) = byte_at_reads bs i (omega arith) in
    let (b, q) = byte_at_reads bs (i + 1) h in (bit_or a (b * 2 ^ 8) % 2 ^ 16, rw (p, q) refl)

pub little_u32_reads :
    (bs : Bytes) (i : ℕ) → i + 3 < length bs → (n : ℕ) × (little_u32 bs i ≡ value n)
unfolding little_u32
little_u32_reads bs i h =
    let (a, p) = byte_at_reads bs i (omega arith) in
    let (b, q) = byte_at_reads bs (i + 1) (omega arith) in
    let (c, r) = byte_at_reads bs (i + 2) (omega arith) in
    let (d, t) = byte_at_reads bs (i + 3) h in
    (
      bit_or a (bit_or (b * 2 ^ 8) (bit_or (c * 2 ^ 16) (d * 2 ^ 24))) % 2 ^ 32,
      rw (p, q, r, t) refl,
    )

-- The cursor that a search leaves is between its start and the limit.
abbrev Within : ℕ → ℕ → Option ℕ → Type 0
Within start limit none = Unit
Within start limit (some next) = (start ≤ next) × (next ≤ limit)

skip_from-Safe :
    (left : ℕ) (input : Bytes) (cursor : ℕ)
    → cursor + left ≤ length input
    → Safe (Within cursor (cursor + left)) (skip_from left input cursor)
unfolding skip_from
skip_from-Safe zero input cursor h = tt
skip_from-Safe (suc left) input cursor h =
    let (byte, e) = byte_at_reads input cursor (omega arith) in
    rw e (found (byte == 0) (later (skip_from-Safe left input (cursor + 1) (omega arith))))
  where
    widen :
        (m : Outcome (Option ℕ))
        → Safe (Within (cursor + 1) (cursor + 1 + left)) m
        → Safe (Within cursor (cursor + suc left)) m
    widen (value none) k = tt
    widen (value (some next)) k = omega (arith, k)
    widen (refused e) k = tt
    widen fault k = k

    later :
        Safe (Within (cursor + 1) (cursor + 1 + left)) (skip_from left input (cursor + 1))
        → Safe (Within cursor (cursor + suc left)) (skip_from left input (cursor + 1))
    later k = widen (skip_from left input (cursor + 1)) k

    found :
        (b : Bool)
        → Safe (Within cursor (cursor + suc left)) (skip_from left input (cursor + 1))
        → Safe
            (Within cursor (cursor + suc left))
            (if b then value (some (cursor + 1)) else skip_from left input (cursor + 1))
    found true k = omega arith
    found false k = k

-- Where the header's parts may leave the cursor: behind the fixed part, within the input less its
-- eight bytes of trailer.
abbrev InHeader : ℕ → ℕ → Type 0
InHeader trailer cursor = (10 ≤ cursor) × (cursor ≤ trailer)

module _ (input : Bytes) (trailer : ℕ) (within : trailer + 8 ≤ length input) where
  skip_extra-Safe :
      (cursor : ℕ)
      → InHeader trailer cursor
      → Safe (InHeader trailer) (skip_extra input trailer cursor)
  unfolding skip_extra
  skip_extra-Safe cursor h = ground (arith, within, little_u16_reads input cursor)

  skip_text-Safe :
      (message : String) (cursor : ℕ)
      → InHeader trailer cursor
      → Safe (InHeader trailer) (skip_text message input trailer cursor)
  unfolding skip_text skip_zero_terminated
  skip_text-Safe message cursor h =
      go (skip_from (trailer - cursor) input cursor)
        (skip_from-Safe (trailer - cursor) input cursor (omega (arith, within, h)))
    where
      go :
          (m : Outcome (Option ℕ))
          → Safe (Within cursor (cursor + (trailer - cursor))) m
          → Safe
              (InHeader trailer)
              (m >>= λ found. elim found [ none ↦ refused message | some next ↦ value next ])
      go (value none) k = tt
      go (value (some next)) k = omega (arith, k, h)
      go (refused e) k = tt
      go fault k = absurd k

  skip_header_crc-Safe :
      (cursor : ℕ)
      → InHeader trailer cursor
      → Safe (InHeader trailer) (skip_header_crc input trailer cursor)
  unfolding skip_header_crc
  skip_header_crc-Safe cursor h = ground arith

  -- A part that may be absent, and what is done with the cursor behind it.
  optional-Safe :
      (present : Bool) (skip : ℕ → Outcome ℕ) (cursor : ℕ)
      → ((c : ℕ) → InHeader trailer c → Safe (InHeader trailer) (skip c))
      → InHeader trailer cursor
      → Safe (InHeader trailer) (optional present skip cursor)
  optional-Safe true skip cursor k h = k cursor h
  optional-Safe false skip cursor k h = h

check_magic-Safe : (input : Bytes) → Safe (λ _. 18 ≤ length input) (check_magic input)
unfolding check_magic
check_magic-Safe input =
    ground (arith, byte_at_reads input 0, byte_at_reads input 1, byte_at_reads input 2)

-- The compressed data begins behind the fixed header and before the trailer.
abbrev pub InData : Bytes → ℕ → Type 0
InData input cursor = (10 ≤ cursor) × (cursor + 8 < length input)

module _ (input : Bytes) (flags : ℕ) (long : 18 ≤ length input) where
  inside : length input - 8 + 8 ≤ length input
  inside = omega arith

  read_crc-Safe :
      (cursor : ℕ)
      → InHeader (length input - 8) cursor
      → Safe (InData input) (read_crc input flags cursor)
  unfolding read_crc
  read_crc-Safe cursor h =
      Safe-bind (InHeader (length input - 8)) (InData input)
        (optional (has_flag flags 0x02) (skip_header_crc input (length input - 8)) cursor) _
        (optional-Safe input _ inside (has_flag flags 0x02) _ cursor
          (skip_header_crc-Safe input _ inside) h)
        λ c hc. before_trailer c hc
    where
      before_trailer :
          (c : ℕ)
          → InHeader (length input - 8) c
          → Safe
              (InData input)
              (refuse_if (leb (length input - 8) c) "gzip_deflate_missing" >>= λ _. value c)
      before_trailer c hc = ground arith

  read_comment-Safe :
      (cursor : ℕ)
      → InHeader (length input - 8) cursor
      → Safe (InData input) (read_comment input flags cursor)
  unfolding read_comment
  read_comment-Safe cursor h =
      Safe-bind (InHeader (length input - 8)) (InData input)
        (optional (has_flag flags 0x10)
          (skip_text "gzip_comment_unterminated" input (length input - 8)) cursor)
        _
        (optional-Safe input _ inside (has_flag flags 0x10) _ cursor
          (skip_text-Safe input _ inside _) h)
        read_crc-Safe

  read_name-Safe :
      (cursor : ℕ)
      → InHeader (length input - 8) cursor
      → Safe (InData input) (read_name input flags cursor)
  unfolding read_name
  read_name-Safe cursor h =
      Safe-bind (InHeader (length input - 8)) (InData input)
        (optional (has_flag flags 0x08)
          (skip_text "gzip_name_unterminated" input (length input - 8)) cursor)
        _
        (optional-Safe input _ inside (has_flag flags 0x08) _ cursor
          (skip_text-Safe input _ inside _) h)
        read_comment-Safe

  read_extra-Safe :
      (cursor : ℕ)
      → InHeader (length input - 8) cursor
      → Safe (InData input) (read_extra input flags cursor)
  unfolding read_extra
  read_extra-Safe cursor h =
      Safe-bind (InHeader (length input - 8)) (InData input)
        (optional (has_flag flags 0x04) (skip_extra input (length input - 8)) cursor) _
        (optional-Safe input _ inside (has_flag flags 0x04) _ cursor
          (skip_extra-Safe input _ inside) h)
        read_name-Safe

read_header-Safe : (input : Bytes) → Safe (InData input) (read_header input)
unfolding read_header
read_header-Safe input =
    Safe-bind (λ _. 18 ≤ length input) (InData input) (check_magic input) _ (check_magic-Safe input)
      λ _ long.
        let (flags, e) = byte_at_reads input 3 (omega arith) in
        rw e (go flags (has_flag flags 0xe0) (read_extra-Safe input flags long 10 (omega arith)))
  where
    go :
        (flags : ℕ) (reserved : Bool)
        → Safe (InData input) (read_extra input flags 10)
        → Safe
            (InData input)
            (refuse_if reserved "gzip_reserved_flags" >>= λ _. read_extra input flags 10)
    go flags true k = tt
    go flags false k = k

-- What a decoded message is: within the limit, of the size and with the checksum that the trailer
-- of the input names.
pub record IsDecoded (zlib : Zlib) (input : Bytes) (output_limit : ℕ) (output : Bytes)
    : Type 0 where
  pub within_limit : length output ≤ output_limit
  pub size_named : little_u32 input (length input - 4) ≡ value (length output)
  pub checksum_named : little_u32 input (length input - 8) ≡ value (zlib.crc_32 output)

check_inflated-Safe :
    (zlib : Zlib) (input : Bytes) (output_limit expected_size : ℕ) (result : Inflated)
    → 8 ≤ length input
    → little_u32 input (length input - 4) ≡ value expected_size
    → Safe
        (IsDecoded zlib input output_limit)
        (check_inflated zlib input output_limit expected_size result)
unfolding check_inflated
check_inflated-Safe zlib input output_limit expected_size result h e =
    ground (arith, little_u32_reads input (length input - 8))

-- The decoder never reads outside its input, and what it returns is within the limit and has the
-- size and the checksum that the input names, whatever the inflater does.
pub decode_gzip_bounded-Safe :
    (zlib : Zlib) (input : Bytes) (output_limit : ℕ)
    → Safe (IsDecoded zlib input output_limit) (decode_gzip_bounded zlib input output_limit)
unfolding decode_gzip_bounded
decode_gzip_bounded-Safe zlib input output_limit =
    Safe-bind (InData input) (IsDecoded zlib input output_limit) (read_header input) _
      (read_header-Safe input)
      λ cursor h.
        let (size, e) = little_u32_reads input (length input - 4) (omega (arith, h)) in
        rw e (
          go size (ltb output_limit size) _
            (check_inflated-Safe zlib input output_limit size _ (omega (arith, h)) e))
  where
    go :
        (size : ℕ) (large : Bool) (m : Outcome Bytes)
        → Safe (IsDecoded zlib input output_limit) m
        → Safe
            (IsDecoded zlib input output_limit)
            (refuse_if large "gzip_output_capacity_exceeded" >>= λ _. m)
    go size true m k = tt
    go size false m k = k
