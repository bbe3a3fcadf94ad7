-- ===== src/Bundle/Reader/Written.antt =====
-- The rows that the writer of a bundle makes for its frames, as the analysis reads them.
use test_exchanges_helper.Base.{
  ℕ, ◌+◌, ◌^◌, ◌≤◌, ◌<◌, ◌≡◌, refl, Bool, true, false, List, [], ◌∷◌, Option, some, bytes_eq, codes,
  ltb, ◌==◌, is_empty, length, any, ok, if◌then◌else◌, arith,
}
use test_exchanges_helper.Base.Int.{pos}
use test_exchanges_helper.Json.{Value, int64, uint64, Fields, field, end, if_contains}
use test_exchanges_helper.Analysis.Event.{FrameIndex}
use test_exchanges_helper.Capture.Writer.{FrameArgs, frame_row}
use test_exchanges_helper.Bundle.Reader.{
  string_or_empty, text, unsigned, unsigned_or_zero, u64, check_attempt, session_generation_of,
  receipt_of, frame_of, last_monotonic, violates_contract, read_row,
}

-- The kind that boost's parser gives a number that is not negative.
unfoldable pub parsed_number : ℕ → Value
parsed_number n = if ltb n (2 ^ 63) then int64 (pos n) else uint64 n

-- The fields as they are parsed: a number that `std::int64_t` holds comes back as one.
unfoldable pub parsed : Fields → Fields
parsed end = end
parsed (field key (uint64 n) fs) = field key (parsed_number n) (parsed fs)
parsed (field key v fs) = field key v (parsed fs)

-- The row of `frame`, printed and parsed.
unfoldable pub parsed_row : ℕ → ℕ → FrameArgs → Fields
parsed_row frame_id offset a = parsed (frame_row frame_id offset a)

-- What the row says of its frame.
abbrev pub written_frame : ℕ → ℕ → FrameArgs → FrameIndex
written_frame frame_id offset a = record {
  id = frame_id;
  round = a.round;
  channel = a.channel;
  binary = a.binary;
  monotonic_ns = a.monotonic_ns;
  utc_ns = a.utc_ns;
  offset = offset;
  length = length a.payload;
  received_monotonic_ns = some a.received_monotonic_ns;
  session_generation = some a.session_generation;
}

-- A frame of a running capture: its round and its session are numbered from 1, the attempt is the
-- session's, and the numbers are within their types.
pub record IsFrame (a : FrameArgs) : Type 0 where
  pub round_pos : 1 ≤ a.round
  pub round_le : a.round ≤ 4294967295
  pub channel_ne : is_empty a.channel ≡ false
  pub session_pos : 1 ≤ a.session_generation
  pub session_le : a.session_generation ≤ 3
  pub attempt_eq : a.attempt ≡ a.session_generation
  pub monotonic_lt : a.monotonic_ns < 2 ^ 64
  pub utc_lt : a.utc_ns < 2 ^ 64
  pub received_lt : a.received_monotonic_ns < 2 ^ 64

unsigned-parsed_number : (n : ℕ) → n < 2 ^ 64 → unsigned (parsed_number n) ≡ some n
unfolding unsigned parsed_number
unsigned-parsed_number n h = ground arith

unsigned_or_zero-parsed_number :
    (n : ℕ) → n < 2 ^ 64 → unsigned_or_zero (some (parsed_number n)) ≡ n
unfolding unsigned_or_zero unsigned parsed_number
unsigned_or_zero-parsed_number n h = ground arith

binary_named :
    (b : Bool) → bytes_eq (if b then codes "binary" else codes "text") (codes "binary") ≡ b
unfolding bytes_eq
binary_named true = refl
binary_named false = refl

-- The numbers of earlier frames are below that of the next one.
abbrev pub NumberedBelow : ℕ → List FrameIndex → Type 0
NumberedBelow n [] = Unit
NumberedBelow n (frame ∷ frames) = (frame.id < n) × NumberedBelow n frames

not_seen :
    (n : ℕ) (read : List FrameIndex) → NumberedBelow n read → any (λ f. f.id == n) read ≡ false
not_seen n [] h = refl
not_seen n (frame ∷ read) h = ground (arith, not_seen n read h.1, h.0)

frame_of-parsed_row :
    (id offset : ℕ) (a : FrameArgs)
    → IsFrame a
    → id < 2 ^ 64
    → offset < 2 ^ 64
    → length a.payload < 2 ^ 64
    → frame_of (parsed_row id offset a) (some a.session_generation) (some a.received_monotonic_ns)
      ≡ written_frame id offset a
unfolding frame_of parsed_row parsed frame_row u64 text if_contains bytes_eq string_or_empty
frame_of-parsed_row id offset a v i o l =
    rw
      (
        unsigned_or_zero-parsed_number id i,
        unsigned_or_zero-parsed_number a.round (omega (arith, v.round_le)),
        unsigned_or_zero-parsed_number a.monotonic_ns v.monotonic_lt,
        unsigned_or_zero-parsed_number a.utc_ns v.utc_lt,
        unsigned_or_zero-parsed_number offset o,
        unsigned_or_zero-parsed_number (length a.payload) l,
        binary_named a.binary,
      )
      refl

session_generation_of-parsed_number :
    (a : FrameArgs)
    → IsFrame a
    → session_generation_of
        (some (parsed_number a.session_generation))
        (some (parsed_number a.attempt))
      ≡ ok (some a.session_generation)
unfolding session_generation_of check_attempt unsigned parsed_number
session_generation_of-parsed_number a v = ground (arith, v.session_pos, v.session_le, v.attempt_eq)

receipt_of-parsed_number : (n : ℕ) → n < 2 ^ 64 → receipt_of (some (parsed_number n)) ≡ ok (some n)
unfolding receipt_of unsigned parsed_number
receipt_of-parsed_number n h = ground arith

within_contract :
    (read : List FrameIndex) (offset : ℕ) (a : FrameArgs)
    → IsFrame a
    → NumberedBelow (length read) read
    → last_monotonic read ≤ a.monotonic_ns
    → offset + length a.payload < 2 ^ 64
    → violates_contract
        (codes "exchange.api_probe.frame_index.v1")
        read
        offset
        (written_frame (length read) offset a)
      ≡ false
unfolding violates_contract bytes_eq
within_contract read offset a v n t o =
    ground (arith, v.round_pos, v.channel_ne, not_seen (length read) read n)

accepted :
    (read : List FrameIndex) (offset : ℕ) (fs : Fields) {generation receipt : Option ℕ}
    {frame : FrameIndex}
    → ltb 4294967295 (u64 fs (codes "round")) ≡ false
    → session_generation_of
        (if_contains (codes "session_generation") fs)
        (if_contains (codes "attempt") fs)
      ≡ ok generation
    → receipt_of (if_contains (codes "received_monotonic_ns") fs) ≡ ok receipt
    → frame_of fs generation receipt ≡ frame
    → violates_contract (text fs (codes "schema")) read offset frame ≡ false
    → read_row read offset fs ≡ ok frame
unfolding read_row
accepted read offset fs r g t f c = rw (r, g, t, f, c) refl

-- The row that the writer makes for the next frame of a running capture is accepted behind the rows
-- that were read before it, and read as that frame: the same number, times, payload length and
-- session, at the offset where the frames before it end. Its numbers come back from the parser as
-- signed where that type holds them.
pub read_row-parsed_row :
    (read : List FrameIndex) (offset : ℕ) (a : FrameArgs)
    → IsFrame a
    → length read < 2 ^ 64
    → NumberedBelow (length read) read
    → last_monotonic read ≤ a.monotonic_ns
    → offset + length a.payload < 2 ^ 64
    → read_row read offset (parsed_row (length read) offset a)
      ≡ ok (written_frame (length read) offset a)
unfolding parsed_row parsed frame_row u64 text if_contains bytes_eq string_or_empty
read_row-parsed_row read offset a v i n t o =
    accepted read offset (parsed_row (length read) offset a)
      (rw (unsigned_or_zero-parsed_number a.round (omega (arith, v.round_le)))
        (below a.round v.round_le))
      (session_generation_of-parsed_number a v)
      (receipt_of-parsed_number a.received_monotonic_ns v.received_lt)
      (frame_of-parsed_row (length read) offset a v i (omega (arith, o)) (omega (arith, o)))
      (within_contract read offset a v n t o)
  where
    below : (m : ℕ) → m ≤ 4294967295 → ltb 4294967295 m ≡ false
    below m h = ground arith
