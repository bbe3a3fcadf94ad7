-- ===== src/Bundle/Reader.antt =====
-- src/Research/Analysis/Input.cpp: the index of the frames, the channels of a manifest, and the
-- payload of a frame. boost's parser is a parameter; opening a file and its size are I/O, so the
-- index is the list of its lines and frames.bin its bytes.
pub mod Index
pub mod Payloads
pub mod Written
use test_exchanges_helper.Base.{
  ℕ, suc, ◌+◌, ◌-◌, ◌%◌, ◌^◌, Bool, true, false, not, ◌&&◌, ◌||◌, List, [], ◌∷◌, ◌++◌, Option, none,
  some, Bytes, String, bytes_eq, codes, ltb, leb, ◌==◌, is_empty, length, take, drop, any, Result,
  ok, err, refuse_if, ◌>>=◌, if◌then◌else◌,
}
use test_exchanges_helper.Base.Int.{ℤ, pos, negsuc}
use test_exchanges_helper.Json.{
  Value, int64, uint64, string, array, object, Items, nil, cons, Fields, if_contains,
}
use test_exchanges_helper.ResearchProfile.{JsonEventMapping, research_channel_kind, unknown}
use test_exchanges_helper.Analysis.Scalars.{u64_max}
use test_exchanges_helper.Analysis.Event.{FrameIndex, ChannelDefinition}
use test_exchanges_helper.Network.WsApplication.{max_ws_message_bytes}

unfoldable pub string_or_empty : Option Value → Bytes
string_or_empty (some (string s)) = s
string_or_empty v = []

-- `text`
unfoldable pub text : Fields → Bytes → Bytes
unfolding string_or_empty
text fs key = string_or_empty (if_contains key fs)

-- A number that is not negative, as `std::uint64_t`.
unfoldable pub unsigned : Value → Option ℕ
unsigned (uint64 n) = some (n % 2 ^ 64)
unsigned (int64 (pos n)) = some (n % 2 ^ 64)
unsigned v = none

pub unsigned_or_zero : Option Value → ℕ
unsigned_or_zero none = 0
unsigned_or_zero (some v) = elim (unsigned v) [ none ↦ 0 | some n ↦ n ]

-- `u64`
unfoldable pub u64 : Fields → Bytes → ℕ
unfolding unsigned_or_zero
u64 fs key = unsigned_or_zero (if_contains key fs)

-- The generation of the session, with the attempt that has to agree with it.
unfoldable pub check_attempt : Option Value → ℕ → Result (Option ℕ)
check_attempt none number = ok (some number)
check_attempt (some attempt) number = elim (unsigned attempt) [
  | none ↦ err "frame_session_generation_invalid"
  | some n ↦ if n == number then ok (some number) else err "frame_session_generation_invalid"
]

unfoldable pub session_generation_of : Option Value → Option Value → Result (Option ℕ)
session_generation_of none none = ok none
session_generation_of none (some attempt) = err "frame_attempt_requires_session_generation"
session_generation_of (some generation) attempt = elim (unsigned generation) [
  | none ↦ err "frame_session_generation_invalid"
  | some number ↦
      if ltb number 1 || ltb 3 number
      then err "frame_session_generation_invalid"
      else check_attempt attempt number
]

unfoldable pub receipt_of : Option Value → Result (Option ℕ)
receipt_of none = ok none
receipt_of (some receipt) = elim (unsigned receipt) [
  | none ↦ err "frame_receipt_timestamp_invalid"
  | some n ↦ ok (some n)
]

-- The row as a frame, before the checks that compare it with the rows above it.
unfoldable pub frame_of : Fields → Option ℕ → Option ℕ → FrameIndex
frame_of fs generation receipt = record {
  id = u64 fs (codes "frame_id");
  round = u64 fs (codes "round");
  channel = text fs (codes "channel_id");
  binary = bytes_eq (text fs (codes "opcode")) (codes "binary");
  monotonic_ns = u64 fs (codes "monotonic_ns");
  utc_ns = u64 fs (codes "utc_ns");
  offset = u64 fs (codes "offset");
  length = u64 fs (codes "length");
  received_monotonic_ns = receipt;
  session_generation = generation;
}

-- `result.back().monotonic_ns` of the rows read, the last one first, and 0 where there is none.
unfoldable pub last_monotonic : List FrameIndex → ℕ
last_monotonic [] = 0
last_monotonic (frame ∷ frames) = frame.monotonic_ns

-- The last check; the rows read stand with the last one first.
unfoldable pub violates_contract : Bytes → List FrameIndex → ℕ → FrameIndex → Bool
violates_contract schema read expected_offset frame =
    not (bytes_eq schema (codes "exchange.api_probe.frame_index.v1"))
    || frame.round == 0
    || is_empty frame.channel
    || any (λ f. f.id == frame.id) read
    || not (frame.id == length read)
    || not (frame.offset == expected_offset)
    || ltb frame.monotonic_ns (last_monotonic read)
    || ltb (u64_max - frame.length) frame.offset

-- The body of the loop: the frame of a line.
unfoldable pub read_row : List FrameIndex → ℕ → Fields → Result FrameIndex
read_row read expected_offset fs =
    if ltb 4294967295 (u64 fs (codes "round"))
    then err "frame_index_round_out_of_range"
    else session_generation_of (if_contains (codes "session_generation") fs)
        (if_contains (codes "attempt") fs)
      >>= λ generation. receipt_of (if_contains (codes "received_monotonic_ns") fs) >>= λ receipt.
          if violates_contract (text fs (codes "schema")) read expected_offset
            (frame_of fs generation receipt)
          then err "frame_index_contract_violation"
          else ok (frame_of fs generation receipt)

unfoldable pub read_line : List FrameIndex → ℕ → Option Value → Result FrameIndex
read_line read expected_offset (some (object fs)) = read_row read expected_offset fs
read_line read expected_offset v = err "frame_index_invalid_jsonl"

-- The loop of `read_frame_index`: the rows read so far, the last one first, and the offset expected.
unfoldable pub read_lines :
    (Bytes → Option Value) → List FrameIndex → ℕ → List Bytes → Result (List FrameIndex)
read_lines parse read expected_offset [] = ok read
read_lines parse read expected_offset (line ∷ lines) =
    read_line read expected_offset (parse line) >>= λ frame.
    read_lines parse (frame ∷ read) ((expected_offset + frame.length) % 2 ^ 64) lines

-- `read_frame_index`, its rows with the last one first
unfoldable pub read_frame_index : (Bytes → Option Value) → List Bytes → Result (List FrameIndex)
read_frame_index parse lines = read_lines parse [] 0 lines

-- `read_payload`; a read behind the end of the file is an error.
unfoldable pub read_payload : Bytes → FrameIndex → Result Bytes
read_payload frames frame =
    if ltb max_ws_message_bytes frame.length
    then err "frame_payload_capacity_exceeded"
    else if ltb (length frames) (frame.offset + frame.length)
    then err "frame_payload_read_failed"
    else ok (take frame.length (drop frame.offset frames))
