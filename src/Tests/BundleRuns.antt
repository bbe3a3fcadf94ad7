-- ===== src/Tests/BundleRuns.antt =====
-- Indexes, payloads and receipts at concrete inputs.
use test_exchanges_helper.Base.{
  ℕ, ◌*◌, ◌≤◌, ◌≡◌, refl, false, List, [], ◌∷◌, Option, none, some, Bytes, codes, length, take,
  drop, ok, arith, if◌then◌else◌, bytes_eq,
}
use test_exchanges_helper.Json.{Value, object, if_contains}
use test_exchanges_helper.Network.WsApplication.{max_ws_message_bytes}
use test_exchanges_helper.Analysis.Event.{FrameIndex}
use test_exchanges_helper.Capture.Writer.{FrameArgs, frame_row}
use test_exchanges_helper.Bundle.Reader.{
  text, u64, unsigned, check_attempt, session_generation_of, receipt_of, frame_of, last_monotonic,
  violates_contract, read_row, read_line, read_lines, read_frame_index, read_payload,
}
use test_exchanges_helper.Bundle.Reader.Index.{IsIndex, read_frame_index-IsIndex}
use test_exchanges_helper.Bundle.Reader.Payloads.{
  payloads, total_bytes, read_frame_index-payloads, read_payload_lem,
}
use test_exchanges_helper.Bundle.Reader.Written.{
  IsFrame, parsed_row, written_frame, read_row-parsed_row,
}
use test_exchanges_helper.Bundle.Receipts.{receipt_delta, percentile}
use test_exchanges_helper.Bundle.Receipts.Exact.{
  difference, is_int64, count_le, receipt_delta_exact, percentile_rank,
}

abbrev args : ℕ → Bytes → FrameArgs
args time payload = record {
  round = 1;
  channel = codes "trade";
  binary = false;
  payload = payload;
  received_monotonic_ns = time;
  attempt = 1;
  session_generation = 1;
  monotonic_ns = time;
  utc_ns = 0;
}

-- The line "0" is the row of the first frame, and any other line the row of the second.
abbrev parse : Bytes → Option Value
parse line = some (
    object (
      if bytes_eq line (codes "0")
      then frame_row 0 0 (args 10 (codes "abc"))
      else frame_row 1 3 (args 12 (codes "de"))))

abbrev lines : List Bytes
lines = codes "0" ∷ codes "1" ∷ []

abbrev row : ℕ → ℕ → ℕ → ℕ → FrameIndex
row id time offset size = record {
  id = id;
  round = 1;
  channel = codes "trade";
  binary = false;
  monotonic_ns = time;
  utc_ns = 0;
  offset = offset;
  length = size;
  received_monotonic_ns = some time;
  session_generation = some 1;
}

abbrev index : List FrameIndex
index = row 1 12 3 2 ∷ row 0 10 0 3 ∷ []

run_index : read_frame_index parse lines ≡ ok index
unfolding read_frame_index read_lines read_line read_row violates_contract last_monotonic frame_of
    receipt_of session_generation_of check_attempt unsigned u64 text if_contains frame_row bytes_eq
run_index = refl

read_frame_index-IsIndex_example : (total : ℕ) × IsIndex index total × (length index ≡ length lines)
read_frame_index-IsIndex_example = read_frame_index-IsIndex parse lines run_index

read_frame_index-payloads_example :
    payloads (codes "abcdef") index ≡ take (total_bytes index) (codes "abcdef")
read_frame_index-payloads_example = read_frame_index-payloads parse lines (codes "abcdef") run_index

run_payload : read_payload (codes "abcdef") (row 1 12 3 2) ≡ ok (codes "de")
unfolding read_payload
run_payload = refl

run_read_payload :
    (codes "de" ≡ take 2 (drop 3 (codes "abcdef")))
    × (length (codes "de") ≡ 2)
    × (length (codes "de") ≤ max_ws_message_bytes)
run_read_payload = read_payload_lem (codes "abcdef") (row 1 12 3 2) run_payload

receipt_delta_exact_example : receipt_delta 9223372036854775808 0 ≡ (
    if is_int64 (difference 0 9223372036854775808)
    then some (difference 0 9223372036854775808)
    else none)
receipt_delta_exact_example = receipt_delta_exact 9223372036854775808 0

abbrev durations : List ℕ
durations = 30 ∷ 10 ∷ 20 ∷ []

percentile_rank_example :
    (d : ℕ) × (percentile durations 95 ≡ some d)
    × (length durations * 95 ≤ 100 * count_le d durations)
percentile_rank_example = percentile_rank durations 95 (omega arith) (omega arith) (omega arith)

last_time : last_monotonic index ≤ 20
unfolding last_monotonic
last_time = omega arith

args-IsFrame : IsFrame (args 20 (codes "fg"))
args-IsFrame = record {
  round_pos = omega arith;
  round_le = omega arith;
  channel_ne = refl;
  session_pos = omega arith;
  session_le = omega arith;
  attempt_eq = refl;
  monotonic_lt = omega arith;
  utc_lt = omega arith;
  received_lt = omega arith;
}

read_row-parsed_row_example :
    read_row index 5 (parsed_row (length index) 5 (args 20 (codes "fg")))
    ≡ ok (written_frame (length index) 5 (args 20 (codes "fg")))
read_row-parsed_row_example =
    read_row-parsed_row index 5 (args 20 (codes "fg")) args-IsFrame (omega arith)
      (omega arith, (omega arith, tt)) last_time (omega arith)
