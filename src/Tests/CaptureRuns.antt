-- ===== src/Tests/CaptureRuns.antt =====
-- The attempts of a capture at concrete inputs.
use test_exchanges_helper.Base.{
  ◌+◌, ◌-◌, ◌%◌, ◌≤◌, ◌<◌, ◌≡◌, ◌↔◌, refl, true, false, List, [], ◌∷◌, some, codes, arith, inr,
  length, ◌^◌, Bytes,
}
use test_exchanges_helper.Json.{Value}
use test_exchanges_helper.Capture.Reconnect.{reconnect_wait}
use test_exchanges_helper.Capture.Attempts.{
  Attempt, deadline_reached, disconnected, Capture, complete, reconnect_wait_row, Setup,
  capture_channel, after_result, wait_after, attempted, is_completed, jitter_seed, jitter_from,
}
use test_exchanges_helper.Capture.Attempts.Laws.{
  Ended, waits, reconnect_wait_iff, capture_channel-Ended, capture_channel-waits,
}
use test_exchanges_helper.Capture.Writer.{
  Writer, FrameArgs, ControlArgs, frame, control, finish, Call, frame_call, control_call, call,
  calls, opened_writer, is_refused, reserved, lost, mark_storage_failure,
}
use test_exchanges_helper.Capture.Writer.Limit.{IsWithin, calls-IsWithin}
use test_exchanges_helper.Capture.Writer.Lossless.{handed_rows, handed_payloads, finish_lossless}

abbrev setup : Setup
setup = record { attempts = 3; deadline = 10000; round = 1; channel_id = codes "trade" }

abbrev fresh : Capture
fresh = record { frames_read = 0; reconnecting = false; any_failure = false; rows = [] }

-- A connection that is lost at 2 s, one that lasts to the deadline, and two that are never made.
abbrev attempts : List Attempt
attempts =
    record { result = disconnected; frames = 5; connected = true; now = 2000 }
    ∷ record { result = deadline_reached; frames = 7; connected = true; now = 10000 }
    ∷ record { result = disconnected; frames = 0; connected = false; now = 0 }
    ∷ record { result = disconnected; frames = 0; connected = false; now = 0 }
    ∷ []

run_attempts : capture_channel setup 1 attempts fresh ≡ record {
  frames_read = 12;
  reconnecting = false;
  any_failure = false;
  rows = reconnect_wait_row 1 (250 + jitter_seed 1 1 (codes "trade") % 101) ∷ complete true ∷ [];
}
unfolding capture_channel after_result wait_after attempted is_completed jitter_seed jitter_from
    reconnect_wait
run_attempts = refl

reconnect_wait_iff_example :
    (reconnect_wait 1 3 2000 10000 57 ≡ some 307)
    ↔ ((307 ≡ 250 + 57 % 101) × (1 ≤ 1) × (1 < 3) × (3 ≤ 3) × (2000 + 307 < 10000))
reconnect_wait_iff_example = reconnect_wait_iff 1 3 2000 10000 57 307

capture_channel-Ended_example : Ended (capture_channel setup 1 attempts fresh)
capture_channel-Ended_example =
    capture_channel-Ended setup 1 attempts fresh (omega arith) (omega arith)

capture_channel-waits_example :
    waits (capture_channel setup 1 attempts fresh).rows ≤ waits fresh.rows + (3 - 1)
capture_channel-waits_example = capture_channel-waits setup 1 attempts fresh (omega arith)

abbrev serialize : Value → Bytes
serialize row = codes "{}"

abbrev frame_args : FrameArgs
frame_args = record {
  round = 1;
  channel = codes "trade";
  binary = false;
  payload = codes "{\"ping\":1}";
  received_monotonic_ns = 5;
  attempt = 1;
  session_generation = 1;
  monotonic_ns = 6;
  utc_ns = 7;
}

abbrev control_args : ControlArgs
control_args = record {
  round = 1;
  channel = codes "trade";
  direction = codes "inbound";
  kind = codes "ping";
  payload = [];
  send_time_observed = false;
  attempt = 1;
  session_generation = 1;
  monotonic_ns = 8;
  utc_ns = 9;
}

abbrev capture_calls : List Call
capture_calls =
    frame_call frame_args true ∷ control_call control_args true ∷ frame_call frame_args true ∷ []

opened-IsWithin : IsWithin (opened_writer 4096)
opened-IsWithin = record {
  counted = omega arith;
  limited = omega arith;
  small = omega arith;
  framed = inr (refl, refl);
}

short_lines : (row : Value) → length (serialize row) < 2 ^ 61
short_lines row = omega arith

calls-IsWithin_example : IsWithin (calls serialize capture_calls (opened_writer 4096))
calls-IsWithin_example =
    calls-IsWithin serialize short_lines capture_calls (opened_writer 4096)
      (refl, (refl, (refl, tt))) opened-IsWithin

abbrev last_writer : Writer
last_writer = record {
  byte_limit = 4096;
  bytes_written = 29;
  frame_bytes = 20;
  records_not_persisted = 0;
  next_frame_id = 2;
  artifact_complete = true;
  storage_failed = false;
  finished_successfully = true;
  frames = codes "{\"ping\":1}{\"ping\":1}";
  frame_index = codes "{}" ∷ codes "{}" ∷ [];
  controls = codes "{}" ∷ [];
  sessions = [];
}

run_finish :
    finish true true true true (calls serialize capture_calls (opened_writer 4096)) ≡ last_writer
unfolding finish calls call frame control is_refused reserved lost mark_storage_failure
run_finish = refl

finish_lossless_example :
    (length last_writer.sessions ≡ (handed_rows capture_calls).0)
    × (length last_writer.controls ≡ (handed_rows capture_calls).1)
    × (length last_writer.frame_index ≡ (handed_rows capture_calls).2)
    × (last_writer.frames ≡ handed_payloads capture_calls)
    × (last_writer.records_not_persisted ≡ 0)
    × (true ≡ true)
finish_lossless_example =
    finish_lossless serialize 4096 capture_calls true true true true run_finish refl
