-- ===== src/Tests/NetworkRuns.antt =====
-- The decoder, the deadline, the heartbeat and the redaction at concrete inputs.
use test_exchanges_helper.Base.{
  All, ◌++◌, true, ℕ, ◌-◌, ◌≡◌, refl, min, false, List, [], ◌∷◌, Option, some, Bytes, codes,
  bytes_eq, length, take, ok,
}
use test_exchanges_helper.Json.{Value, string, uint64, object, field, end, if_contains}
use test_exchanges_helper.Network.Gzip.{
  value, refused, Zlib, end_of_stream, decode_gzip_bounded, byte_at, little_u16, little_u32,
  skip_from, skip_zero_terminated, check_magic, skip_extra, skip_text, skip_header_crc, read_crc,
  read_comment, read_name, read_extra, read_header, inflate_message, deflated, check_inflated,
}
use test_exchanges_helper.Network.Gzip.Safety.{Safe, IsDecoded, decode_gzip_bounded-Safe}
use test_exchanges_helper.Network.WsDeadline.{
  Verdict, timed_out, finished, Handler, timer_expired, timer_cancelled, unrelated, completed,
  run_ws_deadline, started, time_out, run_handler, verdict, drain,
}
use test_exchanges_helper.Network.WsDeadline.Laws.{
  Reported, run_ws_deadline_sound, run_ws_deadline_ends,
}
use test_exchanges_helper.Network.WsApplication.{
  application_pong, decompressed, htx_application_pong, is_ping_number,
}
use test_exchanges_helper.Network.Redaction.{
  shape_of, bounded_public_frame, max_raw_public_bytes, truncation_suffix, sensitive_key,
  normalized_name, has_part, begins_with,
}
use test_exchanges_helper.Network.Redaction.Erasure.{
  erase, secret_words, secret_names, shape_of-erase,
}
use test_exchanges_helper.Network.Redaction.Frames.{bounded_public_frame_lem}

-- An inflater that always ends with the text "ok", and a checksum that is a length.
abbrev zlib : Zlib
zlib = record {
  inflate = λ input size. record { code = end_of_stream; avail_in = 0; written = codes "ok" };
  end_message = "end of deflate stream";
  crc_32 = λ bytes. length bytes;
}

-- Ten bytes of header with a name announced, the name, two bytes of data, and the trailer.
abbrev gzip_member : Bytes
gzip_member =
    0x1f ∷ 0x8b ∷ 8 ∷ 8 ∷ 0 ∷ 0 ∷ 0 ∷ 0 ∷ 0 ∷ 3 ∷ b'a' ∷ 0 ∷ 3 ∷ 0 ∷ 2 ∷ 0 ∷ 0 ∷ 0 ∷ 2 ∷ 0 ∷ 0 ∷ 0
    ∷ []

run_member : decode_gzip_bounded zlib gzip_member 16 ≡ value (codes "ok")
unfolding byte_at little_u16 little_u32 skip_from skip_zero_terminated check_magic skip_extra
    skip_text skip_header_crc read_crc read_comment read_name read_extra read_header inflate_message
    deflated check_inflated decode_gzip_bounded
run_member = refl

run_limit : decode_gzip_bounded zlib gzip_member 1 ≡ refused "gzip_output_capacity_exceeded"
unfolding byte_at little_u16 little_u32 skip_from skip_zero_terminated check_magic skip_extra
    skip_text skip_header_crc read_crc read_comment read_name read_extra read_header inflate_message
    deflated check_inflated decode_gzip_bounded
run_limit = refl

decode_gzip_bounded-Safe_example :
    Safe (IsDecoded zlib gzip_member 16) (decode_gzip_bounded zlib gzip_member 16)
decode_gzip_bounded-Safe_example = decode_gzip_bounded-Safe zlib gzip_member 16

-- A read that completes at 90 under the deadline 100; 0 is the code of success.
abbrev in_time : List (Handler ℕ)
in_time = unrelated ∷ completed 0 90 ∷ timer_cancelled ∷ []

-- One whose completion runs behind the timer's handler.
abbrev late : List (Handler ℕ)
late = timer_expired ∷ completed 995 101 ∷ []

run_in_time : run_ws_deadline 0 100 40 in_time ≡ some (finished 0, 0)
unfolding run_ws_deadline drain run_handler started verdict time_out
run_in_time = refl

run_late : run_ws_deadline 0 100 40 late ≡ some (timed_out, 2)
unfolding run_ws_deadline drain run_handler started verdict time_out
run_late = refl

run_ws_deadline_sound_example : Reported 100 40 in_time (finished 0) 0
run_ws_deadline_sound_example = run_ws_deadline_sound 0 100 40 in_time (finished 0) 0 run_in_time

run_ws_deadline_ends_example :
    (outcome : Verdict ℕ × ℕ) × (run_ws_deadline 0 100 40 late ≡ some outcome)
run_ws_deadline_ends_example = run_ws_deadline_ends 0 100 40 late refl refl

abbrev heartbeat : Value
heartbeat = object (field (codes "ping") (uint64 1024) end)

abbrev parse : Bytes → Option Value
parse text = some heartbeat

abbrev serialize : Value → Bytes
serialize document = codes "{\"pong\":1024}"

run_heartbeat :
    htx_application_pong zlib parse serialize (codes "{\"ping\":1024}") false
    ≡ ok (codes "{\"pong\":1024}")
unfolding htx_application_pong application_pong decompressed is_ping_number if_contains bytes_eq
run_heartbeat = refl

-- Two answers that differ in a balance and in a key.
abbrev answer : Bytes → Bytes → Value
answer balance secret =
    object (field (codes "balance") (string balance) (field (codes "apiKey") (string secret) end))

same_erased : erase (answer (codes "1.5") (codes "s3cr3t")) ≡ erase (answer (codes "0") (codes "x"))
unfolding erase sensitive_key normalized_name has_part begins_with bytes_eq
same_erased = refl

shape_of-erase_example :
    (shape_of (answer (codes "1.5") (codes "s3cr3t")) 0
      ≡ shape_of (answer (codes "0") (codes "x")) 0)
    × All (λ word. sensitive_key (codes "x-" ++ (word ++ codes "-id")) ≡ true) secret_words
    × All (λ name. sensitive_key name ≡ true) secret_names
shape_of-erase_example =
    shape_of-erase (answer (codes "1.5") (codes "s3cr3t")) (answer (codes "0") (codes "x")) 0
      (codes "x-") (codes "-id") same_erased

run_frame :
    (length (bounded_public_frame (codes "{}")) ≡ min (length (codes "{}")) max_raw_public_bytes)
    × (take (max_raw_public_bytes - length truncation_suffix) (bounded_public_frame (codes "{}"))
        ≡ take (max_raw_public_bytes - length truncation_suffix) (codes "{}"))
run_frame = bounded_public_frame_lem (codes "{}")
