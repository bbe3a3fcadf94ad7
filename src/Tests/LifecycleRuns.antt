-- ===== src/Tests/LifecycleRuns.antt =====
-- The lifecycle of a pair of channels at a concrete sessions.jsonl.
use test_exchanges_helper.Base.{
  ℕ, ◌≡◌, refl, Bool, true, false, [], ◌∷◌, Option, none, some, Bytes, codes, length, ok, bytes_eq,
  if◌then◌else◌,
}
use test_exchanges_helper.Json.{
  Value, boolean, uint64, string, object, Fields, field, end, if_contains,
}
use test_exchanges_helper.Bundle.Reader.{text, unsigned}
use test_exchanges_helper.Bundle.Lifecycle.{
  Observed, Sessions, SessionsFile, same_generation, holds_generation, strict_unsigned,
  selected_row, valid_generation, push_duration, connect_generation, read_connected,
  read_disconnected, count_row, read_metadata, read_selected, read_fields, read_document, push_back,
  take_line, end_rows, next_row, read_rows, read_present, read_lifecycle,
}
use test_exchanges_helper.Bundle.Lifecycle.Counts.{IsLifecycle, read_lifecycle-IsLifecycle}

abbrev session_document : ℕ → Bytes → Bool → Fields → Value
session_document generation stage succeeded others = object (
    field (codes "schema") (string (codes "exchange.api_probe.session.v1")) (
      field (codes "channel_id") (string (codes "trades")) (
        field (codes "round") (uint64 1) (
          field (codes "stage") (string stage) (
            field (codes "ok") (boolean succeeded) (
              field (codes "session_generation") (uint64 generation)
                (field (codes "attempt") (uint64 generation) others)))))))

-- Lines of one letter: a connection, its end, and a reconnection.
abbrev parse_letter : Bytes → Option Value
parse_letter line =
    if bytes_eq line (codes "c")
    then some (session_document 1 (codes "connected") true end)
    else if bytes_eq line (codes "d")
    then some (session_document 1 (codes "disconnected") false end)
    else if bytes_eq line (codes "r")
    then some (
        session_document 2 (codes "connected") true
          (field (codes "reconnect_duration_ns") (uint64 70) end))
    else none

abbrev two_channels : Sessions
two_channels = record {
  standard = codes "trades";
  aws = codes "trades_aws";
  definitions = [];
  parse = parse_letter;
}

abbrev sessions_of : Bytes → SessionsFile
sessions_of contents = record {
  exists = some true;
  file_size = some (length contents);
  contents = some contents;
  broken = false;
}

abbrev one_reconnect : Observed
one_reconnect = record {
  lifecycle = record {
    file_present = true;
    standard = record { rows = 3; disconnects = 1; legacy = false; reconnect_durations = 70 ∷ [] };
    aws = record { rows = 0; disconnects = 0; legacy = false; reconnect_durations = [] };
  };
  connected_generations = (1, (codes "trades", 2)) ∷ (1, (codes "trades", 1)) ∷ [];
}

run_reconnect :
    read_lifecycle two_channels (sessions_of (b'c' ∷ 10 ∷ b'd' ∷ 10 ∷ b'r' ∷ [])) ≡ ok one_reconnect
unfolding read_lifecycle read_present read_rows next_row end_rows take_line push_back read_document
    read_fields read_selected read_metadata read_connected read_disconnected connect_generation
    count_row push_duration valid_generation selected_row strict_unsigned holds_generation
    same_generation if_contains text unsigned bytes_eq
run_reconnect = refl

read_lifecycle-IsLifecycle_example : IsLifecycle (codes "trades") one_reconnect
read_lifecycle-IsLifecycle_example =
    read_lifecycle-IsLifecycle two_channels (sessions_of (b'c' ∷ 10 ∷ b'd' ∷ 10 ∷ b'r' ∷ []))
      one_reconnect run_reconnect
