-- ===== src/Bundle/Lifecycle.antt =====
-- src/Research/Analysis/Relations.cpp, read_lifecycle and lifecycle_json: the rows of sessions.jsonl
-- that belong to the two channels of a pair. What the file system reports is an argument: whether
-- the file is there, its size, whether it opens, its bytes, and whether the stream breaks behind
-- them. A count of rows is 10,000 at most, so it does not wrap.
pub mod Sound
pub mod Counts
use test_exchanges_helper.Base.{
  ℕ, zero, suc, ◌+◌, Bool, true, false, not, ◌&&◌, ◌||◌, List, [], ◌∷◌, ◌++◌, Option, none, some,
  Bytes, String, bytes_eq, codes, ltb, ◌==◌, any, is_empty, length, Result, ok, err, refuse_if,
  ◌>>=◌, if◌then◌else◌, option_or,
}
use test_exchanges_helper.Json.{
  Value, null, boolean, uint64, string, object, Fields, field, end, if_contains,
}
use test_exchanges_helper.Analysis.Event.{ChannelDefinition}
use test_exchanges_helper.Bundle.Reader.{text, unsigned}
use test_exchanges_helper.Bundle.Receipts.{percentile}
use test_exchanges_helper.Bundle.Pairing.{exceeds_field}

abbrev pub maximum_session_file_bytes : ℕ
maximum_session_file_bytes = 8388608

abbrev pub maximum_session_rows : ℕ
maximum_session_rows = 10000

abbrev pub maximum_session_line_bytes : ℕ
maximum_session_line_bytes = 65536

-- `ChannelLifecycle` and `Lifecycle`
pub record ChannelLifecycle : Type 0 where
  pub rows : ℕ
  pub disconnects : ℕ
  pub legacy : Bool
  pub reconnect_durations : List ℕ

pub record Lifecycle : Type 0 where
  pub file_present : Bool
  pub standard : ChannelLifecycle
  pub aws : ChannelLifecycle

-- `channels[standard ? 0 : 1]`, and an assignment to it
abbrev pub channel_of : Bool → Lifecycle → ChannelLifecycle
channel_of standard lifecycle = if standard then lifecycle.standard else lifecycle.aws

abbrev pub set_channel : Bool → ChannelLifecycle → Lifecycle → Lifecycle
set_channel true metrics lifecycle = record lifecycle { standard = metrics }
set_channel false metrics lifecycle = record lifecycle { aws = metrics }

abbrev pub fresh_channel : ChannelLifecycle
fresh_channel = record { rows = 0; disconnects = 0; legacy = false; reconnect_durations = [] }

-- An element of `connected_generations`: the round, the channel and the generation.
abbrev pub Generation : Type 0
Generation = ℕ × (Bytes × ℕ)

unfoldable pub same_generation : Generation → Generation → Bool
same_generation (round, (channel, generation)) (round', (channel', generation')) =
    round == round' && bytes_eq channel channel' && generation == generation'

unfoldable pub holds_generation : Generation → List Generation → Bool
holds_generation g connected = any (same_generation g) connected

-- What the loop changes.
pub record Observed : Type 0 where
  pub lifecycle : Lifecycle
  pub connected_generations : List Generation

-- What the loop is given.
pub record Sessions : Type 0 where
  pub standard : Bytes
  pub aws : Bytes
  pub definitions : List ChannelDefinition
  pub parse : Bytes → Option Value

-- `strict_unsigned`
unfoldable pub strict_unsigned : Option Value → Option ℕ
strict_unsigned none = none
strict_unsigned (some v) = unsigned v

abbrev pub has_value {ℓ} : {A : Type ℓ} → Option A → Bool
has_value none = false
has_value (some a) = true

-- A field that is there and is not unsigned.
abbrev pub is_malformed : Option Value → Bool
is_malformed v = has_value v && not (has_value (strict_unsigned v))

-- The round of a selected row and whether its stage was a success.
unfoldable pub selected_row : Fields → Option ℕ → Option Value → Result (ℕ × Bool)
selected_row row (some round) (some (boolean succeeded)) =
    if round == 0
      || ltb 4294967295 round
      || is_empty (text row (codes "stage"))
      || exceeds_field (text row (codes "stage"))
      || is_malformed (if_contains (codes "monotonic_ns") row)
    then err "sessions_selected_row_invalid"
    else ok (round, succeeded)
selected_row row round succeeded = err "sessions_selected_row_invalid"

-- The generation of a row, which is its attempt.
unfoldable pub valid_generation : Option Value → Option ℕ → Option ℕ → Result ℕ
valid_generation duration_field (some generation) (some attempt) =
    if ltb generation 1
      || ltb 3 generation
      || not (attempt == generation)
      || is_malformed duration_field
    then err "sessions_generation_or_duration_invalid"
    else ok generation
valid_generation duration_field generation attempt = err "sessions_generation_or_duration_invalid"

-- `if (duration) metrics.reconnect_durations.push_back(*duration);`
unfoldable pub push_duration : Option ℕ → ChannelLifecycle → ChannelLifecycle
push_duration none metrics = metrics
push_duration (some duration) metrics = record metrics {
  reconnect_durations = metrics.reconnect_durations ++ duration ∷ [];
}

-- The stage `connected`. A duration that is there is unsigned at this point, so it stands for its
-- field.
unfoldable pub connect_generation :
    Bool → Bool → ℕ → Bytes → ℕ → Option ℕ → Observed → Result Observed
connect_generation standard succeeded round channel generation duration observed =
    if not succeeded
      || generation == 1 && has_value duration
      || ltb 1 generation && not (has_value duration)
    then err "sessions_connected_metadata_invalid"
    else if holds_generation (round, (channel, generation)) observed.connected_generations
    then err "sessions_duplicate_connected_generation"
    else ok (record {
      lifecycle =
          set_channel standard (push_duration duration (channel_of standard observed.lifecycle))
            observed.lifecycle;
      connected_generations = (round, (channel, generation)) ∷ observed.connected_generations;
    })

unfoldable pub read_connected :
    Bytes → Bool → Bool → ℕ → Bytes → ℕ → Option ℕ → Observed → Result Observed
read_connected stage standard succeeded round channel generation duration observed =
    if bytes_eq stage (codes "connected")
    then connect_generation standard succeeded round channel generation duration observed
    else if has_value duration
    then err "sessions_duration_requires_successful_connected_stage"
    else ok observed

-- The stage `disconnected`
unfoldable pub read_disconnected : Bytes → Bool → Bool → Observed → Result Observed
read_disconnected stage standard succeeded observed =
    let metrics = channel_of standard observed.lifecycle in
    if not (bytes_eq stage (codes "disconnected"))
    then ok observed
    else if succeeded
    then err "sessions_disconnected_metadata_invalid"
    else ok (record observed {
      lifecycle =
          set_channel standard (record metrics { disconnects = suc metrics.disconnects })
            observed.lifecycle;
    })

-- `++metrics.rows`, and the flag of a row without metadata.
unfoldable pub count_row : Bool → Bool → Observed → Observed
count_row standard legacy observed =
    let metrics = channel_of standard observed.lifecycle in
    record observed {
      lifecycle =
          set_channel standard
            (record metrics { rows = suc metrics.rows; legacy = metrics.legacy || legacy })
            observed.lifecycle;
    }

-- A row without any of the four fields of a generation.
abbrev pub is_legacy : Fields → Bool
is_legacy row = not (
    has_value (if_contains (codes "session_generation") row)
    || has_value (if_contains (codes "attempt") row)
    || has_value (if_contains (codes "reconnect_duration_ns") row)
    || has_value (if_contains (codes "reconnect_wait_ns") row))

-- The metadata of a counted row.
unfoldable pub read_metadata : Fields → Bool → Bytes → ℕ × Bool → Observed → Result Observed
read_metadata row standard channel (round, succeeded) observed =
    let duration_field = if_contains (codes "reconnect_duration_ns") row in
    let stage = text row (codes "stage") in
    valid_generation duration_field (strict_unsigned (if_contains (codes "session_generation") row))
      (strict_unsigned (if_contains (codes "attempt") row))
    >>= λ generation.
        read_connected stage standard succeeded round channel generation
          (strict_unsigned duration_field) observed
        >>= λ next. read_disconnected stage standard succeeded next

-- A row of one of the two channels.
unfoldable pub read_selected : Fields → Bool → Bytes → Observed → Result Observed
read_selected row standard channel observed =
    selected_row row (strict_unsigned (if_contains (codes "round") row))
      (if_contains (codes "ok") row)
    >>= λ selected.
        if is_malformed (if_contains (codes "reconnect_wait_ns") row)
        then err "sessions_reconnect_wait_invalid"
        else if is_legacy row
        then ok (count_row standard true observed)
        else read_metadata row standard channel selected (count_row standard false observed)

-- A channel that other rows of the file may name.
abbrev pub is_known_channel : Sessions → Bytes → Bool
is_known_channel sessions channel =
    bytes_eq channel (codes "pcap")
    || bytes_eq channel (codes "supervisor")
    || any (λ d. bytes_eq d.id channel) sessions.definitions

unfoldable pub read_fields : Sessions → Fields → Observed → Result Observed
read_fields sessions row observed =
    let channel = text row (codes "channel_id") in
    if not (bytes_eq (text row (codes "schema")) (codes "exchange.api_probe.session.v1"))
    then err "sessions_schema_invalid"
    else if bytes_eq channel sessions.standard || bytes_eq channel sessions.aws
    then read_selected row (bytes_eq channel sessions.standard) channel observed
    else if is_known_channel sessions channel
    then ok observed
    else err "sessions_unknown_channel"

unfoldable pub read_document : Sessions → Option Value → Observed → Result Observed
read_document sessions (some (object row)) observed = read_fields sessions row observed
read_document sessions document observed = err "sessions_invalid_jsonl"

-- A line, whether a line feed ended it, what stands behind it, and the bytes read.
pub record Line : Type 0 where
  pub characters : Bytes
  pub newline : Bool
  pub rest : Bytes
  pub bytes_read : ℕ

unfoldable pub push_back : ℕ → Line → Line
push_back c line = record line { characters = c ∷ line.characters }

-- `while (input.get(character))`, with the bytes read and the size of the line.
unfoldable pub take_line : ℕ → ℕ → Bytes → Result Line
take_line bytes_read size [] =
    ok (record { characters = []; newline = false; rest = []; bytes_read = bytes_read })
take_line bytes_read size (c ∷ cs) =
    let following = take_line (suc bytes_read) (suc size) cs in
    if ltb maximum_session_file_bytes (suc bytes_read)
    then err "sessions_file_capacity_exceeded"
    else if c == 10
    then ok (record { characters = []; newline = true; rest = cs; bytes_read = suc bytes_read })
    else if size == maximum_session_line_bytes
    then err "sessions_line_capacity_exceeded"
    else (following >>= λ line. ok (push_back c line))

-- `!newline && line.empty()`, and `!newline`, where the stream has no more.
abbrev pub is_last : Bool → Line → Bool
is_last broken line = not line.newline && is_empty line.characters && not broken

abbrev pub is_broken : Bool → Line → Bool
is_broken broken line = not line.newline && broken

-- A line where no row is left of the limit.
unfoldable pub end_rows : Bool → Observed → Line → Result Observed
end_rows broken observed line =
    if is_last broken line
    then ok observed
    else if is_broken broken line
    then err "sessions_file_read_failed"
    else err "sessions_row_capacity_exceeded"

-- A line within the limit, with what goes on behind it.
unfoldable pub next_row :
    Sessions → Bool → (Line → Observed → Result Observed) → Observed → Line → Result Observed
next_row sessions broken following observed line = elim (is_last broken line) [
  | true ↦ ok observed
  | false ↦
      if is_broken broken line
      then err "sessions_file_read_failed"
      else (read_document sessions (sessions.parse line.characters) observed >>= following line)
]

-- The loop over the lines, with the rows that are left of the limit.
unfoldable pub read_rows : Sessions → Bool → ℕ → ℕ → Bytes → Observed → Result Observed
read_rows sessions broken zero bytes_read contents observed =
    take_line bytes_read 0 contents >>= end_rows broken observed
read_rows sessions broken (suc left) bytes_read contents observed =
    take_line bytes_read 0 contents
    >>= next_row sessions broken
        (λ line next. read_rows sessions broken left line.bytes_read line.rest next) observed

-- `sessions.jsonl` as the file system shows it: `none` is an error, or a file that does not open.
pub record SessionsFile : Type 0 where
  pub exists : Option Bool
  pub file_size : Option ℕ
  pub contents : Option Bytes
  pub broken : Bool

abbrev pub unobserved : Bool → Observed
unobserved file_present = record {
  lifecycle = record { file_present = file_present; standard = fresh_channel; aws = fresh_channel };
  connected_generations = [];
}

unfoldable pub read_present : Sessions → SessionsFile → Result Observed
read_present sessions file =
    if option_or file.file_size true (λ bytes. ltb maximum_session_file_bytes bytes)
    then err "sessions_file_capacity_or_size_invalid"
    else option_or file.contents (err "sessions_file_open_failed") (λ contents.
      read_rows sessions file.broken maximum_session_rows 0 contents (unobserved true))

-- `read_lifecycle`
unfoldable pub read_lifecycle : Sessions → SessionsFile → Result Observed
read_lifecycle sessions file =
    option_or file.exists (err "sessions_file_status_failed")
      (λ present. if present then read_present sessions file else ok (unobserved false))

-- `lifecycle_json`: the status, which says whether the counts are reported.
unfoldable pub lifecycle_status : Lifecycle → Bytes
lifecycle_status lifecycle =
    if not lifecycle.file_present
    then codes "unavailable_missing_sessions"
    else if lifecycle.standard.legacy || lifecycle.aws.legacy
    then codes "unavailable_legacy_metadata"
    else if lifecycle.standard.rows == 0 || lifecycle.aws.rows == 0
    then codes "unavailable_selected_channel_missing"
    else codes "observed"

abbrev pub value_or_null : Option ℕ → Value
value_or_null none = null
value_or_null (some n) = uint64 n

-- The percentiles of the durations.
unfoldable pub duration_statistics : List ℕ → Value
duration_statistics durations = object (
    field (codes "p50") (value_or_null (percentile durations 50)) (
      field (codes "p95") (value_or_null (percentile durations 95))
        (field (codes "p99") (value_or_null (percentile durations 99)) end)))

unfoldable pub channel_report : Bool → Bytes → ChannelLifecycle → Value
channel_report available channel_id metrics = object (
    field (codes "channel_id") (string channel_id) (
      field (codes "session_rows") (uint64 metrics.rows) (
        field (codes "disconnect_count") (if available then uint64 metrics.disconnects else null) (
          field (codes "successful_reconnects")
            (if available then uint64 (length metrics.reconnect_durations) else null)
            (field (codes "reconnect_duration_ns")
              (if available && not (is_empty metrics.reconnect_durations)
                then duration_statistics metrics.reconnect_durations
                else null)
              end)))))

unfoldable pub lifecycle_json : Lifecycle → Bytes → Bytes → Fields
lifecycle_json lifecycle standard aws =
    let available = bytes_eq (lifecycle_status lifecycle) (codes "observed") in
    field (codes "status") (string (lifecycle_status lifecycle)) (
      field (codes "definition")
        (string (codes "disconnect_to_subscription_write_complete_not_ack_or_first_data"))
        (field (codes "quantiles") (string (codes "nearest_rank")) (
          field (codes "count_scope") (string (codes "recorded_selected_channel_session_rows")) (
            field (codes "standard") (channel_report available standard lifecycle.standard)
              (field (codes "aws") (channel_report available aws lifecycle.aws) end)))))
