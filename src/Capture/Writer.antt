-- ===== src/Capture/Writer.antt =====
-- `ResearchBundleWriter` of src/Research/ResearchCapture.cpp, without its manifest
-- (Bundle.Manifest has the channels of it). The clocks are
-- arguments, and so is what a stream says after a write: `stored` is whether it is still good.
-- Where it is not, what reached the file is unknown, and the model keeps the file as it was.
pub mod Limit
pub mod Lossless
use Prim.Native.Nat.{bit_and}
use test_exchanges_helper.Base.{
  ℕ, ◌+◌, ◌-◌, ◌/◌, ◌%◌, ◌^◌, Bool, true, false, not, ◌&&◌, ◌||◌, List, [], ◌∷◌, ◌++◌, Option, none,
  some, Bytes, codes, ltb, leb, length, option_or, if◌then◌else◌,
}
use test_exchanges_helper.Json.{Value, boolean, uint64, string, object, Fields, field, end}

pub record TransportMetadata : Type 0 where
  pub remote_ip : Bytes
  pub ip_family : Bytes
  pub tls_version : Bytes
  pub tls_cipher : Bytes
  pub alpn : Bytes

pub record SessionArgs : Type 0 where
  pub round : ℕ
  pub channel : Bytes
  pub stage : Bytes
  pub ok : Bool
  pub error : Bytes
  pub transport : Option TransportMetadata
  pub attempt : ℕ
  pub session_generation : ℕ
  pub reconnect_duration_ns : Option ℕ
  pub reconnect_wait_ns : Option ℕ
  pub monotonic_ns : ℕ
  pub utc_ns : ℕ

pub record ControlArgs : Type 0 where
  pub round : ℕ
  pub channel : Bytes
  pub direction : Bytes
  pub kind : Bytes
  pub payload : Bytes
  pub send_time_observed : Bool
  pub attempt : ℕ
  pub session_generation : ℕ
  pub monotonic_ns : ℕ
  pub utc_ns : ℕ

pub record FrameArgs : Type 0 where
  pub round : ℕ
  pub channel : Bytes
  pub binary : Bool
  pub payload : Bytes
  pub received_monotonic_ns : ℕ
  pub attempt : ℕ
  pub session_generation : ℕ
  pub monotonic_ns : ℕ
  pub utc_ns : ℕ

-- The members of the class that the operations move, and the four files; a file of rows is the
-- list of its lines without their line feeds.
pub record Writer : Type 0 where
  pub byte_limit : ℕ
  pub bytes_written : ℕ
  pub frame_bytes : ℕ
  pub records_not_persisted : ℕ
  pub next_frame_id : ℕ
  pub artifact_complete : Bool
  pub storage_failed : Bool
  pub finished_successfully : Bool
  pub frames : Bytes
  pub frame_index : List Bytes
  pub controls : List Bytes
  pub sessions : List Bytes

-- `digits[…]`
unfoldable pub hex_digit : ℕ → ℕ
hex_digit n = if ltb n 10 then b'0' + n else b'a' + n - 10

-- `hex_encode`
unfoldable pub hex_encode : Bytes → Bytes
hex_encode [] = []
hex_encode (byte ∷ bytes) = hex_digit (byte / 16) ∷ hex_digit (bit_and byte 0x0f) ∷ hex_encode bytes

optional_number : Bytes → Option ℕ → Fields → Fields
optional_number key none fs = fs
optional_number key (some n) fs = field key (uint64 n) fs

transport_fields : Option TransportMetadata → Fields
transport_fields none = end
transport_fields (some t) = field (codes "remote_ip") (string t.remote_ip) (
    field (codes "ip_family") (string t.ip_family) (
      field (codes "tls_version") (string t.tls_version) (
        field (codes "tls_cipher") (string t.tls_cipher)
          (field (codes "alpn") (string t.alpn) end))))

-- The row of `session`
unfoldable pub session_row : SessionArgs → Value
unfolding optional_number transport_fields
session_row a = object (
    field (codes "schema") (string (codes "exchange.api_probe.session.v1")) (
      field (codes "round") (uint64 a.round) (
        field (codes "channel_id") (string a.channel) (
          field (codes "stage") (string a.stage) (
            field (codes "ok") (boolean a.ok) (
              field (codes "error") (string a.error) (
                field (codes "monotonic_ns") (uint64 a.monotonic_ns) (
                  field (codes "utc_ns") (uint64 a.utc_ns) (
                    field (codes "attempt") (uint64 a.attempt) (
                      field (codes "session_generation") (uint64 a.session_generation) (
                        optional_number (codes "reconnect_duration_ns") a.reconnect_duration_ns (
                          optional_number (codes "reconnect_wait_ns") a.reconnect_wait_ns
                            (transport_fields a.transport)))))))))))))

-- The row of `control`
unfoldable pub control_row : ControlArgs → Value
control_row a = object (
    field (codes "schema") (string (codes "exchange.api_probe.control_frame.v1")) (
      field (codes "round") (uint64 a.round) (
        field (codes "channel_id") (string a.channel) (
          field (codes "direction") (string a.direction) (
            field (codes "control_kind") (string a.kind) (
              field (codes "payload_encoding") (string (codes "hex")) (
                field (codes "payload_hex") (string (hex_encode a.payload)) (
                  field (codes "monotonic_ns") (uint64 a.monotonic_ns) (
                    field (codes "utc_ns") (uint64 a.utc_ns) (
                      field (codes "send_time_observed") (boolean a.send_time_observed) (
                        field (codes "attempt") (uint64 a.attempt) (
                          field (codes "session_generation") (uint64 a.session_generation)
                            end))))))))))))

-- The fields of the row of `frame`, with the frame's number and offset
unfoldable pub frame_row : ℕ → ℕ → FrameArgs → Fields
frame_row frame_id offset a =
    field (codes "schema") (string (codes "exchange.api_probe.frame_index.v1")) (
      field (codes "frame_id") (uint64 frame_id) (
        field (codes "round") (uint64 a.round) (
          field (codes "channel_id") (string a.channel) (
            field (codes "direction") (string (codes "inbound")) (
              field (codes "opcode") (string (if a.binary then codes "binary" else codes "text")) (
                field (codes "monotonic_ns") (uint64 a.monotonic_ns) (
                  field (codes "utc_ns") (uint64 a.utc_ns) (
                    field (codes "received_monotonic_ns") (uint64 a.received_monotonic_ns) (
                      field (codes "attempt") (uint64 a.attempt) (
                        field (codes "session_generation") (uint64 a.session_generation) (
                          field (codes "offset") (uint64 offset)
                            (field (codes "length") (uint64 (length a.payload)) end))))))))))))

-- The test of `reserve_bytes`, in 64 bits
unfoldable pub is_refused : ℕ → Writer → Bool
is_refused amount w =
    not w.artifact_complete || ltb w.byte_limit ((w.bytes_written + amount) % 2 ^ 64)

unfoldable pub lost : Writer → Writer
lost w = record w { artifact_complete = false; records_not_persisted = w.records_not_persisted + 1 }

unfoldable pub reserved : ℕ → Writer → Writer
reserved amount w = record w { bytes_written = (w.bytes_written + amount) % 2 ^ 64 }

-- `mark_storage_failure`
unfoldable pub mark_storage_failure : Writer → Writer
mark_storage_failure w = record w { storage_failed = true; artifact_complete = false }

-- `session`
unfoldable pub session : (Value → Bytes) → SessionArgs → Bool → Writer → Writer
session serialize a stored w =
    let line = serialize (session_row a) in
    let counted = reserved (length line + 1) w in
    if is_refused (length line + 1) w
    then lost w
    else if stored
    then record counted { sessions = line ∷ w.sessions }
    else mark_storage_failure counted

-- `control`
unfoldable pub control : (Value → Bytes) → ControlArgs → Bool → Writer → Writer
control serialize a stored w =
    let line = serialize (control_row a) in
    let counted = reserved (length line + 1) w in
    if is_refused (length line + 1) w
    then lost w
    else if stored
    then record counted { controls = line ∷ w.controls }
    else mark_storage_failure counted

-- `frame`
unfoldable pub frame : (Value → Bytes) → FrameArgs → Bool → Writer → Writer
frame serialize a stored w =
    let line = serialize (object (frame_row w.next_frame_id w.frame_bytes a)) in
    let amount = length a.payload + (length line + 1) in
    let counted = record (reserved amount w) { next_frame_id = w.next_frame_id + 1 } in
    if is_refused amount w
    then lost w
    else if stored
    then record counted {
      frame_bytes = (w.frame_bytes + length a.payload) % 2 ^ 64;
      frames = w.frames ++ a.payload;
      frame_index = line ∷ w.frame_index;
    }
    else mark_storage_failure counted

-- `finish`: the streams and the manifest are good, and the marker is.
unfoldable pub finish : Bool → Bool → Bool → Bool → Writer → Writer
finish sessions_ok streams_good manifest_good marker_good w =
    let flushed = if streams_good then w else mark_storage_failure w in
    let intended = sessions_ok && flushed.artifact_complete && not flushed.storage_failed in
    let closed = if manifest_good then flushed else mark_storage_failure flushed in
    if intended && not closed.storage_failed
    then (if marker_good
        then record closed { finished_successfully = true }
        else record closed { storage_failed = true; finished_successfully = false })
    else record closed { finished_successfully = false }

-- One call on the writer, and the calls of a capture in the order of its lock.
pub data Call : Type 0 where
  session_call : SessionArgs → Bool → Call
  control_call : ControlArgs → Bool → Call
  frame_call : FrameArgs → Bool → Call

unfoldable pub call : (Value → Bytes) → Call → Writer → Writer
call serialize (session_call a stored) w = session serialize a stored w
call serialize (control_call a stored) w = control serialize a stored w
call serialize (frame_call a stored) w = frame serialize a stored w

unfoldable pub calls : (Value → Bytes) → List Call → Writer → Writer
calls serialize [] w = w
calls serialize (c ∷ cs) w = calls serialize cs (call serialize c w)

-- The writer behind its constructor.
abbrev pub opened_writer : ℕ → Writer
opened_writer limit = record {
  byte_limit = limit;
  bytes_written = 0;
  frame_bytes = 0;
  records_not_persisted = 0;
  next_frame_id = 0;
  artifact_complete = true;
  storage_failed = false;
  finished_successfully = false;
  frames = [];
  frame_index = [];
  controls = [];
  sessions = [];
}
