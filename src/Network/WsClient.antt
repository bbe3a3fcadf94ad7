-- ===== src/Network/WsClient.antt =====
-- src/Network/WsClient.cpp, observe_ws from the WebSocket handshake on: the welcome, the
-- subscription, and the loop over the messages. What the socket does is an oracle: the messages
-- that are read, one for each round that begins before the deadline, and what writing reports.
-- boost's parser and serializer, the inflater and the clock are parameters.
pub mod Verdict
pub mod Rounds
pub mod Completion
use test_exchanges_helper.Base.{
  ℕ, Bool, true, false, not, ◌&&◌, ◌||◌, List, [], ◌∷◌, Option, none, some, Bytes, String, bytes_eq,
  codes, ltb, is_empty, length, Result, ok, err, if◌then◌else◌, option_or,
}
use test_exchanges_helper.Base.Int.{ℤ, pos, negsuc}
use test_exchanges_helper.Json.{
  Value, null, boolean, int64, uint64, double, string, array, object, Items, nil, cons, Fields,
  field, end, if_contains,
}
use test_exchanges_helper.Contracts.Ws.{WsValidation, validate_ws_ack, validate_ws_data}
use test_exchanges_helper.Contracts.Envelope.{is_present}
use test_exchanges_helper.Model.Kinds.{Compression, no_compression, gzip}
use test_exchanges_helper.Model.Products.{WsCase}
use test_exchanges_helper.Network.Gzip.{Outcome, Zlib, decode_gzip_bounded, value, refused, fault}
use test_exchanges_helper.Network.WsApplication.{max_ws_message_bytes, application_pong}

-- What the code calls: `boost::json::parse` and `serialize`, zlib, and `std::time(nullptr)`.
pub record Calls : Type 0 where
  pub parse : Bytes → Option Value
  pub serialize : Value → Bytes
  pub zlib : Zlib
  pub time : ℤ

-- `object["time"] = …`, where the key is there.
unfoldable pub set_member : Bytes → Value → Fields → Fields
set_member key v end = end
set_member key v (field k w fs) =
    let later = field k w (set_member key v fs) in if bytes_eq k key then field k v fs else later

-- `subscription_payload`
unfoldable pub subscription_payload : Calls → WsCase → Bytes
subscription_payload calls probe_case =
    if is_empty probe_case.subscribe then [] else (elim (calls.parse probe_case.subscribe) [
      | some (object fs) ↦ calls.serialize (
          object (
            if is_present (if_contains (codes "time") fs)
            then set_member (codes "time") (int64 calls.time) fs
            else fs))
      | _ ↦ probe_case.subscribe
    ])

-- A number above 0.
unfoldable pub is_positive : Option Value → Bool
is_positive (some (int64 (pos n))) = ltb 0 n
is_positive (some (uint64 n)) = ltb 0 n
is_positive _ = false

unfoldable pub is_welcome_text : Option Value → Bool
is_welcome_text (some (string s)) = bytes_eq s (codes "welcome")
is_welcome_text _ = false

-- `valid_kucoin_welcome`, of the document that the message parses to.
unfoldable pub valid_kucoin_welcome : Option Value → Bool → Bool
valid_kucoin_welcome (some (object fs)) binary =
    binary
    && is_welcome_text (if_contains (codes "message") fs)
    && is_positive (if_contains (codes "pingInterval") fs)
valid_kucoin_welcome _ binary = false

-- `ReadMessage`: a message, or the error of the read.
pub data ReadMessage : Type 0 where
  received : Bool → Bytes → ReadMessage
  unread : Bytes → ReadMessage

-- One round of the loop: the message, and the error that writing an answer to it would report.
pub record Round : Type 0 where
  pub message : ReadMessage
  pub write_error : Option Bytes

-- What the socket does in a session, once the handshake is over.
pub record Socket : Type 0 where
  pub welcome : ReadMessage
  pub subscribe_error : Option Bytes
  pub rounds : List Round
  pub control_pings : ℕ

-- `WsResult`, less what the connection has set.
pub record WsResult : Type 0 where
  pub connected : Bool
  pub ack_complete : Bool
  pub data_complete : Bool
  pub binary : Bool
  pub control_pings : ℕ
  pub protocol_stage : String
  pub payload : Bytes
  pub payload_bytes : ℕ
  pub json : Value
  pub json_present : Bool
  pub error : Bytes

-- What a message comes to before the state is looked at: an error, a heartbeat with its answer, or
-- a text with its document and the two verdicts.
pub data Heard : Type 0 where
  broken : Option String → Bytes → Heard
  pinged : Bytes → Heard
  judged : Bool → Bytes → Option Value → WsValidation → WsValidation → Heard

-- `json`, which stays null where the text does not parse.
abbrev pub document : Option Value → Value
document json = option_or json null (λ v. v)

-- `application_pong`, where there is a document.
unfoldable pub pong_for : Calls → WsCase → Option Value → Result Bytes
pong_for calls probe_case none = ok []
pong_for calls probe_case (some v) =
    application_pong calls.serialize probe_case.application_heartbeat v

unfoldable pub hear_text : Calls → WsCase → Bool → Bytes → Heard
hear_text calls probe_case binary text =
    let json = calls.parse text in
    let ack = validate_ws_ack probe_case (document json) (is_present json) binary in
    let found = validate_ws_data probe_case (document json) (is_present json) binary text in
    elim (pong_for calls probe_case json) [
      | err message ↦ broken none (codes message)
      | ok pong ↦ if is_empty pong then judged binary text json ack found else pinged pong
    ]

-- The gzip of a binary message, where the case asks for it.
unfoldable pub is_compressed : Compression → Bool → Bool
is_compressed gzip binary = binary
is_compressed no_compression binary = false

unfoldable pub hear : Calls → WsCase → ReadMessage → Heard
hear calls probe_case (unread error) = broken none error
hear calls probe_case (received binary payload) =
    if is_compressed probe_case.compression binary
    then (elim (decode_gzip_bounded calls.zlib payload max_ws_message_bytes) [
      | value text ↦ hear_text calls probe_case binary text
      | refused message ↦ broken (some "decompression") (codes message)
      | fault ↦ broken (some "decompression") (codes "fault")
    ])
    else hear_text calls probe_case binary payload

-- The local `ack_complete` and the result; the loop goes on, or has left by a `break`.
pub record Observing : Type 0 where
  pub acked : Bool
  pub left : Bool
  pub result : WsResult

-- The three branches on the verdicts of a message.
unfoldable pub apply_verdicts : WsCase → Bool → Bool → Bool → WsResult → Bool × WsResult
apply_verdicts probe_case acked ack_matched data_matched result =
    if not acked && ack_matched
    then (
      true,
      record result {
        protocol_stage = "ack";
        data_complete = (probe_case.ack_implies_data && data_matched) || result.data_complete;
      },
    )
    else if not acked && probe_case.data_implies_ack && data_matched
    then (true, record result { protocol_stage = "data_implies_ack"; data_complete = true })
    else if acked && data_matched
    then (acked, record result { protocol_stage = "data"; data_complete = true })
    else (acked, result)

-- `!require_data || data_complete`
abbrev pub has_data : WsCase → WsResult → Bool
has_data probe_case result = not probe_case.require_data || result.data_complete

-- The end of a round: the message is recorded, and the loop is left once all is there.
unfoldable pub record_message : WsCase → Bool → Bytes → Option Value → Bool × WsResult → Observing
record_message probe_case binary text json (acked, result) =
    let next = record result {
      ack_complete = acked;
      binary = binary;
      payload = text;
      payload_bytes = length text;
      json = document json;
      json_present = is_present json;
    } in
    if acked && has_data probe_case result
    then record { acked = acked; left = true; result = record next { error = [] } }
    else record { acked = acked; left = false; result = next }

-- An answer that is written, or the error of writing it.
unfoldable pub write_pong : Bool → Option Bytes → WsResult → Observing
write_pong acked none result = record { acked = acked; left = false; result = result }
write_pong acked (some error) result = record {
  acked = acked;
  left = true;
  result = record result { error = error };
}

abbrev pub stage_or : Option String → String → String
stage_or stage before = option_or stage before (λ s. s)

-- One round of the loop.
unfoldable pub observe_heard : WsCase → Option Bytes → Bool → WsResult → Heard → Observing
observe_heard probe_case write_error acked result (broken stage error) = record {
  acked = acked;
  left = true;
  result = record result { protocol_stage = stage_or stage result.protocol_stage; error = error };
}
observe_heard probe_case write_error acked result (pinged pong) =
    write_pong acked write_error (record result { protocol_stage = "application_pong" })
observe_heard probe_case write_error acked result (judged binary text json ack found) =
    record_message probe_case binary text json
      (apply_verdicts probe_case acked ack.matched found.matched result)

unfoldable pub observe_round : Calls → WsCase → Round → Bool → WsResult → Observing
observe_round calls probe_case round acked result =
    observe_heard probe_case round.write_error acked
      (record result { protocol_stage = if acked then "data_read" else "ack_read" })
      (hear calls probe_case round.message)

-- The loop. The rounds end where the deadline has passed.
unfoldable pub observe_rounds : Calls → WsCase → List Round → Bool → WsResult → Bool × WsResult
observe_rounds calls probe_case [] acked result = (acked, result)
observe_rounds calls probe_case (round ∷ rounds) acked result =
    let next = observe_round calls probe_case round acked result in
    let later = observe_rounds calls probe_case rounds next.acked next.result in
    if next.left then (next.acked, next.result) else later

-- Behind the loop: a result that lacks something has an error.
unfoldable pub conclude : WsCase → ℕ → Bool × WsResult → WsResult
conclude probe_case control_pings (acked, result) = record result {
  ack_complete = acked;
  control_pings = control_pings;
  error =
      if is_empty result.error
        && (not acked || (probe_case.require_data && not result.data_complete))
      then codes (if acked then "data_after_ack_timeout" else "ack_timeout")
      else result.error;
}

unfoldable pub observe_subscribed : Calls → WsCase → Socket → WsResult → WsResult
observe_subscribed calls probe_case socket result =
    conclude probe_case socket.control_pings
      (observe_rounds calls probe_case socket.rounds (not probe_case.require_ack) result)

-- A session that ends before the loop.
abbrev pub abandoned : Socket → Bytes → WsResult → WsResult
abandoned socket error result = record result {
  error = error;
  control_pings = socket.control_pings;
}

unfoldable pub observe_subscription : Calls → WsCase → Socket → WsResult → WsResult
observe_subscription calls probe_case socket result =
    let writing = record result { protocol_stage = "subscribe_write" } in
    if is_empty (subscription_payload calls probe_case)
    then observe_subscribed calls probe_case socket result
    else option_or socket.subscribe_error (observe_subscribed calls probe_case socket writing)
        (λ error. abandoned socket error writing)

-- The welcome of the session, where the case reads one.
unfoldable pub observe_welcome : Calls → WsCase → Socket → ReadMessage → WsResult → WsResult
observe_welcome calls probe_case socket (unread error) result = abandoned socket error result
observe_welcome calls probe_case socket (received binary payload) result =
    if valid_kucoin_welcome (calls.parse payload) binary
    then observe_subscription calls probe_case socket result
    else abandoned socket (codes "welcome_contract_mismatch") result

-- `result.connected = true`, of a result that the handshake has left without an error.
abbrev pub connected_result : WsResult
connected_result = record {
  connected = true;
  ack_complete = false;
  data_complete = false;
  binary = false;
  control_pings = 0;
  protocol_stage = "ws_handshake";
  payload = [];
  payload_bytes = 0;
  json = null;
  json_present = false;
  error = [];
}

-- `observe_ws` behind the handshake
unfoldable pub observe_ws : Calls → WsCase → Socket → WsResult
observe_ws calls probe_case socket =
    if probe_case.read_welcome
    then observe_welcome calls probe_case socket socket.welcome
        (record connected_result { protocol_stage = "welcome" })
    else observe_subscription calls probe_case socket connected_result
