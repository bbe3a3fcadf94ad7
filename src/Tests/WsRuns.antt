-- ===== src/Tests/WsRuns.antt =====
-- Sessions of the WebSocket client at concrete inputs.
use test_exchanges_helper.Base.{
  ◌≡◌, refl, sym, ap, true, false, [], ◌∷◌, Option, none, some, Bytes, codes, bytes_eq, is_empty,
  if◌then◌else◌,
}
use test_exchanges_helper.Base.Int.{pos}
use test_exchanges_helper.Json.{Value, boolean, string, uint64, object, field, end, if_contains}
use test_exchanges_helper.Contracts.Scalars.{member, nonempty}
use test_exchanges_helper.Contracts.Search.{
  json_string_equals, json_bool_true, searched, contains_within, field_contains, contains_text,
  payload_member, nonempty_within, contains_nonempty_data,
}
use test_exchanges_helper.Contracts.Ws.{
  validate_ws_ack, ack_verdict, validate_ws_data, data_verdict,
}
use test_exchanges_helper.Model.Kinds.{
  core_selected, json, bybit_subscription, topic_json, no_compression,
}
use test_exchanges_helper.Model.Products.{SourceAnchor, WsCase}
use test_exchanges_helper.Network.Gzip.{end_of_stream}
use test_exchanges_helper.Network.Redaction.{has_part, begins_with}
use test_exchanges_helper.Network.WsApplication.{application_pong, is_ping_number}
use test_exchanges_helper.Network.WsClient.{
  Calls, Round, Socket, received, unread, pong_for, hear_text, is_compressed, hear, observe_ws,
  observe_subscription, subscription_payload, observe_subscribed, observe_rounds, observe_round,
  observe_heard, apply_verdicts, record_message, write_pong, conclude,
}
use test_exchanges_helper.Network.WsClient.Verdict.{IsTelling, IsProven, observe_ws-IsProven}
use test_exchanges_helper.Network.WsClient.Rounds.{is_quiet, is_silent, is_ack, is_data}
use test_exchanges_helper.Network.WsClient.Completion.{observe_ws_completes}

abbrev ack_text : Bytes
ack_text = codes "ack"

abbrev data_text : Bytes
data_text = codes "data"

abbrev ping_text : Bytes
ping_text = codes "ping"

abbrev parsed : Bytes → Option Value
parsed text =
    if bytes_eq text ack_text
    then some (
        object (
          field (codes "success") (boolean true)
            (field (codes "op") (string (codes "subscribe")) end)))
    else if bytes_eq text data_text
    then some (object (field (codes "data") (string (codes "trades.BTC")) end))
    else if bytes_eq text ping_text
    then some (object (field (codes "ping") (uint64 7) end))
    else none

abbrev ws_calls : Calls
ws_calls = record {
  parse = parsed;
  serialize = λ v. codes "{}";
  zlib = record {
    inflate = λ input size. record { code = end_of_stream; avail_in = 0; written = [] };
    end_message = "end of deflate stream";
    crc_32 = λ bytes. 0;
  };
  time = pos 1;
}

abbrev anchor : SourceAnchor
anchor = record { path = []; symbol = []; literals = [] }

abbrev probe : WsCase
probe = record {
  name = codes "trades";
  host = codes "stream";
  path = codes "/v5";
  subscribe = codes "subscribe";
  capabilities = [];
  selection = core_selected;
  wire = json;
  ack_kind = bybit_subscription;
  data_kind = topic_json;
  compression = no_compression;
  handshake_headers = [];
  expected_symbol = codes "BTC";
  expected_topic = codes "trades";
  expected_request_id = [];
  expected_sbe_schema = 0;
  expected_sbe_templates = [];
  subscribe_binary = false;
  inbound_binary = false;
  read_welcome = false;
  require_ack = true;
  require_data = true;
  data_implies_ack = false;
  ack_implies_data = false;
  application_heartbeat = codes "htx";
  core_anchor = anchor;
  parser_anchor = anchor;
}

abbrev heard_text : Bytes → Round
heard_text text = record { message = received false text; write_error = none }

-- A heartbeat is answered in front of the acknowledgement and behind it.
abbrev socket : Socket
socket = record {
  welcome = unread (codes "closed");
  subscribe_error = none;
  rounds =
      heard_text ping_text
      ∷ heard_text ack_text
      ∷ heard_text ping_text
      ∷ heard_text data_text
      ∷ record { message = unread (codes "ws_read_timeout"); write_error = none }
      ∷ [];
  control_pings = 2;
}

observe_ws_completes_example :
    (let result = observe_ws ws_calls probe socket in
      (result.error ≡ []) × (result.ack_complete ≡ true) × (result.data_complete ≡ true))
unfolding hear hear_text is_compressed pong_for application_pong is_ping_number validate_ws_ack
    ack_verdict validate_ws_data data_verdict json_bool_true json_string_equals member if_contains
    bytes_eq contains_text contains_within field_contains searched has_part begins_with
    contains_nonempty_data nonempty_within payload_member nonempty is_quiet is_silent is_ack is_data
observe_ws_completes_example =
    observe_ws_completes ws_calls probe socket (heard_text ping_text ∷ [])
      (heard_text ping_text ∷ [])
      (record { message = unread (codes "ws_read_timeout"); write_error = none } ∷ [])
      (heard_text ack_text) (heard_text data_text) refl refl refl refl refl refl refl refl refl

observe_ws-IsProven_example :
    IsProven ws_calls probe socket.rounds (observe_ws ws_calls probe socket)
unfolding IsTelling hear hear_text is_compressed pong_for application_pong is_ping_number
    validate_ws_ack ack_verdict validate_ws_data data_verdict json_bool_true json_string_equals
    member if_contains bytes_eq contains_text contains_within field_contains searched has_part
    begins_with contains_nonempty_data nonempty_within payload_member nonempty observe_ws
    observe_subscription subscription_payload observe_subscribed observe_rounds observe_round
    observe_heard apply_verdicts record_message write_pong conclude
observe_ws-IsProven_example =
    observe_ws-IsProven ws_calls probe socket
      (
        (λ error e. ap (λ m. elim m [ unread text ↦ is_empty text | _ ↦ false ]) (sym e)),
        (λ error e. cc),
      )
      refl
