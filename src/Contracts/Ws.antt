-- ===== src/Contracts/Ws.antt =====
-- src/Contracts.cpp: validate_ws_ack and validate_ws_data.
use test_exchanges_helper.Base.{
  Bool, true, false, not, ◌&&◌, ◌||◌, Option, none, some, Bytes, String, bytes_eq, codes, ltb, ◌==◌,
  any, is_empty, length, if◌then◌else◌,
}
use test_exchanges_helper.Json.{Value, null, array, object, Fields}
use test_exchanges_helper.Contracts.Scalars.{member, scalar_text, nonempty}
use test_exchanges_helper.Contracts.Envelope.{is_present}
use test_exchanges_helper.Contracts.Search.{
  json_string_equals, json_bool_true, value_matches_id, contains_text, contains_nonempty_data,
  has_fields, has_items,
}
use test_exchanges_helper.Contracts.Wire.{little_u16, valid_protobuf_wire}
use test_exchanges_helper.Network.Redaction.{has_part}
use test_exchanges_helper.Model.Kinds.{
  WsAckKind, no_ack, keys_only, binance_subscription, bybit_subscription, okx_subscription,
  gate_subscription, bitget_subscription, kucoin_subscription, phemex_subscription,
  hyperliquid_subscription, bingx_subscription, WsDataKind, any_json, topic_json,
  kucoin_binary_json, sbe_header, protobuf_envelope, bingx_trades,
}
use test_exchanges_helper.Model.Products.{WsCase}

-- `WsValidation` of include/exchange_probe/Contracts.hpp
pub record WsValidation : Type 0 where
  pub matched : Bool
  pub error : String

-- `{.matched = …, .error = …}`
abbrev pub validation : Bool → String → WsValidation
validation matched error = record { matched = matched; error = error }

-- A test of a member that is an object; other members, and none, fail it.
unfoldable pub object_member : Fields → Bytes → (Fields → Bool) → Bool
object_member fs key test = elim (member fs key) [ some (object inner) ↦ test inner | _ ↦ false ]

-- `pointer != nullptr && pointer->is_null()`
unfoldable pub is_null_value : Option Value → Bool
is_null_value (some null) = true
is_null_value _ = false

-- No error, an error that is null, or one that is an empty object.
unfoldable pub has_no_error : Option Value → Bool
has_no_error none = true
has_no_error (some null) = true
has_no_error (some (object fs)) = not (has_fields fs)
has_no_error _ = false

-- The switch of `validate_ws_ack`, on an object.
unfoldable pub ack_verdict : WsAckKind → WsCase → Fields → Bool → WsValidation
ack_verdict no_ack probe_case fs binary = validation true ""
ack_verdict keys_only probe_case fs binary =
    validation (value_matches_id (member fs (codes "id")) probe_case.expected_request_id)
      "ack_id_mismatch"
ack_verdict binance_subscription probe_case fs binary =
    validation
      (not binary
        && is_null_value (member fs (codes "result"))
        && value_matches_id (member fs (codes "id")) probe_case.expected_request_id)
      "binance_ack_mismatch"
ack_verdict bybit_subscription probe_case fs binary =
    validation
      (not binary
        && json_bool_true fs (codes "success")
        && json_string_equals fs (codes "op") (codes "subscribe"))
      "bybit_ack_mismatch"
ack_verdict okx_subscription probe_case fs binary =
    validation
      (not binary
        && json_string_equals fs (codes "event") (codes "subscribe")
        && object_member fs (codes "arg") (λ argument.
          is_empty probe_case.expected_topic
          || contains_text (object argument) probe_case.expected_topic)
        && object_member fs (codes "arg") (λ argument.
          is_empty probe_case.expected_symbol
          || contains_text (object argument) probe_case.expected_symbol))
      "okx_ack_mismatch"
ack_verdict gate_subscription probe_case fs binary =
    validation
      (not binary
        && json_string_equals fs (codes "event") (codes "subscribe")
        && (is_empty probe_case.expected_topic
            || json_string_equals fs (codes "channel") probe_case.expected_topic)
        && object_member fs (codes "result")
            (λ result. json_string_equals result (codes "status") (codes "success")))
      "gate_ack_mismatch"
ack_verdict bitget_subscription probe_case fs binary =
    validation
      (not binary
        && json_string_equals fs (codes "event") (codes "subscribe")
        && object_member fs (codes "arg") (λ argument.
          contains_text (object argument) probe_case.expected_topic
          && contains_text (object argument) probe_case.expected_symbol))
      "bitget_ack_mismatch"
ack_verdict kucoin_subscription probe_case fs binary =
    validation
      (binary
        && value_matches_id (member fs (codes "id")) probe_case.expected_request_id
        && json_bool_true fs (codes "result"))
      "kucoin_ack_mismatch"
ack_verdict phemex_subscription probe_case fs binary =
    validation
      (not binary
        && value_matches_id (member fs (codes "id")) probe_case.expected_request_id
        && has_no_error (member fs (codes "error")))
      "phemex_ack_mismatch"
ack_verdict hyperliquid_subscription probe_case fs binary =
    validation
      (not binary
        && json_string_equals fs (codes "channel") (codes "subscriptionResponse")
        && object_member fs (codes "data") (λ payload.
          json_string_equals payload (codes "method") (codes "subscribe")
          && is_present (member payload (codes "subscription"))))
      "hyperliquid_ack_mismatch"
ack_verdict bingx_subscription probe_case fs binary =
    validation (bytes_eq (scalar_text (member fs (codes "code"))) (codes "0")) "bingx_ack_mismatch"

abbrev pub is_no_ack : WsAckKind → Bool
is_no_ack no_ack = true
is_no_ack _ = false

-- `validate_ws_ack`
unfoldable pub validate_ws_ack : WsCase → Value → Bool → Bool → WsValidation
validate_ws_ack probe_case value json_present binary =
    if is_no_ack probe_case.ack_kind
    then validation (not probe_case.require_ack) ""
    else if not json_present
    then validation false "ack_not_json_object"
    else (elim value [
      | object fs ↦ ack_verdict probe_case.ack_kind probe_case fs binary
      | _ ↦ validation false "ack_not_json_object"
    ])

unfoldable pub is_nonempty_document : Value → Bool
is_nonempty_document (object fs) = has_fields fs
is_nonempty_document (array xs) = has_items xs
is_nonempty_document v = false

-- The header of an SBE message of eight bytes or more.
unfoldable pub is_sbe_header : WsCase → Bytes → Bool
is_sbe_header probe_case payload =
    let template_id = little_u16 payload 2 in
    let template_ok =
      is_empty probe_case.expected_sbe_templates
      || any (λ expected. expected == template_id) probe_case.expected_sbe_templates in
    ltb 0 (little_u16 payload 0)
    && ltb 0 template_id
    && little_u16 payload 4 == probe_case.expected_sbe_schema
    && ltb 0 (little_u16 payload 6)
    && template_ok

unfoldable pub is_bingx_trade : WsCase → Fields → Bool
is_bingx_trade probe_case fs =
    json_string_equals fs (codes "dataType") probe_case.expected_topic
    && nonempty (member fs (codes "data"))

-- The switch of `validate_ws_data`.
unfoldable pub data_verdict : WsDataKind → WsCase → Value → Bool → Bool → Bytes → WsValidation
data_verdict any_json probe_case value json_present binary payload =
    validation (json_present && is_nonempty_document value) "empty_or_non_json_data"
data_verdict topic_json probe_case value json_present binary payload =
    validation
      (json_present
        && contains_nonempty_data value
        && contains_text value probe_case.expected_topic
        && contains_text value probe_case.expected_symbol)
      "topic_or_symbol_data_mismatch"
data_verdict kucoin_binary_json probe_case value json_present binary payload =
    validation
      (binary
        && json_present
        && not (contains_text value probe_case.expected_request_id)
        && (contains_nonempty_data value || contains_text value probe_case.expected_symbol))
      "kucoin_binary_data_mismatch"
data_verdict sbe_header probe_case value json_present binary payload =
    if not binary || ltb (length payload) 8
    then validation false "sbe_header_missing"
    else validation (is_sbe_header probe_case payload) "sbe_header_contract_mismatch"
data_verdict protobuf_envelope probe_case value json_present binary payload =
    validation
      (binary
        && valid_protobuf_wire payload
        && (is_empty probe_case.expected_symbol || has_part probe_case.expected_symbol payload))
      "protobuf_wire_contract_mismatch"
data_verdict bingx_trades probe_case value json_present binary payload =
    if not json_present then validation false "bingx_data_not_json" else (elim value [
      | object fs ↦ validation (is_bingx_trade probe_case fs) "bingx_trade_data_mismatch"
      | _ ↦ validation false "bingx_data_not_json"
    ])

-- `validate_ws_data`
unfoldable pub validate_ws_data : WsCase → Value → Bool → Bool → Bytes → WsValidation
validate_ws_data probe_case value json_present binary payload =
    data_verdict probe_case.data_kind probe_case value json_present binary payload
