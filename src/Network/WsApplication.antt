-- ===== src/Network/WsApplication.antt =====
-- src/Network/WsApplication.hpp: the reply to an application heartbeat. boost's parser and
-- serializer are parameters; the empty text is no reply, as in the source.
pub mod Laws
use test_exchanges_helper.Base.{
  ℕ, suc, Bool, true, false, not, ◌||◌, List, [], ◌∷◌, Option, none, some, Bytes, String, bytes_eq,
  codes, ltb, length, Result, ok, err, if◌then◌else◌,
}
use test_exchanges_helper.Base.Int.{ℤ, pos, negsuc}
use test_exchanges_helper.Json.{Value, int64, uint64, object, Fields, field, end, if_contains}
use test_exchanges_helper.Network.Gzip.{Outcome, Zlib, decode_gzip_bounded, value, refused, fault}

abbrev pub max_ws_message_bytes : ℕ
max_ws_message_bytes = 8388608

-- `ping->is_uint64()`, or `ping->is_int64()` and not negative
unfoldable pub is_ping_number : Value → Bool
is_ping_number (uint64 n) = true
is_ping_number (int64 (pos n)) = true
is_ping_number _ = false

-- `{{"pong", *ping}}`
abbrev pub pong_object : Value → Value
pong_object ping = object (field (codes "pong") ping end)

pong_reply : (Value → Bytes) → Option Value → Result Bytes
pong_reply serialize none = ok []
pong_reply serialize (some ping) =
    if is_ping_number ping
    then ok (serialize (pong_object ping))
    else err "htx_application_ping_invalid"

pong_of : (Value → Bytes) → Value → Result Bytes
pong_of serialize (object fs) = pong_reply serialize (if_contains (codes "ping") fs)
pong_of serialize _ = ok []

-- `application_pong`
unfoldable pub application_pong : (Value → Bytes) → Bytes → Value → Result Bytes
unfolding pong_of pong_reply
application_pong serialize heartbeat document =
    if not (bytes_eq heartbeat (codes "htx")) then ok [] else pong_of serialize document

-- The payload behind an optional compression; `fault` is a read out of bounds.
unfoldable pub decompressed : Zlib → Bool → Bytes → Outcome Bytes
decompressed zlib gzip payload =
    if gzip then decode_gzip_bounded zlib payload max_ws_message_bytes else value payload

-- `htx_application_pong`
unfoldable pub htx_application_pong :
    Zlib → (Bytes → Option Value) → (Value → Bytes) → Bytes → Bool → Result Bytes
htx_application_pong zlib parse serialize payload gzip =
    if ltb max_ws_message_bytes (length payload)
    then err "htx_application_payload_capacity_exceeded"
    else (elim (decompressed zlib gzip payload) [
      | refused message ↦ err message
      | fault ↦ err "fault"
      | value text ↦ elim (parse text) [
        | none ↦ err "htx_application_json_invalid"
        | some document ↦ application_pong serialize (codes "htx") document
      ]
    ])
