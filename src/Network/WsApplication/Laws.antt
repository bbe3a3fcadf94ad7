-- ===== src/Network/WsApplication/Laws.antt =====
-- About the replies to a heartbeat.
use test_exchanges_helper.Base.{ℕ, ◌≡◌, ◌≢◌, ◌⊎◌, [], some, Bytes, codes}
use test_exchanges_helper.Json.{Value, int64, uint64, object, Fields, field, end, if_contains}
use test_exchanges_helper.Base.Int.{pos}

-- The document asks for a reply, and this is the reply.
pub record IsReply (serialize : Value → Bytes) (document : Value) (reply : Bytes) : Type 0 where
  pub members : Fields
  pub ping : Value
  pub is_document : document ≡ object members
  pub has_ping : if_contains (codes "ping") members ≡ some ping
  pub number : ℕ
  pub is_number : (ping ≡ uint64 number) ⊎ (ping ≡ int64 (pos number))
  pub is_echo : reply ≡ serialize (object (field (codes "pong") ping end))
  pub not_empty : reply ≢ []
