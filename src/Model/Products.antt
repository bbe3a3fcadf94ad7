-- ===== src/Model/Products.antt =====
-- The products of include/exchange_probe/Model.hpp: their cases and their capabilities.
use test_exchanges_helper.Base.{ℕ, Bool, List, Bytes}
use test_exchanges_helper.Model.Kinds.{
  Surface, Transport, Wire, Selection, ProfileStatus, AuthKind, WsAckKind, WsDataKind, Compression,
}
use test_exchanges_helper.Model.Outcomes.{Expectation, RestContract}

pub record SourceAnchor : Type 0 where
  pub path : Bytes
  pub symbol : Bytes
  pub literals : List Bytes

pub record RestCase : Type 0 where
  pub name : Bytes
  pub host : Bytes
  pub path : Bytes
  pub capabilities : List Bytes
  pub selection : Selection
  pub contract : RestContract
  pub auth : AuthKind
  pub expectation : Expectation
  pub expected_symbol : Bytes
  pub expected_rejection_statuses : List ℕ
  pub expected_rejection_codes : List Bytes
  pub private_case : Bool
  pub native : Bool
  pub core_anchor : SourceAnchor
  pub parser_anchor : SourceAnchor

-- The map of handshake headers is the list of its entries.
pub record WsCase : Type 0 where
  pub name : Bytes
  pub host : Bytes
  pub path : Bytes
  pub subscribe : Bytes
  pub capabilities : List Bytes
  pub selection : Selection
  pub wire : Wire
  pub ack_kind : WsAckKind
  pub data_kind : WsDataKind
  pub compression : Compression
  pub handshake_headers : List (Bytes × Bytes)
  pub expected_symbol : Bytes
  pub expected_topic : Bytes
  pub expected_request_id : Bytes
  pub expected_sbe_schema : ℕ
  pub expected_sbe_templates : List ℕ
  pub subscribe_binary : Bool
  pub inbound_binary : Bool
  pub read_welcome : Bool
  pub require_ack : Bool
  pub require_data : Bool
  pub data_implies_ack : Bool
  pub ack_implies_data : Bool
  pub application_heartbeat : Bytes
  pub core_anchor : SourceAnchor
  pub parser_anchor : SourceAnchor

pub record FixCase : Type 0 where
  pub name : Bytes
  pub host : Bytes
  pub port : ℕ
  pub session_kind : Bytes
  pub capability : Bytes
  pub core_anchor : SourceAnchor
  pub payload_anchor : SourceAnchor

pub record CapabilityRow : Type 0 where
  pub name : Bytes
  pub surface : Surface
  pub transport : Transport
  pub wire : Wire
  pub selection : Selection
  pub profile_status : ProfileStatus
  pub requires_confirmation : Bool
  pub native : Bool

pub record ProductSpec : Type 0 where
  pub venue : Bytes
  pub product : Bytes
  pub credential_prefix : Bytes
  pub public_rest : List RestCase
  pub private_rest : List RestCase
  pub public_ws : List WsCase
  pub fix_sessions : List FixCase
  pub capabilities : List CapabilityRow
  pub notes : List Bytes
  pub credential_anchor : SourceAnchor
