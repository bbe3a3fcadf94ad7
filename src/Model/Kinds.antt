-- ===== src/Model/Kinds.antt =====
-- The enumerations of include/exchange_probe/Model.hpp, less those of an outcome, and their
-- `to_string` in src/Model.cpp.
use test_exchanges_helper.Base.{ℕ, Bool, List, [], ◌∷◌, Bytes, codes, ◌==◌, if◌then◌else◌}

-- `enum_name`, with `==` of the enumeration
unfoldable pub enum_name {ℓ} : {E : Type ℓ} → (E → E → Bool) → E → List (E × Bytes) → Bytes → Bytes
enum_name same value [] fallback = fallback
enum_name same value ((candidate, name) ∷ names) fallback =
    let later = enum_name same value names fallback in if same candidate value then name else later

-- `Surface`, the values of its enumerators, and its `to_string`
pub data Surface : Type 0 where
  public_surface private_surface : Surface

unfoldable pub surface_rank : Surface → ℕ
surface_rank public_surface = 0
surface_rank private_surface = 1

abbrev pub surface_names : List (Surface × Bytes)
surface_names = (public_surface, codes "public") ∷ (private_surface, codes "private") ∷ []

unfoldable pub surface_to_string : Surface → Bytes
surface_to_string value =
    enum_name (λ lhs rhs. surface_rank lhs == surface_rank rhs) value surface_names
      (codes "unknown")

-- `Transport`, the values of its enumerators, and its `to_string`
pub data Transport : Type 0 where
  no_transport rest web_socket fix : Transport

unfoldable pub transport_rank : Transport → ℕ
transport_rank no_transport = 0
transport_rank rest = 1
transport_rank web_socket = 2
transport_rank fix = 3

abbrev pub transport_names : List (Transport × Bytes)
transport_names =
    (no_transport, codes "none")
    ∷ (rest, codes "rest")
    ∷ (web_socket, codes "ws")
    ∷ (fix, codes "fix")
    ∷ []

unfoldable pub transport_to_string : Transport → Bytes
transport_to_string value =
    enum_name (λ lhs rhs. transport_rank lhs == transport_rank rhs) value transport_names
      (codes "unknown")

-- `Wire`, the values of its enumerators, and its `to_string`
pub data Wire : Type 0 where
  no_wire json binary_json sbe protobuf fix_sbe : Wire

unfoldable pub wire_rank : Wire → ℕ
wire_rank no_wire = 0
wire_rank json = 1
wire_rank binary_json = 2
wire_rank sbe = 3
wire_rank protobuf = 4
wire_rank fix_sbe = 5

abbrev pub wire_names : List (Wire × Bytes)
wire_names =
    (no_wire, codes "none")
    ∷ (json, codes "json")
    ∷ (binary_json, codes "binary_json")
    ∷ (sbe, codes "sbe_binary")
    ∷ (protobuf, codes "protobuf_binary")
    ∷ (fix_sbe, codes "fix_sbe_binary")
    ∷ []

unfoldable pub wire_to_string : Wire → Bytes
wire_to_string value =
    enum_name (λ lhs rhs. wire_rank lhs == wire_rank rhs) value wire_names (codes "unknown")

-- `Selection`, the values of its enumerators, and its `to_string`
pub data Selection : Type 0 where
  core_selected diagnostic_variant external_adapter_required : Selection

unfoldable pub selection_rank : Selection → ℕ
selection_rank core_selected = 0
selection_rank diagnostic_variant = 1
selection_rank external_adapter_required = 2

abbrev pub selection_names : List (Selection × Bytes)
selection_names =
    (core_selected, codes "profile_selected")
    ∷ (diagnostic_variant, codes "diagnostic_variant")
    ∷ (external_adapter_required, codes "external_adapter_required")
    ∷ []

unfoldable pub selection_to_string : Selection → Bytes
selection_to_string value =
    enum_name (λ lhs rhs. selection_rank lhs == selection_rank rhs) value selection_names
      (codes "unknown")

-- `ProfileStatus`, the values of its enumerators, and its `to_string`
pub data ProfileStatus : Type 0 where
  profiled not_profiled not_applicable adapter_required : ProfileStatus

unfoldable pub profile_status_rank : ProfileStatus → ℕ
profile_status_rank profiled = 0
profile_status_rank not_profiled = 1
profile_status_rank not_applicable = 2
profile_status_rank adapter_required = 3

abbrev pub profile_status_names : List (ProfileStatus × Bytes)
profile_status_names =
    (profiled, codes "profiled")
    ∷ (not_profiled, codes "not_profiled")
    ∷ (not_applicable, codes "not_applicable")
    ∷ (adapter_required, codes "external_adapter_required")
    ∷ []

unfoldable pub profile_status_to_string : ProfileStatus → Bytes
profile_status_to_string value =
    enum_name (λ lhs rhs. profile_status_rank lhs == profile_status_rank rhs) value
      profile_status_names (codes "unknown")

-- `AuthKind`
pub data AuthKind : Type 0 where
  no_auth binance_hmac bybit_hmac okx_hmac gate_hmac kucoin_hmac bitget_hmac : AuthKind

-- `WsAckKind`
pub data WsAckKind : Type 0 where
  no_ack keys_only binance_subscription bybit_subscription okx_subscription gate_subscription
        bitget_subscription kucoin_subscription phemex_subscription hyperliquid_subscription
        bingx_subscription :
      WsAckKind

-- `WsDataKind`
pub data WsDataKind : Type 0 where
  any_json topic_json kucoin_binary_json sbe_header protobuf_envelope bingx_trades : WsDataKind

-- `Compression`
pub data Compression : Type 0 where
  no_compression gzip : Compression
