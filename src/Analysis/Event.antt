-- ===== src/Analysis/Event.antt =====
-- Events of a bundle: the types of ResearchAnalysisInternal.hpp, and how Normalization.cpp fills them.
pub mod Capacity
use test_exchanges_helper.Base.{
  ℕ, ◌+◌, ◌-◌, ◌≡◌, Bool, true, false, not, ◌&&◌, ◌||◌, List, [], ◌∷◌, ◌++◌, Option, none, some,
  Bytes, String, bytes_eq, codes, ltb, is_empty, length, option_or, if◌then◌else◌,
}
use test_exchanges_helper.Base.Decimal.{to_string}
use test_exchanges_helper.Json.{Value}
use test_exchanges_helper.ResearchProfile.{
  ResearchChannelKind, trade, book_ticker, depth, funding, control, unknown, JsonEventMapping,
  kind_to_string,
}
use test_exchanges_helper.Analysis.Scalars.{scalar_text, timestamp_ns, fnv1a, json_path}

pub record FrameIndex : Type 0 where
  pub id : ℕ
  pub round : ℕ
  pub channel : Bytes
  pub binary : Bool
  pub monotonic_ns : ℕ
  pub utc_ns : ℕ
  pub offset : ℕ
  pub length : ℕ
  pub received_monotonic_ns : Option ℕ
  pub session_generation : Option ℕ

pub record ChannelDefinition : Type 0 where
  pub id : Bytes
  pub kind : ResearchChannelKind
  pub support : Bytes
  pub wire : Bytes
  pub compression : Bytes
  pub depth_semantics : Bytes
  pub mapping : JsonEventMapping

pub record NormalizedEvent : Type 0 where
  pub id : ℕ
  pub frame_id : ℕ
  pub round : ℕ
  pub channel : Bytes
  pub kind : ResearchChannelKind
  pub monotonic_ns : ℕ
  pub utc_ns : ℕ
  pub exchange_event_ns : Option ℕ
  pub exchange_transaction_ns : Option ℕ
  pub native_id : Bytes
  pub first_native_id : Bytes
  pub previous_native_id : Bytes
  pub symbol : Bytes
  pub price : Bytes
  pub quantity : Bytes
  pub side : Bytes
  pub bid_price : Bytes
  pub bid_quantity : Bytes
  pub ask_price : Bytes
  pub ask_quantity : Bytes
  pub snapshot : Bool
  pub semantic_hash : ℕ
  pub validity : String

abbrev pub maximum_normalized_field_bytes : ℕ
maximum_normalized_field_bytes = 65536

-- The eleven texts that count against the capacity, in the order of the loop.
abbrev pub fields : NormalizedEvent → List Bytes
fields event =
    event.native_id ∷ event.first_native_id ∷ event.previous_native_id ∷ event.symbol ∷ event.price
    ∷ event.quantity ∷ event.side ∷ event.bid_price ∷ event.bid_quantity ∷ event.ask_price
    ∷ event.ask_quantity ∷ []

-- The loop: `true` where a field does not fit into what the ones before it left.
unfoldable pub over_capacity : ℕ → List Bytes → Bool
over_capacity total [] = false
over_capacity total (field ∷ rest) =
    let more = over_capacity (total + length field) rest in
    if ltb (maximum_normalized_field_bytes - total) (length field) then true else more

abbrev pub clear_fields : NormalizedEvent → NormalizedEvent
clear_fields event = record event {
  validity = "normalized_field_capacity_exceeded";
  native_id = [];
  first_native_id = [];
  previous_native_id = [];
  symbol = [];
  price = [];
  quantity = [];
  side = [];
  bid_price = [];
  bid_quantity = [];
  ask_price = [];
  ask_quantity = [];
}

-- `enforce_normalized_capacity`
unfoldable pub enforce_normalized_capacity : NormalizedEvent → NormalizedEvent
enforce_normalized_capacity event =
    if over_capacity 0 (fields event) then clear_fields event else event

-- `append`: a text and the separator 0x1f
abbrev terminated : Bytes → Bytes
terminated value = value ++ 0x1f ∷ []

-- `canonical`, every part appended in the order of the source
unfoldable pub canonical : List Bytes → Bytes
canonical [] = []
canonical (value ∷ values) = terminated value ++ canonical values

abbrev pub hashed_fields : NormalizedEvent → List Bytes
hashed_fields event =
    kind_to_string event.kind
    ∷ event.native_id
    ∷ event.first_native_id
    ∷ event.previous_native_id
    ∷ event.symbol
    ∷ event.price
    ∷ event.quantity
    ∷ event.side
    ∷ event.bid_price
    ∷ event.bid_quantity
    ∷ event.ask_price
    ∷ event.ask_quantity
    ∷ (if event.snapshot then codes "snapshot" else codes "delta")
    ∷ option_or event.exchange_event_ns [] to_string
    ∷ option_or event.exchange_transaction_ns [] to_string
    ∷ []

unfoldable pub semantic_event_hash : NormalizedEvent → ℕ
semantic_event_hash event = fnv1a (canonical (hashed_fields event))

-- `data == nullptr ? &value : data`
unfoldable pub event_data : JsonEventMapping → Value → Value
event_data mapping value =
    if is_empty mapping.data_path
    then value
    else option_or (json_path value mapping.data_path) value (λ v. v)

-- The validity that `normalize_event` gives an event.
unfoldable pub normalized_validity : FrameIndex → ChannelDefinition → String
normalized_validity frame channel =
    if is_unknown channel.kind
    then "unknown_channel_kind"
    else if not (bytes_eq channel.support (codes "exact"))
        && is_empty mapping.event_time_path
        && is_empty mapping.transaction_time_path
        && is_empty mapping.event_id_path
        && is_empty mapping.price_path
        && is_empty mapping.bid_price_path
        && is_empty mapping.bids_path
    then "observed_only_mapping_unavailable"
    else if frame.binary
        && not (bytes_eq channel.wire (codes "binary_json"))
        && not (bytes_eq channel.compression (codes "gzip"))
    then "binary_adapter_required"
    else "valid"
  where
    open channel use {mapping}

    is_unknown : ResearchChannelKind → Bool
    is_unknown unknown = true
    is_unknown _ = false

-- `normalize_event`; `serialize` is boost's text of a double.
unfoldable pub normalize_event :
    (ℕ → Bytes) → FrameIndex → ChannelDefinition → Value → ℕ → ℕ → NormalizedEvent
normalize_event serialize frame channel value event_id semantic_hash = record {
  id = event_id;
  frame_id = frame.id;
  round = frame.round;
  channel = frame.channel;
  kind = channel.kind;
  monotonic_ns = frame.monotonic_ns;
  utc_ns = frame.utc_ns;
  exchange_event_ns =
      timestamp_ns (json_path content mapping.event_time_path) mapping.event_time_unit;
  exchange_transaction_ns =
      timestamp_ns (json_path content mapping.transaction_time_path) mapping.transaction_time_unit;
  native_id = text_at mapping.event_id_path;
  first_native_id = text_at mapping.first_event_id_path;
  previous_native_id = text_at mapping.previous_event_id_path;
  symbol = text_at mapping.symbol_path;
  price = text_at mapping.price_path;
  quantity = text_at mapping.quantity_path;
  side = text_at mapping.side_path;
  bid_price = text_at mapping.bid_price_path;
  bid_quantity = text_at mapping.bid_quantity_path;
  ask_price = text_at mapping.ask_price_path;
  ask_quantity = text_at mapping.ask_quantity_path;
  snapshot =
      bytes_eq channel.depth_semantics (codes "complete_snapshot")
      || (not (is_empty mapping.snapshot_value)
          && bytes_eq (text_at mapping.snapshot_path) mapping.snapshot_value);
  semantic_hash = semantic_hash;
  validity = normalized_validity frame channel;
}
  where
    open channel use {mapping}

    content : Value
    content = event_data mapping value

    text_at : Bytes → Bytes
    text_at path = scalar_text serialize (json_path content path)
