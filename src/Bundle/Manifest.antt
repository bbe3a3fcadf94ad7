-- ===== src/Bundle/Manifest.antt =====
-- The channels of a manifest: as `write_manifest` of src/Research/ResearchCapture.cpp prints them,
-- and as src/Research/Analysis/Input.cpp reads them.
pub mod RoundTrip
use test_exchanges_helper.Base.{
  Bool, ◌||◌, List, [], ◌∷◌, ◌++◌, Option, none, some, ℕ, Bytes, codes, bytes_eq, is_empty, any,
  if◌then◌else◌,
}
use test_exchanges_helper.Json.{
  Value, uint64, string, array, object, Items, nil, cons, Fields, field, end, if_contains,
}
use test_exchanges_helper.ResearchProfile.{
  JsonEventMapping, ResearchChannel, kind_to_string, support_to_string, research_channel_kind,
}
use test_exchanges_helper.Analysis.Event.{ChannelDefinition}
use test_exchanges_helper.Bundle.Reader.{text}

-- The mapping of a channel as `write_manifest` prints it.
unfoldable pub mapping_fields : JsonEventMapping → Fields
mapping_fields mapping = field (codes "data") (string mapping.data_path) (
    field (codes "symbol") (string mapping.symbol_path) (
      field (codes "event_time") (string mapping.event_time_path) (
        field (codes "event_time_unit") (string mapping.event_time_unit) (
          field (codes "transaction_time") (string mapping.transaction_time_path) (
            field (codes "transaction_time_unit") (string mapping.transaction_time_unit) (
              field (codes "event_id") (string mapping.event_id_path) (
                field (codes "first_event_id") (string mapping.first_event_id_path) (
                  field (codes "previous_event_id") (string mapping.previous_event_id_path) (
                    field (codes "bids") (string mapping.bids_path) (
                      field (codes "asks") (string mapping.asks_path) (
                        field (codes "bid_price") (string mapping.bid_price_path) (
                          field (codes "bid_quantity") (string mapping.bid_quantity_path) (
                            field (codes "ask_price") (string mapping.ask_price_path) (
                              field (codes "ask_quantity") (string mapping.ask_quantity_path) (
                                field (codes "trades") (string mapping.trades_path) (
                                  field (codes "price") (string mapping.price_path) (
                                    field (codes "quantity") (string mapping.quantity_path) (
                                      field (codes "side") (string mapping.side_path) (
                                        field (codes "snapshot") (string mapping.snapshot_path) (
                                          field (codes "snapshot_value")
                                            (string mapping.snapshot_value) end))))))))))))))))))))

-- A channel as `write_manifest` prints it.
unfoldable pub channel_fields : ResearchChannel → Fields
channel_fields channel = field (codes "id") (string channel.id) (
    field (codes "kind") (string (kind_to_string channel.kind)) (
      field (codes "support") (string (support_to_string channel.support)) (
        field (codes "transport") (string channel.transport) (
          field (codes "wire") (string channel.wire) (
            field (codes "host") (string channel.host) (
              field (codes "port") (uint64 channel.port) (
                field (codes "path") (string channel.path) (
                  field (codes "subscribe") (string channel.subscribe) (
                    field (codes "compression") (string channel.compression) (
                      field (codes "depth_semantics") (string channel.depth_semantics) (
                        field (codes "depth_levels") (uint64 channel.depth_levels) (
                          field (codes "adapter") (string channel.adapter) (
                            field (codes "mapping") (object (mapping_fields channel.mapping))
                              end)))))))))))))

unfoldable pub channel_items : List ResearchChannel → Items
channel_items [] = nil
channel_items (channel ∷ channels) = cons (object (channel_fields channel)) (channel_items channels)

-- `if (unit.empty()) unit = "ms";`
abbrev pub unit_or_ms : Bytes → Bytes
unit_or_ms unit = if is_empty unit then codes "ms" else unit

-- `mapping_from_json`
unfoldable pub mapping_from_json : Fields → JsonEventMapping
mapping_from_json fs = record {
  data_path = text fs (codes "data");
  symbol_path = text fs (codes "symbol");
  event_time_path = text fs (codes "event_time");
  event_time_unit = unit_or_ms (text fs (codes "event_time_unit"));
  transaction_time_path = text fs (codes "transaction_time");
  transaction_time_unit = unit_or_ms (text fs (codes "transaction_time_unit"));
  event_id_path = text fs (codes "event_id");
  first_event_id_path = text fs (codes "first_event_id");
  previous_event_id_path = text fs (codes "previous_event_id");
  bids_path = text fs (codes "bids");
  asks_path = text fs (codes "asks");
  bid_price_path = text fs (codes "bid_price");
  bid_quantity_path = text fs (codes "bid_quantity");
  ask_price_path = text fs (codes "ask_price");
  ask_quantity_path = text fs (codes "ask_quantity");
  trades_path = text fs (codes "trades");
  price_path = text fs (codes "price");
  quantity_path = text fs (codes "quantity");
  side_path = text fs (codes "side");
  snapshot_path = text fs (codes "snapshot");
  snapshot_value = text fs (codes "snapshot_value");
}

-- `JsonEventMapping{}`
abbrev pub default_mapping : JsonEventMapping
default_mapping = record {
  data_path = [];
  symbol_path = [];
  event_time_path = [];
  event_time_unit = codes "ms";
  transaction_time_path = [];
  transaction_time_unit = codes "ms";
  event_id_path = [];
  first_event_id_path = [];
  previous_event_id_path = [];
  bids_path = [];
  asks_path = [];
  bid_price_path = [];
  bid_quantity_path = [];
  ask_price_path = [];
  ask_quantity_path = [];
  trades_path = [];
  price_path = [];
  quantity_path = [];
  side_path = [];
  snapshot_path = [];
  snapshot_value = [];
}

pub mapping_of : Option Value → JsonEventMapping
mapping_of (some (object fs)) = mapping_from_json fs
mapping_of v = default_mapping

-- The definition of one element of the array.
unfoldable pub definition_of : Fields → ChannelDefinition
unfolding mapping_of
definition_of fs = record {
  id = text fs (codes "id");
  kind = research_channel_kind (text fs (codes "kind"));
  support = text fs (codes "support");
  wire = text fs (codes "wire");
  compression = text fs (codes "compression");
  depth_semantics = text fs (codes "depth_semantics");
  mapping = mapping_of (if_contains (codes "mapping") fs);
}

-- `result.emplace` of a definition with an identifier: the first one stays. The list stands for the
-- `std::unordered_map` of the source, by the identifiers; its order means nothing.
unfoldable pub emplace : List ChannelDefinition → ChannelDefinition → List ChannelDefinition
emplace result definition =
    if is_empty definition.id || any (λ d. bytes_eq d.id definition.id) result
    then result
    else result ++ definition ∷ []

-- The loop over the array.
unfoldable pub add_definitions : List ChannelDefinition → Items → List ChannelDefinition
add_definitions result nil = result
add_definitions result (cons (object fs) items) =
    add_definitions (emplace result (definition_of fs)) items
add_definitions result (cons v items) = add_definitions result items

pub definitions_of : Option Value → List ChannelDefinition
definitions_of (some (array items)) = add_definitions [] items
definitions_of v = []

-- `channel_definitions`
unfoldable pub channel_definitions : Fields → List ChannelDefinition
unfolding definitions_of
channel_definitions manifest = definitions_of (if_contains (codes "channels") manifest)
