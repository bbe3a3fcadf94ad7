-- ===== src/Tests/ManifestRuns.antt =====
-- The channels of a manifest at concrete inputs.
use test_exchanges_helper.Base.{◌≡◌, refl, false, [], ◌∷◌, map, some, codes, bytes_eq}
use test_exchanges_helper.Json.{uint64, array, Fields, field, end, if_contains}
use test_exchanges_helper.ResearchProfile.{ResearchChannel, trade, exact}
use test_exchanges_helper.Bundle.Manifest.{default_mapping, channel_items, channel_definitions}
use test_exchanges_helper.Bundle.Manifest.RoundTrip.{kept, Fresh, channel_definitions_round_trip}

abbrev channel : ResearchChannel
channel = record {
  id = codes "trade";
  name = codes "trades";
  kind = trade;
  support = exact;
  transport = codes "ws";
  wire = codes "json";
  host = codes "api.huobi.pro";
  port = 443;
  path = codes "/ws";
  subscribe = [];
  subscribe_binary = false;
  compression = codes "gzip";
  depth_semantics = codes "none";
  depth_levels = 0;
  adapter = [];
  capabilities = [];
  mapping = record default_mapping { price_path = codes "price"; event_time_unit = [] };
}

abbrev second : ResearchChannel
second = record channel { id = codes "trade_aws" }

abbrev manifest : Fields
manifest =
    field (codes "schema_version") (uint64 3)
      (field (codes "channels") (array (channel_items (channel ∷ second ∷ []))) end)

has_channels :
    if_contains (codes "channels") manifest ≡ some (array (channel_items (channel ∷ second ∷ [])))
unfolding if_contains bytes_eq
has_channels = refl

channels-Fresh : Fresh [] (channel ∷ second ∷ [])
unfolding bytes_eq
channels-Fresh = (refl, (refl, tt))

channel_definitions_round_trip_example :
    channel_definitions manifest ≡ map kept (channel ∷ second ∷ [])
channel_definitions_round_trip_example =
    channel_definitions_round_trip manifest (channel ∷ second ∷ []) has_channels channels-Fresh
