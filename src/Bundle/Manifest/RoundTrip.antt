-- ===== src/Bundle/Manifest/RoundTrip.antt =====
-- The channels of a capture and what the analysis takes from its manifest.
use mathlib.Core.List.{append-nil, append_assoc}
use test_exchanges_helper.Base.{
  ◌≡◌, refl, sym, ◌∙◌, ap, false, ◌||◌, List, [], ◌∷◌, ◌++◌, map, some, codes, bytes_eq, is_empty,
  any,
}
use test_exchanges_helper.Json.{array, Fields, if_contains}
use test_exchanges_helper.ResearchProfile.{
  JsonEventMapping, ResearchChannel, kind_to_string, support_to_string, research_channel_kind,
}
use test_exchanges_helper.ResearchProfile.Laws.{kind_round_trip}
use test_exchanges_helper.Analysis.Event.{ChannelDefinition}
use test_exchanges_helper.Bundle.Reader.{text, string_or_empty}
use test_exchanges_helper.Bundle.Manifest.{
  mapping_fields, channel_fields, channel_items, unit_or_ms, mapping_from_json, mapping_of,
  definition_of, emplace, add_definitions, definitions_of, channel_definitions,
}

-- What the analysis keeps of a channel; a unit that is empty is milliseconds.
abbrev pub kept : ResearchChannel → ChannelDefinition
kept channel = record {
  id = channel.id;
  kind = channel.kind;
  support = support_to_string channel.support;
  wire = channel.wire;
  compression = channel.compression;
  depth_semantics = channel.depth_semantics;
  mapping = record channel.mapping {
    event_time_unit = unit_or_ms channel.mapping.event_time_unit;
    transaction_time_unit = unit_or_ms channel.mapping.transaction_time_unit;
  };
}

mapping_from_json-mapping_fields :
    (mapping : JsonEventMapping)
    → mapping_from_json (mapping_fields mapping) ≡ record mapping {
      event_time_unit = unit_or_ms mapping.event_time_unit;
      transaction_time_unit = unit_or_ms mapping.transaction_time_unit;
    }
unfolding mapping_from_json mapping_fields text string_or_empty if_contains bytes_eq
mapping_from_json-mapping_fields mapping = refl

kept_as :
    (channel : ResearchChannel)
    → definition_of (channel_fields channel) ≡ record (kept channel) {
      kind = research_channel_kind (kind_to_string channel.kind);
      mapping = mapping_from_json (mapping_fields channel.mapping);
    }
unfolding definition_of channel_fields text string_or_empty if_contains bytes_eq mapping_of
kept_as channel = refl

definition_of-channel_fields :
    (channel : ResearchChannel) → definition_of (channel_fields channel) ≡ kept channel
definition_of-channel_fields channel =
    kept_as channel
    ∙ rw (kind_round_trip channel.kind, mapping_from_json-mapping_fields channel.mapping) refl

-- Every channel has an identifier, and not that of one before it.
abbrev pub Fresh : List ChannelDefinition → List ResearchChannel → Type 0
Fresh known [] = Unit
Fresh known (channel ∷ channels) =
    ((is_empty channel.id || any (λ d. bytes_eq d.id channel.id) known) ≡ false)
    × Fresh (known ++ kept channel ∷ []) channels

emplace_fresh :
    (known : List ChannelDefinition) (definition : ChannelDefinition)
    → (is_empty definition.id || any (λ d. bytes_eq d.id definition.id) known) ≡ false
    → emplace known definition ≡ known ++ definition ∷ []
unfolding emplace
emplace_fresh known definition h = rw h refl

first_definition :
    (known : List ChannelDefinition) (channel : ResearchChannel) (channels : List ResearchChannel)
    → add_definitions known (channel_items (channel ∷ channels))
      ≡ add_definitions
          (emplace known (definition_of (channel_fields channel)))
          (channel_items channels)
unfolding add_definitions channel_items
first_definition known channel channels = refl

no_definitions : (known : List ChannelDefinition) → add_definitions known (channel_items []) ≡ known
unfolding add_definitions channel_items
no_definitions known = refl

add_definitions-channel_items :
    (known : List ChannelDefinition) (channels : List ResearchChannel)
    → Fresh known channels
    → add_definitions known (channel_items channels) ≡ known ++ map kept channels
add_definitions-channel_items known [] h = no_definitions known ∙ sym (append-nil known)
add_definitions-channel_items known (channel ∷ channels) h =
    first_definition known channel channels
    ∙ ap (λ ds. add_definitions ds (channel_items channels))
        (ap (emplace known) (definition_of-channel_fields channel)
          ∙ emplace_fresh known (kept channel) h.0)
    ∙ add_definitions-channel_items (known ++ kept channel ∷ []) channels h.1
    ∙ append_assoc known (kept channel ∷ []) (map kept channels)

-- The channels that a capture prints into its manifest, each with an identifier of its own, are
-- read back with their kinds, formats and mappings, all of them and no other; only a time unit that
-- was empty becomes milliseconds. The list stands for an unordered map.
pub channel_definitions_round_trip :
    (manifest : Fields) (channels : List ResearchChannel)
    → if_contains (codes "channels") manifest ≡ some (array (channel_items channels))
    → Fresh [] channels
    → channel_definitions manifest ≡ map kept channels
unfolding channel_definitions definitions_of
channel_definitions_round_trip manifest channels e h =
    rw e (add_definitions-channel_items [] channels h)
