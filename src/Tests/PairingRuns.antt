-- ===== src/Tests/PairingRuns.antt =====
-- The pairing of two channels at concrete inputs.
use test_exchanges_helper.Base.{
  ◌≡◌, ◌+◌, refl, true, false, List, [], ◌∷◌, none, some, Bytes, codes, bytes_eq, bytes_lt, length,
  map,
}
use test_exchanges_helper.Base.Decimal.{to_string}
use test_exchanges_helper.Base.Int.{pos}
use test_exchanges_helper.Json.{Value, string, array, object, nil, cons, field, end, if_contains}
use test_exchanges_helper.Analysis.Event.{FrameIndex, ChannelDefinition}
use test_exchanges_helper.Analysis.Scalars.{
  scalar_text, split_token, descend, walk, path_start, json_path,
}
use test_exchanges_helper.Bundle.Reader.{text, read_payload}
use test_exchanges_helper.Bundle.Receipts.{receipt_delta}
use test_exchanges_helper.Bundle.Pairing.{
  PairedKey, paired_less, lex, PairedIdentity, Pairing, Paired, plain_payload, is_other_channel,
  array_of, held_in, open_frame, event_symbol, traded, count_record, admit_key, store_record,
  pair_identified, pair_traded, pair_trade, pair_trades, pair_held, pair_received, pair_selected,
  pair_frame, pair_frames,
}
use test_exchanges_helper.Bundle.Pairing.Identities.{receipts, identity_of, index_events}
use test_exchanges_helper.Bundle.Pairing.Refinement.{pair_frames_refines}
use test_exchanges_helper.Bundle.Pairing.Deltas.{
  Tally, surplus, add_delta, match_receipts, tally_identity, tally_identities, untallied, matched,
  difference, tally_identities_lem,
}
use test_exchanges_helper.Network.Gzip.{end_of_stream}
use test_exchanges_helper.OrderedMap.{find, assign}
use test_exchanges_helper.ResearchProfile.{JsonEventMapping, trade}

abbrev mapping : JsonEventMapping
mapping = record {
  data_path = codes "tick.data";
  symbol_path = [];
  event_time_path = [];
  event_time_unit = [];
  transaction_time_path = [];
  transaction_time_unit = [];
  event_id_path = codes "id";
  first_event_id_path = [];
  previous_event_id_path = [];
  bids_path = [];
  asks_path = [];
  bid_price_path = [];
  bid_quantity_path = [];
  ask_price_path = [];
  ask_quantity_path = [];
  trades_path = [];
  price_path = [];
  quantity_path = [];
  side_path = [];
  snapshot_path = [];
  snapshot_value = [];
}

abbrev channel : Bytes → ChannelDefinition
channel id = record {
  id = id;
  kind = trade;
  support = [];
  wire = codes "json";
  compression = codes "none";
  depth_semantics = [];
  mapping = mapping;
}

abbrev paired_frame : Bytes → Bytes → FrameIndex
paired_frame name received = record {
  id = 0;
  round = 1;
  channel = name;
  binary = false;
  monotonic_ns = 0;
  utc_ns = 0;
  offset = 0;
  length = 1;
  received_monotonic_ns = some (length received);
  session_generation = none;
}

-- A document of one trade, whatever the text.
abbrev one_trade : Value
one_trade = object (
    field (codes "ch") (string (codes "market.btc.trade.detail")) (
      field (codes "tick")
        (object (
          field (codes "data")
            (array (cons (object (field (codes "id") (string (codes "7")) end)) nil)) end))
        end))

abbrev pairing : Pairing
pairing = record {
  symbol = codes "btc";
  standard_channel = codes "s";
  aws_channel = codes "a";
  left = channel (codes "s");
  right = channel (codes "a");
  frames = codes "x";
  parse = λ text. some one_trade;
  zlib = record {
    inflate = λ input size. record { code = end_of_stream; avail_in = 0; written = [] };
    end_message = "end of deflate stream";
    crc_32 = λ bytes. 0;
  };
  serialize = to_string;
}

abbrev key : PairedKey
key = (1, (codes "btc", codes "7"))

abbrev identity : PairedIdentity
identity = record { standard = some 1; aws = some 3; standard_count = 1; aws_count = 1 }

abbrev index : List FrameIndex
index = paired_frame (codes "s") (codes "x") ∷ paired_frame (codes "a") (codes "xyz") ∷ []

abbrev last : Paired
last = record {
  identities = (key, identity) ∷ [];
  key_bytes = 4;
  selected_frames = 2;
  candidate_records = 2;
  invalid_payload_records = 0;
  missing_native_id_records = 0;
  invalid_id_standard = 0;
  invalid_id_aws = 0;
}

pair_frames_refines_example :
    find paired_less key last.identities
    ≡ identity_of
        (receipts true key (index_events pairing index))
        (receipts false key (index_events pairing index))
unfolding pair_frames pair_frame pair_selected pair_received open_frame read_payload plain_payload
    held_in is_other_channel text if_contains bytes_eq array_of pair_held pair_trades pair_trade
    traded event_symbol scalar_text json_path path_start walk split_token descend pair_traded
    pair_identified admit_key store_record count_record find assign paired_less lex bytes_lt
pair_frames_refines_example = pair_frames_refines pairing index last key refl

abbrev tally : Tally
tally = record {
  deltas = pos 2 ∷ [];
  unmatched_standard = 4;
  unmatched_aws = 5;
  duplicate_records_standard = 0;
  duplicate_records_aws = 0;
  ambiguous_identities = 0;
}

tally_identities_example :
    (map (λ d. some d) tally.deltas ≡ map difference (matched last.identities))
    × (length tally.deltas
          + tally.unmatched_standard
          + tally.unmatched_aws
          + tally.ambiguous_identities
        ≡ length last.identities + 4 + 5)
unfolding tally_identities tally_identity match_receipts add_delta receipt_delta surplus untallied
tally_identities_example = tally_identities_lem last.identities 4 5 tally refl
