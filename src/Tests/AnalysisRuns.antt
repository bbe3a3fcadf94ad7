-- ===== src/Tests/AnalysisRuns.antt =====
-- Books, identifiers, timestamps and paths at concrete inputs.
use test_exchanges_helper.Base.{
  map, All, ◌+◌, length, bytes_lt, ◌≤◌, ℕ, ◌≡◌, refl, Bool, true, false, List, [], ◌∷◌, ◌++◌, none,
  some, Bytes, codes, ltb, if◌then◌else◌, arith, length, bytes_eq,
}
use test_exchanges_helper.Json.{
  Value, string, uint64, array, object, Items, nil, cons, field, end, if_contains, size, at,
}
use test_exchanges_helper.ResearchProfile.{
  JsonEventMapping, depth, exact, kind_to_string, support_to_string, research_channel_kind,
  research_support,
}
use test_exchanges_helper.ResearchProfile.Laws.{names_round_trip}
use test_exchanges_helper.OrderedMap.{find, same_key, contains, assign, erase, last_key}
use test_exchanges_helper.Analysis.Order.{
  decimal_less, native_id_less, all_digits, after_point, before_point, char_lt, drop_zeros,
  fraction_less, fraction_part, integer_part, normalized_less, strip_zeros, trim_zeros,
}
use test_exchanges_helper.Analysis.Order.NativeId.{decimal_value, native_id_less-value}
use test_exchanges_helper.Analysis.Scalars.{
  scalar_text, scalar_u64, timestamp_ns, json_path, walk, path_start, split_token, descend,
}
use test_exchanges_helper.Analysis.Scalars.Time.{
  nanoseconds, in_64_bits, timestamp_ns_exact, scalar_u64-scalar_text,
}
use test_exchanges_helper.Analysis.Scalars.Path.{follow, join, json_path-follow}
use test_exchanges_helper.Analysis.Event.{
  NormalizedEvent, event_data, fields, clear_fields, enforce_normalized_capacity,
  maximum_normalized_field_bytes,
}
use test_exchanges_helper.Analysis.Event.Capacity.{total_length, enforce_normalized_capacity_lem}
use test_exchanges_helper.Analysis.Book.{
  is_zero_decimal, apply_texts, best_levels, best_bid, best_ask, apply_levels, apply_value,
  apply_all, apply_level, level_texts,
}
use test_exchanges_helper.Analysis.Book.Invariant.{
  IsSide, IsBook, exceeds_capacity, find-apply_texts,
}
use test_exchanges_helper.Analysis.Book.Best.{NoneAbove, NoneBelow, best_levels_extreme}
use test_exchanges_helper.Analysis.Depth.{
  Depth, empty_book, is_gap, depth_step, depth_run, depth_rows, transition_row, closed,
  is_transition, is_valid_top, moved, levelled, opened, reset_on_snapshot, count_if,
  is_out_of_order,
}
use test_exchanges_helper.Analysis.Depth.Laws.{depth_run-IsBook}
use test_exchanges_helper.Analysis.Depth.Transitions.{
  Silent, gap-Silent, reconstruction_needs_snapshot,
}
use test_exchanges_helper.Analysis.Depth.Rows.{
  row_top, without_repeats, valid_tops, last_top, IsUncrossed, depth_rows_lem,
}
use test_exchanges_helper.Bundle.Reader.{text}

abbrev serialize : ℕ → Bytes
serialize d = []

abbrev mapping : JsonEventMapping
mapping = record {
  data_path = [];
  symbol_path = [];
  event_time_path = [];
  event_time_unit = [];
  transaction_time_path = [];
  transaction_time_unit = [];
  event_id_path = codes "$.u";
  first_event_id_path = [];
  previous_event_id_path = codes "$.pu";
  bids_path = codes "$.b";
  asks_path = codes "$.a";
  bid_price_path = [];
  bid_quantity_path = [];
  ask_price_path = [];
  ask_quantity_path = [];
  trades_path = [];
  price_path = [];
  quantity_path = [];
  side_path = [];
  snapshot_path = [];
  snapshot_value = [];
}

abbrev event : Bool → Bytes → Bytes → NormalizedEvent
event snapshot native_id previous = record {
  id = 1;
  frame_id = 1;
  round = 1;
  channel = codes "depth";
  kind = depth;
  monotonic_ns = 0;
  utc_ns = 0;
  exchange_event_ns = none;
  exchange_transaction_ns = none;
  native_id = native_id;
  first_native_id = [];
  previous_native_id = previous;
  symbol = [];
  price = [];
  quantity = [];
  side = [];
  bid_price = [];
  bid_quantity = [];
  ask_price = [];
  ask_quantity = [];
  snapshot = snapshot;
  semantic_hash = 0;
  validity = "valid";
}

abbrev level : Bytes → Bytes → Items → Items
level price quantity rest = cons (array (cons (string price) (cons (string quantity) nil))) rest

abbrev message : Items → Items → Value
message bids asks = object (field (codes "b") (array bids) (field (codes "a") (array asks) end))

abbrev snapshot_message : Value
snapshot_message =
    message (level (codes "99.5") (codes "1") (level (codes "98") (codes "2") nil))
      (level (codes "100.25") (codes "3") nil)

abbrev start : Depth
start = record {
  state = empty_book;
  totals = record {
    gaps = 0;
    out_of_order = 0;
    book_capacity_exceeded = 0;
    valid_bbo_transitions = 0;
    full_reconstruction_observed = false;
  };
}

abbrev opening : NormalizedEvent × Value
opening = (event true (codes "7") [], snapshot_message)

abbrev delta : NormalizedEvent × Value
delta = (event false (codes "8") (codes "7"), message (level (codes "99.50") (codes "0.0") nil) nil)

abbrev broken : NormalizedEvent × Value
broken = (event false (codes "11") (codes "10"), message (level (codes "99.9") (codes "1") nil) nil)

empty-IsBook : IsBook empty_book
empty-IsBook = record {
  bid_side = record { sorted = tt; bounded = omega arith; entries = tt };
  ask_side = record { sorted = tt; bounded = omega arith; entries = tt };
}

depth_run-IsBook_example : IsBook (depth_run serialize mapping start (opening ∷ delta ∷ [])).state
depth_run-IsBook_example =
    depth_run-IsBook serialize mapping start (opening ∷ delta ∷ []) empty-IsBook

run_best :
    best_levels (depth_run serialize mapping start (opening ∷ delta ∷ [])).state
    ≡ (codes "98", codes "100.25")
unfolding best_levels best_bid best_ask depth_run depth_step closed is_transition is_valid_top moved
    levelled apply_levels opened is_gap reset_on_snapshot apply_value json_path bytes_eq walk
    apply_all apply_level apply_texts is_zero_decimal level_texts count_if is_out_of_order
    event_data after_point all_digits before_point char_lt decimal_less drop_zeros fraction_less
    fraction_part integer_part native_id_less normalized_less path_start split_token descend
    if_contains scalar_text strip_zeros trim_zeros bytes_lt contains find assign erase last_key size
    at
run_best = refl

depth_rows_lem_example :
    (map row_top (depth_rows serialize mapping start (opening ∷ delta ∷ []))
      ≡ without_repeats
          (last_top start.state)
          (valid_tops serialize mapping start (opening ∷ delta ∷ [])))
    × All
        (λ row. IsUncrossed (row_top row))
        (depth_rows serialize mapping start (opening ∷ delta ∷ []))
    × ((depth_run serialize mapping start (opening ∷ delta ∷ [])).totals.valid_bbo_transitions
        ≡ length (depth_rows serialize mapping start (opening ∷ delta ∷ [])) + 0)
depth_rows_lem_example = depth_rows_lem serialize mapping start (opening ∷ delta ∷ [])

-- The second message takes the best bid away.
run_rows :
    map row_top (depth_rows serialize mapping start (opening ∷ delta ∷ delta ∷ []))
    ≡ (codes "99.5", codes "100.25") ∷ (codes "98", codes "100.25") ∷ []
unfolding depth_rows transition_row row_top text best_levels best_bid best_ask depth_step closed
    is_transition is_valid_top moved levelled apply_levels opened is_gap reset_on_snapshot
    apply_value json_path bytes_eq walk apply_all apply_level apply_texts is_zero_decimal
    level_texts count_if is_out_of_order event_data after_point all_digits before_point char_lt
    decimal_less drop_zeros fraction_less fraction_part integer_part native_id_less normalized_less
    path_start split_token descend if_contains scalar_text strip_zeros trim_zeros bytes_lt contains
    find assign erase last_key size at
run_rows = refl

abbrev seen : Depth
seen = record {
  state = record empty_book { last_native_id = codes "7"; complete = true };
  totals = start.totals;
}

broken_gap : is_gap broken.0 seen.state ≡ true
unfolding is_gap bytes_eq
broken_gap = refl

gap-Silent_example : Silent seen (depth_run serialize mapping seen (broken ∷ delta ∷ []))
gap-Silent_example =
    gap-Silent serialize mapping seen broken.0 broken.1 (delta ∷ []) broken_gap refl (refl, tt)

reconstruction_needs_snapshot_example :
    ((depth_run serialize mapping start (delta ∷ broken ∷ [])).totals.full_reconstruction_observed
      ≡ false)
    × ((depth_run serialize mapping start (delta ∷ broken ∷ [])).state.complete ≡ false)
reconstruction_needs_snapshot_example =
    reconstruction_needs_snapshot serialize mapping start (delta ∷ broken ∷ []) refl
      (refl, (refl, tt))

native_id_less-value_example :
    native_id_less (codes "0099") (codes "100")
    ≡ ltb (decimal_value (codes "0099")) (decimal_value (codes "100"))
unfolding all_digits
native_id_less-value_example = native_id_less-value (codes "0099") (codes "100") refl refl

json_path-follow_example :
    (json_path snapshot_message (codes "$." ++ join (codes "b") (codes "0" ∷ codes "1" ∷ []))
      ≡ follow snapshot_message (codes "b" ∷ codes "0" ∷ codes "1" ∷ []))
    × (json_path snapshot_message (join (codes "b") (codes "0" ∷ codes "1" ∷ []))
        ≡ follow snapshot_message (codes "b" ∷ codes "0" ∷ codes "1" ∷ []))
    × (json_path snapshot_message (codes "$") ≡ some snapshot_message)
    × (json_path snapshot_message [] ≡ some snapshot_message)
unfolding bytes_eq
json_path-follow_example =
    json_path-follow snapshot_message (codes "b") (codes "0" ∷ codes "1" ∷ []) refl refl

timestamp_ns_exact_example :
    (timestamp_ns (some (uint64 1700000000123)) (codes "ns") ≡ some 1700000000123)
    × (timestamp_ns (some (uint64 1700000000123)) (codes "us") ≡ some 1700000000123000)
    × (timestamp_ns (some (uint64 1700000000123)) (codes "ms") ≡ some 1700000000123000000)
    × (timestamp_ns (some (uint64 1700000000123)) (codes "s") ≡ none)
unfolding nanoseconds in_64_bits scalar_u64
timestamp_ns_exact_example = timestamp_ns_exact (some (uint64 1700000000123))

run_number : scalar_u64 (some (string (scalar_text serialize (some (uint64 1024))))) ≡ some 1024
run_number = scalar_u64-scalar_text serialize 1024 (omega arith)

enforce_normalized_capacity_example :
    (enforce_normalized_capacity delta.0 ≡ (
      if ltb maximum_normalized_field_bytes (total_length (fields delta.0))
      then clear_fields delta.0
      else delta.0))
    × (total_length (fields (enforce_normalized_capacity delta.0)) ≤ maximum_normalized_field_bytes)
enforce_normalized_capacity_example = enforce_normalized_capacity_lem delta.0

abbrev side : List (Bytes × Bytes)
side = (codes "99.5", codes "1") ∷ []

side-IsSide : IsSide side
unfolding is_zero_decimal
side-IsSide = record {
  sorted = (tt, tt);
  bounded = omega arith;
  entries = (
    record {
      price_ne = refl;
      price_le = omega arith;
      quantity_ne = refl;
      quantity_le = omega arith;
      nonzero = refl;
    },
    tt,
  );
}

find-apply_texts_example :
    (find decimal_less (codes "99.50") (apply_texts side false (codes "99.5") (codes "4")).0 ≡ (
      if exceeds_capacity side (codes "99.5") (codes "4")
      then find decimal_less (codes "99.50") side
      else if same_key decimal_less (codes "99.50") (codes "99.5")
      then (if is_zero_decimal (codes "4") then none else some (codes "4"))
      else find decimal_less (codes "99.50") side))
    × ((apply_texts side false (codes "99.5") (codes "4")).1
        ≡ exceeds_capacity side (codes "99.5") (codes "4"))
find-apply_texts_example =
    find-apply_texts side false (codes "99.5") (codes "4") (codes "99.50") side-IsSide

best_levels_extreme_example :
    NoneAbove (best_levels (record empty_book { bids = side })).0 side × NoneBelow [] []
unfolding best_levels best_ask
best_levels_extreme_example =
    best_levels_extreme (record empty_book { bids = side })
      (record { bid_side = side-IsSide; ask_side = empty-IsBook.ask_side })

run_names :
    (research_channel_kind (kind_to_string depth) ≡ depth)
    × (research_support (support_to_string exact) ≡ exact)
run_names = names_round_trip depth exact
