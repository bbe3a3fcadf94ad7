-- ===== src/Analysis/Depth.antt =====
-- The depth branch of `analyze_research_bundle` (src/Research/ResearchAnalysis.cpp): one message of a
-- depth channel moves the book of its round and channel, and may emit a row of
-- state_transitions.jsonl.
pub mod Laws
pub mod Transitions
pub mod Rows
use test_exchanges_helper.Base.{
  ℕ, suc, ◌+◌, ◌≡◌, Bool, true, false, not, ◌&&◌, ◌||◌, List, [], ◌∷◌, Option, none, some, Bytes,
  bytes_eq, is_empty, if◌then◌else◌, codes, option_or,
}
use test_exchanges_helper.Json.{Value, null, boolean, uint64, string, object, field, end}
use test_exchanges_helper.ResearchProfile.{JsonEventMapping}
use test_exchanges_helper.Analysis.Order.{decimal_less, native_id_less}
use test_exchanges_helper.Analysis.Scalars.{json_path}
use test_exchanges_helper.Analysis.Event.{NormalizedEvent, event_data}
use test_exchanges_helper.Analysis.Book.{BookState, apply_levels, best_levels}

-- The counters that the branch moves.
pub record Totals : Type 0 where
  pub gaps : ℕ
  pub out_of_order : ℕ
  pub book_capacity_exceeded : ℕ
  pub valid_bbo_transitions : ℕ
  pub full_reconstruction_observed : Bool

pub record Depth : Type 0 where
  pub state : BookState
  pub totals : Totals

-- `BookState{}`
abbrev pub empty_book : BookState
empty_book = record {
  bids = [];
  asks = [];
  valid = false;
  invalid_gap = false;
  complete = false;
  capacity_exceeded = false;
  last_native_id = [];
  last_bid = [];
  last_ask = [];
}

-- `if (event.snapshot) …`
unfoldable pub reset_on_snapshot : Bool → BookState → BookState
reset_on_snapshot snapshot state =
    if snapshot
    then record state {
      bids = [];
      asks = [];
      invalid_gap = false;
      complete = true;
      capacity_exceeded = false;
    }
    else state

-- The predecessor that the event names is not the event seen last.
unfoldable pub is_gap : NormalizedEvent → BookState → Bool
is_gap event state =
    not (is_empty event.previous_native_id)
    && not (is_empty state.last_native_id)
    && not (bytes_eq event.previous_native_id state.last_native_id)

unfoldable pub is_out_of_order : NormalizedEvent → BookState → Bool
is_out_of_order event state =
    not (is_empty event.native_id)
    && not (is_empty state.last_native_id)
    && native_id_less event.native_id state.last_native_id

-- The state up to the two calls of `apply_levels`: the reset and the gap.
unfoldable pub opened : NormalizedEvent → BookState → BookState
opened event state =
    let fresh = reset_on_snapshot event.snapshot state in
    if is_gap event fresh then record fresh { invalid_gap = true } else fresh

-- The two calls, and the identifier kept for the next message.
unfoldable pub levelled :
    (ℕ → Bytes) → JsonEventMapping → NormalizedEvent → Value → BookState → BookState
levelled serialize mapping event content state =
    let bids = apply_levels serialize state (json_path content mapping.bids_path) true in
    let both = apply_levels serialize bids (json_path content mapping.asks_path) false in
    if is_empty event.native_id then both else record both { last_native_id = event.native_id }

-- `valid`
unfoldable pub is_valid_top : BookState → Bool
is_valid_top state =
    not state.invalid_gap
    && not (is_empty (best_levels state).0)
    && not (is_empty (best_levels state).1)
    && not state.capacity_exceeded
    && decimal_less (best_levels state).0 (best_levels state).1

-- The condition of the row of state_transitions.jsonl.
unfoldable pub is_transition : BookState → Bool
is_transition state =
    is_valid_top state
    && (not (bytes_eq (best_levels state).0 state.last_bid)
        || not (bytes_eq (best_levels state).1 state.last_ask))

-- The end of the branch, on the state with the levels applied.
unfoldable pub closed : BookState → BookState
closed state =
    if is_transition state
    then record state {
      valid = is_valid_top state;
      last_bid = (best_levels state).0;
      last_ask = (best_levels state).1;
    }
    else record state { valid = is_valid_top state }

unfoldable pub count_if : Bool → ℕ → ℕ
count_if test n = if test then n + 1 else n

-- The state behind one message, before `closed`.
unfoldable pub moved :
    (ℕ → Bytes) → JsonEventMapping → NormalizedEvent → Value → BookState → BookState
moved serialize mapping event value state =
    levelled serialize mapping event (event_data mapping value) (opened event state)

-- The whole branch: the new book and the new counters.
unfoldable pub depth_step : (ℕ → Bytes) → JsonEventMapping → Depth → NormalizedEvent × Value → Depth
depth_step serialize mapping depth (event, value) =
    let fresh = reset_on_snapshot event.snapshot depth.state in
    let next = moved serialize mapping event value depth.state in
    record {
      state = closed next;
      totals = record {
        gaps = count_if (is_gap event fresh) depth.totals.gaps;
        out_of_order = count_if (is_out_of_order event fresh) depth.totals.out_of_order;
        book_capacity_exceeded =
            count_if next.capacity_exceeded depth.totals.book_capacity_exceeded;
        valid_bbo_transitions = count_if (is_transition next) depth.totals.valid_bbo_transitions;
        full_reconstruction_observed =
            depth.totals.full_reconstruction_observed || (is_valid_top next && next.complete);
      };
    }

-- The row of state_transitions.jsonl, from the event and the state before `closed`.
unfoldable pub transition_row : NormalizedEvent → BookState → Value
transition_row event state = object (
    field (codes "schema") (string (codes "exchange.api_probe.state_transition.v1")) (
      field (codes "event_id") (uint64 event.id) (
        field (codes "round") (uint64 event.round) (
          field (codes "channel_id") (string event.channel) (
            field (codes "kind") (string (codes "depth_derived_bbo")) (
              field (codes "bid_price") (string (best_levels state).0) (
                field (codes "ask_price") (string (best_levels state).1) (
                  field (codes "monotonic_ns") (uint64 event.monotonic_ns) (
                    field (codes "exchange_event_ns")
                      (option_or event.exchange_event_ns null (λ n. uint64 n))
                      (field (codes "valid") (boolean true)
                        (field (codes "complete") (boolean state.complete) end)))))))))))

-- What the branch writes into the event.
unfoldable pub depth_event :
    (ℕ → Bytes) → JsonEventMapping → BookState → NormalizedEvent × Value → NormalizedEvent
depth_event serialize mapping state (event, value) =
    let next = moved serialize mapping event value state in
    let priced = record event {
      bid_price = (best_levels next).0;
      ask_price = (best_levels next).1;
    } in
    if next.capacity_exceeded then record priced { validity = "book_capacity_exceeded" } else priced

-- The messages of one book, in the order of the frames.
unfoldable pub depth_run :
    (ℕ → Bytes) → JsonEventMapping → Depth → List (NormalizedEvent × Value) → Depth
depth_run serialize mapping depth [] = depth
depth_run serialize mapping depth (message ∷ messages) =
    depth_run serialize mapping (depth_step serialize mapping depth message) messages

-- The rows that the messages add to state_transitions.jsonl, in their order.
unfoldable pub depth_rows :
    (ℕ → Bytes) → JsonEventMapping → Depth → List (NormalizedEvent × Value) → List Value
depth_rows serialize mapping depth [] = []
depth_rows serialize mapping depth ((event, value) ∷ messages) =
    let next = moved serialize mapping event value depth.state in
    let later =
      depth_rows serialize mapping (depth_step serialize mapping depth (event, value)) messages in
    if is_transition next then transition_row event next ∷ later else later
