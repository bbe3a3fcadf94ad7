-- ===== src/Analysis/Depth/Laws.antt =====
-- What a transition row of a depth channel shows, and when none is written.
use test_exchanges_helper.Base.{
  ℕ, Bool, true, false, List, [], ◌∷◌, Bytes, is_empty, if◌then◌else◌, arith,
}
use test_exchanges_helper.Json.{Value}
use test_exchanges_helper.ResearchProfile.{JsonEventMapping}
use test_exchanges_helper.Analysis.Event.{NormalizedEvent, event_data}
use test_exchanges_helper.Analysis.Book.{BookState, best_levels}
use test_exchanges_helper.Analysis.Book.Invariant.{IsSide, IsBook, apply_levels-IsBook}
use test_exchanges_helper.Analysis.Depth.{
  Depth, reset_on_snapshot, is_gap, opened, levelled, is_valid_top, is_transition, closed, moved,
  depth_step, depth_run,
}

empty-IsSide : IsSide []
empty-IsSide = record { sorted = tt; bounded = omega arith; entries = tt }

reset-IsBook :
    (snapshot : Bool) (state : BookState) → IsBook state → IsBook (reset_on_snapshot snapshot state)
unfolding reset_on_snapshot
reset-IsBook true state v = record { bid_side = empty-IsSide; ask_side = empty-IsSide }
reset-IsBook false state v = v

opened-IsBook :
    (event : NormalizedEvent) (state : BookState) → IsBook state → IsBook (opened event state)
unfolding opened
opened-IsBook event state v = go (is_gap event fresh) (reset-IsBook event.snapshot state v)
  where
    fresh : BookState
    fresh = reset_on_snapshot event.snapshot state

    go :
        (gap : Bool)
        → IsBook fresh
        → IsBook (if gap then record fresh { invalid_gap = true } else fresh)
    go true w = record { bid_side = w.bid_side; ask_side = w.ask_side }
    go false w = w

module _ (serialize : ℕ → Bytes) (mapping : JsonEventMapping) where
  levelled-IsBook :
      (event : NormalizedEvent) (content : Value) (state : BookState)
      → IsBook state
      → IsBook (levelled serialize mapping event content state)
  unfolding levelled
  levelled-IsBook event content state v =
      go (is_empty event.native_id) _
        (apply_levels-IsBook serialize _ _ false (apply_levels-IsBook serialize state _ true v))
    where
      go :
          (b : Bool) (both : BookState)
          → IsBook both
          → IsBook (if b then both else record both { last_native_id = event.native_id })
      go true both w = w
      go false both w = record { bid_side = w.bid_side; ask_side = w.ask_side }

  closed-IsBook : (state : BookState) → IsBook state → IsBook (closed state)
  unfolding closed
  closed-IsBook state v = go (is_transition state)
    where
      go :
          (b : Bool)
          → IsBook (
              if b
              then record state {
                valid = is_valid_top state;
                last_bid = (best_levels state).0;
                last_ask = (best_levels state).1;
              }
              else record state { valid = is_valid_top state })
      go true = record { bid_side = v.bid_side; ask_side = v.ask_side }
      go false = record { bid_side = v.bid_side; ask_side = v.ask_side }

  step-IsBook :
      (depth : Depth) (message : NormalizedEvent × Value)
      → IsBook depth.state
      → IsBook (depth_step serialize mapping depth message).state
  unfolding depth_step moved
  step-IsBook depth (event, value) v = closed-IsBook _ (
      levelled-IsBook event (event_data mapping value) (opened event depth.state)
        (opened-IsBook event depth.state v))

  -- Any sequence of messages leaves both sides of a well-formed book sorted by `DecimalLess` with no
  -- two prices equivalent under it, within 100,000 levels, with every price and quantity not empty
  -- and of 256 bytes at most, and with no quantity a text of '0' and '.' alone.
  pub depth_run-IsBook :
      (depth : Depth) (messages : List (NormalizedEvent × Value))
      → IsBook depth.state
      → IsBook (depth_run serialize mapping depth messages).state
  unfolding depth_run
  depth_run-IsBook depth [] v = v
  depth_run-IsBook depth (m ∷ messages) v =
      depth_run-IsBook (depth_step serialize mapping depth m) messages (step-IsBook depth m v)
