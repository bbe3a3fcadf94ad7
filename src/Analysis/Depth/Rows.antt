-- ===== src/Analysis/Depth/Rows.antt =====
-- The rows of state_transitions.jsonl against the books behind the messages.
use mathlib.Core.Path.{subst, ap₂}
use test_exchanges_helper.Base.{
  ℕ, ◌+◌, ◌≡◌, refl, sym, ◌∙◌, ap, Bool, true, false, not, ◌&&◌, ◌||◌, List, [], ◌∷◌, Bytes,
  bytes_eq, codes, is_empty, length, map, All, if◌then◌else◌, arith, Bool-cases, Option, inl, inr,
}
use test_exchanges_helper.Json.{Value, object, if_contains}
use test_exchanges_helper.ResearchProfile.{JsonEventMapping}
use test_exchanges_helper.Analysis.Order.{decimal_less}
use test_exchanges_helper.Analysis.Event.{NormalizedEvent}
use test_exchanges_helper.Analysis.Book.{BookState, best_levels, apply_levels}
use test_exchanges_helper.Analysis.Depth.{
  Depth, is_valid_top, is_transition, closed, count_if, moved, opened, levelled, is_gap,
  reset_on_snapshot, depth_step, depth_run, transition_row, depth_rows,
}
use test_exchanges_helper.Analysis.Depth.Transitions.{closed_flags}
use test_exchanges_helper.Bundle.Reader.{text}

-- A best bid and a best ask.
abbrev pub Top : Type 0
Top = Bytes × Bytes

abbrev pub same_top : Top → Top → Bool
same_top t u = bytes_eq t.0 u.0 && bytes_eq t.1 u.1

-- The prices that a row prints.
unfoldable pub row_top : Value → Top
row_top (object fs) = (text fs (codes "bid_price"), text fs (codes "ask_price"))
row_top v = ([], [])

-- Of some tops, those that differ from the one kept last.
unfoldable pub without_repeats : Top → List Top → List Top
without_repeats last [] = []
without_repeats last (top ∷ tops) =
    let kept = top ∷ without_repeats top tops in
    let passed = without_repeats last tops in if same_top top last then passed else kept

-- The best bid and ask of the books behind the messages, where the book is valid.
unfoldable pub valid_tops :
    (ℕ → Bytes) → JsonEventMapping → Depth → List (NormalizedEvent × Value) → List Top
valid_tops serialize mapping depth [] = []
valid_tops serialize mapping depth (message ∷ messages) =
    let next = depth_step serialize mapping depth message in
    let later = valid_tops serialize mapping next messages in
    if next.state.valid then best_levels next.state ∷ later else later

-- A bid and an ask that are there, the bid below the ask.
pub record IsUncrossed (top : Top) : Type 0 where
  pub bid : is_empty top.0 ≡ false
  pub ask : is_empty top.1 ≡ false
  pub below : decimal_less top.0 top.1 ≡ true

abbrev pub last_top : BookState → Top
last_top state = (state.last_bid, state.last_ask)

row_top-transition_row :
    (event : NormalizedEvent) (state : BookState)
    → row_top (transition_row event state) ≡ best_levels state
unfolding row_top transition_row text if_contains bytes_eq
row_top-transition_row event state = refl

best_levels-closed : (state : BookState) → best_levels (closed state) ≡ best_levels state
unfolding closed best_levels
best_levels-closed state = go (is_transition state)
  where
    go :
        (b : Bool)
        → best_levels (
            if b
            then record state {
              valid = is_valid_top state;
              last_bid = (best_levels state).0;
              last_ask = (best_levels state).1;
            }
            else record state { valid = is_valid_top state })
          ≡ best_levels state
    go true = refl
    go false = refl

last_top-closed :
    (state : BookState)
    → last_top (closed state) ≡ (if is_transition state then best_levels state else last_top state)
unfolding closed
last_top-closed state = go (is_transition state)
  where
    go :
        (b : Bool)
        → last_top (
            if b
            then record state {
              valid = is_valid_top state;
              last_bid = (best_levels state).0;
              last_ask = (best_levels state).1;
            }
            else record state { valid = is_valid_top state })
          ≡ (if b then best_levels state else last_top state)
    go true = refl
    go false = refl

transition-IsUncrossed :
    (state : BookState) → is_transition state ≡ true → IsUncrossed (best_levels state)
unfolding is_transition is_valid_top best_levels
transition-IsUncrossed state h = record {
  bid = ground arith;
  ask = ground arith;
  below = ground arith;
}

count_rows :
    (b : Bool) (n : ℕ) (later : List Value) (row : Value) (last : ℕ)
    → last ≡ length later + count_if b n
    → last ≡ length (if b then row ∷ later else later) + n
unfolding count_if
count_rows true n later row last h = omega (arith, h)
count_rows false n later row last h = h

kept_row :
    (valid same_bid same_ask : Bool) (row : Value) (rows : List Value) (old best : Top)
    (tops : List Top)
    → row_top row ≡ best
    → bytes_eq best.0 old.0 ≡ same_bid
    → bytes_eq best.1 old.1 ≡ same_ask
    → map row_top rows
      ≡ without_repeats (if valid && (not same_bid || not same_ask) then best else old) tops
    → map row_top (if valid && (not same_bid || not same_ask) then row ∷ rows else rows)
      ≡ without_repeats old (if valid then best ∷ tops else tops)
unfolding without_repeats
kept_row false b c row rows old best tops e p q h = h
kept_row true true true row rows old best tops e p q h = rw (p, q) h
kept_row true true false row rows old best tops e p q h = rw (p, q) (ap₂ (λ x xs. x ∷ xs) e h)
kept_row true false c row rows old best tops e p q h = rw p (ap₂ (λ x xs. x ∷ xs) e h)

-- The kept prices are not moved before the end of the branch.
last_top-opened :
    (event : NormalizedEvent) (state : BookState) → last_top (opened event state) ≡ last_top state
unfolding opened reset_on_snapshot
last_top-opened event state =
    marked (is_gap event (reset_on_snapshot event.snapshot state)) _ ∙ reset event.snapshot
  where
    marked :
        (b : Bool) (s : BookState)
        → last_top (if b then record s { invalid_gap = true } else s) ≡ last_top s
    marked true s = refl
    marked false s = refl

    reset : (b : Bool) → last_top (reset_on_snapshot b state) ≡ last_top state
    reset true = refl
    reset false = refl

last_top-apply_levels :
    (serialize : ℕ → Bytes) (state : BookState) (value : Option Value) (bids : Bool)
    → last_top (apply_levels serialize state value bids) ≡ last_top state
unfolding apply_levels
last_top-apply_levels serialize state value true = refl
last_top-apply_levels serialize state value false = refl

module _ (serialize : ℕ → Bytes) (mapping : JsonEventMapping) where
  last_top-moved :
      (event : NormalizedEvent) (value : Value) (state : BookState)
      → last_top (moved serialize mapping event value state) ≡ last_top state
  unfolding moved levelled
  last_top-moved event value state =
      named (is_empty event.native_id) _
      ∙ last_top-apply_levels serialize _ _ false
      ∙ last_top-apply_levels serialize _ _ true
      ∙ last_top-opened event state
    where
      named :
          (b : Bool) (s : BookState)
          → last_top (if b then s else record s { last_native_id = event.native_id }) ≡ last_top s
      named true s = refl
      named false s = refl

  -- One message, with the rows and the tops behind it.
  row_tops :
      (event : NormalizedEvent) (next : BookState) (rows : List Value) (tops : List Top)
      → map row_top rows ≡ without_repeats (last_top (closed next)) tops
      → map row_top (if is_transition next then transition_row event next ∷ rows else rows)
        ≡ without_repeats
            (last_top next)
            (if (closed next).valid then best_levels (closed next) ∷ tops else tops)
  unfolding is_transition
  row_tops event next rows tops h =
      kept_row (is_valid_top next) (bytes_eq (best_levels next).0 next.last_bid)
        (bytes_eq (best_levels next).1 next.last_ask) (transition_row event next) rows
        (last_top next) (best_levels next) tops (row_top-transition_row event next) refl refl
        (h ∙ ap (λ t. without_repeats t tops) (last_top-closed next))
      ∙ ap₂ (λ valid top. without_repeats (last_top next) (if valid then top ∷ tops else tops))
          (sym (closed_flags next).3) (sym (best_levels-closed next))

  rows_tops :
      (depth : Depth) (messages : List (NormalizedEvent × Value))
      → map row_top (depth_rows serialize mapping depth messages)
        ≡ without_repeats (last_top depth.state) (valid_tops serialize mapping depth messages)
  unfolding depth_rows valid_tops without_repeats depth_step
  rows_tops depth [] = refl
  rows_tops depth ((event, value) ∷ messages) =
      row_tops event (moved serialize mapping event value depth.state) _ _
        (rows_tops (depth_step serialize mapping depth (event, value)) messages)
      ∙ ap
          (λ last.
            without_repeats last (valid_tops serialize mapping depth ((event, value) ∷ messages)))
          (last_top-moved event value depth.state)

  rows-IsUncrossed :
      (depth : Depth) (messages : List (NormalizedEvent × Value))
      → All (λ row. IsUncrossed (row_top row)) (depth_rows serialize mapping depth messages)
  unfolding depth_rows
  rows-IsUncrossed depth [] = tt
  rows-IsUncrossed depth ((event, value) ∷ messages) =
      let next = moved serialize mapping event value depth.state in
      let later = rows-IsUncrossed (depth_step serialize mapping depth (event, value)) messages in
      elim (Bool-cases (is_transition next)) [
        | inl taken ↦ rw taken (
          subst IsUncrossed (sym (row_top-transition_row event next))
              (transition-IsUncrossed next taken),
          later,
        )
        | inr none_taken ↦ rw none_taken later
      ]

  rows_counted :
      (depth : Depth) (messages : List (NormalizedEvent × Value))
      → (depth_run serialize mapping depth messages).totals.valid_bbo_transitions
        ≡ length (depth_rows serialize mapping depth messages) + depth.totals.valid_bbo_transitions
  unfolding depth_rows depth_run depth_step
  rows_counted depth [] = omega arith
  rows_counted depth ((event, value) ∷ messages) =
      count_rows (is_transition (moved serialize mapping event value depth.state)) _ _ _ _
        (rows_counted (depth_step serialize mapping depth (event, value)) messages)

  -- The rows that a run of messages adds to state_transitions.jsonl print the best bid and ask of
  -- the books behind the messages, where the book is valid, in their order, and each of them only
  -- where it differs from the one printed last; in each the bid and the ask are there and the bid
  -- is below the ask; and the counter of transitions moves by their number.
  pub depth_rows_lem :
      (depth : Depth) (messages : List (NormalizedEvent × Value))
      → (map row_top (depth_rows serialize mapping depth messages)
          ≡ without_repeats (last_top depth.state) (valid_tops serialize mapping depth messages))
        × All (λ row. IsUncrossed (row_top row)) (depth_rows serialize mapping depth messages)
        × ((depth_run serialize mapping depth messages).totals.valid_bbo_transitions
            ≡ length (depth_rows serialize mapping depth messages)
              + depth.totals.valid_bbo_transitions)
  depth_rows_lem depth messages =
      (rows_tops depth messages, rows-IsUncrossed depth messages, rows_counted depth messages)
