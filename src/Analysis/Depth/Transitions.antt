-- ===== src/Analysis/Depth/Transitions.antt =====
-- The flags of a book across messages.
use test_exchanges_helper.Base.{
  ℕ, ◌≡◌, refl, ◌∙◌, ap, ◌⊎◌, inl, inr, Bool, true, false, ◌&&◌, ◌||◌, List, [], ◌∷◌, Bytes,
  is_empty, All, if◌then◌else◌, arith, Option,
}
use test_exchanges_helper.Json.{Value}
use test_exchanges_helper.ResearchProfile.{JsonEventMapping}
use test_exchanges_helper.Analysis.Event.{NormalizedEvent, event_data}
use test_exchanges_helper.Analysis.Book.{BookState, apply_levels, best_levels}
use test_exchanges_helper.Analysis.Depth.{
  Depth, reset_on_snapshot, is_gap, opened, levelled, is_valid_top, is_transition, closed, count_if,
  moved, depth_step, depth_run,
}

-- `apply_levels` moves neither flag.
apply_levels_flags :
    (serialize : ℕ → Bytes) (state : BookState) (value : Option Value) (bids : Bool)
    → ((apply_levels serialize state value bids).invalid_gap ≡ state.invalid_gap)
      × ((apply_levels serialize state value bids).complete ≡ state.complete)
unfolding apply_levels
apply_levels_flags serialize state value true = (refl, refl)
apply_levels_flags serialize state value false = (refl, refl)

-- What `closed` keeps.
pub closed_flags :
    (state : BookState)
    → ((closed state).invalid_gap ≡ state.invalid_gap)
      × ((closed state).complete ≡ state.complete)
      × ((closed state).capacity_exceeded ≡ state.capacity_exceeded)
      × ((closed state).valid ≡ is_valid_top state)
unfolding closed
closed_flags state = go (is_transition state)
  where
    after : Bool → BookState
    after b =
        if b
        then record state {
          valid = is_valid_top state;
          last_bid = (best_levels state).0;
          last_ask = (best_levels state).1;
        }
        else record state { valid = is_valid_top state }

    go :
        (b : Bool)
        → ((after b).invalid_gap ≡ state.invalid_gap)
          × ((after b).complete ≡ state.complete)
          × ((after b).capacity_exceeded ≡ state.capacity_exceeded)
          × ((after b).valid ≡ is_valid_top state)
    go true = (refl, refl, refl, refl)
    go false = (refl, refl, refl, refl)

gap-invalid : (state : BookState) → state.invalid_gap ≡ true → is_valid_top state ≡ false
unfolding is_valid_top
gap-invalid state h = ground arith

invalid-no_transition :
    (state : BookState) → is_valid_top state ≡ false → is_transition state ≡ false
unfolding is_transition
invalid-no_transition state h = rw h refl

-- Between the two nothing was counted as a transition or as a reconstruction, and a gap is open.
pub record Silent (before after : Depth) : Type 0 where
  pub gap_open : after.state.invalid_gap ≡ true
  pub no_row : after.totals.valid_bbo_transitions ≡ before.totals.valid_bbo_transitions
  pub no_reconstruction :
      after.totals.full_reconstruction_observed ≡ before.totals.full_reconstruction_observed

Silent-trans : (a b c : Depth) → Silent a b → Silent b c → Silent a c
Silent-trans a b c h k = record {
  gap_open = k.gap_open;
  no_row = k.no_row ∙ h.no_row;
  no_reconstruction = k.no_reconstruction ∙ h.no_reconstruction;
}

-- With no snapshot, only the gap is marked.
abbrev gap_marked : Bool → BookState → BookState
gap_marked gap state = if gap then record state { invalid_gap = true } else state

opened_delta :
    (event : NormalizedEvent) (state : BookState)
    → event.snapshot ≡ false
    → opened event state ≡ gap_marked (is_gap event state) state
unfolding opened reset_on_snapshot
opened_delta event state h =
    ap (λ b. let fresh = reset_on_snapshot b state in gap_marked (is_gap event fresh) fresh) h

gap_marked_gap :
    (gap : Bool) (state : BookState)
    → (state.invalid_gap ≡ true) ⊎ (gap ≡ true)
    → (gap_marked gap state).invalid_gap ≡ true
gap_marked_gap true state k = refl
gap_marked_gap false state (inl e) = e
gap_marked_gap false state (inr e) = cc

gap_marked_complete :
    (gap : Bool) (state : BookState) → (gap_marked gap state).complete ≡ state.complete
gap_marked_complete true state = refl
gap_marked_complete false state = refl

or_and_false : (b c d : Bool) → d ≡ false → (b || (c && d)) ≡ b
or_and_false b c d h = ground arith

module _ (serialize : ℕ → Bytes) (mapping : JsonEventMapping) where
  levelled_flags :
      (event : NormalizedEvent) (content : Value) (state : BookState)
      → ((levelled serialize mapping event content state).invalid_gap ≡ state.invalid_gap)
        × ((levelled serialize mapping event content state).complete ≡ state.complete)
  unfolding levelled
  levelled_flags event content state =
      go (is_empty event.native_id) _
        ((apply_levels_flags serialize _ _ false).0 ∙ (apply_levels_flags serialize state _ true).0)
        ((apply_levels_flags serialize _ _ false).1 ∙ (apply_levels_flags serialize state _ true).1)
    where
      go :
          (b : Bool) (both : BookState)
          → both.invalid_gap ≡ state.invalid_gap
          → both.complete ≡ state.complete
          → ((if b then both else record both { last_native_id = event.native_id }).invalid_gap
              ≡ state.invalid_gap)
            × ((if b then both else record both { last_native_id = event.native_id }).complete
                ≡ state.complete)
      go true both g c = (g, c)
      go false both g c = (g, c)

  moved_gap :
      (event : NormalizedEvent) (value : Value) (state : BookState)
      → event.snapshot ≡ false
      → (state.invalid_gap ≡ true) ⊎ (is_gap event state ≡ true)
      → (moved serialize mapping event value state).invalid_gap ≡ true
  unfolding moved
  moved_gap event value state h k =
      (levelled_flags event (event_data mapping value) (opened event state)).0
      ∙ ap (λ s. s.invalid_gap) (opened_delta event state h)
      ∙ gap_marked_gap (is_gap event state) state k

  gap_step :
      (depth : Depth) (event : NormalizedEvent) (value : Value)
      → event.snapshot ≡ false
      → (depth.state.invalid_gap ≡ true) ⊎ (is_gap event depth.state ≡ true)
      → Silent depth (depth_step serialize mapping depth (event, value))
  unfolding depth_step count_if
  gap_step depth event value h k = record {
    gap_open = (closed_flags next).0 ∙ open_gap;
    no_row = rw (invalid-no_transition next (gap-invalid next open_gap)) refl;
    no_reconstruction = rw (gap-invalid next open_gap) (or_false _);
  }
    where
      next : BookState
      next = moved serialize mapping event value depth.state

      open_gap : next.invalid_gap ≡ true
      open_gap = moved_gap event value depth.state h k

      or_false : (b : Bool) → (b || false) ≡ b
      or_false true = refl
      or_false false = refl

  gap_run :
      (depth : Depth) (messages : List (NormalizedEvent × Value))
      → depth.state.invalid_gap ≡ true
      → All (λ m. m.0.snapshot ≡ false) messages
      → Silent depth (depth_run serialize mapping depth messages)
  unfolding depth_run
  gap_run depth [] h k = record { gap_open = h; no_row = refl; no_reconstruction = refl }
  gap_run depth ((event, value) ∷ messages) h k =
      Silent-trans _ _ _ (gap_step depth event value k.0 (inl h)) (
        gap_run (depth_step serialize mapping depth (event, value)) messages
          (gap_step depth event value k.0 (inl h)).gap_open k.1)

  -- Once a message names a predecessor that is not the event seen last, no transition is counted
  -- and no reconstruction is observed by it or by any later message, until a snapshot comes.
  pub gap-Silent :
      (depth : Depth) (event : NormalizedEvent) (value : Value)
      (messages : List (NormalizedEvent × Value))
      → is_gap event depth.state ≡ true
      → event.snapshot ≡ false
      → All (λ m. m.0.snapshot ≡ false) messages
      → Silent depth (depth_run serialize mapping depth ((event, value) ∷ messages))
  unfolding depth_run
  gap-Silent depth event value messages g h k =
      Silent-trans _ _ _ (gap_step depth event value h (inr g))
        (gap_run _ messages (gap_step depth event value h (inr g)).gap_open k)

  moved_complete :
      (event : NormalizedEvent) (value : Value) (state : BookState)
      → event.snapshot ≡ false
      → (moved serialize mapping event value state).complete ≡ state.complete
  unfolding moved
  moved_complete event value state h =
      (levelled_flags event (event_data mapping value) (opened event state)).1
      ∙ ap (λ s. s.complete) (opened_delta event state h)
      ∙ gap_marked_complete (is_gap event state) state

  complete_step :
      (depth : Depth) (event : NormalizedEvent) (value : Value)
      → depth.state.complete ≡ false
      → event.snapshot ≡ false
      → ((depth_step serialize mapping depth (event, value)).totals.full_reconstruction_observed
          ≡ depth.totals.full_reconstruction_observed)
        × ((depth_step serialize mapping depth (event, value)).state.complete ≡ false)
  unfolding depth_step
  complete_step depth event value h k = (
    or_and_false _ _ _ stays,
    (closed_flags (moved serialize mapping event value depth.state)).1 ∙ stays,
  )
    where
      stays : (moved serialize mapping event value depth.state).complete ≡ false
      stays = moved_complete event value depth.state k ∙ h

  -- A full reconstruction is observed only if some message was a snapshot.
  pub reconstruction_needs_snapshot :
      (depth : Depth) (messages : List (NormalizedEvent × Value))
      → depth.state.complete ≡ false
      → All (λ m. m.0.snapshot ≡ false) messages
      → ((depth_run serialize mapping depth messages).totals.full_reconstruction_observed
          ≡ depth.totals.full_reconstruction_observed)
        × ((depth_run serialize mapping depth messages).state.complete ≡ false)
  unfolding depth_run
  reconstruction_needs_snapshot depth [] h k = (refl, h)
  reconstruction_needs_snapshot depth ((event, value) ∷ messages) h k =
      let (observed, complete) = complete_step depth event value h k.0 in
      let (later, last) =
        reconstruction_needs_snapshot (depth_step serialize mapping depth (event, value)) messages
          complete k.1 in
      (later ∙ observed, last)
