-- ===== src/Bundle/Pairing/Refinement.antt =====
-- src/Research/Analysis/Relations.cpp: the loop of analyze_paired_research_receipts, step by step,
-- against the records that it reads.
use mathlib.Core.Path.{subst}
use test_exchanges_helper.Base.{
  ℕ, suc, ◌+◌, ◌≡◌, refl, sym, ◌∙◌, ap, Bool, true, false, not, ◌||◌, List, [], ◌∷◌, ◌++◌, Option,
  none, some, Bytes, bytes_eq, is_empty, ltb, length, Result, ok, bind_ok, if_ok, ok_injective,
  err_not_ok, if◌then◌else◌, option_or, arith,
}
use test_exchanges_helper.Json.{Value, Items, nil, cons}
use test_exchanges_helper.Analysis.Event.{FrameIndex, ChannelDefinition}
use test_exchanges_helper.OrderedMap.{find, same_key}
use test_exchanges_helper.OrderedMap.Laws.{find-assign, same_key_symm, same_key_trans}
use test_exchanges_helper.Bundle.Pairing.{
  PairedKey, paired_less, PairedIdentity, fresh_identity, maximum_paired_events, Pairing, Paired,
  unpaired, Held, unreadable, irrelevant, trades, open_frame, Traded, malformed, unidentified,
  identified, traded, count_record, admit_key, exceeds_field, store_record, pair_identified,
  count_unidentified, pair_traded, pair_trade, pair_trades, pair_held, pair_received, pair_selected,
  pair_frame, pair_frames,
}
use test_exchanges_helper.Bundle.Pairing.Keys.{paired_less-StrictWeakOrder}
use test_exchanges_helper.Bundle.Pairing.Identities.{
  Event, trade_events, items_events, held_events, selected_events, frame_events, index_events,
  receipts, identity_of, note, notes, notes_identity, notes-append,
}

-- From one map to another by these records, for each key.
abbrev Follows : Paired → Paired → List Event → Type 0
Follows state next events =
    (key : PairedKey)
    → find paired_less key next.identities
      ≡ notes key (find paired_less key state.identities) events

find_same :
    {V : Type 0} (i k : PairedKey) (m : List (PairedKey × V))
    → same_key paired_less i k ≡ true
    → find paired_less i m ≡ find paired_less k m
unfolding find
find_same i k [] h = refl
find_same i k ((j, w) ∷ m) h =
    let order = paired_less-StrictWeakOrder in
    grind (
      arith,
      find_same i k m h,
      same_key_trans paired_less order i k j h,
      same_key_trans paired_less order k i j,
      same_key_symm paired_less order i k,
    )

admit_key_ok :
    (state : Paired) (found : Option PairedIdentity) (retained_bytes : ℕ)
    (admitted : Paired × PairedIdentity)
    → admit_key state found retained_bytes ≡ ok admitted
    → (admitted.0.identities ≡ state.identities)
      × (admitted.1 ≡ option_or found fresh_identity (λ i. i))
unfolding admit_key
admit_key_ok state (some identity) retained_bytes admitted h =
    let e = ok_injective h in (ap (λ a. a.0.identities) (sym e), ap (λ a. a.1) (sym e))
admit_key_ok state none retained_bytes admitted h =
    let e = ok_injective (if_ok _ _ _ h).1 in
    (ap (λ a. a.0.identities) (sym e), ap (λ a. a.1) (sym e))

-- The record of a key that is stored.
store_record-Follows :
    (k : PairedKey) (standard : Bool) (receipt : ℕ) (state next : Paired)
    (admitted : Paired × PairedIdentity)
    → admitted.0.identities ≡ state.identities
    → admitted.1 ≡ option_or (find paired_less k state.identities) fresh_identity (λ i. i)
    → store_record k standard receipt admitted ≡ ok next
    → Follows state next (record { key = k; standard = standard; receipt = receipt } ∷ [])
unfolding store_record notes note
store_record-Follows k standard receipt state next admitted same identity h key =
    let stored = ap (λ s. find paired_less key s.identities) (sym (ok_injective h)) in
    let found =
      find-assign paired_less paired_less-StrictWeakOrder key k
        (count_record standard receipt admitted.1) admitted.0.identities in
    stored
    ∙ found
    ∙ unfold note in
      branches (same_key paired_less key k)
        (λ here.
          ap (λ i. some (count_record standard receipt i))
            (identity
              ∙ ap (λ o. option_or o fresh_identity (λ i. i))
                  (sym (find_same key k state.identities here))))
        (ap (find paired_less key) same)
  where
    branches :
        (b : Bool) {x x' y y' : Option PairedIdentity}
        → (b ≡ true → x ≡ x')
        → y ≡ y'
        → (if b then x else y) ≡ (if b then x' else y')
    branches true h k = h refl
    branches false h k = k

pair_identified-Follows :
    (pairing : Pairing) (frame : FrameIndex) (standard : Bool) (receipt : ℕ)
    (native_id symbol : Bytes) (state next : Paired)
    → pair_identified pairing frame standard receipt native_id symbol state ≡ ok next
    → Follows state next (trade_events frame standard receipt (identified native_id symbol))
unfolding pair_identified trade_events
pair_identified-Follows pairing frame standard receipt native_id symbol state next h =
    let k : PairedKey = (frame.round, (symbol, native_id)) in
    let search = find paired_less k state.identities in
    let bytes = length native_id + length symbol in
    let named = (if_ok (not (bytes_eq symbol pairing.symbol)) "trade_symbol_mismatch" _ h).1 in
    let admissible =
      (if_ok (exceeds_field native_id || is_empty symbol || exceeds_field symbol)
        "paired_field_capacity_exceeded" _ named).1 in
    let (admitted, stored, found) =
      bind_ok (store_record k standard receipt) (admit_key state search bytes) admissible in
    let (same, identity) = admit_key_ok state search bytes admitted found in
    store_record-Follows k standard receipt state next admitted same identity stored

pair_traded-Follows :
    (pairing : Pairing) (frame : FrameIndex) (standard : Bool) (receipt : ℕ) (trade : Traded)
    (state next : Paired)
    → pair_traded pairing frame standard receipt trade state ≡ ok next
    → Follows state next (trade_events frame standard receipt trade)
unfolding pair_traded trade_events notes
pair_traded-Follows pairing frame standard receipt malformed state next h key =
    ap (λ s. find paired_less key s.identities) (sym (ok_injective h))
pair_traded-Follows pairing frame true receipt unidentified state next h key =
    unfold count_unidentified in ap (λ s. find paired_less key s.identities) (sym (ok_injective h))
pair_traded-Follows pairing frame false receipt unidentified state next h key =
    unfold count_unidentified in ap (λ s. find paired_less key s.identities) (sym (ok_injective h))
pair_traded-Follows pairing frame standard receipt (identified native_id symbol) state next h key =
    unfold trade_events notes in
    pair_identified-Follows pairing frame standard receipt native_id symbol state next h key

-- Two runs of steps, one behind the other.
followed :
    (state middle next : Paired) (xs ys : List Event)
    → Follows state middle xs
    → Follows middle next ys
    → Follows state next (xs ++ ys)
followed state middle next xs ys first second key =
    second key
    ∙ ap (λ found. notes key found ys) (first key)
    ∙ sym (notes-append key (find paired_less key state.identities) xs ys)

unmoved : (state : Paired) → Follows state state []
unfolding notes
unmoved state key = refl

pair_trade-Follows :
    (pairing : Pairing) (channel : ChannelDefinition) (frame : FrameIndex) (standard : Bool)
    (receipt : ℕ) (trade : Value) (state next : Paired)
    → pair_trade pairing channel frame standard receipt trade state ≡ ok next
    → Follows state next (trade_events frame standard receipt (traded pairing channel trade))
unfolding pair_trade
pair_trade-Follows pairing channel frame standard receipt trade state next h =
    let counted = record state { candidate_records = suc state.candidate_records } in
    pair_traded-Follows pairing frame standard receipt (traded pairing channel trade) counted next
      (if_ok (ltb maximum_paired_events (suc state.candidate_records))
        "paired_event_capacity_exceeded" _ h).1

pair_trades-Follows :
    (pairing : Pairing) (channel : ChannelDefinition) (frame : FrameIndex) (standard : Bool)
    (receipt : ℕ) (items : Items) (state next : Paired)
    → pair_trades pairing channel frame standard receipt items state ≡ ok next
    → Follows state next (items_events pairing channel frame standard receipt items)
unfolding pair_trades items_events
pair_trades-Follows pairing channel frame standard receipt nil state next h =
    subst (λ s. Follows state s []) (ok_injective h) (unmoved state)
pair_trades-Follows pairing channel frame standard receipt (cons trade items) state next h =
    let (middle, later, done) =
      bind_ok (pair_trades pairing channel frame standard receipt items)
        (pair_trade pairing channel frame standard receipt trade state) h in
    followed state middle next _ _
      (pair_trade-Follows pairing channel frame standard receipt trade state middle done)
      (pair_trades-Follows pairing channel frame standard receipt items middle next later)

pair_held-Follows :
    (pairing : Pairing) (channel : ChannelDefinition) (frame : FrameIndex) (standard : Bool)
    (receipt : ℕ) (held : Held) (state next : Paired)
    → pair_held pairing channel frame standard receipt held state ≡ ok next
    → Follows state next (held_events pairing channel frame standard receipt (ok held))
unfolding pair_held held_events notes
pair_held-Follows pairing channel frame standard receipt unreadable state next h key =
    ap (λ s. find paired_less key s.identities) (sym (ok_injective h))
pair_held-Follows pairing channel frame standard receipt irrelevant state next h key =
    ap (λ s. find paired_less key s.identities) (sym (ok_injective h))
pair_held-Follows pairing channel frame standard receipt (trades items) state next h key =
    pair_trades-Follows pairing channel frame standard receipt items state next h key

pair_received-Follows :
    (pairing : Pairing) (frame : FrameIndex) (standard : Bool) (received : Option ℕ)
    (state next : Paired)
    → pair_received pairing frame standard received state ≡ ok next
    → Follows state next (
        option_or received [] (λ receipt.
          let channel = if standard then pairing.left else pairing.right in
          held_events pairing channel frame standard receipt (open_frame pairing channel frame)))
unfolding pair_received
pair_received-Follows pairing frame standard none state next h = absurd (err_not_ok h)
pair_received-Follows pairing frame standard (some receipt) state next h =
    let channel = if standard then pairing.left else pairing.right in
    let (held, taken, opened) =
      bind_ok (λ held. pair_held pairing channel frame standard receipt held state)
        (open_frame pairing channel frame) h in
    subst (λ o. Follows state next (held_events pairing channel frame standard receipt o))
      (sym opened) (pair_held-Follows pairing channel frame standard receipt held state next taken)

pair_selected-Follows :
    (pairing : Pairing) (frame : FrameIndex) (standard : Bool) (state next : Paired)
    → pair_selected pairing frame standard state ≡ ok next
    → Follows state next (selected_events pairing frame standard)
unfolding pair_selected selected_events
pair_selected-Follows pairing frame standard state next h =
    pair_received-Follows pairing frame standard frame.received_monotonic_ns
      (record state { selected_frames = suc state.selected_frames }) next
      (if_ok (ltb maximum_paired_events (suc state.selected_frames))
        "paired_frame_capacity_exceeded" _ h).1

pair_frame-Follows :
    (pairing : Pairing) (frame : FrameIndex) (state next : Paired)
    → pair_frame pairing frame state ≡ ok next
    → Follows state next (frame_events pairing frame)
unfolding pair_frame frame_events
pair_frame-Follows pairing frame state next =
    chosen (bytes_eq frame.channel pairing.standard_channel) _ _
      (pair_selected-Follows pairing frame true state next)
      (chosen (bytes_eq frame.channel pairing.aws_channel) _ _
        (pair_selected-Follows pairing frame false state next)
        (λ h. subst (λ s. Follows state s []) (ok_injective h) (unmoved state)))
  where
    chosen :
        (b : Bool) {x y : Result Paired} (xs ys : List Event)
        → (x ≡ ok next → Follows state next xs)
        → (y ≡ ok next → Follows state next ys)
        → (if b then x else y) ≡ ok next
        → Follows state next (if b then xs else ys)
    chosen true xs ys h k e = h e
    chosen false xs ys h k e = k e

pair_frames-Follows :
    (pairing : Pairing) (index : List FrameIndex) (state next : Paired)
    → pair_frames pairing index state ≡ ok next
    → Follows state next (index_events pairing index)
unfolding pair_frames index_events
pair_frames-Follows pairing [] state next h =
    subst (λ s. Follows state s []) (ok_injective h) (unmoved state)
pair_frames-Follows pairing (frame ∷ index) state next h =
    let (middle, later, done) =
      bind_ok (pair_frames pairing index) (pair_frame pairing frame state) h in
    followed state middle next _ _ (pair_frame-Follows pairing frame state middle done)
      (pair_frames-Follows pairing index middle next later)

-- Where the loop over the frames of an index ends without a refusal, its map refines the records
-- that it has read: under each key it holds the first receipts and the numbers of the key's records
-- on the two channels, and a key without a record is not in it.
pub pair_frames_refines :
    (pairing : Pairing) (index : List FrameIndex) (last : Paired) (key : PairedKey)
    → pair_frames pairing index unpaired ≡ ok last
    → find paired_less key last.identities
      ≡ identity_of
          (receipts true key (index_events pairing index))
          (receipts false key (index_events pairing index))
pair_frames_refines pairing index last key h =
    let nothing : find paired_less key unpaired.identities ≡ identity_of [] [] =
      unfold find identity_of in refl in
    pair_frames-Follows pairing index unpaired last h key
    ∙ ap (λ found. notes key found (index_events pairing index)) nothing
    ∙ notes_identity key (index_events pairing index) [] []
