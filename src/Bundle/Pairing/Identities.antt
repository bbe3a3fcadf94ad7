-- ===== src/Bundle/Pairing/Identities.antt =====
-- src/Research/Analysis/Relations.cpp: the identities that the loop of
-- analyze_paired_research_receipts holds, against the records that it has read.
use mathlib.Core.List.{append_assoc, append-nil}
use test_exchanges_helper.Base.{
  ℕ, suc, ◌≡◌, refl, sym, ◌∙◌, ap, Bool, true, false, not, ◌&&◌, List, [], ◌∷◌, ◌++◌, Option, none,
  some, ◌==◌, bytes_eq, length, length-append, Result, ok, if◌then◌else◌, option_or, arith,
}
use test_exchanges_helper.Json.{Items, nil, cons}
use test_exchanges_helper.Analysis.Event.{FrameIndex, ChannelDefinition}
use test_exchanges_helper.OrderedMap.{same_key}
use test_exchanges_helper.Bundle.Pairing.{
  PairedKey, paired_less, PairedIdentity, fresh_identity, Pairing, Held, trades, open_frame, Traded,
  identified, traded, count_record,
}

-- A record of a trade that has an identity: its key, its endpoint and its receipt.
pub record Event : Type 0 where
  pub key : PairedKey
  pub standard : Bool
  pub receipt : ℕ

-- The records of a trade, of a frame and of an index.
unfoldable pub trade_events : FrameIndex → Bool → ℕ → Traded → List Event
trade_events frame standard receipt (identified native_id symbol) =
    record { key = (frame.round, (symbol, native_id)); standard = standard; receipt = receipt } ∷ []
trade_events frame standard receipt _ = []

unfoldable pub items_events :
    Pairing → ChannelDefinition → FrameIndex → Bool → ℕ → Items → List Event
items_events pairing channel frame standard receipt nil = []
items_events pairing channel frame standard receipt (cons trade items) =
    trade_events frame standard receipt (traded pairing channel trade)
    ++ items_events pairing channel frame standard receipt items

unfoldable pub held_events :
    Pairing → ChannelDefinition → FrameIndex → Bool → ℕ → Result Held → List Event
held_events pairing channel frame standard receipt (ok (trades items)) =
    items_events pairing channel frame standard receipt items
held_events pairing channel frame standard receipt _ = []

unfoldable pub selected_events : Pairing → FrameIndex → Bool → List Event
selected_events pairing frame standard =
    let channel = if standard then pairing.left else pairing.right in
    option_or frame.received_monotonic_ns [] (λ receipt.
      held_events pairing channel frame standard receipt (open_frame pairing channel frame))

unfoldable pub frame_events : Pairing → FrameIndex → List Event
frame_events pairing frame =
    if bytes_eq frame.channel pairing.standard_channel
    then selected_events pairing frame true
    else if bytes_eq frame.channel pairing.aws_channel
    then selected_events pairing frame false
    else []

unfoldable pub index_events : Pairing → List FrameIndex → List Event
index_events pairing [] = []
index_events pairing (frame ∷ index) = frame_events pairing frame ++ index_events pairing index

-- The receipts of a key on one of the endpoints, in the order of the records.
unfoldable pub receipts : Bool → PairedKey → List Event → List ℕ
receipts standard key [] = []
receipts standard key (event ∷ events) =
    let later = receipts standard key events in
    if same_key paired_less key event.key
      && (if standard then event.standard else not event.standard)
    then event.receipt ∷ later
    else later

abbrev pub first : List ℕ → Option ℕ
first [] = none
first (r ∷ rs) = some r

-- What the map must hold of a key with these receipts.
unfoldable pub identity_of : List ℕ → List ℕ → Option PairedIdentity
identity_of [] [] = none
identity_of ls rs = some (record {
  standard = first ls;
  aws = first rs;
  standard_count = length ls;
  aws_count = length rs;
})

-- One record more, and any number of them, as the map takes them.
unfoldable pub note : PairedKey → Option PairedIdentity → Event → Option PairedIdentity
note key identity event =
    if same_key paired_less key event.key
    then some
        (count_record event.standard event.receipt (option_or identity fresh_identity (λ i. i)))
    else identity

unfoldable pub notes : PairedKey → Option PairedIdentity → List Event → Option PairedIdentity
unfolding note
notes key identity [] = identity
notes key identity (event ∷ events) = notes key (note key identity event) events

length_more : (ls : List ℕ) (r : ℕ) → length (ls ++ r ∷ []) ≡ suc (length ls)
length_more ls r = omega (arith, length-append ls (r ∷ []))

suc_not_zero : (n : ℕ) → (suc n == 0) ≡ false
suc_not_zero n = ground arith

count_standard :
    (ls rs : List ℕ) (r : ℕ)
    → some (count_record true r (option_or (identity_of ls rs) fresh_identity (λ i. i)))
      ≡ identity_of (ls ++ r ∷ []) rs
unfolding count_record identity_of
count_standard [] [] r = refl
count_standard [] (x ∷ rs) r = refl
count_standard (l ∷ ls) rs r = rw (suc_not_zero (length ls)) (rw (length_more ls r) refl)

count_aws :
    (ls rs : List ℕ) (r : ℕ)
    → some (count_record false r (option_or (identity_of ls rs) fresh_identity (λ i. i)))
      ≡ identity_of ls (rs ++ r ∷ [])
unfolding count_record identity_of
count_aws [] [] r = refl
count_aws (l ∷ ls) [] r = refl
count_aws [] (x ∷ rs) r = rw (suc_not_zero (length rs)) (rw (length_more rs r) refl)
count_aws (l ∷ ls) (x ∷ rs) r = rw (suc_not_zero (length rs)) (rw (length_more rs r) refl)

note_cases :
    (same standard : Bool) (r : ℕ) (ls rs : List ℕ)
    → (if same
        then some (count_record standard r (option_or (identity_of ls rs) fresh_identity (λ i. i)))
        else identity_of ls rs)
      ≡ identity_of
          (ls ++ (if same && standard then r ∷ [] else []))
          (rs ++ (if same && not standard then r ∷ [] else []))
note_cases true true r ls rs =
    count_standard ls rs r ∙ ap (identity_of (ls ++ r ∷ [])) (sym (append-nil rs))
note_cases true false r ls rs =
    count_aws ls rs r ∙ ap (λ l. identity_of l (rs ++ r ∷ [])) (sym (append-nil ls))
note_cases false standard r ls rs =
    ap (λ l. identity_of l rs) (sym (append-nil ls))
    ∙ ap (identity_of (ls ++ [])) (sym (append-nil rs))

receipts_cons :
    (standard : Bool) (key : PairedKey) (event : Event) (events : List Event)
    → receipts standard key (event ∷ events)
      ≡ receipts standard key (event ∷ []) ++ receipts standard key events
unfolding receipts
receipts_cons standard key event events =
    prepend
      (same_key paired_less key event.key
        && (if standard then event.standard else not event.standard))
      event.receipt (receipts standard key events)
  where
    prepend :
        (b : Bool) (r : ℕ) (later : List ℕ)
        → (if b then r ∷ later else later) ≡ (if b then r ∷ [] else []) ++ later
    prepend true r later = refl
    prepend false r later = refl

-- The records of a key, taken one by one, make what `identity_of` makes of their receipts.
pub notes_identity :
    (key : PairedKey) (events : List Event) (ls rs : List ℕ)
    → notes key (identity_of ls rs) events
      ≡ identity_of (ls ++ receipts true key events) (rs ++ receipts false key events)
unfolding notes
notes_identity key [] ls rs =
    unfold receipts in
    ap (λ l. identity_of l rs) (sym (append-nil ls))
    ∙ ap (identity_of (ls ++ [])) (sym (append-nil rs))
notes_identity key (event ∷ events) ls rs =
    let same = same_key paired_less key event.key in
    let l = receipts true key (event ∷ []) in
    let r = receipts false key (event ∷ []) in
    let one : note key (identity_of ls rs) event ≡ identity_of (ls ++ l) (rs ++ r) =
      unfold note receipts in
      note_cases (same_key paired_less key event.key) event.standard event.receipt ls rs in
    ap (λ i. notes key i events) one
    ∙ notes_identity key events (ls ++ l) (rs ++ r)
    ∙ ap (λ m. identity_of m (rs ++ r ++ receipts false key events))
        (append_assoc ls l (receipts true key events)
          ∙ ap (λ m. ls ++ m) (sym (receipts_cons true key event events)))
    ∙ ap (identity_of (ls ++ receipts true key (event ∷ events))) (
        append_assoc rs r (receipts false key events)
        ∙ ap (λ m. rs ++ m) (sym (receipts_cons false key event events)))

pub notes-append :
    (key : PairedKey) (identity : Option PairedIdentity) (xs ys : List Event)
    → notes key identity (xs ++ ys) ≡ notes key (notes key identity xs) ys
unfolding notes
notes-append key identity [] ys = refl
notes-append key identity (x ∷ xs) ys = notes-append key (note key identity x) xs ys
