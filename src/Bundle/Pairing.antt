-- ===== src/Bundle/Pairing.antt =====
-- src/Research/Analysis/Relations.cpp, analyze_paired_research_receipts: the loop that pairs the
-- trades of two channels by their native identity, and what is made of the identities. Parsing,
-- inflating and the text of a double are parameters.
pub mod Keys
pub mod Identities
pub mod Refinement
pub mod Deltas
use test_exchanges_helper.Base.{
  ℕ, zero, suc, ◌+◌, ◌-◌, ◌*◌, Bool, true, false, not, ◌&&◌, ◌||◌, List, [], ◌∷◌, ◌++◌, Option,
  none, some, Bytes, String, bytes_eq, bytes_lt, codes, ltb, leb, ◌==◌, all, is_digit, is_empty,
  length, Result, ok, err, refuse_if, ◌>>=◌, if◌then◌else◌, option_or,
}
use test_exchanges_helper.Base.Int.{ℤ}
use test_exchanges_helper.Json.{
  Value, null, boolean, int64, uint64, double, string, array, object, Items, nil, cons, Fields,
}
use test_exchanges_helper.Analysis.Event.{FrameIndex, ChannelDefinition}
use test_exchanges_helper.Analysis.Scalars.{scalar_text, json_path}
use test_exchanges_helper.Bundle.Reader.{text, read_payload}
use test_exchanges_helper.Bundle.Receipts.{receipt_delta}
use test_exchanges_helper.Network.Gzip.{Outcome, Zlib, decode_gzip_bounded, value, refused, fault}
use test_exchanges_helper.Network.WsApplication.{max_ws_message_bytes}
use test_exchanges_helper.OrderedMap.{find, assign}

abbrev pub maximum_paired_events : ℕ
maximum_paired_events = 100000

abbrev pub maximum_paired_key_bytes : ℕ
maximum_paired_key_bytes = 16777216

abbrev pub maximum_paired_field_bytes : ℕ
maximum_paired_field_bytes = 256

-- `operator<` of a pair, of which `std::tuple`'s is made.
unfoldable pub lex {ℓ κ} :
    {A : Type ℓ} {B : Type κ} → (A → A → Bool) → (B → B → Bool) → A × B → A × B → Bool
lex less less' (a, b) (a', b') = if less a a' then true else if less a' a then false else less' b b'

-- `PairedKey`: the round, the symbol and the native identity; the kind is that of trades for all.
abbrev pub PairedKey : Type 0
PairedKey = ℕ × (Bytes × Bytes)

unfoldable pub paired_less : PairedKey → PairedKey → Bool
paired_less = lex ltb (lex bytes_lt bytes_lt)

-- `PairedIdentity`
pub record PairedIdentity : Type 0 where
  pub standard : Option ℕ
  pub aws : Option ℕ
  pub standard_count : ℕ
  pub aws_count : ℕ

abbrev pub fresh_identity : PairedIdentity
fresh_identity = record { standard = none; aws = none; standard_count = 0; aws_count = 0 }

-- What the loop is given: the manifest's symbol, the two channels, and the calls.
pub record Pairing : Type 0 where
  pub symbol : Bytes
  pub standard_channel : Bytes
  pub aws_channel : Bytes
  pub left : ChannelDefinition
  pub right : ChannelDefinition
  pub frames : Bytes
  pub parse : Bytes → Option Value
  pub zlib : Zlib
  pub serialize : ℕ → Bytes

-- The identities and the counters of the loop.
pub record Paired : Type 0 where
  pub identities : List (PairedKey × PairedIdentity)
  pub key_bytes : ℕ
  pub selected_frames : ℕ
  pub candidate_records : ℕ
  pub invalid_payload_records : ℕ
  pub missing_native_id_records : ℕ
  pub invalid_id_standard : ℕ
  pub invalid_id_aws : ℕ

-- `gzip` where the channel asks for it and the frame is binary.
unfoldable pub plain_payload : Pairing → ChannelDefinition → FrameIndex → Bytes → Result Bytes
plain_payload pairing channel frame payload =
    if bytes_eq channel.compression (codes "gzip") && frame.binary
    then (elim (decode_gzip_bounded pairing.zlib payload max_ws_message_bytes) [
      | value decoded ↦ ok decoded
      | refused message ↦ err message
      | fault ↦ err "fault"
    ])
    else if frame.binary
    then err "unexpected_binary_trade_wire"
    else ok payload

-- What a selected frame holds: no document or no array of trades, nothing of trades, or trades.
pub data Held : Type 0 where
  unreadable : Held
  irrelevant : Held
  trades : Items → Held

-- `text(value.as_object(), "ch") != "market." + symbol + ".trade.detail"`, or no object.
unfoldable pub is_other_channel : Bytes → Value → Bool
is_other_channel symbol (object fs) =
    not (bytes_eq (text fs (codes "ch")) (codes "market." ++ (symbol ++ codes ".trade.detail")))
is_other_channel symbol v = true

unfoldable pub array_of : Value → Held
array_of (array xs) = trades xs
array_of _ = unreadable

-- The document of a frame, where there is one.
unfoldable pub held_in : Pairing → ChannelDefinition → FrameIndex → Value → Result Held
held_in pairing channel frame document =
    option_or (json_path document (codes "tick.data")) (ok irrelevant) (λ items.
      if is_other_channel pairing.symbol document
      then err "trade_channel_symbol_mismatch"
      else if bytes_eq channel.compression (codes "gzip") && not frame.binary
      then err "gzip_trade_requires_binary_opcode"
      else ok (array_of items))

unfoldable pub open_frame : Pairing → ChannelDefinition → FrameIndex → Result Held
open_frame pairing channel frame = do
  payload ← read_payload pairing.frames frame
  plain ← plain_payload pairing channel frame payload
  option_or (pairing.parse plain) (ok unreadable) (held_in pairing channel frame)

-- `event_symbol`
unfoldable pub event_symbol : Pairing → ChannelDefinition → Value → Bytes
event_symbol pairing channel trade =
    if is_empty channel.mapping.symbol_path
    then pairing.symbol
    else scalar_text pairing.serialize (json_path trade channel.mapping.symbol_path)

-- A trade record: no object, without a numeric identity, or with its identity and its symbol.
pub data Traded : Type 0 where
  malformed : Traded
  unidentified : Traded
  identified : Bytes → Bytes → Traded

unfoldable pub traded : Pairing → ChannelDefinition → Value → Traded
traded pairing channel (object fs) =
    let native_id =
      scalar_text pairing.serialize (json_path (object fs) channel.mapping.event_id_path) in
    if not (is_empty native_id) && all is_digit native_id
    then identified native_id (event_symbol pairing channel (object fs))
    else unidentified
traded pairing channel _ = malformed

abbrev pub exceeds_field : Bytes → Bool
exceeds_field s = ltb maximum_paired_field_bytes (length s)

-- The identity with one more record: the first of an endpoint leaves its receipt.
unfoldable pub count_record : Bool → ℕ → PairedIdentity → PairedIdentity
count_record standard receipt identity =
    if standard
    then record identity {
      standard_count = suc identity.standard_count;
      standard = if identity.standard_count == 0 then some receipt else identity.standard;
    }
    else record identity {
      aws_count = suc identity.aws_count;
      aws = if identity.aws_count == 0 then some receipt else identity.aws;
    }

-- What `identities.find(key)` finds, or else a fresh identity, if the map has room for its key.
unfoldable pub admit_key : Paired → Option PairedIdentity → ℕ → Result (Paired × PairedIdentity)
admit_key state (some identity) retained_bytes = ok (state, identity)
admit_key state none retained_bytes =
    if leb maximum_paired_events (length state.identities)
      || ltb (maximum_paired_key_bytes - state.key_bytes) retained_bytes
    then err "paired_identity_capacity_exceeded"
    else ok (record state { key_bytes = state.key_bytes + retained_bytes }, fresh_identity)

-- The record is counted for its key.
unfoldable pub store_record : PairedKey → Bool → ℕ → Paired × PairedIdentity → Result Paired
store_record key standard receipt (state, identity) = ok (record state {
  identities = assign paired_less key (count_record standard receipt identity) state.identities;
})

-- An identified record: from the check of its symbol to its count.
unfoldable pub pair_identified :
    Pairing → FrameIndex → Bool → ℕ → Bytes → Bytes → Paired → Result Paired
pair_identified pairing frame standard receipt native_id symbol state =
    let key : PairedKey = (frame.round, (symbol, native_id)) in
    if not (bytes_eq symbol pairing.symbol)
    then err "trade_symbol_mismatch"
    else if exceeds_field native_id || is_empty symbol || exceeds_field symbol
    then err "paired_field_capacity_exceeded"
    else admit_key state (find paired_less key state.identities) (length native_id + length symbol)
      >>= store_record key standard receipt

unfoldable pub count_unidentified : Bool → Paired → Paired
count_unidentified standard state =
    let missing = record state {
      missing_native_id_records = suc state.missing_native_id_records;
    } in
    if standard
    then record missing { invalid_id_standard = suc state.invalid_id_standard }
    else record missing { invalid_id_aws = suc state.invalid_id_aws }

unfoldable pub pair_traded : Pairing → FrameIndex → Bool → ℕ → Traded → Paired → Result Paired
pair_traded pairing frame standard receipt malformed state =
    ok (record state { invalid_payload_records = suc state.invalid_payload_records })
pair_traded pairing frame standard receipt unidentified state =
    ok (count_unidentified standard state)
pair_traded pairing frame standard receipt (identified native_id symbol) state =
    pair_identified pairing frame standard receipt native_id symbol state

-- One round of the loop over the trades of a frame.
unfoldable pub pair_trade :
    Pairing → ChannelDefinition → FrameIndex → Bool → ℕ → Value → Paired → Result Paired
pair_trade pairing channel frame standard receipt trade state =
    let counted = record state { candidate_records = suc state.candidate_records } in
    if ltb maximum_paired_events counted.candidate_records
    then err "paired_event_capacity_exceeded"
    else pair_traded pairing frame standard receipt (traded pairing channel trade) counted

unfoldable pub pair_trades :
    Pairing → ChannelDefinition → FrameIndex → Bool → ℕ → Items → Paired → Result Paired
pair_trades pairing channel frame standard receipt nil state = ok state
pair_trades pairing channel frame standard receipt (cons trade items) state =
    pair_trade pairing channel frame standard receipt trade state >>= λ next.
    pair_trades pairing channel frame standard receipt items next

unfoldable pub pair_held :
    Pairing → ChannelDefinition → FrameIndex → Bool → ℕ → Held → Paired → Result Paired
pair_held pairing channel frame standard receipt unreadable state =
    ok (record state { invalid_payload_records = suc state.invalid_payload_records })
pair_held pairing channel frame standard receipt irrelevant state = ok state
pair_held pairing channel frame standard receipt (trades items) state =
    pair_trades pairing channel frame standard receipt items state

-- A frame of one of the two channels, with its receipt.
unfoldable pub pair_received : Pairing → FrameIndex → Bool → Option ℕ → Paired → Result Paired
pair_received pairing frame standard none state = err "read_completion_timestamp_required"
pair_received pairing frame standard (some receipt) state =
    let channel = if standard then pairing.left else pairing.right in
    open_frame pairing channel frame >>= λ held.
    pair_held pairing channel frame standard receipt held state

unfoldable pub pair_selected : Pairing → FrameIndex → Bool → Paired → Result Paired
pair_selected pairing frame standard state =
    let counted = record state { selected_frames = suc state.selected_frames } in
    if ltb maximum_paired_events counted.selected_frames
    then err "paired_frame_capacity_exceeded"
    else pair_received pairing frame standard frame.received_monotonic_ns counted

-- One round of the loop over the index.
unfoldable pub pair_frame : Pairing → FrameIndex → Paired → Result Paired
pair_frame pairing frame state =
    if bytes_eq frame.channel pairing.standard_channel
    then pair_selected pairing frame true state
    else if bytes_eq frame.channel pairing.aws_channel
    then pair_selected pairing frame false state
    else ok state

unfoldable pub pair_frames : Pairing → List FrameIndex → Paired → Result Paired
pair_frames pairing [] state = ok state
pair_frames pairing (frame ∷ index) state =
    pair_frame pairing frame state >>= λ next. pair_frames pairing index next

abbrev pub unpaired : Paired
unpaired = record {
  identities = [];
  key_bytes = 0;
  selected_frames = 0;
  candidate_records = 0;
  invalid_payload_records = 0;
  missing_native_id_records = 0;
  invalid_id_standard = 0;
  invalid_id_aws = 0;
}
