-- ===== src/ResearchProfile.antt =====
-- include/exchange_probe/ResearchProfile.hpp and the conversions of src/Research/ResearchProfile.cpp.
pub mod Laws
use test_exchanges_helper.Base.{
  ℕ, ◌≡◌, Bool, List, [], ◌∷◌, Option, Bytes, String, codes, bytes_eq, if◌then◌else◌,
}

pub data ResearchChannelKind : Type 0 where
  trade book_ticker depth funding control unknown : ResearchChannelKind

pub data ResearchSupport : Type 0 where
  exact observed_only candidate adapter_required unavailable : ResearchSupport

pub record JsonEventMapping : Type 0 where
  pub data_path : Bytes
  pub symbol_path : Bytes
  pub event_time_path : Bytes
  pub event_time_unit : Bytes
  pub transaction_time_path : Bytes
  pub transaction_time_unit : Bytes
  pub event_id_path : Bytes
  pub first_event_id_path : Bytes
  pub previous_event_id_path : Bytes
  pub bids_path : Bytes
  pub asks_path : Bytes
  pub bid_price_path : Bytes
  pub bid_quantity_path : Bytes
  pub ask_price_path : Bytes
  pub ask_quantity_path : Bytes
  pub trades_path : Bytes
  pub price_path : Bytes
  pub quantity_path : Bytes
  pub side_path : Bytes
  pub snapshot_path : Bytes
  pub snapshot_value : Bytes

pub record ResearchChannel : Type 0 where
  pub id : Bytes
  pub name : Bytes
  pub kind : ResearchChannelKind
  pub support : ResearchSupport
  pub transport : Bytes
  pub wire : Bytes
  pub host : Bytes
  pub port : ℕ
  pub path : Bytes
  pub subscribe : Bytes
  pub subscribe_binary : Bool
  pub compression : Bytes
  pub depth_semantics : Bytes
  pub depth_levels : ℕ
  pub adapter : Bytes
  pub capabilities : List Bytes
  pub mapping : JsonEventMapping

-- `to_string(ResearchChannelKind)`
unfoldable pub kind_to_string : ResearchChannelKind → Bytes
kind_to_string trade = codes "trade"
kind_to_string book_ticker = codes "book_ticker"
kind_to_string depth = codes "depth"
kind_to_string funding = codes "funding"
kind_to_string control = codes "control"
kind_to_string unknown = codes "unknown"

-- `to_string(ResearchSupport)`
unfoldable pub support_to_string : ResearchSupport → Bytes
support_to_string exact = codes "exact"
support_to_string observed_only = codes "observed_only"
support_to_string candidate = codes "candidate"
support_to_string adapter_required = codes "adapter_required"
support_to_string unavailable = codes "unavailable"

-- `research_channel_kind`
unfoldable pub research_channel_kind : Bytes → ResearchChannelKind
research_channel_kind value =
    if bytes_eq value (codes "trade")
    then trade
    else if bytes_eq value (codes "book_ticker")
    then book_ticker
    else if bytes_eq value (codes "depth")
    then depth
    else if bytes_eq value (codes "funding")
    then funding
    else if bytes_eq value (codes "control")
    then control
    else unknown

-- `research_support`
unfoldable pub research_support : Bytes → ResearchSupport
research_support value =
    if bytes_eq value (codes "exact")
    then exact
    else if bytes_eq value (codes "observed_only")
    then observed_only
    else if bytes_eq value (codes "candidate")
    then candidate
    else if bytes_eq value (codes "adapter_required")
    then adapter_required
    else unavailable
