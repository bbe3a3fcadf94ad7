-- ===== src/Analysis/Book.antt =====
-- src/Research/Analysis/Book.cpp: the two sides of an order book, kept as text under `DecimalLess`.
pub mod Invariant
pub mod Best
use test_exchanges_helper.Base.{
  ℕ, suc, ◌≡◌, Bool, true, false, not, ◌&&◌, ◌||◌, List, [], ◌∷◌, Option, none, some, Bytes, leb,
  ltb, ◌==◌, is_empty, length, all, if◌then◌else◌,
}
use test_exchanges_helper.Json.{Value, Items, nil, cons, array, size, at}
use test_exchanges_helper.OrderedMap.{contains, assign, erase, last_key}
use test_exchanges_helper.Analysis.Order.{decimal_less}
use test_exchanges_helper.Analysis.Scalars.{scalar_text}

abbrev pub maximum_book_levels_per_side : ℕ
maximum_book_levels_per_side = 100000

abbrev pub maximum_book_scalar_bytes : ℕ
maximum_book_scalar_bytes = 256

-- A side: price and quantity, by price.
abbrev pub Side : Type 0
Side = List (Bytes × Bytes)

pub record BookState : Type 0 where
  pub bids : Side
  pub asks : Side
  pub valid : Bool
  pub invalid_gap : Bool
  pub complete : Bool
  pub capacity_exceeded : Bool
  pub last_native_id : Bytes
  pub last_bid : Bytes
  pub last_ask : Bytes

-- `is_zero_decimal`
unfoldable pub is_zero_decimal : Bytes → Bool
is_zero_decimal value = not (is_empty value) && all (λ c. c == b'0' || c == b'.') value

-- `level.is_array() && size >= 2`, with the texts of its first two elements.
unfoldable pub level_texts : (ℕ → Bytes) → Value → Option (Bytes × Bytes)
level_texts serialize (array xs) =
    if ltb (size xs) 2
    then none
    else some (scalar_text serialize (at xs 0), scalar_text serialize (at xs 1))
level_texts serialize v = none

-- One level with its texts: the side and the capacity flag behind it.
unfoldable pub apply_texts : Side → Bool → Bytes → Bytes → Side × Bool
apply_texts side exceeded price quantity =
    if is_empty price || is_empty quantity
    then (side, exceeded)
    else if ltb maximum_book_scalar_bytes (length price)
        || ltb maximum_book_scalar_bytes (length quantity)
    then (side, true)
    else if is_zero_decimal quantity
    then (erase decimal_less price side, exceeded)
    else if not (contains decimal_less price side) && leb maximum_book_levels_per_side (length side)
    then (side, true)
    else (assign decimal_less price quantity side, exceeded)

-- The body of the loop of `apply_levels`.
unfoldable pub apply_level : (ℕ → Bytes) → Side × Bool → Value → Side × Bool
apply_level serialize (side, exceeded) level = elim (level_texts serialize level) [
  | none ↦ (side, exceeded)
  | some (price, quantity) ↦ apply_texts side exceeded price quantity
]

unfoldable pub apply_all : (ℕ → Bytes) → Side × Bool → Items → Side × Bool
apply_all serialize s nil = s
apply_all serialize s (cons level levels) =
    apply_all serialize (apply_level serialize s level) levels

-- `value == nullptr || !value->is_array()` leaves the side alone.
unfoldable pub apply_value : (ℕ → Bytes) → Side × Bool → Option Value → Side × Bool
apply_value serialize s (some (array levels)) = apply_all serialize s levels
apply_value serialize s v = s

-- `apply_levels`
unfoldable pub apply_levels : (ℕ → Bytes) → BookState → Option Value → Bool → BookState
apply_levels serialize state value bids =
    let (side, exceeded) =
      apply_value serialize (if bids then state.bids else state.asks, state.capacity_exceeded)
        value in
    if bids
    then record state { bids = side; capacity_exceeded = exceeded }
    else record state { asks = side; capacity_exceeded = exceeded }

first_key : Side → Bytes
first_key [] = []
first_key ((price, quantity) ∷ side) = price

-- `rbegin()->first`, and the empty text of an empty side
unfoldable pub best_bid : Side → Bytes
best_bid [] = []
best_bid ((price, quantity) ∷ side) = last_key decimal_less price side

-- `begin()->first`, and the empty text of an empty side
unfoldable pub best_ask : Side → Bytes
unfolding first_key
best_ask side = first_key side

-- `best_levels`
unfoldable pub best_levels : BookState → Bytes × Bytes
best_levels state = (best_bid state.bids, best_ask state.asks)
