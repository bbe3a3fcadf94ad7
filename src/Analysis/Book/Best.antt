-- ===== src/Analysis/Book/Best.antt =====
-- The prices that `best_levels` picks.
use test_exchanges_helper.Base.{◌≡◌, false, [], ◌∷◌, Bytes, All}
use test_exchanges_helper.OrderedMap.{Sorted, Above, last_key}
use test_exchanges_helper.OrderedMap.Laws.{last_key-Above, less_irrefl}
use test_exchanges_helper.Analysis.Order.{decimal_less}
use test_exchanges_helper.Analysis.Order.DecimalLaws.{decimal_less_asymm}
use test_exchanges_helper.Analysis.Book.{Side, BookState, best_bid, best_ask, best_levels}
use test_exchanges_helper.Analysis.Book.Invariant.{decimal_order, IsBook}

abbrev pub NoneAbove : Bytes → Side → Type 0
NoneAbove best side = All (λ e. decimal_less best e.0 ≡ false) side

abbrev pub NoneBelow : Bytes → Side → Type 0
NoneBelow best side = All (λ e. decimal_less e.0 best ≡ false) side

Above-NoneBelow : (best : Bytes) (side : Side) → Above decimal_less best side → NoneBelow best side
Above-NoneBelow best [] h = tt
Above-NoneBelow best ((p, q) ∷ side) h =
    (decimal_less_asymm best p h.0, Above-NoneBelow best side h.1)

last_key-NoneAbove :
    (price quantity : Bytes) (side : Side)
    → Above decimal_less price side
    → Sorted decimal_less side
    → NoneAbove (last_key decimal_less price side) ((price, quantity) ∷ side)
unfolding last_key
last_key-NoneAbove price quantity [] h s = (less_irrefl decimal_less decimal_order price, tt)
last_key-NoneAbove price quantity ((p, q) ∷ side) h s = (
  last_key-Above decimal_less decimal_order price ((p, q) ∷ side) h s,
  last_key-NoneAbove p q side s.0 s.1,
)

best_bid-NoneAbove : (side : Side) → Sorted decimal_less side → NoneAbove (best_bid side) side
unfolding best_bid
best_bid-NoneAbove [] s = tt
best_bid-NoneAbove ((p, q) ∷ side) s = last_key-NoneAbove p q side s.0 s.1

best_ask-NoneBelow : (side : Side) → Sorted decimal_less side → NoneBelow (best_ask side) side
unfolding best_ask
best_ask-NoneBelow [] s = tt
best_ask-NoneBelow ((p, q) ∷ side) s =
    (less_irrefl decimal_less decimal_order p, Above-NoneBelow p side s.0)

-- No bid is above the best bid, and no ask is below the best ask.
pub best_levels_extreme :
    (state : BookState)
    → IsBook state
    → NoneAbove (best_levels state).0 state.bids × NoneBelow (best_levels state).1 state.asks
unfolding best_levels
best_levels_extreme state v = (
  best_bid-NoneAbove state.bids v.bid_side.sorted,
  best_ask-NoneBelow state.asks v.ask_side.sorted,
)
