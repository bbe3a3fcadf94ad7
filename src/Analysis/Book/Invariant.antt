-- ===== src/Analysis/Book/Invariant.antt =====
-- The invariant of the sides of a book, and what the operations do to it.
use test_exchanges_helper.Base.{
  ℕ, ◌≤◌, ◌≡◌, refl, sym, inl, inr, Bool, true, false, not, ◌&&◌, ◌||◌, [], ◌∷◌, Option, none, some,
  Bytes, leb, ltb, is_empty, length, All, if◌then◌else◌, arith, Bool-cases,
}
use test_exchanges_helper.Json.{
  Value, Items, nil, cons, array, null, boolean, int64, uint64, double, string, object,
}
use test_exchanges_helper.OrderedMap.{
  StrictWeakOrder, Sorted, find, same_key, contains, assign, erase,
}
use test_exchanges_helper.OrderedMap.Laws.{
  assign-Sorted, erase-Sorted, length-assign, length-erase-le, find-assign, find-erase,
}
use test_exchanges_helper.Analysis.Order.{decimal_less}
use test_exchanges_helper.Analysis.Order.DecimalLaws.{decimal_less_asymm, decimal_less_compare}
use test_exchanges_helper.Analysis.Book.{
  Side, BookState, is_zero_decimal, level_texts, apply_texts, apply_level, apply_all, apply_value,
  apply_levels, maximum_book_levels_per_side, maximum_book_scalar_bytes,
}

-- The comparison of the sides is a strict weak order on all texts, malformed prices included.
pub decimal_order : StrictWeakOrder decimal_less
decimal_order = record { asymm = decimal_less_asymm; compare = decimal_less_compare }

pub record IsEntry (e : Bytes × Bytes) : Type 0 where
  pub price_ne : is_empty e.0 ≡ false
  pub price_le : length e.0 ≤ maximum_book_scalar_bytes
  pub quantity_ne : is_empty e.1 ≡ false
  pub quantity_le : length e.1 ≤ maximum_book_scalar_bytes
  pub nonzero : is_zero_decimal e.1 ≡ false

pub record IsSide (side : Side) : Type 0 where
  pub sorted : Sorted decimal_less side
  pub bounded : length side ≤ maximum_book_levels_per_side
  pub entries : All IsEntry side

assign-All :
    (price quantity : Bytes) (side : Side)
    → IsEntry (price, quantity)
    → All IsEntry side
    → All IsEntry (assign decimal_less price quantity side)
unfolding assign
assign-All price quantity [] e h = (e, tt)
assign-All price quantity ((p, q) ∷ side) e h = elim (Bool-cases (decimal_less price p)) [
  | inl below ↦ rw below (e, h)
  | inr above ↦ rw above (elim (Bool-cases (decimal_less p price)) [
    | inl beyond ↦ rw beyond (h.0, assign-All price quantity side e h.1)
    | inr same ↦ rw same (
      record {
        price_ne = h.0.price_ne;
        price_le = h.0.price_le;
        quantity_ne = e.quantity_ne;
        quantity_le = e.quantity_le;
        nonzero = e.nonzero;
      },
      h.1,
    )
  ])
]

erase-All :
    (price : Bytes) (side : Side) → All IsEntry side → All IsEntry (erase decimal_less price side)
unfolding erase
erase-All price [] h = tt
erase-All price ((p, q) ∷ side) h = elim (Bool-cases (same_key decimal_less price p)) [
  | inl same ↦ rw same h.1
  | inr other ↦ rw other (h.0, erase-All price side h.1)
]

assign-bounded :
    (price quantity : Bytes) (side : Side)
    → IsSide side
    → (not (contains decimal_less price side) && leb maximum_book_levels_per_side (length side))
      ≡ false
    → length (assign decimal_less price quantity side) ≤ maximum_book_levels_per_side
assign-bounded price quantity side v h =
    ground (arith, v.bounded, length-assign decimal_less decimal_order price quantity side v.sorted)

erase-IsSide : (price : Bytes) (side : Side) → IsSide side → IsSide (erase decimal_less price side)
erase-IsSide price side v = record {
  sorted = erase-Sorted decimal_less decimal_order price side v.sorted;
  bounded = omega (arith, v.bounded, length-erase-le decimal_less decimal_order price side);
  entries = erase-All price side v.entries;
}

assign-IsSide :
    (price quantity : Bytes) (side : Side)
    → IsSide side
    → IsEntry (price, quantity)
    → (not (contains decimal_less price side) && leb maximum_book_levels_per_side (length side))
      ≡ false
    → IsSide (assign decimal_less price quantity side)
assign-IsSide price quantity side v e h = record {
  sorted = assign-Sorted decimal_less decimal_order price quantity side v.sorted;
  bounded = assign-bounded price quantity side v h;
  entries = assign-All price quantity side e v.entries;
}

-- What the guards of `apply_texts` leave: an entry.
guarded-IsEntry :
    (price quantity : Bytes)
    → (is_empty price || is_empty quantity) ≡ false
    → (ltb maximum_book_scalar_bytes (length price)
        || ltb maximum_book_scalar_bytes (length quantity))
      ≡ false
    → is_zero_decimal quantity ≡ false
    → IsEntry (price, quantity)
guarded-IsEntry price quantity h k l = ground arith

apply_texts-IsSide :
    (side : Side) (exceeded : Bool) (price quantity : Bytes)
    → IsSide side
    → IsSide (apply_texts side exceeded price quantity).0
unfolding apply_texts
apply_texts-IsSide side exceeded price quantity v =
    elim (Bool-cases (is_empty price || is_empty quantity)) [
      | inl empty ↦ rw empty v
      | inr filled ↦
          rw filled
            (elim (Bool-cases (
              ltb maximum_book_scalar_bytes (length price)
              || ltb maximum_book_scalar_bytes (length quantity))) [
                | inl long ↦ rw long v
                | inr short ↦ rw short (elim (Bool-cases (is_zero_decimal quantity)) [
                  | inl zero ↦ rw zero (erase-IsSide price side v)
                  | inr nonzero ↦
                      rw nonzero
                        (elim (Bool-cases (
                          not (contains decimal_less price side)
                          && leb maximum_book_levels_per_side (length side))) [
                            | inl full ↦ rw full v
                            | inr room ↦ rw room (
                                assign-IsSide price quantity side v
                                  (guarded-IsEntry price quantity filled short nonzero) room)
                          ])
                ])
              ])
    ]

apply_level-IsSide :
    (serialize : ℕ → Bytes) (s : Side × Bool) (level : Value)
    → IsSide s.0
    → IsSide (apply_level serialize s level).0
unfolding apply_level
apply_level-IsSide serialize (side, exceeded) level v = go (level_texts serialize level)
  where
    go :
        (texts : Option (Bytes × Bytes))
        → IsSide
            (elim texts as (λ x. Side × Bool) [
              | none ↦ (side, exceeded)
              | some (price, quantity) ↦ apply_texts side exceeded price quantity
            ]).0
    go none = v
    go (some (price, quantity)) = apply_texts-IsSide side exceeded price quantity v

apply_all-IsSide :
    (serialize : ℕ → Bytes) (s : Side × Bool) (levels : Items)
    → IsSide s.0
    → IsSide (apply_all serialize s levels).0
unfolding apply_all
apply_all-IsSide serialize s nil v = v
apply_all-IsSide serialize s (cons level levels) v =
    apply_all-IsSide serialize (apply_level serialize s level) levels
      (apply_level-IsSide serialize s level v)

apply_value-IsSide :
    (serialize : ℕ → Bytes) (s : Side × Bool) (value : Option Value)
    → IsSide s.0
    → IsSide (apply_value serialize s value).0
unfolding apply_value
apply_value-IsSide serialize s none v = v
apply_value-IsSide serialize s (some (array levels)) v = apply_all-IsSide serialize s levels v
apply_value-IsSide serialize s (some null) v = v
apply_value-IsSide serialize s (some (boolean b)) v = v
apply_value-IsSide serialize s (some (int64 n)) v = v
apply_value-IsSide serialize s (some (uint64 n)) v = v
apply_value-IsSide serialize s (some (double d)) v = v
apply_value-IsSide serialize s (some (string t)) v = v
apply_value-IsSide serialize s (some (object fs)) v = v

pub record IsBook (state : BookState) : Type 0 where
  pub bid_side : IsSide state.bids
  pub ask_side : IsSide state.asks

-- Whatever a message holds, each side stays sorted by `DecimalLess` with no two prices equivalent
-- under it, within 100,000 levels, and with no empty text, no text of more than 256 bytes and no
-- quantity of '0' and '.' alone.
pub apply_levels-IsBook :
    (serialize : ℕ → Bytes) (state : BookState) (value : Option Value) (bids : Bool)
    → IsBook state
    → IsBook (apply_levels serialize state value bids)
unfolding apply_levels
apply_levels-IsBook serialize state value true v = record {
  bid_side = apply_value-IsSide serialize (state.bids, state.capacity_exceeded) value v.bid_side;
  ask_side = v.ask_side;
}
apply_levels-IsBook serialize state value false v = record {
  bid_side = v.bid_side;
  ask_side = apply_value-IsSide serialize (state.asks, state.capacity_exceeded) value v.ask_side;
}

-- A level that is left out for the sake of the capacity: a text of more than 256 bytes, or a new
-- price with a quantity on a side that is full.
unfoldable pub exceeds_capacity : Side → Bytes → Bytes → Bool
exceeds_capacity side price quantity =
    not (is_empty price || is_empty quantity)
    && ((ltb maximum_book_scalar_bytes (length price)
          || ltb maximum_book_scalar_bytes (length quantity))
        || (not (is_zero_decimal quantity)
            && (not (contains decimal_less price side)
                && leb maximum_book_levels_per_side (length side))))

-- On a side of a book, a level changes what is held at its own price only: that entry is gone where
-- the quantity is a zero text, and has the new quantity otherwise. A level with an empty text
-- changes nothing, and one that exceeds the capacity nothing but the flag, which it sets.
pub find-apply_texts :
    (side : Side) (exceeded : Bool) (price quantity other : Bytes)
    → IsSide side
    → (find decimal_less other (apply_texts side exceeded price quantity).0 ≡ (
        if (is_empty price || is_empty quantity) || exceeds_capacity side price quantity
        then find decimal_less other side
        else if same_key decimal_less other price
        then (if is_zero_decimal quantity then none else some quantity)
        else find decimal_less other side))
      × ((apply_texts side exceeded price quantity).1
          ≡ exceeded || exceeds_capacity side price quantity)
unfolding apply_texts exceeds_capacity
find-apply_texts side exceeded price quantity other v =
    elim (Bool-cases (is_empty price || is_empty quantity)) [
      | inl empty ↦ rw empty (refl, sym (or_false exceeded))
      | inr filled ↦
          rw filled
            (elim (Bool-cases (
              ltb maximum_book_scalar_bytes (length price)
              || ltb maximum_book_scalar_bytes (length quantity))) [
                | inl long ↦ rw long (refl, sym (or_true exceeded))
                | inr short ↦ rw short (elim (Bool-cases (is_zero_decimal quantity)) [
                  | inl zero ↦ rw zero (
                    find-erase decimal_less decimal_order other price side v.sorted,
                    sym (or_false exceeded),
                  )
                  | inr nonzero ↦
                      rw nonzero
                        (elim (Bool-cases (
                          not (contains decimal_less price side)
                          && leb maximum_book_levels_per_side (length side))) [
                            | inl full ↦ rw full (refl, sym (or_true exceeded))
                            | inr room ↦ rw room (
                              find-assign decimal_less decimal_order other price quantity side,
                              sym (or_false exceeded),
                            )
                          ])
                ])
              ])
    ]
  where
    or_false : (b : Bool) → (b || false) ≡ b
    or_false true = refl
    or_false false = refl

    or_true : (b : Bool) → (b || true) ≡ true
    or_true true = refl
    or_true false = refl
