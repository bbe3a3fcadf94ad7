-- ===== src/Bundle/Pairing/Keys.antt =====
-- src/Research/Analysis/Relations.cpp: the order of the keys of the identities.
use test_exchanges_helper.Base.{
  ◌≡◌, ◌⊎◌, Bool, true, false, ltb, bytes_lt, bytes_lt_asymm, bytes_lt_compare, arith,
}
use test_exchanges_helper.Bundle.Pairing.{lex, paired_less}
use test_exchanges_helper.OrderedMap.{StrictWeakOrder}

module _ {ℓ κ} {A : Type ℓ} {B : Type κ} (less : A → A → Bool) (less' : B → B → Bool)
    (order : StrictWeakOrder less) (order' : StrictWeakOrder less') where
  lex_asymm : (p q : A × B) → lex less less' p q ≡ true → lex less less' q p ≡ false
  unfolding lex
  lex_asymm (a, b) (c, d) h = grind (arith, order.asymm a c, order'.asymm b d)

  lex_compare :
      (p q r : A × B)
      → lex less less' p r ≡ true
      → (lex less less' p q ≡ true) ⊎ (lex less less' q r ≡ true)
  unfolding lex
  lex_compare (a, b) (e, f) (c, d) h = grind (
    arith,
    order.asymm a c,
    order.asymm a e,
    order.asymm e c,
    order.compare a e c,
    order.compare e a c,
    order.compare c a e,
    order.compare a c e,
    order.compare c e a,
    order.compare e c a,
    order'.compare b f d,
  )

  lex-StrictWeakOrder : StrictWeakOrder (lex less less')
  lex-StrictWeakOrder = record { asymm = lex_asymm; compare = lex_compare }

ltb-StrictWeakOrder : StrictWeakOrder ltb
ltb-StrictWeakOrder = record { asymm = λ a b h. ground arith; compare = λ a b c h. ground arith }

bytes_lt-StrictWeakOrder : StrictWeakOrder bytes_lt
bytes_lt-StrictWeakOrder = record { asymm = bytes_lt_asymm; compare = bytes_lt_compare }

pub paired_less-StrictWeakOrder : StrictWeakOrder paired_less
unfolding paired_less
paired_less-StrictWeakOrder =
    lex-StrictWeakOrder ltb (lex bytes_lt bytes_lt) ltb-StrictWeakOrder
      (lex-StrictWeakOrder bytes_lt bytes_lt bytes_lt-StrictWeakOrder bytes_lt-StrictWeakOrder)
