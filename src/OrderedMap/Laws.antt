-- ===== src/OrderedMap/Laws.antt =====
-- The laws of the ordered map, for any strict weak order.
use test_exchanges_helper.Base.{
  suc, ◌≤◌, ◌≡◌, refl, Bool, true, false, List, [], ◌∷◌, none, some, length, if◌then◌else◌, arith,
}
use test_exchanges_helper.OrderedMap.{
  StrictWeakOrder, same_key, find, contains, assign, erase, last_key, Above, Sorted,
}

module _ {ℓ} {K : Type ℓ} (less : K → K → Bool) (swo : StrictWeakOrder less) where
  pub less_irrefl : (a : K) → less a a ≡ false
  less_irrefl a = ground (arith, swo.asymm a a)

  pub less_trans : (a b c : K) → less a b ≡ true → less b c ≡ true → less a c ≡ true
  less_trans a b c h k = ground (arith, swo.compare a c b, swo.asymm b c)

  -- Being the same key is transitive.
  pub same_key_trans :
      (a b c : K) → same_key less a b ≡ true → same_key less b c ≡ true → same_key less a c ≡ true
  same_key_trans a b c h k = ground (arith, swo.compare a b c, swo.compare c b a)

  pub same_key_symm : (a b : K) → same_key less a b ≡ same_key less b a
  same_key_symm a b = ground arith

module _ {ℓ κ} {K : Type ℓ} {V : Type κ} (less : K → K → Bool) (swo : StrictWeakOrder less) where
  Above-mono : (a b : K) (m : List (K × V)) → less a b ≡ true → Above less b m → Above less a m
  Above-mono a b [] h t = tt
  Above-mono a b ((j, w) ∷ m) h t = (less_trans less swo a b j h t.0, Above-mono a b m h t.1)

  assign-Above :
      (i k : K) (v : V) (m : List (K × V))
      → less i k ≡ true
      → Above less i m
      → Above less i (assign less k v m)
  unfolding assign
  assign-Above i k v [] h t = (h, tt)
  assign-Above i k v ((j, w) ∷ m) h t = ground (arith, assign-Above i k v m h t.1)

  pub assign-Sorted :
      (k : K) (v : V) (m : List (K × V)) → Sorted less m → Sorted less (assign less k v m)
  unfolding assign
  assign-Sorted k v [] s = (tt, tt)
  assign-Sorted k v ((j, w) ∷ m) s =
      ground (arith, assign-Sorted k v m s.1, assign-Above j k v m, Above-mono k j m)

  erase-Above : (i k : K) (m : List (K × V)) → Above less i m → Above less i (erase less k m)
  unfolding erase
  erase-Above i k [] t = tt
  erase-Above i k ((j, w) ∷ m) t = ground (arith, erase-Above i k m t.1)

  pub erase-Sorted : (k : K) (m : List (K × V)) → Sorted less m → Sorted less (erase less k m)
  unfolding erase
  erase-Sorted k [] s = tt
  erase-Sorted k ((j, w) ∷ m) s = ground (arith, erase-Sorted k m s.1, erase-Above j k m s.0)

  -- A key below all others is not there.
  find-Above : (k : K) (m : List (K × V)) → Above less k m → find less k m ≡ none
  unfolding find
  find-Above k [] t = refl
  find-Above k ((j, w) ∷ m) t = ground (arith, find-Above k m t.1)

  pub contains-Above : (k : K) (m : List (K × V)) → Above less k m → contains less k m ≡ false
  unfolding contains
  contains-Above k [] t = refl
  contains-Above k ((j, w) ∷ m) t = ground (arith, contains-Above k m t.1)

  -- What an assignment leaves to find.
  pub find-assign :
      (i k : K) (v : V) (m : List (K × V))
      → find less i (assign less k v m) ≡ (if same_key less i k then some v else find less i m)
  unfolding find assign
  find-assign i k v [] = refl
  find-assign i k v ((j, w) ∷ m) = ground (
    arith,
    find-assign i k v m,
    same_key_trans less swo i j k,
    same_key_trans less swo i k j,
    same_key_trans less swo j i k,
  )

  find_other :
      (i j : K) (m : List (K × V))
      → same_key less i j ≡ true
      → Above less j m
      → find less i m ≡ none
  unfolding find
  find_other i j [] e t = refl
  find_other i j ((l, w) ∷ m) e t =
      ground (arith, find_other i j m e t.1, same_key_trans less swo j i l)

  -- What an erasure leaves to find.
  pub find-erase :
      (i k : K) (m : List (K × V))
      → Sorted less m
      → find less i (erase less k m) ≡ (if same_key less i k then none else find less i m)
  unfolding find erase
  find-erase i k [] s = ground arith
  find-erase i k ((j, w) ∷ m) s = ground (
    arith,
    find-erase i k m s.1,
    same_key_trans less swo i j k,
    same_key_trans less swo i k j,
    same_key_trans less swo j i k,
    find_other i j m,
  )

  pub length-assign :
      (k : K) (v : V) (m : List (K × V))
      → Sorted less m
      → length (assign less k v m) ≡ (if contains less k m then length m else suc (length m))
  unfolding assign contains
  length-assign k v [] s = refl
  length-assign k v ((j, w) ∷ m) s = ground (
    arith,
    length-assign k v m s.1,
    swo.asymm k j,
    swo.asymm j k,
    contains-Above k m,
    Above-mono k j m,
  )

  pub length-erase-le : (k : K) (m : List (K × V)) → length (erase less k m) ≤ length m
  unfolding erase
  length-erase-le k [] = omega arith
  length-erase-le k ((j, w) ∷ m) = ground (arith, length-erase-le k m)

  -- The last key has none above it.
  pub last_key-Above :
      (k : K) (m : List (K × V))
      → Above less k m
      → Sorted less m
      → less (last_key less k m) k ≡ false
  unfolding last_key
  last_key-Above k [] t s = less_irrefl less swo k
  last_key-Above k ((j, w) ∷ m) t s =
      ground (arith, last_key-Above j m s.0 s.1, swo.compare (last_key less j m) j k, swo.asymm k j)
