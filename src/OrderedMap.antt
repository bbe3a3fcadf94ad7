-- ===== src/OrderedMap.antt =====
-- `std::map` with a comparison of its own, as an association list in the order of its keys. Two
-- keys are the same key when neither is below the other; an assignment keeps the stored key.
pub mod Laws
use test_exchanges_helper.Base.{
  ℕ, ◌≡◌, ◌⊎◌, Bool, true, false, not, ◌&&◌, List, [], ◌∷◌, Option, none, some, if◌then◌else◌, All,
}

-- What `std::map` asks of its comparison: a strict weak order.
pub record StrictWeakOrder {ℓ} {K : Type ℓ} (less : K → K → Bool) : Type ℓ where
  pub asymm : (a b : K) → less a b ≡ true → less b a ≡ false
  pub compare : (a b c : K) → less a c ≡ true → (less a b ≡ true) ⊎ (less b c ≡ true)

-- Neither key is below the other.
abbrev pub same_key {ℓ} : {K : Type ℓ} → (K → K → Bool) → K → K → Bool
same_key less a b = not (less a b) && not (less b a)

module _ {ℓ κ} {K : Type ℓ} {V : Type κ} (less : K → K → Bool) where
  -- `map.find(key)`
  unfoldable pub find : K → List (K × V) → Option V
  find k [] = none
  find k ((j, w) ∷ m) = if same_key less k j then some w else find k m

  -- `map.contains(key)`
  unfoldable pub contains : K → List (K × V) → Bool
  contains k [] = false
  contains k ((j, w) ∷ m) = if same_key less k j then true else contains k m

  -- `map[key] = value`
  unfoldable pub assign : K → V → List (K × V) → List (K × V)
  assign k v [] = (k, v) ∷ []
  assign k v ((j, w) ∷ m) =
      if less k j
      then (k, v) ∷ (j, w) ∷ m
      else if less j k
      then (j, w) ∷ assign k v m
      else (j, v) ∷ m

  -- `map.erase(key)`
  unfoldable pub erase : K → List (K × V) → List (K × V)
  erase k [] = []
  erase k ((j, w) ∷ m) = if same_key less k j then m else (j, w) ∷ erase k m

  -- `map.rbegin()->first` of a map that is not empty
  unfoldable pub last_key : K → List (K × V) → K
  last_key k [] = k
  last_key k ((j, w) ∷ m) = last_key j m

  -- Every key stands above `k`.
  abbrev pub Above : K → List (K × V) → Type 0
  Above k [] = Unit
  Above k ((j, w) ∷ m) = (less k j ≡ true) × Above k m

  abbrev pub Sorted : List (K × V) → Type 0
  Sorted [] = Unit
  Sorted ((j, w) ∷ m) = Above j m × Sorted m
