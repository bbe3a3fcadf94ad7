-- ===== src/Json.antt =====
-- `boost::json::value`: the kinds that the program tells apart, and the accessors that it calls.
-- A double is kept as its 64-bit pattern: the program tests it for a kind, for finiteness, and
-- hands it to the serializer, which is a parameter wherever it is used.
use test_exchanges_helper.Base.{
  ℕ, suc, ◌<◌, ◌≡◌, refl, Bool, true, false, Option, none, some, Bytes, bytes_eq, if◌then◌else◌,
  arith,
}
use test_exchanges_helper.Base.Int.{ℤ}

mutual
  pub data Value : Type 0 where
    null : Value
    boolean : Bool → Value
    int64 : ℤ → Value
    uint64 : ℕ → Value
    double : ℕ → Value
    string : Bytes → Value
    array : Items → Value
    object : Fields → Value

  pub data Items : Type 0 where
    nil : Items
    cons : Value → Items → Items

  pub data Fields : Type 0 where
    end : Fields
    field : Bytes → Value → Fields → Fields

-- `value.is_object()`, `value.is_array()`
abbrev pub is_object : Value → Bool
is_object (object fs) = true
is_object _ = false

abbrev pub is_array : Value → Bool
is_array (array xs) = true
is_array _ = false

abbrev pub is_string : Value → Bool
is_string (string s) = true
is_string _ = false

-- `object.if_contains(key)`; the keys of an object are distinct.
unfoldable pub if_contains : Bytes → Fields → Option Value
if_contains key end = none
if_contains key (field k v fs) = if bytes_eq k key then some v else if_contains key fs

-- `array.size()` and `array[index]`
unfoldable pub size : Items → ℕ
size nil = 0
size (cons v xs) = suc (size xs)

unfoldable pub at : Items → ℕ → Option Value
at nil i = none
at (cons v xs) i = elim i [ ℕ.zero ↦ some v | suc j ↦ at xs j ]

pub at-size : (xs : Items) (i : ℕ) → i < size xs → (v : Value) × (at xs i ≡ some v)
unfolding at size
at-size nil i h = ground arith
at-size (cons v xs) ℕ.zero h = (v, refl)
at-size (cons v xs) (suc j) h = at-size xs j (omega arith)
