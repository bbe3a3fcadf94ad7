-- ===== src/Base/Text.antt =====
-- `std::string` and `std::string_view` as lists of bytes. Fixed messages, which the program
-- writes and never takes apart, are native texts.
use Prim.Native.Char.{code}
use Prim.Native.Nat.{ℕ}
use Prim.Native.String.{String}
use mathlib.Core.Path.{◌≡◌, refl}
use mathlib.Core.Logic.{◌↔◌, ◌⊎◌, inl, inr}
use mathlib.Core.Bool.{Bool, true, false, ◌&&◌, ◌||◌}
use mathlib.Core.List.{List, [], ◌∷◌}
use native.Mathlib.Omega.{arith}
use test_exchanges_helper.Base.Tests.{ltb, leb, ◌==◌, if◌then◌else◌}

abbrev pub Bytes : Type 0
Bytes = List ℕ

-- The code points of a text: its bytes, since every literal of the program is ASCII.
abbrev pub codes : String → Bytes
codes String.[] = []
codes (String.◌∷◌ c s) = code c ∷ codes s

-- `lhs == rhs`
unfoldable pub bytes_eq : Bytes → Bytes → Bool
bytes_eq [] [] = true
bytes_eq (x ∷ xs) (y ∷ ys) = x == y && bytes_eq xs ys
bytes_eq _ _ = false

-- `lhs < rhs`: `std::char_traits<char>::lt` compares as unsigned char.
unfoldable pub bytes_lt : Bytes → Bytes → Bool
bytes_lt [] [] = false
bytes_lt [] (y ∷ ys) = true
bytes_lt (x ∷ xs) [] = false
bytes_lt (x ∷ xs) (y ∷ ys) = if ltb x y then true else (x == y) && bytes_lt xs ys

abbrev pub is_digit : ℕ → Bool
is_digit c = leb b'0' c && leb c b'9'

abbrev pub is_alpha : ℕ → Bool
is_alpha c = (leb b'a' c && leb c b'z') || (leb b'A' c && leb c b'Z')

pub bytes_eq_iff : (a b : Bytes) → (bytes_eq a b ≡ true) ↔ (a ≡ b)
unfolding bytes_eq
bytes_eq_iff [] [] = ground arith
bytes_eq_iff (x ∷ a) (y ∷ b) = ground (arith, bytes_eq_iff a b)
bytes_eq_iff _ _ = ground arith

pub bytes_eq_refl : (a : Bytes) → bytes_eq a a ≡ true
bytes_eq_refl a = (bytes_eq_iff a a).1 refl

pub bytes_lt_asymm : (a b : Bytes) → bytes_lt a b ≡ true → bytes_lt b a ≡ false
unfolding bytes_lt
bytes_lt_asymm [] [] h = cc
bytes_lt_asymm (x ∷ a) (y ∷ b) h = ground (arith, bytes_lt_asymm a b)
bytes_lt_asymm _ _ h = ground arith

-- Of three texts, the second stands on one side or the other of each pair that is ordered.
pub bytes_lt_compare :
    (a b c : Bytes) → bytes_lt a c ≡ true → (bytes_lt a b ≡ true) ⊎ (bytes_lt b c ≡ true)
unfolding bytes_lt
bytes_lt_compare [] [] c h = inr h
bytes_lt_compare [] (y ∷ b) c h = inl refl
bytes_lt_compare (x ∷ a) b [] h = cc
bytes_lt_compare (x ∷ a) [] (z ∷ c) h = inr refl
bytes_lt_compare (x ∷ a) (y ∷ b) (z ∷ c) h = ground (arith, bytes_lt_compare a b c)

pub bytes_lt_connex : (a b : Bytes) → bytes_lt a b ≡ false → bytes_lt b a ≡ false → a ≡ b
unfolding bytes_lt
bytes_lt_connex [] [] h k = refl
bytes_lt_connex (x ∷ a) (y ∷ b) h k = ground (arith, bytes_lt_connex a b)
bytes_lt_connex _ _ h k = ground arith
