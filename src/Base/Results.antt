-- ===== src/Base/Results.antt =====
-- What a step of fallible code that has succeeded says of its parts.
use Prim.Native.String.{String}
use mathlib.Core.Path.{◌≡◌, refl}
use mathlib.Core.Bool.{Bool, true, false}
use test_exchanges_helper.Base.Tests.{Result, ok, err, ◌>>=◌, if◌then◌else◌}

pub err_not_ok {ℓ} : {A : Type ℓ} {m : String} {a : A} → err m ≡ ok a → ⊥
err_not_ok e = cc

pub ok_injective {ℓ} : {A : Type ℓ} {a b : A} → ok a ≡ ok b → a ≡ b
ok_injective e = cc

-- A step that is followed by another has succeeded where the whole has.
module _ {ℓ} {A B : Type ℓ} (next : A → Result B) where
  pub bind_ok :
      (first : Result A) {last : B}
      → (first >>= next) ≡ ok last
      → (middle : A) × (next middle ≡ ok last) × (first ≡ ok middle)
  bind_ok (ok middle) e = (middle, e, refl)
  bind_ok (err message) e = absurd (err_not_ok e)

pub if_ok {ℓ} :
    {A : Type ℓ} (b : Bool) (m : String) (r : Result A) {a : A}
    → (if b then err m else r) ≡ ok a
    → (b ≡ false) × (r ≡ ok a)
if_ok true m r e = absurd (err_not_ok e)
if_ok false m r e = (refl, e)
