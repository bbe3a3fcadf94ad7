-- ===== src/Analysis/Scalars/Time.antt =====
-- About timestamps in nanoseconds and numbers as text.
use test_exchanges_helper.Base.{
  ℕ, ◌*◌, ◌^◌, ◌<◌, ◌≡◌, ◌⊎◌, Option, none, some, Bytes, ltb, if◌then◌else◌, arith, codes, bytes_eq,
  Option-cases, inl, inr, refl,
}
use test_exchanges_helper.Base.Decimal.{from_chars-to_string}
use test_exchanges_helper.Json.{Value, string, uint64}
use test_exchanges_helper.Analysis.Scalars.{
  scalar_text, scalar_u64, unit_multiplier, scaled, timestamp_ns, u64_max,
}

abbrev IsUnit : ℕ → Type 0
IsUnit m = (m ≡ 1) ⊎ ((m ≡ 1000) ⊎ ((m ≡ 1000000) ⊎ (m ≡ 1000000000)))

unit_multiplier-IsUnit : (unit : Bytes) {m : ℕ} → unit_multiplier unit ≡ some m → IsUnit m
unfolding unit_multiplier
unit_multiplier-IsUnit unit h = ground arith

scaled_exact :
    (raw m : ℕ) → IsUnit m → scaled raw m ≡ (if ltb u64_max (raw * m) then none else some (raw * m))
unfolding scaled
scaled_exact raw m h = ground arith

-- A number of nanoseconds, where 64 bits hold it.
unfoldable pub in_64_bits : ℕ → Option ℕ
in_64_bits n = if ltb u64_max n then none else some n

-- What a number of units of so many nanoseconds is.
unfoldable pub nanoseconds : ℕ → Option ℕ → Option ℕ
nanoseconds m none = none
nanoseconds m (some raw) = in_64_bits (raw * m)

timestamp_in :
    (value : Option Value) (unit : Bytes) (m : ℕ)
    → unit_multiplier unit ≡ some m
    → timestamp_ns value unit ≡ nanoseconds m (scalar_u64 value)
unfolding timestamp_ns nanoseconds in_64_bits
timestamp_in value unit m h = elim (Option-cases (scalar_u64 value)) [
  | inl missing ↦ rw missing refl
  | inr (raw, e) ↦ rw (e, h) (scaled_exact raw m (unit_multiplier-IsUnit unit h))
]

-- A timestamp in nano-, micro-, milliseconds or seconds is the exact number of nanoseconds; it is
-- missing exactly where its number is missing or the nanoseconds are beyond 64 bits.
pub timestamp_ns_exact :
    (value : Option Value)
    → (timestamp_ns value (codes "ns") ≡ nanoseconds 1 (scalar_u64 value))
      × (timestamp_ns value (codes "us") ≡ nanoseconds 1000 (scalar_u64 value))
      × (timestamp_ns value (codes "ms") ≡ nanoseconds 1000000 (scalar_u64 value))
      × (timestamp_ns value (codes "s") ≡ nanoseconds 1000000000 (scalar_u64 value))
timestamp_ns_exact value = (
  timestamp_in value (codes "ns") 1 (unfold unit_multiplier bytes_eq in refl),
  timestamp_in value (codes "us") 1000 (unfold unit_multiplier bytes_eq in refl),
  timestamp_in value (codes "ms") 1000000 (unfold unit_multiplier bytes_eq in refl),
  timestamp_in value (codes "s") 1000000000 (unfold unit_multiplier bytes_eq in refl),
)

-- A 64-bit number that was written as text reads back.
pub scalar_u64-scalar_text :
    (serialize : ℕ → Bytes) (n : ℕ)
    → n < 2 ^ 64
    → scalar_u64 (some (string (scalar_text serialize (some (uint64 n))))) ≡ some n
unfolding scalar_u64 scalar_text
scalar_u64-scalar_text serialize n h = rw (from_chars-to_string n h)
