-- ===== src/Contracts/Wire/Varint.antt =====
-- src/Contracts.cpp, read_varint: the encoding of a number.
use native.Mathlib.Nat.{pow-suc, mul_comm, mul_assoc, add-mul}
use test_exchanges_helper.Base.{
  ℕ, zero, suc, ◌+◌, ◌*◌, ◌/◌, ◌%◌, ◌^◌, ◌<◌, ◌≡◌, refl, sym, ◌∙◌, ap, true, false, [], ◌∷◌, ◌++◌,
  some, Bytes, ltb, lt→ltb, ltb→lt, if◌then◌else◌, inl, inr, Bool-cases, arith,
}
use test_exchanges_helper.Contracts.Wire.{varint_from, read_varint}

-- Seven bits in a byte, the lowest first; every byte but the last has its highest bit.
unfoldable pub encode_varint : ℕ → ℕ → Bytes
encode_varint zero n = []
encode_varint (suc rounds) n =
    let later = encode_varint rounds (n / 128) in
    if ltb n 128 then n ∷ [] else (n % 128 + 128) ∷ later

-- The lowest seven bits of a number, and the others, above the bits that `p` stands for.
seven_bits : (n p : ℕ) → n % 128 * p + n / 128 * (p * 128) ≡ n * p
seven_bits n p =
    ap (λ m. n % 128 * p + m)
      (ap (λ m. n / 128 * m) (mul_comm p 128) ∙ sym (mul_assoc (n / 128) 128 p))
    ∙ sym (add-mul (n % 128) (n / 128 * 128) p)
    ∙ ap (λ m. m * p) (omega arith)

pow_seven : (s : ℕ) → 2 ^ (s + 7) ≡ 2 ^ s * 128
pow_seven s =
    let seven : s + 7 ≡ suc (suc (suc (suc (suc (suc (suc s)))))) = omega arith in
    ap (λ m. 2 ^ m) seven
    ∙ omega (
      arith,
      pow-suc 2 s,
      pow-suc 2 (suc s),
      pow-suc 2 (suc (suc s)),
      pow-suc 2 (suc (suc (suc s))),
      pow-suc 2 (suc (suc (suc (suc s)))),
      pow-suc 2 (suc (suc (suc (suc (suc s))))),
      pow-suc 2 (suc (suc (suc (suc (suc (suc s)))))),
    )

mod_small : (n : ℕ) → n < 2 ^ 64 → n % 2 ^ 64 ≡ n
mod_small n h = omega arith

varint_last :
    (rounds shift value byte : ℕ) (t : Bytes)
    → ltb byte 128 ≡ true
    → varint_from (suc rounds) shift value (byte ∷ t)
      ≡ some ((value + byte % 128 * 2 ^ shift) % 2 ^ 64, t)
unfolding varint_from
varint_last rounds shift value byte t h = rw h refl

varint_more :
    (rounds shift value byte : ℕ) (t : Bytes)
    → ltb byte 128 ≡ false
    → varint_from (suc rounds) shift value (byte ∷ t)
      ≡ varint_from rounds (shift + 7) ((value + byte % 128 * 2 ^ shift) % 2 ^ 64) t
unfolding varint_from
varint_more rounds shift value byte t h = rw h refl

encode_last : (rounds n : ℕ) → ltb n 128 ≡ true → encode_varint (suc rounds) n ≡ n ∷ []
unfolding encode_varint
encode_last rounds n h = rw h refl

encode_more :
    (rounds n : ℕ)
    → ltb n 128 ≡ false
    → encode_varint (suc rounds) n ≡ (n % 128 + 128) ∷ encode_varint rounds (n / 128)
unfolding encode_varint
encode_more rounds n h = rw h refl

varint_end :
    (rounds shift value n : ℕ) (t : Bytes)
    → ltb n 128 ≡ true
    → value + n * 2 ^ shift < 2 ^ 64
    → varint_from (suc rounds) shift value (encode_varint (suc rounds) n ++ t)
      ≡ some (value + n * 2 ^ shift, t)
varint_end rounds shift value n t h fits =
    let small = ltb→lt n 128 h in
    ap (λ b. varint_from (suc rounds) shift value (b ++ t)) (encode_last rounds n h)
    ∙ varint_last rounds shift value n t h
    ∙ ap (λ m. some ((value + m * 2 ^ shift) % 2 ^ 64, t)) (omega arith)
    ∙ ap (λ m. some (m, t)) (mod_small (value + n * 2 ^ shift) fits)

varint_round :
    (rounds shift value n : ℕ) (t : Bytes)
    → n < 128 ^ suc rounds
    → value + n * 2 ^ shift < 2 ^ 64
    → varint_from (suc rounds) shift value (encode_varint (suc rounds) n ++ t)
      ≡ some (value + n * 2 ^ shift, t)
varint_round zero shift value n t small fits =
    varint_end zero shift value n t (lt→ltb n 128 (omega arith)) fits
varint_round (suc rounds) shift value n t small fits = elim (Bool-cases (ltb n 128)) [
  | inl h ↦ varint_end (suc rounds) shift value n t h fits
  | inr h ↦
      let bits = seven_bits n (2 ^ shift) in
      let power = ap (λ m. n / 128 * m) (pow_seven shift) in
      let whole : value + n % 128 * 2 ^ shift + n / 128 * 2 ^ (shift + 7) ≡ value + n * 2 ^ shift =
        omega (arith, bits, power) in
      let later = encode_varint (suc rounds) (n / 128) ++ t in
      ap (λ b. varint_from (suc (suc rounds)) shift value (b ++ t)) (encode_more (suc rounds) n h)
      ∙ varint_more (suc rounds) shift value (n % 128 + 128) later (ground arith)
      ∙ ap (λ m. varint_from (suc rounds) (shift + 7) ((value + m * 2 ^ shift) % 2 ^ 64) later)
          (omega arith)
      ∙ ap (λ m. varint_from (suc rounds) (shift + 7) m later)
          (mod_small (value + n % 128 * 2 ^ shift) (omega (arith, bits)))
      ∙ varint_round rounds (shift + 7) (value + n % 128 * 2 ^ shift) (n / 128) t
          (omega (arith, pow-suc 128 (suc rounds))) (omega (arith, whole))
      ∙ ap (λ m. some (m, t)) whole
]

-- A number of 64 bits is read back from its encoding, whatever stands behind it.
pub read_varint-encode_varint :
    (n : ℕ) (t : Bytes) → n < 2 ^ 64 → read_varint (encode_varint 10 n ++ t) ≡ some (n, t)
unfolding read_varint
read_varint-encode_varint n t h =
    varint_round 9 0 0 n t (omega arith) (omega arith) ∙ ap (λ m. some (m, t)) (omega arith)
