-- ===== src/Network/Redaction/Frames.antt =====
-- The bound on a public frame.
use test_exchanges_helper.Base.{
  ℕ, zero, suc, ap, false, List, [], ◌∷◌, min, ◌-◌, ◌≤◌, ◌<◌, ◌≡◌, refl, Bytes, ◌++◌, length, take,
  length-append, length-take, leb, arith, Bool-cases, inl, inr,
}
use test_exchanges_helper.Network.Redaction.{
  bounded_public_frame, max_raw_public_bytes, truncation_suffix,
}

take-take-append :
    {A : Type 0} (n : ℕ) (xs ys : List A) → n ≤ length xs → take n (take n xs ++ ys) ≡ take n xs
take-take-append zero xs ys h = refl
take-take-append (suc n) [] ys h = absurd (omega arith)
take-take-append (suc n) (x ∷ xs) ys h = ap (◌∷◌ x) (take-take-append n xs ys (omega arith))

-- A report shows as many bytes as the frame has, and 4096 at most; the first 4082 are the frame's
-- own.
pub bounded_public_frame_lem :
    (payload : Bytes)
    → (length (bounded_public_frame payload) ≡ min (length payload) max_raw_public_bytes)
      × (take (max_raw_public_bytes - length truncation_suffix) (bounded_public_frame payload)
          ≡ take (max_raw_public_bytes - length truncation_suffix) payload)
unfolding bounded_public_frame
bounded_public_frame_lem payload = elim (Bool-cases (leb (length payload) max_raw_public_bytes)) [
  | inl short ↦ rw short (ground arith, refl)
  | inr long ↦ rw long (
    omega (
      arith,
      length-append (take 4082 payload) truncation_suffix,
      length-take 4082 payload,
      above long,
    ),
    take-take-append 4082 payload truncation_suffix (omega (arith, above long)),
  )
]
  where
    above : leb (length payload) max_raw_public_bytes ≡ false → 4096 < length payload
    above h = ground arith
