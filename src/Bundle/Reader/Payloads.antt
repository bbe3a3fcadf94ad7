-- ===== src/Bundle/Reader/Payloads.antt =====
-- The payloads of an accepted index.
use test_exchanges_helper.Base.{
  ℕ, zero, suc, ◌+◌, ◌≤◌, ◌≡◌, refl, sym, ◌∙◌, ap, inl, inr, false, List, [], ◌∷◌, ◌++◌, Option,
  Bytes, ltb, length, take, drop, length-take, length-drop, ok, err, arith, Bool-cases,
}
use test_exchanges_helper.Json.{Value}
use test_exchanges_helper.Network.WsApplication.{max_ws_message_bytes}
use test_exchanges_helper.Analysis.Event.{FrameIndex}
use test_exchanges_helper.Bundle.Reader.{read_frame_index, read_payload}
use test_exchanges_helper.Bundle.Reader.Index.{IsIndex, read_frame_index-IsIndex}

-- The bytes of the frames, in the order of the index, each cut out of the file by its own row.
unfoldable pub payloads : Bytes → List FrameIndex → Bytes
payloads bytes [] = []
payloads bytes (frame ∷ before) =
    payloads bytes before ++ take frame.length (drop frame.offset bytes)

unfoldable pub total_bytes : List FrameIndex → ℕ
total_bytes [] = 0
total_bytes (frame ∷ before) = total_bytes before + frame.length

take-nil : (n : ℕ) → take {A = ℕ} n [] ≡ []
take-nil zero = refl
take-nil (suc n) = refl

take-add : (m n : ℕ) (xs : Bytes) → take m xs ++ take n (drop m xs) ≡ take (m + n) xs
take-add zero n xs = ap (λ k. take k xs) (omega arith)
take-add (suc m) n [] = take-nil n ∙ sym (take-nil (suc m + n))
take-add (suc m) n (x ∷ xs) = ap (◌∷◌ x) (take-add m n xs) ∙ ap (λ k. take k (x ∷ xs)) (suc_sum m n)
  where
    suc_sum : (m n : ℕ) → suc (m + n) ≡ suc m + n
    suc_sum m n = omega arith

index-total :
    (frames : List FrameIndex) (total : ℕ) → IsIndex frames total → total ≡ total_bytes frames
unfolding total_bytes
index-total [] total h = h
index-total (frame ∷ before) total h = omega (arith, h.0, index-total before frame.offset h.2)

index-payloads :
    (bytes : Bytes) (frames : List FrameIndex) (total : ℕ)
    → IsIndex frames total
    → payloads bytes frames ≡ take total bytes
unfolding payloads
index-payloads bytes [] total h = ap (λ n. take n bytes) (sym h)
index-payloads bytes (frame ∷ before) total h =
    ap (λ s. s ++ take frame.length (drop frame.offset bytes))
      (index-payloads bytes before frame.offset h.2)
    ∙ take-add frame.offset frame.length bytes
    ∙ ap (λ n. take n bytes) (sym h.0)

-- The payloads that the rows of an accepted index cut out of frames.bin, one behind the other, are
-- the file itself, up to the sum of their lengths: no byte is missing, read twice or out of place.
pub read_frame_index-payloads :
    (parse : Bytes → Option Value) (lines : List Bytes) (bytes : Bytes) {frames : List FrameIndex}
    → read_frame_index parse lines ≡ ok frames
    → payloads bytes frames ≡ take (total_bytes frames) bytes
read_frame_index-payloads parse lines bytes {frames} e =
    let (total, h, n) = read_frame_index-IsIndex parse lines e in
    index-payloads bytes frames total h ∙ ap (λ m. take m bytes) (index-total frames total h)

-- A payload that is read is the slice that its row names, of exactly the length of the row, and
-- 8 MiB at most.
pub read_payload_lem :
    (bytes : Bytes) (frame : FrameIndex) {payload : Bytes}
    → read_payload bytes frame ≡ ok payload
    → (payload ≡ take frame.length (drop frame.offset bytes))
      × (length payload ≡ frame.length)
      × (length payload ≤ max_ws_message_bytes)
unfolding read_payload
read_payload_lem bytes frame {payload} e =
    elim (Bool-cases (ltb max_ws_message_bytes frame.length)) [
      | inl long ↦ absurd (err_not_ok (rw long at e))
      | inr short ↦ elim (Bool-cases (ltb (length bytes) (frame.offset + frame.length))) [
        | inl behind ↦ absurd (err_not_ok (rw (short, behind) at e))
        | inr inside ↦ found (below short) (within inside) (ok_injective (rw (short, inside) at e))
      ]
    ]
  where
    err_not_ok : {m : Prim.Native.String.String} → err m ≡ ok payload → ⊥
    err_not_ok h = cc

    ok_injective : {a b : Bytes} → ok a ≡ ok b → b ≡ a
    ok_injective h = cc

    below : ltb max_ws_message_bytes frame.length ≡ false → frame.length ≤ max_ws_message_bytes
    below h = ground arith

    within :
        ltb (length bytes) (frame.offset + frame.length) ≡ false
        → frame.offset + frame.length ≤ length bytes
    within h = ground arith

    found :
        frame.length ≤ max_ws_message_bytes
        → frame.offset + frame.length ≤ length bytes
        → payload ≡ take frame.length (drop frame.offset bytes)
        → (payload ≡ take frame.length (drop frame.offset bytes))
          × (length payload ≡ frame.length)
          × (length payload ≤ max_ws_message_bytes)
    found s w p = let n = sliced w p in (p, n, omega (arith, n, s))
      where
        sliced :
            frame.offset + frame.length ≤ length bytes
            → payload ≡ take frame.length (drop frame.offset bytes)
            → length payload ≡ frame.length
        sliced w p = omega (
          arith,
          ap length p,
          length-take frame.length (drop frame.offset bytes),
          length-drop frame.offset bytes,
        )
