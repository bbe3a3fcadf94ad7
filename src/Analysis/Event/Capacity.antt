-- ===== src/Analysis/Event/Capacity.antt =====
-- The capacity of a normalized event's texts.
use mathlib.Core.Path.{subst}
use native.Mathlib.Nat.{zero-add}
use test_exchanges_helper.Base.{
  ap, sym, ◌∙◌, ℕ, ◌+◌, ◌≤◌, ◌≡◌, refl, Bool, true, false, List, [], ◌∷◌, Bytes, length, ltb,
  if◌then◌else◌, arith,
}
use test_exchanges_helper.Analysis.Event.{
  NormalizedEvent, fields, over_capacity, clear_fields, enforce_normalized_capacity,
  maximum_normalized_field_bytes,
}

abbrev pub total_length : List Bytes → ℕ
total_length [] = 0
total_length (field ∷ rest) = length field + total_length rest

-- The loop stops early exactly where the fields together are longer than what is left.
over_capacity_exact :
    (total : ℕ) (xs : List Bytes)
    → total ≤ maximum_normalized_field_bytes
    → over_capacity total xs ≡ ltb maximum_normalized_field_bytes (total + total_length xs)
unfolding over_capacity
over_capacity_exact total [] h = ground arith
over_capacity_exact total (field ∷ rest) h =
    ground (arith, over_capacity_exact (total + length field) rest)

abbrev enforced : Bool → NormalizedEvent → NormalizedEvent
enforced over event = if over then clear_fields event else event

enforced-le :
    (over : Bool) (event : NormalizedEvent)
    → (over ≡ false → total_length (fields event) ≤ maximum_normalized_field_bytes)
    → total_length (fields (enforced over event)) ≤ maximum_normalized_field_bytes
enforced-le true event h = omega arith
enforced-le false event h = h refl

enforce-enforced :
    (event : NormalizedEvent)
    → enforce_normalized_capacity event
      ≡ enforced (ltb maximum_normalized_field_bytes (total_length (fields event))) event
unfolding enforce_normalized_capacity
enforce-enforced event =
    ap (λ over. enforced over event)
      (over_capacity_exact 0 (fields event) (omega arith)
        ∙ ap (ltb maximum_normalized_field_bytes) (zero-add (total_length (fields event))))

-- An event within the capacity is left as it is; any other loses all eleven texts and is marked.
-- Either way at most 64 KiB of text are left.
pub enforce_normalized_capacity_lem :
    (event : NormalizedEvent)
    → (enforce_normalized_capacity event ≡ (
        if ltb maximum_normalized_field_bytes (total_length (fields event))
        then clear_fields event
        else event))
      × (total_length (fields (enforce_normalized_capacity event)) ≤ maximum_normalized_field_bytes)
enforce_normalized_capacity_lem event = (
  enforce-enforced event,
  subst (λ e. total_length (fields e) ≤ maximum_normalized_field_bytes)
      (sym (enforce-enforced event)) (enforced-le _ event (within (total_length (fields event)))),
)
  where
    within :
        (n : ℕ) → ltb maximum_normalized_field_bytes n ≡ false → n ≤ maximum_normalized_field_bytes
    within n h = ground arith
