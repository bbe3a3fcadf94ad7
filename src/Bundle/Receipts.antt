-- ===== src/Bundle/Receipts.antt =====
-- The arithmetic of src/Research/Analysis/Relations.cpp on receipt times: the signed difference of
-- two of them, and the percentiles of the durations.
pub mod Exact
use test_exchanges_helper.Base.{
  ℕ, zero, suc, ◌+◌, ◌-◌, ◌*◌, ◌/◌, Bool, true, false, not, List, [], ◌∷◌, Option, none, some, ltb,
  leb, ◌==◌, get_elem?, length, if◌then◌else◌,
}
use test_exchanges_helper.Base.Int.{ℤ, pos, negsuc}

abbrev pub positive_max : ℕ
positive_max = 9223372036854775807

-- `-static_cast<std::int64_t>(magnitude)`
unfoldable pub negated : ℕ → ℤ
negated zero = pos 0
negated (suc n) = negsuc n

-- `receipt_delta`; `negsuc positive_max` is the least 64-bit number.
unfoldable pub receipt_delta : ℕ → ℕ → Option ℤ
receipt_delta standard aws =
    if leb standard aws
    then (if ltb positive_max (aws - standard) then none else some (pos (aws - standard)))
    else if ltb (positive_max + 1) (standard - aws)
    then none
    else if standard - aws == positive_max + 1
    then some (negsuc positive_max)
    else some (negated (standard - aws))

-- `percentile`: the nearest rank, an index into the sorted durations
unfoldable pub percentile_index : ℕ → ℕ → ℕ
percentile_index size percent = (size * percent + 99) / 100 - 1

-- `std::sort` of the durations
unfoldable pub insert_duration : ℕ → List ℕ → List ℕ
insert_duration d [] = d ∷ []
insert_duration d (x ∷ xs) =
    let after = x ∷ insert_duration d xs in if ltb x d then after else d ∷ x ∷ xs

unfoldable pub sort_durations : List ℕ → List ℕ
sort_durations [] = []
sort_durations (d ∷ ds) = insert_duration d (sort_durations ds)

unfoldable pub percentile : List ℕ → ℕ → Option ℕ
percentile durations percent =
    get_elem? (sort_durations durations) (percentile_index (length durations) percent)
