-- ===== src/Bundle/Receipts/Exact.antt =====
-- About differences of receipts, and the shares of durations below a percentile.
use test_exchanges_helper.Base.{
  ℕ, zero, suc, ◌+◌, ◌-◌, ◌*◌, ◌/◌, ◌≤◌, ◌<◌, ◌≡◌, refl, ◌∙◌, ap, inl, inr, Bool, List, [], ◌∷◌,
  none, some, leb, get_elem?, length, if◌then◌else◌, arith, Bool-cases,
}
use test_exchanges_helper.Base.Int.{ℤ, pos, negsuc}
use test_exchanges_helper.Bundle.Receipts.{
  positive_max, negated, receipt_delta, percentile_index, insert_duration, sort_durations,
  percentile,
}

-- The difference of two numbers, without bounds.
unfoldable pub difference : ℕ → ℕ → ℤ
difference m zero = pos m
difference zero (suc n) = negsuc n
difference (suc m) (suc n) = difference m n

-- The numbers that `std::int64_t` holds.
abbrev pub is_int64 : ℤ → Bool
is_int64 (pos n) = leb n positive_max
is_int64 (negsuc n) = leb n positive_max

difference-ge : (m n : ℕ) → n ≤ m → difference m n ≡ pos (m - n)
unfolding difference
difference-ge m zero h = ap pos (omega arith)
difference-ge zero (suc n) h = absurd (omega arith)
difference-ge (suc m) (suc n) h = difference-ge m n (omega arith) ∙ ap pos (omega arith)

difference-lt : (m n : ℕ) → m < n → difference m n ≡ negsuc (n - m - 1)
unfolding difference
difference-lt m zero h = absurd (omega arith)
difference-lt zero (suc n) h = ap negsuc (omega arith)
difference-lt (suc m) (suc n) h = difference-lt m n (omega arith) ∙ ap negsuc (omega arith)

negated-negsuc : (n : ℕ) → 0 < n → negated n ≡ negsuc (n - 1)
unfolding negated
negated-negsuc zero h = absurd (omega arith)
negated-negsuc (suc n) h = ap negsuc (omega arith)

later :
    (standard aws : ℕ)
    → standard ≤ aws
    → receipt_delta standard aws
      ≡ (if leb (aws - standard) positive_max then some (pos (aws - standard)) else none)
unfolding receipt_delta
later standard aws h = ground arith

earlier :
    (standard aws : ℕ)
    → aws < standard
    → receipt_delta standard aws
      ≡ (if leb (standard - aws - 1) positive_max then some (negsuc (standard - aws - 1)) else none)
unfolding receipt_delta
earlier standard aws h = ground (arith, negated-negsuc (standard - aws))

-- The delta of two receipts is their exact signed difference, and is refused exactly where a
-- signed 64-bit number does not hold it; the least such number is not refused.
pub receipt_delta_exact :
    (standard aws : ℕ)
    → receipt_delta standard aws
      ≡ (if is_int64 (difference aws standard) then some (difference aws standard) else none)
receipt_delta_exact standard aws = elim (Bool-cases (leb standard aws)) [
  | inl h ↦ rw (difference-ge aws standard (ground arith)) (later standard aws (ground arith))
  | inr h ↦ rw (difference-lt aws standard (ground arith)) (earlier standard aws (ground arith))
]

length-insert_duration : (d : ℕ) (xs : List ℕ) → length (insert_duration d xs) ≡ suc (length xs)
unfolding insert_duration
length-insert_duration d [] = refl
length-insert_duration d (x ∷ xs) = ground (arith, length-insert_duration d xs)

length-sort_durations : (ds : List ℕ) → length (sort_durations ds) ≡ length ds
unfolding sort_durations
length-sort_durations [] = refl
length-sort_durations (d ∷ ds) =
    length-insert_duration d (sort_durations ds) ∙ ap suc (length-sort_durations ds)

-- How many of the durations are at most a number.
unfoldable pub count_le : ℕ → List ℕ → ℕ
count_le d [] = 0
count_le d (x ∷ xs) = (if leb x d then 1 else 0) + count_le d xs

abbrev Ascending : List ℕ → Type 0
Ascending [] = Unit
Ascending (x ∷ []) = Unit
Ascending (x ∷ y ∷ xs) = (x ≤ y) × Ascending (y ∷ xs)

insert_duration-Ascending : (d : ℕ) (xs : List ℕ) → Ascending xs → Ascending (insert_duration d xs)
unfolding insert_duration
insert_duration-Ascending d [] h = tt
insert_duration-Ascending d (x ∷ []) h = ground arith
insert_duration-Ascending d (x ∷ y ∷ xs) h = ground (arith, insert_duration-Ascending d (y ∷ xs))

sort_durations-Ascending : (ds : List ℕ) → Ascending (sort_durations ds)
unfolding sort_durations
sort_durations-Ascending [] = tt
sort_durations-Ascending (d ∷ ds) =
    insert_duration-Ascending d (sort_durations ds) (sort_durations-Ascending ds)

count_le-insert_duration :
    (n d : ℕ) (xs : List ℕ) → count_le n (insert_duration d xs) ≡ count_le n (d ∷ xs)
unfolding count_le insert_duration
count_le-insert_duration n d [] = refl
count_le-insert_duration n d (x ∷ xs) = ground (arith, count_le-insert_duration n d xs)

count_le-sort_durations : (n : ℕ) (ds : List ℕ) → count_le n (sort_durations ds) ≡ count_le n ds
unfolding sort_durations count_le
count_le-sort_durations n [] = refl
count_le-sort_durations n (d ∷ ds) =
    count_le-insert_duration n d (sort_durations ds)
    ∙ ap (λ m. (if leb d n then 1 else 0) + m) (count_le-sort_durations n ds)

Ascending-head :
    (x : ℕ) (xs : List ℕ) (i : ℕ) {d : ℕ} → Ascending (x ∷ xs) → get_elem? xs i ≡ some d → x ≤ d
Ascending-head x [] i h e = absurd (none_not_some e)
  where
    none_not_some : {d : ℕ} → none ≡ some d → ⊥
    none_not_some k = cc
Ascending-head x (y ∷ xs) zero h e = ground (arith, h.0)
Ascending-head x (y ∷ xs) (suc i) h e = omega (arith, h.0, Ascending-head y xs i h.1 e)

tail-Ascending : (x : ℕ) (xs : List ℕ) → Ascending (x ∷ xs) → Ascending xs
tail-Ascending x [] h = tt
tail-Ascending x (y ∷ xs) h = h.1

-- In an ascending list, the element at an index has more elements at most it than the index.
rank_above :
    (xs : List ℕ) (i : ℕ)
    → Ascending xs
    → i < length xs
    → (d : ℕ) × (get_elem? xs i ≡ some d) × (i < count_le d xs)
unfolding count_le
rank_above [] i h k = absurd (omega arith)
rank_above (x ∷ xs) zero h k = (x, refl, ground arith)
rank_above (x ∷ xs) (suc i) h k =
    let (d, e, r) = rank_above xs i (tail-Ascending x xs h) (omega arith) in
    (d, e, ground (arith, Ascending-head x xs i h e, r))

index_bounds :
    (size t : ℕ)
    → 1 ≤ t
    → t ≤ size * 100
    → ((t + 99) / 100 - 1 < size) × (t ≤ 100 * ((t + 99) / 100 - 1 + 1))
index_bounds size t h k = (omega arith, omega arith)

product_bounds :
    (size percent : ℕ)
    → 0 < size
    → 1 ≤ percent
    → percent ≤ 100
    → (1 ≤ size * percent) × (size * percent ≤ size * 100)
product_bounds size percent h k l = (grind arith, grind arith)

-- A percentile from 1 to 100 of durations that are not empty is there, and at least that share of
-- the durations is at most it.
pub percentile_rank :
    (durations : List ℕ) (percent : ℕ)
    → 0 < length durations
    → 1 ≤ percent
    → percent ≤ 100
    → (d : ℕ) × (percentile durations percent ≡ some d)
      × (length durations * percent ≤ 100 * count_le d durations)
unfolding percentile percentile_index
percentile_rank durations percent h k l =
    let (low, high) = product_bounds (length durations) percent h k l in
    let (inside, share) = index_bounds (length durations) (length durations * percent) low high in
    let (d, e, r) =
      rank_above (sort_durations durations) ((length durations * percent + 99) / 100 - 1)
        (sort_durations-Ascending durations)
        (omega (arith, inside, length-sort_durations durations)) in
    (d, e, omega (arith, share, r, count_le-sort_durations d durations))
