-- ===== src/Model/Capabilities/Coverage.antt =====
-- The names that the finished table of a product has rows for.
use test_exchanges_helper.Base.{
  ◌≡◌, refl, sym, ◌∙◌, ◌⊎◌, inl, inr, Bool, true, false, ◌||◌, List, [], ◌∷◌, ◌++◌, Bytes, bytes_eq,
  bytes_eq_refl, codes, any, All, ◌==◌, arith, Bool-cases,
}
use test_exchanges_helper.Model.Kinds.{
  Surface, public_surface, private_surface, ProfileStatus, profiled, not_profiled, not_applicable,
  adapter_required, profile_status_rank,
}
use test_exchanges_helper.Model.Products.{CapabilityRow, ProductSpec}
use test_exchanges_helper.Model.Capabilities.{
  same_capability, add_capability, add_all, is_not_applicable, is_named, has_named_capability,
  add_missing, add_all_missing, add_futures, collected_rows, insert_row, stable_sort, case_rows,
  finalize_capabilities, absent_row, public_common, public_futures, private_common,
}

-- The names that every product's table is asked for, and those of a futures product.
abbrev pub required_names : List Bytes
required_names = public_common ++ private_common

abbrev pub futures_names : List Bytes
futures_names = public_futures ++ codes "positions" ∷ []

abbrev Has : List CapabilityRow → Bytes → Type 0
Has rows name = has_named_capability rows name ≡ true

any-append :
    (p : CapabilityRow → Bool) (xs ys : List CapabilityRow)
    → any p xs ≡ true
    → any p (xs ++ ys) ≡ true
any-append p [] ys h = absurd (true_not_false (sym h))
  where
    true_not_false : ¬ (true ≡ false)
    true_not_false e = cc
any-append p (x ∷ xs) ys h = ground (arith, any-append p xs ys)

any-append-one :
    (p : CapabilityRow → Bool) (xs : List CapabilityRow) (x : CapabilityRow)
    → p x ≡ true
    → any p (xs ++ x ∷ []) ≡ true
any-append-one p [] x h = ground arith
any-append-one p (y ∷ xs) x h = ground (arith, any-append-one p xs x h)

-- A named row stays when rows are added.
add_capability-Has :
    (rows : List CapabilityRow) (row : CapabilityRow) (name : Bytes)
    → Has rows name
    → Has (add_capability rows row) name
unfolding add_capability has_named_capability
add_capability-Has rows row name h =
    elim (Bool-cases (any (λ existing. same_capability existing row) rows)) [
      | inl known ↦ rw known h
      | inr new ↦ rw new (any-append (is_named name) rows (row ∷ []) h)
    ]

add_all-Has :
    (rows later : List CapabilityRow) (name : Bytes) → Has rows name → Has (add_all rows later) name
unfolding add_all
add_all-Has rows [] name h = h
add_all-Has rows (row ∷ later) name h =
    add_all-Has (add_capability rows row) later name (add_capability-Has rows row name h)

add_missing-Has :
    (surface : Surface) (rows : List CapabilityRow) (missing name : Bytes)
    → Has rows name
    → Has (add_missing surface rows missing) name
unfolding add_missing
add_missing-Has surface rows missing name h =
    elim (Bool-cases (has_named_capability rows missing)) [
      | inl known ↦ rw known h
      | inr new ↦ rw new (add_capability-Has rows _ name h)
    ]

add_all_missing-Has :
    (surface : Surface) (rows : List CapabilityRow) (names : List Bytes) (name : Bytes)
    → Has rows name
    → Has (add_all_missing surface rows names) name
unfolding add_all_missing
add_all_missing-Has surface rows [] name h = h
add_all_missing-Has surface rows (missing ∷ names) name h =
    add_all_missing-Has surface (add_missing surface rows missing) names name
      (add_missing-Has surface rows missing name h)

add_futures-Has :
    (futures : Bool) (surface : Surface) (rows : List CapabilityRow) (names : List Bytes)
    (name : Bytes)
    → Has rows name
    → Has (add_futures futures surface rows names) name
unfolding add_futures
add_futures-Has true surface rows names name h = add_all_missing-Has surface rows names name h
add_futures-Has false surface rows names name h = add_all-Has rows _ name h

rank_not_profiled :
    (status : ProfileStatus)
    → (profile_status_rank status == 1) ≡ true
    → is_not_applicable status ≡ false
unfolding profile_status_rank
rank_not_profiled not_applicable h = ground arith
rank_not_profiled profiled h = refl
rank_not_profiled not_profiled h = refl
rank_not_profiled adapter_required h = refl

-- A row that is already there under all its columns is there under its name.
same-is_named :
    (surface : Surface) (name : Bytes) (existing : CapabilityRow)
    → same_capability existing (absent_row not_profiled surface name) ≡ true
    → is_named name existing ≡ true
unfolding same_capability absent_row profile_status_rank
same-is_named surface name existing h = ground (arith, rank_not_profiled existing.profile_status)

same-any_named :
    (surface : Surface) (name : Bytes) (rows : List CapabilityRow)
    → any (λ existing. same_capability existing (absent_row not_profiled surface name)) rows ≡ true
    → any (is_named name) rows ≡ true
same-any_named surface name [] h = h
same-any_named surface name (x ∷ rows) h =
    elim (Bool-cases (same_capability x (absent_row not_profiled surface name))) [
      | inl same ↦ rw (same-is_named surface name x same) refl
      | inr other ↦ ground (arith, same-any_named surface name rows (rw other at h))
    ]

absent-is_named :
    (surface : Surface) (name : Bytes) → is_named name (absent_row not_profiled surface name) ≡ true
unfolding absent_row
absent-is_named surface name = rw (bytes_eq_refl name) refl

add_missing-named :
    (surface : Surface) (rows : List CapabilityRow) (name : Bytes)
    → Has (add_missing surface rows name) name
unfolding add_missing has_named_capability add_capability
add_missing-named surface rows name = elim (Bool-cases (any (is_named name) rows)) [
  | inl known ↦ rw known known
  | inr new ↦
      rw new
        (elim (Bool-cases (
          any (λ existing. same_capability existing (absent_row not_profiled surface name)) rows)) [
            | inl same ↦ rw same (same-any_named surface name rows same)
            | inr other ↦
                rw other (any-append-one (is_named name) rows _ (absent-is_named surface name))
          ])
]

add_all_missing-named :
    (surface : Surface) (rows : List CapabilityRow) (names : List Bytes)
    → All (Has (add_all_missing surface rows names)) names
unfolding add_all_missing
add_all_missing-named surface rows [] = tt
add_all_missing-named surface rows (name ∷ names) = (
  add_all_missing-Has surface (add_missing surface rows name) names name
      (add_missing-named surface rows name),
  add_all_missing-named surface (add_missing surface rows name) names,
)

Has-map :
    (rows more : List CapabilityRow) (names : List Bytes)
    → ((name : Bytes) → Has rows name → Has more name)
    → All (Has rows) names
    → All (Has more) names
Has-map rows more [] k h = tt
Has-map rows more (name ∷ names) k h = (k name h.0, Has-map rows more names k h.1)

All-append : (p : Bytes → Type 0) (xs ys : List Bytes) → All p xs → All p ys → All p (xs ++ ys)
All-append p [] ys h k = k
All-append p (x ∷ xs) ys h k = (h.0, All-append p xs ys h.1 k)

any-insert_row :
    (p : CapabilityRow → Bool) (row : CapabilityRow) (rows : List CapabilityRow)
    → any p (insert_row row rows) ≡ (p row || any p rows)
unfolding insert_row
any-insert_row p row [] = refl
any-insert_row p row (x ∷ rows) = ground (arith, any-insert_row p row rows)

any-stable_sort :
    (p : CapabilityRow → Bool) (rows : List CapabilityRow) → any p (stable_sort rows) ≡ any p rows
unfolding stable_sort
any-stable_sort p [] = refl
any-stable_sort p (row ∷ rows) =
    any-insert_row p row (stable_sort rows) ∙ rw (any-stable_sort p rows) refl

stable_sort-Has :
    (rows : List CapabilityRow) (name : Bytes) → Has rows name → Has (stable_sort rows) name
unfolding has_named_capability
stable_sort-Has rows name h = any-stable_sort (is_named name) rows ∙ h

-- The stages of `collected_rows`.
abbrev common : List CapabilityRow → List CapabilityRow
common cases = add_all_missing public_surface (add_all [] cases) public_common

abbrev funding : Bool → List CapabilityRow → List CapabilityRow
funding futures cases = add_futures futures public_surface (common cases) public_futures

abbrev owned : Bool → List CapabilityRow → List CapabilityRow
owned futures cases = add_all_missing private_surface (funding futures cases) private_common

owned-Has :
    (futures : Bool) (cases : List CapabilityRow) (name : Bytes)
    → Has (owned futures cases) name
    → Has (collected_rows futures cases) name
unfolding collected_rows
owned-Has futures cases name h =
    add_futures-Has futures private_surface (owned futures cases) (codes "positions" ∷ []) name h

funding-Has :
    (futures : Bool) (cases : List CapabilityRow) (name : Bytes)
    → Has (funding futures cases) name
    → Has (collected_rows futures cases) name
funding-Has futures cases name h =
    owned-Has futures cases name
      (add_all_missing-Has private_surface (funding futures cases) private_common name h)

collected_rows-required :
    (futures : Bool) (cases : List CapabilityRow)
    → All (Has (collected_rows futures cases)) required_names
collected_rows-required futures cases =
    All-append (Has (collected_rows futures cases)) public_common private_common
      (Has-map (common cases) (collected_rows futures cases) public_common
        (λ name h.
          funding-Has futures cases name
            (add_futures-Has futures public_surface (common cases) public_futures name h))
        (add_all_missing-named public_surface (add_all [] cases) public_common))
      (Has-map (owned futures cases) (collected_rows futures cases) private_common
        (owned-Has futures cases)
        (add_all_missing-named private_surface (funding futures cases) private_common))

funding-named : (cases : List CapabilityRow) → All (Has (funding true cases)) public_futures
unfolding add_futures
funding-named cases = add_all_missing-named public_surface (common cases) public_futures

positions-named :
    (cases : List CapabilityRow) → All (Has (collected_rows true cases)) (codes "positions" ∷ [])
unfolding collected_rows add_futures
positions-named cases =
    add_all_missing-named private_surface (owned true cases) (codes "positions" ∷ [])

collected_rows-futures :
    (cases : List CapabilityRow) → All (Has (collected_rows true cases)) futures_names
collected_rows-futures cases =
    All-append (Has (collected_rows true cases)) public_futures (codes "positions" ∷ [])
      (Has-map (funding true cases) (collected_rows true cases) public_futures
        (funding-Has true cases) (funding-named cases))
      (positions-named cases)

futures_case :
    (futures : Bool) (cases : List CapabilityRow)
    → (futures ≡ false) ⊎ All (Has (collected_rows futures cases)) futures_names
futures_case true cases = inr (collected_rows-futures cases)
futures_case false cases = inl refl

-- Whatever cases a product has, its table has a row for each of the fifteen common names, and for a
-- futures product also for the three funding names and the positions; none of these rows is marked
-- as not applicable.
pub finalize_capabilities-covers :
    (product : ProductSpec)
    → All
        (λ name. has_named_capability (finalize_capabilities product).capabilities name ≡ true)
        required_names
      × ((bytes_eq product.product (codes "futures") ≡ false)
          ⊎ All
              (λ name.
                has_named_capability (finalize_capabilities product).capabilities name ≡ true)
              futures_names)
unfolding finalize_capabilities
finalize_capabilities-covers product = (
  sorted futures required_names (collected_rows-required futures cases),
  elim (futures_case futures cases) [
    | inl other ↦ inl other
    | inr h ↦ inr (sorted futures futures_names h)
  ],
)
  where
    futures : Bool
    futures = bytes_eq product.product (codes "futures")

    cases : List CapabilityRow
    cases = case_rows product

    sorted :
        (b : Bool) (names : List Bytes)
        → All (Has (collected_rows b cases)) names
        → All (Has (stable_sort (collected_rows b cases))) names
    sorted b names h =
        Has-map (collected_rows b cases) (stable_sort (collected_rows b cases)) names
          (stable_sort-Has (collected_rows b cases)) h
