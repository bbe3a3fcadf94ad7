-- ===== src/Bundle/Pairing/Deltas.antt =====
-- src/Research/Analysis/Relations.cpp: what analyze_paired_research_receipts makes of the
-- identities: the deltas of those that each channel has once, and the counts of the others.
use mathlib.Core.Path.{subst}
use mathlib.Core.List.{append_assoc, append-nil}
use test_exchanges_helper.Base.{
  ℕ, suc, ◌+◌, ◌-◌, ◌≡◌, refl, sym, ◌∙◌, ap, Bool, true, false, ◌||◌, List, [], ◌∷◌, ◌++◌, Option,
  none, some, ltb, length, length-append, map, Result, ok, err, ◌>>=◌, bind_ok, ok_injective,
  err_not_ok, if◌then◌else◌, arith,
}
use test_exchanges_helper.Base.Int.{ℤ}
use test_exchanges_helper.Bundle.Pairing.{PairedKey, PairedIdentity}
use test_exchanges_helper.Bundle.Receipts.{receipt_delta}

-- The deltas and the counters of the loop over the identities.
pub record Tally : Type 0 where
  pub deltas : List ℤ
  pub unmatched_standard : ℕ
  pub unmatched_aws : ℕ
  pub duplicate_records_standard : ℕ
  pub duplicate_records_aws : ℕ
  pub ambiguous_identities : ℕ

-- `count > 0U ? count - 1U : 0U`
unfoldable pub surplus : ℕ → ℕ
surplus count = if ltb 0 count then count - 1 else 0

-- The delta of an identity that both channels have.
unfoldable pub add_delta : Option ℤ → Tally → Result Tally
add_delta none tally = err "signed_receipt_delta_overflow"
add_delta (some delta) tally = ok (record tally { deltas = tally.deltas ++ delta ∷ [] })

unfoldable pub match_receipts : Option ℕ → Option ℕ → Tally → Result Tally
match_receipts standard none tally =
    ok (record tally { unmatched_standard = suc tally.unmatched_standard })
match_receipts none (some aws) tally = ok (record tally { unmatched_aws = suc tally.unmatched_aws })
match_receipts (some standard) (some aws) tally = add_delta (receipt_delta standard aws) tally

-- One round of the loop over the identities.
unfoldable pub tally_identity : PairedIdentity → Tally → Result Tally
tally_identity identity tally =
    let counted = record tally {
      duplicate_records_standard =
          tally.duplicate_records_standard + surplus identity.standard_count;
      duplicate_records_aws = tally.duplicate_records_aws + surplus identity.aws_count;
    } in
    if ltb 1 identity.standard_count || ltb 1 identity.aws_count
    then ok (record counted { ambiguous_identities = suc counted.ambiguous_identities })
    else match_receipts identity.standard identity.aws counted

unfoldable pub tally_identities : List (PairedKey × PairedIdentity) → Tally → Result Tally
tally_identities [] tally = ok tally
tally_identities ((key, identity) ∷ identities) tally =
    tally_identity identity tally >>= tally_identities identities

-- The counters before the loop: records without an identity are unmatched.
unfoldable pub untallied : ℕ → ℕ → Tally
untallied invalid_id_standard invalid_id_aws = record {
  deltas = [];
  unmatched_standard = invalid_id_standard;
  unmatched_aws = invalid_id_aws;
  duplicate_records_standard = 0;
  duplicate_records_aws = 0;
  ambiguous_identities = 0;
}

-- The receipts of an identity that each channel has exactly once, and of all of them.
unfoldable pub both : Option ℕ → Option ℕ → List (ℕ × ℕ)
both standard none = []
both none (some aws) = []
both (some standard) (some aws) = (standard, aws) ∷ []

unfoldable pub matched_once : PairedIdentity → List (ℕ × ℕ)
matched_once identity =
    if ltb 1 identity.standard_count || ltb 1 identity.aws_count
    then []
    else both identity.standard identity.aws

unfoldable pub matched : List (PairedKey × PairedIdentity) → List (ℕ × ℕ)
matched [] = []
matched ((key, identity) ∷ identities) = matched_once identity ++ matched identities

abbrev pub difference : ℕ × ℕ → Option ℤ
difference (standard, aws) = receipt_delta standard aws

-- The deltas, and all that a tally has sorted identities into.
abbrev pub weight : Tally → ℕ
weight t = length t.deltas + t.unmatched_standard + t.unmatched_aws + t.ambiguous_identities

-- One identity, or several, with these receipts among the matched.
record Adds (t t' : Tally) (receipts : List (ℕ × ℕ)) (identities : ℕ) : Type 0 where
  pub new_deltas :
      map (λ d. some d) t'.deltas ≡ map (λ d. some d) t.deltas ++ map difference receipts
  pub sorted : weight t' ≡ weight t + identities

map-some-append :
    (xs ys : List ℤ) → map (λ d. some d) (xs ++ ys) ≡ map (λ d. some d) xs ++ map (λ d. some d) ys
map-some-append [] ys = refl
map-some-append (x ∷ xs) ys = ap (λ l. some x ∷ l) (map-some-append xs ys)

difference-append :
    (xs ys : List (ℕ × ℕ)) → map difference (xs ++ ys) ≡ map difference xs ++ map difference ys
difference-append [] ys = refl
difference-append (x ∷ xs) ys = ap (λ l. difference x ∷ l) (difference-append xs ys)

add_delta-Adds :
    (standard aws : ℕ) (delta : Option ℤ) (t t' : Tally)
    → receipt_delta standard aws ≡ delta
    → add_delta delta t ≡ ok t'
    → Adds t t' ((standard, aws) ∷ []) 1
unfolding add_delta
add_delta-Adds standard aws none t t' e h = absurd (err_not_ok h)
add_delta-Adds standard aws (some delta) t t' e h =
    subst (λ s. Adds t s ((standard, aws) ∷ []) 1) (ok_injective h)
      (record {
        new_deltas =
            map-some-append t.deltas (delta ∷ [])
            ∙ ap (λ d. map (λ d. some d) t.deltas ++ d ∷ []) (sym e);
        sorted = omega (arith, length-append t.deltas (delta ∷ []));
      })

match_receipts-Adds :
    (standard aws : Option ℕ) (t t' : Tally)
    → match_receipts standard aws t ≡ ok t'
    → Adds t t' (both standard aws) 1
unfolding match_receipts both
match_receipts-Adds standard none t t' h =
    subst (λ s. Adds t s [] 1) (ok_injective h)
      (record { new_deltas = sym (append-nil (map (λ d. some d) t.deltas)); sorted = omega arith })
match_receipts-Adds none (some aws) t t' h =
    subst (λ s. Adds t s [] 1) (ok_injective h)
      (record { new_deltas = sym (append-nil (map (λ d. some d) t.deltas)); sorted = omega arith })
match_receipts-Adds (some standard) (some aws) t t' h =
    add_delta-Adds standard aws (receipt_delta standard aws) t t' refl h

tally_identity-Adds :
    (identity : PairedIdentity) (t t' : Tally)
    → tally_identity identity t ≡ ok t'
    → Adds t t' (matched_once identity) 1
unfolding tally_identity matched_once
tally_identity-Adds identity t t' =
    branches (ltb 1 identity.standard_count || ltb 1 identity.aws_count)
      (λ h.
        subst (λ s. Adds t s [] 1) (ok_injective h)
          (record {
            new_deltas = sym (append-nil (map (λ d. some d) t.deltas));
            sorted = omega arith;
          }))
      (λ h.
        let rest = match_receipts-Adds identity.standard identity.aws _ t' h in
        record { new_deltas = rest.new_deltas; sorted = rest.sorted })
  where
    branches :
        (b : Bool) {x y : Result Tally} {xs : List (ℕ × ℕ)}
        → (x ≡ ok t' → Adds t t' [] 1)
        → (y ≡ ok t' → Adds t t' xs 1)
        → (if b then x else y) ≡ ok t'
        → Adds t t' (if b then [] else xs) 1
    branches true h k e = h e
    branches false h k e = k e

tally_identities-Adds :
    (identities : List (PairedKey × PairedIdentity)) (t t' : Tally)
    → tally_identities identities t ≡ ok t'
    → Adds t t' (matched identities) (length identities)
unfolding tally_identities matched
tally_identities-Adds [] t t' h =
    subst (λ s. Adds t s [] 0) (ok_injective h)
      (record { new_deltas = sym (append-nil (map (λ d. some d) t.deltas)); sorted = omega arith })
tally_identities-Adds ((key, identity) ∷ identities) t t' h =
    let (middle, later, now) =
      bind_ok (tally_identities identities) (tally_identity identity t) h in
    let one = tally_identity-Adds identity t middle now in
    let others = tally_identities-Adds identities middle t' later in
    record {
      new_deltas =
          others.new_deltas
          ∙ ap (λ l. l ++ map difference (matched identities)) one.new_deltas
          ∙ append_assoc (map (λ d. some d) t.deltas) (map difference (matched_once identity))
              (map difference (matched identities))
          ∙ ap (λ l. map (λ d. some d) t.deltas ++ l)
              (sym (difference-append (matched_once identity) (matched identities)));
      sorted = omega (arith, one.sorted, others.sorted);
    }

-- Where the loop over the identities ends without a refusal, its deltas are the receipt
-- differences of the identities that each channel has exactly once, in the order of the map, and
-- every identity is counted once: as a delta, as unmatched on one of the channels, or as ambiguous.
pub tally_identities_lem :
    (identities : List (PairedKey × PairedIdentity)) (invalid_standard invalid_aws : ℕ) (t : Tally)
    → tally_identities identities (untallied invalid_standard invalid_aws) ≡ ok t
    → (map (λ d. some d) t.deltas ≡ map difference (matched identities))
      × (length t.deltas + t.unmatched_standard + t.unmatched_aws + t.ambiguous_identities
          ≡ length identities + invalid_standard + invalid_aws)
unfolding untallied
tally_identities_lem identities invalid_standard invalid_aws t h =
    let all_added = tally_identities-Adds identities (untallied invalid_standard invalid_aws) t h in
    (all_added.new_deltas, omega (arith, all_added.sorted))
