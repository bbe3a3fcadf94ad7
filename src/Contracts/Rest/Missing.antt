-- ===== src/Contracts/Rest/Missing.antt =====
-- src/Contracts.cpp, validate_rest_contract: what a row lacks.
use test_exchanges_helper.Base.{
  ◌≡◌, refl, ◌∙◌, ap, Bool, true, false, ◌&&◌, List, [], ◌∷◌, ◌++◌, Bytes, bytes_eq, is_empty, any,
  all, if◌then◌else◌, arith,
}
use test_exchanges_helper.Json.{Fields}
use test_exchanges_helper.Contracts.Scalars.{member, nonempty, numeric_scalar}
use test_exchanges_helper.Contracts.Envelope.{RestSpec}
use test_exchanges_helper.Contracts.Rest.{
  missing_required, push_marker, missing_numeric, is_granular, missing_granularity, missing_of,
}
use test_exchanges_helper.Model.Outcomes.{RestContract, kucoin_funding}

-- The granularity that a KuCoin funding row must have.
unfoldable pub has_granularity : RestContract → Fields → Bool
has_granularity kucoin_funding row = is_granular row
has_granularity _ row = true

append_nonempty : (xs : List Bytes) (y : Bytes) → is_empty (xs ++ y ∷ []) ≡ false
append_nonempty [] y = refl
append_nonempty (x ∷ xs) y = refl

keep_or :
    (b : Bool) (xs ys : List Bytes)
    → is_empty ys ≡ false
    → is_empty (if b then xs else ys) ≡ (is_empty xs && b)
keep_or true xs ys h = ground arith
keep_or false xs ys h = ground arith

and_assoc : (a b c : Bool) → ((a && b) && c) ≡ (a && (b && c))
and_assoc a b c = ground arith

missing_required-is_empty :
    (row : Fields) (names missing : List Bytes)
    → is_empty (missing_required row names missing)
      ≡ (is_empty missing && all (λ name. nonempty (member row name)) names)
unfolding missing_required
missing_required-is_empty row [] missing = ground arith
missing_required-is_empty row (name ∷ names) missing =
    let later = all (λ name. nonempty (member row name)) names in
    let step = keep_or (nonempty (member row name)) missing _ (append_nonempty missing name) in
    missing_required-is_empty row names _ ∙ ap (λ b. b && later) step ∙ and_assoc _ _ later

push_marker-is_empty :
    (marker : Bytes) (missing : List Bytes) → is_empty (push_marker marker missing) ≡ false
unfolding push_marker
push_marker-is_empty marker [] = refl
push_marker-is_empty marker (x ∷ xs) =
    keep_or (any (λ present. bytes_eq present marker) (x ∷ xs)) (x ∷ xs) _ refl

missing_numeric-is_empty :
    (row : Fields) (names missing : List Bytes)
    → is_empty (missing_numeric row names missing)
      ≡ (is_empty missing && all (λ name. numeric_scalar (member row name)) names)
unfolding missing_numeric
missing_numeric-is_empty row [] missing = ground arith
missing_numeric-is_empty row (name ∷ names) missing =
    let later = all (λ name. numeric_scalar (member row name)) names in
    let step =
      keep_or (numeric_scalar (member row name)) missing _ (push_marker-is_empty _ missing) in
    missing_numeric-is_empty row names _ ∙ ap (λ b. b && later) step ∙ and_assoc _ _ later

missing_granularity-is_empty :
    (c : RestContract) (row : Fields) (missing : List Bytes)
    → is_empty (missing_granularity c row missing) ≡ (is_empty missing && has_granularity c row)
unfolding missing_granularity has_granularity
missing_granularity-is_empty kucoin_funding row missing =
    keep_or (is_granular row) missing _ (append_nonempty missing _)
missing_granularity-is_empty _ row missing = ground arith

-- A row that lacks nothing.
unfoldable pub is_complete : RestContract → RestSpec → Fields → Bool
is_complete c spec row =
    all (λ name. nonempty (member row name)) spec.required
    && all (λ name. numeric_scalar (member row name)) spec.numeric
    && has_granularity c row

pub missing_of-is_empty :
    (c : RestContract) (spec : RestSpec) (row : Fields)
    → is_empty (missing_of c spec row []) ≡ is_complete c spec row
unfolding missing_of is_complete
missing_of-is_empty c spec row =
    let required = missing_required-is_empty row spec.required [] in
    let numeric =
      missing_numeric-is_empty row spec.numeric (missing_required row spec.required []) in
    missing_granularity-is_empty c row _
    ∙ ap (λ b. b && has_granularity c row)
        (numeric
          ∙ ap (λ b. b && all (λ name. numeric_scalar (member row name)) spec.numeric) required)
