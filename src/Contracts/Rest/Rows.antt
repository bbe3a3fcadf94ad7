-- ===== src/Contracts/Rest/Rows.antt =====
-- src/Contracts.cpp, validate_rest_contract: the contracts that have a row schema.
use mathlib.Core.Path.{subst}
use test_exchanges_helper.Base.{
  ◌≡◌, ◌↔◌, inl, inr, refl, sym, ◌∙◌, ap, Bool, true, false, not, ◌&&◌, List, [], ◌∷◌, ◌++◌, Option,
  none, some, Bytes, is_empty, all, leb, length, Bool-cases, option_or, arith,
}
use test_exchanges_helper.Json.{Value, Fields}
use test_exchanges_helper.Contracts.Envelope.{
  RestSpec, envelope_success, rows_for, spec_for, is_private_contract,
}
use test_exchanges_helper.Contracts.Rest.{
  ContractEvidence, is_selected, select_row, missing_of, validate_row, validate_selected,
  validate_rows, validate_spec, validate_rest_contract,
}
use test_exchanges_helper.Contracts.Rest.Missing.{is_complete, missing_of-is_empty}
use test_exchanges_helper.Model.Outcomes.{
  RestContract, no_contract, binance_ticker24h, bitget_funding, binance_private, bybit_private,
  okx_private, gate_private, kucoin_private, bitget_private, htx_public_envelope,
  rest_contract_rank,
}

-- The first row that the loop selects.
pub record IsFirst (spec : RestSpec) (s : Bytes) (rows : List Fields) (row : Fields) : Type 0 where
  pub before : List Fields
  pub after : List Fields
  pub split : rows ≡ before ++ row ∷ after
  pub passed : all (λ r. not (is_selected spec s r)) before ≡ true
  pub chosen : is_selected spec s row ≡ true

select_row_here :
    (spec : RestSpec) (s : Bytes) (row : Fields) (rows : List Fields)
    → is_selected spec s row ≡ true
    → select_row spec s (row ∷ rows) ≡ some row
unfolding select_row
select_row_here spec s row rows h = rw h refl

select_row_later :
    (spec : RestSpec) (s : Bytes) (row : Fields) (rows : List Fields)
    → is_selected spec s row ≡ false
    → select_row spec s (row ∷ rows) ≡ select_row spec s rows
unfolding select_row
select_row_later spec s row rows h = rw h refl

select_row_sound :
    (spec : RestSpec) (s : Bytes) (rows : List Fields) (row : Fields)
    → select_row spec s rows ≡ some row
    → IsFirst spec s rows row
select_row_sound spec s [] row h = unfold select_row in cc
select_row_sound spec s (r ∷ rows) row h = elim (Bool-cases (is_selected spec s r)) [
  | inl chosen ↦
      let same : r ≡ row = cc (h, select_row_here spec s r rows chosen) in
      record {
        before = [];
        after = rows;
        split = ap (λ x. x ∷ rows) same;
        passed = refl;
        chosen = subst (λ x. is_selected spec s x ≡ true) same chosen;
      }
  | inr passed ↦
      let later =
        select_row_sound spec s rows row (sym (select_row_later spec s r rows passed) ∙ h) in
      record {
        before = r ∷ later.before;
        after = later.after;
        split = ap (λ rs. r ∷ rs) later.split;
        passed = ground (arith, passed, later.passed);
        chosen = later.chosen;
      }
]

select_row_complete :
    (spec : RestSpec) (s : Bytes) (before : List Fields) (row : Fields) (after : List Fields)
    → all (λ r. not (is_selected spec s r)) before ≡ true
    → is_selected spec s row ≡ true
    → select_row spec s (before ++ row ∷ after) ≡ some row
select_row_complete spec s [] row after passed chosen = select_row_here spec s row after chosen
select_row_complete spec s (r ∷ before) row after passed chosen =
    select_row_later spec s r (before ++ row ∷ after) (ground arith)
    ∙ select_row_complete spec s before row after (ground arith) chosen

both : (a b : Bool) → (a && b) ≡ true → (a ≡ true) × (b ≡ true)
both a b h = ground arith

-- The contracts whose answers are rows.
unfoldable pub has_rows : RestContract → Bool
has_rows c =
    leb (rest_contract_rank binance_ticker24h) (rest_contract_rank c)
    && leb (rest_contract_rank c) (rest_contract_rank bitget_funding)

validate_rest_contract_rows :
    (c : RestContract) (v : Value) (s : Bytes)
    → has_rows c ≡ true
    → (is_private_contract c ≡ false)
      × (validate_rest_contract c v s
          ≡ option_or (spec_for c) none (λ spec. some (validate_spec c spec v s)))
unfolding has_rows validate_rest_contract is_private_contract rest_contract_rank
validate_rest_contract_rows no_contract v s h = cc
validate_rest_contract_rows htx_public_envelope v s h = cc
validate_rest_contract_rows binance_private v s h = cc
validate_rest_contract_rows bybit_private v s h = cc
validate_rest_contract_rows okx_private v s h = cc
validate_rest_contract_rows gate_private v s h = cc
validate_rest_contract_rows kucoin_private v s h = cc
validate_rest_contract_rows bitget_private v s h = cc
validate_rest_contract_rows _ v s h = (refl, refl)

-- What the row that is chosen must have.
abbrev row_verdict : RestContract → RestSpec → Bytes → Option Fields → Bool
row_verdict c spec s row =
    option_or row false (λ row. is_selected spec s row && is_complete c spec row)

validate_selected_success :
    (c : RestContract) (spec : RestSpec) (e : ContractEvidence) (row : Option Fields) (s : Bytes)
    → e.schema_success ≡ false
    → e.missing_fields ≡ []
    → (validate_selected c spec e row s).schema_success ≡ row_verdict c spec s row
unfolding validate_selected validate_row is_selected
validate_selected_success c spec e none s fresh none_missing = fresh
validate_selected_success c spec e (some row) s fresh none_missing =
    ap (λ b. is_selected spec s row && b)
      (ap (λ m. is_empty (missing_of c spec row m)) none_missing ∙ missing_of-is_empty c spec row)

validate_rows_success :
    (c : RestContract) (spec : RestSpec) (e : ContractEvidence) (rows : List Fields) (s : Bytes)
    → e.schema_success ≡ false
    → e.missing_fields ≡ []
    → (validate_rows c spec e rows s).schema_success ≡ row_verdict c spec s (select_row spec s rows)
unfolding validate_rows
validate_rows_success c spec e [] s fresh none_missing = unfold select_row in fresh
validate_rows_success c spec e (r ∷ rows) s fresh none_missing =
    validate_selected_success c spec (record e { row_count = length (r ∷ rows) })
      (select_row spec s (r ∷ rows)) s fresh none_missing

validate_spec_success :
    (c : RestContract) (spec : RestSpec) (v : Value) (s : Bytes)
    → is_private_contract c ≡ false
    → (validate_spec c spec v s).schema_success ≡ (
        envelope_success spec.envelope v
        && row_verdict c spec s (select_row spec s (rows_for spec.envelope v)))
unfolding validate_spec
validate_spec_success c spec v s public = elim (Bool-cases (envelope_success spec.envelope v)) [
  | inl h ↦ rw h (rw public (validate_rows_success c spec _ _ s refl refl))
  | inr h ↦ rw h refl
]

-- The answer of a venue that a contract with rows accepts.
pub record IsAcceptable (c : RestContract) (spec : RestSpec) (v : Value) (s : Bytes) : Type 0 where
  pub success : envelope_success spec.envelope v ≡ true
  pub row : Fields
  pub first : IsFirst spec s (rows_for spec.envelope v) row
  pub complete : is_complete c spec row ≡ true

verdict_sound :
    (c : RestContract) (spec : RestSpec) (v : Value) (s : Bytes) (row : Option Fields)
    → envelope_success spec.envelope v ≡ true
    → select_row spec s (rows_for spec.envelope v) ≡ row
    → row_verdict c spec s row ≡ true
    → IsAcceptable c spec v s
verdict_sound c spec v s none success found verdict = cc
verdict_sound c spec v s (some row) success found verdict = record {
  success = success;
  row = row;
  first = select_row_sound spec s (rows_for spec.envelope v) row found;
  complete = (both (is_selected spec s row) _ verdict).1;
}

verdict_complete :
    (c : RestContract) (spec : RestSpec) (v : Value) (s : Bytes)
    → IsAcceptable c spec v s
    → (envelope_success spec.envelope v
        && row_verdict c spec s (select_row spec s (rows_for spec.envelope v)))
      ≡ true
verdict_complete c spec v s acceptable =
    let first = acceptable.first in
    let found : select_row spec s (rows_for spec.envelope v) ≡ some acceptable.row =
      ap (select_row spec s) first.split
      ∙ select_row_complete spec s first.before acceptable.row first.after first.passed
          first.chosen in
    rw acceptable.success (rw found (rw first.chosen acceptable.complete))

-- An answer under a contract with rows passes its schema exactly when its envelope reports a
-- success and the first of its rows that has the expected symbol, or the first of all where none is
-- expected, has every required field, each a finite number or a decimal text, and, for the funding
-- of KuCoin, two equal granularities that are decimal texts and not empty.
pub validate_rest_contract_iff :
    (c : RestContract) (spec : RestSpec) (v : Value) (s : Bytes) (e : ContractEvidence)
    → has_rows c ≡ true
    → spec_for c ≡ some spec
    → validate_rest_contract c v s ≡ some e
    → (e.schema_success ≡ true) ↔ IsAcceptable c spec v s
validate_rest_contract_iff c spec v s e rows is_spec is_evidence =
    let (public, checked) = validate_rest_contract_rows c v s rows in
    let computed : some (validate_spec c spec v s) ≡ some e =
      sym (checked ∙ ap (λ o. option_or o none (λ spec. some (validate_spec c spec v s))) is_spec)
      ∙ is_evidence in
    let same : validate_spec c spec v s ≡ e = cc computed in
    let verdict = ap (λ e. e.schema_success) (sym same) ∙ validate_spec_success c spec v s public in
    (
      λ h.
          let (success, found) = both (envelope_success spec.envelope v) _ (sym verdict ∙ h) in
          verdict_sound c spec v s _ success refl found,
      λ acceptable. verdict ∙ verdict_complete c spec v s acceptable,
    )
