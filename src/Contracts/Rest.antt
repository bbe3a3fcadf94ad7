-- ===== src/Contracts/Rest.antt =====
-- src/Contracts.cpp, validate_rest_contract. `none` is the `std::logic_error` of spec_for.
pub mod Evidence
pub mod Missing
pub mod Rows
use test_exchanges_helper.Base.{
  ℕ, Bool, true, false, not, ◌&&◌, ◌||◌, List, [], ◌∷◌, ◌++◌, Option, none, some, Bytes, String,
  bytes_eq, codes, is_empty, any, length, if◌then◌else◌, option_or,
}
use test_exchanges_helper.Json.{
  Value, null, boolean, int64, uint64, double, string, array, object, Items, nil, cons, Fields,
  is_object, is_array, size,
}
use test_exchanges_helper.Contracts.Scalars.{
  member, scalar_text, nonempty, decimal_text, numeric_scalar,
}
use test_exchanges_helper.Contracts.Envelope.{
  RestSpec, api_code, envelope_success, rows_for, spec_for, is_private_contract,
}
use test_exchanges_helper.Model.Outcomes.{
  RestContract, no_contract, kucoin_funding, htx_public_envelope, rest_contract_rank,
  rest_contract_to_string,
}

-- `ContractEvidence` of include/exchange_probe/Model.hpp
pub record ContractEvidence : Type 0 where
  pub logical_success : Bool
  pub schema_success : Bool
  pub symbol_success : Bool
  pub row_count : ℕ
  pub contract : Bytes
  pub native_symbol : Bytes
  pub api_code : Bytes
  pub units : String
  pub missing_fields : List Bytes
  pub error : String

-- `ContractEvidence evidence; evidence.contract = to_string(contract);`
abbrev pub fresh_evidence : RestContract → ContractEvidence
fresh_evidence contract = record {
  logical_success = false;
  schema_success = false;
  symbol_success = false;
  row_count = 0;
  contract = rest_contract_to_string contract;
  native_symbol = [];
  api_code = [];
  units = "";
  missing_fields = [];
  error = "";
}

-- The shapes of the payload of an HTX envelope.
unfoldable pub is_data_shape : Option Value → Bool
is_data_shape (some v) = is_object v || is_array v
is_data_shape none = false

unfoldable pub is_tick_shape : Option Value → Bool
is_tick_shape (some v) = is_object v
is_tick_shape none = false

unfoldable pub htx_row_count : Option Value → ℕ
htx_row_count (some (array xs)) = size xs
htx_row_count _ = 1

unfoldable pub is_ok : Option Value → Bool
is_ok (some (string s)) = bytes_eq s (codes "ok")
is_ok _ = false

-- `err-code`, or else the status.
htx_api_code : Bytes → Option Value → Bytes
htx_api_code code status = if is_empty code then scalar_text status else code

-- The branch of validate_rest_contract for an HTX envelope that is an object.
unfoldable pub validate_htx_object : ContractEvidence → Fields → ContractEvidence
unfolding htx_api_code
validate_htx_object evidence fs =
    let status = member fs (codes "status") in
    let payload = member fs (codes "data") in
    let coded = record evidence {
      api_code = htx_api_code (scalar_text (member fs (codes "err-code"))) status;
      logical_success = is_ok status;
    } in
    if not (is_ok status)
    then record coded { error = "exchange_logical_error" }
    else if not (is_data_shape payload) && not (is_tick_shape (member fs (codes "tick")))
    then record coded {
      missing_fields = coded.missing_fields ++ codes "data:object_or_array|tick:object" ∷ [];
      error = "htx_public_envelope_payload_missing_or_invalid";
    }
    else record coded {
      symbol_success = true;
      schema_success = true;
      row_count = htx_row_count payload;
    }

-- The branch of validate_rest_contract for an HTX envelope.
unfoldable pub validate_htx : ContractEvidence → Value → Bytes → ContractEvidence
validate_htx evidence value expected_symbol =
    let e = record evidence { units = "envelope_only;numeric_units_not_validated" } in
    if not (is_empty expected_symbol)
    then record e { error = "htx_envelope_symbol_proof_unavailable" }
    else (elim value [
      | object fs ↦ validate_htx_object e fs
      | _ ↦ record e { error = "htx_public_envelope_not_object" }
    ])

-- A row that the loop over the rows selects.
unfoldable pub is_selected : RestSpec → Bytes → Fields → Bool
is_selected spec expected_symbol row =
    is_empty expected_symbol
    || bytes_eq (scalar_text (member row spec.symbol_field)) expected_symbol

unfoldable pub select_row : RestSpec → Bytes → List Fields → Option Fields
select_row spec expected_symbol [] = none
select_row spec expected_symbol (row ∷ rows) =
    let later = select_row spec expected_symbol rows in
    if is_selected spec expected_symbol row then some row else later

-- The two loops over the fields of a row, each behind the fields found missing before.
unfoldable pub missing_required : Fields → List Bytes → List Bytes → List Bytes
missing_required row [] missing = missing
missing_required row (name ∷ names) missing =
    missing_required row names
      (if nonempty (member row name) then missing else missing ++ name ∷ [])

abbrev pub non_numeric_marker : Bytes → Bytes
non_numeric_marker name = name ++ codes ":non_numeric"

-- `std::find` before the marker is appended.
unfoldable pub push_marker : Bytes → List Bytes → List Bytes
push_marker marker missing =
    if any (λ present. bytes_eq present marker) missing then missing else missing ++ marker ∷ []

unfoldable pub missing_numeric : Fields → List Bytes → List Bytes → List Bytes
missing_numeric row [] missing = missing
missing_numeric row (name ∷ names) missing = missing_numeric row names (
    if numeric_scalar (member row name)
    then missing
    else push_marker (non_numeric_marker name) missing)

-- The granularities of a KuCoin funding row: both there, the same, and a decimal.
unfoldable pub is_granular : Fields → Bool
is_granular row =
    let current = scalar_text (member row (codes "currentFundingRateGranularity")) in
    let configured = scalar_text (member row (codes "fundingRateGranularity")) in
    not (
      is_empty current
      || is_empty configured
      || not (bytes_eq current configured)
      || not (decimal_text current))

unfoldable pub missing_granularity : RestContract → Fields → List Bytes → List Bytes
missing_granularity kucoin_funding row missing =
    if is_granular row then missing else missing ++ codes "consistent_funding_granularity" ∷ []
missing_granularity _ row missing = missing

-- What the row that was selected lacks.
unfoldable pub missing_of : RestContract → RestSpec → Fields → List Bytes → List Bytes
missing_of contract spec row missing =
    missing_granularity contract row
      (missing_numeric row spec.numeric (missing_required row spec.required missing))

-- validate_rest_contract behind the choice of a row.
unfoldable pub validate_row :
    RestContract → RestSpec → ContractEvidence → Fields → Bytes → ContractEvidence
validate_row contract spec evidence row expected_symbol =
    let native_symbol = scalar_text (member row spec.symbol_field) in
    let symbol_success = is_empty expected_symbol || bytes_eq native_symbol expected_symbol in
    let missing = missing_of contract spec row evidence.missing_fields in
    let schema_success = symbol_success && is_empty missing in
    record evidence {
      native_symbol = native_symbol;
      symbol_success = symbol_success;
      missing_fields = missing;
      schema_success = schema_success;
      error = if schema_success then evidence.error else "required_schema_mismatch";
    }

unfoldable pub validate_selected :
    RestContract → RestSpec → ContractEvidence → Option Fields → Bytes → ContractEvidence
validate_selected declared spec evidence none expected_symbol = record evidence {
  error = "expected_symbol_missing";
}
validate_selected declared spec evidence (some row) expected_symbol =
    validate_row declared spec evidence row expected_symbol

unfoldable pub validate_rows :
    RestContract → RestSpec → ContractEvidence → List Fields → Bytes → ContractEvidence
validate_rows contract spec evidence rows expected_symbol =
    let e = record evidence { row_count = length rows } in
    if is_empty rows
    then record e { error = "empty_or_invalid_rows" }
    else validate_selected contract spec e (select_row spec expected_symbol rows) expected_symbol

unfoldable pub validate_private : ContractEvidence → Value → ContractEvidence
validate_private evidence value = record evidence {
  schema_success = is_object value || is_array value;
  symbol_success = true;
  error =
      if is_object value || is_array value
      then evidence.error
      else "private_response_not_object_or_array";
}

-- validate_rest_contract behind the contracts that have no row schema.
unfoldable pub validate_spec : RestContract → RestSpec → Value → Bytes → ContractEvidence
validate_spec contract spec value expected_symbol =
    let evidence = record (fresh_evidence contract) {
      units = spec.units;
      api_code = api_code spec.envelope value;
      logical_success = envelope_success spec.envelope value;
    } in
    if not (envelope_success spec.envelope value)
    then record evidence { error = "exchange_logical_error" }
    else if is_private_contract contract
    then validate_private evidence value
    else validate_rows contract spec evidence (rows_for spec.envelope value) expected_symbol

-- `validate_rest_contract`
unfoldable pub validate_rest_contract : RestContract → Value → Bytes → Option ContractEvidence
validate_rest_contract htx_public_envelope value expected_symbol =
    some (validate_htx (fresh_evidence htx_public_envelope) value expected_symbol)
validate_rest_contract no_contract value expected_symbol =
    some (record (fresh_evidence no_contract) { error = "contract_not_declared" })
validate_rest_contract contract value expected_symbol =
    option_or (spec_for contract) none
      (λ spec. some (validate_spec contract spec value expected_symbol))
