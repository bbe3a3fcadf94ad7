-- ===== src/Tests/ContractRuns.antt =====
-- Answers of venues and binary messages at concrete inputs.
use test_exchanges_helper.Base.{◌≡◌, ◌↔◌, refl, true, [], ◌∷◌, some, codes, arith}
use test_exchanges_helper.Base.Decimal.{to_string, digits_onto}
use test_exchanges_helper.Base.Int.{pos}
use test_exchanges_helper.Json.{
  Value, int64, string, array, object, nil, cons, field, end, if_contains,
}
use test_exchanges_helper.Model.Kinds.{enum_name}
use test_exchanges_helper.Model.Outcomes.{
  bybit_funding, kucoin_funding, rest_contract_rank, rest_contract_to_string,
}
use test_exchanges_helper.Base.{bytes_eq}
use test_exchanges_helper.Contracts.Scalars.{
  member, scalar_text, signed_text, nonempty, past_sign, span_digits, span_fraction,
  ends_in_exponent, decimal_text, numeric_scalar,
}
use test_exchanges_helper.Contracts.Scalars.Decimals.{Number, decimal_text_iff_Number}
use test_exchanges_helper.Contracts.Envelope.{
  bybit, RestSpec, bybit_funding_required, api_code, envelope_success, list_of, raw_rows,
  object_items, rows_of, rows_for, spec_for, is_private_contract,
}
use test_exchanges_helper.Contracts.Rest.{
  ContractEvidence, is_selected, select_row, missing_required, missing_numeric, missing_granularity,
  missing_of, validate_row, validate_selected, validate_rows, validate_spec, validate_rest_contract,
}
use test_exchanges_helper.Contracts.Rest.Evidence.{
  IsConsistent, validate_rest_contract-IsConsistent,
}
use test_exchanges_helper.Contracts.Rest.Rows.{has_rows, IsAcceptable, validate_rest_contract_iff}
use test_exchanges_helper.Contracts.Wire.{valid_protobuf_wire}
use test_exchanges_helper.Contracts.Wire.Encoding.{
  varint, delimited, is_group, IsField, encode_fields, valid_protobuf_wire-encode_fields,
}

-- {"retCode": 0, "result": {"list": [{"symbol": "ETH"}, {"symbol": "BTC", "fundingRate": "-1e-4",
-- "nextFundingTime": "17"}]}}
abbrev bybit_answer : Value
bybit_answer = object (
    field (codes "retCode") (int64 (pos 0)) (
      field (codes "result")
        (object (
          field (codes "list")
            (array (
              cons (object (field (codes "symbol") (string (codes "ETH")) end)) (
                cons
                  (object (
                    field (codes "symbol") (string (codes "BTC")) (
                      field (codes "fundingRate") (string (codes "-1e-4"))
                        (field (codes "nextFundingTime") (string (codes "17")) end))))
                  nil)))
            end))
        end))

abbrev bybit_spec : RestSpec
bybit_spec = record {
  envelope = bybit;
  symbol_field = codes "symbol";
  required = bybit_funding_required;
  numeric = bybit_funding_required;
  units = "fundingRate=ratio;nextFundingTime=unix_ms";
}

abbrev bybit_evidence : ContractEvidence
bybit_evidence = record {
  logical_success = true;
  schema_success = true;
  symbol_success = true;
  row_count = 2;
  contract = codes "bybit_funding";
  native_symbol = codes "BTC";
  api_code = codes "0";
  units = "fundingRate=ratio;nextFundingTime=unix_ms";
  missing_fields = [];
  error = "";
}

validate_rest_contract_iff_example :
    (bybit_evidence.schema_success ≡ true)
    ↔ IsAcceptable bybit_funding bybit_spec bybit_answer (codes "BTC")
unfolding has_rows rest_contract_rank spec_for validate_rest_contract validate_spec envelope_success
    is_private_contract rows_for raw_rows list_of rows_of object_items validate_rows select_row
    is_selected validate_selected validate_row missing_of missing_required missing_numeric
    missing_granularity nonempty numeric_scalar decimal_text span_digits span_fraction past_sign
    ends_in_exponent scalar_text signed_text member if_contains bytes_eq api_code
    rest_contract_to_string enum_name to_string digits_onto
validate_rest_contract_iff_example =
    validate_rest_contract_iff bybit_funding bybit_spec bybit_answer (codes "BTC") bybit_evidence
      refl refl refl

validate_rest_contract-IsConsistent_example :
    (e : ContractEvidence) × (validate_rest_contract kucoin_funding bybit_answer [] ≡ some e)
    × IsConsistent e
validate_rest_contract-IsConsistent_example =
    validate_rest_contract-IsConsistent kucoin_funding bybit_answer []

decimal_text_iff_Number_example :
    (decimal_text (codes "-12.5e+3") ≡ true) ↔ Number (codes "-12.5e+3")
decimal_text_iff_Number_example = decimal_text_iff_Number (codes "-12.5e+3")

valid_protobuf_wire-encode_fields_example :
    valid_protobuf_wire (encode_fields (varint 1 300 ∷ delimited 3 (codes "BTCUSDT") ∷ [])) ≡ true
unfolding IsField is_group
valid_protobuf_wire-encode_fields_example =
    valid_protobuf_wire-encode_fields (varint 1 300) (delimited 3 (codes "BTCUSDT") ∷ [])
      ((omega arith, omega arith), omega arith) (((omega arith, omega arith), omega arith), tt)
