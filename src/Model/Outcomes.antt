-- ===== src/Model/Outcomes.antt =====
-- `Outcome`, `Expectation` and `RestContract` of include/exchange_probe/Model.hpp.
use test_exchanges_helper.Base.{ℕ, List, [], ◌∷◌, Bytes, codes, ◌==◌}
use test_exchanges_helper.Model.Kinds.{enum_name}

-- `Outcome`, the values of its enumerators, and its `to_string`
pub data Outcome : Type 0 where
  not_run success expected_rejection transport_error tls_error http_error logical_error schema_error
        timeout capacity_exceeded unsupported configuration_error internal_error :
      Outcome

unfoldable pub outcome_rank : Outcome → ℕ
outcome_rank not_run = 0
outcome_rank success = 1
outcome_rank expected_rejection = 2
outcome_rank transport_error = 3
outcome_rank tls_error = 4
outcome_rank http_error = 5
outcome_rank logical_error = 6
outcome_rank schema_error = 7
outcome_rank timeout = 8
outcome_rank capacity_exceeded = 9
outcome_rank unsupported = 10
outcome_rank configuration_error = 11
outcome_rank internal_error = 12

abbrev pub outcome_names : List (Outcome × Bytes)
outcome_names =
    (not_run, codes "not_run")
    ∷ (success, codes "success")
    ∷ (expected_rejection, codes "expected_rejection")
    ∷ (transport_error, codes "transport_error")
    ∷ (tls_error, codes "tls_error")
    ∷ (http_error, codes "http_error")
    ∷ (logical_error, codes "logical_error")
    ∷ (schema_error, codes "schema_error")
    ∷ (timeout, codes "timeout")
    ∷ (capacity_exceeded, codes "capacity_exceeded")
    ∷ (unsupported, codes "unsupported")
    ∷ (configuration_error, codes "configuration_error")
    ∷ (internal_error, codes "internal_error")
    ∷ []

unfoldable pub outcome_to_string : Outcome → Bytes
outcome_to_string value =
    enum_name (λ lhs rhs. outcome_rank lhs == outcome_rank rhs) value outcome_names
      (codes "unknown")

-- `Expectation`, the values of its enumerators, and its `to_string`
pub data Expectation : Type 0 where
  logical_success symbol_rejected : Expectation

unfoldable pub expectation_rank : Expectation → ℕ
expectation_rank logical_success = 0
expectation_rank symbol_rejected = 1

abbrev pub expectation_names : List (Expectation × Bytes)
expectation_names =
    (logical_success, codes "logical_success") ∷ (symbol_rejected, codes "symbol_rejected") ∷ []

unfoldable pub expectation_to_string : Expectation → Bytes
expectation_to_string value =
    enum_name (λ lhs rhs. expectation_rank lhs == expectation_rank rhs) value expectation_names
      (codes "unknown")

-- `RestContract`, the values of its enumerators, and its `to_string`
pub data RestContract : Type 0 where
  no_contract binance_ticker24h binance_funding bybit_ticker24h bybit_funding okx_ticker24h
        okx_funding gate_ticker24h gate_funding kucoin_ticker24h kucoin_funding bitget_ticker24h
        bitget_funding binance_private bybit_private okx_private gate_private kucoin_private
        bitget_private htx_public_envelope :
      RestContract

unfoldable pub rest_contract_rank : RestContract → ℕ
rest_contract_rank no_contract = 0
rest_contract_rank binance_ticker24h = 1
rest_contract_rank binance_funding = 2
rest_contract_rank bybit_ticker24h = 3
rest_contract_rank bybit_funding = 4
rest_contract_rank okx_ticker24h = 5
rest_contract_rank okx_funding = 6
rest_contract_rank gate_ticker24h = 7
rest_contract_rank gate_funding = 8
rest_contract_rank kucoin_ticker24h = 9
rest_contract_rank kucoin_funding = 10
rest_contract_rank bitget_ticker24h = 11
rest_contract_rank bitget_funding = 12
rest_contract_rank binance_private = 13
rest_contract_rank bybit_private = 14
rest_contract_rank okx_private = 15
rest_contract_rank gate_private = 16
rest_contract_rank kucoin_private = 17
rest_contract_rank bitget_private = 18
rest_contract_rank htx_public_envelope = 19

abbrev pub rest_contract_names : List (RestContract × Bytes)
rest_contract_names =
    (no_contract, codes "none")
    ∷ (binance_ticker24h, codes "binance_ticker24h")
    ∷ (binance_funding, codes "binance_funding")
    ∷ (bybit_ticker24h, codes "bybit_ticker24h")
    ∷ (bybit_funding, codes "bybit_funding")
    ∷ (okx_ticker24h, codes "okx_ticker24h")
    ∷ (okx_funding, codes "okx_funding")
    ∷ (gate_ticker24h, codes "gate_ticker24h")
    ∷ (gate_funding, codes "gate_funding")
    ∷ (kucoin_ticker24h, codes "kucoin_ticker24h")
    ∷ (kucoin_funding, codes "kucoin_funding")
    ∷ (bitget_ticker24h, codes "bitget_ticker24h")
    ∷ (bitget_funding, codes "bitget_funding")
    ∷ (binance_private, codes "binance_private")
    ∷ (bybit_private, codes "bybit_private")
    ∷ (okx_private, codes "okx_private")
    ∷ (gate_private, codes "gate_private")
    ∷ (kucoin_private, codes "kucoin_private")
    ∷ (bitget_private, codes "bitget_private")
    ∷ (htx_public_envelope, codes "htx_public_envelope")
    ∷ []

unfoldable pub rest_contract_to_string : RestContract → Bytes
rest_contract_to_string value =
    enum_name (λ lhs rhs. rest_contract_rank lhs == rest_contract_rank rhs) value
      rest_contract_names (codes "unknown")
