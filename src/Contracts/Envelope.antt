-- ===== src/Contracts/Envelope.antt =====
-- src/Contracts.cpp: the envelopes of the venues, and the row schema of each REST contract.
use test_exchanges_helper.Base.{
  Bool, true, false, not, ◌&&◌, ◌||◌, List, [], ◌∷◌, Option, none, some, Bytes, String, bytes_eq,
  codes, leb,
}
use test_exchanges_helper.Json.{Value, array, object, Items, nil, cons, Fields, is_object, is_array}
use test_exchanges_helper.Contracts.Scalars.{member, scalar_text}
use test_exchanges_helper.Model.Outcomes.{
  RestContract, no_contract, binance_ticker24h, binance_funding, bybit_ticker24h, bybit_funding,
  okx_ticker24h, okx_funding, gate_ticker24h, gate_funding, kucoin_ticker24h, kucoin_funding,
  bitget_ticker24h, bitget_funding, binance_private, bybit_private, okx_private, gate_private,
  kucoin_private, bitget_private, htx_public_envelope, rest_contract_rank,
}

-- `Envelope`
pub data Envelope : Type 0 where
  plain binance bybit okx gate kucoin_uta kucoin_futures bitget : Envelope

-- `RestSpec`
pub record RestSpec : Type 0 where
  pub envelope : Envelope
  pub symbol_field : Bytes
  pub required : List Bytes
  pub numeric : List Bytes
  pub units : String

abbrev pub binance_ticker_required : List Bytes
binance_ticker_required = codes "quoteVolume" ∷ codes "priceChangePercent" ∷ []

abbrev pub binance_funding_required : List Bytes
binance_funding_required = codes "lastFundingRate" ∷ codes "nextFundingTime" ∷ []

abbrev pub bybit_ticker_required : List Bytes
bybit_ticker_required = codes "turnover24h" ∷ codes "price24hPcnt" ∷ []

abbrev pub bybit_funding_required : List Bytes
bybit_funding_required = codes "fundingRate" ∷ codes "nextFundingTime" ∷ []

abbrev pub okx_ticker_required : List Bytes
okx_ticker_required = codes "volCcy24h" ∷ codes "last" ∷ codes "open24h" ∷ []

abbrev pub okx_funding_required : List Bytes
okx_funding_required = codes "fundingRate" ∷ codes "nextFundingTime" ∷ []

abbrev pub gate_ticker_required : List Bytes
gate_ticker_required = codes "volume_24h_quote" ∷ codes "change_percentage" ∷ []

abbrev pub gate_funding_required : List Bytes
gate_funding_required =
    codes "funding_rate" ∷ codes "funding_next_apply" ∷ codes "funding_interval" ∷ []

abbrev pub kucoin_ticker_required : List Bytes
kucoin_ticker_required = codes "quoteVolume" ∷ codes "priceChangePercent" ∷ []

abbrev pub kucoin_funding_required : List Bytes
kucoin_funding_required = codes "fundingFeeRate" ∷ codes "nextFundingRateDateTime" ∷ []

abbrev pub bitget_ticker_required : List Bytes
bitget_ticker_required = codes "turnover24h" ∷ codes "price24hPcnt" ∷ []

abbrev pub bitget_funding_required : List Bytes
bitget_funding_required =
    codes "fundingRate" ∷ codes "fundingRateInterval" ∷ codes "nextUpdate" ∷ []

-- `api_code`
unfoldable pub api_code : Envelope → Value → Bytes
api_code binance (object fs) = scalar_text (member fs (codes "code"))
api_code bybit (object fs) = scalar_text (member fs (codes "retCode"))
api_code okx (object fs) = scalar_text (member fs (codes "code"))
api_code bitget (object fs) = scalar_text (member fs (codes "code"))
api_code kucoin_uta (object fs) = scalar_text (member fs (codes "code"))
api_code kucoin_futures (object fs) = scalar_text (member fs (codes "code"))
api_code gate (object fs) = scalar_text (member fs (codes "label"))
api_code _ _ = []

-- `pointer != nullptr`
abbrev pub is_present : Option Value → Bool
is_present none = false
is_present (some v) = true

-- `envelope_success`
unfoldable pub envelope_success : Envelope → Value → Bool
envelope_success plain value = is_object value || is_array value
envelope_success binance (object fs) =
    not (is_present (member fs (codes "code")) && not (is_present (member fs (codes "symbol"))))
envelope_success binance value = true
envelope_success bybit (object fs) =
    bytes_eq (scalar_text (member fs (codes "retCode"))) (codes "0")
envelope_success bybit value = false
envelope_success okx (object fs) = bytes_eq (scalar_text (member fs (codes "code"))) (codes "0")
envelope_success okx value = false
envelope_success gate (object fs) =
    not (is_present (member fs (codes "label")) || is_present (member fs (codes "message")))
envelope_success gate value = true
envelope_success kucoin_uta (object fs) =
    bytes_eq (scalar_text (member fs (codes "code"))) (codes "200000")
envelope_success kucoin_uta value = false
envelope_success kucoin_futures (object fs) =
    bytes_eq (scalar_text (member fs (codes "code"))) (codes "200000")
envelope_success kucoin_futures value = false
envelope_success bitget (object fs) =
    bytes_eq (scalar_text (member fs (codes "code"))) (codes "00000")
envelope_success bitget value = false

-- `member(v->as_object(), "list")` where the pointer is an object
unfoldable pub list_of : Option Value → Option Value
list_of (some (object fs)) = member fs (codes "list")
list_of _ = none

-- The value that `rows_for` takes the rows from; `none` is the null pointer.
unfoldable pub raw_rows : Envelope → Value → Option Value
raw_rows bybit (object fs) = list_of (member fs (codes "result"))
raw_rows okx (object fs) = member fs (codes "data")
raw_rows bitget (object fs) = member fs (codes "data")
raw_rows kucoin_uta (object fs) = list_of (member fs (codes "data"))
raw_rows kucoin_futures (object fs) = member fs (codes "data")
raw_rows _ value = some value

-- The objects among the elements of an array.
unfoldable pub object_items : Items → List Fields
object_items nil = []
object_items (cons (object fs) xs) = fs ∷ object_items xs
object_items (cons v xs) = object_items xs

unfoldable pub rows_of : Option Value → List Fields
rows_of (some (object fs)) = fs ∷ []
rows_of (some (array xs)) = object_items xs
rows_of _ = []

-- `rows_for`
unfoldable pub rows_for : Envelope → Value → List Fields
rows_for envelope value = rows_of (raw_rows envelope value)

row_spec : Envelope → Bytes → List Bytes → String → RestSpec
row_spec envelope symbol_field required units = record {
  envelope = envelope;
  symbol_field = symbol_field;
  required = required;
  numeric = required;
  units = units;
}

private_spec : Envelope → RestSpec
private_spec envelope = record {
  envelope = envelope;
  symbol_field = [];
  required = [];
  numeric = [];
  units = "";
}

-- `spec_for`; `none` is the `std::logic_error` for the contract that has no row schema.
unfoldable pub spec_for : RestContract → Option RestSpec
unfolding row_spec private_spec
spec_for binance_ticker24h = some (
    row_spec binance (codes "symbol") binance_ticker_required
      "quoteVolume=quote;priceChangePercent=percentage_points")
spec_for binance_funding = some (
    row_spec binance (codes "symbol") binance_funding_required
      "lastFundingRate=ratio;nextFundingTime=unix_ms")
spec_for bybit_ticker24h =
    some
      (row_spec bybit (codes "symbol") bybit_ticker_required "turnover24h=quote;price24hPcnt=ratio")
spec_for bybit_funding = some (
    row_spec bybit (codes "symbol") bybit_funding_required
      "fundingRate=ratio;nextFundingTime=unix_ms")
spec_for okx_ticker24h = some (
    row_spec okx (codes "instId") okx_ticker_required
      "volCcy24h=base;quoteVolume=derived;change=last/open24h")
spec_for okx_funding =
    some (
      row_spec okx (codes "instId") okx_funding_required
        "fundingRate=ratio;nextFundingTime=unix_ms")
spec_for gate_ticker24h = some (
    row_spec gate (codes "contract") gate_ticker_required
      "volume_24h_quote=quote;change_percentage=percentage_points")
spec_for gate_funding = some (
    row_spec gate (codes "name") gate_funding_required
      "funding_rate=ratio;funding_next_apply=unix_s;funding_interval=s")
spec_for kucoin_ticker24h = some (
    row_spec kucoin_uta (codes "symbol") kucoin_ticker_required
      "quoteVolume=quote;priceChangePercent=percentage_points")
spec_for kucoin_funding = some (
    row_spec kucoin_futures (codes "symbol") kucoin_funding_required
      "fundingFeeRate=ratio;nextFundingRateDateTime=unix_ms")
spec_for bitget_ticker24h =
    some (
      row_spec bitget (codes "symbol") bitget_ticker_required
        "turnover24h=quote;price24hPcnt=ratio")
spec_for bitget_funding = some (
    row_spec bitget (codes "symbol") bitget_funding_required
      "fundingRate=ratio;fundingRateInterval=hours;nextUpdate=unix_ms")
spec_for binance_private = some (private_spec binance)
spec_for bybit_private = some (private_spec bybit)
spec_for okx_private = some (private_spec okx)
spec_for gate_private = some (private_spec gate)
spec_for kucoin_private = some (private_spec kucoin_uta)
spec_for bitget_private = some (private_spec bitget)
spec_for no_contract = some (private_spec plain)
spec_for htx_public_envelope = none

-- `is_private_contract`, by the values of the enumerators
unfoldable pub is_private_contract : RestContract → Bool
is_private_contract contract =
    leb (rest_contract_rank binance_private) (rest_contract_rank contract)
    && leb (rest_contract_rank contract) (rest_contract_rank bitget_private)
