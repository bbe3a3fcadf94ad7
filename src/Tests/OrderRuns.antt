-- ===== src/Tests/OrderRuns.antt =====
-- The order of prices at concrete inputs.
use test_exchanges_helper.Base.{◌≡◌, refl, true, none, some, codes, ltb, bytes_eq, bytes_lt, arith}
use test_exchanges_helper.Analysis.Order.{
  decimal_less, normalized_less, integer_part, fraction_part, before_point, after_point, drop_zeros,
  strip_zeros, trim_zeros, fraction_less, char_lt,
}
use test_exchanges_helper.Analysis.Order.DecimalValue.{price_value, decimal_less-value}

decimal_less-value_example :
    decimal_less (codes "0099.50") (codes "100")
    ≡ ltb (price_value 2 (codes "0099") (some (codes "50"))) (price_value 2 (codes "100") none)
decimal_less-value_example =
    decimal_less-value 2 (codes "0099") (codes "100") (some (codes "50")) none refl refl refl refl
      (omega arith) (omega arith)

-- An exponent is no part of a plain decimal: 9000.5 stands behind 10000.1.
run_exponent : decimal_less (codes "1.00001E4") (codes "9.0005E3") ≡ true
unfolding decimal_less normalized_less integer_part fraction_part before_point after_point
    drop_zeros strip_zeros trim_zeros fraction_less char_lt bytes_eq bytes_lt
run_exponent = refl
