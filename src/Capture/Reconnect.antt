-- ===== src/Capture/Reconnect.antt =====
-- src/Research/HtxReconnectPolicy.hpp. Times are whole milliseconds of the steady clock.
use test_exchanges_helper.Base.{
  ℕ, ◌+◌, ◌-◌, ◌%◌, Bool, true, false, not, ◌&&◌, ◌||◌, Option, none, some, Bytes, bytes_eq, codes,
  leb, ltb, ◌==◌, is_alpha, is_digit, is_empty, all, length, if◌then◌else◌,
}
use test_exchanges_helper.Json.{Value, string, object, Fields, field, end, if_contains}
use test_exchanges_helper.ResearchProfile.{
  ResearchChannel, ResearchChannelKind, trade, ResearchSupport, candidate, unavailable,
}

-- The error codes that the policy tells apart; `other` is every further one.
pub data ErrorCode : Type 0 where
  connection_reset connection_aborted broken_pipe eof timed_out : ErrorCode
  beast_timeout stream_truncated websocket_closed other : ErrorCode

-- `retryable_io_error`
unfoldable pub retryable_io_error : ErrorCode → Bool → Bool
retryable_io_error connection_reset normal_close = true
retryable_io_error connection_aborted normal_close = true
retryable_io_error broken_pipe normal_close = true
retryable_io_error eof normal_close = true
retryable_io_error timed_out normal_close = true
retryable_io_error beast_timeout normal_close = true
retryable_io_error stream_truncated normal_close = true
retryable_io_error websocket_closed normal_close = normal_close
retryable_io_error other normal_close = false

-- `reconnect_symbol_supported`
unfoldable pub reconnect_symbol_supported : Bytes → Bytes → Bool
reconnect_symbol_supported product symbol =
    if (not (bytes_eq product (codes "spot")) && not (bytes_eq product (codes "futures")))
      || is_empty symbol
      || ltb 64 (length symbol)
    then false
    else all (λ c. is_alpha c || is_digit c || (bytes_eq product (codes "futures") && c == b'-'))
        symbol

abbrev pub is_trade : ResearchChannelKind → Bool
is_trade trade = true
is_trade _ = false

abbrev pub is_candidate_or_unavailable : ResearchSupport → Bool
is_candidate_or_unavailable candidate = true
is_candidate_or_unavailable unavailable = true
is_candidate_or_unavailable _ = false

-- The host and the path that a product may use.
unfoldable pub supported_endpoint : Bytes → Bytes → Bytes → Bool
supported_endpoint product host path =
    if bytes_eq product (codes "spot")
    then (bytes_eq host (codes "api.huobi.pro") || bytes_eq host (codes "api-aws.huobi.pro"))
      && bytes_eq path (codes "/ws")
    else if bytes_eq product (codes "futures")
    then (bytes_eq host (codes "api.hbdm.com") || bytes_eq host (codes "api.hbdm.vn"))
      && bytes_eq path (codes "/linear-swap-ws")
    else false

-- `field.key() != "sub" && field.key() != "id"` holds of no field.
unfoldable pub only_sub_and_id : Fields → Bool
only_sub_and_id end = true
only_sub_and_id (field key v fs) =
    (bytes_eq key (codes "sub") || bytes_eq key (codes "id")) && only_sub_and_id fs

unfoldable pub is_trade_topic : Option Value → Bool
is_trade_topic (some (string topic)) = bytes_eq topic (codes "market.{symbol}.trade.detail")
is_trade_topic v = false

unfoldable pub supported_subscription : Option Value → Bool
supported_subscription (some (object fs)) =
    is_trade_topic (if_contains (codes "sub") fs) && only_sub_and_id fs
supported_subscription v = false

-- `reconnect_supported`; `parse` is boost's parser.
unfoldable pub reconnect_supported : (Bytes → Option Value) → Bytes → Bytes → ResearchChannel → Bool
reconnect_supported parse venue product channel =
    if not (bytes_eq venue (codes "htx"))
      || not (is_trade channel.kind)
      || not (bytes_eq channel.transport (codes "ws"))
      || not (bytes_eq channel.wire (codes "json"))
      || (not (bytes_eq channel.compression (codes "none"))
          && not (bytes_eq channel.compression (codes "gzip")))
      || not (channel.port == 443)
      || channel.subscribe_binary
      || is_candidate_or_unavailable channel.support
    then false
    else supported_endpoint product channel.host channel.path
      && supported_subscription (parse channel.subscribe)

-- `reconnect_wait`
unfoldable pub reconnect_wait : ℕ → ℕ → ℕ → ℕ → ℕ → Option ℕ
reconnect_wait completed_attempt maximum_attempts now deadline jitter_seed =
    if ltb maximum_attempts 1
      || ltb 3 maximum_attempts
      || completed_attempt == 0
      || leb maximum_attempts completed_attempt
      || leb deadline now
    then none
    else if leb (deadline - now) (250 + jitter_seed % 101)
    then none
    else some (250 + jitter_seed % 101)
