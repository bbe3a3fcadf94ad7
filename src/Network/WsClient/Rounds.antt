-- ===== src/Network/WsClient/Rounds.antt =====
-- src/Network/WsClient.cpp, observe_ws: one round of the loop, by what is heard.
use mathlib.Core.Path.{subst}
use test_exchanges_helper.Base.{
  ◌≡◌, refl, sym, ◌∙◌, ap, Bool, true, false, not, ◌&&◌, ◌||◌, [], Option, none, some, Bytes, arith,
}
use test_exchanges_helper.Json.{Value}
use test_exchanges_helper.Model.Products.{WsCase}
use test_exchanges_helper.Network.WsClient.{
  WsResult, Heard, broken, pinged, judged, Observing, apply_verdicts, record_message, write_pong,
  observe_heard,
}

-- A message that the loop passes: one with neither verdict, or a heartbeat that is answered.
unfoldable pub is_quiet : Heard → Option Bytes → Bool
is_quiet (judged binary text json ack found) write_error = not ack.matched && not found.matched
is_quiet (pinged pong) none = true
is_quiet _ _ = false

-- The same, where acknowledgements no longer count.
unfoldable pub is_silent : Heard → Option Bytes → Bool
is_silent (judged binary text json ack found) write_error = not found.matched
is_silent (pinged pong) none = true
is_silent _ _ = false

-- An acknowledgement that is no data, and data.
unfoldable pub is_ack : Heard → Bool
is_ack (judged binary text json ack found) = ack.matched && not found.matched
is_ack _ = false

unfoldable pub is_data : Heard → Bool
is_data (judged binary text json ack found) = found.matched
is_data _ = false

-- The loop goes on, without data and without an error.
pub record IsOpen (acked : Bool) (o : Observing) : Type 0 where
  pub same_ack : o.acked ≡ acked
  pub stays : o.left ≡ false
  pub no_data : o.result.data_complete ≡ false
  pub no_error : o.result.error ≡ []

-- The loop is left with all that is required.
pub record IsDone (o : Observing) : Type 0 where
  pub with_ack : o.acked ≡ true
  pub leaves : o.left ≡ true
  pub with_data : o.result.data_complete ≡ true
  pub cleared : o.result.error ≡ []

module _ (probe_case : WsCase) (required : probe_case.require_data ≡ true) where
  message-IsOpen :
      (binary : Bool) (text : Bytes) (json : Option Value) (acked : Bool) (result : WsResult)
      → result.data_complete ≡ false
      → result.error ≡ []
      → IsOpen acked (record_message probe_case binary text json (acked, result))
  unfolding record_message
  message-IsOpen binary text json acked result h k = record {
    same_ack = ground (arith, required, h);
    stays = ground (arith, required, h);
    no_data = ground (arith, required, h);
    no_error = ground (arith, required, h);
  }

  message-IsDone :
      (binary : Bool) (text : Bytes) (json : Option Value) (result : WsResult)
      → result.data_complete ≡ true
      → IsDone (record_message probe_case binary text json (true, result))
  unfolding record_message
  message-IsDone binary text json result h = record {
    with_ack = ground (arith, required, h);
    leaves = ground (arith, required, h);
    with_data = ground (arith, required, h);
    cleared = ground (arith, required, h);
  }

  verdicts_quiet :
      (result : WsResult) → apply_verdicts probe_case false false false result ≡ (false, result)
  unfolding apply_verdicts
  verdicts_quiet result = ground arith

  verdicts_silent :
      (ack : Bool) (result : WsResult)
      → apply_verdicts probe_case true ack false result ≡ (true, result)
  unfolding apply_verdicts
  verdicts_silent ack result = ground arith

  verdicts_data :
      (ack : Bool) (result : WsResult)
      → apply_verdicts probe_case true ack true result
        ≡ (true, record result { protocol_stage = "data"; data_complete = true })
  unfolding apply_verdicts
  verdicts_data ack result = ground arith

  verdicts_ack :
      (result : WsResult)
      → apply_verdicts probe_case false true false result ≡ (
        true,
        record result {
          protocol_stage = "ack";
          data_complete = (probe_case.ack_implies_data && false) || result.data_complete;
        },
      )
  unfolding apply_verdicts
  verdicts_ack result = refl

  pub quiet_round :
      (write_error : Option Bytes) (heard : Heard) (result : WsResult)
      → is_quiet heard write_error ≡ true
      → result.data_complete ≡ false
      → result.error ≡ []
      → IsOpen false (observe_heard probe_case write_error false result heard)
  unfolding is_quiet observe_heard write_pong
  quiet_round write_error (judged binary text json ack found) result quiet h k =
      let verdicts : apply_verdicts probe_case false ack.matched found.matched result
          ≡ (false, result) =
        ap (λ m. apply_verdicts probe_case false m found.matched result) (ground (arith, quiet))
        ∙ ap (λ m. apply_verdicts probe_case false false m result) (ground (arith, quiet))
        ∙ verdicts_quiet result in
      subst (λ p. IsOpen false (record_message probe_case binary text json p)) (sym verdicts)
        (message-IsOpen binary text json false result h k)
  quiet_round none (pinged pong) result quiet h k = record {
    same_ack = refl;
    stays = refl;
    no_data = h;
    no_error = k;
  }
  quiet_round (some error) (pinged pong) result quiet h k = cc
  quiet_round write_error (broken stage error) result quiet h k = cc

  pub silent_round :
      (write_error : Option Bytes) (heard : Heard) (result : WsResult)
      → is_silent heard write_error ≡ true
      → result.data_complete ≡ false
      → result.error ≡ []
      → IsOpen true (observe_heard probe_case write_error true result heard)
  unfolding is_silent observe_heard write_pong
  silent_round write_error (judged binary text json ack found) result silent h k =
      let verdicts : apply_verdicts probe_case true ack.matched found.matched result
          ≡ (true, result) =
        ap (λ m. apply_verdicts probe_case true ack.matched m result) (ground (arith, silent))
        ∙ verdicts_silent ack.matched result in
      subst (λ p. IsOpen true (record_message probe_case binary text json p)) (sym verdicts)
        (message-IsOpen binary text json true result h k)
  silent_round none (pinged pong) result silent h k = record {
    same_ack = refl;
    stays = refl;
    no_data = h;
    no_error = k;
  }
  silent_round (some error) (pinged pong) result silent h k = cc
  silent_round write_error (broken stage error) result silent h k = cc

  pub ack_round :
      (write_error : Option Bytes) (heard : Heard) (result : WsResult)
      → is_ack heard ≡ true
      → result.data_complete ≡ false
      → result.error ≡ []
      → IsOpen true (observe_heard probe_case write_error false result heard)
  unfolding is_ack observe_heard
  ack_round write_error (judged binary text json ack found) result is h k =
      let acked = record result {
        protocol_stage = "ack";
        data_complete = (probe_case.ack_implies_data && false) || result.data_complete;
      } in
      let verdicts : apply_verdicts probe_case false ack.matched found.matched result
          ≡ (true, acked) =
        ap (λ m. apply_verdicts probe_case false m found.matched result) (ground (arith, is))
        ∙ ap (λ m. apply_verdicts probe_case false true m result) (ground (arith, is))
        ∙ verdicts_ack result in
      subst (λ p. IsOpen true (record_message probe_case binary text json p)) (sym verdicts)
        (message-IsOpen binary text json true acked (ground (arith, h)) k)
  ack_round write_error (pinged pong) result is h k = cc
  ack_round write_error (broken stage error) result is h k = cc

  pub data_round :
      (write_error : Option Bytes) (heard : Heard) (result : WsResult)
      → is_data heard ≡ true
      → IsDone (observe_heard probe_case write_error true result heard)
  unfolding is_data observe_heard
  data_round write_error (judged binary text json ack found) result is =
      let verdicts =
        ap (λ m. apply_verdicts probe_case true ack.matched m result) is
        ∙ verdicts_data ack.matched result in
      subst (λ p. IsDone (record_message probe_case binary text json p)) (sym verdicts)
        (message-IsDone binary text json
          (record result { protocol_stage = "data"; data_complete = true }) refl)
  data_round write_error (pinged pong) result is = cc
  data_round write_error (broken stage error) result is = cc
