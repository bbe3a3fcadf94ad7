-- ===== src/Network/WsClient/Verdict.antt =====
-- src/Network/WsClient.cpp, observe_ws: what a result without an error stands on.
use test_exchanges_helper.Base.{
  ◌≡◌, inl, inr, refl, Bool, true, false, not, ◌&&◌, ◌||◌, List, [], ◌∷◌, Option, none, some, Bytes,
  codes, any, is_empty, if◌then◌else◌, Bool-cases, option_or, arith,
}
use test_exchanges_helper.Json.{Value}
use test_exchanges_helper.Model.Products.{WsCase}
use test_exchanges_helper.Network.WsClient.{
  Calls, subscription_payload, valid_kucoin_welcome, ReadMessage, received, unread, Round, Socket,
  WsResult, Heard, broken, pinged, judged, hear, apply_verdicts, has_data, record_message,
  write_pong, observe_heard, observe_round, observe_rounds, conclude, observe_subscribed, abandoned,
  observe_subscription, observe_welcome, connected_result, observe_ws,
}

-- A message that passes as data, and one that passes as an acknowledgement, if only by being data.
unfoldable pub heard_data : Heard → Bool
heard_data (judged binary text json ack found) = found.matched
heard_data _ = false

unfoldable pub heard_ack : WsCase → Heard → Bool
heard_ack probe_case (judged binary text json ack found) =
    ack.matched || (probe_case.data_implies_ack && found.matched)
heard_ack probe_case _ = false

-- From the two flags before to the two flags after: each that was not set is set by a message of
-- its kind, and data counts only once there is an acknowledgement.
pub record IsEarned (acked data_complete acked' data_complete' ack found : Bool) : Type 0 where
  pub by_ack : acked' ≡ true → (acked || ack) ≡ true
  pub by_data : data_complete' ≡ true → (data_complete || found) ≡ true
  pub in_order : (data_complete ≡ true → acked ≡ true) → data_complete' ≡ true → acked' ≡ true

unchanged :
    (acked data_complete ack found : Bool)
    → IsEarned acked data_complete acked data_complete ack found
unchanged acked data_complete ack found = record {
  by_ack = λ h. ground arith;
  by_data = λ h. ground arith;
  in_order = λ order. order;
}

trans :
    {a d a' d' a'' d'' ack found ack' found' : Bool}
    → IsEarned a d a' d' ack found
    → IsEarned a' d' a'' d'' ack' found'
    → IsEarned a d a'' d'' (ack || ack') (found || found')
trans first second = record {
  by_ack = λ h. grind (arith, first.by_ack, second.by_ack h);
  by_data = λ h. grind (arith, first.by_data, second.by_data h);
  in_order = λ order. second.in_order (first.in_order order);
}

apply_verdicts-IsEarned :
    (probe_case : WsCase) (acked ack found : Bool) (result : WsResult)
    → (let next = apply_verdicts probe_case acked ack found result in
        IsEarned acked result.data_complete next.0 next.1.data_complete
          (ack || (probe_case.data_implies_ack && found))
          found)
unfolding apply_verdicts
apply_verdicts-IsEarned probe_case acked ack found result = record {
  by_ack = λ h. ground arith;
  by_data = λ h. ground arith;
  in_order = λ order h. ground arith;
}

record_message_flags :
    (probe_case : WsCase) (binary : Bool) (text : Bytes) (json : Option Value) (acked : Bool)
    (result : WsResult)
    → (let next = record_message probe_case binary text json (acked, result) in
        (next.acked ≡ acked) × (next.result.data_complete ≡ result.data_complete))
unfolding record_message
record_message_flags probe_case binary text json acked result =
    elim (Bool-cases (acked && has_data probe_case result)) [
      | inl h ↦ rw h (refl, refl)
      | inr h ↦ rw h (refl, refl)
    ]

observe_heard-IsEarned :
    (probe_case : WsCase) (write_error : Option Bytes) (acked : Bool) (result : WsResult)
    (heard : Heard)
    → (let next = observe_heard probe_case write_error acked result heard in
        IsEarned acked result.data_complete next.acked next.result.data_complete
          (heard_ack probe_case heard)
          (heard_data heard))
unfolding observe_heard heard_data heard_ack record_message write_pong
observe_heard-IsEarned probe_case write_error acked result (broken stage error) =
    unchanged acked result.data_complete false false
observe_heard-IsEarned probe_case none acked result (pinged pong) =
    unchanged acked result.data_complete false false
observe_heard-IsEarned probe_case (some error) acked result (pinged pong) =
    unchanged acked result.data_complete false false
observe_heard-IsEarned probe_case write_error acked result (judged binary text json ack found) =
    let flags = apply_verdicts probe_case acked ack.matched found.matched result in
    let (same_ack, same_data) = record_message_flags probe_case binary text json flags.0 flags.1 in
    rw same_ack
      (rw same_data (apply_verdicts-IsEarned probe_case acked ack.matched found.matched result))

-- Whether one of the messages passes as data, or as an acknowledgement.
unfoldable pub any_data : Calls → WsCase → List Round → Bool
any_data calls probe_case rounds =
    any (λ round. heard_data (hear calls probe_case round.message)) rounds

unfoldable pub any_ack : Calls → WsCase → List Round → Bool
any_ack calls probe_case rounds =
    any (λ round. heard_ack probe_case (hear calls probe_case round.message)) rounds

left_early :
    {a d a' d' ack found : Bool} (ack' found' : Bool)
    → IsEarned a d a' d' ack found
    → IsEarned a d a' d' (ack || ack') (found || found')
left_early ack' found' first = record {
  by_ack = λ h. grind (arith, first.by_ack h);
  by_data = λ h. grind (arith, first.by_data h);
  in_order = first.in_order;
}

observe_round-IsEarned :
    (calls : Calls) (probe_case : WsCase) (round : Round) (acked : Bool) (result : WsResult)
    → (let next = observe_round calls probe_case round acked result in
        IsEarned acked result.data_complete next.acked next.result.data_complete
          (heard_ack probe_case (hear calls probe_case round.message))
          (heard_data (hear calls probe_case round.message)))
unfolding observe_round
observe_round-IsEarned calls probe_case round acked result =
    observe_heard-IsEarned probe_case round.write_error acked _
      (hear calls probe_case round.message)

observe_rounds-IsEarned :
    (calls : Calls) (probe_case : WsCase) (rounds : List Round) (acked : Bool) (result : WsResult)
    → (let last = observe_rounds calls probe_case rounds acked result in
        IsEarned acked result.data_complete last.0 last.1.data_complete
          (any_ack calls probe_case rounds)
          (any_data calls probe_case rounds))
unfolding observe_rounds any_ack any_data
observe_rounds-IsEarned calls probe_case [] acked result =
    unchanged acked result.data_complete false false
observe_rounds-IsEarned calls probe_case (round ∷ rounds) acked result =
    let next = observe_round calls probe_case round acked result in
    let first = observe_round-IsEarned calls probe_case round acked result in
    elim (Bool-cases next.left) [
      | inl h ↦ rw h (left_early _ _ first)
      | inr h ↦
          rw h
            (trans first (observe_rounds-IsEarned calls probe_case rounds next.acked next.result))
    ]

-- A session whose errors say something: `error_code::message` of an error is not empty.
unfoldable pub IsTelling : Socket → Type 0
IsTelling socket =
    ((error : Bytes) → socket.welcome ≡ unread error → is_empty error ≡ false)
    × ((error : Bytes) → socket.subscribe_error ≡ some error → is_empty error ≡ false)

-- What a result without an error has.
pub record IsProven (calls : Calls) (probe_case : WsCase) (rounds : List Round) (result : WsResult)
    : Type 0 where
  pub acknowledged : result.ack_complete ≡ true
  pub with_data : probe_case.require_data ≡ true → result.data_complete ≡ true
  pub ack_heard : probe_case.require_ack ≡ true → any_ack calls probe_case rounds ≡ true
  pub data_heard : result.data_complete ≡ true → any_data calls probe_case rounds ≡ true

concluded :
    (acked needed complete : Bool) (error : Bytes)
    → is_empty (
        if is_empty error && (not acked || (needed && not complete))
        then codes (if acked then "data_after_ack_timeout" else "ack_timeout")
        else error)
      ≡ true
    → (acked ≡ true) × (needed ≡ true → complete ≡ true)
concluded true false complete error h = (refl, λ k. cc)
concluded true true true error h = (refl, λ k. refl)
concluded true true false [] h = cc
concluded true true false (c ∷ cs) h = cc
concluded false needed complete [] h = cc
concluded false needed complete (c ∷ cs) h = cc

-- A result that is proven if it has no error.
abbrev Clears : Calls → WsCase → Socket → WsResult → Type 0
Clears calls probe_case socket result =
    is_empty result.error ≡ true → IsProven calls probe_case socket.rounds result

observe_subscribed-Clears :
    (calls : Calls) (probe_case : WsCase) (socket : Socket) (result : WsResult)
    → result.data_complete ≡ false
    → Clears calls probe_case socket (observe_subscribed calls probe_case socket result)
unfolding observe_subscribed conclude
observe_subscribed-Clears calls probe_case socket result fresh clear =
    let begun = not probe_case.require_ack in
    let last = observe_rounds calls probe_case socket.rounds begun result in
    let earned = observe_rounds-IsEarned calls probe_case socket.rounds begun result in
    let (acked, complete) =
      concluded last.0 probe_case.require_data last.1.data_complete last.1.error clear in
    record {
      acknowledged = acked;
      with_data = complete;
      ack_heard = λ h. grind (arith, earned.by_ack acked);
      data_heard = λ h. grind (arith, earned.by_data h, fresh);
    }

told_error :
    (calls : Calls) (probe_case : WsCase) (socket : Socket) (result : WsResult) (error : Bytes)
    → is_empty error ≡ false
    → Clears calls probe_case socket (abandoned socket error result)
told_error calls probe_case socket result error told clear = cc

either :
    (calls : Calls) (probe_case : WsCase) (socket : Socket) (b : Bool) (r s : WsResult)
    → Clears calls probe_case socket r
    → Clears calls probe_case socket s
    → Clears calls probe_case socket (if b then r else s)
either calls probe_case socket true r s h k = h
either calls probe_case socket false r s h k = k

told_or :
    (calls : Calls) (probe_case : WsCase) (socket : Socket) (r s : WsResult)
    (failure : Option Bytes)
    → ((error : Bytes) → failure ≡ some error → is_empty error ≡ false)
    → Clears calls probe_case socket r
    → Clears calls probe_case socket (option_or failure r (λ error. abandoned socket error s))
told_or calls probe_case socket r s none telling h = h
told_or calls probe_case socket r s (some error) telling h =
    told_error calls probe_case socket s error (telling error refl)

observe_subscription-Clears :
    (calls : Calls) (probe_case : WsCase) (socket : Socket) (result : WsResult)
    → IsTelling socket
    → result.data_complete ≡ false
    → Clears calls probe_case socket (observe_subscription calls probe_case socket result)
unfolding observe_subscription IsTelling
observe_subscription-Clears calls probe_case socket result telling fresh =
    let writing = record result { protocol_stage = "subscribe_write" } in
    either calls probe_case socket (is_empty (subscription_payload calls probe_case)) _ _
      (observe_subscribed-Clears calls probe_case socket result fresh)
      (told_or calls probe_case socket _ writing socket.subscribe_error telling.1
        (observe_subscribed-Clears calls probe_case socket writing fresh))

observe_welcome-Clears :
    (calls : Calls) (probe_case : WsCase) (socket : Socket) (message : ReadMessage)
    (result : WsResult)
    → socket.welcome ≡ message
    → IsTelling socket
    → result.data_complete ≡ false
    → Clears calls probe_case socket (observe_welcome calls probe_case socket message result)
unfolding observe_welcome
observe_welcome-Clears calls probe_case socket (unread error) result read telling fresh =
    unfold IsTelling in told_error calls probe_case socket result error (telling.0 error read)
observe_welcome-Clears calls probe_case socket (received binary payload) result read telling fresh =
    either calls probe_case socket (valid_kucoin_welcome (calls.parse payload) binary) _ _
      (observe_subscription-Clears calls probe_case socket result telling fresh)
      (told_error calls probe_case socket result (codes "welcome_contract_mismatch") refl)

-- An observation without an error has its acknowledgement and, where the case requires data, its
-- data; where an acknowledgement is required, one of the messages that were read passes as one, and
-- where data is complete, one passes as data. This asks of the socket that the errors of reading
-- the welcome and of writing the subscription have a text.
pub observe_ws-IsProven :
    (calls : Calls) (probe_case : WsCase) (socket : Socket)
    → IsTelling socket
    → is_empty (observe_ws calls probe_case socket).error ≡ true
    → IsProven calls probe_case socket.rounds (observe_ws calls probe_case socket)
unfolding observe_ws
observe_ws-IsProven calls probe_case socket telling =
    either calls probe_case socket probe_case.read_welcome _ _
      (observe_welcome-Clears calls probe_case socket socket.welcome
        (record connected_result { protocol_stage = "welcome" }) refl telling refl)
      (observe_subscription-Clears calls probe_case socket connected_result telling refl)
