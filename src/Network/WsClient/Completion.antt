-- ===== src/Network/WsClient/Completion.antt =====
-- src/Network/WsClient.cpp, observe_ws: the sessions that succeed.
use mathlib.Core.Path.{subst}
use test_exchanges_helper.Base.{
  ℕ, ◌≡◌, refl, sym, ◌∙◌, ap, Bool, true, false, not, List, [], ◌∷◌, ◌++◌, none, all, is_empty,
  if◌then◌else◌, option_or, arith,
}
use test_exchanges_helper.Model.Products.{WsCase}
use test_exchanges_helper.Network.WsClient.{
  Calls, subscription_payload, Round, Socket, WsResult, hear, observe_round, observe_rounds,
  conclude, observe_subscribed, observe_subscription, observe_welcome, connected_result, observe_ws,
}
use test_exchanges_helper.Network.WsClient.Rounds.{
  is_quiet, is_silent, is_ack, is_data, IsOpen, quiet_round, silent_round, ack_round, data_round,
}

-- The end of a loop that has all that is required.
abbrev IsComplete : Bool × WsResult → Type 0
IsComplete p = (p.0 ≡ true) × (p.1.data_complete ≡ true) × (p.1.error ≡ [])

module _ (probe_case : WsCase) (required : probe_case.require_data ≡ true) (calls : Calls) where
  rounds_stay :
      (round : Round) (rounds : List Round) (acked : Bool) (result : WsResult)
      → (observe_round calls probe_case round acked result).left ≡ false
      → (let next = observe_round calls probe_case round acked result in
          observe_rounds calls probe_case (round ∷ rounds) acked result
          ≡ observe_rounds calls probe_case rounds next.acked next.result)
  unfolding observe_rounds
  rounds_stay round rounds acked result h = rw h refl

  rounds_leave :
      (round : Round) (rounds : List Round) (acked : Bool) (result : WsResult)
      → (observe_round calls probe_case round acked result).left ≡ true
      → (let next = observe_round calls probe_case round acked result in
          observe_rounds calls probe_case (round ∷ rounds) acked result ≡ (next.acked, next.result))
  unfolding observe_rounds
  rounds_leave round rounds acked result h = rw h refl

  -- A loop that begins without data and without an error.
  abbrev Completes : List Round → Bool → Type 0
  Completes rounds acked =
      (result : WsResult)
      → result.data_complete ≡ false
      → result.error ≡ []
      → IsComplete (observe_rounds calls probe_case rounds acked result)

  pass_round :
      (round : Round) (rounds : List Round) (acked acked' : Bool) (result : WsResult)
      → IsOpen acked' (observe_round calls probe_case round acked result)
      → Completes rounds acked'
      → IsComplete (observe_rounds calls probe_case (round ∷ rounds) acked result)
  pass_round round rounds acked acked' result passed later =
      let next = observe_round calls probe_case round acked result in
      subst IsComplete
        (sym (
          rounds_stay round rounds acked result passed.stays
          ∙ ap (λ a. observe_rounds calls probe_case rounds a next.result) passed.same_ack))
        (later next.result passed.no_data passed.no_error)

  data-Completes :
      (between : List Round) (round : Round) (after : List Round)
      → all (λ r. is_silent (hear calls probe_case r.message) r.write_error) between ≡ true
      → is_data (hear calls probe_case round.message) ≡ true
      → Completes (between ++ round ∷ after) true
  unfolding observe_round
  data-Completes [] round after silent is result h k =
      let done =
        data_round probe_case required round.write_error (hear calls probe_case round.message) _
          is in
      subst IsComplete (sym (rounds_leave round after true result done.leaves))
        (done.with_ack, done.with_data, done.cleared)
  data-Completes (r ∷ between) round after silent is result h k =
      pass_round r (between ++ round ∷ after) true true result
        (silent_round probe_case required r.write_error (hear calls probe_case r.message) _
          (ground (arith, silent)) h k)
        (data-Completes between round after (ground (arith, silent)) is)

  ack-Completes :
      (before : List Round) (round : Round) (after : List Round)
      → all (λ r. is_quiet (hear calls probe_case r.message) r.write_error) before ≡ true
      → is_ack (hear calls probe_case round.message) ≡ true
      → Completes after true
      → Completes (before ++ round ∷ after) false
  unfolding observe_round
  ack-Completes [] round after quiet is later result h k =
      pass_round round after false true result
        (ack_round probe_case required round.write_error (hear calls probe_case round.message) _ is
          h k)
        later
  ack-Completes (r ∷ before) round after quiet is later result h k =
      pass_round r (before ++ round ∷ after) false false result
        (quiet_round probe_case required r.write_error (hear calls probe_case r.message) _
          (ground (arith, quiet)) h k)
        (ack-Completes before round after (ground (arith, quiet)) is later)

complete_result :
    (probe_case : WsCase) (control_pings : ℕ) (p : Bool × WsResult)
    → IsComplete p
    → (let result = conclude probe_case control_pings p in
        (result.error ≡ []) × (result.ack_complete ≡ true) × (result.data_complete ≡ true))
unfolding conclude
complete_result probe_case control_pings p (acked, found, cleared) =
    (ground (arith, acked, found, cleared), acked, found)

-- A result with all that is required.
abbrev IsSuccess : WsResult → Type 0
IsSuccess result =
    (result.error ≡ []) × (result.ack_complete ≡ true) × (result.data_complete ≡ true)

subscribed-IsSuccess :
    (calls : Calls) (probe_case : WsCase) (socket : Socket) (result : WsResult)
    → ((r : WsResult)
        → r.data_complete ≡ false
        → r.error ≡ []
        → IsSuccess (observe_subscribed calls probe_case socket r))
    → socket.subscribe_error ≡ none
    → result.data_complete ≡ false
    → result.error ≡ []
    → IsSuccess (observe_subscription calls probe_case socket result)
unfolding observe_subscription
subscribed-IsSuccess calls probe_case socket result success written h k =
    let writing = record result { protocol_stage = "subscribe_write" } in
    either (is_empty (subscription_payload calls probe_case)) _ _ (success result h k) (
      subst
        (λ failure. IsSuccess (
          option_or failure (observe_subscribed calls probe_case socket writing)
            (λ error. record writing { error = error; control_pings = socket.control_pings })))
        (sym written) (success writing h k))
  where
    either :
        (b : Bool) (r s : WsResult) → IsSuccess r → IsSuccess s → IsSuccess (if b then r else s)
    either true r s h k = h
    either false r s h k = k

observe_ws_direct :
    (calls : Calls) (probe_case : WsCase) (socket : Socket)
    → probe_case.read_welcome ≡ false
    → observe_ws calls probe_case socket
      ≡ observe_subscription calls probe_case socket connected_result
unfolding observe_ws
observe_ws_direct calls probe_case socket h =
    ap
      (λ b.
        if b
        then observe_welcome calls probe_case socket socket.welcome
            (record connected_result { protocol_stage = "welcome" })
        else observe_subscription calls probe_case socket connected_result)
      h

-- A case that requires an acknowledgement and data succeeds, without an error, in every session
-- whose subscription is written and in which an acknowledgement is read and later data, whatever
-- comes behind it: in between there may be any heartbeats that are answered, and messages that are
-- neither of the two (behind the acknowledgement, no data).
pub observe_ws_completes :
    (calls : Calls) (probe_case : WsCase) (socket : Socket) (before between after : List Round)
    (ack found : Round)
    → probe_case.read_welcome ≡ false
    → probe_case.require_ack ≡ true
    → probe_case.require_data ≡ true
    → socket.subscribe_error ≡ none
    → socket.rounds ≡ before ++ (ack ∷ (between ++ (found ∷ after)))
    → all (λ r. is_quiet (hear calls probe_case r.message) r.write_error) before ≡ true
    → is_ack (hear calls probe_case ack.message) ≡ true
    → all (λ r. is_silent (hear calls probe_case r.message) r.write_error) between ≡ true
    → is_data (hear calls probe_case found.message) ≡ true
    → (let result = observe_ws calls probe_case socket in
        (result.error ≡ []) × (result.ack_complete ≡ true) × (result.data_complete ≡ true))
observe_ws_completes calls probe_case socket before between after ack found no_welcome needs_ack
      needs_data written rounds quiet is_ack_round silent is_data_round =
    let same : (r : WsResult)
        → observe_rounds calls probe_case socket.rounds (not probe_case.require_ack) r
          ≡ observe_rounds calls probe_case (before ++ (ack ∷ (between ++ (found ∷ after)))) false
              r =
      λ r.
        ap (λ rs. observe_rounds calls probe_case rs (not probe_case.require_ack) r) rounds
        ∙ ap
            (λ a.
              observe_rounds calls probe_case (before ++ (ack ∷ (between ++ (found ∷ after))))
                (not a) r)
            needs_ack in
    let completes =
      ack-Completes probe_case needs_data calls before ack (between ++ (found ∷ after)) quiet
        is_ack_round
        (data-Completes probe_case needs_data calls between found after silent is_data_round) in
    let success : (r : WsResult)
        → r.data_complete ≡ false
        → r.error ≡ []
        → IsSuccess (observe_subscribed calls probe_case socket r) =
      λ r h k.
        unfold observe_subscribed in
        complete_result probe_case socket.control_pings _
          (subst IsComplete (sym (same r)) (completes r h k)) in
    subst (λ result. IsSuccess result) (sym (observe_ws_direct calls probe_case socket no_welcome))
      (subscribed-IsSuccess calls probe_case socket connected_result success written refl refl)
