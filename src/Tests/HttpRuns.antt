-- ===== src/Tests/HttpRuns.antt =====
-- Keep-alive requests at concrete inputs.
use test_exchanges_helper.Base.{◌≡◌, refl, true, false, not, ◌&&◌, [], Bytes, codes}
use test_exchanges_helper.Json.{null}
use test_exchanges_helper.Network.HttpSession.{
  fine, failed, Connecting, Exchanging, Exchange, Parsed, json_document, fresh_session, request,
  run_call, find_address, resolve_name, keep_answers, establish, connect, begin_request, parse_body,
  complete_response, exchange, finish_request, finish_step,
}
use test_exchanges_helper.Network.HttpSession.Stages.{connects, exchanges, IsSession}
use test_exchanges_helper.Network.HttpSession.Reuse.{Leaves, request-Leaves, request_reuses}

abbrev no_document : Bytes → Parsed
no_document text = json_document null

abbrev reachable : Connecting
reachable = record {
  setup = fine;
  address = fine;
  resolve = fine;
  answers = [];
  connect = fine;
  configure_tls = fine;
  handshake = fine;
}

abbrev unreachable : Connecting
unreachable = record reachable {
  resolve = failed (record { is_timeout = true; is_body_limit = false; message = codes "timeout" });
}

abbrev answered : Exchanging
answered = record {
  write_call = fine;
  header_call = fine;
  body_call = fine;
  status = 200;
  keep_alive = true;
  body = codes "null";
}

abbrev first_exchange : Exchange
first_exchange = record { expired = false; connecting = reachable; exchanging = answered }

fresh_session-IsSession : IsSession fresh_session
fresh_session-IsSession = record { on_stream = λ h. cc; not_invalid = λ h. refl }

request-Leaves_example :
    Leaves
      (connects true false reachable && (exchanges answered && true))
      (not (connects true false reachable && (exchanges answered && true)))
      (request no_document true false first_exchange fresh_session)
    × (fresh_session ≡ fresh_session)
request-Leaves_example =
    request-Leaves no_document false first_exchange fresh_session fresh_session-IsSession

request_reuses_example :
    (let next = (request no_document true false first_exchange fresh_session).0 in
      request no_document true false first_exchange next
      ≡ request no_document true true (record first_exchange { connecting = unreachable }) next)
unfolding request connect establish run_call find_address resolve_name keep_answers exchange
    begin_request parse_body complete_response finish_request finish_step
request_reuses_example =
    request_reuses no_document false true first_exchange first_exchange unreachable fresh_session
      fresh_session-IsSession refl
