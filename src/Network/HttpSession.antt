-- ===== src/Network/HttpSession.antt =====
-- src/Network/HttpClient.cpp: `HttpSession`, the connection of a one-shot request or of public
-- keep-alive requests, as a state machine. What each call of Boost reports is an oracle; the times
-- that the diagnostic path measures and the response's headers are left out.
pub mod Stages
pub mod Reuse
use test_exchanges_helper.Base.{
  ℕ, zero, suc, ◌+◌, ◌%◌, ◌^◌, Bool, true, false, not, ◌&&◌, ◌||◌, List, [], ◌∷◌, ◌++◌, Option,
  none, some, Bytes, String, codes, ltb, ◌==◌, all, any, is_digit, is_alpha, is_empty, take, length,
  if◌then◌else◌,
}
use test_exchanges_helper.Json.{Value, null}
use test_exchanges_helper.Model.Kinds.{AuthKind, no_auth}
use test_exchanges_helper.Model.Products.{RestCase}

-- What a call reports: an error code, by what the code asks of it, or an exception.
pub record Failure : Type 0 where
  pub is_timeout : Bool
  pub is_body_limit : Bool
  pub message : Bytes

pub data NetCall : Type 0 where
  fine : NetCall
  failed : Failure → NetCall
  thrown : Bytes → NetCall

-- The calls that make a connection, and the addresses that the name resolves to.
pub record Connecting : Type 0 where
  pub setup : NetCall
  pub address : NetCall
  pub resolve : NetCall
  pub answers : List Bytes
  pub connect : NetCall
  pub configure_tls : NetCall
  pub handshake : NetCall

-- The calls that exchange a request for a response, and the response.
pub record Exchanging : Type 0 where
  pub write_call : NetCall
  pub header_call : NetCall
  pub body_call : NetCall
  pub status : ℕ
  pub keep_alive : Bool
  pub body : Bytes

pub record Exchange : Type 0 where
  pub expired : Bool
  pub connecting : Connecting
  pub exchanging : Exchanging

-- `boost::json::parse`: a document, or the message of its error.
pub data Parsed : Type 0 where
  json_document : Value → Parsed
  unparsed : Bytes → Parsed

-- The state of `HttpSession`; `has_stream` is a `stream_` that is not null.
pub record Session : Type 0 where
  pub has_stream : Bool
  pub connected : Bool
  pub invalid : Bool
  pub completed_requests : ℕ

abbrev pub fresh_session : Session
fresh_session = record {
  has_stream = false;
  connected = false;
  invalid = false;
  completed_requests = 0;
}

-- `HttpResult`, less the times, the headers and what TLS reports of the peer.
pub record HttpResult : Type 0 where
  pub status : ℕ
  pub body_bytes : ℕ
  pub json : Value
  pub json_present : Bool
  pub tls_verified : Bool
  pub stage : String
  pub error : Bytes
  pub dns_answers : List Bytes
  pub connection_reused : Bool
  pub connection_available : Bool
  pub raw_body : Bytes

-- `HttpResult result{}; result.stage = "configuration";`
abbrev pub fresh_result : HttpResult
fresh_result = record {
  status = 0;
  body_bytes = 0;
  json = null;
  json_present = false;
  tls_verified = false;
  stage = "configuration";
  error = [];
  dns_answers = [];
  connection_reused = false;
  connection_available = false;
  raw_body = [];
}

-- `close_socket` and `invalidate`
unfoldable pub close_socket : Session → Session
close_socket session = if session.has_stream then record session { connected = false } else session

unfoldable pub invalidate : Session → Session
invalidate session = close_socket (record session { invalid = true })

-- A request on its way, or at its `return finish()`.
pub data Step : Type 0 where
  going : Session → HttpResult → Step
  stopped : Session → HttpResult → Step

infixl 5 ◌>>=◌
abbrev pub ◌>>=◌ : Step → (Session → HttpResult → Step) → Step
going session result >>= next = next session result
stopped session result >>= next = stopped session result

-- `result.error = …; invalidate(); return finish();`
unfoldable pub give_up : Bytes → Session → HttpResult → Step
give_up error session result = stopped (invalidate session) (record result { error = error })

-- A call, with the text of its error; an exception ends the request in the handler.
unfoldable pub run_call : NetCall → (Failure → Bytes) → Session → HttpResult → Step
run_call fine text session result = going session result
run_call (failed failure) text session result = give_up (text failure) session result
run_call (thrown what) text session result = give_up (codes "exception:" ++ what) session result

abbrev pub at_stage : String → Session → HttpResult → Step
at_stage stage session result = going session (record result { stage = stage })

abbrev pub message_of : Failure → Bytes
message_of failure = failure.message

abbrev pub prefixed : String → Failure → Bytes
prefixed text failure = codes text ++ failure.message

-- The address that is given, or that the name resolves to; the answers of a name are kept, 64 at
-- most, on the diagnostic path.
unfoldable pub keep_answers : Bool → List Bytes → Session → HttpResult → Step
keep_answers persistent answers session result =
    if not persistent
    then going session result
    else if ltb 64 (length answers)
    then give_up (codes "dns_answers_capacity_exceeded") session
        (record result { dns_answers = take 64 answers })
    else going session (record result { dns_answers = answers })

-- The exception of `resolve` comes before its answers, its error behind them.
unfoldable pub resolve_name : Bool → NetCall → List Bytes → Session → HttpResult → Step
resolve_name persistent (thrown what) answers session result =
    give_up (codes "exception:" ++ what) session result
resolve_name persistent call answers session result =
    keep_answers persistent answers session result >>= run_call call message_of

unfoldable pub find_address : Bool → Bool → Connecting → Session → HttpResult → Step
find_address persistent pinned c session result =
    if pinned
    then run_call c.address (prefixed "pinned_ip_invalid:") session result
    else resolve_name persistent c.resolve c.answers session result

-- `stream_ = std::make_unique<…>(…)`, and `connected_ = true`
abbrev pub open_stream : Session → HttpResult → Step
open_stream session result = going (record session { has_stream = true }) result

abbrev pub set_connected : Session → HttpResult → Step
set_connected session result = going (record session { connected = true }) result

-- The branch `if (!connected_)`
unfoldable pub establish : Bool → Bool → Connecting → Session → HttpResult → Step
establish persistent pinned c session result =
    run_call c.setup (prefixed "default_ca_paths_failed:") session result
    >>= at_stage "dns"
    >>= find_address persistent pinned c
    >>= open_stream
    >>= at_stage "tcp_connect"
    >>= run_call c.connect message_of
    >>= at_stage "tls_configuration"
    >>= run_call c.configure_tls message_of
    >>= at_stage "tls_handshake"
    >>= run_call c.handshake message_of
    >>= set_connected

unfoldable pub connect : Bool → Bool → Connecting → Session → HttpResult → Step
connect persistent pinned c session result =
    if session.connected then going session result else establish persistent pinned c session result

abbrev pub timeout_or : String → Failure → Bytes
timeout_or text failure = if failure.is_timeout then codes text else failure.message

abbrev pub limit_or : String → Failure → Bytes
limit_or text failure =
    if failure.is_body_limit then codes "response_capacity_exceeded" else timeout_or text failure

-- From `result.tls_verified = true` to the writing of the request.
unfoldable pub begin_request : Bool → Session → HttpResult → Step
begin_request persistent session result = going session (record result {
  tls_verified = true;
  connection_reused = persistent && not (session.completed_requests == 0);
  stage = "http_write";
})

-- The document of the body.
unfoldable pub parse_body : Parsed → Session → HttpResult → Step
parse_body (unparsed message) session result =
    stopped session (record result { error = codes "invalid_json:" ++ message })
parse_body (json_document v) session result =
    stopped session (record result { json = v; json_present = true; stage = "complete" })

-- A response that is complete.
unfoldable pub complete_response :
    (Bytes → Parsed) → Bool → Exchanging → Session → HttpResult → Step
complete_response parse persistent x session result =
    let counted = record session {
      completed_requests = (session.completed_requests + 1) % 2 ^ 32;
    } in
    parse_body (parse x.body) (if not x.keep_alive then invalidate counted else counted)
      (record result {
        status = x.status;
        body_bytes = length x.body;
        raw_body = if persistent then x.body else [];
        stage = "json_parse";
      })

unfoldable pub exchange : (Bytes → Parsed) → Bool → Exchanging → Session → HttpResult → Step
exchange parse persistent x session result =
    begin_request persistent session result
    >>= run_call x.write_call (timeout_or "http_write_timeout")
    >>= at_stage "http_header_read"
    >>= run_call x.header_call (limit_or "http_header_read_timeout")
    >>= at_stage "http_body_read"
    >>= run_call x.body_call (limit_or "http_body_read_timeout")
    >>= complete_response parse persistent x

-- `finish`
unfoldable pub finish_request : Bool → Session → HttpResult → Session × HttpResult
finish_request persistent session result = (
  if not persistent && session.has_stream then close_socket session else session,
  record result { connection_available = persistent && session.connected && not session.invalid },
)

unfoldable pub finish_step : Bool → Step → Session × HttpResult
finish_step persistent (going session result) = finish_request persistent session result
finish_step persistent (stopped session result) = finish_request persistent session result

-- `HttpSession::request`
unfoldable pub request : (Bytes → Parsed) → Bool → Bool → Exchange → Session → Session × HttpResult
request parse persistent pinned e session =
    if session.invalid
    then finish_request persistent session (record fresh_result {
      stage = "connection_invalidated";
      error = codes "public_connection_invalidated_no_automatic_reconnect";
    })
    else if e.expired
    then finish_request persistent session
        (record fresh_result { error = codes "http_deadline_expired" })
    else finish_step persistent (
        connect persistent pinned e.connecting session fresh_result
        >>= exchange parse persistent e.exchanging)

abbrev pub is_host_character : ℕ → Bool
is_host_character c = is_alpha c || is_digit c || c == b'.' || c == b'-'

abbrev pub starts_with_slash : Bytes → Bool
starts_with_slash [] = false
starts_with_slash (c ∷ cs) = c == b'/'

-- The authority and the path that `PublicHttpConnection::get` takes.
unfoldable pub is_valid_authority : Bytes → Bytes → Bool
is_valid_authority host path = not (
    is_empty host
    || ltb 253 (length host)
    || not (all is_host_character host)
    || not (starts_with_slash path)
    || ltb 8192 (length path)
    || any (λ c. c == 13 || c == 10) path)

abbrev pub is_unsigned : AuthKind → Bool
is_unsigned no_auth = true
is_unsigned _ = false

-- `PublicHttpConnection::get`
unfoldable pub get : (Bytes → Parsed) → RestCase → Exchange → Session → Session × HttpResult
get parse probe_case e session =
    if probe_case.private_case || not (is_unsigned probe_case.auth)
    then (
      session,
      record fresh_result { error = codes "public_connection_requires_public_unsigned_case" },
    )
    else if not (is_valid_authority probe_case.host probe_case.path)
    then (
      session,
      record fresh_result { error = codes "public_connection_authority_or_path_invalid" },
    )
    else request parse true false e session

-- `execute_http`: a session of its own, which is destroyed behind the request.
unfoldable pub execute_http : (Bytes → Parsed) → Bool → Exchange → Session × HttpResult
execute_http parse pinned e = request parse false pinned e fresh_session
