-- ===== src/Network/HttpSession/Stages.antt =====
-- src/Network/HttpClient.cpp, HttpSession: the stages of a request, and how each ends.
use mathlib.Core.Path.{subst}
use test_exchanges_helper.Base.{
  ◌+◌, ◌%◌, ◌^◌, ◌≡◌, refl, sym, ◌∙◌, ap, Bool, true, false, not, ◌&&◌, ◌||◌, List, Bytes, String,
  ltb, length, if◌then◌else◌, Bool-cases, inl, inr, arith,
}
use test_exchanges_helper.Network.HttpSession.{
  NetCall, fine, failed, thrown, Failure, Connecting, Exchanging, Parsed, json_document, unparsed,
  Session, HttpResult, close_socket, invalidate, Step, going, stopped, ◌>>=◌, give_up, run_call,
  at_stage, keep_answers, resolve_name, find_address, open_stream, set_connected, establish,
  connect, begin_request, parse_body, complete_response, exchange,
}

-- The calls that succeed.
unfoldable pub is_fine : NetCall → Bool
is_fine fine = true
is_fine _ = false

unfoldable pub connects : Bool → Bool → Connecting → Bool
connects persistent pinned c =
    is_fine c.setup
    && (if pinned
        then is_fine c.address
        else (not persistent || not (ltb 64 (length c.answers))) && is_fine c.resolve)
    && is_fine c.connect
    && is_fine c.configure_tls
    && is_fine c.handshake

unfoldable pub exchanges : Exchanging → Bool
exchanges x = is_fine x.write_call && is_fine x.header_call && is_fine x.body_call

-- A connection is on a stream, and a session that is given up has none.
pub record IsSession (s : Session) : Type 0 where
  pub on_stream : s.connected ≡ true → s.has_stream ≡ true
  pub not_invalid : s.connected ≡ true → s.invalid ≡ false

-- A session that goes on, with or without a connection.
pub record IsAlive (connected : Bool) (s : Session) : Type 0 where
  pub state : s.connected ≡ connected
  pub valid : s.invalid ≡ false
  pub stream : connected ≡ true → s.has_stream ≡ true

pub record IsDead (s : Session) : Type 0 where
  pub is_down : s.connected ≡ false
  pub refused : s.invalid ≡ true

invalidate-IsDead : (connected : Bool) (s : Session) → IsAlive connected s → IsDead (invalidate s)
unfolding invalidate close_socket
invalidate-IsDead true s alive = record {
  is_down = ground (arith, alive.stream refl);
  refused = ground arith;
}
invalidate-IsDead false s alive = record {
  is_down = ground (arith, alive.state);
  refused = ground arith;
}

-- A step that goes on exactly where `b` says so, and is dead otherwise.
unfoldable pub Reached : Bool → (Session → Type 0) → Step → Type 0
Reached b Q (going s r) = (b ≡ true) × Q s
Reached b Q (stopped s r) = (b ≡ false) × IsDead s

Reached-bind :
    (b b' : Bool) (Q Q' : Session → Type 0) (m : Step) (next : Session → HttpResult → Step)
    → Reached b Q m
    → ((s : Session) (r : HttpResult) → Q s → Reached b' Q' (next s r))
    → Reached (b && b') Q' (m >>= next)
unfolding Reached
Reached-bind b b' Q Q' (going s r) next reached later =
    subst (λ c. Reached (c && b') Q' (next s r)) (sym reached.0) (later s r reached.1)
Reached-bind b b' Q Q' (stopped s r) next reached later = (ap (λ c. c && b') reached.0, reached.1)

Reached-call :
    (Q : Session → Type 0)
    → ((s : Session) → Q s → IsDead (invalidate s))
    → (call : NetCall) (text : Failure → Bytes) (s : Session) (r : HttpResult) → Q s
    → Reached (is_fine call) Q (run_call call text s r)
unfolding Reached is_fine run_call give_up
Reached-call Q dead fine text s r q = (refl, q)
Reached-call Q dead (failed failure) text s r q = (refl, dead s q)
Reached-call Q dead (thrown what) text s r q = (refl, dead s q)

-- A step that always goes on.
Reached-next :
    (b : Bool) (Q Q' : Session → Type 0) (m : Step) (next : Session → HttpResult → Step)
    → Reached b Q m
    → ((s : Session) (r : HttpResult) → Q s → Reached true Q' (next s r))
    → Reached b Q' (m >>= next)
unfolding Reached
Reached-next b Q Q' (going s r) next reached later =
    subst (λ c. Reached c Q' (next s r)) (sym reached.0) (later s r reached.1)
Reached-next b Q Q' (stopped s r) next reached later = reached

-- A stream that is not connected yet.
abbrev Opened : Session → Type 0
Opened s = IsAlive false s × (s.has_stream ≡ true)

keep_answers-Reached :
    (persistent : Bool) (answers : List Bytes) (s : Session) (r : HttpResult)
    → IsAlive false s
    → Reached
        (not persistent || not (ltb 64 (length answers)))
        (IsAlive false)
        (keep_answers persistent answers s r)
unfolding Reached keep_answers give_up
keep_answers-Reached false answers s r down = (refl, down)
keep_answers-Reached true answers s r down = elim (Bool-cases (ltb 64 (length answers))) [
  | inl h ↦ rw h (refl, invalidate-IsDead false s down)
  | inr h ↦ rw h (refl, down)
]

resolve_name-Reached :
    (persistent : Bool) (call : NetCall) (answers : List Bytes) (s : Session) (r : HttpResult)
    → IsAlive false s
    → Reached
        ((not persistent || not (ltb 64 (length answers))) && is_fine call)
        (IsAlive false)
        (resolve_name persistent call answers s r)
unfolding resolve_name give_up
resolve_name-Reached persistent (thrown what) answers s r down =
    unfold Reached is_fine in (ground arith, invalidate-IsDead false s down)
resolve_name-Reached persistent fine answers s r down =
    Reached-bind _ _ (IsAlive false) (IsAlive false) _ _
      (keep_answers-Reached persistent answers s r down)
      (λ s' r' q. Reached-call (IsAlive false) (invalidate-IsDead false) fine _ s' r' q)
resolve_name-Reached persistent (failed failure) answers s r down =
    Reached-bind _ _ (IsAlive false) (IsAlive false) _ _
      (keep_answers-Reached persistent answers s r down)
      (λ s' r' q. Reached-call (IsAlive false) (invalidate-IsDead false) (failed failure) _ s' r' q)

find_address-Reached :
    (persistent pinned : Bool) (c : Connecting) (s : Session) (r : HttpResult)
    → IsAlive false s
    → Reached
        (if pinned
          then is_fine c.address
          else (not persistent || not (ltb 64 (length c.answers))) && is_fine c.resolve)
        (IsAlive false)
        (find_address persistent pinned c s r)
unfolding find_address
find_address-Reached persistent true c s r down =
    Reached-call (IsAlive false) (invalidate-IsDead false) c.address _ s r down
find_address-Reached persistent false c s r down =
    resolve_name-Reached persistent c.resolve c.answers s r down

staged :
    (Q : Session → Type 0) (stage : String) (s : Session) (r : HttpResult)
    → Q s
    → Reached true Q (at_stage stage s r)
unfolding Reached
staged Q stage s r q = (refl, q)

Opened-call :
    (call : NetCall) (text : Failure → Bytes) (s : Session) (r : HttpResult)
    → Opened s
    → Reached (is_fine call) Opened (run_call call text s r)
Opened-call call text s r q =
    Reached-call Opened (λ s q. invalidate-IsDead false s q.0) call text s r q

stream-Opened :
    (s : Session) (r : HttpResult) → IsAlive false s → Reached true Opened (open_stream s r)
unfolding Reached
stream-Opened s r q =
    (refl, (record { state = q.state; valid = q.valid; stream = λ h. refl }, refl))

connected_up :
    (s : Session) (r : HttpResult) → Opened s → Reached true (IsAlive true) (set_connected s r)
unfolding Reached
connected_up s r q = (refl, record { state = refl; valid = q.0.valid; stream = λ h. q.1 })

establish-Reached :
    (persistent pinned : Bool) (c : Connecting) (s : Session) (r : HttpResult)
    → IsAlive false s
    → Reached (connects persistent pinned c) (IsAlive true) (establish persistent pinned c s r)
unfolding establish connects
establish-Reached persistent pinned c s r down =
    let setup = Reached-call (IsAlive false) (invalidate-IsDead false) c.setup _ s r down in
    let dns = Reached-next _ _ (IsAlive false) _ _ setup (staged (IsAlive false) "dns") in
    let found =
      Reached-bind _ _ _ (IsAlive false) _ _ dns (find_address-Reached persistent pinned c) in
    let open_to = Reached-next _ _ Opened _ open_stream found stream-Opened in
    let tcp = Reached-next _ _ Opened _ _ open_to (staged Opened "tcp_connect") in
    let connected = Reached-bind _ _ _ Opened _ _ tcp (Opened-call c.connect _) in
    let tls = Reached-next _ _ Opened _ _ connected (staged Opened "tls_configuration") in
    let configured = Reached-bind _ _ _ Opened _ _ tls (Opened-call c.configure_tls _) in
    let shaking = Reached-next _ _ Opened _ _ configured (staged Opened "tls_handshake") in
    let shaken = Reached-bind _ _ _ Opened _ _ shaking (Opened-call c.handshake _) in
    Reached-next _ _ (IsAlive true) _ set_connected shaken connected_up

there-Reached :
    (s : Session) (r : HttpResult)
    → IsSession s
    → s.connected ≡ true
    → Reached true (IsAlive true) (going s r)
unfolding Reached
there-Reached s r is h =
    (refl, record { state = h; valid = is.not_invalid h; stream = λ k. is.on_stream h })

pub connect-Reached :
    (persistent pinned : Bool) (c : Connecting) (s : Session) (r : HttpResult)
    → IsSession s
    → s.invalid ≡ false
    → Reached
        (s.connected || connects persistent pinned c)
        (IsAlive true)
        (connect persistent pinned c s r)
unfolding connect
connect-Reached persistent pinned c s r is valid = branch s.connected refl
  where
    branch :
        (b : Bool)
        → s.connected ≡ b
        → Reached
            (b || connects persistent pinned c)
            (IsAlive true)
            (if b then going s r else establish persistent pinned c s r)
    branch true h = there-Reached s r is h
    branch false h =
        establish-Reached persistent pinned c s r
          (record { state = h; valid = valid; stream = λ k. cc })

-- The end of a request: a connection exactly where `b` says so, and otherwise a session given up.
unfoldable pub Ends : Bool → Step → Type 0
Ends b (going s r) =
    (s.connected ≡ b) × (s.invalid ≡ not b) × (s.connected ≡ true → s.has_stream ≡ true)
Ends b (stopped s r) =
    (s.connected ≡ b) × (s.invalid ≡ not b) × (s.connected ≡ true → s.has_stream ≡ true)

pub Ends-bind :
    (b b' : Bool) (Q : Session → Type 0) (m : Step) (next : Session → HttpResult → Step)
    → Reached b Q m
    → ((s : Session) (r : HttpResult) → Q s → Ends b' (next s r))
    → Ends (b && b') (m >>= next)
unfolding Reached Ends
Ends-bind b b' Q (going s r) next reached later =
    subst (λ c. Ends (c && b') (next s r)) (sym reached.0) (later s r reached.1)
Ends-bind b b' Q (stopped s r) next reached later =
    let off : (b && b') ≡ false = ap (λ c. c && b') reached.0 in
    (
      reached.1.is_down ∙ sym off,
      reached.1.refused ∙ sym (ap not off),
      λ h. absurd_connected (sym h ∙ reached.1.is_down),
    )
  where
    absurd_connected : {A : Type 0} → true ≡ false → A
    absurd_connected h = cc

-- The session of an end.
Settled : Bool → Session → Type 0
Settled b s = (s.connected ≡ b) × (s.invalid ≡ not b) × (s.connected ≡ true → s.has_stream ≡ true)

parse_body-Ends :
    (b : Bool) (parsed : Parsed) (s : Session) (r : HttpResult)
    → Settled b s
    → Ends b (parse_body parsed s r)
unfolding Ends Settled parse_body
parse_body-Ends b (json_document v) s r settled = settled
parse_body-Ends b (unparsed message) s r settled = settled

kept_or_not :
    (keep_alive : Bool) (s : Session)
    → IsAlive true s
    → Settled keep_alive (if not keep_alive then invalidate s else s)
unfolding Settled
kept_or_not true s up = (up.state, up.valid, λ h. up.stream refl)
kept_or_not false s up =
    let dead = invalidate-IsDead true s up in
    (dead.is_down, dead.refused, λ h. absurd_connected (sym h ∙ dead.is_down))
  where
    absurd_connected : {A : Type 0} → true ≡ false → A
    absurd_connected h = cc

complete_response-Ends :
    (parse : Bytes → Parsed) (persistent : Bool) (x : Exchanging) (s : Session) (r : HttpResult)
    → IsAlive true s
    → Ends x.keep_alive (complete_response parse persistent x s r)
unfolding complete_response
complete_response-Ends parse persistent x s r up = parse_body-Ends x.keep_alive (parse x.body) _ _ (
    kept_or_not x.keep_alive (record s { completed_requests = (s.completed_requests + 1) % 2 ^ 32 })
      (record { state = up.state; valid = up.valid; stream = up.stream }))

up_call :
    (call : NetCall) (text : Failure → Bytes) (s : Session) (r : HttpResult)
    → IsAlive true s
    → Reached (is_fine call) (IsAlive true) (run_call call text s r)
up_call call text s r q = Reached-call (IsAlive true) (invalidate-IsDead true) call text s r q

begun :
    (persistent : Bool) (s : Session) (r : HttpResult)
    → IsAlive true s
    → Reached true (IsAlive true) (begin_request persistent s r)
unfolding Reached begin_request
begun persistent s r q = (refl, q)

pub exchange-Ends :
    (parse : Bytes → Parsed) (persistent : Bool) (x : Exchanging) (s : Session) (r : HttpResult)
    → IsAlive true s
    → Ends (exchanges x && x.keep_alive) (exchange parse persistent x s r)
unfolding exchange exchanges
exchange-Ends parse persistent x s r up =
    let begin_to = begun persistent s r up in
    let written = Reached-bind _ _ _ (IsAlive true) _ _ begin_to (up_call x.write_call _) in
    let header =
      Reached-next _ _ (IsAlive true) _ _ written (staged (IsAlive true) "http_header_read") in
    let headed = Reached-bind _ _ _ (IsAlive true) _ _ header (up_call x.header_call _) in
    let body =
      Reached-next _ _ (IsAlive true) _ _ headed (staged (IsAlive true) "http_body_read") in
    let read = Reached-bind _ _ _ (IsAlive true) _ _ body (up_call x.body_call _) in
    Ends-bind _ _ _ _ _ read (complete_response-Ends parse persistent x)
