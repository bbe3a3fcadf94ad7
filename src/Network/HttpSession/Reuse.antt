-- ===== src/Network/HttpSession/Reuse.antt =====
-- src/Network/HttpClient.cpp, HttpSession: when a connection is kept, and when it is given up.
use test_exchanges_helper.Base.{
  ◌≡◌, refl, sym, ◌∙◌, ap, Bool, true, false, not, ◌&&◌, ◌||◌, Bytes, codes, if◌then◌else◌,
  Bool-cases, inl, inr,
}
use test_exchanges_helper.Network.HttpSession.{
  Connecting, Exchange, Parsed, Session, HttpResult, fresh_result, Step, going, stopped, ◌>>=◌,
  establish, connect, exchange, finish_request, finish_step, request,
}
use test_exchanges_helper.Network.HttpSession.Stages.{
  connects, exchanges, IsSession, Ends, connect-Reached, Ends-bind, exchange-Ends,
}

-- What a keep-alive request leaves: a session, whose connection is the one that it reports.
pub record Leaves (kept lost : Bool) (end : Session × HttpResult) : Type 0 where
  pub still_session : IsSession end.0
  pub available : end.1.connection_available ≡ end.0.connected
  pub connection : end.0.connected ≡ kept
  pub given_up : end.0.invalid ≡ lost

finish_request-Leaves :
    (kept lost : Bool) (s : Session) (r : HttpResult)
    → IsSession s
    → s.connected ≡ kept
    → s.invalid ≡ lost
    → Leaves kept lost (finish_request true s r)
unfolding finish_request
finish_request-Leaves kept lost s r is state valid = record {
  still_session = is;
  available = report s.connected refl;
  connection = state;
  given_up = valid;
}
  where
    report : (b : Bool) → s.connected ≡ b → (s.connected && not s.invalid) ≡ s.connected
    report true h = rw (is.not_invalid h) (rw h refl)
    report false h = rw h refl

settled-IsSession :
    (b : Bool) (s : Session)
    → s.connected ≡ b
    → s.invalid ≡ not b
    → (s.connected ≡ true → s.has_stream ≡ true)
    → IsSession s
settled-IsSession b s state valid stream = record {
  on_stream = stream;
  not_invalid = λ h. valid ∙ ap not (sym state ∙ h);
}

finish-Ends : (b : Bool) (step : Step) → Ends b step → Leaves b (not b) (finish_step true step)
unfolding Ends finish_step
finish-Ends b (going s r) (state, valid, stream) =
    finish_request-Leaves b (not b) s r (settled-IsSession b s state valid stream) state valid
finish-Ends b (stopped s r) (state, valid, stream) =
    finish_request-Leaves b (not b) s r (settled-IsSession b s state valid stream) state valid

Leaves-cases :
    (invalid expired connected kept : Bool) (refused late done : Session × HttpResult)
    → (invalid ≡ true → Leaves false true refused)
    → (invalid ≡ false → Leaves connected false late)
    → (invalid ≡ false → Leaves kept (not kept) done)
    → Leaves
        (not invalid && (if expired then connected else kept))
        (invalid || (not expired && not kept))
        (if invalid then refused else if expired then late else done)
Leaves-cases true expired connected kept refused late done h k l = h refl
Leaves-cases false true connected kept refused late done h k l = k refl
Leaves-cases false false connected kept refused late done h k l = l refl

closed_session : (s : Session) → IsSession s → s.invalid ≡ true → s.connected ≡ false
closed_session s is h = elim (Bool-cases s.connected) [
  | inl up ↦ cc (is.not_invalid up, h)
  | inr down ↦ down
]

Leaves-request :
    (parse : Bytes → Parsed) (pinned : Bool) (e : Exchange) (s : Session)
    → IsSession s
    → (let kept =
          (s.connected || connects true pinned e.connecting)
          && (exchanges e.exchanging && e.exchanging.keep_alive) in
        Leaves
          (not s.invalid && (if e.expired then s.connected else kept))
          (s.invalid || (not e.expired && not kept))
          (request parse true pinned e s))
unfolding request
Leaves-request parse pinned e s is =
    Leaves-cases s.invalid e.expired s.connected _ _ _ _
      (λ h. finish_request-Leaves false true s _ is (closed_session s is h) h)
      (λ h. finish_request-Leaves s.connected false s _ is refl h)
      (λ h. finish-Ends _ _ (
        Ends-bind _ _ _ _ _ (connect-Reached true pinned e.connecting s fresh_result is h)
          (exchange-Ends parse true e.exchanging)))

untouched :
    (parse : Bytes → Parsed) (pinned : Bool) (e : Exchange) (s : Session)
    → (if s.invalid || e.expired then (request parse true pinned e s).0 else s) ≡ s
unfolding request finish_request
untouched parse pinned e s =
    go s.invalid e.expired
      (finish_request true s (record fresh_result {
        stage = "connection_invalidated";
        error = codes "public_connection_invalidated_no_automatic_reconnect";
      }))
      (finish_request true s (record fresh_result { error = codes "http_deadline_expired" }))
      (finish_step true
        (connect true pinned e.connecting s fresh_result >>= exchange parse true e.exchanging))
      refl refl
  where
    go :
        (invalid expired : Bool) (refused late done : Session × HttpResult)
        → refused.0 ≡ s
        → late.0 ≡ s
        → (if invalid || expired
            then (if invalid then refused else if expired then late else done).0
            else s)
          ≡ s
    go true expired refused late done h k = h
    go false true refused late done h k = k
    go false false refused late done h k = refl

-- A keep-alive request on a session that is not given up, before its deadline, keeps a connection
-- exactly where there was one or every call of making one succeeds, every call of the exchange
-- succeeds, and the response allows it; in every other case the session is given up. On a session
-- that is given up, or behind the deadline, the whole session stays as it was. The result reports
-- the connection that is there. The session is one that has a stream where it has a connection, and
-- no connection where it is given up, and is left so.
pub request-Leaves :
    (parse : Bytes → Parsed) (pinned : Bool) (e : Exchange) (s : Session)
    → IsSession s
    → (let kept =
          (s.connected || connects true pinned e.connecting)
          && (exchanges e.exchanging && e.exchanging.keep_alive) in
        Leaves
          (not s.invalid && (if e.expired then s.connected else kept))
          (s.invalid || (not e.expired && not kept))
          (request parse true pinned e s))
      × ((if s.invalid || e.expired then (request parse true pinned e s).0 else s) ≡ s)
request-Leaves parse pinned e s is =
    (Leaves-request parse pinned e s is, untouched parse pinned e s)

connect_there :
    (persistent pinned : Bool) (c : Connecting) (s : Session) (r : HttpResult)
    → s.connected ≡ true
    → connect persistent pinned c s r ≡ going s r
unfolding connect
connect_there persistent pinned c s r h =
    ap (λ b. if b then going s r else establish persistent pinned c s r) h

connected_request :
    (parse : Bytes → Parsed) (pinned pinned' : Bool) (e : Exchange) (c : Connecting) (s : Session)
    → s.connected ≡ true
    → request parse true pinned e s ≡ request parse true pinned' (record e { connecting = c }) s
unfolding request
connected_request parse pinned pinned' e c s h =
    ap
      (λ m.
        if s.invalid
        then finish_request true s (record fresh_result {
          stage = "connection_invalidated";
          error = codes "public_connection_invalidated_no_automatic_reconnect";
        })
        else if e.expired
        then finish_request true s (record fresh_result { error = codes "http_deadline_expired" })
        else finish_step true (m >>= exchange parse true e.exchanging))
      (connect_there true pinned e.connecting s fresh_result h
        ∙ sym (connect_there true pinned' c s fresh_result h))

-- Behind a keep-alive request that reports a connection, the next request goes over it: what the
-- calls of making a connection would report, and how its address is found, makes no difference.
pub request_reuses :
    (parse : Bytes → Parsed) (pinned pinned' : Bool) (e e' : Exchange) (c : Connecting)
    (s : Session)
    → IsSession s
    → (request parse true pinned e s).1.connection_available ≡ true
    → (let next = (request parse true pinned e s).0 in
        request parse true pinned e' next
        ≡ request parse true pinned' (record e' { connecting = c }) next)
request_reuses parse pinned pinned' e e' c s is h =
    let left = Leaves-request parse pinned e s is in
    connected_request parse pinned pinned' e' c (request parse true pinned e s).0
      (sym left.available ∙ h)
