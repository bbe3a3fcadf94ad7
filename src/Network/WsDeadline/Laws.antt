-- ===== src/Network/WsDeadline/Laws.antt =====
-- About what a socket operation under a deadline reports, and when its loop ends.
use mathlib.Core.Path.{subst}
use test_exchanges_helper.Base.{
  ℕ, ◌<◌, ◌≤◌, ◌≡◌, refl, sym, ◌∙◌, ◌⊎◌, inl, inr, Bool, true, false, ◌&&◌, ◌||◌, List, [], ◌∷◌,
  none, some, leb, any, arith, Bool-cases, Option-cases,
}
use test_exchanges_helper.Network.WsDeadline.{
  Verdict, timed_out, finished, Handler, timer_expired, timer_cancelled, unrelated, completed,
  Waiting, started, time_out, run_handler, verdict, drain, run_ws_deadline,
}

abbrev pub is_completion {ℓ} : {Code : Type ℓ} → Handler Code → Bool
is_completion (completed code now) = true
is_completion _ = false

abbrev pub is_timer {ℓ} : {Code : Type ℓ} → Handler Code → Bool
is_timer timer_expired = true
is_timer timer_cancelled = true
is_timer _ = false

true_not_false : ¬ (true ≡ false)
true_not_false e = cc

or_assoc_to : (a b c : Bool) → (a || (b || c)) ≡ true → ((a || b) || c) ≡ true
or_assoc_to a b c h = ground arith

some_injective {ℓ} : {A : Type ℓ} {a b : A} → some a ≡ some b → a ≡ b
some_injective e = cc

-- The socket was cancelled exactly where the flag says so.
abbrev CancelsMatch {ℓ} : {Code : Type ℓ} → Waiting Code → Type 0
CancelsMatch w =
    ((w.has_timed_out ≡ true) × (1 ≤ w.cancels)) ⊎ ((w.has_timed_out ≡ false) × (w.cancels ≡ 0))

module _ {ℓ} {Code : Type ℓ} (deadline : ℕ) where
  -- The schedule has a completion with this code before the deadline.
  pub data CompletesInTime (code : Code) : List (Handler Code) → Type ℓ where
    here :
        {now : ℕ} {hs : List (Handler Code)}
        → now < deadline
        → CompletesInTime code (completed code now ∷ hs)
    there :
        {h : Handler Code} {hs : List (Handler Code)}
        → CompletesInTime code hs
        → CompletesInTime code (h ∷ hs)

  handler_keeps_timeout :
      (w : Waiting Code) (h : Handler Code)
      → w.has_timed_out ≡ true
      → (run_handler deadline w h).has_timed_out ≡ true
  unfolding run_handler time_out
  handler_keeps_timeout w timer_expired e = ground arith
  handler_keeps_timeout w _ e = ground arith

  drain_keeps_timeout :
      (w : Waiting Code) (hs : List (Handler Code)) {last : Waiting Code}
      → w.has_timed_out ≡ true
      → drain deadline w hs ≡ some last
      → last.has_timed_out ≡ true
  unfolding drain
  drain_keeps_timeout w [] e d = ground arith
  drain_keeps_timeout w (h ∷ hs) {last} e d =
      elim (Bool-cases (w.operation_complete && w.timer_complete)) [
        | inl done ↦ ground arith
        | inr waits ↦
            drain_keeps_timeout (run_handler deadline w h) hs (handler_keeps_timeout w h e)
              (rw waits at d)
      ]

  -- What the other handlers leave.
  untouched :
      (w : Waiting Code) (h : Handler Code)
      → is_completion h ≡ false
      → ((run_handler deadline w h).operation_complete ≡ w.operation_complete)
        × ((run_handler deadline w h).result ≡ w.result)
  unfolding run_handler time_out
  untouched w timer_expired n = (ground arith, ground arith)
  untouched w timer_cancelled n = (refl, refl)
  untouched w unrelated n = (refl, refl)
  untouched w (completed code now) n = cc

  completed_late :
      (w : Waiting Code) (code : Code) (now : ℕ)
      → leb deadline now ≡ true
      → (run_handler deadline w (completed code now)).has_timed_out ≡ true
  unfolding run_handler time_out
  completed_late w code now e = ground arith

  completed_result :
      (w : Waiting Code) (code : Code) (now : ℕ)
      → (run_handler deadline w (completed code now)).result ≡ code
  unfolding run_handler time_out
  completed_result w code now = ground arith

  handler_in_time :
      (w : Waiting Code) (h : Handler Code) (hs : List (Handler Code)) (last : Waiting Code)
      → drain deadline (run_handler deadline w h) hs ≡ some last
      → last.has_timed_out ≡ false
      → (((run_handler deadline w h).operation_complete ≡ true)
          × (last.result ≡ (run_handler deadline w h).result))
        ⊎ CompletesInTime last.result hs
      → ((w.operation_complete ≡ true) × (last.result ≡ w.result))
        ⊎ CompletesInTime last.result (h ∷ hs)
  handler_in_time w h hs last d e (inr later) = inr (there later)
  handler_in_time w (completed code now) hs last d e (inl k) =
      elim (Bool-cases (leb deadline now)) [
        | inl late ↦
            absurd (
              true_not_false
                (sym (drain_keeps_timeout _ hs (completed_late w code now late) d) ∙ e))
        | inr early ↦ inr (
            subst (λ c. CompletesInTime c (completed code now ∷ hs))
              (sym (k.1 ∙ completed_result w code now)) (here (ground arith)))
      ]
  handler_in_time w timer_expired hs last d e (inl k) =
      let (c, r) = untouched w timer_expired refl in inl (sym c ∙ k.0, k.1 ∙ r)
  handler_in_time w timer_cancelled hs last d e (inl k) =
      let (c, r) = untouched w timer_cancelled refl in inl (sym c ∙ k.0, k.1 ∙ r)
  handler_in_time w unrelated hs last d e (inl k) =
      let (c, r) = untouched w unrelated refl in inl (sym c ∙ k.0, k.1 ∙ r)

  -- Whatever the loop returns with no time-out was complete before, or completes in time.
  drain_in_time :
      (w : Waiting Code) (hs : List (Handler Code)) {last : Waiting Code}
      → drain deadline w hs ≡ some last
      → last.has_timed_out ≡ false
      → ((w.operation_complete ≡ true) × (last.result ≡ w.result)) ⊎ CompletesInTime last.result hs
  unfolding drain
  drain_in_time w [] d e = inl (ground arith, ground arith)
  drain_in_time w (h ∷ hs) {last} d e =
      elim (Bool-cases (w.operation_complete && w.timer_complete)) [
        | inl done ↦ inl (ground arith, ground arith)
        | inr waits ↦
            handler_in_time w h hs last (rw waits at d) e
              (drain_in_time (run_handler deadline w h) hs (rw waits at d) e)
      ]

  handler-CancelsMatch :
      (w : Waiting Code) (h : Handler Code)
      → CancelsMatch w
      → CancelsMatch (run_handler deadline w h)
  unfolding run_handler time_out
  handler-CancelsMatch w timer_expired k = ground arith
  handler-CancelsMatch w _ k = ground arith

  drain-CancelsMatch :
      (w : Waiting Code) (hs : List (Handler Code)) {last : Waiting Code}
      → CancelsMatch w
      → drain deadline w hs ≡ some last
      → CancelsMatch last
  unfolding drain
  drain-CancelsMatch w [] k d = ground arith
  drain-CancelsMatch w (h ∷ hs) k d = elim (Bool-cases (w.operation_complete && w.timer_complete)) [
    | inl done ↦ subst CancelsMatch (some_injective (rw done at d)) k
    | inr waits ↦
        drain-CancelsMatch (run_handler deadline w h) hs (handler-CancelsMatch w h k)
          (rw waits at d)
  ]

  handler_progress :
      (w : Waiting Code) (h : Handler Code)
      → ((run_handler deadline w h).operation_complete ≡ (w.operation_complete || is_completion h))
        × ((run_handler deadline w h).timer_complete ≡ (w.timer_complete || is_timer h))
  unfolding run_handler time_out
  handler_progress w timer_expired = (ground arith, ground arith)
  handler_progress w _ = (ground arith, ground arith)

  drain_ends :
      (w : Waiting Code) (hs : List (Handler Code))
      → (w.operation_complete || any is_completion hs) ≡ true
      → (w.timer_complete || any is_timer hs) ≡ true
      → (last : Waiting Code) × (drain deadline w hs ≡ some last)
  unfolding drain
  drain_ends w [] c t = (w, ground arith)
  drain_ends w (h ∷ hs) c t = elim (Bool-cases (w.operation_complete && w.timer_complete)) [
    | inl done ↦ (w, rw done refl)
    | inr waits ↦
        let (pc, pt) = handler_progress w h in
        let (last, e) =
          drain_ends (run_handler deadline w h) hs
            (rw pc (or_assoc_to w.operation_complete (is_completion h) (any is_completion hs) c))
            (rw pt (or_assoc_to w.timer_complete (is_timer h) (any is_timer hs) t)) in
        (last, rw waits e)
  ]

none_not_some {ℓ} : {A : Type ℓ} {a : A} → none ≡ some a → ⊥
none_not_some e = cc

-- A code that completed before the deadline, on a socket that was not cancelled; or a time-out,
-- and a cancelled socket.
abbrev pub Reported {ℓ} : {Code : Type ℓ} → ℕ → ℕ → List (Handler Code) → Verdict Code → ℕ → Type ℓ
Reported {Code = Code} deadline now hs v cancels =
    ((code : Code) × (v ≡ finished code)
      × CompletesInTime deadline code hs
      × (now < deadline)
      × (cancels ≡ 0))
    ⊎ ((v ≡ timed_out) × (1 ≤ cancels))

verdict_cases {ℓ} :
    {Code : Type ℓ} (success : Code) (deadline now : ℕ) (hs : List (Handler Code))
    (last : Waiting Code)
    → now < deadline
    → drain deadline (started success) hs ≡ some last
    → CancelsMatch last
    → Reported deadline now hs (verdict last) last.cancels
unfolding verdict started
verdict_cases success deadline now hs last early e (inl (out, n)) = inr (ground arith, n)
verdict_cases success deadline now hs last early e (inr (kept, n)) =
    elim (drain_in_time deadline (started success) hs e kept) [
      | inl (c, r) ↦ absurd (true_not_false (sym c))
      | inr seen ↦ inl (last.result, ground arith, seen, early, n)
    ]

fresh {ℓ} : {Code : Type ℓ} (success : Code) → CancelsMatch (started success)
unfolding started
fresh success = inr (refl, refl)

-- An operation that is reported as finished, with whatever code, completed before the deadline,
-- and its socket was not cancelled; one that is reported as timed out had it cancelled.
pub run_ws_deadline_sound {ℓ} :
    {Code : Type ℓ} (success : Code) (deadline now : ℕ) (hs : List (Handler Code))
    (v : Verdict Code) (cancels : ℕ)
    → run_ws_deadline success deadline now hs ≡ some (v, cancels)
    → Reported deadline now hs v cancels
unfolding run_ws_deadline
run_ws_deadline_sound success deadline now hs v cancels h = elim (Bool-cases (leb deadline now)) [
  | inl late ↦ inr (ground arith)
  | inr early ↦ elim (Option-cases (drain deadline (started success) hs)) [
    | inl hung ↦ absurd (none_not_some (rw (early, hung) at h))
    | inr (last, e) ↦
        subst (λ p. Reported deadline now hs p.0 p.1) (some_injective (rw (early, e) at h))
          (verdict_cases success deadline now hs last (ground arith) e
            (drain-CancelsMatch deadline (started success) hs (fresh success) e))
  ]
]

-- Once the schedule has run the timer's handler and the operation's, in either order and among any
-- others, the loop has ended.
pub run_ws_deadline_ends {ℓ} :
    {Code : Type ℓ} (success : Code) (deadline now : ℕ) (hs : List (Handler Code))
    → any is_completion hs ≡ true
    → any is_timer hs ≡ true
    → (outcome : Verdict Code × ℕ) × (run_ws_deadline success deadline now hs ≡ some outcome)
unfolding run_ws_deadline started
run_ws_deadline_ends success deadline now hs c t = elim (Bool-cases (leb deadline now)) [
  | inl late ↦ ((timed_out, 1), rw late refl)
  | inr early ↦
      let (last, e) = drain_ends deadline (started success) hs c t in
      ((verdict last, last.cancels), rw (early, e) refl)
]
