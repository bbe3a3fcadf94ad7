-- ===== src/Network/WsDeadline.antt =====
-- src/Network/WsDeadline.hpp: one asynchronous operation under a deadline. The handlers run one at
-- a time, in an order that the event loop chooses: a schedule is the list of those that
-- `context.run_one` runs. An operation's error is of a type that the caller supplies.
pub mod Laws
use test_exchanges_helper.Base.{
  ℕ, suc, ◌+◌, Bool, true, false, not, ◌&&◌, ◌||◌, List, [], ◌∷◌, Option, none, some, leb,
  if◌then◌else◌,
}

-- What the caller sees: the operation's own code, or `asio::error::timed_out`.
pub data Verdict {ℓ} (Code : Type ℓ) : Type ℓ where
  timed_out : Verdict Code
  finished : Code → Verdict Code

-- The handlers. The timer's has an error exactly if the timer was cancelled; the completion reads
-- the clock; other work of the context (an idle timer of Beast) touches none of the variables.
pub data Handler {ℓ} (Code : Type ℓ) : Type ℓ where
  timer_expired timer_cancelled unrelated : Handler Code
  completed : Code → ℕ → Handler Code

-- The local variables, and how often `cancel` was called.
pub record Waiting {ℓ} (Code : Type ℓ) : Type ℓ where
  pub operation_complete : Bool
  pub timer_complete : Bool
  pub has_timed_out : Bool
  pub result : Code
  pub cancels : ℕ

module _ {ℓ} {Code : Type ℓ} where
  -- The variables when both operations have been initiated; `success` is a code of no error.
  unfoldable pub started : Code → Waiting Code
  started success = record {
    operation_complete = false;
    timer_complete = false;
    has_timed_out = false;
    result = success;
    cancels = 0;
  }

  unfoldable pub time_out : Waiting Code → Waiting Code
  time_out w = record w { has_timed_out = true; cancels = w.cancels + 1 }

  -- The two lambdas.
  unfoldable pub run_handler : ℕ → Waiting Code → Handler Code → Waiting Code
  run_handler deadline w timer_expired =
      let w' = record w { timer_complete = true } in
      if not w.operation_complete then time_out w' else w'
  run_handler deadline w timer_cancelled = record w { timer_complete = true }
  run_handler deadline w unrelated = w
  run_handler deadline w (completed code now) =
      let w' = record w { result = code } in
      let w'' = if leb deadline now then time_out w' else w' in
      record w'' { operation_complete = true }

  -- `timed_out ? asio::error::timed_out : result`
  unfoldable pub verdict : Waiting Code → Verdict Code
  verdict w = if w.has_timed_out then timed_out else finished w.result

  -- `while (!operation_complete || !timer_complete) { … run_one(); }`; `none` is a schedule that
  -- ends while the loop still waits.
  unfoldable pub drain : ℕ → Waiting Code → List (Handler Code) → Option (Waiting Code)
  drain deadline w [] = if w.operation_complete && w.timer_complete then some w else none
  drain deadline w (h ∷ hs) =
      let rest = drain deadline (run_handler deadline w h) hs in
      if w.operation_complete && w.timer_complete then some w else rest

  -- `run_ws_deadline` with an initiating function that does not throw: the verdict, and how often
  -- the socket was cancelled. The operation is not started once the deadline has come.
  unfoldable pub run_ws_deadline : Code → ℕ → ℕ → List (Handler Code) → Option (Verdict Code × ℕ)
  run_ws_deadline success deadline now hs =
      if leb deadline now
      then some (timed_out, 1)
      else (elim (drain deadline (started success) hs) [
        | none ↦ none
        | some w ↦ some (verdict w, w.cancels)
      ])
