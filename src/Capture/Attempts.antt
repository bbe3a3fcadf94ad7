-- ===== src/Capture/Attempts.antt =====
-- The loop of `capture_channel` over its attempts. What one attempt does on the network is an
-- oracle: its result, and the clock when the policy is asked. The clock and the deadline are
-- milliseconds; the rows of sessions.jsonl that the loop itself writes are the trace.
pub mod Laws
use test_exchanges_helper.Base.{
  ℕ, suc, ◌+◌, ◌*◌, ◌%◌, ◌^◌, Bool, true, false, not, ◌&&◌, ◌||◌, List, [], ◌∷◌, ◌++◌, Option, none,
  some, Bytes, leb, ltb, ◌==◌, if◌then◌else◌,
}
use test_exchanges_helper.Capture.Reconnect.{reconnect_wait}

-- `AttemptResult`, and `exception` for the handler around an attempt.
pub data AttemptResult : Type 0 where
  deadline_reached disconnected fatal exception : AttemptResult

-- An attempt: its result, how many frames it read, whether it wrote its "connected" row (which
-- ends a reconnection), and the clock behind it.
pub record Attempt : Type 0 where
  pub result : AttemptResult
  pub frames : ℕ
  pub connected : Bool
  pub now : ℕ

pub data Row : Type 0 where
  complete : Bool → Row
  reconnect_exhausted exception_row : Row
  reconnect_wait_row : ℕ → ℕ → Row

-- The variables of the loop that outlive an attempt, and the flag that all channels share.
pub record Capture : Type 0 where
  pub frames_read : ℕ
  pub reconnecting : Bool
  pub any_failure : Bool
  pub rows : List Row

-- `jitter_seed`, in 32 bits
unfoldable pub jitter_from : ℕ → Bytes → ℕ
jitter_from seed [] = seed
jitter_from seed (c ∷ cs) = jitter_from ((seed * 33 + c) % 2 ^ 32) cs

unfoldable pub jitter_seed : ℕ → ℕ → Bytes → ℕ
jitter_seed round attempt channel_id = jitter_from ((round * 31 + attempt * 17) % 2 ^ 32) channel_id

abbrev pub write : Row → Capture → Capture
write row c = record c { rows = c.rows ++ row ∷ [] }

abbrev pub fail_if : Bool → Capture → Capture
fail_if failed c = record c { any_failure = c.any_failure || failed }

-- What the attempt itself changes.
unfoldable pub attempted : Attempt → Capture → Capture
attempted a c = record c {
  frames_read = c.frames_read + a.frames;
  reconnecting = c.reconnecting && not a.connected;
}

-- `frames_read != 0U && !reconnect_started.has_value()`
unfoldable pub is_completed : Capture → Bool
is_completed c = not (c.frames_read == 0) && not c.reconnecting

-- The part of the source that the loop keeps fixed.
pub record Setup : Type 0 where
  pub attempts : ℕ
  pub deadline : ℕ
  pub round : ℕ
  pub channel_id : Bytes

unfoldable pub wait_after : Setup → ℕ → Attempt → Option ℕ
wait_after s attempt a =
    reconnect_wait attempt s.attempts a.now s.deadline (jitter_seed s.round attempt s.channel_id)

-- What follows an attempt, by its result and the policy's answer.
unfoldable pub after_result : AttemptResult → Option ℕ → Capture → (ℕ → Capture) → Capture
after_result deadline_reached wait next retry =
    fail_if (not (is_completed next)) (write (complete (is_completed next)) next)
after_result fatal wait next retry = fail_if true next
after_result exception wait next retry = fail_if true (write exception_row next)
after_result disconnected none next retry =
    fail_if true (write reconnect_exhausted (record next { reconnecting = true }))
after_result disconnected (some delay) next retry = retry delay

-- The loop from `attempt` on; the attempts that the network would make are the list. A list that
-- ends early stands for a capture that is still running.
unfoldable pub capture_channel : Setup → ℕ → List Attempt → Capture → Capture
capture_channel s attempt [] c = c
capture_channel s attempt (a ∷ later) c =
    let retry = λ (delay : ℕ).
      capture_channel s (attempt + 1) later (
        write (reconnect_wait_row attempt delay)
          (record (attempted a c) { reconnecting = true })) in
    let ended = after_result a.result (wait_after s attempt a) (attempted a c) retry in
    if ltb s.attempts attempt then c else ended
