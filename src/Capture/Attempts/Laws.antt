-- ===== src/Capture/Attempts/Laws.antt =====
-- About the end of a capture and its waits.
use test_exchanges_helper.Base.{
  ℕ, ◌+◌, ◌-◌, ◌%◌, ◌≤◌, ◌<◌, ◌≡◌, ◌↔◌, refl, ◌⊎◌, inl, inr, Bool, true, false, not, ◌||◌, List, [],
  ◌∷◌, ◌++◌, Option, none, some, ltb, length, arith, Bool-cases,
}
use test_exchanges_helper.Capture.Reconnect.{reconnect_wait}
use test_exchanges_helper.Capture.Attempts.{
  AttemptResult, deadline_reached, disconnected, fatal, exception, Attempt, Row, complete,
  reconnect_exhausted, exception_row, reconnect_wait_row, Capture, Setup, attempted, is_completed,
  wait_after, after_result, capture_channel, write, fail_if, jitter_seed,
}

-- A retry is granted exactly between the first and the last of at most three attempts, if its
-- delay of 250 to 350 ms ends before the deadline of the round.
pub reconnect_wait_iff :
    (completed_attempt maximum_attempts now deadline jitter_seed delay : ℕ)
    → (reconnect_wait completed_attempt maximum_attempts now deadline jitter_seed ≡ some delay) ↔ (
        (delay ≡ 250 + jitter_seed % 101)
        × (1 ≤ completed_attempt)
        × (completed_attempt < maximum_attempts)
        × (maximum_attempts ≤ 3)
        × (now + delay < deadline))
unfolding reconnect_wait
reconnect_wait_iff completed_attempt maximum_attempts now deadline jitter_seed delay =
    (λ h. ground arith, λ h. ground arith)

is_wait : Row → ℕ
is_wait (reconnect_wait_row attempt delay) = 1
is_wait _ = 0

-- The waits that a trace holds.
unfoldable pub waits : List Row → ℕ
unfolding is_wait
waits [] = 0
waits (row ∷ rows) = is_wait row + waits rows

waits-write : (rows : List Row) (row : Row) → waits (rows ++ row ∷ []) ≡ waits rows + is_wait row
unfolding waits
waits-write [] row = omega arith
waits-write (r ∷ rows) row = omega (arith, waits-write rows row)

-- No failure, frames, no reconnection pending, and the last row says so.
pub record IsComplete (c : Capture) : Type 0 where
  pub has_frames : 0 < c.frames_read
  pub not_reconnecting : c.reconnecting ≡ false
  pub before : List Row
  pub last_row : c.rows ≡ before ++ complete true ∷ []

abbrev pub Ended : Capture → Type 0
Ended c = (c.any_failure ≡ true) ⊎ IsComplete c

or_true : (b : Bool) → (b || true) ≡ true
or_true true = refl
or_true false = refl

deadline-Ended :
    (c : Capture) (b : Bool) → is_completed c ≡ b → Ended (fail_if (not b) (write (complete b) c))
unfolding is_completed
deadline-Ended c true h = inr (record {
  has_frames = ground arith;
  not_reconnecting = ground arith;
  before = c.rows;
  last_row = refl;
})
deadline-Ended c false h = inl (or_true c.any_failure)

after_result-Ended :
    (r : AttemptResult) (wait : Option ℕ) (next : Capture) (retry : ℕ → Capture)
    → ((delay : ℕ) → wait ≡ some delay → Ended (retry delay))
    → Ended (after_result r wait next retry)
unfolding after_result
after_result-Ended deadline_reached wait next retry k = deadline-Ended next (is_completed next) refl
after_result-Ended fatal wait next retry k = inl (or_true next.any_failure)
after_result-Ended exception wait next retry k = inl (or_true next.any_failure)
after_result-Ended disconnected none next retry k = inl (or_true next.any_failure)
after_result-Ended disconnected (some delay) next retry k = k delay refl

granted :
    (s : Setup) (attempt : ℕ) (a : Attempt) (delay : ℕ)
    → wait_after s attempt a ≡ some delay
    → (attempt < s.attempts) × (s.attempts ≤ 3) × (1 ≤ attempt)
unfolding wait_after
granted s attempt a delay h =
    let (d, one, less, three, time) =
      (reconnect_wait_iff attempt s.attempts a.now s.deadline
          (jitter_seed s.round attempt s.channel_id) delay).0
        h in
    (less, three, one)

-- With as many attempts at hand as the options allow, a capture ends with the failure flag set, or
-- with frames read, no reconnection pending, and a last row that reports the success.
pub capture_channel-Ended :
    (s : Setup) (attempt : ℕ) (attempts : List Attempt) (c : Capture)
    → attempt ≤ s.attempts
    → s.attempts < attempt + length attempts
    → Ended (capture_channel s attempt attempts c)
unfolding capture_channel
capture_channel-Ended s attempt [] c h k = absurd (omega arith)
capture_channel-Ended s attempt (a ∷ later) c h k = rw (not_past h) (
    after_result-Ended a.result (wait_after s attempt a) (attempted a c) _ λ delay e.
      capture_channel-Ended s (attempt + 1) later _ (omega (arith, (granted s attempt a delay e).0))
        (omega arith))
  where
    not_past : attempt ≤ s.attempts → ltb s.attempts attempt ≡ false
    not_past h = ground arith

attempted-rows : (a : Attempt) (c : Capture) → waits (attempted a c).rows ≡ waits c.rows
unfolding attempted
attempted-rows a c = refl

after_result-waits :
    (n : ℕ) (r : AttemptResult) (wait : Option ℕ) (next : Capture) (retry : ℕ → Capture)
    → waits next.rows ≤ n
    → ((delay : ℕ) → wait ≡ some delay → waits (retry delay).rows ≤ n)
    → waits (after_result r wait next retry).rows ≤ n
unfolding after_result is_wait
after_result-waits n deadline_reached wait next retry h k =
    omega (arith, waits-write next.rows (complete (is_completed next)))
after_result-waits n fatal wait next retry h k = h
after_result-waits n exception wait next retry h k =
    omega (arith, waits-write next.rows exception_row)
after_result-waits n disconnected none next retry h k =
    omega (arith, waits-write next.rows reconnect_exhausted)
after_result-waits n disconnected (some delay) next retry h k = k delay refl

waits-wait :
    (rows : List Row) (attempt delay : ℕ)
    → waits (rows ++ reconnect_wait_row attempt delay ∷ []) ≡ waits rows + 1
unfolding is_wait
waits-wait rows attempt delay = waits-write rows (reconnect_wait_row attempt delay)

-- Whatever the network does and whatever limit the options set, a capture that starts with its
-- first attempt waits for a reconnection at most twice.
pub capture_channel-waits :
    (s : Setup) (attempt : ℕ) (attempts : List Attempt) (c : Capture)
    → 1 ≤ attempt
    → waits (capture_channel s attempt attempts c).rows ≤ waits c.rows + (3 - attempt)
unfolding capture_channel
capture_channel-waits s attempt [] c h = omega arith
capture_channel-waits s attempt (a ∷ later) c h = elim (Bool-cases (ltb s.attempts attempt)) [
  | inl past ↦ rw past (omega arith)
  | inr on ↦ rw on (
      after_result-waits (waits c.rows + (3 - attempt)) a.result (wait_after s attempt a)
        (attempted a c) _ (unfold attempted in omega arith)
        λ delay e. omega (
          arith,
          capture_channel-waits s (attempt + 1) later
              (write (reconnect_wait_row attempt delay)
                (record (attempted a c) { reconnecting = true }))
              (omega arith),
          granted s attempt a delay e,
          attempted-rows a c,
          waits-wait (attempted a c).rows attempt delay,
        ))
]
