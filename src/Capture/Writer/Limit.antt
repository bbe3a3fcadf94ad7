-- ===== src/Capture/Writer/Limit.antt =====
-- The byte limit of a bundle, and the counters of its frames.
use test_exchanges_helper.Base.{
  ℕ, ◌+◌, ◌%◌, ◌^◌, ◌≤◌, ◌<◌, ◌≡◌, refl, ◌⊎◌, inl, inr, Bool, true, false, not, ◌||◌, List, [], ◌∷◌,
  ◌++◌, Bytes, ltb, length, length-append, All, if◌then◌else◌, arith, Bool-cases,
}
use test_exchanges_helper.Json.{Value, object}
use test_exchanges_helper.Capture.Writer.{
  Writer, SessionArgs, ControlArgs, FrameArgs, session_row, control_row, frame_row, is_refused,
  lost, reserved, mark_storage_failure, session, control, frame, Call, session_call, control_call,
  frame_call, call, calls,
}

-- The bytes of a file of rows, line feeds included, and of the four files.
abbrev pub line_bytes : List Bytes → ℕ
line_bytes [] = 0
line_bytes (line ∷ lines) = length line + 1 + line_bytes lines

abbrev pub disk_bytes : Writer → ℕ
disk_bytes w =
    length w.frames + line_bytes w.frame_index + line_bytes w.controls + line_bytes w.sessions

-- The files are within the bytes that were counted, these within the limit; and unless a stream
-- has failed, the counters of the frames are those of the files.
pub record IsWithin (w : Writer) : Type 0 where
  pub counted : disk_bytes w ≤ w.bytes_written
  pub limited : w.bytes_written ≤ w.byte_limit
  pub small : w.byte_limit < 2 ^ 62
  pub framed :
      (w.storage_failed ≡ true)
      ⊎ ((w.frame_bytes ≡ length w.frames) × (w.next_frame_id ≡ length w.frame_index))

not_refused :
    (amount : ℕ) (w : Writer)
    → IsWithin w
    → amount < 2 ^ 62
    → is_refused amount w ≡ false
    → ((w.bytes_written + amount) % 2 ^ 64 ≡ w.bytes_written + amount)
      × (w.bytes_written + amount ≤ w.byte_limit)
unfolding is_refused
not_refused amount w v h k = exact (w.bytes_written + amount) (omega (arith, v.limited, v.small)) k
  where
    exact :
        (n : ℕ)
        → n < 2 ^ 64
        → (not w.artifact_complete || ltb w.byte_limit (n % 2 ^ 64)) ≡ false
        → (n % 2 ^ 64 ≡ n) × (n ≤ w.byte_limit)
    exact n s k = ground arith

lost-IsWithin : (w : Writer) → IsWithin w → IsWithin (lost w)
unfolding lost
lost-IsWithin w v = record {
  counted = v.counted;
  limited = v.limited;
  small = v.small;
  framed = v.framed;
}

failed-IsWithin :
    (amount : ℕ) (w : Writer)
    → IsWithin w
    → amount < 2 ^ 62
    → is_refused amount w ≡ false
    → IsWithin (mark_storage_failure (reserved amount w))
unfolding mark_storage_failure reserved
failed-IsWithin amount w v h k =
    let (e, l) = not_refused amount w v h k in
    record {
      counted = omega (arith, e, v.counted);
      limited = omega (arith, e, l);
      small = v.small;
      framed = inl refl;
    }

module _ (serialize : Value → Bytes) (short : (v : Value) → length (serialize v) < 2 ^ 61) where
  line_small : (v : Value) → length (serialize v) + 1 < 2 ^ 62
  line_small v = omega (arith, short v)

  session-IsWithin :
      (a : SessionArgs) (stored : Bool) (w : Writer)
      → IsWithin w
      → IsWithin (session serialize a stored w)
  unfolding session reserved
  session-IsWithin a stored w v =
      elim (Bool-cases (is_refused (length (serialize (session_row a)) + 1) w)) [
        | inl stop ↦ rw stop (lost-IsWithin w v)
        | inr room ↦ rw room (
            go stored
              (not_refused (length (serialize (session_row a)) + 1) w v (line_small (session_row a))
                room)
              (failed-IsWithin _ w v (line_small (session_row a)) room))
      ]
    where
      line : Bytes
      line = serialize (session_row a)

      counted : Writer
      counted = reserved (length line + 1) w

      go :
          (b : Bool)
          → ((w.bytes_written + (length line + 1)) % 2 ^ 64 ≡ w.bytes_written + (length line + 1))
            × (w.bytes_written + (length line + 1) ≤ w.byte_limit)
          → IsWithin (mark_storage_failure counted)
          → IsWithin (
              if b
              then record counted { sessions = line ∷ w.sessions }
              else mark_storage_failure counted)
      go false r m = m
      go true r m = record {
        counted = omega (arith, r.0, v.counted);
        limited = omega (arith, r.0, r.1);
        small = v.small;
        framed = v.framed;
      }

  control-IsWithin :
      (a : ControlArgs) (stored : Bool) (w : Writer)
      → IsWithin w
      → IsWithin (control serialize a stored w)
  unfolding control reserved
  control-IsWithin a stored w v =
      elim (Bool-cases (is_refused (length (serialize (control_row a)) + 1) w)) [
        | inl stop ↦ rw stop (lost-IsWithin w v)
        | inr room ↦ rw room (
            go stored
              (not_refused (length (serialize (control_row a)) + 1) w v (line_small (control_row a))
                room)
              (failed-IsWithin _ w v (line_small (control_row a)) room))
      ]
    where
      line : Bytes
      line = serialize (control_row a)

      counted : Writer
      counted = reserved (length line + 1) w

      go :
          (b : Bool)
          → ((w.bytes_written + (length line + 1)) % 2 ^ 64 ≡ w.bytes_written + (length line + 1))
            × (w.bytes_written + (length line + 1) ≤ w.byte_limit)
          → IsWithin (mark_storage_failure counted)
          → IsWithin (
              if b
              then record counted { controls = line ∷ w.controls }
              else mark_storage_failure counted)
      go false r m = m
      go true r m = record {
        counted = omega (arith, r.0, v.counted);
        limited = omega (arith, r.0, r.1);
        small = v.small;
        framed = v.framed;
      }

  frame-IsWithin :
      (a : FrameArgs) (stored : Bool) (w : Writer)
      → length a.payload < 2 ^ 61
      → IsWithin w
      → IsWithin (frame serialize a stored w)
  unfolding frame reserved mark_storage_failure
  frame-IsWithin a stored w s v = elim (Bool-cases (is_refused amount w)) [
    | inl stop ↦ rw stop (lost-IsWithin w v)
    | inr room ↦ rw room (go stored (not_refused amount w v amount_small room))
  ]
    where
      line : Bytes
      line = serialize (object (frame_row w.next_frame_id w.frame_bytes a))

      amount : ℕ
      amount = length a.payload + (length line + 1)

      amount_small : amount < 2 ^ 62
      amount_small = omega (arith, short (object (frame_row w.next_frame_id w.frame_bytes a)))

      counted : Writer
      counted = record (reserved amount w) { next_frame_id = w.next_frame_id + 1 }

      go :
          (b : Bool)
          → ((w.bytes_written + amount) % 2 ^ 64 ≡ w.bytes_written + amount)
            × (w.bytes_written + amount ≤ w.byte_limit)
          → IsWithin (
              if b
              then record counted {
                frame_bytes = (w.frame_bytes + length a.payload) % 2 ^ 64;
                frames = w.frames ++ a.payload;
                frame_index = line ∷ w.frame_index;
              }
              else mark_storage_failure counted)
      go false r = record {
        counted = omega (arith, r.0, v.counted);
        limited = omega (arith, r.0, r.1);
        small = v.small;
        framed = inl refl;
      }
      go true r = record {
        counted = omega (arith, r.0, v.counted, length-append w.frames a.payload);
        limited = omega (arith, r.0, r.1);
        small = v.small;
        framed = elim v.framed [
          | inl failed ↦ inl failed
          | inr f ↦ inr (
            omega (arith, f.0, length-append w.frames a.payload, v.counted, v.limited, v.small),
            omega (arith, f.1),
          )
        ];
      }

  -- The payloads that a capture hands over, each smaller than 2^61 bytes.
  abbrev pub is_small : Call → Bool
  is_small (frame_call a stored) = ltb (length a.payload) (2 ^ 61)
  is_small c = true

  call-IsWithin :
      (c : Call) (w : Writer) → is_small c ≡ true → IsWithin w → IsWithin (call serialize c w)
  unfolding call
  call-IsWithin (session_call a stored) w h v = session-IsWithin a stored w v
  call-IsWithin (control_call a stored) w h v = control-IsWithin a stored w v
  call-IsWithin (frame_call a stored) w h v = frame-IsWithin a stored w (ground arith) v

  -- In any sequence of calls, with streams that fail at any time, the four files together stay
  -- within the bytes that the writer has counted, and these within its limit; and unless a stream
  -- has failed, the frame counter and the next offset are the ones of the files.
  pub calls-IsWithin :
      (cs : List Call) (w : Writer)
      → All (λ c. is_small c ≡ true) cs
      → IsWithin w
      → IsWithin (calls serialize cs w)
  unfolding calls
  calls-IsWithin [] w h v = v
  calls-IsWithin (c ∷ cs) w h v =
      calls-IsWithin cs (call serialize c w) h.1 (call-IsWithin c w h.0 v)
