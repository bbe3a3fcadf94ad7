-- ===== src/Capture/Writer/Lossless.antt =====
-- About the records of a bundle that is marked as complete.
use test_exchanges_helper.Base.{
  ℕ, suc, ◌+◌, ◌≡◌, refl, sym, ◌∙◌, ap, ◌⊎◌, inl, inr, Bool, true, false, List, [], ◌∷◌, ◌++◌,
  Bytes, length, if◌then◌else◌, arith, Bool-cases,
}
use native.Mathlib.Nat.{zero-add}
use mathlib.Core.List.{append-nil, append_assoc}
use test_exchanges_helper.Json.{Value, object}
use test_exchanges_helper.Capture.Writer.{
  Writer, SessionArgs, ControlArgs, FrameArgs, session_row, control_row, frame_row, is_refused,
  lost, reserved, mark_storage_failure, session, control, frame, finish, Call, session_call,
  control_call, frame_call, call, calls, opened_writer,
}

-- How many rows a capture hands over to the three files, and the payloads of its frames.
abbrev pub row_of : Call → ℕ × ℕ × ℕ
row_of (session_call a stored) = (1, 0, 0)
row_of (control_call a stored) = (0, 1, 0)
row_of (frame_call a stored) = (0, 0, 1)

abbrev payload_of : Call → Bytes
payload_of (frame_call a stored) = a.payload
payload_of c = []

unfoldable pub handed_payloads : List Call → Bytes
handed_payloads [] = []
handed_payloads (c ∷ cs) = payload_of c ++ handed_payloads cs

unfoldable pub handed_rows : List Call → ℕ × ℕ × ℕ
handed_rows [] = (0, 0, 0)
handed_rows (c ∷ cs) = (
  (row_of c).0 + (handed_rows cs).0,
  (row_of c).1 + (handed_rows cs).1,
  (row_of c).2 + (handed_rows cs).2,
)

-- What a call adds to the files, unless the artifact is incomplete behind it.
pub record Keeps (before after : Writer) (rows : ℕ × ℕ × ℕ) (payload : Bytes) : Type 0 where
  pub was_complete : before.artifact_complete ≡ true
  pub session_rows : length after.sessions ≡ length before.sessions + rows.0
  pub control_rows : length after.controls ≡ length before.controls + rows.1
  pub frame_rows : length after.frame_index ≡ length before.frame_index + rows.2
  pub payloads : after.frames ≡ before.frames ++ payload
  pub none_lost : after.records_not_persisted ≡ before.records_not_persisted

abbrev KeepsOr : Writer → Writer → ℕ × ℕ × ℕ → Bytes → Type 0
KeepsOr before after rows payload =
    (after.artifact_complete ≡ false) ⊎ Keeps before after rows payload

accepted_complete :
    (amount : ℕ) (w : Writer) → is_refused amount w ≡ false → w.artifact_complete ≡ true
unfolding is_refused
accepted_complete amount w h = ground arith

sum_zero : (n : ℕ) → n ≡ n + 0
sum_zero n = omega arith

sum_one : (n : ℕ) → suc n ≡ n + 1
sum_one n = omega arith

module _ (serialize : Value → Bytes) where
  session-Keeps :
      (a : SessionArgs) (stored : Bool) (w : Writer)
      → KeepsOr w (session serialize a stored w) (1, 0, 0) []
  unfolding session lost reserved mark_storage_failure
  session-Keeps a stored w =
      elim (Bool-cases (is_refused (length (serialize (session_row a)) + 1) w)) [
        | inl stop ↦ rw stop (inl refl)
        | inr room ↦ rw room (elim (Bool-cases stored) [
          | inr bad ↦ rw bad (inl refl)
          | inl good ↦ rw good (
              inr (record {
                was_complete = accepted_complete _ w room;
                session_rows = sum_one (length w.sessions);
                control_rows = sum_zero (length w.controls);
                frame_rows = sum_zero (length w.frame_index);
                payloads = sym (append-nil w.frames);
                none_lost = refl;
              }))
        ])
      ]

  control-Keeps :
      (a : ControlArgs) (stored : Bool) (w : Writer)
      → KeepsOr w (control serialize a stored w) (0, 1, 0) []
  unfolding control lost reserved mark_storage_failure
  control-Keeps a stored w =
      elim (Bool-cases (is_refused (length (serialize (control_row a)) + 1) w)) [
        | inl stop ↦ rw stop (inl refl)
        | inr room ↦ rw room (elim (Bool-cases stored) [
          | inr bad ↦ rw bad (inl refl)
          | inl good ↦ rw good (
              inr (record {
                was_complete = accepted_complete _ w room;
                session_rows = sum_zero (length w.sessions);
                control_rows = sum_one (length w.controls);
                frame_rows = sum_zero (length w.frame_index);
                payloads = sym (append-nil w.frames);
                none_lost = refl;
              }))
        ])
      ]

  frame-Keeps :
      (a : FrameArgs) (stored : Bool) (w : Writer)
      → KeepsOr w (frame serialize a stored w) (0, 0, 1) a.payload
  unfolding frame lost reserved mark_storage_failure
  frame-Keeps a stored w =
      elim (Bool-cases (
        is_refused
          (length a.payload
            + (length (serialize (object (frame_row w.next_frame_id w.frame_bytes a))) + 1))
          w)) [
            | inl stop ↦ rw stop (inl refl)
            | inr room ↦ rw room (elim (Bool-cases stored) [
              | inr bad ↦ rw bad (inl refl)
              | inl good ↦ rw good (
                  inr (record {
                    was_complete = accepted_complete _ w room;
                    session_rows = sum_zero (length w.sessions);
                    control_rows = sum_zero (length w.controls);
                    frame_rows = sum_one (length w.frame_index);
                    payloads = refl;
                    none_lost = refl;
                  }))
            ])
          ]

  call-Keeps : (c : Call) (w : Writer) → KeepsOr w (call serialize c w) (row_of c) (payload_of c)
  unfolding call
  call-Keeps (session_call a stored) w = session-Keeps a stored w
  call-Keeps (control_call a stored) w = control-Keeps a stored w
  call-Keeps (frame_call a stored) w = frame-Keeps a stored w

  calls-Keeps :
      (cs : List Call) (w : Writer)
      → (calls serialize cs w).artifact_complete ≡ true
      → Keeps w (calls serialize cs w) (handed_rows cs) (handed_payloads cs)
  unfolding calls handed_rows handed_payloads
  calls-Keeps [] w h = record {
    was_complete = h;
    session_rows = sum_zero (length w.sessions);
    control_rows = sum_zero (length w.controls);
    frame_rows = sum_zero (length w.frame_index);
    payloads = sym (append-nil w.frames);
    none_lost = refl;
  }
  calls-Keeps (c ∷ cs) w h =
      let k = calls-Keeps cs (call serialize c w) h in
      elim (call-Keeps c w) [
        | inl gone ↦ absurd (true_not_false (sym k.was_complete ∙ gone))
        | inr j ↦ record {
          was_complete = j.was_complete;
          session_rows = omega (arith, j.session_rows, k.session_rows);
          control_rows = omega (arith, j.control_rows, k.control_rows);
          frame_rows = omega (arith, j.frame_rows, k.frame_rows);
          payloads =
              k.payloads
              ∙ ap (λ s. s ++ handed_payloads cs) j.payloads
              ∙ append_assoc w.frames (payload_of c) (handed_payloads cs);
          none_lost = k.none_lost ∙ j.none_lost;
        }
      ]
    where
      true_not_false : ¬ (true ≡ false)
      true_not_false e = cc

-- The files and the count of lost records are the same.
abbrev SameFiles : Writer → Writer → Type 0
SameFiles v w =
    (v.sessions ≡ w.sessions)
    × (v.controls ≡ w.controls)
    × (v.frame_index ≡ w.frame_index)
    × (v.frames ≡ w.frames)
    × (v.records_not_persisted ≡ w.records_not_persisted)

finish-SameFiles :
    (sessions_ok streams_good manifest_good marker_good : Bool) (w : Writer)
    → SameFiles (finish sessions_ok streams_good manifest_good marker_good w) w
unfolding finish mark_storage_failure
finish-SameFiles sessions_ok streams_good manifest_good marker_good w =
    flushed streams_good manifest_good
  where
    settled :
        (b marker : Bool) (closed : Writer)
        → SameFiles
            (if b
              then (if marker
                  then record closed { finished_successfully = true }
                  else record closed { storage_failed = true; finished_successfully = false })
              else record closed { finished_successfully = false })
            closed
    settled true true closed = (refl, refl, refl, refl, refl)
    settled true false closed = (refl, refl, refl, refl, refl)
    settled false marker closed = (refl, refl, refl, refl, refl)

    flushed : (s m : Bool) → SameFiles (finish sessions_ok s m marker_good w) w
    flushed true true = settled _ marker_good w
    flushed true false = settled _ marker_good (mark_storage_failure w)
    flushed false true = settled _ marker_good (mark_storage_failure w)
    flushed false false = settled _ marker_good (mark_storage_failure (mark_storage_failure w))

finish_complete :
    (sessions_ok streams_good manifest_good marker_good : Bool) (w : Writer)
    → (finish sessions_ok streams_good manifest_good marker_good w).finished_successfully ≡ true
    → (w.artifact_complete ≡ true) × (sessions_ok ≡ true)
unfolding finish mark_storage_failure
finish_complete sessions_ok true true true w h = ground arith
finish_complete sessions_ok _ _ _ w h = ground arith

-- A bundle of a capture that is marked as complete holds a row for every session, control frame and
-- frame that was handed over, frames.bin is the payloads one behind the other, and no record was
-- counted as lost.
pub finish_lossless :
    (serialize : Value → Bytes) (limit : ℕ) (cs : List Call)
    (sessions_ok streams_good manifest_good marker_good : Bool) {w : Writer}
    → finish sessions_ok streams_good manifest_good marker_good
        (calls serialize cs (opened_writer limit))
      ≡ w
    → w.finished_successfully ≡ true
    → (length w.sessions ≡ (handed_rows cs).0)
      × (length w.controls ≡ (handed_rows cs).1)
      × (length w.frame_index ≡ (handed_rows cs).2)
      × (w.frames ≡ handed_payloads cs)
      × (w.records_not_persisted ≡ 0)
      × (sessions_ok ≡ true)
finish_lossless serialize limit cs sessions_ok streams_good manifest_good marker_good e h =
    let last = calls serialize cs (opened_writer limit) in
    let (complete, good) =
      finish_complete sessions_ok streams_good manifest_good marker_good last
        (ap (λ v. v.finished_successfully) e ∙ h) in
    let k = calls-Keeps serialize cs (opened_writer limit) complete in
    let (s, c, i, f, r) =
      finish-SameFiles sessions_ok streams_good manifest_good marker_good last in
    (
      sym (ap (λ v. length v.sessions) e) ∙ ap length s ∙ k.session_rows ∙ zero-add _,
      sym (ap (λ v. length v.controls) e) ∙ ap length c ∙ k.control_rows ∙ zero-add _,
      sym (ap (λ v. length v.frame_index) e) ∙ ap length i ∙ k.frame_rows ∙ zero-add _,
      sym (ap (λ v. v.frames) e) ∙ f ∙ k.payloads,
      sym (ap (λ v. v.records_not_persisted) e) ∙ r ∙ k.none_lost,
      good,
    )
