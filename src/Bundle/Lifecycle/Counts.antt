-- ===== src/Bundle/Lifecycle/Counts.antt =====
-- The counts of a lifecycle against its rows and against the generations that connected.
use test_exchanges_helper.Base.{
  ℕ, zero, suc, ◌+◌, ◌≤◌, ◌≡◌, refl, Bool, true, false, not, ◌||◌, Option, none, some, Bytes,
  bytes_eq, codes, ltb, ◌==◌, length, Result, ok, err, ◌>>=◌, bind_ok, if_ok, ok_injective,
  err_not_ok, if◌then◌else◌, arith, option_or,
}
use mathlib.Core.Path.{subst}
use test_exchanges_helper.Json.{Value, Fields, object, if_contains}
use test_exchanges_helper.Bundle.Reader.{text}
use test_exchanges_helper.Bundle.Lifecycle.{
  Observed, Sessions, strict_unsigned, is_malformed, valid_generation, read_disconnected, count_row,
  is_legacy, read_metadata, selected_row, read_selected, is_known_channel, read_fields,
  read_document, Line, take_line, is_last, is_broken, end_rows, next_row, read_rows, SessionsFile,
  unobserved, read_present, read_lifecycle, maximum_session_rows,
}
use test_exchanges_helper.Bundle.Lifecycle.Sound.{
  reconnected, AreGenerations, Sound, Open, closed-Sound, less-Sound, count_row-Open,
  read_connected-Open, read_disconnected-Sound,
}

valid_generation_lem :
    (duration_field : Option Value) (generation attempt : Option ℕ) (n : ℕ)
    → valid_generation duration_field generation attempt ≡ ok n
    → (1 ≤ n) × (n ≤ 3)
unfolding valid_generation
valid_generation_lem duration_field none attempt n h = absurd (err_not_ok h)
valid_generation_lem duration_field (some generation) none n h = absurd (err_not_ok h)
valid_generation_lem duration_field (some generation) (some attempt) n h =
    let (guards, same) = if_ok _ _ _ h in
    subst (λ m. (1 ≤ m) × (m ≤ 3)) (ok_injective same) (range generation guards)
  where
    range :
        (m : ℕ)
        → (ltb m 1 || ltb 3 m || not (attempt == m) || is_malformed duration_field) ≡ false
        → (1 ≤ m) × (m ≤ 3)
    range m g = ground arith

read_metadata-Sound :
    (row : Fields) (standard : Bytes) (left : ℕ) (channel : Bytes) (selected : ℕ × Bool)
    (o next : Observed)
    → Open standard left (bytes_eq channel standard) false o
    → read_metadata row (bytes_eq channel standard) channel selected o ≡ ok next
    → Sound standard left 0 0 next
unfolding read_metadata
read_metadata-Sound row standard left channel (round, succeeded) o next v h =
    let side = bytes_eq channel standard in
    let stage = text row (codes "stage") in
    let (generation, later, valid) = bind_ok _ _ h in
    let (least, most) = valid_generation_lem _ _ _ generation valid in
    let (middle, last, now) = bind_ok (read_disconnected stage side succeeded) _ later in
    read_disconnected-Sound standard left stage side succeeded middle next
      (read_connected-Open standard left stage succeeded round channel generation _ least most o
        middle v now)
      last

read_selected-Sound :
    (row : Fields) (standard : Bytes) (left : ℕ) (channel : Bytes) (o next : Observed)
    → Sound standard (suc left) 0 0 o
    → read_selected row (bytes_eq channel standard) channel o ≡ ok next
    → Sound standard left 0 0 next
unfolding read_selected
read_selected-Sound row standard left channel o next v h =
    let side = bytes_eq channel standard in
    let (selected, later, valid) =
      bind_ok (checked side)
        (selected_row row (strict_unsigned (if_contains (codes "round") row))
          (if_contains (codes "ok") row))
        h in
    let (wait, rest) =
      if_ok (is_malformed (if_contains (codes "reconnect_wait_ns") row))
        "sessions_reconnect_wait_invalid" (counted side selected) later in
    branches selected (is_legacy row) rest
  where
    counted : Bool → ℕ × Bool → Result Observed
    counted side selected =
        if is_legacy row
        then ok (count_row side true o)
        else read_metadata row side channel selected (count_row side false o)

    checked : Bool → ℕ × Bool → Result Observed
    checked side selected =
        if is_malformed (if_contains (codes "reconnect_wait_ns") row)
        then err "sessions_reconnect_wait_invalid"
        else counted side selected

    branches :
        (selected : ℕ × Bool) (b : Bool)
        → (if b
            then ok (count_row (bytes_eq channel standard) true o)
            else read_metadata row
                (bytes_eq channel standard)
                channel
                selected
                (count_row (bytes_eq channel standard) false o))
          ≡ ok next
        → Sound standard left 0 0 next
    branches selected true e =
        subst (λ n. Sound standard left 0 0 n) (ok_injective e)
          (closed-Sound (count_row-Open standard left (bytes_eq channel standard) true o v))
    branches selected false e =
        read_metadata-Sound row standard left channel selected _ next
          (count_row-Open standard left (bytes_eq channel standard) false o v) e

read_fields-Sound :
    (sessions : Sessions) (row : Fields) (left : ℕ) (o next : Observed)
    → Sound sessions.standard (suc left) 0 0 o
    → read_fields sessions row o ≡ ok next
    → Sound sessions.standard left 0 0 next
unfolding read_fields
read_fields-Sound sessions row left o next v h =
    let channel = text row (codes "channel_id") in
    let (schema, rest) = if_ok _ _ _ h in
    branches (bytes_eq channel sessions.standard || bytes_eq channel sessions.aws)
      (is_known_channel sessions channel)
      (read_selected-Sound row sessions.standard left channel o next v) rest
  where
    branches :
        (b known : Bool) {x : Result Observed}
        → (x ≡ ok next → Sound sessions.standard left 0 0 next)
        → (if b then x else if known then ok o else err "sessions_unknown_channel") ≡ ok next
        → Sound sessions.standard left 0 0 next
    branches true known f e = f e
    branches false true f e =
        subst (λ n. Sound sessions.standard left 0 0 n) (ok_injective e) (less-Sound v)
    branches false false f e = absurd (err_not_ok e)

read_document-Sound :
    (sessions : Sessions) (document : Option Value) (left : ℕ) (o next : Observed)
    → Sound sessions.standard (suc left) 0 0 o
    → read_document sessions document o ≡ ok next
    → Sound sessions.standard left 0 0 next
unfolding read_document
read_document-Sound sessions (some (object row)) left o next v h =
    read_fields-Sound sessions row left o next v h
read_document-Sound sessions document left o next v h = absurd (err_not_ok h)

all_left-Sound :
    {standard : Bytes} (left : ℕ) {s a : ℕ} {o : Observed}
    → Sound standard left s a o
    → Sound standard 0 s a o
all_left-Sound zero v = v
all_left-Sound (suc left) v = all_left-Sound left (less-Sound v)

end_rows-Sound :
    (standard : Bytes) (broken : Bool) (line : Line) (o next : Observed)
    → Sound standard 0 0 0 o
    → end_rows broken o line ≡ ok next
    → Sound standard 0 0 0 next
unfolding end_rows
end_rows-Sound standard broken line o next v =
    branches (is_last broken line) (is_broken broken line)
  where
    branches :
        (last bad : Bool)
        → (if last
            then ok o
            else if bad
            then err "sessions_file_read_failed"
            else err "sessions_row_capacity_exceeded")
          ≡ ok next
        → Sound standard 0 0 0 next
    branches true bad e = subst (λ n. Sound standard 0 0 0 n) (ok_injective e) v
    branches false true e = absurd (err_not_ok e)
    branches false false e = absurd (err_not_ok e)

next_row-Sound :
    (sessions : Sessions) (broken : Bool) (left : ℕ) (line : Line)
    (following : Line → Observed → Result Observed) (o next : Observed)
    → ((middle : Observed)
        → Sound sessions.standard left 0 0 middle
        → following line middle ≡ ok next
        → Sound sessions.standard 0 0 0 next)
    → Sound sessions.standard (suc left) 0 0 o
    → next_row sessions broken following o line ≡ ok next
    → Sound sessions.standard 0 0 0 next
unfolding next_row
next_row-Sound sessions broken left line following o next rest_of v = branches (is_last broken line)
  where
    branches :
        (last : Bool)
        → (elim last [
          | true ↦ ok o
          | false ↦
              if is_broken broken line
              then err "sessions_file_read_failed"
              else (read_document sessions (sessions.parse line.characters) o >>= following line)
        ])
          ≡ ok next
        → Sound sessions.standard 0 0 0 next
    branches true e =
        subst (λ n. Sound sessions.standard 0 0 0 n) (ok_injective e) (all_left-Sound (suc left) v)
    branches false e =
        let (whole, rest) = if_ok _ _ _ e in
        let (middle, last, now) =
          bind_ok (following line) (read_document sessions (sessions.parse line.characters) o)
            rest in
        rest_of middle (read_document-Sound sessions _ left o middle v now) last

read_rows-Sound :
    (sessions : Sessions) (broken : Bool) (left bytes_read : ℕ) (contents : Bytes)
    (o next : Observed)
    → Sound sessions.standard left 0 0 o
    → read_rows sessions broken left bytes_read contents o ≡ ok next
    → Sound sessions.standard 0 0 0 next
unfolding read_rows
read_rows-Sound sessions broken zero bytes_read contents o next v h =
    let (line, later, taken) = bind_ok (end_rows broken o) (take_line bytes_read 0 contents) h in
    end_rows-Sound sessions.standard broken line o next v later
read_rows-Sound sessions broken (suc left) bytes_read contents o next v h =
    let following : Line → Observed → Result Observed =
      λ line middle. read_rows sessions broken left line.bytes_read line.rest middle in
    let (line, later, taken) =
      bind_ok (next_row sessions broken following o) (take_line bytes_read 0 contents) h in
    next_row-Sound sessions broken left line following o next
      (λ middle w e. read_rows-Sound sessions broken left line.bytes_read line.rest middle next w e)
      v later

unobserved-Sound :
    (standard : Bytes) (present : Bool)
    → Sound standard maximum_session_rows 0 0 (unobserved present)
unfolding AreGenerations reconnected
unobserved-Sound standard present = record {
  on_standard = record { bounded = omega arith; connections = refl };
  on_aws = record { bounded = omega arith; connections = refl };
  within = omega arith;
  generations = tt;
}

-- The rows are within their limit; on each channel no row is a disconnect and a reconnection; and
-- the reconnections are the generations behind the first, none of them twice.
pub record IsLifecycle (standard : Bytes) (observed : Observed) : Type 0 where
  pub standard_rows :
      observed.lifecycle.standard.disconnects
        + length observed.lifecycle.standard.reconnect_durations
      ≤ observed.lifecycle.standard.rows
  pub aws_rows :
      observed.lifecycle.aws.disconnects + length observed.lifecycle.aws.reconnect_durations
      ≤ observed.lifecycle.aws.rows
  pub all_rows :
      observed.lifecycle.standard.rows + observed.lifecycle.aws.rows ≤ maximum_session_rows
  pub standard_reconnects :
      length observed.lifecycle.standard.reconnect_durations
      ≡ reconnected standard true observed.connected_generations
  pub aws_reconnects :
      length observed.lifecycle.aws.reconnect_durations
      ≡ reconnected standard false observed.connected_generations
  pub generations : AreGenerations observed.connected_generations

Sound-IsLifecycle :
    {standard : Bytes} {o : Observed} → Sound standard 0 0 0 o → IsLifecycle standard o
Sound-IsLifecycle v = record {
  standard_rows = omega (arith, v.on_standard.bounded);
  aws_rows = omega (arith, v.on_aws.bounded);
  all_rows = omega (arith, v.within);
  standard_reconnects = v.on_standard.connections;
  aws_reconnects = v.on_aws.connections;
  generations = v.generations;
}

-- A lifecycle that is accepted, from any sessions.jsonl, has no more than 10,000 rows of the two
-- channels; on each of them the disconnects and the reconnections are no more than the rows; the
-- reconnections are as many as the generations behind the first that connected, and no generation
-- of a round and a channel connected twice or is outside one to three.
pub read_lifecycle-IsLifecycle :
    (sessions : Sessions) (file : SessionsFile) (o : Observed)
    → read_lifecycle sessions file ≡ ok o
    → IsLifecycle sessions.standard o
unfolding read_lifecycle read_present
read_lifecycle-IsLifecycle sessions file o h = Sound-IsLifecycle (status file.exists h)
  where
    from_contents :
        (contents : Option Bytes)
        → option_or contents
            (err "sessions_file_open_failed")
            (λ c. read_rows sessions file.broken maximum_session_rows 0 c (unobserved true))
          ≡ ok o
        → Sound sessions.standard 0 0 0 o
    from_contents none e = absurd (err_not_ok e)
    from_contents (some c) e =
        read_rows-Sound sessions file.broken maximum_session_rows 0 c _ o
          (unobserved-Sound sessions.standard true) e

    status :
        (exists : Option Bool)
        → option_or exists
            (err "sessions_file_status_failed")
            (λ present. if present then read_present sessions file else ok (unobserved false))
          ≡ ok o
        → Sound sessions.standard 0 0 0 o
    status none e = absurd (err_not_ok e)
    status (some false) e =
        subst (λ n. Sound sessions.standard 0 0 0 n) (ok_injective e)
          (all_left-Sound maximum_session_rows (unobserved-Sound sessions.standard false))
    status (some true) e = from_contents file.contents (if_ok _ _ _ e).1
