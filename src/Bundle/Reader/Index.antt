-- ===== src/Bundle/Reader/Index.antt =====
-- What an index that `read_frame_index` accepts says of frames.bin.
use mathlib.Core.Path.{subst}
use native.Mathlib.Nat.{zero-add}
use test_exchanges_helper.Base.{
  ℕ, ◌+◌, ◌%◌, ◌^◌, ◌≤◌, ◌<◌, ◌≡◌, refl, sym, ◌∙◌, ap, false, List, [], ◌∷◌, Option, none, some,
  Bytes, codes, ltb, is_empty, length, ok, err_not_ok, ok_injective, bind_ok, if_ok, arith,
}
use test_exchanges_helper.Json.{
  Value, null, boolean, int64, uint64, double, string, array, object, Fields, if_contains,
}
use test_exchanges_helper.Base.Int.{pos, negsuc}
use test_exchanges_helper.Analysis.Event.{FrameIndex}
use test_exchanges_helper.Bundle.Reader.{
  text, u64, unsigned, unsigned_or_zero, session_generation_of, receipt_of, frame_of,
  last_monotonic, violates_contract, read_row, read_line, read_lines, read_frame_index,
}

-- A frame behind the frames that were read before it: it begins where they end.
pub record IsNext (frame : FrameIndex) (before : List FrameIndex) (offset : ℕ) : Type 0 where
  pub numbered : frame.id ≡ length before
  pub adjacent : frame.offset ≡ offset
  pub in_order : last_monotonic before ≤ frame.monotonic_ns
  pub round_pos : 1 ≤ frame.round
  pub round_le : frame.round ≤ 4294967295
  pub channel_ne : is_empty frame.channel ≡ false
  pub fits : frame.offset + frame.length < 2 ^ 64

-- An index, the last frame first, of a file of `total` bytes.
abbrev pub IsIndex : List FrameIndex → ℕ → Type 0
IsIndex [] total = total ≡ 0
IsIndex (frame ∷ before) total =
    (total ≡ frame.offset + frame.length)
    × IsNext frame before frame.offset
    × IsIndex before frame.offset

unsigned_or_zero-lt : (v : Option Value) → unsigned_or_zero v < 2 ^ 64
unfolding unsigned_or_zero unsigned
unsigned_or_zero-lt none = omega arith
unsigned_or_zero-lt (some (uint64 n)) = omega arith
unsigned_or_zero-lt (some (int64 (pos n))) = omega arith
unsigned_or_zero-lt (some (int64 (negsuc n))) = omega arith
unsigned_or_zero-lt (some null) = omega arith
unsigned_or_zero-lt (some (boolean b)) = omega arith
unsigned_or_zero-lt (some (double d)) = omega arith
unsigned_or_zero-lt (some (string s)) = omega arith
unsigned_or_zero-lt (some (array xs)) = omega arith
unsigned_or_zero-lt (some (object fs)) = omega arith

u64-lt : (fs : Fields) (key : Bytes) → u64 fs key < 2 ^ 64
unfolding u64
u64-lt fs key = unsigned_or_zero-lt (if_contains key fs)

within_contract :
    (schema : Bytes) (read : List FrameIndex) (offset : ℕ) (frame : FrameIndex)
    → frame.round ≤ 4294967295
    → frame.length < 2 ^ 64
    → violates_contract schema read offset frame ≡ false
    → IsNext frame read offset
unfolding violates_contract
within_contract schema read offset frame r l h = record {
  numbered = ground arith;
  adjacent = ground arith;
  in_order = ground arith;
  round_pos = ground arith;
  round_le = r;
  channel_ne = ground arith;
  fits = ground arith;
}

read_row-IsNext :
    (read : List FrameIndex) (offset : ℕ) (fs : Fields) {frame : FrameIndex}
    → read_row read offset fs ≡ ok frame
    → IsNext frame read offset
unfolding read_row
read_row-IsNext read offset fs e =
    let (r, e1) = if_ok (ltb 4294967295 (u64 fs (codes "round"))) _ _ e in
    let (generation, e2, g) =
      bind_ok _
        (session_generation_of (if_contains (codes "session_generation") fs)
          (if_contains (codes "attempt") fs))
        e1 in
    let (receipt, e3, t) =
      bind_ok _ (receipt_of (if_contains (codes "received_monotonic_ns") fs)) e2 in
    let (v, e4) =
      if_ok
        (violates_contract (text fs (codes "schema")) read offset (frame_of fs generation receipt))
        _ _ e3 in
    subst (λ f. IsNext f read offset) (ok_injective e4)
      (within_contract (text fs (codes "schema")) read offset (frame_of fs generation receipt)
        (unfold frame_of in below (u64 fs (codes "round")) r)
        (unfold frame_of in u64-lt fs (codes "length")) v)
  where
    below : (n : ℕ) → ltb 4294967295 n ≡ false → n ≤ 4294967295
    below n h = ground arith

read_line-IsNext :
    (read : List FrameIndex) (offset : ℕ) (v : Option Value) {frame : FrameIndex}
    → read_line read offset v ≡ ok frame
    → IsNext frame read offset
unfolding read_line
read_line-IsNext read offset none e = absurd (err_not_ok e)
read_line-IsNext read offset (some (object fs)) e = read_row-IsNext read offset fs e
read_line-IsNext read offset (some null) e = absurd (err_not_ok e)
read_line-IsNext read offset (some (boolean b)) e = absurd (err_not_ok e)
read_line-IsNext read offset (some (int64 n)) e = absurd (err_not_ok e)
read_line-IsNext read offset (some (uint64 n)) e = absurd (err_not_ok e)
read_line-IsNext read offset (some (double d)) e = absurd (err_not_ok e)
read_line-IsNext read offset (some (string s)) e = absurd (err_not_ok e)
read_line-IsNext read offset (some (array xs)) e = absurd (err_not_ok e)

next-IsIndex :
    (frame : FrameIndex) (read : List FrameIndex) (offset : ℕ)
    → IsNext frame read offset
    → IsIndex read offset
    → IsIndex (frame ∷ read) ((offset + frame.length) % 2 ^ 64)
next-IsIndex frame read offset n h = (
  wraps offset frame.offset frame.length n.adjacent n.fits,
  record {
    numbered = n.numbered;
    adjacent = refl;
    in_order = n.in_order;
    round_pos = n.round_pos;
    round_le = n.round_le;
    channel_ne = n.channel_ne;
    fits = n.fits;
  },
  subst (IsIndex read) (sym n.adjacent) h,
)
  where
    wraps :
        (expected offset size : ℕ)
        → offset ≡ expected
        → offset + size < 2 ^ 64
        → (expected + size) % 2 ^ 64 ≡ offset + size
    wraps expected offset size e k = omega arith

-- An accepted index has one frame for each line; the frames are numbered from 0, their times never
-- fall, and each begins in frames.bin where the one before it ends, within 64 bits.
pub read_frame_index-IsIndex :
    (parse : Bytes → Option Value) (lines : List Bytes) {frames : List FrameIndex}
    → read_frame_index parse lines ≡ ok frames
    → (total : ℕ) × IsIndex frames total × (length frames ≡ length lines)
unfolding read_frame_index read_lines
read_frame_index-IsIndex parse lines e =
    let (total, h, n) = go lines [] 0 refl e in (total, h, n ∙ zero-add (length lines))
  where
    go :
        (rest : List Bytes) (read : List FrameIndex) (offset : ℕ) {frames : List FrameIndex}
        → IsIndex read offset
        → read_lines parse read offset rest ≡ ok frames
        → (total : ℕ) × IsIndex frames total × (length frames ≡ length read + length rest)
    go [] read offset h e = (
      offset,
      subst (λ fs. IsIndex fs offset) (ok_injective e) h,
      omega (arith, ap length (ok_injective e)),
    )
    go (line ∷ rest) read offset h e =
        let (frame, later, r) = bind_ok _ (read_line read offset (parse line)) e in
        let (total, k, n) =
          go rest (frame ∷ read) ((offset + frame.length) % 2 ^ 64)
            (next-IsIndex frame read offset (read_line-IsNext read offset (parse line) r) h)
            later in
        (total, k, omega (arith, n))
