-- ===== src/Contracts/Scalars/Decimals.antt =====
-- src/Contracts.cpp, decimal_text: the grammar of a decimal number.
use mathlib.Core.Path.{subst}
use test_exchanges_helper.Base.{
  ℕ, ◌≡◌, ◌↔◌, inl, inr, refl, sym, ◌∙◌, ap, true, false, not, ◌||◌, [], ◌∷◌, ◌++◌, Bytes, ◌==◌,
  is_digit, is_empty, Bool-cases, arith,
}
use test_exchanges_helper.Contracts.Scalars.{
  is_sign, past_sign, span_digits, span_fraction, ends_in_exponent, decimal_text,
}

-- A run of digits, which may be empty.
unfoldable pub IsDigits : Bytes → Type 0
IsDigits [] = Unit
IsDigits (c ∷ cs) = (is_digit c ≡ true) × IsDigits cs

pub data Sign : Bytes → Type 0 where
  no_sign : Sign []
  signed : (c : ℕ) → is_sign c ≡ true → Sign (c ∷ [])

-- The digits behind the point, and the text of the point and the digits.
pub data Fraction : Bytes → Bytes → Type 0 where
  integral : Fraction [] []
  pointed :
      (c : ℕ) (digits : Bytes) → (c == b'.') ≡ true → IsDigits digits → Fraction digits (c ∷ digits)

pub data Exponent : Bytes → Type 0 where
  absent : Exponent []
  power :
      (e : ℕ) (sign digits : Bytes)
      → (e == b'e' || e == b'E') ≡ true
      → Sign sign
      → IsDigits digits
      → is_empty digits ≡ false
      → Exponent (e ∷ sign ++ digits)

-- sign? digits ('.' digits)? ('e' sign? digit+)?, with a digit in front of the exponent.
pub data Number : Bytes → Type 0 where
  number :
      (sign whole fraction behind exponent : Bytes)
      → Sign sign
      → IsDigits whole
      → Fraction fraction behind
      → (not (is_empty whole) || not (is_empty fraction)) ≡ true
      → Exponent exponent
      → Number (sign ++ (whole ++ (behind ++ exponent)))

past_sign_lem : (t : Bytes) → (s : Bytes) × Sign s × (t ≡ s ++ past_sign t)
unfolding past_sign
past_sign_lem [] = ([], no_sign, refl)
past_sign_lem (c ∷ cs) = elim (Bool-cases (is_sign c)) [
  | inl h ↦ (c ∷ [], signed c h, rw h refl)
  | inr h ↦ ([], no_sign, rw h refl)
]

span_digits_digit :
    (c : ℕ) (cs : Bytes)
    → is_digit c ≡ true
    → span_digits (c ∷ cs) ≡ (c ∷ (span_digits cs).0, (span_digits cs).1)
unfolding span_digits
span_digits_digit c cs h = rw h refl

span_digits_stop : (c : ℕ) (cs : Bytes) → is_digit c ≡ false → span_digits (c ∷ cs) ≡ ([], c ∷ cs)
unfolding span_digits
span_digits_stop c cs h = rw h refl

span_digits_lem :
    (t : Bytes) → IsDigits (span_digits t).0 × (t ≡ (span_digits t).0 ++ (span_digits t).1)
unfolding IsDigits
span_digits_lem [] = unfold span_digits in (tt, refl)
span_digits_lem (c ∷ cs) = elim (Bool-cases (is_digit c)) [
  | inl h ↦
      rw (span_digits_digit c cs h)
        ((h, (span_digits_lem cs).0), ap (λ t. c ∷ t) (span_digits_lem cs).1)
  | inr h ↦ rw (span_digits_stop c cs h) (tt, refl)
]

span_fraction_point :
    (c : ℕ) (cs : Bytes) → (c == b'.') ≡ true → span_fraction (c ∷ cs) ≡ span_digits cs
unfolding span_fraction
span_fraction_point c cs h = rw h refl

span_fraction_stop :
    (c : ℕ) (cs : Bytes) → (c == b'.') ≡ false → span_fraction (c ∷ cs) ≡ ([], c ∷ cs)
unfolding span_fraction
span_fraction_stop c cs h = rw h refl

span_fraction_lem :
    (t : Bytes)
    → (behind : Bytes) × Fraction (span_fraction t).0 behind × (t ≡ behind ++ (span_fraction t).1)
span_fraction_lem [] = unfold span_fraction in ([], integral, refl)
span_fraction_lem (c ∷ cs) = elim (Bool-cases (c == b'.')) [
  | inl h ↦ rw (span_fraction_point c cs h) (
      let (run, split) = span_digits_lem cs in
      (c ∷ (span_digits cs).0, pointed c (span_digits cs).0 h run, ap (λ t. c ∷ t) split))
  | inr h ↦ rw (span_fraction_stop c cs h) ([], integral, refl)
]

append-is_empty : (t u : Bytes) → is_empty u ≡ true → t ++ u ≡ t
append-is_empty [] [] h = refl
append-is_empty (c ∷ t) [] h = ap (λ t. c ∷ t) (append-is_empty t [] h)
append-is_empty t (c ∷ u) h = cc

-- A text with nothing behind its digits is its digits.
whole_run : (t : Bytes) → is_empty (span_digits t).1 ≡ true → t ≡ (span_digits t).0
whole_run t h = (span_digits_lem t).1 ∙ append-is_empty _ _ h

ends_in_exponent_iff :
    (c : ℕ) (cs : Bytes)
    → (ends_in_exponent (c ∷ cs) ≡ true) ↔ (
        ((c == b'e' || c == b'E') ≡ true)
        × (is_empty (span_digits (past_sign cs)).0 ≡ false)
        × (is_empty (span_digits (past_sign cs)).1 ≡ true))
unfolding ends_in_exponent
ends_in_exponent_iff c cs = ground arith

ends_in_exponent_sound : (t : Bytes) → ends_in_exponent t ≡ true → Exponent t
ends_in_exponent_sound [] h = absent
ends_in_exponent_sound (c ∷ cs) h =
    let (mark, has_digits, ended) = (ends_in_exponent_iff c cs).0 h in
    let (sign, is_sign_text, split) = past_sign_lem cs in
    let digits = (span_digits (past_sign cs)).0 in
    subst Exponent
      (sym (ap (λ t. c ∷ t) (split ∙ ap (λ t. sign ++ t) (whole_run (past_sign cs) ended))))
      (power c sign digits mark is_sign_text (span_digits_lem (past_sign cs)).0 has_digits)

-- `decimal_text`, also of the empty text, which it refuses first.
decimal_text_iff :
    (t : Bytes)
    → (decimal_text t ≡ true) ↔ (
        ((not (is_empty (span_digits (past_sign t)).0)
            || not (is_empty (span_fraction (span_digits (past_sign t)).1).0))
          ≡ true)
        × (ends_in_exponent (span_fraction (span_digits (past_sign t)).1).1 ≡ true))
unfolding decimal_text
decimal_text_iff [] = unfold past_sign span_digits span_fraction in ground arith
decimal_text_iff (c ∷ cs) = ground arith

decimal_text_sound : (t : Bytes) → decimal_text t ≡ true → Number t
decimal_text_sound t h =
    let (has_digits, ended) = (decimal_text_iff t).0 h in
    let (sign, is_sign_text, signed_split) = past_sign_lem t in
    let (run, split) = span_digits_lem (past_sign t) in
    let (behind, is_fraction, rest_split) = span_fraction_lem (span_digits (past_sign t)).1 in
    subst Number
      (sym (
        signed_split
        ∙ ap (λ u. sign ++ u) (split ∙ ap (λ u. (span_digits (past_sign t)).0 ++ u) rest_split)))
      (number sign _ _ behind _ is_sign_text run is_fraction has_digits
        (ends_in_exponent_sound _ ended))

-- A text that the loop over digits stops at, at once.
abbrev Stops : Bytes → Type 0
Stops t = span_digits t ≡ ([], t)

span_digits-append :
    (digits t : Bytes) → IsDigits digits → Stops t → span_digits (digits ++ t) ≡ (digits, t)
unfolding IsDigits
span_digits-append [] t run stops = stops
span_digits-append (c ∷ digits) t run stops =
    span_digits_digit c (digits ++ t) run.0
    ∙ ap (λ read. (c ∷ read.0, read.1)) (span_digits-append digits t run.1 stops)

past_sign-append : (sign t : Bytes) → Sign sign → past_sign t ≡ t → past_sign (sign ++ t) ≡ t
unfolding past_sign
past_sign-append _ t no_sign h = h
past_sign-append _ t (signed c is) h = rw is refl

-- What begins with a digit, a point or an exponent has no sign.
unsigned_text : (c : ℕ) (t : Bytes) → is_sign c ≡ false → past_sign (c ∷ t) ≡ c ∷ t
unfolding past_sign
unsigned_text c t h = rw h refl

unsigned_digits :
    (digits t : Bytes) → IsDigits digits → past_sign t ≡ t → past_sign (digits ++ t) ≡ digits ++ t
unfolding IsDigits
unsigned_digits [] t run h = h
unsigned_digits (c ∷ digits) t run h =
    let first : is_digit c ≡ true = run.0 in unsigned_text c (digits ++ t) (ground arith)

mark_facts :
    (c : ℕ) (t : Bytes)
    → (c == b'e' || c == b'E') ≡ true
    → Stops (c ∷ t) × (past_sign (c ∷ t) ≡ c ∷ t) × (span_fraction (c ∷ t) ≡ ([], c ∷ t))
mark_facts c t h = (
  span_digits_stop c t (ground arith),
  unsigned_text c t (ground arith),
  span_fraction_stop c t (ground arith),
)

-- A text of digits is passed to its end.
run_facts :
    (digits : Bytes)
    → IsDigits digits
    → (span_digits digits ≡ (digits, [])) × (past_sign digits ≡ digits)
run_facts digits run =
    let whole : digits ++ [] ≡ digits = append-is_empty digits [] refl in
    (
      ap span_digits (sym whole) ∙ span_digits-append digits [] run (unfold span_digits in refl),
      subst (λ t. past_sign t ≡ t) whole (unsigned_digits digits [] run (unfold past_sign in refl)),
    )

power_facts :
    (t : Bytes)
    → Exponent t
    → Stops t × (past_sign t ≡ t) × (span_fraction t ≡ ([], t)) × (ends_in_exponent t ≡ true)
power_facts _ absent =
    unfold span_digits past_sign span_fraction ends_in_exponent in (refl, refl, refl, refl)
power_facts _ (power e sign digits mark is_sign_text run ne) =
    let (stops, no_mark, no_point) = mark_facts e (sign ++ digits) mark in
    let (passed, plain) = run_facts digits run in
    let read : span_digits (past_sign (sign ++ digits)) ≡ (digits, []) =
      ap span_digits (past_sign-append sign digits is_sign_text plain) ∙ passed in
    (
      stops,
      no_mark,
      no_point,
      (ends_in_exponent_iff e (sign ++ digits)).1
          (mark, ap (λ r. is_empty r.0) read ∙ ne, ap (λ r. is_empty r.1) read),
    )

pointed_facts :
    (fraction behind exponent : Bytes)
    → Fraction fraction behind
    → Exponent exponent
    → Stops (behind ++ exponent)
      × (past_sign (behind ++ exponent) ≡ behind ++ exponent)
      × (span_fraction (behind ++ exponent) ≡ (fraction, exponent))
pointed_facts _ _ exponent integral is_exponent =
    let (stops, plain, no_point, ended) = power_facts exponent is_exponent in
    (stops, plain, no_point)
pointed_facts _ _ exponent (pointed c digits point run) is_exponent =
    let (stops, plain, no_point, ended) = power_facts exponent is_exponent in
    (
      span_digits_stop c (digits ++ exponent) (ground arith),
      unsigned_text c (digits ++ exponent) (ground arith),
      span_fraction_point c (digits ++ exponent) point
          ∙ span_digits-append digits exponent run stops,
    )

decimal_text_complete : (t : Bytes) → Number t → decimal_text t ≡ true
decimal_text_complete _
      (number s w f behind e is_sign_text run is_fraction has_digits is_exponent) =
    let (stops, plain, read_fraction) = pointed_facts f behind e is_fraction is_exponent in
    let text = s ++ (w ++ (behind ++ e)) in
    let read : span_digits (past_sign text) ≡ (w, behind ++ e) =
      ap span_digits (
        past_sign-append s (w ++ (behind ++ e)) is_sign_text
          (unsigned_digits w (behind ++ e) run plain))
      ∙ span_digits-append w (behind ++ e) run stops in
    let rest_read : span_fraction (span_digits (past_sign text)).1 ≡ (f, e) =
      ap (λ r. span_fraction r.1) read ∙ read_fraction in
    (decimal_text_iff text).1 (
      ap (λ r. not (is_empty r.0) || not (is_empty (span_fraction r.1).0)) read
          ∙ ap (λ r. not (is_empty w) || not (is_empty r.0)) read_fraction
          ∙ has_digits,
      ap (λ r. ends_in_exponent r.1) rest_read ∙ (power_facts e is_exponent).3,
    )

-- A text passes as a decimal exactly when it is one by the grammar of `Number`: an optional sign,
-- digits, an optional point with digits, at least one digit of these, and optionally an exponent
-- with a digit, with nothing behind it.
pub decimal_text_iff_Number : (t : Bytes) → (decimal_text t ≡ true) ↔ Number t
decimal_text_iff_Number t = (decimal_text_sound t, decimal_text_complete t)
