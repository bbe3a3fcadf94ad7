-- ===== src/Analysis/Scalars/Path.antt =====
-- `json_path` against its meaning: the tokens of the path followed one by one.
use test_exchanges_helper.Base.{
  ℕ, zero, suc, ◌<◌, ◌≡◌, refl, Bool, true, false, not, if◌then◌else◌, Bool-cases, ==_iff, ◌&&◌,
  List, [], ◌∷◌, ◌++◌, Option, none, some, Bytes, codes, length, length-append, all, is_empty, ◌==◌,
  arith, Option-cases, inl, inr, bytes_eq,
}
use test_exchanges_helper.Json.{Value}
use test_exchanges_helper.Analysis.Scalars.{
  descend, split_token, walk, path_start, json_path, ◌>>=◌,
}

-- The meaning of a path: its tokens, each an object's key or an array's index.
unfoldable pub follow : Value → List Bytes → Option Value
follow root [] = some root
follow root (token ∷ tokens) = descend root token >>= λ value. follow value tokens

-- The tokens with points between them.
unfoldable pub join : Bytes → List Bytes → Bytes
join token [] = token
join token (next ∷ tokens) = token ++ (b'.' ∷ join next tokens)

abbrev pub is_token : Bytes → Bool
is_token token = not (is_empty token) && all (λ c. not (c == b'.')) token

split_token_last :
    (token : Bytes) → all (λ c. not (c == b'.')) token ≡ true → split_token token ≡ (token, none)
unfolding split_token
split_token_last [] h = refl
split_token_last (c ∷ cs) h = ground (arith, split_token_last cs)

split_token_point :
    (token rest : Bytes)
    → all (λ c. not (c == b'.')) token ≡ true
    → split_token (token ++ (b'.' ∷ rest)) ≡ (token, some rest)
unfolding split_token
split_token_point [] rest h = refl
split_token_point (c ∷ cs) rest h = ground (arith, split_token_point cs rest)

walk-follow :
    (fuel : ℕ) (root : Value) (token : Bytes) (tokens : List Bytes)
    → length (join token tokens) < fuel
    → is_token token ≡ true
    → all is_token tokens ≡ true
    → walk fuel root (join token tokens) ≡ follow root (token ∷ tokens)
unfolding walk follow join
walk-follow zero root token tokens h k l = elim h [ ]
walk-follow (suc fuel) root token [] h k l = ground (arith, split_token_last token)
walk-follow (suc fuel) root token (next ∷ tokens) h k l = elim (Option-cases (descend root token)) [
  | inl e ↦ ground (arith, split_token_point token (join next tokens))
  | inr (v, e) ↦ ground (
    arith,
    split_token_point token (join next tokens),
    length-append token (b'.' ∷ join next tokens),
    walk-follow fuel v next tokens,
  )
]

prefixed_path :
    (root : Value) (token : Bytes) (tokens : List Bytes)
    → is_token token ≡ true
    → all is_token tokens ≡ true
    → json_path root (codes "$." ++ join token tokens) ≡ follow root (token ∷ tokens)
unfolding json_path path_start bytes_eq walk
prefixed_path root token tokens h k =
    walk-follow (suc (suc (suc (length (join token tokens))))) root token tokens (omega arith) h k

-- A path that is not the root, and has no root sign before a point.
plain_path :
    (root : Value) (token : Bytes) (tokens : List Bytes)
    → is_token token ≡ true
    → all is_token tokens ≡ true
    → bytes_eq (join token tokens) (codes "$") ≡ false
    → is_empty (join token tokens) ≡ false
    → path_start (join token tokens) ≡ join token tokens
    → json_path root (join token tokens) ≡ follow root (token ∷ tokens)
unfolding json_path
plain_path root token tokens h k n e p =
    rw (e, n, p)
      (walk-follow (suc (length (join token tokens))) root token tokens (omega arith) h k)

-- A token of one character that is no root sign, alone or with others behind it.
short_path :
    (root : Value) (c : ℕ) (tokens : List Bytes)
    → (c == b'$') ≡ false
    → is_token (c ∷ []) ≡ true
    → all is_token tokens ≡ true
    → json_path root (join (c ∷ []) tokens) ≡ follow root ((c ∷ []) ∷ tokens)
unfolding path_start bytes_eq join
short_path root c [] n h k = plain_path root (c ∷ []) [] h k (rw n refl) refl refl
short_path root c (next ∷ tokens) n h k =
    plain_path root (c ∷ []) (next ∷ tokens) h k (rw n refl) refl (rw n refl)

-- The root sign as a token: alone, or with others behind it.
root_path :
    (root : Value) (tokens : List Bytes)
    → all is_token tokens ≡ true
    → json_path root (join (codes "$") tokens) ≡ follow root tokens
unfolding join follow json_path bytes_eq
root_path root [] k = refl
root_path root (next ∷ tokens) k = prefixed_path root next tokens (ground arith) (ground arith)

-- A token of two characters or more: the second is no point.
long_path :
    (root : Value) (c d : ℕ) (token : Bytes) (tokens : List Bytes)
    → is_token (c ∷ d ∷ token) ≡ true
    → all is_token tokens ≡ true
    → json_path root (join (c ∷ d ∷ token) tokens) ≡ follow root ((c ∷ d ∷ token) ∷ tokens)
unfolding path_start bytes_eq join
long_path root c d token tokens h k = elim (Bool-cases (d == b'.')) [
  | inl point ↦ absurd (ground arith)
  | inr other ↦ go tokens k other
]
  where
    go :
        (ts : List Bytes)
        → all is_token ts ≡ true
        → (d == b'.') ≡ false
        → json_path root (join (c ∷ d ∷ token) ts) ≡ follow root ((c ∷ d ∷ token) ∷ ts)
    go [] k other = plain_path root (c ∷ d ∷ token) [] h k (ground arith) refl (ground arith)
    go (next ∷ ts) k other =
        plain_path root (c ∷ d ∷ token) (next ∷ ts) h k (ground arith) refl (ground arith)

unprefixed_path :
    (root : Value) (token : Bytes) (tokens : List Bytes)
    → is_token token ≡ true
    → all is_token tokens ≡ true
    → json_path root (join token tokens)
      ≡ (if bytes_eq token (codes "$") then follow root tokens else follow root (token ∷ tokens))
unfolding bytes_eq
unprefixed_path root [] tokens h k = ground arith
unprefixed_path root (c ∷ []) tokens h k = elim (Bool-cases (c == b'$')) [
  | inl sign ↦
      let is_sign : c ≡ b'$' = (==_iff c b'$').0 sign in
      rw (sign, is_sign) (root_path root tokens k)
  | inr other ↦ rw other (short_path root c tokens other h k)
]
unprefixed_path root (c ∷ d ∷ token) tokens h k =
    rw (and_false (c == b'$')) (long_path root c d token tokens h k)
  where
    and_false : (b : Bool) → (b && false) ≡ false
    and_false true = refl
    and_false false = refl

-- A path of non-empty tokens without points leads where its tokens lead one by one, whether "$."
-- stands before it or not; a first token "$" is the root, and so are "$" alone and the empty path.
pub json_path-follow :
    (root : Value) (token : Bytes) (tokens : List Bytes)
    → is_token token ≡ true
    → all is_token tokens ≡ true
    → (json_path root (codes "$." ++ join token tokens) ≡ follow root (token ∷ tokens))
      × (json_path root (join token tokens) ≡ (
          if bytes_eq token (codes "$") then follow root tokens else follow root (token ∷ tokens)))
      × (json_path root (codes "$") ≡ some root)
      × (json_path root [] ≡ some root)
unfolding join follow
json_path-follow root token tokens h k = (
  prefixed_path root token tokens h k,
  unprefixed_path root token tokens h k,
  root_path root [] refl,
  (unfold json_path in refl),
)
