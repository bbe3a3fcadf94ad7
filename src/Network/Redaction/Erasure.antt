-- ===== src/Network/Redaction/Erasure.antt =====
-- About what a shape shows of a document: the document with its scalars, and everything under a
-- sensitive name, taken out.
use test_exchanges_helper.Base.{
  ℕ, zero, suc, ◌-◌, ◌≡◌, refl, sym, ap, ◌∙◌, Bool, true, false, ◌||◌, List, [], ◌∷◌, ◌++◌, some,
  Bytes, codes, bytes_eq, any, All, get_elem?, if◌then◌else◌, arith,
}
use mathlib.Core.Path.{ap₂}
use test_exchanges_helper.Base.Int.{pos}
use test_exchanges_helper.Json.{
  Value, null, boolean, int64, uint64, double, string, array, object, Items, nil, cons, Fields,
  field, end, size,
}
use test_exchanges_helper.Network.Redaction.{
  normalized_name, begins_with, has_part, exact_names, name_fragments, sensitive_key, redacted,
  sort_fields, field_keys, item_keys, array_shape, deep_shape, shape, shape_fields, shape_of,
}

-- An object's names, with nothing under them.
unfoldable pub names_only : Fields → Fields
names_only end = end
names_only (field key v fs) = field key null (names_only fs)

-- Of the elements of an array, the names of those that are objects.
unfoldable pub erase_items : Items → Items
erase_items nil = nil
erase_items (cons (object fs) xs) = cons (object (names_only fs)) (erase_items xs)
erase_items (cons v xs) = cons null (erase_items xs)

unfoldable mutual
  pub erase : Value → Value
  erase (object fs) = object (erase_fields fs)
  erase (array xs) = array (erase_items xs)
  erase null = null
  erase (boolean b) = boolean false
  erase (string s) = string []
  erase (double x) = double 0
  erase (int64 n) = int64 (pos 0)
  erase (uint64 n) = uint64 0

  pub erase_fields : Fields → Fields
  erase_fields end = end
  erase_fields (field key v fs) =
      field key (if sensitive_key key then null else erase v) (erase_fields fs)

field_keys-names_only :
    (fs : Fields) (keys : List Bytes) → field_keys (names_only fs) keys ≡ field_keys fs keys
unfolding field_keys names_only
field_keys-names_only end keys = refl
field_keys-names_only (field key v fs) keys = field_keys-names_only fs _

item_keys-erase_items :
    (left : ℕ) (xs : Items) (keys : List Bytes)
    → item_keys left (erase_items xs) keys ≡ item_keys left xs keys
unfolding item_keys erase_items
item_keys-erase_items zero xs keys = refl
item_keys-erase_items (suc left) nil keys = refl
item_keys-erase_items (suc left) (cons (object fs) xs) keys =
    item_keys-erase_items left xs _ ∙ ap (item_keys left xs) (field_keys-names_only fs keys)
item_keys-erase_items (suc left) (cons null xs) keys = item_keys-erase_items left xs keys
item_keys-erase_items (suc left) (cons _ xs) keys = item_keys-erase_items left xs keys

size-erase_items : (xs : Items) → size (erase_items xs) ≡ size xs
unfolding size erase_items
size-erase_items nil = refl
size-erase_items (cons (object fs) xs) = ap suc (size-erase_items xs)
size-erase_items (cons null xs) = ap suc (size-erase_items xs)
size-erase_items (cons _ xs) = ap suc (size-erase_items xs)

array_shape-erase_items : (xs : Items) → array_shape (erase_items xs) ≡ array_shape xs
unfolding array_shape
array_shape-erase_items xs = rw (size-erase_items xs, item_keys-erase_items 32 xs []) refl

redacts :
    (b : Bool) (left : ℕ) (v : Value)
    → shape left (erase v) ≡ shape left v
    → (if b then string redacted else shape left (if b then null else erase v))
      ≡ (if b then string redacted else shape left v)
redacts true left v h = refl
redacts false left v h = h

mutual
  unfolding shape erase deep_shape

  shape-erase : (left : ℕ) (v : Value) → shape left (erase v) ≡ shape left v
  shape-erase zero (object fs) = refl
  shape-erase (suc d) (object fs) = ap (λ gs. object (sort_fields gs)) (shape_fields-erase d fs)
  shape-erase zero (array xs) = refl
  shape-erase (suc d) (array xs) = array_shape-erase_items xs
  shape-erase zero null = refl
  shape-erase (suc d) null = refl
  shape-erase zero (boolean b) = refl
  shape-erase (suc d) (boolean b) = refl
  shape-erase zero (string s) = refl
  shape-erase (suc d) (string s) = refl
  shape-erase zero (double x) = refl
  shape-erase (suc d) (double x) = refl
  shape-erase zero (int64 n) = refl
  shape-erase (suc d) (int64 n) = refl
  shape-erase zero (uint64 n) = refl
  shape-erase (suc d) (uint64 n) = refl

  shape_fields-erase :
      (left : ℕ) (fs : Fields) → shape_fields left (erase_fields fs) ≡ shape_fields left fs
  shape_fields-erase left end = refl
  shape_fields-erase left (field key v fs) =
      ap₂ (field key) (redacts (sensitive_key key) left v (shape-erase left v))
        (shape_fields-erase left fs)

-- The words that make a name sensitive wherever they stand in it, and the names that are sensitive
-- as a whole, as the interfaces of the venues spell them.
abbrev pub secret_words : List Bytes
secret_words =
    codes "Secret"
    ∷ codes "Signature"
    ∷ codes "Passphrase"
    ∷ codes "private-Key"
    ∷ codes "listenKey"
    ∷ codes "Authorization"
    ∷ codes "accessToken"
    ∷ []

abbrev pub secret_names : List Bytes
secret_names =
    codes "apiKey"
    ∷ codes "API_KEY"
    ∷ codes "key"
    ∷ codes "sign"
    ∷ codes "token"
    ∷ codes "accountId"
    ∷ codes "account_id"
    ∷ codes "uid"
    ∷ codes "userId"
    ∷ codes "user_id"
    ∷ codes "wallet"
    ∷ codes "address"
    ∷ []

normalized_name-append :
    (a b : Bytes) → normalized_name (a ++ b) ≡ normalized_name a ++ normalized_name b
unfolding normalized_name
normalized_name-append [] b = refl
normalized_name-append (c ∷ cs) b = ground (arith, normalized_name-append cs b)

begins_with-append : (part after : Bytes) → begins_with part (part ++ after) ≡ true
unfolding begins_with
begins_with-append [] after = refl
begins_with-append (p ∷ ps) after = ground (arith, begins_with-append ps after)

has_part-append : (part before after : Bytes) → has_part part (before ++ (part ++ after)) ≡ true
unfolding has_part
has_part-append [] [] [] = unfold begins_with in refl
has_part-append [] [] (c ∷ cs) = unfold begins_with in refl
has_part-append (p ∷ ps) [] after = ground (arith, begins_with-append (p ∷ ps) after)
has_part-append part (c ∷ cs) after = ground (arith, has_part-append part cs after)

any_at :
    (f : Bytes → Bool) (xs : List Bytes) (n : ℕ) (x : Bytes)
    → get_elem? xs n ≡ some x
    → f x ≡ true
    → any f xs ≡ true
any_at f [] n x h k = ground arith
any_at f (y ∷ ys) zero x h k = ground arith
any_at f (y ∷ ys) (suc n) x h k = ground (arith, any_at f ys n x)

-- A name that has a word which normalizes to a fragment.
fragment_sensitive :
    (n : ℕ) (word before after : Bytes)
    → get_elem? name_fragments n ≡ some (normalized_name word)
    → sensitive_key (before ++ (word ++ after)) ≡ true
unfolding sensitive_key
fragment_sensitive n word before after h =
    let whole : normalized_name (before ++ (word ++ after))
        ≡ normalized_name before ++ (normalized_name word ++ normalized_name after) =
      normalized_name-append before (word ++ after)
      ∙ ap (λ t. normalized_name before ++ t) (normalized_name-append word after) in
    rw whole (
      or_true
        (any (bytes_eq (normalized_name before ++ (normalized_name word ++ normalized_name after)))
          exact_names)
        (any
          (λ part.
            has_part part
              (normalized_name before ++ (normalized_name word ++ normalized_name after)))
          name_fragments)
        (any_at
          (λ part.
            has_part part
              (normalized_name before ++ (normalized_name word ++ normalized_name after)))
          name_fragments n (normalized_name word) h
          (has_part-append (normalized_name word) (normalized_name before)
            (normalized_name after))))
  where
    or_true : (b c : Bool) → c ≡ true → (b || c) ≡ true
    or_true true c k = refl
    or_true false c k = k

words_sensitive :
    (before after : Bytes)
    → All (λ word. sensitive_key (before ++ (word ++ after)) ≡ true) secret_words
unfolding normalized_name
words_sensitive before after = (
  fragment_sensitive 0 (codes "Secret") before after refl,
  (
    fragment_sensitive 1 (codes "Signature") before after refl,
    (
      fragment_sensitive 2 (codes "Passphrase") before after refl,
      (
        fragment_sensitive 3 (codes "private-Key") before after refl,
        (
          fragment_sensitive 4 (codes "listenKey") before after refl,
          (
            fragment_sensitive 5 (codes "Authorization") before after refl,
            (fragment_sensitive 6 (codes "accessToken") before after refl, tt),
          ),
        ),
      ),
    ),
  ),
)

names_sensitive : All (λ name. sensitive_key name ≡ true) secret_names
unfolding sensitive_key normalized_name has_part begins_with bytes_eq
names_sensitive = (
  refl,
  (refl, (refl, (refl, (refl, (refl, (refl, (refl, (refl, (refl, (refl, (refl, tt))))))))))),
)

-- Two documents that differ only in the values of their scalars of one kind, in what stands under
-- sensitive names, and in the contents of arrays but their length and the names in them, have one
-- shape. A name is sensitive where one of seven words, as "Secret" or "listenKey", stands anywhere
-- in it, and where it is one of twelve, as "apiKey" or "wallet".
pub shape_of-erase :
    (v w : Value) (depth : ℕ) (before after : Bytes)
    → erase v ≡ erase w
    → (shape_of v depth ≡ shape_of w depth)
      × All (λ word. sensitive_key (before ++ (word ++ after)) ≡ true) secret_words
      × All (λ name. sensitive_key name ≡ true) secret_names
unfolding shape_of
shape_of-erase v w depth before after e = (
  sym (shape-erase (4 - depth) v) ∙ ap (shape (4 - depth)) e ∙ shape-erase (4 - depth) w,
  words_sensitive before after,
  names_sensitive,
)
