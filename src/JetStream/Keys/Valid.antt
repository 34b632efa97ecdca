-- ===== src/JetStream/Keys/Valid.antt =====
-- What the validity of a key says of its wildcards.
use nats_deno.Base.{
  ℕ, ◌<◌, ◌≡◌, refl, true, false, some, List, [], ◌∷◌, Bytes, bytes_eq, length, ◌==◌, arith,
  if-elim,
}
use nats_deno.JetStream.Digest.{all}
use nats_deno.JetStream.Tokens.{split_dots, before}
use nats_deno.JetStream.Keys.{
  is_key_char, is_search_char, starts_with_dot, ends_with_dot, validate_key, validate_search_key,
  is_star, is_full, wildcards_from, has_wildcards,
}

-- Every token is of characters of keys.
abbrev AllKeys : List Bytes → Type 0
AllKeys [] = Unit {0}
AllKeys (t ∷ ts) = (all is_key_char t ≡ true) × AllKeys ts

plain_token : (t : Bytes) → all is_key_char t ≡ true → (is_star t ≡ false) × (is_full t ≡ false)
plain_token [] h = unfold bytes_eq in (refl, refl)
plain_token (c ∷ t) h = unfold bytes_eq all in ground (arith, h)

wildcards_plain : (ts : List Bytes) → AllKeys ts → wildcards_from false ts ≡ some false
unfolding wildcards_from
wildcards_plain [] a = refl
wildcards_plain (t ∷ ts) (h, a) = ground (arith, plain_token t h, wildcards_plain ts a)

before-AllKeys :
    (c : ℕ) (ts : List Bytes) → is_key_char c ≡ true → AllKeys ts → AllKeys (before ts (c ∷ []))
unfolding all
before-AllKeys c [] k a = (ground (arith, k), tt)
before-AllKeys c (t ∷ ts) k (h, a) = (ground (arith, k, h), a)

key-cons :
    (c : ℕ) (s : Bytes)
    → all is_key_char (c ∷ s) ≡ true
    → (is_key_char c ≡ true) × (all is_key_char s ≡ true)
unfolding all
key-cons c s e = ground (arith, e)

split-AllKeys : (s : Bytes) → all is_key_char s ≡ true → AllKeys (split_dots s)
unfolding split_dots
split-AllKeys [] h = (h, tt)
split-AllKeys (c ∷ s) h =
    let (ok, rest) = key-cons c s h in
    if-elim AllKeys (c == b'.') ([] ∷ split_dots s) (before (split_dots s) (c ∷ []))
      (λ _. (unfold all in refl, split-AllKeys s rest))
      (λ _. before-AllKeys c (split_dots s) ok (split-AllKeys s rest))

key_search : (s : Bytes) → all is_key_char s ≡ true → all is_search_char s ≡ true
unfolding all
key_search [] h = refl
key_search (c ∷ s) h = ground (arith, key_search s, search c, h)
  where
    search : (d : ℕ) → is_key_char d ≡ true → is_search_char d ≡ true
    search d e = ground (arith, e)

valid_parts :
    (k : Bytes)
    → validate_key k ≡ true
    → (starts_with_dot k ≡ false)
      × (ends_with_dot k ≡ false)
      × (0 < length k)
      × (all is_key_char k ≡ true)
unfolding validate_key
valid_parts k v = ground (arith, v)

-- A valid key has no wildcards, does not make `hasWildcards` throw, and is valid for a search too.
pub validate_key-plain :
    (k : Bytes)
    → validate_key k ≡ true
    → (has_wildcards k ≡ some false) × (validate_search_key k ≡ true)
validate_key-plain k v =
    let (starts, ends, some_char, chars) = valid_parts k v in
    (
      unfold has_wildcards in
          ground (arith, starts, ends, wildcards_plain (split_dots k) (split-AllKeys k chars)),
      unfold validate_search_key in ground (arith, starts, ends, some_char, key_search k chars),
    )
