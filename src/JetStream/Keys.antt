-- ===== src/JetStream/Keys.antt =====
-- jetstream/kv.ts: the keys of a bucket, what is valid as one, and the subjects they are stored under.
pub mod Codec
pub mod Valid
mod Tests
use nats_deno.Base.{
  ℕ, suc, ◌≡◌, Bool, true, false, not, ◌&&◌, ◌||◌, Option, none, some, List, [], ◌∷◌, ◌++◌, Bytes,
  codes, bytes_eq, length, ltb, drop, take, ◌==◌, if◌then◌else◌,
}
use nats_deno.JetStream.Digest.{within, is_digit, all}
use nats_deno.JetStream.Tokens.{split_dots, join_dots, has_dot}

-- `\w`
abbrev pub is_word : ℕ → Bool
is_word c = is_digit c || (within b'A' b'Z' c || (within b'a' b'z' c || c == b'_'))

-- `[-/=.\w]`
abbrev pub is_key_char : ℕ → Bool
is_key_char c = c == b'-' || (c == b'/' || (c == b'=' || (c == b'.' || is_word c)))

-- `[-/=.>*\w]`
abbrev pub is_search_char : ℕ → Bool
is_search_char c = is_key_char c || (c == b'>' || c == b'*')

abbrev pub starts_with_dot : Bytes → Bool
starts_with_dot [] = false
starts_with_dot (c ∷ s) = c == b'.'

unfoldable pub ends_with_dot : Bytes → Bool
ends_with_dot [] = false
ends_with_dot (c ∷ []) = c == b'.'
ends_with_dot (c ∷ d ∷ s) = ends_with_dot (d ∷ s)

-- `validateKey` passes
unfoldable pub validate_key : Bytes → Bool
unfolding ends_with_dot all
validate_key k =
    not (starts_with_dot k || (ends_with_dot k || not (ltb 0 (length k) && all is_key_char k)))

-- `validateSearchKey` passes
unfoldable pub validate_search_key : Bytes → Bool
unfolding ends_with_dot all
validate_search_key k =
    not (starts_with_dot k || (ends_with_dot k || not (ltb 0 (length k) && all is_search_char k)))

-- `validateBucket` passes
unfoldable pub validate_bucket : Bytes → Bool
unfolding all
validate_bucket name = ltb 0 (length name) && all (λ (c : ℕ). c == b'-' || is_word c) name

abbrev pub is_star : Bytes → Bool
is_star t = bytes_eq t (codes "*")

abbrev pub is_full : Bytes → Bool
is_full t = bytes_eq t (codes ">")

-- The loop of `hasWildcards`, which throws at a `>` that is not the last token.
unfoldable pub wildcards_from : Bool → List Bytes → Option Bool
unfolding bytes_eq
wildcards_from found [] = some found
wildcards_from found (t ∷ ts) =
    let rest = wildcards_from (found || (is_star t || is_full t)) ts in
    if is_full t && not (length ts == 0) then none else rest

-- `hasWildcards`
unfoldable pub has_wildcards : Bytes → Option Bool
unfolding ends_with_dot wildcards_from split_dots
has_wildcards k =
    if starts_with_dot k || ends_with_dot k then none else wildcards_from false (split_dots k)

-- The mirror of a bucket, with the API prefix of the other account, if it is in one.
pub record Mirror : Type 0 where
  pub name : Bytes
  pub external : Option Bytes

pub record Prefixes : Type 0 where
  pub prefix : Bytes
  pub edit_prefix : Bytes
  pub use_js_prefix : Bool

abbrev pub kv_prefix : Bytes
kv_prefix = codes "KV_"

abbrev pub without_prefix : Bytes → Bytes
without_prefix n =
    if bytes_eq (take (length kv_prefix) n) kv_prefix then drop (length kv_prefix) n else n

-- `initializePrefixes` for a bucket and the client's API prefix
unfoldable pub initialize_prefixes : Bytes → Bytes → Option Mirror → Prefixes
unfolding bytes_eq
initialize_prefixes bucket api mirror =
    let own = codes "$KV." ++ bucket in
    let js = not (bytes_eq api (codes "$JS.API")) in
    elim mirror [
      | none ↦ record { prefix = own; edit_prefix = []; use_js_prefix = js }
      | some m ↦ elim m.external [
        | none ↦ record { prefix = own; edit_prefix = own; use_js_prefix = js }
        | some other ↦
            if length other == 0
            then record { prefix = own; edit_prefix = own; use_js_prefix = js }
            else record {
              prefix = codes "$KV." ++ drop (length kv_prefix) m.name;
              edit_prefix = other ++ (codes ".$KV." ++ without_prefix m.name);
              use_js_prefix = false;
            }
      ]
    ]

-- `subjectForKey`
unfoldable pub subject_for_key : Bytes → Prefixes → Bytes → Bool → Bytes
unfolding join_dots
subject_for_key api p k edit =
    let some_prefix = if length p.prefix == 0 then [] else p.prefix ∷ [] in
    let to = if length p.edit_prefix == 0 then p.prefix else p.edit_prefix in
    let js = if p.use_js_prefix then api ∷ [] else [] in
    join_dots ((if edit then js ++ to ∷ [] else some_prefix) ++ k ∷ [])

-- `jm.subject.substring(this.prefixLen)`
abbrev pub key_part : Prefixes → Bytes → Bytes
key_part p subject = drop (suc (length p.prefix)) subject

-- A codec of keys, as a user gives it.
pub record KeyCodec : Type 0 where
  pub encode : Bytes → Bytes
  pub decode : Bytes → Bytes

module _ (codec : KeyCodec) where
  abbrev pub by_token : (Bytes → Bytes) → List Bytes → List Bytes
  by_token f [] = []
  by_token f (t ∷ ts) = (if is_full t || is_star t then t else f t) ∷ by_token f ts

  -- `encodeKey`
  unfoldable pub encode_key : Bytes → Bytes
  unfolding bytes_eq split_dots join_dots
  encode_key k = join_dots (by_token codec.encode (split_dots k))

  -- `decodeKey`
  unfoldable pub decode_key : Bytes → Bytes
  unfolding bytes_eq split_dots join_dots
  decode_key k = join_dots (by_token codec.decode (split_dots k))
