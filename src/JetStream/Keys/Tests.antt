-- ===== src/JetStream/Keys/Tests.antt =====
-- Runs of the keys of a bucket.
use nats_deno.Base.{
  ◌≡◌, refl, true, false, none, some, [], ◌∷◌, Bytes, codes, drop, bytes_eq, arith,
}
use nats_deno.JetStream.Tokens.{has_dot}
use nats_deno.JetStream.Keys.{
  Prefixes, initialize_prefixes, subject_for_key, key_part, KeyCodec, encode_key, decode_key,
  validate_key, validate_search_key, has_wildcards,
}
use nats_deno.JetStream.Keys.Codec.{decode_key-subject, is_wild}
use nats_deno.JetStream.Keys.Valid.{validate_key-plain}

-- A letter before each token
abbrev marked : KeyCodec
marked = record { encode = λ t. b'k' ∷ t; decode = λ t. drop 1 t }

marked-has_dot : (t : Bytes) → has_dot t ≡ false → has_dot (b'k' ∷ t) ≡ false
unfolding has_dot
marked-has_dot t h = h

marked-wild : (t : Bytes) → is_wild (b'k' ∷ t) ≡ false
unfolding bytes_eq
marked-wild t = refl

abbrev prefixes : Prefixes
prefixes = record { prefix = codes "$KV.b"; edit_prefix = []; use_js_prefix = false }

decode_key-subject_example :
    decode_key marked (
      key_part prefixes
        (subject_for_key (codes "$JS.API") prefixes (encode_key marked (codes "a.*.c")) false))
    ≡ codes "a.*.c"
decode_key-subject_example =
    decode_key-subject marked (λ t. refl) marked-has_dot (λ t _. marked-wild t) (codes "$JS.API")
      prefixes (codes "a.*.c") (omega arith)

validate_key-plain_example :
    (has_wildcards (codes "a.b=c") ≡ some false) × (validate_search_key (codes "a.b=c") ≡ true)
validate_key-plain_example = validate_key-plain (codes "a.b=c") (unfold validate_key in refl)

late_full : has_wildcards (codes "a.>.b") ≡ none
unfolding has_wildcards
late_full = refl

mirrored :
    subject_for_key
      (codes "$JS.API")
      (initialize_prefixes
        (codes "b")
        (codes "$JS.API")
        (some (record { name = codes "KV_o"; external = some (codes "$JS.x") })))
      (codes "k")
      true
    ≡ codes "$JS.x.$KV.o.k"
unfolding subject_for_key initialize_prefixes
mirrored = refl
