-- ===== src/JetStream/Digest/Tests.antt =====
-- Runs of the digest parser.
use nats_deno.Base.{◌≡◌, refl, [], ◌∷◌, codes, true, false, arith}
use nats_deno.JetStream.Digest.{is_hex, is_base64, hex_to_byte_array, parse_sha256, encode, parsed}
use nats_deno.JetStream.Digest.Sample.{unary}
use nats_deno.JetStream.Digest.RoundTrip.{parse_sha256-encode, parse_sha256-write_hex, write_hex}

hex_lower : hex_to_byte_array (codes "0aff") ≡ 10 ∷ 255 ∷ []
unfolding hex_to_byte_array
hex_lower = refl

mixed_case : is_hex (codes "aB") ≡ false
unfolding is_hex
mixed_case = refl

padded : is_base64 (codes "a-_9==") ≡ true
unfolding is_base64
padded = refl

parse_sha256-encode_example : parse_sha256 unary (encode unary (5 ∷ [])) ≡ parsed (5 ∷ [])
parse_sha256-encode_example = parse_sha256-encode unary (5 ∷ []) (λ e. absurd (omega (arith, e)))

parse_sha256-write_hex_example :
    parse_sha256 unary (write_hex (10 ∷ 255 ∷ [])) ≡ parsed (10 ∷ 255 ∷ [])
parse_sha256-write_hex_example =
    parse_sha256-write_hex unary (10 ∷ 255 ∷ []) (omega arith) (omega arith, (omega arith, tt))
