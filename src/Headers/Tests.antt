-- ===== src/Headers/Tests.antt =====
-- Headers on concrete texts, and the theorems at inputs that meet their hypotheses.
use nats_deno.Base.{ℕ, ◌≡◌, refl, some, [], ◌∷◌, Bytes, codes, bytes_eq, if◌then◌else◌, ◌==◌, arith}
use nats_deno.Headers.{
  Headers, pos, exact, set, canonical_key, canonical_from, trim, is_space, trim_start, trim_end,
  has_break, keys, filter_keys, push_value, valid_value, find_keys, append,
}
use nats_deno.Headers.Entries.{Sets, set-Sets}
use nats_deno.Headers.RoundTrip.{IsWritable, decode-to_text}
use nats_deno.Headers.Lines.{
  to_text, decode, split_from, starts, without_first, digits_from, split_colon, value_lines,
  decode_lines,
}

-- A stand-in for the runtime's conversion of a number to a string.
abbrev as_text : ℕ → Bytes
as_text n = if n == 503 then codes "503" else codes "0"

abbrev no_responders : Headers
no_responders = record {
  code = pos 503;
  description = codes "No Responders";
  entries = (codes "A", codes "1" ∷ codes "x: 2" ∷ []) ∷ (codes "b-C", [] ∷ []) ∷ [];
}

writes :
    to_text as_text no_responders
    ≡ codes "NATS/1.0 503 No Responders\r\nA: 1\r\nA: x: 2\r\nb-C: \r\n\r\n"
unfolding to_text value_lines
writes = refl

reads :
    decode as_text (codes "NATS/1.0 503 No Responders\r\nA: 1\r\nA: x: 2\r\nb-C: \r\n\r\n")
    ≡ some no_responders
unfolding decode split_from starts without_first digits_from split_colon trim is_space trim_start
    trim_end has_break append push_value valid_value find_keys filter_keys keys bytes_eq
    canonical_from decode_lines
reads = refl

no_responders-IsWritable : IsWritable as_text no_responders
unfolding digits_from trim_start trim_end is_space has_break canonical_key canonical_from bytes_eq
no_responders-IsWritable = (
  (((refl, (refl, (refl, tt))), refl), (refl, refl), refl, omega arith),
  (
    (codes "A", refl),
    λ e. absurd (ground arith),
    (refl, (refl, refl), (refl, (refl, refl), tt)),
    (refl, tt),
    ((codes "B-C", refl), λ e. absurd (ground arith), (refl, (refl, refl), tt), tt, tt),
  ),
)

decode-to_text_example : decode as_text (to_text as_text no_responders) ≡ some no_responders
decode-to_text_example = decode-to_text as_text no_responders no_responders-IsWritable

set-Sets_example :
    Sets
      (codes "A")
      (codes "3\r\n")
      (codes "A")
      no_responders
      (set (codes "A") (codes "3\r\n") exact no_responders)
set-Sets_example = set-Sets (codes "A") (codes "3\r\n") (codes "A") no_responders
