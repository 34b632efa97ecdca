-- ===== src/JetStream/Digest/RoundTrip.antt =====
-- What is written of a digest is read again.
use nats_deno.Base.{
  ℕ, ◌≡◌, ◌≢◌, refl, sym, ap, ◌∙◌, ◌%◌, ◌<◌, ◌+◌, ◌*◌, ◌/◌, Bool, true, false, [], ◌∷◌, Bytes,
  length, arith, if◌then◌else◌, ltb, ◌==◌, Bool-cases, inl, inr,
}
use nats_deno.JetStream.Digest.{
  all, is_hex, is_base64, is_hex_digit, is_lower_hex, is_padded, is_padding, is_std_letter,
  is_url_letter, hex_value, hex_to_byte_array, replace, contains, Base64, parsed, encode,
  base64_to_byte_array, parse_sha256,
}

abbrev to_url : Bytes → Bytes
to_url s = replace b'/' b'_' (replace b'+' b'-' s)

padding_url : (s : Bytes) → is_padding s ≡ true → to_url s ≡ s
unfolding replace
padding_url [] h = refl
padding_url (c ∷ []) h = ground arith
padding_url (c ∷ d ∷ []) h = ground arith
padding_url (c ∷ d ∷ e ∷ s) h = absurd (cc)

padding_back : (s : Bytes) → is_padding s ≡ true → replace b'_' b'/' (replace b'-' b'+' s) ≡ s
unfolding replace
padding_back [] h = refl
padding_back (c ∷ []) h = ground arith
padding_back (c ∷ d ∷ []) h = ground arith
padding_back (c ∷ d ∷ e ∷ s) h = absurd (cc)

padded-letter :
    (p : ℕ → Bool) (c : ℕ) (s : Bytes) → p c ≡ true → is_padded p (c ∷ s) ≡ is_padded p s
unfolding is_padded
padded-letter p c s h = ground arith

padded-other :
    (p : ℕ → Bool) (c : ℕ) (s : Bytes) → p c ≡ false → is_padded p (c ∷ s) ≡ is_padding (c ∷ s)
unfolding is_padded
padded-other p c s h = ground arith

padding_other : (c : ℕ) (s : Bytes) → is_padding (c ∷ s) ≡ true → is_url_letter c ≡ false
padding_other c [] h = ground arith
padding_other c (d ∷ []) h = ground arith
padding_other c (d ∷ e ∷ s) h = absurd (cc)

abbrev url_char : ℕ → ℕ
url_char c = let d = if c == b'+' then b'-' else c in if d == b'/' then b'_' else d

letter_url : (c : ℕ) → is_std_letter c ≡ true → is_url_letter (url_char c) ≡ true
letter_url c h = ground arith

-- The alphabet for URLs takes the places of the standard one.
url_text :
    (s : Bytes) → is_padded is_std_letter s ≡ true → is_padded is_url_letter (to_url s) ≡ true
unfolding replace
url_text [] h = unfold is_padded in refl
url_text (c ∷ s) h = elim (Bool-cases (is_std_letter c)) [
  | inl l ↦
      padded-letter is_url_letter (url_char c) (to_url s) (letter_url c l)
      ∙ url_text s (sym (padded-letter is_std_letter c s l) ∙ h)
  | inr o ↦
      let p = sym (padded-other is_std_letter c s o) ∙ h in
      ap (is_padded is_url_letter) (padding_url (c ∷ s) p)
      ∙ padded-other is_url_letter c s (padding_other c s p)
      ∙ p
]

url_back :
    (s : Bytes)
    → is_padded is_std_letter s ≡ true
    → replace b'_' b'/' (replace b'-' b'+' (to_url s)) ≡ s
unfolding is_padded replace
url_back [] h = refl
url_back (c ∷ s) h = ground (arith, url_back s, padding_url (c ∷ s), padding_back (c ∷ s))

contains-url : (s : Bytes) → contains b'=' (to_url s) ≡ contains b'=' s
unfolding contains replace
contains-url [] = refl
contains-url (c ∷ s) = ground (arith, contains-url s)

padded-hex : (s : Bytes) → contains b'=' s ≡ true → all is_hex_digit s ≡ false
unfolding contains all
padded-hex [] h = absurd (cc)
padded-hex (c ∷ s) h = ground (arith, padded-hex s)

not-hex : (s : Bytes) → all is_hex_digit s ≡ false → is_hex s ≡ false
unfolding is_hex
not-hex s h = ground (arith, h)

base64-either : (s : Bytes) → is_padded is_url_letter s ≡ true → is_base64 s ≡ true
unfolding is_base64
base64-either s h = ground (arith, h)

-- A digest that is written in the padded URL alphabet is read again, byte for byte, unless its number of
-- bytes is a multiple of three: then no padding tells it from hex.
pub parse_sha256-encode :
    (base : Base64) (d : Bytes) → length d % 3 ≢ 0 → parse_sha256 base (encode base d) ≡ parsed d
unfolding parse_sha256 encode base64_to_byte_array
parse_sha256-encode base d h =
    let text = base.btoa_text d in
    let hex =
      not-hex (to_url (base.btoa d))
        (padded-hex (to_url (base.btoa d)) (contains-url (base.btoa d) ∙ base.btoa_padded d h)) in
    ground (
      arith,
      hex,
      base64-either (to_url (base.btoa d)) (url_text (base.btoa d) text),
      url_back (base.btoa d) text,
      base.atob_btoa d,
    )

-- Lower case hex, two digits a byte.
unfoldable pub hex_digit : ℕ → ℕ
hex_digit v = if ltb v 10 then b'0' + v else 87 + v

unfoldable pub write_hex : Bytes → Bytes
unfolding hex_digit
write_hex [] = []
write_hex (b ∷ d) = hex_digit (b / 16) ∷ hex_digit (b % 16) ∷ write_hex d

-- Every element is a byte.
abbrev pub AreBytes : Bytes → Type 0
AreBytes [] = Unit {0}
AreBytes (b ∷ d) = (b < 256) × AreBytes d

hex_digit-lower : (v : ℕ) → v < 16 → is_lower_hex (hex_digit v) ≡ true
unfolding hex_digit
hex_digit-lower v h = ground arith

hex_value-hex_digit : (v : ℕ) → v < 16 → hex_value (hex_digit v) ≡ v
unfolding hex_value hex_digit
hex_value-hex_digit v h = ground arith

write_hex-lower : (d : Bytes) → AreBytes d → all is_lower_hex (write_hex d) ≡ true
unfolding all write_hex
write_hex-lower [] h = refl
write_hex-lower (b ∷ d) (h, hs) = ground (
  arith,
  hex_digit-lower (b / 16) (omega arith),
  hex_digit-lower (b % 16) (omega arith),
  write_hex-lower d hs,
)

lower_hex-any : (c : ℕ) → is_lower_hex c ≡ true → is_hex_digit c ≡ true
lower_hex-any c h = ground arith

all_lower-any : (s : Bytes) → all is_lower_hex s ≡ true → all is_hex_digit s ≡ true
unfolding all
all_lower-any [] h = refl
all_lower-any (c ∷ s) h = ground (arith, lower_hex-any c, all_lower-any s)

length-write_hex : (d : Bytes) → length (write_hex d) ≡ 2 * length d
unfolding write_hex
length-write_hex [] = refl
length-write_hex (b ∷ d) = omega (arith, length-write_hex d)

hex_to_byte_array-write_hex : (d : Bytes) → AreBytes d → hex_to_byte_array (write_hex d) ≡ d
unfolding hex_to_byte_array write_hex
hex_to_byte_array-write_hex [] h = refl
hex_to_byte_array-write_hex (b ∷ d) (h, hs) = ground (
  arith,
  hex_value-hex_digit (b / 16) (omega arith),
  hex_value-hex_digit (b % 16) (omega arith),
  hex_to_byte_array-write_hex d hs,
)

write_hex-hex : (d : Bytes) → 0 < length d → AreBytes d → is_hex (write_hex d) ≡ true
unfolding is_hex
write_hex-hex d l h = ground (
  arith,
  length-write_hex d,
  write_hex-lower d h,
  all_lower-any (write_hex d) (write_hex-lower d h),
)

-- A digest of bytes that is not empty and is written in lower case hex is read again.
pub parse_sha256-write_hex :
    (base : Base64) (d : Bytes)
    → 0 < length d
    → AreBytes d
    → parse_sha256 base (write_hex d) ≡ parsed d
unfolding parse_sha256
parse_sha256-write_hex base d l h =
    ground (arith, write_hex-hex d l h, hex_to_byte_array-write_hex d h)
