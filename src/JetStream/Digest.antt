-- ===== src/JetStream/Digest.antt =====
-- jetstream/sha_digest.parser.ts, with the encoder of nats-base-client/base64.ts that writes the digest.
-- A text is its list of codes. `btoa` and `atob` are the runtime's.
pub mod RoundTrip
pub mod Sample
mod Tests
use nats_deno.Base.{
  ℕ, ◌≡◌, ◌≢◌, ◌+◌, ◌*◌, ◌-◌, ◌%◌, Bool, true, false, not, ◌&&◌, ◌||◌, Option, none, some, List, [],
  ◌∷◌, Bytes, length, ltb, leb, ◌==◌, if◌then◌else◌, bytes_eq,
}

abbrev pub within : ℕ → ℕ → ℕ → Bool
within lo hi c = leb lo c && leb c hi

abbrev pub is_digit : ℕ → Bool
is_digit c = within b'0' b'9' c

abbrev pub is_upper_hex : ℕ → Bool
is_upper_hex c = is_digit c || within b'A' b'F' c

abbrev pub is_lower_hex : ℕ → Bool
is_lower_hex c = is_digit c || within b'a' b'f' c

abbrev pub is_hex_digit : ℕ → Bool
is_hex_digit c = is_upper_hex c || within b'a' b'f' c

-- `/^[...]+$/` is `all` of a text that is not empty.
unfoldable pub all : (ℕ → Bool) → Bytes → Bool
all p [] = true
all p (c ∷ s) = p c && all p s

abbrev pub all_some : (ℕ → Bool) → Bytes → Bool
all_some p s = ltb 0 (length s) && all p s

-- `isHex`
unfoldable pub is_hex : Bytes → Bool
unfolding all
is_hex s =
    if not (all_some is_hex_digit s)
    then false
    else (if not (all_some is_upper_hex s || all_some is_lower_hex s)
        then false
        else length s % 2 == 0)

abbrev pub is_letter : ℕ → Bool
is_letter c = within b'A' b'Z' c || (within b'a' b'z' c || is_digit c)

abbrev pub is_url_letter : ℕ → Bool
is_url_letter c = is_letter c || (c == b'-' || c == b'_')

abbrev pub is_std_letter : ℕ → Bool
is_std_letter c = is_letter c || (c == b'+' || c == b'/')

-- `(={0,2})?$`
abbrev pub is_padding : Bytes → Bool
is_padding [] = true
is_padding (c ∷ []) = c == b'='
is_padding (c ∷ d ∷ []) = c == b'=' && d == b'='
is_padding (c ∷ d ∷ e ∷ s) = false

-- `/^[...]*(={0,2})?$/` for letters that `=` is none of
unfoldable pub is_padded : (ℕ → Bool) → Bytes → Bool
is_padded p [] = true
is_padded p (c ∷ s) = let rest = is_padded p s in if p c then rest else is_padding (c ∷ s)

-- `isBase64`
unfoldable pub is_base64 : Bytes → Bool
unfolding is_padded
is_base64 s = is_padded is_url_letter s || is_padded is_std_letter s

-- `parseInt` of one hex digit in base 16
unfoldable pub hex_value : ℕ → ℕ
hex_value c =
    if is_digit c then c - b'0' else (if within b'a' b'f' c then 10 + c - b'a' else 10 + c - b'A')

-- `hexToByteArray` for an even length, the only one that it is called with
unfoldable pub hex_to_byte_array : Bytes → Bytes
unfolding hex_value
hex_to_byte_array [] = []
hex_to_byte_array (c ∷ []) = []
hex_to_byte_array (c ∷ d ∷ s) = (16 * hex_value c + hex_value d) ∷ hex_to_byte_array s

-- `replace` of every `from`
unfoldable pub replace : ℕ → ℕ → Bytes → Bytes
replace from to [] = []
replace from to (c ∷ s) = (if c == from then to else c) ∷ replace from to s

unfoldable pub contains : ℕ → Bytes → Bool
contains c [] = false
contains c (d ∷ s) = c == d || contains c s

-- The runtime's base64: what `btoa` writes is read by `atob` again, it is in the standard alphabet, and it
-- is padded unless the number of bytes is a multiple of three. `atob` throws on some texts.
pub record Base64 : Type 0 where
  pub btoa : Bytes → Bytes
  pub atob : Bytes → Option Bytes
  pub atob_btoa : (b : Bytes) → atob (btoa b) ≡ some b
  pub btoa_text : (b : Bytes) → is_padded is_std_letter (btoa b) ≡ true
  pub btoa_padded : (b : Bytes) → length b % 3 ≢ 0 → contains b'=' (btoa b) ≡ true

pub data Parsed : Type 0 where
  parsed : Bytes → Parsed
  unknown : Parsed
  thrown : Parsed

module _ (base : Base64) where
  open base use {btoa, atob}

  -- `Base64UrlPaddedCodec.encode` of bytes
  unfoldable pub encode : Bytes → Bytes
  unfolding replace
  encode b = replace b'/' b'_' (replace b'+' b'-' (btoa b))

  -- `base64ToByteArray`
  unfoldable pub base64_to_byte_array : Bytes → Option Bytes
  unfolding replace
  base64_to_byte_array s = atob (replace b'_' b'/' (replace b'-' b'+' s))

  -- `parseSha256`
  unfoldable pub parse_sha256 : Bytes → Parsed
  unfolding is_hex is_base64 hex_to_byte_array base64_to_byte_array
  parse_sha256 s =
      if is_hex s
      then parsed (hex_to_byte_array s)
      else (if is_base64 s
          then elim (base64_to_byte_array s) [ none ↦ thrown | some b ↦ parsed b ]
          else unknown)

-- `checkSha256` of two byte arrays
abbrev pub check_sha256 : Bytes → Bytes → Bool
check_sha256 a b = bytes_eq a b
