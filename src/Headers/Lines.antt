-- ===== src/Headers/Lines.antt =====
-- nats-base-client/headers.ts: `toString` and `decode`, between the entries and their text.
use nats_deno.Base.{
  ℕ, zero, suc, ◌+◌, ◌-◌, ◌*◌, Bool, true, false, ◌&&◌, ◌||◌, Option, none, some, List, [], ◌∷◌,
  ◌++◌, Bytes, codes, bytes_eq, length, drop, leb, ltb, ◌==◌, if◌then◌else◌,
}
use nats_deno.Headers.{Entries, ℤ, pos, negsuc, Headers, no_headers, exact, trim, append}

abbrev pub header : Bytes
header = codes "NATS/1.0"

abbrev pub break : Bytes
break = b'\r' ∷ b'\n' ∷ []

unfoldable pub value_lines : Bytes → List Bytes → Bytes
value_lines k [] = []
value_lines k (v ∷ vs) = break ++ (k ++ (codes ": " ++ (v ++ value_lines k vs)))

unfoldable pub entry_lines : Entries → Bytes
unfolding value_lines
entry_lines [] = []
entry_lines ((k, vs) ∷ es) = value_lines k vs ++ entry_lines es

abbrev pub is_zero : ℤ → Bool
is_zero (pos n) = n == 0
is_zero (negsuc n) = false

abbrev pub is_positive : ℤ → Bool
is_positive (pos n) = ltb 0 n
is_positive (negsuc n) = false

-- `split("\r\n")`: the first part, and the others; `cr` says that a carriage return is in front.
unfoldable pub split_from : Bool → Bytes → Bytes × List Bytes
split_from cr [] = ((if cr then b'\r' ∷ [] else []), [])
split_from cr (c ∷ s) =
    let (h, t) = split_from (c == b'\r') s in
    let line = if c == b'\r' then h else c ∷ h in
    if cr then (if c == b'\n' then ([], h ∷ t) else (b'\r' ∷ line, t)) else (line, t)

unfoldable pub split_break : Bytes → Bytes × List Bytes
unfolding split_from
split_break s = split_from false s

unfoldable pub starts : Bytes → Bytes → Bool
starts [] s = true
starts (c ∷ t) [] = false
starts (c ∷ t) (d ∷ s) = if c == d then starts t s else false

-- `s.replace(t, "")` of a text: its first occurrence goes.
unfoldable pub without_first : Bytes → Bytes → Bytes
unfolding starts
without_first t [] = []
without_first t (c ∷ s) =
    if starts t (c ∷ s) then drop (length t) (c ∷ s) else c ∷ without_first t s

abbrev pub is_dec : ℕ → Bool
is_dec b = leb b'0' b && leb b b'9'

-- The digits in front, as a number; `none` where there is none.
unfoldable pub digits_from : Option ℕ → Bytes → Option ℕ
digits_from n [] = n
digits_from n (c ∷ s) =
    let m : ℕ = elim n [ none ↦ c - b'0' | some k ↦ k * 10 + (c - b'0') ] in
    let rest = digits_from (some m) s in if is_dec c then rest else n

abbrev pub negated : ℕ → ℤ
negated zero = pos 0
negated (suc n) = negsuc n

-- `parseInt(s, 10)` of a trimmed text, where no number counts as 0.
unfoldable pub parse_int : Bytes → ℤ
unfolding digits_from
parse_int [] = pos 0
parse_int (c ∷ s) =
    if c == b'-'
    then elim (digits_from none s) [ none ↦ pos 0 | some n ↦ negated n ]
    else if c == b'+'
    then elim (digits_from none s) [ none ↦ pos 0 | some n ↦ pos n ]
    else elim (digits_from none (c ∷ s)) [ none ↦ pos 0 | some n ↦ pos n ]

-- `s.indexOf(":")`, as what stands in front of it and behind it.
unfoldable pub split_colon : Bytes → Option (Bytes × Bytes)
split_colon [] = none
split_colon (c ∷ s) =
    let rest = split_colon s in
    if c == b':' then some ([], s) else elim rest [ none ↦ none | some (k, v) ↦ some (c ∷ k, v) ]

-- A line behind the first; `none` is the error of `append`.
unfoldable pub decode_line : Bytes → Headers → Option Headers
unfolding split_colon trim append
decode_line [] h = some h
decode_line (c ∷ s) h = elim (split_colon (c ∷ s)) [
  | none ↦ some h
  | some (k, v) ↦ append k (trim v) exact h
]

unfoldable pub decode_lines : List Bytes → Headers → Option Headers
unfolding decode_line
decode_lines [] h = some h
decode_lines (l ∷ ls) h = elim (decode_line l h) [ none ↦ none | some g ↦ decode_lines ls g ]

module _ (show : ℕ → Bytes) where
  abbrev pub show_int : ℤ → Bytes
  show_int (pos n) = show n
  show_int (negsuc n) = b'-' ∷ show (suc n)

  -- `toString`
  unfoldable pub to_text : Headers → Bytes
  unfolding entry_lines
  to_text h =
      let status =
        if is_positive h.code && ltb 0 (length h.description)
        then b' ' ∷ (show_int h.code ++ b' ' ∷ h.description)
        else [] in
      if length h.entries == 0 && is_zero h.code
      then []
      else header ++ (status ++ (entry_lines h.entries ++ (break ++ break)))

  -- The status of the first line.
  unfoldable pub decode_status : Bytes → Headers
  unfolding without_first trim parse_int
  decode_status l =
      let str = trim (without_first header l) in
      let code = parse_int str in
      if bytes_eq l header || length str == 0
      then no_headers
      else record no_headers { code = code; description = trim (without_first (show_int code) str) }

  -- `decode`
  unfoldable pub decode : Bytes → Option Headers
  unfolding split_break decode_status decode_lines
  decode s = let (l, ls) = split_break s in decode_lines ls (decode_status l)
