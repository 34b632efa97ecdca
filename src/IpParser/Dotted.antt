-- ===== src/IpParser/Dotted.antt =====
-- Addresses in the dotted form: they are read back, and what stands behind the fourth number is not looked
-- at, where the Go function that the code ports refuses it.
use nats_deno.Base.{
  ℕ, suc, ◌+◌, ◌-◌, ◌*◌, ◌/◌, ◌%◌, ◌<◌, ◌≡◌, refl, ap, ◌∙◌, inl, inr, Bool, true, not, Option, none,
  some, [], ◌∷◌, ◌++◌, Bytes, length, drop, ltb, ◌==◌, if◌then◌else◌, arith, Bool-cases,
}
use nats_deno.Base.Slices.{drop-length-append}
use nats_deno.Buffer.{overwrite, zeros}
use nats_deno.IpParser.{
  is_dec, dtoi_from, dtoi, ip_v4, at, past_dot, v4_from, parse_ipv4, parse_by, parse_ip,
}

-- A number below 256 in decimal.
abbrev pub decimal : ℕ → Bytes
decimal n =
    if ltb n 10
    then (b'0' + n) ∷ []
    else if ltb n 100
    then (b'0' + n / 10) ∷ (b'0' + n % 10) ∷ []
    else (b'0' + n / 100) ∷ (b'0' + n / 10 % 10) ∷ (b'0' + n % 10) ∷ []

abbrev pub no_digit_first : Bytes → Bool
no_digit_first [] = true
no_digit_first (b ∷ s) = not (is_dec b)

dtoi_from-end :
    (i n : ℕ) (rest : Bytes)
    → no_digit_first rest ≡ true
    → dtoi_from i n rest ≡ record { n = n; c = i; ok = not (i == 0) }
unfolding dtoi_from
dtoi_from-end i n [] h = refl
dtoi_from-end i n (b ∷ rest) h = ground arith

dtoi_from-digit :
    (i n d : ℕ) (rest : Bytes)
    → d < 10
    → n < 1000
    → dtoi_from i n ((b'0' + d) ∷ rest) ≡ dtoi_from (suc i) (n * 10 + d) rest
unfolding dtoi_from
dtoi_from-digit i n d rest h k =
    let e : n * 10 + ((b'0' + d) - b'0') ≡ n * 10 + d = omega arith in ground arith

dtoi_lem :
    (n : ℕ) (rest : Bytes)
    → n < 256
    → no_digit_first rest ≡ true
    → dtoi (decimal n ++ rest) ≡ record { n = n; c = length (decimal n); ok = true }
unfolding dtoi
dtoi_lem n rest h k = elim (Bool-cases (ltb n 10)) [
  | inl one ↦ rw one (
      dtoi_from-digit 0 0 n rest (ground arith) (omega arith)
      ∙ dtoi_from-end 1 (0 * 10 + n) rest k
      ∙ ground arith)
  | inr more ↦ elim (Bool-cases (ltb n 100)) [
    | inl two ↦
        rw (more, two)
          (dtoi_from-digit 0 0 (n / 10) ((b'0' + n % 10) ∷ rest) (ground arith) (omega arith)
            ∙ dtoi_from-digit 1 (0 * 10 + n / 10) (n % 10) rest (omega arith) (omega arith)
            ∙ dtoi_from-end 2 ((0 * 10 + n / 10) * 10 + n % 10) rest k
            ∙ ground arith)
    | inr three ↦
        rw (more, three)
          (dtoi_from-digit 0 0 (n / 100) ((b'0' + n / 10 % 10) ∷ (b'0' + n % 10) ∷ rest)
              (omega arith) (omega arith)
            ∙ dtoi_from-digit 1 (0 * 10 + n / 100) (n / 10 % 10) ((b'0' + n % 10) ∷ rest)
                (omega arith) (omega arith)
            ∙ dtoi_from-digit 2 ((0 * 10 + n / 100) * 10 + n / 10 % 10) (n % 10) rest (omega arith)
                (omega arith)
            ∙ dtoi_from-end 3 (((0 * 10 + n / 100) * 10 + n / 10 % 10) * 10 + n % 10) rest k
            ∙ ground arith)
  ]
]

-- One part of `parseIPv4`.
v4_part :
    (left i n : ℕ) (t s rest ip : Bytes)
    → past_dot i s ≡ some t
    → t ≡ decimal n ++ rest
    → n < 256
    → no_digit_first rest ≡ true
    → v4_from (suc left) i s ip ≡ v4_from left (suc i) rest (overwrite ip i (n ∷ []))
unfolding v4_from
v4_part left i n t s rest ip d e h k =
    let x : dtoi t ≡ record { n = n; c = length (decimal n); ok = true } =
      ap dtoi e ∙ dtoi_lem n rest h k in
    let r : drop (length (decimal n)) t ≡ rest =
      ap (drop (length (decimal n))) e ∙ drop-length-append (decimal n) rest in
    ground arith

abbrev pub dotted : ℕ → ℕ → ℕ → ℕ → Bytes → Bytes
dotted a b c d rest =
    decimal a ++ b'.' ∷ (decimal b ++ b'.' ∷ (decimal c ++ b'.' ∷ (decimal d ++ rest)))

past_dot-first : (n : ℕ) (rest : Bytes) → past_dot 0 (decimal n ++ rest) ≡ some (decimal n ++ rest)
past_dot-first n rest = ground arith

abbrev mapped : Option Bytes → Option Bytes
mapped r = elim r [ none ↦ none | some ip ↦ some (ip_v4 (at ip 0) (at ip 1) (at ip 2) (at ip 3)) ]

parse_ipv4-dotted :
    (a b c d : ℕ) (rest : Bytes)
    → a < 256
    → b < 256
    → c < 256
    → d < 256
    → no_digit_first rest ≡ true
    → parse_ipv4 (dotted a b c d rest) ≡ some (ip_v4 a b c d)
unfolding parse_ipv4 v4_from overwrite
parse_ipv4-dotted a b c d rest ha hb hc hd k =
    let tail_d = decimal d ++ rest in
    let tail_c = decimal c ++ b'.' ∷ tail_d in
    let tail_b = decimal b ++ b'.' ∷ tail_c in
    let whole = decimal a ++ b'.' ∷ tail_b in
    let parts : v4_from 4 0 whole (zeros 4) ≡ some (a ∷ b ∷ c ∷ d ∷ []) =
      v4_part 3 0 a whole whole (b'.' ∷ tail_b) (zeros 4) (past_dot-first a (b'.' ∷ tail_b)) refl ha
        refl
      ∙ v4_part 2 1 b tail_b (b'.' ∷ tail_b) (b'.' ∷ tail_c) (a ∷ 0 ∷ 0 ∷ 0 ∷ []) refl refl hb refl
      ∙ v4_part 1 2 c tail_c (b'.' ∷ tail_c) (b'.' ∷ tail_d) (a ∷ b ∷ 0 ∷ 0 ∷ []) refl refl hc refl
      ∙ v4_part 0 3 d tail_d (b'.' ∷ tail_d) rest (a ∷ b ∷ c ∷ 0 ∷ []) refl refl hd k in
    ap mapped parts

parse_by-decimal :
    (whole rest : Bytes) (n : ℕ)
    → n < 256
    → parse_by whole (decimal n ++ b'.' ∷ rest) ≡ parse_ipv4 whole
unfolding parse_by
parse_by-decimal whole rest n h = ground arith

-- `parseIP` reads four numbers below 256 with dots between them as just these, and gives the same
-- address whatever follows them, unless it is one more digit.
pub parse_ip-dotted :
    (a b c d : ℕ) (rest : Bytes)
    → a < 256
    → b < 256
    → c < 256
    → d < 256
    → no_digit_first rest ≡ true
    → parse_ip (dotted a b c d rest) ≡ some (ip_v4 a b c d)
unfolding parse_ip
parse_ip-dotted a b c d rest ha hb hc hd k =
    parse_by-decimal (dotted a b c d rest)
      (decimal b ++ b'.' ∷ (decimal c ++ b'.' ∷ (decimal d ++ rest))) a ha
    ∙ parse_ipv4-dotted a b c d rest ha hb hc hd k
