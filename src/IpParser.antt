-- ===== src/IpParser.antt =====
-- nats-base-client/ipparser.ts: `parseIP` and what it calls. A text is the list of its UTF-16 units.
pub mod Laws
pub mod Dotted
mod Tests
use nats_deno.Base.{
  ℕ, zero, suc, ◌+◌, ◌-◌, ◌*◌, ◌/◌, ◌%◌, Bool, true, false, not, ◌&&◌, ◌||◌, Option, none, some,
  List, [], ◌∷◌, ◌++◌, Bytes, length, get_elem?, drop, leb, ltb, ◌==◌, if◌then◌else◌,
}
use nats_deno.Buffer.{overwrite, zeros}

abbrev pub big : ℕ
big = 16777215

-- `ipV4`
unfoldable pub ip_v4 : ℕ → ℕ → ℕ → ℕ → Bytes
ip_v4 a b c d =
    0 ∷ 0 ∷ 0 ∷ 0 ∷ 0 ∷ 0 ∷ 0 ∷ 0 ∷ 0 ∷ 0 ∷ 255 ∷ 255 ∷ a % 256 ∷ b % 256 ∷ c % 256 ∷ d % 256 ∷ []

-- What `dtoi` and `xtoi` give: the number, how many characters it takes, and whether there is one.
pub record Num : Type 0 where
  pub n : ℕ
  pub c : ℕ
  pub ok : Bool

abbrev pub is_dec : ℕ → Bool
is_dec b = leb b'0' b && leb b b'9'

-- `dtoi`
unfoldable pub dtoi_from : ℕ → ℕ → Bytes → Num
dtoi_from i n [] = record { n = n; c = i; ok = not (i == 0) }
dtoi_from i n (b ∷ s) =
    let m = n * 10 + (b - b'0') in
    let rest = dtoi_from (suc i) m s in
    if is_dec b
    then (if leb big m then record { n = big; c = i; ok = false } else rest)
    else record { n = n; c = i; ok = not (i == 0) }

unfoldable pub dtoi : Bytes → Num
unfolding dtoi_from
dtoi s = dtoi_from 0 0 s

-- A digit in base 16, of either case.
unfoldable pub hex_value : ℕ → Option ℕ
hex_value b =
    if is_dec b
    then some (b - b'0')
    else if leb b'a' b && leb b b'f'
    then some ((b - b'a') + 10)
    else if leb b'A' b && leb b b'F'
    then some ((b - b'A') + 10)
    else none

-- `xtoi`
unfoldable pub xtoi_from : ℕ → ℕ → Bytes → Num
unfolding hex_value
xtoi_from i n [] = record { n = n; c = i; ok = not (i == 0) }
xtoi_from i n (b ∷ s) = elim (hex_value b) [
  | none ↦ record { n = n; c = i; ok = not (i == 0) }
  | some v ↦
      if leb big (n * 16 + v)
      then record { n = 0; c = i; ok = false }
      else xtoi_from (suc i) (n * 16 + v) s
]

unfoldable pub xtoi : Bytes → Num
unfolding xtoi_from
xtoi s = xtoi_from 0 0 s

-- The test for the dot in front of a part but the first.
abbrev pub past_dot : ℕ → Bytes → Option Bytes
past_dot i [] = none
past_dot i (b ∷ s) = if ltb 0 i then (if b == b'.' then some s else none) else some (b ∷ s)

-- The loop of `parseIPv4`, at part `i` with `left` parts to come.
unfoldable pub v4_from : ℕ → ℕ → Bytes → Bytes → Option Bytes
unfolding dtoi
v4_from zero i s ip = some ip
v4_from (suc left) i s ip = elim (past_dot i s) [
  | none ↦ none
  | some t ↦
      let x = dtoi t in
      let rest = v4_from left (suc i) (drop x.c t) (overwrite ip i (x.n ∷ [])) in
      if not x.ok || ltb 255 x.n then none else rest
]

abbrev pub at : Bytes → ℕ → ℕ
at ip i = elim (get_elem? ip i) [ none ↦ 0 | some b ↦ b ]

-- `parseIPv4`
unfoldable pub parse_ipv4 : Bytes → Option Bytes
unfolding v4_from
parse_ipv4 s = elim (v4_from 4 0 s (zeros 4)) [
  | none ↦ none
  | some ip ↦ some (ip_v4 (at ip 0) (at ip 1) (at ip 2) (at ip 3))
]

-- The variables of the loop of `parseIPv6`; no ellipsis is -1 there.
pub record Groups : Type 0 where
  pub i : ℕ
  pub ellipsis : Option ℕ
  pub s : Bytes
  pub ip : Bytes

pub data Round : Type 0 where
  failed : Round
  stopped goes : Groups → Round

-- Behind a group of digits.
unfoldable pub past_group : Groups → Round
past_group g = elim g.s [
  | [] ↦ stopped g
  | b ∷ rest ↦ if not (b == b':') || length rest == 0 then failed else elim rest [
    | [] ↦ failed
    | d ∷ more ↦
        if d == b':'
        then elim g.ellipsis [
          | some _ ↦ failed
          | none ↦
              let h = record g { ellipsis = some g.i; s = more } in
              if length more == 0 then stopped h else goes h
        ]
        else goes (record g { s = d ∷ more })
  ]
]

-- An IPv4 address at the end.
unfoldable pub v4_tail : Groups → Round
unfolding parse_ipv4
v4_tail g =
    let none_seen : Bool = elim g.ellipsis [ none ↦ true | some _ ↦ false ] in
    if (none_seen && not (g.i == 12)) || ltb 16 (g.i + 4) then failed else elim (parse_ipv4 g.s) [
      | none ↦ failed
      | some ip4 ↦ stopped (record g {
        ip = overwrite g.ip g.i (at ip4 12 ∷ at ip4 13 ∷ at ip4 14 ∷ at ip4 15 ∷ []);
        s = [];
        i = g.i + 4;
      })
    ]

unfoldable pub round : Groups → Round
unfolding xtoi v4_tail past_group
round g =
    let x = xtoi g.s in
    if leb 16 g.i
    then stopped g
    else if not x.ok || ltb 65535 x.n
    then failed
    else if elim (get_elem? g.s x.c) [ none ↦ false | some b ↦ b == b'.' ]
    then v4_tail g
    else past_group (record g {
      ip = overwrite (overwrite g.ip g.i (x.n / 256 ∷ [])) (g.i + 1) (x.n % 256 ∷ []);
      i = g.i + 2;
      s = drop x.c g.s;
    })

unfoldable pub rounds : ℕ → Groups → Option Groups
unfolding round
rounds zero g = some g
rounds (suc left) g = elim (round g) [ failed ↦ none | stopped h ↦ some h | goes h ↦ rounds left h ]

-- The two loops that make room for the ellipsis.
unfoldable pub spread : ℕ → ℕ → ℕ → Bytes → Bytes
spread zero e n ip = ip
spread (suc k) e n ip = spread k e n (overwrite ip (e + k + n) (at ip (e + k) ∷ []))

unfoldable pub clear : ℕ → ℕ → Bytes → Bytes
clear zero e ip = ip
clear (suc k) e ip = clear k e (overwrite ip (e + k) (0 ∷ []))

unfoldable pub expand : ℕ → ℕ → Bytes → Bytes
unfolding spread clear
expand e i ip = clear (16 - i) e (spread (i - e) e (16 - i) ip)

-- Behind the loop of `parseIPv6`.
unfoldable pub finish : Groups → Option Bytes
unfolding expand
finish g =
    if not (length g.s == 0)
    then none
    else if ltb g.i 16
    then elim g.ellipsis [ none ↦ none | some e ↦ some (expand e g.i g.ip) ]
    else elim g.ellipsis [ none ↦ some g.ip | some _ ↦ none ]

abbrev pub start : Bytes → Groups
start s = record { i = 0; ellipsis = none; s = s; ip = zeros 16 }

unfoldable pub finish_after : Groups → Option Bytes
unfolding rounds finish
finish_after g = elim (rounds 8 g) [ none ↦ none | some h ↦ finish h ]

abbrev pub starts_with : ℕ → ℕ → Bytes → Bool
starts_with a b [] = false
starts_with a b (x ∷ []) = false
starts_with a b (x ∷ y ∷ s) = x == a && y == b

-- `parseIPv6`
unfoldable pub parse_ipv6 : Bytes → Option Bytes
unfolding finish_after
parse_ipv6 s =
    if starts_with b':' b':' s
    then (if length (drop 2 s) == 0
        then some (zeros 16)
        else finish_after (record (start (drop 2 s)) { ellipsis = some 0 }))
    else finish_after (start s)

-- `parseIP`: the first dot or colon decides. `whole` is the text, `h` what is still to be looked at.
unfoldable pub parse_by : Bytes → Bytes → Option Bytes
unfolding parse_ipv4 parse_ipv6
parse_by whole [] = none
parse_by whole (b ∷ h) =
    let rest = parse_by whole h in
    if b == b'.' then parse_ipv4 whole else if b == b':' then parse_ipv6 whole else rest

unfoldable pub parse_ip : Bytes → Option Bytes
unfolding parse_by
parse_ip h = parse_by h h

-- `isIP`
unfoldable pub is_ip : Bytes → Bool
unfolding parse_ip
is_ip h = elim (parse_ip h) [ none ↦ false | some _ ↦ true ]
