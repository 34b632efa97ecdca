-- ===== src/IpParser/Laws.antt =====
-- What a parsed address looks like, and that the rounds of the loop are enough.
use nats_deno.Base.{
  ℕ, zero, suc, ◌+◌, ◌-◌, ◌*◌, ◌/◌, ◌%◌, ◌≤◌, ◌<◌, ◌≡◌, refl, sym, ap, ◌∙◌, ◌⊎◌, inl, inr, not,
  ◌||◌, Option, none, some, [], ◌∷◌, Bytes, length, drop, ltb, arith, Bool-cases, Option-cases,
}
use nats_deno.Buffer.{overwrite, zeros}
use nats_deno.Buffer.Laws.{length-overwrite}
use nats_deno.IpParser.{
  ip_v4, at, xtoi, v4_from, parse_ipv4, Groups, Round, failed, stopped, goes, past_group, v4_tail,
  round, rounds, spread, clear, expand, finish, start, finish_after, parse_ipv6, parse_by, parse_ip,
}

abbrev pub IsBytes : Bytes → Type 0
IsBytes [] = Unit
IsBytes (b ∷ bs) = (b < 256) × IsBytes bs

-- Sixteen bytes.
abbrev pub IsAddress : Bytes → Type 0
IsAddress ip = (length ip ≡ 16) × IsBytes ip

overwrite-IsBytes :
    (ip : Bytes) (i : ℕ) (src : Bytes) → IsBytes ip → IsBytes src → IsBytes (overwrite ip i src)
unfolding overwrite
overwrite-IsBytes [] i src h k = tt
overwrite-IsBytes (x ∷ ip) zero [] h k = h
overwrite-IsBytes (x ∷ ip) zero (b ∷ src) (_, h) (a, k) = (a, overwrite-IsBytes ip zero src h k)
overwrite-IsBytes (x ∷ ip) (suc i) src (a, h) k = (a, overwrite-IsBytes ip i src h k)

at-IsByte : (ip : Bytes) (i : ℕ) → IsBytes ip → at ip i < 256
at-IsByte [] i h = omega arith
at-IsByte (x ∷ ip) zero (a, h) = a
at-IsByte (x ∷ ip) (suc i) (a, h) = at-IsByte ip i h

overwrite-IsAddress :
    (ip : Bytes) (i : ℕ) (src : Bytes) → IsAddress ip → IsBytes src → IsAddress (overwrite ip i src)
overwrite-IsAddress ip i src (l, h) k =
    (length-overwrite ip i src ∙ l, overwrite-IsBytes ip i src h k)

ip_v4-IsAddress : (a b c d : ℕ) → IsAddress (ip_v4 a b c d)
unfolding ip_v4
ip_v4-IsAddress a b c d = (ground arith, ground arith)

-- A round that does not fail keeps 16 bytes, and goes two of them further.
abbrev Fine : ℕ → Round → Type 0
Fine i failed = Unit
Fine i (stopped h) = IsAddress h.ip
Fine i (goes h) = IsAddress h.ip × (h.i ≡ i + 2)

past_group-Fine : (i : ℕ) (g : Groups) → IsAddress g.ip → g.i ≡ i + 2 → Fine i (past_group g)
unfolding past_group
past_group-Fine i g a e = go g.s g.ellipsis refl refl
  where
    go : (s : Bytes) (ellipsis : Option ℕ) → g.s ≡ s → g.ellipsis ≡ ellipsis → Fine i (past_group g)
    go [] _ f k = ground arith
    go (b ∷ []) _ f k = ground arith
    go (b ∷ d ∷ []) none f k = ground arith
    go (b ∷ d ∷ []) (some _) f k = ground arith
    go (b ∷ d ∷ c ∷ more) none f k = ground arith
    go (b ∷ d ∷ c ∷ more) (some _) f k = ground arith

parse_ipv4-IsAddress : (s ip : Bytes) → parse_ipv4 s ≡ some ip → IsAddress ip
unfolding parse_ipv4
parse_ipv4-IsAddress s ip e = elim (Option-cases (v4_from 4 0 s (zeros 4))) [
  | inl bad ↦ ground arith
  | inr (parts, good) ↦
      ground (arith, ip_v4-IsAddress (at parts 0) (at parts 1) (at parts 2) (at parts 3))
]

v4_tail-Fine : (i : ℕ) (g : Groups) → IsAddress g.ip → Fine i (v4_tail g)
unfolding v4_tail
v4_tail-Fine i g a = elim (Option-cases (parse_ipv4 g.s)) [
  | inl bad ↦ ground arith
  | inr (ip4, good) ↦
      let (_, b) = parse_ipv4-IsAddress g.s ip4 good in
      let src = at ip4 12 ∷ at ip4 13 ∷ at ip4 14 ∷ at ip4 15 ∷ [] in
      let valid : IsBytes src = (
        at-IsByte ip4 12 b,
        (at-IsByte ip4 13 b, (at-IsByte ip4 14 b, (at-IsByte ip4 15 b, tt))),
      ) in
      ground (arith, overwrite-IsAddress g.ip g.i src a valid)
]

round-Fine : (g : Groups) → IsAddress g.ip → Fine g.i (round g)
unfolding round
round-Fine g a = elim (Bool-cases (not (xtoi g.s).ok || ltb 65535 (xtoi g.s).n)) [
  | inl bad ↦ ground arith
  | inr good ↦
      let x = xtoi g.s in
      let high : IsBytes (x.n / 256 ∷ []) = (ground arith, tt) in
      let low : IsBytes (x.n % 256 ∷ []) = (omega arith, tt) in
      let first = overwrite-IsAddress g.ip g.i (x.n / 256 ∷ []) a high in
      let second =
        overwrite-IsAddress (overwrite g.ip g.i (x.n / 256 ∷ [])) (g.i + 1) (x.n % 256 ∷ []) first
          low in
      let h = record g {
        ip = overwrite (overwrite g.ip g.i (x.n / 256 ∷ [])) (g.i + 1) (x.n % 256 ∷ []);
        i = g.i + 2;
        s = drop x.c g.s;
      } in
      ground (arith, v4_tail-Fine g.i g a, past_group-Fine g.i h second refl)
]

round-cases :
    (r : Round) → (r ≡ failed) ⊎ (((h : Groups) × (r ≡ stopped h)) ⊎ ((h : Groups) × (r ≡ goes h)))
round-cases failed = inl refl
round-cases (stopped h) = inr (inl (h, refl))
round-cases (goes h) = inr (inr (h, refl))

rounds-IsAddress :
    (left : ℕ) (g h : Groups) → IsAddress g.ip → rounds left g ≡ some h → IsAddress h.ip
unfolding rounds
rounds-IsAddress zero g h a e = ground arith
rounds-IsAddress (suc left) g h a e = elim (round-cases (round g)) [
  | inl bad ↦ ground arith
  | inr (inl (t, stop)) ↦ ground (arith, round-Fine g a)
  | inr (inr (t, on)) ↦
      let (k, _) : Fine g.i (goes t) = rw on at (round-Fine g a) in
      rounds-IsAddress left t h k (ground arith)
]

spread-IsAddress : (k e n : ℕ) (ip : Bytes) → IsAddress ip → IsAddress (spread k e n ip)
unfolding spread
spread-IsAddress zero e n ip a = a
spread-IsAddress (suc k) e n ip a =
    spread-IsAddress k e n (overwrite ip (e + k + n) (at ip (e + k) ∷ []))
      (overwrite-IsAddress ip (e + k + n) (at ip (e + k) ∷ []) a (at-IsByte ip (e + k) a.1, tt))

clear-IsAddress : (k e : ℕ) (ip : Bytes) → IsAddress ip → IsAddress (clear k e ip)
unfolding clear
clear-IsAddress zero e ip a = a
clear-IsAddress (suc k) e ip a =
    clear-IsAddress k e (overwrite ip (e + k) (0 ∷ []))
      (overwrite-IsAddress ip (e + k) (0 ∷ []) a (omega arith, tt))

finish-IsAddress : (g : Groups) (ip : Bytes) → IsAddress g.ip → finish g ≡ some ip → IsAddress ip
unfolding finish expand
finish-IsAddress g ip a f = go g.ellipsis refl
  where
    go : (ellipsis : Option ℕ) → g.ellipsis ≡ ellipsis → IsAddress ip
    go none k = ground arith
    go (some e) k = ground (
      arith,
      clear-IsAddress (16 - g.i) e (spread (g.i - e) e (16 - g.i) g.ip)
          (spread-IsAddress (g.i - e) e (16 - g.i) g.ip a),
    )

zeros-IsAddress : IsAddress (zeros 16)
zeros-IsAddress = ground arith

finish_after-IsAddress :
    (g : Groups) (ip : Bytes) → IsAddress g.ip → finish_after g ≡ some ip → IsAddress ip
unfolding finish_after
finish_after-IsAddress g ip a e = elim (Option-cases (rounds 8 g)) [
  | inl bad ↦ ground arith
  | inr (h, good) ↦ finish-IsAddress h ip (rounds-IsAddress 8 g h a good) (ground arith)
]

parse_ipv6-IsAddress : (s ip : Bytes) → parse_ipv6 s ≡ some ip → IsAddress ip
unfolding parse_ipv6
parse_ipv6-IsAddress s ip e = ground (
  arith,
  zeros-IsAddress,
  finish_after-IsAddress (record (start (drop 2 s)) { ellipsis = some 0 }) ip zeros-IsAddress,
  finish_after-IsAddress (start s) ip zeros-IsAddress,
)

parse_by-IsAddress : (whole h ip : Bytes) → parse_by whole h ≡ some ip → IsAddress ip
unfolding parse_by
parse_by-IsAddress whole [] ip e = ground arith
parse_by-IsAddress whole (b ∷ h) ip e = ground (
  arith,
  parse_by-IsAddress whole h ip,
  parse_ipv4-IsAddress whole ip,
  parse_ipv6-IsAddress whole ip,
)

-- Whatever text is given, an address that `parseIP` finds in it has 16 numbers, all of them bytes.
pub parse_ip-IsAddress : (h ip : Bytes) → parse_ip h ≡ some ip → IsAddress ip
unfolding parse_ip
parse_ip-IsAddress h ip e = parse_by-IsAddress h h ip e

round-end : (g : Groups) → 16 ≤ g.i → round g ≡ stopped g
unfolding round
round-end g h = ground arith

abbrev rounds_after : ℕ → Round → Option Groups
rounds_after left r = elim r [ failed ↦ none | stopped h ↦ some h | goes h ↦ rounds left h ]

-- Where the address has 16 bytes and `left` rounds would fill what is behind `i`, as eight do from
-- the start, the loop of `parseIPv6` is over after them: more rounds change nothing.
pub rounds-enough :
    (left more : ℕ) (g : Groups)
    → IsAddress g.ip
    → g.i + 2 * left ≡ 16
    → rounds (left + suc more) g ≡ rounds left g
unfolding rounds
rounds-enough zero more g a e =
    let shape : 0 + suc more ≡ suc more = omega arith in
    ap (λ n. rounds n g) shape ∙ ap (rounds_after more) (round-end g (omega arith))
rounds-enough (suc left) more g a e = elim (round-cases (round g)) [
  | inl bad ↦ both failed bad refl
  | inr (inl (t, stop)) ↦ both (stopped t) stop refl
  | inr (inr (t, on)) ↦
      let (k, f) : Fine g.i (goes t) = rw on at (round-Fine g a) in
      both (goes t) on (rounds-enough left more t k (omega arith))
]
  where
    shape : suc left + suc more ≡ suc (left + suc more)
    shape = omega arith

    both :
        (r : Round)
        → round g ≡ r
        → rounds_after (left + suc more) r ≡ rounds_after left r
        → rounds (suc left + suc more) g ≡ rounds (suc left) g
    both r f same =
        ap (λ n. rounds n g) shape
        ∙ ap (rounds_after (left + suc more)) f
        ∙ same
        ∙ sym (ap (rounds_after left) f)
