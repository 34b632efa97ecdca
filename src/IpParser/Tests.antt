-- ===== src/IpParser/Tests.antt =====
-- Addresses on concrete texts, and the theorems at inputs that meet their hypotheses.
use nats_deno.Base.{◌≡◌, refl, true, none, some, [], ◌∷◌, Bytes, codes, arith}
use nats_deno.Buffer.{overwrite}
use nats_deno.IpParser.{
  ip_v4, dtoi_from, xtoi_from, v4_from, hex_value, rounds, spread, clear, parse_ip, is_ip, start,
}
use nats_deno.IpParser.Laws.{IsAddress}
use nats_deno.IpParser.Dotted.{dotted, parse_ip-dotted}

with_ellipsis :
    parse_ip (codes "fe80::1")
    ≡ some (254 ∷ 128 ∷ 0 ∷ 0 ∷ 0 ∷ 0 ∷ 0 ∷ 0 ∷ 0 ∷ 0 ∷ 0 ∷ 0 ∷ 0 ∷ 0 ∷ 0 ∷ 1 ∷ [])
unfolding parse_ip rounds xtoi_from hex_value spread clear overwrite
with_ellipsis = refl

too_large : parse_ip (codes "1.2.3.256") ≡ none
unfolding parse_ip v4_from dtoi_from overwrite
too_large = refl

host_is_ip : is_ip (codes "10.0.0.1.example.com") ≡ true
unfolding is_ip v4_from dtoi_from overwrite ip_v4
host_is_ip = refl

parse_ip-dotted_example :
    parse_ip (dotted 10 0 0 255 (codes ".example.com")) ≡ some (ip_v4 10 0 0 255)
parse_ip-dotted_example =
    parse_ip-dotted 10 0 0 255 (codes ".example.com") (omega arith) (omega arith) (omega arith)
      (omega arith) refl

abbrev loopback : Bytes
loopback = 0 ∷ 0 ∷ 0 ∷ 0 ∷ 0 ∷ 0 ∷ 0 ∷ 0 ∷ 0 ∷ 0 ∷ 0 ∷ 0 ∷ 0 ∷ 0 ∷ 0 ∷ 1 ∷ []

reads_loopback : parse_ip (codes "::1") ≡ some loopback
unfolding parse_ip rounds xtoi_from hex_value spread clear overwrite
reads_loopback = refl

start-IsAddress : IsAddress (start (codes "1::2")).ip
start-IsAddress = ground arith
