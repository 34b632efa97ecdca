-- ===== src/Servers/Laws.antt =====
-- The order in which servers are tried, and what an update of the pool keeps.
use mathlib.Core.List.{append-nil, append_assoc}
use nats_deno.Base.{
  ℕ, zero, suc, ◌≡◌, refl, sym, ap, ◌∙◌, Bool, true, false, not, ◌&&◌, ◌||◌, Option, none, some,
  List, map, bytes_eq, [], ◌∷◌, ◌++◌, Bytes, length, arith, if◌then◌else◌, Bool-cases, inl, inr,
  bytes_eq_sound, bytes_eq_refl,
}
use nats_deno.Servers.{
  Server, Servers, select_server, discovered, without, among, is_current, sift, add_found, update,
}

-- Selecting again and again, and the servers that this gives.
unfoldable pub select_each : ℕ → Servers → List Server × Servers
unfolding select_server
select_each zero p = ([], p)
select_each (suc n) p =
    let (t, q) = select_server p in
    let (ts, r) = select_each n q in (elim t [ none ↦ ts | some s ↦ s ∷ ts ], r)

select_each_lem :
    (xs ys : List Server) (p : Servers)
    → p.first_select ≡ false
    → p.servers ≡ xs ++ ys
    → ((select_each (length xs) p).0 ≡ xs) × ((select_each (length xs) p).1.servers ≡ ys ++ xs)
unfolding select_each
select_each_lem [] ys p f e = (refl, e ∙ sym (append-nil ys))
select_each_lem (x ∷ xs) ys p f e =
    let q = record p { servers = (xs ++ ys) ++ x ∷ []; current = some x } in
    ground (
      arith,
      select_each_lem xs (ys ++ x ∷ []) q f (append_assoc xs ys (x ∷ [])),
      append_assoc ys (x ∷ []) xs,
    )

-- Behind the first selection, as many selections as there are servers give every server once, in the
-- order of the pool, and leave the pool in this order.
pub select_each-round :
    (p : Servers)
    → p.first_select ≡ false
    → ((select_each (length p.servers) p).0 ≡ p.servers)
      × ((select_each (length p.servers) p).1.servers ≡ p.servers)
select_each-round p f = select_each_lem p.servers [] p f (sym (append-nil p.servers))

abbrev pub listens : List Server → List Bytes
listens servers = map (λ (s : Server). s.listen) servers

-- No two servers have the same address.
abbrev pub AreDistinct : List Server → Type 0
AreDistinct [] = Unit {0}
AreDistinct (s ∷ rest) = (among s.listen (listens rest) ≡ false) × AreDistinct rest

-- A gossiped server other than the current one goes when it is not among the addresses.
abbrev pub goes : Option Server → List Bytes → Server → Bool
goes current urls s = (s.gossiped && not (is_current current s.listen)) && not (among s.listen urls)

abbrev pub staying : Option Server → List Bytes → List Server → List Server
staying current urls [] = []
staying current urls (s ∷ rest) =
    if goes current urls s then staying current urls rest else s ∷ staying current urls rest

-- The addresses of the others, the last one first.
abbrev pub going : Option Server → List Bytes → List Server → List Bytes
going current urls [] = []
going current urls (s ∷ rest) =
    if goes current urls s
    then going current urls rest ++ s.listen ∷ []
    else going current urls rest

among-without :
    (u v : Bytes) (urls : List Bytes)
    → among u (without v urls) ≡ among u urls && not (bytes_eq v u)
unfolding among without
among-without u v [] = refl
among-without u v (w ∷ urls) = elim (Bool-cases (bytes_eq w v)) [
  | inl same ↦ ground (
    arith,
    same,
    among-without u v urls,
    ap (λ (x : Bytes). bytes_eq x u) (bytes_eq_sound w v same),
  )
  | inr other ↦ elim (Bool-cases (bytes_eq v u)) [
    | inl here ↦ ground (
      arith,
      here,
      other,
      among-without u v urls,
      ap (λ (x : Bytes). bytes_eq w x) (bytes_eq_sound v u here),
    )
    | inr away ↦ ground (arith, away, other, among-without u v urls)
  ]
]

-- An address that no server of the pool has makes no difference.
listed_not :
    (v : Bytes) (s : Server) (rest : List Server)
    → among v (listens (s ∷ rest)) ≡ false
    → (bytes_eq v s.listen ≡ false) × (among v (listens rest) ≡ false)
unfolding among
listed_not v s rest h = elim (Bool-cases (bytes_eq v s.listen)) [
  | inl same ↦ absurd (
      ground (
        arith,
        same,
        h,
        bytes_eq_refl v,
        ap (λ (x : Bytes). bytes_eq x v) (bytes_eq_sound v s.listen same),
      ))
  | inr other ↦ elim (Bool-cases (bytes_eq s.listen v)) [
    | inl same ↦ absurd (ground (arith, same, h))
    | inr away ↦ (other, ground (arith, away, h))
  ]
]

goes-without :
    (current : Option Server) (urls : List Bytes) (v : Bytes) (s : Server)
    → bytes_eq v s.listen ≡ false
    → goes current (without v urls) s ≡ goes current urls s
goes-without current urls v s h = ground (arith, h, among-without s.listen v urls)

without_lem :
    (current : Option Server) (urls : List Bytes) (v : Bytes) (servers : List Server)
    → among v (listens servers) ≡ false
    → (staying current (without v urls) servers ≡ staying current urls servers)
      × (going current (without v urls) servers ≡ going current urls servers)
without_lem current urls v [] h = (refl, refl)
without_lem current urls v (s ∷ rest) h =
    let (here, later) = listed_not v s rest h in
    let (stay, go) = without_lem current urls v rest later in
    let same = goes-without current urls v s here in
    (
      ap (λ (x : List Server). if goes current (without v urls) s then x else s ∷ x) stay
          ∙ ap
              (λ (x : Bool). if x then staying current urls rest else s ∷ staying current urls rest)
              same,
      ap (λ (x : List Bytes). if goes current (without v urls) s then x ++ s.listen ∷ [] else x) go
          ∙ ap
              (λ (x : Bool).
                if x then going current urls rest ++ s.listen ∷ [] else going current urls rest)
              same,
    )

sift_lem :
    (current : Option Server) (found : List Bytes) (servers : List Server)
    → AreDistinct servers
    → ((sift current found servers).0 ≡ staying current found servers)
      × ((sift current found servers).1.0 ≡ going current found servers)
unfolding sift
sift_lem current found [] d = (refl, refl)
sift_lem current found (s ∷ rest) (fresh, d) =
    let (stay, go) = sift_lem current (without s.listen found) rest d in
    let (stay', go') = without_lem current found s.listen rest fresh in
    elim (Bool-cases (goes current found s)) [
      | inl away ↦ ground (arith, away, stay, go, stay', go')
      | inr here ↦ ground (arith, here, stay, go, stay', go')
    ]

left_lem :
    (current : Option Server) (u : Bytes) (found : List Bytes) (servers : List Server)
    → among u (sift current found servers).1.1 ≡ among u found && not (among u (listens servers))
unfolding sift
left_lem current u found [] = unfold among in ground arith
left_lem current u found (s ∷ rest) =
    let later = left_lem current u (without s.listen found) rest in
    let here = among-without u s.listen found in unfold among in ground (arith, later, here)

among-append :
    (u v : Bytes) (urls : List Bytes) → among u (urls ++ v ∷ []) ≡ among u urls || bytes_eq v u
unfolding among
among-append u v [] = ground arith
among-append u v (w ∷ urls) = ground (arith, among-append u v urls)

among-same : (u v : Bytes) (urls : List Bytes) → bytes_eq v u ≡ true → among u urls ≡ among v urls
among-same u v urls e = ap (λ (x : Bytes). among x urls) (sym (bytes_eq_sound v u e))

among-discovered :
    (u : Bytes) (seen urls : List Bytes)
    → among u (discovered seen urls) ≡ among u seen || among u urls
unfolding discovered
among-discovered u seen [] = unfold among in ground arith
among-discovered u seen (v ∷ urls) =
    let later = among-discovered u (if among v seen then seen else seen ++ v ∷ []) urls in
    elim (Bool-cases (bytes_eq v u)) [
      | inl same ↦
          unfold among in
          ground (arith, same, later, among-same u v seen same, among-append u v seen)
      | inr other ↦ unfold among in ground (arith, other, later, among-append u v seen)
    ]

-- Only which addresses are reported counts.
same_lem :
    (current : Option Server) (xs ys : List Bytes) (servers : List Server)
    → ((u : Bytes) → among u xs ≡ among u ys)
    → (staying current xs servers ≡ staying current ys servers)
      × (going current xs servers ≡ going current ys servers)
same_lem current xs ys [] h = (refl, refl)
same_lem current xs ys (s ∷ rest) h =
    let (stay, go) = same_lem current xs ys rest h in
    elim (Bool-cases (goes current xs s)) [
      | inl away ↦ ground (arith, away, stay, go, h s.listen)
      | inr here ↦ ground (arith, here, stay, go, h s.listen)
    ]

-- The servers of these addresses, gossiped.
abbrev pub AreNew : (Bytes → Bytes × Bytes) → List Bytes → List Server → Type 0
AreNew host_port [] [] = Unit {0}
AreNew host_port (u ∷ urls) (s ∷ servers) =
    (s.listen ≡ (host_port u).0) × (s.gossiped ≡ true) × AreNew host_port urls servers
AreNew host_port _ _ = ⊥

add_found-AreNew :
    (host_port : Bytes → Bytes × Bytes) (is_ip : Bytes → Bool) (urls : List Bytes) (id : ℕ)
    → AreNew host_port urls (add_found host_port is_ip urls id)
unfolding add_found
add_found-AreNew host_port is_ip [] id = tt
add_found-AreNew host_port is_ip (u ∷ urls) id =
    (refl, refl, add_found-AreNew host_port is_ip urls (suc id))

-- An update of a pool whose addresses differ keeps, in order, every server that was configured, has the
-- address of the current one or is reported, and only these, and puts the new ones behind them. The
-- addresses of those that went are given as deleted, the last one first; those that are reported and
-- that no server of the pool had are given as added, and each of them has its server in the pool.
pub update-keeps :
    (host_port : Bytes → Bytes × Bytes) (is_ip : Bytes → Bool) (urls : List Bytes) (p : Servers)
    → AreDistinct p.servers
    → ((update host_port is_ip urls p).0.deleted ≡ going p.current urls p.servers)
      × ((u : Bytes)
          → among u (update host_port is_ip urls p).0.added
            ≡ among u urls && not (among u (listens p.servers)))
      × (new : List Server) × ((update host_port is_ip urls p).1.servers
          ≡ staying p.current urls p.servers ++ new)
      × AreNew host_port (update host_port is_ip urls p).0.added new
unfolding update
update-keeps host_port is_ip urls p d =
    let found = discovered [] urls in
    let reported : (u : Bytes) → among u found ≡ among u urls =
      λ u. among-discovered u [] urls ∙ none_seen u (among u urls) in
    let result = sift p.current found p.servers in
    let new = add_found host_port is_ip result.1.1 p.created in
    let (stay, go) = sift_lem p.current found p.servers d in
    let (stay', go') = same_lem p.current found urls p.servers reported in
    (
      go ∙ go',
      λ u.
          left_lem p.current u found p.servers
          ∙ ap (λ (x : Bool). x && not (among u (listens p.servers))) (reported u),
      new,
      ap (λ (x : List Server). x ++ new) (stay ∙ stay'),
      add_found-AreNew host_port is_ip result.1.1 p.created,
    )
  where
    none_seen : (u : Bytes) (b : Bool) → among u [] || b ≡ b
    none_seen u b = unfold among in refl
