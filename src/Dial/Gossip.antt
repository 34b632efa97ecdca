-- ===== src/Dial/Gossip.antt =====
-- What an `INFO` that comes in during a dial does to the pool.
use nats_deno.Base.{
  ℕ, zero, suc, ◌+◌, ◌≤◌, ◌≡◌, refl, ap, ◌∙◌, Bool, true, false, ◌&&◌, ◌||◌, Option, some, List, [],
  ◌∷◌, ◌++◌, Bytes, bytes_eq, bytes_eq_refl, length, ◌==◌, if◌then◌else◌, arith,
}
use nats_deno.Servers.{
  Server, Servers, select_server, has, without, discovered, sift, add_found, update,
}
use nats_deno.Dial.{Options, hear}
use nats_deno.Dial.Weights.{weight, weight-append}

-- All attempts of this many servers, and one for each.
abbrev pub attempts_of : ℕ → ℕ → ℕ
attempts_of m zero = 0
attempts_of m (suc n) = suc m + attempts_of m n

pub attempts_of-add : (m n k : ℕ) → attempts_of m (n + k) ≡ attempts_of m n + attempts_of m k
attempts_of-add m zero k =
    let same : 0 + k ≡ k = omega arith in
    let none_more : attempts_of m (0 + k) ≡ attempts_of m k = ap (attempts_of m) same in
    omega (arith, none_more)
attempts_of-add m (suc n) k =
    let same : suc n + k ≡ suc (n + k) = omega arith in
    let next : attempts_of m (suc n + k) ≡ suc m + attempts_of m (n + k) =
      ap (attempts_of m) same in
    omega (arith, next, attempts_of-add m n k)

-- A server with the id and the address of `s`.
abbrev pub holds : Server → List Server → Bool
holds s [] = false
holds s (t ∷ l) = (t.id == s.id && bytes_eq s.listen t.listen) || holds s l

pub holds-has : (s : Server) (l : List Server) → holds s l ≡ true → has s.id l ≡ true
unfolding has
holds-has s [] h = absurd (cc)
holds-has s (t ∷ l) h = ground (arith, h, holds-has s l)

holds-append : (s : Server) (l k : List Server) → holds s (l ++ k) ≡ holds s l || holds s k
holds-append s [] k = refl
holds-append s (t ∷ l) k = ground (arith, holds-append s l k)

pub select-holds :
    (p : Servers) (s : Server)
    → p.first_select ≡ false
    → (select_server p).0 ≡ some s
    → holds s (select_server p).1.servers ≡ true
unfolding select_server
select-holds p s f e = go p.servers refl
  where
    go : (l : List Server) → p.servers ≡ l → holds s (select_server p).1.servers ≡ true
    go [] el = absurd (ground (arith, f, el, e))
    go (t ∷ l) el = ground (arith, f, el, e, holds-append t l (t ∷ []), bytes_eq_refl t.listen)

sift-weight :
    (m : ℕ) (c : ℕ → ℕ) (current : Option Server) (found : List Bytes) (l : List Server)
    → weight m c (sift current found l).0 ≤ weight m c l
unfolding sift
sift-weight m c current found [] = omega arith
sift-weight m c current found (s ∷ l) =
    ground (arith, sift-weight m c current (without s.listen found) l)

sift-holds :
    (s : Server) (found : List Bytes) (l : List Server)
    → holds s l ≡ true
    → holds s (sift (some s) found l).0 ≡ true
unfolding sift
sift-holds s found [] h = absurd (cc)
sift-holds s found (t ∷ l) h = ground (arith, h, sift-holds s (without t.listen found) l)

add_found-weight :
    (m : ℕ) (c : ℕ → ℕ) (host_port : Bytes → Bytes × Bytes) (is_ip : Bytes → Bool)
    (urls : List Bytes) (id : ℕ)
    → weight m c (add_found host_port is_ip urls id) ≤ attempts_of m (length urls)
unfolding add_found
add_found-weight m c host_port is_ip [] id = omega arith
add_found-weight m c host_port is_ip (u ∷ urls) id =
    ground (arith, add_found-weight m c host_port is_ip urls (suc id))

-- What an update leaves alone, how many servers it adds, and what they weigh.
abbrev pub Grows : ℕ → (ℕ → ℕ) → Servers → Servers → Type 0
Grows m c p q =
    (q.current ≡ p.current)
    × (q.first_select ≡ p.first_select)
    × ((s : Server) → p.current ≡ some s → holds s p.servers ≡ true → holds s q.servers ≡ true)
    × (added : ℕ) × (q.created ≡ p.created + added)
    × (weight m c q.servers ≤ weight m c p.servers + attempts_of m added)

update-Grows :
    (m : ℕ) (c : ℕ → ℕ) (host_port : Bytes → Bytes × Bytes) (is_ip : Bytes → Bool)
    (urls : List Bytes) (p : Servers)
    → Grows m c p (update host_port is_ip urls p).1
unfolding update
update-Grows m c host_port is_ip urls p =
    let found = discovered [] urls in
    let result = sift p.current found p.servers in
    let new = add_found host_port is_ip result.1.1 p.created in
    (
      refl,
      refl,
      λ (s : Server). λ (e : p.current ≡ some s). λ (h : holds s p.servers ≡ true).
          holds-append s result.0 new
          ∙ ap (λ (x : Bool). x || holds s new)
              (ap (λ (o : Option Server). holds s (sift o found p.servers).0) e
                ∙ sift-holds s found p.servers h),
      length result.1.1,
      refl,
      ground (
        arith,
        weight-append m c result.0 new,
        sift-weight m c p.current found p.servers,
        add_found-weight m c host_port is_ip result.1.1 p.created,
      ),
    )

same-Grows : (m : ℕ) (c : ℕ → ℕ) (p : Servers) → Grows m c p p
same-Grows m c p = (refl, refl, λ s e h. h, 0, omega arith, omega arith)

Grows-trans : (m : ℕ) (c : ℕ → ℕ) (p q r : Servers) → Grows m c p q → Grows m c q r → Grows m c p r
Grows-trans m c p q r (cur, first, keeps, a, made, w) (cur', first', keeps', a', made', w') = (
  cur' ∙ cur,
  first' ∙ first,
  λ s e h. keeps' s (cur ∙ e) (keeps s e h),
  a + a',
  omega (arith, made, made'),
  omega (arith, w, w', attempts_of-add m a a'),
)

pub hear-Grows :
    (m : ℕ) (c : ℕ → ℕ) (o : Options) (infos : List (List Bytes)) (p : Servers)
    → Grows m c p (hear o infos p)
unfolding hear
hear-Grows m c o [] p = same-Grows m c p
hear-Grows m c o (urls ∷ infos) p =
    elim o.takes_updates
      as (λ (b : Bool).
        Grows m c p (hear o infos (if b then (update o.host_port o.is_ip urls p).1 else p))) [
          | true ↦
              let q = (update o.host_port o.is_ip urls p).1 in
              Grows-trans m c p q (hear o infos q) (update-Grows m c o.host_port o.is_ip urls p)
                (hear-Grows m c o infos q)
          | false ↦ hear-Grows m c o infos p
        ]
