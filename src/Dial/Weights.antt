-- ===== src/Dial/Weights.antt =====
-- How much a pool of servers has left to try, and what takes from it.
use nats_deno.Base.{
  ℕ, suc, ◌+◌, ◌-◌, ◌≤◌, ◌<◌, ◌≡◌, refl, ap, Bool, true, false, none, some, List, [], ◌∷◌, ◌++◌,
  ◌==◌, arith, Bool-cases, inl, inr,
}
use nats_deno.Servers.{
  Server, Servers, select_server, has, splice, drop_last, remove_server, remove_current_server,
}
use nats_deno.Dial.{set}

-- The attempts that are left to the servers of a pool, and one for each server.
abbrev pub weight : ℕ → (ℕ → ℕ) → List Server → ℕ
weight m c [] = 0
weight m c (s ∷ l) = suc (m - c s.id) + weight m c l

pub weight-append :
    (m : ℕ) (c : ℕ → ℕ) (l k : List Server) → weight m c (l ++ k) ≡ weight m c l + weight m c k
weight-append m c [] k = omega arith
weight-append m c (s ∷ l) k = omega (arith, weight-append m c l k)

pub weight-splice :
    (m : ℕ) (c : ℕ → ℕ) (id : ℕ) (l : List Server)
    → (weight m c (splice id l) ≤ weight m c l)
      × (has id l ≡ true → weight m c (splice id l) < weight m c l)
unfolding splice has
weight-splice m c id [] = (omega arith, λ h. absurd (cc))
weight-splice m c id (s ∷ l) = ground (arith, weight-splice m c id l)

pub weight-drop_last :
    (m : ℕ) (c : ℕ → ℕ) (l : List Server) → weight m c (drop_last l) ≤ weight m c l
unfolding drop_last
weight-drop_last m c [] = omega arith
weight-drop_last m c (s ∷ []) = omega arith
weight-drop_last m c (s ∷ t ∷ l) = ground (arith, weight-drop_last m c (t ∷ l))

-- Taking the current server out weighs, if it is in the pool.
pub weight-remove :
    (m : ℕ) (c : ℕ → ℕ) (p : Servers)
    → (weight m c (remove_current_server p).servers ≤ weight m c p.servers)
      × ((s : Server)
          → p.current ≡ some s
          → has s.id p.servers ≡ true
          → weight m c (remove_current_server p).servers < weight m c p.servers)
unfolding remove_current_server remove_server
weight-remove m c p =
    elim p.current
      as (λ o.
        (weight m c (remove_server o p).servers ≤ weight m c p.servers)
        × ((s : Server)
            → o ≡ some s
            → has s.id p.servers ≡ true
            → weight m c (remove_server o p).servers < weight m c p.servers)) [
              | none ↦ (omega arith, λ s e h. absurd (cc))
              | some t ↦ (
                ground (arith, weight-splice m c t.id p.servers, weight-drop_last m c p.servers),
                λ (s : Server). λ (e : some t ≡ some s). λ (h : has s.id p.servers ≡ true).
                    ground (
                      arith,
                      weight-splice m c t.id p.servers,
                      weight-drop_last m c p.servers,
                      e,
                      h,
                    ),
              )
            ]

-- One attempt more of a server weighs, if the server is in the pool and has attempts left.
pub weight-set :
    (m : ℕ) (c : ℕ → ℕ) (id : ℕ) (l : List Server)
    → (weight m (set id (suc (c id)) c) l ≤ weight m c l)
      × (has id l ≡ true → c id < m → weight m (set id (suc (c id)) c) l < weight m c l)
unfolding has
weight-set m c id [] = (omega arith, λ h. absurd (cc))
weight-set m c id (s ∷ l) = elim (Bool-cases (s.id == id)) [
  | inl same ↦ ground (arith, weight-set m c id l, same, ap c (to_eq s.id id same))
  | inr other ↦ ground (arith, weight-set m c id l, other)
]
  where
    to_eq : (a b : ℕ) → (a == b) ≡ true → a ≡ b
    to_eq a b e = ground (arith, e)

has_last : (t : Server) (l : List Server) → has t.id (l ++ t ∷ []) ≡ true
unfolding has
has_last t [] = ground arith
has_last t (x ∷ l) = ground (arith, has_last t l)

pub select-weight :
    (m : ℕ) (c : ℕ → ℕ) (p : Servers) (s : Server)
    → (select_server p).0 ≡ some s
    → ((select_server p).1.first_select ≡ false)
      × (weight m c (select_server p).1.servers ≤ weight m c p.servers)
      × (p.first_select ≡ false
          → ((select_server p).1.current ≡ some s) × (has s.id (select_server p).1.servers ≡ true))
unfolding select_server
select-weight m c p s e = go p.first_select refl p.servers refl e
  where
    go :
        (f : Bool)
        → p.first_select ≡ f
        → (l : List Server) → p.servers ≡ l
        → (select_server p).0 ≡ some s
        → ((select_server p).1.first_select ≡ false)
          × (weight m c (select_server p).1.servers ≤ weight m c p.servers)
          × (p.first_select ≡ false
              → ((select_server p).1.current ≡ some s)
                × (has s.id (select_server p).1.servers ≡ true))
    go true ef l el es = ground (arith, ef)
    go false ef [] el es = absurd (ground (arith, ef, el, es))
    go false ef (t ∷ l) el es =
        ground (arith, ef, el, es, weight-append m c l (t ∷ []), has_last t l)
