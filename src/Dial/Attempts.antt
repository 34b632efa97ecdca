-- ===== src/Dial/Attempts.antt =====
-- What a dial that fails takes from the attempts that are left.
use nats_deno.Base.{
  ℕ, suc, ◌≤◌, ◌<◌, ◌≡◌, refl, ap, ◌∙◌, true, false, not, ◌&&◌, some, leb, if◌then◌else◌, arith,
  Bool-cases, inl, inr,
}
use nats_deno.Servers.{Server, Servers, has, remove_current_server}
use nats_deno.Dial.{Options, Dial, set, dial_failed}
use nats_deno.Dial.Weights.{weight, weight-remove, weight-set}

-- Either the client has connected before, or it does not wait for its first connection.
abbrev pub IsCounting : Options → Dial → Type 0
IsCounting o d = not d.connected_once && o.wait_on_first_connect ≡ false

abbrev pub left : ℕ → Dial → ℕ
left m d = weight m d.reconnects d.servers.servers

abbrev pub pool_of : Dial → Servers
pool_of d = if not d.connected_once then remove_current_server d.servers else d.servers

pool_of-weight :
    (m : ℕ) (d : Dial)
    → (weight m d.reconnects (pool_of d).servers ≤ left m d)
      × ((s : Server)
          → d.connected_once ≡ false
          → d.servers.current ≡ some s
          → has s.id d.servers.servers ≡ true
          → weight m d.reconnects (pool_of d).servers < left m d)
pool_of-weight m d =
    let (le, lt) = weight-remove m d.reconnects d.servers in
    (
      ground (arith, le),
      λ (s : Server). λ (f : d.connected_once ≡ false). λ (e : d.servers.current ≡ some s).
          λ (h : has s.id d.servers.servers ≡ true). ground (arith, f, lt s e h),
    )

failed_at :
    (o : Options) (m : ℕ) (srv : Server) (d : Dial)
    → o.max_reconnect_attempts ≡ some m
    → IsCounting o d
    → let c = set srv.id (suc (d.reconnects srv.id)) d.reconnects in
      left m (dial_failed o srv d)
      ≡ weight m c
          (if leb m (suc (d.reconnects srv.id))
            then remove_current_server (pool_of d)
            else pool_of d).servers
unfolding dial_failed
failed_at o m srv d e w = ground (arith, e, w)

pub dial_failed-left :
    (o : Options) (m : ℕ) (srv : Server) (d : Dial)
    → o.max_reconnect_attempts ≡ some m
    → IsCounting o d
    → (left m (dial_failed o srv d) ≤ left m d)
      × (d.servers.current ≡ some srv
          → has srv.id d.servers.servers ≡ true
          → left m (dial_failed o srv d) < left m d)
dial_failed-left o m srv d e w =
    let c = set srv.id (suc (d.reconnects srv.id)) d.reconnects in
    let eq = failed_at o m srv d e w in
    let (pool_le, pool_lt) = pool_of-weight m d in
    let (rem_le, rem_lt) = weight-remove m c (pool_of d) in
    let (set_le, set_lt) = weight-set m d.reconnects srv.id (pool_of d).servers in
    (
      ground (arith, eq, pool_le, rem_le, set_le),
      λ (cur : d.servers.current ≡ some srv). λ (h : has srv.id d.servers.servers ≡ true).
          elim (Bool-cases d.connected_once) [
            | inr never ↦ ground (arith, eq, pool_lt srv never cur h, rem_le, set_le)
            | inl once ↦
                let at = once_pool once in
                elim (Bool-cases (leb m (suc (d.reconnects srv.id)))) [
                  | inl spent ↦ ground (
                    arith,
                    eq,
                    spent,
                    pool_le,
                    set_le,
                    rem_lt srv (ap (λ (p : Servers). p.current) at ∙ cur)
                        (ap (λ (p : Servers). has srv.id p.servers) at ∙ h),
                  )
                  | inr more ↦ ground (
                    arith,
                    eq,
                    more,
                    pool_le,
                    set_lt (ap (λ (p : Servers). has srv.id p.servers) at ∙ h),
                  )
                ]
          ],
    )
  where
    once_pool : d.connected_once ≡ true → pool_of d ≡ d.servers
    once_pool t = rw t refl
