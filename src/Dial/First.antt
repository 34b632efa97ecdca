-- ===== src/Dial/First.antt =====
-- The first dial of a client that fails.
use nats_deno.Base.{
  ℕ, ◌≡◌, refl, ap, ◌∙◌, true, false, some, List, [], ◌∷◌, ◌++◌, leb, if◌then◌else◌, arith,
}
use nats_deno.Servers.{
  Server, Servers, select_server, has, splice, drop_last, remove_server, remove_current_server,
}
use nats_deno.Dial.{Options, Dial, Turn, failed, do_dial, hear, dial_failed, attempt, turn}
use nats_deno.Dial.Gossip.{hear-Grows}

drop_last-append : (xs : List Server) (t : Server) → drop_last (xs ++ t ∷ []) ≡ xs
unfolding drop_last
drop_last-append [] t = refl
drop_last-append (x ∷ []) t = refl
drop_last-append (x ∷ y ∷ xs) t = ap (◌∷◌ x) (drop_last-append (y ∷ xs) t)

-- The current server stands first, and nowhere else: it goes, and if it is taken away again, the last
-- one goes.
remove_first :
    (p : Servers) (s : Server) (l : List Server)
    → p.current ≡ some s
    → p.servers ≡ s ∷ l
    → (remove_current_server p).servers ≡ l
unfolding remove_current_server remove_server splice has
remove_first p s l c e = ground (arith, c, e)

remove_again :
    (p : Servers) (s t : Server) (xs : List Server)
    → p.current ≡ some s
    → p.servers ≡ s ∷ (xs ++ t ∷ [])
    → has s.id (xs ++ t ∷ []) ≡ false
    → (remove_current_server (remove_current_server p)).servers ≡ xs
unfolding remove_current_server remove_server splice
remove_again p s t xs c e h = ground (arith, c, e, h, drop_last-append xs t, first_has)
  where
    first_has : has s.id (s ∷ (xs ++ t ∷ [])) ≡ true
    first_has = unfold has in ground arith

-- On a client's first connection that does not wait, where the first server has not been dialed before and
-- the dial fails: of the pool, as the `INFO`s of the dial have left it, the first server goes, and if no
-- more than one attempt is allowed, the last one, that was never tried, goes too.
pub first_failure :
    (o : Options) (m : ℕ) (t : Turn) (d : Dial) (s u : Server) (xs : List Server)
    → o.max_reconnect_attempts ≡ some m
    → o.wait_on_first_connect ≡ false
    → t.closed ≡ false
    → t.abort_reconnect ≡ false
    → do_dial t.dials ≡ false
    → d.connected_once ≡ false
    → d.servers.first_select ≡ true
    → d.servers.current ≡ some s
    → (hear o t.infos (record d.servers { first_select = false })).servers ≡ s ∷ (xs ++ u ∷ [])
    → has s.id (xs ++ u ∷ []) ≡ false
    → d.reconnects s.id ≡ 0
    → d.last_connect s.id ≡ 0
    → ((turn o t d).0 ≡ failed)
      × ((turn o t d).1.servers.servers ≡ (if leb m 1 then xs else xs ++ u ∷ []))
unfolding turn attempt dial_failed select_server
first_failure o m t d s u xs em ew ec ea ed eo ef cur es h er el =
    let p = record d.servers { first_select = false } in
    let q = hear o t.infos p in
    let (same, _, _, _, _, _) = hear-Grows m d.reconnects o t.infos p in
    ground (
      arith,
      em,
      ew,
      ec,
      ea,
      ed,
      eo,
      ef,
      cur,
      es,
      er,
      el,
      remove_first q s (xs ++ u ∷ []) (same ∙ cur) es,
      remove_again q s u xs (same ∙ cur) es h,
    )
