-- ===== src/Protocol/Subscribe.antt =====
-- What the calls of a client come to: the subscription that is in the map behind each, and the
-- commands that the server is given.
use mathlib.Core.List.{append-nil, append_assoc}
use nats_deno.Base.{
  ℕ, suc, ◌<◌, ◌≡◌, refl, ap, subst, ◌∙◌, Bool, false, Option, none, some, List, [], ◌∷◌, ◌++◌,
  Bytes, ◌==◌, if◌then◌else◌, arith, Bool-cases, inl, inr,
}
use nats_deno.DataBuffer.Laws.{IsValid}
use nats_deno.Protocol.{
  Sub, Protocol, find, delete, add, resub_map, cancel, flush_pending, send_command, unsub,
  unsub_command, sub_command, nonzero, is_spent, unsubscribe, subscribe, resub,
}
use nats_deno.Protocol.Outbound.{stream, Keeps, send_command_lem}
use nats_deno.Protocol.Deliver.{send_command-SameSubs, find-delete, find-sid, unsub_lem}
use nats_deno.Protocol.Sids.{IsFresh, find-none}
use nats_deno.Protocol.Lines.{
  sub_line, unsub_line, sub_command-sub_line, unsub_command-unsub_line, limit_of,
}

find-append :
    (k : ℕ) (subs : List Sub) (s : Sub)
    → find k (subs ++ s ∷ [])
      ≡ elim (find k subs) [ none ↦ (if s.sid == k then some s else none) | some t ↦ some t ]
unfolding find
find-append k [] s = ground arith
find-append k (t ∷ subs) s = ground (arith, find-append k subs s)

module _ (show : ℕ → Bytes) where
  unsub-Keeps :
      (sid : ℕ) (max : Option ℕ) (p : Protocol)
      → IsValid p.outbound
      → Keeps p (unsub show sid max p) (if p.closed then [] else unsub_command show sid max)
  unfolding unsub
  unsub-Keeps sid max p v =
      let sent = send_command_lem (unsub_command show sid max) [] p v in
      ground (arith, sent, append-nil (stream p), append-nil (unsub_command show sid max))

  unsub-closed_subs :
      (sid : ℕ) (max : Option ℕ) (p : Protocol) → (unsub show sid max p).closed_subs ≡ p.closed_subs
  unfolding unsub send_command flush_pending
  unsub-closed_subs sid max p = ground arith

  -- `unsubscribe` with a limit that is not reached yet, of a subscription that is in the map.
  limit_lem :
      (n k : ℕ) (s : Sub) (p : Protocol)
      → find s.sid p.subs ≡ some s
      → s.max ≡ some n
      → s.received < n
      → IsValid p.outbound
      → (find k (unsubscribe show s.sid (some n) p).subs ≡ find k p.subs)
        × Keeps p
            (unsubscribe show s.sid (some n) p)
            (if p.closed then [] else unsub_command show s.sid (some n))
  unfolding unsubscribe
  limit_lem n k s p e m h v = ground (
    arith,
    unsub_lem show s.sid k (some n) p,
    unsub_lem show s.sid s.sid (some n) p,
    unsub-Keeps s.sid (some n) p v,
  )

  -- `add`, and the command that tells the server.
  abbrev announced : Sub → Protocol → Protocol
  announced s p =
      send_command (sub_command show (record s { sid = suc p.sid_counter })) [] (add s p)

  announced-closed : (s : Sub) (p : Protocol) → (announced s p).closed ≡ p.closed
  unfolding add send_command flush_pending
  announced-closed s p = ground arith

  announced_lem :
      (k : ℕ) (s : Sub) (p : Protocol)
      → IsFresh p
      → IsValid p.outbound
      → (find (suc p.sid_counter) p.subs ≡ none)
        × (find k (announced s p).subs ≡ (
            if k == suc p.sid_counter
            then some (record s { sid = suc p.sid_counter })
            else find k p.subs))
        × ((announced s p).closed ≡ p.closed)
        × Keeps p (announced s p) (sub_command show (record s { sid = suc p.sid_counter }))
  unfolding add
  announced_lem k s p w v =
      let t = record s { sid = suc p.sid_counter } in
      let cmd = sub_command show t in
      let fresh = (find-none 0 p.sid_counter (suc p.sid_counter) p.subs w (omega arith)).1 in
      ground (
        arith,
        fresh,
        find-append k p.subs t,
        send_command-SameSubs cmd [] (add s p),
        send_command_lem cmd [] (add s p) v,
        append-nil cmd,
        announced-closed s p,
      )

  abbrev limit_command : ℕ → Option ℕ → Bool → Bytes
  limit_command sid none closed = []
  limit_command sid (some n) closed = if closed then [] else unsub_command show sid (some n)

  subscribe_commands :
      (k : ℕ) (s : Sub) (p : Protocol)
      → s.received ≡ 0
      → IsFresh p
      → IsValid p.outbound
      → (find (suc p.sid_counter) p.subs ≡ none)
        × (find k (subscribe show s p).subs ≡ (
            if k == suc p.sid_counter
            then some (record s { sid = suc p.sid_counter })
            else find k p.subs))
        × Keeps p (subscribe show s p) (
            sub_command show (record s { sid = suc p.sid_counter })
            ++ limit_command (suc p.sid_counter) (nonzero s.max) p.closed)
  unfolding subscribe
  subscribe_commands k s p r w v = go s.max refl
    where
      sid : ℕ
      sid = suc p.sid_counter

      cmd : Bytes
      cmd = sub_command show (record s { sid = suc p.sid_counter })

      go :
          (m : Option ℕ)
          → s.max ≡ m
          → (find (suc p.sid_counter) p.subs ≡ none)
            × (find k (subscribe show s p).subs ≡ (
                if k == suc p.sid_counter
                then some (record s { sid = suc p.sid_counter })
                else find k p.subs))
            × Keeps p (subscribe show s p) (
                sub_command show (record s { sid = suc p.sid_counter })
                ++ limit_command (suc p.sid_counter) (nonzero s.max) p.closed)
      go none e = ground (arith, announced_lem k s p w v, append-nil cmd)
      go (some n) e = elim (Bool-cases (n == 0)) [
        | inl nothing ↦ ground (arith, announced_lem k s p w v, append-nil cmd)
        | inr positive ↦
            let q = announced s p in
            let end' = limit_command sid (nonzero s.max) p.closed in
            let (absent, there, closed, (sent, valid)) = announced_lem sid s p w v in
            ground (
              arith,
              announced_lem k s p w v,
              limit_lem n k (record s { sid = suc p.sid_counter }) q (ground arith) e (ground arith)
                  valid,
              append_assoc (stream p) cmd end',
            )
      ]

  -- The limit that goes to the server behind the subscription: none and 0 do not.
  abbrev pub limit_line : ℕ → Option ℕ → Bool → Bytes
  limit_line sid max closed = elim (limit_of show max) [
    | none ↦ []
    | some n ↦ if closed then [] else unsub_line (show sid) (some n)
  ]

  limit_command-limit_line :
      (sid : ℕ) (max : Option ℕ) (closed : Bool)
      → limit_command sid (nonzero max) closed ≡ limit_line sid max closed
  limit_command-limit_line sid none closed = refl
  limit_command-limit_line sid (some n) closed = elim (Bool-cases (n == 0)) [
    | inl zero ↦ ground (arith, zero)
    | inr positive ↦ ground (arith, positive, unsub_command-unsub_line show sid (some n))
  ]

  -- `subscribe` of a subscription that has had no messages, where the sids are fresh and the
  -- outbound queue is valid, gives it a sid that no other has, puts it into the map as it is
  -- given, keeps all others, and tells the server of it and, unless the handler is closed, of its
  -- limit. A limit of 0 counts as none.
  pub subscribe_lem :
      (k : ℕ) (s : Sub) (p : Protocol)
      → s.received ≡ 0
      → IsFresh p
      → IsValid p.outbound
      → (find (suc p.sid_counter) p.subs ≡ none)
        × (find k (subscribe show s p).subs ≡ (
            if k == suc p.sid_counter
            then some (record s { sid = suc p.sid_counter })
            else find k p.subs))
        × Keeps p (subscribe show s p) (
            sub_line s.subject s.queue (show (suc p.sid_counter))
            ++ limit_line (suc p.sid_counter) s.max p.closed)
  subscribe_lem k s p r w v =
      let (fresh, there, kept) = subscribe_commands k s p r w v in
      let cmd = sub_command show (record s { sid = suc p.sid_counter }) in
      (
        fresh,
        there,
        subst (λ (x : Bytes). Keeps p (subscribe show s p) x)
            (ap (λ (x : Bytes). cmd ++ x)
                (limit_command-limit_line (suc p.sid_counter) s.max p.closed)
              ∙ ap (λ (x : Bytes). x ++ limit_line (suc p.sid_counter) s.max p.closed)
                  (sub_command-sub_line show (record s { sid = suc p.sid_counter })))
            kept,
      )

  abbrev pub left_by : Bool → Option ℕ → Sub → Option Sub
  left_by closed max s =
      let t = if closed then s else record s { max = max } in if is_spent t then none else some t

  unsubscribe_commands :
      (sid k : ℕ) (max : Option ℕ) (s : Sub) (p : Protocol)
      → find sid p.subs ≡ some s
      → IsValid p.outbound
      → (find k (unsubscribe show sid max p).subs
          ≡ (if k == sid then left_by p.closed max s else find k p.subs))
        × ((unsubscribe show sid max p).closed_subs ≡ elim (left_by p.closed max s) [
          | none ↦ p.closed_subs ++ sid ∷ []
          | some _ ↦ p.closed_subs
        ])
        × Keeps p (unsubscribe show sid max p) (if p.closed then [] else unsub_command show sid max)
  unfolding unsubscribe cancel
  unsubscribe_commands sid k max s p e v =
      let q = unsub show sid max p in
      ground (
        arith,
        unsub_lem show sid k max p,
        unsub_lem show sid sid max p,
        unsub-Keeps sid max p v,
        unsub-closed_subs sid max p,
        find-delete k sid q.subs,
      )

  -- `unsubscribe` of a subscription in the map, on a valid outbound queue, tells the server, and
  -- then takes the subscription out of the map and closes it if it has no limit left to wait for,
  -- and keeps it with the new limit otherwise. On a closed handler nothing is sent and the old
  -- limit decides.
  pub unsubscribe_lem :
      (sid k : ℕ) (max : Option ℕ) (s : Sub) (p : Protocol)
      → find sid p.subs ≡ some s
      → IsValid p.outbound
      → (find k (unsubscribe show sid max p).subs
          ≡ (if k == sid then left_by p.closed max s else find k p.subs))
        × ((unsubscribe show sid max p).closed_subs ≡ elim (left_by p.closed max s) [
          | none ↦ p.closed_subs ++ sid ∷ []
          | some _ ↦ p.closed_subs
        ])
        × Keeps p
            (unsubscribe show sid max p)
            (if p.closed then [] else unsub_line (show sid) (limit_of show max))
  unsubscribe_lem sid k max s p e v =
      let (there, ended, kept) = unsubscribe_commands sid k max s p e v in
      (
        there,
        ended,
        subst (λ (x : Bytes). Keeps p (unsubscribe show sid max p) (if p.closed then [] else x))
            (unsub_command-unsub_line show sid max) kept,
      )

  -- `resub` of a subscription in the map of an open handler, where the sids are fresh and the
  -- outbound queue is valid: the server is told that the old sid ends and that a new one begins
  -- for the new subject; the map has the subscription at the new sid, which no other has, without
  -- its limit, and no longer at the old one.
  pub resub_lem :
      (sid k : ℕ) (subject : Bytes) (s : Sub) (p : Protocol)
      → find sid p.subs ≡ some s
      → p.closed ≡ false
      → IsFresh p
      → IsValid p.outbound
      → (find (suc p.sid_counter) p.subs ≡ none)
        × (find k (resub show sid subject p).subs ≡ (
            if k == suc p.sid_counter
            then some (record s { subject = subject; sid = suc p.sid_counter; max = none })
            else if k == sid
            then none
            else find k p.subs))
        × Keeps p (resub show sid subject p) (
            unsub_command show sid none
            ++ sub_command show (record s { subject = subject; sid = suc p.sid_counter }))
  unfolding resub resub_map
  resub_lem sid k subject s p e c w v =
      let q = unsub show sid none p in
      let t = record s { subject = subject; max = none } in
      let u = record t { sid = suc p.sid_counter } in
      let cmd = sub_command show u in
      let fresh = (find-none 0 p.sid_counter (suc p.sid_counter) p.subs w (omega arith)).1 in
      let moved = resub_map t q in
      let (_, valid) = unsub-Keeps sid none p v in
      ground (
        arith,
        fresh,
        find-sid sid p.subs s e,
        unsub_lem show sid k none p,
        unsub_lem show sid sid none p,
        unsub_lem show sid (suc p.sid_counter) none p,
        unsub-Keeps sid none p v,
        find-append k (delete t.sid q.subs) u,
        find-delete k t.sid q.subs,
        send_command-SameSubs cmd [] moved,
        send_command_lem cmd [] moved valid,
        append-nil cmd,
        append_assoc (stream p) (unsub_command show sid none) cmd,
      )
