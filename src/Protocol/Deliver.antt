-- ===== src/Protocol/Deliver.antt =====
-- What a subscription is handed: `processMsg` and the automatic unsubscription behind `max` messages.
use mathlib.Core.List.{append-nil, append_assoc}
use nats_deno.Base.{
  ℕ, zero, suc, ◌+◌, ◌-◌, ◌<◌, ◌≡◌, ◌≢◌, refl, sym, subst, ◌∙◌, inl, inr, true, not, ◌&&◌, ◌||◌,
  Option, none, some, List, [], ◌∷◌, ◌++◌, Bytes, length, take, leb, ◌==◌, if◌then◌else◌, arith,
  Bool-cases, Option-cases,
}
use nats_deno.Protocol.{
  Sub, Protocol, find, delete, modify, cancel, send_command, flush_pending, unsub, unsub_command,
  unsubscribe, over, accepts, deliver, process_msg,
}

pub find-delete :
    (k sid : ℕ) (subs : List Sub)
    → find k (delete sid subs) ≡ (if k == sid then none else find k subs)
unfolding find delete
find-delete k sid [] = ground arith
find-delete k sid (s ∷ subs) = ground (arith, find-delete k sid subs)

find-modify :
    (k sid : ℕ) (f : Sub → Sub) (subs : List Sub)
    → ((s : Sub) → (f s).sid ≡ s.sid)
    → find k (modify sid f subs)
      ≡ (if k == sid then elim (find k subs) [ none ↦ none | some s ↦ some (f s) ] else find k subs)
unfolding find modify
find-modify k sid f [] h = ground arith
find-modify k sid f (s ∷ subs) h = ground (arith, h s, find-modify k sid f subs h)

-- Sending a command changes neither the subscriptions nor what they were handed.
pub record SameSubs (p q : Protocol) : Type 0 where
  pub subs : q.subs ≡ p.subs
  pub log : q.log ≡ p.log
  pub counter : q.sid_counter ≡ p.sid_counter

pub flush_pending-SameSubs : (p : Protocol) → SameSubs p (flush_pending p)
unfolding flush_pending
flush_pending-SameSubs p = ground arith

pub send_command-SameSubs :
    (cmd : Bytes) (payloads : List Bytes) (p : Protocol) → SameSubs p (send_command cmd payloads p)
unfolding send_command
send_command-SameSubs cmd payloads p = ground arith

abbrev pub log_of : ℕ → List (ℕ × Bytes) → List Bytes
log_of k [] = []
log_of k ((sid, body) ∷ l) = if sid == k then body ∷ log_of k l else log_of k l

log_of-append : (k : ℕ) (l m : List (ℕ × Bytes)) → log_of k (l ++ m) ≡ log_of k l ++ log_of k m
log_of-append k [] m = refl
log_of-append k ((sid, body) ∷ l) m = ground (arith, log_of-append k l m)

module _ (show : ℕ → Bytes) where
  pub unsub_lem :
      (sid k : ℕ) (max : Option ℕ) (p : Protocol)
      → (find k (unsub show sid max p).subs ≡ (
          if k == sid && not p.closed
          then elim (find k p.subs) [ none ↦ none | some s ↦ some (record s { max = max }) ]
          else find k p.subs))
        × ((unsub show sid max p).log ≡ p.log)
        × ((unsub show sid max p).sid_counter ≡ p.sid_counter)
  unfolding unsub
  unsub_lem sid k max p =
      let q = send_command (unsub_command show sid max) [] p in
      ground (
        arith,
        send_command-SameSubs (unsub_command show sid max) [] p,
        find-modify k sid (λ (s : Sub). record s { max = max }) q.subs (λ s. refl),
      )

  -- A subscription that has had its messages is removed, and no other is touched.
  unsubscribe-over :
      (k j : ℕ) (s : Sub) (p : Protocol)
      → find k p.subs ≡ some s
      → over s ≡ true
      → (find j (unsubscribe show k none p).subs ≡ (if j == k then none else find j p.subs))
        × ((unsubscribe show k none p).log ≡ p.log)
        × ((unsubscribe show k none p).sid_counter ≡ p.sid_counter)
  unfolding unsubscribe cancel
  unsubscribe-over k j s p e o =
      let q = unsub show k none p in
      ground (arith, unsub_lem k k none p, unsub_lem k j none p, find-delete j k q.subs)

  -- One message for `sid`, and what it changes for `k`.
  deliver_other :
      (k : ℕ) (s : Sub) (body : Bytes) (p : Protocol)
      → k ≢ s.sid
      → find s.sid p.subs ≡ some s
      → (find k (deliver show s body p).subs ≡ find k p.subs)
        × (log_of k (deliver show s body p).log ≡ log_of k p.log)
        × ((deliver show s body p).sid_counter ≡ p.sid_counter)
  unfolding deliver
  deliver_other k s body p ne e =
      let q = record p {
        subs = modify s.sid (λ u. record u { received = u.received + 1 }) p.subs;
        log = if accepts s then p.log ++ (s.sid, body) ∷ [] else p.log;
      } in
      ground (
        arith,
        log_of-append k p.log ((s.sid, body) ∷ []),
        append-nil (log_of k p.log),
        find-modify k s.sid (λ (u : Sub). record u { received = u.received + 1 }) p.subs
            (λ u. refl),
        find-modify s.sid s.sid (λ (u : Sub). record u { received = u.received + 1 }) p.subs
            (λ u. refl),
        unsubscribe-over s.sid k (record s { received = s.received + 1 }) q,
      )

  deliver_self :
      (s : Sub) (body : Bytes) (p : Protocol)
      → find s.sid p.subs ≡ some s
      → accepts s ≡ true
      → (find s.sid (deliver show s body p).subs ≡ (
          if over (record s { received = s.received + 1 })
          then none
          else some (record s { received = s.received + 1 })))
        × (log_of s.sid (deliver show s body p).log ≡ log_of s.sid p.log ++ body ∷ [])
        × ((deliver show s body p).sid_counter ≡ p.sid_counter)
  unfolding deliver
  deliver_self s body p e a =
      let q = record p {
        subs = modify s.sid (λ u. record u { received = u.received + 1 }) p.subs;
        log = p.log ++ (s.sid, body) ∷ [];
      } in
      ground (
        arith,
        log_of-append s.sid p.log ((s.sid, body) ∷ []),
        find-modify s.sid s.sid (λ (u : Sub). record u { received = u.received + 1 }) p.subs
            (λ u. refl),
        unsubscribe-over s.sid s.sid (record s { received = s.received + 1 }) q,
      )

pub find-sid : (k : ℕ) (subs : List Sub) (s : Sub) → find k subs ≡ some s → s.sid ≡ k
unfolding find
find-sid k [] s e = cc
find-sid k (x ∷ subs) s e = ground (arith, find-sid k subs s)

-- How many messages more a subscription takes: none for no limit.
abbrev pub room : Option Sub → Option ℕ
room none = some 0
room (some s) = elim s.max [ none ↦ none | some m ↦ some (m - s.received) ]

abbrev pub take_room : Option ℕ → List Bytes → List Bytes
take_room none bodies = bodies
take_room (some n) bodies = take n bodies

pub take_room-nil : (r : Option ℕ) → take_room r [] ≡ []
take_room-nil none = refl
take_room-nil (some zero) = refl
take_room-nil (some (suc n)) = refl

-- A subscription that is in the map is open, and has had fewer messages than its limit.
abbrev pub IsOpen : Option Sub → Type 0
IsOpen none = Unit
IsOpen (some s) =
    ((s.no_iterator || not s.finished) ≡ true)
    × elim s.max [ none ↦ Unit {0} | some m ↦ s.received < m ]

-- `processMsg` for each message in turn.
unfoldable pub process_all : (ℕ → Bytes) → List (ℕ × Bytes) → Protocol → Protocol
process_all show [] p = p
process_all show ((sid, body) ∷ msgs) p = process_all show msgs (process_msg show sid body p)

module _ (show : ℕ → Bytes) where
  pub process_msg_other :
      (k sid : ℕ) (body : Bytes) (p : Protocol)
      → k ≢ sid
      → (find k (process_msg show sid body p).subs ≡ find k p.subs)
        × (log_of k (process_msg show sid body p).log ≡ log_of k p.log)
        × ((process_msg show sid body p).sid_counter ≡ p.sid_counter)
  unfolding process_msg
  process_msg_other k sid body p ne = elim (Option-cases (find sid p.subs)) [
    | inl absent ↦ ground arith
    | inr (s, here) ↦
        let q = record p { in_msgs = p.in_msgs + 1; in_bytes = p.in_bytes + length body } in
        ground (arith, deliver_other show k s body q, find-sid sid p.subs s here)
  ]

  process_msg_found :
      (s : Sub) (body : Bytes) (p : Protocol)
      → p.sid_counter ≢ 0
      → find s.sid p.subs ≡ some s
      → process_msg show s.sid body p
        ≡ deliver show s body
            (record p { in_msgs = p.in_msgs + 1; in_bytes = p.in_bytes + length body })
  unfolding process_msg
  process_msg_found s body p c e = ground arith

  process_msg_absent :
      (k : ℕ) (body : Bytes) (p : Protocol)
      → find k p.subs ≡ none
      → process_msg show k body p
        ≡ record p { in_msgs = p.in_msgs + 1; in_bytes = p.in_bytes + length body }
  unfolding process_msg
  process_msg_absent k body p e = ground arith

  -- A message for `k`: what is still to come is moved into the log.
  abbrev pub Steps : ℕ → Bytes → Protocol → Protocol → Type 0
  Steps k body p q =
      IsOpen (find k q.subs)
      × (q.sid_counter ≡ p.sid_counter)
      × ((rest : List Bytes)
          → log_of k q.log ++ take_room (room (find k q.subs)) rest
            ≡ log_of k p.log ++ take_room (room (find k p.subs)) (body ∷ rest))

  take_pos :
      (n : ℕ) (b : Bytes) (rest : List Bytes) → 0 < n → take n (b ∷ rest) ≡ b ∷ take (n - 1) rest
  take_pos zero b rest h = absurd (omega arith)
  take_pos (suc n) b rest h = rw (the_pred n)
    where
      the_pred : (m : ℕ) → suc m - 1 ≡ m
      the_pred m = omega arith

  deliver-Steps :
      (s : Sub) (body : Bytes) (p q : Protocol)
      → IsOpen (some s)
      → find s.sid p.subs ≡ some s
      → find s.sid q.subs ≡ (
          if over (record s { received = s.received + 1 })
          then none
          else some (record s { received = s.received + 1 }))
      → log_of s.sid q.log ≡ log_of s.sid p.log ++ body ∷ []
      → q.sid_counter ≡ p.sid_counter
      → Steps s.sid body p q
  deliver-Steps s body p q o e f g h = go s.max refl
    where
      go : (m : Option ℕ) → s.max ≡ m → Steps s.sid body p q
      go none unlimited = (
        ground arith,
        h,
        λ rest. ground (arith, append_assoc (log_of s.sid p.log) (body ∷ []) rest),
      )
      go (some m) set = elim (Bool-cases (leb m (s.received + 1))) [
        | inl last ↦ (
          ground arith,
          h,
          λ rest.
              let one : m - s.received ≡ 1 = ground arith in
              ground (
                arith,
                append_assoc (log_of s.sid p.log) (body ∷ []) [],
                append-nil (log_of s.sid p.log ++ body ∷ []),
              ),
        )
        | inr more ↦ (
          ground arith,
          h,
          λ rest.
              let fewer : (m - s.received) - 1 ≡ m - (s.received + 1) = omega arith in
              ground (
                arith,
                append_assoc (log_of s.sid p.log) (body ∷ []) (take (m - (s.received + 1)) rest),
                take_pos (m - s.received) body rest,
              ),
        )
      ]

  pub process_msg-Steps :
      (k : ℕ) (body : Bytes) (p : Protocol)
      → p.sid_counter ≢ 0
      → IsOpen (find k p.subs)
      → Steps k body p (process_msg show k body p)
  process_msg-Steps k body p c o = elim (Option-cases (find k p.subs)) [
    | inl absent ↦ rw (process_msg_absent k body p absent) (o, refl, λ rest. rw absent)
    | inr (s, here) ↦
        let same : s.sid ≡ k = find-sid k p.subs s here in
        let q = record p { in_msgs = p.in_msgs + 1; in_bytes = p.in_bytes + length body } in
        let there : find s.sid p.subs ≡ some s =
          subst (λ x. find x p.subs ≡ some s) (sym same) here in
        let (f, g, h) = deliver_self show s body q there (rw here at o).0 in
        rw (← same, process_msg_found s body p c there)
          (deliver-Steps s body p (deliver show s body q) (rw here at o) there f g h)
  ]

  -- Once a sid has been given, a subscription in the map that takes messages and is below its
  -- limit is handed the next messages of its sid, in order: all of them if it has no limit, and
  -- otherwise exactly as many as its `max` leaves. Where no subscription has the sid, none of its
  -- messages is handed on. Messages for other sids change nothing of this.
  pub process_all_lem :
      (k : ℕ) (msgs : List (ℕ × Bytes)) (p : Protocol)
      → p.sid_counter ≢ 0
      → IsOpen (find k p.subs)
      → log_of k (process_all show msgs p).log
        ≡ log_of k p.log ++ take_room (room (find k p.subs)) (log_of k msgs)
  unfolding process_all
  process_all_lem k [] p c o = rw (take_room-nil (room (find k p.subs))) (sym (append-nil _))
  process_all_lem k ((sid, body) ∷ msgs) p c o = elim (Bool-cases (sid == k)) [
    | inl same ↦
        let e : sid ≡ k = ground arith in
        let (open', counter, moved) = process_msg-Steps k body p c o in
        rw (same, e)
          (process_all_lem k msgs (process_msg show k body p) (λ z. c (sym counter ∙ z)) open'
            ∙ moved (log_of k msgs))
    | inr other ↦
        let (kept, log, counter) = process_msg_other k sid body p (λ e. ground arith) in
        rw other (
          process_all_lem k msgs (process_msg show sid body p) (λ z. c (sym counter ∙ z))
            (rw kept o)
          ∙ rw (kept, log))
  ]
