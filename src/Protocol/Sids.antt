-- ===== src/Protocol/Sids.antt =====
-- The sids of the subscriptions: each names one subscription, and none is given twice.
use nats_deno.Base.{
  ℕ, suc, ◌+◌, ◌≤◌, ◌<◌, ◌≡◌, refl, Option, none, some, List, [], ◌∷◌, ◌++◌, Bytes, length, ◌==◌,
  if◌then◌else◌, arith, Bool-cases, Option-cases, inl, inr,
}
use nats_deno.Protocol.{
  Sub, Protocol, find, delete, modify, add, resub_map, cancel, send_command, unsub, unsub_command,
  sub_command, nonzero, unsubscribe, subscribe, resub, accepts, deliver, process_msg,
}
use nats_deno.Protocol.Deliver.{unsub_lem, send_command-SameSubs}

-- The sids rise in the order of insertion, above `lo` and up to `hi`.
abbrev pub Within : ℕ → ℕ → List Sub → Type 0
Within lo hi [] = lo ≤ hi
Within lo hi (s ∷ subs) = (lo < s.sid) × Within s.sid hi subs

abbrev pub IsFresh : Protocol → Type 0
IsFresh p = Within 0 p.sid_counter p.subs

widen : (lo lower hi : ℕ) (subs : List Sub) → lower ≤ lo → Within lo hi subs → Within lower hi subs
widen lo lower hi [] h w = omega arith
widen lo lower hi (s ∷ subs) h (a, w) = (omega arith, w)

append-Within :
    (lo hi : ℕ) (subs : List Sub) (s : Sub)
    → Within lo hi subs
    → s.sid ≡ suc hi
    → Within lo (suc hi) (subs ++ s ∷ [])
append-Within lo hi [] s w e = (omega arith, omega arith)
append-Within lo hi (t ∷ subs) s (a, w) e = (a, append-Within t.sid hi subs s w e)

delete-Within :
    (lo hi sid : ℕ) (subs : List Sub) → Within lo hi subs → Within lo hi (delete sid subs)
unfolding delete
delete-Within lo hi sid [] w = w
delete-Within lo hi sid (s ∷ subs) (a, w) = elim (Bool-cases (s.sid == sid)) [
  | inl gone ↦ rw gone (delete-Within lo hi sid subs (widen s.sid lo hi subs (omega arith) w))
  | inr stays ↦ rw stays (a, delete-Within s.sid hi sid subs w)
]

modify-Within :
    (lo hi sid : ℕ) (f : Sub → Sub) (subs : List Sub)
    → ((s : Sub) → (f s).sid ≡ s.sid)
    → Within lo hi subs
    → Within lo hi (modify sid f subs)
unfolding modify
modify-Within lo hi sid f [] h w = w
modify-Within lo hi sid f (s ∷ subs) h (a, w) = elim (Bool-cases (s.sid == sid)) [
  | inl here ↦ rw (here, h s) (a, modify-Within s.sid hi sid f subs h w)
  | inr other ↦ rw other (a, modify-Within s.sid hi sid f subs h w)
]

send_command-IsFresh :
    (cmd : Bytes) (payloads : List Bytes) (p : Protocol)
    → IsFresh p
    → IsFresh (send_command cmd payloads p)
send_command-IsFresh cmd payloads p w =
    let same = send_command-SameSubs cmd payloads p in rw (same.subs, same.counter) w

cancel-IsFresh : (sid : ℕ) (p : Protocol) → IsFresh p → IsFresh (cancel sid p)
unfolding cancel
cancel-IsFresh sid p w = delete-Within 0 p.sid_counter sid p.subs w

-- `find` of a sid that is above all of them.
pub find-none :
    (lo hi k : ℕ) (subs : List Sub) → Within lo hi subs → hi < k → (lo ≤ hi) × (find k subs ≡ none)
unfolding find
find-none lo hi k [] w h = (w, refl)
find-none lo hi k (s ∷ subs) (a, w) h = ground (arith, find-none s.sid hi k subs w h)

module _ (show : ℕ → Bytes) where
  unsub-IsFresh :
      (sid : ℕ) (max : Option ℕ) (p : Protocol) → IsFresh p → IsFresh (unsub show sid max p)
  unfolding unsub
  unsub-IsFresh sid max p w =
      let q = send_command (unsub_command show sid max) [] p in
      let v =
        modify-Within 0 q.sid_counter sid (λ (s : Sub). record s { max = max }) q.subs (λ s. refl)
          (send_command-IsFresh (unsub_command show sid max) [] p w) in
      ground arith

  unsubscribe-IsFresh :
      (sid : ℕ) (max : Option ℕ) (p : Protocol) → IsFresh p → IsFresh (unsubscribe show sid max p)
  unfolding unsubscribe
  unsubscribe-IsFresh sid max p w =
      let q = unsub show sid max p in
      let v = unsub-IsFresh sid max p w in ground (arith, cancel-IsFresh sid q v)

  add-IsFresh : (s : Sub) (p : Protocol) → IsFresh p → IsFresh (add s p)
  unfolding add
  add-IsFresh s p w =
      append-Within 0 p.sid_counter p.subs (record s { sid = suc p.sid_counter }) w refl

  resub_map-IsFresh : (s : Sub) (p : Protocol) → IsFresh p → IsFresh (resub_map s p)
  unfolding resub_map
  resub_map-IsFresh s p w =
      append-Within 0 p.sid_counter (delete s.sid p.subs) (record s { sid = suc p.sid_counter })
        (delete-Within 0 p.sid_counter s.sid p.subs w) refl

  subscribe-IsFresh : (s : Sub) (p : Protocol) → IsFresh p → IsFresh (subscribe show s p)
  unfolding subscribe
  subscribe-IsFresh s p w =
      let sid = suc p.sid_counter in
      let cmd = sub_command show (record s { sid = sid }) in
      let q = send_command cmd [] (add s p) in
      let v = send_command-IsFresh cmd [] (add s p) (add-IsFresh s p w) in
      elim (Option-cases (nonzero s.max)) [
        | inl unlimited ↦ ground arith
        | inr (n, e) ↦ ground (arith, unsubscribe-IsFresh sid (some n) q v)
      ]

  resub-IsFresh :
      (sid : ℕ) (subject : Bytes) (p : Protocol) → IsFresh p → IsFresh (resub show sid subject p)
  unfolding resub
  resub-IsFresh sid subject p w =
      let q = unsub show sid none p in
      let v = unsub-IsFresh sid none p w in
      elim (Option-cases (find sid q.subs)) [
        | inl absent ↦ ground arith
        | inr (s, here) ↦ ground (
          arith,
          send_command-IsFresh
              (sub_command show (record s { subject = subject; sid = suc q.sid_counter })) []
              (resub_map (record s { subject = subject }) q)
              (resub_map-IsFresh (record s { subject = subject }) q v),
        )
      ]

  deliver-IsFresh :
      (s : Sub) (body : Bytes) (p : Protocol) → IsFresh p → IsFresh (deliver show s body p)
  unfolding deliver
  deliver-IsFresh s body p w =
      let q = record p {
        subs = modify s.sid (λ u. record u { received = u.received + 1 }) p.subs;
        log = if accepts s then p.log ++ (s.sid, body) ∷ [] else p.log;
      } in
      let v : IsFresh q =
        modify-Within 0 p.sid_counter s.sid (λ u. record u { received = u.received + 1 }) p.subs
          (λ u. refl) w in
      ground (arith, unsubscribe-IsFresh s.sid none q v)

  process_msg-IsFresh :
      (sid : ℕ) (body : Bytes) (p : Protocol) → IsFresh p → IsFresh (process_msg show sid body p)
  unfolding process_msg
  process_msg-IsFresh sid body p w = elim (Option-cases (find sid p.subs)) [
    | inl absent ↦ ground arith
    | inr (s, here) ↦
        let q = record p { in_msgs = p.in_msgs + 1; in_bytes = p.in_bytes + length body } in
        ground (arith, deliver-IsFresh s body q w)
  ]

  unsubscribe-counter :
      (sid : ℕ) (max : Option ℕ) (p : Protocol)
      → (unsubscribe show sid max p).sid_counter ≡ p.sid_counter
  unfolding unsubscribe cancel
  unsubscribe-counter sid max p = ground (arith, unsub_lem show sid sid max p)

  subscribe-counter :
      (s : Sub) (p : Protocol) → (subscribe show s p).sid_counter ≡ suc p.sid_counter
  unfolding subscribe add
  subscribe-counter s p =
      let cmd = sub_command show (record s { sid = suc p.sid_counter }) in
      let q = send_command cmd [] (add s p) in
      let same = send_command-SameSubs cmd [] (add s p) in
      elim (Option-cases (nonzero s.max)) [
        | inl unlimited ↦ ground arith
        | inr (n, e) ↦ ground (arith, unsubscribe-counter (suc p.sid_counter) (some n) q)
      ]

  resub-counter :
      (sid : ℕ) (subject : Bytes) (p : Protocol)
      → p.sid_counter ≤ (resub show sid subject p).sid_counter
  unfolding resub resub_map
  resub-counter sid subject p =
      let q = unsub show sid none p in
      elim (Option-cases (find sid q.subs)) [
        | inl absent ↦ ground (arith, unsub_lem show sid sid none p)
        | inr (s, here) ↦ ground (
          arith,
          unsub_lem show sid sid none p,
          send_command-SameSubs
              (sub_command show (record s { subject = subject; sid = suc q.sid_counter })) []
              (resub_map (record s { subject = subject }) q),
        )
      ]

  process_msg-counter :
      (sid : ℕ) (body : Bytes) (p : Protocol)
      → (process_msg show sid body p).sid_counter ≡ p.sid_counter
  unfolding process_msg deliver
  process_msg-counter sid body p = elim (Option-cases (find sid p.subs)) [
    | inl absent ↦ ground arith
    | inr (s, here) ↦
        let q = record p {
          in_msgs = p.in_msgs + 1;
          in_bytes = p.in_bytes + length body;
          subs = modify s.sid (λ u. record u { received = u.received + 1 }) p.subs;
          log = if accepts s then p.log ++ (s.sid, body) ∷ [] else p.log;
        } in
        ground (arith, unsubscribe-counter s.sid none q)
  ]

  -- What changes the subscriptions: the client's calls and the server's messages, in any order.
  pub data Step : Protocol → Protocol → Type 0 where
    subscribes : (s : Sub) {p : Protocol} → Step p (subscribe show s p)
    unsubscribes : (sid : ℕ) (max : Option ℕ) {p : Protocol} → Step p (unsubscribe show sid max p)
    resubscribes : (sid : ℕ) (subject : Bytes) {p : Protocol} → Step p (resub show sid subject p)
    receives : (sid : ℕ) (body : Bytes) {p : Protocol} → Step p (process_msg show sid body p)

  pub data Reach : Protocol → Protocol → Type 0 where
    here : {p : Protocol} → Reach p p
    more : {p r : Protocol} (q : Protocol) → Reach p q → Step q r → Reach p r

  Step-IsFresh :
      (p q : Protocol) → Step p q → IsFresh p → IsFresh q × (p.sid_counter ≤ q.sid_counter)
  Step-IsFresh p _ (subscribes s) w =
      (subscribe-IsFresh s p w, omega (arith, subscribe-counter s p))
  Step-IsFresh p _ (unsubscribes sid max) w =
      (unsubscribe-IsFresh sid max p w, omega (arith, unsubscribe-counter sid max p))
  Step-IsFresh p _ (resubscribes sid subject) w =
      (resub-IsFresh sid subject p w, resub-counter sid subject p)
  Step-IsFresh p _ (receives sid body) w =
      (process_msg-IsFresh sid body p w, omega (arith, process_msg-counter sid body p))

  -- However a client subscribes, unsubscribes and resubscribes while messages arrive: the sids in the
  -- map stay distinct and rising in the order of insertion, none is above the counter, and the counter
  -- never falls, if this was so at the start.
  pub Reach-IsFresh :
      (p q : Protocol) → Reach p q → IsFresh p → IsFresh q × (p.sid_counter ≤ q.sid_counter)
  Reach-IsFresh p _ here w = (w, omega arith)
  Reach-IsFresh p q (more r before last) w =
      let (v, low) = Reach-IsFresh p r before w in
      let (u, high) = Step-IsFresh r q last v in (u, omega (arith, low, high))
