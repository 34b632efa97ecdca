-- ===== src/Protocol.antt =====
-- nats-base-client/protocol.ts: `Subscriptions`, and the parts of `ProtocolHandler` that handle
-- messages, subscriptions, publishing and the outbound buffer. The map of subscriptions is the list
-- of its values in the order of insertion; a subscription is named by its sid, which `add` and
-- `resub` never give twice. `log` collects what the callbacks and iterators are handed. Numbers are
-- written by `show`, the runtime's conversion of a number to a string.
pub mod Lines
pub mod Outbound
pub mod Deliver
pub mod Sids
pub mod Subscribe
mod Tests
use nats_deno.Base.{
  ℕ, suc, ◌+◌, Bool, true, false, not, ◌&&◌, ◌||◌, Option, none, some, List, [], ◌∷◌, ◌++◌, Bytes,
  codes, length, leb, ltb, ◌==◌, if◌then◌else◌,
}
use nats_deno.DataBuffer.{DataBuffer, fill, drain}

-- `SubscriptionImpl`, as far as the handler reads it; `finished` is `done` of the iterator.
pub record Sub : Type 0 where
  pub sid : ℕ
  pub subject : Bytes
  pub queue : Option Bytes
  pub request_subject : Option Bytes
  pub max : Option ℕ
  pub received : ℕ
  pub no_iterator : Bool
  pub finished : Bool

pub record Info : Type 0 where
  pub max_payload : ℕ
  pub headers : Bool

pub record Protocol : Type 0 where
  pub subs : List Sub
  pub sid_counter : ℕ
  pub closed : Bool
  pub connected : Bool
  pub info_received : Bool
  pub info : Option Info
  pub pending_limit : ℕ
  pub outbound : DataBuffer
  pub sent : Bytes
  pub flush_queued : Bool
  pub in_msgs : ℕ
  pub in_bytes : ℕ
  pub out_msgs : ℕ
  pub out_bytes : ℕ
  pub log : List (ℕ × Bytes)
  pub closed_subs : List ℕ

-- `subs.get(sid)`, `subs.delete(sid)` and `subs.set(sid, s)` of a sid that is not there.
unfoldable pub find : ℕ → List Sub → Option Sub
find sid [] = none
find sid (s ∷ subs) = if s.sid == sid then some s else find sid subs

unfoldable pub delete : ℕ → List Sub → List Sub
delete sid [] = []
delete sid (s ∷ subs) = if s.sid == sid then delete sid subs else s ∷ delete sid subs

-- An assignment to a field of the subscription with this sid.
unfoldable pub modify : ℕ → (Sub → Sub) → List Sub → List Sub
modify sid f [] = []
modify sid f (s ∷ subs) = if s.sid == sid then f s ∷ modify sid f subs else s ∷ modify sid f subs

-- `Subscriptions.add`
unfoldable pub add : Sub → Protocol → Protocol
add s p = record p {
  sid_counter = suc p.sid_counter;
  subs = p.subs ++ (record s { sid = suc p.sid_counter } ∷ []);
}

-- `Subscriptions.resub`
unfoldable pub resub_map : Sub → Protocol → Protocol
resub_map s p = record p {
  sid_counter = suc p.sid_counter;
  subs = delete s.sid p.subs ++ (record s { sid = suc p.sid_counter } ∷ []);
}

-- `Subscriptions.cancel`: `close` of the subscription, and its removal.
unfoldable pub cancel : ℕ → Protocol → Protocol
cancel sid p = record p { subs = delete sid p.subs; closed_subs = p.closed_subs ++ sid ∷ [] }

-- `flushPending`
unfoldable pub flush_pending : Protocol → Protocol
flush_pending p =
    if not p.info_received || not p.connected
    then p
    else if p.outbound.byte_length == 0
    then p
    else (let (d, rest) = drain none p.outbound in record p { outbound = rest; sent = p.sent ++ d })

-- `sendCommand`; a queued microtask is a flag, and runs as `run_microtask`.
unfoldable pub send_command : Bytes → List Bytes → Protocol → Protocol
unfolding flush_pending
send_command cmd payloads p =
    let len = length p.outbound.buffers in
    let q = record p { outbound = fill cmd payloads p.outbound } in
    if len == 0
    then record q { flush_queued = true }
    else if leb q.pending_limit q.outbound.byte_length
    then flush_pending q
    else q

unfoldable pub run_microtask : Protocol → Protocol
unfolding flush_pending
run_microtask p = flush_pending (record p { flush_queued = false })

abbrev pub crlf : Bytes
crlf = b'\r' ∷ b'\n' ∷ []

abbrev pub spaced : List Bytes → Bytes
spaced [] = []
spaced (w ∷ []) = w
spaced (w ∷ v ∷ ws) = w ++ b' ' ∷ spaced (v ∷ ws)

-- An empty text and a number 0 count as missing in a JavaScript test.
abbrev pub present : Option Bytes → Bool
present none = false
present (some []) = false
present (some (_ ∷ _)) = true

abbrev pub word : Option Bytes → List Bytes
word none = []
word (some []) = []
word (some (b ∷ bs)) = (b ∷ bs) ∷ []

abbrev pub nonzero : Option ℕ → Option ℕ
nonzero none = none
nonzero (some n) = if n == 0 then none else some n

-- `publish`: the errors that it throws.
pub data Refusal : Type 0 where
  bad_payload server_option_not_available max_payload_exceeded : Refusal

-- The payload that `publish` is given: none, bytes, a text by its encoding, or something else.
pub data Payload : Type 0 where
  missing other : Payload
  array text : Bytes → Payload

-- `data` of `publish`
abbrev pub payload_bytes : Payload → Option Bytes
payload_bytes missing = some []
payload_bytes (array body) = some body
payload_bytes (text body) = some body
payload_bytes other = none

pub data Published : Type 0 where
  done : Protocol → Published
  refused : Refusal → Published

-- `s.max === undefined || s.received >= s.max`
abbrev pub is_spent : Sub → Bool
is_spent s = elim s.max [ none ↦ true | some m ↦ leb m s.received ]

-- What `sub.callback` does with a message: the iterator's `push` drops it once it is done.
abbrev pub accepts : Sub → Bool
accepts s = s.no_iterator || not s.finished

abbrev pub over : Sub → Bool
over s = elim s.max [ none ↦ false | some m ↦ leb m s.received ]

abbrev pub header_bytes : Option Bytes → Bytes
header_bytes none = []
header_bytes (some headers) = headers

module _ (show : ℕ → Bytes) where
  -- `_sub`
  abbrev pub sub_command : Sub → Bytes
  sub_command s = spaced (codes "SUB" ∷ s.subject ∷ word s.queue ++ show s.sid ∷ []) ++ crlf

  abbrev pub unsub_command : ℕ → Option ℕ → Bytes
  unsub_command sid max =
      spaced (codes "UNSUB" ∷ show sid ∷ elim (nonzero max) [ none ↦ [] | some n ↦ show n ∷ [] ])
      ++ crlf

  -- `unsub`
  unfoldable pub unsub : ℕ → Option ℕ → Protocol → Protocol
  unsub sid max p =
      if p.closed
      then p
      else (let q = send_command (unsub_command sid max) [] p in
          record q { subs = modify sid (λ s. record s { max = max }) q.subs })

  -- `unsubscribe`
  unfoldable pub unsubscribe : ℕ → Option ℕ → Protocol → Protocol
  unsubscribe sid max p =
      let q = unsub sid max p in
      elim (find sid q.subs) [ none ↦ q | some s ↦ if is_spent s then cancel sid q else q ]

  -- `subscribe`, with `_sub` and `_subunsub`
  unfoldable pub subscribe : Sub → Protocol → Protocol
  subscribe s p =
      let sid = suc p.sid_counter in
      let q = send_command (sub_command (record s { sid = sid })) [] (add s p) in
      elim (nonzero s.max) [ none ↦ q | some n ↦ unsubscribe sid (some n) q ]

  -- `resub`
  unfoldable pub resub : ℕ → Bytes → Protocol → Protocol
  resub sid subject p =
      if p.closed
      then p
      else (let q = unsub sid none p in
          elim (find sid q.subs) [
            | none ↦ q
            | some s ↦
                send_command (sub_command (record s { subject = subject; sid = suc q.sid_counter }))
                  [] (resub_map (record s { subject = subject }) q)
          ])

  -- `processMsg` for a subscription that was found
  unfoldable pub deliver : Sub → Bytes → Protocol → Protocol
  deliver s body p =
      let t = record s { received = s.received + 1 } in
      let q = record p {
        subs = modify s.sid (λ u. record u { received = u.received + 1 }) p.subs;
        log = if accepts s then p.log ++ (s.sid, body) ∷ [] else p.log;
      } in
      if over t then unsubscribe s.sid none q else q

  -- `processMsg`
  unfoldable pub process_msg : ℕ → Bytes → Protocol → Protocol
  process_msg sid body p =
      let q = record p { in_msgs = p.in_msgs + 1; in_bytes = p.in_bytes + length body } in
      if q.sid_counter == 0
      then q
      else elim (find sid q.subs) [ none ↦ q | some s ↦ deliver s body q ]

  abbrev pub pub_command : Bytes → Option Bytes → Option Bytes → ℕ → Bytes
  pub_command subject reply none len =
      spaced (codes "PUB" ∷ subject ∷ word reply ++ show len ∷ []) ++ crlf
  pub_command subject reply (some headers) len =
      spaced (codes "HPUB" ∷ subject ∷ word reply ++ show (length headers) ∷ show len ∷ []) ++ crlf

  -- `publish` of bytes; `headers` are those of the options, encoded; `some []` are headers that encode to
  -- nothing.
  unfoldable pub publish_data : Bytes → Bytes → Option Bytes → Option Bytes → Protocol → Published
  publish_data subject body reply headers p =
      let len = length body + length (header_bytes headers) in
      let no_headers : Bool = elim p.info [ none ↦ false | some i ↦ not i.headers ] in
      let too_long : Bool = elim p.info [ none ↦ false | some i ↦ ltb i.max_payload len ] in
      if elim headers [ none ↦ false | some _ ↦ no_headers ]
      then refused server_option_not_available
      else if too_long
      then refused max_payload_exceeded
      else (let q = record p { out_bytes = p.out_bytes + len; out_msgs = p.out_msgs + 1 } in
          let payloads : List Bytes = elim headers [
            | none ↦ body ∷ crlf ∷ []
            | some h ↦ h ∷ body ∷ crlf ∷ []
          ] in
          done (send_command (pub_command subject reply headers len) payloads q))

  -- `publish`
  unfoldable pub publish : Bytes → Payload → Option Bytes → Option Bytes → Protocol → Published
  unfolding publish_data
  publish subject payload reply headers p = elim (payload_bytes payload) [
    | none ↦ refused bad_payload
    | some body ↦ publish_data subject body reply headers p
  ]
