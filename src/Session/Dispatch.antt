-- ===== src/Session/Dispatch.antt =====
-- From the wire to the subscriptions.
use mathlib.Core.List.{append-nil}
use nats_deno.Base.{
  ℕ, ◌≡◌, ◌≢◌, refl, sym, ap, ◌∙◌, inl, inr, Bool, true, Option, none, some, List, [], ◌∷◌, ◌++◌,
  map, Bytes, ◌==◌, if◌then◌else◌, arith, Bool-cases,
}
use nats_deno.DataBuffer.Laws.{joined}
use nats_deno.Protocol.{find}
use nats_deno.Protocol.Deliver.{
  log_of, room, take_room, take_room-nil, IsOpen, process_msg-Steps, process_msg_other,
}
use nats_deno.Parser.Args.{
  Kind, MsgArg, ParserEvent, Result, thrown, Parser, new_parser, proto_parse_int,
}
use nats_deno.Parser.Chunks.Refine.{parse_all}
use nats_deno.Parser.Events.{pushed_by}
use nats_deno.Parser.Frames.{Frame, ping, pong, ok, err, info, msg, hmsg, event_of}
use nats_deno.Parser.Frames.RoundTrip.{AreFrames, wires, Delivers, parse_all-wires}
use nats_deno.Session.{
  Session, Code, permissions_violation, authorization_violation, authentication_expired,
  account_expired, authentication_timeout, protocol_error, same_code, Options, to_error,
  permission_error, process_error, receive, handle_error, handle_auth_error, process_ping,
  process_pong, process_info, push, push_all,
}

-- The payload of a message for a sid, headers included.
abbrev pub for_sid : ℕ → Option ℕ → Bytes → List Bytes
for_sid k sid payload = elim sid [ none ↦ [] | some n ↦ if n == k then payload ∷ [] else [] ]

abbrev pub body_for : ℕ → Frame → List Bytes
body_for k (msg subject sid reply size payload) = for_sid k (proto_parse_int sid) payload
body_for k (hmsg subject sid reply hdr size payload) = for_sid k (proto_parse_int sid) payload
body_for k _ = []

abbrev pub bodies : ℕ → List Frame → List Bytes
bodies k [] = []
bodies k (f ∷ fs) = body_for k f ++ bodies k fs

-- What the subscriptions are and were handed is left alone.
abbrev Untouched : Session → Session → Type 0
Untouched s t =
    (t.core.subs ≡ s.core.subs)
    × (t.core.log ≡ s.core.log)
    × (t.core.sid_counter ≡ s.core.sid_counter)

handle_error-Untouched :
    (ignore_abort : Bool) (c : Code) (s : Session) → Untouched s (handle_error ignore_abort c s)
unfolding handle_error handle_auth_error
handle_error-Untouched ignore_abort c s = ground arith

-- No error of the server says which operation it does not permit; such an error closes a subscription.
abbrev pub PermitsFrame : Options → Frame → Type 0
PermitsFrame o (err text) = to_error text ≡ permissions_violation → o.permission_of text ≡ none
PermitsFrame o _ = Unit {0}

abbrev pub Permits : Options → List Frame → Type 0
Permits o [] = Unit {0}
Permits o (f ∷ fs) = PermitsFrame o f × Permits o fs

same_code-violation :
    (c : Code) → same_code c permissions_violation ≡ true → c ≡ permissions_violation
same_code-violation permissions_violation e = refl
same_code-violation authorization_violation e = absurd (cc)
same_code-violation authentication_expired e = absurd (cc)
same_code-violation account_expired e = absurd (cc)
same_code-violation authentication_timeout e = absurd (cc)
same_code-violation protocol_error e = absurd (cc)

process_error-Untouched :
    (o : Options) (text : Bytes) (s : Session)
    → (to_error text ≡ permissions_violation → o.permission_of text ≡ none)
    → Untouched s (process_error o text s)
unfolding process_error permission_error
process_error-Untouched o text s e =
    elim (Bool-cases (same_code (to_error text) permissions_violation)) [
      | inl violation ↦
          let unnamed = e (same_code-violation (to_error text) violation) in
          ground
            (arith, violation, unnamed, handle_error-Untouched o.ignore_abort (to_error text) s)
      | inr other ↦ ground (arith, other, handle_error-Untouched o.ignore_abort (to_error text) s)
    ]

push-Untouched :
    (o : Options) (kind : Kind) (payload : Option Bytes) (s : Session)
    → kind ≢ Kind.msg
    → kind ≢ Kind.err
    → Untouched s (push o (record { kind = kind; msg = none; payload = payload }) s)
unfolding push process_ping process_pong process_info
push-Untouched o Kind.msg payload s h g = absurd (h refl)
push-Untouched o Kind.err payload s h g = absurd (g refl)
push-Untouched o kind payload s h g = ground arith

-- A reader that hands each event to the handler.
unfoldable pub handle : Options → List Bytes → Session → Session
unfolding push_all
handle o chunks s = push_all o (pushed_by (parse_all chunks new_parser)) s

-- One event, and what is handed over because of it and what is still to come.
abbrev Hands : ℕ → List Bytes → Session → Session → Type 0
Hands k now s t =
    IsOpen (find k t.core.subs)
    × (t.core.sid_counter ≡ s.core.sid_counter)
    × ((rest : List Bytes)
        → log_of k t.core.log ++ take_room (room (find k t.core.subs)) rest
          ≡ log_of k s.core.log ++ take_room (room (find k s.core.subs)) (now ++ rest))

Untouched-Hands :
    (k : ℕ) (s t : Session) → IsOpen (find k s.core.subs) → Untouched s t → Hands k [] s t
Untouched-Hands k s t o (subs, log, counter) = (rw subs o, counter, λ rest. rw (subs, log) refl)

message-Hands :
    (o : Options) (k : ℕ) (m : MsgArg) (body : Bytes) (s : Session)
    → s.core.sid_counter ≢ 0
    → IsOpen (find k s.core.subs)
    → Hands k
        (for_sid k m.sid body)
        s
        (push o (record { kind = Kind.msg; msg = some m; payload = some body }) s)
unfolding push receive
message-Hands o k m body s c h = go m.sid refl
  where
    go :
        (sid : Option ℕ)
        → m.sid ≡ sid
        → Hands k
            (for_sid k m.sid body)
            s
            (push o (record { kind = Kind.msg; msg = some m; payload = some body }) s)
    go none e = rw e (h, refl, λ rest. refl)
    go (some n) e = elim (Bool-cases (n == k)) [
      | inl same ↦
          let there : n ≡ k = ground arith in
          rw (e, same, there) (process_msg-Steps o.show k body s.core c h)
      | inr other ↦
          let (subs, log, counter) = process_msg_other o.show k n body s.core (λ x. ground arith) in
          rw (e, other) (rw subs h, counter, λ rest. rw (subs, log) refl)
    ]

event-Hands :
    (o : Options) (k : ℕ) (f : Frame) (s : Session)
    → s.core.sid_counter ≢ 0
    → IsOpen (find k s.core.subs)
    → PermitsFrame o f
    → Hands k (body_for k f) s (push o (event_of f) s)
event-Hands o k ping s c h p =
    Untouched-Hands k s (push o (event_of ping) s) h
      (push-Untouched o Kind.ping none s (λ e. cc) (λ e. cc))
event-Hands o k pong s c h p =
    Untouched-Hands k s (push o (event_of pong) s) h
      (push-Untouched o Kind.pong none s (λ e. cc) (λ e. cc))
event-Hands o k ok s c h p =
    Untouched-Hands k s (push o (event_of ok) s) h
      (push-Untouched o Kind.ok none s (λ e. cc) (λ e. cc))
event-Hands o k (err text) s c h p =
    Untouched-Hands k s (push o (event_of (err text)) s) h
      (unfold push in process_error-Untouched o text s p)
event-Hands o k (info text) s c h p =
    Untouched-Hands k s (push o (event_of (info text)) s) h
      (push-Untouched o Kind.info (some text) s (λ e. cc) (λ e. cc))
event-Hands o k (msg subject sid reply size payload) s c h p = message-Hands o k _ payload s c h
event-Hands o k (hmsg subject sid reply hdr size payload) s c h p =
    message-Hands o k _ payload s c h

events-Hands :
    (o : Options) (k : ℕ) (fs : List Frame) (s : Session)
    → s.core.sid_counter ≢ 0
    → IsOpen (find k s.core.subs)
    → Permits o fs
    → log_of k (push_all o (map event_of fs) s).core.log
      ≡ log_of k s.core.log ++ take_room (room (find k s.core.subs)) (bodies k fs)
unfolding push_all
events-Hands o k [] s c h p =
    rw (take_room-nil (room (find k s.core.subs))) (sym (append-nil (log_of k s.core.log)))
events-Hands o k (f ∷ fs) s c h (p, ps) =
    let t = push o (event_of f) s in
    let (open', counter, moved) = event-Hands o k f s c h p in
    events-Hands o k fs t (λ z. c (sym counter ∙ z)) open' ps ∙ moved (bodies k fs)

parsed-events :
    (events : List ParserEvent) (r : Result Parser) → Delivers events r → pushed_by r ≡ events
parsed-events events (Result.ok q) (_, e) = e
parsed-events events (thrown _ _ _ _) d = absurd d

-- From the wire to a client: whatever operations the server writes, however they are cut into chunks, if
-- none is an error on the permission of an operation that it names (which may close a subscription), a
-- subscription in the map that takes messages and is below its limit is handed exactly the payloads of
-- the messages with its sid, in order, up to its limit.
pub handle-bodies :
    (o : Options) (k : ℕ) (fs : List Frame) (chunks : List Bytes) (s : Session)
    → AreFrames fs
    → Permits o fs
    → joined chunks ≡ wires fs
    → s.core.sid_counter ≢ 0
    → IsOpen (find k s.core.subs)
    → log_of k (handle o chunks s).core.log
      ≡ log_of k s.core.log ++ take_room (room (find k s.core.subs)) (bodies k fs)
unfolding handle
handle-bodies o k fs chunks s a p e c h =
    let events = parsed-events (map event_of fs) _ (parse_all-wires fs chunks a e) in
    ap (λ es. log_of k (push_all o es s).core.log) events ∙ events-Hands o k fs s c h p
