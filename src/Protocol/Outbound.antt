-- ===== src/Protocol/Outbound.antt =====
-- What goes to the server: commands leave in the order in which they were given, whole, whether they
-- wait in the outbound buffer or are flushed.
use mathlib.Core.List.{append-nil, append_assoc}
use nats_deno.Base.{
  ℕ, ◌+◌, ◌≤◌, ◌<◌, ◌≡◌, sym, ap, ◌∙◌, false, Option, none, some, List, [], ◌∷◌, ◌++◌, Bytes,
  length, arith,
}
use nats_deno.Base.Slices.{take-of_le, drop-of_le}
use nats_deno.DataBuffer.{DataBuffer, fill, drain}
use nats_deno.DataBuffer.Laws.{IsValid, contents, joined, fill_lem, drain_lem}
use nats_deno.Protocol.Lines.{publication}
use nats_deno.Protocol.{
  Protocol, Info, flush_pending, send_command, server_option_not_available, max_payload_exceeded,
  Published, done, refused, bad_payload, Payload, missing, array, text, other, header_bytes, crlf,
}

-- All bytes given to the transport or waiting.
abbrev pub stream : Protocol → Bytes
stream p = p.sent ++ contents p.outbound

abbrev pub Keeps : Protocol → Protocol → Bytes → Type 0
Keeps p q more = (stream q ≡ stream p ++ more) × IsValid q.outbound

pub drain_all :
    (d : DataBuffer)
    → IsValid d
    → ((drain none d).0 ≡ contents d) × (contents (drain none d).1 ≡ []) × IsValid (drain none d).1
drain_all d v =
    let (a, b, c) = drain_lem none d v in
    (
      a ∙ take-of_le d.byte_length (contents d) (omega arith),
      b ∙ drop-of_le d.byte_length (contents d) (omega arith),
      c,
    )

pub flush_pending-Keeps : (p : Protocol) → IsValid p.outbound → Keeps p (flush_pending p) []
unfolding flush_pending
flush_pending-Keeps p v = ground (
  arith,
  drain_all p.outbound v,
  append-nil (stream p),
  append-nil (p.sent ++ contents p.outbound),
)

-- On a valid outbound queue `sendCommand` puts the command and its payloads behind all that was
-- given before, also where it flushes; nothing is lost or doubled, and the queue stays valid.
pub send_command_lem :
    (cmd : Bytes) (payloads : List Bytes) (p : Protocol)
    → IsValid p.outbound
    → Keeps p (send_command cmd payloads p) (cmd ++ joined payloads)
unfolding send_command
send_command_lem cmd payloads p v =
    let q = record p { outbound = fill cmd payloads p.outbound } in
    let (w, e) = fill_lem cmd payloads p.outbound v in
    let more : Bytes = cmd ++ joined payloads in
    let all : stream q ≡ stream p ++ more =
      ap (λ t. p.sent ++ t) e ∙ sym (append_assoc p.sent (contents p.outbound) more) in
    let (f, g) = flush_pending-Keeps q w in
    let flushed : stream (flush_pending q) ≡ stream p ++ more = f ∙ append-nil (stream q) ∙ all in
    ground arith

-- What a publication of these bytes comes to.
abbrev pub PublishesBytes :
    (ℕ → Bytes) → Bytes → Bytes → Option Bytes → Option Bytes → Protocol → Published → Type 0
PublishesBytes show subject body reply headers p (done q) =
    Keeps p q (publication show subject reply headers body)
    × (q.out_msgs ≡ p.out_msgs + 1)
    × (q.out_bytes ≡ p.out_bytes + (length body + length (header_bytes headers)))
    × ((i : Info)
        → p.info ≡ some i
        → (length body + length (header_bytes headers) ≤ i.max_payload)
          × (i.headers ≡ false → headers ≡ none))
PublishesBytes show subject body reply headers p (refused server_option_not_available) =
    (i : Info) × (p.info ≡ some i) × (i.headers ≡ false)
PublishesBytes show subject body reply headers p (refused max_payload_exceeded) =
    (i : Info) × (p.info ≡ some i) × (i.max_payload < length body + length (header_bytes headers))
PublishesBytes show subject body reply headers p (refused bad_payload) = ⊥

-- What a publication comes to.
abbrev pub Publishes :
    (ℕ → Bytes) → Bytes → Payload → Option Bytes → Option Bytes → Protocol → Published → Type 0
Publishes show subject missing reply headers p r = PublishesBytes show subject [] reply headers p r
Publishes show subject (array body) reply headers p r =
    PublishesBytes show subject body reply headers p r
Publishes show subject (text body) reply headers p r =
    PublishesBytes show subject body reply headers p r
Publishes show subject other reply headers p r = r ≡ refused bad_payload

-- What is sent once the guards are passed.
abbrev counted : ℕ → Protocol → Protocol
counted len p = record p { out_bytes = p.out_bytes + len; out_msgs = p.out_msgs + 1 }

abbrev payloads_of : Bytes → Option Bytes → List Bytes
payloads_of body none = body ∷ crlf ∷ []
payloads_of body (some h) = h ∷ body ∷ crlf ∷ []
