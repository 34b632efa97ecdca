-- ===== src/JetStream/Acks.antt =====
-- jetstream/jsmsg.ts: what a message's reply subject says of its delivery (`parseInfo`), and the
-- acknowledgements that are sent to it (`JsMsgImpl`).
pub mod Final
pub mod Read
mod Tests
use nats_deno.Base.{
  ℕ, suc, Bool, true, false, not, ◌&&◌, ◌||◌, Option, none, some, List, [], ◌∷◌, ◌++◌, Bytes, codes,
  bytes_eq, length, ltb, ◌==◌, if◌then◌else◌, ◌*◌,
}
use nats_deno.Headers.Lines.{digits_from}
use nats_deno.JetStream.Tokens.{split_dots}

-- A number is `none` where JavaScript has NaN.
pub record DeliveryInfo : Type 0 where
  pub domain : Bytes
  pub account_hash : Bytes
  pub stream : Bytes
  pub consumer : Bytes
  pub delivery_count : Option ℕ
  pub redelivery_count : Option ℕ
  pub redelivered : Bool
  pub stream_sequence : Option ℕ
  pub delivery_sequence : Option ℕ
  pub timestamp_nanos : Option ℕ
  pub pending : Option ℕ

-- `parseInt(token, 10)` of a token that does not begin with white space or a sign
abbrev pub parse_int : Bytes → Option ℕ
parse_int s = digits_from none s

-- The tokens of the old form get a domain and an account hash.
unfoldable pub widen : List Bytes → List Bytes
widen ts = elim (length ts == 9) [
  | false ↦ ts
  | true ↦ elim ts [ a ∷ b ∷ rest ↦ a ∷ b ∷ codes "_" ∷ [] ∷ rest | other ↦ other ]
]

unfoldable pub read_tokens : List Bytes → Option DeliveryInfo
unfolding bytes_eq digits_from
read_tokens
      (js ∷ ack ∷ domain ∷ account ∷ stream ∷ consumer ∷ count ∷ sseq ∷ dseq ∷ time ∷ pending
        ∷ rest) =
    if not (bytes_eq js (codes "$JS")) || not (bytes_eq ack (codes "ACK"))
    then none
    else some (record {
      domain = if bytes_eq domain (codes "_") then [] else domain;
      account_hash = account;
      stream = stream;
      consumer = consumer;
      delivery_count = parse_int count;
      redelivery_count = parse_int count;
      redelivered = elim (parse_int count) [ none ↦ false | some n ↦ ltb 1 n ];
      stream_sequence = parse_int sseq;
      delivery_sequence = parse_int dseq;
      timestamp_nanos = parse_int time;
      pending = parse_int pending;
    })
read_tokens other = none

-- `parseInfo`, which throws on what is not the reply of a message of a stream
unfoldable pub parse_info : Bytes → Option DeliveryInfo
unfolding split_dots widen read_tokens
parse_info s = read_tokens (widen (split_dots s))

abbrev pub ack_payload : Bytes
ack_payload = codes "+ACK"

abbrev pub nak_payload : Bytes
nak_payload = codes "-NAK"

abbrev pub wpi_payload : Bytes
wpi_payload = codes "+WPI"

abbrev pub term_payload : Bytes
term_payload = codes "+TERM"

-- What goes to the reply subject: a payload, or the payload of `next` with the subject for its answers.
pub data Sent : Type 0 where
  plain : Bytes → Sent
  nxt : Bytes → Option Bytes → Sent

-- A message: whether it has a reply subject, whether it was acknowledged, and what was sent to the reply.
pub record JsMsg : Type 0 where
  pub has_reply : Bool
  pub did_ack : Bool
  pub sent : List Sent

abbrev pub to_js_msg : Bool → JsMsg
to_js_msg reply = record { has_reply = reply; did_ack = false; sent = [] }

-- `isWIP`
abbrev pub is_wip : Bytes → Bool
is_wip p = bytes_eq p wpi_payload

-- `respond` of the message
abbrev pub respond : Sent → JsMsg → JsMsg
respond p m = if m.has_reply then record m { sent = m.sent ++ p ∷ [] } else m

unfoldable pub do_ack : Bytes → JsMsg → JsMsg
unfolding bytes_eq
do_ack p m = if m.did_ack then m else respond (plain p) (record m { did_ack = not (is_wip p) })

-- The calls of a handler
pub data Call : Type 0 where
  ack : Call
  nak : Option ℕ → Call
  working : Call
  term : Bytes → Call
  ack_ack : Call
  next : Bytes → Option ℕ → Bool → Option ℕ → Call

-- The arguments of a pull
pub record PullArgs : Type 0 where
  pub batch : ℕ
  pub no_wait : Bool
  pub expires : Option ℕ

-- `opts.batch || 1`, and `nanos` of `opts.expires` where it is positive
abbrev pub pull_args : Option ℕ → Bool → Option ℕ → PullArgs
pull_args batch no_wait expires = record {
  batch = elim batch [ none ↦ 1 | some n ↦ if n == 0 then 1 else n ];
  no_wait = no_wait;
  expires = elim expires [ none ↦ none | some n ↦ if ltb 0 n then some (n * 1000000) else none ];
}

-- `json` writes the object of the delay, and `args_json` the arguments of a pull.
module _ (json : ℕ → Bytes) (args_json : PullArgs → Bytes) where
  -- `millis` of zero is no delay.
  abbrev pub nak_of : Option ℕ → Bytes
  nak_of none = nak_payload
  nak_of (some ms) = if ms == 0 then nak_payload else codes "-NAK " ++ json (ms * 1000000)

  abbrev pub term_of : Bytes → Bytes
  term_of reason = if ltb 0 (length reason) then codes "+TERM " ++ reason else term_payload

  -- `ackAck`, up to its wait for the answer
  unfoldable pub send_ack_ack : JsMsg → JsMsg
  send_ack_ack m =
      if m.did_ack then m else respond (plain ack_payload) (record m { did_ack = true })

  -- `next` with the options `batch`, `no_wait` and `expires`; an empty subject is none.
  abbrev pub pull_of : Bytes → Option ℕ → Bool → Option ℕ → Sent
  pull_of subject batch no_wait expires =
      nxt (codes "+NXT " ++ args_json (pull_args batch no_wait expires))
        (if ltb 0 (length subject) then some subject else none)

  unfoldable pub send_next : Bytes → Option ℕ → Bool → Option ℕ → JsMsg → JsMsg
  send_next subject batch no_wait expires m = respond (pull_of subject batch no_wait expires) m

  unfoldable pub call : Call → JsMsg → JsMsg
  unfolding do_ack send_ack_ack send_next
  call ack m = do_ack ack_payload m
  call (nak ms) m = do_ack (nak_of ms) m
  call working m = do_ack wpi_payload m
  call (term reason) m = do_ack (term_of reason) m
  call ack_ack m = send_ack_ack m
  call (next subject batch no_wait expires) m = send_next subject batch no_wait expires m

  unfoldable pub calls : List Call → JsMsg → JsMsg
  unfolding call
  calls [] m = m
  calls (c ∷ cs) m = calls cs (call c m)
