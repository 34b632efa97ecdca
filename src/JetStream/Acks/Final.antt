-- ===== src/JetStream/Acks/Final.antt =====
-- What a handler's calls on a message send.
use nats_deno.Base.{
  ℕ, ◌≡◌, refl, codes, ltb, Bool, true, false, not, ◌&&◌, ◌||◌, Option, none, some, List, [], ◌∷◌,
  ◌++◌, Bytes, bytes_eq, length, ◌==◌, if◌then◌else◌,
}
use nats_deno.JetStream.Acks.{
  JsMsg, Sent, plain, nxt, PullArgs, pull_args, next, is_wip, do_ack, Call, working, send_ack_ack,
  ack_payload,
}

-- Only signs of work
unfoldable pub all_wip : List Bytes → Bool
all_wip [] = true
all_wip (p ∷ ps) = is_wip p && all_wip ps

-- Signs of work, and one other payload at the end
unfoldable pub last_final : List Bytes → Bool
last_final [] = false
last_final (p ∷ []) = not (is_wip p)
last_final (p ∷ q ∷ ps) = is_wip p && last_final (q ∷ ps)

abbrev pub is_final : Call → Bool
is_final working = false
is_final (next _ _ _ _) = false
is_final other = true

unfoldable pub any_final : List Call → Bool
any_final [] = false
any_final (c ∷ cs) = is_final c || any_final cs

-- The acknowledgements among what was sent, and the pulls.
abbrev pub acks : List Sent → List Bytes
acks [] = []
acks (plain p ∷ ss) = p ∷ acks ss
acks (nxt _ _ ∷ ss) = acks ss

abbrev pub pulls : List Sent → List Sent
pulls [] = []
pulls (plain _ ∷ ss) = pulls ss
pulls (nxt p r ∷ ss) = nxt p r ∷ pulls ss

-- The acknowledgements that were sent: none without a reply subject, and else signs of work, with one final acknowledgement
-- behind them once the message is acknowledged.
abbrev pub IsAcked : JsMsg → Type 0
IsAcked m =
    (if m.has_reply
      then (if m.did_ack then last_final (acks m.sent) else all_wip (acks m.sent))
      else length m.sent == 0)
    ≡ true

module _ (json : ℕ → Bytes) (args_json : PullArgs → Bytes) where
  send_ack_ack-do_ack : (m : JsMsg) → send_ack_ack json args_json m ≡ do_ack ack_payload m
  unfolding send_ack_ack do_ack bytes_eq
  send_ack_ack-do_ack m = refl

  abbrev pull_payload : Option ℕ → Bool → Option ℕ → Bytes
  pull_payload batch no_wait expires = codes "+NXT " ++ args_json (pull_args batch no_wait expires)

  abbrev pull_reply : Bytes → Option Bytes
  pull_reply subject = if ltb 0 (length subject) then some subject else none

  -- What a call asks for.
  abbrev pub asked : List Call → List Sent
  asked [] = []
  asked (next subject batch no_wait expires ∷ cs) =
      nxt (codes "+NXT " ++ args_json (pull_args batch no_wait expires))
        (if ltb 0 (length subject) then some subject else none)
      ∷ asked cs
  asked (_ ∷ cs) = asked cs
