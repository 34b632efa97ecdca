-- ===== src/Session/Reconnect.antt =====
-- What a new connection begins with.
use mathlib.Core.List.{append-nil, append_assoc}
use nats_deno.Base.{
  ℕ, ◌≡◌, refl, sym, ap, ◌∙◌, true, false, Option, none, some, List, [], ◌∷◌, ◌++◌, Bytes, codes,
  arith,
}
use nats_deno.DataBuffer.{new_data_buffer}
use nats_deno.DataBuffer.Laws.{IsValid, contents, joined, fill_lem, length-zero}
use nats_deno.Protocol.{Sub, Protocol, sub_command, flush_pending, send_command}
use nats_deno.Protocol.Outbound.{drain_all}
use nats_deno.Protocol.Lines.{sub_lines, sub_command-sub_line}
use nats_deno.Parser.Args.{Kind, ParserEvent}
use nats_deno.Session.{
  Session, Options, process_pong, dialed, send_subscriptions, sub_commands, process_info, prepare,
  reset_outbound, push,
}

abbrev pub event : Kind → Option Bytes → ParserEvent
event kind payload = record { kind = kind; msg = none; payload = payload }

-- A new connection, and the server's `INFO` on it.
unfoldable pub greeting : (o : Options) (m : Bytes) (d : ℕ) (s : Session) → Session
greeting o m d s = push o (event Kind.info (some m)) (prepare d s)

greeting_lem :
    (o : Options) (m : Bytes) (d : ℕ) (s : Session)
    → ((greeting o m d s).core.sent
        ≡ s.core.sent ++ (o.connect_line (o.read_info m) ++ codes "PING\r\n"))
      × ((greeting o m d s).core.subs ≡ s.core.subs)
      × ((greeting o m d s).core.outbound ≡ new_data_buffer)
      × ((greeting o m d s).core.info_received ≡ true)
      × ((greeting o m d s).core.connected ≡ s.core.connected)
      × ((greeting o m d s).pongs ≡ d ∷ [])
      × ((greeting o m d s).resolved ≡ s.resolved)
      × ((greeting o m d s).rejected ≡ s.rejected ++ s.pongs)
unfolding greeting push process_info prepare reset_outbound
greeting_lem o m d s = ground arith

sub_commands-send :
    (show : ℕ → Bytes) (s : Session)
    → ((send_subscriptions show s).core.sent ≡ s.core.sent ++ sub_commands show s.core.subs)
      × ((send_subscriptions show s).core.outbound ≡ s.core.outbound)
      × ((send_subscriptions show s).core.subs ≡ s.core.subs)
      × ((send_subscriptions show s).core.info_received ≡ s.core.info_received)
      × ((send_subscriptions show s).core.connected ≡ s.core.connected)
unfolding send_subscriptions sub_commands
sub_commands-send show s = go s.core.subs refl
  where
    go :
        (subs : List Sub)
        → s.core.subs ≡ subs
        → ((send_subscriptions show s).core.sent ≡ s.core.sent ++ sub_commands show s.core.subs)
          × ((send_subscriptions show s).core.outbound ≡ s.core.outbound)
          × ((send_subscriptions show s).core.subs ≡ s.core.subs)
          × ((send_subscriptions show s).core.info_received ≡ s.core.info_received)
          × ((send_subscriptions show s).core.connected ≡ s.core.connected)
    go [] e = ground (arith, append-nil s.core.sent)
    go (t ∷ ts) e = ground arith

sub_commands-sub_lines :
    (show : ℕ → Bytes) (subs : List Sub) → sub_commands show subs ≡ sub_lines show subs
unfolding sub_commands
sub_commands-sub_lines show [] = refl
sub_commands-sub_lines show (s ∷ subs) =
    ap (λ (x : Bytes). sub_command show s ++ x) (sub_commands-sub_lines show subs)
    ∙ ap (λ (x : Bytes). x ++ sub_lines show subs) (sub_command-sub_line show s)

-- A command that is given before the connection is there waits.
waits_lem :
    (cmd : Bytes) (p : Protocol)
    → p.connected ≡ false
    → IsValid p.outbound
    → ((send_command cmd [] p).sent ≡ p.sent)
      × (contents (send_command cmd [] p).outbound ≡ contents p.outbound ++ cmd)
      × IsValid (send_command cmd [] p).outbound
      × ((send_command cmd [] p).connected ≡ false)
      × ((send_command cmd [] p).subs ≡ p.subs)
      × ((send_command cmd [] p).info_received ≡ p.info_received)
unfolding send_command flush_pending
waits_lem cmd p c v = ground (arith, fill_lem cmd [] p.outbound v, append-nil cmd)

unfoldable pub give : List Bytes → Protocol → Protocol
give [] p = p
give (cmd ∷ cmds) p = give cmds (send_command cmd [] p)

give_lem :
    (cmds : List Bytes) (p : Protocol)
    → p.connected ≡ false
    → IsValid p.outbound
    → ((give cmds p).sent ≡ p.sent)
      × (contents (give cmds p).outbound ≡ contents p.outbound ++ joined cmds)
      × IsValid (give cmds p).outbound
      × ((give cmds p).connected ≡ false)
      × ((give cmds p).subs ≡ p.subs)
      × ((give cmds p).info_received ≡ p.info_received)
unfolding give
give_lem [] p c v = (refl, sym (append-nil (contents p.outbound)), v, c, refl, refl)
give_lem (cmd ∷ cmds) p c v =
    let q = send_command cmd [] p in
    let (a, b, w, d, e, f) = waits_lem cmd p c v in
    let (a', b', w', d', e', f') = give_lem cmds q d w in
    (
      a' ∙ a,
      b' ∙ ap (λ t. t ++ joined cmds) b ∙ append_assoc (contents p.outbound) cmd (joined cmds),
      w',
      d',
      e' ∙ e,
      f' ∙ f,
    )

dialed_lem :
    (show : ℕ → Bytes) (s : Session)
    → s.core.info_received ≡ true
    → IsValid s.core.outbound
    → ((dialed show s).core.sent
        ≡ s.core.sent ++ (sub_lines show s.core.subs ++ contents s.core.outbound))
      × (contents (dialed show s).core.outbound ≡ [])
      × ((dialed show s).core.subs ≡ s.core.subs)
      × ((dialed show s).core.connected ≡ true)
unfolding dialed flush_pending
dialed_lem show s i v =
    let t = record s { core = record s.core { connected = true }; connect_error = none } in
    let (d, e, w) = drain_all s.core.outbound v in
    ground (
      arith,
      sub_commands-send show t,
      sub_commands-sub_lines show s.core.subs,
      d,
      e,
      length-zero (contents s.core.outbound),
      append_assoc s.core.sent (sub_commands show s.core.subs) (contents s.core.outbound),
      append-nil (sub_commands show s.core.subs),
    )

pong_lem :
    (o : Options) (d : ℕ) (s : Session)
    → s.pongs ≡ d ∷ []
    → push o (event Kind.pong none) s ≡ record s { pongs = []; resolved = s.resolved ++ d ∷ [] }
unfolding push process_pong
pong_lem o d s e = rw e refl

dialed-rest :
    (show : ℕ → Bytes) (s : Session)
    → ((dialed show s).pongs ≡ s.pongs)
      × ((dialed show s).resolved ≡ s.resolved)
      × ((dialed show s).rejected ≡ s.rejected)
unfolding dialed send_subscriptions
dialed-rest show s = ground arith

-- From the connection that is prepared to the pong and what `dial` does behind it, where the client gives
-- commands while it waits.
unfoldable pub reconnect : Options → Bytes → ℕ → List Bytes → Session → Session
unfolding greeting give push dialed
reconnect o m d cmds s =
    let a = greeting o m d s in
    let b = record a { core = give cmds a.core } in dialed o.show (push o (event Kind.pong none) b)

-- A handler that has lost its connection and gets a new one sends, in this order: the answer to the
-- server's `INFO` and a ping, a `SUB` line for each subscription in the map, and all that the client
-- gave since the connection was lost and prepared anew. The flushes that waited before are rejected,
-- and the dial's own deferred is resolved.
pub reconnect_lem :
    (o : Options) (m : Bytes) (d : ℕ) (cmds : List Bytes) (s : Session)
    → s.core.connected ≡ false
    → ((reconnect o m d cmds s).core.sent
        ≡ s.core.sent
          ++ ((o.connect_line (o.read_info m) ++ codes "PING\r\n")
              ++ (sub_lines o.show s.core.subs ++ joined cmds)))
      × (contents (reconnect o m d cmds s).core.outbound ≡ [])
      × ((reconnect o m d cmds s).core.subs ≡ s.core.subs)
      × ((reconnect o m d cmds s).core.connected ≡ true)
      × ((reconnect o m d cmds s).rejected ≡ s.rejected ++ s.pongs)
      × ((reconnect o m d cmds s).resolved ≡ s.resolved ++ d ∷ [])
      × ((reconnect o m d cmds s).pongs ≡ [])
unfolding reconnect
reconnect_lem o m d cmds s c =
    let a = greeting o m d s in
    let (sent, subs, empty, received, connected, pongs, resolved, rejected) =
      greeting_lem o m d s in
    let valid : IsValid a.core.outbound = rw empty refl in
    let (sent', queued, valid', _, subs', received') = give_lem cmds a.core (connected ∙ c) valid in
    let b = record a { core = give cmds a.core } in
    let t = record b { pongs = []; resolved = b.resolved ++ d ∷ [] } in
    let (all, left, subs'', on) = dialed_lem o.show t (received' ∙ received) valid' in
    let (p, r, j) = dialed-rest o.show t in
    let start : contents a.core.outbound ≡ [] = rw empty refl in
    rw (pong_lem o d b pongs) (
      all
          ∙ rw (sent', sent, subs', subs, queued, start)
              (append_assoc s.core.sent (o.connect_line (o.read_info m) ++ codes "PING\r\n")
                (sub_lines o.show s.core.subs ++ joined cmds)),
      left,
      subs'' ∙ subs' ∙ subs,
      on,
      j ∙ rejected,
      r ∙ ap (λ x. x ++ d ∷ []) resolved,
      p,
    )
