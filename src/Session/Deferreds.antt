-- ===== src/Session/Deferreds.antt =====
-- Flushes are answered in order.
use nats_deno.Base.{ℕ, List, [], ◌∷◌, ◌++◌}
use nats_deno.Parser.Args.{ParserEvent}
use nats_deno.Session.{Session, Options, flush, dialed, transport_closed, push}

-- What may happen on one connection.
pub data Action : Type 0 where
  flushes : ℕ → Action
  receives : ParserEvent → Action
  dials closes : Action

unfoldable pub act : Options → Action → Session → Session
unfolding flush push dialed transport_closed
act o (flushes d) s = flush d s
act o (receives e) s = push o e s
act o dials s = dialed o.show s
act o closes s = transport_closed s

unfoldable pub act_all : Options → List Action → Session → Session
unfolding act
act_all o [] s = s
act_all o (a ∷ actions) s = act_all o actions (act o a s)

abbrev pub flushed : List Action → List ℕ
flushed [] = []
flushed (flushes d ∷ actions) = d ∷ flushed actions
flushed (receives e ∷ actions) = flushed actions
flushed (dials ∷ actions) = flushed actions
flushed (closes ∷ actions) = flushed actions

-- The deferreds in the order in which they are and will be resolved.
abbrev pub in_order : Session → List ℕ
in_order s = s.resolved ++ s.pongs
