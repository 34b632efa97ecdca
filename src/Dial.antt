-- ===== src/Dial.antt =====
-- nats-base-client/protocol.ts: `_doDial` and `dodialLoop`, how the client looks for a server that it can
-- connect to. What happens around the loop is given turn by turn: the clock, whether the client was
-- closed or told to stop, and which of a server's addresses answer.
pub mod Weights
pub mod Gossip
pub mod Attempts
pub mod Bounds
pub mod First
mod Tests
use nats_deno.Base.{
  ℕ, zero, suc, ◌+◌, ◌-◌, min, Bool, true, false, not, ◌&&◌, ◌||◌, Option, none, some, List, [],
  ◌∷◌, Bytes, ltb, leb, ◌==◌, if◌then◌else◌,
}
use nats_deno.Servers.{Server, Servers, select_server, remove_current_server, update}

-- `maxReconnectAttempts || 0`: `none` is -1, no limit.
pub record Options : Type 0 where
  pub max_reconnect_attempts : Option ℕ
  pub wait_on_first_connect : Bool
  -- Whether updates of the pool are taken, and its parser of addresses.
  pub takes_updates : Bool
  pub host_port : Bytes → Bytes × Bytes
  pub is_ip : Bytes → Bool

-- The counters of each server, by its id; `last_error` says whether the loop has met an error.
pub record Dial : Type 0 where
  pub servers : Servers
  pub reconnects : ℕ → ℕ
  pub last_connect : ℕ → ℕ
  pub connected_once : Bool
  pub last_error : Bool

-- What one round of the loop meets: `now` and `later` are the two times that it reads, `delay` is the
-- delay that is configured or handled, `dials` says of each address of the server whether `dial` succeeds,
-- and `infos` are the `connect_urls` of the `INFO`s that come in while they are dialed.
pub record Turn : Type 0 where
  pub closed : Bool
  pub abort_reconnect : Bool
  pub delay : ℕ
  pub now : ℕ
  pub later : ℕ
  pub dials : List Bool
  pub infos : List (List Bytes)

pub data Outcome : Type 0 where
  connected : Outcome
  failed : Outcome
  delayed : ℕ → Outcome
  gave_up : Outcome

-- `_doDial`: the addresses are tried in turn, up to the first that connects.
unfoldable pub do_dial : List Bool → Bool
do_dial [] = false
do_dial (ok ∷ alts) = let rest = do_dial alts in if ok then true else rest

abbrev pub set : ℕ → ℕ → (ℕ → ℕ) → ℕ → ℕ
set id n f j = if j == id then n else f j

abbrev pub clear : Servers → Servers
clear p = record p { servers = [] }

-- `mra !== -1 && srv.reconnects >= mra`
abbrev pub is_spent : Option ℕ → ℕ → Bool
is_spent none n = false
is_spent (some mra) n = leb mra n

-- The handler of a failed dial to `srv`
unfoldable pub dial_failed : Options → Server → Dial → Dial
unfolding remove_current_server
dial_failed o srv d =
    if not d.connected_once && o.wait_on_first_connect
    then record d { last_error = true }
    else (let pool = if not d.connected_once then remove_current_server d.servers else d.servers in
        let n = suc (d.reconnects srv.id) in
        record d {
          servers =
              if is_spent o.max_reconnect_attempts n then remove_current_server pool else pool;
          reconnects = set srv.id n d.reconnects;
          last_error = true;
        })

-- A dial that connects: `didConnect` and the counters of `dial`
unfoldable pub dial_connected : Server → Dial → Dial
dial_connected srv d = record d { connected_once = true; reconnects = set srv.id 0 d.reconnects }

-- What `processInfo` does to the pool, for each `INFO`; the names for TLS are left out.
unfoldable pub hear : Options → List (List Bytes) → Servers → Servers
unfolding update
hear o [] p = p
hear o (urls ∷ infos) p =
    hear o infos (if o.takes_updates then (update o.host_port o.is_ip urls p).1 else p)

-- A round with the server that was selected
unfoldable pub attempt : Options → Turn → Server → Dial → Outcome × Dial
unfolding dial_failed dial_connected do_dial hear
attempt o t srv d =
    if d.last_connect srv.id == 0 || leb (d.last_connect srv.id + t.delay) t.now
    then (let e = record d {
      last_connect = set srv.id t.later d.last_connect;
      servers = hear o t.infos d.servers;
    } in
        if do_dial t.dials
        then (connected, dial_connected srv e)
        else (failed, dial_failed o srv e))
    else (delayed (min t.delay (d.last_connect srv.id + t.delay - t.now)), d)

-- A round of `dodialLoop`
unfoldable pub turn : Options → Turn → Dial → Outcome × Dial
unfolding select_server attempt
turn o t d =
    let pool = if t.closed then clear d.servers else d.servers in
    let (srv, rest) = select_server pool in
    let e = record d { servers = rest } in
    elim srv [
      | none ↦ (gave_up, e)
      | some s ↦ if t.abort_reconnect then (gave_up, e) else attempt o t s e
    ]

-- How the loop went over the rounds that it was given: whether it has ended with a connection or has
-- thrown, and the rounds that failed or waited before.
pub record Run : Type 0 where
  pub ends : Option Bool
  pub failures : ℕ
  pub delays : ℕ
  pub ended_as : Dial

-- `dodialLoop`
unfoldable pub dial_loop : Options → List Turn → Dial → Run
unfolding turn
dial_loop o [] d = record { ends = none; failures = 0; delays = 0; ended_as = d }
dial_loop o (t ∷ ts) d = elim (turn o t d).0 [
  | connected ↦ record { ends = some true; failures = 0; delays = 0; ended_as = (turn o t d).1 }
  | gave_up ↦ record { ends = some false; failures = 0; delays = 0; ended_as = (turn o t d).1 }
  | delayed ms ↦ let r = dial_loop o ts (turn o t d).1 in record r { delays = suc r.delays }
  | failed ↦ let r = dial_loop o ts (turn o t d).1 in record r { failures = suc r.failures }
]
