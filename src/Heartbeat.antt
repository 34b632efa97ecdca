-- ===== src/Heartbeat.antt =====
-- nats-base-client/heartbeats.ts: `Heartbeat`. Timers are the runtime's: `live` holds those that are set and
-- have neither been cleared nor fired.
pub mod Silence
mod Tests
use nats_deno.Base.{
  ℕ, zero, suc, ◌+◌, ◌-◌, Bool, true, false, not, ◌&&◌, Option, none, some, List, [], ◌∷◌, ◌++◌,
  length, ltb, leb, ◌==◌, if◌then◌else◌,
}

-- Pings are numbered; `pings` are those that were flushed, `resolved` those that `_reset` settled.
pub record Heartbeat : Type 0 where
  pub max_out : ℕ
  pub timer : Option ℕ
  pub pendings : List ℕ
  pub live : List ℕ
  pub made : ℕ
  pub pings : ℕ
  pub resolved : List ℕ
  pub disconnects : ℕ

abbrev pub new_heartbeat : ℕ → Heartbeat
new_heartbeat max_out = record {
  max_out = max_out;
  timer = none;
  pendings = [];
  live = [];
  made = 0;
  pings = 0;
  resolved = [];
  disconnects = 0;
}

-- `clearTimeout`, and the end of a timer that fires
unfoldable pub without_timer : ℕ → List ℕ → List ℕ
without_timer t [] = []
without_timer t (u ∷ live) = let rest = without_timer t live in if u == t then rest else u ∷ rest

-- `_reset`
abbrev pub reset_pendings : Heartbeat → Heartbeat
reset_pendings h = record h { resolved = h.resolved ++ h.pendings; pendings = [] }

abbrev pub clear_timer : Heartbeat → Heartbeat
clear_timer h = elim h.timer [
  | none ↦ h
  | some t ↦ record h { timer = none; live = without_timer t h.live }
]

-- `cancel(stale)`
unfoldable pub cancel_beats : Bool → Heartbeat → Heartbeat
unfolding without_timer
cancel_beats stale h =
    let r = reset_pendings (clear_timer h) in
    if stale then record r { disconnects = suc r.disconnects } else r

-- `_schedule`: the timer that it sets
abbrev pub schedule : Heartbeat → Heartbeat
schedule h = record h { timer = some h.made; live = h.made ∷ h.live; made = suc h.made }

-- `start`
unfoldable pub start_beats : Heartbeat → Heartbeat
unfolding cancel_beats
start_beats h = schedule (cancel_beats false h)

-- The timer's function
unfoldable pub beat : Heartbeat → Heartbeat
unfolding cancel_beats
beat h =
    if length h.pendings == h.max_out
    then cancel_beats true h
    else schedule (record h { pings = suc h.pings; pendings = h.pendings ++ h.pings ∷ [] })

-- What can happen: a call of `start` or `cancel`, a timer that fires, and a ping's flush that resolves or
-- rejects, at any time behind it.
pub data Event : Type 0 where
  started : Event
  cancelled : Bool → Event
  fired : ℕ → Event
  answered : Event
  rejected : Event

abbrev pub is_live : ℕ → List ℕ → Bool
is_live t [] = false
is_live t (u ∷ live) = if u == t then true else is_live t live

-- A timer that was cleared does not fire.
unfoldable pub heartbeat_step : Event → Heartbeat → Heartbeat
unfolding start_beats cancel_beats beat without_timer
heartbeat_step started h = start_beats h
heartbeat_step (cancelled stale) h = cancel_beats stale h
heartbeat_step (fired t) h =
    if is_live t h.live then beat (record h { live = without_timer t h.live }) else h
heartbeat_step answered h = reset_pendings h
heartbeat_step rejected h = cancel_beats false h

unfoldable pub heartbeat_run : List Event → Heartbeat → Heartbeat
unfolding heartbeat_step
heartbeat_run [] h = h
heartbeat_run (e ∷ es) h = heartbeat_run es (heartbeat_step e h)
