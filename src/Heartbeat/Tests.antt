-- ===== src/Heartbeat/Tests.antt =====
-- Runs of heartbeats.
use nats_deno.Base.{arith, ◌≡◌, refl, none, some, List, [], ◌∷◌}
use nats_deno.Heartbeat.{Heartbeat, new_heartbeat, Event, started, fired, answered, heartbeat_run}
use nats_deno.Heartbeat.Silence.{IsTimed, heartbeat_run-IsTimed, silence, silence-disconnects}

abbrev some_events : List Event
some_events = started ∷ fired 0 ∷ started ∷ fired 1 ∷ fired 2 ∷ answered ∷ []

heartbeat_run-IsTimed_example : IsTimed (heartbeat_run some_events (new_heartbeat 2))
heartbeat_run-IsTimed_example = heartbeat_run-IsTimed 2 some_events

abbrev beating : Heartbeat
beating = record (new_heartbeat 2) { timer = some 0; live = 0 ∷ []; made = 1 }

silence-disconnects_example :
    ((silence 2 beating).disconnects ≡ 0)
    × ((silence 3 beating).disconnects ≡ 1)
    × ((silence 3 beating).timer ≡ none)
    × ((silence 3 beating).live ≡ [])
silence-disconnects_example = silence-disconnects 2 0 beating (refl, omega arith) refl refl
