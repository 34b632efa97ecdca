-- ===== src/JetStream/Pull/Tests.antt =====
-- A consumer of ten messages.
use nats_deno.Base.{◌≡◌, refl, true, false, some, List, [], ◌∷◌, codes}
use nats_deno.JetStream.Pull.{
  Options, Pull, info, message, unclear, exists, Event, receives, resets, retries, answers, pull,
  opened, Flags, new_pull,
}

abbrev ten : Options
ten = record {
  max_messages = 4;
  max_bytes = 0;
  expires = 0;
  idle_heartbeat = 0;
  threshold_messages = 0;
  threshold_bytes = 0;
}

abbrev consumes : Flags
consumes = record { refills = true; calls_back = false; aborts = false; binds = false }

abbrev begun : Pull
begun = pull (
    opened consumes (record ten {
      expires = 30000;
      idle_heartbeat = 15000;
      threshold_messages = 3;
      threshold_bytes = 1;
    }))

abbrev busy : List Event
busy =
    receives (message 7 100)
    ∷ receives (info 408 (codes "request timeout") 2 0)
    ∷ resets false
    ∷ answers unclear
    ∷ retries false
    ∷ answers exists
    ∷ receives (message 8 100)
    ∷ []

begins : new_pull consumes ten ≡ some begun
unfolding new_pull
begins = refl
