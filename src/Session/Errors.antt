-- ===== src/Session/Errors.antt =====
-- A subscription that the server does not permit.
use nats_deno.Base.{◌≡◌, List, [], ◌∷◌, ◌≢◌}
use nats_deno.Protocol.{Sub}
use nats_deno.Session.{Session, Context}

-- None of these has the subject and the queue.
abbrev pub AreOthers : Context → List Sub → Type 0
AreOthers c [] = Unit {0}
AreOthers c (u ∷ subs) = (u.subject ≡ c.subject → u.queue ≢ c.queue) × AreOthers c subs
