-- ===== src/Dial/Bounds.antt =====
-- The search for a server ends: each dial that fails uses up an attempt of a server, or a server.
use nats_deno.Base.{ℕ, ◌+◌, ◌≤◌, ◌≡◌, none, List, length, if◌then◌else◌}
use nats_deno.Servers.{Servers}
use nats_deno.Dial.{Options, Dial, Turn, clear, Run}
use nats_deno.Dial.Gossip.{attempts_of}
use nats_deno.Dial.Attempts.{IsCounting, left}

-- The first selection is the one that may be of a server that is not in the pool.
abbrev pub budget : ℕ → Dial → ℕ
budget m d = left m d + (if d.servers.first_select then 1 else 0)

-- What a round selects from: nothing, once the client is closed.
abbrev pool_at : Turn → Dial → Servers
pool_at t d = if t.closed then clear d.servers else d.servers

-- The servers that a round adds weigh all their attempts; that much may be added to the budget.
abbrev Uses : ℕ → ℕ → Options → Dial → Dial → Type 0
Uses m used o d r =
    (added : ℕ) × (r.servers.created ≡ d.servers.created + added)
    × (used + budget m r ≤ budget m d + attempts_of m added)
    × IsCounting o r

-- How the loop keeps within a budget.
abbrev Within : ℕ → Dial → List Turn → Run → Type 0
Within m d ts r =
    (added : ℕ) × (r.ended_as.servers.created ≡ d.servers.created + added)
    × (r.failures ≤ budget m d + attempts_of m added)
    × (r.ends ≡ none → length ts ≡ r.failures + r.delays)
