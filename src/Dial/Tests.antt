-- ===== src/Dial/Tests.antt =====
-- Runs of the search for a server.
use nats_deno.Base.{ℕ, ◌≡◌, refl, true, false, some, List, [], ◌∷◌, if◌then◌else◌, leb, ◌++◌}
use nats_deno.Servers.{Server, has}
use nats_deno.Dial.{Options, Dial, Turn, Outcome, failed, Run, turn, dial_loop}
use nats_deno.Dial.First.{first_failure}

abbrev server : ℕ → Server
server id = record { id = id; listen = []; hostname = []; gossiped = false; tls_name = [] }

-- Three servers, none of them tried.
abbrev three : Dial
three = record {
  servers = record {
    first_select = true;
    servers = server 0 ∷ server 1 ∷ server 2 ∷ [];
    current = some (server 0);
    tls_name = [];
    created = 3;
  };
  reconnects = λ id. 0;
  last_connect = λ id. 0;
  connected_once = false;
  last_error = false;
}

abbrev attempts : ℕ → Options
attempts m = record {
  max_reconnect_attempts = some m;
  wait_on_first_connect = false;
  takes_updates = true;
  host_port = λ u. (u, u);
  is_ip = λ u. false;
}

-- A round at a time, where no address answers.
abbrev round_at : ℕ → Turn
round_at time = record {
  closed = false;
  abort_reconnect = false;
  delay = 2000;
  now = time;
  later = time;
  dials = false ∷ [];
  infos = [];
}

-- With one attempt allowed, only two of the three servers are tried.
two_tried :
    dial_loop (attempts 1) (round_at 1 ∷ round_at 2 ∷ round_at 3 ∷ round_at 4 ∷ []) three ≡ record {
      ends = some false;
      failures = 2;
      delays = 0;
      ended_as =
          (dial_loop
            (attempts 1)
            (round_at 1 ∷ round_at 2 ∷ round_at 3 ∷ round_at 4 ∷ [])
            three).ended_as;
    }
unfolding dial_loop
two_tried = refl

first_failure_example :
    ((turn (attempts 1) (round_at 1) three).0 ≡ failed)
    × ((turn (attempts 1) (round_at 1) three).1.servers.servers
        ≡ (if leb 1 1 then server 1 ∷ [] else (server 1 ∷ []) ++ server 2 ∷ []))
unfolding has nats_deno.Dial.do_dial nats_deno.Dial.hear
first_failure_example =
    first_failure (attempts 1) 1 (round_at 1) three (server 0) (server 2) (server 1 ∷ []) refl refl
      refl refl refl refl refl refl refl refl refl refl

-- The second dial brings word of a server.
abbrev gossiping : Turn
gossiping = record (round_at 2) { infos = ((1 ∷ []) ∷ []) ∷ [] }

abbrev three_rounds : List Turn
three_rounds = round_at 1 ∷ gossiping ∷ round_at 3 ∷ []
