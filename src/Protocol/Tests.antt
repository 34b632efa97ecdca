-- ===== src/Protocol/Tests.antt =====
-- The handler on concrete states, and the theorems at inputs that meet their hypotheses.
use nats_deno.Base.{
  ℕ, ◌+◌, ◌≤◌, ◌≡◌, refl, true, false, Option, none, some, List, [], ◌∷◌, ◌++◌, Bytes, codes, arith,
}
use nats_deno.DataBuffer.{new_data_buffer, fill, drain, pack}
use nats_deno.DataBuffer.Laws.{joined}
use nats_deno.Protocol.{
  Sub, Info, Protocol, text, publish, send_command, subscribe, unsubscribe, unsub, modify, cancel,
  delete, add, resub, process_msg, find, run_microtask, max_payload_exceeded, refused,
}
use nats_deno.Protocol.Outbound.{Keeps, send_command_lem}
use nats_deno.Protocol.Sids.{IsFresh, here, more, subscribes, resubscribes, receives, Reach-IsFresh}
use nats_deno.Protocol.Subscribe.{subscribe_lem, unsubscribe_lem}
use nats_deno.Protocol.Deliver.{log_of, room, take_room, IsOpen, process_all, process_all_lem}

-- A stand-in for the runtime's conversion of a number to a string: one digit.
abbrev one_digit : ℕ → Bytes
one_digit n = (b'0' + n) ∷ []

abbrev some_sub : ℕ → Option ℕ → Sub
some_sub sid max = record {
  sid = sid;
  subject = codes "a";
  queue = none;
  request_subject = none;
  max = max;
  received = 0;
  no_iterator = false;
  finished = false;
}

abbrev connected_to : Info → Protocol
connected_to i = record {
  subs = some_sub 1 (some 2) ∷ some_sub 2 none ∷ [];
  sid_counter = 2;
  closed = false;
  connected = true;
  info_received = true;
  info = some i;
  pending_limit = 64;
  outbound = new_data_buffer;
  sent = [];
  flush_queued = false;
  in_msgs = 0;
  in_bytes = 0;
  out_msgs = 0;
  out_bytes = 0;
  log = [];
  closed_subs = [];
}

abbrev small : Info
small = record { max_payload = 4; headers = true }

abbrev messages : List (ℕ × Bytes)
messages = (1, codes "x") ∷ (2, codes "y") ∷ (1, codes "z") ∷ (1, codes "w") ∷ []

start-IsOpen : IsOpen (find 1 (connected_to small).subs)
unfolding find
start-IsOpen = (refl, omega arith)

too_long :
    publish one_digit (codes "a") (text (codes "12345")) none none (connected_to small)
    ≡ refused max_payload_exceeded
unfolding publish
too_long = refl

tells_server :
    (run_microtask (subscribe one_digit (some_sub 0 (some 3)) (connected_to small))).sent
    ≡ codes "SUB a 3\r\nUNSUB 3 3\r\n"
unfolding run_microtask subscribe unsubscribe unsub send_command find modify cancel delete add fill
    drain pack
tells_server = refl

process_all_lem_example :
    log_of 1 (process_all one_digit messages (connected_to small)).log
    ≡ [] ++ take_room (room (find 1 (connected_to small).subs)) (log_of 1 messages)
process_all_lem_example =
    process_all_lem one_digit 1 messages (connected_to small) (λ e. omega arith) start-IsOpen

hands_two :
    take_room (room (find 1 (connected_to small).subs)) (log_of 1 messages)
    ≡ codes "x" ∷ codes "z" ∷ []
unfolding find
hands_two = refl

send_command_lem_example :
    Keeps
      (connected_to small)
      (send_command (codes "PING\r\n") (codes "a" ∷ []) (connected_to small))
      (codes "PING\r\n" ++ joined (codes "a" ∷ []))
send_command_lem_example =
    send_command_lem (codes "PING\r\n") (codes "a" ∷ []) (connected_to small) refl

start-IsFresh : IsFresh (connected_to small)
start-IsFresh = (omega arith, (omega arith, omega arith))

abbrev later : Protocol
later =
    process_msg one_digit 3 (codes "x") (
      resub one_digit 1 (codes "b")
        (subscribe one_digit (some_sub 0 (some 3)) (connected_to small)))

Reach-IsFresh_example : IsFresh later × (2 ≤ later.sid_counter)
Reach-IsFresh_example =
    Reach-IsFresh one_digit (connected_to small) later
      (more _ (more _ (more _ here (subscribes (some_sub 0 (some 3)))) (resubscribes 1 (codes "b")))
        (receives 3 (codes "x")))
      start-IsFresh

subscribe_lem_example :
    (find 3 (connected_to small).subs ≡ none)
    × (find 3 (subscribe one_digit (some_sub 0 (some 3)) (connected_to small)).subs
        ≡ some (some_sub 3 (some 3)))
    × Keeps
        (connected_to small)
        (subscribe one_digit (some_sub 0 (some 3)) (connected_to small))
        (codes "SUB a 3\r\nUNSUB 3 3\r\n")
subscribe_lem_example =
    subscribe_lem one_digit 3 (some_sub 0 (some 3)) (connected_to small) refl start-IsFresh refl

unsubscribe_lem_example :
    (find 2 (unsubscribe one_digit 2 none (connected_to small)).subs ≡ none)
    × ((unsubscribe one_digit 2 none (connected_to small)).closed_subs ≡ 2 ∷ [])
    × Keeps
        (connected_to small)
        (unsubscribe one_digit 2 none (connected_to small))
        (codes "UNSUB 2\r\n")
unfolding find
unsubscribe_lem_example =
    unsubscribe_lem one_digit 2 2 none (some_sub 2 none) (connected_to small) refl refl
