-- ===== src/JetStream/Pull.antt =====
-- jetstream/consumer.ts: `PullConsumerMessagesImpl`, which asks for messages and counts what is still
-- to come. The counters may be negative, so each is the difference of two numbers. A call of the
-- server's information is an event with its answer; the waits between two calls, the heartbeat
-- monitor's clock, the status iterator and the reset handler of an ordered consumer are the
-- environment's. `expires` and `idle_heartbeat`, which only pass through to the request, are left out
-- of it.
pub mod Fed
mod Tests
use nats_deno.Base.{
  ℕ, zero, suc, ◌+◌, ◌-◌, ◌*◌, ◌/◌, Bool, true, false, not, ◌&&◌, ◌||◌, Option, none, some, List,
  [], ◌∷◌, ◌++◌, Bytes, codes, bytes_eq, length, leb, ltb, ◌==◌, if◌then◌else◌,
}

pub record Signed : Type 0 where
  pub plus : ℕ
  pub minus : ℕ

abbrev pub no_count : Signed
no_count = record { plus = 0; minus = 0 }

abbrev pub is_zero : Signed → Bool
is_zero n = n.plus == n.minus

abbrev pub is_at_most : Signed → ℕ → Bool
is_at_most n m = leb n.plus (m + n.minus)

abbrev pub less : Signed → ℕ → Signed
less n m = record n { minus = n.minus + m }

abbrev pub add : Signed → Signed → Signed
add n m = record { plus = n.plus + m.plus; minus = n.minus + m.minus }

-- `limit - n`
abbrev pub left_of : ℕ → Signed → Signed
left_of limit n = record { plus = limit + n.minus; minus = n.plus }

-- The numbers among the options of the client; 0 where there is none.
pub record Options : Type 0 where
  pub max_messages : ℕ
  pub max_bytes : ℕ
  pub expires : ℕ
  pub idle_heartbeat : ℕ
  pub threshold_messages : ℕ
  pub threshold_bytes : ℕ

abbrev pub or_else : ℕ → ℕ → ℕ
or_else zero d = d
or_else (suc n) d = suc n

-- `Math.round(n * .75) || 1`
abbrev pub three_quarters : ℕ → ℕ
three_quarters n = or_else ((n * 3 + 2) / 4) 1

-- `parseOptions`; `none` is its error.
unfoldable pub parse_options : Bool → Options → Option Options
parse_options refilling o =
    let messages = or_else o.max_messages 100 in
    let expires = or_else o.expires 30000 in
    let heartbeat = or_else o.idle_heartbeat (expires / 2) in
    let base = record o {
      max_messages = messages;
      expires = expires;
      idle_heartbeat = if ltb 30000 heartbeat then 30000 else heartbeat;
    } in
    if (ltb 0 o.max_messages && ltb 0 o.max_bytes) || ltb expires 1000
    then none
    else if refilling
    then some (record base {
      threshold_messages = or_else o.threshold_messages (three_quarters messages);
      threshold_bytes = or_else o.threshold_bytes (three_quarters o.max_bytes);
    })
    else some base

pub data Reason : Type 0 where
  no_reason : Reason
  given : ℕ → Reason
  status : ℕ → Bytes → Reason

-- What is put into the iterator or handed to the callback: a message, a request for more, the function
-- that stops, and the one that ends the iterator for a reason.
pub data Output : Type 0 where
  delivers : ℕ → Output
  requests : Signed → Signed → Output
  stops : Output
  ends : Reason → Output

pub record Pull : Type 0 where
  pub opts : Options
  pub msgs : Signed
  pub bytes : Signed
  pub asked : Signed
  pub refilling : Bool
  pub has_callback : Bool
  pub abort_on_missing : Bool
  pub bind : Bool
  pub for_ordered : Bool
  pub in_back_off : Bool
  pub asking : ℕ
  pub waiting : ℕ
  pub subscribed : Bool
  pub done : Bool
  pub received : ℕ
  pub outputs : List Output

-- `_push`: the iterator takes nothing once it is done.
abbrev pub emit : Output → Pull → List Output
emit o p = if p.done && not p.has_callback then p.outputs else p.outputs ++ o ∷ []

-- `stop`
unfoldable pub stop : Reason → Pull → Pull
stop why p =
    if p.done
    then p
    else record p { subscribed = false; done = p.has_callback; outputs = emit (ends why) p }

-- `this._push(() => { this.stop(); })`
unfoldable pub push_stop : Pull → Pull
unfolding stop
push_stop p = if p.has_callback then stop no_reason p else record p { outputs = emit stops p }

-- `pull(this.pullOptions())`
unfoldable pub pull : Pull → Pull
pull p =
    let batch = left_of p.opts.max_messages p.msgs in
    let max_bytes = left_of p.opts.max_bytes p.bytes in
    record p {
      msgs = add p.msgs batch;
      bytes = add p.bytes max_bytes;
      asked = record (p.asked) { plus = p.asked.plus + 1 };
      outputs = emit (requests batch max_bytes) p;
    }

-- What comes on the subscription: an error; a heartbeat; a status message with the numbers of its
-- headers; a message, with its size.
pub data Incoming : Type 0 where
  failure : ℕ → Incoming
  heartbeat : Incoming
  info : ℕ → Bytes → ℕ → ℕ → Incoming
  message : ℕ → ℕ → Incoming

-- The part behind the counting: a fetch ends where nothing is asked for, a consumer asks for more.
abbrev pub is_low : Pull → Bool
is_low p =
    (ltb 0 p.opts.max_messages && is_at_most p.msgs p.opts.threshold_messages)
    || (ltb 0 p.opts.max_bytes && is_at_most p.bytes p.opts.threshold_bytes)

unfoldable pub refill : Pull → Pull
unfolding pull push_stop
refill p =
    if p.refilling
    then (if is_low p then pull p else p)
    else if is_zero p.asked
    then push_stop p
    else p

unfoldable pub settle : Pull → Pull
unfolding refill
settle p = refill (if is_zero p.msgs && is_zero p.bytes then record p { asked = no_count } else p)

-- The callback of the subscription.
unfoldable pub receive : Incoming → Pull → Pull
unfolding stop settle
receive (failure e) p = stop (given e) p
receive heartbeat p = p
receive (info code description msgs_left bytes_left) p =
    if ltb 0 msgs_left || ltb 0 bytes_left
    then settle (record p {
      msgs = less p.msgs msgs_left;
      bytes = less p.bytes bytes_left;
      asked = less p.asked 1;
    })
    else if code == 400
    then stop (status 400 description) p
    else if code == 409 && bytes_eq description (codes "consumer deleted")
    then (if not p.refilling || p.abort_on_missing
        then stop (status 409 description) p
        else settle p)
    else if code == 503
    then (if not p.refilling || p.abort_on_missing
        then stop (status 503 (codes "no responders")) p
        else settle p)
    else settle p
receive (message m size) p = settle (record p {
  outputs = emit (delivers m) p;
  received = p.received + 1;
  msgs = if is_zero p.msgs then p.msgs else less p.msgs 1;
  bytes = if is_zero p.bytes then p.bytes else less p.bytes size;
})

-- What the server says when it is asked for the consumer.
pub data Answer : Type 0 where
  exists stream_missing consumer_missing unclear : Answer

-- All counters are 0, and the request is made again.
unfoldable pub ask_again : Pull → Pull
unfolding pull
ask_again p = pull (record p { msgs = no_count; bytes = no_count; asked = no_count })

-- `resetPendingWithInfo`: in front of the question, which goes off unless the consumer is done or the
-- connection is closed, and behind its answer. `asking` counts the questions without an answer,
-- `waiting` the calls that will ask once more.
unfoldable pub ask : Bool → Pull → Pull
ask connection_closed p =
    if p.done || connection_closed then p else record p { asking = p.asking + 1 }

abbrev pub wait : Pull → Pull
wait p = record p { in_back_off = true; waiting = p.waiting + 1 }

unfoldable pub attempt : Answer → Pull → Pull
unfolding stop ask_again
attempt exists p = ask_again (record p { in_back_off = false })
attempt stream_missing p =
    if not p.refilling || p.abort_on_missing
    then stop (status 404 (codes "stream not found")) p
    else wait p
attempt consumer_missing p =
    if not p.refilling || p.abort_on_missing
    then stop (status 404 (codes "consumer not found")) p
    else if p.for_ordered
    then p
    else wait p
attempt unclear p = wait p

-- `resetPending`
unfoldable pub reset_pending : Bool → Pull → Pull
unfolding ask_again ask
reset_pending connection_closed p =
    if p.bind then ask_again p else if p.in_back_off then p else ask connection_closed p

pub data Event : Type 0 where
  receives : Incoming → Event
  resets retries : Bool → Event
  answers : Answer → Event
  closes finishes : Event

unfoldable pub step : Event → Pull → Pull
unfolding receive reset_pending ask attempt stop
step (receives i) p = if p.subscribed then receive i p else p
step (resets connection_closed) p = reset_pending connection_closed p
step (retries connection_closed) p =
    if p.waiting == 0 then p else ask connection_closed (record p { waiting = p.waiting - 1 })
step (answers a) p = if p.asking == 0 then p else attempt a (record p { asking = p.asking - 1 })
step closes p = stop no_reason p
step finishes p = if p.subscribed then p else record p { done = true }

unfoldable pub run : List Event → Pull → Pull
unfolding step
run [] p = p
run (e ∷ es) p = run es (step e p)

-- The constructor and `start`, with the flags of the client.
pub record Flags : Type 0 where
  pub refills : Bool
  pub calls_back : Bool
  pub aborts : Bool
  pub binds : Bool

abbrev pub opened : Flags → Options → Pull
opened f o = record {
  opts = o;
  msgs = no_count;
  bytes = no_count;
  asked = no_count;
  refilling = f.refills;
  has_callback = f.calls_back;
  abort_on_missing = f.aborts;
  bind = f.binds;
  for_ordered = false;
  in_back_off = false;
  asking = 0;
  waiting = 0;
  subscribed = true;
  done = false;
  received = 0;
  outputs = [];
}

unfoldable pub new_pull : Flags → Options → Option Pull
unfolding parse_options pull
new_pull f o = elim (parse_options f.refills o) [ none ↦ none | some q ↦ some (pull (opened f q)) ]
