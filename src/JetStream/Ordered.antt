-- ===== src/JetStream/Ordered.antt =====
-- jetstream/consumer.ts: `OrderedPullConsumerImpl`, which makes a new consumer on the server where
-- a message is missing. A consumer begins at a sequence of the stream; deliver policies that begin at
-- the end of the stream or at a time are left out. A message comes with the serial of the handler that
-- it is given to, which is the one of the consumer it is from, and a reset is over before the next
-- event. What the client is handed is collected by its sequences in the stream.
pub mod Gapless
mod Tests
use nats_deno.Base.{
  ℕ, zero, suc, ◌+◌, ◌-◌, Bool, true, false, not, ◌&&◌, ◌||◌, List, [], ◌∷◌, ◌++◌, ◌==◌,
  if◌then◌else◌,
}

-- `PullConsumerType`, once it is set
pub data ConsumerType : Type 0 where
  fetch consume : ConsumerType

pub record Ordered : Type 0 where
  pub kind : ConsumerType
  pub stream_seq : ℕ
  pub deliver_seq : ℕ
  pub serial : ℕ
  -- `currentConsumer` is there, and where it begins.
  pub current : Bool
  pub opt_start_seq : ℕ
  pub stops : ℕ
  pub delivered : List ℕ

-- The constructor
abbrev pub new_ordered : ConsumerType → ℕ → Ordered
new_ordered kind start_seq = record {
  kind = kind;
  stream_seq = start_seq - 1;
  deliver_seq = 0;
  serial = 0;
  current = false;
  opt_start_seq = 0;
  stops = 0;
  delivered = [];
}

-- `resetConsumer` with `getConsumerOpts`
unfoldable pub reset_consumer : ℕ → Ordered → Ordered
reset_consumer seq o = record o {
  deliver_seq = 0;
  serial = o.serial + 1;
  current = true;
  opt_start_seq = if seq == 0 then 1 else seq;
}

-- `reset`
unfoldable pub reset : Bool → Ordered → Ordered
unfolding reset_consumer
reset ordered_reset o =
    let remade =
      if not o.current || ordered_reset then reset_consumer (o.stream_seq + 1) o else o in
    elim o.kind [
      | fetch ↦ if ordered_reset then record o { current = false; stops = o.stops + 1 } else remade
      | consume ↦ remade
    ]

-- The handler that `internalHandler` makes for a serial.
unfoldable pub internal_handler : ℕ → ℕ → ℕ → Ordered → Ordered
unfolding reset
internal_handler serial dseq sseq o =
    if not (o.serial == serial)
    then o
    else if not (dseq == o.deliver_seq + 1)
    then reset true o
    else record o { deliver_seq = dseq; stream_seq = sseq; delivered = o.delivered ++ sseq ∷ [] }

-- A message, the source's report that the consumer is gone, and the client's next call.
pub data Event : Type 0 where
  comes : ℕ → ℕ → ℕ → Event
  resets calls : Event

unfoldable pub step : Event → Ordered → Ordered
unfolding internal_handler reset
step (comes serial dseq sseq) o = internal_handler serial dseq sseq o
step resets o = reset true o
step calls o = reset false o

unfoldable pub run : List Event → Ordered → Ordered
unfolding step
run [] o = o
run (e ∷ es) o = run es (step e o)
