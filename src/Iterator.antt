-- ===== src/Iterator.antt =====
-- nats-base-client/queued_iterator.ts: `QueuedIteratorImpl`. A function that is queued is what its call
-- does to the iterator. The generator of `iterate` is a state machine: `turn` runs it to the next
-- `yield`, `await` or test of its loops. An error is a number. `pendingFiltered`, which may be
-- negative, is the difference of two counters. `accepted` and `out` collect what `push` has taken and
-- what was yielded.
pub mod Accounts
pub mod Order
pub mod Drains
mod Tests
use nats_deno.Base.{
  ℕ, ◌+◌, ◌-◌, Bool, true, false, not, ◌&&◌, ◌||◌, Option, none, some, List, [], ◌∷◌, ◌++◌, length,
  ◌==◌, if◌then◌else◌,
}

pub data Effect : Type 0 where
  quiet : Effect
  stops : Option ℕ → Effect
  throws : ℕ → Effect

pub data Item {ℓ} (A : Type ℓ) : Type ℓ where
  value : A → Item A
  call : Effect → Item A

pub record Queued {ℓ} (A : Type ℓ) : Type ℓ where
  pub inflight : ℕ
  pub processed : ℕ
  pub received : ℕ
  pub no_iterator : Bool
  pub done : Bool
  pub signal : Bool
  pub yields : List (Item A)
  pub filtered : ℕ
  pub pending_up : ℕ
  pub pending_down : ℕ
  pub err : Option ℕ
  pub yielding : Bool

-- Where the generator stands: not called, in front of the loop's wait, in the inner loop with these
-- items to come, at the `yield`, or at its end.
pub data Phase {ℓ} (A : Type ℓ) : Type ℓ where
  fresh waiting : Phase A
  batch yielded : List (Item A) → Phase A
  ended : Option ℕ → Phase A

pub record Run {ℓ} (A : Type ℓ) : Type ℓ where
  pub it : Queued A
  pub phase : Phase A
  pub accepted : List A
  pub out : List A

-- What the client and the handler do, in any order.
pub data Event {ℓ} (A : Type ℓ) : Type ℓ where
  pushes : Item A → Event A
  stops_it : Option ℕ → Event A
  turns leaves : Event A

module _ {ℓ} {A : Type ℓ} where
  abbrev pub new_queued : Queued A
  new_queued = record {
    inflight = 0;
    processed = 0;
    received = 0;
    no_iterator = false;
    done = false;
    signal = false;
    yields = [];
    filtered = 0;
    pending_up = 0;
    pending_down = 0;
    err = none;
    yielding = false;
  }

  abbrev pub new_run : Run A
  new_run = record { it = new_queued; phase = fresh; accepted = []; out = [] }

  -- `stop`
  unfoldable pub stop : Option ℕ → Queued A → Queued A
  stop e q = if q.done then q else record q { err = e; done = true; signal = true }

  -- `getProcessed` and `getReceived`
  abbrev pub get_processed : Queued A → ℕ
  get_processed q = if q.no_iterator then q.received else q.processed

  abbrev pub get_received : Queued A → ℕ
  get_received q = q.received - q.filtered

  -- `getPending`
  abbrev pub get_pending : Queued A → ℕ
  get_pending q = ((length q.yields + q.inflight) + q.pending_down) - q.pending_up

  -- The end of the generator, by an error or by its own end: `finally` stops the iterator.
  abbrev pub end_with : Option ℕ → Run A → Run A
  end_with e r = record r { it = stop none r.it; phase = ended e }

  -- A queued function is called, and sets the error or throws.
  unfoldable pub invoke : Effect → List (Item A) → Run A → Run A
  unfolding stop
  invoke (throws e) rest r = end_with (some e) r
  invoke quiet rest r = elim r.it.err [
    | none ↦ record r { phase = batch rest }
    | some e ↦ end_with (some e) r
  ]
  invoke (stops e) rest r =
      let s = record r { it = stop e r.it } in
      elim s.it.err [ none ↦ record s { phase = batch rest } | some f ↦ end_with (some f) s ]

  -- Behind the inner loop.
  unfoldable pub next_batch : Run A → Run A
  unfolding stop
  next_batch r = if r.it.done then end_with none r else record r {
    it = if length r.it.yields == 0 then record r.it { signal = false } else r.it;
    phase = waiting;
  }

  -- In front of the inner loop.
  unfoldable pub take_batch : Run A → Run A
  unfolding stop
  take_batch r = if (length r.it.yields == 0) && not r.it.signal then r else elim r.it.err [
    | some e ↦ end_with (some e) r
    | none ↦ record r {
      it = record r.it { inflight = length r.it.yields; yields = [] };
      phase = batch r.it.yields;
    }
  ]

  -- A call of `iterate`: 0 and 1 stand for its two errors.
  unfoldable pub iterate : Run A → Run A
  iterate r =
      if r.it.no_iterator
      then record r { phase = ended (some 0) }
      else if r.it.yielding
      then record r { phase = ended (some 1) }
      else record r { it = record r.it { yielding = true }; phase = waiting }

  -- `ingest` is the first filter; without it, every value is taken and none counts as filtered.
  module _ (ingest : A → Bool × Bool) where
    -- `push`
    unfoldable pub push : Item A → Run A → Run A
    push (call f) r =
        if r.it.done
        then r
        else record r { it = record r.it { yields = r.it.yields ++ call f ∷ []; signal = true } }
    push (value a) r =
        let (taken, protocol) = ingest a in
        let q =
          if protocol
          then record r.it { filtered = r.it.filtered + 1; pending_up = r.it.pending_up + 1 }
          else r.it in
        if r.it.done || not taken then r else record r {
          it = record q { yields = q.yields ++ value a ∷ []; signal = true };
          accepted = r.accepted ++ a ∷ [];
        }

  -- `pass` is the second filter; without it, every value passes.
  module _ (pass : A → Bool) where
    -- A value in the inner loop.
    unfoldable pub present : A → List (Item A) → Run A → Run A
    present a rest r =
        if pass a
        then record r {
          it = record r.it { processed = r.it.processed + 1 };
          phase = yielded rest;
          out = r.out ++ a ∷ [];
        }
        else record r {
          it = record r.it { pending_down = r.it.pending_down + 1; inflight = r.it.inflight - 1 };
          phase = batch rest;
        }

    unfoldable pub turn_at : Phase A → Run A → Run A
    unfolding iterate take_batch next_batch invoke present
    turn_at fresh r = iterate r
    turn_at waiting r = take_batch r
    turn_at (batch []) r = next_batch r
    turn_at (batch (call f ∷ rest)) r = invoke f rest r
    turn_at (batch (value a ∷ rest)) r = present a rest r
    turn_at (yielded rest) r = record r {
      it = record r.it { inflight = r.it.inflight - 1 };
      phase = batch rest;
    }
    turn_at (ended e) r = r

    unfoldable pub turn : Run A → Run A
    unfolding turn_at
    turn r = turn_at r.phase r

  -- `return` of the generator: the client's loop is left at a `yield`.
  unfoldable pub leave_at : Phase A → Run A → Run A
  unfolding stop
  leave_at (yielded rest) r = end_with none r
  leave_at _ r = r

  module _ (ingest : A → Bool × Bool) (pass : A → Bool) where
    unfoldable pub step : Event A → Run A → Run A
    unfolding push stop turn leave_at
    step (pushes i) r = push ingest i r
    step (stops_it e) r = record r { it = stop e r.it }
    step turns r = turn pass r
    step leaves r = leave_at r.phase r

    unfoldable pub run : List (Event A) → Run A → Run A
    unfolding step
    run [] r = r
    run (e ∷ es) r = run es (step e r)
