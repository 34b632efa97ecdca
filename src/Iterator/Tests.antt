-- ===== src/Iterator/Tests.antt =====
-- A client's loop on concrete events, and the theorems at inputs that meet their hypotheses.
use nats_deno.Base.{ℕ, ◌+◌, ◌*◌, ◌≤◌, ◌≡◌, refl, Bool, true, false, some, List, [], ◌∷◌, leb}
use nats_deno.Iterator.{
  value, call, stops, waiting, ended, Run, new_run, Event, pushes, turns, run, iterate, invoke,
  take_batch, next_batch, present, stop,
}
use nats_deno.Iterator.Accounts.{IsOrdered}
use nats_deno.Iterator.Order.{run-IsOrdered}
use nats_deno.Iterator.Drains.{turn_times, drains}

abbrev take_all : ℕ → Bool × Bool
take_all n = (true, false)

abbrev small : ℕ → Bool
small n = leb n 9

abbrev events : List (Event ℕ)
events =
    turns
    ∷ pushes (value 3)
    ∷ pushes (value 12)
    ∷ turns
    ∷ turns
    ∷ pushes (call (stops (some 7)))
    ∷ turns
    ∷ turns
    ∷ turns
    ∷ turns
    ∷ pushes (value 4)
    ∷ turns
    ∷ []

shows_three : (run take_all small events new_run).out ≡ 3 ∷ []
unfolding run iterate take_batch next_batch present invoke stop
shows_three = refl

ends_by_error : (run take_all small events new_run).phase ≡ ended (some 7)
unfolding run iterate take_batch next_batch present invoke stop
ends_by_error = refl

run-IsOrdered_example : IsOrdered small (run take_all small events new_run)
run-IsOrdered_example = run-IsOrdered small take_all events new_run (refl, refl)

abbrev two_queued : Run ℕ
two_queued = record new_run {
  it = record new_run.it { yields = value 3 ∷ value 12 ∷ []; signal = true; yielding = true };
  phase = waiting;
}

drains_example :
    (n : ℕ) × (n ≤ 2 * 2 + 2)
    × ((turn_times small n two_queued).phase ≡ waiting)
    × ((turn_times small n two_queued).out ≡ 3 ∷ [])
    × ((turn_times small n two_queued).it.yields ≡ [])
drains_example = drains small two_queued refl refl refl refl tt
