-- ===== src/Iterator/Order.antt =====
-- What a client's loop over the iterator is handed.
use mathlib.Core.List.{append-nil, append_assoc}
use nats_deno.Base.{
  ℕ, ◌+◌, ◌≡◌, refl, ap, ◌∙◌, inl, inr, Bool, true, Option, none, some, List, [], ◌∷◌, ◌++◌, length,
  if◌then◌else◌, arith, length-append, Bool-cases, Option-cases,
}
use nats_deno.Iterator.{
  Effect, quiet, stops, throws, Item, value, call, Phase, fresh, waiting, batch, yielded, ended,
  Run, stop, end_with, invoke, next_batch, take_batch, iterate, push, present, turn_at, turn,
  leave_at, Event, pushes, stops_it, turns, leaves, step, run,
}
use nats_deno.Iterator.Accounts.{
  kept, Accounts, IsOrdered, kept-append, Accounts-value, Accounts-same, Accounts-lost,
}

module _ {ℓ} {A : Type ℓ} (pass : A → Bool) where
  push-IsOrdered :
      (ingest : A → Bool × Bool) (i : Item A) (r : Run A)
      → IsOrdered pass r
      → IsOrdered pass (push ingest i r)
  unfolding push
  push-IsOrdered ingest (call f) r (o, n) = elim (Bool-cases r.it.done) [
    | inl over ↦ ground arith
    | inr open' ↦
        let s = record r {
          it = record r.it { yields = r.it.yields ++ call f ∷ []; signal = true };
        } in
        let same : kept pass s.it.yields ≡ kept pass r.it.yields =
          kept-append pass r.it.yields (call f) ∙ append-nil _ in
        ground (arith, Accounts-same pass r.phase r s o refl same refl)
  ]
  push-IsOrdered ingest (value a) r (o, n) =
      let q =
        if (ingest a).1
        then record r.it { filtered = r.it.filtered + 1; pending_up = r.it.pending_up + 1 }
        else r.it in
      let s = record r {
        it = record q { yields = q.yields ++ value a ∷ []; signal = true };
        accepted = r.accepted ++ a ∷ [];
      } in
      let y : q.yields ≡ r.it.yields = ground arith in
      let p : q.processed ≡ r.it.processed = ground arith in
      ground (arith, Accounts-value pass r.phase a r s o refl (ap (λ t. t ++ value a ∷ []) y) refl)

  stop-IsOrdered :
      (e : Option ℕ) (r : Run A) → IsOrdered pass r → IsOrdered pass (record r { it = stop e r.it })
  unfolding stop
  stop-IsOrdered e r (o, n) =
      ground (arith, Accounts-same pass r.phase r (record r { it = stop e r.it }) o refl same refl)
    where
      same : kept pass (stop e r.it).yields ≡ kept pass r.it.yields
      same = ground arith

  end_with-IsOrdered :
      (e f : Option ℕ) (r : Run A)
      → IsOrdered pass r
      → IsOrdered pass (end_with f (record r { it = stop e r.it }))
  unfolding stop
  end_with-IsOrdered e f r (o, n) = (Accounts-lost pass r.phase r o, ground arith)

  end_here-IsOrdered :
      (f : Option ℕ) (phase : Phase A) (r : Run A)
      → Accounts pass phase r
      → r.it.processed ≡ length r.out
      → IsOrdered pass (end_with f r)
  unfolding stop
  end_here-IsOrdered f phase r o n = (Accounts-lost pass phase r o, ground arith)

  invoke-IsOrdered :
      (f : Effect) (rest : List (Item A)) (r : Run A)
      → Accounts pass (batch rest) r
      → r.it.processed ≡ length r.out
      → IsOrdered pass (invoke f rest r)
  unfolding invoke
  invoke-IsOrdered (throws e) rest r o n = end_here-IsOrdered (some e) (batch rest) r o n
  invoke-IsOrdered quiet rest r o n = elim (Option-cases r.it.err) [
    | inl fine ↦ ground arith
    | inr (e, bad) ↦ ground (arith, end_here-IsOrdered (some e) (batch rest) r o n)
  ]
  invoke-IsOrdered (stops e) rest r o n =
      let s = record r { it = stop e r.it } in
      let y : (stop e r.it).yields ≡ r.it.yields = unfold stop in ground arith in
      let c : (stop e r.it).processed ≡ r.it.processed = unfold stop in ground arith in
      elim (Option-cases s.it.err) [
        | inl fine ↦ ground arith
        | inr (g, bad) ↦ ground (arith, end_here-IsOrdered (some g) (batch rest) s)
      ]

  turn_at-IsOrdered :
      (phase : Phase A) (r : Run A)
      → r.phase ≡ phase
      → Accounts pass phase r
      → r.it.processed ≡ length r.out
      → IsOrdered pass (turn_at pass phase r)
  unfolding turn_at iterate next_batch take_batch present
  turn_at-IsOrdered fresh r e o n = ground (arith, Accounts-lost pass fresh r o)
  turn_at-IsOrdered waiting r e o n = elim (Option-cases r.it.err) [
    | inl fine ↦ ground (arith, append-nil (kept pass r.it.yields))
    | inr (x, bad) ↦ ground (arith, end_here-IsOrdered (some x) waiting r o n)
  ]
  turn_at-IsOrdered (batch []) r e o n = ground (arith, end_here-IsOrdered none (batch []) r o n)
  turn_at-IsOrdered (batch (value a ∷ rest)) r e o n = ground (
    arith,
    append_assoc r.out (a ∷ []) (kept pass rest ++ kept pass r.it.yields),
    length-append r.out (a ∷ []),
  )
  turn_at-IsOrdered (batch (call f ∷ rest)) r e o n = invoke-IsOrdered f rest r o n
  turn_at-IsOrdered (yielded rest) r e o n = (o, n)
  turn_at-IsOrdered (ended x) r e o n = rw e (o, n)

  leave_at-IsOrdered :
      (phase : Phase A) (r : Run A)
      → r.phase ≡ phase
      → IsOrdered pass r
      → IsOrdered pass (leave_at phase r)
  unfolding leave_at
  leave_at-IsOrdered (yielded rest) r e (o, n) = end_here-IsOrdered none r.phase r o n
  leave_at-IsOrdered fresh r e h = h
  leave_at-IsOrdered waiting r e h = h
  leave_at-IsOrdered (batch x) r e h = h
  leave_at-IsOrdered (ended x) r e h = h

  step-IsOrdered :
      (ingest : A → Bool × Bool) (e : Event A) (r : Run A)
      → IsOrdered pass r
      → IsOrdered pass (step ingest pass e r)
  unfolding step turn
  step-IsOrdered ingest (pushes i) r h = push-IsOrdered ingest i r h
  step-IsOrdered ingest (stops_it e) r h = stop-IsOrdered e r h
  step-IsOrdered ingest turns r (o, n) = turn_at-IsOrdered r.phase r refl o n
  step-IsOrdered ingest leaves r h = leave_at-IsOrdered r.phase r refl h

  -- Whatever is pushed, stopped, left and run, in any order: while the client's loop runs, what it was
  -- shown and what still waits are the values that were taken and pass the filter, each once and in
  -- order; when it has ended, what it was shown is a front part of them. `processed` counts them.
  pub run-IsOrdered :
      (ingest : A → Bool × Bool) (events : List (Event A)) (r : Run A)
      → IsOrdered pass r
      → IsOrdered pass (run ingest pass events r)
  unfolding run
  run-IsOrdered ingest [] r h = h
  run-IsOrdered ingest (e ∷ events) r h =
      run-IsOrdered ingest events (step ingest pass e r) (step-IsOrdered ingest e r h)
