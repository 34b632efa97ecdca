-- ===== src/Iterator/Drains.antt =====
-- A client that goes on reading comes to the end of what is queued.
use mathlib.Core.List.{append-nil, append_assoc}
use nats_deno.Base.{
  ℕ, zero, suc, ◌+◌, ◌-◌, ◌*◌, ◌≤◌, ◌≡◌, refl, sym, ap, ◌∙◌, inl, inr, Bool, true, false, none,
  List, [], ◌∷◌, ◌++◌, length, arith, Bool-cases,
}
use nats_deno.Iterator.{
  Item, value, call, waiting, batch, Run, next_batch, take_batch, present, turn_at, turn,
}
use nats_deno.Iterator.Accounts.{kept}

module _ {ℓ} {A : Type ℓ} (pass : A → Bool) where
  -- Turns without anything else happening.
  unfoldable pub turn_times : ℕ → Run A → Run A
  turn_times zero r = r
  turn_times (suc n) r = turn_times n (turn pass r)

  abbrev pub AllValues : List (Item A) → Type 0
  AllValues [] = Unit
  AllValues (value a ∷ items) = AllValues items
  AllValues (call f ∷ items) = ⊥

  -- The inner loop shows all of its values, and comes to its end.
  batch_through :
      (items : List (Item A)) (r : Run A)
      → AllValues items
      → r.phase ≡ batch items
      → r.it.done ≡ false
      → r.it.yields ≡ []
      → (n : ℕ) × (n ≤ 2 * length items)
        × ((turn_times n r).phase ≡ batch [])
        × ((turn_times n r).out ≡ r.out ++ kept pass items)
        × ((turn_times n r).it.yields ≡ [])
        × ((turn_times n r).it.done ≡ false)
  unfolding turn_times
  batch_through [] r v e d y = (0, omega arith, e, sym (append-nil r.out), y, d)
  batch_through (call f ∷ items) r v e d y = elim v [ ]
  batch_through (value a ∷ items) r v e d y = elim (Bool-cases (pass a)) [
    | inl shown ↦
        let s = record r {
          it = record r.it { processed = r.it.processed + 1; inflight = r.it.inflight - 1 };
          phase = batch items;
          out = r.out ++ a ∷ [];
        } in
        let two : turn pass (turn pass r) ≡ s = unfold turn turn_at present in rw (e, shown) refl in
        let (n, b, p, o, z, f) = batch_through items s v refl d y in
        (
          suc (suc n),
          omega (arith, b),
          ap (λ (x : Run A). (turn_times n x).phase) two ∙ p,
          ap (λ (x : Run A). (turn_times n x).out) two
              ∙ rw shown (o ∙ append_assoc r.out (a ∷ []) (kept pass items)),
          ap (λ (x : Run A). (turn_times n x).it.yields) two ∙ z,
          ap (λ (x : Run A). (turn_times n x).it.done) two ∙ f,
        )
    | inr hidden ↦
        let s = record r {
          it = record r.it { pending_down = r.it.pending_down + 1; inflight = r.it.inflight - 1 };
          phase = batch items;
        } in
        let one : turn pass r ≡ s = unfold turn turn_at present in rw (e, hidden) refl in
        let (n, b, p, o, z, f) = batch_through items s v refl d y in
        (
          suc n,
          omega (arith, b),
          ap (λ (x : Run A). (turn_times n x).phase) one ∙ p,
          ap (λ (x : Run A). (turn_times n x).out) one ∙ rw hidden o,
          ap (λ (x : Run A). (turn_times n x).it.yields) one ∙ z,
          ap (λ (x : Run A). (turn_times n x).it.done) one ∙ f,
        )
  ]

  turn_times-suc : (n : ℕ) (r : Run A) → turn_times (suc n) r ≡ turn pass (turn_times n r)
  unfolding turn_times
  turn_times-suc zero r = refl
  turn_times-suc (suc n) r = turn_times-suc n (turn pass r)

  -- A loop that waits, where nothing has stopped it and values are queued, shows those that pass, all
  -- of them and in order, in at most two turns for each and two more, and waits again with nothing queued.
  pub drains :
      (r : Run A)
      → r.phase ≡ waiting
      → r.it.done ≡ false
      → r.it.err ≡ none
      → r.it.signal ≡ true
      → AllValues r.it.yields
      → (n : ℕ) × (n ≤ 2 * length r.it.yields + 2)
        × ((turn_times n r).phase ≡ waiting)
        × ((turn_times n r).out ≡ r.out ++ kept pass r.it.yields)
        × ((turn_times n r).it.yields ≡ [])
  unfolding turn_times
  drains r e d f g v =
      let s = record r {
        it = record r.it { inflight = length r.it.yields; yields = [] };
        phase = batch r.it.yields;
      } in
      let first : turn pass r ≡ s = unfold turn turn_at take_batch in rw (e, f, g) ground arith in
      let (n, b, p, o, z, h) = batch_through r.it.yields s v refl d refl in
      let t = turn_times n s in
      let back : (turn pass t).phase ≡ waiting
          × ((turn pass t).out ≡ t.out)
          × ((turn pass t).it.yields ≡ t.it.yields) =
        unfold turn turn_at next_batch in rw p ground arith in
      let (w, u, y) = back in
      let all : turn_times (suc (suc n)) r ≡ turn pass t =
        turn_times-suc (suc n) r ∙ ap (turn pass) (ap (turn_times n) first) in
      (
        suc (suc n),
        omega (arith, b),
        ap (λ (x : Run A). x.phase) all ∙ w,
        ap (λ (x : Run A). x.out) all ∙ u ∙ o,
        ap (λ (x : Run A). x.it.yields) all ∙ y ∙ z,
      )
