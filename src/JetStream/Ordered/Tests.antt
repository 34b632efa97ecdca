-- ===== src/JetStream/Ordered/Tests.antt =====
-- A consumer from sequence 5 on that misses a message and is made anew.
use nats_deno.Base.{ℕ, suc, ◌≡◌, refl, true, List, [], ◌∷◌, ◌++◌, arith}
use nats_deno.JetStream.Ordered.{
  consume, Ordered, new_ordered, internal_handler, Event, comes, calls, step, run,
}
use nats_deno.JetStream.Ordered.Gapless.{AreSent, stream_from, run-gapless}

-- Every sequence from 1 on is in the stream.
abbrev whole : ℕ → ℕ
whole q = q

abbrev bumpy : List Event
bumpy = calls ∷ comes 1 1 5 ∷ comes 1 3 7 ∷ comes 1 2 6 ∷ comes 2 1 6 ∷ []

abbrev remade : Ordered
remade = record {
  kind = consume;
  stream_seq = 6;
  deliver_seq = 1;
  serial = 2;
  current = true;
  opt_start_seq = 6;
  stops = 0;
  delivered = 5 ∷ 6 ∷ [];
}

goes : run bumpy (new_ordered consume 5) ≡ remade
unfolding run
goes = refl

bumpy-AreSent : AreSent whole bumpy (new_ordered consume 5)
unfolding step
bumpy-AreSent = (
  tt,
  (
    λ e. (0, omega arith, refl, refl),
    (
      λ e. (2, omega arith, refl, refl),
      (λ e. absurd (omega (arith, e)), (λ e. (0, omega arith, refl, refl), tt)),
    ),
  ),
)

run-gapless_example :
    ((n : ℕ) × (remade.delivered ≡ stream_from whole 5 n))
    × ((sseq : ℕ)
        → (internal_handler remade.serial (suc remade.deliver_seq) sseq remade).delivered
          ≡ remade.delivered ++ sseq ∷ [])
run-gapless_example = run-gapless whole consume 5 bumpy remade bumpy-AreSent goes
