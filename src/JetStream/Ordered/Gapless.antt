-- ===== src/JetStream/Ordered/Gapless.antt =====
-- An ordered consumer hands on the stream without a gap.
use nats_deno.Base.{
  ℕ, zero, suc, ◌+◌, ◌-◌, ◌<◌, ◌≡◌, refl, sym, ap, subst, ◌∙◌, Bool, true, false, not, ◌||◌, List,
  [], ◌∷◌, ◌++◌, ◌==◌, if◌then◌else◌, arith, if-elim,
}
use nats_deno.JetStream.Ordered.{
  ConsumerType, fetch, consume, Ordered, new_ordered, reset_consumer, reset, internal_handler,
  Event, comes, resets, calls, step, run,
}

-- `next q` is the first sequence of the stream that is not below `q`.
module _ (next : ℕ → ℕ) where
  -- Where the stream goes on behind `n` messages from `q` on.
  abbrev pub position : ℕ → ℕ → ℕ
  position q zero = q
  position q (suc n) = position (suc (next q)) n

  -- The first `n` messages of the stream from `q` on.
  abbrev pub stream_from : ℕ → ℕ → List ℕ
  stream_from q zero = []
  stream_from q (suc n) = next q ∷ stream_from (suc (next q)) n

  position-suc : (q n : ℕ) → position q (suc n) ≡ suc (next (position q n))
  position-suc q zero = refl
  position-suc q (suc n) = position-suc (suc (next q)) n

  stream_from-suc : (q n : ℕ) → stream_from q (suc n) ≡ stream_from q n ++ next (position q n) ∷ []
  stream_from-suc q zero = refl
  stream_from-suc q (suc n) = ap (λ xs. next q ∷ xs) (stream_from-suc (suc (next q)) n)

  -- What the server says of its consumers: it numbers the messages of each from 1, and they are those of
  -- the stream from the sequence on that the consumer was made with. Serials count from 1.
  abbrev pub IsSent : Event → Ordered → Type 0
  IsSent (comes serial dseq sseq) o =
      o.serial ≡ serial
      → (n : ℕ) × (0 < serial) × (dseq ≡ suc n) × (sseq ≡ next (position o.opt_start_seq n))
  IsSent _ o = Unit

  abbrev pub AreSent : List Event → Ordered → Type 0
  AreSent [] o = Unit
  AreSent (e ∷ es) o = IsSent e o × AreSent es (step e o)

  abbrev IsGapless : ℕ → Ordered → Type 0
  IsGapless q o =
      (n : ℕ) × (o.delivered ≡ stream_from q n)
      × (suc o.stream_seq ≡ position q n)
      × (0 < o.serial → position o.opt_start_seq o.deliver_seq ≡ suc o.stream_seq)

  reset_consumer-IsGapless :
      (q : ℕ) (o : Ordered) → IsGapless q o → IsGapless q (reset_consumer (o.stream_seq + 1) o)
  unfolding reset_consumer
  reset_consumer-IsGapless q o (n, d, s, p) = (n, d, s, λ h. ground arith)

  reset-IsGapless : (q : ℕ) (b : Bool) (o : Ordered) → IsGapless q o → IsGapless q (reset b o)
  unfolding reset
  reset-IsGapless q b o h =
      let made = reset_consumer (o.stream_seq + 1) o in
      let remade = if not o.current || b then made else o in
      let remade-IsGapless =
        if-elim (IsGapless q) (not o.current || b) made o (λ e. reset_consumer-IsGapless q o h)
          (λ e. h) in
      go o.kind remade remade-IsGapless
    where
      go :
          (k : ConsumerType) (made : Ordered)
          → IsGapless q made
          → IsGapless q (elim k [
            | fetch ↦ if b then record o { current = false; stops = o.stops + 1 } else made
            | consume ↦ made
          ])
      go fetch made g =
          if-elim (IsGapless q) b (record o { current = false; stops = o.stops + 1 }) made (λ e. h)
            (λ e. g)
      go consume made g = g

  -- The message that the handler takes is the next one of the stream.
  taken-IsGapless :
      (q n sseq : ℕ) (o : Ordered)
      → IsGapless q o
      → 0 < o.serial
      → n ≡ o.deliver_seq
      → sseq ≡ next (position o.opt_start_seq n)
      → IsGapless q (record o {
        deliver_seq = suc n;
        stream_seq = sseq;
        delivered = o.delivered ++ sseq ∷ [];
      })
  taken-IsGapless q n sseq o (k, d, s, p) some_serial same sent =
      let here : position o.opt_start_seq n ≡ position q k =
        ap (position o.opt_start_seq) same ∙ p some_serial ∙ s in
      let it : sseq ≡ next (position q k) = sent ∙ ap next here in
      (
        suc k,
        ap (λ x. o.delivered ++ x ∷ []) it
            ∙ ap (λ xs. xs ++ next (position q k) ∷ []) d
            ∙ sym (stream_from-suc q k),
        ap suc it ∙ sym (position-suc q k),
        λ h. position-suc o.opt_start_seq n ∙ ap suc (sym sent),
      )

  step-IsGapless :
      (q : ℕ) (e : Event) (o : Ordered) → IsSent e o → IsGapless q o → IsGapless q (step e o)
  unfolding step internal_handler
  step-IsGapless q (comes serial dseq sseq) o sent h =
      let taken = record o {
        deliver_seq = dseq;
        stream_seq = sseq;
        delivered = o.delivered ++ sseq ∷ [];
      } in
      let off = not (dseq == o.deliver_seq + 1) in
      if-elim (IsGapless q) (not (o.serial == serial)) o (if off then reset true o else taken)
        (λ stale. h)
        (λ mine.
          if-elim (IsGapless q) off (reset true o) taken (λ e. reset-IsGapless q true o h)
            (λ e.
              let (n, some_serial, d, s) = sent (ground arith) in
              subst
                (λ x. IsGapless q (record o {
                  deliver_seq = x;
                  stream_seq = sseq;
                  delivered = o.delivered ++ sseq ∷ [];
                }))
                (sym d) (taken-IsGapless q n sseq o h (ground arith) (ground arith) s)))
  step-IsGapless q resets o s h = reset-IsGapless q true o h
  step-IsGapless q calls o s h = reset-IsGapless q false o h

  run-IsGapless :
      (q : ℕ) (es : List Event) (o : Ordered)
      → AreSent es o
      → IsGapless q o
      → IsGapless q (run es o)
  unfolding run
  run-IsGapless q [] o s h = h
  run-IsGapless q (e ∷ es) o (s, sent) h =
      run-IsGapless q es (step e o) sent (step-IsGapless q e o s h)

next_is_taken :
    (sseq : ℕ) (o : Ordered)
    → (internal_handler o.serial (suc o.deliver_seq) sseq o).delivered ≡ o.delivered ++ sseq ∷ []
unfolding internal_handler
next_is_taken sseq o = ground arith

-- If the server sends each consumer the messages of the stream from its begin on, numbered from 1, then
-- what an ordered consumer has handed on is at any time the front of the stream from its start sequence,
-- without a gap, in order and each message once: whatever messages are lost, come again or come late
-- from an older consumer, and whenever the consumer is made anew. The next message of the current
-- consumer is handed on.
pub run-gapless :
    (next : ℕ → ℕ) (kind : ConsumerType) (start_seq : ℕ) (es : List Event) (o : Ordered)
    → AreSent next es (new_ordered kind start_seq)
    → run es (new_ordered kind start_seq) ≡ o
    → ((n : ℕ) × (o.delivered ≡ stream_from next (suc (start_seq - 1)) n))
      × ((sseq : ℕ)
          → (internal_handler o.serial (suc o.deliver_seq) sseq o).delivered
            ≡ o.delivered ++ sseq ∷ [])
run-gapless next kind start_seq es o sent e =
    let (n, d, _, _) =
      run-IsGapless next (suc (start_seq - 1)) es (new_ordered kind start_seq) sent
        (0, refl, refl, λ h. absurd (omega arith)) in
    ((n, ap (λ (p : Ordered). p.delivered) (sym e) ∙ d), λ sseq. next_is_taken sseq o)
