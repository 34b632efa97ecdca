-- ===== src/JetStream/Objects/Puts.antt =====
-- What `_put` leaves in the stream where it resolves, and where it rejects.
use nats_deno.Base.{
  ℕ, ◌<◌, ◌≡◌, refl, sym, ap, subst, ◌∙◌, Bool, true, false, Option, none, some, List, [], ◌++◌,
  Bytes, length, arith, Bool-cases, inl, inr,
}
use nats_deno.DataBuffer.{DataBuffer, new_data_buffer}
use nats_deno.DataBuffer.Laws.{joined}
use nats_deno.JetStream.Digest.{Base64}
use nats_deno.JetStream.Objects.Server.{Info, Meta, Stream, Sha, Promised, resolved, rejected}
use nats_deno.JetStream.Objects.Upload.{
  Read, Sending, feed, flush, max_chunk, written, clean, fail, publish, start, transfer,
}
use nats_deno.JetStream.Objects.Sent.{given, AreChunks, hash_all, IsSent, feed-IsCut, flush-Sent}
use nats_deno.JetStream.Objects.Kept.{Kept, feed-Kept, flush-Kept}

-- Chunks are never cut to nothing.
pub max_chunk-pos : (wanted payload : Option ℕ) → 0 < max_chunk wanted payload
unfolding max_chunk
max_chunk-pos none none = ground arith
max_chunk-pos none (some p) = ground arith
max_chunk-pos (some w) none = ground arith
max_chunk-pos (some w) (some p) = ground arith

module _ (b : Stream) (h : Sha) (base : Base64) where
  open b use {State, publish_meta, purge_chunks, late, chunks, entry}

  publish_resolved :
      (id : Bytes) (max : ℕ) (previous : Option ℕ) (meta : Meta) (old : Option Info)
      (u : Sending State h.State) (i : Info)
      → (publish b h base id max previous meta old u).0 ≡ resolved i
      → (u.stored ≡ true)
        × ((publish_meta meta.name previous i u.state).0 ≡ true)
        × (i ≡ written b h base id max meta u)
        × ((publish b h base id max previous meta old u).1
            ≡ clean b h base old (publish_meta meta.name previous i u.state).1)
  unfolding publish fail
  publish_resolved id max previous meta old u i e = ground (arith, e)

  -- What a put that resolved has done: everything the reader gave is in the chunks, and the entry is the
  -- one that was handed back.
  pub record HasPut (id : Bytes) (max : ℕ) (meta : Meta) (old : Option Info) (reads : List Read)
      (s after : State) (i : Info) : Type 0 where
    pub sending : Sending State h.State
    pub sent : IsSent b h max id (given reads) new_data_buffer sending
    pub kept : Kept b h max id s sending.state
    pub last : Option ℕ
    pub live : (publish_meta meta.name last i sending.state).0 ≡ true
    pub info : i ≡ written b h base id max meta sending
    pub cleaned : after ≡ clean b h base old (publish_meta meta.name last i sending.state).1

  abbrev pub fed : Bytes → ℕ → List Read → State → Bool × (DataBuffer × Sending State h.State)
  fed id max reads s = feed b h max id reads new_data_buffer (start b h base s)

  pub transfer_done :
      (id : Bytes) (max : ℕ) (previous : Option ℕ) (meta : Meta) (old : Option Info)
      (reads : List Read) (s : State)
      → (fed id max reads s).0 ≡ true
      → transfer b h base id max previous meta old reads s
        ≡ publish b h base id max previous meta old
            (flush b h id (fed id max reads s).1.0 (fed id max reads s).1.1)
  unfolding transfer
  transfer_done id max previous meta old reads s e = ground (arith, e)

  pub transfer_failed :
      (id : Bytes) (max : ℕ) (previous : Option ℕ) (meta : Meta) (old : Option Info)
      (reads : List Read) (s : State)
      → (fed id max reads s).0 ≡ false
      → transfer b h base id max previous meta old reads s
        ≡ (rejected, late id (purge_chunks id (fed id max reads s).1.1.state).1)
  unfolding transfer fail
  transfer_failed id max previous meta old reads s e = ground (arith, e)

  -- Nothing is sent at the start.
  start_IsSent :
      (id : Bytes) (max : ℕ) (s : State)
      → chunks id s ≡ []
      → IsSent b h max id [] new_data_buffer (start b h base s)
  start_IsSent id max s fresh = record {
    whole = ap (λ (cs : List Bytes). joined cs ++ []) fresh;
    hashed = ap (hash_all h h.create) (sym fresh);
    sized = ap (λ (cs : List Bytes). length (joined cs)) (sym fresh);
    counted = ap (λ (cs : List Bytes). length cs) (sym fresh);
    bounded = subst (AreChunks max) (sym fresh) tt;
  }

  IsSent-all :
      (id : Bytes) (max : ℕ) (reads : List Read) (s : State)
      → 0 < max
      → chunks id s ≡ []
      → (fed id max reads s).0 ≡ true
      → (flush b h id (fed id max reads s).1.0 (fed id max reads s).1.1).stored ≡ true
      → IsSent b h max id
          (given reads)
          new_data_buffer
          (flush b h id (fed id max reads s).1.0 (fed id max reads s).1.1)
  IsSent-all id max reads s m fresh done =
      flush-Sent b h max id (given reads) (fed id max reads s).1.0 (fed id max reads s).1.1 (
        feed-IsCut b h max id [] reads new_data_buffer (start b h base s) m
          (refl, omega arith, λ _. start_IsSent id max s fresh) done)

  pub kept_all :
      (id : Bytes) (max : ℕ) (reads : List Read) (s : State)
      → Kept b h max id s (fed id max reads s).1.1.state
        × Kept b h max id s (flush b h id (fed id max reads s).1.0 (fed id max reads s).1.1).state
  kept_all id max reads s =
      let k =
        feed-Kept b h max id s reads new_data_buffer (start b h base s) (λ _ _. refl, λ _. refl) in
      (k, flush-Kept b h max id s (fed id max reads s).1.0 (fed id max reads s).1.1 k)

  pub transfer-HasPut :
      (id : Bytes) (max : ℕ) (previous : Option ℕ) (meta : Meta) (old : Option Info)
      (reads : List Read) (s : State) (i : Info)
      → 0 < max
      → chunks id s ≡ []
      → (transfer b h base id max previous meta old reads s).0 ≡ resolved i
      → HasPut id max meta old reads s (transfer b h base id max previous meta old reads s).1 i
  transfer-HasPut id max previous meta old reads s i m fresh e =
      elim (Bool-cases (fed id max reads s).0) [
        | inr broke ↦ absurd (
            rejected_resolved i (
              ap (λ (r : Promised Info × State). r.0)
                (sym (transfer_failed id max previous meta old reads s broke))
              ∙ e))
        | inl done ↦
            let step = transfer_done id max previous meta old reads s done in
            let u = flush b h id (fed id max reads s).1.0 (fed id max reads s).1.1 in
            let (stored, live, info, final) =
              publish_resolved id max previous meta old u i
                (ap (λ (r : Promised Info × State). r.0) (sym step) ∙ e) in
            record {
              sending = u;
              sent = IsSent-all id max reads s m fresh done stored;
              kept = (kept_all id max reads s).1;
              last = previous;
              live = live;
              info = info;
              cleaned = ap (λ (r : Promised Info × State). r.1) step ∙ final;
            }
      ]
    where
      rejected_resolved : (j : Info) → rejected ≡ resolved j → ⊥
      rejected_resolved j w = absurd (cc)
