-- ===== src/JetStream/Objects/Failures.antt =====
-- A put that fails.
use nats_deno.Base.{
  ◌⊎◌, ℕ, ◌≡◌, refl, sym, ap, subst, ◌∙◌, true, false, Option, List, [], Bytes, bytes_eq,
  if◌then◌else◌, arith, Bool-cases, inl, inr, if-elim,
}
use nats_deno.JetStream.Digest.{Base64}
use nats_deno.JetStream.Objects.Server.{Info, Meta, Stream, Sha, Promised, rejected, raw_info}
use nats_deno.JetStream.Objects.Upload.{
  Read, Sending, flush, max_chunk, written, fail, publish, transfer, put_any, put,
}
use nats_deno.JetStream.Objects.Kept.{Kept}
use nats_deno.JetStream.Objects.Puts.{fed, transfer_done, transfer_failed, kept_all}

module _ (b : Stream) (h : Sha) (base : Base64) where
  open b use {
    State, publish_chunk, publish_meta, purge_chunks, late, chunks, entry, late_others,
    late_entries, purged, purge_others, purge_entries, entry_others, entry_chunks,
  }

  -- Nothing but the object's own entry has changed, and of its chunks nothing is left.
  abbrev pub IsUndone : Bytes → Bytes → State → State → Type 0
  IsUndone id name s after =
      ((n : Bytes) → bytes_eq name n ≡ false → entry n after ≡ entry n s)
      × ((j : Bytes) → bytes_eq id j ≡ false → chunks j after ≡ chunks j s)
      × (chunks id after ≡ [])

  fail-IsUndone :
      (id name : Bytes) (s t : State)
      → ((r : State) → (purge_chunks id r).0 ≡ true)
      → ((r : State) → chunks id r ≡ [] → chunks id (late id r) ≡ [])
      → ((n : Bytes) → bytes_eq name n ≡ false → entry n t ≡ entry n s)
      → ((j : Bytes) → bytes_eq id j ≡ false → chunks j t ≡ chunks j s)
      → IsUndone id name s (late id (purge_chunks id t).1)
  fail-IsUndone id name s t works none_late e c = (
    λ (n : Bytes). λ (d : bytes_eq name n ≡ false).
        late_entries id n (purge_chunks id t).1 ∙ purge_entries id n t ∙ e n d,
    λ (j : Bytes). λ (d : bytes_eq id j ≡ false).
        late_others id j (purge_chunks id t).1 d ∙ purge_others id j t d ∙ c j d,
    none_late (purge_chunks id t).1 (purged id t (works t)),
  )

  publish-IsUndone :
      (id : Bytes) (max : ℕ) (previous : Option ℕ) (meta : Meta) (old : Option Info) (s : State)
      (u : Sending State h.State)
      → ((t : State) → (purge_chunks id t).0 ≡ true)
      → ((t : State) → chunks id t ≡ [] → chunks id (late id t) ≡ [])
      → Kept b h max id s u.state
      → (publish b h base id max previous meta old u).0 ≡ rejected
      → IsUndone id meta.name s (publish b h base id max previous meta old u).1
  publish-IsUndone id max previous meta old s u works none_late (c, e) r =
      subst (IsUndone id meta.name s) (sym (ends r)) (
        if-elim (λ (t : State). IsUndone id meta.name s (late id (purge_chunks id t).1)) u.stored
          (publish_meta meta.name previous (written b h base id max meta u) u.state).1 u.state
          (λ _.
            fail-IsUndone id meta.name s
              (publish_meta meta.name previous (written b h base id max meta u) u.state).1 works
              none_late
              (λ (n : Bytes). λ (d : bytes_eq meta.name n ≡ false).
                entry_others meta.name previous (written b h base id max meta u) n u.state d ∙ e n)
              (λ (j : Bytes). λ (d : bytes_eq id j ≡ false).
                entry_chunks meta.name previous (written b h base id max meta u) j u.state ∙ c j d))
          (λ _. fail-IsUndone id meta.name s u.state works none_late (λ (n : Bytes). λ _. e n) c))
    where
      ends :
          (publish b h base id max previous meta old u).0 ≡ rejected
          → (publish b h base id max previous meta old u).1
            ≡ late id
                (purge_chunks id (
                  if u.stored
                  then (publish_meta meta.name previous (written b h base id max meta u) u.state).1
                  else u.state)).1
      ends w = unfold publish fail in ground (arith, w)

  transfer-IsUndone :
      (id : Bytes) (max : ℕ) (previous : Option ℕ) (meta : Meta) (old : Option Info)
      (reads : List Read) (s : State)
      → ((t : State) → (purge_chunks id t).0 ≡ true)
      → ((t : State) → chunks id t ≡ [] → chunks id (late id t) ≡ [])
      → (transfer b h base id max previous meta old reads s).0 ≡ rejected
      → IsUndone id meta.name s (transfer b h base id max previous meta old reads s).1
  transfer-IsUndone id max previous meta old reads s works none_late r =
      let (k, k') = kept_all b h base id max reads s in
      elim (Bool-cases (fed b h base id max reads s).0) [
        | inr broke ↦
            subst (λ (x : Promised Info × State). IsUndone id meta.name s x.1)
              (sym (transfer_failed b h base id max previous meta old reads s broke))
              (fail-IsUndone id meta.name s (fed b h base id max reads s).1.1.state works none_late
                (λ (n : Bytes). λ _. k.1 n) k.0)
        | inl done ↦
            let step = transfer_done b h base id max previous meta old reads s done in
            let u =
              flush b h id (fed b h base id max reads s).1.0 (fed b h base id max reads s).1.1 in
            subst (λ (x : Promised Info × State). IsUndone id meta.name s x.1) (sym step)
              (publish-IsUndone id max previous meta old s u works none_late k'
                (ap (λ (x : Promised Info × State). x.0) (sym step) ∙ r))
      ]

  put-cases :
      (id : Bytes) (payload previous : Option ℕ) (meta : Meta) (reads : List Read) (s : State)
      → ((put b h base id payload previous meta reads s).1 ≡ s)
        ⊎ (put b h base id payload previous meta reads s
            ≡ transfer b h base id
                (max_chunk meta.max_chunk_size payload)
                previous
                meta
                (entry meta.name s)
                reads
                s)
  unfolding put put_any raw_info
  put-cases id payload previous meta reads s = ground arith

  -- When a put rejects, whatever went wrong, its id was new, purges of its chunks work, and no chunk of it
  -- that is still on its way arrives behind the purge, the entries of other names and the chunks of
  -- other ids are as before, and no chunk of it is left.
  pub put-IsUndone :
      (id : Bytes) (payload previous : Option ℕ) (meta : Meta) (reads : List Read) (s : State)
      → ((t : State) → (purge_chunks id t).0 ≡ true)
      → ((t : State) → chunks id t ≡ [] → chunks id (late id t) ≡ [])
      → chunks id s ≡ []
      → (put b h base id payload previous meta reads s).0 ≡ rejected
      → IsUndone id meta.name s (put b h base id payload previous meta reads s).1
  put-IsUndone id payload previous meta reads s works none_late fresh r =
      elim (put-cases id payload previous meta reads s) [
        | inl same ↦ subst (IsUndone id meta.name s) (sym same) (λ _ _. refl, λ _ _. refl, fresh)
        | inr step ↦
            subst (λ (x : Promised Info × State). IsUndone id meta.name s x.1) (sym step)
              (transfer-IsUndone id (max_chunk meta.max_chunk_size payload) previous meta
                (entry meta.name s) reads s works none_late
                (ap (λ (x : Promised Info × State). x.0) (sym step) ∙ r))
      ]
