-- ===== src/JetStream/Objects/RoundTrip.antt =====
-- An object that was put is read back.
use mathlib.Core.List.{append-nil}
use nats_deno.Base.{
  ℕ, suc, ◌<◌, ◌≡◌, refl, sym, ap, subst, ◌∙◌, true, false, Option, none, some, List, [], ◌∷◌,
  Bytes, length, ◌==◌, bytes_eq, bytes_eq_refl, arith, Bool-cases, inl, inr,
}
use nats_deno.DataBuffer.{new_data_buffer}
use nats_deno.DataBuffer.Laws.{joined, length-zero}
use nats_deno.JetStream.Digest.{Base64}
use nats_deno.JetStream.Digest.RoundTrip.{parse_sha256-encode}
use nats_deno.JetStream.Objects.Server.{Info, Meta, Stream, Sha, Promised, resolved, raw_info}
use nats_deno.JetStream.Objects.Upload.{
  Read, Sending, max_chunk, written, clean, digest_type, transfer, put_any, put,
}
use nats_deno.JetStream.Objects.Download.{
  Got, opened, Body, closed, open_info, get_info, get_entry, get, blob_of, get_blob,
}
use nats_deno.JetStream.Objects.Sent.{given, IsSent}
use nats_deno.JetStream.Objects.Received.{collect-joined, receive-numbered}
use nats_deno.JetStream.Objects.Puts.{HasPut, transfer-HasPut, max_chunk-pos}

module _ (b : Stream) where
  open b use {State, chunks, entry, answers}

  -- The id is new: no chunk has it, and it is not the old object's.
  abbrev pub IsFresh : Bytes → Bytes → State → Type 0
  IsFresh id name s =
      (chunks id s ≡ []) × ((old : Info) → entry name s ≡ some old → bytes_eq old.nuid id ≡ false)

module _ (b : Stream) (h : Sha) (base : Base64) where
  open b use {
    State, chunks, entry, answers, publish_meta, entry_stored, entry_chunks, purge_entries,
    purge_others, delivered, deliveries,
  }

  clean-entry :
      (old : Option Info) (n : Bytes) (s : State) → entry n (clean b h base old s) ≡ entry n s
  unfolding clean
  clean-entry none n s = refl
  clean-entry (some old) n s = purge_entries old.nuid n s

  clean-chunks :
      (old : Option Info) (j : Bytes) (s : State)
      → ((o : Info) → old ≡ some o → bytes_eq o.nuid j ≡ false)
      → chunks j (clean b h base old s) ≡ chunks j s
  unfolding clean
  clean-chunks none j s d = refl
  clean-chunks (some old) j s d = purge_others old.nuid j s (d old refl)

  put-transfer :
      (id : Bytes) (payload previous : Option ℕ) (meta : Meta) (reads : List Read) (s : State)
      (i : Info)
      → (put b h base id payload previous meta reads s).0 ≡ resolved i
      → (meta.link ≡ none)
        × (put b h base id payload previous meta reads s
            ≡ transfer b h base id
                (max_chunk meta.max_chunk_size payload)
                previous
                meta
                (entry meta.name s)
                reads
                s)
        × (length meta.name == 0) ≡ false
  unfolding put put_any raw_info
  put-transfer id payload previous meta reads s i e = ground (arith, e)

  pub put-HasPut :
      (id : Bytes) (payload previous : Option ℕ) (meta : Meta) (reads : List Read) (s : State)
      (i : Info)
      → chunks id s ≡ []
      → (put b h base id payload previous meta reads s).0 ≡ resolved i
      → HasPut b h base id
          (max_chunk meta.max_chunk_size payload)
          meta
          (entry meta.name s)
          reads
          s
          (put b h base id payload previous meta reads s).1
          i
  put-HasPut id payload previous meta reads s i fresh e =
      let (l, step, named) = put-transfer id payload previous meta reads s i e in
      let max = max_chunk meta.max_chunk_size payload in
      subst
        (λ (r : Promised Info × State).
          HasPut b h base id max meta (entry meta.name s) reads s r.1 i)
        (sym step)
        (transfer-HasPut b h base id max previous meta (entry meta.name s) reads s i
          (max_chunk-pos meta.max_chunk_size payload) fresh
          (ap (λ (r : Promised Info × State). r.0) (sym step) ∙ e))

  -- The entry of what was sent opens on the chunks, if they are still there.
  open_written :
      (id : Bytes) (max : ℕ) (meta : Meta) (input : Bytes) (u : Sending State h.State) (s : State)
      → IsSent b h max id input new_data_buffer u
      → chunks id s ≡ chunks id u.state
      → (ps : List Bytes) × (open_info b h base (written b h base id max meta u) (h.digest u.sha) s
          ≡ closed ps)
        × (joined ps ≡ input)
  unfolding open_info
  open_written id max meta input u s sent same =
      let cs = chunks id u.state in
      let whole = sym (append-nil (joined cs)) ∙ sent.whole in
      elim (Bool-cases (u.size == 0)) [
        | inl none_sent ↦ (
          [] ∷ [],
          ground (arith, none_sent),
          sym (length-zero (joined cs) (ground (arith, sent.sized, none_sent))) ∙ whole,
        )
        | inr some_sent ↦ (
          cs,
          ground (
            arith,
            some_sent,
            delivered id s,
            same,
            receive-numbered h max (h.digest u.sha) h.create [] cs
                (some_chunk cs (ground (arith, some_sent, sent.sized))) sent.bounded
                (ap h.digest sent.hashed) (bytes_eq_refl (h.digest u.sha)),
          ),
          whole,
        )
      ]
    where
      some_chunk : (cs : List Bytes) → 0 < length (joined cs) → 0 < length cs
      some_chunk [] l = absurd (omega arith)
      some_chunk (c ∷ cs) l = omega arith

  get_written :
      (id : Bytes) (max : ℕ) (meta : Meta) (u : Sending State h.State) (s : State)
      (follow : Bytes → Bytes → Promised Got)
      → meta.link ≡ none
      → get_info b h base follow (written b h base id max meta u) s
        ≡ resolved (
            opened
              (written b h base id max meta u)
              (open_info b h base (written b h base id max meta u) (h.digest u.sha) s))
  unfolding get_info
  get_written id max meta u s follow l = ground (
    arith,
    l,
    bytes_eq_refl digest_type,
    parse_sha256-encode base (h.digest u.sha)
        (λ w. absurd (omega (arith, h.length_digest u.sha, w))),
  )

  -- The entry and the chunks that a put leaves behind.
  pub HasPut-kept :
      (id : Bytes) (max : ℕ) (meta : Meta) (reads : List Read) (s after : State) (i : Info)
      → IsFresh b id meta.name s
      → (p : HasPut b h base id max meta (entry meta.name s) reads s after i)
      → (entry meta.name after ≡ some i) × (chunks id after ≡ chunks id p.sending.state)
  HasPut-kept id max meta reads s after i (fresh, other) p =
      let published = (publish_meta meta.name p.last i p.sending.state).1 in
      (
        ap (entry meta.name) p.cleaned
            ∙ clean-entry (entry meta.name s) meta.name published
            ∙ entry_stored meta.name p.last i p.sending.state p.live,
        ap (chunks id) p.cleaned
            ∙ clean-chunks (entry meta.name s) id published other
            ∙ entry_chunks meta.name p.last i id p.sending.state,
      )

  get_put :
      (id : Bytes) (max : ℕ) (meta : Meta) (reads : List Read) (s after : State) (i : Info)
      (follow : Bytes → Bytes → Promised Got)
      → IsFresh b id meta.name s
      → meta.link ≡ none
      → HasPut b h base id max meta (entry meta.name s) reads s after i
      → blob_of (get_entry b h base follow (resolved (entry meta.name after)) after)
        ≡ resolved (some (given reads))
  unfolding get_entry blob_of
  get_put id max meta reads s after i follow fresh l p =
      let (here, same) = HasPut-kept id max meta reads s after i fresh p in
      let (ps, opens, whole) = open_written id max meta (given reads) p.sending after p.sent same in
      let u = p.sending in
      ap (λ (o : Option Info). blob_of (get_entry b h base follow (resolved o) after))
        (here ∙ ap (λ (j : Info). some j) p.info)
      ∙ ap (λ (g : Promised Got). blob_of g) (get_written id max meta u after follow l)
      ∙ ap (λ (o : Body). blob_of (resolved (opened (written b h base id max meta u) o))) opens
      ∙ ap (λ (x : Bytes). resolved (some x)) (collect-joined ps ∙ whole)

  -- When a put has resolved, under an id that is new, and the server answers the question for the
  -- object's entry, `getBlob` gives the bytes that the reader gave, all and in order.
  pub put-get_blob :
      (id : Bytes) (payload previous : Option ℕ) (meta : Meta) (reads : List Read) (s : State)
      (i : Info) (fuel : ℕ) (buckets : Bytes → State) (bucket : Bytes)
      → IsFresh b id meta.name s
      → (put b h base id payload previous meta reads s).0 ≡ resolved i
      → buckets bucket ≡ (put b h base id payload previous meta reads s).1
      → answers meta.name (buckets bucket) ≡ true
      → get_blob b h base (suc fuel) buckets bucket meta.name ≡ resolved (some (given reads))
  unfolding get_blob get raw_info
  put-get_blob id payload previous meta reads s i fuel buckets bucket fresh e at a =
      let (l, step, named) = put-transfer id payload previous meta reads s i e in
      let p = put-HasPut id payload previous meta reads s i fresh.0 e in
      let got =
        get_put id (max_chunk meta.max_chunk_size payload) meta reads s (buckets bucket) i
          (get b h base fuel buckets) fresh l
          (subst
            (λ (t : State).
              HasPut b h base id (max_chunk meta.max_chunk_size payload) meta (entry meta.name s)
                reads s t i)
            (sym at) p) in
      rw (named, a) got
