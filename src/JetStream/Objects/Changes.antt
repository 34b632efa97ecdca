-- ===== src/JetStream/Objects/Changes.antt =====
-- What readers see of an object that is deleted or linked to.
use nats_deno.Base.{
  ℕ, suc, ◌<◌, ◌≡◌, refl, sym, ap, ◌∙◌, true, false, Option, none, some, [], Bytes, length, ◌==◌,
  bytes_eq, arith,
}
use nats_deno.JetStream.Digest.{Base64}
use nats_deno.JetStream.Objects.Server.{Info, Stream, Sha, Promised, resolved, raw_info}
use nats_deno.JetStream.Objects.Download.{Got, absent, get_info, get_entry, get}
use nats_deno.JetStream.Objects.Manage.{delete_info, delete, link_info, link}

module _ (b : Stream) (h : Sha) (base : Base64) where
  open b use {
    State, publish_meta, purge_chunks, purge_meta, chunks, entry, answers, deliveries, delivered,
    entry_stored, entry_chunks, entry_others, entry_purged, purge_other_entries, purge_meta_chunks,
    purged, purge_others, purge_entries,
  }

  delete_done :
      (name : Bytes) (s : State) (i : Info)
      → entry name s ≡ some i
      → (delete b name s).0 ≡ resolved true
      → let gone = record i { deleted = true; size = 0; chunks = 0; digest = [] } in
        ((publish_meta i.name none gone s).0 ≡ true)
        × ((purge_chunks i.nuid (publish_meta i.name none gone s).1).0 ≡ true)
        × ((delete b name s).1 ≡ (purge_chunks i.nuid (publish_meta i.name none gone s).1).1)
        × (length name == 0) ≡ false
  unfolding delete delete_info raw_info
  delete_done name s i here e = ground (arith, here, e)

  get_deleted :
      (follow : Bytes → Bytes → Promised Got) (i : Info) (s : State)
      → i.deleted ≡ true
      → get_info b h base follow i s ≡ resolved absent
  unfolding get_info
  get_deleted follow i s d = ground (arith, d)

  -- When `delete` of an object has resolved with what was purged, and the server answers the question
  -- for its entry, which stood under its own name: `get` gives null, none of its chunks is left, and
  -- other names' entries and other ids' chunks are as before.
  pub delete-get :
      (name : Bytes) (s : State) (i : Info) (fuel : ℕ) (buckets : Bytes → State) (bucket : Bytes)
      → entry name s ≡ some i
      → i.name ≡ name
      → (delete b name s).0 ≡ resolved true
      → buckets bucket ≡ (delete b name s).1
      → answers name (buckets bucket) ≡ true
      → (get b h base (suc fuel) buckets bucket name ≡ resolved absent)
        × (chunks i.nuid (buckets bucket) ≡ [])
        × ((n : Bytes) → bytes_eq name n ≡ false → entry n (buckets bucket) ≡ entry n s)
        × ((j : Bytes) → bytes_eq i.nuid j ≡ false → chunks j (buckets bucket) ≡ chunks j s)
  unfolding get get_entry raw_info
  delete-get name s i fuel buckets bucket here own e at a =
      let gone = record i { deleted = true; size = 0; chunks = 0; digest = [] } in
      let (ok, purged_ok, final, named) = delete_done name s i here e in
      let t = (publish_meta i.name none gone s).1 in
      let after = at ∙ final in
      let now : entry name (buckets bucket) ≡ some gone =
        ap (entry name) after
        ∙ purge_entries i.nuid name t
        ∙ ap (λ (n : Bytes). entry n t) (sym own)
        ∙ entry_stored i.name none gone s ok in
      (
        rw (named, a, now) (get_deleted (get b h base fuel buckets) gone (buckets bucket) refl),
        ap (chunks i.nuid) after ∙ purged i.nuid t purged_ok,
        λ (n : Bytes). λ (d : bytes_eq name n ≡ false).
            ap (entry n) after
            ∙ purge_entries i.nuid n t
            ∙ entry_others i.name none gone n s (ap (λ (m : Bytes). bytes_eq m n) own ∙ d),
        λ (j : Bytes). λ (d : bytes_eq i.nuid j ≡ false).
            ap (chunks j) after ∙ purge_others i.nuid j t d ∙ entry_chunks i.name none gone j s,
      )

  link_done :
      (name target : Bytes) (i : Info) (s : State) (o : Option Info)
      → (link b name target i s).0 ≡ resolved o
      → let t = (publish_meta name none (link_info b name target i) s).1 in
        ((publish_meta name none (link_info b name target i) s).0 ≡ true)
        × ((link b name target i s).1 ≡ t)
        × (answers name t ≡ true)
        × (length name == 0) ≡ false
  unfolding link raw_info
  link_done name target i s o e = ground (arith, e)

  -- When `link` to an object with a name has resolved, `get` of the link is `get` of the object, in the
  -- bucket that it is in, as it is when the link is read.
  pub link-get :
      (name target : Bytes) (i : Info) (s : State) (o : Option Info) (fuel : ℕ)
      (buckets : Bytes → State) (bucket : Bytes)
      → 0 < length i.name
      → (link b name target i s).0 ≡ resolved o
      → buckets bucket ≡ (link b name target i s).1
      → get b h base (suc fuel) buckets bucket name ≡ get b h base fuel buckets target i.name
  unfolding get get_entry get_info raw_info
  link-get name target i s o fuel buckets bucket some_name e at =
      let (ok, final, a, named) = link_done name target i s o e in
      let after = at ∙ final in
      let now : entry name (buckets bucket) ≡ some (link_info b name target i) =
        ap (entry name) after ∙ entry_stored name none (link_info b name target i) s ok in
      let a' : answers name (buckets bucket) ≡ true = ap (answers name) after ∙ a in
      rw (named, a', now) (ground (arith, some_name))
