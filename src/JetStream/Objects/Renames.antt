-- ===== src/JetStream/Objects/Renames.antt =====
-- What readers see of an object that gets a new name.
use nats_deno.Base.{
  ℕ, suc, ◌≡◌, refl, sym, ap, ◌∙◌, Bool, true, false, not, none, some, Bytes, length, ◌==◌,
  bytes_eq, if◌then◌else◌, arith, take, drop,
}
use nats_deno.JetStream.Digest.{Base64, Parsed, parsed, unknown, thrown, parse_sha256}
use nats_deno.JetStream.Objects.Server.{
  Info, Meta, Stream, Sha, Promised, resolved, rejected, raw_info, numbered,
}
use nats_deno.JetStream.Objects.Upload.{digest_type}
use nats_deno.JetStream.Objects.Download.{
  Body, closed, corrupt, unfinished, Got, opened, open_info, get_info, get_entry, get, blob_of,
  get_blob,
}
use nats_deno.JetStream.Objects.Manage.{is_live, rewrite, is_free, update_info, update}

module _ (b : Stream) (h : Sha) (base : Base64) where
  open b use {
    State, publish_meta, purge_chunks, purge_meta, chunks, entry, answers, deliveries, delivered,
    entry_stored, entry_chunks, entry_others, entry_purged, purge_other_entries, purge_meta_chunks,
    purged, purge_others, purge_entries,
  }

  update_done :
      (name n : Bytes) (meta : Meta) (s : State) (i : Info)
      → entry name s ≡ some i
      → (update b name (some n) meta s).0 ≡ resolved true
      → bytes_eq name n ≡ false
      → let new = record i { name = n; link = meta.link; max_chunk_size = meta.max_chunk_size } in
        let t = (publish_meta n none new s).1 in
        ((publish_meta n none new s).0 ≡ true)
        × ((purge_meta name t).0 ≡ true)
        × ((update b name (some n) meta s).1 ≡ (purge_meta name t).1)
        × (answers name s ≡ true)
        × ((length name == 0) ≡ false)
        × ((length n == 0) ≡ false)
        × (i.deleted ≡ false)
        × (is_live (entry n s) ≡ false)
  unfolding update update_info rewrite is_free raw_info
  update_done name n meta s i here e d = ground (arith, here, e, d)

  blob_any :
      (i j : Info) (o : Body) → blob_of (resolved (opened i o)) ≡ blob_of (resolved (opened j o))
  unfolding blob_of
  blob_any i j (closed ps) = refl
  blob_any i j (corrupt ps) = refl
  blob_any i j (unfinished ps) = refl

  body_any :
      (i j : Info) (d : Bytes) (s t : State)
      → i.size ≡ j.size
      → deliveries i.nuid s ≡ deliveries j.nuid t
      → open_info b h base i d s ≡ open_info b h base j d t
  unfolding open_info
  body_any i j d s t z m = ground (arith, z, m)

  -- The end of `get`, by what the digest parses to.
  abbrev read_as : Info → (Bytes → Body) → Parsed → Promised Got
  read_as i body (parsed d) = resolved (opened i (body d))
  read_as i body unknown = rejected
  read_as i body thrown = rejected

  get_plain :
      (follow : Bytes → Bytes → Promised Got) (i : Info) (s : State)
      → i.link ≡ none
      → i.deleted ≡ false
      → get_info b h base follow i s ≡ (
          if not (bytes_eq (take 8 i.digest) digest_type)
          then rejected
          else read_as i
              (λ (d : Bytes). open_info b h base i d s)
              (parse_sha256 base (drop 8 i.digest)))
  unfolding get_info
  get_plain follow i s l d = ground (arith, l, d)

  read_any :
      (i j : Info) (f g : Bytes → Body) (p : Parsed)
      → ((d : Bytes) → f d ≡ g d)
      → blob_of (read_as i f p) ≡ blob_of (read_as j g p)
  read_any i j f g (parsed d) e =
      blob_any i j (f d) ∙ ap (λ (o : Body). blob_of (resolved (opened j o))) (e d)
  read_any i j f g unknown e = refl
  read_any i j f g thrown e = refl

  choose_any :
      (t : Bool) (x y : Promised Got)
      → blob_of x ≡ blob_of y
      → blob_of (if t then rejected else x) ≡ blob_of (if t then rejected else y)
  choose_any true x y e = refl
  choose_any false x y e = e

  -- The body of an object is found by its id, size and digest.
  same_body :
      (follow other : Bytes → Bytes → Promised Got) (i j : Info) (s t : State)
      → i.link ≡ none
      → j.link ≡ none
      → i.deleted ≡ false
      → j.deleted ≡ false
      → i.digest ≡ j.digest
      → i.size ≡ j.size
      → deliveries i.nuid s ≡ deliveries j.nuid t
      → blob_of (get_info b h base follow i s) ≡ blob_of (get_info b h base other j t)
  same_body follow other i j s t l l' d d' g z m =
      let f = λ (x : Bytes). open_info b h base i x s in
      let f' = λ (x : Bytes). open_info b h base j x t in
      ap (λ (r : Promised Got). blob_of r) (get_plain follow i s l d)
      ∙ ap
          (λ (x : Bytes). blob_of (
            if not (bytes_eq (take 8 x) digest_type)
            then rejected
            else read_as i f (parse_sha256 base (drop 8 x))))
          g
      ∙ choose_any (not (bytes_eq (take 8 j.digest) digest_type))
          (read_as i f (parse_sha256 base (drop 8 j.digest)))
          (read_as j f' (parse_sha256 base (drop 8 j.digest)))
          (read_any i j f f' (parse_sha256 base (drop 8 j.digest))
            (λ (x : Bytes). body_any i j x s t z m))
      ∙ ap (λ (r : Promised Got). blob_of r) (sym (get_plain other j t l' d'))

  get_blob_at :
      (name : Bytes) (i : Info) (fuel : ℕ) (buckets : Bytes → State) (bucket : Bytes)
      → entry name (buckets bucket) ≡ some i
      → answers name (buckets bucket) ≡ true
      → (length name == 0) ≡ false
      → get_blob b h base (suc fuel) buckets bucket name
        ≡ blob_of (get_info b h base (get b h base fuel buckets) i (buckets bucket))
  unfolding get_blob get get_entry raw_info
  get_blob_at name i fuel buckets bucket e a n = rw (n, a, e) refl

  -- When `update` has given an object that is no link a new name, with no link in its options, and the
  -- server answers the questions for the entries: the bytes under the new name are those that were under
  -- the old one, the old name has no entry, and the new name had no object.
  pub update-get_blob :
      (name n : Bytes) (meta : Meta) (i : Info) (fuel : ℕ) (before after : Bytes → State)
      (bucket : Bytes)
      → entry name (before bucket) ≡ some i
      → i.link ≡ none
      → meta.link ≡ none
      → bytes_eq name n ≡ false
      → (update b name (some n) meta (before bucket)).0 ≡ resolved true
      → after bucket ≡ (update b name (some n) meta (before bucket)).1
      → answers n (after bucket) ≡ true
      → (get_blob b h base (suc fuel) after bucket n
          ≡ get_blob b h base (suc fuel) before bucket name)
        × (entry name (after bucket) ≡ none)
        × (is_live (entry n (before bucket)) ≡ false)
  update-get_blob name n meta i fuel before after bucket here l ml d e at a =
      let s = before bucket in
      let new = record i { name = n; link = meta.link; max_chunk_size = meta.max_chunk_size } in
      let (ok, gone, final, answered, named, renamed, live, free) =
        update_done name n meta s i here e d in
      let t = (publish_meta n none new s).1 in
      let now : entry n (after bucket) ≡ some new =
        ap (entry n) (at ∙ final) ∙ purge_other_entries name n t d ∙ entry_stored n none new s ok in
      let same : chunks i.nuid s ≡ chunks i.nuid (after bucket) = sym (
        ap (chunks i.nuid) (at ∙ final)
        ∙ purge_meta_chunks name i.nuid t
        ∙ entry_chunks n none new i.nuid s) in
      (
        get_blob_at n new fuel after bucket now a renamed
            ∙ same_body (get b h base fuel after) (get b h base fuel before) new i (after bucket) s
                ml l live live refl refl
                (delivered i.nuid (after bucket)
                  ∙ ap numbered (sym same)
                  ∙ sym (delivered i.nuid s))
            ∙ sym (get_blob_at name i fuel before bucket here answered named),
        ap (entry name) (at ∙ final) ∙ entry_purged name t gone,
        free,
      )
