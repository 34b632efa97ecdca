-- ===== src/JetStream/Objects/Received.antt =====
-- What a reader of an object is given.
use mathlib.Core.List.{append-nil, append_assoc}
use nats_deno.Base.{
  ℕ, zero, suc, ◌<◌, ◌≡◌, ◌≢◌, refl, sym, ap, ◌∙◌, true, Option, none, some, drop, subst, take,
  List, [], ◌∷◌, ◌++◌, Bytes, length, ltb, ◌==◌, bytes_eq, bytes_eq_sound, if◌then◌else◌, arith,
  Bool-cases, inl, inr,
}
use nats_deno.DataBuffer.{DataBuffer, new_data_buffer, fill, drain}
use nats_deno.DataBuffer.Laws.{joined, contents, IsValid, drain_lem, fill_lem, length-zero}
use nats_deno.Base.Slices.{take-of_le}
use nats_deno.JetStream.Objects.Server.{
  Link, Info, Stream, Sha, Delivery, numbered, Promised, resolved, rejected, waiting, raw_info,
}
use nats_deno.JetStream.Digest.{Base64, Parsed, parsed, unknown, thrown, parse_sha256}
use nats_deno.JetStream.Objects.Upload.{digest_type}
use nats_deno.JetStream.Objects.Download.{
  closed, opened, Got, collect, receive, open_info, get_info, get_entry, get,
}
use nats_deno.JetStream.Objects.Sent.{AreChunks, hash_all, hash_all-append}

collect_lem :
    (ps : List Bytes) (db : DataBuffer)
    → IsValid db
    → IsValid (collect ps db) × (contents (collect ps db) ≡ contents db ++ joined ps)
unfolding collect
collect_lem [] db v = (v, sym (append-nil _))
collect_lem (p ∷ ps) db v = ground (
  arith,
  collect_lem ps db v,
  fill_lem p [] db v,
  collect_lem ps (fill p [] db),
  length-zero p,
  append-nil p,
  append_assoc (contents db) p (joined ps),
)

-- The reader of a blob has the pieces one behind the other.
pub collect-joined : (ps : List Bytes) → (drain none (collect ps new_data_buffer)).0 ≡ joined ps
collect-joined ps =
    let (v, c) = collect_lem ps new_data_buffer refl in
    let (taken, left, valid) = drain_lem none (collect ps new_data_buffer) v in
    taken
    ∙ take-of_le (collect ps new_data_buffer).byte_length (contents (collect ps new_data_buffer))
        (omega (arith, v))
    ∙ c

module _ (h : Sha) where
  -- The chunks that are stored arrive whole, and are closed or corrupt by their hash.
  pub receive-numbered :
      (max : ℕ) (digest : Bytes) (sha : h.State) (out cs : List Bytes)
      → 0 < length cs
      → AreChunks max cs
      → digest ≡ h.digest (hash_all h sha cs)
      → bytes_eq digest digest ≡ true
      → receive h digest sha out (numbered cs) ≡ closed (out ++ cs)
  unfolding receive
  receive-numbered max digest sha out [] l a d r = absurd (omega arith)
  receive-numbered max digest sha out (c ∷ []) l (p, q, a) d r = ground (arith, d, r)
  receive-numbered max digest sha out (c ∷ c' ∷ cs) l (p, q, a) d r = ground (
    arith,
    receive-numbered max digest (h.update c sha) (out ++ c ∷ []) (c' ∷ cs) (omega arith) a d r,
    append_assoc out (c ∷ []) (c' ∷ cs),
  )

  abbrev next_hash : h.State → Delivery → h.State
  next_hash sha m = if ltb 0 (length m.body) then h.update m.body sha else sha

  abbrev next_out : List Bytes → Delivery → List Bytes
  next_out out m = if ltb 0 (length m.body) then out ++ m.body ∷ [] else out

  next_hash_all :
      (sha : h.State) (out : List Bytes) (m : Delivery)
      → sha ≡ hash_all h h.create out
      → next_hash sha m ≡ hash_all h h.create (next_out out m)
  next_hash_all sha out m e = ground (arith, e, hash_all-append h h.create out m.body)

  receive_from :
      (digest : Bytes) (sha : h.State) (out : List Bytes) (ms : List Delivery) (ps : List Bytes)
      → sha ≡ hash_all h h.create out
      → receive h digest sha out ms ≡ closed ps
      → h.digest (hash_all h h.create ps) ≡ digest
  unfolding receive
  receive_from digest sha out [] ps e c = absurd (cc)
  receive_from digest sha out (m ∷ ms) ps e c =
      let kept = next_hash_all sha out m e in
      let later = receive_from digest (next_hash sha m) (next_out out m) ms ps kept in
      elim (Bool-cases (m.pending == 0)) [
        | inr more ↦ later (ground (arith, more, c))
        | inl last ↦ elim (Bool-cases (bytes_eq digest (h.digest (next_hash sha m)))) [
          | inr bad ↦ absurd (ground (arith, bad, last, c))
          | inl same ↦
              let done = bytes_eq_sound digest (h.digest (next_hash sha m)) same in
              ground (arith, last, same, c, kept, done)
        ]
      ]

  pub receive-hash :
      (digest : Bytes) (ms : List Delivery) (ps : List Bytes)
      → receive h digest h.create [] ms ≡ closed ps
      → h.digest (hash_all h h.create ps) ≡ digest
  receive-hash digest ms ps c = receive_from digest h.create [] ms ps refl c

module _ (b : Stream) (h : Sha) (base : Base64) where
  open b use {State, deliveries}

  -- What the pieces of an object are: those of an empty entry are not compared with its digest.
  abbrev pub IsChecked : Info → List Bytes → Type 0
  IsChecked i ps =
      (i.size ≡ 0 → ps ≡ [] ∷ [])
      × (i.size ≢ 0
          → parse_sha256 base (drop 8 i.digest) ≡ parsed (h.digest (hash_all h h.create ps)))

  -- What opened with these pieces
  abbrev Opens : Info → List Bytes → Promised Got → Type 0
  Opens i ps r = r ≡ resolved (opened i (closed ps))

  open_info-IsChecked :
      (i : Info) (d : Bytes) (s : State) (ps : List Bytes)
      → parse_sha256 base (drop 8 i.digest) ≡ parsed d
      → open_info b h base i d s ≡ closed ps
      → IsChecked i ps
  unfolding open_info
  open_info-IsChecked i d s ps e c = elim (Bool-cases (i.size == 0)) [
    | inl empty ↦ (λ z. ground (arith, empty, c), λ n. absurd (n (ground (arith, empty))))
    | inr some_size ↦
        let body : receive h d h.create [] (deliveries i.nuid s) ≡ closed ps =
          ground (arith, some_size, c) in
        let same = receive-hash h d (deliveries i.nuid s) ps body in
        (
          λ z. absurd (ground (arith, some_size, z)),
          λ n. e ∙ ap (λ (x : Bytes). parsed x) (sym same),
        )
  ]

  get_info-IsChecked :
      (follow : Bytes → Bytes → Promised Got) (i j : Info) (s : State) (ps : List Bytes)
      → ((bucket name : Bytes) → Opens i ps (follow bucket name) → IsChecked i ps)
      → Opens i ps (get_info b h base follow j s)
      → IsChecked i ps
  unfolding get_info
  get_info-IsChecked follow i j s ps later e =
      go j.link (parse_sha256 base (drop 8 j.digest)) refl refl
    where
      go :
          (l : Option Link) (r : Parsed)
          → j.link ≡ l
          → parse_sha256 base (drop 8 j.digest) ≡ r
          → IsChecked i ps
      go (some l) r el er = elim (Bool-cases j.deleted) [
        | inl gone ↦ absurd (ground (arith, gone, e))
        | inr here ↦ elim (Bool-cases (length (elim l.name [ none ↦ [] | some n ↦ n ]) == 0)) [
          | inl unnamed ↦ absurd (ground (arith, here, el, unnamed, e))
          | inr named ↦
              later l.bucket (elim l.name [ none ↦ [] | some n ↦ n ])
                (ground (arith, here, el, named, e))
        ]
      ]
      go none r el er = elim (Bool-cases j.deleted) [
        | inl gone ↦ absurd (ground (arith, gone, e))
        | inr here ↦ elim (Bool-cases (bytes_eq (take 8 j.digest) digest_type)) [
          | inr other ↦ absurd (ground (arith, here, el, other, e))
          | inl sha ↦ read r er (ground (arith, here, el, sha, e, er))
        ]
      ]
        where
          read :
              (r : Parsed)
              → parse_sha256 base (drop 8 j.digest) ≡ r
              → Opens i ps (elim r [
                | unknown ↦ rejected
                | thrown ↦ rejected
                | parsed d ↦ resolved (opened j (open_info b h base j d s))
              ])
              → IsChecked i ps
          read unknown er o = absurd (cc)
          read thrown er o = absurd (cc)
          read (parsed d) er o =
              let same : j ≡ i = ground (arith, o) in
              let body : open_info b h base j d s ≡ closed ps = ground (arith, o) in
              subst (λ (x : Info). IsChecked x ps) same (open_info-IsChecked j d s ps er body)

  get_entry-IsChecked :
      (follow : Bytes → Bytes → Promised Got) (i : Info) (r : Promised (Option Info)) (s : State)
      (ps : List Bytes)
      → ((bucket name : Bytes) → Opens i ps (follow bucket name) → IsChecked i ps)
      → Opens i ps (get_entry b h base follow r s)
      → IsChecked i ps
  unfolding get_entry
  get_entry-IsChecked follow i rejected s ps later e = absurd (cc)
  get_entry-IsChecked follow i waiting s ps later e = absurd (cc)
  get_entry-IsChecked follow i (resolved none) s ps later e = absurd (cc)
  get_entry-IsChecked follow i (resolved (some j)) s ps later e =
      get_info-IsChecked follow i j s ps later e

  -- Whatever the stream delivers and whichever links are followed: where `get` opens an object and its
  -- stream of bytes is closed, the hash of the pieces that were handed on is the digest of the entry
  -- that was opened, unless the entry's size is 0; then there is one empty piece and nothing is
  -- compared.
  pub get-hash :
      (fuel : ℕ) (buckets : Bytes → State) (bucket name : Bytes) (i : Info) (ps : List Bytes)
      → get b h base fuel buckets bucket name ≡ resolved (opened i (closed ps))
      → IsChecked i ps
  unfolding get
  get-hash zero buckets bucket name i ps e = absurd (cc)
  get-hash (suc fuel) buckets bucket name i ps e =
      get_entry-IsChecked (get b h base fuel buckets) i (raw_info b name (buckets bucket))
        (buckets bucket) ps (λ c n. get-hash fuel buckets c n i ps) e
