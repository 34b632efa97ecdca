-- ===== src/JetStream/Objects/Sent.antt =====
-- What has been sent of an object at each moment of `_put`.
use mathlib.Core.List.{append-nil, append_assoc}
use nats_deno.Base.{
  ℕ, zero, suc, ◌+◌, ◌≤◌, ◌<◌, ◌≡◌, refl, sym, ap, subst, ◌∙◌, Bool, true, false, ◌&&◌, Option,
  none, some, List, [], ◌∷◌, ◌++◌, Bytes, length, take, ltb, arith, length-append, length-take,
  take-append-drop, if-elim, Bool-cases, inl, inr,
}
use nats_deno.DataBuffer.{DataBuffer, new_data_buffer, fill, drain, at_most}
use nats_deno.DataBuffer.Laws.{
  joined, contents, IsValid, drain_lem, fill_lem, length-zero, joined-append,
}
use nats_deno.JetStream.Objects.Server.{Stream, Sha}
use nats_deno.JetStream.Objects.Upload.{Read, piece, broken, Sending, send, cut, feed, flush}

-- Every chunk has a byte, and no more than `max`.
abbrev pub AreChunks : ℕ → List Bytes → Type 0
AreChunks max [] = Unit {0}
AreChunks max (c ∷ cs) = (0 < length c) × (length c ≤ max) × AreChunks max cs

AreChunks-append :
    (max : ℕ) (cs : List Bytes) (c : Bytes)
    → AreChunks max cs
    → 0 < length c
    → length c ≤ max
    → AreChunks max (cs ++ c ∷ [])
AreChunks-append max [] c h l m = (l, m, tt)
AreChunks-append max (d ∷ cs) c (p, q, h) l m = (p, q, AreChunks-append max cs c h l m)

-- The bytes that a reader gives before it ends or fails.
abbrev pub given : List Read → Bytes
given [] = []
given (broken ∷ reads) = []
given (piece p ∷ reads) = p ++ given reads

module _ (h : Sha) where
  abbrev pub hash_all : h.State → List Bytes → h.State
  hash_all sha [] = sha
  hash_all sha (c ∷ cs) = hash_all (h.update c sha) cs

  pub hash_all-append :
      (sha : h.State) (cs : List Bytes) (c : Bytes)
      → hash_all sha (cs ++ c ∷ []) ≡ h.update c (hash_all sha cs)
  hash_all-append sha [] c = refl
  hash_all-append sha (d ∷ cs) c = hash_all-append (h.update d sha) cs c

module _ (b : Stream) (h : Sha) (max : ℕ) (id : Bytes) where
  open b use {State, publish_chunk, chunks, entry, chunk_stored, chunk_others, chunk_entries}

  -- All of `input` is either in the chunks that are stored, in order, or still held; and the size, the
  -- number of chunks and the hash are those of the chunks.
  pub record IsSent (input : Bytes) (db : DataBuffer) (u : Sending State h.State) : Type 0 where
    pub whole : joined (chunks id u.state) ++ contents db ≡ input
    pub hashed : u.sha ≡ hash_all h h.create (chunks id u.state)
    pub sized : u.size ≡ length (joined (chunks id u.state))
    pub counted : u.chunks ≡ length (chunks id u.state)
    pub bounded : AreChunks max (chunks id u.state)

  abbrev pub Sent : Bytes → DataBuffer → Sending State h.State → Type 0
  Sent input db u = u.stored ≡ true → IsSent input db u

  and_left : (x y : Bool) → x && y ≡ true → x ≡ true
  and_left x y e = ground arith

  and_right : (x y : Bool) → x && y ≡ true → y ≡ true
  and_right x y e = ground arith

  send-Sent :
      (input payload : Bytes) (n : ℕ) (db rest : DataBuffer) (u : Sending State h.State)
      → payload ++ contents rest ≡ contents db
      → n ≡ length payload
      → 0 < n
      → n ≤ max
      → Sent input db u
      → Sent input rest (send b h id n payload u)
  unfolding send
  send-Sent input payload n db rest u split count some_byte few sent e =
      let old = sent (and_left _ _ e) in
      let now = chunk_stored id payload u.state (and_right _ _ e) in
      let all_joined =
        ap joined now
        ∙ joined-append (chunks id u.state) (payload ∷ [])
        ∙ ap (◌++◌ (joined (chunks id u.state))) (append-nil payload) in
      record {
        whole =
            ap (λ (x : Bytes). x ++ contents rest) all_joined
            ∙ append_assoc (joined (chunks id u.state)) payload (contents rest)
            ∙ ap (◌++◌ (joined (chunks id u.state))) split
            ∙ old.whole;
        hashed =
            ap (h.update payload) old.hashed
            ∙ sym (hash_all-append h h.create (chunks id u.state) payload)
            ∙ ap (hash_all h h.create) (sym now);
        sized = omega (
          arith,
          old.sized,
          ap length all_joined,
          length-append (joined (chunks id u.state)) payload,
          count,
        );
        counted =
            omega
              (arith, old.counted, ap length now, length-append (chunks id u.state) (payload ∷ []));
        bounded = subst (AreChunks max) (sym now) (
            AreChunks-append max (chunks id u.state) payload old.bounded (omega (arith, count))
              (omega (arith, count)));
      }

  -- `drain` of a number of bytes that is held, or of all
  drain-split :
      (n : Option ℕ) (db : DataBuffer)
      → IsValid db
      → ((drain n db).0 ++ contents (drain n db).1 ≡ contents db)
        × (length (drain n db).0 ≡ at_most n db.byte_length)
        × (length (contents (drain n db).1) + at_most n db.byte_length ≡ db.byte_length)
        × IsValid (drain n db).1
  drain-split n db v =
      let (taken, left, valid) = drain_lem n db v in
      let split =
        ap (λ (x : Bytes). x ++ contents (drain n db).1) taken
        ∙ ap (◌++◌ (take (at_most n db.byte_length) (contents db))) left
        ∙ take-append-drop (at_most n db.byte_length) (contents db) in
      let count = ap length taken ∙ length-take (at_most n db.byte_length) (contents db) in
      let bound = at_most_le n db.byte_length in
      (
        split,
        omega arith,
        omega (arith, ap length split, length-append (drain n db).0 (contents (drain n db).1)),
        valid,
      )
    where
      at_most_le : (o : Option ℕ) (k : ℕ) → at_most o k ≤ k
      at_most_le none k = omega arith
      at_most_le (some m) k = ground arith

  cut_more :
      (fuel : ℕ) (db : DataBuffer) (u : Sending State h.State)
      → ltb max db.byte_length ≡ true
      → cut b h (suc fuel) max id db u
        ≡ cut b h fuel max id (drain (some max) db).1 (send b h id max (drain (some max) db).0 u)
  unfolding cut
  cut_more fuel db u e = ground (arith, e)

  cut_done :
      (fuel : ℕ) (db : DataBuffer) (u : Sending State h.State)
      → ltb max db.byte_length ≡ false
      → cut b h (suc fuel) max id db u ≡ (db, u)
  unfolding cut
  cut_done fuel db u e = ground (arith, e)

  -- The count of bytes is right, no more than one chunk is held, and all is sent or held.
  abbrev pub IsCut : Bytes → DataBuffer × Sending State h.State → Type 0
  IsCut input (db, u) = IsValid db × (db.byte_length ≤ max) × Sent input db u

  -- The loop sends all but a last chunk: enough fuel is what is held.
  cut-IsCut :
      (fuel : ℕ) (input : Bytes) (db : DataBuffer) (u : Sending State h.State)
      → 0 < max
      → db.byte_length ≤ fuel
      → IsValid db
      → Sent input db u
      → IsCut input (cut b h fuel max id db u)
  cut-IsCut zero input db u m f v sent = unfold cut in (v, omega arith, sent)
  cut-IsCut (suc fuel) input db u m f v sent = elim (Bool-cases (ltb max db.byte_length)) [
    | inr few ↦ subst (IsCut input) (sym (cut_done fuel db u few)) (v, ground (arith, few), sent)
    | inl more ↦
        let (split, count, left, valid) = drain-split (some max) db v in
        let taken : length (drain (some max) db).0 ≡ max = ground (arith, count, more) in
        subst (IsCut input) (sym (cut_more fuel db u more)) (
          cut-IsCut fuel input (drain (some max) db).1 (send b h id max (drain (some max) db).0 u) m
            (ground (arith, count, left, valid, taken)) valid
            (send-Sent input (drain (some max) db).0 max db (drain (some max) db).1 u split
              (sym taken) m (omega arith) sent))
  ]

  fill-Sent :
      (input p : Bytes) (db : DataBuffer) (u : Sending State h.State)
      → IsValid db
      → Sent input db u
      → Sent (input ++ p) (fill p [] db) u
  fill-Sent input p db u v sent e =
      let old = sent e in
      record {
        whole =
            ap (◌++◌ (joined (chunks id u.state)))
              ((fill_lem p [] db v).1 ∙ ap (◌++◌ (contents db)) (append-nil p))
            ∙ sym (append_assoc (joined (chunks id u.state)) (contents db) p)
            ∙ ap (λ (x : Bytes). x ++ p) old.whole;
        hashed = old.hashed;
        sized = old.sized;
        counted = old.counted;
        bounded = old.bounded;
      }

  -- When the reader ends, all that it gave is sent or held.
  pub feed-IsCut :
      (input : Bytes) (reads : List Read) (db : DataBuffer) (u : Sending State h.State)
      → 0 < max
      → IsCut input (db, u)
      → (feed b h max id reads db u).0 ≡ true
      → IsCut (input ++ given reads) (feed b h max id reads db u).1
  unfolding feed
  feed-IsCut input [] db u m c e = subst (λ x. IsCut x (db, u)) (sym (append-nil input)) c
  feed-IsCut input (broken ∷ reads) db u m c e = absurd (cc)
  feed-IsCut input (piece p ∷ reads) db u m (v, few, sent) e =
      let step =
        cut-IsCut (fill p [] db).byte_length (input ++ p) (fill p [] db) u m (omega arith)
          (fill_lem p [] db v).0 (fill-Sent input p db u v sent) in
      let next = cut b h (fill p [] db).byte_length max id (fill p [] db) u in
      subst (λ x. IsCut x (feed b h max id reads next.0 next.1).1)
        (append_assoc input p (given reads)) (feed-IsCut (input ++ p) reads next.0 next.1 m step e)

  emptied :
      (input : Bytes) (db : DataBuffer) (u : Sending State h.State)
      → IsValid db
      → db.byte_length ≡ 0
      → Sent input db u
      → Sent input new_data_buffer u
  emptied input db u v z sent e =
      let old = sent e in
      record {
        whole =
            ap (◌++◌ (joined (chunks id u.state)))
              (sym (length-zero (contents db) (omega (arith, v, z))))
            ∙ old.whole;
        hashed = old.hashed;
        sized = old.sized;
        counted = old.counted;
        bounded = old.bounded;
      }

  -- The last chunk goes out: everything is sent.
  pub flush-Sent :
      (input : Bytes) (db : DataBuffer) (u : Sending State h.State)
      → IsCut input (db, u)
      → Sent input new_data_buffer (flush b h id db u)
  unfolding flush
  flush-Sent input db u (v, few, sent) =
      let (split, count, left, valid) = drain-split none db v in
      let nothing = length-zero (contents (drain none db).1) (ground (arith, count, left)) in
      if-elim (Sent input new_data_buffer) (ltb 0 db.byte_length)
        (send b h id (length (drain none db).0) (drain none db).0 u) u
        (λ (more : ltb 0 db.byte_length ≡ true).
          send-Sent input (drain none db).0 (length (drain none db).0) db new_data_buffer u
            (ap (◌++◌ (drain none db).0) (sym nothing) ∙ split) refl (ground (arith, count, more))
            (omega (arith, count)) sent)
        (λ (no : ltb 0 db.byte_length ≡ false). emptied input db u v (ground (arith, no)) sent)
