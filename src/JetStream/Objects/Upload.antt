-- ===== src/JetStream/Objects/Upload.antt =====
-- Putting an object: `_put`, `put`, `putBlob` and `linkStore`.
use nats_deno.Base.{
  not, ℕ, zero, suc, ◌+◌, ◌*◌, Bool, true, false, ◌&&◌, Option, none, some, List, [], ◌∷◌, ◌++◌,
  Bytes, codes, length, ltb, ◌==◌, if◌then◌else◌,
}
use nats_deno.DataBuffer.{DataBuffer, new_data_buffer, fill, drain}
use nats_deno.JetStream.Digest.{Base64, encode}
use nats_deno.JetStream.Objects.Server.{
  Info, Meta, Stream, Sha, Promised, resolved, rejected, waiting, raw_info,
}

-- What a reader gives: a piece of the object, or a failure.
pub data Read : Type 0 where
  piece : Bytes → Read
  broken : Read

-- What `_put` has at hand: the stream, the hash, `info.size`, `info.chunks`, and whether every chunk that was
-- published so far is stored.
pub record Sending (S H : Type 0) : Type 0 where
  pub state : S
  pub sha : H
  pub size : ℕ
  pub chunks : ℕ
  pub stored : Bool

abbrev pub digest_type : Bytes
digest_type = codes "SHA-256="

-- `a || b` of a number that may be missing
abbrev pub or_default : Option ℕ → ℕ → ℕ
or_default none d = d
or_default (some n) d = if n == 0 then d else n

-- `maxChunk`
unfoldable pub max_chunk : Option ℕ → Option ℕ → ℕ
max_chunk wanted payload =
    let max_payload = or_default payload 1024 in
    let max = or_default wanted (128 * 1024) in if ltb max_payload max then max_payload else max

module _ (b : Stream) (h : Sha) where
  open b use {State, publish_chunk}

  -- One chunk goes out: `counted` is what is added to the size. The code goes on without waiting for the
  -- acknowledgement; what comes in late is the handler's of errors.
  unfoldable pub send : Bytes → ℕ → Bytes → Sending State h.State → Sending State h.State
  send id counted payload u = record {
    state = (publish_chunk id payload u.state).1;
    sha = h.update payload u.sha;
    size = u.size + counted;
    chunks = suc u.chunks;
    stored = u.stored && (publish_chunk id payload u.state).0;
  }

  -- `while (db.size() > maxChunk)`
  unfoldable pub cut :
      ℕ → ℕ → Bytes → DataBuffer → Sending State h.State → DataBuffer × Sending State h.State
  unfolding send
  cut zero max id db u = (db, u)
  cut (suc fuel) max id db u = elim (ltb max db.byte_length) [
    | false ↦ (db, u)
    | true ↦ cut fuel max id (drain (some max) db).1 (send id max (drain (some max) db).0 u)
  ]

  -- The loop over what the reader gives, up to its end or a failure, that comes first. Every chunk takes a
  -- byte at least, so the bytes that are held are fuel enough.
  unfoldable pub feed :
      ℕ
      → Bytes
      → List Read
      → DataBuffer
      → Sending State h.State
      → Bool × (DataBuffer × Sending State h.State)
  unfolding cut
  feed max id [] db u = (true, (db, u))
  feed max id (broken ∷ reads) db u = (false, (db, u))
  feed max id (piece p ∷ reads) db u =
      let (rest, v) = cut (fill p [] db).byte_length max id (fill p [] db) u in
      feed max id reads rest v

  -- The last chunk, at the reader's end
  unfoldable pub flush : Bytes → DataBuffer → Sending State h.State → Sending State h.State
  unfolding send
  flush id db u =
      if ltb 0 db.byte_length then send id (length (drain none db).0) (drain none db).0 u else u

module _ (b : Stream) (h : Sha) (base : Base64) where
  open b use {State, purge_chunks, late, publish_meta}

  -- The entry of what was sent
  abbrev pub written : Bytes → ℕ → Meta → Sending State h.State → Info
  written id max meta u = record {
    name = meta.name;
    nuid = id;
    size = u.size;
    chunks = u.chunks;
    digest = digest_type ++ encode base (h.digest u.sha);
    deleted = false;
    link = meta.link;
    max_chunk_size = some max;
  }

  -- The chunks of the entry that was replaced go; that this fails is of no account.
  unfoldable pub clean : Option Info → State → State
  clean none s = s
  clean (some old) s = (purge_chunks old.nuid s).1

  -- The handler of errors: what was sent is purged, and the error is passed on. The code does not wait for
  -- the chunks that are still on their way, which may arrive behind the purge.
  unfoldable pub fail : Bytes → State → Promised Info × State
  fail id s = (rejected, late id (purge_chunks id s).1)

  -- The rest of `_put` once all the chunks are out
  unfoldable pub publish :
      Bytes → ℕ → Option ℕ → Meta → Option Info → Sending State h.State → Promised Info × State
  unfolding clean fail
  publish id max previous meta old u =
      if not u.stored
      then fail id u.state
      else (let (ok, s) = publish_meta meta.name previous (written id max meta u) u.state in
          if ok then (resolved (written id max meta u), clean old s) else fail id s)

  abbrev pub start : State → Sending State h.State
  start s = record { state = s; sha = h.create; size = 0; chunks = 0; stored = true }

  -- `_put` behind the look at the old entry
  unfoldable pub transfer :
      Bytes → ℕ → Option ℕ → Meta → Option Info → List Read → State → Promised Info × State
  unfolding feed flush publish fail
  transfer id max previous meta old reads s =
      let (done, (db, u)) = feed b h max id reads new_data_buffer (start s) in
      if done then publish id max previous meta old (flush b h id db u) else fail id u.state

  -- `_put`, with the id of `nuid.next()`; no reader reads as one that is at its end.
  unfoldable pub put_any :
      Bytes → Option ℕ → Option ℕ → Meta → List Read → State → Promised Info × State
  unfolding raw_info transfer max_chunk
  put_any id payload previous meta reads s = elim (raw_info b meta.name s) [
    | rejected ↦ (rejected, s)
    | waiting ↦ (waiting, s)
    | resolved old ↦ transfer id (max_chunk meta.max_chunk_size payload) previous meta old reads s
  ]

  -- `put`
  unfoldable pub put :
      Bytes → Option ℕ → Option ℕ → Meta → List Read → State → Promised Info × State
  unfolding put_any
  put id payload previous meta reads s = elim meta.link [
    | some l ↦ (rejected, s)
    | none ↦ put_any id payload previous meta reads s
  ]

  -- `putBlob`
  unfoldable pub put_blob :
      Bytes → Option ℕ → Option ℕ → Meta → Option Bytes → State → Promised Info × State
  unfolding put
  put_blob id payload previous meta none s = put id payload previous meta (piece [] ∷ []) s
  put_blob id payload previous meta (some blob) s = put id payload previous meta (piece blob ∷ []) s

  -- `linkStore` to the bucket `bucket`
  unfoldable pub link_store : Bytes → Option ℕ → Bytes → Bytes → State → Promised Info × State
  unfolding put_any
  link_store id payload name bucket s =
      if length name == 0
      then (rejected, s)
      else put_any id payload none
          (record {
            name = name;
            link = some (record { bucket = bucket; name = none });
            max_chunk_size = none;
          })
          [] s
