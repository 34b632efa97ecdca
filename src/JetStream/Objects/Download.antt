-- ===== src/JetStream/Objects/Download.antt =====
-- Reading an object back: `get` and `getBlob`.
use nats_deno.Base.{
  ℕ, zero, suc, not, Option, none, some, List, [], ◌∷◌, ◌++◌, Bytes, bytes_eq, length, ltb, ◌==◌,
  if◌then◌else◌, take, drop,
}
use nats_deno.DataBuffer.{DataBuffer, new_data_buffer, fill, drain}
use nats_deno.JetStream.Digest.{Base64, parsed, unknown, thrown, parse_sha256, check_sha256}
use nats_deno.JetStream.Objects.Server.{
  Info, Delivery, Stream, Sha, Promised, resolved, rejected, waiting, raw_info,
}
use nats_deno.JetStream.Objects.Upload.{digest_type}

-- How the stream of an object's bytes ends, with the pieces that were handed on.
pub data Body : Type 0 where
  closed : List Bytes → Body
  corrupt : List Bytes → Body
  unfinished : List Bytes → Body

-- What `get` comes to: null, or an object with its bytes.
pub data Got : Type 0 where
  absent : Got
  opened : Info → Body → Got

-- `fromReadableStream`: the loop
unfoldable pub collect : List Bytes → DataBuffer → DataBuffer
collect [] db = db
collect (p ∷ ps) db = collect ps (if ltb 0 (length p) then fill p [] db else db)

-- `getBlob`: the reader ends, fails, or never ends.
unfoldable pub blob_of : Promised Got → Promised (Option Bytes)
unfolding collect
blob_of rejected = rejected
blob_of waiting = waiting
blob_of (resolved absent) = resolved none
blob_of (resolved (opened i (closed ps))) =
    resolved (some (drain none (collect ps new_data_buffer)).0)
blob_of (resolved (opened i (corrupt ps))) = rejected
blob_of (resolved (opened i (unfinished ps))) = waiting

module _ (h : Sha) where
  -- The loop over the messages of the chunks
  unfoldable pub receive : Bytes → h.State → List Bytes → List Delivery → Body
  receive digest sha out [] = unfinished out
  receive digest sha out (m ∷ ms) =
      let sha' = if ltb 0 (length m.body) then h.update m.body sha else sha in
      let out' = if ltb 0 (length m.body) then out ++ m.body ∷ [] else out in
      let rest = receive digest sha' out' ms in
      if m.pending == 0
      then (if not (check_sha256 digest (h.digest sha')) then corrupt out' else closed out')
      else rest

module _ (b : Stream) (h : Sha) (base : Base64) where
  open b use {State, deliveries}

  -- `get` behind the digest's check: an empty object has nothing to read.
  unfoldable pub open_info : Info → Bytes → State → Body
  unfolding receive
  open_info i digest s =
      if i.size == 0 then closed ([] ∷ []) else receive h digest h.create [] (deliveries i.nuid s)

  -- `get` behind `rawInfo`; `follow` is the call of `get` for a link's target.
  unfoldable pub get_info : (Bytes → Bytes → Promised Got) → Info → State → Promised Got
  unfolding open_info parse_sha256
  get_info follow i s = if i.deleted then resolved absent else elim i.link [
    | some l ↦
        let name : Bytes = elim l.name [ none ↦ [] | some n ↦ n ] in
        if length name == 0 then rejected else follow l.bucket name
    | none ↦
        if not (bytes_eq (take 8 i.digest) digest_type)
        then rejected
        else elim (parse_sha256 base (drop 8 i.digest)) [
          | unknown ↦ rejected
          | thrown ↦ rejected
          | parsed d ↦ resolved (opened i (open_info i d s))
        ]
  ]

  unfoldable pub get_entry :
      (Bytes → Bytes → Promised Got) → Promised (Option Info) → State → Promised Got
  unfolding get_info
  get_entry follow rejected s = rejected
  get_entry follow waiting s = waiting
  get_entry follow (resolved none) s = resolved absent
  get_entry follow (resolved (some i)) s = get_info follow i s

  -- `get` of an object in a bucket of those in `buckets`: the fuel bounds the links that are followed, and a
  -- longer chain of them does not end.
  unfoldable pub get : ℕ → (Bytes → State) → Bytes → Bytes → Promised Got
  unfolding raw_info get_entry
  get zero buckets bucket name = waiting
  get (suc fuel) buckets bucket name =
      get_entry (get fuel buckets) (raw_info b name (buckets bucket)) (buckets bucket)

  unfoldable pub get_blob : ℕ → (Bytes → State) → Bytes → Bytes → Promised (Option Bytes)
  unfolding get blob_of
  get_blob fuel buckets bucket name = blob_of (get fuel buckets bucket name)
