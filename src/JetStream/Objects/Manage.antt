-- ===== src/JetStream/Objects/Manage.antt =====
-- What works on an object's entry: `delete`, `link` and `update`.
use nats_deno.Base.{
  Bool, true, false, not, ◌||◌, Option, none, some, [], Bytes, bytes_eq, length, ◌==◌,
  if◌then◌else◌,
}
use nats_deno.JetStream.Objects.Server.{
  Info, Meta, Stream, Promised, resolved, rejected, waiting, raw_info,
}

abbrev pub is_link : Info → Bool
is_link i = elim i.link [ none ↦ false | some l ↦ true ]

-- Is there an entry, and not of a deleted object?
abbrev pub is_live : Option Info → Bool
is_live none = false
is_live (some i) = not i.deleted

-- `meta.name ?? info.name`
abbrev pub new_name : Option Bytes → Bytes → Bytes
new_name none name = name
new_name (some n) name = n

module _ (b : Stream) where
  open b use {State, publish_meta, purge_chunks, purge_meta}

  unfoldable pub delete_info : Info → State → Promised Bool × State
  delete_info i s =
      let gone = record i { deleted = true; size = 0; chunks = 0; digest = [] } in
      let (ok, t) = publish_meta i.name none gone s in
      let (purged, v) = purge_chunks i.nuid t in
      if ok then (if purged then (resolved true, v) else (rejected, v)) else (rejected, t)

  -- `delete`, and whether there was something to delete.
  unfoldable pub delete : Bytes → State → Promised Bool × State
  unfolding raw_info delete_info
  delete name s = elim (raw_info b name s) [
    | rejected ↦ (rejected, s)
    | waiting ↦ (waiting, s)
    | resolved none ↦ (resolved false, s)
    | resolved (some i) ↦ delete_info i s
  ]

  -- The entry that `link` writes has a name and the link, and no other field: those are empty here.
  abbrev pub link_info : Bytes → Bytes → Info → Info
  link_info name bucket i = record {
    name = name;
    nuid = [];
    size = 0;
    chunks = 0;
    digest = [];
    deleted = false;
    link = some (record { bucket = bucket; name = some i.name });
    max_chunk_size = none;
  }

  -- `link` of the object `i` of the bucket `bucket`, up to the look at the entry that was written.
  unfoldable pub link : Bytes → Bytes → Info → State → Promised (Option Info) × State
  unfolding raw_info
  link name bucket i s =
      let (ok, t) = publish_meta name none (link_info name bucket i) s in
      if length name == 0
      then (rejected, s)
      else (if i.deleted
          then (rejected, s)
          else (if is_link i then (rejected, s) else elim (raw_info b name s) [
            | rejected ↦ (rejected, s)
            | waiting ↦ (waiting, s)
            | resolved dest ↦
                if is_live dest
                then (rejected, s)
                else (if ok then (raw_info b name t, t) else (rejected, t))
          ]))

  -- `update` behind its checks: the options of the old entry do not stay.
  unfoldable pub rewrite : Bytes → Bytes → Meta → Info → State → Promised Bool × State
  rewrite name n meta i s =
      let (ok, t) =
        publish_meta n none
          (record i { name = n; link = meta.link; max_chunk_size = meta.max_chunk_size }) s in
      let (purged, v) = purge_meta name t in
      if not ok
      then (rejected, t)
      else (if bytes_eq name n
          then (resolved true, t)
          else (if purged then (resolved true, v) else (rejected, v)))

  -- The look whether a new name is taken
  unfoldable pub is_free : Bytes → Bytes → State → Promised Bool
  unfolding raw_info
  is_free name n s = if bytes_eq name n then resolved true else elim (raw_info b n s) [
    | rejected ↦ rejected
    | waiting ↦ waiting
    | resolved i ↦ resolved (not (is_live i))
  ]

  unfoldable pub update_info : Bytes → Option Bytes → Meta → Info → State → Promised Bool × State
  unfolding is_free rewrite
  update_info name wanted meta i s =
      let n = new_name wanted i.name in
      if i.deleted || length n == 0 then (rejected, s) else elim (is_free name n s) [
        | rejected ↦ (rejected, s)
        | waiting ↦ (waiting, s)
        | resolved free ↦ if free then rewrite name n meta i s else (rejected, s)
      ]

  -- `update`
  unfoldable pub update : Bytes → Option Bytes → Meta → State → Promised Bool × State
  unfolding raw_info update_info
  update name wanted meta s = elim (raw_info b name s) [
    | rejected ↦ (rejected, s)
    | waiting ↦ (waiting, s)
    | resolved none ↦ (rejected, s)
    | resolved (some i) ↦ update_info name wanted meta i s
  ]
