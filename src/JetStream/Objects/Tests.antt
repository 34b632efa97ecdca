-- ===== src/JetStream/Objects/Tests.antt =====
-- Runs of the object store on a stream in memory.
use nats_deno.Base.{
  ◌≡◌, ◌≢◌, refl, length, drop, false, none, some, List, [], ◌∷◌, ◌++◌, Bytes, codes, bytes_eq,
  if◌then◌else◌, arith,
}
use nats_deno.JetStream.Digest.{encode, parsed, parse_sha256}
use nats_deno.JetStream.Digest.Sample.{unary}
use nats_deno.JetStream.Objects.Server.{Info, Meta, resolved, rejected}
use nats_deno.JetStream.Objects.Upload.{Read, piece, put, digest_type}
use nats_deno.JetStream.Objects.RoundTrip.{put-get_blob}
use nats_deno.JetStream.Objects.Failures.{put-IsUndone, IsUndone}
use nats_deno.JetStream.Objects.Limits.{put-bounds}
use nats_deno.DataBuffer.Laws.{joined}
use nats_deno.JetStream.Objects.Received.{get-hash}
use nats_deno.JetStream.Objects.Sent.{hash_all, AreChunks}
use nats_deno.JetStream.Objects.Changes.{delete-get, link-get}
use nats_deno.JetStream.Objects.Download.{absent, opened, closed, get, get_blob}
use nats_deno.JetStream.Objects.Manage.{delete, link, link_info, update, is_live}
use nats_deno.JetStream.Objects.Renames.{update-get_blob}
use nats_deno.JetStream.Objects.Sample.{Memory, memory, counting}

abbrev empty : Memory
empty = record { held = λ j. []; entries = λ n. none }

abbrev a_meta : Meta
a_meta = record { name = codes "a"; link = none; max_chunk_size = some 2 }

abbrev reads : List Read
reads = piece (1 ∷ 2 ∷ 3 ∷ []) ∷ piece (4 ∷ 5 ∷ []) ∷ []

abbrev a_info : Info
a_info = record {
  name = codes "a";
  nuid = codes "i";
  size = 5;
  chunks = 3;
  digest = digest_type ++ encode unary (counting.digest 5);
  deleted = false;
  link = none;
  max_chunk_size = some 2;
}

abbrev with_a : Memory
with_a = (put memory counting unary (codes "i") none none a_meta reads empty).1

put_a : (put memory counting unary (codes "i") none none a_meta reads empty).0 ≡ resolved a_info
unfolding put nats_deno.DataBuffer.fill nats_deno.DataBuffer.drain nats_deno.DataBuffer.pack
put_a = refl

put-get_blob_example :
    get_blob memory counting unary 1 (λ (x : Bytes). with_a) [] (codes "a")
    ≡ resolved (some (1 ∷ 2 ∷ 3 ∷ 4 ∷ 5 ∷ []))
put-get_blob_example =
    put-get_blob memory counting unary (codes "i") none none a_meta reads empty a_info 0
      (λ _. with_a) [] (refl, λ old e. absurd (cc)) put_a refl refl

abbrev pieces : List Bytes
pieces = (1 ∷ 2 ∷ []) ∷ (3 ∷ 4 ∷ []) ∷ (5 ∷ []) ∷ []

got_a :
    get memory counting unary 1 (λ (x : Bytes). with_a) [] (codes "a")
    ≡ resolved (opened a_info (closed pieces))
unfolding bytes_eq get put encode nats_deno.DataBuffer.fill nats_deno.DataBuffer.drain
    nats_deno.DataBuffer.pack
got_a = refl

-- A refused chunk: the put rejects, and the chunk before it is gone again.
abbrev bad_reads : List Read
bad_reads = piece (1 ∷ 2 ∷ 0 ∷ []) ∷ piece (4 ∷ 5 ∷ []) ∷ []

put_bad : (put memory counting unary (codes "j") none none a_meta bad_reads with_a).0 ≡ rejected
unfolding put nats_deno.DataBuffer.fill nats_deno.DataBuffer.drain nats_deno.DataBuffer.pack
put_bad = refl

put-IsUndone_example :
    IsUndone memory counting unary
      (codes "j")
      (codes "a")
      with_a
      (put memory counting unary (codes "j") none none a_meta bad_reads with_a).1
unfolding bytes_eq put nats_deno.DataBuffer.fill nats_deno.DataBuffer.drain
    nats_deno.DataBuffer.pack
put-IsUndone_example =
    put-IsUndone memory counting unary (codes "j") none none a_meta bad_reads with_a (λ t. refl)
      (λ t e. e) refl put_bad

get-hash_example :
    (a_info.size ≡ 0 → pieces ≡ [] ∷ [])
    × (a_info.size ≢ 0
        → parse_sha256 unary (drop 8 a_info.digest)
          ≡ parsed (counting.digest (hash_all counting 0 pieces)))
get-hash_example =
    get-hash memory counting unary 1 (λ (x : Bytes). with_a) [] (codes "a") a_info pieces got_a

put-bounds_example :
    AreChunks 1024 (with_a.held (codes "i"))
    × AreChunks 2 (with_a.held (codes "i"))
    × (joined (with_a.held (codes "i")) ≡ 1 ∷ 2 ∷ 3 ∷ 4 ∷ 5 ∷ [])
    × (a_info.size ≡ 5)
    × (a_info.chunks ≡ length (with_a.held (codes "i")))
put-bounds_example =
    put-bounds memory counting unary (codes "i") none none a_meta reads empty a_info
      (refl, λ old e. absurd (cc)) put_a

abbrev b_info : Info
b_info = record {
  name = codes "b";
  nuid = codes "i";
  size = 1;
  chunks = 1;
  digest = digest_type ++ encode unary (counting.digest 1);
  deleted = false;
  link = none;
  max_chunk_size = none;
}

abbrev with_b : Memory
with_b = record {
  held = λ (j : Bytes). if bytes_eq (codes "i") j then (9 ∷ []) ∷ [] else [];
  entries = λ (n : Bytes). if bytes_eq (codes "b") n then some b_info else none;
}

delete-get_example :
    (get memory counting unary 1
        (λ (x : Bytes). (delete memory (codes "b") with_b).1)
        []
        (codes "b")
      ≡ resolved absent)
    × ((delete memory (codes "b") with_b).1.held (codes "i") ≡ [])
    × ((n : Bytes)
        → bytes_eq (codes "b") n ≡ false
        → (delete memory (codes "b") with_b).1.entries n ≡ with_b.entries n)
    × ((j : Bytes)
        → bytes_eq (codes "i") j ≡ false
        → (delete memory (codes "b") with_b).1.held j ≡ with_b.held j)
unfolding bytes_eq delete
delete-get_example =
    delete-get memory counting unary (codes "b") with_b b_info 0
      (λ x. (delete memory (codes "b") with_b).1) [] refl refl refl refl refl

link-get_example :
    get memory counting unary 2
      (λ (x : Bytes).
        if bytes_eq x [] then (link memory (codes "l") (codes "o") b_info with_b).1 else with_b)
      []
      (codes "l")
    ≡ get memory counting unary 1
        (λ (x : Bytes).
          if bytes_eq x [] then (link memory (codes "l") (codes "o") b_info with_b).1 else with_b)
        (codes "o")
        (codes "b")
unfolding bytes_eq link
link-get_example =
    link-get memory counting unary (codes "l") (codes "o") b_info with_b
      (some (link_info memory (codes "l") (codes "o") b_info)) 1
      (λ (x : Bytes).
        if bytes_eq x [] then (link memory (codes "l") (codes "o") b_info with_b).1 else with_b)
      [] (omega arith) refl refl

abbrev renamed : Memory
renamed =
    (update memory (codes "b") (some (codes "z"))
      (record { name = codes "z"; link = none; max_chunk_size = none }) with_b).1

update-get_blob_example :
    (get_blob memory counting unary 1 (λ (x : Bytes). renamed) [] (codes "z")
      ≡ get_blob memory counting unary 1 (λ (x : Bytes). with_b) [] (codes "b"))
    × (renamed.entries (codes "b") ≡ none)
    × (is_live (with_b.entries (codes "z")) ≡ false)
unfolding bytes_eq update
update-get_blob_example =
    update-get_blob memory counting unary (codes "b") (codes "z")
      (record { name = codes "z"; link = none; max_chunk_size = none }) b_info 0 (λ x. with_b)
      (λ x. renamed) [] refl refl refl refl refl refl refl
