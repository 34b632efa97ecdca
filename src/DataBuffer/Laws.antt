-- ===== src/DataBuffer/Laws.antt =====
-- A `DataBuffer` is a queue of bytes: its contents are its buffers, one behind the other.
use mathlib.Core.List.{append-nil, append_assoc}
use nats_deno.Base.{
  ℕ, ◌+◌, ◌<◌, ◌≡◌, refl, sym, ap, ◌∙◌, Option, List, [], ◌∷◌, ◌++◌, Bytes, length, take, drop,
  arith, length-append, length-drop,
}
use nats_deno.Base.Slices.{take-of_le, drop-of_le}
use nats_deno.Buffer.{overwrite, zeros}
use nats_deno.Buffer.Laws.{length-overwrite, slice-overwrite, length-zeros}
use nats_deno.DataBuffer.{
  DataBuffer, set_all, total, concat, pack, shift, at_most, split_at, drain, fill, fill_more, peek,
}

abbrev pub joined : List Bytes → Bytes
joined [] = []
joined (b ∷ bufs) = b ++ joined bufs

abbrev pub contents : DataBuffer → Bytes
contents d = joined d.buffers

-- `byteLength` counts the bytes that are held.
abbrev pub IsValid : DataBuffer → Type 0
IsValid d = d.byte_length ≡ length (contents d)

total-joined : (bufs : List Bytes) → total bufs ≡ length (joined bufs)
unfolding total
total-joined [] = refl
total-joined (b ∷ bufs) = omega (arith, total-joined bufs, length-append b (joined bufs))

pub joined-append : (xs ys : List Bytes) → joined (xs ++ ys) ≡ joined xs ++ joined ys
joined-append [] ys = refl
joined-append (x ∷ xs) ys =
    ap (◌++◌ x) (joined-append xs ys) ∙ sym (append_assoc x (joined xs) (joined ys))

-- Copying the buffers into an array that has just the room writes them one behind the other.
set_all_lem :
    (out : Bytes) (index : ℕ) (bufs : List Bytes)
    → index + length (joined bufs) ≡ length out
    → set_all out index bufs ≡ take index out ++ joined bufs
unfolding set_all
set_all_lem out index [] h = sym (append-nil _ ∙ take-of_le index out (omega arith))
set_all_lem out index (b ∷ bufs) h =
    let step =
      set_all_lem (overwrite out index b) (index + length b) bufs
        (omega (arith, length-overwrite out index b, length-append b (joined bufs))) in
    step
    ∙ ap (λ t. t ++ joined bufs)
        (slice-overwrite out 0 index (index + length b) b (omega arith) refl
          (omega (arith, length-append b (joined bufs))))
    ∙ append_assoc (take index out) b (joined bufs)

-- `concat` of any buffers is their bytes in order.
pub concat-joined : (bufs : List Bytes) → concat bufs ≡ joined bufs
unfolding concat
concat-joined bufs =
    set_all_lem (zeros (total bufs)) 0 bufs
      (omega (arith, total-joined bufs, length-zeros (total bufs)))

packed-joined :
    (d : DataBuffer) → IsValid d → set_all (zeros d.byte_length) 0 d.buffers ≡ contents d
packed-joined d v =
    set_all_lem (zeros d.byte_length) 0 d.buffers (omega (arith, v, length-zeros d.byte_length))

-- A buffer that holds something, once it is packed.
pack_lem :
    (d : DataBuffer)
    → IsValid d
    → 0 < length d.buffers
    → ((pack d).buffers ≡ contents d ∷ []) × ((pack d).byte_length ≡ d.byte_length)
unfolding pack
pack_lem d v h = go d.buffers refl
  where
    go :
        (bs : List Bytes)
        → d.buffers ≡ bs
        → ((pack d).buffers ≡ contents d ∷ []) × ((pack d).byte_length ≡ d.byte_length)
    go [] e = absurd (omega (arith, ap length e))
    go (b ∷ []) e = ground (arith, append-nil b)
    go (b ∷ c ∷ rest) e = ground (arith, packed-joined d v)

split_at_lem :
    (n : Option ℕ) (v : Bytes) (max : ℕ)
    → max ≡ length v
    → ((split_at (at_most n max) v [] max).0 ≡ take (at_most n max) v)
      × (contents (split_at (at_most n max) v [] max).1 ≡ drop (at_most n max) v)
      × IsValid (split_at (at_most n max) v [] max).1
unfolding split_at
split_at_lem n v max e = ground (
  arith,
  append-nil (drop (at_most n max) v),
  length-drop (at_most n max) v,
  drop-of_le (at_most n max) v,
)

drain_packed :
    (n : Option ℕ) (d : DataBuffer)
    → IsValid d
    → 0 < length d.buffers
    → drain n d ≡ split_at (at_most n d.byte_length) (contents d) [] d.byte_length
unfolding drain
drain_packed n d v h = go d.buffers refl
  where
    go :
        (bs : List Bytes)
        → d.buffers ≡ bs
        → drain n d ≡ split_at (at_most n d.byte_length) (contents d) [] d.byte_length
    go [] e = absurd (omega (arith, ap length e))
    go (b ∷ bs) e = ground (arith, pack_lem d v h)

-- On a queue whose count of bytes is right, `drain(n)` takes the first `n` bytes of all that is
-- held, or everything if `n` is missing or larger, and leaves the others, with the count right
-- again.
pub drain_lem :
    (n : Option ℕ) (d : DataBuffer)
    → IsValid d
    → ((drain n d).0 ≡ take (at_most n d.byte_length) (contents d))
      × (contents (drain n d).1 ≡ drop (at_most n d.byte_length) (contents d))
      × IsValid (drain n d).1
drain_lem n d v = go d.buffers refl
  where
    go :
        (bs : List Bytes)
        → d.buffers ≡ bs
        → ((drain n d).0 ≡ take (at_most n d.byte_length) (contents d))
          × (contents (drain n d).1 ≡ drop (at_most n d.byte_length) (contents d))
          × IsValid (drain n d).1
    go [] e =
        unfold drain in
        ground (
          arith,
          take-of_le {A = ℕ} (at_most n d.byte_length) [],
          drop-of_le {A = ℕ} (at_most n d.byte_length) [],
        )
    go (b ∷ bs) e =
        rw (drain_packed n d v (omega (arith, ap length e)))
          (split_at_lem n (contents d) d.byte_length v)

pub length-zero : (b : Bytes) → length b ≡ 0 → b ≡ []
length-zero [] e = refl
length-zero (x ∷ b) e = absurd (omega arith)

push-IsValid :
    (d : DataBuffer) (b : Bytes)
    → IsValid d
    → d.byte_length + length b ≡ length (joined (d.buffers ++ b ∷ []))
push-IsValid d b v = omega (
  arith,
  v,
  ap length (joined-append d.buffers (b ∷ [])),
  ap length (append-nil b),
  length-append (joined d.buffers) (b ++ []),
)

fill_more_lem :
    (bufs : List Bytes) (d : DataBuffer)
    → IsValid d
    → IsValid (fill_more bufs d) × (contents (fill_more bufs d) ≡ contents d ++ joined bufs)
unfolding fill_more
fill_more_lem [] d v = (v, sym (append-nil _))
fill_more_lem (b ∷ bufs) d v = ground (
  arith,
  fill_more_lem bufs d v,
  push-IsValid d b v,
  length-zero b,
  fill_more_lem bufs
      (record { buffers = d.buffers ++ b ∷ []; byte_length = d.byte_length + length b }),
  joined-append d.buffers (b ∷ []),
  append-nil b,
  append_assoc (contents d) b (joined bufs),
)

-- On a queue whose count of bytes is right, `fill` adds the bytes of all its buffers behind what
-- is held, in order, and keeps the count right.
pub fill_lem :
    (a : Bytes) (bufs : List Bytes) (d : DataBuffer)
    → IsValid d
    → IsValid (fill a bufs d) × (contents (fill a bufs d) ≡ contents d ++ (a ++ joined bufs))
unfolding fill
fill_lem a bufs d v = ground (
  arith,
  push-IsValid d a v,
  fill_more_lem bufs
      (record { buffers = d.buffers ++ a ∷ []; byte_length = d.byte_length + length a }),
  joined-append d.buffers (a ∷ []),
  append-nil a,
  append_assoc (contents d) a (joined bufs),
)

-- On a queue whose count of bytes is right, `shift` takes the first bytes and leaves the others,
-- `peek` shows all that is held and takes nothing, and the count stays right.
pub shift-peek :
    (d : DataBuffer)
    → IsValid d
    → ((shift d).0 ++ contents (shift d).1 ≡ contents d)
      × IsValid (shift d).1
      × ((peek d).0 ≡ contents d)
      × (contents (peek d).1 ≡ contents d)
      × IsValid (peek d).1
unfolding shift peek
shift-peek d v = go d.buffers refl
  where
    go :
        (bs : List Bytes)
        → d.buffers ≡ bs
        → ((shift d).0 ++ contents (shift d).1 ≡ contents d)
          × IsValid (shift d).1
          × ((peek d).0 ≡ contents d)
          × (contents (peek d).1 ≡ contents d)
          × IsValid (peek d).1
    go [] e = ground arith
    go (b ∷ bs) e = ground (
      arith,
      pack_lem d v (omega (arith, ap length e)),
      length-append b (joined bs),
      append-nil (contents d),
    )
