-- ===== src/Buffer.antt =====
-- nats-base-client/denobuffer.ts: `DenoBuffer`. The state is the backing `ArrayBuffer` by its bytes,
-- the length of the view `_buf`, which starts at 0, and the read offset `_off`. `MAX_SIZE` is a
-- parameter, as the code reads no more of it than comparisons. `readFrom` and `readAll` are not here.
pub mod Laws
mod Tests
use nats_deno.Base.{
  ℕ, zero, suc, ◌+◌, ◌-◌, ◌*◌, ◌/◌, Bool, true, false, ◌&&◌, not, Option, none, some, List, [], ◌∷◌,
  ◌++◌, Bytes, length, min, take, drop, leb, ltb, ◌==◌, if◌then◌else◌,
}
use nats_deno.Base.Slices.{slice}

pub record DenoBuffer : Type 0 where
  pub store : Bytes
  pub len : ℕ
  pub off : ℕ

abbrev pub new_buffer : Bytes → DenoBuffer
new_buffer ab = record { store = ab; len = length ab; off = 0 }

-- `set(src, off)` of a typed array that `src` fits in.
unfoldable pub overwrite : Bytes → ℕ → Bytes → Bytes
overwrite [] o src = []
overwrite (x ∷ s) zero [] = x ∷ s
overwrite (x ∷ s) zero (b ∷ src) = b ∷ overwrite s zero src
overwrite (x ∷ s) (suc o) src = x ∷ overwrite s o src

-- `copy(src, dst, off)` for a `dst` of `room` bytes at the front of `store`: what is stored and
-- the number of bytes copied.
unfoldable pub copy : Bytes → ℕ → Bytes → ℕ → Bytes × ℕ
unfolding overwrite
copy store room src off =
    let cut = if ltb (room - off) (length src) then take (room - off) src else src in
    (overwrite store off cut, length cut)

abbrev pub capacity : DenoBuffer → ℕ
capacity b = length b.store

-- `get length()`
abbrev pub unread : DenoBuffer → ℕ
unread b = b.len - b.off

-- `_reslice`; `none` is a failed assertion.
unfoldable pub reslice : ℕ → DenoBuffer → Option DenoBuffer
reslice len b = if leb len (capacity b) then some (record b { len = len }) else none

abbrev pub reset : DenoBuffer → DenoBuffer
reset b = record b { len = 0; off = 0 }

unfoldable pub bytes : DenoBuffer → Bytes
bytes b = slice b.store b.off b.len

abbrev pub is_empty : DenoBuffer → Bool
is_empty b = leb b.len b.off

-- `none` is the thrown error.
unfoldable pub truncate : ℕ → DenoBuffer → Option DenoBuffer
unfolding reslice
truncate n b =
    if n == 0 then some (reset b) else if ltb (unread b) n then none else reslice (b.off + n) b

-- `read(p)` for a `p` of `n` bytes: the bytes stored in `p`, or `none` for null.
unfoldable pub read : ℕ → DenoBuffer → Option Bytes × DenoBuffer
read n b =
    if is_empty b
    then (if n == 0 then some [] else none, reset b)
    else (let rest = slice b.store b.off b.len in
        let got = if ltb n (length rest) then take n rest else rest in
        (some got, record b { off = b.off + length got }))

abbrev pub zeros : ℕ → Bytes
zeros zero = []
zeros (suc n) = 0 ∷ zeros n

module _ (max_size : ℕ) where
  -- `_grow` behind the reset and `_tryGrowByReslice`, for `m = this.length`.
  unfoldable pub grow_store : ℕ → ℕ → DenoBuffer → Option (DenoBuffer × ℕ)
  unfolding copy reslice
  grow_store n m b =
      let rest = slice b.store b.off b.len in
      let to = min (m + n) max_size in
      if leb (n + m) (capacity b / 2)
      then (if leb to (capacity b)
          then some (record { store = (copy b.store b.len rest 0).0; len = to; off = 0 }, m)
          else none)
      else if ltb max_size (capacity b + n)
      then none
      else (let size = min (2 * capacity b + n) max_size in
          if leb to size
          then some (record { store = (copy (zeros size) size rest 0).0; len = to; off = 0 }, m)
          else none)

  -- `_grow(n)`: where to write `n` bytes; `none` is the thrown error or a failed assertion.
  unfoldable pub grow_by : ℕ → DenoBuffer → Option (DenoBuffer × ℕ)
  unfolding grow_store
  grow_by n b =
      let m = unread b in
      let c = if m == 0 && not (b.off == 0) then reset b else b in
      if leb n (capacity c - c.len)
      then some (record c { len = c.len + n }, c.len)
      else grow_store n m c

  unfoldable pub write : Bytes → DenoBuffer → Option (DenoBuffer × ℕ)
  unfolding grow_by copy
  write p b = elim (grow_by (length p) b) [
    | none ↦ none
    | some (c, m) ↦
        some (record c { store = (copy c.store c.len p m).0 }, (copy c.store c.len p m).1)
  ]

  unfoldable pub write_byte : ℕ → DenoBuffer → Option (DenoBuffer × ℕ)
  unfolding write
  write_byte n b = write (n ∷ []) b

  unfoldable pub grow : ℕ → DenoBuffer → Option DenoBuffer
  unfolding grow_by reslice
  grow n b = elim (grow_by n b) [ none ↦ none | some (c, m) ↦ reslice m c ]
