-- ===== src/DataBuffer.antt =====
-- nats-base-client/databuffer.ts: `DataBuffer`, the queue of the bytes that are to be sent.
pub mod Laws
mod Tests
use nats_deno.Base.{
  ℕ, zero, suc, ◌+◌, ◌-◌, Option, none, some, List, [], ◌∷◌, ◌++◌, Bytes, length, take, drop, ltb,
  leb, ◌==◌, if◌then◌else◌,
}
use nats_deno.Buffer.{overwrite, zeros}

pub record DataBuffer : Type 0 where
  pub buffers : List Bytes
  pub byte_length : ℕ

abbrev pub new_data_buffer : DataBuffer
new_data_buffer = record { buffers = []; byte_length = 0 }

-- The loops that copy every buffer into `out`, from `index` on.
unfoldable pub set_all : Bytes → ℕ → List Bytes → Bytes
unfolding overwrite
set_all out index [] = out
set_all out index (b ∷ bufs) = set_all (overwrite out index b) (index + length b) bufs

unfoldable pub total : List Bytes → ℕ
total [] = 0
total (b ∷ bufs) = length b + total bufs

-- `DataBuffer.concat`, and `concat` of encoders.ts
unfoldable pub concat : List Bytes → Bytes
unfolding set_all total
concat bufs = set_all (zeros (total bufs)) 0 bufs

unfoldable pub pack : DataBuffer → DataBuffer
unfolding set_all
pack d =
    if ltb 1 (length d.buffers)
    then record d { buffers = set_all (zeros d.byte_length) 0 d.buffers ∷ [] }
    else d

unfoldable pub shift : DataBuffer → Bytes × DataBuffer
shift d = elim d.buffers [
  | [] ↦ ([], d)
  | a ∷ rest ↦ (a, record { buffers = rest; byte_length = d.byte_length - length a })
]

-- `pop()` of an array
unfoldable pub pop : List Bytes → Option (Bytes × List Bytes)
pop [] = none
pop (b ∷ []) = some (b, [])
pop (b ∷ c ∷ bufs) = elim (pop (c ∷ bufs)) [ none ↦ none | some (v, rest) ↦ some (v, b ∷ rest) ]

-- `n === undefined || n > max`
abbrev pub at_most : Option ℕ → ℕ → ℕ
at_most none max = max
at_most (some n) max = if ltb max n then max else n

-- `drain` behind `pop`
unfoldable pub split_at : ℕ → Bytes → List Bytes → ℕ → Bytes × DataBuffer
split_at n v rest max = (
  take n v,
  record { buffers = if ltb n max then rest ++ drop n v ∷ [] else rest; byte_length = max - n },
)

unfoldable pub drain : Option ℕ → DataBuffer → Bytes × DataBuffer
unfolding pop split_at
drain n d = elim d.buffers [
  | [] ↦ ([], d)
  | _ ∷ _ ↦ elim (pop (pack d).buffers) [
    | none ↦ ([], pack d)
    | some (v, rest) ↦ split_at (at_most n (pack d).byte_length) v rest (pack d).byte_length
  ]
]

-- `fill(a, ...bufs)`: empty buffers are left out behind the first.
unfoldable pub fill_more : List Bytes → DataBuffer → DataBuffer
fill_more [] d = d
fill_more (b ∷ bufs) d = fill_more bufs (
    if ltb 0 (length b)
    then record { buffers = d.buffers ++ b ∷ []; byte_length = d.byte_length + length b }
    else d)

unfoldable pub fill : Bytes → List Bytes → DataBuffer → DataBuffer
unfolding fill_more
fill a bufs d =
    fill_more bufs
      (record { buffers = d.buffers ++ a ∷ []; byte_length = d.byte_length + length a })

unfoldable pub peek : DataBuffer → Bytes × DataBuffer
peek d = elim d.buffers [
  | [] ↦ ([], d)
  | _ ∷ _ ↦ (elim (pack d).buffers [ [] ↦ [] | b ∷ _ ↦ b ], pack d)
]
