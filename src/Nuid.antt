-- ===== src/Nuid.antt =====
-- nats-base-client/nuid.ts: `Nuid`, the maker of unique ids. A `Draw` is what the random sources give:
-- twelve bytes, a number below `maxSeq` and an increment.
pub mod Laws
pub mod Ids
mod Tests
use nats_deno.Base.{
  ℕ, zero, suc, ◌+◌, ◌*◌, Bool, true, false, not, Option, none, some, List, [], ◌∷◌, ◌++◌, Bytes,
  codes, length, get_elem?, ltb, if◌then◌else◌,
}
use nats_deno.Base.{◌/◌, ◌%◌}
use nats_deno.Buffer.{overwrite, zeros}

abbrev pub digits : Bytes
digits = codes "0123456789ABCDEFGHIJKLMNOPQRSTUVWXYZ"

-- `digits.charCodeAt(d)`, stored in a byte.
unfoldable pub digit : ℕ → ℕ
digit d = elim (get_elem? digits d) [ none ↦ 0 | some c ↦ c ]

abbrev pub pre_len : ℕ
pre_len = 12

abbrev pub seq_len : ℕ
seq_len = 10

abbrev pub max_seq : ℕ
max_seq = 3656158440062976

abbrev pub min_inc : ℕ
min_inc = 33

abbrev pub max_inc : ℕ
max_inc = 333

pub record Draw : Type 0 where
  pub cbuf : Bytes
  pub seq : ℕ
  pub inc : ℕ

pub record Nuid : Type 0 where
  pub buf : Bytes
  pub seq : ℕ
  pub inc : ℕ
  pub inited : Bool

abbrev pub new_nuid : Nuid
new_nuid = record { buf = zeros (pre_len + seq_len); seq = 0; inc = 0; inited = false }

-- The loop of `setPre`, from the index `i` on.
unfoldable pub set_pre_from : ℕ → Bytes → Bytes → Bytes
set_pre_from i [] buf = buf
set_pre_from i (c ∷ cbuf) buf = set_pre_from (suc i) cbuf (overwrite buf i (digit (c % 36) ∷ []))

-- `setPre`
unfoldable pub set_pre : Draw → Nuid → Nuid
set_pre d nuid = record nuid { buf = set_pre_from 0 d.cbuf nuid.buf }

-- `initSeqAndInc`
unfoldable pub init_seq_and_inc : Draw → Nuid → Nuid
init_seq_and_inc d nuid = record nuid { seq = d.seq; inc = d.inc }

-- The loop of `fillSeq` with `k` places left.
unfoldable pub fill_from : ℕ → ℕ → Bytes → Bytes
fill_from zero n buf = buf
fill_from (suc k) n buf = fill_from k (n / 36) (overwrite buf (pre_len + k) (digit (n % 36) ∷ []))

-- `fillSeq`
unfoldable pub fill_seq : Nuid → Nuid
fill_seq nuid = record nuid { buf = fill_from seq_len nuid.seq nuid.buf }

-- `init`, and `reset`
unfoldable pub init : Draw → Nuid → Nuid
unfolding set_pre init_seq_and_inc fill_seq
init d nuid = fill_seq (init_seq_and_inc d (set_pre d (record nuid { inited = true })))

-- `next`, with the draw that a first call takes and the one that a full sequence takes
unfoldable pub next : Draw → Draw → Nuid → Bytes × Nuid
unfolding set_pre init_seq_and_inc fill_seq init
next first renewed nuid =
    let a = if nuid.inited then nuid else init first nuid in
    let b = record a { seq = a.seq + a.inc } in
    let c = if ltb max_seq b.seq then init_seq_and_inc renewed (set_pre renewed b) else b in
    let d = fill_seq c in (d.buf, d)
