-- ===== src/Nuid/Ids.antt =====
-- The ids that `next` gives.
use nats_deno.Base.{
  ℕ, zero, suc, ◌+◌, ◌-◌, ◌*◌, ◌≤◌, ◌<◌, ◌≡◌, ◌≢◌, refl, sym, ap, ◌∙◌, inl, inr, true, ◌++◌, Bytes,
  length, take, ltb, if◌then◌else◌, arith, Bool-cases,
}
use nats_deno.Nuid.{Draw, Nuid, max_seq, set_pre, init_seq_and_inc, fill_seq, init, next}
use nats_deno.Nuid.Laws.{
  IsValid, IsReady, IsDigits, places, places-injective, append-injective, set_pre-IsReady,
  fill_seq_lem,
}

init-IsReady : (d : Draw) (nuid : Nuid) → length d.cbuf ≡ 12 → IsValid nuid → IsReady (init d nuid)
unfolding init init_seq_and_inc
init-IsReady d nuid c (l, _) =
    let a = record nuid { inited = true } in
    let b = init_seq_and_inc d (set_pre d a) in (fill_seq_lem b (set_pre-IsReady d a c l refl)).1

-- `next` on a state that is set up.
abbrev advance : Draw → Nuid → Bytes × Nuid
advance renewed a =
    let b = record a { seq = a.seq + a.inc } in
    let c = if ltb max_seq b.seq then init_seq_and_inc renewed (set_pre renewed b) else b in
    let d = fill_seq c in (d.buf, d)

advance_lem :
    (renewed : Draw) (a : Nuid)
    → length renewed.cbuf ≡ 12
    → IsReady a
    → IsReady (advance renewed a).1
      × ((advance renewed a).0 ≡ (advance renewed a).1.buf)
      × IsDigits (advance renewed a).0
unfolding init_seq_and_inc
advance_lem renewed a c r =
    let b = record a { seq = a.seq + a.inc } in
    let (l, i, d) = r in
    let set = set_pre-IsReady renewed b c l i in
    ground
      (arith, fill_seq_lem b r, fill_seq_lem (init_seq_and_inc renewed (set_pre renewed b)) set)

-- With draws of twelve bytes and a buffer of 22, every id has 22 characters, all of them digits in
-- base 36, also the first one and the one behind a full sequence, where the prefix is new; the
-- state stays well formed.
pub next_lem :
    (first renewed : Draw) (nuid : Nuid)
    → length first.cbuf ≡ 12
    → length renewed.cbuf ≡ 12
    → IsValid nuid
    → IsReady (next first renewed nuid).1
      × (length (next first renewed nuid).0 ≡ 22)
      × IsDigits (next first renewed nuid).0
unfolding next
next_lem first renewed nuid f c v = elim (Bool-cases nuid.inited) [
  | inl ready ↦ ground (arith, advance_lem renewed nuid c)
  | inr fresh ↦
      ground (arith, advance_lem renewed (init first nuid) c (init-IsReady first nuid f v))
]

-- The ids behind one another, as long as none is drawn anew.
unfoldable pub after : Draw → ℕ → Nuid → Bytes × Nuid
after d zero nuid = next d d nuid
after d (suc k) nuid = after d k (next d d nuid).1

next-in :
    (d : Draw) (nuid : Nuid)
    → IsReady nuid
    → nuid.seq + nuid.inc ≤ max_seq
    → ((next d d nuid).0 ≡ take 12 nuid.buf ++ places 10 (nuid.seq + nuid.inc))
      × ((next d d nuid).1.seq ≡ nuid.seq + nuid.inc)
      × ((next d d nuid).1.inc ≡ nuid.inc)
      × IsReady (next d d nuid).1
      × (take 12 (next d d nuid).1.buf ≡ take 12 nuid.buf)
unfolding next fill_seq
next-in d nuid r h = ground (arith, fill_seq_lem (record nuid { seq = nuid.seq + nuid.inc }) r)

after_lem :
    (d : Draw) (k : ℕ) (nuid : Nuid)
    → IsReady nuid
    → nuid.seq + suc k * nuid.inc ≤ max_seq
    → (after d k nuid).0 ≡ take 12 nuid.buf ++ places 10 (nuid.seq + suc k * nuid.inc)
unfolding after
after_lem d zero nuid r h =
    let e : nuid.seq + 1 * nuid.inc ≡ nuid.seq + nuid.inc = omega arith in
    (next-in d nuid r (omega (arith, h))).0 ∙ ap (λ n. take 12 nuid.buf ++ places 10 n) (sym e)
after_lem d (suc k) nuid r h =
    let (_, s, i, ready, front) = next-in d nuid r (omega (arith, h)) in
    let e : (next d d nuid).1.seq + suc k * (next d d nuid).1.inc
        ≡ nuid.seq + suc (suc k) * nuid.inc =
      rw (s, i) (omega arith) in
    after_lem d k (next d d nuid).1 ready (omega (arith, e, h)) ∙ rw (front, e) refl

split : (j m inc : ℕ) → suc (j + m) * inc ≡ suc j * inc + m * inc
split j m inc = omega arith

positive : (m inc : ℕ) → 0 < m → 0 < inc → 0 < m * inc
positive zero inc h i = absurd (omega arith)
positive (suc m) inc h i = omega (arith, i)

-- On a state that is set up, with an increment that is not 0, no id is given twice until the
-- sequence is full: the ids at two different places behind one another differ.
pub after-distinct :
    (d : Draw) (j k : ℕ) (nuid : Nuid)
    → IsReady nuid
    → 0 < nuid.inc
    → j < k
    → nuid.seq + suc k * nuid.inc ≤ max_seq
    → (after d j nuid).0 ≢ (after d k nuid).0
after-distinct d j k nuid r i h room same =
    let inc = nuid.inc in
    let there : j + (k - j) ≡ k = omega (arith, h) in
    let gap : suc k * inc ≡ suc j * inc + (k - j) * inc = rw there at (split j (k - j) inc) in
    let some_gap : 0 < (k - j) * inc = positive (k - j) inc (omega arith) i in
    let low : 0 < suc j * inc = positive (suc j) inc (omega arith) i in
    let (_, tails) =
      append-injective (take 12 nuid.buf) (take 12 nuid.buf) (places 10 (nuid.seq + suc j * inc))
        (places 10 (nuid.seq + suc k * inc)) refl
        (sym (after_lem d j nuid r (omega (arith, gap, room)))
          ∙ same
          ∙ after_lem d k nuid r room) in
    let equal =
      places-injective 10 (nuid.seq + suc j * inc) (nuid.seq + suc k * inc) (omega (arith, gap))
        (omega (arith, gap, room, low)) tails in
    omega (arith, equal, gap, some_gap)
