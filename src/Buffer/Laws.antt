-- ===== src/Buffer/Laws.antt =====
-- A `DenoBuffer` is a queue of bytes: its contents are the bytes from the offset to the length.
use nats_deno.Base.{
  ℕ, zero, suc, ◌+◌, ◌-◌, ◌*◌, ◌≤◌, ◌<◌, ◌≡◌, ◌≢◌, refl, sym, ap, ◌∙◌, inl, inr, Option, none, some,
  [], ◌∷◌, ◌++◌, Bytes, length, min, take, drop, leb, ◌==◌, if◌then◌else◌, arith, length-take,
  Bool-cases, ◌&&◌, not,
}
use nats_deno.Base.Slices.{slice, take-of_le, length-slice, drop-of_le, drop-slice, take-slice}
use nats_deno.Buffer.{
  DenoBuffer, overwrite, copy, capacity, unread, reslice, reset, bytes, truncate, read, zeros,
  grow_store, grow_by, write, grow,
}

pub record IsValid (max_size : ℕ) (b : DenoBuffer) : Type 0 where
  pub read_part : b.off ≤ b.len
  pub within : b.len ≤ length b.store
  pub bounded : length b.store ≤ max_size

pub length-overwrite : (s : Bytes) (o : ℕ) (src : Bytes) → length (overwrite s o src) ≡ length s
unfolding overwrite
length-overwrite [] o src = refl
length-overwrite (x ∷ s) zero [] = refl
length-overwrite (x ∷ s) zero (b ∷ src) = ap suc (length-overwrite s zero src)
length-overwrite (x ∷ s) (suc o) src = ap suc (length-overwrite s o src)

-- What was written, behind what stood in front of it.
pub slice-overwrite :
    (s : Bytes) (from o to : ℕ) (src : Bytes)
    → from ≤ o
    → to ≡ o + length src
    → to ≤ length s
    → slice (overwrite s o src) from to ≡ slice s from o ++ src
unfolding overwrite
slice-overwrite s zero zero zero [] h e k = refl
slice-overwrite s zero zero zero (b ∷ src) h e k = absurd (omega arith)
slice-overwrite s (suc from) zero zero src h e k = elim h [ ]
slice-overwrite s from (suc o) zero src h e k = absurd (omega arith)
slice-overwrite [] from o (suc to) src h e k = elim k [ ]
slice-overwrite (x ∷ s) zero zero (suc to) [] h e k = absurd (omega arith)
slice-overwrite (x ∷ s) zero zero (suc to) (b ∷ src) h e k =
    ap (◌∷◌ b) (slice-overwrite s zero zero to src h (omega arith) (omega arith))
slice-overwrite (x ∷ s) (suc from) zero (suc to) src h e k = elim h [ ]
slice-overwrite (x ∷ s) zero (suc o) (suc to) src h e k =
    ap (◌∷◌ x) (slice-overwrite s zero o to src (omega arith) (omega arith) (omega arith))
slice-overwrite (x ∷ s) (suc from) (suc o) (suc to) src h e k =
    slice-overwrite s from o to src (omega arith) (omega arith) (omega arith)

copy_all :
    (s : Bytes) (room : ℕ) (src : Bytes) (o : ℕ)
    → length src ≤ room - o
    → copy s room src o ≡ (overwrite s o src, length src)
unfolding copy
copy_all s room src o h = ground arith

pub length-zeros : (n : ℕ) → length (zeros n) ≡ n
length-zeros zero = refl
length-zeros (suc n) = ap suc (length-zeros n)

length-bytes : {max_size : ℕ} (b : DenoBuffer) → IsValid max_size b → length (bytes b) ≡ unread b
unfolding bytes
length-bytes b v = omega (arith, length-slice b.store b.off b.len)

module _ (max_size : ℕ) where
  -- Room for `n` bytes behind the contents `old`, which start at the offset.
  record HasRoom (n : ℕ) (old : Bytes) (c : DenoBuffer) (at : ℕ) : Type 0 where
    room : c.len ≡ at + n
    behind : c.off ≤ at
    within : c.len ≤ length c.store
    bounded : length c.store ≤ max_size
    kept : slice c.store c.off at ≡ old

  abbrev Grows : ℕ → Bytes → Option (DenoBuffer × ℕ) → Type 0
  Grows n old none = Unit
  Grows n old (some (c, at)) = HasRoom n old c at

  moved-HasRoom :
      (s old : Bytes) (room n m to : ℕ)
      → m ≡ length old
      → to ≡ m + n
      → m ≤ room
      → to ≤ length s
      → length s ≤ max_size
      → HasRoom n old (record { store = (copy s room old 0).0; len = to; off = 0 }) m
  moved-HasRoom s old room n m to e f h k l = rw (copy_all s room old 0 (omega arith)) (record {
    room = f;
    behind = omega arith;
    within = rw length-overwrite k;
    bounded = rw length-overwrite l;
    kept = slice-overwrite s 0 0 m old (omega arith) (omega arith) (omega arith);
  })

  grow_store-Grows :
      (n : ℕ) (b : DenoBuffer)
      → IsValid max_size b
      → Grows n (bytes b) (grow_store max_size n (unread b) b)
  unfolding grow_store
  grow_store-Grows n b v =
      let rest = slice b.store b.off b.len in
      let to = min (unread b + n) max_size in
      let size = min (2 * capacity b + n) max_size in
      unfold bytes in
      ground (
        arith,
        length-slice b.store b.off b.len,
        length-zeros size,
        moved-HasRoom b.store rest b.len n (unread b) to,
        moved-HasRoom (zeros size) rest size n (unread b) to,
      )

  -- `_grow` behind its reset.
  grow_from-Grows :
      (n : ℕ) (c : DenoBuffer)
      → IsValid max_size c
      → Grows n (bytes c) (
          if leb n (capacity c - c.len)
          then some (record c { len = c.len + n }, c.len)
          else grow_store max_size n (unread c) c)
  grow_from-Grows n c v = elim (Bool-cases (leb n (capacity c - c.len))) [
    | inl fits ↦ rw fits (record {
      room = refl;
      behind = v.read_part;
      within = ground arith;
      bounded = v.bounded;
      kept = unfold bytes in refl;
    })
    | inr full ↦ rw full (grow_store-Grows n c v)
  ]

  bytes-reset : (b : DenoBuffer) → IsValid max_size b → unread b ≡ 0 → bytes b ≡ bytes (reset b)
  unfolding bytes
  bytes-reset b v e =
      drop-of_le b.off (take b.len b.store) (omega (arith, length-take b.len b.store))

  grow_by-Grows :
      (n : ℕ) (b : DenoBuffer) → IsValid max_size b → Grows n (bytes b) (grow_by max_size n b)
  unfolding grow_by
  grow_by-Grows n b v = elim (Bool-cases (unread b == 0 && not (b.off == 0))) [
    | inl spent ↦
        let e : unread b ≡ 0 = ground arith in
        rw (bytes-reset b v e, spent, e)
          (grow_from-Grows n (reset b)
            (record { read_part = omega arith; within = omega arith; bounded = v.bounded }))
    | inr other ↦ rw other (grow_from-Grows n b v)
  ]

  abbrev Writes : Bytes → DenoBuffer → Option (DenoBuffer × ℕ) → Type 0
  Writes p b none = Unit
  Writes p b (some (c, n)) = IsValid max_size c × (bytes c ≡ bytes b ++ p) × (n ≡ length p)

  room-Writes :
      (p : Bytes) (b c : DenoBuffer) (at : ℕ)
      → HasRoom (length p) (bytes b) c at
      → Writes p b
          (some (record c { store = (copy c.store c.len p at).0 }, (copy c.store c.len p at).1))
  unfolding bytes
  room-Writes p b c at r = rw (copy_all c.store c.len p at (omega arith)) (
    record {
      read_part = omega arith;
      within = rw length-overwrite r.within;
      bounded = rw length-overwrite r.bounded;
    },
    slice-overwrite c.store c.off at c.len p r.behind r.room r.within ∙ rw r.kept,
    refl,
  )

module _ (max_size : ℕ) (b : DenoBuffer) (v : IsValid max_size b) where
  write-Writes : (p : Bytes) → Writes max_size p b (write max_size p b)
  unfolding write
  write-Writes p = go (grow_by max_size (length p) b) (grow_by-Grows max_size (length p) b v)
    where
      go :
          (r : Option (DenoBuffer × ℕ))
          → Grows max_size (length p) (bytes b) r
          → Writes max_size p b (elim r [
            | none ↦ none
            | some (c, m) ↦
                some (record c { store = (copy c.store c.len p m).0 }, (copy c.store c.len p m).1)
          ])
      go none h = tt
      go (some (c, at)) h = room-Writes max_size p b c at h

  grow_by-ne-none : (n : ℕ) → capacity b + n ≤ max_size → grow_by max_size n b ≢ none
  unfolding grow_by grow_store
  grow_by-ne-none n h = ground arith

  write-ne-none : (p : Bytes) → capacity b + length p ≤ max_size → write max_size p b ≢ none
  unfolding write
  write-ne-none p h = ground (arith, grow_by-ne-none (length p) h)

  -- `write` throws only if the buffer would have to grow beyond the maximum size. If it does not
  -- throw, it returns the number of bytes of `p`, the buffer is valid, and its contents are the old
  -- ones with `p` behind them.
  pub write_lem :
      (p : Bytes)
      → (write max_size p b ≡ none → max_size < capacity b + length p)
        × ((c : DenoBuffer) (n : ℕ)
            → write max_size p b ≡ some (c, n)
            → IsValid max_size c × (bytes c ≡ bytes b ++ p) × (n ≡ length p))
  write_lem p = ((λ e. ground (arith, write-ne-none p)), (λ c n e. rw e at (write-Writes p)))

  -- `read` into an array of `n` bytes takes the first `n` bytes of the contents, or all if there are
  -- fewer, and leaves the others; from an empty buffer it returns null, unless `n` is 0.
  pub read_lem :
      (n : ℕ)
      → IsValid max_size (read n b).1
        × (bytes (read n b).1 ≡ drop n (bytes b))
        × ((read n b).0
            ≡ (if (unread b == 0) && not (n == 0) then none else some (take n (bytes b))))
  unfolding read bytes
  read_lem n = elim (Bool-cases (leb b.len b.off)) [
    | inl spent ↦ ground (
      arith,
      drop-of_le b.off (take b.len b.store),
      length-take b.len b.store,
      drop-of_le {A = ℕ} n [],
      take-of_le {A = ℕ} n [],
    )
    | inr more ↦
        let rest = slice b.store b.off b.len in
        ground (
          arith,
          length-slice b.store b.off b.len,
          drop-slice b.store n b.off b.len,
          drop-slice b.store (length rest) b.off b.len,
          take-of_le n rest,
          drop-of_le n rest,
          drop-of_le (length rest) rest,
          length-take n rest,
        )
  ]

  -- `truncate` keeps the first `n` bytes of the contents, and throws if there are fewer.
  pub truncate_lem :
      (n : ℕ)
      → ((n ≤ unread b)
          → (c : DenoBuffer) × (truncate n b ≡ some c)
            × IsValid max_size c
            × (bytes c ≡ take n (bytes b)))
        × (unread b < n → truncate n b ≡ none)
  unfolding truncate bytes
  truncate_lem n = elim (Bool-cases (n == 0)) [
    | inl none_left ↦ (
      (λ h. (
        reset b,
        rw none_left,
        record { read_part = omega arith; within = omega arith; bounded = v.bounded },
        ground arith,
      )),
      λ h. absurd (ground arith),
    )
    | inr pos ↦ (
      (λ h. (
        record b { len = b.off + n },
        ground arith,
        record { read_part = omega arith; within = omega arith; bounded = v.bounded },
        sym (take-slice b.store n b.off b.len (omega arith)),
      )),
      λ h. ground arith,
    )
  ]

  -- `grow` changes no contents, and makes room for `n` bytes more.
  pub grow_lem :
      (n : ℕ) (c : DenoBuffer)
      → grow max_size n b ≡ some c
      → IsValid max_size c × (bytes c ≡ bytes b) × (c.len + n ≤ capacity c)
  unfolding grow
  grow_lem n c e = go (grow_by max_size n b) (grow_by-Grows max_size n b v) e
    where
      go :
          (r : Option (DenoBuffer × ℕ))
          → Grows max_size n (bytes b) r
          → elim r [ none ↦ none | some (d, m) ↦ reslice m d ] ≡ some c
          → IsValid max_size c × (bytes c ≡ bytes b) × (c.len + n ≤ capacity c)
      go none h k = absurd (cc)
      go (some (d, m)) h k =
          let same : record d { len = m } ≡ c = ground arith in
          rw (← same) (
            record { read_part = h.behind; within = omega arith; bounded = h.bounded },
            unfold bytes in h.kept,
            omega arith,
          )
