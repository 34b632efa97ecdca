-- ===== src/Nuid/Laws.antt =====
-- What an id is made of, and that ids differ.
use mathlib.Core.List.{append-nil, append_assoc}
use nats_deno.Base.{
  ℕ, zero, suc, ◌+◌, ◌/◌, ◌%◌, ◌≤◌, ◌<◌, ◌≡◌, refl, sym, ap, ◌∙◌, inl, inr, Bool, true, some, [],
  ◌∷◌, ◌++◌, Bytes, length, take, drop, get_elem?, ltb, arith, Option-cases, ◌&&◌, ◌^◌,
  length-append, length-take, length-drop, take-append-drop,
}
use nats_deno.Base.Slices.{take-length-append, drop-of_le, get_elem?-eq-none}
use nats_deno.Buffer.{overwrite}
use nats_deno.Buffer.Laws.{length-overwrite}
use nats_deno.Nuid.{digits, digit, Draw, Nuid, set_pre_from, set_pre, fill_from, fill_seq}

take-overwrite : (j i : ℕ) (buf src : Bytes) → j ≤ i → take j (overwrite buf i src) ≡ take j buf
unfolding overwrite
take-overwrite zero i buf src h = refl
take-overwrite (suc j) zero buf src h = absurd (omega arith)
take-overwrite (suc j) (suc i) [] src h = refl
take-overwrite (suc j) (suc i) (x ∷ buf) src h =
    ap (◌∷◌ x) (take-overwrite j i buf src (omega arith))

overwrite-nil : (buf : Bytes) (i : ℕ) → overwrite buf i [] ≡ buf
unfolding overwrite
overwrite-nil [] i = refl
overwrite-nil (x ∷ buf) zero = refl
overwrite-nil (x ∷ buf) (suc i) = ap (◌∷◌ x) (overwrite-nil buf i)

drop-overwrite : (buf : Bytes) (i j b : ℕ) → i < j → drop j (overwrite buf i (b ∷ [])) ≡ drop j buf
unfolding overwrite
drop-overwrite [] i j b h = refl
drop-overwrite (x ∷ buf) zero zero b h = absurd (omega arith)
drop-overwrite (x ∷ buf) zero (suc j) b h = ap (drop j) (overwrite-nil buf zero)
drop-overwrite (x ∷ buf) (suc i) zero b h = absurd (omega arith)
drop-overwrite (x ∷ buf) (suc i) (suc j) b h = drop-overwrite buf i j b (omega arith)

drop_at-overwrite :
    (buf : Bytes) (i b : ℕ)
    → i < length buf
    → drop i (overwrite buf i (b ∷ [])) ≡ b ∷ drop (suc i) buf
unfolding overwrite
drop_at-overwrite [] i b h = absurd (omega arith)
drop_at-overwrite (x ∷ buf) zero b h = ap (◌∷◌ b) (overwrite-nil buf zero)
drop_at-overwrite (x ∷ buf) (suc i) b h = drop_at-overwrite buf i b (omega arith)

take_past-overwrite :
    (buf : Bytes) (i b : ℕ)
    → i < length buf
    → take (suc i) (overwrite buf i (b ∷ [])) ≡ take i buf ++ b ∷ []
unfolding overwrite
take_past-overwrite [] i b h = absurd (omega arith)
take_past-overwrite (x ∷ buf) zero b h = refl
take_past-overwrite (x ∷ buf) (suc i) b h = ap (◌∷◌ x) (take_past-overwrite buf i b (omega arith))

-- The last `k` digits of a number in base 36.
abbrev pub places : ℕ → ℕ → Bytes
places zero n = []
places (suc k) n = places k (n / 36) ++ digit (n % 36) ∷ []

fill_from_lem :
    (k n : ℕ) (buf : Bytes)
    → 12 + k ≤ length buf
    → fill_from k n buf ≡ take 12 buf ++ (places k n ++ drop (12 + k) buf)
unfolding fill_from
fill_from_lem zero n buf h = sym (take-append-drop 12 buf)
fill_from_lem (suc k) n buf h =
    let d = digit (n % 36) in
    let out = overwrite buf (12 + k) (d ∷ []) in
    let step =
      fill_from_lem k (n / 36) out (omega (arith, length-overwrite buf (12 + k) (d ∷ []))) in
    let next_place : suc (12 + k) ≡ 12 + suc k = omega arith in
    step
    ∙ rw
        (
          take-overwrite 12 (12 + k) buf (d ∷ []) (omega arith),
          drop_at-overwrite buf (12 + k) d (omega arith),
          append_assoc (places k (n / 36)) (d ∷ []) (drop (12 + suc k) buf),
          next_place,
        )
        refl

pub length-places : (k n : ℕ) → length (places k n) ≡ k
length-places zero n = refl
length-places (suc k) n =
    omega (arith, length-append (places k (n / 36)) (digit (n % 36) ∷ []), length-places k (n / 36))

-- The digits are all different, as their codes rise.
abbrev rises : ℕ → Bytes → Bool
rises lo [] = true
rises lo (x ∷ xs) = ltb lo x && rises x xs

rises-above : (lo a i : ℕ) (xs : Bytes) → rises lo xs ≡ true → get_elem? xs i ≡ some a → lo < a
rises-above lo a i [] r e = absurd (cc)
rises-above lo a zero (x ∷ xs) r e = ground arith
rises-above lo a (suc i) (x ∷ xs) r e = ground (arith, rises-above x a i xs)

rises-injective :
    (lo a i j : ℕ) (xs : Bytes)
    → rises lo xs ≡ true
    → get_elem? xs i ≡ some a
    → get_elem? xs j ≡ some a
    → i ≡ j
rises-injective lo a i j [] r e f = absurd (cc)
rises-injective lo a zero zero (x ∷ xs) r e f = refl
rises-injective lo a zero (suc j) (x ∷ xs) r e f = ground (arith, rises-above x a j xs)
rises-injective lo a (suc i) zero (x ∷ xs) r e f = ground (arith, rises-above x a i xs)
rises-injective lo a (suc i) (suc j) (x ∷ xs) r e f = ground (arith, rises-injective x a i j xs)

get_elem?-digit : (d : ℕ) → d < 36 → get_elem? digits d ≡ some (digit d)
unfolding digit
get_elem?-digit d h = elim (Option-cases (get_elem? digits d)) [
  | inl absent ↦ absurd (omega (arith, get_elem?-eq-none digits d absent))
  | inr (c, there) ↦ rw there refl
]

digit-injective : (d e : ℕ) → d < 36 → e < 36 → digit d ≡ digit e → d ≡ e
digit-injective d e h k same =
    rises-injective 0 (digit e) d e digits refl (get_elem?-digit d h ∙ ap some same)
      (get_elem?-digit e k)

pub append-injective :
    (xs ys zs ws : Bytes) → length xs ≡ length ys → xs ++ zs ≡ ys ++ ws → (xs ≡ ys) × (zs ≡ ws)
append-injective [] [] zs ws l e = (refl, e)
append-injective [] (y ∷ ys) zs ws l e = absurd (omega arith)
append-injective (x ∷ xs) [] zs ws l e = absurd (omega arith)
append-injective (x ∷ xs) (y ∷ ys) zs ws l e = ground (arith, append-injective xs ys zs ws)

-- Numbers less than 36 ^ k apart have different last `k` digits.
pub places-injective : (k n m : ℕ) → n ≤ m → m < n + 36 ^ k → places k n ≡ places k m → n ≡ m
places-injective zero n m h l e = omega arith
places-injective (suc k) n m h l e =
    let (front, last) =
      append-injective (places k (n / 36)) (places k (m / 36)) (digit (n % 36) ∷ [])
        (digit (m % 36) ∷ []) (length-places k (n / 36) ∙ sym (length-places k (m / 36))) e in
    let same : n % 36 ≡ m % 36 =
      digit-injective (n % 36) (m % 36) (omega arith) (omega arith) (ground arith) in
    let rest = places-injective k (n / 36) (m / 36) (omega arith) (omega arith) front in omega arith

abbrev pre_digits : Bytes → Bytes
pre_digits [] = []
pre_digits (c ∷ cbuf) = digit (c % 36) ∷ pre_digits cbuf

length-pre_digits : (cbuf : Bytes) → length (pre_digits cbuf) ≡ length cbuf
length-pre_digits [] = refl
length-pre_digits (c ∷ cbuf) = ap suc (length-pre_digits cbuf)

set_pre_from_lem :
    (i : ℕ) (cbuf buf : Bytes)
    → i + length cbuf ≤ length buf
    → set_pre_from i cbuf buf ≡ take i buf ++ (pre_digits cbuf ++ drop (i + length cbuf) buf)
unfolding set_pre_from
set_pre_from_lem i [] buf h = let e : i + 0 ≡ i = omega arith in rw e (sym (take-append-drop i buf))
set_pre_from_lem i (c ∷ cbuf) buf h =
    let d = digit (c % 36) in
    let out = overwrite buf i (d ∷ []) in
    let step = set_pre_from_lem (suc i) cbuf out (omega (arith, length-overwrite buf i (d ∷ []))) in
    let e : suc i + length cbuf ≡ i + suc (length cbuf) = omega arith in
    step
    ∙ rw
        (
          drop-overwrite buf i (suc i + length cbuf) d (omega arith),
          take_past-overwrite buf i d (omega arith),
          append_assoc (take i buf) (d ∷ []) (pre_digits cbuf ++ drop (suc i + length cbuf) buf),
          e,
        )
        refl

-- Every byte is one of the 36 digits.
abbrev pub IsDigits : Bytes → Type 0
IsDigits [] = Unit
IsDigits (b ∷ bs) = ((d : ℕ) × (d < 36) × (b ≡ digit d)) × IsDigits bs

append-IsDigits : (xs ys : Bytes) → IsDigits xs → IsDigits ys → IsDigits (xs ++ ys)
append-IsDigits [] ys h k = k
append-IsDigits (x ∷ xs) ys (h, t) k = (h, append-IsDigits xs ys t k)

pre_digits-IsDigits : (cbuf : Bytes) → IsDigits (pre_digits cbuf)
pre_digits-IsDigits [] = tt
pre_digits-IsDigits (c ∷ cbuf) = ((c % 36, omega arith, refl), pre_digits-IsDigits cbuf)

places-IsDigits : (k n : ℕ) → IsDigits (places k n)
places-IsDigits zero n = tt
places-IsDigits (suc k) n =
    append-IsDigits (places k (n / 36)) (digit (n % 36) ∷ []) (places-IsDigits k (n / 36))
      ((n % 36, omega arith, refl), tt)

abbrev pub IsValid : Nuid → Type 0
IsValid nuid = (length nuid.buf ≡ 22) × (nuid.inited ≡ true → IsDigits (take 12 nuid.buf))

abbrev pub IsReady : Nuid → Type 0
IsReady nuid = (length nuid.buf ≡ 22) × (nuid.inited ≡ true) × IsDigits (take 12 nuid.buf)

take-length-of : (n : ℕ) (xs ys : Bytes) → length xs ≡ n → take n (xs ++ ys) ≡ xs
take-length-of n xs ys e = rw (sym e) (take-length-append xs ys)

drop-all : (n : ℕ) (xs : Bytes) → length xs ≡ n → drop n xs ≡ []
drop-all n xs e = drop-of_le n xs (omega arith)

pub set_pre-IsReady :
    (d : Draw) (nuid : Nuid)
    → length d.cbuf ≡ 12
    → length nuid.buf ≡ 22
    → nuid.inited ≡ true
    → IsReady (set_pre d nuid)
unfolding set_pre
set_pre-IsReady d nuid c l r =
    let set = set_pre_from_lem 0 d.cbuf nuid.buf (omega arith) in
    let front =
      take-length-of 12 (pre_digits d.cbuf) (drop (0 + length d.cbuf) nuid.buf)
        (length-pre_digits d.cbuf ∙ c) in
    (
      omega (
        arith,
        ap length set,
        length-append (pre_digits d.cbuf) (drop (0 + length d.cbuf) nuid.buf),
        length-pre_digits d.cbuf,
        length-drop (0 + length d.cbuf) nuid.buf,
      ),
      r,
      rw (set, front) (pre_digits-IsDigits d.cbuf),
    )

-- `fillSeq` keeps the prefix and writes the number behind it.
pub fill_seq_lem :
    (nuid : Nuid)
    → IsReady nuid
    → ((fill_seq nuid).buf ≡ take 12 nuid.buf ++ places 10 nuid.seq)
      × IsReady (fill_seq nuid)
      × (take 12 (fill_seq nuid).buf ≡ take 12 nuid.buf)
      × IsDigits (fill_seq nuid).buf
unfolding fill_seq
fill_seq_lem nuid (l, r, d) =
    let e : fill_from 10 nuid.seq nuid.buf ≡ take 12 nuid.buf ++ places 10 nuid.seq =
      fill_from_lem 10 nuid.seq nuid.buf (omega arith)
      ∙ ap (λ t. take 12 nuid.buf ++ t)
          (ap (λ t. places 10 nuid.seq ++ t) (drop-all 22 nuid.buf l) ∙ append-nil _) in
    let len : length (take 12 nuid.buf) ≡ 12 = omega (arith, length-take 12 nuid.buf) in
    let front : take 12 (fill_from 10 nuid.seq nuid.buf) ≡ take 12 nuid.buf =
      ap (take 12) e ∙ take-length-of 12 (take 12 nuid.buf) (places 10 nuid.seq) len in
    (
      e,
      (
        omega (
          arith,
          ap length e,
          length-append (take 12 nuid.buf) (places 10 nuid.seq),
          len,
          length-places 10 nuid.seq,
        ),
        r,
        rw front d,
      ),
      front,
      rw e
          (append-IsDigits (take 12 nuid.buf) (places 10 nuid.seq) d (places-IsDigits 10 nuid.seq)),
    )
