-- ===== src/Base/Slices.antt =====
-- `subarray(begin, end)` for two indices that are not negative: both are cut at the length.
use nats_deno.Base.Lists.{length, take, drop, get_elem?, take-append-drop, length-drop, length-take}
use Prim.Native.Nat.add
use native.Mathlib.Nat.{add-zero}
use Prim.Native.Nat.{ℕ, ◌+◌, zero, suc, ◌-◌, ◌≤◌, ◌<◌, min}
use mathlib.Core.Path.{◌≡◌, refl, ap}
use mathlib.Core.List.{List, [], ◌∷◌, ◌++◌}
use mathlib.Core.Option.{none, some}
use native.Mathlib.Omega.{arith}

module _ {ℓ} {A : Type ℓ} where
  abbrev pub slice : List A → ℕ → ℕ → List A
  slice xs from to = drop from (take to xs)

  pub drop-of_le : (n : ℕ) (xs : List A) → length xs ≤ n → drop n xs ≡ []
  drop-of_le zero [] h = refl
  drop-of_le zero (x ∷ xs) h = absurd (omega arith)
  drop-of_le (suc n) [] h = refl
  drop-of_le (suc n) (x ∷ xs) h = drop-of_le n xs (omega arith)

  pub take-of_le : (n : ℕ) (xs : List A) → length xs ≤ n → take n xs ≡ xs
  take-of_le zero [] h = refl
  take-of_le zero (x ∷ xs) h = absurd (omega arith)
  take-of_le (suc n) [] h = refl
  take-of_le (suc n) (x ∷ xs) h = ap (◌∷◌ x) (take-of_le n xs (omega arith))

  pub drop-cons :
      (i : ℕ) (xs : List A) (b : A) → get_elem? xs i ≡ some b → drop i xs ≡ b ∷ drop (suc i) xs
  drop-cons i [] b h = absurd (cc)
  drop-cons zero (x ∷ xs) b h = cc
  drop-cons (suc i) (x ∷ xs) b h = drop-cons i xs b h

  pub get_elem?-of_lt : (xs : List A) (i : ℕ) → i < length xs → (b : A) × (get_elem? xs i ≡ some b)
  get_elem?-of_lt [] i h = elim h [ ]
  get_elem?-of_lt (x ∷ xs) zero h = (x, refl)
  get_elem?-of_lt (x ∷ xs) (suc i) h = get_elem?-of_lt xs i (omega arith)

  -- The slice grows by the byte behind it.
  pub slice-suc :
      (xs : List A) (from to : ℕ) (b : A)
      → from ≤ to
      → get_elem? xs to ≡ some b
      → slice xs from (suc to) ≡ slice xs from to ++ b ∷ []
  slice-suc [] from to b h e = absurd (cc)
  slice-suc (x ∷ xs) zero zero b h e = cc
  slice-suc (x ∷ xs) zero (suc to) b h e = ap (◌∷◌ x) (slice-suc xs zero to b (omega arith) e)
  slice-suc (x ∷ xs) (suc from) zero b h e = elim h [ ]
  slice-suc (x ∷ xs) (suc from) (suc to) b h e = slice-suc xs from to b (omega arith) e

  pub slice_self : (xs : List A) (i : ℕ) → slice xs i i ≡ []
  slice_self xs zero = refl
  slice_self [] (suc i) = refl
  slice_self (x ∷ xs) (suc i) = slice_self xs i

  pub slice-append-drop :
      (xs : List A) (from to : ℕ) → from ≤ to → slice xs from to ++ drop to xs ≡ drop from xs
  slice-append-drop xs zero to h = take-append-drop to xs
  slice-append-drop xs (suc from) zero h = elim h [ ]
  slice-append-drop [] (suc from) (suc to) h = refl
  slice-append-drop (x ∷ xs) (suc from) (suc to) h = slice-append-drop xs from to (omega arith)

  pub length-slice :
      (xs : List A) (from to : ℕ) → length (slice xs from to) ≡ min to (length xs) - from
  length-slice xs from to = omega (arith, length-drop from (take to xs), length-take to xs)

  -- Two neighbouring slices make one.
  pub slice-slice :
      (xs : List A) (from mid to : ℕ)
      → from ≤ mid
      → mid ≤ to
      → slice xs from mid ++ slice xs mid to ≡ slice xs from to
  slice-slice xs zero zero to h k = refl
  slice-slice [] zero (suc mid) zero h k = elim k [ ]
  slice-slice [] zero (suc mid) (suc to) h k = refl
  slice-slice (x ∷ xs) zero (suc mid) zero h k = elim k [ ]
  slice-slice (x ∷ xs) zero (suc mid) (suc to) h k =
      ap (◌∷◌ x) (slice-slice xs zero mid to (omega arith) (omega arith))
  slice-slice xs (suc from) zero to h k = elim h [ ]
  slice-slice xs (suc from) (suc mid) zero h k = elim k [ ]
  slice-slice [] (suc from) (suc mid) (suc to) h k = refl
  slice-slice (x ∷ xs) (suc from) (suc mid) (suc to) h k =
      slice-slice xs from mid to (omega arith) (omega arith)

  pub get_elem?-lt : (xs : List A) (i : ℕ) (b : A) → get_elem? xs i ≡ some b → i < length xs
  get_elem?-lt [] i b h = absurd (cc)
  get_elem?-lt (x ∷ xs) zero b h = omega arith
  get_elem?-lt (x ∷ xs) (suc i) b h = omega (arith, get_elem?-lt xs i b h)

  pub take-length-append : (xs ys : List A) → take (length xs) (xs ++ ys) ≡ xs
  take-length-append [] ys = refl
  take-length-append (x ∷ xs) ys = ap (◌∷◌ x) (take-length-append xs ys)

  pub drop-length-append : (xs ys : List A) → drop (length xs) (xs ++ ys) ≡ ys
  drop-length-append [] ys = refl
  drop-length-append (x ∷ xs) ys = drop-length-append xs ys

  pub get_elem?-eq-none : (xs : List A) (i : ℕ) → get_elem? xs i ≡ none → length xs ≤ i
  get_elem?-eq-none [] i h = omega arith
  get_elem?-eq-none (x ∷ xs) zero h = absurd (cc)
  get_elem?-eq-none (x ∷ xs) (suc i) h = omega (arith, get_elem?-eq-none xs i h)

  pub drop-slice :
      (xs : List A) (k from to : ℕ) → drop k (slice xs from to) ≡ slice xs (from + k) to
  drop-slice xs zero from to = rw add-zero
  drop-slice xs (suc k) zero to = rw add.zero
  drop-slice [] (suc k) (suc from) zero = rw add.suc
  drop-slice [] (suc k) (suc from) (suc to) = rw add.suc
  drop-slice (x ∷ xs) (suc k) (suc from) zero = rw add.suc
  drop-slice (x ∷ xs) (suc k) (suc from) (suc to) = rw add.suc (drop-slice xs (suc k) from to)

  pub take-slice :
      (xs : List A) (n from to : ℕ)
      → from + n ≤ to
      → take n (slice xs from to) ≡ slice xs from (from + n)
  take-slice xs zero from to h = rw (add-zero, slice_self xs from)
  take-slice [] (suc n) zero zero h = absurd (omega arith)
  take-slice [] (suc n) zero (suc to) h = rw add.zero
  take-slice xs (suc n) (suc from) zero h = absurd (omega arith)
  take-slice [] (suc n) (suc from) (suc to) h = rw add.suc
  take-slice (x ∷ xs) (suc n) (suc from) (suc to) h =
      rw add.suc (take-slice xs (suc n) from to (omega arith))
  take-slice (x ∷ xs) (suc n) zero zero h = absurd (omega arith)
  take-slice (x ∷ xs) (suc n) zero (suc to) h =
      rw add.zero (ap (◌∷◌ x) (rw (add.zero) at (take-slice xs n zero to (omega arith))))
