-- ===== src/JetStream/Digest/Sample.antt =====
-- A text form of bytes for tests, that keeps the laws of the runtime's base64.
use Prim.Native.Nat.{compare, Ordering}
use nats_deno.Base.{
  ◌≡◌, refl, [], ◌∷◌, true, Bytes, ℕ, zero, suc, ◌+◌, some, Option, none, arith, ap, ◌∙◌,
}
use nats_deno.JetStream.Digest.{Base64, is_padded, is_std_letter, contains}

-- A text that stands for bytes: as many `A` as a byte says and a `B`, and one `=` at the end.
abbrev tally : ℕ → Bytes → Bytes
tally zero s = b'B' ∷ s
tally (suc n) s = b'A' ∷ tally n s

abbrev write : Bytes → Bytes
write [] = b'=' ∷ []
write (n ∷ b) = tally n (write b)

abbrev after_tally : ℕ → Option Bytes → Option Bytes
after_tally n none = none
after_tally n (some b) = some (n ∷ b)

abbrev read_back : ℕ → Bytes → Option Bytes
read_back n [] = some []
read_back n (c ∷ s) = elim (compare c b'A') [
  | Ordering.eq ↦ read_back (suc n) s
  | Ordering.lt ↦ some []
  | Ordering.gt ↦ after_tally n (read_back 0 s)
]

read_back-tally :
    (n k : ℕ) (s : Bytes) → read_back k (tally n s) ≡ after_tally (k + n) (read_back 0 s)
read_back-tally zero k s = ap (λ (m : ℕ). after_tally m (read_back 0 s)) (omega arith)
read_back-tally (suc n) k s =
    read_back-tally n (suc k) s ∙ ap (λ (m : ℕ). after_tally m (read_back 0 s)) (omega arith)

pub read_back-write : (b : Bytes) → read_back 0 (write b) ≡ some b
read_back-write [] = refl
read_back-write (n ∷ b) =
    read_back-tally n 0 (write b)
    ∙ ap (after_tally (0 + n)) (read_back-write b)
    ∙ ap (λ (m : ℕ). some (m ∷ b)) (omega arith)

is_padded-tally :
    (n : ℕ) (s : Bytes) → is_padded is_std_letter (tally n s) ≡ is_padded is_std_letter s
unfolding is_padded
is_padded-tally zero s = refl
is_padded-tally (suc n) s = is_padded-tally n s

pub write-text : (b : Bytes) → is_padded is_std_letter (write b) ≡ true
write-text [] = unfold is_padded in refl
write-text (n ∷ b) = is_padded-tally n (write b) ∙ write-text b

contains-tally : (n : ℕ) (s : Bytes) → contains b'=' (tally n s) ≡ contains b'=' s
unfolding contains
contains-tally zero s = refl
contains-tally (suc n) s = contains-tally n s

pub write-ends : (b : Bytes) → contains b'=' (write b) ≡ true
write-ends [] = unfold contains in refl
write-ends (n ∷ b) = contains-tally n (write b) ∙ write-ends b

abbrev pub unary : Base64
unary = record {
  btoa = write;
  atob = read_back 0;
  atob_btoa = read_back-write;
  btoa_text = write-text;
  btoa_padded = λ b _. write-ends b;
}
