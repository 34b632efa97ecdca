-- ===== src/Headers/Written.antt =====
-- The lines of a text of headers, and the headers that may be written.
use mathlib.Core.List.{append-nil, append_assoc}
use nats_deno.Base.{
  ℕ, ◌+◌, ◌-◌, ◌≤◌, ◌≡◌, ◌≢◌, refl, sym, ap, ◌∙◌, inl, inr, Bool, false, not, ◌&&◌, ◌||◌, some,
  List, [], ◌∷◌, ◌++◌, Bytes, codes, bytes_eq, leb, ◌==◌, if◌then◌else◌, arith, Option-cases,
}
use nats_deno.Headers.{Entries, canonical_key, canonical_from, has_break, trim_start, trim_end}
use nats_deno.Headers.Lines.{break, value_lines, entry_lines, split_from, split_colon}

abbrev pub IsTrimmed : Bytes → Type 0
IsTrimmed v = (trim_start v ≡ v) × (trim_end v ≡ v)

-- Lines, each behind an end of line.
abbrev pub line_text : List Bytes → Bytes
line_text [] = []
line_text (l ∷ ls) = break ++ (l ++ line_text ls)

abbrev pub NoBreaks : List Bytes → Type 0
NoBreaks [] = Unit
NoBreaks (l ∷ ls) = (has_break l ≡ false) × NoBreaks ls

split_from-line :
    (l rest : Bytes)
    → has_break l ≡ false
    → split_from false (l ++ (break ++ rest))
      ≡ (l, (split_from false rest).0 ∷ (split_from false rest).1)
unfolding split_from has_break
split_from-line [] rest h = refl
split_from-line (c ∷ l) rest h = ground (arith, split_from-line l rest)

split_from-last : (l : Bytes) → has_break l ≡ false → split_from false l ≡ (l, [])
unfolding split_from has_break
split_from-last [] h = refl
split_from-last (c ∷ l) h = ground (arith, split_from-last l)

pub split_from-lines :
    (l : Bytes) (ls : List Bytes)
    → has_break l ≡ false
    → NoBreaks ls
    → split_from false (l ++ line_text ls) ≡ (l, ls)
split_from-lines l [] h hs = rw (append-nil l) (split_from-last l h)
split_from-lines l (m ∷ ls) h (k, hs) =
    split_from-line l (m ++ line_text ls) h
    ∙ ap (λ (p : Bytes × List Bytes). (l, p.0 ∷ p.1)) (split_from-lines m ls k hs)

pub line_text-append : (ls ms : List Bytes) → line_text (ls ++ ms) ≡ line_text ls ++ line_text ms
line_text-append [] ms = refl
line_text-append (l ∷ ls) ms =
    ap (λ t. break ++ (l ++ t)) (line_text-append ls ms)
    ∙ ap (λ t. break ++ t) (sym (append_assoc l (line_text ls) (line_text ms)))

abbrev pub line : Bytes → Bytes → Bytes
line k v = k ++ (codes ": " ++ v)

abbrev pub lines_of : Bytes → List Bytes → List Bytes
lines_of k [] = []
lines_of k (v ∷ vs) = line k v ∷ lines_of k vs

abbrev pub all_lines : Entries → List Bytes
all_lines [] = []
all_lines ((k, vs) ∷ es) = lines_of k vs ++ all_lines es

value_lines-text : (k : Bytes) (vs : List Bytes) → value_lines k vs ≡ line_text (lines_of k vs)
unfolding value_lines
value_lines-text k [] = refl
value_lines-text k (v ∷ vs) =
    ap (λ t. break ++ t)
      (ap (λ t. k ++ (codes ": " ++ (v ++ t))) (value_lines-text k vs)
        ∙ sym (append_assoc k (codes ": " ++ v) (line_text (lines_of k vs))))

pub entry_lines-text : (es : Entries) → entry_lines es ≡ line_text (all_lines es)
unfolding entry_lines
entry_lines-text [] = refl
entry_lines-text ((k, vs) ∷ es) =
    ap (λ t. t ++ entry_lines es) (value_lines-text k vs)
    ∙ ap (λ t. line_text (lines_of k vs) ++ t) (entry_lines-text es)
    ∙ sym (line_text-append (lines_of k vs) (all_lines es))

canonical_from-tail :
    (upper : Bool) (c : ℕ) (k r : Bytes)
    → canonical_from upper (c ∷ k) ≡ some r
    → (33 ≤ c) × (c ≢ b':') × ((next : Bool) × (t : Bytes) × (canonical_from next k ≡ some t))
unfolding canonical_from
canonical_from-tail upper c k r e =
    let d : ℕ =
      if upper && (leb b'a' c && leb c b'z')
      then c - 32
      else if not upper && (leb b'A' c && leb c b'Z')
      then c + 32
      else c in
    elim (Option-cases (canonical_from (d == b'-') k)) [
      | inl bad ↦ absurd (ground arith)
      | inr (t, good) ↦ (ground arith, ground arith, (d == b'-', t, good))
    ]

-- A valid name has no colon and no end of line in it.
pub canonical_from-plain :
    (upper : Bool) (k r : Bytes)
    → canonical_from upper k ≡ some r
    → (has_break k ≡ false) × ((rest : Bytes) → split_colon (k ++ b':' ∷ rest) ≡ some (k, rest))
unfolding has_break split_colon
canonical_from-plain upper [] r e = (refl, λ rest. refl)
canonical_from-plain upper (c ∷ k) r e =
    let (low, colon, (next, t, good)) = canonical_from-tail upper c k r e in
    let (plain, splits) = canonical_from-plain next k t good in
    (ground arith, λ rest. ground (arith, splits rest))

pub has_break-append : (l m : Bytes) → has_break (l ++ m) ≡ has_break l || has_break m
unfolding has_break
has_break-append [] m = refl
has_break-append (c ∷ l) m = ground (arith, has_break-append l m)

-- What may be written: names that are valid and all different, each with at least one value, and values
-- that are trimmed and have no end of line.
abbrev pub AreValues : List Bytes → Type 0
AreValues [] = Unit
AreValues (v ∷ vs) = (has_break v ≡ false) × IsTrimmed v × AreValues vs

abbrev pub NotIn : Bytes → Entries → Type 0
NotIn k [] = Unit
NotIn k ((j, vs) ∷ es) = (bytes_eq j k ≡ false) × NotIn k es

abbrev pub AreEntries : Entries → Type 0
AreEntries [] = Unit
AreEntries ((k, vs) ∷ es) =
    ((c : Bytes) × (canonical_key k ≡ some c))
    × (vs ≢ [])
    × AreValues vs
    × NotIn k es
    × AreEntries es
