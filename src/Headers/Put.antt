-- ===== src/Headers/Put.antt =====
-- What the lines of a text put into the map of headers.
use mathlib.Core.List.{append-nil, append_assoc}
use nats_deno.Base.{
  ◌≡◌, ◌≢◌, refl, sym, ap, ◌∙◌, true, false, none, some, List, [], ◌∷◌, ◌++◌, Bytes, codes,
  bytes_eq, bytes_eq_refl, bytes_eq_sound, arith,
}
use nats_deno.Headers.{
  Entries, Headers, exact, canonical_key, has_break, is_space, trim_start, trim_end, trim,
  push_value, append,
}
use nats_deno.Headers.Entries.{append-exact}
use nats_deno.Headers.Lines.{split_colon, decode_line, decode_lines}
use nats_deno.Headers.Written.{
  line, lines_of, all_lines, NoBreaks, canonical_from-plain, has_break-append, IsTrimmed, AreValues,
  NotIn, AreEntries,
}

push_value-new :
    (k v : Bytes) (es : Entries) → NotIn k es → push_value k v es ≡ es ++ (k, v ∷ []) ∷ []
unfolding push_value
push_value-new k v [] h = refl
push_value-new k v ((j, vs) ∷ es) (ne, h) = ground (arith, push_value-new k v es)

push_value-last :
    (k v : Bytes) (ws : List Bytes) (es : Entries)
    → NotIn k es
    → push_value k v (es ++ (k, ws) ∷ []) ≡ es ++ (k, ws ++ v ∷ []) ∷ []
unfolding push_value
push_value-last k v ws [] h = ground (arith, bytes_eq_refl k)
push_value-last k v ws ((j, vs) ∷ es) (ne, h) = ground (arith, push_value-last k v ws es)

line-cons :
    (k v : Bytes) (h : Headers)
    → decode_line (line k v) h
      ≡ elim (split_colon (line k v)) [ none ↦ some h | some (j, w) ↦ append j (trim w) exact h ]
unfolding decode_line
line-cons [] v h = refl
line-cons (c ∷ k) v h = refl

-- A line puts its value at its name.
decode_line-line :
    (k v c : Bytes) (h : Headers)
    → canonical_key k ≡ some c
    → has_break v ≡ false
    → IsTrimmed v
    → decode_line (line k v) h ≡ some (record h { entries = push_value k v h.entries })
unfolding canonical_key
decode_line-line k v c h e b (front, back) =
    let (_, splits) = canonical_from-plain true k c e in
    let blank : trim (b' ' ∷ v) ≡ v = unfold trim trim_start is_space in ap trim_end front ∙ back in
    let again : trim v ≡ v = unfold trim in ap trim_end front ∙ back in
    let parted = splits (b' ' ∷ v) in
    line-cons k v h ∙ rw (parted, blank) (append-exact k v h ∙ rw (e, b, again) refl)

abbrev pub with_entries : Headers → Entries → Headers
with_entries h es = record h { entries = es }

decode_lines-step :
    (l : Bytes) (ls : List Bytes) (h g : Headers)
    → decode_line l h ≡ some g
    → decode_lines (l ∷ ls) h ≡ decode_lines ls g
unfolding decode_lines
decode_lines-step l ls h g e = ground arith

more_values :
    (k c : Bytes) (vs ws : List Bytes) (pre : Entries) (more : List Bytes) (h : Headers)
    → canonical_key k ≡ some c
    → AreValues vs
    → NotIn k pre
    → decode_lines (lines_of k vs ++ more) (with_entries h (pre ++ (k, ws) ∷ []))
      ≡ decode_lines more (with_entries h (pre ++ (k, ws ++ vs) ∷ []))
more_values k c [] ws pre more h e a n =
    ap (λ us. decode_lines more (with_entries h (pre ++ (k, us) ∷ []))) (sym (append-nil ws))
more_values k c (v ∷ vs) ws pre more h e (b, t, a) n =
    let g = with_entries h (pre ++ (k, ws ++ v ∷ []) ∷ []) in
    let put =
      decode_line-line k v c (with_entries h (pre ++ (k, ws) ∷ [])) e b t
      ∙ ap (λ es. some (with_entries h es)) (push_value-last k v ws pre n) in
    decode_lines-step (line k v) (lines_of k vs ++ more) (with_entries h (pre ++ (k, ws) ∷ [])) g
      put
    ∙ more_values k c vs (ws ++ v ∷ []) pre more h e a n
    ∙ ap (λ us. decode_lines more (with_entries h (pre ++ (k, us) ∷ [])))
        (append_assoc ws (v ∷ []) vs)

one_entry :
    (k c : Bytes) (vs : List Bytes) (pre : Entries) (more : List Bytes) (h : Headers)
    → canonical_key k ≡ some c
    → vs ≢ []
    → AreValues vs
    → NotIn k pre
    → decode_lines (lines_of k vs ++ more) (with_entries h pre)
      ≡ decode_lines more (with_entries h (pre ++ (k, vs) ∷ []))
one_entry k c [] pre more h e some_value a n = absurd (some_value refl)
one_entry k c (v ∷ vs) pre more h e some_value (b, t, a) n =
    let g = with_entries h (pre ++ (k, v ∷ []) ∷ []) in
    let put =
      decode_line-line k v c (with_entries h pre) e b t
      ∙ ap (λ es. some (with_entries h es)) (push_value-new k v pre n) in
    decode_lines-step (line k v) (lines_of k vs ++ more) (with_entries h pre) g put
    ∙ more_values k c vs (v ∷ []) pre more h e a n

abbrev pub AreNew : Entries → Entries → Type 0
AreNew pre [] = Unit
AreNew pre ((k, vs) ∷ es) = NotIn k pre × AreNew pre es

NotIn-last :
    (k j : Bytes) (vs : List Bytes) (pre : Entries)
    → NotIn j pre
    → bytes_eq j k ≡ false
    → NotIn j (pre ++ (k, vs) ∷ [])
NotIn-last k j vs [] n e = (ground (arith, bytes_eq_sound k j, bytes_eq_refl k), tt)
NotIn-last k j vs ((i, ws) ∷ pre) (ne, n) e = (ne, NotIn-last k j vs pre n e)

AreNew-last :
    (k : Bytes) (vs : List Bytes) (pre es : Entries)
    → AreNew pre es
    → NotIn k es
    → AreNew (pre ++ (k, vs) ∷ []) es
AreNew-last k vs pre [] a n = tt
AreNew-last k vs pre ((j, ws) ∷ es) (b, a) (e, n) =
    (NotIn-last k j vs pre b e, AreNew-last k vs pre es a n)

pub AreNew-nil : (es : Entries) → AreNew [] es
AreNew-nil [] = tt
AreNew-nil ((k, vs) ∷ es) = (tt, AreNew-nil es)

pub all_entries :
    (es pre : Entries) (more : List Bytes) (h : Headers)
    → AreEntries es
    → AreNew pre es
    → decode_lines (all_lines es ++ more) (with_entries h pre)
      ≡ decode_lines more (with_entries h (pre ++ es))
all_entries [] pre more h a n =
    ap (λ es. decode_lines more (with_entries h es)) (sym (append-nil pre))
all_entries ((k, vs) ∷ es) pre more h ((c, e), some_value, values, other, a) (new, n) =
    ap (λ ls. decode_lines ls (with_entries h pre))
      (append_assoc (lines_of k vs) (all_lines es) more)
    ∙ one_entry k c vs pre (all_lines es ++ more) h e some_value values new
    ∙ all_entries es (pre ++ (k, vs) ∷ []) more h a (AreNew-last k vs pre es n other)
    ∙ ap (λ xs. decode_lines more (with_entries h xs)) (append_assoc pre ((k, vs) ∷ []) es)

lines_of-NoBreaks :
    (k c : Bytes) (vs more : List Bytes)
    → canonical_key k ≡ some c
    → AreValues vs
    → NoBreaks more
    → NoBreaks (lines_of k vs ++ more)
unfolding canonical_key
lines_of-NoBreaks k c [] more e a m = m
lines_of-NoBreaks k c (v ∷ vs) more e (b, _, a) m =
    let (plain, _) = canonical_from-plain true k c e in
    (
      has_break-append k (codes ": " ++ v) ∙ rw plain (unfold has_break in b),
      lines_of-NoBreaks k c vs more e a m,
    )

pub all_lines-NoBreaks :
    (es : Entries) (more : List Bytes)
    → AreEntries es
    → NoBreaks more
    → NoBreaks (all_lines es ++ more)
all_lines-NoBreaks [] more a m = m
all_lines-NoBreaks ((k, vs) ∷ es) more ((c, e), _, values, _, a) m =
    rw (append_assoc (lines_of k vs) (all_lines es) more)
      (lines_of-NoBreaks k c vs (all_lines es ++ more) e values (all_lines-NoBreaks es more a m))
