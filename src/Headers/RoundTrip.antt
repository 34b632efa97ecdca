-- ===== src/Headers/RoundTrip.antt =====
-- Headers that are written as text are read back.
use nats_deno.Base.{
  ℕ, zero, suc, ◌<◌, ◌≡◌, refl, sym, ap, ◌∙◌, Bool, true, false, ◌&&◌, some, List, [], ◌∷◌, ◌++◌,
  Bytes, bytes_eq, length, ltb, ◌==◌, if◌then◌else◌, arith,
}
use nats_deno.Headers.{Entries, ℤ, pos, Headers, no_headers, has_break, trim_start, trim_end, trim}
use nats_deno.Headers.Lines.{
  header, break, is_zero, is_positive, entry_lines, split_from, show_int, without_first,
  decode_line, decode_lines, to_text, decode_status, decode,
}
use nats_deno.Headers.Written.{
  line_text, all_lines, AreEntries, IsTrimmed, line_text-append, entry_lines-text, split_from-lines,
  has_break-append,
}
use nats_deno.Headers.Put.{with_entries, AreNew-nil, all_entries, all_lines-NoBreaks}
use nats_deno.Headers.Status.{AllDigits, ShowsAs, digits-NoBreak, status, decode_status-status}

-- A status is none at all, or a code above 0 with a trimmed description of one line.
abbrev pub IsStatus : (ℕ → Bytes) → ℤ → Bytes → Type 0
IsStatus show (pos zero) description = description ≡ []
IsStatus show (pos (suc n)) description =
    ShowsAs (show (suc n)) (suc n)
    × IsTrimmed description
    × (has_break description ≡ false)
    × (0 < length description)
IsStatus show (ℤ.negsuc n) description = ⊥

abbrev pub IsWritable : (ℕ → Bytes) → Headers → Type 0
IsWritable show h = IsStatus show h.code h.description × AreEntries h.entries

-- The text behind its first line.
text_after :
    (es : Entries) → entry_lines es ++ (break ++ break) ≡ line_text (all_lines es ++ [] ∷ [] ∷ [])
text_after es =
    ap (λ t. t ++ (break ++ break)) (entry_lines-text es)
    ∙ sym (line_text-append (all_lines es) ([] ∷ [] ∷ []))

decode-text :
    (show : ℕ → Bytes) (l : Bytes) (es : Entries) (h : Headers)
    → has_break l ≡ false
    → AreEntries es
    → decode_status show l ≡ with_entries h []
    → decode show (l ++ (entry_lines es ++ (break ++ break))) ≡ some (with_entries h es)
unfolding decode
decode-text show l es h b a e =
    let ls = all_lines es ++ [] ∷ [] ∷ [] in
    let parted : split_from false (l ++ (entry_lines es ++ (break ++ break))) ≡ (l, ls) =
      ap (λ t. split_from false (l ++ t)) (text_after es)
      ∙ split_from-lines l ls b
          (all_lines-NoBreaks es ([] ∷ [] ∷ []) a (unfold has_break in (refl, (refl, tt)))) in
    ap (λ (p : Bytes × List Bytes). decode_lines p.1 (decode_status show p.0)) parted
    ∙ ap (decode_lines ls) e
    ∙ all_entries es [] ([] ∷ [] ∷ []) h a (AreNew-nil es)
    ∙ unfold decode_lines decode_line in refl

decode_status-none : (show : ℕ → Bytes) → decode_status show header ≡ no_headers
unfolding decode_status bytes_eq
decode_status-none show = refl

decode-nil : (show : ℕ → Bytes) → decode show [] ≡ some no_headers
unfolding decode split_from decode_status bytes_eq without_first trim trim_start trim_end
    decode_lines
decode-nil show = refl

status-NoBreak :
    (ds description : Bytes)
    → AllDigits ds
    → has_break description ≡ false
    → has_break (header ++ status ds description) ≡ false
status-NoBreak ds description a b =
    has_break-append header (status ds description)
    ∙ unfold has_break in (has_break-append ds (b' ' ∷ description) ∙ rw (digits-NoBreak ds a) b)

text-empty :
    (show : ℕ → Bytes) (h : Headers) → h.code ≡ pos 0 → h.entries ≡ [] → to_text show h ≡ []
unfolding to_text
text-empty show h c e = ground arith

has_status :
    (n : ℕ) (t : Bytes) → 0 < length t → (is_positive (pos (suc n)) && ltb 0 (length t)) ≡ true
has_status n t h = ground arith

not_blank : (b : Bool) (n : ℕ) → (b && is_zero (pos (suc n))) ≡ false
not_blank b n = ground arith

-- The text, with the three tests taken.
text-of :
    (show : ℕ → Bytes) (h : Headers) (code : ℤ) (without some_text : Bool)
    → h.code ≡ code
    → (length h.entries == 0) ≡ without
    → (is_positive code && ltb 0 (length h.description)) ≡ some_text
    → to_text show h ≡ (
        if without && is_zero code
        then []
        else header
          ++ ((if some_text then b' ' ∷ (show_int show code ++ b' ' ∷ h.description) else [])
              ++ (entry_lines h.entries ++ (break ++ break))))
unfolding to_text
text-of show h code without some_text c w t = rw (sym w, sym t, sym c) refl

text-plain :
    (show : ℕ → Bytes) (h : Headers) (en : Bytes × List Bytes) (es : Entries)
    → h.code ≡ pos 0
    → h.entries ≡ en ∷ es
    → to_text show h ≡ header ++ (entry_lines (en ∷ es) ++ (break ++ break))
unfolding to_text
text-plain show h en es c e =
    let some_entry : (length h.entries == 0) ≡ false = ground (arith, e) in
    text-of show h (pos 0) false false c some_entry refl
    ∙ ap (λ es. header ++ (entry_lines es ++ (break ++ break))) e

text-status :
    (show : ℕ → Bytes) (h : Headers) (n : ℕ)
    → h.code ≡ pos (suc n)
    → 0 < length h.description
    → to_text show h
      ≡ (header ++ status (show (suc n)) h.description)
        ++ (entry_lines h.entries ++ (break ++ break))
unfolding to_text
text-status show h n c e =
    let st = status (show (suc n)) h.description in
    text-of show h (pos (suc n)) (length h.entries == 0) true c refl (has_status n h.description e)
    ∙ rw (not_blank (length h.entries == 0) n) refl

Headers-path :
    (h : Headers) (c : ℤ) (d : Bytes) (es : Entries)
    → h.code ≡ c
    → h.description ≡ d
    → h.entries ≡ es
    → record { code = c; description = d; entries = es } ≡ h
Headers-path h c d es p q r = sym (λ i. record { code = p i; description = q i; entries = r i })

-- Headers that are encoded are decoded as themselves: any entries with valid and different names, at
-- least one value each, and trimmed values of one line, with a status or without one. Of the runtime's
-- conversion it is asked that the code is written in its decimal digits.
pub decode-to_text :
    (show : ℕ → Bytes) (h : Headers) → IsWritable show h → decode show (to_text show h) ≡ some h
unfolding to_text
decode-to_text show h (st, a) = go h.code h.entries refl refl st a
  where
    go :
        (code : ℤ) (es : Entries)
        → h.code ≡ code
        → h.entries ≡ es
        → IsStatus show code h.description
        → AreEntries es
        → decode show (to_text show h) ≡ some h
    go (pos zero) [] c e s x =
        ap (decode show) (text-empty show h c e)
        ∙ decode-nil show
        ∙ ap some (Headers-path h (pos 0) [] [] c s e)
    go (pos zero) (en ∷ es) c e s x =
        ap (decode show) (text-plain show h en es c e)
        ∙ decode-text show header (en ∷ es) no_headers (unfold has_break in refl) x
            (decode_status-none show)
        ∙ ap some (Headers-path h (pos 0) [] (en ∷ es) c s e)
    go (pos (suc n)) es c e (shows, trimmed, one_line, some_text) x =
        let first_line = header ++ status (show (suc n)) h.description in
        let no_break = status-NoBreak (show (suc n)) h.description shows.0 one_line in
        ap (decode show) (text-status show h n c some_text)
        ∙ ap (λ es. decode show (first_line ++ (entry_lines es ++ (break ++ break)))) e
        ∙ decode-text show first_line es
            (record no_headers { code = pos (suc n); description = h.description }) no_break x
            (decode_status-status show (suc n) h.description shows trimmed some_text)
        ∙ ap some (Headers-path h (pos (suc n)) h.description es c refl e)
    go (ℤ.negsuc n) es c e s x = absurd s
