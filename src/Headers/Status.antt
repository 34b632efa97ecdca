-- ===== src/Headers/Status.antt =====
-- The first line: what `decode` reads from a code and a description.
use nats_deno.Base.{
  ℕ, ◌+◌, ◌-◌, ◌*◌, ◌<◌, ◌≡◌, refl, ap, ◌∙◌, Bool, true, false, ◌&&◌, Option, none, some, [], ◌∷◌,
  ◌++◌, Bytes, codes, bytes_eq, length, ◌==◌, arith, length-append,
}
use nats_deno.Base.Slices.{drop-length-append}
use nats_deno.Headers.{ℤ, pos, no_headers, has_break, is_space, trim_start, trim_end, trim}
use nats_deno.Headers.Lines.{
  header, show_int, starts, without_first, is_dec, digits_from, parse_int, decode_status,
}
use nats_deno.Headers.Written.{IsTrimmed}

-- The decimal digits of a number.
abbrev pub AllDigits : Bytes → Type 0
AllDigits [] = Unit
AllDigits (c ∷ ds) = (is_dec c ≡ true) × AllDigits ds

abbrev pub ShowsAs : Bytes → ℕ → Type 0
ShowsAs ds n = AllDigits ds × (digits_from none ds ≡ some n)

digits_from-more :
    (o : Option ℕ) (ds rest : Bytes) (c : ℕ)
    → AllDigits ds
    → is_dec c ≡ false
    → digits_from o (ds ++ c ∷ rest) ≡ digits_from o ds
unfolding digits_from
digits_from-more o [] rest c a n = ground arith
digits_from-more none (d ∷ ds) rest c (e, a) n =
    ground (arith, digits_from-more (some (d - b'0')) ds rest c a n)
digits_from-more (some k) (d ∷ ds) rest c (e, a) n =
    ground (arith, digits_from-more (some (k * 10 + (d - b'0'))) ds rest c a n)

pub starts-append : (t s : Bytes) → starts t (t ++ s) ≡ true
unfolding starts
starts-append [] s = refl
starts-append (c ∷ t) s = ground (arith, starts-append t s)

without_first-append : (c : ℕ) (t s : Bytes) → without_first (c ∷ t) ((c ∷ t) ++ s) ≡ s
unfolding without_first
without_first-append c t s = rw (starts-append (c ∷ t) s) (drop-length-append t s)

pub and-false : (b : Bool) → (b && false) ≡ false
and-false true = refl
and-false false = refl

trim_end-cons :
    (c : ℕ) (s t : Bytes) → trim_end s ≡ t → (length t == 0) ≡ false → trim_end (c ∷ s) ≡ c ∷ t
unfolding trim_end
trim_end-cons c s t e h = rw (e, h, and-false (is_space c)) refl

not_empty : (t : Bytes) → 0 < length t → (length t == 0) ≡ false
not_empty t h = ground arith

trim_end-append : (x y : Bytes) → trim_end y ≡ y → 0 < length y → trim_end (x ++ y) ≡ x ++ y
trim_end-append [] y e h = e
trim_end-append (c ∷ x) y e h =
    trim_end-cons c (x ++ y) (x ++ y) (trim_end-append x y e h)
      (not_empty (x ++ y) (omega (arith, length-append x y)))

is_space-digit : (d : ℕ) → is_dec d ≡ true → is_space d ≡ false
unfolding is_space
is_space-digit d h = ground arith

abbrev pub status : Bytes → Bytes → Bytes
status ds description = b' ' ∷ (ds ++ b' ' ∷ description)

-- The status, trimmed.
trim-status :
    (d : ℕ) (ds description : Bytes)
    → is_dec d ≡ true
    → IsTrimmed description
    → 0 < length description
    → trim (status (d ∷ ds) description) ≡ (d ∷ ds) ++ b' ' ∷ description
unfolding trim
trim-status d ds description h (front, back) some_text =
    let last = trim_end-cons b' ' description description back (not_empty description some_text) in
    let begin : trim_start (status (d ∷ ds) description) ≡ (d ∷ ds) ++ b' ' ∷ description =
      unfold trim_start in rw (is_space-digit d h) refl in
    ap trim_end begin ∙ trim_end-append (d ∷ ds) (b' ' ∷ description) last (omega arith)

parse_int-digits :
    (d n : ℕ) (ds rest : Bytes)
    → AllDigits (d ∷ ds)
    → digits_from none (d ∷ ds) ≡ some n
    → parse_int ((d ∷ ds) ++ b' ' ∷ rest) ≡ pos n
unfolding parse_int
parse_int-digits d n ds rest (h, a) v =
    let all = digits_from-more none (d ∷ ds) rest b' ' (h, a) refl ∙ v in ground arith

decode_status-of :
    (show : ℕ → Bytes) (l str : Bytes) (code : ℤ)
    → bytes_eq l header ≡ false
    → trim (without_first header l) ≡ str
    → (length str == 0) ≡ false
    → parse_int str ≡ code
    → decode_status show l ≡ record no_headers {
      code = code;
      description = trim (without_first (show_int show code) str);
    }
unfolding decode_status
decode_status-of show l str code e f g h = rw (e, f, g, h) refl

pub digits-NoBreak : (ds : Bytes) → AllDigits ds → has_break ds ≡ false
unfolding has_break
digits-NoBreak [] a = refl
digits-NoBreak (c ∷ ds) (e, a) = ground (arith, digits-NoBreak ds a)

-- What the first line says of a code and its description.
pub decode_status-status :
    (show : ℕ → Bytes) (n : ℕ) (description : Bytes)
    → ShowsAs (show n) n
    → IsTrimmed description
    → 0 < length description
    → decode_status show (header ++ status (show n) description)
      ≡ record no_headers { code = pos n; description = description }
decode_status-status show n description (digits, value) (front, back) some_text =
    go (show n) refl digits value
  where
    go :
        (ds : Bytes)
        → show n ≡ ds
        → AllDigits ds
        → digits_from none ds ≡ some n
        → decode_status show (header ++ status (show n) description)
          ≡ record no_headers { code = pos n; description = description }
    go [] e a v = absurd (unfold digits_from in cc)
    go (d ∷ ds) e (dec, a) v =
        let st = status (d ∷ ds) description in
        let str = (d ∷ ds) ++ b' ' ∷ description in
        let other : bytes_eq (header ++ st) header ≡ false = unfold bytes_eq in refl in
        let cut : trim (without_first header (header ++ st)) ≡ str =
          ap trim (without_first-append b'N' (codes "ATS/1.0") st)
          ∙ trim-status d ds description dec (front, back) some_text in
        let blank : trim (b' ' ∷ description) ≡ description =
          unfold trim trim_start is_space in ap trim_end front ∙ back in
        ap (λ x. decode_status show (header ++ status x description)) e
        ∙ decode_status-of show (header ++ st) str (pos n) other cut (not_empty str (omega arith))
            (parse_int-digits d n ds description (dec, a) v)
        ∙ ap (λ t. record no_headers { code = pos n; description = t })
            (ap (λ x. trim (without_first x str)) e
              ∙ ap trim (without_first-append d ds (b' ' ∷ description))
              ∙ blank)
