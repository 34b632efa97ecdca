-- ===== src/JetStream/Tokens.antt =====
-- Subjects as tokens: `split(".")` and `join(".")` of the runtime.
use nats_deno.Base.{
  ◌≡◌, refl, ap, ◌∙◌, Bool, false, List, [], ◌∷◌, ◌++◌, Bytes, ◌==◌, if◌then◌else◌, arith, ◌<◌,
  length, ◌||◌, if-elim,
}
use mathlib.Core.List.{append_assoc}

-- A character before the tokens of what follows.
abbrev pub before : List Bytes → Bytes → List Bytes
before [] c = c ∷ []
before (t ∷ ts) c = (c ++ t) ∷ ts

unfoldable pub split_dots : Bytes → List Bytes
split_dots [] = [] ∷ []
split_dots (c ∷ s) =
    let rest = split_dots s in if c == b'.' then [] ∷ rest else before rest (c ∷ [])

unfoldable pub join_dots : List Bytes → Bytes
join_dots [] = []
join_dots (t ∷ []) = t
join_dots (t ∷ u ∷ ts) = t ++ (b'.' ∷ join_dots (u ∷ ts))

unfoldable pub has_dot : Bytes → Bool
has_dot [] = false
has_dot (c ∷ s) = c == b'.' || has_dot s

abbrev pub AreTokens : List Bytes → Type 0
AreTokens [] = Unit {0}
AreTokens (t ∷ ts) = (has_dot t ≡ false) × AreTokens ts

split_one : (t : Bytes) → has_dot t ≡ false → split_dots t ≡ t ∷ []
unfolding split_dots has_dot
split_one [] h = refl
split_one (c ∷ t) h = ground (arith, split_one t, h)

split_more : (t s : Bytes) → has_dot t ≡ false → split_dots (t ++ (b'.' ∷ s)) ≡ t ∷ split_dots s
unfolding split_dots has_dot
split_more [] s h = refl
split_more (c ∷ t) s h = ground (arith, split_more t s, h)

pub split_dots-join_dots :
    (t : Bytes) (ts : List Bytes) → AreTokens (t ∷ ts) → split_dots (join_dots (t ∷ ts)) ≡ t ∷ ts
unfolding join_dots
split_dots-join_dots t [] (h, hs) = split_one t h
split_dots-join_dots t (u ∷ ts) (h, hs) =
    split_more t (join_dots (u ∷ ts)) h ∙ ap (◌∷◌ t) (split_dots-join_dots u ts hs)

pub split-some : (s : Bytes) → 0 < length (split_dots s)
unfolding split_dots
split-some [] = ground arith
split-some (c ∷ s) = ground (arith, split-some s)

join-nil : (ts : List Bytes) → 0 < length ts → join_dots ([] ∷ ts) ≡ b'.' ∷ join_dots ts
unfolding join_dots
join-nil [] h = absurd (omega arith)
join-nil (t ∷ ts) h = refl

join-before :
    (c : Bytes) (ts : List Bytes) → 0 < length ts → join_dots (before ts c) ≡ c ++ join_dots ts
unfolding join_dots
join-before c [] h = absurd (omega arith)
join-before c (t ∷ []) h = refl
join-before c (t ∷ u ∷ ts) h = append_assoc c t (b'.' ∷ join_dots (u ∷ ts))

pub join_dots-split_dots : (s : Bytes) → join_dots (split_dots s) ≡ s
unfolding split_dots
join_dots-split_dots [] = unfold join_dots in refl
join_dots-split_dots (c ∷ s) = ground (
  arith,
  join-nil (split_dots s) (split-some s),
  join-before (c ∷ []) (split_dots s) (split-some s),
  join_dots-split_dots s,
)

has_dot-append : (d u : Bytes) → has_dot d ≡ false → has_dot u ≡ false → has_dot (d ++ u) ≡ false
unfolding has_dot
has_dot-append [] u e f = f
has_dot-append (x ∷ d) u e f = ground (arith, has_dot-append d u, e, f)

AreTokens-before :
    (c : Bytes) (ts : List Bytes) → has_dot c ≡ false → AreTokens ts → AreTokens (before ts c)
AreTokens-before c [] h a = (h, tt)
AreTokens-before c (t ∷ ts) h (p, a) = (has_dot-append c t h p, a)

pub split-AreTokens : (s : Bytes) → AreTokens (split_dots s)
unfolding split_dots
split-AreTokens [] = unfold has_dot in (refl, tt)
split-AreTokens (c ∷ s) =
    if-elim AreTokens (c == b'.') ([] ∷ split_dots s) (before (split_dots s) (c ∷ []))
      (λ _. (unfold has_dot in refl, split-AreTokens s))
      (λ (e : (c == b'.') ≡ false).
        AreTokens-before (c ∷ []) (split_dots s) (unfold has_dot in ground (arith, e))
          (split-AreTokens s))
