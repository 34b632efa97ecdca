-- ===== src/Mux/Store.antt =====
-- The store of requests and the map of their tokens.
use nats_deno.Base.{
  ℕ, zero, suc, ◌≡◌, ◌≢◌, refl, sym, ap, ◌∙◌, ◌⊎◌, inl, inr, Bool, true, false, not, none, some,
  List, [], ◌∷◌, ◌++◌, Bytes, bytes_eq, bytes_eq_refl, bytes_eq_sound, length, get_elem?, ◌==◌,
  if◌then◌else◌, arith, Bool-cases,
}
use nats_deno.Mux.Requests.{pending, one, many, Request, Mux}
use nats_deno.Mux.Table.{write, find, forget, enter}

-- The deferred of the request is not settled.
abbrev pub is_open : Request → Bool
is_open r = elim r.kind [ one pending ↦ true | one _ ↦ false | many s ↦ not s.done ]

pub get_elem?-write :
    (i j : ℕ) (r q : Request) (qs : List Request)
    → get_elem? qs i ≡ some q
    → get_elem? (write i r qs) j ≡ (if i == j then some r else get_elem? qs j)
unfolding write
get_elem?-write i j r q [] e = ground arith
get_elem?-write zero zero r q (p ∷ qs) e = refl
get_elem?-write zero (suc j) r q (p ∷ qs) e = ground arith
get_elem?-write (suc i) zero r q (p ∷ qs) e = ground arith
get_elem?-write (suc i) (suc j) r q (p ∷ qs) e = ground (arith, get_elem?-write i j r q qs e)

pub find-forget :
    (t u : Bytes) (ts : List (Bytes × ℕ))
    → find u (forget t ts) ≡ (if bytes_eq t u then none else find u ts)
unfolding find forget
find-forget t u [] = ground arith
find-forget t u ((v, i) ∷ ts) = ground (
  arith,
  find-forget t u ts,
  bytes_eq_sound v t,
  bytes_eq_sound v u,
  bytes_eq_sound t u,
  bytes_eq_refl t,
  bytes_eq_refl u,
)

pub find-enter :
    (t u : Bytes) (i : ℕ) (ts : List (Bytes × ℕ))
    → find u (enter t i ts) ≡ (if bytes_eq t u then some i else find u ts)
unfolding find enter
find-enter t u i [] = ground arith
find-enter t u i ((v, j) ∷ ts) = ground (
  arith,
  find-enter t u i ts,
  bytes_eq_sound v t,
  bytes_eq_sound v u,
  bytes_eq_sound t u,
  bytes_eq_refl t,
  bytes_eq_refl u,
)

pub get_elem?-append :
    (qs ps : List Request) (j : ℕ) (s : Request)
    → get_elem? qs j ≡ some s
    → get_elem? (qs ++ ps) j ≡ some s
get_elem?-append [] ps j s e = absurd (ground arith)
get_elem?-append (q ∷ qs) ps zero s e = e
get_elem?-append (q ∷ qs) ps (suc j) s e = get_elem?-append qs ps j s e

pub get_elem?-last :
    (r : Request) (qs : List Request) → get_elem? (qs ++ r ∷ []) (length qs) ≡ some r
get_elem?-last r [] = refl
get_elem?-last r (q ∷ qs) = get_elem?-last r qs

pub at_end :
    (r : Request) (qs : List Request) (j : ℕ) (s : Request)
    → get_elem? (qs ++ r ∷ []) j ≡ some s
    → ((j ≡ length qs) × (s ≡ r)) ⊎ (get_elem? qs j ≡ some s)
at_end r [] zero s e = inl (refl, ground arith)
at_end r [] (suc j) s e = absurd (ground arith)
at_end r (q ∷ qs) zero s e = inr e
at_end r (q ∷ qs) (suc j) s e = elim (at_end r qs j s e) [
  | inl (x, y) ↦ inl (ap suc x, y)
  | inr y ↦ inr y
]

abbrev pub Names : List Request → Type 0
Names qs =
    (i j : ℕ) (r q : Request)
    → get_elem? qs i ≡ some r
    → get_elem? qs j ≡ some q
    → r.token ≡ q.token
    → i ≡ j

-- Tokens name one request each; the map holds the open requests under their tokens, and no other.
abbrev pub IsLive : Mux → Type 0
IsLive m =
    Names m.store
    × ((i : ℕ) (r : Request)
        → get_elem? m.store i ≡ some r
        → find r.token m.reqs ≡ (if is_open r then some i else none))
    × ((t : Bytes) (i : ℕ)
        → find t m.reqs ≡ some i
        → (r : Request) × (get_elem? m.store i ≡ some r) × (r.token ≡ t))

written :
    (i : ℕ) (r q : Request) (qs : List Request)
    → get_elem? qs i ≡ some r
    → (j : ℕ) (s : Request) → get_elem? (write i q qs) j ≡ some s
    → ((j ≡ i) × (s ≡ q)) ⊎ ((j ≢ i) × (get_elem? qs j ≡ some s))
written i r q qs e j s h = elim (Bool-cases (i == j)) [
  | inl same ↦ inl (ground arith, ground (arith, get_elem?-write i j q r qs e))
  | inr differ ↦ inr (ground arith, ground (arith, get_elem?-write i j q r qs e))
]

write-Names :
    (i : ℕ) (r q : Request) (qs : List Request)
    → Names qs
    → get_elem? qs i ≡ some r
    → q.token ≡ r.token
    → Names (write i q qs)
write-Names i r q qs names e t j k s p a b same = elim (written i r q qs e j s a) [
  | inl (x, y) ↦ elim (written i r q qs e k p b) [
    | inl (z, w) ↦ x ∙ sym z
    | inr (z, w) ↦ absurd (z (names k i p r w e (sym same ∙ ap (λ (o : Request). o.token) y ∙ t)))
  ]
  | inr (x, y) ↦ elim (written i r q qs e k p b) [
    | inl (z, w) ↦ absurd (x (names j i s r y e (same ∙ ap (λ (o : Request). o.token) w ∙ t)))
    | inr (z, w) ↦ names j k s p y w same
  ]
]

-- The request at `i` becomes `q`, and the map holds it just if it is open.
change-IsLive :
    (i : ℕ) (r q : Request) (m : Mux) (ts : List (Bytes × ℕ))
    → IsLive m
    → get_elem? m.store i ≡ some r
    → q.token ≡ r.token
    → ((u : Bytes)
        → find u ts
          ≡ (if bytes_eq r.token u then (if is_open q then some i else none) else find u m.reqs))
    → IsLive (record m { reqs = ts; store = write i q m.store })
change-IsLive i r q m ts (names, open_in, holds) e t f = (
  write-Names i r q m.store names e t,
  (λ j s a. elim (written i r q m.store e j s a) [
    | inl (x, y) ↦ rw (x, y, f q.token) (ground (arith, t, bytes_eq_refl r.token))
    | inr (x, y) ↦
        ground (arith, f s.token, open_in j s y, names i j r s e y, bytes_eq_sound r.token s.token)
  ]),
  (λ u j a. elim (Bool-cases (bytes_eq r.token u)) [
    | inl same ↦
        let here : j ≡ i = ground (arith, f u) in
        (
          q,
          rw here (ground (arith, get_elem?-write i i q r m.store e)),
          t ∙ bytes_eq_sound r.token u same,
        )
    | inr differ ↦
        let (s, b, token) = holds u j (ground (arith, f u)) in
        (s, ground (arith, get_elem?-write i j q r m.store e, bytes_eq_refl u), token)
  ]),
)

-- A request changes and stays as open as it was, or it is closed and leaves the map.
pub write-IsLive :
    (i : ℕ) (r q : Request) (m : Mux)
    → IsLive m
    → get_elem? m.store i ≡ some r
    → q.token ≡ r.token
    → is_open q ≡ is_open r
    → IsLive (record m { store = write i q m.store })
write-IsLive i r q m h e t o =
    change-IsLive i r q m m.reqs h e t (λ u. ground (arith, h.1 i r e, bytes_eq_sound r.token u))

pub close-IsLive :
    (i : ℕ) (r q : Request) (m : Mux)
    → IsLive m
    → get_elem? m.store i ≡ some r
    → q.token ≡ r.token
    → is_open q ≡ false
    → IsLive (record m { reqs = forget r.token m.reqs; store = write i q m.store })
close-IsLive i r q m h e t o =
    change-IsLive i r q m (forget r.token m.reqs) h e t
      (λ u. ground (arith, find-forget r.token u m.reqs))
