-- ===== src/Headers/Entries.antt =====
-- The entries as a map from names to lists of values.
use nats_deno.Base.{
  ◌≡◌, refl, ◌⊎◌, inl, inr, Bool, true, false, not, none, some, List, [], ◌∷◌, ◌++◌, Bytes,
  bytes_eq, bytes_eq_refl, bytes_eq_sound, if◌then◌else◌, arith, Bool-cases,
}
use nats_deno.Headers.{
  Entries, Headers, exact, canonical_key, has_break, trim, valid_value, keys, filter_keys,
  find_keys, lookup, push_value, remove, remove_each, append, delete, Outcome, done, thrown, set,
  get, first, of_first_key,
}

abbrev pub held : Bytes → Entries → List Bytes
held k es = elim (lookup k es) [ none ↦ [] | some vs ↦ vs ]

held-push_value :
    (k v j : Bytes) (es : Entries)
    → held j (push_value k v es) ≡ (if bytes_eq k j then held k es ++ v ∷ [] else held j es)
unfolding push_value lookup
held-push_value k v j [] = ground arith
held-push_value k v j ((i, vs) ∷ es) = ground (
  arith,
  held-push_value k v j es,
  bytes_eq_sound i k,
  bytes_eq_sound i j,
  bytes_eq_sound k j,
  bytes_eq_refl k,
  bytes_eq_refl j,
)

held-remove :
    (k j : Bytes) (es : Entries) → held j (remove k es) ≡ (if bytes_eq k j then [] else held j es)
unfolding remove lookup
held-remove k j [] = ground arith
held-remove k j ((i, vs) ∷ es) = ground (
  arith,
  held-remove k j es,
  bytes_eq_sound i k,
  bytes_eq_sound i j,
  bytes_eq_sound k j,
  bytes_eq_refl k,
  bytes_eq_refl j,
)

abbrev AllAre : Bytes → List Bytes → Type 0
AllAre k [] = Unit
AllAre k (j ∷ js) = (j ≡ k) × AllAre k js

filter_keys-exact : (k : Bytes) (ks : List Bytes) → AllAre k (filter_keys (λ v. bytes_eq v k) ks)
unfolding filter_keys
filter_keys-exact k [] = tt
filter_keys-exact k (j ∷ ks) = elim (Bool-cases (bytes_eq j k)) [
  | inl same ↦ rw same (bytes_eq_sound j k same, filter_keys-exact k ks)
  | inr other ↦ rw other (filter_keys-exact k ks)
]

held-remove_each :
    (k j : Bytes) (ks : List Bytes) (es : Entries)
    → AllAre k ks
    → bytes_eq k j ≡ false ⊎ (held j es ≡ [])
    → held j (remove_each ks es) ≡ held j es
unfolding remove_each
held-remove_each k j [] es a h = refl
held-remove_each k j (i ∷ ks) es (e, a) h =
    ground (arith, held-remove k j es, held-remove_each k j ks (remove k es) a)

held-unknown :
    (k : Bytes) (es : Entries) → filter_keys (λ v. bytes_eq v k) (keys es) ≡ [] → held k es ≡ []
unfolding filter_keys keys lookup
held-unknown k [] e = refl
held-unknown k ((j, vs) ∷ es) e = ground (arith, held-unknown k es)

-- The key that a value is put at, and that a value is looked up at, is the one asked for.
target-exact :
    (k : Bytes) (found : List Bytes) → AllAre k found → (elim found [ [] ↦ k | f ∷ _ ↦ f ]) ≡ k
target-exact k [] a = refl
target-exact k (f ∷ found) a = a.0

pub append-exact :
    (k v : Bytes) (h : Headers)
    → append k v exact h ≡ elim (canonical_key k) [
      | none ↦ none
      | some _ ↦
          if has_break v
          then none
          else some (record h { entries = push_value k (trim v) h.entries })
    ]
unfolding append find_keys valid_value
append-exact k v h =
    let found = filter_keys (λ v. bytes_eq v k) (keys h.entries) in
    ground (arith, target-exact k found (filter_keys-exact k (keys h.entries)))

removed-held :
    (k j : Bytes) (es : Entries) (found : List Bytes)
    → filter_keys (λ v. bytes_eq v k) (keys es) ≡ found
    → AllAre k found
    → held j (remove_each found es) ≡ (if bytes_eq k j then [] else held j es)
unfolding remove_each
removed-held k j es [] e a = ground (arith, held-unknown k es e, bytes_eq_sound k j)
removed-held k j es (i ∷ found) e (same, a) =
    ground (arith, held-remove k j es, held-remove_each k j found (remove k es) a)

delete-exact :
    (k j : Bytes) (h : Headers)
    → (g : Headers) × (delete k exact h ≡ some g)
      × (held j g.entries ≡ (if bytes_eq k j then [] else held j h.entries))
      × (g.code ≡ h.code)
      × (g.description ≡ h.description)
unfolding delete find_keys
delete-exact k j h =
    let found = filter_keys (λ v. bytes_eq v k) (keys h.entries) in
    (
      record h { entries = remove_each found h.entries },
      refl,
      removed-held k j h.entries found refl (filter_keys-exact k (keys h.entries)),
      refl,
      refl,
    )

-- The names that `canonicalMIMEHeaderKey` takes, and the values without an end of line.
abbrev pub is_valid : Bytes → Bytes → Bool
is_valid k v = elim (canonical_key k) [ none ↦ false | some _ ↦ not (has_break v) ]

-- What is held at `j` behind `set` of `k`.
abbrev pub Sets : Bytes → Bytes → Bytes → Headers → Outcome → Type 0
Sets k v j h (done r) =
    (is_valid k v ≡ true)
    × (held j r.entries ≡ (if bytes_eq k j then trim v ∷ [] else held j h.entries))
    × (r.code ≡ h.code)
    × (r.description ≡ h.description)
Sets k v j h (thrown r) =
    (is_valid k v ≡ false)
    × (held j r.entries ≡ (if bytes_eq k j then [] else held j h.entries))
    × (r.code ≡ h.code)
    × (r.description ≡ h.description)

-- `set` with an exact match leaves the trimmed value as the only one of its name, and keeps what other
-- names hold. It throws if the name or the value is not valid; the old values of the name are gone then
-- all the same.
pub set-Sets : (k v j : Bytes) (h : Headers) → Sets k v j h (set k v exact h)
unfolding set
set-Sets k v j h =
    let (g, e, held_j, code, description) = delete-exact k j h in
    let (g', e', held_k, _, _) = delete-exact k k h in
    ground (arith, append-exact k v g, held-push_value k (trim v) j g.entries, bytes_eq_refl k)

-- `append` with an exact match throws if the name or the value is not valid, and else puts the trimmed
-- value behind those of its name, keeping what other names hold.
pub append_lem :
    (k v j : Bytes) (h : Headers)
    → (is_valid k v ≡ false → append k v exact h ≡ none)
      × (is_valid k v ≡ true
          → (r : Headers) × (append k v exact h ≡ some r)
            × (held j r.entries
                ≡ (if bytes_eq k j then held k h.entries ++ trim v ∷ [] else held j h.entries)))
append_lem k v j h = (
  λ e. ground (arith, append-exact k v h),
  λ e. (
    record h { entries = push_value k (trim v) h.entries },
    ground (arith, append-exact k v h),
    held-push_value k (trim v) j h.entries,
  ),
)

-- `get` with an exact match is the first value that is held.
pub get-held : (k : Bytes) (h : Headers) → get k exact h ≡ some (first (held k h.entries))
unfolding get find_keys
get-held k h =
    go (filter_keys (λ v. bytes_eq v k) (keys h.entries)) refl
      (filter_keys-exact k (keys h.entries))
  where
    go :
        (found : List Bytes)
        → filter_keys (λ v. bytes_eq v k) (keys h.entries) ≡ found
        → AllAre k found
        → some (of_first_key first found h.entries) ≡ some (first (held k h.entries))
    go [] e a = ground (arith, held-unknown k h.entries e)
    go (f ∷ found) e (same, a) = ground (arith, same)
