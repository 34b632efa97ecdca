-- ===== src/Headers.antt =====
-- nats-base-client/headers.ts: `canonicalMIMEHeaderKey` and `MsgHdrsImpl`. A text is the list of its
-- characters; the map of headers is the list of its entries in the order of insertion. Letters outside
-- ASCII have no other case here. Numbers are written by `show`, the runtime's conversion to a string.
pub mod Lines
pub mod Entries
pub mod Written
pub mod Put
pub mod Status
pub mod RoundTrip
mod Tests
use nats_deno.Base.{
  ℕ, zero, suc, ◌+◌, ◌-◌, ◌*◌, Bool, true, false, not, ◌&&◌, ◌||◌, Option, none, some, List, [],
  ◌∷◌, ◌++◌, Bytes, codes, bytes_eq, length, get_elem?, drop, leb, ltb, ◌==◌, if◌then◌else◌,
}

-- `canonicalMIMEHeaderKey`; `none` is its error.
unfoldable pub canonical_from : Bool → Bytes → Option Bytes
canonical_from upper [] = some []
canonical_from upper (c ∷ k) =
    let d =
      if upper && (leb b'a' c && leb c b'z')
      then c - 32
      else if not upper && (leb b'A' c && leb c b'Z')
      then c + 32
      else c in
    let rest = canonical_from (d == b'-') k in
    if (c == b':') || (ltb c 33 || ltb 126 c)
    then none
    else elim rest [ none ↦ none | some r ↦ some (d ∷ r) ]

unfoldable pub canonical_key : Bytes → Option Bytes
unfolding canonical_from
canonical_key k = canonical_from true k

-- White space of `trim`.
unfoldable pub is_space : ℕ → Bool
is_space c =
    (leb 9 c && leb c 13)
    || (c == 32)
    || (c == 160)
    || (c == 5760)
    || (leb 8192 c && leb c 8202)
    || (c == 8232)
    || (c == 8233)
    || (c == 8239)
    || (c == 8287)
    || (c == 12288)
    || (c == 65279)

unfoldable pub trim_start : Bytes → Bytes
unfolding is_space
trim_start [] = []
trim_start (c ∷ s) = if is_space c then trim_start s else c ∷ s

unfoldable pub trim_end : Bytes → Bytes
unfolding is_space
trim_end [] = []
trim_end (c ∷ s) = let t = trim_end s in if is_space c && length t == 0 then [] else c ∷ t

unfoldable pub trim : Bytes → Bytes
unfolding trim_start trim_end
trim s = trim_end (trim_start s)

-- The test for `[\r\n]`.
unfoldable pub has_break : Bytes → Bool
has_break [] = false
has_break (c ∷ s) = (c == b'\r' || c == b'\n') || has_break s

-- `validHeaderValue`
unfoldable pub valid_value : Bytes → Option Bytes
unfolding has_break trim
valid_value v = if has_break v then none else some (trim v)

abbrev pub Entries : Type 0
Entries = List (Bytes × List Bytes)

-- A code is negative only where a header line says so.
pub data ℤ : Type 0 where
  pos negsuc : ℕ → ℤ

pub record Headers : Type 0 where
  pub code : ℤ
  pub description : Bytes
  pub entries : Entries

abbrev pub no_headers : Headers
no_headers = record { code = pos 0; description = []; entries = [] }

pub data Match : Type 0 where
  exact canonical_mime ignore_case : Match

-- `keys`
unfoldable pub keys : Entries → List Bytes
keys [] = []
keys ((k, vs) ∷ es) = k ∷ keys es

abbrev pub lower : Bytes → Bytes
lower [] = []
lower (c ∷ s) = (if leb b'A' c && leb c b'Z' then c + 32 else c) ∷ lower s

unfoldable pub filter_keys : (Bytes → Bool) → List Bytes → List Bytes
filter_keys p [] = []
filter_keys p (k ∷ ks) = if p k then k ∷ filter_keys p ks else filter_keys p ks

-- `findKeys`; `none` is the error of the canonical form.
unfoldable pub find_keys : Bytes → Match → Entries → Option (List Bytes)
unfolding filter_keys keys
find_keys k exact es = some (filter_keys (λ v. bytes_eq v k) (keys es))
find_keys k canonical_mime es = elim (canonical_key k) [
  | none ↦ none
  | some c ↦ some (filter_keys (λ v. bytes_eq v c) (keys es))
]
find_keys k ignore_case es = some (filter_keys (λ v. bytes_eq (lower k) (lower v)) (keys es))

-- `headers.get(k)`
unfoldable pub lookup : Bytes → Entries → Option (List Bytes)
lookup k [] = none
lookup k ((j, vs) ∷ es) = if bytes_eq j k then some vs else lookup k es

-- `a.push(value)` for the values of a key, which are put at the end where there are none.
unfoldable pub push_value : Bytes → Bytes → Entries → Entries
push_value k v [] = (k, v ∷ []) ∷ []
push_value k v ((j, vs) ∷ es) =
    if bytes_eq j k then (j, vs ++ v ∷ []) ∷ es else (j, vs) ∷ push_value k v es

unfoldable pub remove : Bytes → Entries → Entries
remove k [] = []
remove k ((j, vs) ∷ es) = if bytes_eq j k then remove k es else (j, vs) ∷ remove k es

unfoldable pub remove_each : List Bytes → Entries → Entries
unfolding remove
remove_each [] es = es
remove_each (k ∷ ks) es = remove_each ks (remove k es)

-- `append`, which changes nothing where it throws.
unfoldable pub append : Bytes → Bytes → Match → Headers → Option Headers
unfolding canonical_key find_keys valid_value push_value
append k v match h = elim (canonical_key k) [
  | none ↦ none
  | some ck ↦
      let name : Bytes = elim match [ canonical_mime ↦ ck | _ ↦ k ] in
      elim (find_keys name match h.entries) [
        | none ↦ none
        | some found ↦
            let target : Bytes = elim found [ [] ↦ name | f ∷ _ ↦ f ] in
            elim (valid_value v) [
              | none ↦ none
              | some value ↦ some (record h { entries = push_value target value h.entries })
            ]
      ]
]

-- `delete`
unfoldable pub delete : Bytes → Match → Headers → Option Headers
unfolding find_keys remove_each
delete k match h = elim (find_keys k match h.entries) [
  | none ↦ none
  | some found ↦ some (record h { entries = remove_each found h.entries })
]

-- `set`: what is left where it throws.
pub data Outcome : Type 0 where
  done thrown : Headers → Outcome

unfoldable pub set : Bytes → Bytes → Match → Headers → Outcome
unfolding delete append
set k v match h = elim (delete k match h) [
  | none ↦ thrown h
  | some g ↦ elim (append k v match g) [ none ↦ thrown g | some r ↦ done r ]
]

abbrev pub first : List Bytes → Bytes
first [] = []
first (v ∷ vs) = v

abbrev pub final : List Bytes → Bytes
final [] = []
final (v ∷ []) = v
final (v ∷ w ∷ vs) = final (w ∷ vs)

abbrev pub values_of : List Bytes → Entries → List Bytes
values_of [] es = []
values_of (k ∷ ks) es = elim (lookup k es) [ none ↦ [] | some vs ↦ vs ] ++ values_of ks es

-- `values`, `get`, `last` and `has`
unfoldable pub values : Bytes → Match → Headers → Option (List Bytes)
unfolding find_keys lookup
values k match h = elim (find_keys k match h.entries) [
  | none ↦ none
  | some found ↦ some (values_of found h.entries)
]

abbrev pub of_first_key : (List Bytes → Bytes) → List Bytes → Entries → Bytes
of_first_key f [] es = []
of_first_key f (k ∷ _) es = elim (lookup k es) [ none ↦ [] | some vs ↦ f vs ]

unfoldable pub get : Bytes → Match → Headers → Option Bytes
unfolding find_keys lookup
get k match h = elim (find_keys k match h.entries) [
  | none ↦ none
  | some found ↦ some (of_first_key first found h.entries)
]

unfoldable pub last : Bytes → Match → Headers → Option Bytes
unfolding find_keys lookup
last k match h = elim (find_keys k match h.entries) [
  | none ↦ none
  | some found ↦ some (of_first_key final found h.entries)
]

unfoldable pub has : Bytes → Match → Headers → Option Bool
unfolding find_keys
has k match h = elim (find_keys k match h.entries) [
  | none ↦ none
  | some found ↦ some (ltb 0 (length found))
]

-- `hasError`
abbrev pub has_error : Headers → Bool
has_error h = elim h.code [ pos n ↦ leb 300 n | negsuc n ↦ false ]
