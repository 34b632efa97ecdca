-- ===== src/Semver.antt =====
-- nats-base-client/semver.ts: `compare`, and `Features`, what the server's version makes available. A
-- version is given by its three numbers; `parseSemVer`, a regular expression, is not modelled. The map
-- of features is a function of the feature's name.
pub mod Laws
mod Tests
use nats_deno.Base.{
  ℕ, Bool, true, false, not, ◌||◌, Option, none, some, List, [], ◌∷◌, ◌++◌, Bytes, codes, bytes_eq,
  ltb, if◌then◌else◌,
}

pub record SemVer : Type 0 where
  pub major : ℕ
  pub minor : ℕ
  pub micro : ℕ

-- The results -1, 0 and 1 of `compare`.
pub data Order : Type 0 where
  before same after : Order

unfoldable pub compare : SemVer → SemVer → Order
compare a b =
    if ltb a.major b.major
    then before
    else if ltb b.major a.major
    then after
    else if ltb a.minor b.minor
    then before
    else if ltb b.minor a.minor
    then after
    else if ltb a.micro b.micro
    then before
    else if ltb b.micro a.micro
    then after
    else same

-- `compare(a, b) >= 0`
abbrev pub at_least : SemVer → SemVer → Bool
at_least a b = elim (compare a b) [ before ↦ false | same ↦ true | after ↦ true ]

pub data Feature : Type 0 where
  js_kv js_objectstore js_pull_max_bytes js_new_consumer_create_api js_allow_direct : Feature
  js_multiple_consumer_filter js_simplification js_stream_consumer_metadata : Feature
  js_consumer_filter_subjects js_stream_first_seq js_stream_subject_transform : Feature
  js_stream_source_subject_transform js_stream_compression js_default_consumer_limits : Feature
  js_batch_direct_get : Feature

-- The string that a feature is, as a key of the map.
unfoldable pub key : Feature → Bytes
key js_kv = codes "js_kv"
key js_objectstore = codes "js_objectstore"
key js_pull_max_bytes = codes "js_pull_max_bytes"
key js_new_consumer_create_api = codes "js_new_consumer_create"
key js_allow_direct = codes "js_allow_direct"
key js_multiple_consumer_filter = codes "js_multiple_consumer_filter"
key js_simplification = codes "js_simplification"
key js_stream_consumer_metadata = codes "js_stream_consumer_metadata"
key js_consumer_filter_subjects = codes "js_consumer_filter_subjects"
key js_stream_first_seq = codes "js_stream_first_seq"
key js_stream_subject_transform = codes "js_stream_subject_transform"
key js_stream_source_subject_transform = codes "js_stream_source_subject_transform"
key js_stream_compression = codes "js_stream_compression"
key js_default_consumer_limits = codes "js_default_consumer_limits"
key js_batch_direct_get = codes "js_batch_direct_get"

unfoldable pub same_feature : Feature → Feature → Bool
unfolding key bytes_eq
same_feature f g = bytes_eq (key f) (key g)

-- `min` is `none` for "unknown".
pub record FeatureVersion : Type 0 where
  pub ok : Bool
  pub min : Option SemVer

pub record Features : Type 0 where
  pub server : SemVer
  pub features : Feature → Option FeatureVersion
  pub disabled : List Feature

-- `set`
unfoldable pub set : Feature → SemVer → Features → Features
unfolding same_feature compare
set f requires fs = record fs {
  features = λ g.
      if same_feature f g
      then some (record { ok = at_least fs.server requires; min = some requires })
      else fs.features g;
}

abbrev pub version : ℕ → ℕ → ℕ → SemVer
version a b c = record { major = a; minor = b; micro = c }

-- The calls of `set` in `update`.
abbrev pub table : List (Feature × SemVer)
table =
    (js_kv, version 2 6 2)
    ∷ (js_objectstore, version 2 6 3)
    ∷ (js_pull_max_bytes, version 2 8 3)
    ∷ (js_new_consumer_create_api, version 2 9 0)
    ∷ (js_allow_direct, version 2 9 0)
    ∷ (js_multiple_consumer_filter, version 2 10 0)
    ∷ (js_simplification, version 2 9 4)
    ∷ (js_stream_consumer_metadata, version 2 10 0)
    ∷ (js_consumer_filter_subjects, version 2 10 0)
    ∷ (js_stream_first_seq, version 2 10 0)
    ∷ (js_stream_subject_transform, version 2 10 0)
    ∷ (js_stream_source_subject_transform, version 2 10 0)
    ∷ (js_stream_compression, version 2 10 0)
    ∷ (js_default_consumer_limits, version 2 10 0)
    ∷ (js_batch_direct_get, version 2 11 0)
    ∷ []

unfoldable pub set_each : List (Feature × SemVer) → Features → Features
set_each [] fs = fs
set_each ((f, v) ∷ rest) fs = set_each rest (set f v fs)

unfoldable pub delete_each : List Feature → Features → Features
delete_each [] fs = fs
delete_each (f ∷ rest) fs =
    delete_each rest
      (record fs { features = λ g. if same_feature f g then none else fs.features g })

-- `update`
unfoldable pub update : SemVer → Features → Features
unfolding set_each delete_each
update v fs =
    let set_up = set_each table (record fs { server = v }) in delete_each set_up.disabled set_up

unfoldable pub new_features : SemVer → Features
unfolding update
new_features v = update v (record { server = v; features = λ g. none; disabled = [] })

-- `resetDisabled` and `disable`
unfoldable pub reset_disabled : Features → Features
unfolding update
reset_disabled fs = update fs.server (record fs { disabled = [] })

unfoldable pub disable : Feature → Features → Features
unfolding update
disable f fs = update fs.server (record fs { disabled = fs.disabled ++ f ∷ [] })

unfoldable pub is_disabled_in : Feature → List Feature → Bool
is_disabled_in f [] = false
is_disabled_in f (g ∷ rest) = same_feature g f || is_disabled_in f rest

-- `isDisabled`
abbrev pub is_disabled : Feature → Features → Bool
is_disabled f fs = is_disabled_in f fs.disabled

-- `get` and `supports`
unfoldable pub get : Feature → Features → FeatureVersion
get f fs = elim (fs.features f) [ none ↦ record { ok = false; min = none } | some v ↦ v ]

unfoldable pub supports : Feature → Features → Bool
unfolding get
supports f fs = (get f fs).ok

-- `require`
unfoldable pub require : SemVer → Features → Bool
unfolding compare
require v fs = at_least fs.server v
