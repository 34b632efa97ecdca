-- ===== src/Semver/Laws.antt =====
-- The order of versions, and what is supported.
use nats_deno.Base.{◌≡◌, ◌↔◌, arith}
use nats_deno.Semver.{
  SemVer, before, same, after, compare, Feature, js_kv, js_objectstore, js_pull_max_bytes,
  js_new_consumer_create_api, js_allow_direct, js_simplification, js_batch_direct_get, Features,
  version, update, new_features, reset_disabled, disable,
}

-- `compare` is a total order on versions: it is 0 for equal versions alone, turned round it gives the
-- opposite, and it is transitive.
pub compare-order :
    (a b c : SemVer)
    → ((compare a b ≡ same) ↔ (a ≡ b))
      × ((compare a b ≡ before) ↔ (compare b a ≡ after))
      × (compare a b ≡ before → compare b c ≡ before → compare a c ≡ before)
unfolding compare
compare-order a b c = ((to, from), (ground arith, ground arith), ground arith)
  where
    to : compare a b ≡ same → a ≡ b
    to h = ground arith

    from : a ≡ b → compare a b ≡ same
    from h = ground arith

-- The version from which on a feature is there.
unfoldable pub required : Feature → SemVer
required js_kv = version 2 6 2
required js_objectstore = version 2 6 3
required js_pull_max_bytes = version 2 8 3
required js_simplification = version 2 9 4
required js_new_consumer_create_api = version 2 9 0
required js_allow_direct = version 2 9 0
required js_batch_direct_get = version 2 11 0
required _ = version 2 10 0

-- The states that the calls make out of a new one.
pub data Reach : Features → Type 0 where
  starts : (v : SemVer) → Reach (new_features v)
  updates : {fs : Features} (v : SemVer) → Reach fs → Reach (update v fs)
  disables : {fs : Features} (f : Feature) → Reach fs → Reach (disable f fs)
  resets : {fs : Features} → Reach fs → Reach (reset_disabled fs)
