-- ===== src/Servers/Tests.antt =====
-- A pool of three servers, and the theorems at inputs that meet their hypotheses.
use nats_deno.Base.{
  ℕ, ◌≡◌, refl, Bool, true, false, not, ◌&&◌, some, List, [], ◌∷◌, Bytes, codes, bytes_eq,
}
use nats_deno.Servers.{Server, Servers, among, discovered, without, sift, update}
use nats_deno.Servers.Laws.{AreNew, update-keeps}

abbrev known : ℕ → Bool → Bytes → Server
known id gossiped listen = record {
  id = id;
  listen = listen;
  hostname = listen;
  gossiped = gossiped;
  tls_name = [];
}

abbrev pool : Servers
pool = record {
  first_select = false;
  servers =
      known 0 false (codes "a:1") ∷ known 1 true (codes "b:1") ∷ known 2 true (codes "c:1") ∷ [];
  current = some (known 0 false (codes "a:1"));
  tls_name = [];
  created = 3;
}

abbrev as_is : Bytes → Bytes × Bytes
as_is u = (u, u)

abbrev never : Bytes → Bool
never u = false

updates_pool :
    (update as_is never (codes "c:1" ∷ codes "d:1" ∷ codes "a:1" ∷ []) pool).1.servers
    ≡ known 0 false (codes "a:1") ∷ known 2 true (codes "c:1") ∷ known 3 true (codes "d:1") ∷ []
unfolding update among without sift bytes_eq discovered
updates_pool = refl

abbrev new_urls : List Bytes
new_urls = codes "d:1" ∷ codes "a:1" ∷ []

update-keeps_example :
    ((update as_is never new_urls pool).0.deleted ≡ codes "c:1" ∷ codes "b:1" ∷ [])
    × ((u : Bytes)
        → among u (update as_is never new_urls pool).0.added
          ≡ among u new_urls && not (among u (codes "a:1" ∷ codes "b:1" ∷ codes "c:1" ∷ [])))
    × (new : List Server) × ((update as_is never new_urls pool).1.servers
        ≡ known 0 false (codes "a:1") ∷ new)
    × AreNew as_is (update as_is never new_urls pool).0.added new
unfolding among bytes_eq
update-keeps_example = update-keeps as_is never new_urls pool (refl, (refl, (refl, tt)))
