-- ===== src/Servers.antt =====
-- nats-base-client/servers.ts: `Servers`, the pool that the client connects from. A server is named by
-- its place in the order of creation, as the code compares servers by reference. Parsing of a URL is
-- given: `parse` is the transport's parse function with `hostPort`, and `is_ip` is `isIP`.
pub mod Laws
mod Tests
use nats_deno.Base.{
  ℕ, suc, ◌+◌, length, Bool, true, false, not, ◌&&◌, Option, none, some, List, [], ◌∷◌, ◌++◌, Bytes,
  bytes_eq, ◌==◌, if◌then◌else◌,
}

pub record Server : Type 0 where
  pub id : ℕ
  pub listen : Bytes
  pub hostname : Bytes
  pub gossiped : Bool
  pub tls_name : Bytes

pub record Servers : Type 0 where
  pub first_select : Bool
  pub servers : List Server
  pub current : Option Server
  pub tls_name : Bytes
  pub created : ℕ

-- `selectServer`
unfoldable pub select_server : Servers → Option Server × Servers
select_server p =
    if p.first_select then (p.current, record p { first_select = false }) else elim p.servers [
      | [] ↦ (none, p)
      | t ∷ rest ↦ (some t, record p { servers = rest ++ t ∷ []; current = some t })
    ]

-- `splice(indexOf(server), 1)`: a server that is not there has the index -1, and the last one goes.
unfoldable pub drop_last : List Server → List Server
drop_last [] = []
drop_last (s ∷ []) = []
drop_last (s ∷ t ∷ rest) = s ∷ drop_last (t ∷ rest)

unfoldable pub has : ℕ → List Server → Bool
has id [] = false
has id (s ∷ rest) = if s.id == id then true else has id rest

unfoldable pub splice : ℕ → List Server → List Server
splice id [] = []
splice id (s ∷ rest) = if s.id == id then rest else s ∷ splice id rest

-- `removeServer`
unfoldable pub remove_server : Option Server → Servers → Servers
unfolding drop_last has splice
remove_server none p = p
remove_server (some s) p = record p {
  servers = if has s.id p.servers then splice s.id p.servers else drop_last p.servers;
}

-- `removeCurrentServer`
unfoldable pub remove_current_server : Servers → Servers
unfolding remove_server
remove_current_server p = remove_server p.current p

-- The addresses that an `INFO` reports, as the keys of the map `discovered`: each once, in order.
unfoldable pub among : Bytes → List Bytes → Bool
unfolding bytes_eq
among u [] = false
among u (v ∷ urls) = if bytes_eq v u then true else among u urls

unfoldable pub discovered : List Bytes → List Bytes → List Bytes
unfolding among
discovered seen [] = seen
discovered seen (u ∷ urls) = discovered (if among u seen then seen else seen ++ u ∷ []) urls

unfoldable pub without : Bytes → List Bytes → List Bytes
unfolding bytes_eq
without u [] = []
without u (v ∷ urls) = if bytes_eq v u then without u urls else v ∷ without u urls

abbrev pub is_current : Option Server → Bytes → Bool
is_current none u = false
is_current (some s) u = bytes_eq s.listen u

-- The loop over the servers in `update`: those that stay, the addresses of those that go, the last one
-- first, as the code deletes from the end, and what is left of `discovered`. A server that was met takes its address off, also one that goes.
unfoldable pub sift :
    Option Server → List Bytes → List Server → List Server × (List Bytes × List Bytes)
unfolding among without
sift current found [] = ([], ([], found))
sift current found (s ∷ rest) =
    let (stay, (go, left)) = sift current (without s.listen found) rest in
    if (s.gossiped && not (is_current current s.listen)) && not (among s.listen found)
    then (stay, (go ++ s.listen ∷ [], left))
    else (s ∷ stay, (go, left))

pub record Changed : Type 0 where
  pub added : List Bytes
  pub deleted : List Bytes

-- `host_port` gives what `hostPort` reads from an address with the runtime's URL class: the address to
-- connect to, and the host name.
module _ (host_port : Bytes → Bytes × Bytes) (is_ip : Bytes → Bool) where
  -- `new ServerImpl(u, gossiped)`
  abbrev pub new_server : Bytes → Bool → ℕ → Server
  new_server u gossiped id = record {
    id = id;
    listen = (host_port u).0;
    hostname = (host_port u).1;
    gossiped = gossiped;
    tls_name = [];
  }

  -- `addServer`
  unfoldable pub add_server : Bytes → Bool → Servers → Servers
  add_server u implicit p =
      let s = new_server u implicit p.created in
      let t = if is_ip s.hostname then record s { tls_name = p.tls_name } else s in
      record p { servers = p.servers ++ t ∷ []; created = suc p.created }

  -- The servers that `update` puts behind the others.
  unfoldable pub add_found : List Bytes → ℕ → List Server
  add_found [] id = []
  add_found (u ∷ urls) id = new_server u true id ∷ add_found urls (suc id)

  -- `update` with the addresses of `connect_urls`
  unfoldable pub update : List Bytes → Servers → Changed × Servers
  unfolding discovered sift add_found
  update urls p =
      let (stay, (go, left)) = sift p.current (discovered [] urls) p.servers in
      (
        record { added = left; deleted = go },
        record p { servers = stay ++ add_found left p.created; created = p.created + length left },
      )

  -- `updateTLSName` for a current server `s`
  unfoldable pub name_gossiped : Bytes → List Server → List Server
  name_gossiped name [] = []
  name_gossiped name (s ∷ rest) =
      (if s.gossiped then record s { tls_name = name } else s) ∷ name_gossiped name rest

  unfoldable pub update_tls_name : Server → Servers → Servers
  unfolding name_gossiped
  update_tls_name s p =
      if is_ip s.hostname
      then p
      else record p { tls_name = s.hostname; servers = name_gossiped s.hostname p.servers }
