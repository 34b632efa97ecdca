-- ===== src/Session.antt =====
-- nats-base-client/protocol.ts: the parts of `ProtocolHandler` that keep a connection: `push` of the
-- parser's events, pings and pongs, `processInfo`, `processError`, `prepare`, what `dial` does once it is
-- connected, `sendSubscriptions` and `flush`. A deferred is a number; `resolved` and `rejected` collect
-- those that are settled. What JSON and regular expressions read is given.
pub mod Deferreds
pub mod Reconnect
pub mod Dispatch
pub mod Errors
mod Tests
use nats_deno.Base.{
  ℕ, suc, ◌+◌, Bool, true, false, not, ◌&&◌, ◌||◌, Option, none, some, List, [], ◌∷◌, ◌++◌, Bytes,
  codes, bytes_eq, length, leb, ◌==◌, if◌then◌else◌,
}
use nats_deno.Parser.Args.{Kind, MsgArg, ParserEvent}
use nats_deno.DataBuffer.{new_data_buffer, fill}
use nats_deno.Semver.{SemVer, Features}
use nats_deno.Semver
use nats_deno.Servers.{Servers}
use nats_deno.Servers
use nats_deno.Protocol.{Sub, Info, Protocol, process_msg, flush_pending, cancel, sub_command}
use nats_deno.Mux.Requests.{Operation, publish, subscription, permission, Mux}
use nats_deno.Mux.Table

-- The codes that `toError` gives.
pub data Code : Type 0 where
  permissions_violation authorization_violation authentication_expired : Code
  account_expired authentication_timeout protocol_error : Code

pub record Session : Type 0 where
  pub core : Protocol
  pub pongs : List ℕ
  pub resolved : List ℕ
  pub rejected : List ℕ
  pub features : Features
  pub servers : Servers
  pub last_error : Option Code
  pub abort_reconnect : Bool
  -- The deferred that `connectError` rejects.
  pub connect_error : Option ℕ
  pub disconnects : ℕ
  -- The sids of the subscriptions whose callback got an error.
  pub sub_errors : List ℕ
  -- The subject of the subscription of requests, and `muxSubscriptions`.
  pub mux : Option Bytes
  pub requests : Mux

-- `permissionContext`
pub record Context : Type 0 where
  pub operation : Operation
  pub subject : Bytes
  pub queue : Option Bytes

-- What an `INFO` says, read by `JSON.parse` and `parseSemVer`.
pub record ServerInfo : Type 0 where
  pub info : Info
  pub version : SemVer
  pub connect_urls : List Bytes

abbrev pub lower : Bytes → Bytes
lower [] = []
lower (c ∷ s) = (if leb b'A' c && leb c b'Z' then c + 32 else c) ∷ lower s

unfoldable pub starts : Bytes → Bytes → Bool
starts [] s = true
starts (c ∷ t) [] = false
starts (c ∷ t) (d ∷ s) = if c == d then starts t s else false

-- `s.indexOf(t) !== -1`
unfoldable pub contains : Bytes → Bytes → Bool
unfolding starts
contains t [] = starts t []
contains t (c ∷ s) = starts t (c ∷ s) || contains t s

-- `toError`
unfoldable pub to_error : Bytes → Code
unfolding contains
to_error s =
    if contains (codes "permissions violation") (lower s)
    then permissions_violation
    else if contains (codes "authorization violation") (lower s)
    then authorization_violation
    else if contains (codes "user authentication expired") (lower s)
    then authentication_expired
    else if contains (codes "account authentication expired") (lower s)
    then account_expired
    else if contains (codes "authentication timeout") (lower s)
    then authentication_timeout
    else protocol_error

-- `isAuthError`
abbrev pub is_auth_error : Code → Bool
is_auth_error authorization_violation = true
is_auth_error authentication_expired = true
is_auth_error account_expired = true
is_auth_error _ = false

abbrev pub same_code : Code → Code → Bool
same_code permissions_violation permissions_violation = true
same_code authorization_violation authorization_violation = true
same_code authentication_expired authentication_expired = true
same_code account_expired account_expired = true
same_code authentication_timeout authentication_timeout = true
same_code protocol_error protocol_error = true
same_code _ _ = false

-- `handleAuthError`; `ignore_abort` is `options.ignoreAuthErrorAbort === false`.
unfoldable pub handle_auth_error : Bool → Code → Session → Session
handle_auth_error ignore_abort c s =
    let again : Bool = elim s.last_error [ none ↦ false | some d ↦ same_code c d ] in
    let t = if again && ignore_abort then record s { abort_reconnect = true } else s in
    elim t.connect_error [
      | some d ↦ record t { rejected = t.rejected ++ d ∷ [] }
      | none ↦ record t { disconnects = suc t.disconnects }
    ]

-- `handleError`
unfoldable pub handle_error : Bool → Code → Session → Session
unfolding handle_auth_error
handle_error ignore_abort c s =
    let t = if is_auth_error c then handle_auth_error ignore_abort c s else s in
    if same_code c permissions_violation then t else record t { last_error = some c }

-- The test `===` of two texts that may be missing
abbrev pub same_text : Option Bytes → Option Bytes → Bool
same_text none none = true
same_text (some a) (some b) = bytes_eq a b
same_text _ _ = false

-- The subscription that a context is about: the first with its subject and queue, or the first that stands
-- for a request to its subject.
abbrev pub concerns : Context → Sub → Bool
concerns c u = elim c.operation [
  | subscription ↦ bytes_eq u.subject c.subject && same_text u.queue c.queue
  | publish ↦ same_text u.request_subject (some c.subject)
]

unfoldable pub concerned : Context → List Sub → Option Sub
unfolding bytes_eq
concerned c [] = none
concerned c (u ∷ subs) = if concerns c u then some u else concerned c subs

-- `handleError` of `Subscriptions`
unfoldable pub refuse : Context → Session → Session
unfolding concerned cancel
refuse c s = elim (concerned c s.core.subs) [
  | none ↦ s
  | some u ↦ record s { core = cancel u.sid s.core; sub_errors = s.sub_errors ++ u.sid ∷ [] }
]

-- `processError` of a permission error
unfoldable pub permission_error : Option Context → Session → Session
unfolding refuse Table.handle_error
permission_error none s = s
permission_error (some c) s =
    let is_mux : Bool = elim s.mux [ none ↦ false | some m ↦ bytes_eq m c.subject ] in
    let t = refuse c s in
    record t {
      requests = (Table.handle_error is_mux (some (permission c.operation c.subject)) t.requests).1;
      mux = if is_mux then none else t.mux;
    }

-- `transport.send`
abbrev pub send : Bytes → Session → Session
send bytes s = record s { core = record s.core { sent = s.core.sent ++ bytes } }

-- `processPing` and `processPong`
unfoldable pub process_ping : Session → Session
process_ping s = send (codes "PONG\r\n") s

unfoldable pub process_pong : Session → Session
process_pong s = elim s.pongs [
  | [] ↦ s
  | d ∷ rest ↦ record s { pongs = rest; resolved = s.resolved ++ d ∷ [] }
]

module _ (show : ℕ → Bytes) where
  -- `processMsg` of an event
  unfoldable pub receive : Option MsgArg → Option Bytes → Session → Session
  receive msg payload s =
      let body : Bytes = elim payload [ none ↦ [] | some b ↦ b ] in
      let sid : Option ℕ = elim msg [ none ↦ none | some m ↦ m.sid ] in
      elim sid [
        | none ↦ record s {
          core = record s.core {
            in_msgs = s.core.in_msgs + 1;
            in_bytes = s.core.in_bytes + length body;
          };
        }
        | some k ↦ record s { core = process_msg show k body s.core }
      ]

  -- The commands that `sendSubscriptions` joins.
  unfoldable pub sub_commands : List Sub → Bytes
  sub_commands [] = []
  sub_commands (s ∷ subs) = sub_command show s ++ sub_commands subs

  -- `sendSubscriptions`
  unfoldable pub send_subscriptions : Session → Session
  unfolding sub_commands
  send_subscriptions s = elim s.core.subs [ [] ↦ s | t ∷ subs ↦ send (sub_commands (t ∷ subs)) s ]

-- `resetOutbound`, without the new parser
unfoldable pub reset_outbound : Session → Session
reset_outbound s = record s {
  core = record s.core { outbound = new_data_buffer; info_received = false };
  pongs = [];
  rejected = s.rejected ++ s.pongs;
}

-- `prepare`; `d` is the new deferred.
unfoldable pub prepare : ℕ → Session → Session
unfolding reset_outbound
prepare d s =
    let t = reset_outbound (record s { core = record s.core { info = none } }) in
    record t { pongs = d ∷ t.pongs; connect_error = some d }

-- `closed` of the transport
unfoldable pub transport_closed : Session → Session
transport_closed s = record s { core = record s.core { connected = false } }

-- `flush`; `d` is the deferred.
unfoldable pub flush : ℕ → Session → Session
flush d s =
    let c = record s.core { outbound = fill (codes "PING\r\n") [] s.core.outbound } in
    record s { pongs = s.pongs ++ d ∷ []; core = flush_pending c }

-- `dial` behind its pong
unfoldable pub dialed : (ℕ → Bytes) → Session → Session
unfolding send_subscriptions
dialed show s =
    let t =
      send_subscriptions show
        (record s { core = record s.core { connected = true }; connect_error = none }) in
    record t { core = flush_pending t.core }

-- What the handler is set up with: the reading of an `INFO`, the `CONNECT` that answers it, whether
-- updates of the pool are taken, the address parser of the pool, and the option on repeated errors.
pub record Options : Type 0 where
  pub show : ℕ → Bytes
  pub read_info : Bytes → ServerInfo
  pub connect_line : ServerInfo → Bytes
  pub takes_updates : Bool
  pub host_port : Bytes → Bytes × Bytes
  pub is_ip : Bytes → Bool
  pub encrypted : Bool
  pub ignore_abort : Bool
  -- What the regular expressions of `toError` read from a permission error.
  pub permission_of : Bytes → Option Context

-- `processError`, without the listeners of the status
unfoldable pub process_error : Options → Bytes → Session → Session
unfolding handle_error to_error permission_error
process_error o text s =
    let t =
      if same_code (to_error text) permissions_violation
      then permission_error (o.permission_of text) s
      else s in
    handle_error o.ignore_abort (to_error text) t

-- `processInfo`
unfoldable pub process_info : Options → Bytes → Session → Session
process_info o m s =
    let i = o.read_info m in
    let a = record s {
      core = record s.core { info = some i.info };
      servers =
          if o.takes_updates
          then (Servers.update o.host_port o.is_ip i.connect_urls s.servers).1
          else s.servers;
    } in
    if a.core.info_received
    then a
    else (let pool : Servers = elim a.servers.current [
      | none ↦ a.servers
      | some c ↦
          if o.encrypted then Servers.update_tls_name o.host_port o.is_ip c a.servers else a.servers
    ] in
        send (o.connect_line i ++ codes "PING\r\n") (record a {
          features = Semver.update i.version a.features;
          servers = pool;
          core = record a.core { info_received = true };
        }))

-- `push` of a parser's event
unfoldable pub push : Options → ParserEvent → Session → Session
unfolding receive process_ping process_pong process_info process_error
push o e s =
    let text : Bytes = elim e.payload [ none ↦ [] | some b ↦ b ] in
    elim e.kind [
      | Kind.msg ↦ receive o.show e.msg e.payload s
      | Kind.ok ↦ s
      | Kind.err ↦ process_error o text s
      | Kind.ping ↦ process_ping s
      | Kind.pong ↦ process_pong s
      | Kind.info ↦ process_info o text s
    ]

unfoldable pub push_all : Options → List ParserEvent → Session → Session
unfolding push
push_all o [] s = s
push_all o (e ∷ es) s = push_all o es (push o e s)
