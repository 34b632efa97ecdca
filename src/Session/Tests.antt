-- ===== src/Session/Tests.antt =====
-- A handler on a connection, and the theorems at inputs that meet their hypotheses.
use nats_deno.Base.{
  ℕ, ◌+◌, ◌≡◌, refl, true, false, none, some, List, [], ◌∷◌, ◌++◌, Bytes, codes, arith,
}
use nats_deno.DataBuffer.{new_data_buffer}
use nats_deno.DataBuffer.Laws.{contents}
use nats_deno.Parser.Args.{proto_parse_int}
use nats_deno.Parser.Frames.{Frame, ping, msg}
use nats_deno.Parser.Frames.RoundTrip.{AreFrames}
use nats_deno.Protocol.{Sub, find}
use nats_deno.Protocol.Deliver.{log_of, room, take_room, IsOpen}
use nats_deno.Semver.{version, new_features}
use nats_deno.Session.{
  Session, Options, authorization_violation, to_error, contains, starts, sub_commands,
}
use nats_deno.Session.Reconnect.{reconnect, reconnect_lem}
use nats_deno.Mux.Requests.{subscription}
use nats_deno.Session.Dispatch.{bodies, handle, handle-bodies}

abbrev digit_of : ℕ → Bytes
digit_of n = (b'0' + n) ∷ []

abbrev options : Options
options = record {
  show = digit_of;
  read_info = λ m. record {
    info = record { max_payload = 64; headers = true };
    version = version 2 10 0;
    connect_urls = [];
  };
  connect_line = λ i. codes "CONNECT {}\r\n";
  takes_updates = true;
  host_port = λ u. (u, u);
  is_ip = λ u. false;
  encrypted = false;
  ignore_abort = false;
  permission_of = λ m. none;
}

abbrev a_sub : Sub
a_sub = record {
  sid = 1;
  subject = codes "a";
  queue = none;
  request_subject = none;
  max = some 1;
  received = 0;
  no_iterator = true;
  finished = false;
}

abbrev lost : Session
lost = record {
  core = record {
    subs = a_sub ∷ [];
    sid_counter = 1;
    closed = false;
    connected = false;
    info_received = true;
    info = none;
    pending_limit = 64;
    outbound = new_data_buffer;
    sent = [];
    flush_queued = false;
    in_msgs = 0;
    in_bytes = 0;
    out_msgs = 0;
    out_bytes = 0;
    log = [];
    closed_subs = [];
  };
  pongs = 4 ∷ 5 ∷ [];
  resolved = [];
  rejected = [];
  features = new_features (version 2 9 0);
  servers = record {
    first_select = false;
    servers = [];
    current = none;
    tls_name = [];
    created = 0;
  };
  last_error = none;
  abort_reconnect = false;
  connect_error = none;
  disconnects = 0;
  sub_errors = [];
  mux = none;
  requests = record { base_inbox = codes "_I.x."; reqs = []; store = [] };
}

reads_error : to_error (codes "'Authorization Violation'") ≡ authorization_violation
unfolding to_error contains starts
reads_error = refl

reconnect_lem_example :
    ((reconnect options [] 6 (codes "PUB a 0\r\n\r\n" ∷ []) lost).core.sent
      ≡ codes "CONNECT {}\r\nPING\r\nSUB a 1\r\nPUB a 0\r\n\r\n")
    × (contents (reconnect options [] 6 (codes "PUB a 0\r\n\r\n" ∷ []) lost).core.outbound ≡ [])
    × ((reconnect options [] 6 (codes "PUB a 0\r\n\r\n" ∷ []) lost).core.subs ≡ a_sub ∷ [])
    × ((reconnect options [] 6 (codes "PUB a 0\r\n\r\n" ∷ []) lost).core.connected ≡ true)
    × ((reconnect options [] 6 (codes "PUB a 0\r\n\r\n" ∷ []) lost).rejected ≡ 4 ∷ 5 ∷ [])
    × ((reconnect options [] 6 (codes "PUB a 0\r\n\r\n" ∷ []) lost).resolved ≡ 6 ∷ [])
    × ((reconnect options [] 6 (codes "PUB a 0\r\n\r\n" ∷ []) lost).pongs ≡ [])
unfolding sub_commands
reconnect_lem_example = reconnect_lem options [] 6 (codes "PUB a 0\r\n\r\n" ∷ []) lost refl

abbrev two_messages : List Frame
two_messages =
    msg (codes "a") (codes "1") none (codes "1") (codes "x")
    ∷ ping
    ∷ msg (codes "a") (codes "1") none (codes "1") (codes "y")
    ∷ []

abbrev in_pieces : List Bytes
in_pieces = codes "MSG a 1 1\r\nx\r" ∷ codes "\nPING\r\nMSG a 1 1\r" ∷ codes "\ny\r\n" ∷ []

two_messages-AreFrames : AreFrames two_messages
unfolding proto_parse_int
two_messages-AreFrames = (
  (1, ground arith, (ground arith, refl), tt, (ground arith, refl)),
  (tt, ((1, ground arith, (ground arith, refl), tt, (ground arith, refl)), tt)),
)

sub-IsOpen : IsOpen (find 1 lost.core.subs)
unfolding find
sub-IsOpen = (refl, omega arith)

handle-bodies_example :
    log_of 1 (handle options in_pieces lost).core.log
    ≡ [] ++ take_room (room (find 1 lost.core.subs)) (bodies 1 two_messages)
handle-bodies_example =
    handle-bodies options 1 two_messages in_pieces lost two_messages-AreFrames (tt, (tt, (tt, tt)))
      refl (λ e. omega arith) sub-IsOpen

hands_one : take_room (room (find 1 lost.core.subs)) (bodies 1 two_messages) ≡ codes "x" ∷ []
unfolding find proto_parse_int
hands_one = refl

-- The server does not permit the only subscription.
abbrev forbidding : Options
forbidding = record options {
  permission_of =
      λ m. some (record { operation = subscription; subject = codes "a"; queue = none });
}

abbrev refusal : Bytes
refusal = codes "'Permissions Violation for Subscription to \"a\"'"
