-- ===== src/Parser/Stream.antt =====
-- A description of the protocol with no buffers and no indices: one byte at a time, over the whole
-- stream. `Parser/Chunks` shows that `Parser.parse` follows it, however the stream is cut.
use nats_deno.Base.{
  ℕ, Bool, true, false, ◌||◌, Option, none, some, [], ◌∷◌, ◌++◌, List, Bytes, length, leb, ◌==◌,
  if◌then◌else◌,
}
use nats_deno.Parser.Args.{
  Kind, MsgArg, ParserEvent, State, op_start, op_plus, op_plus_o, op_plus_ok, op_minus, op_minus_e,
  op_minus_er, op_minus_err, op_minus_err_spc, minus_err_arg, op_m, op_ms, op_msg, op_msg_spc,
  msg_arg, msg_payload, msg_end, op_h, op_p, op_pi, op_pin, op_ping, op_po, op_pon, op_pong, op_i,
  op_in, op_inf, op_info, op_info_spc, info_arg, Parser, Label, parse_error, Result, thrown,
  new_msg_arg, process_msg_args,
}

-- What has been read: `acc` holds the bytes of an argument or of a payload, `cr` says that a
-- carriage return was the last byte of an argument.
pub record Stream : Type 0 where
  pub state : State
  pub hdr : Option ℕ
  pub ma : MsgArg
  pub acc : Bytes
  pub cr : Bool
  pub pushed : List ParserEvent

abbrev pub new_stream : Stream
new_stream = record {
  state = op_start;
  hdr = some 0;
  ma = new_msg_arg;
  acc = [];
  cr = false;
  pushed = [];
}

-- `stray` is a carriage return inside an argument.
pub data Outcome : Type 0 where
  next : Stream → Outcome
  fails : Label → Stream → Outcome
  stray : Outcome

-- What a state reads.
pub data Reads : Type 0 where
  start : Reads
  letters : (upper lower : ℕ) → State → Reads
  ping_pong : Reads
  blank : State → Reads
  skip : State → Reads
  args : Reads
  text : Kind → Reads
  payload : Reads
  ending : Reads
  newline : Kind → Reads

abbrev pub reads : State → Reads
reads op_start = start
reads op_h = letters b'M' b'm' op_m
reads op_m = letters b'S' b's' op_ms
reads op_ms = letters b'G' b'g' op_msg
reads op_msg = blank op_msg_spc
reads op_msg_spc = skip msg_arg
reads msg_arg = args
reads msg_payload = payload
reads msg_end = ending
reads op_plus = letters b'O' b'o' op_plus_o
reads op_plus_o = letters b'K' b'k' op_plus_ok
reads op_plus_ok = newline Kind.ok
reads op_minus = letters b'E' b'e' op_minus_e
reads op_minus_e = letters b'R' b'r' op_minus_er
reads op_minus_er = letters b'R' b'r' op_minus_err
reads op_minus_err = blank op_minus_err_spc
reads op_minus_err_spc = skip minus_err_arg
reads minus_err_arg = text Kind.err
reads op_p = ping_pong
reads op_po = letters b'N' b'n' op_pon
reads op_pon = letters b'G' b'g' op_pong
reads op_pong = newline Kind.pong
reads op_pi = letters b'N' b'n' op_pin
reads op_pin = letters b'G' b'g' op_ping
reads op_ping = newline Kind.ping
reads op_i = letters b'N' b'n' op_in
reads op_in = letters b'F' b'f' op_inf
reads op_inf = letters b'O' b'o' op_info
reads op_info = blank op_info_spc
reads op_info_spc = skip info_arg
reads info_arg = text Kind.info

abbrev either : ℕ → ℕ → ℕ → Bool
either b upper lower = b == upper || b == lower

-- The first byte of an operation.
feed_start : ℕ → Stream → Outcome
feed_start b s =
    if either b b'M' b'm'
    then next (record s { state = op_m; hdr = none; ma = new_msg_arg })
    else if either b b'H' b'h'
    then next (record s { state = op_h; hdr = some 0; ma = new_msg_arg })
    else if either b b'P' b'p'
    then next (record s { state = op_p })
    else if b == b'+'
    then next (record s { state = op_plus })
    else if b == b'-'
    then next (record s { state = op_minus })
    else if either b b'I' b'i'
    then next (record s { state = op_i })
    else fails parse_error s

-- A byte of an argument; `done` says what the newline does.
feed_text : (Stream → Outcome) → ℕ → Stream → Outcome
feed_text done b s =
    if b == b'\n'
    then done s
    else if s.cr
    then stray
    else if b == b'\r'
    then next (record s { cr = true })
    else next (record s { acc = s.acc ++ b ∷ [] })

abbrev pub bare_parser : State → Option ℕ → MsgArg → Parser
bare_parser state hdr ma = record {
  state = state;
  start = 0;
  dropped = 0;
  hdr = hdr;
  ma = ma;
  arg_buf = none;
  msg_buf = none;
  pushed = [];
}

unfoldable pub take_args : Stream → Outcome
take_args s = elim (process_msg_args s.acc (bare_parser s.state s.hdr s.ma)) [
  | Result.ok q ↦ next (record s { state = msg_payload; ma = q.ma; acc = []; cr = false })
  | thrown label _ _ q ↦ fails label (record s { ma = q.ma })
]

abbrev push : Kind → Option MsgArg → Option Bytes → Stream → Stream
push kind msg body s = record s {
  state = op_start;
  acc = [];
  cr = false;
  pushed = s.pushed ++ (record { kind = kind; msg = msg; payload = body } ∷ []);
}

abbrev pub wanted : MsgArg → ℕ
wanted ma = elim ma.size [ none ↦ 0 | some n ↦ n ]

-- The byte behind a full payload ends the message and is not looked at.
feed_payload : ℕ → Stream → Outcome
feed_payload b s =
    if leb (wanted s.ma) (length s.acc)
    then next (record (push Kind.msg (some s.ma) (some s.acc) s) { state = msg_end })
    else next (record s { acc = s.acc ++ b ∷ [] })

unfoldable pub feed_as : Reads → ℕ → Stream → Outcome
unfolding feed_start feed_text take_args feed_payload
feed_as start b s = feed_start b s
feed_as (letters upper lower to) b s =
    if either b upper lower then next (record s { state = to }) else fails parse_error s
feed_as ping_pong b s =
    if either b b'I' b'i'
    then next (record s { state = op_pi })
    else if either b b'O' b'o'
    then next (record s { state = op_po })
    else fails parse_error s
feed_as (blank to) b s =
    if either b b' ' b'\t' then next (record s { state = to }) else fails parse_error s
feed_as (skip to) b s =
    if either b b' ' b'\t' then next s else next (record s { state = to; acc = b ∷ []; cr = false })
feed_as args b s = feed_text take_args b s
feed_as (text kind) b s = feed_text (λ t. next (push kind none (some t.acc) t)) b s
feed_as payload b s = feed_payload b s
feed_as ending b s = if b == b'\n' then next (record s { state = op_start }) else next s
feed_as (newline kind) b s = if b == b'\n' then next (push kind none none s) else next s

unfoldable pub feed : ℕ → Stream → Outcome
unfolding feed_as
feed b s = feed_as (reads s.state) b s

infixl 5 ◌>>=◌
abbrev pub ◌>>=◌ : Outcome → (Stream → Outcome) → Outcome
next s >>= f = f s
fails l s >>= f = fails l s
stray >>= f = stray

unfoldable pub run : Stream → Bytes → Outcome
run s [] = next s
run s (b ∷ bs) = do t ← feed b s; run t bs
