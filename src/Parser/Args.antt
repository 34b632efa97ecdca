-- ===== src/Parser/Args.antt =====
-- nats-base-client/parser.ts: `Kind`, `ParserEvent`, `MsgArg`, `State`, `Parser`'s fields, `fail`,
-- `protoParseInt`, `processMsgArgs` and `processHeaderMsgArgs`.
use nats_deno.Base.{
  ℕ, ◌+◌, ◌-◌, ◌*◌, Bool, true, ◌||◌, Option, none, some, List, [], ◌∷◌, ◌++◌, Bytes, ltb, ◌==◌,
  if◌then◌else◌,
}

pub data Kind : Type 0 where
  ok err msg info ping pong : Kind

pub record MsgArg : Type 0 where
  pub subject : Bytes
  pub reply : Option Bytes
  pub sid : Option ℕ
  pub hdr : Option ℕ
  pub size : Option ℕ

pub record ParserEvent : Type 0 where
  pub kind : Kind
  pub msg : Option MsgArg
  pub payload : Option Bytes

pub data State : Type 0 where
  op_start op_plus op_plus_o op_plus_ok : State
  op_minus op_minus_e op_minus_er op_minus_err op_minus_err_spc minus_err_arg : State
  op_m op_ms op_msg op_msg_spc msg_arg msg_payload msg_end op_h : State
  op_p op_pi op_pin op_ping op_po op_pon op_pong : State
  op_i op_in op_inf op_info op_info_spc info_arg : State

-- `as` and `drop` are words of the language or of lists here.
pub record Parser : Type 0 where
  pub state : State
  pub start : ℕ
  pub dropped : ℕ
  pub hdr : Option ℕ
  pub ma : MsgArg
  pub arg_buf : Option Bytes
  pub msg_buf : Option Bytes
  pub pushed : List ParserEvent

-- The labels of `fail`.
pub data Label : Type 0 where
  parse_error : Label
  msg_args_parse_error msg_args_bad_sid msg_args_bad_size : Label
  header_args_parse_error header_args_bad_sid header_args_bad_hdr header_args_bad_size : Label

-- A thrown `Error` is its label, the state in its text and the bytes in its text; the parser
-- keeps what it had changed before.
pub data Result {ℓ} (A : Type ℓ) : Type ℓ where
  ok : A → Result A
  thrown : Label → State → Bytes → Parser → Result A

infixl 5 ◌>>=◌
abbrev pub ◌>>=◌ {ℓ κ} : {A : Type ℓ} {B : Type κ} → Result A → (A → Result B) → Result B
Result.ok a >>= f = f a
thrown l s d p >>= f = thrown l s d p

abbrev pub fail {ℓ} : {A : Type ℓ} → Bytes → Label → Parser → Result A
fail bytes label p = thrown label p.state bytes p

abbrev pub new_msg_arg : MsgArg
new_msg_arg = record { subject = []; reply = none; sid = none; hdr = none; size = none }

-- `constructor`; `ma` is not set there, and is set before it is read.
abbrev pub new_parser : Parser
new_parser = record {
  state = op_start;
  start = 0;
  dropped = 0;
  hdr = some 0;
  ma = new_msg_arg;
  arg_buf = none;
  msg_buf = none;
  pushed = [];
}

unfoldable pub parse_int_from : ℕ → Bytes → Option ℕ
parse_int_from n [] = some n
parse_int_from n (c ∷ cs) =
    if ltb c b'0' || ltb b'9' c then none else parse_int_from (n * 10 + (c - b'0')) cs

unfoldable pub proto_parse_int : Bytes → Option ℕ
unfolding parse_int_from
proto_parse_int [] = none
proto_parse_int (c ∷ cs) = parse_int_from 0 (c ∷ cs)

abbrev pub is_separator : ℕ → Bool
is_separator b = b == b' ' || b == b'\t' || b == b'\r' || b == b'\n'

-- The loop that both argument parsers start with. `word` is `some w` while `start >= 0`, with `w`
-- the bytes from `start` to the loop's index.
unfoldable pub split_args_from : List Bytes → Option Bytes → Bytes → List Bytes
split_args_from args none [] = args
split_args_from args (some w) [] = args ++ w ∷ []
split_args_from args none (b ∷ bs) =
    split_args_from args (if is_separator b then none else some (b ∷ [])) bs
split_args_from args (some w) (b ∷ bs) =
    split_args_from (if is_separator b then args ++ w ∷ [] else args)
      (if is_separator b then none else some (w ++ b ∷ [])) bs

unfoldable pub split_args : Bytes → List Bytes
unfolding split_args_from
split_args arg = split_args_from [] none arg

-- `processMsgArgs`, behind its test for headers: the checks at its end.
unfoldable pub check_msg_args : Bytes → Parser → Result Parser
check_msg_args arg p = elim p.ma.sid [
  | none ↦ fail arg msg_args_bad_sid p
  | some _ ↦ elim p.ma.size [ none ↦ fail arg msg_args_bad_size p | some _ ↦ Result.ok p ]
]

abbrev pub set_args : Parser → Bytes → Option Bytes → Bytes → Option ℕ → Bytes → Parser
set_args p subject reply sid hdr size = record p {
  ma = record {
    subject = subject;
    reply = reply;
    sid = proto_parse_int sid;
    hdr = hdr;
    size = proto_parse_int size;
  };
}

unfoldable pub assign_msg_args : Bytes → List Bytes → Parser → Result Parser
unfolding check_msg_args
assign_msg_args arg (a ∷ b ∷ c ∷ []) p = check_msg_args arg (set_args p a none b p.ma.hdr c)
assign_msg_args arg (a ∷ b ∷ c ∷ d ∷ []) p = check_msg_args arg (set_args p a (some c) b p.ma.hdr d)
assign_msg_args arg _ p = fail arg msg_args_parse_error p

-- The checks at the end of `processHeaderMsgArgs`; a size of -1 is below every header size.
abbrev pub exceeds : ℕ → Option ℕ → Bool
exceeds h none = true
exceeds h (some size) = ltb size h

unfoldable pub check_hdr : Bytes → Option ℕ → Parser → Result Parser
check_hdr arg none p = fail arg header_args_bad_hdr p
check_hdr arg (some h) p =
    if exceeds h p.ma.size
    then fail arg header_args_bad_hdr p
    else elim p.ma.size [ none ↦ fail arg header_args_bad_size p | some _ ↦ Result.ok p ]

unfoldable pub check_header_args : Bytes → Parser → Result Parser
unfolding check_hdr
check_header_args arg p = elim p.ma.sid [
  | none ↦ fail arg header_args_bad_sid p
  | some _ ↦ check_hdr arg p.ma.hdr p
]

unfoldable pub assign_header_args : Bytes → List Bytes → Parser → Result Parser
unfolding check_header_args
assign_header_args arg (a ∷ b ∷ c ∷ d ∷ []) p =
    check_header_args arg (set_args p a none b (proto_parse_int c) d)
assign_header_args arg (a ∷ b ∷ c ∷ d ∷ e ∷ []) p =
    check_header_args arg (set_args p a (some c) b (proto_parse_int d) e)
assign_header_args arg _ p = fail arg header_args_parse_error p

unfoldable pub process_header_msg_args : Bytes → Parser → Result Parser
process_header_msg_args arg p = assign_header_args arg (split_args arg) p

-- `this.hdr >= 0` chooses the parser for messages with headers.
unfoldable pub process_msg_args : Bytes → Parser → Result Parser
process_msg_args arg p = elim p.hdr [
  | some _ ↦ process_header_msg_args arg p
  | none ↦ assign_msg_args arg (split_args arg) p
]
