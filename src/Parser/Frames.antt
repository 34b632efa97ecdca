-- ===== src/Parser/Frames.antt =====
-- The operations of the server as they are written on the wire, and the events that they stand for.
pub mod Words
mod Lines
pub mod RoundTrip
use mathlib.Core.List.{append-nil, append_assoc}
use nats_deno.Base.{
  ℕ, suc, ◌+◌, ◌≤◌, ◌≡◌, ◌≢◌, refl, sym, ap, ◌∙◌, ◌⊎◌, inl, inr, Bool, true, false, Option, none,
  some, List, [], ◌∷◌, ◌++◌, Bytes, length, ◌==◌, if◌then◌else◌, arith, codes, Bool-cases,
}
use nats_deno.Parser.Args.{
  Kind, State, op_start, msg_arg, msg_payload, msg_end, MsgArg, ParserEvent, Parser, Result,
  is_separator, split_args, split_args_from, proto_parse_int, process_msg_args,
  process_header_msg_args, assign_msg_args, assign_header_args, new_msg_arg, set_args,
}
use nats_deno.Parser.Stream.{Stream, next, feed, run, bare_parser, new_stream, wanted}
use Words.{IsToken, spaced}

-- Numbers stand as their digits. The payload of `hmsg` is the headers and the data.
pub data Frame : Type 0 where
  ping pong ok : Frame
  err info : Bytes → Frame
  msg : (subject sid : Bytes) → (reply : Option Bytes) → (size payload : Bytes) → Frame
  hmsg : (subject sid : Bytes) → (reply : Option Bytes) → (hdr size payload : Bytes) → Frame

abbrev pub crlf : Bytes
crlf = b'\r' ∷ b'\n' ∷ []

abbrev pub with_reply : Option Bytes → List Bytes → List Bytes
with_reply none args = args
with_reply (some reply) args = reply ∷ args

abbrev pub msg_line : Bytes → Bytes → Option Bytes → Bytes → Bytes
msg_line subject sid reply size = spaced subject (sid ∷ with_reply reply (size ∷ []))

abbrev pub hmsg_line : Bytes → Bytes → Option Bytes → Bytes → Bytes → Bytes
hmsg_line subject sid reply hdr size = spaced subject (sid ∷ with_reply reply (hdr ∷ size ∷ []))

abbrev pub wire : Frame → Bytes
wire ping = codes "PING" ++ crlf
wire pong = codes "PONG" ++ crlf
wire ok = codes "+OK" ++ crlf
wire (err text) = codes "-ERR " ++ (text ++ crlf)
wire (info text) = codes "INFO " ++ (text ++ crlf)
wire (msg subject sid reply size payload) =
    codes "MSG " ++ (msg_line subject sid reply size ++ (crlf ++ (payload ++ crlf)))
wire (hmsg subject sid reply hdr size payload) =
    codes "HMSG " ++ (hmsg_line subject sid reply hdr size ++ (crlf ++ (payload ++ crlf)))

-- At least one byte, no blank in front, and no end of line inside.
abbrev pub IsLine : Bytes → Type 0
IsLine [] = Unit
IsLine (b ∷ bs) = (b ≢ b'\r') × (b ≢ b'\n') × IsLine bs

abbrev pub IsText : Bytes → Type 0
IsText [] = ⊥
IsText (b ∷ bs) = (b ≢ b' ') × (b ≢ b'\t') × IsLine (b ∷ bs)

abbrev pub IsReply : Option Bytes → Type 0
IsReply none = Unit
IsReply (some reply) = IsToken reply

abbrev IsNumber : Bytes → ℕ → Type 0
IsNumber digits n = IsToken digits × (proto_parse_int digits ≡ some n)

-- What a server may send.
abbrev pub IsFrame : Frame → Type 0
IsFrame ping = Unit
IsFrame pong = Unit
IsFrame ok = Unit
IsFrame (err text) = IsText text
IsFrame (info text) = IsText text
IsFrame (msg subject sid reply size payload) =
    (s : ℕ) × IsToken subject × IsNumber sid s × IsReply reply × IsNumber size (length payload)
IsFrame (hmsg subject sid reply hdr size payload) =
    (s : ℕ) × (h : ℕ) × IsToken subject
    × IsNumber sid s
    × IsReply reply
    × IsNumber hdr h
    × IsNumber size (length payload)
    × (h ≤ length payload)

abbrev pub msg_arg_of : Bytes → Bytes → Option Bytes → Option ℕ → Bytes → MsgArg
msg_arg_of subject sid reply hdr size = record {
  subject = subject;
  reply = reply;
  sid = proto_parse_int sid;
  hdr = hdr;
  size = proto_parse_int size;
}

abbrev plain : Kind → Option Bytes → ParserEvent
plain kind payload = record { kind = kind; msg = none; payload = payload }

abbrev pub event_of : Frame → ParserEvent
event_of ping = plain Kind.ping none
event_of pong = plain Kind.pong none
event_of ok = plain Kind.ok none
event_of (err text) = plain Kind.err (some text)
event_of (info text) = plain Kind.info (some text)
event_of (msg subject sid reply size payload) = record {
  kind = Kind.msg;
  msg = some (msg_arg_of subject sid reply none size);
  payload = some payload;
}
event_of (hmsg subject sid reply hdr size payload) = record {
  kind = Kind.msg;
  msg = some (msg_arg_of subject sid reply (proto_parse_int hdr) size);
  payload = some payload;
}

-- The fields of the parser that an operation leaves behind.
abbrev pub hdr_after : Frame → Option ℕ → Option ℕ
hdr_after (msg _ _ _ _ _) h = none
hdr_after (hmsg _ _ _ _ _ _) h = some 0
hdr_after _ h = h

abbrev pub ma_after : Frame → MsgArg → MsgArg
ma_after (msg subject sid reply size _) ma = msg_arg_of subject sid reply none size
ma_after (hmsg subject sid reply hdr size _) ma =
    msg_arg_of subject sid reply (proto_parse_int hdr) size
ma_after _ ma = ma

-- Between two operations.
abbrev pub idle : Option ℕ → MsgArg → List ParserEvent → Stream
idle hdr ma pushed = record {
  state = op_start;
  hdr = hdr;
  ma = ma;
  acc = [];
  cr = false;
  pushed = pushed;
}
