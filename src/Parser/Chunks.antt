-- ===== src/Parser/Chunks.antt =====
-- The abstraction function from a `Parser` inside a buffer to the stream that it has read.
mod Frame
pub mod Absorb
mod Step
pub mod Refine
use nats_deno.Base.{
  ℕ, suc, ◌+◌, ◌-◌, ◌≤◌, ◌<◌, ◌≡◌, ◌≢◌, refl, ◌⊎◌, inl, inr, Bool, true, false, Option, none, some,
  List, [], ◌∷◌, ◌++◌, Bytes, get_elem?, length, ◌==◌, arith,
}
use nats_deno.Base.Slices.{slice, slice-suc, slice_self}
use nats_deno.Parser.Args.{
  Kind, MsgArg, ParserEvent, State, op_start, op_plus, op_plus_o, op_plus_ok, op_minus, op_minus_e,
  op_minus_er, op_minus_err, op_minus_err_spc, minus_err_arg, op_m, op_ms, op_msg, op_msg_spc,
  msg_arg, msg_payload, msg_end, op_h, op_p, op_pi, op_pin, op_ping, op_po, op_pon, op_pong, op_i,
  op_in, op_inf, op_info, op_info_spc, info_arg, Parser, Label, parse_error, Result, thrown,
  new_msg_arg, process_msg_args,
}
use nats_deno.Parser.Machine.{arg_of, held, size_of, step_in}
use nats_deno.Parser.Stream.{Stream, Outcome, next, fails, stray, reads, feed_as, bare_parser}

abbrev pub payload_of : Bytes → ℕ → Parser → Bytes
payload_of buf i p = elim p.msg_buf [ some m ↦ m | none ↦ slice buf p.start i ]

abbrev pub acc_in : State → Bytes → ℕ → Parser → Bytes
acc_in msg_arg buf i p = arg_of buf i p
acc_in minus_err_arg buf i p = arg_of buf i p
acc_in info_arg buf i p = arg_of buf i p
acc_in msg_payload buf i p = payload_of buf i p
acc_in _ buf i p = []

abbrev pub cr_in : State → Parser → Bool
cr_in msg_arg p = p.dropped == 1
cr_in minus_err_arg p = p.dropped == 1
cr_in info_arg p = p.dropped == 1
cr_in _ p = false

abbrev pub view_in : State → Bytes → ℕ → Parser → Stream
view_in st buf i p = record {
  state = st;
  hdr = p.hdr;
  ma = p.ma;
  acc = acc_in st buf i p;
  cr = cr_in st p;
  pushed = p.pushed;
}

abbrev pub view : Bytes → ℕ → Parser → Stream
view buf i p = view_in p.state buf i p

abbrev pub ArgInv : ℕ → Parser → Type 0
ArgInv i p = (p.msg_buf ≡ none) × (p.dropped ≤ 1) × (p.arg_buf ≡ none → p.start + p.dropped ≤ i)

abbrev pub InvIn : State → Bytes → ℕ → Parser → Type 0
InvIn msg_arg buf i p = ArgInv i p
InvIn minus_err_arg buf i p = ArgInv i p
InvIn info_arg buf i p = ArgInv i p
InvIn msg_payload buf i p = (p.dropped ≡ 0) × (p.msg_buf ≡ none → i ≡ p.start + size_of p.ma)
InvIn _ buf i p = (p.msg_buf ≡ none) × (p.dropped ≡ 0) × (p.arg_buf ≡ none)

abbrev pub Inv : Bytes → ℕ → Parser → Type 0
Inv buf i p = InvIn p.state buf i p
