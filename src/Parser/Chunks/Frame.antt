-- ===== src/Parser/Chunks/Frame.antt =====
-- `processMsgArgs` reads only the bytes, `hdr` and `ma`, and changes only `ma`.
use nats_deno.Base.{◌≡◌, List, [], ◌∷◌, Bytes, arith}
use nats_deno.Parser.Args.{
  Parser, Result, thrown, split_args, assign_msg_args, assign_header_args, process_msg_args,
  process_header_msg_args,
}
use nats_deno.Parser.Stream.{bare_parser}

abbrev pub reframe : Parser → Result Parser → Result Parser
reframe p (Result.ok q) = Result.ok (record p { ma = q.ma })
reframe p (thrown l s bytes q) = thrown l p.state bytes (record p { ma = q.ma })

assign_msg_args-frame :
    (arg : Bytes) (args : List Bytes) (p : Parser)
    → assign_msg_args arg args p
      ≡ reframe p (assign_msg_args arg args (bare_parser p.state p.hdr p.ma))
unfolding assign_msg_args
assign_msg_args-frame arg [] p = ground arith
assign_msg_args-frame arg (a ∷ b ∷ c ∷ []) p = ground arith
assign_msg_args-frame arg (a ∷ b ∷ c ∷ d ∷ []) p = ground arith
assign_msg_args-frame arg _ p = ground arith

assign_header_args-frame :
    (arg : Bytes) (args : List Bytes) (p : Parser)
    → assign_header_args arg args p
      ≡ reframe p (assign_header_args arg args (bare_parser p.state p.hdr p.ma))
unfolding assign_header_args
assign_header_args-frame arg (a ∷ b ∷ c ∷ d ∷ []) p = ground arith
assign_header_args-frame arg (a ∷ b ∷ c ∷ d ∷ e ∷ []) p = ground arith
assign_header_args-frame arg _ p = ground arith

pub process_msg_args-frame :
    (arg : Bytes) (p : Parser)
    → process_msg_args arg p ≡ reframe p (process_msg_args arg (bare_parser p.state p.hdr p.ma))
unfolding process_msg_args process_header_msg_args
process_msg_args-frame arg p = ground (
  arith,
  assign_msg_args-frame arg (split_args arg) p,
  assign_header_args-frame arg (split_args arg) p,
)
