-- ===== src/Parser/Frames/RoundTrip.antt =====
-- What is written as an operation is read as its event, with any chunks.
use mathlib.Core.List.{append-nil, append_assoc}
use nats_deno.Base.{
  ℕ, ◌≡◌, refl, ap, ◌∙◌, inl, inr, Option, none, some, List, [], ◌∷◌, ◌++◌, Bytes, length, codes,
  map,
}
use nats_deno.Parser.Args.{
  op_start, op_minus_err_spc, op_info_spc, minus_err_arg, info_arg, op_msg_spc, MsgArg, ParserEvent,
  Parser, new_parser, Result, thrown, new_msg_arg,
}
use nats_deno.Parser.Stream.{Outcome, next, stray, feed, run}
use nats_deno.Parser.Chunks.Refine.{parse_all, parse_all-Agrees, joined, Agrees}
use nats_deno.Parser.Frames.{
  Frame, ping, pong, ok, err, info, msg, hmsg, wire, IsFrame, IsReply, IsText, event_of, hdr_after,
  ma_after, idle, crlf, with_reply, msg_line, hmsg_line,
}
use nats_deno.Parser.Frames.Words.{AreTokens}
use nats_deno.Parser.Frames.Lines.{
  reading, run_text, run_payload, process_msg_line, process_hmsg_line, spaced-IsText,
}

with_reply-AreTokens :
    (reply : Option Bytes) (args : List Bytes)
    → IsReply reply
    → AreTokens args
    → AreTokens (with_reply reply args)
with_reply-AreTokens none args h k = k
with_reply-AreTokens (some r) args h k = (h, k)

-- One operation, with any bytes behind it.
abbrev Reads : Frame → Type 0
Reads f =
    (hdr : Option ℕ) (ma : MsgArg) (pushed : List ParserEvent) (rest : Bytes)
    → run (idle hdr ma pushed) (wire f ++ rest)
      ≡ run (idle (hdr_after f hdr) (ma_after f ma) (pushed ++ event_of f ∷ [])) rest

text_rest : (text rest : Bytes) → (text ++ crlf) ++ rest ≡ text ++ (crlf ++ rest)
text_rest text rest = append_assoc text crlf rest

start_err :
    (hdr : Option ℕ) (ma : MsgArg) (pushed : List ParserEvent) (rest : Bytes)
    → run (idle hdr ma pushed) (codes "-ERR " ++ rest)
      ≡ run (reading op_minus_err_spc hdr ma [] pushed) rest
unfolding run feed
start_err hdr ma pushed rest = refl

end_err :
    (hdr : Option ℕ) (ma : MsgArg) (pushed : List ParserEvent) (text rest : Bytes)
    → run (reading minus_err_arg hdr ma text pushed) (crlf ++ rest)
      ≡ run (idle hdr ma (pushed ++ event_of (err text) ∷ [])) rest
unfolding run feed
end_err hdr ma pushed text rest = refl

err-Reads : (text : Bytes) → IsText text → Reads (err text)
err-Reads text h hdr ma pushed rest =
    ap (run (idle hdr ma pushed)) (ap (◌++◌ (codes "-ERR ")) (text_rest text rest))
    ∙ start_err hdr ma pushed _
    ∙ run_text hdr ma pushed _ _ text (crlf ++ rest) (inr (inl (refl, refl))) h
    ∙ end_err hdr ma pushed text rest

start_info :
    (hdr : Option ℕ) (ma : MsgArg) (pushed : List ParserEvent) (rest : Bytes)
    → run (idle hdr ma pushed) (codes "INFO " ++ rest)
      ≡ run (reading op_info_spc hdr ma [] pushed) rest
unfolding run feed
start_info hdr ma pushed rest = refl

end_info :
    (hdr : Option ℕ) (ma : MsgArg) (pushed : List ParserEvent) (text rest : Bytes)
    → run (reading info_arg hdr ma text pushed) (crlf ++ rest)
      ≡ run (idle hdr ma (pushed ++ event_of (info text) ∷ [])) rest
unfolding run feed
end_info hdr ma pushed text rest = refl

info-Reads : (text : Bytes) → IsText text → Reads (info text)
info-Reads text h hdr ma pushed rest =
    ap (run (idle hdr ma pushed)) (ap (◌++◌ (codes "INFO ")) (text_rest text rest))
    ∙ start_info hdr ma pushed _
    ∙ run_text hdr ma pushed _ _ text (crlf ++ rest) (inr (inr (refl, refl))) h
    ∙ end_info hdr ma pushed text rest

message_rest :
    (line payload rest : Bytes)
    → (line ++ (crlf ++ (payload ++ crlf))) ++ rest ≡ line ++ (crlf ++ (payload ++ (crlf ++ rest)))
message_rest line payload rest = simp append_assoc

start_msg :
    (hdr : Option ℕ) (ma : MsgArg) (pushed : List ParserEvent) (rest : Bytes)
    → run (idle hdr ma pushed) (codes "MSG " ++ rest)
      ≡ run (reading op_msg_spc none new_msg_arg [] pushed) rest
unfolding run feed
start_msg hdr ma pushed rest = refl

start_hmsg :
    (hdr : Option ℕ) (ma : MsgArg) (pushed : List ParserEvent) (rest : Bytes)
    → run (idle hdr ma pushed) (codes "HMSG " ++ rest)
      ≡ run (reading op_msg_spc (some 0) new_msg_arg [] pushed) rest
unfolding run feed
start_hmsg hdr ma pushed rest = refl

msg-Reads :
    (subject sid : Bytes) (reply : Option Bytes) (size payload : Bytes)
    → IsFrame (msg subject sid reply size payload)
    → Reads (msg subject sid reply size payload)
msg-Reads subject sid reply size payload (s, a, (b, es), c, (d, en)) hdr ma pushed rest =
    let line = msg_line subject sid reply size in
    ap (run (idle hdr ma pushed)) (ap (◌++◌ (codes "MSG ")) (message_rest line payload rest))
    ∙ start_msg hdr ma pushed _
    ∙ run_text none new_msg_arg pushed _ _ line _ (inl (refl, refl)) (
        spaced-IsText subject (sid ∷ with_reply reply (size ∷ [])) a
          (b, with_reply-AreTokens reply (size ∷ []) c (d, tt)))
    ∙ run_payload none new_msg_arg pushed line payload rest _
        (process_msg_line subject sid size s (length payload) a b d es en reply c) en

hmsg-Reads :
    (subject sid : Bytes) (reply : Option Bytes) (hdr_size size payload : Bytes)
    → IsFrame (hmsg subject sid reply hdr_size size payload)
    → Reads (hmsg subject sid reply hdr_size size payload)
hmsg-Reads subject sid reply t size payload (s, h, a, (b, es), c, (f, eh), (d, en), le) hdr ma
      pushed rest =
    let line = hmsg_line subject sid reply t size in
    ap (run (idle hdr ma pushed)) (ap (◌++◌ (codes "HMSG ")) (message_rest line payload rest))
    ∙ start_hmsg hdr ma pushed _
    ∙ run_text (some 0) new_msg_arg pushed _ _ line _ (inl (refl, refl)) (
        spaced-IsText subject (sid ∷ with_reply reply (t ∷ size ∷ [])) a
          (b, with_reply-AreTokens reply (t ∷ size ∷ []) c (f, (d, tt))))
    ∙ run_payload (some 0) new_msg_arg pushed line payload rest _
        (process_hmsg_line subject sid size s (length payload) a b d es en t h reply c f eh le) en

frame-Reads : (f : Frame) → IsFrame f → Reads f
unfolding run feed
frame-Reads ping h hdr ma pushed rest = refl
frame-Reads pong h hdr ma pushed rest = refl
frame-Reads ok h hdr ma pushed rest = refl
frame-Reads (err text) h hdr ma pushed rest = err-Reads text h hdr ma pushed rest
frame-Reads (info text) h hdr ma pushed rest = info-Reads text h hdr ma pushed rest
frame-Reads (msg a b c d e) h hdr ma pushed rest = msg-Reads a b c d e h hdr ma pushed rest
frame-Reads (hmsg a b c d e f) h hdr ma pushed rest = hmsg-Reads a b c d e f h hdr ma pushed rest

abbrev pub AreFrames : List Frame → Type 0
AreFrames [] = Unit
AreFrames (f ∷ fs) = IsFrame f × AreFrames fs

abbrev pub wires : List Frame → Bytes
wires [] = []
wires (f ∷ fs) = wire f ++ wires fs

-- The stream between operations, with these events pushed.
abbrev IsIdle : List ParserEvent → Outcome → Type 0
IsIdle pushed o = (hdr : Option ℕ) × (ma : MsgArg) × (o ≡ next (idle hdr ma pushed))

run-wires :
    (fs : List Frame) (hdr : Option ℕ) (ma : MsgArg) (pushed : List ParserEvent)
    → AreFrames fs
    → IsIdle (pushed ++ map event_of fs) (run (idle hdr ma pushed) (wires fs))
run-wires [] hdr ma pushed h = (hdr, ma, unfold run in rw append-nil)
run-wires (f ∷ fs) hdr ma pushed h =
    rw
      (
        frame-Reads f h.0 hdr ma pushed (wires fs),
        ← append_assoc pushed (event_of f ∷ []) (map event_of fs),
      )
      (run-wires fs (hdr_after f hdr) (ma_after f ma) (pushed ++ event_of f ∷ []) h.1)

-- The parser returns between two operations, and has pushed these events and no others.
abbrev pub Delivers : List ParserEvent → Result Parser → Type 0
Delivers events (Result.ok q) = (q.state ≡ op_start) × (q.pushed ≡ events)
Delivers events (thrown _ _ _ _) = ⊥

idle-Delivers :
    (events : List ParserEvent) (o : Outcome) (r : Result Parser)
    → IsIdle events o
    → Agrees o r
    → Delivers events r
idle-Delivers events (next t) (Result.ok q) (hdr, ma, e) a = (cc, cc)
idle-Delivers events (next t) (thrown _ _ _ _) (hdr, ma, e) a = a
idle-Delivers events (Outcome.fails _ _) r (hdr, ma, e) a = absurd (cc)
idle-Delivers events stray r (hdr, ma, e) a = absurd (cc)

-- Any operations of the server, written one behind the other and cut into chunks in any way, are
-- read by a new parser as their events, in order and with nothing else, and the parser is then
-- between two operations.
pub parse_all-wires :
    (fs : List Frame) (chunks : List Bytes)
    → AreFrames fs
    → joined chunks ≡ wires fs
    → Delivers (map event_of fs) (parse_all chunks new_parser)
parse_all-wires fs chunks h e =
    idle-Delivers _ _ _ (run-wires fs (some 0) new_msg_arg [] h) (rw e at (parse_all-Agrees chunks))
