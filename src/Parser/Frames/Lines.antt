-- ===== src/Parser/Frames/Lines.antt =====
-- The pieces of an operation, each with any bytes behind it.
use mathlib.Core.List.{append-nil, append_assoc}
use nats_deno.Base.{
  ℕ, ◌≤◌, ◌≡◌, refl, ◌∙◌, ◌⊎◌, false, Option, none, some, List, [], ◌∷◌, ◌++◌, Bytes, length, arith,
}
use nats_deno.Parser.Args.{
  Kind, State, msg_arg, info_arg, minus_err_arg, op_msg_spc, op_info_spc, op_minus_err_spc,
  msg_payload, MsgArg, ParserEvent, Parser, Result, proto_parse_int, process_msg_args,
  process_header_msg_args, assign_msg_args, assign_header_args, new_msg_arg,
}
use nats_deno.Parser.Stream.{Stream, feed, run, bare_parser, take_args}
use nats_deno.Parser.Chunks.Absorb.{run-filled}
use nats_deno.Parser.Frames.{IsLine, IsText, idle, crlf, msg_line, hmsg_line, msg_arg_of, IsReply}
use nats_deno.Parser.Frames.Words.{IsToken, IsWord, AreTokens, spaced, split_args-spaced}

abbrev IsArg : State → Type 0
IsArg st = (st ≡ msg_arg) ⊎ (st ≡ minus_err_arg) ⊎ (st ≡ info_arg)

abbrev pub reading : State → Option ℕ → MsgArg → Bytes → List ParserEvent → Stream
reading st hdr ma acc pushed = record {
  state = st;
  hdr = hdr;
  ma = ma;
  acc = acc;
  cr = false;
  pushed = pushed;
}

module _ (hdr : Option ℕ) (ma : MsgArg) (pushed : List ParserEvent) where
  pub run-line :
      (st : State) (acc text rest : Bytes)
      → (st ≡ msg_arg) ⊎ ((st ≡ minus_err_arg) ⊎ (st ≡ info_arg))
      → IsLine text
      → run (reading st hdr ma acc pushed) (text ++ rest)
        ≡ run (reading st hdr ma (acc ++ text) pushed) rest
  unfolding run feed
  run-line st acc [] rest a h = rw append-nil
  run-line st acc (b ∷ bs) rest a h =
      ground (arith, run-line st (acc ++ b ∷ []) bs rest a h.2, append_assoc acc (b ∷ []) bs)

  -- Behind the blank: the first byte starts the argument.
  pub run_text :
      (spc st : State) (text rest : Bytes)
      → ((spc ≡ op_msg_spc) × (st ≡ msg_arg))
        ⊎ (((spc ≡ op_minus_err_spc) × (st ≡ minus_err_arg))
            ⊎ ((spc ≡ op_info_spc) × (st ≡ info_arg)))
      → IsText text
      → run (reading spc hdr ma [] pushed) (text ++ rest) ≡ run (reading st hdr ma text pushed) rest
  unfolding run feed
  run_text spc st [] rest a h = absurd h
  run_text spc st (b ∷ bs) rest a h = ground (arith, run-line st (b ∷ []) bs rest)

  run_args :
      (line rest : Bytes) (q : Parser)
      → process_msg_args line (bare_parser msg_arg hdr ma) ≡ Result.ok q
      → run (reading msg_arg hdr ma line pushed) (crlf ++ rest)
        ≡ run (reading msg_payload hdr q.ma [] pushed) rest
  unfolding run feed
  run_args line rest q e = rw (e, take_args)

  run_end :
      (payload rest : Bytes)
      → ma.size ≡ some (length payload)
      → run (reading msg_payload hdr ma payload pushed) (crlf ++ rest)
        ≡ run
            (idle hdr ma
              (pushed ++ (record { kind = Kind.msg; msg = some ma; payload = some payload } ∷ [])))
            rest
  unfolding run feed
  run_end payload rest n = ground arith

-- The end of the arguments, the payload and its end.
pub run_payload :
    (hdr : Option ℕ) (ma : MsgArg) (pushed : List ParserEvent) (line payload rest : Bytes)
    (q : Parser)
    → process_msg_args line (bare_parser msg_arg hdr ma) ≡ Result.ok q
    → q.ma.size ≡ some (length payload)
    → run (reading msg_arg hdr ma line pushed) (crlf ++ (payload ++ (crlf ++ rest)))
      ≡ run
          (idle hdr q.ma
            (pushed ++ (record { kind = Kind.msg; msg = some q.ma; payload = some payload } ∷ [])))
          rest
run_payload hdr ma pushed line payload rest q e n =
    run_args hdr ma pushed line (payload ++ (crlf ++ rest)) q e
    ∙ run-filled (reading msg_payload hdr q.ma [] pushed) [] payload (crlf ++ rest)
        (rw n (omega arith))
    ∙ run_end hdr q.ma pushed payload rest n

-- `processMsgArgs` on the arguments of MSG and of HMSG.
module _ (subject sid size : Bytes) (s n : ℕ) (a : IsToken subject) (b : IsToken sid)
    (d : IsToken size) (es : proto_parse_int sid ≡ some s)
    (en : proto_parse_int size ≡ some n) where
  pub process_msg_line :
      (reply : Option Bytes)
      → IsReply reply
      → process_msg_args (msg_line subject sid reply size) (bare_parser msg_arg none new_msg_arg)
        ≡ Result.ok (bare_parser msg_arg none (msg_arg_of subject sid reply none size))
  unfolding process_msg_args assign_msg_args
  process_msg_line none k =
      ground (arith, split_args-spaced subject (sid ∷ size ∷ []) a (b, (d, tt)))
  process_msg_line (some r) k =
      ground (arith, split_args-spaced subject (sid ∷ r ∷ size ∷ []) a (b, (k, (d, tt))))

  pub process_hmsg_line :
      (hdr : Bytes) (h : ℕ) (reply : Option Bytes)
      → IsReply reply
      → IsToken hdr
      → proto_parse_int hdr ≡ some h
      → h ≤ n
      → process_msg_args
          (hmsg_line subject sid reply hdr size)
          (bare_parser msg_arg (some 0) new_msg_arg)
        ≡ Result.ok
            (bare_parser msg_arg (some 0) (msg_arg_of subject sid reply (proto_parse_int hdr) size))
  unfolding process_msg_args process_header_msg_args assign_header_args
  process_hmsg_line hdr h none k t eh le =
      ground (arith, split_args-spaced subject (sid ∷ hdr ∷ size ∷ []) a (b, (t, (d, tt))))
  process_hmsg_line hdr h (some r) k t eh le =
      ground (arith, split_args-spaced subject (sid ∷ r ∷ hdr ∷ size ∷ []) a (b, (k, (t, (d, tt)))))

-- Spaced tokens are the text of an argument.
IsWord-IsLine : (w : Bytes) → IsWord w → IsLine w
IsWord-IsLine [] h = tt
IsWord-IsLine (b ∷ bs) h = (ground arith, ground arith, IsWord-IsLine bs h.1)

IsLine-append : (xs ys : Bytes) → IsLine xs → IsLine ys → IsLine (xs ++ ys)
IsLine-append [] ys h k = k
IsLine-append (x ∷ xs) ys h k = (h.0, h.1, IsLine-append xs ys h.2 k)

spaced-IsLine : (t : Bytes) (ts : List Bytes) → IsWord t → AreTokens ts → IsLine (spaced t ts)
spaced-IsLine t [] h k = IsWord-IsLine t h
spaced-IsLine t (u ∷ us) h k =
    IsLine-append t (b' ' ∷ spaced u us) (IsWord-IsLine t h)
      ((λ e. absurd (omega arith)), (λ e. absurd (omega arith)), spaced-IsLine u us k.0.1 k.1)

pub spaced-IsText : (t : Bytes) (ts : List Bytes) → IsToken t → AreTokens ts → IsText (spaced t ts)
spaced-IsText [] ts h k = absurd (h.0 refl)
spaced-IsText (b ∷ bs) [] h k = (ground arith, ground arith, spaced-IsLine (b ∷ bs) [] h.1 k)
spaced-IsText (b ∷ bs) (u ∷ us) h k =
    (ground arith, ground arith, spaced-IsLine (b ∷ bs) (u ∷ us) h.1 k)
