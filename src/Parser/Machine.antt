-- ===== src/Parser/Machine.antt =====
-- nats-base-client/parser.ts: `Parser.parse` and `cloneMsgArg`. `step` is the switch for one byte
-- `b = buf[i]`; it returns the parser and the index of the next byte, after the loop's `i++`.
use nats_deno.Base.{
  ℕ, zero, suc, ◌+◌, ◌-◌, Bool, true, false, ◌||◌, Option, none, some, [], ◌∷◌, ◌++◌, min, Bytes,
  length, get_elem?, drop, ltb, leb, ◌==◌, if◌then◌else◌,
}
use nats_deno.Base.Slices.{slice}
use nats_deno.Parser.Args.{
  Kind, MsgArg, ParserEvent, State, op_start, op_plus, op_plus_o, op_plus_ok, op_minus, op_minus_e,
  op_minus_er, op_minus_err, op_minus_err_spc, minus_err_arg, op_m, op_ms, op_msg, op_msg_spc,
  msg_arg, msg_payload, msg_end, op_h, op_p, op_pi, op_pin, op_ping, op_po, op_pon, op_pong, op_i,
  op_in, op_inf, op_info, op_info_spc, info_arg, Parser, parse_error, Result, ◌>>=◌, fail,
  new_msg_arg, process_msg_args,
}

abbrev pub event : Kind → Option MsgArg → Option Bytes → ParserEvent
event kind msg payload = record { kind = kind; msg = msg; payload = payload }

-- `this.dispatcher.push(e)`
abbrev pub push : ParserEvent → Parser → Parser
push e p = record p { pushed = p.pushed ++ e ∷ [] }

abbrev pub goto : State → Parser → Parser
goto s p = record p { state = s }

-- `subarray(this.as, i - this.drop)`, where an end below zero counts from the end of the array.
abbrev pub held : Bytes → ℕ → Parser → Bytes
held buf i p =
    slice buf p.start (if leb p.dropped i then i - p.dropped else length buf + i - p.dropped)

-- `this.ma.size` as an index; -1 is refused by `processMsgArgs` before it is used.
abbrev pub size_of : MsgArg → ℕ
size_of ma = elim ma.size [ none ↦ 0 | some n ↦ n ]

abbrev pub is : ℕ → ℕ → ℕ → Bool
is b upper lower = b == upper || b == lower

-- case State.OP_START
unfoldable pub step_start : Bytes → ℕ → ℕ → Parser → Result (Parser × ℕ)
step_start buf i b p =
    if is b b'M' b'm'
    then Result.ok (record p { state = op_m; hdr = none; ma = new_msg_arg }, suc i)
    else if is b b'H' b'h'
    then Result.ok (record p { state = op_h; hdr = some 0; ma = new_msg_arg }, suc i)
    else if is b b'P' b'p'
    then Result.ok (goto op_p p, suc i)
    else if b == b'+'
    then Result.ok (goto op_plus p, suc i)
    else if b == b'-'
    then Result.ok (goto op_minus p, suc i)
    else if is b b'I' b'i'
    then Result.ok (goto op_i p, suc i)
    else fail (drop i buf) parse_error p

-- The cases that compare one byte with a letter in both cases and throw on any other byte.
abbrev pub expect : Bool → State → Bytes → ℕ → Parser → Result (Parser × ℕ)
expect test next buf i p =
    if test then Result.ok (goto next p, suc i) else fail (drop i buf) parse_error p

abbrev pub is_blank : ℕ → Bool
is_blank b = b == b' ' || b == b'\t'

-- cases State.OP_H, OP_M, OP_MS and OP_MSG
unfoldable pub step_msg_word : State → Bytes → ℕ → ℕ → Parser → Result (Parser × ℕ)
step_msg_word op_h buf i b p = expect (is b b'M' b'm') op_m buf i p
step_msg_word op_m buf i b p = expect (is b b'S' b's') op_ms buf i p
step_msg_word op_ms buf i b p = expect (is b b'G' b'g') op_msg buf i p
step_msg_word _ buf i b p = expect (is_blank b) op_msg_spc buf i p

-- cases State.OP_MSG_SPC, OP_MINUS_ERR_SPC and OP_INFO_SPC
unfoldable pub step_spc : State → ℕ → ℕ → Parser → Result (Parser × ℕ)
step_spc next i b p =
    if is_blank b
    then Result.ok (p, suc i)
    else Result.ok (record p { state = next; start = i }, suc i)

-- The argument at its newline, and its other bytes.
abbrev pub arg_of : Bytes → ℕ → Parser → Bytes
arg_of buf i p = elim p.arg_buf [ some a ↦ a | none ↦ held buf i p ]

abbrev pub write_arg : ℕ → Parser → Parser
write_arg b p = record p { arg_buf = elim p.arg_buf [ some a ↦ some (a ++ b ∷ []) | none ↦ none ] }

-- case State.MSG_ARG; behind the arguments the index jumps over the payload
unfoldable pub step_msg_arg : Bytes → ℕ → ℕ → Parser → Result (Parser × ℕ)
step_msg_arg buf i b p =
    if b == b'\r'
    then Result.ok (record p { dropped = 1 }, suc i)
    else if b == b'\n'
    then (do
      q ← process_msg_args (arg_of buf i p) p
      Result.ok
          (record q { dropped = 0; start = suc i; state = msg_payload }, suc i + size_of q.ma))
    else Result.ok (write_arg b p, suc i)

abbrev pub end_message : Bytes → Parser → Parser
end_message payload p = record (push (event Kind.msg (some p.ma) (some payload)) p) {
  arg_buf = none;
  msg_buf = none;
  state = msg_end;
}

-- case State.MSG_PAYLOAD with `msgBuf`
unfoldable pub step_buffered : Bytes → ℕ → ℕ → Bytes → Parser → Result (Parser × ℕ)
step_buffered buf i b m p =
    if leb (size_of p.ma) (length m)
    then Result.ok (end_message m p, suc i)
    else (let to_copy = min (size_of p.ma - length m) (length buf - i) in
        if ltb 0 to_copy
        then Result.ok (record p { msg_buf = some (m ++ slice buf i (i + to_copy)) }, i + to_copy)
        else Result.ok (record p { msg_buf = some (m ++ b ∷ []) }, suc i))

-- case State.MSG_PAYLOAD
unfoldable pub step_payload : Bytes → ℕ → ℕ → Parser → Result (Parser × ℕ)
unfolding step_buffered
step_payload buf i b p = elim p.msg_buf [
  | some m ↦ step_buffered buf i b m p
  | none ↦
      if leb (p.start + size_of p.ma) i
      then Result.ok (end_message (slice buf p.start i) p, suc i)
      else Result.ok (p, suc i)
]

-- case State.MSG_END
unfoldable pub step_msg_end : ℕ → ℕ → Parser → Result (Parser × ℕ)
step_msg_end i b p =
    if b == b'\n'
    then Result.ok (record p { dropped = 0; start = suc i; state = op_start }, suc i)
    else Result.ok (p, suc i)

-- cases State.OP_PLUS_OK, OP_PONG and OP_PING: what comes before the newline is ignored
abbrev pub step_to_newline : Kind → ℕ → ℕ → Parser → Result (Parser × ℕ)
step_to_newline kind i b p =
    if b == b'\n'
    then Result.ok (record (push (event kind none none) p) { dropped = 0; state = op_start }, suc i)
    else Result.ok (p, suc i)

-- cases State.OP_PLUS, OP_PLUS_O and OP_PLUS_OK
unfoldable pub step_ok : State → Bytes → ℕ → ℕ → Parser → Result (Parser × ℕ)
step_ok op_plus buf i b p = expect (is b b'O' b'o') op_plus_o buf i p
step_ok op_plus_o buf i b p = expect (is b b'K' b'k') op_plus_ok buf i p
step_ok _ buf i b p = step_to_newline Kind.ok i b p

-- cases State.OP_MINUS, OP_MINUS_E, OP_MINUS_ER and OP_MINUS_ERR
unfoldable pub step_err_word : State → Bytes → ℕ → ℕ → Parser → Result (Parser × ℕ)
step_err_word op_minus buf i b p = expect (is b b'E' b'e') op_minus_e buf i p
step_err_word op_minus_e buf i b p = expect (is b b'R' b'r') op_minus_er buf i p
step_err_word op_minus_er buf i b p = expect (is b b'R' b'r') op_minus_err buf i p
step_err_word _ buf i b p = expect (is_blank b) op_minus_err_spc buf i p

-- cases State.MINUS_ERR_ARG and INFO_ARG
unfoldable pub step_arg : Kind → Bytes → ℕ → ℕ → Parser → Result (Parser × ℕ)
step_arg kind buf i b p =
    if b == b'\r'
    then Result.ok (record p { dropped = 1 }, suc i)
    else if b == b'\n'
    then Result.ok (
      record (push (event kind none (some (arg_of buf i p))) p) {
        arg_buf = none;
        dropped = 0;
        start = suc i;
        state = op_start;
      },
      suc i,
    )
    else Result.ok (write_arg b p, suc i)

-- cases State.OP_P, OP_PO, OP_PON and OP_PONG, OP_PI, OP_PIN and OP_PING
unfoldable pub step_ping : State → Bytes → ℕ → ℕ → Parser → Result (Parser × ℕ)
step_ping op_p buf i b p =
    if is b b'I' b'i'
    then Result.ok (goto op_pi p, suc i)
    else expect (is b b'O' b'o') op_po buf i p
step_ping op_po buf i b p = expect (is b b'N' b'n') op_pon buf i p
step_ping op_pon buf i b p = expect (is b b'G' b'g') op_pong buf i p
step_ping op_pong buf i b p = step_to_newline Kind.pong i b p
step_ping op_pi buf i b p = expect (is b b'N' b'n') op_pin buf i p
step_ping op_pin buf i b p = expect (is b b'G' b'g') op_ping buf i p
step_ping _ buf i b p = step_to_newline Kind.ping i b p

-- cases State.OP_I, OP_IN, OP_INF and OP_INFO
unfoldable pub step_info_word : State → Bytes → ℕ → ℕ → Parser → Result (Parser × ℕ)
step_info_word op_i buf i b p = expect (is b b'N' b'n') op_in buf i p
step_info_word op_in buf i b p = expect (is b b'F' b'f') op_inf buf i p
step_info_word op_inf buf i b p = expect (is b b'O' b'o') op_info buf i p
step_info_word _ buf i b p = expect (is_blank b) op_info_spc buf i p

-- The switch on `this.state`.
unfoldable pub step_in : State → Bytes → ℕ → ℕ → Parser → Result (Parser × ℕ)
unfolding step_start step_msg_word step_spc step_msg_arg step_payload step_msg_end step_ok
    step_err_word step_arg step_ping step_info_word
step_in op_start = step_start
step_in op_h = step_msg_word op_h
step_in op_m = step_msg_word op_m
step_in op_ms = step_msg_word op_ms
step_in op_msg = step_msg_word op_msg
step_in op_msg_spc = λ buf. step_spc msg_arg
step_in msg_arg = step_msg_arg
step_in msg_payload = step_payload
step_in msg_end = λ buf. step_msg_end
step_in op_plus = step_ok op_plus
step_in op_plus_o = step_ok op_plus_o
step_in op_plus_ok = step_ok op_plus_ok
step_in op_minus = step_err_word op_minus
step_in op_minus_e = step_err_word op_minus_e
step_in op_minus_er = step_err_word op_minus_er
step_in op_minus_err = step_err_word op_minus_err
step_in op_minus_err_spc = λ buf. step_spc minus_err_arg
step_in minus_err_arg = step_arg Kind.err
step_in op_p = step_ping op_p
step_in op_po = step_ping op_po
step_in op_pon = step_ping op_pon
step_in op_pong = step_ping op_pong
step_in op_pi = step_ping op_pi
step_in op_pin = step_ping op_pin
step_in op_ping = step_ping op_ping
step_in op_i = step_info_word op_i
step_in op_in = step_info_word op_in
step_in op_inf = step_info_word op_inf
step_in op_info = step_info_word op_info
step_in op_info_spc = λ buf. step_spc info_arg
step_in info_arg = step_arg Kind.info

-- The `for` loop. Each round raises the index, so `length buf` rounds of fuel are enough.
unfoldable pub loop : ℕ → Bytes → ℕ → Parser → Result (Parser × ℕ)
loop zero buf i p = Result.ok (p, i)
loop (suc fuel) buf i p = elim (get_elem? buf i) [
  | none ↦ Result.ok (p, i)
  | some b ↦ (do (q, j) ← step_in p.state buf i b p; loop fuel buf j q)
]

unfoldable pub clone_msg_arg : Parser → Parser
clone_msg_arg p =
    let s = length p.ma.subject in
    let buf : Bytes = p.ma.subject ++ elim p.ma.reply [ none ↦ [] | some r ↦ r ] in
    record p {
      arg_buf = some buf;
      ma = record p.ma {
        subject = slice buf 0 s;
        reply = elim p.ma.reply [ none ↦ none | some _ ↦ some (drop s buf) ];
      };
    }

abbrev pub is_arg_state : State → Bool
is_arg_state msg_arg = true
is_arg_state minus_err_arg = true
is_arg_state info_arg = true
is_arg_state _ = false

-- The two `if`s behind the loop, which keep what was read of an argument and of a payload.
unfoldable pub keep_arg : Bytes → ℕ → Parser → Parser
keep_arg buf i p = elim p.arg_buf [
  | some _ ↦ p
  | none ↦ if is_arg_state p.state then record p { arg_buf = some (held buf i p) } else p
]

unfoldable pub keep_payload : State → Bytes → Parser → Parser
unfolding clone_msg_arg
keep_payload msg_payload buf p = elim p.msg_buf [
  | some _ ↦ p
  | none ↦
      let q : Parser = elim p.arg_buf [ some _ ↦ p | none ↦ clone_msg_arg p ] in
      record q { msg_buf = some (drop p.start buf) }
]
keep_payload _ buf p = p

unfoldable pub keep : Bytes → ℕ → Parser → Parser
unfolding keep_arg keep_payload
keep buf i p = let q = keep_arg buf i p in keep_payload q.state buf q

unfoldable pub parse : Bytes → Parser → Result Parser
unfolding loop keep step_in
parse buf p = do (q, i) ← loop (length buf) buf 0 p; Result.ok (keep buf i q)
