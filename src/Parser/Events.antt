-- ===== src/Parser/Events.antt =====
-- What every `MSG` event that the parser pushes satisfies, whatever bytes it is given.
use nats_deno.Base.{
  ℕ, zero, suc, ◌+◌, ◌-◌, ◌≤◌, ◌<◌, ◌≡◌, ◌≢◌, refl, inl, inr, Option, none, some, List, [], ◌∷◌,
  ◌++◌, min, Bytes, length, get_elem?, arith, Option-cases, length-append, length-drop,
}
use nats_deno.Base.Slices.{slice, length-slice, get_elem?-lt, get_elem?-eq-none}
use nats_deno.Parser.Args.{
  Kind, State, op_plus_ok, op_ping, op_pong, msg_arg, minus_err_arg, info_arg, msg_payload, MsgArg,
  ParserEvent, Parser, Result, thrown, ◌>>=◌, new_parser, split_args, process_msg_args,
  process_header_msg_args, assign_msg_args, assign_header_args,
}
use nats_deno.Parser.Machine.{step_in, loop, keep, parse, size_of, event, arg_of}
use nats_deno.Parser.Chunks.Refine.{parse_all, clone_msg_arg-ma}

-- The checks of `processMsgArgs`: a subscription, a size, and headers that fit in it.
abbrev pub IsChecked : MsgArg → Type 0
IsChecked ma =
    (s : ℕ) × (n : ℕ) × (ma.sid ≡ some s) × (ma.size ≡ some n) × ((h : ℕ) → ma.hdr ≡ some h → h ≤ n)

-- A message's payload has the size that its arguments state.
abbrev pub IsSound : ParserEvent → Type 0
IsSound e =
    e.kind ≡ Kind.msg
    → (ma : MsgArg) × (payload : Bytes) × (e.msg ≡ some ma)
      × (e.payload ≡ some payload)
      × IsChecked ma
      × (ma.size ≡ some (length payload))

abbrev pub AllSound : List ParserEvent → Type 0
AllSound [] = Unit
AllSound (e ∷ es) = IsSound e × AllSound es

AllSound-push :
    (es : List ParserEvent) (e : ParserEvent) → AllSound es → IsSound e → AllSound (es ++ e ∷ [])
AllSound-push [] e h k = (k, tt)
AllSound-push (x ∷ es) e h k = (h.0, AllSound-push es e h.1 k)

abbrev Held : Option Bytes → ℕ → Parser → Type 0
Held none i p = i ≡ p.start + size_of p.ma
Held (some m) i p = length m ≤ size_of p.ma

abbrev Payload : ℕ → Parser → Type 0
Payload i p = IsChecked p.ma × Held p.msg_buf i p

abbrev InState : State → ℕ → Parser → Type 0
InState msg_payload i p = Payload i p
InState _ i p = p.msg_buf ≡ none

-- The invariant of the loop.
abbrev Inv : ℕ → Parser → Type 0
Inv i p = AllSound p.pushed × (p.hdr ≡ none → p.ma.hdr ≡ none) × InState p.state i p

abbrev Keeps : ℕ → Result (Parser × ℕ) → Type 0
Keeps i (Result.ok (q, j)) = (i < j) × Inv j q
Keeps i (thrown _ _ _ q) = AllSound q.pushed

abbrev in_state : State → Parser → Parser
in_state st p = record p { state = st }

-- `processMsgArgs` returns checked arguments and changes nothing else.
abbrev Checks : Parser → Result Parser → Type 0
Checks p (Result.ok q) =
    IsChecked q.ma
    × (q.hdr ≡ p.hdr)
    × (q.pushed ≡ p.pushed)
    × (q.msg_buf ≡ p.msg_buf)
    × (q.hdr ≡ none → q.ma.hdr ≡ none)
Checks p (thrown _ _ _ q) = q.pushed ≡ p.pushed

assign_msg_args-Checks :
    (arg : Bytes) (args : List Bytes) (p : Parser)
    → p.hdr ≡ none
    → p.ma.hdr ≡ none
    → Checks p (assign_msg_args arg args p)
unfolding assign_msg_args
assign_msg_args-Checks arg (a ∷ b ∷ c ∷ []) p e h = ground arith
assign_msg_args-Checks arg (a ∷ b ∷ c ∷ d ∷ []) p e h = ground arith
assign_msg_args-Checks arg _ p e h = ground arith

assign_header_args-Checks :
    (arg : Bytes) (args : List Bytes) (p : Parser)
    → p.hdr ≢ none
    → Checks p (assign_header_args arg args p)
unfolding assign_header_args
assign_header_args-Checks arg (a ∷ b ∷ c ∷ d ∷ []) p e = ground arith
assign_header_args-Checks arg (a ∷ b ∷ c ∷ d ∷ e ∷ []) p f = ground arith
assign_header_args-Checks arg _ p e = ground arith

process_msg_args-Checks :
    (arg : Bytes) (p : Parser)
    → (p.hdr ≡ none → p.ma.hdr ≡ none)
    → Checks p (process_msg_args arg p)
unfolding process_msg_args process_header_msg_args
process_msg_args-Checks arg p h = go p.hdr refl
  where
    go : (x : Option ℕ) → p.hdr ≡ x → Checks p (process_msg_args arg p)
    go none e = ground (arith, assign_msg_args-Checks arg (split_args arg) p e (h e))
    go (some n) e = ground (arith, assign_header_args-Checks arg (split_args arg) p (λ x. cc))

AllSound-quiet :
    (es : List ParserEvent) (kind : Kind) (payload : Option Bytes)
    → AllSound es
    → kind ≢ Kind.msg
    → AllSound (es ++ event kind none payload ∷ [])
AllSound-quiet es kind payload h k =
    AllSound-push es (event kind none payload) h (λ e. absurd (k e))

step_word-Keeps :
    (st : State) (buf : Bytes) (i b : ℕ) (p : Parser)
    → st ≢ msg_arg
    → st ≢ msg_payload
    → Inv i (in_state st p)
    → Keeps i (step_in st buf i b (in_state st p))
unfolding step_in
step_word-Keeps msg_arg buf i b p n m v = absurd (n refl)
step_word-Keeps msg_payload buf i b p n m v = absurd (m refl)
step_word-Keeps minus_err_arg buf i b p n m v =
    ground (arith, AllSound-quiet p.pushed Kind.err (some (arg_of buf i p)) v.0 (cc))
step_word-Keeps info_arg buf i b p n m v =
    ground (arith, AllSound-quiet p.pushed Kind.info (some (arg_of buf i p)) v.0 (cc))
step_word-Keeps op_plus_ok buf i b p n m v =
    ground (arith, AllSound-quiet p.pushed Kind.ok none v.0 (cc))
step_word-Keeps op_ping buf i b p n m v =
    ground (arith, AllSound-quiet p.pushed Kind.ping none v.0 (cc))
step_word-Keeps op_pong buf i b p n m v =
    ground (arith, AllSound-quiet p.pushed Kind.pong none v.0 (cc))
step_word-Keeps _ buf i b p n m v = ground arith

step_msg_arg-Keeps :
    (buf : Bytes) (i b : ℕ) (p : Parser)
    → Inv i (in_state msg_arg p)
    → Keeps i (step_in msg_arg buf i b (in_state msg_arg p))
unfolding step_in
step_msg_arg-Keeps buf i b p v =
    ground (arith, process_msg_args-Checks (arg_of buf i p) (in_state msg_arg p) v.1)

message-IsSound :
    (ma : MsgArg) (payload : Bytes)
    → IsChecked ma
    → length payload ≡ size_of ma
    → IsSound (event Kind.msg (some ma) (some payload))
message-IsSound ma payload c e k = (ma, payload, refl, refl, c, ground arith)

AllSound-message :
    (p : Parser) (payload : Bytes)
    → AllSound p.pushed
    → IsChecked p.ma
    → length payload ≡ size_of p.ma
    → AllSound (p.pushed ++ event Kind.msg (some p.ma) (some payload) ∷ [])
AllSound-message p payload h c e =
    AllSound-push p.pushed (event Kind.msg (some p.ma) (some payload)) h
      (message-IsSound p.ma payload c e)

step_payload-Keeps :
    (buf : Bytes) (i b : ℕ) (p : Parser)
    → get_elem? buf i ≡ some b
    → Inv i (in_state msg_payload p)
    → Keeps i (step_in msg_payload buf i b (in_state msg_payload p))
unfolding step_in
step_payload-Keeps buf i b p e (sound, hdr, (c, held)) = go p.msg_buf refl held
  where
    go :
        (o : Option Bytes)
        → p.msg_buf ≡ o
        → Held o i (in_state msg_payload p)
        → Keeps i (step_in msg_payload buf i b (in_state msg_payload p))
    go none unset jump = ground (
      arith,
      AllSound-message p (slice buf p.start i) sound c,
      length-slice buf p.start i,
      get_elem?-lt buf i b e,
    )
    go (some m) set fits = ground (
      arith,
      AllSound-message p m sound c,
      get_elem?-lt buf i b e,
      length-append m (slice buf i (i + min (size_of p.ma - length m) (length buf - i))),
      length-slice buf i (i + min (size_of p.ma - length m) (length buf - i)),
    )

step-Keeps :
    (buf : Bytes) (i b : ℕ) (p : Parser)
    → get_elem? buf i ≡ some b
    → Inv i p
    → Keeps i (step_in p.state buf i b p)
step-Keeps buf i b p e v = go p.state v
  where
    go : (st : State) → Inv i (in_state st p) → Keeps i (step_in st buf i b (in_state st p))
    go msg_arg w = step_msg_arg-Keeps buf i b p w
    go msg_payload w = step_payload-Keeps buf i b p e w
    go st w = step_word-Keeps st buf i b p (cc) (cc) w

-- The loop leaves the index at the end of the buffer.
abbrev Stops : Bytes → Result (Parser × ℕ) → Type 0
Stops buf (Result.ok (q, j)) = (length buf ≤ j) × Inv j q
Stops buf (thrown _ _ _ q) = AllSound q.pushed

round-Stops :
    (buf : Bytes) (i : ℕ) (rest : Parser × ℕ → Result (Parser × ℕ)) (r : Result (Parser × ℕ))
    → Keeps i r
    → ((q : Parser) (j : ℕ) → i < j → Inv j q → Stops buf (rest (q, j)))
    → Stops buf (r >>= rest)
round-Stops buf i rest (Result.ok (q, j)) (lt, v) later = later q j lt v
round-Stops buf i rest (thrown l st bs q) h later = h

loop-Stops :
    (fuel : ℕ) (buf : Bytes) (i : ℕ) (p : Parser)
    → length buf ≤ i + fuel
    → Inv i p
    → Stops buf (loop fuel buf i p)
unfolding loop
loop-Stops zero buf i p enough v = (omega arith, v)
loop-Stops (suc fuel) buf i p enough v = elim (Option-cases (get_elem? buf i)) [
  | inl out ↦ rw (out, loop) (get_elem?-eq-none buf i out, v)
  | inr (b, here) ↦
      rw (here, loop)
        (round-Stops buf i _ (step_in p.state buf i b p) (step-Keeps buf i b p here v)
          (λ q j lt w. loop-Stops fuel buf j q (omega arith) w))
]

keep-Inv : (buf : Bytes) (j : ℕ) (p : Parser) → length buf ≤ j → Inv j p → Inv 0 (keep buf j p)
unfolding keep
keep-Inv buf j p h v = go p.state v
  where
    go : (st : State) → Inv j (in_state st p) → Inv 0 (keep buf j (in_state st p))
    go msg_payload w =
        ground (arith, clone_msg_arg-ma (in_state msg_payload p), length-drop p.start buf)
    go msg_arg w = ground arith
    go _ w = ground arith

abbrev Sound : Result Parser → Type 0
Sound (Result.ok q) = Inv 0 q
Sound (thrown _ _ _ q) = AllSound q.pushed

kept-Sound :
    (buf : Bytes) (r : Result (Parser × ℕ))
    → Stops buf r
    → Sound (r >>= λ e. Result.ok (keep buf e.1 e.0))
kept-Sound buf (Result.ok (q, j)) (h, v) = keep-Inv buf j q h v
kept-Sound buf (thrown l st bs q) h = h

parse-Sound : (buf : Bytes) (p : Parser) → Inv 0 p → Sound (parse buf p)
unfolding parse
parse-Sound buf p v =
    kept-Sound buf (loop (length buf) buf 0 p) (loop-Stops (length buf) buf 0 p (omega arith) v)

parse_all-Sound_from : (chunks : List Bytes) (p : Parser) → Inv 0 p → Sound (parse_all chunks p)
unfolding parse_all
parse_all-Sound_from [] p v = v
parse_all-Sound_from (chunk ∷ chunks) p v =
    go (parse chunk p) (parse-Sound chunk p v) (parse_all-Sound_from chunks)
  where
    go :
        (r : Result Parser)
        → Sound r
        → ((q : Parser) → Inv 0 q → Sound (parse_all chunks q))
        → Sound (r >>= parse_all chunks)
    go (Result.ok q) w later = later q w
    go (thrown l st bs q) w later = w

abbrev pub pushed_by : Result Parser → List ParserEvent
pushed_by (Result.ok q) = q.pushed
pushed_by (thrown _ _ _ q) = q.pushed

-- Whatever the chunks hold, and also where a chunk makes the parser throw: each message that it
-- has pushed has a subscription id and a size, its payload is as long as that size says, and its
-- headers, if it has any, are not longer than the payload.
pub parse_all-AllSound : (chunks : List Bytes) → AllSound (pushed_by (parse_all chunks new_parser))
parse_all-AllSound chunks =
    go (parse_all chunks new_parser)
      (parse_all-Sound_from chunks new_parser (tt, (λ e. refl), refl))
  where
    go : (r : Result Parser) → Sound r → AllSound (pushed_by r)
    go (Result.ok q) h = h.0
    go (thrown l st bs q) h = h
