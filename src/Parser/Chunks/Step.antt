-- ===== src/Parser/Chunks/Step.antt =====
-- One round of the loop, against the stream.
use nats_deno.Base.{
  ℕ, suc, ◌+◌, ◌-◌, ◌≤◌, ◌<◌, ◌≡◌, ◌≢◌, refl, ◌⊎◌, inl, inr, true, false, none, some, [], ◌++◌,
  Bytes, get_elem?, length, drop, min, Bool-cases, Option-cases, leb, ◌==◌, arith,
}
use nats_deno.Base.Slices.{
  slice, slice-suc, slice_self, slice-append-drop, length-slice, get_elem?-lt, drop-cons,
}
use nats_deno.Parser.Args.{
  ◌>>=◌ as bind, State, op_start, op_minus_err_spc, minus_err_arg, op_msg_spc, msg_arg, msg_payload,
  op_info_spc, info_arg, Parser, Result, thrown, process_msg_args,
}
use nats_deno.Parser.Machine.{arg_of, size_of, step_in}
use nats_deno.Parser.Stream.{
  Stream, Outcome, next, fails, stray, reads, feed, feed_as, run, ◌>>=◌, bare_parser,
}
use nats_deno.Parser.Chunks.{view, view_in, Inv, InvIn}
use nats_deno.Parser.Chunks.Frame.{reframe, process_msg_args-frame}
use nats_deno.Parser.Chunks.Absorb.{filled, run-filled}

-- One byte read by both.
abbrev Follows1 : Bytes → ℕ → Outcome → Result (Parser × ℕ) → Type 0
Follows1 buf i o (Result.ok (q, j)) =
    (o ≡ stray) ⊎ ((o ≡ next (view buf j q)) × (j ≡ suc i) × Inv buf j q)
Follows1 buf i o (thrown l _ _ q) = o ≡ fails l (view buf i q)

abbrev in_state : State → Parser → Parser
in_state st p = record p { state = st }

step_word-Follows1 :
    (st : State) (buf : Bytes) (i b : ℕ) (p : Parser)
    → InvIn st buf i p
    → get_elem? buf i ≡ some b
    → (st ≢ msg_arg)
    → (st ≢ msg_payload)
    → Follows1 buf i
        (feed_as (reads st) b (view_in st buf i p))
        (step_in st buf i b (in_state st p))
unfolding step_in feed_as
step_word-Follows1 op_start buf i b p v e n m = ground arith
step_word-Follows1 minus_err_arg buf i b p v e n m =
    ground (arith, slice-suc buf p.start (i - p.dropped) b)
step_word-Follows1 info_arg buf i b p v e n m =
    ground (arith, slice-suc buf p.start (i - p.dropped) b)
step_word-Follows1 op_msg_spc buf i b p v e n m =
    ground (arith, slice-suc buf i i b, slice_self buf i)
step_word-Follows1 op_minus_err_spc buf i b p v e n m =
    ground (arith, slice-suc buf i i b, slice_self buf i)
step_word-Follows1 op_info_spc buf i b p v e n m =
    ground (arith, slice-suc buf i i b, slice_self buf i)
step_word-Follows1 msg_arg buf i b p v e n m = absurd (n refl)
step_word-Follows1 msg_payload buf i b p v e n m = absurd (m refl)
step_word-Follows1 _ buf i b p v e n m = ground arith

-- One round of the loop, which reads at least one byte.
abbrev pub Follows : Bytes → ℕ → Outcome → Result (Parser × ℕ) → Type 0
Follows buf i o (Result.ok (q, j)) =
    (o ≡ stray) ⊎ ((o ≡ run (view buf j q) (drop j buf)) × (i < j) × Inv buf j q)
Follows buf i o (thrown l _ _ q) = o ≡ fails l (view buf i q)

-- The payload that a jump of the index skips is what the stream takes in.
run_jump :
    (buf : Bytes) (i size : ℕ) (s : Stream)
    → size ≡ size_of s.ma
    → run (filled s []) (drop i buf) ≡ run (filled s (slice buf i (i + size))) (drop (i + size) buf)
run_jump buf i size s e =
    let short : length (slice buf i (i + size)) ≤ size_of s.ma =
      omega (arith, length-slice buf i (i + size)) in
    rw (← slice-append-drop buf i (i + size) (omega arith))
      (run-filled s [] (slice buf i (i + size)) (drop (i + size) buf) (omega arith))

-- `processMsgArgs` has returned, or thrown.
abbrev taken : Stream → Result Parser → Outcome
taken s (Result.ok q) = next (filled (record s { ma = q.ma; cr = false }) [])
taken s (thrown label _ _ q) = fails label (record s { ma = q.ma })

abbrev jumped : ℕ → Result Parser → Result (Parser × ℕ)
jumped i r = bind r (λ q.
    Result.ok (record q { dropped = 0; start = suc i; state = msg_payload }, suc i + size_of q.ma))

jumped-Follows :
    (buf : Bytes) (i : ℕ) (p : Parser) (r : Result Parser)
    → p.msg_buf ≡ none
    → Follows buf i
        (taken (view_in msg_arg buf i p) r >>= λ t. run t (drop (suc i) buf))
        (jumped i (reframe (in_state msg_arg p) r))
jumped-Follows buf i p (Result.ok q) e =
    let s = record (view_in msg_arg buf i p) { ma = q.ma; cr = false } in
    inr (rw e (run_jump buf (suc i) (size_of q.ma) s refl), omega arith, (refl, λ _. refl))
jumped-Follows buf i p (thrown l st bs q) e = refl

-- One byte is a round.
Follows1-Follows :
    (buf : Bytes) (i b : ℕ) (s : Stream) (r : Result (Parser × ℕ))
    → get_elem? buf i ≡ some b
    → Follows1 buf i (feed b s) r
    → Follows buf i (run s (drop i buf)) r
unfolding run
Follows1-Follows buf i b s (Result.ok (q, j)) e f = rw (drop-cons i buf b e) (ground arith)
Follows1-Follows buf i b s (thrown l st bs q) e f = rw (drop-cons i buf b e) (ground arith)

feed_newline :
    (buf : Bytes) (i b : ℕ) (p : Parser)
    → (b == b'\n') ≡ true
    → feed b (view_in msg_arg buf i p)
      ≡ taken
          (view_in msg_arg buf i p)
          (process_msg_args (arg_of buf i p) (bare_parser msg_arg p.hdr p.ma))
unfolding feed feed_as
feed_newline buf i b p e = ground arith

step_newline :
    (buf : Bytes) (i b : ℕ) (p : Parser)
    → (b == b'\n') ≡ true
    → step_in msg_arg buf i b (in_state msg_arg p)
      ≡ jumped i (process_msg_args (arg_of buf i p) (in_state msg_arg p))
unfolding step_in
step_newline buf i b p e = ground arith

step_msg_arg-Follows :
    (buf : Bytes) (i b : ℕ) (p : Parser)
    → InvIn msg_arg buf i p
    → get_elem? buf i ≡ some b
    → Follows buf i
        (run (view_in msg_arg buf i p) (drop i buf))
        (step_in msg_arg buf i b (in_state msg_arg p))
step_msg_arg-Follows buf i b p v e = elim (Bool-cases (b == b'\n')) [
  | inl newline ↦
      rw (drop-cons i buf b e, step_newline buf i b p newline, process_msg_args-frame)
        (unfold run in rw (feed_newline buf i b p newline) (jumped-Follows buf i p _ v.0))
  | inr other ↦
      Follows1-Follows buf i b (view_in msg_arg buf i p) _ e
        (unfold feed feed_as step_in in ground (arith, slice-suc buf p.start (i - p.dropped) b))
]

-- A round that copies from the buffer.
copied-Follows :
    (buf : Bytes) (i : ℕ) (m : Bytes) (p : Parser) (n : ℕ)
    → 0 < n
    → length m + n ≤ size_of p.ma
    → p.msg_buf ≡ some m
    → p.dropped ≡ 0
    → Follows buf i (run (view_in msg_payload buf i p) (drop i buf)) (
        Result.ok
          (record p { state = msg_payload; msg_buf = some (m ++ slice buf i (i + n)) }, i + n))
copied-Follows buf i m p n pos fits e d =
    let s = view_in msg_payload buf i p in
    let short : length (slice buf i (i + n)) ≤ n = omega (arith, length-slice buf i (i + n)) in
    inr (
      rw (← slice-append-drop buf i (i + n) (omega arith))
          (rw e (run-filled s m (slice buf i (i + n)) (drop (i + n) buf) (omega arith))),
      omega arith,
      (d, λ h. absurd (cc)),
    )

step_payload-Follows :
    (buf : Bytes) (i b : ℕ) (p : Parser)
    → InvIn msg_payload buf i p
    → get_elem? buf i ≡ some b
    → Follows buf i
        (run (view_in msg_payload buf i p) (drop i buf))
        (step_in msg_payload buf i b (in_state msg_payload p))
step_payload-Follows buf i b p v e = elim (Option-cases p.msg_buf) [
  | inl unset ↦ Follows1-Follows buf i b (view_in msg_payload buf i p) _ e (
      unfold feed feed_as step_in in
      ground (arith, length-slice buf p.start i, get_elem?-lt buf i b e, v.1 unset))
  | inr (m, set) ↦ elim (Bool-cases (leb (size_of p.ma) (length m))) [
    | inl full ↦
        Follows1-Follows buf i b (view_in msg_payload buf i p) _ e
          (unfold feed feed_as step_in in ground arith)
    | inr more ↦
        unfold step_in in
        ground (
          arith,
          get_elem?-lt buf i b e,
          copied-Follows buf i m p (min (size_of p.ma - length m) (length buf - i)),
        )
  ]
]

-- A round.
pub step-Follows :
    (buf : Bytes) (i b : ℕ) (p : Parser)
    → Inv buf i p
    → get_elem? buf i ≡ some b
    → Follows buf i (run (view buf i p) (drop i buf)) (step_in p.state buf i b p)
step-Follows buf i b p v e = go p.state v
  where
    go :
        (st : State)
        → InvIn st buf i p
        → Follows buf i (run (view_in st buf i p) (drop i buf)) (step_in st buf i b (in_state st p))
    go msg_arg w = step_msg_arg-Follows buf i b p w e
    go msg_payload w = step_payload-Follows buf i b p w e
    go st w =
        Follows1-Follows buf i b _ _ e
          (unfold feed in step_word-Follows1 st buf i b p w e (cc) (cc))
