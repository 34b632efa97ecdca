-- ===== src/Parser/Chunks/Refine.antt =====
-- `Parser.parse` over the chunks of a stream, against the stream.
use nats_deno.Base.{
  fun_ext, ℕ, zero, suc, ◌+◌, ◌≤◌, ◌<◌, ◌≡◌, ◌≢◌, refl, sym, ap, ◌∙◌, ◌⊎◌, inl, inr, Option, none,
  some, List, [], ◌∷◌, ◌++◌, Bytes, get_elem?, length, drop, leb, arith, Option-cases, Bool-cases,
}
use nats_deno.Base.Slices.{
  drop-of_le, take-of_le, get_elem?-of_lt, get_elem?-lt, take-length-append, drop-length-append,
}
use nats_deno.Parser.Args.{
  State, msg_arg, minus_err_arg, info_arg, msg_payload, Parser, Label, Result, thrown,
  ◌>>=◌ as bind, new_parser,
}
use nats_deno.Parser.Machine.{step_in, loop, keep, parse, clone_msg_arg}
use nats_deno.Parser.Stream.{Stream, Outcome, next, fails, stray, run, ◌>>=◌, new_stream, feed}
use nats_deno.Parser.Chunks.{view, view_in, Inv, InvIn}
use nats_deno.Parser.Chunks.Step.{Follows, step-Follows}

-- The exception that a stream predicts: the same label, state and events.
abbrev pub Throws : Outcome → Label → Parser → Type 0
Throws o l q = (t : Stream) × (o ≡ fails l t) × (t.pushed ≡ q.pushed) × (t.state ≡ q.state)

abbrev Ends : Bytes → Outcome → Result (Parser × ℕ) → Type 0
Ends buf o (Result.ok (q, j)) =
    (o ≡ stray) ⊎ ((o ≡ next (view buf j q)) × (length buf ≤ j) × Inv buf j q)
Ends buf o (thrown l _ _ q) = (o ≡ stray) ⊎ Throws o l q

Ends-stray : (buf : Bytes) {o : Outcome} (r : Result (Parser × ℕ)) → o ≡ stray → Ends buf o r
Ends-stray buf (Result.ok (q, j)) e = inl e
Ends-stray buf (thrown _ _ _ q) e = inl e

round-Ends :
    (buf : Bytes) (i : ℕ) (o : Outcome) (rest : Parser × ℕ → Result (Parser × ℕ))
    (r : Result (Parser × ℕ))
    → Follows buf i o r
    → ((q : Parser) (j : ℕ)
        → i < j
        → Inv buf j q
        → Ends buf (run (view buf j q) (drop j buf)) (rest (q, j)))
    → Ends buf o (bind r rest)
round-Ends buf i o rest (Result.ok (q, j)) (inl e) later = Ends-stray buf (rest (q, j)) e
round-Ends buf i o rest (Result.ok (q, j)) (inr (e, lt, v)) later = rw e (later q j lt v)
round-Ends buf i o rest (thrown l st bs q) e later = inr (view buf i q, e, refl, refl)

loop_end :
    (fuel : ℕ) (buf : Bytes) (i : ℕ) (p : Parser)
    → length buf ≤ i
    → loop fuel buf i p ≡ Result.ok (p, i)
unfolding loop
loop_end zero buf i p h = refl
loop_end (suc fuel) buf i p h = elim (Option-cases (get_elem? buf i)) [
  | inl out ↦ rw (out, loop)
  | inr (b, here) ↦ absurd (omega (arith, get_elem?-lt buf i b here))
]

end-Ends :
    (fuel : ℕ) (buf : Bytes) (i : ℕ) (p : Parser)
    → length buf ≤ i
    → Inv buf i p
    → Ends buf (run (view buf i p) (drop i buf)) (loop fuel buf i p)
end-Ends fuel buf i p h v =
    rw (loop_end fuel buf i p h, drop-of_le i buf h) (inr (unfold run in refl, h, v))

loop-Ends :
    (fuel : ℕ) (buf : Bytes) (i : ℕ) (p : Parser)
    → length buf ≤ i + fuel
    → Inv buf i p
    → Ends buf (run (view buf i p) (drop i buf)) (loop fuel buf i p)
unfolding loop
loop-Ends zero buf i p enough v = end-Ends zero buf i p (omega arith) v
loop-Ends (suc fuel) buf i p enough v = elim (Option-cases (get_elem? buf i)) [
  | inl out ↦ end-Ends (suc fuel) buf i p (past out) v
  | inr (b, here) ↦
      rw (here, loop)
        (round-Ends buf i _ _ (step_in p.state buf i b p) (step-Follows buf i b p v here)
          (λ q j lt w. loop-Ends fuel buf j q (omega arith) w))
]
  where
    past : get_elem? buf i ≡ none → length buf ≤ i
    past out = elim (Bool-cases (leb (length buf) i)) [
      | inl le ↦ ground arith
      | inr gt ↦ let (b, here) = get_elem?-of_lt buf i (ground arith) in absurd (cc)
    ]

pub clone_msg_arg-ma : (p : Parser) → (clone_msg_arg p).ma ≡ p.ma
unfolding clone_msg_arg
clone_msg_arg-ma p = go p.ma.reply refl
  where
    go : (r : Option Bytes) → p.ma.reply ≡ r → (clone_msg_arg p).ma ≡ p.ma
    go none e = ground (arith, take-length-append p.ma.subject [])
    go (some r) e =
        ground (arith, take-length-append p.ma.subject r, drop-length-append p.ma.subject r)

-- What is kept between two chunks shows the same stream inside any next chunk.
keep-view :
    (buf later : Bytes) (j : ℕ) (p : Parser)
    → length buf ≤ j
    → Inv buf j p
    → (view later 0 (keep buf j p) ≡ view buf j p) × Inv later 0 (keep buf j p)
unfolding keep
keep-view buf later j p h v = go p.state v
  where
    go :
        (st : State)
        → InvIn st buf j p
        → (view later 0 (keep buf j (record p { state = st })) ≡ view_in st buf j p)
          × Inv later 0 (keep buf j (record p { state = st }))
    go msg_arg w = ground arith
    go msg_payload w =
        ground (arith, clone_msg_arg-ma (record p { state = msg_payload }), take-of_le j buf h)
    go minus_err_arg w = ground arith
    go info_arg w = ground arith
    go _ w = ground arith

-- One chunk.
abbrev Parses : Bytes → Outcome → Result Parser → Type 0
Parses later o (Result.ok q) = (o ≡ stray) ⊎ ((o ≡ next (view later 0 q)) × Inv later 0 q)
Parses later o (thrown l _ _ q) = (o ≡ stray) ⊎ Throws o l q

kept-Parses :
    (buf later : Bytes) (o : Outcome) (r : Result (Parser × ℕ))
    → Ends buf o r
    → Parses later o (bind r (λ e. Result.ok (keep buf e.1 e.0)))
kept-Parses buf later o (Result.ok (q, j)) (inl e) = inl e
kept-Parses buf later o (Result.ok (q, j)) (inr (e, h, v)) =
    let (same, w) = keep-view buf later j q h v in inr (e ∙ ap next (sym same), w)
kept-Parses buf later o (thrown l st bs q) e = e

parse-Parses :
    (buf later : Bytes) (p : Parser)
    → Inv buf 0 p
    → Parses later (run (view buf 0 p) buf) (parse buf p)
unfolding parse
parse-Parses buf later p v =
    kept-Parses buf later _ (loop (length buf) buf 0 p)
      (loop-Ends (length buf) buf 0 p (omega arith) v)

bind_assoc : (o : Outcome) (f g : Stream → Outcome) → (o >>= f >>= g) ≡ (o >>= λ t. f t >>= g)
bind_assoc (next t) f g = refl
bind_assoc _ f g = refl

pub run-append : (s : Stream) (xs ys : Bytes) → run s (xs ++ ys) ≡ (run s xs >>= λ t. run t ys)
unfolding run
run-append s [] ys = refl
run-append s (x ∷ xs) ys =
    ap (◌>>=◌ (feed x s)) (fun_ext (λ t. run-append t xs ys))
    ∙ sym (bind_assoc (feed x s) (λ t. run t xs) (λ t. run t ys))

-- `for await (const b of this.transport) { this.parser.parse(b); }`
unfoldable pub parse_all : List Bytes → Parser → Result Parser
parse_all [] p = Result.ok p
parse_all (chunk ∷ chunks) p = bind (parse chunk p) (parse_all chunks)

abbrev pub joined : List Bytes → Bytes
joined [] = []
joined (chunk ∷ chunks) = chunk ++ joined chunks

-- A parser and a stream that have read the same bytes: both go on, with the same state and the
-- same events; or both have failed, for the same reason and behind the same events.
abbrev pub Agrees : Outcome → Result Parser → Type 0
Agrees stray r = Unit {0}
Agrees (next t) (Result.ok q) = (t.state ≡ q.state) × (t.pushed ≡ q.pushed)
Agrees (fails l t) (thrown k _ _ q) = (l ≡ k) × (t.state ≡ q.state) × (t.pushed ≡ q.pushed)
Agrees _ _ = ⊥

Agrees-stray : {o : Outcome} (r : Result Parser) → o ≡ stray → Agrees o r
Agrees-stray r e = rw e tt

chunk-Agrees :
    (buf : Bytes) (o : Outcome) (rest : Stream → Outcome) (r : Result Parser)
    (more : Parser → Result Parser)
    → Parses buf o r
    → ((q : Parser) → Inv buf 0 q → Agrees (rest (view buf 0 q)) (more q))
    → Agrees (o >>= rest) (bind r more)
chunk-Agrees buf o rest (Result.ok q) more (inl e) later = rw e tt
chunk-Agrees buf o rest (Result.ok q) more (inr (e, v)) later = rw e (later q v)
chunk-Agrees buf o rest (thrown l st bs q) more (inl e) later = rw e tt
chunk-Agrees buf o rest (thrown l st bs q) more (inr (t, e, same, st')) later =
    rw e (refl, st', same)

abbrev head_of : List Bytes → Bytes
head_of [] = []
head_of (chunk ∷ _) = chunk

parse_all-Agrees_from :
    (chunks : List Bytes) (p : Parser)
    → Inv (head_of chunks) 0 p
    → Agrees (run (view (head_of chunks) 0 p) (joined chunks)) (parse_all chunks p)
unfolding parse_all run
parse_all-Agrees_from [] p v = (refl, refl)
parse_all-Agrees_from (chunk ∷ chunks) p v = rw run-append (
    chunk-Agrees (head_of chunks) _ (λ t. run t (joined chunks)) (parse chunk p) (parse_all chunks)
      (parse-Parses chunk (head_of chunks) p v) (λ q w. parse_all-Agrees_from chunks q w))

-- However a stream is cut into chunks, a new parser that is handed them in turn does what the
-- description of the protocol says of the whole stream: the same events in the same order and the
-- same state at the end, or the same error behind the same events. Nothing is said of a stream
-- with a carriage return inside an argument.
pub parse_all-Agrees :
    (chunks : List Bytes) → Agrees (run new_stream (joined chunks)) (parse_all chunks new_parser)
parse_all-Agrees chunks = parse_all-Agrees_from chunks new_parser (refl, refl, refl)

-- Both have returned, in the same state and with the same events pushed, or both have thrown, with
-- the same label, in the same state and behind the same events.
abbrev pub SameResult : Result Parser → Result Parser → Type 0
SameResult (Result.ok p) (Result.ok q) = (p.state ≡ q.state) × (p.pushed ≡ q.pushed)
SameResult (thrown l _ _ p) (thrown k _ _ q) = (l ≡ k) × (p.state ≡ q.state) × (p.pushed ≡ q.pushed)
SameResult _ _ = ⊥

Agrees-SameResult :
    (o : Outcome) (r r' : Result Parser) → o ≢ stray → Agrees o r → Agrees o r' → SameResult r r'
Agrees-SameResult (next t) (Result.ok p) (Result.ok q) fine a b = (cc, cc)
Agrees-SameResult (fails l t) (thrown _ _ _ p) (thrown _ _ _ q) fine a b = (cc, cc, cc)
Agrees-SameResult stray _ _ fine a b = absurd (fine refl)
Agrees-SameResult (next t) (Result.ok p) (thrown _ _ _ q) fine a b = absurd b
Agrees-SameResult (next t) (thrown _ _ _ p) _ fine a b = absurd a
Agrees-SameResult (fails l t) (thrown _ _ _ p) (Result.ok q) fine a b = absurd b
Agrees-SameResult (fails l t) (Result.ok p) _ fine a b = absurd a

-- Two ways to cut one stream that has no carriage return inside an argument have the same result:
-- both parsers return in the same state, or both throw with the same label in the same state, and
-- they have pushed the same events.
pub parse_all-cut :
    (xs ys : List Bytes)
    → joined xs ≡ joined ys
    → run new_stream (joined xs) ≢ stray
    → SameResult (parse_all xs new_parser) (parse_all ys new_parser)
parse_all-cut xs ys e fine =
    Agrees-SameResult _ _ _ fine (parse_all-Agrees xs) (rw e (parse_all-Agrees ys))
