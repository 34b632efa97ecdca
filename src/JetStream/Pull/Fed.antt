-- ===== src/JetStream/Pull/Fed.antt =====
-- What is asked for, and not yet received, stays within the limits.
use nats_deno.Base.{
  ℕ, ◌+◌, ◌-◌, ◌≤◌, ◌<◌, ◌≡◌, refl, subst, ◌⊎◌, inl, inr, Bool, true, false, not, ◌&&◌, ◌||◌, some,
  List, [], ◌∷◌, Bytes, codes, bytes_eq, ltb, ◌==◌, if◌then◌else◌, arith, if-elim, Option-cases,
}
use nats_deno.JetStream.Pull.{
  Signed, no_count, is_zero, less, Options, Pull, Reason, no_reason, given, status, stops, delivers,
  emit, parse_options, stop, push_stop, pull, Incoming, failure, heartbeat, info, message, is_low,
  refill, settle, receive, Answer, exists, stream_missing, consumer_missing, unclear, ask_again,
  ask, wait, attempt, reset_pending, Event, receives, resets, retries, answers, closes, finishes,
  step, run, Flags, opened, new_pull,
}

-- Between the threshold and the limit, or at the limit.
abbrev pub IsBetween : Signed → ℕ → ℕ → Type 0
IsBetween n threshold limit =
    (n.plus ≤ limit + n.minus) × ((threshold + n.minus < n.plus) ⊎ (n.plus ≡ limit + n.minus))

-- The limits, the counters and the kind of a consumer.
abbrev pub Feeds : Options → Signed → Signed → Bool → Type 0
Feeds o msgs bytes refilling =
    (0 < o.max_messages)
    × (msgs.plus ≤ o.max_messages + msgs.minus)
    × (bytes.plus ≤ o.max_bytes + bytes.minus)
    × (refilling ≡ true
        → IsBetween msgs o.threshold_messages o.max_messages
          × (0 < o.max_bytes → IsBetween bytes o.threshold_bytes o.max_bytes))

abbrev pub IsFed : Pull → Type 0
IsFed p = Feeds p.opts p.msgs p.bytes p.refilling

stop-Same :
    (why : Reason) (p : Pull)
    → ((stop why p).opts ≡ p.opts)
      × ((stop why p).msgs ≡ p.msgs)
      × ((stop why p).bytes ≡ p.bytes)
      × ((stop why p).refilling ≡ p.refilling)
unfolding stop
stop-Same why p = (ground arith, ground arith, ground arith, ground arith)

abbrev Same : Pull → Pull → Type 0
Same q p = (q.opts ≡ p.opts) × (q.msgs ≡ p.msgs) × (q.bytes ≡ p.bytes) × (q.refilling ≡ p.refilling)

IsFed-Same : (q p : Pull) → Same q p → IsFed p → IsFed q
IsFed-Same q p (o, m, b, r) h = rw (o, m, b, r) h

-- Behind a request everything that is allowed is asked for.
pull-IsFed : (p : Pull) → 0 < p.opts.max_messages → IsFed (pull p)
unfolding pull
pull-IsFed p h = (
  h,
  omega arith,
  omega arith,
  λ r. ((omega arith, inr (omega arith)), λ b. (omega arith, inr (omega arith))),
)

-- The limits hold, of whatever the thresholds say.
abbrev IsWithin : Pull → Type 0
IsWithin p =
    (0 < p.opts.max_messages)
    × (p.msgs.plus ≤ p.opts.max_messages + p.msgs.minus)
    × (p.bytes.plus ≤ p.opts.max_bytes + p.bytes.minus)

push_stop-Same : (p : Pull) → Same (push_stop p) p
unfolding push_stop
push_stop-Same p =
    if-elim (λ q. Same q p) p.has_callback (stop no_reason p) (record p { outputs = emit stops p })
      (λ e. stop-Same no_reason p) (λ e. (refl, refl, refl, refl))

not_low :
    (p : Pull)
    → IsWithin p
    → is_low p ≡ false
    → IsBetween p.msgs p.opts.threshold_messages p.opts.max_messages
      × (0 < p.opts.max_bytes → IsBetween p.bytes p.opts.threshold_bytes p.opts.max_bytes)
not_low p (some_limit, m, b) e = ((m, inl (ground arith)), λ h. (b, inl (ground arith)))

refill-IsFed : (p : Pull) → IsWithin p → IsFed (refill p)
unfolding refill
refill-IsFed p h =
    if-elim IsFed p.refilling (if is_low p then pull p else p)
      (if is_zero p.asked then push_stop p else p)
      (λ on.
        if-elim IsFed (is_low p) (pull p) p (λ low. pull-IsFed p h.0)
          (λ high. (h.0, h.1, h.2, λ r. not_low p h high)))
      (λ off.
        let fed : IsFed p = (h.0, h.1, h.2, λ r. absurd (ground arith)) in
        if-elim IsFed (is_zero p.asked) (push_stop p) p
          (λ over. IsFed-Same (push_stop p) p (push_stop-Same p) fed) (λ more. fed))

settle-IsFed : (p : Pull) → IsWithin p → IsFed (settle p)
unfolding settle
settle-IsFed p h =
    refill-IsFed (if is_zero p.msgs && is_zero p.bytes then record p { asked = no_count } else p) (
      if-elim IsWithin (is_zero p.msgs && is_zero p.bytes) (record p { asked = no_count }) p
        (λ e. h) (λ e. h))

IsFed-IsWithin : (p : Pull) → IsFed p → IsWithin p
IsFed-IsWithin p (l, m, b, r) = (l, m, b)

stop-IsFed : (why : Reason) (p : Pull) → IsFed p → IsFed (stop why p)
stop-IsFed why p h = IsFed-Same (stop why p) p (stop-Same why p) h

-- A status that stops a fetch.
abbrev stopping : Reason → Pull → Pull
stopping why p = if not p.refilling || p.abort_on_missing then stop why p else settle p

stopping-IsFed : (why : Reason) (p : Pull) → IsFed p → IsFed (stopping why p)
stopping-IsFed why p h =
    if-elim IsFed (not p.refilling || p.abort_on_missing) (stop why p) (settle p)
      (λ e. stop-IsFed why p h) (λ e. settle-IsFed p (IsFed-IsWithin p h))

-- A status message without numbers.
abbrev plain : ℕ → Bytes → Pull → Pull
plain code description p =
    if code == 400
    then stop (status 400 description) p
    else if code == 409 && bytes_eq description (codes "consumer deleted")
    then stopping (status 409 description) p
    else if code == 503
    then stopping (status 503 (codes "no responders")) p
    else settle p

plain-IsFed :
    (code : ℕ) (description : Bytes) (p : Pull) → IsFed p → IsFed (plain code description p)
plain-IsFed code description p h =
    let deleted = code == 409 && bytes_eq description (codes "consumer deleted") in
    let nobody = status 503 (codes "no responders") in
    let last = if code == 503 then stopping nobody p else settle p in
    if-elim IsFed (code == 400) (stop (status 400 description) p)
      (if deleted then stopping (status 409 description) p else last)
      (λ e. stop-IsFed (status 400 description) p h)
      (λ e.
        if-elim IsFed deleted (stopping (status 409 description) p) last
          (λ e. stopping-IsFed (status 409 description) p h)
          (λ e.
            if-elim IsFed (code == 503) (stopping nobody p) (settle p)
              (λ e. stopping-IsFed nobody p h) (λ e. settle-IsFed p (IsFed-IsWithin p h))))

fewer :
    (n : Signed) (k limit : ℕ) (b : Bool)
    → n.plus ≤ limit + n.minus
    → (if b then n else less n k).plus ≤ limit + (if b then n else less n k).minus
fewer n k limit true h = h
fewer n k limit false h = omega arith

receive-IsFed : (i : Incoming) (p : Pull) → IsFed p → IsFed (receive i p)
unfolding receive
receive-IsFed (failure e) p h = stop-IsFed (given e) p h
receive-IsFed heartbeat p h = h
receive-IsFed (info code description msgs_left bytes_left) p (l, m, b, r) =
    let given_back = record p {
      msgs = less p.msgs msgs_left;
      bytes = less p.bytes bytes_left;
      asked = less p.asked 1;
    } in
    if-elim IsFed (ltb 0 msgs_left || ltb 0 bytes_left) (settle given_back)
      (plain code description p) (λ e. settle-IsFed given_back (l, omega arith, omega arith))
      (λ e. plain-IsFed code description p (l, m, b, r))
receive-IsFed (message m size) p (l, ms, b, r) =
    let msgs = if is_zero p.msgs then p.msgs else less p.msgs 1 in
    let bytes = if is_zero p.bytes then p.bytes else less p.bytes size in
    settle-IsFed
      (record p {
        outputs = emit (delivers m) p;
        received = p.received + 1;
        msgs = msgs;
        bytes = bytes;
      })
      (
        l,
        fewer p.msgs 1 p.opts.max_messages (is_zero p.msgs) ms,
        fewer p.bytes size p.opts.max_bytes (is_zero p.bytes) b,
      )

ask_again-IsFed : (p : Pull) → 0 < p.opts.max_messages → IsFed (ask_again p)
unfolding ask_again
ask_again-IsFed p h =
    pull-IsFed (record p { msgs = no_count; bytes = no_count; asked = no_count }) h

ask-IsFed : (c : Bool) (p : Pull) → IsFed p → IsFed (ask c p)
unfolding ask
ask-IsFed c p h =
    if-elim IsFed (p.done || c) p (record p { asking = p.asking + 1 }) (λ e. h) (λ e. h)

attempt-IsFed : (a : Answer) (p : Pull) → IsFed p → IsFed (attempt a p)
unfolding attempt
attempt-IsFed exists p h = ask_again-IsFed (record p { in_back_off = false }) h.0
attempt-IsFed stream_missing p h =
    let why = status 404 (codes "stream not found") in
    if-elim IsFed (not p.refilling || p.abort_on_missing) (stop why p) (wait p)
      (λ e. stop-IsFed why p h) (λ e. h)
attempt-IsFed consumer_missing p h =
    let why = status 404 (codes "consumer not found") in
    if-elim IsFed (not p.refilling || p.abort_on_missing) (stop why p)
      (if p.for_ordered then p else wait p) (λ e. stop-IsFed why p h)
      (λ e. if-elim IsFed p.for_ordered p (wait p) (λ e. h) (λ e. h))
attempt-IsFed unclear p h = h

reset_pending-IsFed : (c : Bool) (p : Pull) → IsFed p → IsFed (reset_pending c p)
unfolding reset_pending
reset_pending-IsFed c p h =
    if-elim IsFed p.bind (ask_again p) (if p.in_back_off then p else ask c p)
      (λ e. ask_again-IsFed p h.0)
      (λ e. if-elim IsFed p.in_back_off p (ask c p) (λ e. h) (λ e. ask-IsFed c p h))

step-IsFed : (e : Event) (p : Pull) → IsFed p → IsFed (step e p)
unfolding step
step-IsFed (receives i) p h =
    if-elim IsFed p.subscribed (receive i p) p (λ e. receive-IsFed i p h) (λ e. h)
step-IsFed (resets c) p h = reset_pending-IsFed c p h
step-IsFed (retries c) p h =
    let q = record p { waiting = p.waiting - 1 } in
    if-elim IsFed (p.waiting == 0) p (ask c q) (λ e. h) (λ e. ask-IsFed c q h)
step-IsFed (answers a) p h =
    let q = record p { asking = p.asking - 1 } in
    if-elim IsFed (p.asking == 0) p (attempt a q) (λ e. h) (λ e. attempt-IsFed a q h)
step-IsFed closes p h = stop-IsFed no_reason p h
step-IsFed finishes p h = if-elim IsFed p.subscribed p (record p { done = true }) (λ e. h) (λ e. h)

run-keeps : (es : List Event) (p : Pull) → IsFed p → IsFed (run es p)
unfolding run
run-keeps [] p h = h
run-keeps (e ∷ es) p h = run-keeps es (step e p) (step-IsFed e p h)

some_limit :
    (refilling : Bool) (o q : Options) → parse_options refilling o ≡ some q → 0 < q.max_messages
unfolding parse_options
some_limit refilling o q e = ground arith

-- From the options of a client on, and whatever comes: the numbers of messages and of bytes that a
-- consumer keeps as still to come are never above its limits, and one that refills keeps, behind each
-- event, more than its thresholds as still to come, or all that the limits allow. These are the
-- consumer's own counts, which a status or a reset takes back, so they do not bound the sum of what
-- was asked for.
pub run-IsFed :
    (f : Flags) (o : Options) (p : Pull) (es : List Event)
    → new_pull f o ≡ some p
    → IsFed (run es p)
unfolding new_pull
run-IsFed f o p es e = elim (Option-cases (parse_options f.refills o)) [
  | inl bad ↦ absurd (ground arith)
  | inr (q, good) ↦
      let begun : pull (opened f q) ≡ p = ground arith in
      run-keeps es p (subst IsFed begun (pull-IsFed (opened f q) (some_limit f.refills o q good)))
]
