-- ===== src/Mux/Live.antt =====
-- A request is known to the multiplexer exactly as long as it is open.
use nats_deno.Base.{
  ℕ, zero, suc, ◌≡◌, ◌≢◌, refl, sym, ap, subst, ◌∙◌, inl, inr, Bool, true, false, Option, none,
  some, List, [], ◌∷◌, Bytes, bytes_eq, bytes_eq_refl, bytes_eq_sound, length, get_elem?, ◌==◌,
  if◌then◌else◌, arith, Bool-cases, Option-cases,
}
use nats_deno.Mux.Requests.{
  publish, subscription, Failure, timed_out, no_responders, cancelled, permission, other,
  is_request_error, Reply, Request, Mux, settle, cancel_series, cancel_request, answer_series,
  answer_request, passed_on,
}
use nats_deno.Mux.Table.{
  Event, starts_one, arrives, fires, cancels, errs, closes, write, find, forget, cancel, resolve,
  add, get_token, dispatch, no_message, fail_each, by_subject, handle_error, fire, step, run,
}
use nats_deno.Mux.Store.{
  is_open, get_elem?-write, find-enter, get_elem?-last, at_end, get_elem?-append, IsLive,
  write-IsLive, close-IsLive,
}

cancel_request-closes :
    (err : Option Failure) (r : Request)
    → ((cancel_request err r).token ≡ r.token) × (is_open (cancel_request err r) ≡ false)
unfolding cancel_request settle cancel_series
cancel_request-closes err r = (ground arith, ground arith)

pub cancel-at :
    (err : Option Failure) (i : ℕ) (m : Mux) (r : Request)
    → get_elem? m.store i ≡ some r
    → cancel err i m
      ≡ record m { reqs = forget r.token m.reqs; store = write i (cancel_request err r) m.store }
unfolding cancel
cancel-at err i m r e = ground arith

cancel-unknown :
    (err : Option Failure) (i : ℕ) (m : Mux) → get_elem? m.store i ≡ none → cancel err i m ≡ m
unfolding cancel
cancel-unknown err i m e = ground arith

cancel-IsLive : (err : Option Failure) (i : ℕ) (m : Mux) → IsLive m → IsLive (cancel err i m)
cancel-IsLive err i m h = elim (Option-cases (get_elem? m.store i)) [
  | inl e ↦ subst IsLive (sym (cancel-unknown err i m e)) h
  | inr (r, e) ↦
      let (t, o) = cancel_request-closes err r in
      subst IsLive (sym (cancel-at err i m r e)) (close-IsLive i r (cancel_request err r) m h e t o)
]

-- An answer keeps the token; where the request is not cancelled, it stays as it was.
pub answer_request-keeps :
    (err : Option Failure) (msg : Reply) (r : Request)
    → ((answer_request err msg r).0.token ≡ r.token)
      × ((answer_request err msg r).1 ≡ false → is_open (answer_request err msg r).0 ≡ is_open r)
unfolding answer_request settle answer_series
answer_request-keeps err msg r = (ground arith, λ e. ground arith)

write_twice : (i : ℕ) (r q : Request) (qs : List Request) → write i q (write i r qs) ≡ write i q qs
unfolding write
write_twice i r q [] = refl
write_twice zero r q (p ∷ qs) = refl
write_twice (suc i) r q (p ∷ qs) = ap (λ ps. p ∷ ps) (write_twice i r q qs)

-- The request behind the resolver: it is answered, and cancelled where the answer was the last.
abbrev pub outcome : Option Failure → Reply → Request → Request
outcome err msg r =
    let (answered, over) = answer_request err msg r in
    if over then cancel_request (passed_on err r) answered else answered

pub resolve-at :
    (err : Option Failure) (msg : Reply) (i : ℕ) (m : Mux) (r : Request)
    → get_elem? m.store i ≡ some r
    → resolve err msg i m ≡ record m {
      reqs = if (answer_request err msg r).1 then forget r.token m.reqs else m.reqs;
      store = write i (outcome err msg r) m.store;
    }
unfolding resolve
resolve-at err msg i m r e =
    let a = (answer_request err msg r).0 in
    let n = record m { store = write i a m.store } in
    ground (
      arith,
      cancel-at (passed_on err r) i n a,
      get_elem?-write i i a r m.store e,
      write_twice i a (cancel_request (passed_on err r) a) m.store,
      answer_request-keeps err msg r,
    )

resolve-unknown :
    (err : Option Failure) (msg : Reply) (i : ℕ) (m : Mux)
    → get_elem? m.store i ≡ none
    → resolve err msg i m ≡ m
unfolding resolve
resolve-unknown err msg i m e = ground arith

resolve-IsLive :
    (err : Option Failure) (msg : Reply) (i : ℕ) (m : Mux) → IsLive m → IsLive (resolve err msg i m)
resolve-IsLive err msg i m h = elim (Option-cases (get_elem? m.store i)) [
  | inl e ↦ subst IsLive (sym (resolve-unknown err msg i m e)) h
  | inr (r, e) ↦
      let (token, same) = answer_request-keeps err msg r in
      let a = (answer_request err msg r).0 in
      let (token_c, closed) = cancel_request-closes (passed_on err r) a in
      subst IsLive (sym (resolve-at err msg i m r e))
        (elim (Bool-cases (answer_request err msg r).1) [
          | inl over ↦
              rw over (
                close-IsLive i r (cancel_request (passed_on err r) a) m h e (token_c ∙ token)
                  closed)
          | inr stays ↦ rw stays (write-IsLive i r a m h e token (same stays))
        ])
]

fail_each-IsLive :
    (e : Failure) (ts : List (Bytes × ℕ)) (m : Mux) → IsLive m → IsLive (fail_each e ts m)
unfolding fail_each
fail_each-IsLive e [] m h = h
fail_each-IsLive e ((t, i) ∷ ts) m h =
    fail_each-IsLive e ts (resolve (some e) no_message i m)
      (resolve-IsLive (some e) no_message i m h)

-- The failure that a resolver sees.
abbrev pub seen : Option Failure → Reply → Option Failure
seen err msg = elim err [ none ↦ is_request_error msg | some e ↦ some e ]

-- The request that a message goes to.
unfoldable pub addressee : Reply → Mux → Option ℕ
unfolding get_token find
addressee msg m = elim (get_token msg m) [
  | none ↦ none
  | some t ↦ if length t == 0 then none else find t m.reqs
]

pub dispatch-at :
    (err : Option Failure) (msg : Reply) (m : Mux)
    → dispatch err msg m
      ≡ elim (addressee msg m) [ none ↦ m | some i ↦ resolve (seen err msg) msg i m ]
unfolding dispatch addressee
dispatch-at err msg m = ground arith

dispatch-IsLive :
    (err : Option Failure) (msg : Reply) (m : Mux) → IsLive m → IsLive (dispatch err msg m)
dispatch-IsLive err msg m h = subst IsLive (sym (dispatch-at err msg m)) (go (addressee msg m))
  where
    go : (o : Option ℕ) → IsLive (elim o [ none ↦ m | some i ↦ resolve (seen err msg) msg i m ])
    go none = h
    go (some i) = resolve-IsLive (seen err msg) msg i m h

handle_error-IsLive :
    (is_mux : Bool) (err : Option Failure) (m : Mux)
    → IsLive m
    → IsLive (handle_error is_mux err m).1
unfolding handle_error
handle_error-IsLive is_mux none m h = h
handle_error-IsLive true (some (permission o s)) m h = fail_each-IsLive (permission o s) m.reqs m h
handle_error-IsLive false (some (permission publish s)) m h =
    elim (Option-cases (by_subject s m.reqs m.store)) [
      | inl e ↦ rw e h
      | inr (i, e) ↦ rw e (resolve-IsLive (some (permission publish s)) no_message i m h)
    ]
handle_error-IsLive false (some (permission subscription s)) m h = h
handle_error-IsLive is_mux (some timed_out) m h = h
handle_error-IsLive is_mux (some no_responders) m h = h
handle_error-IsLive is_mux (some cancelled) m h = h
handle_error-IsLive is_mux (some (other n)) m h = h

-- The token of a new request is that of no other.
abbrev pub IsFresh : Event → Mux → Type 0
IsFresh (starts_one r) m =
    (is_open r ≡ true) × ((i : ℕ) (q : Request) → get_elem? m.store i ≡ some q → q.token ≢ r.token)
IsFresh e m = Unit

add-IsLive : (r : Request) (m : Mux) → IsLive m → IsFresh (starts_one r) m → IsLive (add r m)
unfolding add
add-IsLive r m (names, open_in, holds) (o, f) = (
  (λ j k s p a b same. elim (at_end r m.store j s a) [
    | inl (x, y) ↦ elim (at_end r m.store k p b) [
      | inl (z, w) ↦ x ∙ sym z
      | inr w ↦ absurd (f k p w (sym same ∙ ap (λ (o : Request). o.token) y))
    ]
    | inr y ↦ elim (at_end r m.store k p b) [
      | inl (z, w) ↦ absurd (f j s y (same ∙ ap (λ (o : Request). o.token) w))
      | inr w ↦ names j k s p y w same
    ]
  ]),
  (λ j s a. elim (at_end r m.store j s a) [
    | inl (x, y) ↦
        rw (x, y, o)
          (ground
            (arith, find-enter r.token r.token (length m.store) m.reqs, bytes_eq_refl r.token))
    | inr y ↦ ground (
      arith,
      find-enter r.token s.token (length m.store) m.reqs,
      open_in j s y,
      f j s y,
      bytes_eq_sound r.token s.token,
    )
  ]),
  (λ u j a. elim (Bool-cases (bytes_eq r.token u)) [
    | inl same ↦
        let here : j ≡ length m.store =
          ground (arith, find-enter r.token u (length m.store) m.reqs) in
        (r, rw here (get_elem?-last r m.store), bytes_eq_sound r.token u same)
    | inr differ ↦
        let (s, b, token) =
          holds u j (ground (arith, find-enter r.token u (length m.store) m.reqs)) in
        (s, get_elem?-append m.store (r ∷ []) j s b, token)
  ]),
)

fire-at :
    (i : ℕ) (m : Mux) (r : Request)
    → get_elem? m.store i ≡ some r
    → (if r.armed then cancel none i m else m) ≡ fire i m
unfolding fire
fire-at i m r e = ground arith

fire-unknown : (i : ℕ) (m : Mux) → get_elem? m.store i ≡ none → m ≡ fire i m
unfolding fire
fire-unknown i m e = ground arith

fire-IsLive : (i : ℕ) (m : Mux) → IsLive m → IsLive (fire i m)
fire-IsLive i m h = elim (Option-cases (get_elem? m.store i)) [
  | inl e ↦ subst IsLive (fire-unknown i m e) h
  | inr (r, e) ↦
      subst IsLive (fire-at i m r e) (elim (Bool-cases r.armed) [
        | inl on ↦ rw on (cancel-IsLive none i m h)
        | inr off ↦ rw off h
      ])
]

pub step-IsLive : (e : Event) (m : Mux) → IsLive m → IsFresh e m → IsLive (step e m)
unfolding step
step-IsLive (starts_one r) m h f = add-IsLive r m h f
step-IsLive (arrives err msg) m h f = dispatch-IsLive err msg m h
step-IsLive (fires i) m h f = fire-IsLive i m h
step-IsLive (cancels err i) m h f = cancel-IsLive err i m h
step-IsLive (errs is_mux err) m h f = handle_error-IsLive is_mux err m h
step-IsLive closes m h f = fail_each-IsLive timed_out m.reqs m h

-- The new requests of a run are open, and each has a token of its own.
abbrev pub AreFresh : List Event → Mux → Type 0
AreFresh [] m = Unit
AreFresh (e ∷ es) m = IsFresh e m × AreFresh es (step e m)

-- Whatever happens, in whichever order - new requests whose tokens are new, messages, timers,
-- cancellations, permission errors, the end of the connection - a request is in the multiplexer's map
-- under its token if it is open, and is not there any more once it is settled: none is lost, and none
-- is left behind.
pub run-IsLive : (es : List Event) (m : Mux) → IsLive m → AreFresh es m → IsLive (run es m)
unfolding run
run-IsLive [] m h f = h
run-IsLive (e ∷ es) m h (f, fs) = run-IsLive es (step e m) (step-IsLive e m h f) fs
