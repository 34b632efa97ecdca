-- ===== src/Mux/Table.antt =====
-- nats-base-client/muxsubscription.ts: `MuxSubscription`, and what can happen to it.
use nats_deno.Base.{
  ℕ, zero, suc, Bool, true, false, Option, none, some, List, [], ◌∷◌, ◌++◌, Bytes, bytes_eq, length,
  get_elem?, drop, ◌==◌, if◌then◌else◌,
}
use nats_deno.Headers.Lines.{starts}
use nats_deno.Mux.Requests.{
  Failure, Reply, Request, Mux, is_request_error, cancel_request, answer_request, passed_on,
  publish, subscription, timed_out, permission,
}

unfoldable pub write : ℕ → Request → List Request → List Request
write i r [] = []
write zero r (q ∷ qs) = r ∷ qs
write (suc i) r (q ∷ qs) = q ∷ write i r qs

-- The map of the tokens: `get`, `delete` and `set`.
unfoldable pub find : Bytes → List (Bytes × ℕ) → Option ℕ
find t [] = none
find t ((u, i) ∷ ts) = if bytes_eq u t then some i else find t ts

unfoldable pub forget : Bytes → List (Bytes × ℕ) → List (Bytes × ℕ)
forget t [] = []
forget t ((u, i) ∷ ts) = if bytes_eq u t then forget t ts else (u, i) ∷ forget t ts

unfoldable pub enter : Bytes → ℕ → List (Bytes × ℕ) → List (Bytes × ℕ)
enter t i [] = (t, i) ∷ []
enter t i ((u, j) ∷ ts) = if bytes_eq u t then (u, i) ∷ ts else (u, j) ∷ enter t i ts

-- `cancel` of the request at `i`.
unfoldable pub cancel : Option Failure → ℕ → Mux → Mux
unfolding cancel_request write forget
cancel err i m = elim (get_elem? m.store i) [
  | none ↦ m
  | some r ↦ record m {
    reqs = forget r.token m.reqs;
    store = write i (cancel_request err r) m.store;
  }
]

-- `resolver` of the request at `i`.
unfoldable pub resolve : Option Failure → Reply → ℕ → Mux → Mux
unfolding answer_request cancel write
resolve err msg i m = elim (get_elem? m.store i) [
  | none ↦ m
  | some r ↦
      let (answered, over) = answer_request err msg r in
      let n = record m { store = write i answered m.store } in
      if over then cancel (passed_on err r) i n else n
]

-- `new` and `add`
unfoldable pub add : Request → Mux → Mux
unfolding enter
add r m = record m { reqs = enter r.token (length m.store) m.reqs; store = m.store ++ r ∷ [] }

-- `getToken`
unfoldable pub get_token : Reply → Mux → Option Bytes
unfolding starts
get_token msg m =
    if starts m.base_inbox msg.subject then some (drop (length m.base_inbox) msg.subject) else none

-- `dispatcher`
unfoldable pub dispatch : Option Failure → Reply → Mux → Mux
unfolding get_token find is_request_error resolve
dispatch err msg m = elim (get_token msg m) [
  | none ↦ m
  | some t ↦ if length t == 0 then m else elim (find t m.reqs) [
    | none ↦ m
    | some i ↦
        let seen : Option Failure = elim err [ none ↦ is_request_error msg | some e ↦ some e ] in
        resolve seen msg i m
  ]
]

abbrev pub no_message : Reply
no_message = record { subject = []; data_of = []; headers = none }

-- Each request in turn gets the failure.
unfoldable pub fail_each : Failure → List (Bytes × ℕ) → Mux → Mux
unfolding resolve
fail_each e [] m = m
fail_each e ((t, i) ∷ ts) m = fail_each e ts (resolve (some e) no_message i m)

-- `close`
abbrev pub close : Mux → Mux
close m = fail_each timed_out m.reqs m

-- The first request with this subject.
unfoldable pub by_subject : Bytes → List (Bytes × ℕ) → List Request → Option ℕ
by_subject s [] store = none
by_subject s ((t, i) ∷ ts) store =
    let rest = by_subject s ts store in
    elim (get_elem? store i) [
      | none ↦ rest
      | some r ↦ if bytes_eq r.subject s then some i else rest
    ]

-- `handleError`
unfoldable pub handle_error : Bool → Option Failure → Mux → Bool × Mux
unfolding fail_each by_subject resolve
handle_error is_mux none m = (false, m)
handle_error is_mux (some (permission o s)) m =
    if is_mux then (true, fail_each (permission o s) m.reqs m) else elim o [
      | publish ↦ elim (by_subject s m.reqs m.store) [
        | none ↦ (false, m)
        | some i ↦ (true, resolve (some (permission publish s)) no_message i m)
      ]
      | subscription ↦ (false, m)
    ]
handle_error is_mux (some e) m = (false, m)

-- What can happen: a new request, a message on the subscription, a timer, a call of `cancel`, an error
-- of the server, and the end of the connection.
pub data Event : Type 0 where
  starts_one : Request → Event
  arrives : Option Failure → Reply → Event
  fires : ℕ → Event
  cancels : Option Failure → ℕ → Event
  errs : Bool → Option Failure → Event
  closes : Event

-- The timer of a request, behind which it is cancelled. The client of a single one is told of the
-- timeout by the timer's own promise.
unfoldable pub fire : ℕ → Mux → Mux
unfolding cancel
fire i m = elim (get_elem? m.store i) [ none ↦ m | some r ↦ if r.armed then cancel none i m else m ]

unfoldable pub step : Event → Mux → Mux
unfolding add dispatch fire cancel handle_error
step (starts_one r) m = add r m
step (arrives err msg) m = dispatch err msg m
step (fires i) m = fire i m
step (cancels err i) m = cancel err i m
step (errs is_mux err) m = (handle_error is_mux err m).1
step closes m = close m

unfoldable pub run : List Event → Mux → Mux
unfolding step
run [] m = m
run (e ∷ es) m = run es (step e m)
