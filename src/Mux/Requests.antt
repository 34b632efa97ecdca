-- ===== src/Mux/Requests.antt =====
-- nats-base-client/request.ts: `RequestOne` and `RequestMany`, with the state of the multiplexer that
-- they share.
use nats_deno.Base.{
  ℕ, zero, suc, Bool, true, false, ◌&&◌, Option, none, some, List, [], ◌∷◌, ◌++◌, Bytes, length,
  ◌==◌, if◌then◌else◌,
}
use nats_deno.Headers.{Headers, pos, negsuc}

pub data Operation : Type 0 where
  publish subscription : Operation

pub data Failure : Type 0 where
  timed_out no_responders cancelled : Failure
  permission : Operation → Bytes → Failure
  other : ℕ → Failure

-- A message, as a request sees it.
pub record Reply : Type 0 where
  pub subject : Bytes
  pub data_of : Bytes
  pub headers : Option Headers

-- A deferred, which is settled once.
pub data Settled : Type 0 where
  pending : Settled
  resolved : Reply → Settled
  rejected : Failure → Settled

pub data Delivery : Type 0 where
  message : Reply → Delivery
  failed : Failure → Delivery
  ended : Delivery

pub data Strategy : Type 0 where
  timer_only count jitter_timer sentinel : Strategy

-- `RequestMany`; `max` is `none` below 0.
pub record Series : Type 0 where
  pub strategy : Strategy
  pub max : Option ℕ
  pub done : Bool
  pub delivered : List Delivery

pub data Kind : Type 0 where
  one : Settled → Kind
  many : Series → Kind

pub record Request : Type 0 where
  pub token : Bytes
  pub subject : Bytes
  pub armed : Bool
  pub kind : Kind

pub record Mux : Type 0 where
  pub base_inbox : Bytes
  pub reqs : List (Bytes × ℕ)
  pub store : List Request

-- `isRequestError`
unfoldable pub is_request_error : Reply → Option Failure
is_request_error m = elim m.headers [
  | none ↦ none
  | some h ↦ elim h.code [
    | pos n ↦ if length m.data_of == 0 && n == 503 then some no_responders else none
    | negsuc n ↦ none
  ]
]

unfoldable pub settle : Settled → Settled → Settled
settle pending s = s
settle t s = t

-- `new RequestOne` and `new RequestMany`, whose `max` is -1 where no positive number is given.
abbrev pub new_one : Bytes → Bytes → Request
new_one token subject = record {
  token = token;
  subject = subject;
  armed = true;
  kind = one pending;
}

abbrev pub new_many : Strategy → Option ℕ → Bytes → Bytes → Request
new_many strategy max_messages token subject = record {
  token = token;
  subject = subject;
  armed = true;
  kind = many (record {
    strategy = strategy;
    max = elim max_messages [ none ↦ none | some n ↦ if n == 0 then none else some n ];
    done = false;
    delivered = [];
  });
}

-- The request's own part of `cancel`: the failure is called back, and the end where `done` was open.
unfoldable pub cancel_series : Option Failure → Series → Series
cancel_series err s =
    let told : List Delivery = elim err [
      | none ↦ s.delivered
      | some e ↦ s.delivered ++ failed e ∷ []
    ] in
    record s { done = true; delivered = if s.done then told else told ++ ended ∷ [] }

unfoldable pub cancel_request : Option Failure → Request → Request
unfolding settle cancel_series
cancel_request err r = elim r.kind [
  | one s ↦
      let why : Failure = elim err [ none ↦ cancelled | some e ↦ e ] in
      record r { armed = false; kind = one (settle s (rejected why)) }
  | many s ↦ record r { armed = false; kind = many (cancel_series err s) }
]

-- `this.max--`
abbrev pub one_less : Option ℕ → Option ℕ
one_less none = none
one_less (some zero) = none
one_less (some (suc n)) = some n

-- What the `resolver` of a request does to it, and whether it cancels.
unfoldable pub answer_series : Reply → Series → Series × Bool
answer_series m s =
    let t = record s { delivered = s.delivered ++ message m ∷ [] } in
    elim s.strategy [
      | timer_only ↦ (t, false)
      | jitter_timer ↦ (t, false)
      | count ↦
          let left = one_less s.max in
          (record t { max = left }, elim left [ none ↦ false | some n ↦ n == 0 ])
      | sentinel ↦ (t, length m.data_of == 0)
    ]

unfoldable pub answer_request : Option Failure → Reply → Request → Request × Bool
unfolding settle answer_series
answer_request err m r = elim r.kind [
  | one s ↦
      let result : Settled = elim err [ none ↦ resolved m | some e ↦ rejected e ] in
      (record r { armed = false; kind = one (settle s result) }, true)
  | many s ↦ elim err [
    | some e ↦ (r, true)
    | none ↦
        let (t, over) = answer_series m s in
        let rearmed : Bool = elim s.strategy [ jitter_timer ↦ true | _ ↦ r.armed ] in
        (record r { armed = rearmed; kind = many t }, over)
  ]
]

-- The failure that a resolver passes on to `cancel`.
abbrev pub passed_on : Option Failure → Request → Option Failure
passed_on err r = elim r.kind [ one _ ↦ none | many _ ↦ err ]
