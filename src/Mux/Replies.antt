-- ===== src/Mux/Replies.antt =====
-- What a reply does: the request with its token gets it, and no other.
use nats_deno.Base.{
  ℕ, zero, suc, ◌≡◌, ◌≢◌, Bool, none, some, List, [], ◌∷◌, ◌++◌, Bytes, get_elem?, if◌then◌else◌,
}
use nats_deno.Mux.Requests.{
  Reply, Delivery, message, ended, count, Series, one, many, Request, is_request_error, Mux,
  answer_request,
}
use nats_deno.Mux.Table.{Event, arrives, write, forget}
use nats_deno.Mux.Live.{outcome}

-- The message goes to the token.
abbrev pub IsTo : Bytes → Bytes → Reply → Type 0
IsTo token base_inbox msg = (token ≢ []) × (msg.subject ≡ base_inbox ++ token)

-- What the callback of a series that counts is told of these messages, when `n` may come.
unfoldable pub told : ℕ → List Reply → List Delivery
told n [] = []
told zero (msg ∷ msgs) = []
told (suc zero) (msg ∷ msgs) = message msg ∷ ended ∷ []
told (suc (suc n)) (msg ∷ msgs) = message msg ∷ told (suc n) msgs

abbrev pub arrivals : List Reply → List Event
arrivals [] = []
arrivals (msg ∷ msgs) = arrives none msg ∷ arrivals msgs

-- Messages to one token that are no failures.
abbrev pub AreTo : Bytes → Bytes → List Reply → Type 0
AreTo token base_inbox [] = Unit
AreTo token base_inbox (msg ∷ msgs) =
    IsTo token base_inbox msg × (is_request_error msg ≡ none) × AreTo token base_inbox msgs

-- What was delivered to the request at `i`.
abbrev pub delivered_to : ℕ → Mux → List Delivery
delivered_to i m = elim (get_elem? m.store i) [
  | none ↦ []
  | some r ↦ elim r.kind [ one _ ↦ [] | many s ↦ s.delivered ]
]

abbrev counting : ℕ → List Delivery → Bool → Series
counting n ds over = record { strategy = count; max = some n; done = over; delivered = ds }

abbrev answered : Reply → ℕ → Request → Mux → Mux
answered msg i r m = record m {
  reqs = if (answer_request none msg r).1 then forget r.token m.reqs else m.reqs;
  store = write i (outcome none msg r) m.store;
}
