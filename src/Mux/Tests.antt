-- ===== src/Mux/Tests.antt =====
-- Two requests and the replies to them, and the theorems at them.
use nats_deno.Base.{
  ℕ, zero, suc, ◌≡◌, ◌≢◌, refl, none, some, [], ◌∷◌, Bytes, codes, bytes_eq, get_elem?, arith,
}
use nats_deno.Headers.{pos}
use nats_deno.Mux.Requests.{Reply, count, Request, new_one, new_many, Mux}
use nats_deno.Mux.Table.{starts_one, arrives, fires, cancels, closes, add, find, enter, step, run}
use nats_deno.Mux.Store.{IsLive}
use nats_deno.Mux.Live.{step-IsLive, run-IsLive}

abbrev no_requests : Mux
no_requests = record { base_inbox = codes "_I.x."; reqs = []; store = [] }

abbrev single : Request
single = new_one (codes "A") (codes "help")

abbrev series : Request
series = new_many count (some 2) (codes "B") (codes "all")

abbrev both : Mux
both = record {
  base_inbox = codes "_I.x.";
  reqs = (codes "A", 0) ∷ (codes "B", 1) ∷ [];
  store = single ∷ series ∷ [];
}

abbrev nobody : Reply
nobody = record {
  subject = codes "_I.x.A";
  data_of = [];
  headers = some (record { code = pos 503; description = []; entries = [] });
}

abbrev part : Bytes → Reply
part d = record { subject = codes "_I.x.B"; data_of = d; headers = none }

no_requests-IsLive : IsLive no_requests
unfolding find
no_requests-IsLive = (
  λ i j r q a b c. absurd (ground arith),
  λ i r a. absurd (ground arith),
  λ t i a. absurd (ground arith),
)

single_only : (i : ℕ) (q : Request) → get_elem? (single ∷ []) i ≡ some q → q.token ≢ codes "B"
single_only zero q e t = absurd (ground arith)
single_only (suc i) q e t = absurd (ground arith)

both-IsLive : IsLive both
unfolding step add enter bytes_eq
both-IsLive =
    step-IsLive (starts_one series) (step (starts_one single) no_requests)
      (step-IsLive (starts_one single) no_requests no_requests-IsLive
        (refl, λ i q e. absurd (ground arith)))
      (refl, single_only)

run-IsLive_example :
    IsLive (run (arrives none nobody ∷ fires 1 ∷ cancels none 0 ∷ closes ∷ []) both)
run-IsLive_example =
    run-IsLive (arrives none nobody ∷ fires 1 ∷ cancels none 0 ∷ closes ∷ []) both both-IsLive
      (tt, (tt, (tt, (tt, tt))))
