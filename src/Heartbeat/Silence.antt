-- ===== src/Heartbeat/Silence.antt =====
-- No timer leaks, and a server that is silent is disconnected.
use nats_deno.Base.{
  ℕ, zero, suc, ◌+◌, ◌≤◌, ◌<◌, ◌≡◌, refl, Bool, true, false, Option, none, some, List, [], ◌∷◌,
  length, arith, length-append, if-elim,
}
use nats_deno.Heartbeat.{
  Heartbeat, new_heartbeat, without_timer, cancel_beats, start_beats, beat, Event, started,
  cancelled, fired, answered, rejected, is_live, heartbeat_step, heartbeat_run,
}

-- The timers that a state knows of
abbrev pub known : Option ℕ → List ℕ
known none = []
known (some t) = t ∷ []

-- At most one timer is live, the one that the state knows, and no more pings than allowed wait.
abbrev pub IsTimed : Heartbeat → Type 0
IsTimed h = (h.live ≡ known h.timer) × (length h.pendings ≤ h.max_out)

cancel_beats-IsTimed : (stale : Bool) (h : Heartbeat) → IsTimed h → IsTimed (cancel_beats stale h)
unfolding cancel_beats without_timer
cancel_beats-IsTimed stale h (l, p) = go h.timer refl
  where
    go : (o : Option ℕ) → h.timer ≡ o → IsTimed (cancel_beats stale h)
    go none e = ground (arith, l, p, e)
    go (some t) e = ground (arith, l, p, e)

start_beats-IsTimed : (h : Heartbeat) → IsTimed h → IsTimed (start_beats h)
unfolding start_beats cancel_beats without_timer
start_beats-IsTimed h (l, p) = go h.timer refl
  where
    go : (o : Option ℕ) → h.timer ≡ o → IsTimed (start_beats h)
    go none e = ground (arith, l, p, e)
    go (some t) e = ground (arith, l, p, e)

-- A beat where its timer was the only one
beat-IsTimed : (h : Heartbeat) → h.live ≡ [] → length h.pendings ≤ h.max_out → IsTimed (beat h)
unfolding beat cancel_beats without_timer
beat-IsTimed h l p = go h.timer refl
  where
    go : (o : Option ℕ) → h.timer ≡ o → IsTimed (beat h)
    go none e = ground (arith, l, p, e, length-append h.pendings (h.pings ∷ []))
    go (some t) e = ground (arith, l, p, e, length-append h.pendings (h.pings ∷ []))

fired_live :
    (t : ℕ) (h : Heartbeat)
    → IsTimed h
    → is_live t h.live ≡ true
    → (h.timer ≡ some t) × (without_timer t h.live ≡ [])
unfolding without_timer
fired_live t h (l, p) a = go h.timer refl
  where
    go : (o : Option ℕ) → h.timer ≡ o → (h.timer ≡ some t) × (without_timer t h.live ≡ [])
    go none e = absurd (ground (arith, l, a, e))
    go (some u) e = ground (arith, l, a, e)

step-IsTimed : (e : Event) (h : Heartbeat) → IsTimed h → IsTimed (heartbeat_step e h)
unfolding heartbeat_step
step-IsTimed started h i = start_beats-IsTimed h i
step-IsTimed (cancelled stale) h i = cancel_beats-IsTimed stale h i
step-IsTimed answered h (l, p) = (l, omega arith)
step-IsTimed rejected h i = cancel_beats-IsTimed false h i
step-IsTimed (fired t) h i =
    if-elim IsTimed (is_live t h.live) (beat (record h { live = without_timer t h.live })) h
      (λ (a : is_live t h.live ≡ true).
        let (known_one, gone) = fired_live t h i a in
        beat-IsTimed (record h { live = without_timer t h.live }) gone i.1)
      (λ _. i)

run_from : (es : List Event) (h : Heartbeat) → IsTimed h → IsTimed (heartbeat_run es h)
unfolding heartbeat_run
run_from [] h i = i
run_from (e ∷ es) h i = run_from es (heartbeat_step e h) (step-IsTimed e h i)

-- Whatever happens to heartbeats that are new, in any order: at most one timer is live, the one that
-- `cancel` would clear, and no more pings wait than may be out.
pub heartbeat_run-IsTimed :
    (max_out : ℕ) (es : List Event) → IsTimed (heartbeat_run es (new_heartbeat max_out))
heartbeat_run-IsTimed max_out es = run_from es (new_heartbeat max_out) (refl, omega arith)

-- The timer that is set fires, again and again, and nothing else happens.
unfoldable pub silence : ℕ → Heartbeat → Heartbeat
unfolding heartbeat_step
silence zero h = h
silence (suc n) h =
    silence n (heartbeat_step (elim h.timer [ none ↦ answered | some t ↦ fired t ]) h)

-- A round of silence with room for one more ping
quiet_round :
    (t : ℕ) (h : Heartbeat)
    → IsTimed h
    → h.timer ≡ some t
    → length h.pendings < h.max_out
    → let q = heartbeat_step (fired t) h in
      (length q.pendings ≡ suc (length h.pendings))
      × (q.timer ≡ some h.made)
      × (q.disconnects ≡ h.disconnects)
      × (q.max_out ≡ h.max_out)
unfolding heartbeat_step beat
quiet_round t h (l, p) e k = ground (arith, l, e, k, length-append h.pendings (h.pings ∷ []))

-- A round of silence when as many pings wait as may be out
last_round :
    (t : ℕ) (h : Heartbeat)
    → IsTimed h
    → h.timer ≡ some t
    → length h.pendings ≡ h.max_out
    → let q = heartbeat_step (fired t) h in
      (q.disconnects ≡ suc h.disconnects) × (q.timer ≡ none) × (q.live ≡ []) × (q.pendings ≡ [])
unfolding heartbeat_step beat cancel_beats without_timer
last_round t h (l, p) e k = ground (arith, l, e, k)

-- On heartbeats in good order with a timer set, where the pings that wait and the beats to come are as
-- many as may be out: as long as those beats find no answer, nothing is disconnected, and the one behind
-- them disconnects, once, and leaves no timer.
pub silence-disconnects :
    (n t : ℕ) (h : Heartbeat)
    → IsTimed h
    → h.timer ≡ some t
    → length h.pendings + n ≡ h.max_out
    → ((silence n h).disconnects ≡ h.disconnects)
      × ((silence (suc n) h).disconnects ≡ suc h.disconnects)
      × ((silence (suc n) h).timer ≡ none)
      × ((silence (suc n) h).live ≡ [])
unfolding silence
silence-disconnects zero t h i e k =
    let (d, tm, l, p) = last_round t h i e (omega arith) in ground (arith, e, d, tm, l)
silence-disconnects (suc n) t h i e k =
    let (c, tm, d, m) = quiet_round t h i e (omega arith) in
    let q = heartbeat_step (fired t) h in
    let later =
      silence-disconnects n h.made q (step-IsTimed (fired t) h i) tm (omega (arith, c, m, k)) in
    ground (arith, e, d, later)
