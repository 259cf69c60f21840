-- ===== src/Guard/Endpoint.antt =====
-- What the breaker of one endpoint sees of a run of requests (middleware_circuit_breaker.go).
use text.Mathlib.Text.{◌==◌}
use r.Common.{
  ◌+◌, ◌≡◌, refl, ap, ap₂, ◌∙◌, String, Bool, List, [], ◌∷◌, arith, length, if◌then◌else◌, eq_iff,
  Bool-cases, inl, inr,
}
use r.Common.Maps.{load, store, load-store}
use r.Breaker.{Breaker, new_circuit_breaker, is_open, record_failure, record_success}
use r.Guard.{
  turn_away, let_through, CircuitBreakerConfig, Guards, Request, endpoint_key, stored, is_failure,
  update_circuit_breaker_metrics, circuit_breaker,
}

-- What one request of its own endpoint does to a breaker: it asks, and if it is let through it
-- reports a failure or a success.
abbrev pub ask_and_report : CircuitBreakerConfig → Request → Breaker → Breaker
ask_and_report config q cb =
    let (asked, rejected) = is_open q.now cb in
    if rejected
    then asked
    else if is_failure config q
    then record_failure q.later asked
    else record_success asked

-- The requests of the endpoint, and no others, on its breaker.
unfoldable pub own_requests : CircuitBreakerConfig → String → List Request → Breaker → Breaker
own_requests config key [] cb = cb
own_requests config key (q ∷ qs) cb =
    own_requests config key qs (if endpoint_key q == key then ask_and_report config q cb else cb)

-- Requests of all endpoints one after another.
unfoldable pub circuit_breaker_all : CircuitBreakerConfig → List Request → Guards → Guards
circuit_breaker_all config [] s = s
circuit_breaker_all config (q ∷ qs) s = circuit_breaker_all config qs (circuit_breaker config q s).1

-- The breaker that an endpoint has, or is given at its first request.
abbrev pub breaker_of : CircuitBreakerConfig → String → Guards → Breaker
breaker_of config key s =
    stored (load s.breakers key)
      (new_circuit_breaker config.threshold config.reset_timeout s.metrics)

updated :
    (config : CircuitBreakerConfig) (q : Request) (cb : Breaker)
    → (update_circuit_breaker_metrics config q cb).0
      ≡ (if is_failure config q then record_failure q.later cb else record_success cb)
updated config q cb = elim (Bool-cases (is_failure config q)) [
  | inl bad ↦ rw bad refl
  | inr good ↦ rw good refl
]

-- A request has left its breaker and one more monitor loop.
abbrev Left : Request → Breaker → Guards → Guards → Type 0
Left q cb s after =
    (after.breakers ≡ store s.breakers (endpoint_key q) cb)
    × (after.monitors ≡ s.monitors + 1)
    × (after.metrics ≡ s.metrics)

turn_away-Left : (q : Request) (cb : Breaker) (s : Guards) → Left q cb s (turn_away q cb s)
turn_away-Left q cb s = elim (Bool-cases s.metrics) [
  | inl counting ↦ rw counting (refl, refl, refl)
  | inr silent ↦ rw silent (refl, refl, refl)
]

let_through-Left :
    (config : CircuitBreakerConfig) (q : Request) (cb : Breaker) (s : Guards)
    → Left q (update_circuit_breaker_metrics config q cb).0 s (let_through config q cb s)
let_through-Left config q cb s = elim (Bool-cases s.metrics) [
  | inl counting ↦ rw counting (refl, refl, refl)
  | inr silent ↦ rw silent (refl, refl, refl)
]

circuit_breaker-step :
    (config : CircuitBreakerConfig) (q : Request) (s : Guards)
    → Left q
        (ask_and_report config q (breaker_of config (endpoint_key q) s))
        s
        (circuit_breaker config q s).1
unfolding circuit_breaker
circuit_breaker-step config q s =
    let asked = is_open q.now (breaker_of config (endpoint_key q) s) in
    elim (Bool-cases asked.1) [
      | inl rejected ↦ rw rejected (turn_away-Left q asked.0 s)
      | inr accepted ↦
          let (b, m, t) = let_through-Left config q asked.0 s in
          rw accepted (b ∙ ap (store s.breakers (endpoint_key q)) (updated config q asked.0), m, t)
    ]

one_request :
    (config : CircuitBreakerConfig) (key : String) (q : Request) (s : Guards)
    → breaker_of config key (circuit_breaker config q s).1 ≡ (
        if endpoint_key q == key
        then ask_and_report config q (breaker_of config key s)
        else breaker_of config key s)
one_request config key q s =
    let (breakers, monitors, metrics) = circuit_breaker-step config q s in
    let new : Bool → Breaker = new_circuit_breaker config.threshold config.reset_timeout in
    let reported = ask_and_report config q (breaker_of config (endpoint_key q) s) in
    ap₂ (λ found m. stored (load found key) (new m)) breakers metrics
    ∙ ap (λ found. stored found (new s.metrics))
        (load-store s.breakers (endpoint_key q) key reported)
    ∙ elim (Bool-cases (endpoint_key q == key)) [
      | inl own ↦ rw own (
          ap (λ k. ask_and_report config q (breaker_of config k s))
            ((eq_iff (endpoint_key q) key).0 own))
      | inr other ↦ rw other refl
    ]

-- Every endpoint has a breaker of its own: whatever requests come, the breaker of an endpoint has
-- seen exactly the endpoint's own requests, in their order, from a new breaker on, and requests of
-- other endpoints do not touch it. But each request, also one that is rejected, starts one more
-- monitor loop, and none is ever stopped.
pub circuit_breaker_all_lem :
    (config : CircuitBreakerConfig) (key : String) (qs : List Request) (s : Guards)
    → (breaker_of config key (circuit_breaker_all config qs s)
        ≡ own_requests config key qs (breaker_of config key s))
      × ((circuit_breaker_all config qs s).monitors ≡ s.monitors + length qs)
unfolding circuit_breaker_all own_requests
circuit_breaker_all_lem config key [] s = (refl, omega arith)
circuit_breaker_all_lem config key (q ∷ qs) s =
    let (breakers, monitors, metrics) = circuit_breaker-step config q s in
    let (mine, running) = circuit_breaker_all_lem config key qs (circuit_breaker config q s).1 in
    (
      mine ∙ ap (own_requests config key qs) (one_request config key q s),
      running ∙ ap (λ n. n + length qs) monitors ∙ omega arith,
    )
