-- ===== src/Guard/Trips.antt =====
-- When the middleware (middleware_circuit_breaker.go) answers for the chain behind it.
use text.Mathlib.Text.{◌==◌}
use r.Common.{
  ℕ, zero, suc, ◌+◌, ◌<◌, ◌≡◌, refl, ap, ◌∙◌, String, true, false, not, none, List, [], ◌∷◌, arith,
  if◌then◌else◌, Bool-cases, inl, inr,
}
use r.Common.Int.{pos, two_63, add_64-one, ltb_ℤ, sub_ℕ}
use r.Common.Maps.{load}
use r.Breaker.{Breaker, closed, opened, new_circuit_breaker, is_open, record_failure}
use r.Guard.{CircuitBreakerConfig, Guards, Request, endpoint_key, is_failure, circuit_breaker}
use r.Guard.Endpoint.{
  ask_and_report, own_requests, circuit_breaker_all, breaker_of, circuit_breaker_all_lem,
}

-- The number of the endpoint's requests.
abbrev pub own_count : String → List Request → ℕ
own_count key [] = 0
own_count key (q ∷ qs) = (if endpoint_key q == key then 1 else 0) + own_count key qs

-- When the endpoint's last request ended.
abbrev pub last_own : String → List Request → ℕ → ℕ
last_own key [] before = before
last_own key (q ∷ qs) before = last_own key qs (if endpoint_key q == key then q.later else before)

-- Every request of the endpoint fails.
abbrev pub AllFail : CircuitBreakerConfig → String → List Request → Type 0
AllFail config key [] = Unit
AllFail config key (q ∷ qs) =
    ((if endpoint_key q == key then is_failure config q else true) ≡ true) × AllFail config key qs

-- A closed breaker that has counted `n` failures.
record Building (config : CircuitBreakerConfig) (n : ℕ) (cb : Breaker) : Type 0 where
  state_eq : cb.state ≡ closed
  failures_eq : cb.failures ≡ pos n
  threshold_eq : cb.threshold ≡ config.threshold
  timeout_eq : cb.reset_timeout ≡ config.reset_timeout

-- An open breaker whose last failure was at the time.
record Open (config : CircuitBreakerConfig) (last : ℕ) (cb : Breaker) : Type 0 where
  state_eq : cb.state ≡ opened
  last_eq : cb.last_failure ≡ last
  timeout_eq : cb.reset_timeout ≡ config.reset_timeout

failed :
    (config : CircuitBreakerConfig) (q : Request) (n : ℕ) (cb : Breaker)
    → Building config n cb
    → is_failure config q ≡ true
    → ask_and_report config q cb ≡ record_failure q.later cb
unfolding is_open
failed config q n cb b f = rw (b.state_eq, f) refl

grows :
    (config : CircuitBreakerConfig) (n k later : ℕ) (cb : Breaker)
    → Building config n cb
    → config.threshold ≡ pos k
    → n + 1 < k
    → k < two_63
    → Building config (n + 1) (record_failure later cb)
unfolding record_failure
grows config n k later cb b t h w = ground (arith, add_64-one cb.failures)

opens :
    (config : CircuitBreakerConfig) (n later : ℕ) (cb : Breaker)
    → Building config n cb
    → config.threshold ≡ pos (n + 1)
    → n + 1 < two_63
    → Open config later (record_failure later cb)
unfolding record_failure
opens config n later cb b t w = ground (arith, add_64-one cb.failures)

idle :
    (config : CircuitBreakerConfig) (key : String) (qs : List Request) (cb : Breaker) (before : ℕ)
    → own_count key qs ≡ 0
    → (own_requests config key qs cb ≡ cb) × (last_own key qs before ≡ before)
unfolding own_requests
idle config key [] cb before e = (refl, refl)
idle config key (q ∷ qs) cb before e = elim (Bool-cases (endpoint_key q == key)) [
  | inl own ↦ ground (arith, own, e)
  | inr other ↦ rw other (idle config key qs cb before (omega arith))
]

own_fails :
    (config : CircuitBreakerConfig) (key : String) (q : Request)
    → (endpoint_key q == key) ≡ true
    → (if endpoint_key q == key then is_failure config q else true) ≡ true
    → is_failure config q ≡ true
own_fails config key q own f = rw own at f

own_rest :
    (key : String) (q : Request) (qs : List Request) (m : ℕ)
    → (endpoint_key q == key) ≡ true
    → own_count key (q ∷ qs) ≡ suc m
    → own_count key qs ≡ m
own_rest key q qs m own e = ground (arith, own, e)

other_rest :
    (key : String) (q : Request) (qs : List Request) (m : ℕ)
    → (endpoint_key q == key) ≡ false
    → own_count key (q ∷ qs) ≡ suc m
    → own_count key qs ≡ suc m
other_rest key q qs m other e = ground (arith, other, e)

-- The failure that reaches the threshold, and the requests behind it, which are other endpoints'.
last_failure :
    (config : CircuitBreakerConfig) (key : String) (q : Request) (qs : List Request) (n : ℕ)
    (cb : Breaker)
    → Building config n cb
    → is_failure config q ≡ true
    → own_count key qs ≡ 0
    → config.threshold ≡ pos (n + 1)
    → n + 1 < two_63
    → Open config
        (last_own key qs q.later)
        (own_requests config key qs (ask_and_report config q cb))
last_failure config key q qs n cb b f e t w =
    let (same, when) = idle config key qs (ask_and_report config q cb) q.later e in
    rw (same, when, failed config q n cb b f) (opens config n q.later cb b t w)

trips :
    (config : CircuitBreakerConfig) (key : String) (qs : List Request) (n m before : ℕ)
    (cb : Breaker)
    → Building config n cb
    → AllFail config key qs
    → own_count key qs ≡ suc m
    → config.threshold ≡ pos (n + suc m)
    → n + suc m < two_63
    → Open config (last_own key qs before) (own_requests config key qs cb)
unfolding own_requests
trips config key [] n m before cb b f e t w = absurd (omega (arith, e))
trips config key (q ∷ qs) n zero before cb b f e t w = elim (Bool-cases (endpoint_key q == key)) [
  | inl own ↦ rw own (
      last_failure config key q qs n cb b (own_fails config key q own f.0)
        (own_rest key q qs 0 own e) t w)
  | inr other ↦
      rw other (trips config key qs n zero before cb b f.1 (other_rest key q qs 0 other e) t w)
]
trips config key (q ∷ qs) n (suc m) before cb b f e t w =
    elim (Bool-cases (endpoint_key q == key)) [
      | inl own ↦
          rw (own, failed config q n cb b (own_fails config key q own f.0))
            (trips config key qs (n + 1) m q.later (record_failure q.later cb)
              (grows config n (n + suc (suc m)) q.later cb b t (omega arith) w) f.1
              (own_rest key q qs (suc m) own e) (t ∙ ap pos (omega arith)) (omega arith))
      | inr other ↦
          rw other (
            trips config key qs n (suc m) before cb b f.1 (other_rest key q qs (suc m) other e) t w)
    ]

rejects :
    (config : CircuitBreakerConfig) (last now : ℕ) (cb : Breaker)
    → Open config last cb
    → ltb_ℤ config.reset_timeout (sub_ℕ now last) ≡ false
    → (is_open now cb).1 ≡ true
unfolding is_open
rejects config last now cb o h = rw (o.state_eq, o.last_eq, o.timeout_eq, h) refl

answered :
    (config : CircuitBreakerConfig) (q : Request) (s : Guards)
    → (circuit_breaker config q s).0 ≡ not (is_open q.now (breaker_of config (endpoint_key q) s)).1
unfolding circuit_breaker
answered config q s = elim (Bool-cases (is_open q.now (breaker_of config (endpoint_key q) s)).1) [
  | inl rejected ↦ rw rejected refl
  | inr accepted ↦ rw accepted refl
]

-- The middleware protects an endpoint: when every request of the endpoint has failed, by an error,
-- a panic or its duration, and there were as many as the threshold says, from 1 to below 2^63,
-- since the endpoint was new, then its next request within the reset timeout after the last of them
-- does not reach the chain behind, whatever other endpoints have had in between.
pub circuit_breaker_trips :
    (config : CircuitBreakerConfig) (key : String) (qs : List Request) (q : Request) (s : Guards)
    (m : ℕ)
    → load s.breakers key ≡ none
    → endpoint_key q ≡ key
    → AllFail config key qs
    → own_count key qs ≡ suc m
    → config.threshold ≡ pos (suc m)
    → suc m < two_63
    → ltb_ℤ config.reset_timeout (sub_ℕ q.now (last_own key qs 0)) ≡ false
    → (circuit_breaker config q (circuit_breaker_all config qs s)).0 ≡ false
unfolding new_circuit_breaker
circuit_breaker_trips config key qs q s m fresh own f e t w h =
    let start : Building config 0 (breaker_of config key s) =
      rw fresh
        (record { state_eq = refl; failures_eq = refl; threshold_eq = refl; timeout_eq = refl }) in
    let after = circuit_breaker_all config qs s in
    let open_now : Open config (last_own key qs 0)
        (own_requests config key qs (breaker_of config key s)) =
      trips config key qs 0 m 0 (breaker_of config key s) start f e (t ∙ ap pos (omega arith))
        (omega arith) in
    let same : breaker_of config (endpoint_key q) after
        ≡ own_requests config key qs (breaker_of config key s) =
      ap (λ k. breaker_of config k after) own ∙ (circuit_breaker_all_lem config key qs s).0 in
    answered config q after
    ∙ ap (λ cb. not (is_open q.now cb).1) same
    ∙ ap not (rejects config (last_own key qs 0) q.now _ open_now h)
