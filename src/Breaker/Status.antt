-- ===== src/Breaker/Status.antt =====
-- GetStatus and MonitorState of circuit_braker.go.
use r.Common.{ℕ, ◌<◌, ◌≡◌, refl, ap, ◌∙◌, String, Bool, List, [], ◌∷◌, length, if◌then◌else◌, arith}
use r.Common.Int.{ℤ, pos, add_64, ltb_ℤ, two_63, neg_part, pos_part}
use r.Common.Float.{Floats}
use r.Metrics.Call.{Call, value}
use r.Breaker.{
  Breaker, State, closed, half_open, opened, new_circuit_breaker, is_open, record_failure,
  record_success,
}
use r.Breaker.Run.{Event, arrive, fail, succeed, step, run}
use r.Breaker.Invariant.{run-new-IsValid}

pub record CircuitBreakerStatus (V : Type 0) : Type 0 where
  pub state : String
  pub failures : ℤ
  pub last_failure : ℕ
  pub success_streak : ℤ
  pub total_requests : ℤ
  pub error_percentage : V

-- The switch of GetStatus
abbrev pub status_name : State → String
status_name closed = "CLOSED"
status_name half_open = "HALF-OPEN"
status_name opened = "OPEN"

module _ (F : Floats) where
  -- `float64(failures) / float64(total) * 100`, or zero
  abbrev pub error_rate : ℤ → ℤ → F.Float
  error_rate failures total =
      if ltb_ℤ (pos 0) total
      then F.mul (F.div (F.of_int failures) (F.of_int total)) (F.of_int (pos 100))
      else F.of_int (pos 0)

  -- GetStatus
  unfoldable pub get_status : Breaker → CircuitBreakerStatus F.Float
  get_status cb =
      let total = add_64 cb.failures cb.successes in
      record {
        state = status_name cb.state;
        failures = cb.failures;
        last_failure = cb.last_failure;
        success_streak = cb.successes;
        total_requests = total;
        error_percentage = error_rate cb.failures total;
      }

  -- MonitorState: the calls of the collector
  unfoldable pub monitor_state : Breaker → List (Call F.Float)
  unfolding get_status
  monitor_state cb =
      let status = get_status cb in
      if cb.metrics
      then value "circuit_breaker.error_rate" status.error_percentage []
        ∷ value "circuit_breaker.failures" (F.of_int status.failures) []
        ∷ []
      else []

-- A closed breaker has counted no successes.
abbrev pub Uncounted : Breaker → Type 0
Uncounted cb = cb.state ≡ closed → cb.successes ≡ pos 0

step-Uncounted : (cb : Breaker) (e : Event) → Uncounted cb → Uncounted (step cb e)
unfolding step is_open record_failure record_success
step-Uncounted cb (arrive now) u = ground arith
step-Uncounted cb (fail now) u = ground arith
step-Uncounted cb succeed u = ground arith

run-Uncounted : (cb : Breaker) (es : List Event) → Uncounted cb → Uncounted (run cb es)
unfolding run
run-Uncounted cb [] u = u
run-Uncounted cb (e ∷ es) u = run-Uncounted (step cb e) es (step-Uncounted cb e u)

add_64-zero : (a : ℤ) → neg_part a ≡ 0 → pos_part a < two_63 → add_64 a (pos 0) ≡ a
unfolding add_64
add_64-zero a z h = ground arith

-- The status of a breaker that is closed, after whatever fewer than 2^63 operations on a new one: it
-- counts no successes, and as many requests as failures; so that its error rate is that of failures
-- alone, whatever requests have succeeded.
closed_status_lem :
    (F : Floats) (threshold reset_timeout : ℤ) (metrics : Bool) (es : List Event)
    → length es < two_63
    → let cb = run (new_circuit_breaker threshold reset_timeout metrics) es in
      cb.state ≡ closed
      → (get_status F cb).state ≡ "CLOSED"
        × ((get_status F cb).success_streak ≡ pos 0)
        × ((get_status F cb).total_requests ≡ cb.failures)
        × ((get_status F cb).error_percentage ≡ error_rate F cb.failures cb.failures)
unfolding get_status new_circuit_breaker
closed_status_lem F threshold reset_timeout metrics es h c =
    let v = run-new-IsValid threshold reset_timeout metrics es h in
    let cb = run (new_circuit_breaker threshold reset_timeout metrics) es in
    let none' =
      run-Uncounted (new_circuit_breaker threshold reset_timeout metrics) es (λ _. refl) c in
    let same : add_64 cb.failures cb.successes ≡ cb.failures =
      ap (add_64 cb.failures) none'
      ∙ add_64-zero cb.failures v.failures_nonneg (omega (arith, v.failures_le, h)) in
    (ap status_name c, none', same, ap (error_rate F cb.failures) same)
