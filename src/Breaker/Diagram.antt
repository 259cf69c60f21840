-- ===== src/Breaker/Diagram.antt =====
-- The state diagram of the circuit breaker (circuit_braker.go).
use r.Common.{ℕ, arith}
use r.Breaker.{Breaker, State, closed, half_open, opened, is_open, record_failure, record_success}
use r.Breaker.Run.{Event, arrive, fail, succeed, step}

-- The edges, each under the events that may take it.
pub data Edge : Event → State → State → Type 0 where
  stay : {e : Event} {s : State} → Edge e s s
  trip : {now : ℕ} → Edge (fail now) closed opened
  relapse : {now : ℕ} → Edge (fail now) half_open opened
  try : {now : ℕ} → Edge (arrive now) opened half_open
  recover : Edge succeed half_open closed

-- Every operation follows the diagram: only a request leaves the open state, and only for the
-- half-open one; only a failure opens the breaker; and only a success closes it, from the half-open
-- state and from no other.
pub step-Edge : (cb : Breaker) (e : Event) → Edge e cb.state (step cb e).state
unfolding step is_open record_failure record_success
step-Edge cb (arrive now) = grind (arith, stay, try)
step-Edge cb (fail now) = grind (arith, stay, trip, relapse)
step-Edge cb succeed = grind (arith, stay, recover)
