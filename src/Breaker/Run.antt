-- ===== src/Breaker/Run.antt =====
-- Histories of a circuit breaker (circuit_braker.go): what requests ask of it and report to it.
use r.Common.{ℕ, List, [], ◌∷◌}
use r.Breaker.{Breaker, is_open, record_failure, record_success}

-- A request arrives at a time, fails at a time, or succeeds.
pub data Event : Type 0 where
  arrive : ℕ → Event
  fail : ℕ → Event
  succeed : Event

unfoldable pub step : Breaker → Event → Breaker
step cb (arrive now) = (is_open now cb).0
step cb (fail now) = record_failure now cb
step cb succeed = record_success cb

unfoldable pub run : Breaker → List Event → Breaker
run cb [] = cb
run cb (e ∷ es) = run (step cb e) es
