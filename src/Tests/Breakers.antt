-- ===== src/Tests/Breakers.antt =====
-- The circuit breaker (circuit_braker.go) at concrete inputs.
use r.Common.{◌≡◌, refl, true, false, List, [], ◌∷◌, arith}
use r.Common.Int.{pos, add_64}
use r.Breaker.{
  Breaker, closed, half_open, opened, is_open, record_failure, record_success, new_circuit_breaker,
}
use r.Breaker.Run.{Event, arrive, fail, succeed, step, run}
use r.Breaker.Invariant.{IsValid, run-new-IsValid}
use r.Breaker.Trip.{fail_all, fail_all_opens, half_open_outcomes}
use r.Breaker.Diagram.{Edge, step-Edge}

abbrev fresh : Breaker
unfolding new_circuit_breaker
fresh = new_circuit_breaker (pos 2) (pos 10) true

abbrev history : List Event
history = fail 3 ∷ fail 5 ∷ arrive 9 ∷ arrive 16 ∷ succeed ∷ []

history_end : (run fresh history).state ≡ half_open
unfolding run step fresh is_open record_failure record_success add_64 new_circuit_breaker
history_end = refl

run-new-IsValid_example : IsValid 5 (run (new_circuit_breaker (pos 2) (pos 10) true) history)
run-new-IsValid_example = run-new-IsValid (pos 2) (pos 10) true history (omega arith)

fail_all_opens_example : (fail_all fresh (3 ∷ 5 ∷ [])).state ≡ opened
unfolding fresh new_circuit_breaker
fail_all_opens_example = fail_all_opens fresh (3 ∷ 5 ∷ []) refl refl (omega arith)

-- Two failures have opened it, the later at time 5.
abbrev tripped : Breaker
tripped = record {
  failures = pos 2;
  successes = pos 0;
  last_failure = 5;
  threshold = pos 2;
  reset_timeout = pos 10;
  half_open_max = pos 2;
  metrics = false;
  state = opened;
  monitoring = true;
  sent = [];
}

tripped-IsValid : IsValid 2 tripped
tripped-IsValid = ground arith

half_open_outcomes_example :
    let (tried, rejected) = is_open 16 tripped in
    let once = record_success tried in
    let twice = record_success once in
    (rejected ≡ false)
    × (tried.state ≡ half_open)
    × (tried.successes ≡ pos 0)
    × ((twice.state ≡ closed) × (twice.failures ≡ pos 0) × (twice.successes ≡ pos 0))
    × (((record_failure 17 tried).state ≡ opened) × ((record_failure 17 tried).last_failure ≡ 17))
    × (((record_failure 17 once).state ≡ opened) × ((record_failure 17 once).last_failure ≡ 17))
half_open_outcomes_example =
    half_open_outcomes 2 tripped 16 17 tripped-IsValid (omega arith) refl refl

step-Edge_example : Edge (arrive 16) opened (step tripped (arrive 16)).state
step-Edge_example = step-Edge tripped (arrive 16)
