-- ===== src/Breaker/Invariant.antt =====
-- What holds of a circuit breaker (circuit_braker.go) between two operations.
use r.Common.{ℕ, suc, ◌+◌, ◌≤◌, ◌<◌, ◌≡◌, ◌≢◌, ◌⊎◌, Bool, List, [], ◌∷◌, arith, length, zero-add}
use r.Common.Int.{ℤ, pos, ◌≤ℤ◌, two_63, add_64-one, pos_part, neg_part}
use r.Breaker.{Breaker, closed, is_open, record_failure, record_success, new_circuit_breaker}
use r.Breaker.Run.{Event, arrive, fail, succeed, step, run}

-- `n` bounds the number of failures in a row.
pub record IsValid (n : ℕ) (cb : Breaker) : Type 0 where
  pub failures_nonneg : neg_part cb.failures ≡ 0
  pub failures_le : pos_part cb.failures ≤ n
  pub successes_nonneg : neg_part cb.successes ≡ 0
  pub successes_lt : pos_part cb.successes < 2
  pub max_eq : cb.half_open_max ≡ pos 2
  pub tripped : cb.state ≢ closed → cb.threshold ≤ℤ cb.failures
  pub untripped :
      cb.state ≡ closed → (cb.failures ≡ pos 0) ⊎ (pos_part cb.failures < pos_part cb.threshold)

is_open-IsValid : (n now : ℕ) (cb : Breaker) → IsValid n cb → IsValid (suc n) (is_open now cb).0
unfolding is_open
is_open-IsValid n now cb v = ground arith

record_failure-IsValid :
    (n now : ℕ) (cb : Breaker)
    → suc n < two_63
    → IsValid n cb
    → IsValid (suc n) (record_failure now cb)
unfolding record_failure
record_failure-IsValid n now cb h v = ground (arith, add_64-one cb.failures)

record_success-IsValid : (n : ℕ) (cb : Breaker) → IsValid n cb → IsValid (suc n) (record_success cb)
unfolding record_success
record_success-IsValid n cb v = ground (arith, add_64-one cb.successes)

-- Every operation keeps the invariant, and adds at most one to the bound.
step-IsValid :
    (n : ℕ) (cb : Breaker) (e : Event) → suc n < two_63 → IsValid n cb → IsValid (suc n) (step cb e)
unfolding step
step-IsValid n cb (arrive now) h v = is_open-IsValid n now cb v
step-IsValid n cb (fail now) h v = record_failure-IsValid n now cb h v
step-IsValid n cb succeed h v = record_success-IsValid n cb v

run-IsValid :
    (n : ℕ) (cb : Breaker) (es : List Event)
    → n + length es < two_63
    → IsValid n cb
    → IsValid (n + length es) (run cb es)
unfolding run
run-IsValid n cb [] h v = let e : n ≡ n + 0 = omega arith in rw (← e) v
run-IsValid n cb (e ∷ es) h v =
    let same : suc n + length es ≡ n + suc (length es) = omega arith in
    rw (← same)
      (run-IsValid (suc n) (step cb e) es (omega arith) (step-IsValid n cb e (omega arith) v))

-- Whatever fewer than 2^63 requests do to a new breaker: its counters are no negative numbers and
-- the failure count is at most the number of operations; it has left the closed state only with the
-- threshold reached, and a closed breaker has no failures or fewer than the threshold; and a
-- half-open one has counted fewer than the two successes that close it.
pub run-new-IsValid :
    (threshold reset_timeout : ℤ) (metrics : Bool) (es : List Event)
    → length es < two_63
    → IsValid (length es) (run (new_circuit_breaker threshold reset_timeout metrics) es)
unfolding new_circuit_breaker
run-new-IsValid threshold reset_timeout metrics es h = rw zero-add at (
    run-IsValid 0 (new_circuit_breaker threshold reset_timeout metrics) es (omega arith)
      (ground arith))
