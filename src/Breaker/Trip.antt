-- ===== src/Breaker/Trip.antt =====
-- When a circuit breaker (circuit_braker.go) opens, rejects, tries again and closes.
use r.Common.{
  ℕ, zero, suc, ◌+◌, ◌<◌, ◌≡◌, refl, Bool, true, false, List, [], ◌∷◌, arith, length, map, zero-add,
  if◌then◌else◌,
}
use r.Common.Int.{ℤ, pos, leb_ℤ, two_63, add_64-one}
use r.Breaker.{
  Breaker, State, closed, half_open, opened, is_open, record_failure, record_success,
  is_reset_timeout_elapsed,
}
use r.Breaker.Invariant.{IsValid}

-- Failures one after another, at the given times.
unfoldable pub fail_all : Breaker → List ℕ → Breaker
fail_all cb [] = cb
fail_all cb (now ∷ times) = fail_all (record_failure now cb) times

-- The state that `n` failures in a row leave a closed breaker in.
abbrev pub state_after : ℤ → ℕ → State
state_after threshold zero = closed
state_after threshold (suc n) = if leb_ℤ threshold (pos (suc n)) then opened else closed

-- A breaker that failures alone have brought to the count `n`.
record Counting (n : ℕ) (t : ℤ) (cb : Breaker) : Type 0 where
  threshold_eq : cb.threshold ≡ t
  failures_eq : cb.failures ≡ pos n
  state_eq : cb.state ≡ state_after t n

record_failure-Counting :
    (n now : ℕ) (t : ℤ) (cb : Breaker)
    → suc n < two_63
    → Counting n t cb
    → Counting (suc n) t (record_failure now cb)
unfolding record_failure
record_failure-Counting zero now t cb h v = ground (arith, add_64-one cb.failures)
record_failure-Counting (suc n) now t cb h v = ground (arith, add_64-one cb.failures)

fail_all-Counting :
    (n : ℕ) (t : ℤ) (cb : Breaker) (times : List ℕ)
    → n + length times < two_63
    → Counting n t cb
    → Counting (n + length times) t (fail_all cb times)
unfolding fail_all
fail_all-Counting n t cb [] h v = let e : n ≡ n + 0 = omega arith in rw (← e) v
fail_all-Counting n t cb (now ∷ times) h v =
    let same : suc n + length times ≡ n + suc (length times) = omega arith in
    rw (← same) (
      fail_all-Counting (suc n) t (record_failure now cb) times (omega arith)
        (record_failure-Counting n now t cb (omega arith) v))

-- A closed breaker with no failures opens exactly when the number of failures in a row reaches the
-- threshold: fewer failures leave it closed, and it stays open under further ones. At least one
-- failure is needed, also for a threshold of zero or less.
pub fail_all_opens :
    (cb : Breaker) (times : List ℕ)
    → cb.state ≡ closed
    → cb.failures ≡ pos 0
    → length times < two_63
    → (fail_all cb times).state ≡ state_after cb.threshold (length times)
fail_all_opens cb times c f h = rw zero-add at (
    (fail_all-Counting 0 cb.threshold cb times (omega arith)
      (record { threshold_eq = refl; failures_eq = f; state_eq = c })).state_eq)

-- Requests one after another; the answers say which are rejected.
unfoldable pub ask_all : Breaker → List ℕ → Breaker × List Bool
ask_all cb [] = (cb, [])
ask_all cb (now ∷ times) =
    let (cb', rejected) = is_open now cb in
    let (end, answers) = ask_all cb' times in (end, rejected ∷ answers)

abbrev pub AllWithin : Breaker → List ℕ → Type 0
AllWithin cb [] = Unit {0}
AllWithin cb (now ∷ times) = (is_reset_timeout_elapsed now cb ≡ false) × AllWithin cb times

-- While the reset timeout has not passed, an open breaker rejects every request and is unchanged.
ask_all_rejects :
    (cb : Breaker) (times : List ℕ)
    → cb.state ≡ opened
    → AllWithin cb times
    → ask_all cb times ≡ (cb, map (λ _. true) times)
unfolding ask_all is_open
ask_all_rejects cb [] o w = refl
ask_all_rejects cb (now ∷ times) o (w, ws) = ground (arith, ask_all_rejects cb times o ws)

-- What the half-open state keeps of the breaker that opened.
record Trying (cb t : Breaker) (streak : ℕ) : Type 0 where
  half : t.state ≡ half_open
  streak_eq : t.successes ≡ pos streak
  failures_eq : t.failures ≡ cb.failures
  threshold_eq : t.threshold ≡ cb.threshold
  max_eq : t.half_open_max ≡ cb.half_open_max

is_open-Trying :
    (cb : Breaker) (now : ℕ)
    → cb.state ≡ opened
    → is_reset_timeout_elapsed now cb ≡ true
    → Trying cb (is_open now cb).0 0 × ((is_open now cb).1 ≡ false)
unfolding is_open
is_open-Trying cb now o e = ground arith

record_success-Trying :
    (cb t : Breaker) → cb.half_open_max ≡ pos 2 → Trying cb t 0 → Trying cb (record_success t) 1
unfolding record_success
record_success-Trying cb t m v = ground (arith, add_64-one t.successes)

record_success-closes :
    (cb t : Breaker)
    → cb.half_open_max ≡ pos 2
    → Trying cb t 1
    → ((record_success t).state ≡ closed)
      × ((record_success t).failures ≡ pos 0)
      × ((record_success t).successes ≡ pos 0)
unfolding record_success
record_success-closes cb t m v = ground (arith, add_64-one t.successes)

record_failure-opens :
    (n : ℕ) (cb t : Breaker) (streak later : ℕ)
    → IsValid n cb
    → suc n < two_63
    → cb.state ≡ opened
    → Trying cb t streak
    → ((record_failure later t).state ≡ opened) × ((record_failure later t).last_failure ≡ later)
unfolding record_failure
record_failure-opens n cb t streak later v h o w =
    ground (arith, add_64-one t.failures, v.tripped (λ e. cc))

-- The first request after the reset timeout finds the breaker half-open with no successes counted,
-- and is let through. Two successes from there close it and clear both counters; and a failure, at
-- once or after the first success, opens it again, from that failure's time on.
pub half_open_outcomes :
    (n : ℕ) (cb : Breaker) (now later : ℕ)
    → IsValid n cb
    → suc n < two_63
    → cb.state ≡ opened
    → is_reset_timeout_elapsed now cb ≡ true
    → let (tried, rejected) = is_open now cb in
      let once = record_success tried in
      let twice = record_success once in
      (rejected ≡ false)
      × (tried.state ≡ half_open)
      × (tried.successes ≡ pos 0)
      × ((twice.state ≡ closed) × (twice.failures ≡ pos 0) × (twice.successes ≡ pos 0))
      × (((record_failure later tried).state ≡ opened)
          × ((record_failure later tried).last_failure ≡ later))
      × (((record_failure later once).state ≡ opened)
          × ((record_failure later once).last_failure ≡ later))
half_open_outcomes n cb now later v h o e =
    let (tried, through) = is_open-Trying cb now o e in
    let once = record_success-Trying cb (is_open now cb).0 v.max_eq tried in
    (
      through,
      tried.half,
      tried.streak_eq,
      record_success-closes cb _ v.max_eq once,
      record_failure-opens n cb _ 0 later v h o tried,
      record_failure-opens n cb _ 1 later v h o once,
    )
