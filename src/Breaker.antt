-- ===== src/Breaker.antt =====
-- circuit_braker.go: the circuit breaker, one operation after another.
--
-- Times are nanoseconds since 1970 and below 2^63, so that the difference of two is the exact
-- `time.Duration`. The two channels of the monitor loop are the flag `monitoring`.
pub mod Run
pub mod Invariant
pub mod Trip
pub mod Diagram
pub mod Status
use r.Common.{ℕ, String, Bool, true, false, Option, none, some, List, [], ◌∷◌, ◌++◌, if◌then◌else◌}
use r.Common.Int.{ℤ, pos, negsuc, sub_ℕ, add_64, ltb_ℤ, leb_ℤ}
use r.Metrics.Call.{Counter, Tags}

-- StateClosed, StateHalfOpen and StateOpen; no other number is ever stored.
pub data State : Type 0 where
  closed half_open opened : State

pub record Breaker : Type 0 where
  pub failures : ℤ
  pub successes : ℤ
  pub last_failure : ℕ
  pub threshold : ℤ
  pub reset_timeout : ℤ
  pub half_open_max : ℤ
  pub metrics : Bool
  pub state : State
  pub monitoring : Bool
  -- What the collector has been sent, the latest last.
  pub sent : List Counter

abbrev pub is_state : State → State → Bool
is_state closed closed = true
is_state half_open half_open = true
is_state opened opened = true
is_state _ _ = false

-- stateToString
abbrev pub state_to_string : State → String
state_to_string closed = "closed"
state_to_string half_open = "half-open"
state_to_string opened = "open"

-- `if cb.metrics != nil { cb.metrics.IncrementCounter(name, tags) }`
abbrev pub send : String → Tags → Breaker → Breaker
send name tags cb =
    if cb.metrics
    then record cb { sent = cb.sent ++ (record { name = name; tags = tags } ∷ []) }
    else cb

abbrev pub log_state_change : String → String → Breaker → Breaker
log_state_change from to cb =
    send "circuit_breaker.state_change" (("from", from) ∷ ("to", to) ∷ []) cb

abbrev pub increment_failure_metric : Breaker → Breaker
increment_failure_metric = send "circuit_breaker.failure" []

abbrev pub log_unexpected_success : Breaker → Breaker
log_unexpected_success = send "circuit_breaker.unexpected_success" (("state", "open") ∷ [])

abbrev pub increment_success_metric : State → Breaker → Breaker
increment_success_metric s = send "circuit_breaker.success" (("state", state_to_string s) ∷ [])

abbrev pub reset_failures : Breaker → Breaker
reset_failures cb = record cb { failures = pos 0 }

abbrev pub reset_successes : Breaker → Breaker
reset_successes cb = record cb { successes = pos 0 }

-- `state.CompareAndSwap`
abbrev pub compare_and_swap : State → State → Breaker → Breaker × Bool
compare_and_swap old new cb =
    if is_state cb.state old then (record cb { state = new }, true) else (cb, false)

-- `time.Since(time.Unix(0, lastFailure)) > resetTimeout`
abbrev pub is_reset_timeout_elapsed : ℕ → Breaker → Bool
is_reset_timeout_elapsed now cb = ltb_ℤ cb.reset_timeout (sub_ℕ now cb.last_failure)

try_transition_from_open_to_half_open : Breaker → Breaker
try_transition_from_open_to_half_open cb =
    let (cb', swapped) = compare_and_swap opened half_open cb in
    if swapped then log_state_change "open" "half-open" (reset_successes cb') else cb'

unfoldable pub is_open : ℕ → Breaker → Breaker × Bool
unfolding try_transition_from_open_to_half_open
is_open now cb =
    if is_state cb.state opened
    then if is_reset_timeout_elapsed now cb
      then (try_transition_from_open_to_half_open cb, false)
      else (cb, true)
    else (cb, false)

unfoldable pub get_state : Breaker → State
get_state cb = cb.state

check_threshold_and_transition : ℤ → Breaker → Breaker
check_threshold_and_transition failures cb =
    if leb_ℤ cb.threshold failures
    then if is_state cb.state opened
      then cb
      else (let (cb', swapped) = compare_and_swap cb.state opened cb in
          if swapped then log_state_change (state_to_string cb.state) "open" cb' else cb')
    else cb

unfoldable pub record_failure : ℕ → Breaker → Breaker
unfolding check_threshold_and_transition
record_failure now cb =
    let failures = add_64 cb.failures (pos 1) in
    increment_failure_metric (
      check_threshold_and_transition failures
        (record cb { failures = failures; last_failure = now }))

handle_half_open_success : Breaker → Breaker
handle_half_open_success cb =
    let successes = add_64 cb.successes (pos 1) in
    let counted = record cb { successes = successes } in
    if leb_ℤ cb.half_open_max successes
    then (let (cb', swapped) = compare_and_swap half_open closed counted in
        if swapped
        then log_state_change "half-open" "closed" (reset_successes (reset_failures cb'))
        else cb')
    else counted

-- The `switch` of RecordSuccess.
on_success : State → Breaker → Breaker
unfolding handle_half_open_success
on_success half_open cb = handle_half_open_success cb
on_success closed cb = reset_failures cb
on_success opened cb = log_unexpected_success cb

unfoldable pub record_success : Breaker → Breaker
unfolding on_success
record_success cb = increment_success_metric cb.state (on_success cb.state cb)

-- The monitor loop runs from here on.
unfoldable pub new_circuit_breaker : ℤ → ℤ → Bool → Breaker
new_circuit_breaker threshold reset_timeout metrics = record {
  failures = pos 0;
  successes = pos 0;
  last_failure = 0;
  threshold = threshold;
  reset_timeout = reset_timeout;
  half_open_max = pos 2;
  metrics = metrics;
  state = closed;
  monitoring = true;
  sent = [];
}

-- Close stops the loop. A second close of the channel panics, which is `none`.
unfoldable pub close : Breaker → Option Breaker
close cb = if cb.monitoring then some (record cb { monitoring = false }) else none
