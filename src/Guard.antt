-- ===== src/Guard.antt =====
-- The circuit breaker middleware (middleware_circuit_breaker.go).
--
-- One request after another: what the chain behind the middleware does is an argument, and so are
-- the readings of the clock. A float64 that the collector is told is given by what it is computed
-- from (`Sample`), and a line of the logger without the stack trace.
pub mod Endpoint
pub mod Trips
pub mod Around
pub mod Chained
pub mod Outage
use Prim.Native.String
use r.Common.{
  ℕ, ◌+◌, ◌/◌, String, Bool, true, false, not, ◌||◌, Option, none, some, List, [], ◌∷◌, ◌++◌,
  if◌then◌else◌, leb,
}
use r.Common.Int.{ℤ, pos, pos_part, ltb_ℤ, add_64}
use r.Common.Maps.{Map, load, store, or_else}
use r.Metrics.Call.{Tags, Call, count, timing, value}
use r.Breaker.{Breaker, new_circuit_breaker, is_open, record_failure, record_success}

pub record CircuitBreakerConfig : Type 0 where
  pub threshold : ℤ
  pub reset_timeout : ℤ
  pub timeout : ℤ
  pub half_open_requests : ℤ

-- In nanoseconds.
abbrev pub default_circuit_breaker_config : CircuitBreakerConfig
default_circuit_breaker_config = record {
  threshold = pos 5;
  reset_timeout = pos 10000000000;
  timeout = pos 5000000000;
  half_open_requests = pos 2;
}

-- WithFailureThreshold
abbrev pub with_failure_threshold : ℤ → CircuitBreakerConfig → CircuitBreakerConfig
with_failure_threshold threshold config = record config { threshold = threshold }

-- WithResetTimeout
abbrev pub with_reset_timeout : ℤ → CircuitBreakerConfig → CircuitBreakerConfig
with_reset_timeout timeout config = record config { reset_timeout = timeout }

-- A float64: a duration in seconds, `float64(a) / float64(b) * 100` (zero unless b is positive), or a
-- number.
pub data Sample : Type 0 where
  seconds : ℤ → Sample
  percentage : ℤ → ℤ → Sample
  amount : ℤ → Sample

-- What the logger is told: of a panic, with its error, and of a failure, with its error if there is
-- one, the duration and the timeout; then path and method.
pub data GuardLine : Type 0 where
  panic_line : String → String → String → GuardLine
  failure_line : Option String → ℤ → ℤ → String → String → GuardLine

-- The breakers of the endpoints, the number of monitor loops that run, the calls of the collector and
-- the lines of the logger. `metrics` and `logger` say that there are these two.
pub record Guards : Type 0 where
  pub breakers : Map Breaker
  pub monitors : ℕ
  pub metrics : Bool
  pub calls : List (Call Sample)
  pub logger : Bool
  pub lines : List GuardLine

-- How the chain behind the middleware ended: with the context's error, or with a panic.
pub data Inner : Type 0 where
  returned : Option String → Inner
  panicked : String → Inner

-- A request: when it comes, what becomes of it, how long it takes, the status of the response, and
-- whether its context is done by then.
pub record Request : Type 0 where
  pub method : String
  pub path : String
  pub now : ℕ
  pub inner : Inner
  pub duration : ℤ
  pub later : ℕ
  pub status : String
  pub expired : Bool

abbrev pub endpoint_key : Request → String
endpoint_key q = String.◌++◌ q.method (String.◌++◌ ":" q.path)

abbrev pub tell : List (Call Sample) → Guards → Guards
tell calls s = if s.metrics then record s { calls = s.calls ++ calls } else s

abbrev pub say : List GuardLine → Guards → Guards
say lines s = record s { lines = if s.logger then s.lines ++ lines else s.lines }

abbrev pub endpoint_tags : Request → Tags
endpoint_tags q = ("path", q.path) ∷ ("method", q.method) ∷ []

-- runHandlerWithRecovery: the error of the request.
abbrev pub handler_error : Inner → Option String
handler_error (returned err) = err
handler_error (panicked v) = some (String.◌++◌ "panic: " v)

abbrev pub panic_calls : Request → Inner → List (Call Sample)
panic_calls q (returned err) = []
panic_calls q (panicked v) = count "circuit_breaker.panics" (endpoint_tags q) ∷ []

abbrev pub panic_lines : Request → Inner → List GuardLine
panic_lines q (returned err) = []
panic_lines q (panicked v) = panic_line (String.◌++◌ "panic: " v) q.path q.method ∷ []

-- `handlerError != nil || duration > config.Timeout`
abbrev pub is_failure : CircuitBreakerConfig → Request → Bool
is_failure config q = is_some (handler_error q.inner) || ltb_ℤ config.timeout q.duration
  where
    is_some : Option String → Bool
    is_some none = false
    is_some (some e) = true

abbrev pub reason : Option String → Tags
reason (some e) = ("reason", e) ∷ ("type", "error") ∷ []
reason none = ("reason", "timeout") ∷ ("type", "timeout") ∷ []

-- The histogram of latencies, in milliseconds.
abbrev pub latency_buckets : List (ℕ × String)
latency_buckets =
    (10, "circuit_breaker.latency_le_10")
    ∷ (50, "circuit_breaker.latency_le_50")
    ∷ (100, "circuit_breaker.latency_le_100")
    ∷ (200, "circuit_breaker.latency_le_200")
    ∷ (500, "circuit_breaker.latency_le_500")
    ∷ (1000, "circuit_breaker.latency_le_1000")
    ∷ []

abbrev pub bucket_calls : List (ℕ × String) → Request → List (Call Sample)
bucket_calls [] q = []
bucket_calls (bucket ∷ buckets) q =
    let rest = bucket_calls buckets q in
    if leb (pos_part q.duration / 1000000) bucket.0
    then count bucket.1 (endpoint_tags q) ∷ rest
    else rest

-- MonitorState, on the breaker that the failure has been reported to
abbrev pub monitor_calls : Breaker → List (Call Sample)
monitor_calls cb =
    if cb.metrics
    then value "circuit_breaker.error_rate"
        (percentage cb.failures (add_64 cb.failures cb.successes)) []
      ∷ value "circuit_breaker.failures" (amount cb.failures) []
      ∷ []
    else []

-- The line of a failure
abbrev pub failure_lines : CircuitBreakerConfig → Request → List GuardLine
failure_lines config q =
    if is_failure config q
    then failure_line (handler_error q.inner) q.duration config.timeout q.path q.method ∷ []
    else []

-- updateCircuitBreakerMetrics: the breaker, and the calls of the collector.
abbrev pub update_circuit_breaker_metrics :
    CircuitBreakerConfig → Request → Breaker → Breaker × List (Call Sample)
update_circuit_breaker_metrics config q cb =
    if is_failure config q
    then (
      record_failure q.later cb,
      count "circuit_breaker.failures" (endpoint_tags q ++ reason (handler_error q.inner))
          ∷ timing "circuit_breaker.error_latency" q.duration
              (endpoint_tags q ++ reason (handler_error q.inner))
          ∷ monitor_calls (record_failure q.later cb),
    )
    else (
      record_success cb,
      timing "circuit_breaker.success_latency" q.duration (endpoint_tags q)
          ∷ count "circuit_breaker.successes" (endpoint_tags q)
          ∷ bucket_calls latency_buckets q,
    )

-- recordCompletionMetrics
abbrev pub completion_calls : Request → List (Call Sample)
completion_calls q =
    value "circuit_breaker.request_duration_seconds" (seconds q.duration)
      (endpoint_tags q ++ (("status", q.status) ∷ []))
    ∷ (if q.expired then count "circuit_breaker.context_cancelled" (endpoint_tags q) ∷ [] else [])

-- `breakers.LoadOrStore(key, NewCircuitBreaker(…))`: the new breaker, whose monitor loop runs, is
-- made in any case.
abbrev pub stored : Option Breaker → Breaker → Breaker
stored (some cb) new = cb
stored none new = new

-- An open breaker: the request is answered with status 503.
abbrev pub turn_away : Request → Breaker → Guards → Guards
turn_away q cb s =
    tell (count "circuit_breaker.rejected" (endpoint_tags q) ∷ [])
      (record s { breakers = store s.breakers (endpoint_key q) cb; monitors = s.monitors + 1 })

-- The request goes to the chain behind the middleware, and its outcome is reported.
abbrev pub let_through : CircuitBreakerConfig → Request → Breaker → Guards → Guards
let_through config q cb s =
    let (reported, calls) = update_circuit_breaker_metrics config q cb in
    tell (panic_calls q q.inner ++ calls ++ completion_calls q) (
      say (panic_lines q q.inner ++ failure_lines config q) (record s {
        breakers = store s.breakers (endpoint_key q) reported;
        monitors = s.monitors + 1;
      }))

-- The middleware: whether the request went through to the chain behind it.
unfoldable pub circuit_breaker : CircuitBreakerConfig → Request → Guards → Bool × Guards
circuit_breaker config q s =
    let cb =
      stored (load s.breakers (endpoint_key q))
        (new_circuit_breaker config.threshold config.reset_timeout s.metrics) in
    let (asked, rejected) = is_open q.now cb in
    if rejected then (false, turn_away q asked s) else (true, let_through config q asked s)
