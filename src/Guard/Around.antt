-- ===== src/Guard/Around.antt =====
-- The circuit breaker middleware (middleware_circuit_breaker.go) as a handler in a chain.
use Prim.Native.String
use r.Common.{◌++◌, ℕ, ◌+◌, String, Bool, false, none, if◌then◌else◌}
use r.Common.Int.{ℤ, pos, sub_ℕ}
use r.Common.Maps.{store}
use r.Breaker.{Breaker, is_open}
use r.Chain.{Handler, done, act, next_or, abort, set_err, read_err}
use r.Chain.Onion.{reading}
use r.Guard.{
  CircuitBreakerConfig, Guards, Inner, Request, endpoint_key, turn_away, tell, say, panic_calls,
  panic_lines, failure_lines, update_circuit_breaker_metrics, completion_calls,
}
use r.Guard.Endpoint.{breaker_of}

-- What the middleware uses of what the handlers share: its own state, the request, the clock, the
-- response's status and its text, whether the request's context is done, and how AbortWithError sets
-- the status.
pub record Guarded (W : Type 0) : Type 0 where
  pub guards : W → Guards
  pub put_guards : Guards → W → W
  pub method : W → String
  pub path : W → String
  pub now : W → ℕ
  pub status : W → ℤ
  pub show : ℤ → String
  pub expired : W → Bool
  pub put_status : ℤ → W → W

-- The request before its outcome is known, and after.
abbrev pub request_begun : String → String → ℕ → Request
request_begun method path now = record {
  method = method;
  path = path;
  now = now;
  inner = Inner.returned none;
  duration = pos 0;
  later = now;
  status = "";
  expired = false;
}

-- `circuit breaker open for %s %s`
abbrev pub open_error : Request → String
open_error q =
    String.◌++◌ "circuit breaker open for " (String.◌++◌ q.method (String.◌++◌ " " q.path))

module _ {W : Type 0} (view : Guarded W) (config : CircuitBreakerConfig) where
  abbrev pub request_of : W → Request
  request_of w = request_begun (view.method w) (view.path w) (view.now w)

  abbrev pub outcome_of : Request → Inner → W → Request
  outcome_of q inner w = record q {
    inner = inner;
    duration = sub_ℕ (view.now w) q.now;
    later = view.now w;
    status = view.show (view.status w);
    expired = view.expired w;
  }

  -- LoadOrStore and IsOpen
  abbrev pub asked_of : W → Breaker × Bool
  asked_of w =
      let q = request_of w in is_open q.now (breaker_of config (endpoint_key q) (view.guards w))

  abbrev pub put_asked : Request → Breaker → Guards → Guards
  put_asked q cb s = record s {
    breakers = store s.breakers (endpoint_key q) cb;
    monitors = s.monitors + 1;
  }

  -- What follows the rest of the chain: the breaker is the endpoint's, as it then is.
  abbrev pub report_outcome : Request → Inner → W → W
  report_outcome q inner w =
      let q' = outcome_of q inner w in
      let s = view.guards w in
      let cb = breaker_of config (endpoint_key q) s in
      let (reported, calls) = update_circuit_breaker_metrics config q' cb in
      view.put_guards
        (tell (panic_calls q' inner ++ calls ++ completion_calls q') (
          say (panic_lines q' inner ++ failure_lines config q')
            (record s { breakers = store s.breakers (endpoint_key q) reported })))
        w

  abbrev pub reported : Request → Inner → Handler W
  reported q inner = act (report_outcome q inner) (λ _. done)

  -- runHandlerWithRecovery, and what follows it
  abbrev pub run_handler_with_recovery : Request → Handler W
  run_handler_with_recovery q =
      next_or (λ v. reported q (Inner.panicked v)) (read_err (λ e. reported q (Inner.returned e)))

  abbrev pub refuse : Request → Breaker → W → W
  refuse q cb w = view.put_status (pos 503) (view.put_guards (turn_away q cb (view.guards w)) w)

  -- What the middleware does once IsOpen has answered.
  abbrev pub after_asking : Bool → Request → Breaker → Handler W
  after_asking rejected q cb =
      if rejected
      then set_err (open_error q) (act (refuse q cb) (λ _. abort done))
      else act (λ w. view.put_guards (put_asked q cb (view.guards w)) w)
          (λ _. run_handler_with_recovery q)

  -- CircuitBreaker
  abbrev pub circuit_breaker_handler : Handler W
  circuit_breaker_handler = reading (λ w. after_asking (asked_of w).1 (request_of w) (asked_of w).0)
