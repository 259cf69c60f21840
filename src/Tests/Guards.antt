-- ===== src/Tests/Guards.antt =====
-- The circuit breaker middleware (middleware_circuit_breaker.go) at concrete inputs.
use r.Breaker.{is_open, new_circuit_breaker, record_failure}
use r.Guard.Outage.{Attempt, attend, attend_all, requests_of, TurnedAway, outage_lem}
use r.Chain.{
  execute_handler_chain, next_fuel, loop, exec, wrapped_context, build_handler_chain, Context,
  Outcome, run_wrapped, act, panic,
}
use r.Guard.Chained.{whole_request, Guarding, circuit_breaker_handler_lem}
use r.Guard.Around.{Guarded, circuit_breaker_handler}
use r.Common.{arith, refl, false, ℕ, ◌+◌, ◌≡◌, String, true, false, none, some, List, [], ◌∷◌}
use r.Common.Int.{ℤ, add_64, pos}
use r.Guard.{
  circuit_breaker, CircuitBreakerConfig, default_circuit_breaker_config, with_failure_threshold,
  Guards, Inner, returned, panicked, Request,
}
use r.Guard.Endpoint.{breaker_of, own_requests, circuit_breaker_all, circuit_breaker_all_lem}
use r.Common.Maps.{store, load}

abbrev config : CircuitBreakerConfig
config = with_failure_threshold (pos 2) default_circuit_breaker_config

abbrev request : String → ℕ → Inner → Request
request path now inner = record {
  method = "GET";
  path = path;
  now = now;
  inner = inner;
  duration = pos 7;
  later = now + 7;
  status = "200";
  expired = false;
}

-- Two failures of one endpoint around a request of another.
abbrev requests : List Request
requests =
    request "/a" 10 (panicked "boom")
    ∷ request "/b" 20 (returned none)
    ∷ request "/a" 30 (returned (some "no"))
    ∷ []

abbrev no_guards : Guards
no_guards = record {
  breakers = [];
  monitors = 0;
  metrics = true;
  calls = [];
  logger = true;
  lines = [];
}

circuit_breaker_all_lem_example :
    (breaker_of config "GET:/a" (circuit_breaker_all config requests no_guards)
      ≡ own_requests config "GET:/a" requests (breaker_of config "GET:/a" no_guards))
    × ((circuit_breaker_all config requests no_guards).monitors ≡ 0 + 3)
circuit_breaker_all_lem_example = circuit_breaker_all_lem config "GET:/a" requests no_guards

-- What the handlers share, at its least.
record Desk : Type 0 where
  guards : Guards
  now : ℕ
  status : ℤ

abbrev desk_view : Guarded Desk
desk_view = record {
  guards = λ w. w.guards;
  put_guards = λ s w. record w { guards = s };
  method = λ w. "GET";
  path = λ w. "/a";
  now = λ w. w.now;
  status = λ w. w.status;
  show = λ c. "200";
  expired = λ w. false;
  put_status = λ c w. record w { status = c };
}

abbrev desk : Desk
desk = record { guards = no_guards; now = 40; status = pos 200 }

abbrev work : Desk → Desk
work w = record w { now = w.now + 5 }

-- A panic of the handler.
circuit_breaker_handler_lem_example :
    let answer =
      circuit_breaker config
        (whole_request desk_view config work (panicked "boom") desk)
        no_guards in
    (d : Context Desk) × (run_wrapped
        (circuit_breaker_handler desk_view config ∷ [])
        (act work (λ _. panic "boom"))
        desk
      ≡ Outcome.returned d)
    × (d.world.guards ≡ answer.1)
    × Guarding desk_view config answer.0 answer.1 work (panicked "boom") desk d
circuit_breaker_handler_lem_example =
    circuit_breaker_handler_lem desk_view config ((λ s w. refl), (λ c w. refl)) (λ n w h. refl) work
      (panicked "boom") desk (λ v. refl)

-- A request whose handler panics.
abbrev crash : Attempt Desk
crash = record { arrive = λ w. record w { now = w.now + 1 }; work = work; ends = panicked "boom" }

outage_lem_example :
    let crashed = attend_all desk_view config (crash ∷ crash ∷ []) desk in
    (d : Context Desk) × (attend desk_view config crash crashed ≡ Outcome.returned d)
    × TurnedAway desk_view config ((λ s w. refl), (λ c w. refl)) (λ n w h. refl) crash crashed d
unfolding load attend_all requests_of run_wrapped execute_handler_chain next_fuel loop exec
    wrapped_context build_handler_chain is_open new_circuit_breaker store record_failure add_64
outage_lem_example =
    outage_lem desk_view config ((λ s w. refl), (λ c w. refl)) (λ n w h. refl) "GET:/a"
      (crash ∷ crash ∷ []) crash desk 1
      (((λ w. refl), (λ w. refl)), (((λ w. refl), (λ w. refl)), tt)) ((λ w. refl), (λ w. refl)) refl
      refl (refl, (refl, tt)) refl refl (omega arith) refl
