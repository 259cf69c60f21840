-- ===== src/Guard/Outage.antt =====
-- The circuit breaker middleware (middleware_circuit_breaker.go) in a chain, on many requests.
use r.Common.{
  ℕ, suc, ◌≡◌, ◌<◌, refl, sym, ap, ◌∙◌, String, Bool, true, false, none, some, List, [], ◌∷◌,
}
use r.Common.Int.{pos, sub_ℕ, ltb_ℤ, two_63}
use r.Common.Maps.{load}
use r.Chain.{act, Context, Outcome, returned, panicked, out_of_fuel, run_wrapped}
use r.Guard.{CircuitBreakerConfig, Guards, Inner, Request, endpoint_key, circuit_breaker}
use r.Guard.Endpoint.{circuit_breaker_all}
use r.Guard.Trips.{AllFail, own_count, last_own, circuit_breaker_trips}
use r.Guard.Around.{Guarded, open_error, request_of, circuit_breaker_handler}
use r.Guard.Chained.{
  SetsStatus, ending, KeepsGuards, SetsStatus, whole_request, Guarding, circuit_breaker_handler_lem,
}

-- A request: how it comes in, what the handler of its route works, and how that handler ends.
pub record Attempt (W : Type 0) : Type 0 where
  pub arrive : W → W
  pub work : W → W
  pub ends : Inner

module _ {W : Type 0} (view : Guarded W) (config : CircuitBreakerConfig) where
  -- The chain of the route.
  abbrev pub attend : Attempt W → W → Outcome W
  attend v w =
      run_wrapped (circuit_breaker_handler view config ∷ [])
        (act v.work (λ _. ending view config v.ends)) (v.arrive w)

  abbrev pub world_after : Outcome W → W → W
  world_after (returned d) w = d.world
  world_after (panicked v d) w = w
  world_after out_of_fuel w = w

  -- Requests one after another.
  unfoldable pub attend_all : List (Attempt W) → W → W
  attend_all [] w = w
  attend_all (v ∷ vs) w = attend_all vs (world_after (attend v w) w)

  -- What the circuit breaker has of them.
  unfoldable pub requests_of : List (Attempt W) → W → List Request
  requests_of [] w = []
  requests_of (v ∷ vs) w =
      whole_request view config v.work v.ends (v.arrive w)
      ∷ requests_of vs (world_after (attend v w) w)

  -- The request and its handler leave the guards alone.
  abbrev pub IsCalm : Attempt W → Type 0
  IsCalm v =
      ((w : W) → view.guards (v.arrive w) ≡ view.guards w)
      × ((w : W) → view.guards (v.work w) ≡ view.guards w)

  abbrev pub AllCalm : List (Attempt W) → Type 0
  AllCalm [] = Unit
  AllCalm (v ∷ vs) = IsCalm v × AllCalm vs

  module _ (laws : KeepsGuards view config) (sets : SetsStatus view config) where
    guards-attend :
        (v : Attempt W) (w : W)
        → IsCalm v
        → view.guards (world_after (attend v w) w)
          ≡ (circuit_breaker config
              (whole_request view config v.work v.ends (v.arrive w))
              (view.guards w)).1
    guards-attend v w (still, calm) =
        let (d, o, kept, _) =
          circuit_breaker_handler_lem view config laws sets v.work v.ends (v.arrive w) calm in
        ap (λ o. view.guards (world_after o w)) o
        ∙ kept
        ∙ ap
            (λ s.
              (circuit_breaker config (whole_request view config v.work v.ends (v.arrive w)) s).1)
            (still w)

    guards-attend_all :
        (vs : List (Attempt W)) (w : W)
        → AllCalm vs
        → view.guards (attend_all vs w)
          ≡ circuit_breaker_all config (requests_of vs w) (view.guards w)
    unfolding attend_all requests_of circuit_breaker_all
    guards-attend_all [] w calm = refl
    guards-attend_all (v ∷ vs) w (c, calm) =
        guards-attend_all vs (world_after (attend v w) w) calm
        ∙ ap (circuit_breaker_all config (requests_of vs (world_after (attend v w) w)))
            (guards-attend v w c)

    -- The response of a request that is turned away.
    abbrev pub TurnedAway : Attempt W → W → Context W → Type 0
    TurnedAway v w d =
        (d.world ≡ view.put_status (pos 503) (view.put_guards (view.guards d.world) (v.arrive w)))
        × (view.status d.world ≡ pos 503)
        × (d.err ≡ some (open_error (request_of view config (v.arrive w))))

    turned_away :
        (through : Bool) (after : Guards) (v : Attempt W) (w : W) (d : Context W)
        → through ≡ false
        → view.guards d.world ≡ after
        → Guarding view config through after v.work v.ends (v.arrive w) d
        → TurnedAway v w d
    turned_away true after v w d no' kept g = cc
    turned_away false after v w d no' kept (world, status, err) = (
      world ∙ ap (λ s. view.put_status (pos 503) (view.put_guards s (v.arrive w))) (sym kept),
      status,
      err,
    )

    -- An outage. Requests come to chains of the circuit breaker and a handler,
    -- of one endpoint and of others, and leave the guards alone, as their handlers do. The endpoint
    -- was new, and all its requests have failed, by an error, a panic or their duration, as many as
    -- the threshold says, from 1 to below 2^63. Then its next request within the reset timeout after
    -- the last of them is turned away: the chain returns, with the status 503 and the error that says
    -- so, and otherwise leaves the request as it came, so that the handler has not run. Setting the
    -- status sets it, and leaves the guards alone.
    pub outage_lem :
        (key : String) (vs : List (Attempt W)) (v : Attempt W) (w : W) (n : ℕ)
        → AllCalm vs
        → IsCalm v
        → load (view.guards w).breakers key ≡ none
        → endpoint_key (request_of view config (v.arrive (attend_all vs w))) ≡ key
        → AllFail config key (requests_of vs w)
        → own_count key (requests_of vs w) ≡ suc n
        → config.threshold ≡ pos (suc n)
        → suc n < two_63
        → ltb_ℤ config.reset_timeout
            (sub_ℕ (view.now (v.arrive (attend_all vs w))) (last_own key (requests_of vs w) 0))
          ≡ false
        → (d : Context W) × (attend v (attend_all vs w) ≡ returned d)
          × TurnedAway v (attend_all vs w) d
    outage_lem key vs v w n calm (still, quiet) fresh own fails count t b soon =
        let w' = v.arrive (attend_all vs w) in
        let q = whole_request view config v.work v.ends w' in
        let (d, o, kept, guarding) =
          circuit_breaker_handler_lem view config laws sets v.work v.ends w' quiet in
        let trips =
          circuit_breaker_trips config key (requests_of vs w) q (view.guards w) n fresh own fails
            count t b soon in
        let same : view.guards w' ≡ circuit_breaker_all config (requests_of vs w) (view.guards w) =
          still (attend_all vs w) ∙ guards-attend_all vs w calm in
        (
          d,
          o,
          turned_away _ _ v (attend_all vs w) d
              (ap (λ s. (circuit_breaker config q s).0) same ∙ trips) kept guarding,
        )
