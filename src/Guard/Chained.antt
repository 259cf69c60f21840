-- ===== src/Guard/Chained.antt =====
-- What the circuit breaker middleware (middleware_circuit_breaker.go) does to a request in a chain.
use r.Common.Int.{ℤ, pos}
use mathlib.Core.Path.{subst}
use r.Common.{
  ℕ, arith, ◌<◌, ◌≡◌, refl, sym, ap, ◌∙◌, String, Bool, true, false, Option, none, some, [], ◌∷◌,
  ◌++◌, if◌then◌else◌,
}
use r.Common.Maps.{store, load-store_self, store-store}
use r.Breaker.{Breaker}
use r.Chain.{
  Handler, done, act, set_err, panic, Context, Outcome, run_wrapped, returned,
  execute_handler_chain, next_fuel, loop, wrapped_context, build_handler_chain, exec, and_then,
  advance,
}
use r.Guard.{
  CircuitBreakerConfig, Guards, Inner, Request, endpoint_key, turn_away, tell, say, panic_calls,
  panic_lines, failure_lines, update_circuit_breaker_metrics, completion_calls, circuit_breaker,
  let_through,
}
use r.Guard.Endpoint.{breaker_of, breaker_of}
use r.Guard.Around.{
  Guarded, open_error, request_of, outcome_of, asked_of, put_asked, report_outcome, refuse,
  after_asking, circuit_breaker_handler,
}

module _ {W : Type 0} (view : Guarded W) (config : CircuitBreakerConfig) where
  -- How the handler behind the middleware ends.
  abbrev pub ending : Inner → Handler W
  ending (Inner.returned none) = done
  ending (Inner.returned (some e)) = set_err e done
  ending (Inner.panicked v) = panic v

  abbrev pub error_of : Inner → Option String
  error_of (Inner.returned e) = e
  error_of (Inner.panicked v) = none

  -- What is left of a request in the guards is kept apart.
  abbrev pub KeepsGuards : Type 0
  KeepsGuards =
      ((s : Guards) (w : W) → view.guards (view.put_guards s w) ≡ s)
      × ((c : ℤ) (w : W) → view.guards (view.put_status c w) ≡ view.guards w)

  -- AbortWithError sets the status.
  abbrev pub SetsStatus : Type 0
  SetsStatus = (n : ℕ) (w : W) → 0 < n → view.status (view.put_status (pos n) w) ≡ pos n

  -- The world as the handler finds it.
  abbrev pub let_in : W → W
  let_in w =
      view.put_guards
        (put_asked view config (request_of view config w) (asked_of view config w).0
          (view.guards w))
        w

  abbrev chain_start : (W → W) → Inner → W → Context W
  unfolding wrapped_context build_handler_chain
  chain_start f inner w =
      wrapped_context (circuit_breaker_handler view config ∷ []) (act f (λ _. ending inner)) w

  -- The chain once IsOpen has answered.
  run_asked : (W → W) → Inner → W → Bool → Outcome W
  unfolding exec
  run_asked f inner w rejected =
      and_then
        (exec (λ d. loop 2 (advance d))
          (after_asking view config rejected (request_of view config w) (asked_of view config w).0)
          (chain_start f inner w))
        (λ d. loop 2 (advance d))

  run_wrapped-asked :
      (f : W → W) (inner : Inner) (w : W)
      → run_wrapped (circuit_breaker_handler view config ∷ []) (act f (λ _. ending inner)) w
        ≡ run_asked f inner w (asked_of view config w).1
  unfolding run_wrapped execute_handler_chain next_fuel loop wrapped_context build_handler_chain
      exec run_asked
  run_wrapped-asked f inner w = refl

  -- What the chain leaves, by the answer of IsOpen.
  abbrev Leaves : (W → W) → Inner → W → Bool → Outcome W → Type 0
  Leaves f inner w true o =
      (d : Context W) × (o ≡ returned d)
      × (d.world ≡ refuse view config (request_of view config w) (asked_of view config w).0 w)
      × (d.err ≡ some (open_error (request_of view config w)))
  Leaves f inner w false o =
      (d : Context W) × (o ≡ returned d)
      × (d.world ≡ report_outcome view config (request_of view config w) inner (f (let_in w)))
      × (d.err ≡ error_of inner)

  run_asked-Leaves :
      (f : W → W) (inner : Inner) (w : W) (rejected : Bool)
      → Leaves f inner w rejected (run_asked f inner w rejected)
  unfolding run_asked loop exec wrapped_context build_handler_chain
  run_asked-Leaves f inner w true = (_, refl, refl, refl)
  run_asked-Leaves f (Inner.returned none) w false = (_, refl, refl, refl)
  run_asked-Leaves f (Inner.returned (some x)) w false = (_, refl, refl, refl)
  run_asked-Leaves f (Inner.panicked v) w false = (_, refl, refl, refl)

  abbrev pub whole_request : (W → W) → Inner → W → Request
  whole_request f inner w = outcome_of view config (request_of view config w) inner (f (let_in w))

  asked-circuit_breaker :
      (f : W → W) (inner : Inner) (w : W) (rejected : Bool)
      → (asked_of view config w).1 ≡ rejected
      → let q = whole_request f inner w in
        let s = view.guards w in
        circuit_breaker config q s ≡ (
          if rejected
          then (false, turn_away q (asked_of view config w).0 s)
          else (true, let_through config q (asked_of view config w).0 s))
  unfolding circuit_breaker
  asked-circuit_breaker f inner w rejected e =
      let q = whole_request f inner w in
      let s = view.guards w in
      ap
        (λ b.
          if b
          then (false, turn_away q (asked_of view config w).0 s)
          else (true, let_through config q (asked_of view config w).0 s))
        e

  abbrev with_outcome : Request → Guards → Guards
  with_outcome q s =
      let (reported, calls) =
        update_circuit_breaker_metrics config q (breaker_of config (endpoint_key q) s) in
      tell (panic_calls q q.inner ++ calls ++ completion_calls q) (
        say (panic_lines q q.inner ++ failure_lines config q)
          (record s { breakers = store s.breakers (endpoint_key q) reported }))

  -- The report finds the breaker that was asked, and leaves the guards as after the whole request.
  let_through-with_outcome :
      (q : Request) (cb : Breaker) (s : Guards)
      → with_outcome q (put_asked view config q cb s) ≡ let_through config q cb s
  let_through-with_outcome q cb s =
      let key = endpoint_key q in rw (load-store_self s.breakers key cb, store-store) refl

  -- What the client and the rest of the server see of a request that went through, or was turned away;
  -- `after` are the guards afterwards.
  abbrev pub Guarding : Bool → Guards → (W → W) → Inner → W → Context W → Type 0
  Guarding true after f inner w d =
      (d.world ≡ view.put_guards after (f (let_in w))) × (d.err ≡ error_of inner)
  Guarding false after f inner w d =
      (d.world ≡ view.put_status (pos 503) (view.put_guards after w))
      × (view.status d.world ≡ pos 503)
      × (d.err ≡ some (open_error (request_of view config w)))

  abbrev Ends : (W → W) → Inner → W → Outcome W → Bool × Guards → Type 0
  Ends f inner w o answer =
      (d : Context W) × (o ≡ returned d)
      × (view.guards d.world ≡ answer.1)
      × Guarding answer.0 answer.1 f inner w d

  settle :
      KeepsGuards
      → SetsStatus
      → (f : W → W) (inner : Inner) (w : W) → ((v : W) → view.guards (f v) ≡ view.guards v)
      → (rejected : Bool) → Leaves f inner w rejected (run_asked f inner w rejected)
      → let q = whole_request f inner w in
        let cb = (asked_of view config w).0 in
        Ends f inner w (run_asked f inner w rejected) (
          if rejected
          then (false, turn_away q cb (view.guards w))
          else (true, let_through config q cb (view.guards w)))
  settle (kept, untouched) sets f inner w calm true (d, o, world, err) = (
    d,
    o,
    ap view.guards world ∙ untouched _ _ ∙ kept _ w,
    (world, ap view.status world ∙ sets 503 _ (omega arith), err),
  )
  settle (kept, untouched) sets f inner w calm false (d, o, world, err) =
      let after = f (let_in w) in
      let found : view.guards after
          ≡ put_asked view config (request_of view config w) (asked_of view config w).0
              (view.guards w) =
        calm (let_in w) ∙ kept _ w in
      let same : d.world
          ≡ view.put_guards
              (let_through config (whole_request f inner w) (asked_of view config w).0
                (view.guards w))
              after =
        world
        ∙ ap (λ s. view.put_guards (with_outcome (whole_request f inner w) s) after) found
        ∙ ap (λ s. view.put_guards s after)
            (let_through-with_outcome (whole_request f inner w) (asked_of view config w).0
              (view.guards w)) in
      (d, o, ap view.guards same ∙ kept _ after, (same, err))

  -- CircuitBreaker in a chain before a handler, which works by `f` and then returns, with an error
  -- in the context or without, or panics. The guards are kept apart from what else the handlers
  -- share, setting the status sets it, and the handler leaves them alone. The chain returns, and
  -- leaves in the guards what the circuit breaker makes of the whole request, with its outcome and
  -- its duration. A request that goes through ends as the handler has it, with the handler's
  -- error; if the handler panics, nothing else than the report tells of it: the response is what
  -- the handler had made of it by then, and there is no error. A request that is turned away finds
  -- no handler: the chain leaves the status 503 and the error that says so, and is otherwise as it
  -- came.
  pub circuit_breaker_handler_lem :
      KeepsGuards
      → SetsStatus
      → (f : W → W) (inner : Inner) (w : W) → ((v : W) → view.guards (f v) ≡ view.guards v)
      → let answer = circuit_breaker config (whole_request f inner w) (view.guards w) in
        (d : Context W) × (run_wrapped
            (circuit_breaker_handler view config ∷ [])
            (act f (λ _. ending inner))
            w
          ≡ returned d)
        × (view.guards d.world ≡ answer.1)
        × Guarding answer.0 answer.1 f inner w d
  circuit_breaker_handler_lem laws sets f inner w calm =
      let rejected = (asked_of view config w).1 in
      subst
        (λ o. Ends f inner w o (circuit_breaker config (whole_request f inner w) (view.guards w)))
        (sym (run_wrapped-asked f inner w))
        (subst (Ends f inner w (run_asked f inner w rejected))
          (sym (asked-circuit_breaker f inner w rejected refl))
          (settle laws sets f inner w calm rejected (run_asked-Leaves f inner w rejected)))
