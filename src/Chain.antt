-- ===== src/Chain.antt =====
-- The handler chain: ContextImpl.Next (r.go), Abort, AbortWithError and ErrorResponse (context.go),
-- and the functions of router_wrap_handlers.go that build a chain and start it.
--
-- A handler is a program over what a HandlerFunc can do with its Context. `W` is all that the chain
-- itself does not read: request, response, store, and whatever else the handlers share.
pub mod Step
pub mod Total
pub mod Onion
pub mod Recovery
pub mod Child
use r.Common.{
  ℕ, suc, zero, String, Bool, true, false, not, ◌&&◌, Option, none, some, List, [], ◌∷◌, ◌++◌,
  length, get_or,
}
use r.Common.Int.{ℤ, pos, negsuc, ltb_ℤ}

-- `act f k` changes the shared state by `f` and goes on as `k` says of the new state.
-- `next_or rescue k` is `c.Next()` under a deferred function that recovers: a panic of the inner
-- handlers with value v ends the handler by `rescue v`. `read_err` is `c.Error()`.
pub data Handler (W : Type 0) : Type 0 where
  done : Handler W
  act : (W → W) → (W → Handler W) → Handler W
  next : Handler W → Handler W
  next_or : (String → Handler W) → Handler W → Handler W
  abort : Handler W → Handler W
  set_err : String → Handler W → Handler W
  read_err : (Option String → Handler W) → Handler W
  panic : String → Handler W

-- The fields of ContextImpl that the chain uses, and the state that the handlers share.
pub record Context (W : Type 0) : Type 0 where
  pub handlers : List (Handler W)
  pub handler_idx : ℤ
  pub aborted : Bool
  pub err : Option String
  pub world : W

pub data Outcome (W : Type 0) : Type 0 where
  returned : Context W → Outcome W
  panicked : String → Context W → Outcome W
  out_of_fuel : Outcome W

-- `handlerIdx++`
abbrev pub incr : ℤ → ℤ
incr (pos n) = pos (suc n)
incr (negsuc zero) = pos 0
incr (negsuc (suc n)) = negsuc n

-- `handlers[i]`: Go panics on an index out of range.
abbrev pub handler_at : {W : Type 0} → List (Handler W) → ℤ → Handler W
handler_at hs (pos n) = get_or hs n (panic "index out of range")
handler_at hs (negsuc n) = panic "index out of range"

module _ {W : Type 0} where
  abbrev pub and_then : Outcome W → (Context W → Outcome W) → Outcome W
  and_then (returned c) k = k c
  and_then (panicked v c) k = panicked v c
  and_then out_of_fuel k = out_of_fuel

  -- A deferred recover.
  abbrev pub recovering : Outcome W → (String → Context W → Outcome W) → Outcome W
  recovering (returned c) rescue = returned c
  recovering (panicked v c) rescue = rescue v c
  recovering out_of_fuel rescue = out_of_fuel

  abbrev pub advance : Context W → Context W
  advance c = record c { handler_idx = incr c.handler_idx }

  -- ContextImpl.Abort
  abbrev pub do_abort : Context W → Context W
  do_abort c = record c { aborted = true; handler_idx = pos (length c.handlers) }

  -- `c.handlerIdx < len(c.handlers) && !c.aborted`
  abbrev pub has_next : Context W → Bool
  has_next c = ltb_ℤ c.handler_idx (pos (length c.handlers)) && not c.aborted

  -- One handler runs; `nx` is the context's Next.
  unfoldable pub exec : (Context W → Outcome W) → Handler W → Context W → Outcome W
  exec nx done c = returned c
  exec nx (act f k) c = exec nx (k (f c.world)) (record c { world = f c.world })
  exec nx (next k) c = and_then (nx c) (λ d. exec nx k d)
  exec nx (next_or rescue k) c = elim (nx c) [
    | returned d ↦ exec nx k d
    | panicked v d ↦ exec nx (rescue v) d
    | out_of_fuel ↦ out_of_fuel
  ]
  exec nx (abort k) c = exec nx k (do_abort c)
  exec nx (set_err e k) c = exec nx k (record c { err = some e })
  exec nx (read_err k) c = exec nx (k c.err) c
  exec nx (panic v) c = panicked v c

  -- The loop of Next, `fuel` handlers long at most. A handler's own Next is this loop again, after
  -- `handlerIdx++`.
  unfoldable pub loop : ℕ → Context W → Outcome W
  loop zero c = out_of_fuel
  loop (suc fuel) c = elim (has_next c) [
    | true ↦
        and_then (exec (λ d. loop fuel (advance d)) (handler_at c.handlers c.handler_idx) c)
          (λ d. loop fuel (advance d))
    | false ↦ returned c
  ]

  -- ContextImpl.Next
  unfoldable pub next_fuel : ℕ → Context W → Outcome W
  next_fuel fuel c = loop fuel (advance c)

  -- buildHandlerChain: the router's middleware, then the handler.
  unfoldable pub build_handler_chain : List (Handler W) → Handler W → List (Handler W)
  build_handler_chain middleware handler = middleware ++ (handler ∷ [])

  -- executeHandlerChain. One round of fuel for each handler and one to see the end.
  unfoldable pub execute_handler_chain : Context W → Outcome W
  execute_handler_chain c =
      next_fuel (suc (length c.handlers)) (record c { handler_idx = negsuc 0 })

  -- createWrappedHandler up to the call of executeHandlerChain: a context with the full chain.
  unfoldable pub wrapped_context : List (Handler W) → Handler W → W → Context W
  wrapped_context middleware handler w = record {
    handlers = build_handler_chain middleware handler;
    handler_idx = pos 0;
    aborted = false;
    err = none;
    world = w;
  }

  unfoldable pub run_wrapped : List (Handler W) → Handler W → W → Outcome W
  run_wrapped middleware handler w = execute_handler_chain (wrapped_context middleware handler w)
