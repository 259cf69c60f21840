-- ===== src/Tests/Chains.antt =====
-- The handler chain (r.go, router_wrap_handlers.go) at concrete inputs.
use r.Common.{true, ℕ, ◌+◌, ◌≡◌, refl, false, List, [], ◌∷◌, ◌++◌, map, none, ltb, length}
use r.Common.Int.{pos}
use r.Chain.{done, next, abort, Context, returned, run_wrapped, execute_handler_chain}
use r.Chain.Total.{Ended, execute_handler_chain-Ended}
use r.Chain.Onion.{
  chain_of, Layer, wrap, before, guard, plain, rescue, choice, layer_handler, leaf, onion,
  run_wrapped-onion,
}

-- The shared state is a log of numbers.
abbrev log : ℕ → List ℕ → List ℕ
log n w = w ++ (n ∷ [])

abbrev log_layer : ℕ → Layer (List ℕ)
log_layer n = plain (log n)

abbrev layers : List (Layer (List ℕ))
layers =
    wrap (log 1) (λ old. log (length old + 9))
    ∷ plain (log 2)
    ∷ guard (λ w. (ltb (length w) 5, w)) (log 7)
    ∷ before (log 4)
    ∷ rescue (λ _. log 8)
    ∷ choice (λ w. ltb (length w) 1) (log_layer 5) (log_layer 6)
    ∷ []

onion_run : onion layers (log 3) [] ≡ 1 ∷ 2 ∷ 4 ∷ 6 ∷ 3 ∷ 9 ∷ []
unfolding onion
onion_run = refl

run_wrapped-onion_example :
    (d : Context (List ℕ)) × (run_wrapped (map layer_handler layers) (leaf (log 3)) [] ≡ returned d)
    × (d.world ≡ onion layers (log 3) [])
run_wrapped-onion_example = run_wrapped-onion layers (log 3) []

abbrev looping : Context (List ℕ)
looping = record {
  handlers = next (next done) ∷ next (abort (next done)) ∷ leaf (log 1) ∷ [];
  handler_idx = pos 0;
  aborted = false;
  err = none;
  world = [];
}

execute_handler_chain-Ended_example : Ended looping (execute_handler_chain looping)
execute_handler_chain-Ended_example = execute_handler_chain-Ended looping

-- An aborted context far behind its last handler.
abbrev parent : Context (List ℕ)
parent = record {
  handlers = chain_of (log_layer 1 ∷ log_layer 2 ∷ []) (log 3);
  handler_idx = pos 7;
  aborted = true;
  err = none;
  world = [];
}
