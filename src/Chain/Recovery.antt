-- ===== src/Chain/Recovery.antt =====
-- A panic under a recovering middleware (Recovery of middleware.go) and the loop of Next (r.go).
use r.Common.{
  ℕ, suc, ◌≡◌, refl, ap, ◌∙◌, String, List, [], ◌∷◌, map, length, arith, length-append, length-map,
}
use r.Common.Int.{negsuc}
use r.Chain.Onion.{Layer, layer_handler, leaf, onion, chain_of, step, loop-onion}
use r.Chain.{
  Handler, done, act, next_or, panic, Context, Outcome, returned, panicked, out_of_fuel, advance,
  and_then, exec, loop, next_fuel, execute_handler_chain, wrapped_context, run_wrapped,
  build_handler_chain,
}

module _ {W : Type 0} where
  -- Recovery: `rescue` answers a panic of the inner handlers.
  abbrev pub recovery : (String → W → W) → Handler W
  recovery rescue = next_or (λ v. act (rescue v) (λ _. done)) done

  -- A handler that works and then panics.
  abbrev pub panicker : (W → W) → String → Handler W
  panicker f v = act f (λ _. panic v)

  abbrev rescued : (Context W → Outcome W) → (String → W → W) → Outcome W → Outcome W
  rescued nx rescue o = elim o [
    | returned d ↦ returned d
    | panicked v d ↦ returned (record d { world = rescue v d.world })
    | out_of_fuel ↦ out_of_fuel
  ]

  exec-recovery :
      (nx : Context W → Outcome W) (rescue : String → W → W) (c : Context W)
      → exec nx (recovery rescue) c ≡ rescued nx rescue (nx c)
  unfolding exec
  exec-recovery nx rescue c = go (nx c)
    where
      go :
          (o : Outcome W)
          → elim o as (λ _. Outcome W) [
            | returned d ↦ exec nx done d
            | panicked v d ↦ exec nx (act (rescue v) (λ _. done)) d
            | out_of_fuel ↦ out_of_fuel
          ]
            ≡ rescued nx rescue o
      go (returned d) = refl
      go (panicked v d) = refl
      go out_of_fuel = refl

  -- The panic of the route's own handler is answered, and the chain ends.
  pub recovery_last :
      (rescue : String → W → W) (f : W → W) (v : String) (w : W)
      → (d : Context W) × (run_wrapped (recovery rescue ∷ []) (panicker f v) w ≡ returned d)
        × (d.world ≡ rescue v (f w))
  unfolding run_wrapped execute_handler_chain next_fuel wrapped_context build_handler_chain exec
      loop
  recovery_last rescue f v w = (_, refl, refl)

  -- The panic is answered, and then the loop goes on behind the handler that panicked: the later
  -- middleware and the route's handler run as if it had returned.
  pub recovery_resumes :
      (rescue : String → W → W) (f : W → W) (v : String) (ls : List (Layer W)) (h : W → W) (w : W)
      → (d : Context W) × (run_wrapped
            (recovery rescue ∷ panicker f v ∷ map layer_handler ls)
            (leaf h)
            w
          ≡ returned d)
        × (d.world ≡ onion ls h (rescue v (f w)))
  unfolding run_wrapped execute_handler_chain next_fuel wrapped_context build_handler_chain exec
  recovery_resumes rescue f v ls h w =
      let fuel : ℕ = length (chain_of ls h) in
      let c : Context W =
        advance
          (record (wrapped_context (recovery rescue ∷ panicker f v ∷ map layer_handler ls) (leaf h)
            w) { handler_idx = negsuc 0 }) in
      let b : Context W = record (advance c) { world = f w } in
      let inner : loop (suc (suc fuel)) (advance c) ≡ panicked v b =
        step (suc fuel) 1 (advance c) {x = panicker f v} {rest = chain_of ls h} refl refl refl in
      let (d, o, e, _, _) =
        loop-onion ls h (suc (suc fuel)) 2 (advance (record b { world = rescue v (f w) })) refl refl
          refl
          (omega (
            arith,
            length-append (map layer_handler ls) (leaf h ∷ []),
            length-map ls layer_handler,
          )) in
      (
        d,
        step (suc (suc fuel)) 0 c {x = recovery rescue} {rest = panicker f v ∷ chain_of ls h} refl
              refl refl
            ∙ ap (λ x. and_then x (λ y. loop (suc (suc fuel)) (advance y)))
                (exec-recovery (λ y. loop (suc (suc fuel)) (advance y)) rescue c
                  ∙ ap (rescued (λ y. loop (suc (suc fuel)) (advance y)) rescue) inner)
            ∙ o,
        e,
      )
