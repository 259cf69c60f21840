-- ===== src/Chain/Onion.antt =====
-- Middleware as nested functions: what a chain of Next (r.go) computes, with no index in sight.
use r.Common.{
  Option, none, String, ℕ, suc, zero, ◌+◌, ◌≤◌, ◌<◌, ◌≡◌, refl, ap, ◌∙◌, Bool, true, false,
  Bool-cases, List, [], ◌∷◌, ◌++◌, map, length, get_or, drop, arith, length-append, length-map,
  if◌then◌else◌, inl, inr,
}
use r.Common.Int.{pos, negsuc}
use r.Chain.Step.{loop-more, loop-over}
use r.Chain.{
  Handler, done, act, next, next_or, abort, panic, Context, Outcome, returned, handler_at, advance,
  and_then, incr, do_abort, has_next, exec, loop, next_fuel, build_handler_chain,
  execute_handler_chain, wrapped_context, run_wrapped,
}

-- The usual shapes of middleware: work before and after Next, where the second may use what the first
-- saw; work before Next alone; a guard that goes on or rejects and aborts; one that works and returns
-- without a call of Next; one that answers a panic of the inner handlers; and a choice of two.
pub data Layer (W : Type 0) : Type 0 where
  wrap : (W → W) → (W → W → W) → Layer W
  before : (W → W) → Layer W
  guard : (W → Bool × W) → (W → W) → Layer W
  plain : (W → W) → Layer W
  rescue : (String → W → W) → Layer W
  choice : (W → Bool) → Layer W → Layer W → Layer W

-- A handler that looks at the shared state and goes on.
abbrev pub reading : {W : Type 0} → (W → Handler W) → Handler W
reading k = act (λ w. w) k

module _ {W : Type 0} where
  -- What a guard does once it has decided.
  abbrev pub decided : Bool → (W → W) → Handler W
  decided passes reject = if passes then next done else act reject (λ _. abort done)

  -- The handler that a layer stands for.
  abbrev pub layer_handler : Layer W → Handler W
  layer_handler (wrap pre post) = reading (λ w. act pre (λ _. next (act (post w) (λ _. done))))
  layer_handler (before pre) = act pre (λ _. next done)
  layer_handler (guard ask reject) =
      reading (λ w. act (λ v. (ask v).1) (λ _. decided (ask w).0 reject))
  layer_handler (plain f) = act f (λ _. done)
  layer_handler (rescue f) = next_or (λ v. act (f v) (λ _. done)) done
  layer_handler (choice test l m) =
      let yes' = layer_handler l in
      let no' = layer_handler m in reading (λ w. if test w then yes' else no')

  -- What a layer makes of the later ones, `k`.
  abbrev pub around : Layer W → (W → W) → W → W
  around (wrap pre post) k w = post w (k (pre w))
  around (before pre) k w = k (pre w)
  around (guard ask reject) k w = if (ask w).0 then k (ask w).1 else reject (ask w).1
  around (plain f) k w = k (f w)
  around (rescue f) k w = k w
  around (choice test l m) k w =
      let yes' = around l k w in let no' = around m k w in if test w then yes' else no'

  abbrev pub leaf : (W → W) → Handler W
  leaf h = act h (λ _. done)

  -- The nested functions: each layer has all the later ones inside.
  unfoldable pub onion : List (Layer W) → (W → W) → W → W
  onion [] h = h
  onion (l ∷ ls) h = around l (onion ls h)

  abbrev pub chain_of : List (Layer W) → (W → W) → List (Handler W)
  chain_of ls h = map layer_handler ls ++ (leaf h ∷ [])

  has_next-advance : (c : Context W) → has_next c ≡ false → has_next (advance c) ≡ false
  has_next-advance c h = ground arith

  -- The loop returns a context at the end of the chain, with the error `err` and the world `w`.
  abbrev pub Yields : Option String → W → Outcome W → Type 0
  Yields err w o =
      (d : Context W) × (o ≡ returned d) × (d.world ≡ w) × (d.err ≡ err) × (has_next d ≡ false)

module _ {ℓ} {A : Type ℓ} where
  pub drop-cons :
      (n : ℕ) (xs : List A) {y : A} {ys : List A} (d : A)
      → drop n xs ≡ y ∷ ys
      → (n < length xs) × (get_or xs n d ≡ y) × (drop (suc n) xs ≡ ys)
  drop-cons zero [] d e = ground arith
  drop-cons zero (x ∷ xs) d e = ground arith
  drop-cons (suc n) [] d e = ground arith
  drop-cons (suc n) (x ∷ xs) d e = ground (arith, drop-cons n xs d e)

  pub drop-nil : (n : ℕ) (xs : List A) → drop n xs ≡ [] → length xs ≤ n
  drop-nil zero [] e = omega arith
  drop-nil zero (x ∷ xs) e = ground arith
  drop-nil (suc n) [] e = omega arith
  drop-nil (suc n) (x ∷ xs) e = omega (arith, drop-nil n xs e)

module _ {W : Type 0} where
  -- A round of the loop with the handler at hand.
  pub step :
      (fuel n : ℕ) (c : Context W) {x : Handler W} {rest : List (Handler W)}
      → drop n c.handlers ≡ x ∷ rest
      → c.handler_idx ≡ pos n
      → c.aborted ≡ false
      → loop (suc fuel) c
        ≡ and_then (exec (λ d. loop fuel (advance d)) x c) (λ d. loop fuel (advance d))
  step fuel n c {x} e i a =
      let (inside, same, _) = drop-cons n c.handlers (panic "index out of range") e in
      let here : handler_at c.handlers c.handler_idx ≡ x = rw i same in
      loop-more fuel c (ground arith)
      ∙ ap (λ y. and_then (exec (λ d. loop fuel (advance d)) y c) (λ d. loop fuel (advance d))) here

  -- The handler has left nothing to run: one round more sees that.
  rest_over :
      (fuel : ℕ) (o : Outcome W) {d : Context W} {w : W} {err : Option String}
      → o ≡ returned d
      → d.world ≡ w
      → d.err ≡ err
      → has_next (advance d) ≡ false
      → 0 < fuel
      → Yields err w (and_then o (λ b. loop fuel (advance b)))
  rest_over zero o e v r h p = absurd (omega arith)
  rest_over (suc fuel) o {d} e v r h p = (advance d, rw e (loop-over fuel (advance d) h), v, r, h)

  exec-guard :
      (nx : Context W → Outcome W) (ask : W → Bool × W) (reject : W → W) (c : Context W) (b : Bool)
      → (ask c.world).0 ≡ b
      → exec nx (layer_handler (guard ask reject)) c
        ≡ exec nx (decided b reject) (record c { world = (ask c.world).1 })
  unfolding exec
  exec-guard nx ask reject c b t =
      ap (λ b. exec nx (decided b reject) (record c { world = (ask c.world).1 })) t

  exec-pass :
      (nx : Context W → Outcome W) (reject : W → W) (c d : Context W)
      → nx c ≡ returned d
      → exec nx (decided true reject) c ≡ returned d
  unfolding exec
  exec-pass nx reject c d e = rw (e, exec)

  exec-choice :
      (nx : Context W → Outcome W) (test : W → Bool) (l m : Layer W) (c : Context W) (b : Bool)
      → test c.world ≡ b
      → exec nx (layer_handler (choice test l m)) c
        ≡ exec nx (if b then layer_handler l else layer_handler m) c
  unfolding exec
  exec-choice nx test l m c b t =
      ap (λ b. exec nx (if b then layer_handler l else layer_handler m) c) t

  exec-rescue :
      (nx : Context W → Outcome W) (f : String → W → W) (c d : Context W)
      → nx c ≡ returned d
      → exec nx (layer_handler (rescue f)) c ≡ returned d
  unfolding exec
  exec-rescue nx f c d e = rw (e, exec)

  -- One layer, when the rest of the chain is known to yield `k` of every world.
  layer-Yields :
      (l : Layer W) (k : W → W) (fuel : ℕ) (c : Context W)
      → ((w : W) → Yields c.err (k w) (loop fuel (advance (record c { world = w }))))
      → 0 < fuel
      → Yields c.err (around l k c.world) (
          and_then
            (exec (λ d. loop fuel (advance d)) (layer_handler l) c)
            (λ d. loop fuel (advance d)))
  unfolding exec
  layer-Yields (wrap pre post) k fuel c rest p =
      let (d, o, v, r, over) = rest (pre c.world) in
      rest_over fuel _ {d = record d { world = post c.world d.world }} (rw o) (ap (post c.world) v)
        r (has_next-advance d over) p
  layer-Yields (before pre) k fuel c rest p =
      let (d, o, v, r, over) = rest (pre c.world) in
      rest_over fuel _ {d = d} (rw o) v r (has_next-advance d over) p
  layer-Yields (guard ask reject) k fuel c rest p =
      let (d, o, v, r, over) = rest (ask c.world).1 in
      elim (Bool-cases (ask c.world).0) [
        | inl passes ↦ rw passes (
            rest_over fuel _ {d = d}
              (exec-guard (λ x. loop fuel (advance x)) ask reject c true passes
                ∙ exec-pass (λ x. loop fuel (advance x)) reject
                    (record c { world = (ask c.world).1 }) d o)
              v r (has_next-advance d over) p)
        | inr fails ↦ rw fails (
            rest_over fuel _ {d = do_abort (record c { world = reject (ask c.world).1 })}
              (exec-guard (λ x. loop fuel (advance x)) ask reject c false fails) refl refl
              (ground arith) p)
      ]
  layer-Yields (plain f) k fuel c rest p = rest (f c.world)
  layer-Yields (rescue f) k fuel c rest p =
      let (d, o, v, r, over) = rest c.world in
      rest_over fuel _ {d = d} (exec-rescue (λ x. loop fuel (advance x)) f c d o) v r
        (has_next-advance d over) p
  layer-Yields (choice test l m) k fuel c rest p = elim (Bool-cases (test c.world)) [
    | inl yes' ↦
        rw (yes', exec-choice (λ d. loop fuel (advance d)) test l m c true yes')
          (layer-Yields l k fuel c rest p)
    | inr no' ↦
        rw (no', exec-choice (λ d. loop fuel (advance d)) test l m c false no')
          (layer-Yields m k fuel c rest p)
  ]

  pub loop-onion :
      (ls : List (Layer W)) (h : W → W) (fuel n : ℕ) (c : Context W)
      → drop n c.handlers ≡ chain_of ls h
      → c.handler_idx ≡ pos n
      → c.aborted ≡ false
      → length ls + 1 < fuel
      → Yields c.err (onion ls h c.world) (loop fuel c)
  unfolding exec onion
  loop-onion ls h zero n c e i a f = absurd (omega arith)
  loop-onion [] h (suc fuel) n c e i a f =
      let (_, _, tail) = drop-cons n c.handlers done e in
      rw (step fuel n c e i a) (
        rest_over fuel _ {d = record c { world = h c.world }} refl refl refl
          (ground (arith, drop-nil (suc n) c.handlers tail)) (omega arith))
  loop-onion (l ∷ ls) h (suc fuel) n c e i a f =
      let (_, _, tail) = drop-cons n c.handlers done e in
      rw (step fuel n c e i a) (
        layer-Yields l (onion ls h) fuel c
          (λ w.
            loop-onion ls h fuel (suc n) (advance (record c { world = w })) tail (ap incr i) a
              (omega arith))
          (omega arith))

  -- The chain yields the nested functions, and leaves the context without an error.
  pub run_wrapped-onion_err :
      (ls : List (Layer W)) (h : W → W) (w : W)
      → (d : Context W) × (run_wrapped (map layer_handler ls) (leaf h) w ≡ returned d)
        × (d.world ≡ onion ls h w)
        × (d.err ≡ none)
  unfolding run_wrapped execute_handler_chain next_fuel wrapped_context build_handler_chain
  run_wrapped-onion_err ls h w =
      let (d, o, v, r, _) =
        loop-onion ls h (suc (length (chain_of ls h))) 0
          (advance
            (record (wrapped_context (map layer_handler ls) (leaf h) w) { handler_idx = negsuc 0 }))
          refl refl refl
          (omega (
            arith,
            length-append (map layer_handler ls) (leaf h ∷ []),
            length-map ls layer_handler,
          )) in
      (d, o, v, r)

  -- A route's wrapped handler computes the nested functions of its middleware: the first registered
  -- is the outermost, each one's work after Next is done in the reverse order, a guard that aborts
  -- hides the later handlers and no earlier one, and a middleware that returns without a call of
  -- Next does not stop the chain. The chain returns; it neither panics nor hangs.
  pub run_wrapped-onion :
      (ls : List (Layer W)) (h : W → W) (w : W)
      → (d : Context W) × (run_wrapped (map layer_handler ls) (leaf h) w ≡ returned d)
        × (d.world ≡ onion ls h w)
  run_wrapped-onion ls h w = let (d, o, v, _) = run_wrapped-onion_err ls h w in (d, o, v)
