-- ===== src/Chain/Total.antt =====
-- The chain of r.go's Next ends: no sequence of handlers and of calls of Next runs for ever.
use r.Common.{
  ℕ, suc, zero, ◌+◌, ◌-◌, ◌≤◌, ◌<◌, ◌≡◌, refl, sym, ◌∙◌, true, false, ◌⊎◌, inl, inr, Bool-cases,
  List, length, arith,
}
use r.Common.Int.{ℤ, pos, negsuc, ◌≤ℤ◌}
use r.Chain.Step.{loop-more, loop-over}
use r.Chain.{
  Handler, done, act, next, next_or, abort, set_err, read_err, panic, Context, Outcome, returned,
  panicked, out_of_fuel, incr, handler_at, and_then, advance, do_abort, has_next, exec, loop,
  next_fuel, execute_handler_chain,
}

module _ {W : Type 0} where
  -- How many rounds of the loop the index leaves.
  abbrev pub rounds : List (Handler W) → ℤ → ℕ
  rounds hs (pos n) = length hs - n
  rounds hs (negsuc n) = length hs + suc n

  abbrev pub Within : List (Handler W) → ℕ → Context W → Type 0
  Within hs m c = (c.handlers ≡ hs) × (rounds hs c.handler_idx ≤ m)

  -- The outcome is no lack of fuel, and the index has not gone back.
  abbrev pub Settled : List (Handler W) → ℕ → Outcome W → Type 0
  Settled hs m (returned c) = Within hs m c
  Settled hs m (panicked v c) = Within hs m c
  Settled hs m out_of_fuel = ⊥

  rounds-incr : (hs : List (Handler W)) (i : ℤ) → rounds hs (incr i) ≤ rounds hs i - 1
  rounds-incr hs (pos n) = omega arith
  rounds-incr hs (negsuc zero) = omega arith
  rounds-incr hs (negsuc (suc n)) = omega arith

  Settled-mono :
      (hs : List (Handler W)) (m k : ℕ) (o : Outcome W) → m ≤ k → Settled hs m o → Settled hs k o
  Settled-mono hs m k (returned c) h s = (s.0, omega arith)
  Settled-mono hs m k (panicked v c) h s = (s.0, omega arith)
  Settled-mono hs m k out_of_fuel h s = s

  Settled-and_then :
      (hs : List (Handler W)) (m : ℕ) (o : Outcome W) (f : Context W → Outcome W)
      → Settled hs m o
      → ((d : Context W) → Within hs m d → Settled hs m (f d))
      → Settled hs m (and_then o f)
  Settled-and_then hs m (returned c) f s k = k c s
  Settled-and_then hs m (panicked v c) f s k = s
  Settled-and_then hs m out_of_fuel f s k = s

  module _ (hs : List (Handler W)) (m : ℕ) (nx : Context W → Outcome W)
      (ok : (d : Context W) → Within hs m d → Settled hs m (nx d)) where
    abort-Within : (c : Context W) → Within hs m c → Within hs m (do_abort c)
    abort-Within c (e, h) = ground arith

    exec-Settled : (h : Handler W) (c : Context W) → Within hs m c → Settled hs m (exec nx h c)
    unfolding exec
    exec-Settled done c w = w
    exec-Settled (act f k) c w = exec-Settled (k (f c.world)) (record c { world = f c.world }) w
    exec-Settled (next k) c w =
        Settled-and_then hs m (nx c) (λ d. exec nx k d) (ok c w) (λ d v. exec-Settled k d v)
    exec-Settled (next_or rescue k) c w =
        elim (nx c)
            as (λ o.
              Settled hs m o
              → Settled hs m (elim o [
                | returned d ↦ exec nx k d
                | panicked v d ↦ exec nx (rescue v) d
                | out_of_fuel ↦ out_of_fuel
              ])) [
                | returned d ↦ λ s. exec-Settled k d s
                | panicked v d ↦ λ s. exec-Settled (rescue v) d s
                | out_of_fuel ↦ λ s. s
              ]
          (ok c w)
    exec-Settled (abort k) c w = exec-Settled k (do_abort c) (abort-Within c w)
    exec-Settled (set_err e k) c w = exec-Settled k _ w
    exec-Settled (read_err k) c w = exec-Settled (k c.err) c w
    exec-Settled (panic v) c w = w

  has_next-rounds : (c : Context W) → has_next c ≡ true → 0 < rounds c.handlers c.handler_idx
  has_next-rounds c h = ground arith

  -- With more fuel than rounds the loop comes to an end.
  pub loop-Settled :
      (fuel m : ℕ) (hs : List (Handler W)) (c : Context W)
      → m < fuel
      → Within hs m c
      → Settled hs m (loop fuel c)
  loop-Settled zero m hs c h w = absurd (omega arith)
  loop-Settled (suc fuel) m hs c h w = elim (Bool-cases (has_next c)) [
    | inl more ↦
        let enough : 0 < m = omega (arith, has_next-rounds c more, rounds-of w) in
        let again : (d : Context W) → Within hs m d → Settled hs m (loop fuel (advance d)) = λ d v.
          Settled-mono hs (m - 1) m (loop fuel (advance d)) (omega arith) (
            loop-Settled fuel (m - 1) hs (advance d) (omega arith)
              (v.0, omega (arith, rounds-incr hs d.handler_idx))) in
        let nx : Context W → Outcome W = λ d. loop fuel (advance d) in
        rw (loop-more fuel c more) (
          Settled-and_then hs m (exec nx (handler_at c.handlers c.handler_idx) c) nx
            (exec-Settled hs m nx again (handler_at c.handlers c.handler_idx) c w) again)
    | inr over ↦ rw (loop-over fuel c over) w
  ]
    where
      rounds-of : Within hs m c → rounds c.handlers c.handler_idx ≤ m
      rounds-of w = rw w.0 w.1

  and_then-returned :
      (o : Outcome W) (f : Context W → Outcome W) {d : Context W}
      → and_then o f ≡ returned d
      → (b : Context W) × (o ≡ returned b) × (f b ≡ returned d)
  and_then-returned (returned b) f e = (b, refl, e)
  and_then-returned (panicked v b) f e = cc
  and_then-returned out_of_fuel f e = cc

  -- What the loop returns is at the end of the chain, or aborted.
  pub loop_returned : (fuel : ℕ) (c d : Context W) → loop fuel c ≡ returned d → has_next d ≡ false
  unfolding loop
  loop_returned zero c d e = cc
  loop_returned (suc fuel) c d e = elim (Bool-cases (has_next c)) [
    | inl more ↦
        let (b, _, rest) =
          and_then-returned
            (exec (λ d'. loop fuel (advance d')) (handler_at c.handlers c.handler_idx) c)
            (λ d'. loop fuel (advance d')) (sym (loop-more fuel c more) ∙ e) in
        loop_returned fuel (advance b) d rest
    | inr over ↦ ground (arith, loop-over fuel c over)
  ]

  -- A chain that has been started ends: it returns with the abort flag set or with every handler
  -- behind the index, or it hands a panic on. The handlers are those that it was started with.
  abbrev pub Ended : Context W → Outcome W → Type 0
  Ended c (returned d) =
      (d.handlers ≡ c.handlers) × ((d.aborted ≡ true) ⊎ (pos (length c.handlers) ≤ℤ d.handler_idx))
  Ended c (panicked v d) = d.handlers ≡ c.handlers
  Ended c out_of_fuel = ⊥

  ended :
      (c : Context W) (o : Outcome W) (m : ℕ)
      → Settled c.handlers m o
      → ((d : Context W) → o ≡ returned d → has_next d ≡ false)
      → Ended c o
  ended c (returned d) m s h = ground (arith, h d refl)
  ended c (panicked v d) m s h = s.0
  ended c out_of_fuel m s h = s

  -- Whatever the handlers do, executeHandlerChain ends: it never runs out of the fuel of one round
  -- for each handler and one more. If it returns, the context is aborted or its index has passed
  -- every handler; and the chain's handlers are unchanged, also when a panic leaves it.
  pub execute_handler_chain-Ended : (c : Context W) → Ended c (execute_handler_chain c)
  unfolding execute_handler_chain next_fuel
  execute_handler_chain-Ended c =
      let start : Context W = record c { handler_idx = pos 0 } in
      ended c _ (length c.handlers)
        (loop-Settled (suc (length c.handlers)) (length c.handlers) c.handlers start (omega arith)
          (refl, omega arith))
        (λ d. loop_returned (suc (length c.handlers)) start d)
