-- ===== src/Chain/Step.antt =====
-- One round of the loop of Next (r.go), and Next itself, as equations.
use r.Common.{ℕ, suc, ◌≡◌, true, false}
use r.Chain.{Context, Outcome, returned, handler_at, and_then, advance, has_next, exec, loop}

module _ {W : Type 0} where
  abbrev pub round : ℕ → Context W → Outcome W
  round fuel c =
      and_then (exec (λ d. loop fuel (advance d)) (handler_at c.handlers c.handler_idx) c)
        (λ d. loop fuel (advance d))

  pub loop-more : (fuel : ℕ) (c : Context W) → has_next c ≡ true → loop (suc fuel) c ≡ round fuel c
  unfolding loop
  loop-more fuel c h = rw (h, loop)

  pub loop-over : (fuel : ℕ) (c : Context W) → has_next c ≡ false → loop (suc fuel) c ≡ returned c
  unfolding loop
  loop-over fuel c h = rw (h, loop)
