-- ===== src/Examples/Burst.antt =====
-- Many requests of one client for /api/protected of the example programs at one time.
use mathlib.Core.Path.{subst}
use r.Common.{
  ℕ, zero, suc, ◌+◌, ◌*◌, ◌≤◌, ◌<◌, ◌≡◌, sym, ap, String, Bool, true, false, Option, none, List, [],
  ◌∷◌, ◌++◌, map, arith, if◌then◌else◌, ◌==◌,
}
use r.Common.Int.{ℤ, pos, negsuc}
use r.Common.Float.{Floats, IsOrdered}
use r.Limiter.{Limiter, token_scale}
use r.Limiter.Burst.{IsExact, exact, cost, Serves, Holds, Costs, first, again}
use r.Chain.{Context, Outcome, returned, panicked, out_of_fuel, run_wrapped}
use r.Chain.Onion.{layer_handler, leaf}
use r.Http.{Fasthttp, World, real_ip}
use r.Http.Laws.{IsFasthttp}
use r.Middleware.{Host, StandardMiddleware}
use r.Examples.{Message, protected, router_layers, api_layers}
use r.Examples.Protected.{asked, Verdict, Judged, protected_run}

-- Status 200
abbrev pub is_ok : ℤ → Bool
is_ok (pos n) = n == 200
is_ok (negsuc n) = false

abbrev pub count_ok : List ℤ → ℕ
count_ok [] = 0
count_ok (status ∷ rest) = (if is_ok status then 1 else 0) + count_ok rest

-- What a request of the group pays.
abbrev price : Bool → ℕ
price ok = if ok then 2 * token_scale else 0

paid_more :
    (ok : Bool) (g t' t : ℕ)
    → t' + price ok ≤ t
    → g * (2 * token_scale) ≤ t'
    → ((if ok then 1 else 0) + g) * (2 * token_scale) ≤ t
paid_more true g t' t c h = omega (arith, c, h)
paid_more false g t' t c h = omega (arith, c, h)

module _ {H : Fasthttp} (F : Floats) (host : Host) (m : StandardMiddleware H (Limiter F.Float))
    (encode : Message → Option String) where
  abbrev Here : Type 0
  Here = World H (Limiter F.Float)

  abbrev pub run_protected : Here → Outcome Here
  run_protected =
      run_wrapped
        (map layer_handler (router_layers H F host m encode ++ api_layers H F host m encode))
        (leaf (protected H F host m encode))

  -- The same request again and again, at the same time, with the limiter as it then is: the statuses of
  -- the responses.
  unfoldable pub visit : ℕ → Here → List ℤ
  visit zero w = []
  visit (suc n) w = elim (run_protected w) [
    | returned d ↦ H.status d.world.response ∷ visit n (record w { limiter = d.world.limiter })
    | panicked v d ↦ []
    | out_of_fuel ↦ []
  ]

  visit-returned :
      (n : ℕ) (w : Here) (d : Context Here)
      → run_protected w ≡ returned d
      → visit (suc n) w
        ≡ H.status d.world.response ∷ visit n (record w { limiter = d.world.limiter })
  unfolding visit
  visit-returned n w d ran =
      ap
        (λ o. elim o as (λ _. List ℤ) [
          | returned d ↦
              H.status d.world.response ∷ visit n (record w { limiter = d.world.limiter })
          | panicked v d ↦ []
          | out_of_fuel ↦ []
        ])
        ran

  module _ (laws : IsFasthttp H) (o : IsOrdered F) (e : IsExact F) where
    abbrev Left : Here → ℕ → Limiter F.Float → Type 0
    Left w t l = Holds F o e 100 59999999999 l (real_ip H w.request) w.now t

    -- What one request leaves of `t`, by the two answers of the limiter.
    judge :
        (w : Here) (t : ℕ) (yes' again' : Bool) (l : Limiter F.Float) (s : H.Response)
        → Verdict F host m encode laws w yes' again' l s
        → (t₁ : ℕ) → t₁ + cost yes' ≤ t
        → Left w t₁ (asked F host m encode laws w w.limiter).1
        → (t₂ : ℕ) → t₂ + cost again' ≤ t₁
        → Left w t₂ (asked F host m encode laws w (asked F host m encode laws w w.limiter).1).1
        → (t' : ℕ) × (t' + price (is_ok (H.status s)) ≤ t) × Left w t' l
    judge w t true true l s (same, ok) t₁ c₁ v₁ t₂ c₂ v₂ =
        (t₂, rw ok (omega (arith, c₁, c₂)), subst (Left w t₂) (sym same) v₂)
    judge w t true false l s (same, refused, _) t₁ c₁ v₁ t₂ c₂ v₂ =
        (t₂, rw refused (omega (arith, c₁, c₂)), subst (Left w t₂) (sym same) v₂)
    judge w t false again' l s (same, refused, _) t₁ c₁ v₁ t₂ c₂ v₂ =
        (t₁, rw refused (omega (arith, c₁)), subst (Left w t₁) (sym same) v₁)

    abbrev Asked : Here → ℕ → Type 0
    Asked w t =
        Costs F o e 100 59999999999 (real_ip H w.request) w.now t
          (asked F host m encode laws w w.limiter)

    one_visit :
        (w : Here) (t : ℕ) (d : Context Here)
        → Asked w t
        → t < exact
        → Judged F host m encode laws w d.world
        → (t' : ℕ) × (t' + price (is_ok (H.status d.world.response)) ≤ t)
          × Left w t' d.world.limiter
    one_visit w t d (t₁, c₁, v₁) k judged =
        let l₁ = (asked F host m encode laws w w.limiter).1 in
        let (t₂, c₂, v₂) =
          again F o e 100 59999999999 (real_ip H w.request) w.now t₁ l₁ v₁ (omega arith) in
        judge w t _ _ d.world.limiter d.world.response judged t₁ c₁ v₁ t₂ c₂ v₂

    all_visits :
        (n t : ℕ) (w : Here)
        → m.security ≡ none
        → t < exact
        → Left w t w.limiter
        → count_ok (visit n w) * (2 * token_scale) ≤ t
    unfolding visit
    all_visits zero t w plain' k v = omega arith
    all_visits (suc n) t w plain' k v =
        let (d, ran, judged) = protected_run F host m encode laws w plain' in
        let (t', c, left) =
          one_visit w t d (again F o e 100 59999999999 (real_ip H w.request) w.now t w.limiter v k)
            k judged in
        let rest =
          all_visits n t' (record w { limiter = d.world.limiter }) plain' (omega arith) left in
        rw (visit-returned n w d ran) (paid_more (is_ok (H.status d.world.response)) _ t' t c rest)

    -- However often one client sends one request for /api/protected of the example programs at one
    -- time: at most 50 of the responses have status 200, although the limits are 100 and 10. The
    -- limiter is that of RateLimit(100, time.Minute), whatever it has done before; no custom security
    -- is set, fasthttp keeps its laws, and float64 those of its order and of its exact numbers.
    pub burst_of_protected :
        (n : ℕ) (w : Here)
        → m.security ≡ none
        → Serves F o e 100 59999999999 w.limiter
        → count_ok (visit n w) ≤ 50
    unfolding visit
    burst_of_protected zero w plain' s = omega arith
    burst_of_protected (suc n) w plain' s =
        let (d, ran, judged) = protected_run F host m encode laws w plain' in
        let (t', c, left) =
          one_visit w (100 * token_scale) d
            (first F o e 100 59999999999 (real_ip H w.request) w.now w.limiter s (omega arith))
            (omega arith) judged in
        let rest =
          all_visits n t' (record w { limiter = d.world.limiter }) plain' (omega arith) left in
        rw (visit-returned n w d ran) (
          omega
            (arith, paid_more (is_ok (H.status d.world.response)) _ t' (100 * token_scale) c rest))
