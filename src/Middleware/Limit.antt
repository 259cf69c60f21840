-- ===== src/Middleware/Limit.antt =====
-- RateLimit (middleware.go) in a chain.
use r.Common.{
  ℕ, String, ◌≡◌, refl, sym, ◌∙◌, Bool, true, false, List, [], ◌∷◌, map, if◌then◌else◌, arith,
}
use mathlib.Core.Path.{subst}
use r.Common.Int.{ℤ, pos}
use r.Chain.{Context, returned, run_wrapped}
use r.Chain.Onion.{Layer, layer_handler, leaf, onion, run_wrapped-onion}
use r.Http.{Fasthttp, World, real_ip}
use r.Http.Names.{same_name, same_fold}
use r.Http.Laws.{
  IsFasthttp, Headers, set_all, value_after, header-set_all, header-error_response,
  status-error_response, body-error_response,
}
use r.Middleware.{
  Host, RateLimiter, StandardMiddleware, rate_limit, ask_limiter, reject_request, unix, until,
}

module _ (H : Fasthttp) (L : Type 0) (host : Host) where
  -- The headers of a rejection.
  abbrev pub limit_headers : ℤ → ℤ → ℤ → ℕ → Headers
  limit_headers reqs remaining reset now =
      ("X-RateLimit-Limit", host.show reqs)
      ∷ ("X-RateLimit-Remaining", host.show remaining)
      ∷ ("X-RateLimit-Reset", host.show (unix reset))
      ∷ ("Retry-After", host.show (host.seconds (until reset now)))
      ∷ []

  -- `v` is `w` after a rejection by the limiter `l`: status, body, the headers, and nothing else.
  abbrev pub IsRejected :
      (stored : String → String) → RateLimiter L → ℤ → L → World H L → World H L → Type 0
  IsRejected stored limiter reqs l w v =
      let quota = limiter.get_quota (real_ip H w.request) w.now l in
      let hs = limit_headers reqs quota.0 quota.1 w.now in
      (H.status v.response ≡ pos 429)
      × (H.body v.response ≡ "rate limit exceeded")
      × ((name : String)
          → H.header name v.response ≡ value_after stored hs name (H.header name w.response))
      × (v ≡ record w { limiter = l; response = v.response })

-- What a decision between two worlds leaves.
pub either_way :
    {W : Type 0} (b : Bool) {x : W} (p q : W) (P : W → Type 0)
    → x ≡ (if b then p else q)
    → P q
    → if b then x ≡ p else P x
either_way true p q P e pq = e
either_way false p q P e pq = subst P (sym e) pq

module _ {H : Fasthttp} {L : Type 0} (host : Host) (m : StandardMiddleware H L)
    (laws : IsFasthttp H) (limiter : RateLimiter L) (reqs : ℤ) where
  pub reject_request-IsRejected :
      (w : World H L)
      → let l = (limiter.allow (real_ip H w.request) w.now w.limiter).1 in
        IsRejected H L host laws.stored limiter reqs l w
          (reject_request H L host m limiter reqs (ask_limiter H L host m limiter w).1)
  unfolding same_name same_fold
  reject_request-IsRejected w =
      let l = (limiter.allow (real_ip H w.request) w.now w.limiter).1 in
      let quota = limiter.get_quota (real_ip H w.request) w.now l in
      let hs = limit_headers H L host reqs quota.0 quota.1 w.now in
      (
        status-error_response laws 429 "rate limit exceeded" (set_all H hs w.response)
            (omega arith),
        body-error_response laws (pos 429) "rate limit exceeded" (set_all H hs w.response),
        λ name.
            header-error_response laws (pos 429) "rate limit exceeded" name
              (set_all H hs w.response)
            ∙ header-set_all laws hs name w.response refl,
        refl,
      )

  -- In a chain that starts with RateLimit, one call of the limiter decides on the client's address.
  -- A request that it allows goes through the later middleware and the handler, with nothing changed
  -- but the limiter's state. One that it rejects is answered with status 429, the text and the four
  -- headers of the quota, and no later middleware and no handler runs. fasthttp keeps its laws.
  pub rate_limit_lem :
      (ls : List (Layer (World H L))) (h : World H L → World H L) (w : World H L)
      → let answer = limiter.allow (real_ip H w.request) w.now w.limiter in
        (d : Context (World H L)) × (run_wrapped
            (map layer_handler (rate_limit H L host m limiter reqs ∷ ls))
            (leaf h)
            w
          ≡ returned d)
        × (if answer.0
            then d.world ≡ onion ls h (record w { limiter = answer.1 })
            else IsRejected H L host laws.stored limiter reqs answer.1 w d.world)
  unfolding rate_limit onion
  rate_limit_lem ls h w =
      let (d, o, e) = run_wrapped-onion (rate_limit H L host m limiter reqs ∷ ls) h w in
      let answer = limiter.allow (real_ip H w.request) w.now w.limiter in
      (
        d,
        o,
        either_way answer.0 _ _ (IsRejected H L host laws.stored limiter reqs answer.1 w) e
            (reject_request-IsRejected w),
      )
