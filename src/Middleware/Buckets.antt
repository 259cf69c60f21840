-- ===== src/Middleware/Buckets.antt =====
-- RateLimit (middleware.go) on the token buckets of middleware_rate_limiter.go, in a chain.
use r.Common.{
  ℕ, ◌<◌, String, ◌≡◌, refl, sym, ap, ◌∙◌, eq_iff, false, Bool-cases, Option-cases, List, ◌∷◌, map,
  cond, if◌then◌else◌, inl, inr, str_eq,
}
use r.Common.Int.{ℤ, pos, neg_part, pos_part, two_63}
use r.Common.Maps.{load, load-store}
use r.Common.Float.{Floats, IsOrdered}
use r.Limiter.{Limiter, TokenBucket, allow, consume, get_or_create_bucket, scaled, unscaled}
use r.Limiter.Quota.{get_quota}
use r.Limiter.Bounds.{Bounded, found_bucket, Allowed, allow_lem}
use r.Chain.{Context, returned, run_wrapped}
use r.Chain.Onion.{Layer, layer_handler, leaf, onion}
use r.Http.{Fasthttp, World, real_ip}
use r.Http.Laws.{IsFasthttp}
use r.Middleware.{Host, RateLimiter, StandardMiddleware, rate_limit}
use r.Middleware.Limit.{IsRejected, rate_limit_lem}

-- The default limiter as a RateLimiter.
abbrev pub token_buckets : (F : Floats) → RateLimiter (Limiter F.Float)
token_buckets F = record { allow = allow F; get_quota = get_quota F }

module _ (F : Floats) where
  consume-other :
      (key other : String) (bucket : TokenBucket) (rl : Limiter F.Float)
      → str_eq key other ≡ false
      → load (consume F key bucket rl).1.buckets other ≡ load rl.buckets other
  unfolding consume
  consume-other key other bucket rl ne =
      elim (Bool-cases (F.less (unscaled F bucket.tokens) (F.of_int (pos 1)))) [
        | inl poor ↦ rw (poor, load-store) (rw ne refl)
        | inr rich ↦ rw (rich, load-store) (rw ne refl)
      ]

  -- A call of Allow leaves the buckets of the other keys alone.
  allow-other :
      (key other : String) (now : ℕ) (rl : Limiter F.Float)
      → str_eq key other ≡ false
      → load (allow F key now rl).1.buckets other ≡ load rl.buckets other
  unfolding allow get_or_create_bucket
  allow-other key other now rl ne = elim (Option-cases (load rl.buckets key)) [
    | inl missing ↦ rw missing (consume-other key other _ _ ne ∙ rw load-store (rw ne refl))
    | inr (bucket, found) ↦ rw found (consume-other key other _ _ ne)
  ]

  -- The same for all keys.
  others :
      (key other : String) (now : ℕ) (rl : Limiter F.Float)
      → load (allow F key now rl).1.buckets other
        ≡ cond (str_eq key other) (load (allow F key now rl).1.buckets key) (load rl.buckets other)
  others key other now rl = elim (Bool-cases (str_eq key other)) [
    | inl same ↦
        rw same (sym (ap (load (allow F key now rl).1.buckets) ((eq_iff key other).0 same)))
    | inr ne ↦ rw ne (allow-other key other now rl ne)
  ]

module _ {H : Fasthttp} (F : Floats) (host : Host) (m : StandardMiddleware H (Limiter F.Float))
    (laws : IsFasthttp H) (o : IsOrdered F) (reqs : ℤ) where
  abbrev W : Type 0
  W = World H (Limiter F.Float)

  -- RateLimit over the token buckets, first in a chain, where the buckets are within their full number
  -- of tokens and the scaled rate is a number of int64 that is not negative. A request that goes
  -- through to the later handlers leaves in its client's bucket exactly one whole token less than
  -- that holds after getOrCreateBucket and refillBucket, and not less than none; one that is answered
  -- with 429 leaves what the bucket holds after them, which is less than one token, and then no later
  -- handler runs. Either way the
  -- buckets stay within the full number of tokens, and those of the other clients are as they were
  -- when the later handlers begin. fasthttp keeps its laws, and float64 those of its order.
  pub rate_limit_buckets :
      (ls : List (Layer W)) (h : W → W) (w : W)
      → neg_part (scaled F w.limiter.max_rate) ≡ 0
      → pos_part (scaled F w.limiter.max_rate) < two_63
      → Bounded F w.limiter
      → let ip = real_ip H w.request in
        let answer = allow F ip w.now w.limiter in
        (d : Context W) × (run_wrapped
            (map layer_handler (rate_limit H (Limiter F.Float) host m (token_buckets F) reqs ∷ ls))
            (leaf h)
            w
          ≡ returned d)
        × (if answer.0
            then d.world ≡ onion ls h (record w { limiter = answer.1 })
            else IsRejected H
                (Limiter F.Float)
                host
                laws.stored
                (token_buckets F)
                reqs
                answer.1
                w
                d.world)
        × Allowed F ip w.limiter.max_rate (found_bucket F ip w.now w.limiter) answer.0 answer.1
        × ((other : String)
            → load answer.1.buckets other
              ≡ cond (str_eq ip other) (load answer.1.buckets ip) (load w.limiter.buckets other))
  rate_limit_buckets ls h w z c b =
      let ip = real_ip H w.request in
      let (d, e, way) = rate_limit_lem host m laws (token_buckets F) reqs ls h w in
      (
        d,
        e,
        way,
        allow_lem F o ip w.now w.limiter z c b,
        λ other. others F ip other w.now w.limiter,
      )
