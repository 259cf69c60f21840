-- ===== src/Tests/Buckets.antt =====
-- RateLimit on token buckets (middleware.go, middleware_rate_limiter.go) at a concrete request.
use r.Common.{ℕ, String, ◌≡◌, refl, false, none, [], ◌∷◌, map, cond, if◌then◌else◌, str_eq, arith}
use r.Common.Int.{pos}
use r.Common.Maps.{load}
use r.Limiter.{Limiter, allow}
use r.Limiter.Bounds.{found_bucket, Allowed}
use r.Chain.{Context, returned, run_wrapped}
use r.Chain.Onion.{layer_handler, leaf, onion}
use r.Http.{World, real_ip}
use r.Http.Names.{same_name, same_fold}
use r.Middleware.{StandardMiddleware, rate_limit}
use r.Middleware.Limit.{IsRejected}
use r.Middleware.Buckets.{token_buckets, rate_limit_buckets}
use r.Tests.Limits.{whole, whole-IsOrdered, busy, busy-Bounded}
use r.Tests.Middlewares.{blank_answer, plain_http, laws, host, get}

abbrev pub provider : StandardMiddleware plain_http (Limiter ℕ)
provider = record { logger = false; metrics = false; security = none }

abbrev pub world : World plain_http (Limiter ℕ)
world = record {
  request = get;
  response = blank_answer;
  request_id = "";
  uuids = 0;
  now = 90;
  limiter = busy;
  calls = [];
  lines = [];
}

rate_limit_buckets_example :
    let answer = allow whole "10.0.0.1" 90 busy in
    (d : Context (World plain_http (Limiter ℕ))) × (run_wrapped
        (map layer_handler
          (rate_limit plain_http (Limiter ℕ) host provider (token_buckets whole) (pos 5) ∷ []))
        (leaf (λ w. w))
        world
      ≡ returned d)
    × (if answer.0
        then d.world ≡ onion [] (λ w. w) (record world { limiter = answer.1 })
        else IsRejected plain_http
            (Limiter ℕ)
            host
            laws.stored
            (token_buckets whole)
            (pos 5)
            answer.1
            world
            d.world)
    × Allowed whole "10.0.0.1" 5 (found_bucket whole "10.0.0.1" 90 busy) answer.0 answer.1
    × ((other : String)
        → load answer.1.buckets other
          ≡ cond
              (str_eq "10.0.0.1" other)
              (load answer.1.buckets "10.0.0.1")
              (load busy.buckets other))
unfolding real_ip same_name same_fold
rate_limit_buckets_example =
    rate_limit_buckets whole host provider laws whole-IsOrdered (pos 5) [] (λ w. w) world refl
      (omega arith) busy-Bounded
