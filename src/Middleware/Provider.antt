-- ===== src/Middleware/Provider.antt =====
-- NewMiddlewareProvider (middleware.go) with its options, and the configuration of CORS that it keeps
-- and that CORS does not read.
use r.Common.{String, Bool, true, false, Option, none, some, List, [], ◌∷◌}
use r.Common.Int.{ℤ, pos}
use r.Http.{Fasthttp}
use r.Middleware.{StandardMiddleware, install_limiter}

pub record CorsConfig : Type 0 where
  pub origins : List String
  pub allow_methods : List String
  pub allow_headers : List String
  pub allow_credentials : Bool
  pub max_age : ℤ

-- defaultCORSConfig
unfoldable pub default_cors_config : CorsConfig
default_cors_config = record {
  origins = "*" ∷ [];
  allow_methods = "GET" ∷ "POST" ∷ "PUT" ∷ "DELETE" ∷ "PATCH" ∷ "HEAD" ∷ "OPTIONS" ∷ [];
  allow_headers =
      "Authorization" ∷ "Content-Type" ∷ "Accept" ∷ "Origin" ∷ "User-Agent" ∷ "DNT"
      ∷ "Cache-Control" ∷ "X-Mx-ReqToken" ∷ "Keep-Alive" ∷ "X-Requested-With" ∷ "If-Modified-Since"
      ∷ [];
  allow_credentials = true;
  max_age = pos 86400;
}

-- standardMiddleware with the parts that Middleware's record leaves out, but for the router
pub record Provider (H : Fasthttp) (L : Type 0) : Type 1 where
  pub rate_limiter : Option L
  pub parts : StandardMiddleware H L
  pub cors_config : CorsConfig

module _ {H : Fasthttp} {L : Type 0} where
  -- `for _, opt := range opts { opt(m) }`
  unfoldable pub apply_options : List (Provider H L → Provider H L) → Provider H L → Provider H L
  apply_options [] m = m
  apply_options (opt ∷ opts) m = apply_options opts (opt m)

  -- NewMiddlewareProvider
  unfoldable pub new_middleware_provider : List (Provider H L → Provider H L) → Provider H L
  unfolding apply_options default_cors_config
  new_middleware_provider opts = apply_options opts (record {
    rate_limiter = none;
    parts = record { logger = false; metrics = false; security = none };
    cors_config = default_cors_config;
  })

  -- WithRateLimiter
  abbrev pub with_rate_limiter : L → Provider H L → Provider H L
  with_rate_limiter limiter m = record m { rate_limiter = some limiter }

  -- The limiter of RateLimit(reqs, per)
  unfoldable pub ensure_limiter : (ℤ → ℤ → L) → ℤ → ℤ → Provider H L → Provider H L
  unfolding install_limiter
  ensure_limiter make reqs per m = record m {
    rate_limiter = some (install_limiter make reqs per m.rate_limiter);
  }
