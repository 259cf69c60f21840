-- ===== src/Middleware.antt =====
-- The middleware of middleware.go but CircuitBreaker, as layers of a chain (Chain/Onion): Logger,
-- RateLimit, CORS, RequestID, Compression and Security. Recovery is in Panics, and Timeout in
-- Timeout. A middleware that only passes the request on is `before` with nothing to do.
--
-- The clock stands still while one of them works; later handlers move it.
pub mod Limit
pub mod Cross
pub mod Panics
pub mod Stack
pub mod Timeout
pub mod Expiry
pub mod Buckets
pub mod Provider
use r.Common.{
  ℕ, ◌/◌, String, Bool, true, false, ◌||◌, Option, none, some, List, [], ◌∷◌, ◌++◌, if◌then◌else◌,
  str_eq,
}
use text.Mathlib.Text.{find?}
use r.Common.Int.{ℤ, pos, negsuc, sub_ℕ}
use r.Metrics.Call.{Tags, count}
use r.Chain.{Handler, done, act, next_or}
use r.Chain.Onion.{Layer, wrap, before, guard, plain, choice}
use r.Chain.Recovery.{recovery}
use r.Http.{
  Fasthttp, World, Line, request_line, printed_line, error_line, real_ip, get_header, on_response,
  set_header, error_response, json, with_request_id,
}

-- RateLimiter, as far as the middleware uses it: Allow and GetQuota, at a time.
pub record RateLimiter (L : Type 0) : Type 0 where
  pub allow : String → ℕ → L → Bool × L
  pub get_quota : String → ℕ → L → ℤ × ℤ

-- The response that Recovery (Panics) makes by itself.
pub record Reply : Type 0 where
  pub error : String
  pub request_id : String
  pub timestamp : String
  pub debug : Option (String × String)

-- What comes from elsewhere: the n-th UUID, the format `%d`, `int(d.Seconds())`, the format RFC 3339
-- of a time, the JSON encoder on a `Reply`, the stack trace, and the variable APP_ENV.
pub record Host : Type 0 where
  pub uuid : ℕ → String
  pub show : ℤ → String
  pub seconds : ℤ → ℤ
  pub rfc3339 : ℕ → String
  pub encode : Reply → Option String
  pub stack : String
  pub app_env : String

-- The parts of a standardMiddleware that may be there or not.
pub record StandardMiddleware (H : Fasthttp) (L : Type 0) : Type 0 where
  pub logger : Bool
  pub metrics : Bool
  pub security : Option (World H L → World H L)

-- RateLimit makes a limiter for the provider if there is none yet.
unfoldable pub install_limiter : {L : Type 0} → (ℤ → ℤ → L) → ℤ → ℤ → Option L → L
install_limiter make reqs per none = make reqs per
install_limiter make reqs per (some limiter) = limiter

-- `reset.Unix()`
abbrev pub unix : ℤ → ℤ
unix (pos n) = pos (n / 1000000000)
unix (negsuc n) = negsuc (n / 1000000000)

-- `time.Until(reset)`; a time before 1970 counts as 1970, which GetQuota gives only by wrapping.
abbrev pub until : ℤ → ℕ → ℤ
until (pos n) now = sub_ℕ n now
until (negsuc n) now = sub_ℕ 0 now

-- `o == "*" || o == origin`, for one of the origins
unfoldable pub is_allowed : List String → String → Bool
is_allowed [] origin = false
is_allowed (o ∷ origins) origin =
    let rest = is_allowed origins origin in (str_eq o "*" || str_eq o origin) || rest

-- `bytes.Contains(text, "gzip")`
unfoldable pub accepts_gzip : String → Bool
accepts_gzip text = found (find? text "gzip")
  where
    found : Option ℕ → Bool
    found none = false
    found (some place) = true

module _ (H : Fasthttp) (L : Type 0) (host : Host) (m : StandardMiddleware H L) where
  -- Logger, after Next: `start` is the world as the request came in.
  abbrev pub log_request : String → World H L → World H L → World H L
  log_request format start w =
      let method = H.method start.request in
      let status = H.status w.response in
      let latency = sub_ℕ w.now start.now in
      let ip = real_ip H w.request in
      let path = H.path start.request in
      let layout = if str_eq format "" then "%s | %3d | %13v | %15s | %s" else format in
      let line =
        if m.logger
        then request_line method status latency ip path
        else printed_line layout method status latency ip path in
      record w { lines = w.lines ++ (line ∷ []) }

  -- Logger
  unfoldable pub logger : String → Layer (World H L)
  logger format = wrap (λ w. w) (log_request format)

  -- RateLimit: what is asked of the limiter, and the answer to a request that is over the limit.
  abbrev pub ask_limiter : RateLimiter L → World H L → Bool × World H L
  ask_limiter limiter w =
      let (allowed, l) = limiter.allow (real_ip H w.request) w.now w.limiter in
      (allowed, record w { limiter = l })

  abbrev pub reject_request : RateLimiter L → ℤ → World H L → World H L
  reject_request limiter reqs w =
      let (remaining, reset) = limiter.get_quota (real_ip H w.request) w.now w.limiter in
      let w₁ = set_header H L "X-RateLimit-Limit" (host.show reqs) w in
      let w₂ = set_header H L "X-RateLimit-Remaining" (host.show remaining) w₁ in
      let w₃ = set_header H L "X-RateLimit-Reset" (host.show (unix reset)) w₂ in
      let w₄ = set_header H L "Retry-After" (host.show (host.seconds (until reset w.now))) w₃ in
      on_response H L (error_response H (pos 429) "rate limit exceeded") w₄

  unfoldable pub rate_limit : RateLimiter L → ℤ → Layer (World H L)
  rate_limit limiter reqs = guard (ask_limiter limiter) (reject_request limiter reqs)

  abbrev pub origin_of : World H L → String
  origin_of w = H.peek "Origin" w.request

  -- CORS: the answer to a preflight request.
  abbrev pub preflight : World H L → World H L
  preflight w =
      let w₁ = set_header H L "Access-Control-Allow-Origin" (origin_of w) w in
      let w₂ =
        set_header H L "Access-Control-Allow-Methods" "GET, POST, PUT, DELETE, PATCH, HEAD, OPTIONS"
          w₁ in
      let w₃ =
        set_header H L "Access-Control-Allow-Headers"
          "Authorization, Content-Type, Accept, Origin, X-Requested-With" w₂ in
      let w₄ = set_header H L "Access-Control-Allow-Credentials" "true" w₃ in
      let w₅ = set_header H L "Access-Control-Max-Age" "86400" w₄ in
      on_response H L (H.set_status (pos 204)) w₅

  abbrev pub basic_cors : World H L → World H L
  basic_cors w =
      let w₁ = set_header H L "Access-Control-Allow-Origin" (origin_of w) w in
      set_header H L "Access-Control-Allow-Credentials" "true" w₁

  unfoldable pub cors : List String → Layer (World H L)
  unfolding is_allowed
  cors origins =
      choice (λ w. is_allowed origins (origin_of w))
        (choice (λ w. str_eq (H.method w.request) "OPTIONS") (plain preflight) (before basic_cors))
        (before (λ w. w))

  -- RequestID. The method c.RequestID has made an ID already if there was none.
  abbrev pub ensure_request_id : World H L → World H L
  ensure_request_id w =
      let w₁ = with_request_id H L host.uuid w in
      let w₂ = if str_eq w₁.request_id "" then with_request_id H L host.uuid w₁ else w₁ in
      set_header H L "X-Request-ID" w₂.request_id w₂

  unfoldable pub request_id : Layer (World H L)
  request_id = before ensure_request_id

  -- Compression
  abbrev pub encode_gzip : World H L → World H L
  encode_gzip w =
      let w₁ = set_header H L "Content-Encoding" "gzip" w in
      if accepts_gzip (H.peek "Accept-Encoding" w.request)
      then set_header H L "Content-Encoding" "gzip" (set_header H L "Vary" "Accept-Encoding" w₁)
      else w₁

  unfoldable pub compression : Layer (World H L)
  compression = before encode_gzip

  -- Security
  abbrev pub custom_security : Option (World H L → World H L) → World H L → World H L
  custom_security none w = w
  custom_security (some set_headers) w = set_headers w

  abbrev pub security_headers : World H L → World H L
  security_headers w =
      let w₁ = set_header H L "X-Content-Type-Options" "nosniff" w in
      let w₂ = set_header H L "X-Frame-Options" "DENY" w₁ in
      let w₃ = set_header H L "X-XSS-Protection" "1; mode=block" w₂ in
      let w₄ =
        set_header H L "Strict-Transport-Security" "max-age=31536000; includeSubDomains" w₃ in
      let w₅ = set_header H L "Content-Security-Policy" "default-src 'self'" w₄ in
      set_header H L "Referrer-Policy" "strict-origin-when-cross-origin" w₅

  unfoldable pub security : Layer (World H L)
  security = before (λ w. custom_security m.security (security_headers w))
