-- ===== src/Examples.antt =====
-- The example programs (examples/middleware/main.go, examples/complete_example/main.go): the router
-- that they build, on the models of the library. Their logger and the start of the server are left
-- out. The limiter is the state that the handlers share besides request and response.
pub mod Protected
pub mod Service
pub mod Chat
pub mod Burst
use r.Common.{ℕ, String, Bool, true, Option, none, some, List, [], ◌∷◌, ◌++◌, map, get_elem?}
use r.Common.Int.{ℤ, pos}
use r.Common.Float.{Floats}
use r.Limiter.{Limiter, new_default_rate_limiter}
use r.Chain.{Handler}
use r.Chain.Onion.{Layer, layer_handler, leaf}
use r.Router.{RouterImpl, Site, new_router, use_middleware, handle, group, ws}
use r.Http.{Fasthttp, World, on_response, json, with_request_id}
use r.Middleware.{
  Host, StandardMiddleware, install_limiter, request_id, logger, security, rate_limit, cors,
}
use r.Middleware.Buckets.{token_buckets}

-- `map[string]interface{}{"message": ..., "request_id": ...}`
pub record Message : Type 0 where
  pub message : String
  pub request_id : String

-- `time.Minute`
abbrev pub minute : ℤ
minute = pos 60000000000

abbrev pub log_format : String
log_format = "%s | %3d | %13v | %15s | %s"

-- The limiter that the provider holds after `RateLimit(100, time.Minute)`, and after the later
-- `RateLimit(10, time.Minute)`.
unfoldable pub first_limiter : (F : Floats) → Limiter F.Float
unfolding install_limiter
first_limiter F = install_limiter (new_default_rate_limiter F) (pos 100) minute none

unfoldable pub second_limiter : (F : Floats) → Limiter F.Float
unfolding install_limiter first_limiter
second_limiter F =
    install_limiter (new_default_rate_limiter F) (pos 10) minute (some (first_limiter F))

-- An operation on the router at a place.
abbrev at_router :
    {A : Type 0} → ℕ → (RouterImpl A → Site A → Option (Site A)) → Option (Site A) → Option (Site A)
at_router i op none = none
at_router {A} i op (some s) = apply (get_elem? s.routers i)
  where
    apply : Option (RouterImpl A) → Option (Site A)
    apply none = none
    apply (some router) = op router s

module _ (H : Fasthttp) (F : Floats) (host : Host) (m : StandardMiddleware H (Limiter F.Float))
    (encode : Message → Option String) where
  abbrev pub W : Type 0
  W = World H (Limiter F.Float)

  -- The handlers of /hello and /protected
  abbrev pub send_message : String → W → W
  send_message text w =
      let w₁ = with_request_id H (Limiter F.Float) host.uuid w in
      let reply : Message = record { message = text; request_id = w₁.request_id } in
      on_response H (Limiter F.Float) (λ s. (json H encode (pos 200) reply s).1) w₁

  abbrev pub say_hello : W → W
  say_hello = send_message "Hello World!"

  abbrev pub protected : W → W
  protected = send_message "Protected endpoint!"

  -- The middleware of the router, and what the group /api has besides
  abbrev pub router_layers : List (Layer W)
  router_layers =
      request_id H (Limiter F.Float) host m
      ∷ logger H (Limiter F.Float) host m log_format
      ∷ security H (Limiter F.Float) host m
      ∷ rate_limit H (Limiter F.Float) host m (token_buckets F) (pos 100)
      ∷ cors H (Limiter F.Float) host m ("*" ∷ [])
      ∷ []

  abbrev pub api_layers : List (Layer W)
  api_layers = rate_limit H (Limiter F.Float) host m (token_buckets F) (pos 10) ∷ []

  -- main of examples/middleware
  unfoldable pub middleware_main : Option (Site (Handler W))
  unfolding use_middleware handle group
  middleware_main =
      let s₁ =
        at_router 0 (λ r s. some (use_middleware (map layer_handler router_layers) 0 r s))
          (some new_router) in
      let s₂ = at_router 0 (handle "GET" "/hello" (leaf say_hello ∷ []) 0) s₁ in
      let s₃ = at_router 0 (λ r s. some (group "/api" r s)) s₂ in
      let s₄ = at_router 1 (λ r s. some (use_middleware (map layer_handler api_layers) 1 r s)) s₃ in
      at_router 1 (handle "GET" "/protected" (leaf protected ∷ []) 1) s₄

  -- main of examples/complete_example
  unfoldable pub complete_main : Option (Site (Handler W))
  complete_main = at_router 0 (ws "/ws/chat" true) middleware_main
