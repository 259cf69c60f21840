-- ===== src/Server/Handler.antt =====
-- The final handler (server_build_handler.go) on a request whose route is found: BuildHandler, the
-- route's wrapped handler (router_wrap_handlers.go) and the two contexts that they make. An argument
-- `custom` says that the router has a NotFound handler.
use Prim.Native.String
use r.Common.{
  Bool, false, not, ◌&&◌, ◌==◌, ◌∷◌, [], Option, none, some, ◌++◌, ℕ, ◌+◌, String, List,
  if◌then◌else◌,
}
use r.Common.Int.{ℤ, pos, negsuc, ltb_ℤ}
use r.Chain.{recovering, Handler, Outcome, returned, and_then, run_wrapped}
use r.Http.{set_both_statuses, error_line, Fasthttp, World, set_header, on_response}

-- `== fasthttp.StatusNotFound`
abbrev pub is_404 : ℤ → Bool
is_404 (pos n) = n == 404
is_404 (negsuc n) = false

module _ (H : Fasthttp) (L : Type 0) where
  -- `if statusCode > 0 { ...SetStatusCode(statusCode) }`, of syncStatusCode and preserveResponseStatus
  unfoldable pub keep_status : World H L → World H L
  keep_status w =
      if ltb_ℤ (pos 0) (H.status w.response)
      then on_response H L (H.set_status (H.status w.response)) w
      else w

-- What comes from elsewhere: the n-th UUID, the stack trace, what fasthttp-routing makes of the
-- response when a route's handler returns an error with this text, fasthttp's `ctx.Error`, and the
-- JSON text of a map of texts, given by its entries.
pub record Outside (H : Fasthttp) : Type 0 where
  pub uuid : ℕ → String
  pub stack : String
  pub handle_error : String → H.Response → H.Response
  pub plain_error : String → ℤ → H.Response → H.Response
  pub encode_map : List (String × String) → String

module _ (H : Fasthttp) (L : Type 0) (env : Outside H) where
  -- newContextImpl, with UUIDs for the request and for its trace: a context with an ID of its own
  unfoldable pub route_context : World H L → World H L
  route_context w = record w { request_id = env.uuid w.uuids; uuids = w.uuids + 2 }

  -- prepareRequestContext. Nothing uses its context any further.
  unfoldable pub prepare_request_context : World H L → World H L
  prepare_request_context w =
      set_header H L "X-Request-ID" (env.uuid w.uuids) (record w { uuids = w.uuids + 2 })

  -- handleNotFound
  unfoldable pub answer_not_found : Bool → World H L → World H L
  answer_not_found custom w =
      if is_404 (H.status w.response) && not custom
      then on_response H L
          (λ s.
            H.set_body
              (env.encode_map (("error", "route not found") ∷ ("path", H.path w.request) ∷ []))
              (H.set_header "Content-Type" "application/json" s))
          w
      else w

  -- The handler of createWrappedHandler. It returns the context's error.
  unfoldable pub wrapped_handler :
      List (Handler (World H L)) → Handler (World H L) → World H L → Outcome (World H L)
  wrapped_handler middleware handler w =
      and_then (run_wrapped middleware handler (route_context w))
        (λ d. returned (record d { world = keep_status H L d.world }))

  -- What fasthttp-routing does about the error.
  abbrev pub on_error : Option String → World H L → World H L
  on_error none w = w
  on_error (some error) w = on_response H L (env.handle_error error) w

  -- The panic handler that NewServer sets, on the context that handlePanicAndMetrics makes for it:
  -- the logger is told, and AbortWithError sets the status.
  unfoldable pub panic_handler_500 : String → World H L → World H L
  panic_handler_500 v w =
      let error = String.◌++◌ "panic: " (String.◌++◌ v (String.◌++◌ "\n" env.stack)) in
      let fields = ("error", error) ∷ ("stack", env.stack) ∷ [] in
      on_response H L (set_both_statuses H (pos 500)) (record (route_context w) {
        lines = w.lines ++ (error_line "Panic in request handler" fields ∷ []);
      })

  -- The router's ServeHTTP where the route is found, but for its metrics: the deferred recover is that
  -- of handlePanicAndMetrics.
  unfoldable pub serve_found :
      Bool → List (Handler (World H L)) → Handler (World H L) → World H L → Outcome (World H L)
  serve_found custom middleware handler w =
      recovering
        (and_then (wrapped_handler middleware handler w)
          (λ d. returned (record d { world = answer_not_found custom (on_error d.err d.world) })))
        (λ v d. returned (record d { world = panic_handler_500 v d.world }))

  -- The handler of BuildHandler
  unfoldable pub build_handler :
      Bool → List (Handler (World H L)) → Handler (World H L) → World H L → Outcome (World H L)
  build_handler custom middleware handler w =
      and_then (serve_found custom middleware handler (prepare_request_context w))
        (λ d. returned (record d { world = keep_status H L d.world }))

  abbrev server_fields : String → World H L → List (String × String)
  server_fields v w =
      ("error", v)
      ∷ ("stack", env.stack)
      ∷ ("path", H.path w.request)
      ∷ ("method", H.method w.request)
      ∷ []

  -- The server's own ServeHTTP
  unfoldable pub server_serve_http :
      Bool → List (Handler (World H L)) → Handler (World H L) → World H L → Outcome (World H L)
  server_serve_http custom middleware handler w =
      recovering (build_handler custom middleware handler w) (λ v d. returned (record d {
        world =
            on_response H L (env.plain_error "Internal Server Error" (pos 500)) (record d.world {
              lines =
                  d.world.lines
                  ++ (error_line "Panic in request handler" (server_fields v d.world) ∷ []);
            });
      }))
