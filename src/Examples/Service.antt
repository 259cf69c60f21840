-- ===== src/Examples/Service.antt =====
-- The service of examples/main.go: its handlers and its router. The logger, the health checker and the
-- metrics of the logging library are parameters, and so is the encoder of the replies. A line is
-- kept with the fields that it is logged with, after those of `With`.

pub mod Answers
use r.Common.{ℕ, String, Bool, true, Option, none, some, List, [], ◌∷◌, ◌++◌}
use r.Common.Int.{ℤ, pos}
use r.Chain.{Handler, done, act, next, abort, set_err}
use r.Router.{Site, new_router, use_middleware, handle, group, ws}
use r.Http.{
  Fasthttp, World, Line, info_line, error_line, on_response, string, json, set_both_statuses,
  with_request_id,
}
use r.Chain.Onion.{leaf}
use r.Examples.{at_router}

-- `metrics.GetMetrics()`
pub record Stats : Type 0 where
  pub total_messages : ℕ
  pub error_messages : ℕ

-- The replies that are encoded as JSON.
pub data ServiceReply : Type 0 where
  success : String → ServiceReply
  unhealthy : String → ServiceReply
  operational : Stats → ServiceReply

-- What comes from elsewhere: the variable ENV, the encoder, the text of a number, and what the
-- health checker and the metrics say at a time.
pub record Surroundings : Type 0 where
  pub environment : String
  pub encode : ServiceReply → Option String
  pub show : ℕ → String
  pub check : ℕ → Option String
  pub get_metrics : ℕ → Stats

module _ (H : Fasthttp) (L : Type 0) (uuid : ℕ → String) (env : Surroundings) where
  -- The fields of reqLogger, which are those of baseLogger and the request's.
  abbrev pub logger_fields : World H L → List (String × String)
  logger_fields w =
      ("service", "websocket_server")
      ∷ ("environment", env.environment)
      ∷ ("request_id", w.request_id)
      ∷ ("method", H.method w.request)
      ∷ ("path", H.path w.request)
      ∷ []

  -- `reqLogger.Info(msg, fields...)`
  abbrev pub log_info : String → List (String × String) → World H L → World H L
  log_info msg fields w = record w {
    lines = w.lines ++ (info_line msg (logger_fields w ++ fields) ∷ []);
  }

  abbrev pub log_failure : String → List (String × String) → World H L → World H L
  log_failure msg fields w = record w {
    lines = w.lines ++ (error_line msg (logger_fields w ++ fields) ∷ []);
  }

  -- The middleware: the logger that it makes for the request is kept, and nothing reads it.
  abbrev pub log_request_context : Handler (World H L)
  log_request_context = act (with_request_id H L uuid) (λ _. next done)

  -- /ping
  abbrev pub ping : World H L → World H L
  ping w =
      let w₁ = log_info "Handling ping request" [] (with_request_id H L uuid w) in
      on_response H L (string H (pos 200) "pong") w₁

  -- AbortWithError in a handler
  abbrev pub abort_handler : ℤ → String → Handler (World H L)
  abort_handler code e =
      set_err e (act (on_response H L (set_both_statuses H code)) (λ _. abort done))

  -- /error
  abbrev pub error_test : Handler (World H L)
  error_test =
      act (λ w. log_info "Handling error test request" [] (with_request_id H L uuid w))
        (λ _. abort_handler (pos 400) "test error")

  abbrev pub reply : ℤ → ServiceReply → World H L → World H L
  reply code body = on_response H L (λ s. (json H env.encode code body s).1)

  -- /api/data
  abbrev pub data_request : World H L → World H L
  data_request w =
      let w₁ = log_info "Handling data request" [] (with_request_id H L uuid w) in
      reply (pos 200) (success "Hello, World!") w₁

  -- /api/v1/status, by what the health checker says
  abbrev pub after_check : Option String → World H L → World H L
  after_check (some e) w =
      reply (pos 500) (unhealthy e) (log_failure "Health check failed" (("error", e) ∷ []) w)
  after_check none w =
      let stats = env.get_metrics w.now in
      let fields =
        ("total_messages", env.show stats.total_messages)
        ∷ ("error_messages", env.show stats.error_messages)
        ∷ [] in
      reply (pos 200) (operational stats) (log_info "Handling status request" fields w)

  abbrev pub service_status : World H L → World H L
  service_status w = after_check (env.check w.now) (with_request_id H L uuid w)

  -- The router that main builds
  unfoldable pub service_main : Option (Site (Handler (World H L)))
  unfolding use_middleware handle group ws
  service_main =
      let s₁ =
        at_router 0 (λ r s. some (use_middleware (log_request_context ∷ []) 0 r s))
          (some new_router) in
      let s₂ = at_router 0 (handle "GET" "/ping" (leaf ping ∷ []) 0) s₁ in
      let s₃ = at_router 0 (handle "GET" "/error" (error_test ∷ []) 0) s₂ in
      let s₄ = at_router 0 (handle "POST" "/api/data" (leaf data_request ∷ []) 0) s₃ in
      let s₅ = at_router 0 (ws "/ws/chat" true) s₄ in
      let s₆ = at_router 0 (λ r s. some (group "/api/v1" r s)) s₅ in
      at_router 1 (handle "GET" "/status" (leaf service_status ∷ []) 1) s₆
