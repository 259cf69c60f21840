-- ===== src/Router/Serve.antt =====
-- ServeHTTP (router_serve_http.go).
--
-- HandleRequest of fasthttp-routing is outside: `Handled` says how it ended. A panic handler is a
-- function of the panic's text and the response; it is taken not to panic itself. `json` makes the
-- text of a map; for a map of texts it cannot fail.
use r.Common.{
  str_eq, ℕ, ◌+◌, ◌≡◌, refl, String, Bool, true, false, ◌&&◌, Option, none, some, List, [], ◌∷◌,
  ◌++◌, arith, if◌then◌else◌, leb, ◌==◌, Bool-cases, inl, inr,
}
use r.Common.Int.{ℤ}
use r.Metrics.Call.{Tags, Call, count, timing}
use r.Router.{is_set, RouterImpl}

pub record Response : Type 0 where
  pub status : ℕ
  pub content_type : String
  pub body : String

-- How HandleRequest ended: it returned, or a handler's panic came through.
pub data Handled : Type 0 where
  finished : Response → Handled
  panicked : String → Response → Handled

-- initializeTags
abbrev pub initialize_tags : String → String → Tags
initialize_tags method path = ("method", method) ∷ ("path", path) ∷ []

-- `ctx.Error`
abbrev pub plain_error : String → ℕ → Response
plain_error text status = record {
  status = status;
  content_type = "text/plain; charset=utf-8";
  body = text;
}

module _ {H : Type 0} where
  -- handleErrorMetrics
  abbrev pub handle_error_metrics : Tags → RouterImpl H → Response → List (Call ℕ)
  handle_error_metrics tags router response =
      if leb 400 response.status && router.route_metrics then count "router.error" tags ∷ [] else []

  -- handlePanicAndMetrics after a panic
  abbrev pub handle_panic :
      (String → Response → Response) → String → RouterImpl H → Response → Response
  handle_panic on_panic value router response =
      if is_set router.panic_handler
      then on_panic value response
      else plain_error "Internal Server Error" 500

  -- handlePanicAndMetrics: the end of every request
  abbrev pub record_duration : ℤ → Tags → RouterImpl H → List (Call ℕ)
  record_duration duration tags router =
      if router.route_metrics then timing "router.request.duration" duration tags ∷ [] else []

module _ (json : Tags → String) {H : Type 0} where
  -- handleNotFound
  unfoldable pub handle_not_found : String → RouterImpl H → Response → Response
  handle_not_found path router response =
      if response.status == 404 && is_none router.not_found_handler
      then record response {
        content_type = "application/json";
        body = json (("error", "route not found") ∷ ("path", path) ∷ []);
      }
      else response
    where
      is_none : Option H → Bool
      is_none none = true
      is_none (some h) = false

  -- ServeHTTP: the response, and the calls of the collector.
  unfoldable pub serve_http :
      (String → Response → Response)
      → String
      → String
      → ℤ
      → RouterImpl H
      → Handled
      → Response × List (Call ℕ)
  unfolding handle_not_found
  serve_http on_panic method path duration router (finished response) =
      let tags = initialize_tags method path in
      let answer = handle_not_found path router response in
      (answer, handle_error_metrics tags router answer ++ record_duration duration tags router)
  serve_http on_panic method path duration router (panicked value response) =
      let tags = initialize_tags method path in
      (
        handle_panic on_panic value router response,
        (if router.route_metrics then count "router.panic" tags ∷ [] else [])
            ++ record_duration duration tags router,
      )

-- How often a counter of the name is incremented.
abbrev pub counted : String → List (Call ℕ) → ℕ
counted name [] = 0
counted name (count other tags ∷ calls) = (if str_eq name other then 1 else 0) + counted name calls
counted name (_ ∷ calls) = counted name calls

-- How often a timing of the name is recorded.
abbrev pub timed : String → List (Call ℕ) → ℕ
timed name [] = 0
timed name (timing other d tags ∷ calls) = (if str_eq name other then 1 else 0) + timed name calls
timed name (_ ∷ calls) = timed name calls

abbrev pub one_if : Bool → ℕ
one_if b = if b then 1 else 0

-- What a request has left: a response, and counts that fit it.
abbrev pub Answered :
    {H : Type 0}
    → RouterImpl H
    → (String → Response → Response)
    → Handled
    → Response
    → List (Call ℕ)
    → Type 0
Answered router on_panic (finished given) answer calls =
    (answer.status ≡ given.status)
    × (counted "router.error" calls ≡ one_if (leb 400 answer.status && router.route_metrics))
    × (counted "router.panic" calls ≡ 0)
    × (timed "router.request.duration" calls ≡ one_if router.route_metrics)
Answered router on_panic (panicked value given) answer calls =
    (answer ≡ (
      if is_set router.panic_handler
      then on_panic value given
      else plain_error "Internal Server Error" 500))
    × (counted "router.error" calls ≡ 0)
    × (counted "router.panic" calls ≡ one_if router.route_metrics)
    × (timed "router.request.duration" calls ≡ one_if router.route_metrics)

status_kept :
    {H : Type 0} (json : Tags → String) (path : String) (router : RouterImpl H) (given : Response)
    → (handle_not_found json path router given).status ≡ given.status
unfolding handle_not_found
status_kept json path router given = ground arith

-- No panic leaves ServeHTTP. A request that returned keeps its status, and is counted as an error
-- exactly when that is 400 or more; one that panicked is counted as a panic, and not as an error,
-- whatever status it is answered with. Every request is timed once, if there is a collector.
serve_http_lem :
    {H : Type 0} (json : Tags → String) (on_panic : String → Response → Response)
    (method path : String) (duration : ℤ) (router : RouterImpl H) (handled : Handled)
    → Answered router on_panic handled
        (serve_http json on_panic method path duration router handled).0
        (serve_http json on_panic method path duration router handled).1
unfolding serve_http
serve_http_lem json on_panic method path duration router (finished given) =
    let answer = handle_not_found json path router given in
    elim (Bool-cases router.route_metrics) [
      | inl counting ↦ elim (Bool-cases (leb 400 answer.status)) [
        | inl bad ↦ rw (counting, bad) (status_kept json path router given, refl, refl, refl)
        | inr good ↦ rw (counting, good) (status_kept json path router given, refl, refl, refl)
      ]
      | inr silent ↦ elim (Bool-cases (leb 400 answer.status)) [
        | inl bad ↦ rw (silent, bad) (status_kept json path router given, refl, refl, refl)
        | inr good ↦ rw (silent, good) (status_kept json path router given, refl, refl, refl)
      ]
    ]
serve_http_lem json on_panic method path duration router (panicked value given) =
    elim (Bool-cases router.route_metrics) [
      | inl counting ↦ rw counting (refl, refl, refl, refl)
      | inr silent ↦ rw silent (refl, refl, refl, refl)
    ]
