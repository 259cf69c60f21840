-- ===== src/Examples/Service/Answers.antt =====
-- What the service of examples/main.go answers on each of its routes, through the final handler.
use r.Common.{
  Bool, false, true, ℕ, String, ◌≡◌, refl, ap, ◌∙◌, Option, none, some, [], ◌∷◌, map, get_elem?,
  arith,
}
use r.Common.Int.{ℤ, pos}
use mathlib.Core.Path.{subst}
use r.Chain.{
  Outcome, exec, run_wrapped, execute_handler_chain, next_fuel, loop, wrapped_context,
  build_handler_chain, Handler, Context, returned,
}
use r.Chain.Onion.{before, layer_handler, leaf, onion}
use r.Router.{new_router, RouterImpl, Site, wrapped}
use r.Http.{string, Fasthttp, World, with_request_id}
use r.Http.Laws.{with_request_id-form, IsFasthttp, status-json}
use r.Server.Handler.{
  is_404, on_error, keep_status, Outside, build_handler, route_context, prepare_request_context,
}
use r.Server.Answers.{
  Answered, Alike, build_handler_lem, build_handler-Answered, IsFound, status-Completed,
}
use r.Examples.Service.{
  Surroundings, service_main, log_request_context, ping, error_test, data_request, service_status,
  after_check,
}

module _ (H : Fasthttp) (L : Type 0) (out : Outside H) (env : Surroundings) (w : World H L) where
  abbrev Here : Type 0
  Here = World H L

  -- Whether the router that answers has a NotFound handler.
  abbrev pub has_not_found : Site (Handler Here) → Bool
  has_not_found s = of (get_elem? s.routers 0)
    where
      is_set : Option (Handler Here) → Bool
      is_set none = false
      is_set (some handler) = true

      of : Option (RouterImpl (Handler Here)) → Bool
      of none = false
      of (some router) = is_set router.not_found_handler

  -- The final handler on the n-th route of the service.
  abbrev pub OnRoute : ℕ → String → String → (Here → Type 0) → Type 0
  OnRoute n method path P =
      (s : Site (Handler Here)) × (i : ℕ) × (handler : Handler Here) × (router : RouterImpl
        (Handler Here))
      × (d : Context Here) × (service_main H L out.uuid env ≡ some s)
      × (get_elem? s.served n
          ≡ some (record { method = method; path = path; endpoint = wrapped i (handler ∷ []) }))
      × (get_elem? s.routers i ≡ some router)
      × (build_handler H L out (has_not_found s) router.middleware handler w ≡ returned d)
      × P d.world

  abbrev pub status_after : Option String → ℤ
  status_after none = pos 200
  status_after (some e) = pos 500

module _ {H : Fasthttp} {L : Type 0} (laws : IsFasthttp H) (out : Outside H) (env : Surroundings)
    (w : World H L) where
  -- The world in which the handler of a route finds the request.
  abbrev asked : World H L
  asked = with_request_id H L out.uuid (route_context H L out (prepare_request_context H L out w))

  -- A handler that only works.
  plain_route :
      (h : World H L → World H L)
      → IsFound (H.status (h asked).response)
      → (d : Context (World H L)) × (build_handler H L out false
            (map layer_handler (before (with_request_id H L out.uuid) ∷ []))
            (leaf h)
            w
          ≡ returned d)
        × Alike H L d.world (h asked)
  unfolding onion
  plain_route h found =
      let (d, o, alike, _, _) =
        build_handler_lem out laws false (before (with_request_id H L out.uuid) ∷ []) h w found in
      (d, o, alike)

  after_check-status :
      (answer : Option String) (v : World H L)
      → H.status (after_check H L out.uuid env answer v).response
        ≡ status_after H L out env w answer
  after_check-status none v = status-json laws env.encode 200 _ _ (omega arith)
  after_check-status (some e) v = status-json laws env.encode 500 _ _ (omega arith)

  now-with_request_id : (v : World H L) → (with_request_id H L out.uuid v).now ≡ v.now
  now-with_request_id v =
      let (_, _, e) = with_request_id-form out.uuid v in ap (λ (x : World H L). x.now) e

  -- The handler of /api/v1/status looks at the time at which the request came.
  status-service_status :
      H.status (service_status H L out.uuid env asked).response
      ≡ status_after H L out env w (env.check w.now)
  unfolding route_context prepare_request_context
  status-service_status =
      let v = route_context H L out (prepare_request_context H L out w) in
      let found = with_request_id H L out.uuid v in
      after_check-status (env.check found.now) (with_request_id H L out.uuid found)
      ∙ ap (λ t. status_after H L out env w (env.check t)) (now-with_request_id v)

  status_after-IsFound : (answer : Option String) → IsFound (status_after H L out env w answer)
  status_after-IsFound none = refl
  status_after-IsFound (some e) = refl

  service_status-IsFound : IsFound (H.status (service_status H L out.uuid env asked).response)
  service_status-IsFound = ap is_404 status-service_status ∙ status_after-IsFound (env.check w.now)

  -- A chain that has left an error.
  failed :
      (e : String) {o : Outcome (World H L)} (c : Context (World H L)) (v : World H L)
      → o ≡ returned c
      → c.err ≡ some e
      → Answered out laws false o v
      → H.status v.response ≡ H.status (out.handle_error e (keep_status H L c.world).response)
  failed e c v o r a =
      status-Completed out laws _ (on_error H L out c.err (keep_status H L c.world)) v
        (subst (λ o. Answered out laws false o v) o a)
      ∙ ap (λ x. H.status (on_error H L out x (keep_status H L c.world)).response) r

  -- The service of examples/main.go through the final handler, where fasthttp keeps its laws and
  -- fasthttp-routing answers an error that is no HTTPError with status 500. On /ping the client gets
  -- status 200 and the body pong, on /api/data status 200, and on /api/v1/status 200 or 500 as the
  -- health checker finds no error or one at the time of the request. On /error, whose handler aborts
  -- with 400, the client gets 500. On each route the final handler returns.
  pub service_lem :
      ((e : String) (s : H.Response) → H.status (out.handle_error e s) ≡ pos 500)
      → OnRoute H L out env w 0 "GET" "/ping"
          (λ v. (H.status v.response ≡ pos 200) × (H.body v.response ≡ "pong"))
        × OnRoute H L out env w 1 "GET" "/error" (λ v. H.status v.response ≡ pos 500)
        × OnRoute H L out env w 2 "POST" "/api/data" (λ v. H.status v.response ≡ pos 200)
        × OnRoute H L out env w 4 "GET" "/api/v1/status"
            (λ v. H.status v.response ≡ status_after H L out env w (env.check w.now))
  unfolding service_main new_router string exec run_wrapped execute_handler_chain next_fuel loop
      wrapped_context build_handler_chain
  service_lem fails =
      let pong : H.status (ping H L out.uuid env asked).response ≡ pos 200 =
        laws.status-set_body _ _ ∙ laws.status-set_status 200 _ (omega arith) in
      let (d₀, o₀, alike₀) = plain_route (ping H L out.uuid env) (ap is_404 pong) in
      let (d₁, o₁, ends₁) =
        build_handler-Answered out laws false (log_request_context H L out.uuid env ∷ [])
          (error_test H L out.uuid env) w in
      let answered : H.status (data_request H L out.uuid env asked).response ≡ pos 200 =
        status-json laws env.encode 200 _ _ (omega arith) in
      let (d₂, o₂, alike₂) = plain_route (data_request H L out.uuid env) (ap is_404 answered) in
      let (d₄, o₄, alike₄) = plain_route (service_status H L out.uuid env) service_status-IsFound in
      (
        (
          _,
          _,
          _,
          _,
          d₀,
          refl,
          refl,
          refl,
          o₀,
          (alike₀.0 ∙ pong, alike₀.1 ∙ laws.body-set_body _ _),
        ),
        (
          _,
          _,
          _,
          _,
          d₁,
          refl,
          refl,
          refl,
          o₁,
          failed "test error"
                {o = run_wrapped (log_request_context H L out.uuid env ∷ [])
                  (error_test H L out.uuid env)
                  (route_context H L out (prepare_request_context H L out w))}
                _ d₁.world refl refl ends₁
              ∙ fails _ _,
        ),
        (_, _, _, _, d₂, refl, refl, refl, o₂, alike₂.0 ∙ answered),
        (_, _, _, _, d₄, refl, refl, refl, o₄, alike₄.0 ∙ status-service_status),
      )
