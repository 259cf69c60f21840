-- ===== src/Server/Answers.antt =====
-- What the final handler (server_build_handler.go) answers on a request whose route is found.
use mathlib.Core.Path.{subst}
use r.Common.{
  if◌then◌else◌, ◌∷◌, [], none, Bool, false, not, ◌&&◌, ◌+◌, String, ◌≡◌, refl, ap, ◌∙◌, true,
  Bool-cases, List, map, inl, inr, arith,
}
use r.Common.Int.{ℤ, pos, negsuc, ltb_ℤ}
use r.Chain.{
  Handler, Context, Outcome, returned, panicked, out_of_fuel, and_then, recovering, run_wrapped,
  wrapped_context,
}
use r.Chain.Onion.{Layer, layer_handler, leaf, onion, run_wrapped-onion_err}
use r.Chain.Total.{Ended, execute_handler_chain-Ended}
use r.Http.{Fasthttp, World}
use r.Http.Names.{same_name, same_fold}
use r.Http.Laws.{IsFasthttp}
use r.Server.Handler.{
  Outside, is_404, answer_not_found, keep_status, route_context, prepare_request_context,
  wrapped_handler, on_error, panic_handler_500, serve_found, build_handler, server_serve_http,
}

-- Worlds that no client and no handler can tell apart.
abbrev pub Alike : (H : Fasthttp) (L : Type 0) → World H L → World H L → Type 0
Alike H L w v =
    (H.status w.response ≡ H.status v.response)
    × (H.body w.response ≡ H.body v.response)
    × ((name : String) → H.header name w.response ≡ H.header name v.response)
    × (w ≡ record v { response = w.response })

module _ {H : Fasthttp} (laws : IsFasthttp H) where
  status_again :
      (status : ℤ) (s : H.Response)
      → ltb_ℤ (pos 0) status ≡ true
      → H.status (H.set_status status s) ≡ status
  status_again (pos n) s p = laws.status-set_status n s (ground (arith, p))
  status_again (negsuc n) s p = ground (arith, p)

  keep_status-Alike : {L : Type 0} (w : World H L) → Alike H L (keep_status H L w) w
  unfolding keep_status
  keep_status-Alike w = elim (Bool-cases (ltb_ℤ (pos 0) (H.status w.response))) [
    | inl p ↦ rw p (
      status_again (H.status w.response) w.response p,
      laws.body-set_status _ _,
      λ name. laws.header-set_status name _ _,
      refl,
    )
    | inr p ↦ rw p (refl, refl, λ name. refl, refl)
  ]

Alike-trans :
    {H : Fasthttp} {L : Type 0} (w v u : World H L) → Alike H L w v → Alike H L v u → Alike H L w u
Alike-trans w v u (s, b, h, e) (s', b', h', e') = (
  s ∙ s',
  b ∙ b',
  λ name. h name ∙ h' name,
  e ∙ ap (λ (x : World _ _). record x { response = w.response }) e',
)

-- A response that is not 404 is left as it is.
abbrev pub IsFound : ℤ → Type 0
IsFound status = is_404 status ≡ false

module _ {H : Fasthttp} {L : Type 0} (env : Outside H) (laws : IsFasthttp H) where
  pub answer_not_found_found :
      (custom : Bool) (w : World H L)
      → IsFound (H.status w.response)
      → answer_not_found H L env custom w ≡ w
  unfolding answer_not_found
  answer_not_found_found custom w found = rw found refl

  -- What the answer `v` to a request that has come to `w` is: with the text and the type of
  -- handleNotFound, or as it was.
  abbrev pub Completed : Bool → World H L → World H L → Type 0
  Completed true w v =
      (H.status v.response ≡ H.status w.response)
      × (H.body v.response
          ≡ env.encode_map (("error", "route not found") ∷ ("path", H.path w.request) ∷ []))
      × ((name : String)
          → H.header name v.response ≡ (
              if same_name "Content-Type" name
              then laws.stored "application/json"
              else H.header name w.response))
      × (v ≡ record w { response = v.response })
  Completed false w v = Alike H L v w

  pub status-Completed :
      (missing : Bool) (w v : World H L)
      → Completed missing w v
      → H.status v.response ≡ H.status w.response
  status-Completed true w v a = a.0
  status-Completed false w v a = a.0

  answer_not_found-Completed :
      (custom : Bool) (w v : World H L)
      → Alike H L v (answer_not_found H L env custom w)
      → Completed (is_404 (H.status w.response) && not custom) w v
  unfolding answer_not_found same_name same_fold
  answer_not_found-Completed custom w v =
      elim (Bool-cases (is_404 (H.status w.response) && not custom)) [
        | inl missing ↦ rw missing (λ (status, body, header, same). (
          status
              ∙ laws.status-set_body _ _
              ∙ laws.status-set_header "Content-Type" "application/json" w.response refl,
          body ∙ laws.body-set_body _ _,
          λ name.
              header name
              ∙ laws.header-set_body name _ _
              ∙ laws.header-set_header "Content-Type" "application/json" name w.response refl,
          same,
        ))
        | inr fine ↦ rw fine (λ a. a)
      ]

  twice-Alike : (w : World H L) → Alike H L (keep_status H L (keep_status H L w)) w
  twice-Alike w =
      Alike-trans (keep_status H L (keep_status H L w)) (keep_status H L w) w
        (keep_status-Alike laws (keep_status H L w)) (keep_status-Alike laws w)

  -- The final handler on a request whose route is found, with any layers of middleware and a handler
  -- that returns, and a status other than 404: the request ends as the nested functions of the
  -- middleware have it, and the two settings of the status on the way out change nothing that can be
  -- seen. The world in which the first layer finds the request has one UUID in the header
  -- X-Request-ID and another as the context's request ID. fasthttp keeps its laws.
  pub build_handler_lem :
      (custom : Bool) (ls : List (Layer (World H L))) (h : World H L → World H L) (w : World H L)
      → IsFound (
          H.status
            (onion ls h (route_context H L env (prepare_request_context H L env w))).response)
      → let v = route_context H L env (prepare_request_context H L env w) in
        (d : Context (World H L)) × (build_handler H L env custom (map layer_handler ls) (leaf h) w
          ≡ returned d)
        × Alike H L d.world (onion ls h v)
        × (H.header "X-Request-ID" v.response ≡ laws.stored (env.uuid w.uuids))
        × (v.request_id ≡ env.uuid (w.uuids + 2))
  unfolding build_handler serve_found wrapped_handler route_context prepare_request_context
      same_name same_fold
  build_handler_lem custom ls h w found =
      let v = route_context H L env (prepare_request_context H L env w) in
      let (d, o, e, r) = run_wrapped-onion_err ls h v in
      let kept : IsFound (H.status (keep_status H L d.world).response) =
        ap is_404
          ((keep_status-Alike laws d.world).0 ∙ ap (λ (x : World H L). H.status x.response) e)
        ∙ found in
      (
        record d { world = keep_status H L (keep_status H L d.world) },
        rw (o, r)
            (ap (λ x. returned (record d { err = none; world = keep_status H L x }))
              (answer_not_found_found custom (keep_status H L d.world) kept)),
        subst (λ x. Alike H L (keep_status H L (keep_status H L d.world)) x) e
            (twice-Alike d.world),
        laws.header-set_header "X-Request-ID" (env.uuid w.uuids) "X-Request-ID" w.response refl,
        refl,
      )

  -- How a chain's end `o` shows in the world that the final handler leaves.
  abbrev pub Answered : Bool → Outcome (World H L) → World H L → Type 0
  Answered custom (returned c) v =
      let w = on_error H L env c.err (keep_status H L c.world) in
      Completed (is_404 (H.status w.response) && not custom) w v
  Answered custom (panicked p c) v =
      (H.status v.response ≡ pos 500)
      × (H.body v.response ≡ H.body c.world.response)
      × ((name : String) → H.header name v.response ≡ H.header name c.world.response)
      × (v ≡ record (panic_handler_500 H L env p c.world) { response = v.response })
  Answered custom out_of_fuel v = ⊥

  panic_handler_500-Answered :
      (p : String) (c : Context (World H L))
      → Answered false (panicked p c) (keep_status H L (panic_handler_500 H L env p c.world))
  unfolding panic_handler_500 route_context
  panic_handler_500-Answered p c =
      let s = c.world.response in
      let (status, body, header, same) =
        keep_status-Alike laws (panic_handler_500 H L env p c.world) in
      (
        status ∙ laws.status-set_status 500 _ (omega arith),
        body ∙ laws.body-set_status (pos 500) _ ∙ laws.body-set_status (pos 500) s,
        λ name.
            header name
            ∙ laws.header-set_status name (pos 500) _
            ∙ laws.header-set_status name (pos 500) s,
        same,
      )

  answered :
      (custom : Bool) (o : Outcome (World H L)) (c : Context (World H L))
      → Ended c o
      → let after = and_then o (λ d. returned (record d { world = keep_status H L d.world })) in
        let served =
          recovering
            (and_then after (λ d. returned (record d {
              world = answer_not_found H L env custom (on_error H L env d.err d.world);
            })))
            (λ v d. returned (record d { world = panic_handler_500 H L env v d.world })) in
        (d : Context (World H L)) × (and_then served
            (λ d. returned (record d { world = keep_status H L d.world }))
          ≡ returned d)
        × Answered custom o d.world
  answered custom (returned d) c e = (
    _,
    refl,
    answer_not_found-Completed custom (on_error H L env d.err (keep_status H L d.world)) _
        (keep_status-Alike laws _),
  )
  answered custom (panicked v d) c e = (_, refl, panic_handler_500-Answered v d)
  answered custom out_of_fuel c e = absurd e

  -- The final handler on a request whose route is found, whatever programs its middleware and its
  -- handler are: it returns. If the chain has returned, the response is the chain's, with what
  -- fasthttp-routing makes of the context's error if there is one; and if its status is then 404 and
  -- the router has no NotFound handler, with the JSON text of the error and the path as its body, and
  -- the type of JSON. If it has panicked, the response has status 500 with the body and the headers
  -- that were set before, the logger is told once, and one context more has been made. The panic
  -- handler is the one that NewServer sets. fasthttp keeps its laws.
  pub build_handler-Answered :
      (custom : Bool) (middleware : List (Handler (World H L))) (handler : Handler (World H L))
      (w : World H L)
      → (d : Context (World H L)) × (build_handler H L env custom middleware handler w ≡ returned d)
        × Answered custom
            (run_wrapped middleware handler
              (route_context H L env (prepare_request_context H L env w)))
            d.world
  unfolding build_handler serve_found wrapped_handler run_wrapped
  build_handler-Answered custom middleware handler w =
      let v = route_context H L env (prepare_request_context H L env w) in
      let c = wrapped_context middleware handler v in
      answered custom _ c (execute_handler_chain-Ended c)

  -- The recover of the server's ServeHTTP is never needed: it does what the final handler does,
  -- whatever programs middleware and handler are. fasthttp keeps its laws.
  pub server_serve_http-build_handler :
      (custom : Bool) (middleware : List (Handler (World H L))) (handler : Handler (World H L))
      (w : World H L)
      → server_serve_http H L env custom middleware handler w
        ≡ build_handler H L env custom middleware handler w
  unfolding server_serve_http
  server_serve_http-build_handler custom middleware handler w =
      let (d, e, _) = build_handler-Answered custom middleware handler w in rw e refl
