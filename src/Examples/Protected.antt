-- ===== src/Examples/Protected.antt =====
-- The route /api/protected of the example programs, with its two rate limits.
use mathlib.Core.Path.{subst}
use r.Common.{
  String, ◌≡◌, refl, sym, ap, ◌∙◌, Bool, true, false, Option, none, some, [], ◌∷◌, ◌++◌, map,
  if◌then◌else◌, arith, get_elem?, str_eq,
}
use r.Common.Int.{ℤ, pos}
use r.Common.Float.{Floats}
use r.Limiter.{Limiter, allow}
use r.Chain.{Handler, Context, returned, run_wrapped}
use r.Chain.Onion.{layer_handler, leaf, onion, around, run_wrapped-onion}
use r.Router.{
  RouterImpl, Site, wrapped, use_middleware, handle, group, new_router, add_route_metadata,
}
use r.Http.{Fasthttp, World, real_ip, with_request_id}
use r.Http.Laws.{IsFasthttp, status-json, with_request_id-form}
use r.Middleware.{
  Host, StandardMiddleware, is_allowed, custom_security, security_headers, request_id, logger,
  security, rate_limit, cors, ensure_request_id,
}
use r.Http.Names.{same_name, same_fold}
use r.Middleware.Limit.{reject_request-IsRejected}
use r.Middleware.Buckets.{token_buckets}
use r.Examples.{
  Message, W, first_limiter, second_limiter, protected, router_layers, api_layers, middleware_main,
}

module _ (H : Fasthttp) (F : Floats) (host : Host) (m : StandardMiddleware H (Limiter F.Float))
    (encode : Message → Option String) where
  -- The site of the example, its route /api/protected, and the group that has it.
  protected_route :
      (s : Site (Handler (W H F host m encode))) × (group' : RouterImpl
        (Handler (W H F host m encode)))
      × (middleware_main H F host m encode ≡ some s)
      × (get_elem? s.served 1
          ≡ some (record {
            method = "GET";
            path = "/api/protected";
            endpoint = wrapped 1 (leaf (protected H F host m encode) ∷ []);
          }))
      × (get_elem? s.routers 1 ≡ some group')
      × (group'.middleware
          ≡ map layer_handler (router_layers H F host m encode ++ api_layers H F host m encode))
  unfolding middleware_main new_router use_middleware handle group add_route_metadata
  protected_route = (_, _, refl, refl, refl, refl)

-- A choice has a property that both of its ways have.
choose :
    {W : Type 0} (b : Bool) {x y : W} (P : W → Type 0)
    → (b ≡ true → P x)
    → (b ≡ false → P y)
    → P (if b then x else y)
choose true P p q = p refl
choose false P p q = q refl

module _ {H : Fasthttp} (F : Floats) (host : Host) (m : StandardMiddleware H (Limiter F.Float))
    (encode : Message → Option String) (laws : IsFasthttp H) (w : World H (Limiter F.Float)) where
  abbrev pub Here : Type 0
  Here = World H (Limiter F.Float)

  -- The client asks the limiter `l`.
  abbrev pub asked : Limiter F.Float → Bool × Limiter F.Float
  asked l = allow F (real_ip H w.request) w.now l

  -- A world of the same request at the same time, with the limiter `l`.
  abbrev At : Limiter F.Float → Here → Type 0
  At l v = (v.request ≡ w.request) × (v.now ≡ w.now) × (v.limiter ≡ l)

  allow-At :
      (l : Limiter F.Float) (v : Here)
      → At l v
      → allow F (real_ip H v.request) v.now v.limiter ≡ asked l
  allow-At l v (q, t, r) =
      ap (λ x. allow F (real_ip H x) v.now v.limiter) q
      ∙ ap (λ x. allow F (real_ip H w.request) x v.limiter) t
      ∙ ap (allow F (real_ip H w.request) w.now) r

  with_request_id-At :
      (l : Limiter F.Float) (v : Here)
      → At l v
      → At l (with_request_id H (Limiter F.Float) host.uuid v)
  with_request_id-At l v (q, t, r) =
      let (_, _, e) = with_request_id-form host.uuid v in
      (
        ap (λ (x : Here). x.request) e ∙ q,
        ap (λ (x : Here). x.now) e ∙ t,
        ap (λ (x : Here). x.limiter) e ∙ r,
      )

  ensure_request_id-At :
      (l : Limiter F.Float) (v : Here)
      → At l v
      → At l (ensure_request_id H (Limiter F.Float) host m v)
  ensure_request_id-At l v a =
      let u = with_request_id H (Limiter F.Float) host.uuid v in
      let b = with_request_id-At l v a in either (str_eq u.request_id "") u b
    where
      either :
          (again : Bool) (u : Here)
          → At l u
          → At l (if again then with_request_id H (Limiter F.Float) host.uuid u else u)
      either true u b = with_request_id-At l u b
      either false u b = b

  -- A rate limit before the handlers `k`.
  around_limit :
      (reqs : ℤ) (l : Limiter F.Float) (k : Here → Here) (v : Here) (P : Here → Type 0)
      → At l v
      → ((asked l).0 ≡ true → (u : Here) → At (asked l).1 u → P (k u))
      → ((asked l).0 ≡ false
          → (u : Here) → u.limiter ≡ (asked l).1
          → H.status u.response ≡ pos 429
          → H.header "X-RateLimit-Limit" u.response ≡ laws.stored (host.show reqs)
          → P u)
      → P (around (rate_limit H (Limiter F.Float) host m (token_buckets F) reqs) k v)
  unfolding rate_limit same_name same_fold
  around_limit reqs l k v P a pass refuse =
      let e = allow-At l v a in
      let (status, _, header, same) =
        reject_request-IsRejected host m laws (token_buckets F) reqs v in
      choose (allow F (real_ip H v.request) v.now v.limiter).0 P
        (λ yes'. pass (sym (ap (λ x. x.0) e) ∙ yes') _ (a.0, a.1, ap (λ x. x.1) e))
        (λ no'.
          refuse (sym (ap (λ x. x.0) e) ∙ no') _
            (ap (λ (x : Here). x.limiter) same ∙ ap (λ x. x.1) e) status
            (header "X-RateLimit-Limit"))

  -- CORS with `*`: each of its branches goes on, at the same limiter.
  around_cors :
      (l : Limiter F.Float) (k : Here → Here) (v : Here) (P : Here → Type 0)
      → At l v
      → ((u : Here) → At l u → P (k u))
      → P (around (cors H (Limiter F.Float) host m ("*" ∷ [])) k v)
  unfolding cors is_allowed
  around_cors l k v P a pass =
      choose (str_eq (H.method v.request) "OPTIONS") P (λ _. pass _ a) (λ _. pass _ a)

  -- What the two answers of the limiter make of the request.
  abbrev pub Verdict : Bool → Bool → Limiter F.Float → H.Response → Type 0
  Verdict true true l r = (l ≡ (asked (asked w.limiter).1).1) × (H.status r ≡ pos 200)
  Verdict true false l r =
      (l ≡ (asked (asked w.limiter).1).1)
      × (H.status r ≡ pos 429)
      × (H.header "X-RateLimit-Limit" r ≡ laws.stored (host.show (pos 10)))
  Verdict false _ l r =
      (l ≡ (asked w.limiter).1)
      × (H.status r ≡ pos 429)
      × (H.header "X-RateLimit-Limit" r ≡ laws.stored (host.show (pos 100)))

  abbrev pub Judged : Here → Type 0
  Judged v = Verdict (asked w.limiter).0 (asked (asked w.limiter).1).0 v.limiter v.response

  secured-At :
      (v : Here)
      → m.security ≡ none
      → At w.limiter v
      → At w.limiter (
          custom_security H
            (Limiter F.Float)
            host
            m
            m.security
            (security_headers H (Limiter F.Float) host m v))
  secured-At v e a =
      subst
        (λ s. At w.limiter (
          custom_security H (Limiter F.Float) host m s
            (security_headers H (Limiter F.Float) host m v)))
        (sym e) a

  -- The handler answers with 200.
  answered :
      (l : Limiter F.Float) (v : Here)
      → At l v
      → let d = protected H F host m encode v in (d.limiter ≡ l) × (H.status d.response ≡ pos 200)
  answered l v a = ((with_request_id-At l v a).2, status-json laws encode 200 _ _ (omega arith))

  onion-protected :
      m.security ≡ none
      → Judged (
          onion
            (router_layers H F host m encode ++ api_layers H F host m encode)
            (protected H F host m encode)
            w)
  unfolding onion request_id logger security
  onion-protected plain' =
      around_limit (pos 100) w.limiter _ _ (λ v. Judged v)
        (secured-At _ plain' (ensure_request_id-At w.limiter w (refl, refl, refl)))
        (λ yes' u a.
          around_cors (asked w.limiter).1 _ u (λ v. Judged v) a
            (λ v b.
              around_limit (pos 10) (asked w.limiter).1 _ v (λ v. Judged v) b
                (λ again x c. rw (yes', again) (answered _ x c))
                (λ never x e status header. rw (yes', never) (e, status, header))))
        (λ no' u e status header. rw no' (e, status, header))

  -- The middleware of the route and its handler, on a request.
  pub protected_run :
      m.security ≡ none
      → (d : Context Here) × (run_wrapped
            (map layer_handler (router_layers H F host m encode ++ api_layers H F host m encode))
            (leaf (protected H F host m encode))
            w
          ≡ returned d)
        × Judged d.world
  protected_run plain' =
      let (d, ran, ends) =
        run_wrapped-onion (router_layers H F host m encode ++ api_layers H F host m encode)
          (protected H F host m encode) w in
      (d, ran, subst Judged (sym ends) (onion-protected plain'))

  -- The router of examples/middleware, on a request of its route /api/protected, where no custom
  -- security is set and fasthttp keeps its laws. The two rate limits are one limiter, of 100 tokens:
  -- RateLimit(10, time.Minute) changes nothing in it. The middleware of the route's router asks it
  -- twice for the client's address. If the first answer is no, the response has status 429 and the
  -- limit of 100; if only the second is, status 429 and the limit of 10; and if both are yes, the
  -- status is 200. The limiter is then as those calls have left it. The chain returns.
  pub protected_lem :
      m.security ≡ none
      → (s : Site (Handler Here)) × (group' : RouterImpl (Handler Here)) × (d : Context Here)
        × (middleware_main H F host m encode ≡ some s)
        × (get_elem? s.served 1
            ≡ some (record {
              method = "GET";
              path = "/api/protected";
              endpoint = wrapped 1 (leaf (protected H F host m encode) ∷ []);
            }))
        × (get_elem? s.routers 1 ≡ some group')
        × (run_wrapped group'.middleware (leaf (protected H F host m encode)) w ≡ returned d)
        × (second_limiter F ≡ first_limiter F)
        × Judged d.world
  unfolding first_limiter second_limiter
  protected_lem plain' =
      let (s, group', made, route, found, mws) = protected_route H F host m encode in
      let (d, ran, judged) = protected_run plain' in
      (
        s,
        group',
        d,
        made,
        route,
        found,
        ap (λ ms. run_wrapped ms (leaf (protected H F host m encode)) w) mws ∙ ran,
        refl,
        judged,
      )
