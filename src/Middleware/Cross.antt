-- ===== src/Middleware/Cross.antt =====
-- CORS (middleware.go) in a chain.
use r.Common.{
  String, ◌≡◌, refl, ◌∙◌, Bool, true, false, List, [], ◌∷◌, map, if◌then◌else◌, str_eq, arith,
}
use r.Common.Int.{pos}
use r.Chain.{Context, returned, run_wrapped}
use r.Chain.Onion.{Layer, layer_handler, leaf, onion, run_wrapped-onion}
use r.Http.{Fasthttp, World}
use r.Http.Names.{same_name, same_fold}
use r.Http.Laws.{IsFasthttp, Headers, value_after, header-set_all, status-set_all, body-set_all}
use r.Middleware.{Host, StandardMiddleware, cors, is_allowed, origin_of, preflight, basic_cors}

abbrev pub basic_headers : String → Headers
basic_headers origin =
    ("Access-Control-Allow-Origin", origin) ∷ ("Access-Control-Allow-Credentials", "true") ∷ []

abbrev pub preflight_headers : String → Headers
preflight_headers origin =
    ("Access-Control-Allow-Origin", origin)
    ∷ ("Access-Control-Allow-Methods", "GET, POST, PUT, DELETE, PATCH, HEAD, OPTIONS")
    ∷ (
      "Access-Control-Allow-Headers",
      "Authorization, Content-Type, Accept, Origin, X-Requested-With",
    )
    ∷ ("Access-Control-Allow-Credentials", "true")
    ∷ ("Access-Control-Max-Age", "86400")
    ∷ []

-- `v` is `w` with the headers set; the status is told apart.
abbrev pub HasHeaders :
    (H : Fasthttp) (L : Type 0) → (String → String) → Headers → World H L → World H L → Type 0
HasHeaders H L stored hs w v =
    ((name : String)
      → H.header name v.response ≡ value_after stored hs name (H.header name w.response))
    × (H.body v.response ≡ H.body w.response)
    × (v ≡ record w { response = v.response })

cors_cases :
    {W : Type 0} (k : W → W) (a b : Bool) (x y w : W) (P Q : W → Type 0)
    → P x
    → Q y
    → (v : W) × ((if a then if b then k x else k y else k w) ≡ k v)
      × (if a then if b then P v else Q v else (v ≡ w))
cors_cases k true true x y w P Q p q = (x, refl, p)
cors_cases k true false x y w P Q p q = (y, refl, q)
cors_cases k false b x y w P Q p q = (w, refl, refl)

module _ {H : Fasthttp} {L : Type 0} (host : Host) (m : StandardMiddleware H L)
    (laws : IsFasthttp H) where
  abbrev pub IsPreflight : World H L → World H L → Type 0
  IsPreflight w v =
      (H.status v.response ≡ pos 204)
      × HasHeaders H L laws.stored (preflight_headers (origin_of H L host m w)) w v

  abbrev pub IsBasic : World H L → World H L → Type 0
  IsBasic w v =
      (H.status v.response ≡ H.status w.response)
      × HasHeaders H L laws.stored (basic_headers (origin_of H L host m w)) w v

  preflight-IsPreflight : (w : World H L) → IsPreflight w (preflight H L host m w)
  unfolding same_name same_fold
  preflight-IsPreflight w =
      let hs = preflight_headers (origin_of H L host m w) in
      (
        laws.status-set_status 204 _ (omega arith),
        (
          λ name.
              laws.header-set_status name (pos 204) _ ∙ header-set_all laws hs name w.response refl,
          laws.body-set_status (pos 204) _ ∙ body-set_all laws hs w.response refl,
          refl,
        ),
      )

  basic_cors-IsBasic : (w : World H L) → IsBasic w (basic_cors H L host m w)
  unfolding same_name same_fold
  basic_cors-IsBasic w =
      let hs = basic_headers (origin_of H L host m w) in
      (
        status-set_all laws hs w.response refl,
        (
          λ name. header-set_all laws hs name w.response refl,
          body-set_all laws hs w.response refl,
          refl,
        ),
      )

  -- A chain that starts with CORS runs its later middleware and its handler on a world `v`, whatever
  -- the request is. If the origin is not allowed, `v` is the world as it came. If it is, `v` has the
  -- request's origin as the allowed one, also where the list says `*`, and allows credentials; and
  -- for a preflight request (OPTIONS) it has status 204 and the methods, headers and the age that
  -- are allowed too. So the handler runs on a preflight request as well. fasthttp keeps its laws.
  pub cors_lem :
      (origins : List String) (ls : List (Layer (World H L))) (h : World H L → World H L)
      (w : World H L)
      → (d : Context (World H L)) × (run_wrapped
            (map layer_handler (cors H L host m origins ∷ ls))
            (leaf h)
            w
          ≡ returned d)
        × (v : World H L) × (d.world ≡ onion ls h v)
        × (if is_allowed origins (origin_of H L host m w)
            then if str_eq (H.method w.request) "OPTIONS" then IsPreflight w v else IsBasic w v
            else (v ≡ w))
  unfolding cors onion
  cors_lem origins ls h w =
      let (d, o, e) = run_wrapped-onion (cors H L host m origins ∷ ls) h w in
      let (v, f, answered) =
        cors_cases (onion ls h) (is_allowed origins (origin_of H L host m w))
          (str_eq (H.method w.request) "OPTIONS") (preflight H L host m w) (basic_cors H L host m w)
          w (IsPreflight w) (IsBasic w) (preflight-IsPreflight w) (basic_cors-IsBasic w) in
      (d, o, v, e ∙ f, answered)
