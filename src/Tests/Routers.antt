-- ===== src/Tests/Routers.antt =====
-- The router (router.go and its companions) at concrete inputs.
use r.Common.{
  List, Option, ◌++◌, ◌⊎◌, ◌≢◌, String, Bool, ℕ, ◌≡◌, refl, true, none, some, [], ◌∷◌, map,
}
use r.Common.Int.{pos}
use r.Chain.{Handler, done, abort, build_handler_chain}
use r.Router.{
  new_route, Site, RouterImpl, blank_router, context_bound, context_free, Served,
  add_route_metadata, wrapped, handle, group, use_middleware, chains_of,
}
use r.Router.Registry.{group-use_middleware}
use r.Router.Table.{Registration}
use r.Router.Rewrite.{PathBytes, path_rewrite, path_rewrite_lem}
use r.Router.Traffic.{Visit}

abbrev stop : Handler ℕ
stop = abort done

abbrev guarded : RouterImpl (Handler ℕ)
guarded = record blank_router {
  middleware = stop ∷ [];
  panic_handler = context_bound;
  validator = some (λ path method. some "no");
  route_metrics = true;
}

abbrev site : Site (Handler ℕ)
site = record { routers = guarded ∷ []; served = []; unmatched = none; calls = []; panics = [] }

group-use_middleware_example :
    (chains_of
        (use_middleware (done ∷ []) 0 guarded (group "/v1" guarded site))
        (wrapped 1 (done ∷ []))
      ≡ map (build_handler_chain (stop ∷ [])) (done ∷ []))
    × (chains_of
          (use_middleware (done ∷ []) 0 guarded (group "/v1" guarded site))
          (wrapped 0 (done ∷ []))
        ≡ map (build_handler_chain (stop ∷ done ∷ [])) (done ∷ []))
group-use_middleware_example =
    group-use_middleware "/v1" (done ∷ []) (done ∷ []) 0 guarded site refl

-- A route registered twice, and another.
abbrev registrations : List (Registration (Handler ℕ))
registrations =
    record { method = "GET"; path = "/x"; handlers = stop ∷ [] }
    ∷ record { method = "GET"; path = "/y"; handlers = [] }
    ∷ record { method = "GET"; path = "/x"; handlers = done ∷ [] }
    ∷ []

abbrev open_site : Site (Handler ℕ)
open_site = record site { routers = record guarded { validator = none } ∷ [] }

abbrev left : Option (Site (Handler ℕ)) → Option (List (Served (Handler ℕ)) × List String)
left none = none
left (some s) = some (s.served, s.panics)

-- Where a validator refuses a route, the panic handler is called with a nil Context: the registration
-- panics if that handler uses it, and else goes on, and the route is served.
refused_route :
    (handle "GET" "/x" (done ∷ []) 0 guarded site ≡ none)
    × (left (handle "GET" "/x" (done ∷ []) 0 (record guarded { panic_handler = context_free }) site)
        ≡ some (
          record { method = "GET"; path = "/x"; endpoint = wrapped 0 (done ∷ []) } ∷ [],
          "invalid route GET /x: no" ∷ [],
        ))
unfolding handle add_route_metadata
refused_route = (refl, refl)

abbrev visit : String → Bool → Visit
visit path err = record { method = "GET"; path = path; duration = pos 8; err = err; now = 3 }

abbrev page : RouterImpl (Handler ℕ)
page = record guarded { routes = ("GET/x", new_route "GET" "/x") ∷ [] }

-- The bytes of "/a" and of "/a/b".
abbrev static_prefix : PathBytes
static_prefix = 47 ∷ 97 ∷ []

abbrev file_path : PathBytes
file_path = 47 ∷ 97 ∷ 47 ∷ 98 ∷ []

path_rewrite_lem_example :
    ((q : PathBytes) × (file_path ≡ static_prefix ++ q)
      × (path_rewrite static_prefix file_path ≡ q))
    ⊎ (((q : PathBytes) → file_path ≢ static_prefix ++ q)
        × (path_rewrite static_prefix file_path ≡ file_path))
path_rewrite_lem_example = path_rewrite_lem static_prefix file_path
