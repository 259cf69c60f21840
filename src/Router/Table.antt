-- ===== src/Router/Table.antt =====
-- Registration of many routes on one router (router.go, router_add_route_metadata.go).
use Prim.Native.String
use text.Mathlib.Text.{◌==◌}
use r.Common.{ℕ, ◌≡◌, String, Option, none, some, List, [], ◌∷◌, ◌++◌, map, cond, get_elem?}
use r.Common.Maps.{load}
use r.Metrics.Call.{Call}
use r.Router.{
  Site, RouterImpl, Served, wrapped, new_route, route_key, initialized_router, store_route, handle,
  registered, Route, put_router, serve_at,
}

-- A call of GET, POST, PUT, DELETE, PATCH, HEAD or OPTIONS.
pub record Registration (H : Type 0) : Type 0 where
  pub method : String
  pub path : String
  pub handlers : List H

module _ {H : Type 0} where
  -- One call, on the router at place `i`. `none` is a panic, or that there is no router there.
  abbrev pub handle_at : Registration H → ℕ → Site H → Option (Site H)
  handle_at r i s = at (get_elem? s.routers i)
    where
      at : Option (RouterImpl H) → Option (Site H)
      at none = none
      at (some router) = handle r.method r.path r.handlers i router s

  -- The calls one after another.
  unfoldable pub handle_all : List (Registration H) → ℕ → Site H → Option (Site H)
  handle_all [] i s = some s
  handle_all (r ∷ rs) i s = elim (handle_at r i s) [
    | none ↦ none
    | some after ↦ handle_all rs i after
  ]

  -- What fasthttp-routing serves for a call, and how the call is counted.
  abbrev pub served_of : String → ℕ → Registration H → Served H
  served_of prefix i r = record {
    method = r.method;
    path = String.◌++◌ prefix r.path;
    endpoint = wrapped i r.handlers;
  }

  abbrev pub call_of : Registration H → Call ℕ
  call_of r = registered r.method r.path

  -- The latest route with this key, or the one that was there.
  abbrev pub latest : String → List (Registration H) → Option Route → Option Route
  latest key [] found = found
  latest key (r ∷ rs) found =
      latest key rs
        (cond (route_key r.method r.path == key) (some (new_route r.method r.path)) found)

  -- What the calls have left of the router at place `i`, and of the rest.
  pub record Tabled (i : ℕ) (router : RouterImpl H) (s : Site H) (rs : List (Registration H))
      (after : Site H) : Type 0 where
    pub served : after.served ≡ s.served ++ map (served_of router.prefix i) rs
    pub counted : after.calls ≡ s.calls ++ map call_of rs
    pub calm : after.panics ≡ s.panics
    pub ready : RouterImpl H
    pub there : get_elem? after.routers i ≡ some ready
    pub table : (key : String) → load ready.routes key ≡ latest key rs (load router.routes key)
    pub same :
        record ready { routes = router.routes; route_metrics = router.route_metrics } ≡ router

  abbrev with_route : Registration H → RouterImpl H → RouterImpl H
  with_route r router = store_route (new_route r.method r.path) (initialized_router router)

  abbrev site_after : Registration H → ℕ → RouterImpl H → Site H → Site H
  site_after r i router s =
      serve_at router r.method r.path (wrapped i r.handlers)
        (record (put_router i (with_route r router) s) { calls = s.calls ++ (call_of r ∷ []) })
