-- ===== src/Router.antt =====
-- The router (router.go, router_add_route_metadata.go, Group and Use of r.go).
--
-- `H` is a handler. Routers are known by their places in `routers`, which are their pointers: a
-- group is a router of its own on the same fasthttp-routing router, whose routes and NotFound
-- handlers are `served` and `unmatched`. A route that was registered keeps the router's pointer and
-- reads its middleware when a request comes (createWrappedHandler). How fasthttp-routing matches a
-- path is outside. A path in `served` has the group's prefix.
pub mod Registry
pub mod Table
pub mod Serve
pub mod Rewrite
pub mod Unmatched
pub mod Traffic
use Prim.Native.String
use r.Common.{
  ℕ, ◌+◌, String, Bool, true, false, not, Option, none, some, List, [], ◌∷◌, ◌++◌, map, length,
  if◌then◌else◌, set, get_elem?,
}
use r.Common.Int.{ℤ, pos}
use r.Common.Maps.{Map, load, store}
use r.Chain.{Handler, build_handler_chain}
use r.Metrics.Call.{Call, count}

-- `added` is left out, and the fields that nothing sets. The numbers are uint64 and int64.
pub record Route : Type 0 where
  pub path : String
  pub method : String
  pub total_calls : ℕ
  pub error_count : ℕ
  pub last_called : ℕ
  pub avg_latency : ℤ

-- The panic handler: nil, one that can be called with a nil Context, or one that uses its Context, so
-- that it panics on a nil one, as the handler does that NewServer sets.
pub data PanicHandler : Type 0 where
  unset context_free context_bound : PanicHandler

-- `r.panicHandler != nil`
abbrev pub is_set : PanicHandler → Bool
is_set unset = false
is_set _ = true

-- `validator` is a RouteValidator, whose ValidateRoute gives an error or nothing.
pub record RouterImpl (H : Type 0) : Type 0 where
  pub prefix : String
  pub middleware : List H
  pub not_found_handler : Option H
  pub method_not_allowed_handler : Option H
  pub panic_handler : PanicHandler
  pub routes : Map Route
  pub validator : Option (String → String → Option String)
  pub route_metrics : Bool

-- What a route of fasthttp-routing does: it runs a router's handlers, serves files, or upgrades the
-- connection to a websocket.
pub data Endpoint (H : Type 0) : Type 0 where
  wrapped : ℕ → List H → Endpoint H
  files : String → String → Endpoint H
  socket : Endpoint H

pub record Served (H : Type 0) : Type 0 where
  pub method : String
  pub path : String
  pub endpoint : Endpoint H

-- What `router.NotFound` was given: a wrapped handler, or the closure of MethodNotAllowed, which
-- calls the handler that the router then has.
pub data Fallback (H : Type 0) : Type 0 where
  not_found_of : ℕ → H → Fallback H
  not_allowed_of : ℕ → Fallback H

-- `panics` are the values that a panic handler was called with.
pub record Site (H : Type 0) : Type 0 where
  pub routers : List (RouterImpl H)
  pub served : List (Served H)
  pub unmatched : Option (Fallback H)
  pub calls : List (Call ℕ)
  pub panics : List String

abbrev pub blank_router : {H : Type 0} → RouterImpl H
blank_router = record {
  prefix = "";
  middleware = [];
  not_found_handler = none;
  method_not_allowed_handler = none;
  panic_handler = unset;
  routes = [];
  validator = none;
  route_metrics = false;
}

-- NewRouter, at place 0.
unfoldable pub new_router : {H : Type 0} → Site H
new_router = record {
  routers = blank_router ∷ [];
  served = [];
  unmatched = none;
  calls = [];
  panics = [];
}

abbrev pub new_route : String → String → Route
new_route method path = record {
  path = path;
  method = method;
  total_calls = 0;
  error_count = 0;
  last_called = 0;
  avg_latency = pos 0;
}

-- `method + path`
abbrev pub route_key : String → String → String
route_key method path = String.◌++◌ method path

-- The error of `validator.ValidateRoute`, if there is a validator.
abbrev pub objection : {H : Type 0} → RouterImpl H → String → String → Option String
objection router method path = ask router.validator
  where
    ask : Option (String → String → Option String) → Option String
    ask none = none
    ask (some validate) = validate path method

abbrev pub registered : String → String → Call ℕ
registered method path = count "route.registered" (("method", method) ∷ ("path", path) ∷ [])

-- The text that validateRoute hands to the panic handler.
abbrev pub refusal : String → String → String → String
refusal method path err =
    String.◌++◌ "invalid route "
      (String.◌++◌ method (String.◌++◌ " " (String.◌++◌ path (String.◌++◌ ": " err))))

module _ {H : Type 0} where
  abbrev pub put_router : ℕ → RouterImpl H → Site H → Site H
  put_router i router s = record s { routers = set s.routers i router }

  -- initializeIfNeeded
  abbrev pub initialized_router : RouterImpl H → RouterImpl H
  initialized_router router = record router { route_metrics = true }

  -- storeRoute
  abbrev pub store_route : Route → RouterImpl H → RouterImpl H
  store_route route router = record router {
    routes = store router.routes (route_key route.method route.path) route;
  }

  -- The call of the panic handler with a nil Context, and the return that follows it. `none` is a
  -- panic: of the call of a handler that is not set, or of one that uses its Context.
  abbrev pub call_panic_handler : PanicHandler → String → Site H → Option (Site H)
  call_panic_handler unset text s = none
  call_panic_handler context_free text s = some (record s { panics = s.panics ++ (text ∷ []) })
  call_panic_handler context_bound text s = none

  -- addRouteMetadata. `none` is the panic of a refused route.
  unfoldable pub add_route_metadata : ℕ → String → String → RouterImpl H → Site H → Option (Site H)
  add_route_metadata i method path router s =
      let ready = initialized_router router in checked ready (objection ready method path)
    where
      checked : RouterImpl H → Option String → Option (Site H)
      checked ready none =
          some (record (put_router i (store_route (new_route method path) ready) s) {
            calls = s.calls ++ (registered method path ∷ []);
          })
      checked ready (some text) =
          call_panic_handler ready.panic_handler (refusal method path text) (put_router i ready s)

  -- `r.group.Get(path, …)` and its like.
  abbrev pub serve_at : RouterImpl H → String → String → Endpoint H → Site H → Site H
  serve_at router method path endpoint s = record s {
    served =
        s.served
        ++ (record { method = method; path = String.◌++◌ router.prefix path; endpoint = endpoint }
            ∷ []);
  }

  abbrev pub and_serve :
      RouterImpl H → String → String → Endpoint H → Option (Site H) → Option (Site H)
  and_serve router method path endpoint none = none
  and_serve router method path endpoint (some s) = some (serve_at router method path endpoint s)

  -- GET, POST, PUT, DELETE, PATCH, HEAD and OPTIONS of the router at place `i`, by their method.
  unfoldable pub handle : String → String → List H → ℕ → RouterImpl H → Site H → Option (Site H)
  unfolding add_route_metadata
  handle method path handlers i router s =
      and_serve router method path (wrapped i handlers) (add_route_metadata i method path router s)

  -- Static
  unfoldable pub static : String → String → ℕ → RouterImpl H → Site H → Option (Site H)
  unfolding add_route_metadata
  static prefix root i router s =
      let path = String.◌++◌ prefix "/*" in
      and_serve router "GET" path (files prefix root) (add_route_metadata i "GET" path router s)

  -- FileServer
  unfoldable pub file_server : String → String → ℕ → RouterImpl H → Site H → Option (Site H)
  unfolding add_route_metadata
  file_server path root i router s =
      and_serve router "GET" path (files path root) (add_route_metadata i "GET" path router s)

  -- WS, which panics without a handler
  unfoldable pub ws : String → Bool → RouterImpl H → Site H → Option (Site H)
  ws path has_handler router s =
      if has_handler then some (serve_at router "GET" path socket s) else none

  -- NotFound
  unfoldable pub not_found : H → ℕ → RouterImpl H → Site H → Site H
  not_found handler i router s =
      record (put_router i (record router { not_found_handler = some handler }) s) {
        unmatched = some (not_found_of i handler);
      }

  -- MethodNotAllowed
  unfoldable pub method_not_allowed : H → ℕ → RouterImpl H → Site H → Site H
  method_not_allowed handler i router s =
      record (put_router i (record router { method_not_allowed_handler = some handler }) s) {
        unmatched = some (not_allowed_of i);
      }

  -- PanicHandler
  unfoldable pub panic_handler : PanicHandler → ℕ → RouterImpl H → Site H → Site H
  panic_handler handler i router s = put_router i (record router { panic_handler = handler }) s

  -- Group: a new router, after those there are.
  unfoldable pub group : String → RouterImpl H → Site H → Site H
  group prefix router s = record s {
    routers =
        s.routers
        ++ (record blank_router {
          prefix = String.◌++◌ router.prefix prefix;
          middleware = router.middleware;
          route_metrics = router.route_metrics;
        }
            ∷ []);
  }

  -- Use
  unfoldable pub use_middleware : List H → ℕ → RouterImpl H → Site H → Site H
  use_middleware more i router s =
      put_router i (record router { middleware = router.middleware ++ more }) s

  -- GetRoutes
  unfoldable pub get_routes : RouterImpl H → List Route
  get_routes router = map (λ (entry : String × Route). entry.1) router.routes

module _ {W : Type 0} where
  -- The chains that a request of a wrapped endpoint runs, one for each of the route's handlers
  -- (createWrappedHandler).
  unfoldable pub chains_of : Site (Handler W) → Endpoint (Handler W) → List (List (Handler W))
  chains_of s (files prefix root) = []
  chains_of s socket = []
  chains_of s (wrapped i handlers) = of_router (get_elem? s.routers i)
    where
      of_router : Option (RouterImpl (Handler W)) → List (List (Handler W))
      of_router none = []
      of_router (some router) = map (build_handler_chain router.middleware) handlers
