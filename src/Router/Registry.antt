-- ===== src/Router/Registry.antt =====
-- Registration (router.go, router_add_route_metadata.go, r.go): which middleware a
-- route runs.
use Prim.Native.String
use r.Common.{
  ℕ, zero, suc, ◌≡◌, ◌≢◌, refl, ◌∙◌, String, some, List, [], ◌∷◌, ◌++◌, map, length, arith,
  get_elem?, get_elem?-set_self, get_elem?-set_ne, get_elem?_bound,
}
use r.Chain.{Handler, build_handler_chain}
use r.Router.{Site, blank_router, RouterImpl, wrapped, group, use_middleware, chains_of}

get_elem?-append_last :
    {A : Type 0} (xs : List A) (x : A) → get_elem? (xs ++ (x ∷ [])) (length xs) ≡ some x
get_elem?-append_last [] x = refl
get_elem?-append_last (y ∷ xs) x = get_elem?-append_last xs x

get_elem?-append_first :
    {A : Type 0} (xs ys : List A) (i : ℕ) (x : A)
    → get_elem? xs i ≡ some x
    → get_elem? (xs ++ ys) i ≡ some x
get_elem?-append_first [] ys i x e = ground (arith, e)
get_elem?-append_first (y ∷ xs) ys zero x e = e
get_elem?-append_first (y ∷ xs) ys (suc i) x e = get_elem?-append_first xs ys i x e

different : {A : Type 0} (i : ℕ) (xs : List A) (x : A) → get_elem? xs i ≡ some x → i ≢ length xs
different i xs x e p = omega (arith, get_elem?_bound xs i x e, p)

module _ {W : Type 0} where
  chains :
      (s : Site (Handler W)) (i : ℕ) (router : RouterImpl (Handler W)) (handlers : List (Handler W))
      → get_elem? s.routers i ≡ some router
      → chains_of s (wrapped i handlers) ≡ map (build_handler_chain router.middleware) handlers
  unfolding chains_of
  chains s i router handlers e = rw e refl

  -- A group starts with the middleware that its parent has when it is made. Middleware that the
  -- parent is given later does not reach the group's routes, but it does reach every route of the
  -- parent, also those that were registered before.
  pub group-use_middleware :
      (prefix : String) (more handlers : List (Handler W)) (i : ℕ) (router : RouterImpl (Handler W))
      (s : Site (Handler W))
      → get_elem? s.routers i ≡ some router
      → (chains_of
            (use_middleware more i router (group prefix router s))
            (wrapped (length s.routers) handlers)
          ≡ map (build_handler_chain router.middleware) handlers)
        × (chains_of (use_middleware more i router (group prefix router s)) (wrapped i handlers)
            ≡ map (build_handler_chain (router.middleware ++ more)) handlers)
  unfolding use_middleware group
  group-use_middleware prefix more handlers i router s e =
      let child = record blank_router {
        prefix = Prim.Native.String.◌++◌ router.prefix prefix;
        middleware = router.middleware;
        route_metrics = router.route_metrics;
      } in
      let grown = s.routers ++ (child ∷ []) in
      let bigger : RouterImpl (Handler W) = record router {
        middleware = router.middleware ++ more;
      } in
      (
        chains (use_middleware more i router (group prefix router s)) (length s.routers) child
            handlers
            (get_elem?-set_ne grown bigger (different i s.routers router e)
              ∙ get_elem?-append_last s.routers child),
        chains (use_middleware more i router (group prefix router s)) i bigger handlers (
            get_elem?-set_self grown i bigger (
              get_elem?_bound grown i router
                (get_elem?-append_first s.routers (child ∷ []) i router e))),
      )
