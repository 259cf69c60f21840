-- ===== src/Router/Unmatched.antt =====
-- The handler of requests without a route: NotFound and MethodNotAllowed of router.go.
use r.Common.{
  ℕ, ◌≡◌, ap, Option, none, some, List, [], ◌∷◌, arith, set, length-set, get_elem?,
  get_elem?-set_self, get_elem?_bound,
}
use r.Chain.{Handler, build_handler_chain}
use r.Router.{
  Site, RouterImpl, Fallback, not_found_of, not_allowed_of, not_found, method_not_allowed,
}

set_twice :
    {A : Type 0} (xs : List A) (i : ℕ) (x y z : A)
    → get_elem? xs i ≡ some x
    → get_elem? (set (set xs i y) i z) i ≡ some z
set_twice xs i x y z e =
    get_elem?-set_self (set xs i y) i z (omega (arith, length-set xs i y, get_elem?_bound xs i x e))

module _ {W : Type 0} where
  -- The handler that NotFound wrapped, with the middleware that the router has now.
  abbrev pub wrapped_not_found :
      Handler W → Option (RouterImpl (Handler W)) → Option (List (Handler W))
  wrapped_not_found handler none = none
  wrapped_not_found handler (some router) = some (build_handler_chain router.middleware handler)

  -- The closure of MethodNotAllowed.
  abbrev pub bare_not_allowed : Option (RouterImpl (Handler W)) → Option (List (Handler W))
  bare_not_allowed none = none
  bare_not_allowed (some router) = elim router.method_not_allowed_handler [
    | none ↦ none
    | some handler ↦ some (handler ∷ [])
  ]

  abbrev pub chain_of_fallback :
      Site (Handler W) → Option (Fallback (Handler W)) → Option (List (Handler W))
  chain_of_fallback s none = none
  chain_of_fallback s (some (not_found_of i handler)) =
      wrapped_not_found handler (get_elem? s.routers i)
  chain_of_fallback s (some (not_allowed_of i)) = bare_not_allowed (get_elem? s.routers i)

  -- The chain that runs for a request that no route takes, if a handler is set.
  unfoldable pub fallback_chain : Site (Handler W) → Option (List (Handler W))
  fallback_chain s = chain_of_fallback s s.unmatched

  -- NotFound and MethodNotAllowed set the same handler of the underlying router: the one that is
  -- called last takes every request without a route, and the other handler is never run.
  fallback_last_wins :
      (missing refused : Handler W) (i : ℕ) (router : RouterImpl (Handler W)) (s : Site (Handler W))
      → get_elem? s.routers i ≡ some router
      → (fallback_chain (
            method_not_allowed refused i
              (record router { not_found_handler = some missing })
              (not_found missing i router s))
          ≡ some (refused ∷ []))
        × (fallback_chain (
              not_found missing i
                (record router { method_not_allowed_handler = some refused })
                (method_not_allowed refused i router s))
            ≡ some (build_handler_chain router.middleware missing))
  unfolding fallback_chain method_not_allowed not_found
  fallback_last_wins missing refused i router s e =
      let with_missing : RouterImpl (Handler W) = record router {
        not_found_handler = some missing;
      } in
      let with_refused : RouterImpl (Handler W) = record router {
        method_not_allowed_handler = some refused;
      } in
      let both : RouterImpl (Handler W) = record router {
        not_found_handler = some missing;
        method_not_allowed_handler = some refused;
      } in
      (
        ap bare_not_allowed (set_twice s.routers i router with_missing both e),
        ap (wrapped_not_found missing) (set_twice s.routers i router with_refused both e),
      )
