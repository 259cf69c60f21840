-- ===== src/Router/Traffic.antt =====
-- The counters of a route (route_metrics.go). A float64 is a value of `F`; total calls and errors are
-- uint64. Only their reader, GetRoutes, is part of the program: no code calls UpdateRouteMetrics.
use text.Mathlib.Text.{◌==◌}
use r.Common.{
  ℕ, ◌+◌, ◌%◌, ◌<◌, ◌≤◌, ◌≡◌, refl, ap, ◌∙◌, String, Bool, true, false, Option, none, some, List,
  [], ◌∷◌, arith, length, if◌then◌else◌, eq_iff, Bool-cases, inl, inr,
}
use r.Common.Int.{ℤ, pos, two_64}
use r.Common.Maps.{load, store, load-store}
use r.Common.Float.{Floats}
use r.Router.{Route, RouterImpl, route_key}

-- A call of UpdateRouteMetrics.
pub record Visit : Type 0 where
  pub method : String
  pub path : String
  pub duration : ℤ
  pub err : Bool
  pub now : ℕ

-- One for a visit of the key.
abbrev pub hits : String → List Visit → ℕ
hits key [] = 0
hits key (v ∷ vs) = (if route_key v.method v.path == key then 1 else 0) + hits key vs

abbrev pub errors : String → List Visit → ℕ
errors key [] = 0
errors key (v ∷ vs) =
    (if route_key v.method v.path == key then (if v.err then 1 else 0) else 0) + errors key vs

-- A registered route with its counters.
pub record Counts {H : Type 0} (router : RouterImpl H) (key : String) (calls failures : ℕ)
    : Type 0 where
  pub route : Route
  pub at : load router.routes key ≡ some route
  pub collecting : router.route_metrics ≡ true
  pub calls_eq : route.total_calls ≡ calls
  pub failures_eq : route.error_count ≡ failures

few : (key : String) (v : Visit) → (hits key (v ∷ []) ≤ 1) × (errors key (v ∷ []) ≤ 1)
few key v = (ground arith, ground arith)

module _ (F : Floats) where
  -- `x / 10`, for the literals 0.9 and 0.1
  abbrev pub tenths : ℕ → F.Float
  tenths n = F.div (F.of_int (pos n)) (F.of_int (pos 10))

  -- updateAverageLatency
  unfoldable pub update_average_latency : ℤ → Route → Route
  update_average_latency duration route = record route {
    avg_latency = F.trunc (
        F.add (F.mul (F.of_int route.avg_latency) (tenths 9))
          (F.mul (F.of_int duration) (tenths 1)));
  }

  -- incrementRouteCounters
  unfoldable pub increment_route_counters : Visit → Route → Route
  unfolding update_average_latency
  increment_route_counters v route = update_average_latency v.duration (record route {
    total_calls = (route.total_calls + 1) % two_64;
    last_called = v.now;
    error_count = if v.err then (route.error_count + 1) % two_64 else route.error_count;
  })

  module _ {H : Type 0} where
    abbrev pub visited : Visit → RouterImpl H → Option Route → RouterImpl H
    visited v router none = router
    visited v router (some route) = record router {
      routes = store router.routes (route_key v.method v.path) (increment_route_counters v route);
    }

    -- UpdateRouteMetrics
    unfoldable pub update_route_metrics : Visit → RouterImpl H → RouterImpl H
    update_route_metrics v router =
        if router.route_metrics
        then visited v router (load router.routes (route_key v.method v.path))
        else router

    unfoldable pub update_all : List Visit → RouterImpl H → RouterImpl H
    update_all [] router = router
    update_all (v ∷ vs) router = update_all vs (update_route_metrics v router)

  module _ {H : Type 0} where
    recount :
        (router : RouterImpl H) (key : String) (n e n' e' : ℕ)
        → Counts router key n e
        → n ≡ n'
        → e ≡ e'
        → Counts router key n' e'
    recount router key n e n' e' c p q = record {
      route = c.route;
      at = c.at;
      collecting = c.collecting;
      calls_eq = c.calls_eq ∙ p;
      failures_eq = c.failures_eq ∙ q;
    }

    after_visit :
        (v : Visit) (router : RouterImpl H) (key : String) (n e : ℕ) (c : Counts router key n e)
        → n + 1 < two_64
        → e + 1 < two_64
        → (route_key v.method v.path == key) ≡ true
        → Counts (visited v router (some c.route)) key (n + 1) (if v.err then e + 1 else e)
    unfolding increment_route_counters update_average_latency
    after_visit v router key n e c h k own = record {
      route = increment_route_counters v c.route;
      at = load-store router.routes (route_key v.method v.path) key _ ∙ rw own refl;
      collecting = c.collecting;
      calls_eq = ground (arith, c.calls_eq, h);
      failures_eq = ground (arith, c.failures_eq, k);
    }

    missed :
        (v : Visit) (router : RouterImpl H) (key : String) (n e : ℕ) (found : Option Route)
        → Counts router key n e
        → (route_key v.method v.path == key) ≡ false
        → Counts (visited v router found) key n e
    missed v router key n e none c other = c
    missed v router key n e (some route) c other = record {
      route = c.route;
      at = load-store router.routes (route_key v.method v.path) key _ ∙ rw other (c.at);
      collecting = c.collecting;
      calls_eq = c.calls_eq;
      failures_eq = c.failures_eq;
    }

    -- A visit, when there is a collector.
    step :
        (v : Visit) (router : RouterImpl H) (found : Option Route)
        → router.route_metrics ≡ true
        → load router.routes (route_key v.method v.path) ≡ found
        → update_route_metrics v router ≡ visited v router found
    unfolding update_route_metrics
    step v router found c e =
        ap
          (λ b.
            if b then visited v router (load router.routes (route_key v.method v.path)) else router)
          c
        ∙ ap (visited v router) e

    one_visit :
        (v : Visit) (router : RouterImpl H) (key : String) (n e : ℕ)
        → Counts router key n e
        → n + 1 < two_64
        → e + 1 < two_64
        → Counts
            (update_route_metrics v router)
            key
            (n + hits key (v ∷ []))
            (e + errors key (v ∷ []))
    one_visit v router key n e c h k = elim (Bool-cases (route_key v.method v.path == key)) [
      | inl own ↦
          rw
            (step v router (some c.route) c.collecting
              (ap (load router.routes) ((eq_iff (route_key v.method v.path) key).0 own) ∙ c.at))
            (recount _ key _ _ _ _ (after_visit v router key n e c h k own) (ground (arith, own))
              (ground (arith, own)))
      | inr other ↦
          rw (step v router (load router.routes (route_key v.method v.path)) c.collecting refl) (
            recount _ key _ _ _ _
              (missed v router key n e (load router.routes (route_key v.method v.path)) c other)
              (ground (arith, other)) (ground (arith, other)))
    ]

    -- Visits one after another: the route under the key has had exactly the visits of its method and
    -- path, and as many errors as those of them that had one; visits of other routes, or of no
    -- route, leave its counters alone.
    update_all-Counts :
        (vs : List Visit) (router : RouterImpl H) (key : String) (n e : ℕ)
        → Counts router key n e
        → n + length vs < two_64
        → e + length vs < two_64
        → Counts (update_all vs router) key (n + hits key vs) (e + errors key vs)
    unfolding update_all
    update_all-Counts [] router key n e c h k =
        recount router key n e _ _ c (omega arith) (omega arith)
    update_all-Counts (v ∷ vs) router key n e c h k =
        let (one, one_error) = few key v in
        recount _ key _ _ _ _
          (update_all-Counts vs (update_route_metrics v router) key (n + hits key (v ∷ []))
            (e + errors key (v ∷ [])) (one_visit v router key n e c (omega arith) (omega arith))
            (omega arith) (omega arith))
          (omega arith) (omega arith)
