-- ===== src/Request/Reuse.antt =====
-- What becomes of a context that goes back to the pool (content_impl.go, context_cleanup.go).
use r.Common.{
  ℕ, ◌≡◌, refl, sym, ap, ◌∙◌, String, some, List, [], ◌∷◌, get_elem?, get_elem?-set_self,
  get_elem?_bound, Option-cases, Bool-cases, inl, inr,
}
use r.Request.{Incoming, ContextImpl, blank, reset, initialize, start_root_span}
use r.Request.Pool.{
  Contexts, finish, update, get_context_impl_from_pool, new_context_impl, reset_and_pool, cleanup,
  monitor_context,
}
use r.Metrics.Call.{Call}

update-pool :
    (p : ℕ) (f : ContextImpl → ContextImpl × List (Call ℕ)) (s : Contexts)
    → (update p f s).pool ≡ s.pool
update-pool p f s = elim (Option-cases (get_elem? s.all p)) [
  | inl e ↦ rw e refl
  | inr found ↦ rw (found.1) refl
]

update_self :
    (p : ℕ) (f : ContextImpl → ContextImpl × List (Call ℕ)) (s : Contexts) (c : ContextImpl)
    → get_elem? s.all p ≡ some c
    → get_elem? (update p f s).all p ≡ some (f c).0
update_self p f s c e = rw e (get_elem?-set_self s.all p (f c).0 (get_elem?_bound s.all p c e))

-- A context that is ready for a request, made from nothing but the request.
abbrev pub fresh : Incoming → String → String → ℕ → ContextImpl
fresh request id trace now = (start_root_span now (initialize request id trace now blank)).0

monitored-pool : (p now : ℕ) (s : Contexts) → (monitor_context p now s).pool ≡ p ∷ p ∷ s.pool
unfolding monitor_context cleanup reset_and_pool
monitored-pool p now s =
    ap (λ pool. p ∷ p ∷ pool)
      (update-pool p (λ c. (reset c, [])) (update p (finish now) s) ∙ update-pool p (finish now) s)

monitored_self :
    (p now : ℕ) (s : Contexts) (c : ContextImpl)
    → get_elem? s.all p ≡ some c
    → get_elem? (monitor_context p now s).all p ≡ some (reset (finish now c).0)
unfolding monitor_context cleanup reset_and_pool
monitored_self p now s c e =
    update_self p (λ d. (reset d, [])) (update p (finish now) s) (finish now c).0
      (update_self p (finish now) s c e)

-- Taking the context that was put last.
taken :
    (p : ℕ) (pool : List ℕ) (request : Incoming) (id trace : String) (now : ℕ) (s : Contexts)
    (c : ContextImpl)
    → s.pool ≡ p ∷ pool
    → get_elem? s.all p ≡ some c
    → ((new_context_impl request id trace now s).0 ≡ p)
      × ((new_context_impl request id trace now s).1.pool ≡ pool)
      × (get_elem? (new_context_impl request id trace now s).1.all p
          ≡ some (start_root_span now (initialize request id trace now c)).0)
unfolding new_context_impl get_context_impl_from_pool
taken p pool request id trace now s c e f =
    let ready : ContextImpl → ContextImpl × List (Call ℕ) =
      λ d. start_root_span now (initialize request id trace now d) in
    rw e (
      refl,
      update-pool p ready (record s { pool = pool }),
      update_self p ready (record s { pool = pool }) c f,
    )

finish-metrics : (now : ℕ) (c : ContextImpl) → (finish now c).0.metrics ≡ c.metrics
unfolding finish
finish-metrics now c = elim (Bool-cases c.cancel) [
  | inl on ↦ elim (Option-cases c.root_span) [
    | inl no_root ↦ rw (on, no_root) refl
    | inr root ↦ rw (on, root.1) refl
  ]
  | inr off ↦ elim (Option-cases c.root_span) [
    | inl no_root ↦ rw (off, no_root) refl
    | inr root ↦ rw (off, root.1) refl
  ]
]

started_again :
    (request : Incoming) (id trace : String) (later now : ℕ) (c : ContextImpl)
    → (start_root_span later (initialize request id trace later (reset (finish now c).0))).0
      ≡ record (fresh request id trace later) { metrics = c.metrics }
unfolding reset initialize start_root_span
started_again request id trace later now c =
    ap (λ m. record (fresh request id trace later) { metrics = m }) (finish-metrics now c)

started_twice :
    (request request' : Incoming) (id trace id' trace' : String) (t t' now : ℕ) (c : ContextImpl)
    → (start_root_span t' (
        initialize request' id' trace' t'
          (start_root_span t (initialize request id trace t (reset (finish now c).0))).0)).0
      ≡ record (fresh request' id' trace' t') { metrics = c.metrics }
unfolding reset initialize start_root_span
started_twice request request' id trace id' trace' t t' now c =
    ap (λ m. record (fresh request' id' trace' t') { metrics = m }) (finish-metrics now c)

-- Whatever a request has left in its context, the next request that is given the context after the
-- clean-up finds it as a new one, but for the collector, which stays.
pub reused_is_fresh :
    (p now later : ℕ) (request : Incoming) (id trace : String) (s : Contexts) (c : ContextImpl)
    → get_elem? s.all p ≡ some c
    → (let (q, after) = new_context_impl request id trace later (monitor_context p now s) in
        (q ≡ p)
        × (get_elem? after.all q
            ≡ some (record (fresh request id trace later) { metrics = c.metrics })))
reused_is_fresh p now later request id trace s c e =
    let (at, pool, held) =
      taken p (p ∷ s.pool) request id trace later (monitor_context p now s) (reset (finish now c).0)
        (monitored-pool p now s) (monitored_self p now s c e) in
    (
      at,
      ap (get_elem? (new_context_impl request id trace later (monitor_context p now s)).1.all) at
          ∙ held
          ∙ ap some (started_again request id trace later now c),
    )

-- The clean-up that the monitor runs puts the context into the pool, and the monitor puts it there
-- once more: the next two requests, which may run at the same time, are given one and the same
-- context, and the second makes it its own while the first is using it.
pub pooled_twice :
    (p now t t' : ℕ) (request request' : Incoming) (id trace id' trace' : String) (s : Contexts)
    (c : ContextImpl)
    → get_elem? s.all p ≡ some c
    → (let (first, s₁) = new_context_impl request id trace t (monitor_context p now s) in
        let (second, s₂) = new_context_impl request' id' trace' t' s₁ in
        (second ≡ first)
        × (get_elem? s₂.all first
            ≡ some (record (fresh request' id' trace' t') { metrics = c.metrics })))
pooled_twice p now t t' request request' id trace id' trace' s c e =
    let (at, pool, held) =
      taken p (p ∷ s.pool) request id trace t (monitor_context p now s) (reset (finish now c).0)
        (monitored-pool p now s) (monitored_self p now s c e) in
    let (at', pool', held') =
      taken p s.pool request' id' trace' t'
        (new_context_impl request id trace t (monitor_context p now s)).1
        (start_root_span t (initialize request id trace t (reset (finish now c).0))).0 pool held in
    (
      at' ∙ sym at,
      ap
            (get_elem?
              (new_context_impl request' id' trace' t'
                (new_context_impl request id trace t (monitor_context p now s)).1).1.all)
            at
          ∙ held'
          ∙ ap some (started_twice request request' id trace id' trace' t t' now c),
    )
