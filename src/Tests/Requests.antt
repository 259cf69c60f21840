-- ===== src/Tests/Requests.antt =====
-- Contexts and their pool (context.go, content_impl.go, context_cleanup.go) at concrete inputs.
use r.Common.{ℕ, ◌≡◌, refl, String, true, Option, none, some, [], ◌∷◌, get_elem?}
use r.Request.{Incoming, TracingSpan, ContextImpl, blank}
use r.Request.Pool.{Contexts, new_context_impl, monitor_context}
use r.Request.Reuse.{fresh, reused_is_fresh, pooled_twice}

abbrev get : Incoming
get = record { method = "GET"; path = "/a"; real_ip = "::1" }

abbrev post : Incoming
post = record { method = "POST"; path = "/b"; real_ip = "::2" }

abbrev span : String → Option ℕ → TracingSpan
span name end_time = record { name = name; start_time = 3; end_time = end_time; metadata = [] }

-- A context that was aborted with an error, with a root span and two open spans of one name.
abbrev spent : ContextImpl
spent = record blank {
  request = get;
  cancel = true;
  metrics = true;
  err = some "boom";
  aborted = true;
  spans = span "request" none ∷ span "db" none ∷ span "db" none ∷ [];
  root_span = some 0;
  request_id = "r1";
}

abbrev contexts : Contexts
contexts = record { all = spent ∷ []; pool = []; calls = [] }

reused_is_fresh_example :
    let (q, after) = new_context_impl post "r2" "t2" 20 (monitor_context 0 9 contexts) in
    (q ≡ 0) × (get_elem? after.all q ≡ some (record (fresh post "r2" "t2" 20) { metrics = true }))
reused_is_fresh_example = reused_is_fresh 0 9 20 post "r2" "t2" contexts spent refl

pooled_twice_example :
    let (first, s₁) = new_context_impl get "r2" "t2" 20 (monitor_context 0 9 contexts) in
    let (second, s₂) = new_context_impl post "r3" "t3" 21 s₁ in
    (second ≡ first)
    × (get_elem? s₂.all first ≡ some (record (fresh post "r3" "t3" 21) { metrics = true }))
pooled_twice_example = pooled_twice 0 9 20 21 get post "r2" "t2" "r3" "t3" contexts spent refl
