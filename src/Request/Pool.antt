-- ===== src/Request/Pool.antt =====
-- The clean-up of contexts and their pool (context_cleanup.go, content_impl.go, and contextPool of
-- context.go). The pool gives out what was put last, and a new context when it is empty.
use r.Common.{
  ℕ, String, true, Option, none, some, List, [], ◌∷◌, ◌++◌, map, length, if◌then◌else◌, set,
  get_elem?,
}
use r.Common.Int.{sub_ℕ}
use r.Request.{
  Incoming, TracingSpan, ContextImpl, blank, reset, initialize, start_root_span, still_open, ended,
}
use r.Metrics.Call.{Tags, Call, count, timing}

-- cancelContext
abbrev pub cancel_context : ContextImpl → ContextImpl
cancel_context c = if c.cancel then record c { cancelled = true } else c

-- The span at a place is ended.
abbrev pub end_at : ℕ → ℕ → List TracingSpan → List TracingSpan
end_at now i spans = end_found (get_elem? spans i)
  where
    end_found : Option TracingSpan → List TracingSpan
    end_found none = spans
    end_found (some span) = set spans i (ended now span)

-- `map[string]string` of the final timings.
abbrev pub request_tags : ContextImpl → Tags
request_tags c =
    ("path", c.request.path) ∷ ("method", c.request.method) ∷ ("request_id", c.request_id) ∷ []

abbrev pub started_at : ContextImpl → ℕ → ℕ
started_at c i = start_of (get_elem? c.spans i)
  where
    start_of : Option TracingSpan → ℕ
    start_of none = 0
    start_of (some span) = span.start_time

-- endRootSpan
abbrev pub end_root_span : ℕ → ContextImpl → ContextImpl × List (Call ℕ)
end_root_span now c = end_root c.root_span
  where
    end_root : Option ℕ → ContextImpl × List (Call ℕ)
    end_root none = (c, [])
    end_root (some i) = (
      record c { spans = end_at now i c.spans },
      if c.metrics
          then timing "request.total_time" (sub_ℕ now (started_at c i))
              (request_tags c ++ (("span", "root") ∷ []))
            ∷ []
          else [],
    )

-- endOpenSpans
abbrev pub end_open_spans : ℕ → ContextImpl → ContextImpl
end_open_spans now c = record c {
  spans = map (λ (span : TracingSpan). if still_open span then ended now span else span) c.spans;
}

abbrev pub error_calls : ContextImpl → Option String → List (Call ℕ)
error_calls c none = []
error_calls c (some e) =
    count "request.errors"
      (("path", c.request.path) ∷ ("method", c.request.method) ∷ ("error", e) ∷ [])
    ∷ []

-- recordFinalMetrics
abbrev pub record_final_metrics : ℕ → ContextImpl → List (Call ℕ)
record_final_metrics now c =
    if c.metrics
    then timing "request.total_time" (sub_ℕ now c.start_time) (request_tags c) ∷ error_calls c c.err
    else []

-- closeDoneChannel
abbrev pub close_done_channel : ContextImpl → ContextImpl
close_done_channel c = record c { done_closed = true }

-- Cleanup as far as it changes the context itself.
unfoldable pub finish : ℕ → ContextImpl → ContextImpl × List (Call ℕ)
finish now c =
    let c₁ = cancel_context c in
    let (c₂, calls) = end_root_span now c₁ in
    let c₃ = end_open_spans now c₂ in (close_done_channel c₃, calls ++ record_final_metrics now c₃)

-- All contexts there are, and the pointers that the pool holds, the latest first.
pub record Contexts : Type 0 where
  pub all : List ContextImpl
  pub pool : List ℕ
  pub calls : List (Call ℕ)

-- `contextPool.Get()`
unfoldable pub get_context_impl_from_pool : Contexts → ℕ × Contexts
get_context_impl_from_pool s = take s.pool
  where
    take : List ℕ → ℕ × Contexts
    take [] = (length s.all, record s { all = s.all ++ (blank ∷ []) })
    take (p ∷ pool) = (p, record s { pool = pool })

abbrev pub update : ℕ → (ContextImpl → ContextImpl × List (Call ℕ)) → Contexts → Contexts
update p f s = at (get_elem? s.all p)
  where
    at : Option ContextImpl → Contexts
    at none = s
    at (some c) = record s { all = set s.all p (f c).0; calls = s.calls ++ (f c).1 }

-- newContextImpl; the monitor of the new context runs later.
unfoldable pub new_context_impl : Incoming → String → String → ℕ → Contexts → ℕ × Contexts
unfolding get_context_impl_from_pool
new_context_impl request request_id trace_id now s =
    let (p, s₁) = get_context_impl_from_pool s in
    (p, update p (λ c. start_root_span now (initialize request request_id trace_id now c)) s₁)

-- resetAndPool
unfoldable pub reset_and_pool : ℕ → Contexts → Contexts
reset_and_pool p s = let s₁ = update p (λ c. (reset c, [])) s in record s₁ { pool = p ∷ s₁.pool }

-- Cleanup
unfoldable pub cleanup : ℕ → ℕ → Contexts → Contexts
unfolding finish reset_and_pool
cleanup p now s = reset_and_pool p (update p (finish now) s)

-- monitorContext, once its context is done.
unfoldable pub monitor_context : ℕ → ℕ → Contexts → Contexts
unfolding cleanup
monitor_context p now s = let s₁ = cleanup p now s in record s₁ { pool = p ∷ s₁.pool }
