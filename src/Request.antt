-- ===== src/Request.antt =====
-- The life of a ContextImpl (context.go, content_impl.go, context_cleanup.go): its fields, Reset,
-- spans, the clean-up and the pool.
--
-- A context is known by its place in the store, which is its pointer. `request` is what the routing
-- context says of the request. The handlers are Chain's, and only their number is kept here. Times
-- are nanoseconds, and an id that uuid makes is a text from outside.
pub mod Pool
pub mod Spans
pub mod Reuse
pub mod Timeouts
use r.Common.{
  ℕ, zero, suc, ◌+◌, String, Bool, true, false, not, ◌&&◌, Option, none, some, List, [], ◌∷◌, ◌++◌,
  map, cond, length, if◌then◌else◌, set, get_elem?,
}
use text.Mathlib.Text.{◌==◌}
use r.Common.Int.{ℤ, pos, sub_ℕ}
use r.Common.Maps.{Map, load, store}
use r.Metrics.Call.{Tags, Call, count, timing}

pub record Incoming : Type 0 where
  pub method : String
  pub path : String
  pub real_ip : String

pub record TracingSpan : Type 0 where
  pub name : String
  pub start_time : ℕ
  pub end_time : Option ℕ
  pub metadata : Tags

-- `root_span` is the place of the root span among the spans. `cancel` says that there is a cancel
-- function, `cancelled` that it has been called, `done_closed` that the channel `done` is closed.
pub record ContextImpl : Type 0 where
  pub request : Incoming
  pub cancel : Bool
  pub cancelled : Bool
  pub handlers : ℕ
  pub handler_idx : ℤ
  pub values : Map String
  pub request_id : String
  pub err : Option String
  pub aborted : Bool
  pub start_time : ℕ
  pub spans : List TracingSpan
  pub timeouts : Map ℤ
  pub metrics : Bool
  pub error_stack : List String
  pub done_closed : Bool
  pub root_span : Option ℕ
  pub trace_id : String

-- `&ContextImpl{}`
abbrev pub blank : ContextImpl
blank = record {
  request = record { method = ""; path = ""; real_ip = "" };
  cancel = false;
  cancelled = false;
  handlers = 0;
  handler_idx = pos 0;
  values = [];
  request_id = "";
  err = none;
  aborted = false;
  start_time = 0;
  spans = [];
  timeouts = [];
  metrics = false;
  error_stack = [];
  done_closed = false;
  root_span = none;
  trace_id = "";
}

unfoldable pub reset : ContextImpl → ContextImpl
reset c = record c {
  request_id = "";
  err = none;
  aborted = false;
  handler_idx = pos 0;
  handlers = 0;
  values = [];
  error_stack = [];
  spans = [];
  timeouts = [];
}

unfoldable pub initialize : Incoming → String → String → ℕ → ContextImpl → ContextImpl
initialize request request_id trace_id now c = record c {
  request = request;
  cancel = true;
  cancelled = false;
  request_id = request_id;
  values = [];
  handlers = 0;
  start_time = now;
  spans = [];
  timeouts = [];
  done_closed = false;
  error_stack = [];
  trace_id = trace_id;
}

-- AddSpan
unfoldable pub add_span : String → Tags → ℕ → ContextImpl → ContextImpl
add_span name metadata now c = record c {
  spans =
      c.spans
      ++ (record { name = name; start_time = now; end_time = none; metadata = metadata } ∷ []);
}

-- startSpan; the calls are those of the collector.
unfoldable pub start_span : String → Tags → ℕ → ContextImpl → ContextImpl × List (Call ℕ)
start_span name attributes now c =
    let metadata = store (store attributes "request_id" c.request_id) "trace_id" c.trace_id in
    (
      record c {
        spans =
            c.spans
            ++ (record { name = name; start_time = now; end_time = none; metadata = metadata }
                ∷ []);
      },
      if c.metrics then count "request.span.start" (("name", name) ∷ []) ∷ [] else [],
    )

-- startRootSpan
unfoldable pub start_root_span : ℕ → ContextImpl → ContextImpl × List (Call ℕ)
unfolding start_span
start_root_span now c =
    let attributes =
      ("request_id", c.request_id)
      ∷ ("method", c.request.method)
      ∷ ("path", c.request.path)
      ∷ ("remote_ip", c.request.real_ip)
      ∷ ("trace_id", c.trace_id)
      ∷ [] in
    let (c₁, calls) = start_span "request" attributes now c in
    (record c₁ { root_span = some (length c.spans) }, calls)

abbrev pub still_open : TracingSpan → Bool
still_open span = cond_open span.end_time
  where
    cond_open : Option ℕ → Bool
    cond_open none = true
    cond_open (some t) = false

abbrev pub ended : ℕ → TracingSpan → TracingSpan
ended now span = record span { end_time = some now }

-- The loop of EndSpan: the first open span of the name.
unfoldable pub end_first : String → ℕ → List TracingSpan → List TracingSpan × Option TracingSpan
end_first name now [] = ([], none)
end_first name now (span ∷ spans) =
    let rest = end_first name now spans in
    if span.name == name && still_open span
    then (ended now span ∷ spans, some (ended now span))
    else (span ∷ rest.0, rest.1)

abbrev pub span_tags : String → ContextImpl → Tags
span_tags name c =
    ("span_name", name)
    ∷ ("path", c.request.path)
    ∷ ("method", c.request.method)
    ∷ ("request_id", c.request_id)
    ∷ []

abbrev pub span_report : String → ℕ → ContextImpl → Option TracingSpan → List (Call ℕ)
span_report name now c none = []
span_report name now c (some span) =
    if c.metrics
    then timing "request.span.duration" (sub_ℕ now span.start_time) (span_tags name c) ∷ []
    else []

-- EndSpan
unfoldable pub end_span : String → ℕ → ContextImpl → ContextImpl × List (Call ℕ)
unfolding end_first
end_span name now c =
    let (spans, closed) = end_first name now c.spans in
    (record c { spans = spans }, span_report name now c closed)
