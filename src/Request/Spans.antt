-- ===== src/Request/Spans.antt =====
-- Spans of a context (context.go): which of them EndSpan ends.
use text.Mathlib.Text.{◌==◌}
use r.Common.{
  ℕ, ◌≡◌, refl, ap, ◌∙◌, String, true, false, ◌&&◌, some, List, [], ◌∷◌, ◌++◌, if◌then◌else◌,
}
use r.Common.Int.{sub_ℕ}
use r.Request.{TracingSpan, ContextImpl, still_open, ended, end_first, end_span, span_tags}
use r.Metrics.Call.{timing}

-- No span of the list is open under the name.
abbrev pub NoneOpen : String → List TracingSpan → Type 0
NoneOpen name [] = Unit
NoneOpen name (span ∷ spans) =
    ((span.name == name && still_open span) ≡ false) × NoneOpen name spans

end_first-skips :
    (name : String) (now : ℕ) (before rest : List TracingSpan)
    → NoneOpen name before
    → end_first name now (before ++ rest)
      ≡ (before ++ (end_first name now rest).0, (end_first name now rest).1)
unfolding end_first
end_first-skips name now [] rest n = refl
end_first-skips name now (span ∷ before) rest n =
    rw (n.0, end_first-skips name now before rest n.1) refl

-- EndSpan ends the first open span of the name and reports its time, and leaves the spans before
-- and behind it as they are, also an open one of the same name.
end_span_lem :
    (name : String) (now : ℕ) (c : ContextImpl) (before after : List TracingSpan)
    (span : TracingSpan)
    → c.spans ≡ before ++ (span ∷ after)
    → NoneOpen name before
    → (span.name == name && still_open span) ≡ true
    → ((end_span name now c).0.spans ≡ before ++ (ended now span ∷ after))
      × ((end_span name now c).1 ≡ (
          if c.metrics
          then timing "request.span.duration" (sub_ℕ now span.start_time) (span_tags name c) ∷ []
          else []))
unfolding end_span end_first
end_span_lem name now c before after span e n h =
    let step : end_first name now c.spans
        ≡ (before ++ (ended now span ∷ after), some (ended now span)) =
      ap (end_first name now) e ∙ end_first-skips name now before (span ∷ after) n ∙ rw h refl in
    rw step (refl, refl)
