-- ===== src/Middleware/Panics.antt =====
-- Recovery (middleware.go), and what it makes of a chain whose next handler panics.
use mathlib.Core.Path.{subst}
use r.Metrics.Call.{Tags, count}
use r.Common.{
  Bool, if◌then◌else◌, Option, some, none, str_eq, ◌++◌, ◌∷◌, [], String, ◌≡◌, refl, ap, sym, ◌∙◌,
  none, List, ◌∷◌, map, arith,
}
use r.Common.Int.{pos}
use r.Chain.{Handler, done, act, next_or, Context, returned, run_wrapped}
use r.Chain.Onion.{Layer, layer_handler, leaf, onion}
use r.Chain.Recovery.{recovery, panicker, recovery_resumes, recovery_last}
use r.Http.{json, with_request_id, error_line, get_header, real_ip, on_response, Fasthttp, World}
use r.Http.Names.{same_name, same_fold}
use r.Http.Laws.{IsFasthttp, body_or, status-json, header-json, body-json, response-with_request_id}
use r.Middleware.{Host, Reply, StandardMiddleware}

module _ (H : Fasthttp) (L : Type 0) (host : Host) (m : StandardMiddleware H L) where
  -- Recovery: the report, and the response that it makes without a handler of its own.
  abbrev pub report_panic : String → World H L → World H L
  report_panic v w =
      let q = w.request in
      let tags : Tags = ("path", H.path q) ∷ ("method", H.method q) ∷ [] in
      let fields : List (String × String) =
        ("error", v)
        ∷ ("stack", host.stack)
        ∷ ("request_id", w.request_id)
        ∷ ("path", H.path q)
        ∷ ("method", H.method q)
        ∷ ("client_ip", real_ip H q)
        ∷ ("user_agent", get_header H "User-Agent" q w.response)
        ∷ [] in
      record w {
        calls = if m.metrics then w.calls ++ (count "panic_recovery" tags ∷ []) else w.calls;
        lines =
            if m.logger
            then w.lines ++ (error_line "Panic recovered in request handler" fields ∷ [])
            else w.lines;
      }

  -- isDevelopment
  abbrev pub is_development : Bool
  is_development = str_eq host.app_env "development"

  abbrev pub reply_to_panic : String → World H L → Reply
  reply_to_panic v w = record {
    error = "Internal Server Error";
    request_id = w.request_id;
    timestamp = host.rfc3339 w.now;
    debug = if is_development then some (v, host.stack) else none;
  }

  abbrev pub answer_panic : String → World H L → World H L
  answer_panic v w =
      on_response H L (λ s. (json H host.encode (pos 500) (reply_to_panic v w) s).1) w

  abbrev pub note_panic : String → World H L → World H L
  note_panic v w = report_panic v (with_request_id H L host.uuid w)

  -- Recovery, where `handler` is the custom handler if there is one.
  unfoldable pub recovery_with : Option (String → Handler (World H L)) → Handler (World H L)
  recovery_with none = recovery (λ v w. answer_panic v (note_panic v w))
  recovery_with (some handler) = next_or (λ v. act (note_panic v) (λ _. handler v)) done

module _ {H : Fasthttp} {L : Type 0} (host : Host) (m : StandardMiddleware H L)
    (laws : IsFasthttp H) where
  -- `v` is what Recovery makes of the world `w` that a panic left.
  abbrev pub IsRecovered : String → World H L → World H L → Type 0
  IsRecovered panic_value w v =
      let noted = note_panic H L host m panic_value w in
      (H.status v.response ≡ pos 500)
      × (H.header "Content-Type" v.response ≡ laws.stored "application/json")
      × (H.body v.response
          ≡ body_or (H.body w.response) (host.encode (reply_to_panic H L host m panic_value noted)))
      × (v ≡ record noted { response = v.response })

  answer_panic-IsRecovered :
      (panic_value : String) (w : World H L)
      → IsRecovered panic_value w
          (answer_panic H L host m panic_value (note_panic H L host m panic_value w))
  unfolding same_name same_fold
  answer_panic-IsRecovered panic_value w =
      let noted = note_panic H L host m panic_value w in
      let reply = reply_to_panic H L host m panic_value noted in
      (
        status-json laws host.encode 500 reply noted.response (omega arith),
        header-json laws host.encode (pos 500) reply "Content-Type" noted.response
            ∙ laws.header-set_header "Content-Type" "application/json" "Content-Type" noted.response
                refl,
        body-json laws host.encode (pos 500) reply noted.response
            ∙ ap (λ (s : H.Response). body_or (H.body s) (host.encode reply))
                (response-with_request_id host.uuid w),
        refl,
      )

  -- Recovery that was given no custom handler, first in a chain and directly before a handler that
  -- works and panics. The chain returns. That handler's panic is answered: the response has status
  -- 500, the type of JSON, and the encoded reply as its body (the old one where the encoder fails); a
  -- context without a request ID gets one, the collector and the logger, where they are there, are
  -- told once, and nothing else changes. If the handler that panics is itself a middleware, the later
  -- middleware, of code before and after Next, and the route's handler then run on that answer; if
  -- it is the route's handler, the chain ends with it. fasthttp keeps its laws.
  pub recovery_lem :
      (f : World H L → World H L) (panic_value : String) (ls : List (Layer (World H L)))
      (h : World H L → World H L) (w : World H L)
      → (d : Context (World H L)) × (run_wrapped
            (recovery_with H L host m none ∷ panicker f panic_value ∷ map layer_handler ls)
            (leaf h)
            w
          ≡ returned d)
        × (v : World H L) × (d.world ≡ onion ls h v)
        × IsRecovered panic_value (f w) v
        × (last : Context (World H L)) × (run_wrapped
              (recovery_with H L host m none ∷ [])
              (panicker f panic_value)
              w
            ≡ returned last)
        × IsRecovered panic_value (f w) last.world
  unfolding recovery_with
  recovery_lem f panic_value ls h w =
      let answer : String → World H L → World H L =
        λ p v. answer_panic H L host m p (note_panic H L host m p v) in
      let (d, o, e) = recovery_resumes answer f panic_value ls h w in
      let (last, o', e') = recovery_last answer f panic_value w in
      let recovered = answer_panic-IsRecovered panic_value (f w) in
      (
        d,
        o,
        answer panic_value (f w),
        e,
        recovered,
        last,
        o',
        subst (IsRecovered panic_value (f w)) (sym e') recovered,
      )
