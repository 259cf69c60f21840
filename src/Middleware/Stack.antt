-- ===== src/Middleware/Stack.antt =====
-- Logger, RequestID, Security and RateLimit (middleware.go) in one chain, with the limiter saying no.
use r.Common.{
  ℕ, String, ◌≡◌, refl, sym, ap, ◌∙◌, Bool, false, Bool-cases, inl, inr, none, List, [], ◌∷◌, ◌++◌,
  map, if◌then◌else◌, str_eq, arith,
}
use r.Common.Int.{ℤ, pos, sub_ℕ}
use r.Chain.{Context, returned, run_wrapped}
use r.Chain.Onion.{Layer, layer_handler, leaf, onion, run_wrapped-onion}
use r.Http.{Fasthttp, World, Line, with_request_id, request_line, printed_line, real_ip}
use r.Http.Names.{same_name, same_fold}
use r.Http.Laws.{
  IsFasthttp, Headers, set_all, value_after, header-set_all, status-error_response,
  body-error_response, header-error_response, with_request_id-form,
}
use r.Middleware.{
  Host, RateLimiter, StandardMiddleware, logger, request_id, security, rate_limit,
  ensure_request_id, security_headers, custom_security, log_request, reject_request, ask_limiter,
}
use r.Middleware.Limit.{limit_headers}

abbrev pub security_list : Headers
security_list =
    ("X-Content-Type-Options", "nosniff")
    ∷ ("X-Frame-Options", "DENY")
    ∷ ("X-XSS-Protection", "1; mode=block")
    ∷ ("Strict-Transport-Security", "max-age=31536000; includeSubDomains")
    ∷ ("Content-Security-Policy", "default-src 'self'")
    ∷ ("Referrer-Policy", "strict-origin-when-cross-origin")
    ∷ []

-- What the logger, or the standard output, is told of a request.
abbrev pub line_of : (H : Fasthttp) (L : Type 0) → Bool → String → ℤ → ℤ → World H L → Line
line_of H L to_logger format status latency w =
    if to_logger
    then request_line (H.method w.request) status latency (real_ip H w.request) (H.path w.request)
    else printed_line (if str_eq format "" then "%s | %3d | %13v | %15s | %s" else format)
        (H.method w.request) status latency (real_ip H w.request) (H.path w.request)

module _ {H : Fasthttp} {L : Type 0} (host : Host) (m : StandardMiddleware H L)
    (laws : IsFasthttp H) (limiter : RateLimiter L) (reqs : ℤ) (format : String) where
  abbrev pub stack : List (Layer (World H L)) → List (Layer (World H L))
  stack ls =
      logger H L host m format
      ∷ request_id H L host m
      ∷ security H L host m
      ∷ rate_limit H L host m limiter reqs
      ∷ ls

  ensure_request_id-form :
      (w : World H L)
      → (id : String) × (n : ℕ) × (ensure_request_id H L host m w ≡ record w {
        request_id = id;
        uuids = n;
        response = H.set_header "X-Request-ID" id w.response;
      })
  ensure_request_id-form w =
      let (i, n, e) = with_request_id-form host.uuid w in
      let (j, k, f) = with_request_id-form host.uuid (record w { request_id = i; uuids = n }) in
      elim (Bool-cases (str_eq i "")) [
        | inl again ↦ (
          j,
          k,
          ap chosen e
              ∙ ap (named (record w { request_id = i; uuids = n })) again
              ∙ ap with_header f,
        )
        | inr fine ↦ (i, n, ap chosen e ∙ ap (named (record w { request_id = i; uuids = n })) fine)
      ]
    where
      with_header : World H L → World H L
      with_header v = record v { response = H.set_header "X-Request-ID" v.request_id v.response }

      named : World H L → Bool → World H L
      named v b = with_header (if b then with_request_id H L host.uuid v else v)

      chosen : World H L → World H L
      chosen v = named v (str_eq v.request_id "")

  -- The chain of the stack, from the request ID on, when the limiter rejects.
  abbrev inner :
      List (Layer (World H L)) → (World H L → World H L) → World H L → World H L → World H L
  inner ls h w v =
      let s = custom_security H L host m m.security (security_headers H L host m v) in
      let asked = ask_limiter H L host m limiter s in
      log_request H L host m format w
        (if asked.0 then onion ls h asked.1 else reject_request H L host m limiter reqs asked.1)

  abbrev rejected_world : World H L → World H L → World H L
  rejected_world w v = log_request H L host m format w (
      reject_request H L host m limiter reqs
        (ask_limiter H L host m limiter (security_headers H L host m v)).1)

  inner-rejected_world :
      (ls : List (Layer (World H L))) (h : World H L → World H L) (w v : World H L)
      → m.security ≡ none
      → (limiter.allow (real_ip H v.request) v.now v.limiter).0 ≡ false
      → inner ls h w v ≡ rejected_world w v
  inner-rejected_world ls h w v none' rejected =
      ap
        (λ c.
          let s = custom_security H L host m c (security_headers H L host m v) in
          let asked = ask_limiter H L host m limiter s in
          log_request H L host m format w (
            if asked.0 then onion ls h asked.1 else reject_request H L host m limiter reqs asked.1))
        none'
      ∙ ap
          (λ b.
            let s = security_headers H L host m v in
            let asked = ask_limiter H L host m limiter s in
            log_request H L host m format w
              (if b then onion ls h asked.1 else reject_request H L host m limiter reqs asked.1))
          rejected

  abbrev pub all_headers : String → World H L → Headers
  all_headers id w =
      let l = (limiter.allow (real_ip H w.request) w.now w.limiter).1 in
      let quota = limiter.get_quota (real_ip H w.request) w.now l in
      ("X-Request-ID", id) ∷ security_list ++ limit_headers H L host reqs quota.0 quota.1 w.now

  -- Logger, RequestID, Security without a provider of its own, and RateLimit, where the limiter
  -- rejects the client: the response has status 429, the text of the rejection, the context's
  -- request ID and the six headers of Security beside those of the quota, and every other header as
  -- it was; the logger gets one line, with that status; the limiter has been asked once, the
  -- collector is not told, and no later middleware and no handler runs. fasthttp keeps its laws.
  pub stack_rejects :
      (ls : List (Layer (World H L))) (h : World H L → World H L) (w : World H L)
      → m.security ≡ none
      → (limiter.allow (real_ip H w.request) w.now w.limiter).0 ≡ false
      → (d : Context (World H L)) × (run_wrapped (map layer_handler (stack ls)) (leaf h) w
          ≡ returned d)
        × (H.status d.world.response ≡ pos 429)
        × (H.body d.world.response ≡ "rate limit exceeded")
        × ((name : String)
            → H.header name d.world.response
              ≡ value_after laws.stored
                  (all_headers d.world.request_id w)
                  name
                  (H.header name w.response))
        × (d.world.lines
            ≡ w.lines ++ (line_of H L m.logger format (pos 429) (sub_ℕ w.now w.now) w ∷ []))
        × (d.world.limiter ≡ (limiter.allow (real_ip H w.request) w.now w.limiter).1)
        × (d.world.calls ≡ w.calls)
  unfolding logger request_id security rate_limit onion same_name same_fold
  stack_rejects ls h w none' rejected =
      let (d, o, e) = run_wrapped-onion (stack ls) h w in
      let (i, n, f) = ensure_request_id-form w in
      let v : World H L = record w {
        request_id = i;
        uuids = n;
        response = H.set_header "X-Request-ID" i w.response;
      } in
      let e' : d.world ≡ rejected_world w v =
        e ∙ ap (inner ls h w) f ∙ inner-rejected_world ls h w v none' rejected in
      let hs = all_headers i w in
      let s = set_all H hs w.response in
      let code = status-error_response laws 429 "rate limit exceeded" s (omega arith) in
      (
        d,
        o,
        ap (λ (x : World H L). H.status x.response) e' ∙ code,
        ap (λ (x : World H L). H.body x.response) e'
            ∙ body-error_response laws (pos 429) "rate limit exceeded" s,
        λ name.
            ap (λ (x : World H L). H.header name x.response) e'
            ∙ header-error_response laws (pos 429) "rate limit exceeded" name s
            ∙ header-set_all laws hs name w.response refl
            ∙ ap (λ id. value_after laws.stored (all_headers id w) name (H.header name w.response))
                (sym (ap (λ (x : World H L). x.request_id) e')),
        ap (λ (x : World H L). x.lines) e'
            ∙ ap (λ c. w.lines ++ (line_of H L m.logger format c (sub_ℕ w.now w.now) w ∷ [])) code,
        ap (λ (x : World H L). x.limiter) e',
        ap (λ (x : World H L). x.calls) e',
      )
