-- ===== src/Http/Access.antt =====
-- The accessors of context.go and r.go that pass on what fasthttp keeps: Path, Method, RequestCtx's
-- request, SetStatus, GetRequestID, and cookies and parameters over an interface of their own.
use r.Common.{String}
use r.Common.Int.{ℤ}
use r.Http.{Fasthttp, World, on_response}

-- What the accessors of cookies and parameters use of fasthttp and fasthttp-routing.
pub record Extras (H : Fasthttp) : Type 1 where
  pub Cookie : Type 0
  pub cookie : String → H.Request → String
  pub set_cookie : Cookie → H.Response → H.Response
  pub param : String → H.Request → String
  pub query_param : String → H.Request → String

-- The parts of an http.Request that Request fills in
pub record HttpRequest : Type 0 where
  pub method : String
  pub url_path : String

module _ (H : Fasthttp) (L : Type 0) where
  -- Path
  abbrev pub path_of : World H L → String
  path_of w = H.path w.request

  -- Method
  abbrev pub method_of : World H L → String
  method_of w = H.method w.request

  -- Request
  abbrev pub http_request : World H L → HttpRequest
  http_request w = record { method = method_of w; url_path = path_of w }

  -- GetRequestID, which makes none
  abbrev pub get_request_id : World H L → String
  get_request_id w = w.request_id

  -- SetStatus
  abbrev pub set_status : ℤ → World H L → World H L
  set_status code = on_response H L (H.set_status code)

  module _ (X : Extras H) where
    -- Cookie
    abbrev pub cookie : String → World H L → String
    cookie name w = X.cookie name w.request

    -- SetCookie
    abbrev pub set_cookie : X.Cookie → World H L → World H L
    set_cookie c = on_response H L (X.set_cookie c)

    -- Param
    abbrev pub param : String → World H L → String
    param name w = X.param name w.request

    -- QueryParam
    abbrev pub query_param : String → World H L → String
    query_param name w = X.query_param name w.request
