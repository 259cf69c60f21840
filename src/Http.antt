-- ===== src/Http.antt =====
-- Request and response as the handlers see them: the accessors of context.go and r.go.
--
-- fasthttp keeps request and response; it is an interface (`Fasthttp`), as is all else that the
-- accessors take from libraries.
pub mod Names
pub mod Laws
pub mod Access
use Prim.Native.String
use r.Common.{
  ℕ, suc, String, Bool, true, false, ◌&&◌, Option, none, some, List, [], ◌∷◌, ◌++◌, if◌then◌else◌,
  str_eq,
}
use r.Common.Int.{ℤ}
use r.Metrics.Call.{Call}
use Names.{same_fold, fold_code}

-- What the accessors use of fasthttp: `peek` and `header` are the headers of request and response,
-- and `append_body` is a write on the response's BodyWriter.
pub record Fasthttp : Type 1 where
  pub Request : Type 0
  pub Response : Type 0
  pub peek : String → Request → String
  pub method : Request → String
  pub path : Request → String
  pub remote_ip : Request → String
  pub header : String → Response → String
  pub set_header : String → String → Response → Response
  pub status : Response → ℤ
  pub set_status : ℤ → Response → Response
  pub body : Response → String
  pub set_body : String → Response → Response
  pub append_body : String → Response → Response

-- A line of the logger or of the standard output: a request, or an information or an error with its
-- fields.
pub data Line : Type 0 where
  request_line : String → ℤ → ℤ → String → String → Line
  printed_line : String → String → ℤ → ℤ → String → String → Line
  info_line : String → List (String × String) → Line
  error_line : String → List (String × String) → Line

-- What the handlers of a chain share, apart from the chain itself: request and response, the
-- context's requestID, the number of UUIDs made so far, the clock, the rate limiter's state, and what
-- the collector and the logger were told.
pub record World (H : Fasthttp) (L : Type 0) : Type 0 where
  pub request : H.Request
  pub response : H.Response
  pub request_id : String
  pub uuids : ℕ
  pub now : ℕ
  pub limiter : L
  pub calls : List (Call ℕ)
  pub lines : List Line

-- What Stream reads: the pieces, and the error at which the reader ends.
pub record BodyReader : Type 0 where
  pub pieces : List String
  pub failure : Option String

abbrev is_empty : String → Bool
is_empty text = str_eq text ""

module _ (H : Fasthttp) where
  -- RealIP
  unfoldable pub real_ip : H.Request → String
  real_ip q =
      if is_empty (H.peek "X-Real-IP" q)
      then if is_empty (H.peek "X-Forwarded-For" q)
        then if str_eq (H.remote_ip q) "0.0.0.0" then "127.0.0.1" else H.remote_ip q
        else H.peek "X-Forwarded-For" q
      else H.peek "X-Real-IP" q

  -- GetHeader
  unfoldable pub get_header : String → H.Request → H.Response → String
  get_header key q s = if is_empty (H.peek key q) then H.header key s else H.peek key q

  -- IsWebSocket
  unfoldable pub is_web_socket : H.Request → Bool
  unfolding same_fold
  is_web_socket q =
      if is_empty (H.peek "Upgrade" q)
      then false
      else same_fold fold_code (H.peek "Upgrade" q) "websocket"

  -- `c.RequestCtx().Response.SetStatusCode(code)` and `c.RequestCtx().SetStatusCode(code)`, which is
  -- the same call.
  abbrev pub set_both_statuses : ℤ → H.Response → H.Response
  set_both_statuses code s = H.set_status code (H.set_status code s)

  -- ErrorResponse, up to its call of Abort
  unfoldable pub error_response : ℤ → String → H.Response → H.Response
  error_response code msg s = H.set_body msg (set_both_statuses code s)

  -- String
  unfoldable pub string : ℤ → String → H.Response → H.Response
  string code text s = H.set_body text (H.set_status code s)

  -- Redirect
  unfoldable pub redirect : ℤ → String → H.Response → H.Response
  redirect code url s = H.set_status code (H.set_header "Location" url s)

  -- io.Copy to the response's BodyWriter
  unfoldable pub copy : List String → H.Response → H.Response
  copy [] s = s
  copy (piece ∷ pieces) s = copy pieces (H.append_body piece s)

  -- Stream, with the error that it returns
  unfoldable pub stream : ℤ → String → BodyReader → H.Response → Option String × H.Response
  unfolding copy
  stream code content_type reader s = (
    reader.failure,
    copy reader.pieces (H.set_status code (H.set_header "Content-Type" content_type s)),
  )

  -- JSON, where `encode` is the encoder and `none` its error: true if there is none.
  unfoldable pub json : {V : Type 0} → (V → Option String) → ℤ → V → H.Response → Bool × H.Response
  json encode code v s = written (encode v)
    where
      written : Option String → Bool × H.Response
      written none = (false, H.set_status code (H.set_header "Content-Type" "application/json" s))
      written (some text) = (
        true,
        H.set_body text (H.set_status code (H.set_header "Content-Type" "application/json" s)),
      )

module _ (H : Fasthttp) (L : Type 0) where
  abbrev pub on_response : (H.Response → H.Response) → World H L → World H L
  on_response f w = record w { response = f w.response }

  -- SetHeader
  abbrev pub set_header : String → String → World H L → World H L
  set_header key value = on_response (H.set_header key value)

  -- RequestID, which makes an ID if there is none
  unfoldable pub with_request_id : (ℕ → String) → World H L → World H L
  with_request_id uuid w =
      if is_empty w.request_id
      then record w { request_id = uuid w.uuids; uuids = suc w.uuids }
      else w
