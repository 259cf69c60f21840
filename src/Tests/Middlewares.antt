-- ===== src/Tests/Middlewares.antt =====
-- The middleware of middleware.go at concrete requests.
use Prim.Native.String
use r.Common.{
  false, ℕ, ◌-◌, ◌≡◌, refl, String, true, none, some, List, [], ◌∷◌, map, if◌then◌else◌, ltb,
}
use r.Common.Int.{ℤ, pos, sub_ℕ}
use r.Chain.{Context, returned, run_wrapped}
use r.Chain.Onion.{layer_handler, leaf, onion}
use r.Chain.Recovery.{panicker}
use r.Http.{Fasthttp, World, is_web_socket, real_ip}
use r.Http.Names.{same_name, same_fold}
use r.Http.Laws.{IsFasthttp, value_after}
use r.Middleware.{accepts_gzip, Host, RateLimiter, StandardMiddleware, cors, is_allowed}
use r.Server.Handler.{
  server_serve_http, Outside, prepare_request_context, route_context, build_handler,
}
use r.Server.Answers.{server_serve_http-build_handler, Answered, build_handler-Answered}
use r.Middleware.Cross.{IsPreflight, cors_lem}
use r.Middleware.Panics.{IsRecovered, recovery_with, recovery_lem}
use r.Middleware.Stack.{stack, all_headers, line_of, stack_rejects}

-- A request by its method, its path and its headers.
pub record Message : Type 0 where
  method : String
  path : String
  headers : List (String × String)

pub record Answer : Type 0 where
  headers : List (String × String)
  status : ℤ
  body : String

abbrev pub blank_answer : Answer
blank_answer = record { headers = []; status = pos 200; body = "" }

-- The latest value for a name.
abbrev lookup : List (String × String) → String → String
lookup [] name = ""
lookup (entry ∷ hs) name =
    let rest = lookup hs name in if same_name entry.0 name then entry.1 else rest

abbrev pub plain_http : Fasthttp
plain_http = record {
  Request = Message;
  Response = Answer;
  peek = λ name q. lookup q.headers name;
  method = λ q. q.method;
  path = λ q. q.path;
  remote_ip = λ q. "0.0.0.0";
  header = λ name s. lookup s.headers name;
  set_header = λ name value s. record s { headers = (name, value) ∷ s.headers };
  status = λ s. s.status;
  set_status = λ code s. record s { status = code };
  body = λ s. s.body;
  set_body = λ text s. record s { body = text };
  append_body = λ text s. record s { body = String.◌++◌ s.body text };
}

pub plain_http-IsFasthttp : IsFasthttp plain_http
plain_http-IsFasthttp = record {
  stored = λ value. value;
  header-set_header = λ key value other s p. refl;
  header-set_status = λ other code s. refl;
  header-set_body = λ other text s. refl;
  status-set_header = λ key value s p. refl;
  status-set_status = λ code s p. refl;
  status-set_body = λ text s. refl;
  body-set_header = λ key value s p. refl;
  body-set_status = λ code s. refl;
  body-set_body = λ text s. refl;
}

-- A limiter that allows a number of requests in all.
abbrev tokens : RateLimiter ℕ
tokens = record {
  allow = λ key now left. (ltb 0 left, left - 1);
  get_quota = λ key now left. (pos left, pos 5000000000);
}

abbrev pub host : Host
host = record {
  uuid = λ n. "id";
  show = λ n. "n";
  seconds = λ d. d;
  rfc3339 = λ now. "now";
  encode = λ reply. some "{}";
  stack = "stack";
  app_env = "production";
}

abbrev provider : StandardMiddleware plain_http ℕ
provider = record { logger = true; metrics = true; security = none }

abbrev world_of : Message → ℕ → World plain_http ℕ
world_of q left = record {
  request = q;
  response = blank_answer;
  request_id = "";
  uuids = 0;
  now = 3000000000;
  limiter = left;
  calls = [];
  lines = [];
}

abbrev hello : World plain_http ℕ → World plain_http ℕ
hello w = record w { response = record w.response { body = "hello" } }

abbrev pub get : Message
get = record { method = "GET"; path = "/"; headers = ("x-real-ip", "10.0.0.1") ∷ [] }

abbrev ask : Message
ask = record { method = "OPTIONS"; path = "/"; headers = ("Origin", "https://a") ∷ [] }

abbrev upgrade : Message
upgrade = record { method = "GET"; path = "/ws"; headers = ("upgrade", "WebSocKet") ∷ [] }

real_ip_run : real_ip plain_http get ≡ "10.0.0.1"
unfolding real_ip same_name same_fold
real_ip_run = refl

accepts_gzip_run : accepts_gzip "deflate, gzip" ≡ true
unfolding accepts_gzip
accepts_gzip_run = refl

is_web_socket_run : is_web_socket plain_http upgrade ≡ true
unfolding is_web_socket same_name same_fold
is_web_socket_run = refl

abbrev pub laws : IsFasthttp plain_http
laws = plain_http-IsFasthttp

cors_lem_example :
    let w = world_of ask 1 in
    (d : Context (World plain_http ℕ)) × (run_wrapped
        (map layer_handler (cors plain_http ℕ host provider ("*" ∷ []) ∷ []))
        (leaf hello)
        w
      ≡ returned d)
    × (v : World plain_http ℕ) × (d.world ≡ onion [] hello v)
    × IsPreflight host provider laws w v
unfolding is_allowed same_name same_fold
cors_lem_example = cors_lem host provider laws ("*" ∷ []) [] hello (world_of ask 1)

recovery_lem_example :
    let w = world_of get 1 in
    (d : Context (World plain_http ℕ)) × (run_wrapped
        (recovery_with plain_http ℕ host provider none
          ∷ panicker hello "bad"
          ∷ map layer_handler [])
        (leaf hello)
        w
      ≡ returned d)
    × (v : World plain_http ℕ) × (d.world ≡ onion [] hello v)
    × IsRecovered host provider laws "bad" (hello w) v
    × (last : Context (World plain_http ℕ)) × (run_wrapped
          (recovery_with plain_http ℕ host provider none ∷ [])
          (panicker hello "bad")
          w
        ≡ returned last)
    × IsRecovered host provider laws "bad" (hello w) last.world
recovery_lem_example = recovery_lem host provider laws hello "bad" [] hello (world_of get 1)

stack_rejects_example :
    let w = world_of get 0 in
    (d : Context (World plain_http ℕ)) × (run_wrapped
        (map layer_handler (stack host provider laws tokens (pos 5) "" []))
        (leaf hello)
        w
      ≡ returned d)
    × (d.world.response.status ≡ pos 429)
    × (d.world.response.body ≡ "rate limit exceeded")
    × ((name : String)
        → plain_http.header name d.world.response
          ≡ value_after laws.stored
              (all_headers host provider laws tokens (pos 5) "" d.world.request_id w)
              name
              "")
    × (d.world.lines ≡ line_of plain_http ℕ true "" (pos 429) (sub_ℕ w.now w.now) w ∷ [])
    × (d.world.limiter ≡ 0)
    × (d.world.calls ≡ [])
unfolding same_name same_fold
stack_rejects_example =
    stack_rejects host provider laws tokens (pos 5) "" [] hello (world_of get 0) refl refl

abbrev pub outside : Outside plain_http
outside = record {
  uuid = λ n. if ltb n 1 then "first" else "later";
  stack = "stack";
  handle_error = λ error s. record s { status = pos 500; body = error };
  plain_error = λ text code s. record s { status = code; body = text };
  encode_map = λ entries. "{}";
}

build_handler-Answered_example :
    let w = world_of get 1 in
    (d : Context (World plain_http ℕ)) × (build_handler plain_http ℕ outside false []
        (panicker hello "bad")
        w
      ≡ returned d)
    × Answered outside laws false
        (run_wrapped []
          (panicker hello "bad")
          (route_context plain_http ℕ outside (prepare_request_context plain_http ℕ outside w)))
        d.world
build_handler-Answered_example =
    build_handler-Answered outside laws false [] (panicker hello "bad") (world_of get 1)

server_serve_http-build_handler_example :
    server_serve_http plain_http ℕ outside false [] (panicker hello "bad") (world_of get 1)
    ≡ build_handler plain_http ℕ outside false [] (panicker hello "bad") (world_of get 1)
server_serve_http-build_handler_example =
    server_serve_http-build_handler outside laws false [] (panicker hello "bad") (world_of get 1)
