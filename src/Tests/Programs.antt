-- ===== src/Tests/Programs.antt =====
-- The example programs at a concrete request.
use r.Http.{World}
use r.Middleware.{install_limiter}
use r.Examples.Burst.{count_ok, visit, burst_of_protected}
use r.Common.{
  ◌≤◌, true, ℕ, false, if◌then◌else◌, ltb, String, ◌≡◌, refl, Option, none, some, List, [], ◌∷◌,
  get_elem?,
}
use r.Common.Int.{pos}
use r.Chain.{Handler, Context, returned, run_wrapped}
use r.Chain.Onion.{leaf}
use r.Limiter.{new_default_rate_limiter, Limiter}
use r.Router.{RouterImpl, Site, wrapped}
use r.Examples.{Message, W, first_limiter, second_limiter, protected, middleware_main}
use r.Examples.Protected.{Judged, protected_lem}
use r.Examples.Service.{Surroundings}
use r.Examples.Service.Answers.{OnRoute, service_lem}
use r.Examples.Chat.{
  client_connected, received_message, failed_to_write, client_disconnected, converse,
  chat_never_echoes,
}
use r.Ws.Connection.{on_connect, notice, limiter, new_connection}
use r.Ws.Manager.{Manager}
use r.Ws.Pump.{Incoming, frame, Kind, read_error, read_pump, read_message_with_limit}
use r.Tests.Sockets.{patient}
use r.Tests.Limits.{whole-IsOrdered, whole-IsExact, whole}
use r.Tests.Middlewares.{plain_http, laws, host, outside}
use r.Tests.Buckets.{provider, world}

abbrev first_text : Message → Option String
first_text reply = some reply.message

protected_lem_example :
    (s : Site (Handler (W plain_http whole host provider first_text))) × (group' : RouterImpl
      (Handler (W plain_http whole host provider first_text)))
    × (d : Context (W plain_http whole host provider first_text)) × (middleware_main plain_http
          whole host provider first_text
        ≡ some s)
    × (get_elem? s.served 1
        ≡ some (record {
          method = "GET";
          path = "/api/protected";
          endpoint = wrapped 1 (leaf (protected plain_http whole host provider first_text) ∷ []);
        }))
    × (get_elem? s.routers 1 ≡ some group')
    × (run_wrapped group'.middleware
          (leaf (protected plain_http whole host provider first_text))
          world
        ≡ returned d)
    × (second_limiter whole ≡ first_limiter whole)
    × Judged whole host provider first_text laws world d.world
protected_lem_example = protected_lem whole host provider first_text laws world refl

-- A checker that finds something from time 100 on.
abbrev ill_later : Surroundings
ill_later = record {
  environment = "test";
  encode = λ reply. none;
  show = λ n. "0";
  check = λ now. if ltb now 100 then none else some "down";
  get_metrics = λ now. record { total_messages = 0; error_messages = 0 };
}

service_lem_example :
    OnRoute plain_http
      (Limiter ℕ)
      outside
      ill_later
      world
      0
      "GET"
      "/ping"
      (λ v. (plain_http.status v.response ≡ pos 200) × (plain_http.body v.response ≡ "pong"))
    × OnRoute plain_http
        (Limiter ℕ)
        outside
        ill_later
        world
        1
        "GET"
        "/error"
        (λ v. plain_http.status v.response ≡ pos 500)
    × OnRoute plain_http
        (Limiter ℕ)
        outside
        ill_later
        world
        2
        "POST"
        "/api/data"
        (λ v. plain_http.status v.response ≡ pos 200)
    × OnRoute plain_http
        (Limiter ℕ)
        outside
        ill_later
        world
        4
        "GET"
        "/api/v1/status"
        (λ v. plain_http.status v.response ≡ pos 200)
service_lem_example = service_lem laws outside ill_later world (λ e s. refl)

-- Two messages of a client, and the end of its connection.
abbrev arrivals : List Incoming
arrivals =
    frame Kind.text (record { bytes = 1 ∷ 2 ∷ []; failure = none })
    ∷ frame Kind.binary (record { bytes = 3 ∷ []; failure = none })
    ∷ read_error
    ∷ []

abbrev no_conns : Manager
no_conns = record {
  connections = [];
  active_conns = pos 0;
  max_conns = pos 3;
  metrics = false;
  recorded = [];
  sent = [];
}

chat_never_echoes_example :
    let c = notice on_connect (new_connection "a" 5 true false) in
    let calls = (read_pump (λ _. false) 2 arrivals (c, no_conns)).0.notices in
    let after =
      converse patient "10.0.0.1" calls
        (record { conn = new_connection "a" 5 true false; lines = [] }) in
    (after.conn.write_buffer ≡ some [])
    × (after.lines
        ≡ client_connected "a" "10.0.0.1"
          ∷ received_message "a" 2
          ∷ failed_to_write (limiter "context deadline exceeded") "a"
          ∷ received_message "a" 1
          ∷ failed_to_write (limiter "context deadline exceeded") "a"
          ∷ client_disconnected "a"
          ∷ [])
unfolding read_message_with_limit
chat_never_echoes_example =
    chat_never_echoes patient "10.0.0.1" "context deadline exceeded" "a" 5 2 arrivals no_conns refl

abbrev at_start : World plain_http (Limiter ℕ)
unfolding first_limiter install_limiter new_default_rate_limiter
at_start = record world { limiter = first_limiter whole }

burst_of_protected_example : count_ok (visit whole host provider first_text 120 at_start) ≤ 50
unfolding first_limiter install_limiter new_default_rate_limiter
burst_of_protected_example =
    burst_of_protected whole host provider first_text laws whole-IsOrdered whole-IsExact 120
      at_start refl (refl, refl)
