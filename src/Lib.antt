-- ===== src/Lib.antt =====
-- The web framework `r` (package r, on fasthttp and fasthttp-routing).
--
-- A server hands each request to the router (router_serve_http.go), which finds the route
-- (fasthttp-routing), makes a context for it (content_impl.go) and runs the route's chain: the
-- router's middleware, then the handler. Middleware such as the circuit breaker and the rate
-- limiter guards the chain; the collector of metrics and the logger are told what happens. A
-- websocket route leaves the chain: its connection has pumps of its own and a manager.
--
-- Chain models the handler chain: Context.Next of r.go, Abort and its relatives of context.go, and
-- the building of a route's chain in router_wrap_handlers.go. A HandlerFunc is arbitrary code; here
-- it is a program over what it can do with its Context (`Handler`), with all else that it changes
-- in a type `W`. The loop of Next takes fuel, one round for each handler and one more, which is
-- shown to be enough for every chain of handlers.
-- Chain/Onion says what a chain of the usual shapes of middleware computes, Chain/Child what Next
-- does on a context that WithTimeout has made.
-- Breaker models circuit_braker.go: the state of a CircuitBreaker with its counters as 64-bit
-- numbers that wrap round, and each operation with the calls that it makes of the collector of
-- metrics. Times are nanoseconds since 1970, below 2^63. Each operation is taken as one step.
-- Breaker/Status has GetStatus and MonitorState, which only read it.
-- Guard models middleware_circuit_breaker.go: the map of breakers by endpoint, and a request on it.
-- Guard/Around has it as a handler in a chain, and Guard/Chained and Guard/Outage what it does
-- there.
-- Limiter models middleware_rate_limiter.go: token buckets (Limiter), the simple local limiter and
-- the one on Redis (Limiter/Local), quota, statistics, Reset and the clean-up (Limiter/Quota), and
-- bursts of requests (Limiter/Burst).
-- float64 is an interface (Common/Float), whose laws a theorem names where it needs them, and so is
-- the Redis client.
-- Http models the accessors of request and response (context.go, r.go) over an interface of
-- fasthttp (`Fasthttp`, with its documented laws in Http/Laws; Http/Access has those that only
-- pass on), and the world that the handlers of a chain share. Middleware models middleware.go:
-- each middleware but Recovery, which may run a handler of its own, is a layer of Chain/Onion,
-- whose meaning is a function on worlds, and the theorems put these layers into a chain
-- (Middleware/Limit, Cross and Stack; Panics has Recovery, and Buckets RateLimit over the token
-- buckets of Limiter). Timeout, whose goroutine runs beside the select, is a step relation
-- (Middleware/Timeout, with its invariant in Timeout/Inv and its theorems in Expiry).
-- Middleware/Provider makes a provider from its options.
-- Server models NewServer and Start of server.go (Server/Config), server_build_handler.go and
-- ServeHTTP of server.go on a found route (Server/Handler) and Stop of server_stop.go as a step
-- relation with the channel of errors, the WaitGroup and the deadline (Server/Stop, with its
-- invariant in Server/Books).
-- Request models the life of a ContextImpl: context.go, content_impl.go and context_cleanup.go,
-- with the pool of contexts as a list of pointers (Request/Pool), and WithTimeout
-- (Request/Timeouts).
-- Router models router.go, router_add_route_metadata.go, Group and Use of r.go; Router/Table has
-- many registrations on one router. Router/Serve models
-- router_serve_http.go, Router/Traffic route_metrics.go, Router/Rewrite the rewriting of paths of
-- static files, and Router/Unmatched the handlers of requests without a route. Groups and routes
-- hold pointers to routers, so that a change of a router's middleware is seen where it is shared.
-- Ws models the websocket side: the circular buffer of messages (Ws/Buffer, with a queue as its
-- specification in Ws/Buffer/Fifo), writing (Ws/Connection,
-- ws_write_message.go), opening (Ws/Session, with WS of r.go), the connection
-- manager and its clean-up (Ws/Manager, ws_connection_cleanup.go), and the two pumps (Ws/Pump,
-- ws_read_pump.go and ws_write_pump.go), all with ws.go. What arrives and what wakes a pump is a
-- list, and the pumps recurse on it.
-- Metrics models metrics.go, the default collector (Metrics/Entries has its tags as maps, a
-- quotient of their lists of entries), and Log models log.go with its pool of maps.
-- Examples models the programs under examples/: the router and the handlers of
-- examples/middleware/main.go and examples/complete_example/main.go, with their two rate limits
-- (Examples/Protected, and Examples/Burst on many requests at one time); the service of
-- examples/main.go through the final handler (Examples/Service); and the chat handler of their
-- websocket (Examples/Chat).
-- Common holds numbers, lists, maps, texts and sorting; Tests runs the models on concrete inputs.
--
-- Not modelled: the parsing, matching and encoding that fasthttp, fasthttp-routing, websocket and
-- encoding/json do, and the contexts of the standard library. The clock stands still while a
-- middleware works. Data races between operations that take no lock are outside, but for the two
-- step relations: operations follow one another.
pub mod Common
pub mod Chain
pub mod Metrics
pub mod Breaker
pub mod Ws
pub mod Limiter
pub mod Log
pub mod Request
pub mod Router
pub mod Guard
pub mod Http
pub mod Middleware
pub mod Server
pub mod Examples
pub mod Tests
