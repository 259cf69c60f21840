-- ===== src/Server/Config.antt =====
-- The configuration of a server (Config and DefaultConfig of r.go) and what server.go makes of it:
-- NewServer, Start, WithLogger and WithMetricsCollector. A duration is in nanoseconds. A router is
-- given by its site and its place there.
use r.Common.{
  ℕ, ◌*◌, String, Bool, true, ◌&&◌, not, Option, none, some, if◌then◌else◌, str_eq, get_elem?,
}
use r.Common.Int.{ℤ, pos}
use r.Router.{RouterImpl, Site, new_router, panic_handler, context_bound}

pub record WsSettings : Type 0 where
  pub handshake_timeout : ℤ
  pub read_buffer_size : ℤ
  pub write_buffer_size : ℤ
  pub enable_compression : Bool

-- A router is a site and a place; `handler` is none if it is nil. TLSConfig is not read by anything.
pub record Config (H : Type 0) : Type 0 where
  pub read_timeout : ℤ
  pub write_timeout : ℤ
  pub idle_timeout : ℤ
  pub max_request_body_size : ℤ
  pub cert_file : String
  pub key_file : String
  pub ws_config : WsSettings
  pub handler : Option (ℕ × Site H)

abbrev pub one_second : ℕ
one_second = 1000000000

-- DefaultConfig
unfoldable pub default_config : {H : Type 0} → Config H
default_config = record {
  read_timeout = pos (15 * one_second);
  write_timeout = pos (15 * one_second);
  idle_timeout = pos (60 * one_second);
  max_request_body_size = pos (4 * 1048576);
  cert_file = "";
  key_file = "";
  ws_config = record {
    handshake_timeout = pos (10 * one_second);
    read_buffer_size = pos 4096;
    write_buffer_size = pos 4096;
    enable_compression = true;
  };
  handler = none;
}

-- The fields of a fasthttp.Server that Start sets; its handler is that of BuildHandler.
pub record FasthttpServer : Type 0 where
  pub read_timeout : ℤ
  pub write_timeout : ℤ
  pub idle_timeout : ℤ
  pub max_request_body_size : ℤ

-- `L` and `M` are loggers and collectors of metrics. `router` is the place of the router in `site`.
pub record ServerImpl (H L M : Type 0) : Type 0 where
  pub server : Option FasthttpServer
  pub router : ℕ
  pub site : Site H
  pub config : Config H
  pub shutdown_timeout : ℤ
  pub metrics_collector : M
  pub logger : L

-- How Start listens: with TLS under two files, or without.
pub data Listening : Type 0 where
  listen_and_serve_tls : String → String → String → Listening
  listen_and_serve : String → Listening

module _ {H : Type 0} where
  -- `if config.Handler == nil { config.Handler = NewRouter() }`
  abbrev pub router_of : Option (ℕ × Site H) → ℕ × Site H
  unfolding new_router
  router_of none = (0, new_router)
  router_of (some router) = router

  -- `s.router.PanicHandler(…)` at a place, with a handler that calls AbortWithError of its Context
  abbrev pub set_panic_handler : ℕ → Site H → Site H
  unfolding panic_handler
  set_panic_handler i s = at (get_elem? s.routers i)
    where
      at : Option (RouterImpl H) → Site H
      at none = s
      at (some router) = panic_handler context_bound i router s

module _ {H L M : Type 0} where
  -- NewServer, with the default logger and the default collector
  unfoldable pub new_server : L → M → Config H → ServerImpl H L M
  new_server default_logger default_metrics config =
      let router = router_of config.handler in
      record {
        server = none;
        router = router.0;
        site = set_panic_handler router.0 router.1;
        config = record config { handler = some router };
        shutdown_timeout = pos (30 * one_second);
        metrics_collector = default_metrics;
        logger = default_logger;
      }

  -- WithLogger
  abbrev pub with_logger : L → ServerImpl H L M → ServerImpl H L M
  with_logger logger s = record s { logger = logger }

  -- WithMetricsCollector
  abbrev pub with_metrics_collector : M → ServerImpl H L M → ServerImpl H L M
  with_metrics_collector collector s = record s { metrics_collector = collector }

  -- Start, up to the call that listens
  unfoldable pub start : String → ServerImpl H L M → Listening × ServerImpl H L M
  start address s =
      let config = s.config in
      let server : FasthttpServer = record {
        read_timeout = config.read_timeout;
        write_timeout = config.write_timeout;
        idle_timeout = config.idle_timeout;
        max_request_body_size = config.max_request_body_size;
      } in
      (
        if not (str_eq config.cert_file "") && not (str_eq config.key_file "")
            then listen_and_serve_tls address config.cert_file config.key_file
            else listen_and_serve address,
        record s { server = some server },
      )
