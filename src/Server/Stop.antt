-- ===== src/Server/Stop.antt =====
-- Server.Stop (server_stop.go): three goroutines, the one that waits for them, and the deadline, as
-- a step relation. What fasthttp's server, the collector and the logger answer is open: each call
-- may succeed or fail with any error. activeConns is never filled, so that drainWebSockets has no
-- connection to write to; it is a goroutine that only ends.
use Prim.Native.String
use r.Common.{
  ℕ, ◌-◌, ◌<◌, ◌≡◌, String, Bool, true, false, Option, none, some, List, [], ◌∷◌, ◌++◌, length,
  if◌then◌else◌,
}

-- `make(chan error, 3)`
abbrev pub err_capacity : ℕ
err_capacity = 3

-- A goroutine: it has calls left to make, each with the text of its error; or it has an error to
-- send first; or it has called wg.Done.
pub data Task : Type 0 where
  running : List String → Task
  sending : String → List String → Task
  finished : Task

-- errCh and its state, the WaitGroup's counter; `crashed` says that a goroutine has sent on the
-- closed channel.
pub record Shared : Type 0 where
  pub errors : List String
  pub closed : Bool
  pub wg : ℕ
  pub crashed : Bool

-- How Stop returns.
pub data Result : Type 0 where
  success : Result
  failed : List String → Result
  timed_out : Result

-- The goroutines of shutdownHTTP, drainWebSockets and cleanupResources; whether the channel `done`
-- is closed and the deadline has passed; and what Stop has returned.
pub record Stopping : Type 0 where
  pub http : Task
  pub drain : Task
  pub cleanup : Task
  pub shared : Shared
  pub done : Bool
  pub expired : Bool
  pub result : Option Result

-- shutdownHTTP
abbrev pub shutdown_http : Task
shutdown_http = running ("HTTP server shutdown error" ∷ [])

-- drainWebSockets
abbrev pub drain_web_sockets : Task
drain_web_sockets = running []

-- cleanupResources, with a collector or none, and a logger that has Sync or one that has not
abbrev pub cleanup_resources : Bool → Bool → Task
cleanup_resources metrics syncer =
    let sync : List String = if syncer then "logger sync error" ∷ [] else [] in
    running (if metrics then "metrics collector shutdown error" ∷ sync else sync)

-- Stop up to its select.
abbrev pub start_stop : Bool → Bool → Stopping
start_stop metrics syncer = record {
  http = shutdown_http;
  drain = drain_web_sockets;
  cleanup = cleanup_resources metrics syncer;
  shared = record { errors = []; closed = false; wg = 3; crashed = false };
  done = false;
  expired = false;
  result = none;
}

-- `fmt.Errorf("...: %w", err)`
abbrev pub wrap_error : String → String → String
wrap_error label error = String.◌++◌ label (String.◌++◌ ": " error)

-- What a goroutine may do next, with the errors that this adds.
pub data Acts : Task → Shared → List String → Task → Shared → Type 0 where
  succeeds :
      (label : String) (rest : List String) (sh : Shared)
      → Acts (running (label ∷ rest)) sh [] (running rest) sh
  fails :
      (label error : String) (rest : List String) (sh : Shared)
      → Acts
          (running (label ∷ rest))
          sh
          (wrap_error label error ∷ [])
          (sending (wrap_error label error) rest)
          sh
  sends :
      (text : String) (rest : List String) (sh : Shared)
      → length sh.errors < err_capacity
      → sh.closed ≡ false
      → Acts
          (sending text rest)
          sh
          []
          (running rest)
          (record sh { errors = sh.errors ++ (text ∷ []) })
  crashes :
      (text : String) (rest : List String) (sh : Shared)
      → sh.closed ≡ true
      → Acts (sending text rest) sh [] finished (record sh { crashed = true })
  ends : (sh : Shared) → Acts (running []) sh [] finished (record sh { wg = sh.wg - 1 })

-- What Stop makes of the errors that it finds in the channel.
abbrev pub outcome : List String → Result
outcome [] = success
outcome (e ∷ es) = failed (e ∷ es)

abbrev pub close_errors : Shared → Shared
close_errors sh = record sh { closed = true }

-- A step of the whole: of one of the goroutines, of the one that waits, of the clock, or of the
-- select of Stop, whose two cases may both be ready.
pub data Step : Stopping → List String → Stopping → Type 0 where
  http_acts :
      {t : Task} {sh : Shared} {es : List String} (s : Stopping)
      → Acts s.http s.shared es t sh
      → Step s es (record s { http = t; shared = sh })
  drain_acts :
      {t : Task} {sh : Shared} {es : List String} (s : Stopping)
      → Acts s.drain s.shared es t sh
      → Step s es (record s { drain = t; shared = sh })
  cleanup_acts :
      {t : Task} {sh : Shared} {es : List String} (s : Stopping)
      → Acts s.cleanup s.shared es t sh
      → Step s es (record s { cleanup = t; shared = sh })
  waits : (s : Stopping) → s.shared.wg ≡ 0 → s.done ≡ false → Step s [] (record s { done = true })
  expires : (s : Stopping) → Step s [] (record s { expired = true })
  times_out :
      (s : Stopping)
      → s.expired ≡ true
      → s.result ≡ none
      → Step s [] (record s { result = some timed_out })
  collects :
      (s : Stopping)
      → s.done ≡ true
      → s.result ≡ none
      → Step s []
          (record s { shared = close_errors s.shared; result = some (outcome s.shared.errors) })

-- The runs from one state to another, with the errors that there were.
pub data Steps : Stopping → List String → Stopping → Type 0 where
  stay : (s : Stopping) → Steps s [] s
  onward :
      {s t u : Stopping} {fs es : List String} → Steps s fs t → Step t es u → Steps s (fs ++ es) u
