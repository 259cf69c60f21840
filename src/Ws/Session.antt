-- ===== src/Ws/Session.antt =====
-- A websocket from its upgrade on: NewWSConn (ws.go) and the closure that WS (r.go) runs on it.
use r.Common.{ℕ, ◌≤◌, ◌<◌, ◌≡◌, refl, String, Bool, Option, none, some, length}
use r.Common.Int.{pos_part}
use r.Common.Maps.{load}
use r.Ws.Connection.{Connection, on_connect, notice, new_connection}
use r.Ws.Manager.{Manager, add}
use r.Ws.Manager.Books.{IsValid, Added, AddOutcome, add_lem}

-- What NewWSConn returns once the manager has answered: the connection, announced to its handler,
-- or nil when the manager has refused it and the socket is closed.
abbrev pub opened : Connection → Manager → Option Manager → Option Connection × Manager
opened c cm none = (none, cm)
opened c cm (some cm') = (some (notice on_connect c), cm')

-- NewWSConn with the manager that there is, up to the start of the pumps
unfoldable pub new_ws_conn : String → ℕ → Bool → Bool → Manager → Option Connection × Manager
new_ws_conn id now handler handles_errors cm =
    let c = new_connection id now handler handles_errors in opened c cm (add c cm)

-- The closure of WS waits for the end of the connection, or dereferences nil at `wsConn.closeCh`.
pub data Session : Type 0 where
  waiting : Connection → Session
  nil_dereference : Session

abbrev pub wait_for_close : Option Connection → Session
wait_for_close none = nil_dereference
wait_for_close (some c) = waiting c

-- The closure of WS, after the upgrade
unfoldable pub ws_session : String → ℕ → Bool → Bool → Manager → Session × Manager
unfolding new_ws_conn
ws_session id now handler handles_errors cm =
    let (conn, cm') = new_ws_conn id now handler handles_errors cm in (wait_for_close conn, cm')

module _ (id : String) (now : ℕ) (handler handles_errors : Bool) where
  abbrev conn : Connection
  conn = new_connection id now handler handles_errors

  abbrev pub SessionOutcome : Manager → Session × Manager → Type 0
  SessionOutcome cm (waiting c, cm') =
      (length cm.connections < pos_part cm.max_conns)
      × (c ≡ notice on_connect conn)
      × Added conn cm cm'
  SessionOutcome cm (nil_dereference, cm') =
      (pos_part cm.max_conns ≤ length cm.connections) × (cm' ≡ cm)

  answered :
      (cm : Manager) (answer : Option Manager)
      → AddOutcome conn cm answer
      → let (c, cm') = opened conn cm answer in SessionOutcome cm (wait_for_close c, cm')
  answered cm none full = (full, refl)
  answered cm (some cm') (room, added) = (room, refl, added)

  -- A websocket under a new id, with a manager that is in order: below the limit the connection is in
  -- the manager's map, is announced to its handler once, and the route waits for its end; at the
  -- limit the manager is unchanged and the route dereferences a nil connection.
  pub ws_session_lem :
      (cm : Manager)
      → IsValid cm
      → load cm.connections id ≡ none
      → SessionOutcome cm (ws_session id now handler handles_errors cm)
  unfolding ws_session new_ws_conn new_connection
  ws_session_lem cm v fresh = answered cm (add conn cm) (add_lem conn cm v fresh)
