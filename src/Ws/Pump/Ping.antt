-- ===== src/Ws/Pump/Ping.antt =====
-- The ping of the write pump (ws_write_pump.go) on a connection as NewWSConn (ws.go) makes it.
use r.Common.{ℕ, ◌≡◌, refl, ap, String, Bool, true, false, Option, some, List, ◌∷◌, arith}
use r.Common.Int.{pos}
use r.Ws.Connection.{Connection, closed, WriteError, limiter, Wait, write_message, new_connection}
use r.Ws.Manager.{Manager, remove, close}
use r.Ws.Pump.{Wake, tick, send_ping, write_pump}

ping-refused :
    (wait : Wait) (e : String) (id : String) (now : ℕ) (handler errors : Bool)
    → wait (pos 0) ≡ some e
    → send_ping wait (new_connection id now handler errors)
      ≡ (some (limiter e), new_connection id now handler errors)
unfolding send_ping write_message new_connection
ping-refused wait e id now handler errors w = ground arith

pump-tick :
    (wait : Wait) (rest : List (Wait × Wake)) (c c' : Connection) (cm : Manager) (e : WriteError)
    → send_ping wait c ≡ (some e, c')
    → write_pump ((wait, tick) ∷ rest) (c, cm) ≡ close (c', cm)
unfolding write_pump
pump-tick wait rest c c' cm e h =
    rw (h, write_pump) (ap (λ (p : Option WriteError × Connection). close (p.1, cm)) h)

closed-new :
    (id : String) (now : ℕ) (handler errors : Bool) (cm : Manager)
    → let (c, cm') = close (new_connection id now handler errors, cm) in
      (c.state ≡ closed) × (c.socket ≡ false) × (cm' ≡ remove id cm)
unfolding close new_connection
closed-new id now true errors cm = (refl, refl, refl)
closed-new id now false errors cm = (refl, refl, refl)

-- The write deadline of a new connection is zero. If the limiter refuses to wait under a context
-- that has already expired, the first tick of the write pump ends it: the ping is refused, the
-- connection is closed with its socket, and the manager has removed it, whatever would come next.
first_ping_closes :
    (wait : Wait) (e : String) (rest : List (Wait × Wake)) (id : String) (now : ℕ)
    (handler errors : Bool) (cm : Manager)
    → wait (pos 0) ≡ some e
    → let (c, cm') = write_pump ((wait, tick) ∷ rest) (new_connection id now handler errors, cm) in
      (c.state ≡ closed) × (c.socket ≡ false) × (cm' ≡ remove id cm)
first_ping_closes wait e rest id now handler errors cm w =
    rw
      (pump-tick wait rest (new_connection id now handler errors)
        (new_connection id now handler errors) cm (limiter e)
        (ping-refused wait e id now handler errors w))
      (closed-new id now handler errors cm)
