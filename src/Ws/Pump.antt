-- ===== src/Ws/Pump.antt =====
-- The two loops of a connection: readPump (ws_read_pump.go) and writePump (ws_write_pump.go), with
-- handleMessageError (ws.go) and the configuration of ws_config.go.
--
-- What arrives on the socket, and what wakes the write pump, are lists of events; a list that ends
-- leaves the pump waiting.
pub mod Read
pub mod Ping
use r.Common.{
  ℕ, suc, ◌+◌, ◌*◌, ◌%◌, String, Bool, true, false, Option, none, some, List, [], ◌∷◌, ◌++◌, length,
  take, leb, ltb, ◌&&◌, if◌then◌else◌,
}
use r.Common.Int.{two_64}
use r.Ws.Buffer.{Bytes}
use r.Ws.Connection.{
  Connection, WsState, closed, Notice, on_message, on_error, notice, WriteError, Wait,
  write_message,
}
use r.Ws.Manager.{Manager, close}

-- wsConfig; durations in nanoseconds.
pub record WsConfig : Type 0 where
  pub read_limit : ℕ
  pub read_timeout : ℕ
  pub write_timeout : ℕ
  pub ping_interval : ℕ
  pub pong_wait : ℕ

unfoldable pub default_ws_config : WsConfig
default_ws_config = record {
  read_limit = 10 * 1024 * 1024;
  read_timeout = 5 * 1000000000;
  write_timeout = 10 * 1000000000;
  ping_interval = 54 * 1000000000;
  pong_wait = 5 * 1000000000;
}

-- What a reader gives: its bytes, and then an error or the end.
pub record Reader : Type 0 where
  pub bytes : Bytes
  pub failure : Option String

pub data ReadResult : Type 0 where
  complete : Bytes → ReadResult
  failed : String → ReadResult
  too_big : ReadResult

-- `io.Copy(buf, io.LimitReader(r, n))`: at most n bytes, and the error if it comes before them.
copy_limited : Reader → ℕ → Bytes × Option String
copy_limited r n = if leb n (length r.bytes) then (take n r.bytes, none) else (r.bytes, r.failure)

check_size : ℕ → Bytes × Option String → ReadResult
check_size limit (bytes, some e) = failed e
check_size limit (bytes, none) = if ltb limit (length bytes) then too_big else complete bytes

-- readMessageWithLimit, for a limit below the largest int64
unfoldable pub read_message_with_limit : Reader → ℕ → ReadResult
unfolding copy_limited check_size
read_message_with_limit r limit = check_size limit (copy_limited r (limit + 1))

pub data Kind : Type 0 where
  text binary other : Kind

pub data Incoming : Type 0 where
  frame : Kind → Reader → Incoming
  close_frame : ℕ → String → Incoming
  read_error : Incoming

-- A connection and its manager.
abbrev pub State : Type 0
State = Connection × Manager

-- handleMessageError: a close frame 1009, OnError where the handler has it, Close.
unfoldable pub handle_message_error : String → State → State
handle_message_error msg (c, cm) =
    let told = record c { controls = c.controls ++ ((1009, msg) ∷ []) } in
    close ((if c.handles_errors then notice (on_error msg) told else told), cm)

abbrev pub is_data : Kind → Bool
is_data other = false
is_data _ = true

-- How processReader ends: the loop goes on, stops, or a panic of OnMessage unwinds it.
pub data Progress : Type 0 where
  go_on stop unwind : State → Progress

abbrev pub count_message : Connection → Connection
count_message c = record c { msg_count = (c.msg_count + 1) % two_64 }

-- The handler's OnMessage panics on the messages that `panics` says.
deliver : (Bytes → Bool) → Bytes → State → Progress
deliver panics bytes (c, cm) =
    let told = notice (on_message bytes) c in
    if c.handler && panics bytes then unwind (told, cm) else go_on (count_message told, cm)

-- What processReader does with what it has read.
on_read : (Bytes → Bool) → Kind → ReadResult → State → Progress
unfolding deliver
on_read panics kind (complete bytes) p = if is_data kind then deliver panics bytes p else go_on p
on_read panics kind (failed e) p = stop (handle_message_error "Failed to read message" p)
on_read panics kind too_big p = stop (handle_message_error "Failed to read message" p)

unfoldable pub process_reader : (Bytes → Bool) → Reader → Kind → ℕ → State → Progress
unfolding on_read
process_reader panics r kind limit p = on_read panics kind (read_message_with_limit r limit) p

-- The close handler that setupReadHandlers sets.
abbrev pub on_close_frame : ℕ → String → State → State
on_close_frame code reason (c, cm) =
    (record c { close_code = code; close_reason = reason; state = closed }, cm)

-- readPump. Each way out of the loop goes through recoverAndClose.
unfoldable pub read_pump : (Bytes → Bool) → ℕ → List Incoming → State → State
read_pump panics limit [] p = p
read_pump panics limit (frame kind r ∷ rest) p = elim (process_reader panics r kind limit p) [
  | go_on p' ↦ read_pump panics limit rest p'
  | stop p' ↦ close p'
  | unwind p' ↦ close p'
]
read_pump panics limit (close_frame code reason ∷ rest) p = close (on_close_frame code reason p)
read_pump panics limit (read_error ∷ rest) p = close p

-- What wakes the write pump: the channel `send`, closed or with a message, the ticker, `closeCh`.
pub data Wake : Type 0 where
  outgoing : Option Bytes → Wake
  tick : Wake
  close_signal : Wake

-- sendCloseMessage: a close frame 1000.
abbrev pub send_close_message : Connection → Connection
send_close_message c = record c { controls = c.controls ++ ((1000, "") ∷ []) }

-- processSendMessage: the error of the write is dropped.
unfoldable pub process_send_message : Wait → Option Bytes → Connection → Connection
process_send_message wait none c = send_close_message c
process_send_message wait (some bytes) c = (write_message wait 1 bytes c).1

-- sendPing: a write of no bytes.
unfoldable pub send_ping : Wait → Connection → Option WriteError × Connection
send_ping wait c = write_message wait 9 [] c

-- writePump, where each event comes with the limiter's word at its time. Each way out goes through
-- cleanupWritePump, which closes.
unfoldable pub write_pump : List (Wait × Wake) → State → State
write_pump [] p = p
write_pump ((wait, outgoing msg) ∷ rest) (c, cm) =
    write_pump rest (process_send_message wait msg c, cm)
write_pump ((wait, tick) ∷ rest) (c, cm) =
    let (answer, c') = send_ping wait c in
    elim answer [ none ↦ write_pump rest (c', cm) | some e ↦ close (c', cm) ]
write_pump ((wait, close_signal) ∷ rest) p = close p
