-- ===== src/Ws/Connection.antt =====
-- wsConnection (ws.go) and WriteMessage (ws_write_message.go).
pub mod Write
use r.Common.{
  ℕ, ◌+◌, ◌≡◌, ◌≢◌, ◌≤◌, String, Bool, true, false, Option, none, some, List, [], ◌∷◌, ◌++◌, length,
  ltb, if◌then◌else◌,
}
use r.Common.Int.{ℤ, pos, ◌≤ℤ◌}
use r.Metrics.Call.{Counter, Tags}
use r.Ws.Buffer.{Bytes}

-- wsStateActive, wsStateClosing, wsStateClosed
pub data WsState : Type 0 where
  active closing closed : WsState

-- The calls that the connection makes of its WSHandler.
pub data Notice : Type 0 where
  on_connect on_close : Notice
  on_message : Bytes → Notice
  on_error : String → Notice

-- `write_buffer` is the channel writeBuffer, of capacity 1024, `none` if it was never made; `limited`
-- says that rateLimiter is set. `once` is closeOnce, `close_ch` the closed channel closeCh, and
-- `socket` says that the underlying connection is open.
pub record Connection : Type 0 where
  pub id : String
  pub state : WsState
  pub once : Bool
  pub close_ch : Bool
  pub socket : Bool
  pub last_ping : ℕ
  pub msg_count : ℕ
  pub write_buffer : Option (List Bytes)
  pub limited : Bool
  pub write_deadline : ℤ
  pub drop_messages_on_full : Bool
  pub handler : Bool
  pub handles_errors : Bool
  pub metrics : Bool
  pub close_code : ℕ
  pub close_reason : String
  pub notices : List Notice
  -- The close frames that WriteControl was given, code and text.
  pub controls : List (ℕ × String)
  pub sent : List Counter

abbrev pub write_capacity : ℕ
write_capacity = 1024

-- The errors of WriteMessage; `limiter` carries what rateLimiter.Wait says.
pub data WriteError : Type 0 where
  connection_closed not_initialized buffer_full : WriteError
  limiter : String → WriteError

abbrev pub is_active : WsState → Bool
is_active active = true
is_active _ = false

-- `if c.handler != nil { c.handler.… }`
abbrev pub notice : Notice → Connection → Connection
notice n c = if c.handler then record c { notices = c.notices ++ (n ∷ []) } else c

abbrev pub count : String → Tags → Connection → Connection
count name tags c =
    if c.metrics
    then record c { sent = c.sent ++ (record { name = name; tags = tags } ∷ []) }
    else c

abbrev pub increment_buffered_counter : Connection → Connection
increment_buffered_counter c = count "ws.messages.buffered" (("conn_id", c.id) ∷ []) c

abbrev pub increment_dropped_counter : String → Connection → Connection
increment_dropped_counter reason c =
    count "ws.messages.dropped" (("reason", reason) ∷ ("conn_id", c.id) ∷ []) c

-- validateConnection; the connection and its socket object are not nil.
abbrev pub validate_connection : Connection → Option WriteError
validate_connection c = if is_active c.state then none else some connection_closed

-- enqueueMessage. Nobody takes from the channel, so a full one stays full for the ten milliseconds.
enqueue_message : Bytes → List Bytes → Connection → Option WriteError × Connection
enqueue_message bytes queue c =
    if ltb (length queue) write_capacity
    then (
      none,
      increment_buffered_counter (record c { write_buffer = some (queue ++ (bytes ∷ [])) }),
    )
    else if c.drop_messages_on_full
    then (some buffer_full, increment_dropped_counter "buffer_full" c)
    else (some buffer_full, c)

-- What one call of rateLimiter.Wait says, by the duration after which its context times out. The
-- limiter has a state of its own, so another call may say something else.
abbrev pub Wait : Type 0
Wait = ℤ → Option String

after_wait : Option String → Bytes → List Bytes → Connection → Option WriteError × Connection
unfolding enqueue_message
after_wait (some e) bytes queue c = (some (limiter e), increment_dropped_counter "rate_limited" c)
after_wait none bytes queue c = enqueue_message bytes queue c

-- sendMessageWithRateLimit
abbrev pub send_message_with_rate_limit :
    Wait → Bytes → List Bytes → Connection → Option WriteError × Connection
unfolding after_wait
send_message_with_rate_limit wait bytes queue c = after_wait (wait c.write_deadline) bytes queue c

-- checkInitialization, and what follows it
initialized : Wait → Bytes → Option (List Bytes) → Connection → Option WriteError × Connection
unfolding after_wait
initialized wait bytes none c = (some not_initialized, c)
initialized wait bytes (some queue) c =
    if c.limited then send_message_with_rate_limit wait bytes queue c else (some not_initialized, c)

-- WriteMessage. The type of the message is not used.
unfoldable pub write_message : Wait → ℕ → Bytes → Connection → Option WriteError × Connection
unfolding initialized
write_message wait message_type bytes c = elim (validate_connection c) [
  | some e ↦ (some e, c)
  | none ↦ initialized wait bytes c.write_buffer c
]

-- The fields of a connection that NewWSConn makes. `writeDeadline` is not set, there or elsewhere.
unfoldable pub new_connection : String → ℕ → Bool → Bool → Connection
new_connection id now handler handles_errors = record {
  id = id;
  state = active;
  once = false;
  close_ch = false;
  socket = true;
  last_ping = now;
  msg_count = 0;
  write_buffer = some [];
  limited = true;
  write_deadline = pos 0;
  drop_messages_on_full = false;
  handler = handler;
  handles_errors = handles_errors;
  metrics = false;
  close_code = 0;
  close_reason = "";
  notices = [];
  controls = [];
  sent = [];
}
