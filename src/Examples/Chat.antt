-- ===== src/Examples/Chat.antt =====
-- ChatHandler (examples/main.go, examples/complete_example/main.go), whose OnMessage writes each message
-- back, as the handler of a connection. The logging library is outside: a line is kept with what it
-- is logged with.
use r.Common.Int.{pos}
use r.Common.{
  ℕ, ◌≡◌, refl, sym, ap, ap₂, ◌∙◌, String, true, false, Option, none, some, List, [], ◌∷◌, ◌++◌,
  length,
}
use mathlib.Core.List.{append-nil, append_assoc}
use r.Ws.Buffer.{Bytes}
use r.Ws.Connection.{
  Connection, Notice, on_connect, on_message, on_error, on_close, notice, WriteError, limiter, Wait,
  write_message, new_connection,
}
use r.Ws.Connection.Write.{Mute, write_message-Mute, id-write_message}
use r.Ws.Manager.{Manager}
use r.Ws.Pump.{Incoming, read_pump}
use r.Ws.Pump.Read.{transcript, read_pump_lem}

pub data ChatLine : Type 0 where
  client_connected : String → String → ChatLine
  received_message : String → ℕ → ChatLine
  failed_to_write : WriteError → String → ChatLine
  client_disconnected : String → ChatLine

-- A connection, and what its handler has logged.
pub record Chat : Type 0 where
  pub conn : Connection
  pub lines : List ChatLine

abbrev pub logged : ChatLine → Chat → Chat
logged line chat = record chat { lines = chat.lines ++ (line ∷ []) }

-- `if err := conn.WriteMessage(1, msg); err != nil`
abbrev pub after_write : Option WriteError → Chat → Chat
after_write none chat = chat
after_write (some e) chat = logged (failed_to_write e chat.conn.id) chat

module _ (wait : Wait) (remote_addr : String) where
  -- OnMessage
  abbrev pub chat_message : Bytes → Chat → Chat
  chat_message msg chat =
      let heard = logged (received_message chat.conn.id (length msg)) chat in
      let (answer, conn) = write_message wait 1 msg heard.conn in
      after_write answer (record heard { conn = conn })

  -- OnConnect, OnMessage and OnClose. It has no OnError.
  abbrev pub chat_handler : Notice → Chat → Chat
  chat_handler on_connect chat = logged (client_connected chat.conn.id remote_addr) chat
  chat_handler (on_message msg) chat = chat_message msg chat
  chat_handler on_close chat = logged (client_disconnected chat.conn.id) chat
  chat_handler (on_error text) chat = chat

  -- The calls of a connection, one after another.
  unfoldable pub converse : List Notice → Chat → Chat
  converse [] chat = chat
  converse (call ∷ calls) chat = converse calls (chat_handler call chat)

  -- What the handler logs of a call when each write fails with `e`.
  abbrev pub lines_of : String → WriteError → Notice → List ChatLine
  lines_of id e on_connect = client_connected id remote_addr ∷ []
  lines_of id e (on_message msg) = received_message id (length msg) ∷ failed_to_write e id ∷ []
  lines_of id e on_close = client_disconnected id ∷ []
  lines_of id e (on_error text) = []

  abbrev pub all_lines : String → WriteError → List Notice → List ChatLine
  all_lines id e [] = []
  all_lines id e (call ∷ calls) = lines_of id e call ++ all_lines id e calls

  -- One call.
  chat_handler-Mute :
      (e : String) (call : Notice) (chat : Chat)
      → wait (pos 0) ≡ some e
      → Mute chat.conn
      → let after = chat_handler call chat in
        Mute after.conn
        × (after.conn.id ≡ chat.conn.id)
        × (after.lines ≡ chat.lines ++ lines_of chat.conn.id (limiter e) call)
  chat_handler-Mute e on_connect chat w v = (v, refl, refl)
  chat_handler-Mute e on_close chat w v = (v, refl, refl)
  chat_handler-Mute e (on_error text) chat w v = (v, refl, sym (append-nil chat.lines))
  chat_handler-Mute e (on_message msg) chat w v =
      let (refused, mute) = write_message-Mute wait e msg chat.conn w v in
      rw refused (
        mute,
        id-write_message wait msg chat.conn,
        append_assoc chat.lines (received_message chat.conn.id (length msg) ∷ [])
              (failed_to_write (limiter e) (write_message wait 1 msg chat.conn).1.id ∷ [])
            ∙ ap
                (λ id.
                  chat.lines
                  ++ (received_message chat.conn.id (length msg)
                      ∷ failed_to_write (limiter e) id
                      ∷ []))
                (id-write_message wait msg chat.conn),
      )

  converse-Mute :
      (e : String) (calls : List Notice) (chat : Chat)
      → wait (pos 0) ≡ some e
      → Mute chat.conn
      → let after = converse calls chat in
        (after.conn.write_buffer ≡ some [])
        × (after.lines ≡ chat.lines ++ all_lines chat.conn.id (limiter e) calls)
  unfolding converse
  converse-Mute e [] chat w v = (v.buffer_eq, sym (append-nil chat.lines))
  converse-Mute e (call ∷ calls) chat w v =
      let (mute, id, lines) = chat_handler-Mute e call chat w v in
      let (empty', more) = converse-Mute e calls (chat_handler call chat) w mute in
      (
        empty',
        more
            ∙ ap₂ (λ start id. start ++ all_lines id (limiter e) calls) lines id
            ∙ append_assoc chat.lines (lines_of chat.conn.id (limiter e) call)
                (all_lines chat.conn.id (limiter e) calls),
      )

  -- A connection as NewWSConn makes it, with a ChatHandler that hears no errors, until its read pump
  -- waits or has ended. If the limiter refuses to wait under a context that has already expired, as
  -- it says it does, then no message is echoed: the write buffer stays empty. The handler logs the
  -- connect, for each message that the pump delivers its size and then the failure, and the close if
  -- there was one.
  pub chat_never_echoes :
      (e id : String) (now limit : ℕ) (incoming : List Incoming) (cm : Manager)
      → wait (pos 0) ≡ some e
      → let c = notice on_connect (new_connection id now true false) in
        let calls = (read_pump (λ _. false) limit incoming (c, cm)).0.notices in
        let after =
          converse calls (record { conn = new_connection id now true false; lines = [] }) in
        (after.conn.write_buffer ≡ some [])
        × (after.lines
            ≡ client_connected id remote_addr
              ∷ all_lines id (limiter e) (transcript false (λ _. false) limit incoming))
  unfolding new_connection
  chat_never_echoes e id now limit incoming cm w =
      let chat : Chat = record { conn = new_connection id now true false; lines = [] } in
      let c = notice on_connect chat.conn in
      rw (read_pump_lem (λ _. false) limit incoming c cm refl refl) (
        converse-Mute e (on_connect ∷ transcript false (λ _. false) limit incoming) chat w
          (record { state_eq = refl; buffer_eq = refl; limited_eq = refl; deadline_eq = refl }))
