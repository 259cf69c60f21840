-- ===== src/Ws/Connection/Write.antt =====
-- What WriteMessage (ws_write_message.go) does to a connection.
use mathlib.Core.List.{append-nil, append_assoc}
use r.Common.{
  ◌≤◌, ◌≡◌, refl, ap, ◌∙◌, map, String, true, Option, none, some, List, [], ◌∷◌, ◌++◌, length,
  arith, length-append,
}
use r.Common.Int.{pos}
use r.Ws.Buffer.{Bytes}
use r.Ws.Connection.{Connection, active, WriteError, limiter, Wait, write_capacity, write_message}

-- Writes one after another, with their answers; each finds the limiter with a word of its own.
unfoldable pub write_all : Connection → List (Wait × Bytes) → Connection × List (Option WriteError)
write_all c [] = (c, [])
write_all c ((wait, bytes) ∷ more) =
    let (answer, c') = write_message wait 1 bytes c in
    let (end, answers) = write_all c' more in (end, answer ∷ answers)

-- The messages of writes.
abbrev pub messages : List (Wait × Bytes) → List Bytes
messages writes = map (λ w. w.1) writes

-- The messages that were accepted, in their order.
abbrev pub accepted_of : List Bytes → List (Option WriteError) → List Bytes
accepted_of (bytes ∷ more) (none ∷ answers) = bytes ∷ accepted_of more answers
accepted_of (bytes ∷ more) (some e ∷ answers) = accepted_of more answers
accepted_of _ _ = []

-- What one write does to the buffer.
record Wrote (bytes : Bytes) (queue : List Bytes) (answer : Option WriteError) (c : Connection)
    : Type 0 where
  buffer_eq : c.write_buffer ≡ some (queue ++ accepted_of (bytes ∷ []) (answer ∷ []))
  buffer_le : length (queue ++ accepted_of (bytes ∷ []) (answer ∷ [])) ≤ write_capacity

write_message-Wrote :
    (wait : Wait) (bytes : Bytes) (queue : List Bytes) (c : Connection)
    → c.write_buffer ≡ some queue
    → length queue ≤ write_capacity
    → let (answer, c') = write_message wait 1 bytes c in Wrote bytes queue answer c'
unfolding write_message
write_message-Wrote wait bytes queue c b h =
    ground (arith, append-nil queue, length-append queue (bytes ∷ []))

accepted_of-cons :
    (bytes : Bytes) (more : List Bytes) (answer : Option WriteError)
    (answers : List (Option WriteError))
    → accepted_of (bytes ∷ more) (answer ∷ answers)
      ≡ accepted_of (bytes ∷ []) (answer ∷ []) ++ accepted_of more answers
accepted_of-cons bytes more none answers = refl
accepted_of-cons bytes more (some e) answers = refl

-- However many messages are written to a connection, in whatever state it is, and whatever the limiter
-- says to each of them: the write buffer holds what it held and then exactly the messages whose write
-- returned no error, in their order, and never more than its capacity, if it held no more before.
-- Nothing takes from the buffer.
pub write_all_lem :
    (writes : List (Wait × Bytes)) (queue : List Bytes) (c : Connection)
    → c.write_buffer ≡ some queue
    → length queue ≤ write_capacity
    → let (end, answers) = write_all c writes in
      (end.write_buffer ≡ some (queue ++ accepted_of (messages writes) answers))
      × (length (queue ++ accepted_of (messages writes) answers) ≤ write_capacity)
unfolding write_all
write_all_lem [] queue c b h = rw append-nil (b, h)
write_all_lem ((wait, bytes) ∷ more) queue c b h =
    let w = write_message-Wrote wait bytes queue c b h in
    let (answer, c') = write_message wait 1 bytes c in
    let own : List Bytes = accepted_of (bytes ∷ []) (answer ∷ []) in
    let rest : List Bytes = accepted_of (messages more) (write_all c' more).1 in
    rw
      (
        accepted_of-cons bytes (messages more) answer (write_all c' more).1,
        ← append_assoc queue own rest,
      )
      (write_all_lem more (queue ++ own) c' w.buffer_eq w.buffer_le)

-- A connection that no write gets through to.
pub record Mute (c : Connection) : Type 0 where
  pub state_eq : c.state ≡ active
  pub buffer_eq : c.write_buffer ≡ some []
  pub limited_eq : c.limited ≡ true
  pub deadline_eq : c.write_deadline ≡ pos 0

pub write_message-Mute :
    (wait : Wait) (e : String) (bytes : Bytes) (c : Connection)
    → wait (pos 0) ≡ some e
    → Mute c
    → let (answer, c') = write_message wait 1 bytes c in (answer ≡ some (limiter e)) × Mute c'
unfolding write_message
write_message-Mute wait e bytes c w v =
    let w' : wait c.write_deadline ≡ some e = ap wait v.deadline_eq ∙ w in ground arith

pub id-write_message :
    (wait : Wait) (bytes : Bytes) (c : Connection) → (write_message wait 1 bytes c).1.id ≡ c.id
unfolding write_message
id-write_message wait bytes c = ground arith
