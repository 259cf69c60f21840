-- ===== src/Ws/Buffer/Fifo.antt =====
-- The contract of MessageBuffer (ws.go): a queue of at most `cap` messages, oldest first.
use r.Common.{ℕ, Option, some, List, [], ◌∷◌, ◌++◌, length, ◌==◌, if◌then◌else◌}
use r.Ws.Buffer.{
  Bytes, MessageBuffer, Written, accepted, buffer_full, Taken, nothing, message, write, read,
}

-- What a client calls, and what it sees.
pub data Call : Type 0 where
  put : Bytes → Call
  take : Call

pub data Reply : Type 0 where
  stored refused empty crashed : Reply
  got : Option Bytes → Reply

-- The calls on the queue `q`.
unfoldable pub serve : ℕ → List Bytes → List Call → List Reply
serve cap q [] = []
serve cap q (put x ∷ calls) =
    let full = refused ∷ serve cap q calls in
    let room = stored ∷ serve cap (q ++ (x ∷ [])) calls in if length q == cap then full else room
serve cap [] (take ∷ calls) = empty ∷ serve cap [] calls
serve cap (x ∷ q) (take ∷ calls) = got (some x) ∷ serve cap q calls

-- The same calls on the buffer; a panic ends the client.
unfoldable pub run : MessageBuffer → List Call → List Reply
run b [] = []
run b (put x ∷ calls) = elim (write b x) [
  | accepted b' ↦ stored ∷ run b' calls
  | buffer_full ↦ refused ∷ run b calls
  | Written.crash ↦ crashed ∷ []
]
run b (take ∷ calls) = elim (read b) [
  | nothing ↦ empty ∷ run b calls
  | message x b' ↦ got x ∷ run b' calls
  | Taken.crash ↦ crashed ∷ []
]
