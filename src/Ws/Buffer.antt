-- ===== src/Ws/Buffer.antt =====
-- MessageBuffer of ws.go: a fixed-size circular buffer of messages. A message is its bytes, `none`
-- is a nil slice. An index out of range and a remainder by zero panic, which is `crash`.
pub mod Fifo
pub mod Refine
use r.Common.{
  ℕ, ◌+◌, ◌-◌, ◌%◌, Bool, true, false, Option, none, some, List, length, get_elem?, set, ltb, ◌==◌,
  ◌&&◌, if◌then◌else◌,
}

abbrev pub Bytes : Type 0
Bytes = List ℕ

-- A `chan struct{}` that is only sent to without waiting: how many signals it holds, of how many.
pub record Signal : Type 0 where
  pub pending : ℕ
  pub capacity : ℕ

pub record MessageBuffer : Type 0 where
  pub buffer : List (Option Bytes)
  pub size : ℕ
  pub head : ℕ
  pub tail : ℕ
  pub count : ℕ
  pub not_full : Signal
  pub not_empty : Signal

pub data Written : Type 0 where
  accepted : MessageBuffer → Written
  buffer_full : Written
  crash : Written

pub data Taken : Type 0 where
  nothing : Taken
  message : Option Bytes → MessageBuffer → Taken
  crash : Taken

-- `select { case ch <- struct{}{}: default: }`
abbrev pub notify : Signal → Signal
notify s = if ltb s.pending s.capacity then record s { pending = s.pending + 1 } else s

-- `(i + 1) % b.size`, where the size is not zero
abbrev pub after : ℕ → ℕ → ℕ
after size i = (i + 1) % size

-- MessageBuffer.Write. The copy of the data is the data.
unfoldable pub write : MessageBuffer → Bytes → Written
write b bytes =
    if b.count == b.size
    then buffer_full
    else if ltb b.tail (length b.buffer) && ltb 0 b.size
    then accepted (record b {
      buffer = set b.buffer b.tail (some bytes);
      tail = after b.size b.tail;
      count = b.count + 1;
      not_empty = notify b.not_empty;
    })
    else Written.crash

-- The slot is read and set to nil; `none` is an index out of range. `count--` runs at no zero.
take_slot : MessageBuffer → Option (Option Bytes) → Taken
take_slot b none = Taken.crash
take_slot b (some slot) =
    if ltb 0 b.size
    then message slot (record b {
      buffer = set b.buffer b.head none;
      head = after b.size b.head;
      count = b.count - 1;
      not_full = notify b.not_full;
    })
    else Taken.crash

-- MessageBuffer.Read
unfoldable pub read : MessageBuffer → Taken
unfolding take_slot
read b = if b.count == 0 then nothing else take_slot b (get_elem? b.buffer b.head)

-- MessageBuffer.Len
unfoldable pub len : MessageBuffer → ℕ
len b = b.count
