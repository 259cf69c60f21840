-- ===== src/Ws/Pump/Read.antt =====
-- What the pumps of a connection (ws_read_pump.go, ws_write_pump.go) do until they end.
use r.Common.{
  ℕ, ◌+◌, ◌≡◌, refl, sym, ap, ◌∙◌, String, Bool, true, false, none, some, List, [], ◌∷◌, ◌++◌,
  length, arith, ltb, length-take, if◌then◌else◌, inl, inr, Bool-cases,
}
use mathlib.Core.List.{append-nil, append_assoc}
use r.Ws.Buffer.{Bytes}
use r.Ws.Connection.{Connection, Notice, on_message, on_error, on_close, notice}
use r.Ws.Manager.{Manager, close}
use r.Ws.Manager.Cleanup.{close-again}
use r.Ws.Pump.{
  Reader, ReadResult, complete, failed, too_big, read_message_with_limit, Kind, Incoming, frame,
  close_frame, read_error, State, handle_message_error, is_data, Progress, go_on, stop, unwind,
  process_reader, on_read, deliver, read_pump, count_message, on_close_frame,
}

-- Reading with no limit, and the limit afterwards.
abbrev pub read_whole : Reader → ReadResult
read_whole r = elim r.failure [ none ↦ complete r.bytes | some e ↦ failed e ]

-- Reading through the limited reader is reading the whole and then looking at its length: what has
-- more bytes than the limit is too big, whatever its reader says after them, and all else is
-- complete with every byte, or has the reader's error.
pub read_message_with_limit_lem :
    (r : Reader) (limit : ℕ)
    → read_message_with_limit r limit
      ≡ (if ltb limit (length r.bytes) then too_big else read_whole r)
unfolding read_message_with_limit
read_message_with_limit_lem r limit = ground (arith, length-take (limit + 1) r.bytes)

-- One frame: what the handler is told of it, before `more` or at the end.
abbrev pub told : Bool → (Bytes → Bool) → Kind → ReadResult → List Notice → List Notice
told errors panics kind (complete b) more =
    if is_data kind then (on_message b ∷ (if panics b then (on_close ∷ []) else more)) else more
told true panics kind _ more = on_error "Failed to read message" ∷ on_close ∷ []
told false panics kind _ more = on_close ∷ []

-- All that the handler is told: each message of the data frames in order, up to the first that
-- cannot be read, of which it is told if it hears errors, or on which it panics; and the close at
-- the end. Nothing follows the close. A pump that still waits has not told of the close.
abbrev pub transcript : Bool → (Bytes → Bool) → ℕ → List Incoming → List Notice
transcript errors panics limit [] = []
transcript errors panics limit (frame kind r ∷ rest) =
    told errors panics kind (read_message_with_limit r limit) (transcript errors panics limit rest)
transcript errors panics limit (_ ∷ rest) = on_close ∷ []

record Live (errors : Bool) (c : Connection) : Type 0 where
  once_eq : c.once ≡ false
  handler_eq : c.handler ≡ true
  errors_eq : c.handles_errors ≡ errors

close-notices :
    (c : Connection) (cm : Manager)
    → c.once ≡ false
    → c.handler ≡ true
    → (close (c, cm)).0.notices ≡ c.notices ++ (on_close ∷ [])
unfolding close
close-notices c cm o h = ground arith

close-once : (c : Connection) (cm : Manager) → (close (c, cm)).0.once ≡ true
unfolding close
close-once c cm = ground arith

-- The connection that handleMessageError closes.
abbrev warned : Connection → Connection
warned c =
    let marked = record c { controls = c.controls ++ ((1009, "Failed to read message") ∷ []) } in
    if c.handles_errors then notice (on_error "Failed to read message") marked else marked

failure-notices :
    (errors : Bool) (c : Connection) (cm : Manager)
    → Live errors c
    → (close (handle_message_error "Failed to read message" (c, cm))).0.notices
      ≡ c.notices ++ told errors (λ _. false) Kind.other too_big []
unfolding handle_message_error
failure-notices errors c cm v =
    ap (λ (p : State). p.0.notices) (close-again (close (warned c, cm)) (close-once (warned c) cm))
    ∙ close-notices (warned c) cm (ground (arith, v.once_eq)) (ground (arith, v.handler_eq))
    ∙ ground (
      arith,
      v.errors_eq,
      v.handler_eq,
      append_assoc c.notices (on_error "Failed to read message" ∷ []) (on_close ∷ []),
    )

module _ (panics : Bytes → Bool) (limit : ℕ) (errors : Bool) where
  -- The pump on the frames that are left.
  abbrev Tells : List Incoming → Type 0
  Tells rest =
      (c : Connection) (cm : Manager)
      → Live errors c
      → (read_pump panics limit rest (c, cm)).0.notices
        ≡ c.notices ++ transcript errors panics limit rest

  abbrev resume : List Incoming → Progress → State
  resume rest (go_on p) = read_pump panics limit rest p
  resume rest (stop p) = close p
  resume rest (unwind p) = close p

  deliver-Tells :
      (rest : List Incoming) (b : Bytes) (c : Connection) (cm : Manager)
      → Tells rest
      → Live errors c
      → (resume rest (deliver panics b (c, cm))).0.notices
        ≡ c.notices
          ++ (on_message b
              ∷ (if panics b then (on_close ∷ []) else transcript errors panics limit rest))
  unfolding deliver
  deliver-Tells rest b c cm ih v = elim (Bool-cases (panics b)) [
    | inl bad ↦ ground (
      arith,
      close-notices (notice (on_message b) c) cm,
      append_assoc c.notices (on_message b ∷ []) (on_close ∷ []),
    )
    | inr good ↦ ground (
      arith,
      ih (count_message (notice (on_message b) c)) cm,
      append_assoc c.notices (on_message b ∷ []) (transcript errors panics limit rest),
    )
  ]

  told-failed :
      (kind : Kind) (e : String) (more : List Notice)
      → told errors (λ _. false) Kind.other too_big [] ≡ told errors panics kind (failed e) more
  told-failed kind e more = ground arith

  told-too_big :
      (kind : Kind) (more : List Notice)
      → told errors (λ _. false) Kind.other too_big [] ≡ told errors panics kind too_big more
  told-too_big kind more = ground arith

  on_read-Tells :
      (rest : List Incoming) (kind : Kind) (o : ReadResult) (c : Connection) (cm : Manager)
      → Tells rest
      → Live errors c
      → (resume rest (on_read panics kind o (c, cm))).0.notices
        ≡ c.notices ++ told errors panics kind o (transcript errors panics limit rest)
  unfolding on_read
  on_read-Tells rest Kind.text (complete b) c cm ih v = deliver-Tells rest b c cm ih v
  on_read-Tells rest Kind.binary (complete b) c cm ih v = deliver-Tells rest b c cm ih v
  on_read-Tells rest Kind.other (complete b) c cm ih v = ih c cm v
  on_read-Tells rest kind (failed e) c cm ih v =
      failure-notices errors c cm v
      ∙ ap (◌++◌ c.notices) (told-failed kind e (transcript errors panics limit rest))
  on_read-Tells rest kind too_big c cm ih v =
      failure-notices errors c cm v
      ∙ ap (◌++◌ c.notices) (told-too_big kind (transcript errors panics limit rest))

  pump_frame :
      (kind : Kind) (r : Reader) (rest : List Incoming) (p : State)
      → read_pump panics limit (frame kind r ∷ rest) p
        ≡ resume rest (process_reader panics r kind limit p)
  unfolding read_pump
  pump_frame kind r rest p = go (process_reader panics r kind limit p)
    where
      go :
          (o : Progress)
          → elim o as (λ _. State) [
            | go_on p' ↦ read_pump panics limit rest p'
            | stop p' ↦ close p'
            | unwind p' ↦ close p'
          ]
            ≡ resume rest o
      go (go_on p) = refl
      go (stop p) = refl
      go (unwind p) = refl

  read_pump-Tells : (incoming : List Incoming) → Tells incoming
  unfolding read_pump process_reader
  read_pump-Tells [] c cm v = sym (append-nil c.notices)
  read_pump-Tells (frame kind r ∷ rest) c cm v =
      ap (λ (p : State). p.0.notices) (pump_frame kind r rest (c, cm))
      ∙ on_read-Tells rest kind (read_message_with_limit r limit) c cm
          (λ c' cm' v'. read_pump-Tells rest c' cm' v') v
  read_pump-Tells (close_frame code reason ∷ rest) c cm v =
      close-notices (on_close_frame code reason (c, cm)).0 cm v.once_eq v.handler_eq
  read_pump-Tells (read_error ∷ rest) c cm v = close-notices c cm v.once_eq v.handler_eq

-- What the handler of an open connection is told while the read pump runs is the transcript of what
-- arrived: every whole data message within the limit, in order and once, until the pump ends; then,
-- if a message could not be read and the handler hears errors, that; and the close, last and once.
pub read_pump_lem :
    (panics : Bytes → Bool) (limit : ℕ) (incoming : List Incoming) (c : Connection) (cm : Manager)
    → c.once ≡ false
    → c.handler ≡ true
    → (read_pump panics limit incoming (c, cm)).0.notices
      ≡ c.notices ++ transcript c.handles_errors panics limit incoming
read_pump_lem panics limit incoming c cm o h =
    read_pump-Tells panics limit c.handles_errors incoming c cm
      (record { once_eq = o; handler_eq = h; errors_eq = refl })
