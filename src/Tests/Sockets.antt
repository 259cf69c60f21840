-- ===== src/Tests/Sockets.antt =====
-- The websocket side (ws.go and its companions) at concrete inputs.
use r.Common.{
  ℕ, ◌+◌, ◌≡◌, ◌≤◌, ◌<◌, refl, String, true, false, cond, none, some, List, [], ◌∷◌, ◌++◌, length,
  arith, if◌then◌else◌, get_elem?, ◌%◌, zero, suc,
}
use r.Common.Int.{pos, leb_ℤ}
use r.Common.Maps.{load}
use r.Ws.Buffer.{Bytes, MessageBuffer}
use r.Ws.Buffer.Fifo.{Call, put, take, stored, refused, got, empty, run, serve}
use r.Ws.Buffer.Refine.{Holds, run_refines}
use r.Ws.Connection.{
  Connection, closed, on_close, on_message, Wait, write_capacity, new_connection, write_message,
}
use r.Ws.Connection.Write.{write_all, messages, accepted_of, write_all_lem}
use r.Ws.Manager.{Manager, remove, cleanup_entries, cleanup_stale_connections}
use r.Ws.Manager.Books.{IsValid}
use r.Ws.Session.{SessionOutcome, ws_session, ws_session_lem}
use r.Ws.Manager.Cleanup.{
  close_times, close_times_lem, stale_at, stale_of, AllClosed, cleanup_stale_connections_lem,
}
use r.Ws.Pump.{
  Reader, too_big, read_message_with_limit, Kind, Incoming, frame, read_error, read_pump,
}
use r.Ws.Pump.Read.{read_message_with_limit_lem, read_pump_lem}

-- Two messages, the older in the last slot.
abbrev wrapped : MessageBuffer
wrapped = record {
  buffer = some (9 ∷ []) ∷ none ∷ some (8 ∷ []) ∷ [];
  size = 3;
  head = 2;
  tail = 1;
  count = 2;
  not_full = record { pending = 0; capacity = 1 };
  not_empty = record { pending = 1; capacity = 1 };
}

wrapped-Holds : Holds wrapped ((8 ∷ []) ∷ (9 ∷ []) ∷ [])
wrapped-Holds = record {
  sized = refl;
  head_lt = omega arith;
  tail_eq = refl;
  count_eq = refl;
  count_le = omega arith;
  slots = places;
}
  where
    places :
        (i : ℕ)
        → i < 2
        → get_elem? wrapped.buffer ((2 + i) % 3) ≡ get_elem? (some (8 ∷ []) ∷ some (9 ∷ []) ∷ []) i
    places zero h = refl
    places (suc zero) h = refl
    places (suc (suc i)) h = absurd (omega arith)

abbrev calls : List Call
calls = put (1 ∷ []) ∷ put (2 ∷ []) ∷ take ∷ take ∷ take ∷ take ∷ []

serve_calls :
    serve 3 ((8 ∷ []) ∷ (9 ∷ []) ∷ []) calls
    ≡ stored
      ∷ refused
      ∷ got (some (8 ∷ []))
      ∷ got (some (9 ∷ []))
      ∷ got (some (1 ∷ []))
      ∷ empty
      ∷ []
unfolding serve
serve_calls = refl

run_refines_example : run wrapped calls ≡ serve 3 ((8 ∷ []) ∷ (9 ∷ []) ∷ []) calls
run_refines_example = run_refines calls wrapped ((8 ∷ []) ∷ (9 ∷ []) ∷ []) wrapped-Holds

-- A limiter that refuses to wait under an expired context, and else permits.
abbrev pub patient : Wait
patient t = if leb_ℤ t (pos 0) then some "context deadline exceeded" else none

abbrev hopeful : Connection
unfolding new_connection
hopeful = record (new_connection "a" 5 true true) { write_deadline = pos 1000 }

-- The limiter refuses the second of three writes.
abbrev three_writes : List (Wait × Bytes)
three_writes =
    (patient, 1 ∷ []) ∷ (λ _. some "would exceed context deadline", 2 ∷ []) ∷ (patient, 3 ∷ []) ∷ []

write_all_lem_example :
    let (end, answers) = write_all hopeful three_writes in
    (end.write_buffer ≡ some ([] ++ accepted_of (messages three_writes) answers))
    × (length ([] ++ accepted_of (messages three_writes) answers) ≤ write_capacity)
unfolding new_connection
write_all_lem_example = write_all_lem three_writes [] hopeful refl (omega arith)

hopeful_accepted : (write_all hopeful three_writes).0.write_buffer ≡ some ((1 ∷ []) ∷ (3 ∷ []) ∷ [])
unfolding new_connection write_all write_message
hopeful_accepted = refl

abbrev two_conns : Manager
unfolding new_connection
two_conns = record {
  connections =
      ("a", new_connection "a" 5 true true) ∷ ("b", new_connection "b" 900000000000 true true) ∷ [];
  active_conns = pos 2;
  max_conns = pos 3;
  metrics = false;
  recorded = [];
  sent = [];
}

two_conns-IsValid : IsValid two_conns
unfolding new_connection load
two_conns-IsValid = record {
  distinct = (refl, (refl, tt));
  counted = refl;
  limited = omega arith;
  small = omega arith;
}

ws_session_lem_example :
    SessionOutcome "c" 7 true false two_conns (ws_session "c" 7 true false two_conns)
unfolding load two_conns
ws_session_lem_example = ws_session_lem "c" 7 true false two_conns two_conns-IsValid refl

close_times_lem_example :
    let c = new_connection "a" 5 true true in
    let (d, cm') = close_times 3 (c, two_conns) in
    (d.state ≡ closed)
    × (d.close_ch ≡ true)
    × (d.socket ≡ false)
    × (d.notices ≡ on_close ∷ [])
    × (cm' ≡ remove "a" two_conns)
unfolding new_connection
close_times_lem_example = close_times_lem 2 (new_connection "a" 5 true true) two_conns refl

cleanup_stale_connections_lem_example :
    let (gone, count, end) = cleanup_stale_connections 900000000001 two_conns in
    IsValid end
    × ((k : String)
        → load end.connections k
          ≡ cond
              (stale_at 900000000001 (load two_conns.connections k))
              none
              (load two_conns.connections k))
    × (count ≡ length gone)
    × AllClosed (stale_of 900000000001 two_conns.connections) gone
unfolding new_connection
cleanup_stale_connections_lem_example =
    cleanup_stale_connections_lem 900000000001 two_conns two_conns-IsValid (refl, (refl, tt))

cleanup_count : (cleanup_stale_connections 900000000001 two_conns).1 ≡ 1
unfolding new_connection cleanup_stale_connections cleanup_entries
cleanup_count = refl

abbrev short : Reader
short = record { bytes = 1 ∷ 2 ∷ []; failure = none }

read_message_with_limit_lem_example : read_message_with_limit short 1 ≡ too_big
read_message_with_limit_lem_example = read_message_with_limit_lem short 1

abbrev arrivals : List Incoming
arrivals =
    frame Kind.text short ∷ frame Kind.other short ∷ frame Kind.binary short ∷ read_error ∷ []

read_pump_lem_example :
    (read_pump (λ _. false) 2 arrivals (new_connection "a" 5 true true, two_conns)).0.notices
    ≡ on_message (1 ∷ 2 ∷ []) ∷ on_message (1 ∷ 2 ∷ []) ∷ on_close ∷ []
unfolding new_connection read_message_with_limit
read_pump_lem_example =
    read_pump_lem (λ _. false) 2 arrivals (new_connection "a" 5 true true) two_conns refl refl
