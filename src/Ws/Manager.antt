-- ===== src/Ws/Manager.antt =====
-- ConnectionManager (ws.go, ws_connection_cleanup.go) and the closing of a connection (ws.go).
-- The manager is the package's defaultConnectionManager, from which Close removes a connection.
pub mod Books
pub mod Cleanup
use r.Common.{
  ℕ, suc, zero, ◌+◌, ◌-◌, String, Bool, true, false, Option, none, some, List, [], ◌∷◌, ◌++◌,
  if◌then◌else◌,
}
use r.Common.Int.{ℤ, pos, negsuc, add_32, leb_ℤ, ltb_ℤ, sub_ℕ}
use r.Common.Maps.{Map, load, store, delete}
use r.Metrics.Call.{Counter}
use r.Ws.Connection.{Connection, WsState, active, closing, closed, Notice, on_close, notice}

-- `recorded` are the numbers that "ws.connections.active" was recorded with, the latest last, and
-- `sent` the counters.
pub record Manager : Type 0 where
  pub connections : Map Connection
  pub active_conns : ℤ
  pub max_conns : ℤ
  pub metrics : Bool
  pub recorded : List ℤ
  pub sent : List Counter

unfoldable pub new_connection_manager : ℤ → Bool → Manager
new_connection_manager max_conns metrics = record {
  connections = [];
  active_conns = pos 0;
  max_conns = max_conns;
  metrics = metrics;
  recorded = [];
  sent = [];
}

abbrev pub record_active : Manager → Manager
record_active cm =
    if cm.metrics then record cm { recorded = cm.recorded ++ (cm.active_conns ∷ []) } else cm

-- ConnectionManager.Add; `none` is the error "connection limit reached".
unfoldable pub add : Connection → Manager → Option Manager
add conn cm =
    if leb_ℤ cm.max_conns cm.active_conns
    then none
    else some (
        record_active (record cm {
          connections = store cm.connections conn.id conn;
          active_conns = add_32 cm.active_conns (pos 1);
        }))

remove_loaded : Option Connection → String → Manager → Manager
remove_loaded none id cm = cm
remove_loaded (some conn) id cm = record_active (record cm {
  connections = delete cm.connections id;
  active_conns = add_32 cm.active_conns (negsuc 0);
})

-- ConnectionManager.Remove
unfoldable pub remove : String → Manager → Manager
unfolding remove_loaded
remove id cm = remove_loaded (load cm.connections id) id cm

-- ConnectionManager.GetActiveConnections
unfoldable pub get_active_connections : Manager → ℤ
get_active_connections cm = cm.active_conns

-- The function that closeOnce runs, up to the removal: closing, OnClose, close(closeCh), the socket,
-- closed.
abbrev pub shut : Connection → Connection
shut c =
    let told = notice on_close (record c { once = true; state = closing }) in
    record told { close_ch = true; socket = false; state = closed }

-- wsConnection.Close
unfoldable pub close : Connection × Manager → Connection × Manager
unfolding remove
close (c, cm) = if c.once then (c, cm) else (shut c, remove c.id cm)

-- Ten minutes, in nanoseconds.
abbrev pub stale_after : ℤ
stale_after = pos 600000000000

abbrev pub is_stale : ℕ → Connection → Bool
is_stale now c = ltb_ℤ stale_after (sub_ℕ now c.last_ping)

-- The round of cleanupStaleConnections over the entries that the map had. A stale connection is
-- closed and removed; the connections that were closed are returned with the count.
unfoldable pub cleanup_entries : ℕ → Map Connection → Manager → List Connection × ℕ × Manager
cleanup_entries now [] cm = ([], 0, cm)
cleanup_entries now (entry ∷ entries) cm =
    let (c, cm') = close (entry.1, cm) in
    let (gone, count, end) =
      cleanup_entries now entries (if is_stale now entry.1 then remove c.id cm' else cm) in
    if is_stale now entry.1 then (c ∷ gone, suc count, end) else (gone, count, end)

unfoldable pub cleanup_stale_connections : ℕ → Manager → List Connection × ℕ × Manager
cleanup_stale_connections now cm = cleanup_entries now cm.connections cm

-- updateCleanupMetrics; the text of the count is the caller's.
unfoldable pub update_cleanup_metrics : (ℕ → String) → ℕ → Manager → Manager
update_cleanup_metrics show zero cm = cm
update_cleanup_metrics show (suc n) cm =
    if cm.metrics
    then record cm {
      sent =
          cm.sent
          ++ (record { name = "ws.connections.cleaned"; tags = ("count", show (suc n)) ∷ [] } ∷ []);
    }
    else cm

-- The switch of GetConnectionStats.
abbrev pub state_name : WsState → String
state_name active = "active"
state_name closing = "closing"
state_name closed = "closed"

abbrev pub bump : Option ℕ → ℕ
bump none = 1
bump (some n) = suc n

-- `connections_by_state` of GetConnectionStats
unfoldable pub count_by_state : Map Connection → Map ℕ → Map ℕ
count_by_state [] counts = counts
count_by_state (entry ∷ entries) counts =
    count_by_state entries
      (store counts (state_name entry.1.state) (bump (load counts (state_name entry.1.state))))
