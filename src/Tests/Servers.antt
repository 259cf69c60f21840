-- ===== src/Tests/Servers.antt =====
-- Runs of Server.Stop (server_stop.go).
use r.Common.{◌≤◌, ◌<◌, ◌≡◌, refl, String, true, false, some, List, [], ◌∷◌, length, ◌⊎◌, inl}
use r.Server.Stop.{
  sending, finished, timed_out, Stopping, start_stop, wrap_error, fails, outcome, http_acts,
  expires, times_out, Steps, stay, onward, err_capacity,
}
use r.Server.Books.{occurrences}
use r.Server.Safety.{stop_never_blocks, stop_reports}
use r.Server.Liveness.{steps_of, IsSettled, stop_settles}

-- fasthttp's server has failed to stop, and the deadline has passed.
abbrev late_error : String
late_error = wrap_error "HTTP server shutdown error" "closed"

abbrev begun : Stopping
begun = start_stop true false

abbrev failing : Stopping
failing = record begun { http = sending late_error [] }

abbrev late : Stopping
late = record failing { expired = true; result = some timed_out }

failing_run : Steps begun (late_error ∷ []) failing
failing_run =
    onward (stay begun)
      (http_acts begun (fails "HTTP server shutdown error" "closed" [] begun.shared))

late_run : Steps begun (late_error ∷ []) late
late_run =
    onward (onward failing_run (expires failing))
      (times_out (record failing { expired = true }) refl refl)

stop_never_blocks_example :
    (length late.shared.errors < err_capacity)
    × (late.shared.closed ≡ false)
    × (late.shared.crashed ≡ false)
stop_never_blocks_example =
    stop_never_blocks true false (late_error ∷ []) late late_error [] late_run (inl refl)

stop_reports_example :
    ((timed_out ≡ timed_out) × (late.expired ≡ true))
    ⊎ ((es : List String) × (timed_out ≡ outcome es)
        × ((x : String) → occurrences x es ≡ occurrences x (late_error ∷ []))
        × (late.http ≡ finished)
        × (late.drain ≡ finished)
        × (late.cleanup ≡ finished))
stop_reports_example = stop_reports true false (late_error ∷ []) late timed_out late_run refl

stop_settles_example :
    (u : Stopping) × (gs : List String) × (run : Steps late gs u) × (steps_of run ≤ 11)
    × (u.expired ≡ true)
    × IsSettled u
stop_settles_example = stop_settles true false (late_error ∷ []) late late_run
