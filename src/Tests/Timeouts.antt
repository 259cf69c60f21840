-- ===== src/Tests/Timeouts.antt =====
-- Timeout (middleware.go) on a handler that panics.
use r.Common.{true, ◌≡◌, refl, String, false, Option, none, some}
use r.Common.Int.{pos}
use r.Middleware.Timeout.{
  abort_with_error, fails, next_returns, closes, takes_done, sending, closing, ended, received,
  saw_done, Timing, start_timeout, on_received, panic_error, next_panics, sends, takes_error, Steps,
  stay, onward,
}
use r.Middleware.Timeout.Inv.{Explains}
use r.Middleware.Expiry.{timeout_lem, timeout_loses_panics}

abbrev bad : Option String
bad = some (panic_error "bad")

abbrev caught : Timing
caught = record (start_timeout (pos 200)) { phase = closing bad; err_ch = some bad }

timeout_lem_example : Explains (received bad) (on_received bad (record caught { err_ch = none }))
timeout_lem_example =
    let a = start_timeout (pos 200) in
    let b : Timing = record a { phase = sending bad } in
    timeout_lem "late" (pos 200) _ (received bad)
      (onward (onward (onward (stay a) (next_panics a "bad" refl)) (sends b bad refl refl))
        (takes_error caught bad refl refl))
      refl

abbrev refused_by_handler : Timing
refused_by_handler = abort_with_error (pos 400) (some "no") (start_timeout (pos 200))

-- A handler aborts with an error, and the select takes `done`: the context has that error, which lies
-- unread in the channel.
handler_error_kept :
    (s : Timing) × Steps "late" (start_timeout (pos 200)) s
    × (s.returned ≡ some saw_done)
    × (s.err_ch ≡ some (some "no"))
    × (s.err ≡ some "no")
    × (s.aborted ≡ true)
    × (s.status ≡ pos 400)
handler_error_kept =
    let a = start_timeout (pos 200) in
    let b = refused_by_handler in
    let c : Timing = record b { phase = sending (some "no") } in
    let d : Timing = record c { phase = closing (some "no"); err_ch = some (some "no") } in
    let e : Timing = record d { phase = ended (some "no"); done = true } in
    (
      _,
      onward
          (onward
            (onward
              (onward (onward (stay a) (fails a (pos 400) (some "no") refl)) (next_returns b refl))
              (sends c (some "no") refl refl))
            (closes d (some "no") refl))
          (takes_done e refl refl),
      refl,
      refl,
      refl,
      refl,
      refl,
    )

timeout_loses_panics_example :
    (s : Timing) × Steps "late" (start_timeout (pos 200)) s
    × (s.phase ≡ ended (some (panic_error "bad")))
    × (s.err_ch ≡ some (some (panic_error "bad")))
    × (s.returned ≡ some saw_done)
    × (s.expired ≡ false)
    × (s.status ≡ pos 200)
    × (s.aborted ≡ false)
    × (s.err ≡ none)
timeout_loses_panics_example = timeout_loses_panics "late" (pos 200) "bad"
