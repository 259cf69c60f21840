-- ===== src/Middleware/Expiry.antt =====
-- What Timeout (middleware.go) answers in every order of its goroutine, its timer and its select.
use r.Common.{String, true, false, ◌≡◌, refl, Option, none, some}
use r.Common.Int.{ℤ, pos}
use r.Middleware.Timeout.{
  sending, closing, ended, Returned, timed_out, saw_done, Timing, panic_error, start_timeout,
  abort_with_error, writes, next_panics, sends, closes, expires, takes_deadline, takes_done, Steps,
  stay, onward,
}
use r.Middleware.Timeout.Inv.{Explains, Steps-Inv, start_timeout-Inv}

-- In every order of handlers, timer and select: when Timeout has returned by its deadline, that has
-- passed and the context is aborted; when it has received an error, the handlers have ended with
-- that error, the context is aborted with it, and the status is 500; when it has received none, they
-- have ended without one, and the context has none; and when it has only seen `done`, they have
-- ended, the error with which they did so, if any, lies unread in the channel, and it is the
-- context's own or that of a panic. The handlers may set the status, abort, and abort with an error
-- at any time while they run.
pub timeout_lem :
    (late : String) (status : ℤ) (s : Timing) (r : Returned)
    → Steps late (start_timeout status) s
    → s.returned ≡ some r
    → Explains r s
timeout_lem late status s r run e =
    let v = Steps-Inv (start_timeout-Inv status) run in v.explained r e

-- Whatever a handler panics with, there is an order in which Timeout returns before its deadline
-- without a trace of it: the goroutine has recovered the panic, sent the error and ended, the select
-- takes `done`, the status is the one before, and the context is neither aborted nor has an error.
pub timeout_loses_panics :
    (late : String) (status : ℤ) (v : String)
    → (s : Timing) × Steps late (start_timeout status) s
      × (s.phase ≡ ended (some (panic_error v)))
      × (s.err_ch ≡ some (some (panic_error v)))
      × (s.returned ≡ some saw_done)
      × (s.expired ≡ false)
      × (s.status ≡ status)
      × (s.aborted ≡ false)
      × (s.err ≡ none)
timeout_loses_panics late status v =
    let e : Option String = some (panic_error v) in
    let a = start_timeout status in
    let b : Timing = record a { phase = sending e } in
    let c : Timing = record b { phase = closing e; err_ch = some e } in
    let d : Timing = record c { phase = ended e; done = true } in
    (
      _,
      onward
          (onward (onward (onward (stay a) (next_panics a v refl)) (sends b e refl refl))
            (closes c e refl))
          (takes_done d refl refl),
      refl,
      refl,
      refl,
      refl,
      refl,
      refl,
      refl,
    )

-- A status that the handlers set after the deadline stands in place of the 504: for every code there
-- is an order in which Timeout has returned by its deadline and that code is the status.
timeout_overwritten :
    (late : String) (status code : ℤ)
    → (s : Timing) × Steps late (start_timeout status) s
      × (s.returned ≡ some timed_out)
      × (s.status ≡ code)
timeout_overwritten late status code =
    let a = start_timeout status in
    let b : Timing = record a { expired = true } in
    let c : Timing =
      abort_with_error (pos 504) (some late) (record b { returned = some timed_out }) in
    (
      _,
      onward (onward (onward (stay a) (expires a)) (takes_deadline b refl refl))
          (writes c code refl),
      refl,
      refl,
    )
