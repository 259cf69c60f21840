-- ===== src/Middleware/Timeout.antt =====
-- Timeout (middleware.go): the goroutine that runs the later handlers, the timer, and the select, as
-- a step relation. The goroutine and the middleware share the response; of it the status is kept.
pub mod Inv
use Prim.Native.String
use r.Common.{String, Bool, true, false, ◌≡◌, Option, none, some}
use r.Common.Int.{ℤ, pos}

-- The goroutine: in `c.Next()`; about to send on errCh; about to close `done`; at its end.
pub data Phase : Type 0 where
  running : Phase
  sending : Option String → Phase
  closing : Option String → Phase
  ended : Option String → Phase

-- How the middleware returned: by the case of ctx.Done(), with what it received, or by `<-done`.
pub data Returned : Type 0 where
  timed_out : Returned
  received : Option String → Returned
  saw_done : Returned

-- errCh holds one value at most. `status` is the status of the response; `err` and `aborted` are those
-- of the context. The goroutine's handlers and the middleware share all three.
pub record Timing : Type 0 where
  pub phase : Phase
  pub err_ch : Option (Option String)
  pub done : Bool
  pub expired : Bool
  pub status : ℤ
  pub err : Option String
  pub aborted : Bool
  pub returned : Option Returned

-- Timeout up to its select, on a context with this status, without an error and not aborted, or else
-- the loop of Next would not have come to it.
abbrev pub start_timeout : ℤ → Timing
start_timeout status = record {
  phase = running;
  err_ch = none;
  done = false;
  expired = false;
  status = status;
  err = none;
  aborted = false;
  returned = none;
}

-- AbortWithError, where the error may be nil
abbrev pub abort_with_error : ℤ → Option String → Timing → Timing
abort_with_error code error s = record s { err = error; status = code; aborted = true }

-- What the select makes of a received error.
abbrev pub on_received : Option String → Timing → Timing
on_received none s = record s { returned = some (received none) }
on_received (some error) s =
    abort_with_error (pos 500) (some error) (record s { returned = some (received (some error)) })

-- The error of a panic that the goroutine recovers.
abbrev pub panic_error : String → String
panic_error v = String.◌++◌ "panic in handler: " v

-- A step. As long as they run, also after the middleware has returned, the later handlers may set the
-- status, abort, and abort with an error; each AbortWithError is one step. When they return, the
-- context's error is sent. A select with several cases ready takes any of them.
pub data Step (late : String) : Timing → Timing → Type 0 where
  writes : (s : Timing) (code : ℤ) → s.phase ≡ running → Step late s (record s { status = code })
  aborts : (s : Timing) → s.phase ≡ running → Step late s (record s { aborted = true })
  fails :
      (s : Timing) (code : ℤ) (error : Option String)
      → s.phase ≡ running
      → Step late s (abort_with_error code error s)
  next_returns : (s : Timing) → s.phase ≡ running → Step late s (record s { phase = sending s.err })
  next_panics :
      (s : Timing) (v : String)
      → s.phase ≡ running
      → Step late s (record s { phase = sending (some (panic_error v)) })
  sends :
      (s : Timing) (err : Option String)
      → s.phase ≡ sending err
      → s.err_ch ≡ none
      → Step late s (record s { phase = closing err; err_ch = some err })
  closes :
      (s : Timing) (err : Option String)
      → s.phase ≡ closing err
      → Step late s (record s { phase = ended err; done = true })
  expires : (s : Timing) → Step late s (record s { expired = true })
  takes_deadline :
      (s : Timing)
      → s.returned ≡ none
      → s.expired ≡ true
      → Step late s
          (abort_with_error (pos 504) (some late) (record s { returned = some timed_out }))
  takes_error :
      (s : Timing) (err : Option String)
      → s.returned ≡ none
      → s.err_ch ≡ some err
      → Step late s (on_received err (record s { err_ch = none }))
  takes_done :
      (s : Timing)
      → s.returned ≡ none
      → s.done ≡ true
      → Step late s (record s { returned = some saw_done })

pub data Steps (late : String) : Timing → Timing → Type 0 where
  stay : (s : Timing) → Steps late s s
  onward : {s t u : Timing} → Steps late s t → Step late t u → Steps late s u
