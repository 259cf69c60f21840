-- ===== src/Server/Safety.antt =====
-- What Server.Stop (server_stop.go) returns, and that its goroutines never wait for the channel.
use r.Common.{
  ◌+◌, ◌<◌, ◌≡◌, refl, ap, String, Bool, true, false, Bool-cases, some, List, length, ◌⊎◌, inl, inr,
  arith,
}
use r.Server.Stop.{
  Task, running, sending, finished, Result, timed_out, Stopping, start_stop, outcome, Steps,
  err_capacity,
}
use r.Server.Books.{occurrences, alive, budget, unsent, stop-Inv}

pub finished_if : (t : Task) → alive t ≡ 0 → t ≡ finished
finished_if (running rest) e = absurd (omega (arith, e))
finished_if (sending text rest) e = absurd (omega (arith, e))
finished_if finished e = refl

-- A goroutine of Stop that has an error to send finds the channel open and with room, so that it
-- neither blocks nor panics, and none has panicked before; also after Stop has returned on its
-- deadline.
pub stop_never_blocks :
    (metrics syncer : Bool) (fs : List String) (s : Stopping) (text : String) (rest : List String)
    → Steps (start_stop metrics syncer) fs s
    → (s.http ≡ sending text rest) ⊎ (s.cleanup ≡ sending text rest)
    → (length s.shared.errors < err_capacity)
      × (s.shared.closed ≡ false)
      × (s.shared.crashed ≡ false)
stop_never_blocks metrics syncer fs s text rest run who =
    let (v, _) = stop-Inv metrics syncer run in
    let left : (0 < budget s.http + budget s.cleanup) × (0 < alive s.http + alive s.cleanup) =
      elim who [
        | inl h ↦ (omega (arith, ap budget h), omega (arith, ap alive h))
        | inr c ↦ (omega (arith, ap budget c), omega (arith, ap alive c))
      ] in
    (
      omega (arith, v.room, left.0),
      elim (Bool-cases s.shared.closed) [
        | inl closed ↦ absurd (omega (arith, v.waited (v.shut closed), left.1))
        | inr open' ↦ open'
      ],
      v.calm,
    )

-- When Stop returns, its deadline has passed, or the three goroutines have ended and its result is
-- made of exactly the errors that there were, each as often as there was one; so it is a success
-- only if there was none.
pub stop_reports :
    (metrics syncer : Bool) (fs : List String) (s : Stopping) (r : Result)
    → Steps (start_stop metrics syncer) fs s
    → s.result ≡ some r
    → ((r ≡ timed_out) × (s.expired ≡ true))
      ⊎ ((es : List String) × (r ≡ outcome es)
          × ((x : String) → occurrences x es ≡ occurrences x fs)
          × (s.http ≡ finished)
          × (s.drain ≡ finished)
          × (s.cleanup ≡ finished))
stop_reports metrics syncer fs s r run e =
    let (v, told) = stop-Inv metrics syncer run in
    elim (told r e) [
      | inl late ↦ inl late
      | inr (same, d) ↦
          let none_left = v.waited d in
          let h = finished_if s.http (omega (arith, none_left)) in
          let k = finished_if s.drain (omega (arith, none_left)) in
          let c = finished_if s.cleanup (omega (arith, none_left)) in
          inr (
            s.shared.errors,
            same,
            λ x. omega (arith, v.kept x, ap (unsent x) h, ap (unsent x) k, ap (unsent x) c),
            h,
            k,
            c,
          )
    ]
