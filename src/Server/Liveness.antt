-- ===== src/Server/Liveness.antt =====
-- Server.Stop (server_stop.go) comes to an end from wherever it is.
use r.Common.{
  ℕ, zero, suc, ◌+◌, ◌*◌, ◌≤◌, ◌<◌, ◌≡◌, refl, ap, ◌∙◌, String, Bool, true, false, Bool-cases,
  Option-cases, some, List, [], ◌∷◌, length, if◌then◌else◌, ◌⊎◌, inl, inr, arith,
}
use r.Server.Stop.{
  Task, running, sending, finished, Shared, Result, Stopping, start_stop, outcome, Acts, succeeds,
  sends, ends, Step, http_acts, drain_acts, cleanup_acts, waits, collects, Steps, stay, onward,
  err_capacity,
}
use r.Server.Books.{Inv, alive, budget, Step-Inv, stop-Inv}
use r.Server.Safety.{finished_if}

-- The steps that a goroutine has left at most, and those of the whole but the clock's and the select's.
abbrev weight : Task → ℕ
weight (running rest) = 1 + 2 * length rest
weight (sending text rest) = 2 + 2 * length rest
weight finished = 0

abbrev measure : Stopping → ℕ
measure s = weight s.http + (weight s.drain + (weight s.cleanup + (if s.done then 0 else 1)))

-- The number of steps of a run.
abbrev pub steps_of : {s t : Stopping} {fs : List String} → Steps s fs t → ℕ
steps_of (stay s) = 0
steps_of (onward run step) = let n = steps_of run in suc n

-- One step first.
first :
    {s t u : Stopping} {es fs : List String}
    → Step s es t
    → (run : Steps t fs u)
    → (gs : List String) × (run' : Steps s gs u) × (steps_of run' ≡ suc (steps_of run))
first {s} step (stay t) = (_, onward (stay s) step, refl)
first step (onward run last) = let (gs, run', n) = first step run in (_, onward run' last, ap suc n)

-- A goroutine that has not ended can act, when the channel is open and has room for its errors.
next_act :
    (t : Task) (sh : Shared)
    → length sh.errors + budget t ≤ err_capacity
    → sh.closed ≡ false
    → (t ≡ finished)
      ⊎ ((es : List String) × (u : Task) × (sh' : Shared) × Acts t sh es u sh'
          × (weight u < weight t))
next_act (running []) sh room open' = inr ([], finished, _, ends sh, omega arith)
next_act (running (label ∷ rest)) sh room open' =
    inr ([], running rest, _, succeeds label rest sh, omega arith)
next_act (sending text rest) sh room open' =
    inr ([], running rest, _, sends text rest sh (omega (arith, room)) open', omega arith)
next_act finished sh room open' = inl refl

-- The end: the goroutines have ended, Stop knows it, and has returned.
abbrev pub IsSettled : Stopping → Type 0
IsSettled s =
    (s.http ≡ finished)
    × (s.drain ≡ finished)
    × (s.cleanup ≡ finished)
    × (s.done ≡ true)
    × (r : Result) × (s.result ≡ some r)

abbrev Settles : ℕ → Stopping → Type 0
Settles n s =
    (u : Stopping) × (gs : List String) × (run : Steps s gs u) × (steps_of run ≤ n)
    × (u.expired ≡ s.expired)
    × IsSettled u

settle_later :
    {s t : Stopping} {es : List String} {n : ℕ}
    → Step s es t
    → t.expired ≡ s.expired
    → Settles n t
    → Settles (suc n) s
settle_later step still (u, gs, run, few, same, settled) =
    let (hs, run', n) = first step run in
    (u, hs, run', omega (arith, few, n), same ∙ still, settled)

abbrev AllOver : Stopping → Type 0
AllOver s = (s.http ≡ finished) × (s.drain ≡ finished) × (s.cleanup ≡ finished) × (s.done ≡ true)

abbrev GoesOn : Stopping → Type 0
GoesOn s =
    (es : List String) × (t : Stopping) × Step s es t
    × (t.expired ≡ s.expired)
    × (measure t < measure s)

-- The goroutine that waits sees that the others have ended.
see_end :
    {fs : List String} (s : Stopping)
    → Inv fs s
    → s.http ≡ finished
    → s.drain ≡ finished
    → s.cleanup ≡ finished
    → GoesOn s ⊎ AllOver s
see_end s (v, _) h d c = elim (Bool-cases s.done) [
  | inl over ↦ inr (h, d, c, over)
  | inr going ↦
      let none_left : s.shared.wg ≡ 0 =
        omega (arith, v.open', ap alive h, ap alive d, ap alive c) in
      inl (
        [],
        record s { done = true },
        waits s none_left going,
        refl,
        omega (arith, ap {B = ℕ} (λ (b : Bool). if b then 0 else 1) going),
      )
]

go_on : {fs : List String} (s : Stopping) → Inv fs s → GoesOn s ⊎ AllOver s
go_on s (v, told) = elim (Bool-cases s.shared.closed) [
  | inl closed ↦
      let over = v.shut closed in
      let none_left = v.waited over in
      inr (
        finished_if s.http (omega (arith, none_left)),
        finished_if s.drain (omega (arith, none_left)),
        finished_if s.cleanup (omega (arith, none_left)),
        over,
      )
  | inr open' ↦ elim (next_act s.http s.shared (omega (arith, v.room)) open') [
    | inr (es, u, sh, act, less) ↦ inl (es, _, http_acts s act, refl, omega (arith, less))
    | inl h ↦ elim (next_act s.drain s.shared (omega (arith, v.room)) open') [
      | inr (es, u, sh, act, less) ↦ inl (es, _, drain_acts s act, refl, omega (arith, less))
      | inl d ↦ elim (next_act s.cleanup s.shared (omega (arith, v.room)) open') [
        | inr (es, u, sh, act, less) ↦ inl (es, _, cleanup_acts s act, refl, omega (arith, less))
        | inl c ↦ see_end s (v, told) h d c
      ]
    ]
  ]
]

-- Stop returns, if it has not on its deadline.
return_now : (s : Stopping) → AllOver s → Settles 1 s
return_now s (h, d, c, over) = elim (Option-cases s.result) [
  | inl waiting ↦ (
    _,
    _,
    onward (stay s) (collects s over waiting),
    omega arith,
    refl,
    (h, d, c, over, outcome s.shared.errors, refl),
  )
  | inr (r, e) ↦ (s, _, stay s, omega arith, refl, (h, d, c, over, r, e))
]

settle : (n : ℕ) {fs : List String} (s : Stopping) → Inv fs s → measure s ≤ n → Settles (suc n) s
settle zero s v few = elim (go_on s v) [
  | inl (es, t, step, still, less) ↦ absurd (omega (arith, less, few))
  | inr over ↦ return_now s over
]
settle (suc n) s v few = elim (go_on s v) [
  | inl (es, t, step, still, less) ↦
      settle_later step still (settle n t (Step-Inv step v) (omega (arith, less, few)))
  | inr over ↦
      let (u, gs, run, short, same, settled) = return_now s over in
      (u, gs, run, omega (arith, short), same, settled)
]

weight-budget : (t : Task) → weight t ≤ 2 * budget t + alive t
weight-budget (running rest) = omega arith
weight-budget (sending text rest) = omega arith
weight-budget finished = omega arith

alive_le : (t : Task) → alive t ≤ 1
alive_le (running rest) = omega arith
alive_le (sending text rest) = omega arith
alive_le finished = omega arith

measure_le : {fs : List String} (s : Stopping) → Inv fs s → measure s ≤ 10
measure_le s (v, _) = elim (Bool-cases s.done) [
  | inl over ↦ omega (arith, bound s, v.room, ap {B = ℕ} (λ (b : Bool). if b then 0 else 1) over)
  | inr going ↦ omega (arith, bound s, v.room, ap {B = ℕ} (λ (b : Bool). if b then 0 else 1) going)
]
  where
    bound :
        (s : Stopping)
        → weight s.http + (weight s.drain + weight s.cleanup)
          ≤ 2 * (budget s.http + (budget s.drain + budget s.cleanup)) + 3
    bound s = omega (
      arith,
      weight-budget s.http,
      weight-budget s.drain,
      weight-budget s.cleanup,
      alive_le s.http,
      alive_le s.drain,
      alive_le s.cleanup,
    )

-- Whatever has happened since Stop was called, in whatever order, and also after it has returned on
-- its deadline: within eleven steps, in which the deadline does not pass, the three goroutines can
-- end, the one that waits for them sees it, and Stop returns or has returned.
pub stop_settles :
    (metrics syncer : Bool) (fs : List String) (s : Stopping)
    → Steps (start_stop metrics syncer) fs s
    → (u : Stopping) × (gs : List String) × (run : Steps s gs u) × (steps_of run ≤ 11)
      × (u.expired ≡ s.expired)
      × IsSettled u
stop_settles metrics syncer fs s run =
    let v = stop-Inv metrics syncer run in settle 10 s v (measure_le s v)
