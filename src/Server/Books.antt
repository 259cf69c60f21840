-- ===== src/Server/Books.antt =====
-- What holds in every state of Server.Stop (server_stop.go): the books of the goroutines' errors.
use mathlib.Core.Path.{subst}
use mathlib.Core.List.{append-nil, append_assoc}
use r.Common.{
  ℕ, suc, ◌+◌, ◌≤◌, ◌≡◌, refl, sym, ap, ◌∙◌, String, Bool, true, false, Option, some, List, [], ◌∷◌,
  ◌++◌, length, length-append, if◌then◌else◌, str_eq, ◌⊎◌, inl, inr, arith,
}
use r.Server.Stop.{
  Task, running, sending, finished, Shared, Result, timed_out, Stopping, start_stop,
  cleanup_resources, wrap_error, Acts, succeeds, fails, sends, crashes, ends, outcome, Step,
  http_acts, drain_acts, cleanup_acts, waits, expires, times_out, collects, Steps, stay, onward,
}

-- How often a text is in a list.
abbrev pub occurrences : String → List String → ℕ
occurrences x [] = 0
occurrences x (y ∷ ys) = let rest = occurrences x ys in (if str_eq x y then 1 else 0) + rest

pub occurrences-append :
    (x : String) (es fs : List String)
    → occurrences x (es ++ fs) ≡ occurrences x es + occurrences x fs
occurrences-append x [] fs = omega arith
occurrences-append x (e ∷ es) fs = omega (arith, occurrences-append x es fs)

-- One for a goroutine that has not called wg.Done, and the most errors that it can still send.
abbrev pub alive : Task → ℕ
alive (running rest) = 1
alive (sending text rest) = 1
alive finished = 0

abbrev pub budget : Task → ℕ
budget (running rest) = length rest
budget (sending text rest) = suc (length rest)
budget finished = 0

abbrev pub unsent : String → Task → ℕ
unsent x (running rest) = 0
unsent x (sending text rest) = occurrences x (text ∷ [])
unsent x finished = 0

-- The books over the errors `fs` that there were: `a` goroutines have not ended, they can send `b`
-- errors more, and hold `p x` times the error x unsent.
pub record Ledger (fs : List String) (sh : Shared) (a b : ℕ) (p : String → ℕ) (done : Bool)
    : Type 0 where
  pub open' : sh.wg ≡ a
  pub room : length sh.errors + b ≤ 3
  pub calm : sh.crashed ≡ false
  pub waited : done ≡ true → a ≡ 0
  pub shut : sh.closed ≡ true → done ≡ true
  pub kept : (x : String) → occurrences x fs ≡ occurrences x sh.errors + p x

Acts-alive : {t u : Task} {sh sh' : Shared} {es : List String} → Acts t sh es u sh' → alive t ≡ 1
Acts-alive (succeeds label rest sh) = refl
Acts-alive (fails label error rest sh) = refl
Acts-alive (sends text rest sh room open') = refl
Acts-alive (crashes text rest sh closed) = refl
Acts-alive (ends sh) = refl

-- While a goroutine is alive the channel is open.
still_open :
    {fs : List String} {sh : Shared} {a b : ℕ} {p : String → ℕ} {done : Bool}
    → Ledger fs sh (suc a) b p done
    → (sh.closed ≡ false) × (done ≡ false)
still_open {sh} {done} v = ground (arith, v.waited, v.shut)

Acts-Ledger :
    {t u : Task} {sh sh' : Shared} {es fs : List String} {done : Bool} (a b : ℕ) (p : String → ℕ)
    → Acts t sh es u sh'
    → Ledger fs sh (alive t + a) (budget t + b) (λ x. unsent x t + p x) done
    → Ledger (fs ++ es) sh' (alive u + a) (budget u + b) (λ x. unsent x u + p x) done
Acts-Ledger {fs} a b p (succeeds label rest sh) v = record {
  open' = v.open';
  room = omega (arith, v.room);
  calm = v.calm;
  waited = λ d. absurd (omega (arith, v.waited d));
  shut = v.shut;
  kept = λ x. omega (arith, v.kept x, occurrences-append x fs []);
}
Acts-Ledger {fs} a b p (fails label error rest sh) v = record {
  open' = v.open';
  room = omega (arith, v.room);
  calm = v.calm;
  waited = λ d. absurd (omega (arith, v.waited d));
  shut = v.shut;
  kept = λ x. omega (arith, v.kept x, occurrences-append x fs (wrap_error label error ∷ []));
}
Acts-Ledger {fs} a b p (sends text rest sh room' open') v = record {
  open' = v.open';
  room = omega (arith, v.room, length-append sh.errors (text ∷ []));
  calm = v.calm;
  waited = λ d. absurd (omega (arith, v.waited d));
  shut = v.shut;
  kept = λ x.
      omega
        (arith, v.kept x, occurrences-append x fs [], occurrences-append x sh.errors (text ∷ []));
}
Acts-Ledger a b p (crashes text rest sh closed) v = absurd (omega (arith, v.waited (v.shut closed)))
Acts-Ledger {fs} a b p (ends sh) v = record {
  open' = omega (arith, v.open');
  room = omega (arith, v.room);
  calm = v.calm;
  waited = λ d. absurd (omega (arith, v.waited d));
  shut = v.shut;
  kept = λ x. omega (arith, v.kept x, occurrences-append x fs []);
}

-- The same books under other names of the sums.
Ledger-equal :
    {fs : List String} {sh : Shared} {a b a' b' : ℕ} {p p' : String → ℕ} {done : Bool}
    → a ≡ a'
    → b ≡ b'
    → ((x : String) → p x ≡ p' x)
    → Ledger fs sh a b p done
    → Ledger fs sh a' b' p' done
Ledger-equal {sh = sh} ea eb ep v = record {
  open' = v.open' ∙ ea;
  room = omega (arith, v.room, eb);
  calm = v.calm;
  waited = λ d. omega (arith, v.waited d, ea);
  shut = v.shut;
  kept = λ x. v.kept x ∙ ap (λ n. occurrences x sh.errors + n) (ep x);
}

abbrev pub Books : List String → Stopping → Type 0
Books fs s =
    Ledger fs s.shared (alive s.http + (alive s.drain + alive s.cleanup))
      (budget s.http + (budget s.drain + budget s.cleanup))
      (λ x. unsent x s.http + (unsent x s.drain + unsent x s.cleanup)) s.done

-- What Stop has returned is the deadline, after it has passed, or the errors, after the last of the
-- goroutines.
abbrev pub Told : Shared → Bool → Bool → Option Result → Type 0
Told sh done expired result =
    (r : Result)
    → result ≡ some r
    → ((r ≡ timed_out) × (expired ≡ true)) ⊎ ((r ≡ outcome sh.errors) × (done ≡ true))

abbrev pub Inv : List String → Stopping → Type 0
Inv fs s = Books fs s × Told s.shared s.done s.expired s.result

-- A goroutine acts, so Stop has not returned errors.
Acts-Told :
    {t u : Task} {sh sh' : Shared} {es : List String} {done expired : Bool} {result : Option Result}
    → Acts t sh es u sh'
    → (done ≡ true → alive t ≡ 0)
    → Told sh done expired result
    → Told sh' done expired result
Acts-Told act waited told r e = elim (told r e) [
  | inl late ↦ inl late
  | inr (same, d) ↦ absurd (omega (arith, waited d, Acts-alive act))
]

quiet : {fs : List String} (s : Stopping) → Inv fs s → Inv (fs ++ []) s
quiet {fs} s v = subst (λ gs. Inv gs s) (sym (append-nil fs)) v

pub Step-Inv : {s t : Stopping} {es fs : List String} → Step s es t → Inv fs s → Inv (fs ++ es) t
Step-Inv (http_acts s act) (v, told) =
    (Acts-Ledger _ _ _ act v, Acts-Told act (λ d. omega (arith, v.waited d)) told)
Step-Inv (drain_acts s act) (v, told) =
    let a = alive s.http + alive s.cleanup in
    let v' =
      Ledger-equal {a' = alive s.drain + a}
        {b' = budget s.drain + (budget s.http + budget s.cleanup)}
        {p' = λ x. unsent x s.drain + (unsent x s.http + unsent x s.cleanup)} (omega arith)
        (omega arith) (λ x. omega arith) v in
    (
      Ledger-equal (omega arith) (omega arith) (λ x. omega arith)
          (Acts-Ledger a (budget s.http + budget s.cleanup)
            (λ x. unsent x s.http + unsent x s.cleanup) act v'),
      Acts-Told act (λ d. omega (arith, v.waited d)) told,
    )
Step-Inv (cleanup_acts s act) (v, told) =
    let a = alive s.http + alive s.drain in
    let v' =
      Ledger-equal {a' = alive s.cleanup + a}
        {b' = budget s.cleanup + (budget s.http + budget s.drain)}
        {p' = λ x. unsent x s.cleanup + (unsent x s.http + unsent x s.drain)} (omega arith)
        (omega arith) (λ x. omega arith) v in
    (
      Ledger-equal (omega arith) (omega arith) (λ x. omega arith)
          (Acts-Ledger a (budget s.http + budget s.drain) (λ x. unsent x s.http + unsent x s.drain)
            act v'),
      Acts-Told act (λ d. omega (arith, v.waited d)) told,
    )
Step-Inv (waits s w d) (v, told) = quiet _ (
  record {
    open' = v.open';
    room = v.room;
    calm = v.calm;
    waited = λ _. sym v.open' ∙ w;
    shut = λ _. refl;
    kept = v.kept;
  },
  λ r e. elim (told r e) [ inl late ↦ inl late | inr (same, _) ↦ inr (same, refl) ],
)
Step-Inv (expires s) (v, told) =
    quiet _ (v, λ r e. elim (told r e) [ inl (late, _) ↦ inl (late, refl) | inr kept ↦ inr kept ])
Step-Inv (times_out s e n) (v, told) = quiet _ (v, λ r f. inl (ground arith, e))
Step-Inv (collects s d n) (v, told) = quiet _ (
  record {
    open' = v.open';
    room = v.room;
    calm = v.calm;
    waited = v.waited;
    shut = λ _. d;
    kept = v.kept;
  },
  λ r f. inr (ground arith, d),
)

start_stop-Inv : (metrics syncer : Bool) → Inv [] (start_stop metrics syncer)
start_stop-Inv metrics syncer = (
  record {
    open' = refl;
    room = few metrics syncer;
    calm = refl;
    waited = λ d. ground arith;
    shut = λ c. ground arith;
    kept = λ x. refl;
  },
  λ r e. ground arith,
)
  where
    few : (metrics syncer : Bool) → 0 + (1 + (0 + budget (cleanup_resources metrics syncer))) ≤ 3
    few true true = omega arith
    few true false = omega arith
    few false true = omega arith
    few false false = omega arith

pub Steps-Inv : {es fs : List String} {s t : Stopping} → Inv es s → Steps s fs t → Inv (es ++ fs) t
Steps-Inv {es} v (stay s) = quiet s v
Steps-Inv {es} v (onward {u = u} {fs} {es = gs} run step) =
    subst (λ hs. Inv hs u) (append_assoc es fs gs) (Step-Inv step (Steps-Inv v run))

pub stop-Inv :
    (metrics syncer : Bool) {fs : List String} {s : Stopping}
    → Steps (start_stop metrics syncer) fs s
    → Inv fs s
stop-Inv metrics syncer run = Steps-Inv (start_stop-Inv metrics syncer) run
