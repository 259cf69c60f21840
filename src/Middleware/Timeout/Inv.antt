-- ===== src/Middleware/Timeout/Inv.antt =====
-- What holds in every state of Timeout (middleware.go).
use r.Common.{Bool, String, true, ◌≡◌, refl, sym, ap, ◌∙◌, Option, none, some, ◌⊎◌, inl, inr, arith}
use mathlib.Core.Path.{subst}
use mathlib.Core.Option.{some-injective}
use r.Common.Int.{ℤ, pos}
use r.Middleware.Timeout.{
  Phase, running, sending, closing, ended, Returned, timed_out, received, saw_done, Timing,
  start_timeout, abort_with_error, on_received, panic_error, Step, writes, aborts, fails,
  next_returns, next_panics, sends, closes, expires, takes_deadline, takes_error, takes_done, Steps,
  stay, onward,
}

-- The error with which the handlers have ended, if they have.
abbrev pub finished_with : Phase → Option (Option String)
finished_with running = none
finished_with (sending err) = some err
finished_with (closing err) = some err
finished_with (ended err) = some err

-- Where the error comes from with which the handlers have ended: it is the context's, or that of a
-- panic.
abbrev pub ComesFrom : Option String → Option String → Type 0
ComesFrom err own = (err ≡ own) ⊎ ((v : String) × (err ≡ some (panic_error v)))

-- What each way to return says of the rest: of the phase, of the timer, of the context.
abbrev pub Explains : Returned → Timing → Type 0
Explains timed_out s = (s.expired ≡ true) × (s.aborted ≡ true)
Explains (received none) s = (finished_with s.phase ≡ some none) × (s.err ≡ none)
Explains (received (some e)) s =
    (finished_with s.phase ≡ some (some e))
    × (s.aborted ≡ true)
    × (s.err ≡ some e)
    × (s.status ≡ pos 500)
Explains saw_done s =
    (err : Option String) × (s.phase ≡ ended err) × (s.err_ch ≡ some err) × ComesFrom err s.err

-- Up to the return, what the goroutine has sent is in the channel, and its error is accounted for.
record Open (s : Timing) : Type 0 where
  source : (err : Option String) → finished_with s.phase ≡ some err → ComesFrom err s.err
  unread : (err : Option String) → s.phase ≡ closing err → s.err_ch ≡ some err
  left : (err : Option String) → s.phase ≡ ended err → s.err_ch ≡ some err

pub record Inv (s : Timing) : Type 0 where
  channel :
      (err : Option String) → s.err_ch ≡ some err → (s.phase ≡ closing err) ⊎ (s.phase ≡ ended err)
  over : s.done ≡ true → (err : Option String) × (s.phase ≡ ended err)
  waiting : s.returned ≡ none → Open s
  pub explained : (r : Returned) → s.returned ≡ some r → Explains r s

-- While the handlers run, the middleware can only have returned on its deadline.
Explains-running :
    (r : Returned) (s t : Timing)
    → s.phase ≡ running
    → t.expired ≡ s.expired
    → (s.aborted ≡ true → t.aborted ≡ true)
    → Explains r s
    → Explains r t
Explains-running timed_out s t p e a (x, y) = (e ∙ x, a y)
Explains-running (received none) s t p e a (x, y) = absurd (ground (arith, ap finished_with p, x))
Explains-running (received (some error)) s t p e a (x, y, z, u) =
    absurd (ground (arith, ap finished_with p, x))
Explains-running saw_done s t p e a (err, x, y, z) = absurd (ground (arith, p, x))

-- Nothing is lost when the goroutine goes on to its end.
Explains-kept :
    (r : Returned) (s t : Timing)
    → finished_with t.phase ≡ finished_with s.phase
    → ((err : Option String) → s.phase ≡ ended err → t.phase ≡ ended err)
    → ((err : Option String) → s.err_ch ≡ some err → t.err_ch ≡ some err)
    → (s.expired ≡ true → t.expired ≡ true)
    → t.aborted ≡ s.aborted
    → t.err ≡ s.err
    → t.status ≡ s.status
    → Explains r s
    → Explains r t
Explains-kept timed_out s t p e c x a er st (u, v) = (x u, a ∙ v)
Explains-kept (received none) s t p e c x a er st (u, v) = (p ∙ u, er ∙ v)
Explains-kept (received (some error)) s t p e c x a er st (u, v, w, z) =
    (p ∙ u, a ∙ v, er ∙ w, st ∙ z)
Explains-kept saw_done s t p e c x a er st (err, u, v, w) =
    (err, e err u, c err v, subst (ComesFrom err) (sym er) w)

-- A step of the running handlers, up to their end.
goes_on :
    (s : Timing) (p : Phase) (code : ℤ) (own : Option String) (aborted : Bool)
    → s.phase ≡ running
    → (p ≡ running) ⊎ ((err : Option String) × (p ≡ sending err) × ComesFrom err own)
    → (s.aborted ≡ true → aborted ≡ true)
    → Inv s
    → Inv (record s { phase = p; status = code; err = own; aborted = aborted })
goes_on s p code own aborted h k a v = record {
  channel = λ err e. elim (v.channel err e) [
    | inl c ↦ absurd (ground (arith, h, c))
    | inr c ↦ absurd (ground (arith, h, c))
  ];
  over = λ d. let (err, e) = v.over d in absurd (ground (arith, h, e));
  waiting = λ n. record {
    source = λ err e. elim k [
      | inl going ↦ absurd (ground (arith, ap finished_with going, e))
      | inr (found, at, from) ↦
          subst (λ x. ComesFrom x own) (some-injective found err (sym (ap finished_with at) ∙ e))
            from
    ];
    unread = λ err e. elim k [
      | inl going ↦ absurd (ground (arith, going, e))
      | inr (found, at, from) ↦ absurd (ground (arith, at, e))
    ];
    left = λ err e. elim k [
      | inl going ↦ absurd (ground (arith, going, e))
      | inr (found, at, from) ↦ absurd (ground (arith, at, e))
    ];
  };
  explained = λ r e. Explains-running r s _ h refl a (v.explained r e);
}

ended_with :
    (s : Timing) (err : Option String)
    → (s.phase ≡ closing err) ⊎ (s.phase ≡ ended err)
    → finished_with s.phase ≡ some err
ended_with s err (inl e) = ap finished_with e
ended_with s err (inr e) = ap finished_with e

no_error : (own : Option String) → ComesFrom none own → own ≡ none
no_error own (inl e) = sym e
no_error own (inr (v, e)) = absurd (ground (arith, e))

took :
    (s : Timing) (err : Option String)
    → s.returned ≡ none
    → (s.phase ≡ closing err) ⊎ (s.phase ≡ ended err)
    → Inv s
    → Inv (on_received err (record s { err_ch = none }))
took s none n p v = record {
  channel = λ err e. ground arith;
  over = v.over;
  waiting = λ e. ground arith;
  explained = λ r e.
      subst (λ q. Explains q (on_received none (record s { err_ch = none })))
        (some-injective (received none) r e)
        (ended_with s none p, no_error s.err ((v.waiting n).source none (ended_with s none p)));
}
took s (some error) n p v = record {
  channel = λ err e. ground arith;
  over = v.over;
  waiting = λ e. ground arith;
  explained = λ r e.
      subst (λ q. Explains q (on_received (some error) (record s { err_ch = none })))
        (some-injective (received (some error)) r e)
        (ended_with s (some error) p, refl, refl, refl);
}

Step-Inv : {late : String} {s t : Timing} → Step late s t → Inv s → Inv t
Step-Inv (writes s code p) v = goes_on s s.phase code s.err s.aborted p (inl p) (λ x. x) v
Step-Inv (aborts s p) v = goes_on s s.phase s.status s.err true p (inl p) (λ x. refl) v
Step-Inv (fails s code error p) v = goes_on s s.phase code error true p (inl p) (λ x. refl) v
Step-Inv (next_returns s p) v =
    goes_on s (sending s.err) s.status s.err s.aborted p (inr (s.err, refl, inl refl)) (λ x. x) v
Step-Inv (next_panics s x p) v =
    goes_on s (sending _) s.status s.err s.aborted p (inr (_, refl, inr (x, refl))) (λ x. x) v
Step-Inv (sends s err p e) v = record {
  channel = λ err' e'. inl (ground (arith, e'));
  over = λ d. let (err', e') = v.over d in absurd (ground (arith, p, e'));
  waiting = λ n. record {
    source = λ err' e'. (v.waiting n).source err' (ap finished_with p ∙ e');
    unread = λ err' e'. ground (arith, e');
    left = λ err' e'. absurd (ground (arith, e'));
  };
  explained = λ r e'.
      Explains-kept r s _ (sym (ap finished_with p)) (λ err' e''. absurd (ground (arith, p, e'')))
        (λ err' e''. absurd (ground (arith, e, e''))) (λ x. x) refl refl refl (v.explained r e');
}
Step-Inv (closes s err p) v = record {
  channel = λ err' e. elim (v.channel err' e) [
    | inl c ↦ inr (ground (arith, p, c))
    | inr c ↦ absurd (ground (arith, p, c))
  ];
  over = λ _. (err, refl);
  waiting = λ n. record {
    source = λ err' e'. (v.waiting n).source err' (ap finished_with p ∙ e');
    unread = λ err' e'. absurd (ground (arith, e'));
    left = λ err' e'.
        (v.waiting n).unread err' (p ∙ ap closing (some-injective err err' (ap finished_with e')));
  };
  explained = λ r e'.
      Explains-kept r s _ (sym (ap finished_with p)) (λ err' e''. absurd (ground (arith, p, e'')))
        (λ err' x. x) (λ x. x) refl refl refl (v.explained r e');
}
Step-Inv (expires s) v = record {
  channel = v.channel;
  over = v.over;
  waiting = λ n. record {
    source = (v.waiting n).source;
    unread = (v.waiting n).unread;
    left = (v.waiting n).left;
  };
  explained = λ r e.
      Explains-kept r s _ refl (λ _ x. x) (λ _ x. x) (λ _. refl) refl refl refl (v.explained r e);
}
Step-Inv {late} (takes_deadline s n x) v = record {
  channel = v.channel;
  over = v.over;
  waiting = λ e. ground arith;
  explained = λ r e.
      subst
        (λ q.
          Explains q
            (abort_with_error (pos 504) (some late) (record s { returned = some timed_out })))
        (some-injective timed_out r e) (x, refl);
}
Step-Inv (takes_error s err n c) v = took s err n (v.channel err c) v
Step-Inv (takes_done s n d) v = record {
  channel = v.channel;
  over = v.over;
  waiting = λ e. ground arith;
  explained = λ r e.
      let (err, at) = v.over d in
      subst (λ q. Explains q (record s { returned = some saw_done })) (some-injective saw_done r e)
        (err, at, (v.waiting n).left err at, (v.waiting n).source err (ap finished_with at));
}

pub start_timeout-Inv : (status : ℤ) → Inv (start_timeout status)
start_timeout-Inv status = record {
  channel = λ err e. ground arith;
  over = λ d. ground arith;
  waiting = λ _. record {
    source = λ err e. ground arith;
    unread = λ err e. ground arith;
    left = λ err e. ground arith;
  };
  explained = λ r e. ground arith;
}

pub Steps-Inv : {late : String} {s t : Timing} → Inv s → Steps late s t → Inv t
Steps-Inv v (stay s) = v
Steps-Inv v (onward run step) = Step-Inv step (Steps-Inv v run)
