-- ===== src/Request/Timeouts.antt =====
-- WithTimeout (context.go) with its map of timeouts, and what a handler keeps in a context.
use mathlib.Core.List.{append-nil, append_assoc}
use r.Common.{
  ℕ, ◌+◌, ◌≡◌, refl, sym, ap, ◌∙◌, String, true, false, Option, none, some, List, [], ◌∷◌, ◌++◌,
  length, get_elem?, arith, length-append, Bool-cases, inl, inr, eq_iff, str_eq, if◌then◌else◌,
  ◌==◌, suc, zero,
}
use r.Common.Int.{ℤ}
use r.Common.Maps.{Map, load, store, load-store, length-store_new}
use r.Request.{ContextImpl, blank}

-- Set
abbrev pub set_value : String → String → ContextImpl → ContextImpl
set_value key value c = record c { values = store c.values key value }

-- Get
abbrev pub get_value : String → ContextImpl → Option String
get_value key c = load c.values key

-- `timeout_key n` is `fmt.Sprintf("timeout_%d", n)`.
module _ (timeout_key : ℕ → String) where
  -- The map of timeouts, which is the parent's and the new context's.
  unfoldable pub track_timeout : ℤ → Map ℤ → Map ℤ
  track_timeout timeout timeouts = store timeouts (timeout_key (length timeouts)) timeout

  -- WithTimeout: the parent, and the new context.
  unfoldable pub with_timeout_impl : ℤ → ContextImpl → ContextImpl × ContextImpl
  unfolding track_timeout
  with_timeout_impl timeout c =
      let timeouts = track_timeout timeout c.timeouts in
      (
        record c { timeouts = timeouts },
        record blank {
          request = c.request;
          cancel = true;
          request_id = c.request_id;
          values = c.values;
          handlers = c.handlers;
          start_time = c.start_time;
          spans = c.spans;
          timeouts = timeouts;
          metrics = c.metrics;
          root_span = c.root_span;
          trace_id = c.trace_id;
        },
      )

  -- Calls of WithTimeout one after another on one context.
  unfoldable pub with_timeout_all : List ℤ → ContextImpl → ContextImpl
  with_timeout_all [] c = c
  with_timeout_all (timeout ∷ timeouts) c =
      with_timeout_all timeouts (with_timeout_impl timeout c).0

  -- The map holds these timeouts, each under the number of its call.
  abbrev pub Tracks : List ℤ → Map ℤ → Type 0
  Tracks given timeouts =
      (length timeouts ≡ length given)
      × ((i : ℕ) → load timeouts (timeout_key i) ≡ get_elem? given i)

  get_elem?-snoc :
      (given : List ℤ) (t : ℤ) (i : ℕ)
      → get_elem? (given ++ (t ∷ [])) i ≡ (if length given == i then some t else get_elem? given i)
  get_elem?-snoc [] t zero = refl
  get_elem?-snoc [] t (suc i) = ground arith
  get_elem?-snoc (x ∷ given) t zero = ground arith
  get_elem?-snoc (x ∷ given) t (suc i) = ground (arith, get_elem?-snoc given t i)

  get_elem?_over : (given : List ℤ) → get_elem? given (length given) ≡ none
  get_elem?_over [] = refl
  get_elem?_over (x ∷ given) = get_elem?_over given

  track_timeout-Tracks :
      ((i j : ℕ) → timeout_key i ≡ timeout_key j → i ≡ j)
      → (given : List ℤ) (t : ℤ) (timeouts : Map ℤ) → Tracks given timeouts
      → Tracks (given ++ (t ∷ [])) (track_timeout t timeouts)
  unfolding track_timeout
  track_timeout-Tracks apart given t timeouts (size, held) =
      let free : load timeouts (timeout_key (length timeouts)) ≡ none =
        held (length timeouts) ∙ ap (get_elem? given) size ∙ get_elem?_over given in
      (
        length-store_new timeouts (timeout_key (length timeouts)) t free
            ∙ ap (λ n. n + 1) size
            ∙ omega (arith, length-append given (t ∷ [])),
        λ i.
            load-store timeouts (timeout_key (length timeouts)) (timeout_key i) t
            ∙ elim (Bool-cases (str_eq (timeout_key (length timeouts)) (timeout_key i))) [
              | inl same ↦
                  let at : length given ≡ i =
                    sym size ∙ apart (length timeouts) i ((eq_iff _ _).0 same) in
                  rw same (sym (get_elem?-snoc given t i ∙ rw at (ground arith)))
              | inr other ↦
                  let ne : (length given == i) ≡ false = elim (Bool-cases (length given == i)) [
                    | inl e ↦
                        let eq : length given ≡ i = ground (arith, e) in
                        let same : str_eq (timeout_key (length timeouts)) (timeout_key i) ≡ true =
                          (eq_iff _ _).1 (ap timeout_key (size ∙ eq)) in
                        absurd (ground (arith, other, same))
                    | inr e ↦ e
                  ] in
                  rw other (held i ∙ sym (get_elem?-snoc given t i ∙ rw ne refl))
            ],
      )

  -- However often WithTimeout is called on one context, whose map holds the timeouts of earlier calls only: the map has each
  -- timeout under the number of its call, in the order of the calls, and nothing else is changed.
  with_timeout_all_lem :
      ((i j : ℕ) → timeout_key i ≡ timeout_key j → i ≡ j)
      → (given before : List ℤ) (c : ContextImpl) → Tracks before c.timeouts
      → Tracks (before ++ given) (with_timeout_all given c).timeouts
        × (with_timeout_all given c ≡ record c { timeouts = (with_timeout_all given c).timeouts })
  unfolding with_timeout_all with_timeout_impl
  with_timeout_all_lem apart [] before c v = (rw append-nil v, refl)
  with_timeout_all_lem apart (t ∷ given) before c v =
      let c₁ = record c { timeouts = track_timeout t c.timeouts } in
      let (tracks, same) =
        with_timeout_all_lem apart given (before ++ (t ∷ [])) c₁
          (track_timeout-Tracks apart before t c.timeouts v) in
      (rw (← append_assoc before (t ∷ []) given) tracks, same)
