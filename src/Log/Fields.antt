-- ===== src/Log/Fields.antt =====
-- What the logger (log.go) writes: the fields of an entry, and what the level decides.
use text.Mathlib.Text.{◌==◌}
use r.Common.{
  ℕ, ◌≡◌, refl, sym, ap, ◌∙◌, String, Bool, true, false, cond, Option, none, some, List, [], ◌∷◌,
  ◌++◌, if◌then◌else◌,
}
use r.Common.Maps.{
  load, store, load-store, Distinct, or_else, or_else-none, copy_into, load-copy_into,
  copy_into-Distinct,
}
use r.Log.{
  LogLevel, debug_level, info_level, warn_level, error_level, fatal_level, LogEntry, Fields, note,
  StructuredLogger, Sink, get_map, log, add_args, info, error, warn, debug, with_fields, configure,
}

-- One entry more, of the level, in which each key has the value that `value` gives it.
pub record Wrote (level : LogLevel) (value : String → Option String) (before after : Sink)
    : Type 0 where
  pub entry : LogEntry
  pub appended : after.written ≡ before.written ++ (entry ∷ [])
  pub of_level : entry.level ≡ level
  pub values : (key : String) → load entry.fields key ≡ value key

-- The value of the last argument under the key.
abbrev pub argument : List String → String → Option String
argument (k ∷ v ∷ args) key = or_else (argument args key) (if k == key then some v else none)
argument _ key = none

or_else_assoc : (a b c : Option String) → or_else (or_else a b) c ≡ or_else a (or_else b c)
or_else_assoc none b c = refl
or_else_assoc (some x) b c = refl

or_else-cond :
    (b : Bool) (v : String) (o : Option String)
    → cond b (some v) o ≡ or_else (if b then some v else none) o
or_else-cond true v o = refl
or_else-cond false v o = refl

load-add_args :
    (args : List String) (fields : Fields) (key : String)
    → load (add_args args fields) key ≡ or_else (argument args key) (load fields key)
load-add_args [] fields key = refl
load-add_args (k ∷ []) fields key = refl
load-add_args (k ∷ v ∷ args) fields key =
    load-add_args args (store fields k v) key
    ∙ ap (or_else (argument args key)) (load-store fields k key v ∙ or_else-cond (k == key) v _)
    ∙ sym (or_else_assoc (argument args key) _ (load fields key))

load-cloned :
    (l : StructuredLogger) (key : String)
    → Distinct l.fields
    → load (copy_into l.fields []) key ≡ load l.fields key
unfolding load
load-cloned l key d = load-copy_into l.fields [] key d ∙ or_else-none (load l.fields key)

-- A logger that WithFields makes keeps the fields of its parent below the new ones, the parent's
-- level and output, and what it logs with Info shows exactly its arguments over those.
with_fields-info_lem :
    (more : Fields) (msg : String) (args : List String) (l : StructuredLogger) (s : Sink)
    → l.output ≡ true
    → Distinct l.fields
    → Distinct more
    → Wrote info_level
        (λ key. or_else (argument args key) (or_else (load more key) (load l.fields key)))
        s
        (info msg args (with_fields more l s).0 (with_fields more l s).1)
unfolding info with_fields
with_fields-info_lem more msg args l s out d e = record {
  entry = note info_level msg (add_args args (copy_into (with_fields more l s).0.fields [])) false;
  appended = rw out refl;
  of_level = refl;
  values = λ key.
      load-add_args args (copy_into (copy_into more (copy_into l.fields [])) []) key
      ∙ ap (or_else (argument args key)) (
          load-cloned (with_fields more l s).0 key
            (copy_into-Distinct more (copy_into l.fields []) (copy_into-Distinct l.fields [] tt))
          ∙ load-copy_into more (copy_into l.fields []) key e
          ∙ ap (or_else (load more key)) (load-cloned l key d));
}

abbrev pub IsQuiet : LogLevel → Type 0
IsQuiet debug_level = ⊥
IsQuiet _ = Unit

module _ (sprintf : String → List String → String) where
  -- The entry that a logger writes with Warn right after another has written one with Error, on the
  -- same pool, carries the other logger's fields, and below them what the pool's map held before,
  -- wherever it has no field of its own.
  pub error-warn_leaks :
      (msg msg' : String) (args args' : List String) (l l' : StructuredLogger) (s : Sink)
      → l'.output ≡ true
      → Distinct l.fields
      → Distinct l'.fields
      → Wrote warn_level
          (λ key.
            or_else
              (load l'.fields key)
              (or_else (load l.fields key) (load (get_map s.pool).0 key)))
          (error sprintf msg args l s)
          (warn sprintf msg' args' l' (error sprintf msg args l s))
  unfolding error warn
  error-warn_leaks msg msg' args args' l l' s out d d' = record {
    entry =
        note warn_level (sprintf msg' args')
          (copy_into l'.fields (copy_into l.fields (get_map s.pool).0)) false;
    appended = rw out refl;
    of_level = refl;
    values = λ key.
        load-copy_into l'.fields (copy_into l.fields (get_map s.pool).0) key d'
        ∙ ap (or_else (load l'.fields key)) (load-copy_into l.fields (get_map s.pool).0 key d);
  }

  -- A logger that is configured with a level above debug writes nothing for Debug, and the level
  -- has no other effect: Log, Info, Warn and Error do the same at every level.
  configure-levels :
      (output : Bool) (level other : LogLevel) (msg : String) (args : List String)
      (method ip path : String) (status latency : ℕ) (l : StructuredLogger) (s : Sink)
      → IsQuiet level
      → (debug sprintf msg args (configure output level l) s ≡ s)
        × (info msg args (configure output level l) s ≡ info msg args (configure output other l) s)
        × (warn sprintf msg args (configure output level l) s
            ≡ warn sprintf msg args (configure output other l) s)
        × (error sprintf msg args (configure output level l) s
            ≡ error sprintf msg args (configure output other l) s)
        × (log method status latency ip path (configure output level l) s
            ≡ log method status latency ip path (configure output other l) s)
  unfolding configure debug info warn error log
  configure-levels output debug_level other msg args method ip path status latency l s q = absurd q
  configure-levels output info_level other msg args method ip path status latency l s q =
      (refl, refl, refl, refl, refl)
  configure-levels output warn_level other msg args method ip path status latency l s q =
      (refl, refl, refl, refl, refl)
  configure-levels output error_level other msg args method ip path status latency l s q =
      (refl, refl, refl, refl, refl)
  configure-levels output fatal_level other msg args method ip path status latency l s q =
      (refl, refl, refl, refl, refl)
