-- ===== src/Metrics/Collect.antt =====
-- What the collector (metrics.go) keeps of the calls that it gets.
use Prim.Native.String
use text.Mathlib.Text.{◌==◌}
use text.Mathlib.TextPositions.{eq_refl}
use r.Common.{
  ℕ, ◌+◌, ◌<◌, ◌≤◌, ◌≡◌, refl, sym, ap, ap₂, ◌∙◌, String, Option, none, some, List, [], ◌∷◌, map,
  arith, length, if◌then◌else◌, eq_iff, Bool-cases, inl, inr,
}
use mathlib.Core.Path.{fun_ext}
use mathlib.Core.List.{Permᴰ}
use r.Common.Int.{ℤ, pos, add_64, add_64-one, two_63}
use r.Common.Maps.{Map, load, store, load-store, Distinct, or_else, or_else-none}
use r.Common.Sort.{sort_texts-perm}
use r.Metrics.Call.{Tags, Counter}
use r.Metrics.{
  Collector, tag, format_tags, format_key, or_zero, increment_counter, Metric, whole, real, collect,
  get_metrics,
}

abbrev keys : Tags → List String
keys tags = map (λ (e : String × String). e.0) tags

-- Two lists of entries of one map.
pub record SameMap (tags tags' : Tags) : Type 0 where
  pub keys_perm : Permᴰ (keys tags) (keys tags')
  pub same : (k : String) → load tags k ≡ load tags' k

-- The key of a metric depends on the map of its tags only, not on the order that Go's range gives
-- the entries in.
pub format_key-SameMap :
    (name : String) (tags tags' : Tags)
    → SameMap tags tags'
    → format_key name tags ≡ format_key name tags'
unfolding format_key load
format_key-SameMap name [] [] s = refl
format_key-SameMap name [] (e ∷ tags') s = ground (arith, s.same e.0, eq_refl e.0)
format_key-SameMap name (e ∷ tags) [] s = ground (arith, s.same e.0, eq_refl e.0)
format_key-SameMap name (e ∷ tags) (e' ∷ tags') s =
    ap₂ (λ ks value. Prim.Native.String.◌++◌ name (format_tags ks value))
      (sort_texts-perm s.keys_perm) (fun_ext (λ k. ap tag (s.same k)))

-- One for a call that goes to the key.
abbrev pub hit : String → Counter → ℕ
hit key call = if format_key call.name call.tags == key then 1 else 0

-- How many of the calls go to the key.
abbrev pub occurrences : String → List Counter → ℕ
occurrences key [] = 0
occurrences key (call ∷ calls) = hit key call + occurrences key calls

hit-le : (key : String) (call : Counter) → hit key call ≤ 1
hit-le key call = ground arith

module _ {V : Type 0} where
  -- Calls of IncrementCounter one after another.
  unfoldable pub increment_all : List Counter → Collector V → Collector V
  increment_all [] m = m
  increment_all (call ∷ calls) m = increment_all calls (increment_counter call.name call.tags m)

  abbrev counter : Collector V → String → ℤ
  counter m key = or_zero (load m.counters key)

  counter-increment :
      (call : Counter) (m : Collector V) (key : String) (n : ℕ)
      → counter m key ≡ pos n
      → n + 1 < two_63
      → counter (increment_counter call.name call.tags m) key ≡ pos (n + hit key call)
  unfolding increment_counter
  counter-increment call m key n e h =
      let at = format_key call.name call.tags in
      let one : add_64 (pos n) (pos 1) ≡ pos (n + 1) = add_64-one (pos n) refl h in
      elim (Bool-cases (at == key)) [
        | inl hit ↦
            ap or_zero (load-store m.counters at key _)
            ∙ rw hit (
                ap (λ k. add_64 (or_zero (load m.counters k)) (pos 1)) ((eq_iff at key).0 hit)
                ∙ ap (λ z. add_64 z (pos 1)) e
                ∙ one)
        | inr miss ↦
            ap or_zero (load-store m.counters at key _) ∙ rw miss (e ∙ ap pos (omega arith))
      ]

  -- A counter counts: after fewer than 2^63 increments of a collector it has gone up by exactly the
  -- number of the calls whose name and tags make its key; the other calls do not touch it.
  increment_all_counts :
      (calls : List Counter) (m : Collector V) (key : String) (n : ℕ)
      → or_zero (load m.counters key) ≡ pos n
      → n + length calls < two_63
      → or_zero (load (increment_all calls m).counters key) ≡ pos (n + occurrences key calls)
  unfolding increment_all
  increment_all_counts [] m key n e h = e ∙ ap pos (omega arith)
  increment_all_counts (call ∷ calls) m key n e h =
      increment_all_counts calls (increment_counter call.name call.tags m) key (n + hit key call)
        (counter-increment call m key n e (omega arith)) (omega (arith, hit-le key call))
      ∙ ap pos (omega arith)

abbrev pub map_option {ℓ κ} : {A : Type ℓ} {B : Type κ} → (A → B) → Option A → Option B
map_option f none = none
map_option f (some a) = some (f a)

load-collect :
    {V T : Type 0} (inject : T → Metric V) (table : Map T) (out : Map (Metric V)) (key : String)
    → Distinct table
    → load (collect inject table out) key
      ≡ or_else (map_option inject (load table key)) (load out key)
unfolding collect load
load-collect inject [] out key d = refl
load-collect inject (entry ∷ entries) out key d =
    load-collect inject entries (store out entry.0 (inject entry.1)) key d.1
    ∙ ap (or_else (map_option inject (load entries key)))
        (load-store out entry.0 key (inject entry.1))
    ∙ (elim (Bool-cases (entry.0 == key)) [
      | inl own ↦ rw (own, ap (load entries) (sym ((eq_iff entry.0 key).0 own)) ∙ d.0)
      | inr other ↦ rw other
    ])

-- GetMetrics gives each key one number: the last recorded value if there is one, or else the last
-- timing, or else the count. So a timing hides a counter under the same key, and a value both.
get_metrics_lem :
    {V : Type 0} (m : Collector V) (key : String)
    → Distinct m.counters
    → Distinct m.timings
    → Distinct m.values
    → load (get_metrics m) key
      ≡ or_else
          (map_option real (load m.values key))
          (or_else (map_option whole (load m.timings key)) (map_option whole (load m.counters key)))
unfolding get_metrics load
get_metrics_lem m key c t v =
    load-collect real m.values _ key v
    ∙ ap (or_else (map_option real (load m.values key))) (
        load-collect whole m.timings _ key t
        ∙ ap (or_else (map_option whole (load m.timings key))) (
            load-collect whole m.counters [] key c
            ∙ or_else-none (map_option whole (load m.counters key))))
