-- ===== src/Metrics.antt =====
-- The default collector of metrics (metrics.go). A float64 is a value of the type `V`, which the
-- collector only keeps. Counters are 64-bit numbers, and a timing is a duration in nanoseconds.
pub mod Call
pub mod Collect
pub mod Entries
use Prim.Native.String
use r.Common.{String, Option, none, some, List, [], ◌∷◌, map, cond, Bool}
use r.Common.Int.{ℤ, pos, add_64}
use r.Common.Maps.{Map, load, store}
use r.Common.Sort.{sort_texts}
use Call.{Tags}

pub record Collector (V : Type 0) : Type 0 where
  pub counters : Map ℤ
  pub timings : Map ℤ
  pub values : Map V

unfoldable pub new_default_metrics_collector : {V : Type 0} → Collector V
new_default_metrics_collector = record { counters = []; timings = []; values = [] }

-- `tags[k]`, the empty text if there is none
abbrev pub tag : Option String → String
tag none = ""
tag (some v) = v

-- The loop of formatKey over the sorted keys: `:` k `=` v for each.
unfoldable pub format_tags : List String → (String → String) → String
format_tags [] value = ""
format_tags (k ∷ keys) value =
    String.◌++◌ ":"
      (String.◌++◌ k (String.◌++◌ "=" (String.◌++◌ (value k) (format_tags keys value))))

-- formatKey
unfoldable pub format_key : String → Tags → String
unfolding sort_texts format_tags
format_key name [] = name
format_key name (entry ∷ tags) = String.◌++◌ name (
    format_tags (sort_texts (map (λ (e : String × String). e.0) (entry ∷ tags)))
      (λ k. tag (load (entry ∷ tags) k)))

-- What `LoadOrStore` finds, with a zero for a new key.
abbrev pub or_zero : Option ℤ → ℤ
or_zero none = pos 0
or_zero (some n) = n

module _ {V : Type 0} where
  -- IncrementCounter
  unfoldable pub increment_counter : String → Tags → Collector V → Collector V
  increment_counter name tags m =
      let key = format_key name tags in
      record m { counters = store m.counters key (add_64 (or_zero (load m.counters key)) (pos 1)) }

  -- RecordTiming
  unfoldable pub record_timing : String → ℤ → Tags → Collector V → Collector V
  record_timing name duration tags m = record m {
    timings = store m.timings (format_key name tags) duration;
  }

  -- RecordValue
  unfoldable pub record_value : String → V → Tags → Collector V → Collector V
  record_value name value tags m = record m { values = store m.values (format_key name tags) value }

-- `interface{}` of the map that GetMetrics returns.
pub data Metric (V : Type 0) : Type 0 where
  whole : ℤ → Metric V
  real : V → Metric V

module _ {V : Type 0} {T : Type 0} where
  -- One of the three calls of Range.
  unfoldable pub collect : (T → Metric V) → Map T → Map (Metric V) → Map (Metric V)
  collect inject [] out = out
  collect inject (entry ∷ entries) out = collect inject entries (store out entry.0 (inject entry.1))

-- GetMetrics: counters, then timings, then values.
unfoldable pub get_metrics : {V : Type 0} → Collector V → Map (Metric V)
unfolding collect
get_metrics m = collect real m.values (collect whole m.timings (collect whole m.counters []))
