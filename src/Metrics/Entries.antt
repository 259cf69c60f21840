-- ===== src/Metrics/Entries.antt =====
-- Tags as maps: what the collector (metrics.go) makes of entries that Go's range gives in any order.
use mathlib.Core.HLevel.{hedberg}
use mathlib.Core.Quot
use mathlib.Core.Quot.{Quot}
use r.Common.{◌≡◌, refl, ap, String, Bool-cases, eq_iff, inl, inr, str_eq, arith}
use r.Common.Int.{ℤ}
use r.Metrics.Call.{Tags}
use r.Metrics.{Collector, format_key, increment_counter, record_timing, record_value}
use r.Metrics.Collect.{SameMap, format_key-SameMap}

String-IsSet : IsSet String
String-IsSet = hedberg (λ x y. elim (Bool-cases (str_eq x y)) [
  | inl same ↦ yes ((eq_iff x y).0 same)
  | inr other ↦ no (λ e. absurd (ground (arith, other, e, (eq_iff x y).1 e)))
])

-- A map of tags: its entries, with their order forgotten.
abbrev pub TagMap : Type 0
TagMap = Quot SameMap

abbrev pub the_map : Tags → TagMap
the_map tags = Quot.mk tags

-- The keys of metrics are those of maps: formatKey of entries is a function of the map that they are
-- the entries of, and there is one such function only. So whatever order Go's range gives the
-- entries in, IncrementCounter, RecordTiming and RecordValue leave the same collector.
pub format_key_lem :
    {V : Type 0} (name : String)
    → (key : TagMap → String) × ((tags : Tags) → key (the_map tags) ≡ format_key name tags)
      × ((other : TagMap → String)
          → ((tags : Tags) → other (the_map tags) ≡ format_key name tags)
          → (m : TagMap) → other m ≡ key m)
      × ((tags tags' : Tags) (m : Collector V) (d : ℤ) (x : V)
          → the_map tags ≡ the_map tags'
          → (increment_counter name tags m ≡ increment_counter name tags' m)
            × (record_timing name d tags m ≡ record_timing name d tags' m)
            × (record_value name x tags m ≡ record_value name x tags' m))
unfolding increment_counter record_timing record_value
format_key_lem name =
    let key : TagMap → String =
      Quot.lift String-IsSet (format_key name)
        (λ tags tags' s. format_key-SameMap name tags tags' s) in
    (
      key,
      λ tags. refl,
      λ other e. Quot.ind (λ m. String-IsSet _ _) (λ tags. e tags),
      λ tags tags' m d x e.
          let same : format_key name tags ≡ format_key name tags' = ap key e in
          (rw same refl, rw same refl, rw same refl),
    )
