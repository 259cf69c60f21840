-- ===== src/Tests/Logs.antt =====
-- The logger (log.go) and the collector (metrics.go) at concrete inputs.
use r.Metrics.Entries.{TagMap, the_map, format_key_lem}
use r.Common.{ℕ, String, ◌≡◌, ◌≡◌, refl, String, Bool, true, List, [], ◌∷◌, arith, eq_iff}
use mathlib.Core.List.{Permᴰ}
use r.Common.Int.{ℤ, pos}
use r.Common.Maps.{load, or_else}
use r.Log.{info_level, warn_level, StructuredLogger, Sink, warn, error, get_map}
use r.Log.Fields.{Wrote, error-warn_leaks}
use r.Metrics.Call.{Tags, Tags, Counter}
use r.Metrics.{format_key, Collector, increment_counter, record_timing, record_value, Collector}
use r.Metrics.Collect.{SameMap}

abbrev with_user : String → StructuredLogger
with_user user = record { output = true; level = info_level; fields = ("user", user) ∷ [] }

abbrev plain : StructuredLogger
plain = record { output = true; level = info_level; fields = [] }

abbrev fresh : Sink
fresh = record { pool = []; written = [] }

abbrev message : String → List String → String
message msg args = msg

-- The plain logger's warning tells the user of the other logger.
error-warn_leaks_example :
    Wrote warn_level
      (λ key.
        or_else
          (load plain.fields key)
          (or_else (load (with_user "ann").fields key) (load (get_map fresh.pool).0 key)))
      (error message "failed" [] (with_user "ann") fresh)
      (warn message "slow" [] plain (error message "failed" [] (with_user "ann") fresh))
unfolding load
error-warn_leaks_example =
    error-warn_leaks message "failed" "slow" [] [] (with_user "ann") plain fresh refl (refl, tt) tt

abbrev two_tags : Tags
two_tags = ("b", "2") ∷ ("a", "1") ∷ []

abbrev two_tags_again : Tags
two_tags_again = ("a", "1") ∷ ("b", "2") ∷ []

same_tags : SameMap two_tags two_tags_again
unfolding load
same_tags = record {
  keys_perm = Permᴰ.swap refl refl;
  same = λ k. ground (arith, eq_iff "a" k, eq_iff "b" k, eq_iff "a" "b");
}

abbrev calls : List Counter
calls =
    record { name = "hits"; tags = two_tags }
    ∷ record { name = "misses"; tags = [] }
    ∷ record { name = "hits"; tags = two_tags_again }
    ∷ []

abbrev recorded : Collector Bool
recorded = record {
  counters = ("k", pos 1) ∷ ("j", pos 3) ∷ [];
  timings = ("k", pos 2) ∷ [];
  values = [];
}

format_key_lem_example :
    (key : TagMap → String) × ((tags : Tags) → key (the_map tags) ≡ format_key "hits" tags)
    × ((other : TagMap → String)
        → ((tags : Tags) → other (the_map tags) ≡ format_key "hits" tags)
        → (m : TagMap) → other m ≡ key m)
    × ((tags tags' : Tags) (m : Collector ℕ) (d : ℤ) (x : ℕ)
        → the_map tags ≡ the_map tags'
        → (increment_counter "hits" tags m ≡ increment_counter "hits" tags' m)
          × (record_timing "hits" d tags m ≡ record_timing "hits" d tags' m)
          × (record_value "hits" x tags m ≡ record_value "hits" x tags' m))
format_key_lem_example = format_key_lem {V = ℕ} "hits"
