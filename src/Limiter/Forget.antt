-- ===== src/Limiter/Forget.antt =====
-- What Reset and the clean-up (middleware_rate_limiter.go) take away, and what they leave.
use r.Metrics.Call.{count}
use text.Mathlib.Text.{◌==◌}
use text.Mathlib.TextPositions.{eq_refl}
use r.Common.{
  ℕ, ◌≡◌, ◌≢◌, refl, sym, ap, ◌∙◌, String, Bool, true, false, not, ◌&&◌, Option, none, some, [],
  ◌∷◌, cond, arith, if◌then◌else◌, eq_iff, Bool-cases, inl, inr,
}
use r.Common.Int.{ℤ, pos}
use r.Common.Maps.{Map, load, delete, load-delete, Distinct}
use r.Common.Float.{Floats}
use r.Limiter.{
  report, new_bucket, Limiter, TokenBucket, allow, consume, get_or_create_bucket, refill_bucket,
  unscaled,
}
use r.Limiter.Local.{RedisClient, redis_key, local_allow}
use r.Limiter.Quota.{get_debug_stats, is_stale, clean_all, cleanup, reset}

module _ (F : Floats) where
  abbrev one : F.Float
  one = F.of_int (pos 1)

  consume-answer :
      (key : String) (bucket : TokenBucket) (rl : Limiter F.Float)
      → (consume F key bucket rl).0 ≡ not (F.less (unscaled F bucket.tokens) one)
  unfolding consume
  consume-answer key bucket rl = elim (Bool-cases (F.less (unscaled F bucket.tokens) one)) [
    | inl less ↦ rw less refl
    | inr more ↦ rw more refl
  ]

  -- The bucket of a new key, refilled.
  abbrev first_bucket : Limiter F.Float → ℕ → TokenBucket
  first_bucket rl now = refill_bucket F rl now (new_bucket F rl.max_rate now)

  fresh_answer :
      (key : String) (now : ℕ) (rl : Limiter F.Float)
      → load rl.buckets key ≡ none
      → (allow F key now rl).0 ≡ not (F.less (unscaled F (first_bucket rl now).tokens) one)
  unfolding allow get_or_create_bucket refill_bucket
  fresh_answer key now rl e = rw e (consume-answer key (first_bucket rl now) _)

  same_first :
      (after rl : Limiter F.Float) (now : ℕ)
      → after.max_rate ≡ rl.max_rate
      → after.per ≡ rl.per
      → (first_bucket after now).tokens ≡ (first_bucket rl now).tokens
  unfolding refill_bucket
  same_first after rl now p q = rw (p, q) refl

  fresh_local :
      (key : String) (now : ℕ) (rl : Limiter F.Float)
      → load rl.tokens key ≡ none
      → (local_allow F key now rl).0 ≡ true
  unfolding local_allow
  fresh_local key now rl e = rw e refl

load-delete_self : {V : Type 0} (table : Map V) (key : String) → load (delete table key) key ≡ none
load-delete_self table key = load-delete table key key ∙ rw (eq_refl key) refl

load-delete_other :
    {V : Type 0} (table : Map V) (key other : String)
    → other ≢ key
    → load (delete table key) other ≡ load table other
load-delete_other table key other ne =
    ground (arith, load-delete table key other, eq_iff key other, ne)

empty_load : {V : Type 0} (key : String) → load {V = V} [] key ≡ none
unfolding load
empty_load key = refl

module _ (F : Floats) (S : Type 0) (redis : RedisClient S F.Float) where
  reset-Limiter :
      (key : String) (rl : Limiter F.Float) (s : S)
      → ((reset F.Float S redis key rl s).0.buckets ≡ delete rl.buckets key)
        × ((reset F.Float S redis key rl s).0.tokens ≡ delete rl.tokens key)
        × ((reset F.Float S redis key rl s).0.max_rate ≡ rl.max_rate)
        × ((reset F.Float S redis key rl s).0.per ≡ rl.per)
  unfolding reset
  reset-Limiter key rl s =
      elim (Bool-cases (rl.has_redis && (redis.set (redis_key rl key) "" (pos 0) s).0)) [
        | inl bad ↦ rw bad (refl, refl, refl, refl)
        | inr good ↦ rw good (refl, refl, refl, refl)
      ]

  -- After Reset a key is treated as one that was never seen: there are no statistics of it, Allow
  -- decides as for a new bucket, and localAllow lets it through. The buckets and the local tokens
  -- of every other key are as they were.
  reset_forgets :
      (key other : String) (now : ℕ) (rl : Limiter F.Float) (s : S)
      → other ≢ key
      → (get_debug_stats F key (reset F.Float S redis key rl s).0 ≡ none)
        × ((allow F key now (reset F.Float S redis key rl s).0).0
            ≡ (allow F key now (record rl { buckets = [] })).0)
        × ((local_allow F key now (reset F.Float S redis key rl s).0).0 ≡ true)
        × (load (reset F.Float S redis key rl s).0.buckets other ≡ load rl.buckets other)
        × (load (reset F.Float S redis key rl s).0.tokens other ≡ load rl.tokens other)
  unfolding get_debug_stats
  reset_forgets key other now rl s ne =
      let after = (reset F.Float S redis key rl s).0 in
      let (b, t, m, p) = reset-Limiter key rl s in
      let no_bucket : load after.buckets key ≡ none =
        ap (λ table. load table key) b ∙ load-delete_self rl.buckets key in
      (
        rw no_bucket refl,
        fresh_answer F key now after no_bucket
            ∙ ap (λ n. not (F.less (unscaled F n) (one F)))
                (same_first F after (record rl { buckets = [] }) now m p)
            ∙ sym (fresh_answer F key now (record rl { buckets = [] }) (empty_load key)),
        fresh_local F key now after
            (ap (λ table. load table key) t ∙ load-delete_self rl.tokens key),
        ap (λ table. load table other) b ∙ load-delete_other rl.buckets key other ne,
        ap (λ table. load table other) t ∙ load-delete_other rl.tokens key other ne,
      )

-- A bucket that was last refilled more than two periods ago.
abbrev pub stale : ℕ → ℤ → Option TokenBucket → Bool
stale now per none = false
stale now per (some bucket) = is_stale now per bucket

absent :
    {V : Type 0} (entries : Map V) (key other : String)
    → load entries key ≡ none
    → (key == other) ≡ true
    → load entries other ≡ none
absent entries key other e own = ap (load entries) (sym ((eq_iff key other).0 own)) ∙ e

old_entry :
    (now : ℕ) (per : ℤ) (entry : String × TokenBucket) (entries buckets : Map TokenBucket)
    (key : String)
    → load entries entry.0 ≡ none
    → is_stale now per entry.1 ≡ true
    → (if stale now per (load entries key) then none else load (delete buckets entry.0) key) ≡ (
        if stale now per (cond (entry.0 == key) (some entry.1) (load entries key))
        then none
        else load buckets key)
old_entry now per entry entries buckets key d old = elim (Bool-cases (entry.0 == key)) [
  | inl own ↦ rw (absent entries entry.0 key d own, load-delete buckets entry.0 key, own, old) refl
  | inr other ↦ rw (load-delete buckets entry.0 key, other) refl
]

young_entry :
    (now : ℕ) (per : ℤ) (entry : String × TokenBucket) (entries buckets : Map TokenBucket)
    (key : String)
    → load entries entry.0 ≡ none
    → is_stale now per entry.1 ≡ false
    → (if stale now per (load entries key) then none else load buckets key) ≡ (
        if stale now per (cond (entry.0 == key) (some entry.1) (load entries key))
        then none
        else load buckets key)
young_entry now per entry entries buckets key d young = elim (Bool-cases (entry.0 == key)) [
  | inl own ↦ rw (absent entries entry.0 key d own, own, young) refl
  | inr other ↦ rw other refl
]

module _ {V : Type 0} where
  abbrev Kept : ℕ → Map TokenBucket → Limiter V → Limiter V → String → Type 0
  Kept now entries rl after key =
      (load after.buckets key
        ≡ (if stale now rl.per (load entries key) then none else load rl.buckets key))
      × (after.tokens ≡ rl.tokens)
      × (after.last_req ≡ rl.last_req)

  abbrev dropped : String → Limiter V → Limiter V
  dropped key rl =
      report (count "rate_limiter.bucket_cleaned" (("key", key) ∷ []))
        (record rl { buckets = delete rl.buckets key })

  clean_all-Kept :
      (now : ℕ) (entries : Map TokenBucket) (rl : Limiter V) (key : String)
      → Distinct entries
      → Kept now entries rl (clean_all now entries rl) key
  unfolding clean_all load
  clean_all-Kept now [] rl key d = (refl, refl, refl)
  clean_all-Kept now (entry ∷ entries) rl key d = elim (Bool-cases (is_stale now rl.per entry.1)) [
    | inl old ↦
        let (b, t, l) = clean_all-Kept now entries (dropped entry.0 rl) key d.1 in
        rw (old, clean_all) (b ∙ old_entry now rl.per entry entries rl.buckets key d.0 old, t, l)
    | inr young ↦
        let (b, t, l) = clean_all-Kept now entries rl key d.1 in
        rw (young, clean_all)
          (b ∙ young_entry now rl.per entry entries rl.buckets key d.0 young, t, l)
  ]

  -- A tick of the clean-up drops exactly the buckets whose last refill is more than two periods
  -- ago and leaves the others as they are. The tokens of localAllow it leaves for ever.
  cleanup_lem :
      (now : ℕ) (rl : Limiter V) (key : String)
      → Distinct rl.buckets
      → (load (cleanup now rl).buckets key
          ≡ (if stale now rl.per (load rl.buckets key) then none else load rl.buckets key))
        × ((cleanup now rl).tokens ≡ rl.tokens)
        × ((cleanup now rl).last_req ≡ rl.last_req)
  unfolding cleanup
  cleanup_lem now rl key d = clean_all-Kept now rl.buckets rl key d
