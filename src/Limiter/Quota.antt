-- ===== src/Limiter/Quota.antt =====
-- The rate limiter (middleware_rate_limiter.go): GetQuota, Reset, cleanup, GetDebugStats, and
-- SetDistributedClient of middleware.go.
use r.Common.{ℕ, String, Bool, ◌&&◌, Option, none, some, [], ◌∷◌, if◌then◌else◌}
use r.Common.Int.{ℤ, pos, add_64, sub_ℕ, ltb_ℤ}
use r.Common.Maps.{Map, load, store, delete}
use r.Common.Float.{Floats}
use r.Limiter.{Limiter, TokenBucket, report, unscaled, token_scale}
use r.Limiter.Local.{RedisClient, redis_key, log_error, twice}
use r.Metrics.Call.{count}

abbrev pub second : ℤ
second = pos 1000000000

module _ (F : Floats) where
  abbrev pub time_to_next_token : Limiter F.Float → ℤ
  time_to_next_token rl =
      let tokens_per_nano = F.div (F.div rl.max_rate (F.seconds rl.per)) (F.of_int second) in
      F.trunc (F.div (F.of_int (pos token_scale)) (F.mul tokens_per_nano (F.of_int second)))

  -- GetQuota: the tokens that are left, and when there is the next one.
  unfoldable pub get_quota : String → ℕ → Limiter F.Float → ℤ × ℤ
  get_quota key now rl = quota (load rl.buckets key)
    where
      quota : Option TokenBucket → ℤ × ℤ
      quota none = (F.trunc rl.max_rate, pos now)
      quota (some bucket) = (
        F.trunc (unscaled F bucket.tokens),
        add_64 (pos bucket.last_refill) (time_to_next_token rl),
      )

-- What GetDebugStats tells of a bucket.
pub record DebugStats (V : Type 0) : Type 0 where
  pub current_tokens : V
  pub allow_count : ℤ
  pub reject_count : ℤ
  pub refill_count : ℤ
  pub last_refill : ℕ
  pub max_rate : V
  pub period_seconds : V

module _ (F : Floats) where
  abbrev pub stats_of : Limiter F.Float → Option TokenBucket → Option (DebugStats F.Float)
  stats_of rl none = none
  stats_of rl (some bucket) = some (record {
    current_tokens = unscaled F bucket.tokens;
    allow_count = bucket.allow_count;
    reject_count = bucket.reject_count;
    refill_count = bucket.refill_count;
    last_refill = bucket.last_refill;
    max_rate = rl.max_rate;
    period_seconds = F.seconds rl.per;
  })

  -- GetDebugStats; `none` is the map that only says `exists: false`.
  unfoldable pub get_debug_stats : String → Limiter F.Float → Option (DebugStats F.Float)
  get_debug_stats key rl = stats_of rl (load rl.buckets key)

-- `now.Sub(lastRefillTime) > rl.per*2`
abbrev pub is_stale : ℕ → ℤ → TokenBucket → Bool
is_stale now per bucket = ltb_ℤ (twice per) (sub_ℕ now bucket.last_refill)

module _ {V : Type 0} where
  abbrev pub clean : ℕ → String × TokenBucket → Limiter V → Limiter V
  clean now entry rl =
      if is_stale now rl.per entry.1
      then report (count "rate_limiter.bucket_cleaned" (("key", entry.0) ∷ []))
          (record rl { buckets = delete rl.buckets entry.0 })
      else rl

  -- The loop of one tick over the buckets.
  unfoldable pub clean_all : ℕ → Map TokenBucket → Limiter V → Limiter V
  clean_all now [] rl = rl
  clean_all now (entry ∷ entries) rl = clean_all now entries (clean now entry rl)

  -- One tick of cleanup.
  unfoldable pub cleanup : ℕ → Limiter V → Limiter V
  unfolding clean_all
  cleanup now rl = clean_all now rl.buckets rl

  -- SetDistributedClient
  unfoldable pub set_distributed_client : Bool → Limiter V → Limiter V
  set_distributed_client client rl = record rl { has_redis = client; key_prefix = "ratelimit" }

  -- WithMetrics
  unfoldable pub with_metrics : Bool → Limiter V → Limiter V
  with_metrics metrics rl = record rl { has_metrics = metrics }

  abbrev pub forget : String → Limiter V → Limiter V
  forget key rl = record rl {
    buckets = delete rl.buckets key;
    tokens = delete rl.tokens key;
    last_req = delete rl.last_req key;
  }

module _ (V S : Type 0) (redis : RedisClient S V) where
  -- Reset
  unfoldable pub reset : String → Limiter V → S → Limiter V × S
  reset key rl store =
      let rl₁ = forget key rl in
      let (bad, store₁) = redis.set (redis_key rl key) "" (pos 0) store in
      let rl₂ = if rl.has_redis && bad then log_error "Failed to reset Redis key" rl₁ else rl₁ in
      (
        report (count "rate_limiter.reset" (("key", key) ∷ ("source", "api_call") ∷ [])) rl₂,
        if rl.has_redis then store₁ else store,
      )
