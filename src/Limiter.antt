-- ===== src/Limiter.antt =====
-- The rate limiter (middleware_rate_limiter.go): its state, the token buckets and Allow.
--
-- Times are nanoseconds since 1970, below 2^63. A float64 is a value of `F`. The limiter's lock makes
-- each operation on buckets one step.
pub mod Local
pub mod Quota
pub mod Bounds
pub mod Counts
pub mod Forget
pub mod Fallback
pub mod Burst
use r.Common.{
  ℕ, ◌-◌, String, Bool, true, false, not, Option, none, some, List, [], ◌∷◌, ◌++◌, cond,
  if◌then◌else◌,
}
use r.Common.Int.{ℤ, pos, negsuc, add_64, sub_ℕ}
use r.Common.Maps.{Map, load, store}
use r.Common.Float.{Floats}
use r.Metrics.Call.{Tags, Call, count}

abbrev pub token_scale : ℕ
token_scale = 1000000

pub record TokenBucket : Type 0 where
  pub tokens : ℤ
  pub last_refill : ℕ
  pub allow_count : ℤ
  pub reject_count : ℤ
  pub refill_count : ℤ

-- `calls` are the calls of the collector, `errors` the messages that the logger was told with
-- Error. `has_redis` says that there is a Redis client.
pub record Limiter (V : Type 0) : Type 0 where
  pub tokens : Map V
  pub last_req : Map ℕ
  pub buckets : Map TokenBucket
  pub max_rate : V
  pub per : ℤ
  pub has_redis : Bool
  pub key_prefix : String
  pub has_metrics : Bool
  pub calls : List (Call V)
  pub errors : List String

-- A call of the collector, if there is one.
abbrev pub report : {V : Type 0} → Call V → Limiter V → Limiter V
report call rl = record rl { calls = if rl.has_metrics then rl.calls ++ (call ∷ []) else rl.calls }

module _ (F : Floats) where
  -- NewDefaultRateLimiter, with the options applied to it by the caller.
  unfoldable pub new_default_rate_limiter : ℤ → ℤ → Limiter F.Float
  new_default_rate_limiter reqs per = record {
    tokens = [];
    last_req = [];
    buckets = [];
    max_rate = F.of_int reqs;
    per = per;
    has_redis = false;
    key_prefix = "ratelimit";
    has_metrics = false;
    calls = [];
    errors = [];
  }

  -- `float64(tokens) / tokenScale`
  abbrev pub unscaled : ℤ → F.Float
  unscaled n = F.div (F.of_int n) (F.of_int (pos token_scale))

  -- `int64(x * tokenScale)`
  abbrev pub scaled : F.Float → ℤ
  scaled x = F.trunc (F.mul x (F.of_int (pos token_scale)))

  abbrev pub new_bucket : F.Float → ℕ → TokenBucket
  new_bucket max_rate now = record {
    tokens = scaled max_rate;
    last_refill = now;
    allow_count = add_64 (pos 0) (pos 1);
    reject_count = pos 0;
    refill_count = pos 0;
  }

  -- getOrCreateBucket, which counts one allowed request for a bucket that it makes.
  unfoldable pub get_or_create_bucket : String → ℕ → Limiter F.Float → TokenBucket × Limiter F.Float
  get_or_create_bucket key now rl = found (load rl.buckets key)
    where
      found : Option TokenBucket → TokenBucket × Limiter F.Float
      found (some bucket) = (bucket, rl)
      found none =
          let bucket = new_bucket rl.max_rate now in
          (
            bucket,
            report (count "rate_limiter.bucket_created" (("key", key) ∷ []))
                (record rl { buckets = store rl.buckets key bucket }),
          )

  -- `elapsed * (rl.maxRate / rl.per.Seconds())`
  abbrev pub earned : Limiter F.Float → F.Float → F.Float
  earned rl elapsed = F.mul elapsed (F.div rl.max_rate (F.seconds rl.per))

  -- refillBucket
  unfoldable pub refill_bucket : Limiter F.Float → ℕ → TokenBucket → TokenBucket
  refill_bucket rl now bucket =
      let elapsed = F.seconds (sub_ℕ now bucket.last_refill) in
      let current = unscaled bucket.tokens in
      let fresh = F.min rl.max_rate (F.add current (earned rl elapsed)) in
      record bucket {
        tokens = scaled fresh;
        last_refill = now;
        refill_count = add_64 bucket.refill_count (pos 1);
      }

  abbrev pub allowance : String → F.Float → Tags
  allowance key left = ("key", key) ∷ ("tokens_remaining", F.two_decimals left) ∷ []

  -- One token is taken.
  abbrev pub grant : String → TokenBucket → Limiter F.Float → Limiter F.Float
  grant key bucket rl =
      report
        (count "rate_limiter.request_allowed"
          (allowance key (F.sub (unscaled bucket.tokens) (F.of_int (pos 1)))))
        (record rl {
          buckets = store rl.buckets key (record bucket {
            tokens = add_64 bucket.tokens (negsuc (token_scale - 1));
            allow_count = add_64 bucket.allow_count (pos 1);
          });
        })

  abbrev pub reject : String → TokenBucket → Limiter F.Float → Limiter F.Float
  reject key bucket rl =
      report (count "rate_limiter.request_rejected" (allowance key (unscaled bucket.tokens)))
        (record rl {
          buckets =
              store rl.buckets key
                (record bucket { reject_count = add_64 bucket.reject_count (pos 1) });
        })

  -- The end of Allow
  unfoldable pub consume : String → TokenBucket → Limiter F.Float → Bool × Limiter F.Float
  consume key bucket rl =
      if not (F.less (unscaled bucket.tokens) (F.of_int (pos 1)))
      then (true, grant key bucket rl)
      else (false, reject key bucket rl)

  -- Allow
  unfoldable pub allow : String → ℕ → Limiter F.Float → Bool × Limiter F.Float
  unfolding get_or_create_bucket refill_bucket consume
  allow key now rl =
      let (bucket, rl₁) = get_or_create_bucket key now rl in
      consume key (refill_bucket rl₁ now bucket) rl₁
