-- ===== src/Limiter/Local.antt =====
-- The rate limiter (middleware_rate_limiter.go) without buckets: localAllow, and distributedAllow on
-- a Redis client (RedisClient of middleware.go), which is an interface. Numbers that the program
-- prints for Redis are passed as numbers.
use Prim.Native.String
use r.Common.{
  ℕ, ◌-◌, ◌%◌, String, Bool, true, false, Option, none, some, [], ◌∷◌, ◌++◌, if◌then◌else◌,
}
use r.Common.Int.{ℤ, pos, add_64, sub_ℕ, two_63, two_64, leb_ℤ, bits_64, signed_64}
use r.Common.Maps.{load, store}
use r.Common.Float.{Floats}
use r.Limiter.{Limiter, report, earned}
use r.Metrics.Call.{count, value}

-- `now.Sub(last)`: a missing time is the zero time, so long ago that the difference is the largest.
abbrev pub since : ℕ → Option ℕ → ℤ
since now (some last) = sub_ℕ now last
since now none = pos (two_63 - 1)

abbrev pub or_zero : {V : Type 0} → V → Option V → V
or_zero zero none = zero
or_zero zero (some x) = x

module _ (F : Floats) where
  -- The tokens of a known key after the refill of localAllow.
  unfoldable pub topped_up : String → ℕ → Limiter F.Float → F.Float
  topped_up key now rl =
      let elapsed = F.seconds (since now (load rl.last_req key)) in
      let tokens = F.add (or_zero (F.of_int (pos 0)) (load rl.tokens key)) (earned F rl elapsed) in
      if F.less rl.max_rate tokens then rl.max_rate else tokens

  -- localAllow
  unfoldable pub local_allow : String → ℕ → Limiter F.Float → Bool × Limiter F.Float
  local_allow key now rl = known (load rl.tokens key)
    where
      known : Option F.Float → Bool × Limiter F.Float
      known none = (
        true,
        record rl {
          tokens = store rl.tokens key rl.max_rate;
          last_req = store rl.last_req key now;
        },
      )
      known (some old) =
          let tokens = topped_up key now rl in
          if F.less tokens (F.of_int (pos 1))
          then (false, record rl { tokens = store rl.tokens key tokens })
          else (
            true,
            record rl {
              tokens = store rl.tokens key (F.sub tokens (F.of_int (pos 1)));
              last_req = store rl.last_req key now;
            },
          )

-- A Redis client over a store `S`; `true` is an error.
pub record RedisClient (S V : Type 0) : Type 0 where
  pub set : String → String → ℤ → S → Bool × S
  pub z_rem_range_by_score : String → ℕ → ℤ → S → Bool × S
  pub z_add : String → V → ℕ → S → Bool × S
  pub z_count : String → ℤ → S → Option ℤ × S

-- `fmt.Sprintf("%s:%s", rl.keyPrefix, key)`
abbrev pub redis_key : {V : Type 0} → Limiter V → String → String
redis_key rl key = String.◌++◌ rl.key_prefix (String.◌++◌ ":" key)

-- logger.Error
abbrev pub log_error : {V : Type 0} → String → Limiter V → Limiter V
log_error text rl = record rl { errors = rl.errors ++ (text ∷ []) }

-- `rl.per*2`
abbrev pub twice : ℤ → ℤ
twice per = add_64 per per

-- `-per`, on int64
abbrev pub negate_64 : ℤ → ℤ
negate_64 a = signed_64 ((two_64 - bits_64 a) % two_64)

module _ (F : Floats) (S : Type 0) (redis : RedisClient S F.Float) where
  -- `now - rl.per.Nanoseconds()`
  abbrev pub window_start : ℕ → Limiter F.Float → ℤ
  window_start now rl = add_64 (pos now) (negate_64 rl.per)

  -- localAllow, which reads the clock again, after an error of Redis was logged.
  abbrev pub fall_back : String → String → ℕ → Limiter F.Float → S → Bool × Limiter F.Float × S
  fall_back text key now rl store =
      let (allowed, rl₁) = local_allow F key now (log_error text rl) in (allowed, rl₁, store)

  -- The end of distributedAllow, with the count of the window.
  abbrev pub decide : String → ℤ → Limiter F.Float → S → Bool × Limiter F.Float × S
  decide key n rl store =
      let (ignored, store₁) =
        redis.set (String.◌++◌ (redis_key rl key) ":exp") "" (twice rl.per) store in
      let rl₁ = report (value "rate_limiter.requests" (F.of_int n) (("key", key) ∷ [])) rl in
      let allowed = leb_ℤ n (F.trunc rl.max_rate) in
      (
        allowed,
        if allowed then rl₁ else report (count "rate_limiter.exceeded" (("key", key) ∷ [])) rl₁,
        store₁,
      )

  abbrev pub on_count : String → ℕ → Option ℤ → Limiter F.Float → S → Bool × Limiter F.Float × S
  on_count key later (some n) rl store = decide key n rl store
  on_count key later none rl store = fall_back "Failed to get request count" key later rl store

  -- distributedAllow; `now` is the first reading of the clock, `later` that of localAllow.
  unfoldable pub distributed_allow :
      String → ℕ → ℕ → Limiter F.Float → S → Bool × Limiter F.Float × S
  unfolding local_allow
  distributed_allow key now later rl store =
      let (bad_rem, store₁) =
        redis.z_rem_range_by_score (redis_key rl key) 0 (window_start now rl) store in
      let (bad_add, store₂) = redis.z_add (redis_key rl key) (F.of_int (pos now)) now store₁ in
      let (n, store₃) = redis.z_count (redis_key rl key) (window_start now rl) store₂ in
      if bad_rem
      then fall_back "Failed to remove old entries" key later rl store₁
      else (if bad_add
          then fall_back "Failed to add new request" key later rl store₂
          else on_count key later n rl store₃)
