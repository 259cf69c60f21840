-- ===== src/Limiter/Fallback.antt =====
-- distributedAllow and localAllow (middleware_rate_limiter.go): when Redis decides, and what
-- localAllow adds for the time that has passed.
use r.Common.{
  ℕ, ◌≡◌, refl, ap, ◌∙◌, String, Bool, true, false, Option, none, some, [], ◌∷◌, ◌++◌, arith,
  if◌then◌else◌, Bool-cases, Option-cases, inl, inr,
}
use r.Common.Int.{ℤ, pos, leb_ℤ}
use r.Common.Maps.{load, store, load-store_self}
use r.Common.Float.{Floats}
use r.Limiter.{Limiter, earned}
use r.Limiter.Local.{
  RedisClient, redis_key, window_start, local_allow, topped_up, since, distributed_allow, decide,
  log_error, on_count, fall_back,
}

module _ (F : Floats) (S : Type 0) (redis : RedisClient S F.Float) where
  -- The count that Redis gives for the window, if none of the three commands fails.
  unfoldable pub window_count : String → ℕ → Limiter F.Float → S → Option ℤ
  window_count key now rl s =
      let (bad_rem, s₁) =
        redis.z_rem_range_by_score (redis_key rl key) 0 (window_start F S redis now rl) s in
      let (bad_add, s₂) = redis.z_add (redis_key rl key) (F.of_int (pos now)) now s₁ in
      if bad_rem
      then none
      else (if bad_add
          then none
          else (redis.z_count (redis_key rl key) (window_start F S redis now rl) s₂).0)

  -- Redis has decided: the request is allowed when the count is within the rate, and the local
  -- tokens are not touched. Or the local limiter has.
  abbrev pub Decided : Option ℤ → String → ℕ → Limiter F.Float → Bool → Limiter F.Float → Type 0
  Decided (some n) key later rl answer after =
      (answer ≡ leb_ℤ n (F.trunc rl.max_rate))
      × (after.tokens ≡ rl.tokens)
      × (after.last_req ≡ rl.last_req)
      × (after.errors ≡ rl.errors)
  Decided none key later rl answer after =
      (answer ≡ (local_allow F key later rl).0)
      × (after.tokens ≡ (local_allow F key later rl).1.tokens)
      × (after.last_req ≡ (local_allow F key later rl).1.last_req)
      × ((text : String) × (after.errors ≡ rl.errors ++ (text ∷ [])))

  fell_back :
      (text key : String) (later : ℕ) (rl : Limiter F.Float)
      → Decided none key later rl
          (local_allow F key later (log_error text rl)).0
          (local_allow F key later (log_error text rl)).1
  unfolding local_allow topped_up
  fell_back text key later rl = elim (Option-cases (load rl.tokens key)) [
    | inl e ↦ rw e (refl, refl, refl, (text, refl))
    | inr found ↦ elim (Bool-cases (F.less (topped_up F key later rl) (F.of_int (pos 1)))) [
      | inl less ↦ rw (found.1, less) (refl, refl, refl, (text, refl))
      | inr more ↦ rw (found.1, more) (refl, refl, refl, (text, refl))
    ]
  ]

  decided :
      (key : String) (later : ℕ) (n : ℤ) (rl : Limiter F.Float) (s : S)
      → Decided
          (some n)
          key
          later
          rl
          (decide F S redis key n rl s).0
          (decide F S redis key n rl s).1
  decided key later n rl s = elim (Bool-cases (leb_ℤ n (F.trunc rl.max_rate))) [
    | inl within ↦ rw within (refl, refl, refl, refl)
    | inr over ↦ rw over (refl, refl, refl, refl)
  ]

  counted :
      (key : String) (later : ℕ) (n : Option ℤ) (rl : Limiter F.Float) (s : S)
      → Decided n key later rl
          (on_count F S redis key later n rl s).0
          (on_count F S redis key later n rl s).1
  counted key later none rl s = fell_back "Failed to get request count" key later rl
  counted key later (some n) rl s = decided key later n rl s

  after_rem :
      (key : String) (now later : ℕ) (rl : Limiter F.Float) (s : S)
      → (let (bad, s₂) = redis.z_add (redis_key rl key) (F.of_int (pos now)) now s in
          let (n, s₃) = redis.z_count (redis_key rl key) (window_start F S redis now rl) s₂ in
          let result =
            if bad
            then fall_back F S redis "Failed to add new request" key later rl s₂
            else on_count F S redis key later n rl s₃ in
          Decided (if bad then none else n) key later rl result.0 result.1)
  after_rem key now later rl s =
      let (bad, s₂) = redis.z_add (redis_key rl key) (F.of_int (pos now)) now s in
      elim (Bool-cases bad) [
        | inl failed ↦ rw failed (fell_back "Failed to add new request" key later rl)
        | inr ok ↦ rw ok (
            counted key later
              (redis.z_count (redis_key rl key) (window_start F S redis now rl) s₂).0 rl
              (redis.z_count (redis_key rl key) (window_start F S redis now rl) s₂).1)
      ]

  -- distributedAllow: when Redis answers all three commands, the request is let through exactly
  -- when no more requests than the rate are in the window, this one among them, and the local
  -- tokens stay; when any command fails, one error is logged, and the answer and the local tokens
  -- are those of localAllow.
  distributed_allow_lem :
      (key : String) (now later : ℕ) (rl : Limiter F.Float) (s : S)
      → Decided
          (window_count key now rl s)
          key
          later
          rl
          (distributed_allow F S redis key now later rl s).0
          (distributed_allow F S redis key now later rl s).1
  unfolding window_count distributed_allow
  distributed_allow_lem key now later rl s =
      elim (Bool-cases
        (redis.z_rem_range_by_score (redis_key rl key) 0 (window_start F S redis now rl) s).0) [
          | inl bad ↦ rw bad (fell_back "Failed to remove old entries" key later rl)
          | inr ok ↦ rw ok (after_rem key now later rl _)
        ]

module _ (F : Floats) where
  refused :
      (key : String) (now : ℕ) (rl : Limiter F.Float) (old : F.Float)
      → load rl.tokens key ≡ some old
      → F.less (topped_up F key now rl) (F.of_int (pos 1)) ≡ true
      → (local_allow F key now rl).1
        ≡ record rl { tokens = store rl.tokens key (topped_up F key now rl) }
  unfolding local_allow
  refused key now rl old e less = rw (e, less) refl

  -- A request that localAllow refuses is given the tokens of the time since the last request that
  -- was let through, but that time is not moved: the next request is given the tokens of the same
  -- time once more.
  local_allow-counts_twice :
      (key : String) (now later : ℕ) (rl : Limiter F.Float)
      → (local_allow F key now rl).0 ≡ false
      → topped_up F key later (local_allow F key now rl).1 ≡ (
          let total =
            F.add
              (topped_up F key now rl)
              (earned F rl (F.seconds (since later (load rl.last_req key)))) in
          if F.less rl.max_rate total then rl.max_rate else total)
  unfolding local_allow topped_up
  local_allow-counts_twice key now later rl h = elim (Option-cases (load rl.tokens key)) [
    | inl e ↦ ground (arith, e, h)
    | inr found ↦ elim (Bool-cases (F.less (topped_up F key now rl) (F.of_int (pos 1)))) [
      | inl less ↦
          ap (topped_up F key later) (refused key now rl found.0 found.1 less)
          ∙ rw (load-store_self rl.tokens key (topped_up F key now rl)) refl
      | inr more ↦ ground (arith, found.1, more, h)
    ]
  ]
