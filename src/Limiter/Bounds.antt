-- ===== src/Limiter/Bounds.antt =====
-- Bounds of the token buckets (middleware_rate_limiter.go): what Allow takes and what it leaves.
use r.Common.{
  ℕ, ◌+◌, ◌≤◌, ◌<◌, ◌≡◌, refl, String, Bool, true, false, some, [], ◌∷◌, arith, Bool-cases,
  Option-cases, inl, inr,
}
use r.Common.Int.{ℤ, pos, negsuc, ◌≤ℤ◌, two_63, pos_part, neg_part, add_64}
use r.Common.Maps.{load, store, load-store, load-store_self}
use r.Common.Float.{Floats, IsOrdered}
use r.Metrics.Call.{count}
use r.Limiter.{
  Limiter, TokenBucket, get_or_create_bucket, refill_bucket, consume, allow, scaled, unscaled,
  grant, reject, report, new_bucket, token_scale,
}

abbrev pub one_less : ℤ
one_less = negsuc 999999

take_token :
    (t c : ℤ)
    → pos token_scale ≤ℤ t
    → t ≤ℤ c
    → pos_part c < two_63
    → (neg_part (add_64 t one_less) ≡ 0)
      × (pos_part (add_64 t one_less) + token_scale ≡ pos_part t)
      × (pos_part t ≤ pos_part c)
      × (add_64 t one_less ≤ℤ c)
unfolding add_64
take_token (pos t) (pos c) h k b =
    (ground (arith, h, k, b), ground (arith, h, k, b), omega arith, ground (arith, h, k, b))
take_token (negsuc t) c h k b = absurd (omega (arith, h))
take_token (pos t) (negsuc c) h k b = absurd (omega (arith, k))

module _ (F : Floats) where
  -- The bucket holds at most the tokens of a full one.
  abbrev pub IsBounded : Limiter F.Float → TokenBucket → Type 0
  IsBounded rl bucket = bucket.tokens ≤ℤ scaled F rl.max_rate

  abbrev pub Bounded : Limiter F.Float → Type 0
  Bounded rl =
      (key : String) (bucket : TokenBucket)
      → load rl.buckets key ≡ some bucket
      → IsBounded rl bucket

  -- The key's bucket as Allow finds it: made, if it was not there, and refilled.
  abbrev pub found_bucket : String → ℕ → Limiter F.Float → TokenBucket
  found_bucket key now rl =
      let (bucket, rl₁) = get_or_create_bucket F key now rl in refill_bucket F rl₁ now bucket

  -- The key's bucket was `before`, with at most the tokens of a full one, and has one token less.
  pub record Paid (before : TokenBucket) (rl : Limiter F.Float) (key : String) : Type 0 where
    pub bucket : TokenBucket
    pub at : load rl.buckets key ≡ some bucket
    pub not_negative : neg_part bucket.tokens ≡ 0
    pub paid : pos_part bucket.tokens + token_scale ≡ pos_part before.tokens
    pub within : pos_part before.tokens ≤ pos_part (scaled F rl.max_rate)

  pub refilled :
      (o : IsOrdered F) (rl : Limiter F.Float) (now : ℕ) (bucket : TokenBucket)
      → neg_part (scaled F rl.max_rate) ≡ 0
      → IsBounded rl (refill_bucket F rl now bucket)
  unfolding refill_bucket
  refilled o rl now bucket z = o.scale_mono _ _ token_scale (o.min_le rl.max_rate _) z

  -- What Allow did with the bucket that was `before`: it has one token less, or it has the same
  -- tokens, and less than one.
  abbrev pub Settled : String → TokenBucket → Bool → Limiter F.Float → Type 0
  Settled key before true rl = Paid before rl key
  Settled key before false rl =
      (bucket : TokenBucket) × (load rl.buckets key ≡ some bucket)
      × (bucket.tokens ≡ before.tokens)
      × (F.less (unscaled F bucket.tokens) (F.of_int (pos 1)) ≡ true)

  pub record Allowed (key : String) (rate : F.Float) (before : TokenBucket) (answer : Bool)
      (after : Limiter F.Float) : Type 0 where
    pub bounded : Bounded after
    pub settled : Settled key before answer after
    pub same_rate : after.max_rate ≡ rate

  stored-Bounded :
      (rl : Limiter F.Float) (key : String) (bucket : TokenBucket)
      → Bounded rl
      → IsBounded rl bucket
      → (other : String) (found : TokenBucket)
      → load (store rl.buckets key bucket) other ≡ some found
      → IsBounded rl found
  stored-Bounded rl key bucket w h other found e =
      ground (arith, load-store rl.buckets key other bucket, w other found, e)

  rejected :
      (key : String) (bucket : TokenBucket) (rl : Limiter F.Float)
      → Bounded rl
      → IsBounded rl bucket
      → F.less (unscaled F bucket.tokens) (F.of_int (pos 1)) ≡ true
      → Allowed key rl.max_rate bucket false (reject F key bucket rl)
  rejected key bucket rl w h less = record {
    bounded = stored-Bounded rl key _ w h;
    settled = (_, load-store_self rl.buckets key _, refl, less);
    same_rate = refl;
  }

  granted :
      (o : IsOrdered F) (key : String) (bucket : TokenBucket) (rl : Limiter F.Float)
      → pos_part (scaled F rl.max_rate) < two_63
      → Bounded rl
      → IsBounded rl bucket
      → F.less (unscaled F bucket.tokens) (F.of_int (pos 1)) ≡ false
      → Allowed key rl.max_rate bucket true (grant F key bucket rl)
  granted o key bucket rl c w h more =
      let (non_negative, taken, within, at_most) =
        take_token bucket.tokens (scaled F rl.max_rate) (o.quotient_one bucket.tokens more) h c in
      record {
        bounded = stored-Bounded rl key _ w at_most;
        settled = record {
          bucket = _;
          at = load-store_self rl.buckets key _;
          not_negative = non_negative;
          paid = taken;
          within = within;
        };
        same_rate = refl;
      }

  consumed :
      (o : IsOrdered F) (key : String) (bucket : TokenBucket) (rl : Limiter F.Float)
      → pos_part (scaled F rl.max_rate) < two_63
      → Bounded rl
      → IsBounded rl bucket
      → Allowed key rl.max_rate bucket (consume F key bucket rl).0 (consume F key bucket rl).1
  unfolding consume
  consumed o key bucket rl c w h =
      elim (Bool-cases (F.less (unscaled F bucket.tokens) (F.of_int (pos 1)))) [
        | inl less ↦ rw less (rejected key bucket rl w h less)
        | inr more ↦ rw more (granted o key bucket rl c w h more)
      ]

  abbrev with_bucket : String → ℕ → Limiter F.Float → Limiter F.Float
  with_bucket key now rl =
      report (count "rate_limiter.bucket_created" (("key", key) ∷ []))
        (record rl { buckets = store rl.buckets key (new_bucket F rl.max_rate now) })

  abbrev refilled_new : ℕ → Limiter F.Float → TokenBucket
  refilled_new now rl = refill_bucket F rl now (new_bucket F rl.max_rate now)

  full : (now : ℕ) (rl : Limiter F.Float) → scaled F rl.max_rate ≤ℤ scaled F rl.max_rate
  full now rl = omega arith

  fresh_bucket :
      (o : IsOrdered F) (key : String) (now : ℕ) (rl : Limiter F.Float)
      → neg_part (scaled F rl.max_rate) ≡ 0
      → pos_part (scaled F rl.max_rate) < two_63
      → Bounded rl
      → Allowed key rl.max_rate
          (refilled_new now (with_bucket key now rl))
          (consume F key (refilled_new now (with_bucket key now rl)) (with_bucket key now rl)).0
          (consume F key (refilled_new now (with_bucket key now rl)) (with_bucket key now rl)).1
  fresh_bucket o key now rl z c w =
      consumed o key (refilled_new now (with_bucket key now rl)) (with_bucket key now rl) c
        (stored-Bounded rl key (new_bucket F rl.max_rate now) w (full now rl))
        (refilled o (with_bucket key now rl) now (new_bucket F rl.max_rate now) z)

  -- Where the scaled rate is a number of int64 that is not negative, and whatever the clock says:
  -- Allow keeps all buckets within the full number of tokens, if they were, and the rate as it is; a
  -- request that it lets through leaves in its key's bucket exactly one whole token less than the
  -- bucket holds after getOrCreateBucket and refillBucket, and not less than none; a request that it
  -- refuses leaves what the bucket holds after them, which is less than one token.
  pub allow_lem :
      (o : IsOrdered F) (key : String) (now : ℕ) (rl : Limiter F.Float)
      → neg_part (scaled F rl.max_rate) ≡ 0
      → pos_part (scaled F rl.max_rate) < two_63
      → Bounded rl
      → Allowed key rl.max_rate
          (found_bucket key now rl)
          (allow F key now rl).0
          (allow F key now rl).1
  unfolding allow get_or_create_bucket
  allow_lem o key now rl z c w = elim (Option-cases (load rl.buckets key)) [
    | inl missing ↦ rw missing (fresh_bucket o key now rl z c w)
    | inr found ↦
        rw (found.1)
          (consumed o key (refill_bucket F rl now found.0) rl c w (refilled o rl now found.0 z))
  ]
