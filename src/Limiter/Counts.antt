-- ===== src/Limiter/Counts.antt =====
-- What GetDebugStats (middleware_rate_limiter.go) tells of the requests that Allow has had, and what
-- localAllow adds for the time that has passed.
use r.Common.{
  ℕ, ◌+◌, ◌<◌, ◌≡◌, refl, ap, ◌∙◌, String, Bool, none, some, List, [], ◌∷◌, arith, length,
  if◌then◌else◌, Bool-cases, inl, inr,
}
use r.Common.Int.{ℤ, pos, two_63, add_64, add_64-one}
use r.Common.Maps.{load, store, load-store_self}
use r.Common.Float.{Floats}
use r.Limiter.{
  Limiter, TokenBucket, refill_bucket, get_or_create_bucket, consume, allow, report, new_bucket,
  grant, reject, unscaled,
}
use r.Metrics.Call.{count}

module _ (F : Floats) where
  -- Requests of one key, one after another, and how many were allowed.
  unfoldable pub allow_all : String → List ℕ → Limiter F.Float → ℕ × Limiter F.Float
  allow_all key [] rl = (0, rl)
  allow_all key (now ∷ times) rl =
      let (answer, rl₁) = allow F key now rl in
      let (granted, rl₂) = allow_all key times rl₁ in ((if answer then 1 else 0) + granted, rl₂)

  -- The counts of a bucket after `total` requests, one more than which are counted.
  pub record Tally (bucket : TokenBucket) (allowed total : ℕ) : Type 0 where
    pub rejected : ℕ
    pub allow_eq : bucket.allow_count ≡ pos allowed
    pub reject_eq : bucket.reject_count ≡ pos rejected
    pub refill_eq : bucket.refill_count ≡ pos total
    pub sum : allowed + rejected ≡ total + 1

  pub record Counted (rl : Limiter F.Float) (key : String) (allowed total : ℕ) : Type 0 where
    pub bucket : TokenBucket
    pub at : load rl.buckets key ≡ some bucket
    pub tally : Tally bucket allowed total

  abbrev tick : Bool → ℕ
  tick answer = if answer then 1 else 0

  one_more : (z : ℤ) (n : ℕ) → z ≡ pos n → n + 1 < two_63 → add_64 z (pos 1) ≡ pos (n + 1)
  one_more z n e h = ap (λ x. add_64 x (pos 1)) e ∙ add_64-one (pos n) refl h

  module _ (key : String) (rl : Limiter F.Float) (now : ℕ) (old : TokenBucket) (a n : ℕ)
      (t : Tally old a n) (h : n + 2 < two_63) where
    abbrev refilled : TokenBucket
    refilled = refill_bucket F rl now old

    refills : refilled.refill_count ≡ pos (n + 1)
    unfolding refill_bucket
    refills = one_more old.refill_count n t.refill_eq (omega arith)

    allows : refilled.allow_count ≡ pos a
    unfolding refill_bucket
    allows = t.allow_eq

    rejects : refilled.reject_count ≡ pos t.rejected
    unfolding refill_bucket
    rejects = t.reject_eq

    yes : Counted (grant F key refilled rl) key (1 + a) (n + 1)
    yes = record {
      bucket = _;
      at = load-store_self rl.buckets key _;
      tally = record {
        rejected = t.rejected;
        allow_eq =
            one_more refilled.allow_count a allows (omega (arith, t.sum)) ∙ ap pos (omega arith);
        reject_eq = rejects;
        refill_eq = refills;
        sum = omega (arith, t.sum);
      };
    }

    no : Counted (reject F key refilled rl) key (0 + a) (n + 1)
    no = record {
      bucket = _;
      at = load-store_self rl.buckets key _;
      tally = record {
        rejected = t.rejected + 1;
        allow_eq = allows ∙ ap pos (omega arith);
        reject_eq = one_more refilled.reject_count t.rejected rejects (omega (arith, t.sum));
        refill_eq = refills;
        sum = omega (arith, t.sum);
      };
    }

    consumed :
        Counted (consume F key refilled rl).1 key (tick (consume F key refilled rl).0 + a) (n + 1)
    unfolding consume
    consumed = elim (Bool-cases (F.less (unscaled F refilled.tokens) (F.of_int (pos 1)))) [
      | inl less ↦ rw less no
      | inr more ↦ rw more yes
    ]

  known :
      (key : String) (rl : Limiter F.Float) (now a n : ℕ)
      → Counted rl key a n
      → n + 2 < two_63
      → Counted (allow F key now rl).1 key (tick (allow F key now rl).0 + a) (n + 1)
  unfolding allow get_or_create_bucket
  known key rl now a n c h = rw (c.at) (consumed key rl now c.bucket a n c.tally h)

  abbrev with_bucket : String → ℕ → Limiter F.Float → Limiter F.Float
  with_bucket key now rl =
      report (count "rate_limiter.bucket_created" (("key", key) ∷ []))
        (record rl { buckets = store rl.buckets key (new_bucket F rl.max_rate now) })

  new-Tally : (rate : F.Float) (now : ℕ) → Tally (new_bucket F rate now) 1 0
  new-Tally rate now = record {
    rejected = 0;
    allow_eq = add_64-one (pos 0) refl (omega arith);
    reject_eq = refl;
    refill_eq = refl;
    sum = refl;
  }

  unknown :
      (key : String) (rl : Limiter F.Float) (now : ℕ)
      → load rl.buckets key ≡ none
      → Counted (allow F key now rl).1 key (tick (allow F key now rl).0 + 1) 1
  unfolding allow get_or_create_bucket
  unknown key rl now e = rw e (
      consumed key (with_bucket key now rl) now (new_bucket F rl.max_rate now) 1 0
        (new-Tally rl.max_rate now) (omega arith))

  recount :
      (rl : Limiter F.Float) (key : String) (a n a' n' : ℕ)
      → Counted rl key a n
      → a ≡ a'
      → n ≡ n'
      → Counted rl key a' n'
  recount rl key a n a' n' c p q = record {
    bucket = c.bucket;
    at = c.at;
    tally = record {
      rejected = c.tally.rejected;
      allow_eq = c.tally.allow_eq ∙ ap pos p;
      reject_eq = c.tally.reject_eq;
      refill_eq = c.tally.refill_eq ∙ ap pos q;
      sum = omega (arith, c.tally.sum, p, q);
    };
  }

  all_known :
      (key : String) (times : List ℕ) (rl : Limiter F.Float) (a n : ℕ)
      → Counted rl key a n
      → n + length times + 1 < two_63
      → Counted (allow_all key times rl).1 key ((allow_all key times rl).0 + a) (length times + n)
  unfolding allow_all
  all_known key [] rl a n c h = recount rl key a n _ _ c (omega arith) (omega arith)
  all_known key (now ∷ times) rl a n c h =
      recount (allow_all key times (allow F key now rl).1).1 key _ _ _ _
        (all_known key times (allow F key now rl).1 (tick (allow F key now rl).0 + a) (n + 1)
          (known key rl now a n c (omega arith)) (omega arith))
        (omega arith) (omega arith)

  -- Whatever the clock says and however many of the requests are let through: the bucket that the
  -- first of them makes has been refilled once for each, but counts one request more than there
  -- were, as an allowed one.
  allow_counts :
      (key : String) (now : ℕ) (times : List ℕ) (rl : Limiter F.Float)
      → load rl.buckets key ≡ none
      → length times + 2 < two_63
      → Counted
          (allow_all key (now ∷ times) rl).1
          key
          ((allow_all key (now ∷ times) rl).0 + 1)
          (length (now ∷ times))
  unfolding allow_all
  allow_counts key now times rl e h =
      recount (allow_all key times (allow F key now rl).1).1 key _ _ _ _
        (all_known key times (allow F key now rl).1 (tick (allow F key now rl).0 + 1) 1
          (unknown key rl now e) (omega arith))
        (omega arith) (omega arith)
