-- ===== src/Limiter/Burst.antt =====
-- Allow (middleware_rate_limiter.go) on requests that one client sends at one time.
use mathlib.Core.Path.{subst}
use r.Common.{
  ℕ, zero, suc, ◌+◌, ◌*◌, ◌≤◌, ◌<◌, ◌≡◌, refl, ap, ◌∙◌, String, Bool, true, false, some, List, [],
  ◌∷◌, arith, Bool-cases, Option-cases, inl, inr, if◌then◌else◌,
}
use r.Common.Int.{ℤ, pos, negsuc, pos_part, neg_part, sub_ℕ, add_64, ◌≤ℤ◌}
use r.Common.Maps.{load, store, load-store_self}
use r.Common.Float.{Floats, IsOrdered}
use r.Limiter.{
  Limiter, TokenBucket, token_scale, get_or_create_bucket, refill_bucket, consume, allow, scaled,
  unscaled, new_bucket, report,
}
use r.Metrics.Call.{count}
use r.Limiter.Bounds.{refilled, one_less}
use r.Limiter.Counts.{allow_all}

-- Numbers that float64 and its products by a million hold exactly.
abbrev pub exact : ℕ
exact = 1125899906842624

-- Documented behaviour of float64 on such numbers: a whole number times a million is exact; no time
-- earns nothing, and nothing is added; and a number that is divided by a million, bounded by another,
-- multiplied by a million and truncated has not grown.
pub record IsExact (F : Floats) : Type 0 where
  pub scaled_whole :
      (r : ℕ) → r * token_scale < exact → scaled F (F.of_int (pos r)) ≡ pos (r * token_scale)
  pub no_time :
      (r p : ℕ)
      → F.mul (F.seconds (pos 0)) (F.div (F.of_int (pos r)) (F.seconds (pos (suc p))))
        ≡ F.of_int (pos 0)
  pub add_nothing : (n : ℤ) → F.add (unscaled F n) (F.of_int (pos 0)) ≡ unscaled F n
  pub no_gain :
      (r : ℕ) (n : ℤ)
      → pos_part n < exact
      → pos_part (scaled F (F.min (F.of_int (pos r)) (unscaled F n))) ≤ pos_part n

-- `n` times the same.
abbrev pub at_once : ℕ → ℕ → List ℕ
at_once zero now = []
at_once (suc n) now = now ∷ at_once n now

abbrev pub cost : Bool → ℕ
cost answer = if answer then token_scale else 0

pay :
    (t : ℤ)
    → pos token_scale ≤ℤ t
    → pos_part t < exact
    → pos_part (add_64 t one_less) + token_scale ≤ pos_part t
unfolding add_64
pay (pos t) h k = ground (arith, h, k)
pay (negsuc t) h k = absurd (omega (arith, h))

le_pos : (a : ℤ) (n : ℕ) → a ≤ℤ pos n → pos_part a ≤ n
le_pos (pos a) n h = omega (arith, h)
le_pos (negsuc a) n h = omega arith

granted_more :
    (answer : Bool) (g t' t : ℕ)
    → t' + cost answer ≤ t
    → g * token_scale ≤ t'
    → ((if answer then 1 else 0) + g) * token_scale ≤ t
granted_more true g t' t c h = omega (arith, c, h)
granted_more false g t' t c h = omega (arith, c, h)

no_time_passes : (now : ℕ) → sub_ℕ now now ≡ pos 0
no_time_passes now = ground arith

module _ (F : Floats) (o : IsOrdered F) (e : IsExact F) (r p : ℕ) where
  -- The limiter of `r` requests in a period.
  abbrev pub Serves : Limiter F.Float → Type 0
  Serves rl = (rl.max_rate ≡ F.of_int (pos r)) × (rl.per ≡ pos (suc p))

  -- The key's bucket, refilled at this time, holds at most `t`.
  pub record Holds (rl : Limiter F.Float) (key : String) (now t : ℕ) : Type 0 where
    serves : Serves rl
    bucket : TokenBucket
    at : load rl.buckets key ≡ some bucket
    refilled_eq : bucket.last_refill ≡ now
    tokens_le : pos_part bucket.tokens ≤ t

  consume-Holds :
      (key : String) (now : ℕ) (bucket : TokenBucket) (rl : Limiter F.Float)
      → Serves rl
      → bucket.last_refill ≡ now
      → pos_part bucket.tokens < exact
      → let (answer, after) = consume F key bucket rl in
        (t : ℕ) × (t + cost answer ≤ pos_part bucket.tokens) × Holds after key now t
  unfolding consume
  consume-Holds key now bucket rl s l h =
      elim (Bool-cases (F.less (unscaled F bucket.tokens) (F.of_int (pos 1)))) [
        | inl poor ↦ rw poor (
          pos_part bucket.tokens,
          omega arith,
          record {
            serves = s;
            bucket = _;
            at = load-store_self rl.buckets key _;
            refilled_eq = l;
            tokens_le = omega arith;
          },
        )
        | inr rich ↦ rw rich (
          pos_part (add_64 bucket.tokens one_less),
          pay bucket.tokens (o.quotient_one bucket.tokens rich) h,
          record {
            serves = s;
            bucket = _;
            at = load-store_self rl.buckets key _;
            refilled_eq = l;
            tokens_le = omega arith;
          },
        )
      ]

  refill-again :
      (rl : Limiter F.Float) (now : ℕ) (bucket : TokenBucket)
      → Serves rl
      → bucket.last_refill ≡ now
      → pos_part bucket.tokens < exact
      → pos_part (refill_bucket F rl now bucket).tokens ≤ pos_part bucket.tokens
  unfolding refill_bucket
  refill-again rl now bucket (rate, per) l h =
      rw (l, no_time_passes now, rate, per)
        (rw (e.no_time r p, e.add_nothing bucket.tokens) (e.no_gain r bucket.tokens h))

  last_refill_lem :
      (rl : Limiter F.Float) (now : ℕ) (bucket : TokenBucket)
      → (refill_bucket F rl now bucket).last_refill ≡ now
  unfolding refill_bucket
  last_refill_lem rl now bucket = refl

  -- One answer, with what it leaves of at most `t`.
  abbrev pub Costs : String → ℕ → ℕ → Bool × Limiter F.Float → Type 0
  Costs key now t (answer, after) = (t' : ℕ) × (t' + cost answer ≤ t) × Holds after key now t'

  consume-Costs :
      (key : String) (now t : ℕ) (bucket : TokenBucket) (rl : Limiter F.Float)
      → Serves rl
      → bucket.last_refill ≡ now
      → pos_part bucket.tokens ≤ t
      → t < exact
      → Costs key now t (consume F key bucket rl)
  consume-Costs key now t bucket rl s l h k =
      let (t', c, holds) = consume-Holds key now bucket rl s l (omega arith) in
      (t', omega arith, holds)

  pub again :
      (key : String) (now t : ℕ) (rl : Limiter F.Float)
      → Holds rl key now t
      → t < exact
      → Costs key now t (allow F key now rl)
  unfolding allow get_or_create_bucket
  again key now t rl v k =
      let kept = refill-again rl now v.bucket v.serves v.refilled_eq (omega (arith, v.tokens_le)) in
      rw (v.at) (
        consume-Costs key now t (refill_bucket F rl now v.bucket) rl v.serves
          (last_refill_lem rl now v.bucket) (omega (arith, v.tokens_le)) k)

  full_enough :
      (rl : Limiter F.Float) (now : ℕ) (bucket : TokenBucket)
      → Serves rl
      → r * token_scale < exact
      → pos_part (refill_bucket F rl now bucket).tokens ≤ r * token_scale
  full_enough rl now bucket (rate, per) h =
      let whole : scaled F rl.max_rate ≡ pos (r * token_scale) =
        ap (scaled F) rate ∙ e.scaled_whole r h in
      le_pos (refill_bucket F rl now bucket).tokens (r * token_scale) (
        subst (λ c. (refill_bucket F rl now bucket).tokens ≤ℤ c) whole
          (refilled F o rl now bucket (ap neg_part whole)))

  pub first :
      (key : String) (now : ℕ) (rl : Limiter F.Float)
      → Serves rl
      → r * token_scale < exact
      → Costs key now (r * token_scale) (allow F key now rl)
  unfolding allow get_or_create_bucket
  first key now rl s h = elim (Option-cases (load rl.buckets key)) [
    | inl missing ↦
        let rl₁ =
          report (count "rate_limiter.bucket_created" (("key", key) ∷ []))
            (record rl { buckets = store rl.buckets key (new_bucket F rl.max_rate now) }) in
        let bucket = new_bucket F rl.max_rate now in
        rw missing (
          consume-Costs key now (r * token_scale) (refill_bucket F rl₁ now bucket) rl₁ s
            (last_refill_lem rl₁ now bucket) (full_enough rl₁ now bucket s h) h)
    | inr (bucket, found) ↦ rw found (
        consume-Costs key now (r * token_scale) (refill_bucket F rl now bucket) rl s
          (last_refill_lem rl now bucket) (full_enough rl now bucket s h) h)
  ]

  all_again :
      (n : ℕ) (key : String) (now t : ℕ) (rl : Limiter F.Float)
      → Holds rl key now t
      → t < exact
      → (allow_all F key (at_once n now) rl).0 * token_scale ≤ t
  unfolding allow_all
  all_again zero key now t rl v k = omega arith
  all_again (suc n) key now t rl v k =
      let (t', c, holds) = again key now t rl v k in
      let rest = all_again n key now t' (allow F key now rl).1 holds (omega arith) in
      granted_more (allow F key now rl).0 _ t' t c rest

  -- However many requests one client sends at one time: the limiter for `r` requests in a period of a
  -- nanosecond at least, where r million is below 2^50, lets at most `r` of them through, whatever it
  -- had done before. float64 keeps the laws of its order, and those of its exact numbers.
  pub burst_lem :
      (n : ℕ) (key : String) (now : ℕ) (rl : Limiter F.Float)
      → Serves rl
      → r * token_scale < exact
      → (allow_all F key (at_once n now) rl).0 ≤ r
  unfolding allow_all
  burst_lem zero key now rl s h = omega arith
  burst_lem (suc n) key now rl s h =
      let (t', c, holds) = first key now rl s h in
      let rest = all_again n key now t' (allow F key now rl).1 holds (omega arith) in
      omega (arith, granted_more (allow F key now rl).0 _ t' (r * token_scale) c rest)
