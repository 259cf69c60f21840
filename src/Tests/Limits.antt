-- ===== src/Tests/Limits.antt =====
-- The rate limiter (middleware_rate_limiter.go) at concrete inputs, with whole numbers or fixed-point
-- numbers in place of float64.
use r.Limiter.Counts.{allow_all}
use native.Mathlib.Nat.{mul-le-mul_left, mul-div-le}
use r.Common.{
  ℕ, Bool-cases, inl, inr, ◌<◌, ◌+◌, ◌*◌, ◌-◌, ◌/◌, ◌≤◌, ◌≡◌, refl, true, false, some, [], ◌∷◌,
  arith, ltb, if◌then◌else◌,
}
use r.Common.Int.{ℤ, pos, negsuc, pos_part, ◌≤ℤ◌}
use r.Common.Maps.{load, store}
use r.Common.Float.{Floats, IsOrdered}
use r.Limiter.{Limiter, TokenBucket, allow}
use r.Limiter.Local.{RedisClient, local_allow, topped_up, distributed_allow}
use r.Limiter.Burst.{at_once, burst_lem, IsExact}
use r.Limiter.Bounds.{Bounded, found_bucket, Allowed, allow_lem}

-- Whole numbers.
abbrev pub whole : Floats
whole = record {
  Float = ℕ;
  of_int = pos_part;
  trunc = pos;
  add = λ a b. a + b;
  sub = λ a b. a - b;
  mul = λ a b. a * b;
  div = λ a b. a / b;
  min = λ a b. if ltb a b then a else b;
  less = ltb;
  seconds = λ d. pos_part d / 1000000000;
  two_decimals = λ x. "?";
}

not_below : (a b : ℕ) → ltb a b ≡ false → b ≤ a
not_below a b h = ground arith

div_one : (a b : ℕ) → ltb (a / b) 1 ≡ false → b ≤ a
div_one a b h =
    omega (arith, mul-div-le a b, mul-le-mul_left {m = 1} {n = a / b} b (not_below (a / b) 1 h))

quotient_one : (a : ℤ) → ltb (pos_part a / 1000000) 1 ≡ false → pos 1000000 ≤ℤ a
quotient_one (pos a) h = omega (arith, div_one a 1000000 h)
quotient_one (negsuc a) h = absurd (omega (arith, div_one 0 1000000 h))

pub whole-IsOrdered : IsOrdered whole
whole-IsOrdered = record {
  min_le = λ a b. ground arith;
  scale_mono = λ a b n h z. omega (arith, mul-le-mul_left {m = a} {n = b} n (not_below b a h));
  quotient_one = quotient_one;
}

no_gain : (r a : ℕ) → (if ltb r (a / 1000000) then r else a / 1000000) * 1000000 ≤ a
no_gain r a = elim (Bool-cases (ltb r (a / 1000000))) [
  | inl less ↦ rw less (omega (arith, mul-div-le a 1000000, ltb_lem less))
  | inr more ↦ rw more (omega (arith, mul-div-le a 1000000))
]
  where
    ltb_lem : ltb r (a / 1000000) ≡ true → r < a / 1000000
    ltb_lem h = ground arith

pub whole-IsExact : IsExact whole
whole-IsExact = record {
  scaled_whole = λ r h. refl;
  no_time = λ r p. omega arith;
  add_nothing = λ n. omega arith;
  no_gain = λ r n h. no_gain r (pos_part n);
}

-- Five requests a second.
abbrev five : Limiter ℕ
five = record {
  tokens = [];
  last_req = [];
  buckets = [];
  max_rate = 5;
  per = pos 1000000000;
  has_redis = false;
  key_prefix = "ratelimit";
  has_metrics = true;
  calls = [];
  errors = [];
}

abbrev used : TokenBucket
used = record {
  tokens = pos 2000000;
  last_refill = 70;
  allow_count = pos 4;
  reject_count = pos 0;
  refill_count = pos 3;
}

abbrev pub busy : Limiter ℕ
busy = record five { buckets = ("ann", used) ∷ [] }

pub busy-Bounded : Bounded whole busy
unfolding load
busy-Bounded key bucket e = ground arith

allow_lem_example :
    Allowed whole "ann" 5
      (found_bucket whole "ann" 90 busy)
      (allow whole "ann" 90 busy).0
      (allow whole "ann" 90 busy).1
allow_lem_example = allow_lem whole whole-IsOrdered "ann" 90 busy refl (omega arith) busy-Bounded

-- A Redis that answers the first command with an error if its state is 0, and counts 9 requests.
abbrev redis : RedisClient ℕ ℕ
redis = record {
  set = λ key value per s. (false, s);
  z_rem_range_by_score = λ key low high s. (ltb s 1, s);
  z_add = λ key score member s. (false, s + 1);
  z_count = λ key low s. (some (pos 9), s);
}

-- Redis refuses the tenth request of a window when five are allowed.
ten_are_too_many : (distributed_allow whole ℕ redis "ann" 70 80 five 1).0 ≡ false
unfolding distributed_allow
ten_are_too_many = refl

-- Numbers with six decimals.
abbrev micro : Floats
micro = record {
  Float = ℕ;
  of_int = λ n. pos_part n * 1000000;
  trunc = λ x. pos (x / 1000000);
  add = λ a b. a + b;
  sub = λ a b. a - b;
  mul = λ a b. a * b / 1000000;
  div = λ a b. a * 1000000 / b;
  min = λ a b. if ltb a b then a else b;
  less = ltb;
  seconds = λ d. pos_part d / 1000;
  two_decimals = λ x. "?";
}

-- One request a second, and the last token was taken at 0.
abbrev slow : Limiter ℕ
slow = record five { max_rate = 1000000; tokens = ("ann", 0) ∷ []; last_req = ("ann", 0) ∷ [] }

-- After half a second the request is refused, after six tenths of a second it is let through.
too_early :
    let refused = local_allow micro "ann" 500000000 slow in
    (refused.0 ≡ false) × ((local_allow micro "ann" 600000000 refused.1).0 ≡ true)
unfolding local_allow load topped_up store
too_early = (refl, refl)

burst_lem_example : (allow_all whole "10.0.0.1" (at_once 8 70) five).0 ≤ 5
burst_lem_example =
    burst_lem whole whole-IsOrdered whole-IsExact 5 999999999 8 "10.0.0.1" 70 five (refl, refl)
      (omega arith)
