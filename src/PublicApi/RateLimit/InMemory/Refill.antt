-- ===== src/PublicApi/RateLimit/InMemory/Refill.antt =====
-- What a refill does to a bucket.
use native.Mathlib.Nat.{div-mul-le_self, le-div_iff_mul-le, mul-le-mul_right, mul-pos}
use inherent.Prelude.{ℕ, ◌+◌, ◌-◌, ◌*◌, ◌/◌, ◌≤◌, ◌<◌, min, ◌≡◌, refl, true, arith, ltb→lt}
use inherent.PublicApi.RateLimit.Types.{second, token, second-pos}
use inherent.PublicApi.RateLimit.InMemory.{BucketState, new_bucket, refill, is_stale}

-- `rate * time` with a division by the window, multiplied out.
refilled-le :
    (full held elapsed width : ℕ)
    → min full (held + elapsed * full / width) * width ≤ held * width + elapsed * full
refilled-le full held elapsed width =
    let quotient : ℕ = elapsed * full / width in
    let capped : min full (held + quotient) ≤ held + quotient = omega arith in
    omega (arith, mul-le-mul_right width capped, div-mul-le_self (elapsed * full) width)

-- What is idle for two windows has had the time to fill up.
filled :
    (full held elapsed width : ℕ)
    → 0 < width
    → 2 * width < elapsed
    → full ≤ held + elapsed * full / width
filled full held elapsed width p h =
    omega (arith, (le-div_iff_mul-le {x = full} {y = elapsed * full} p).1 (grind arith))

module _ (b : BucketState) (limit window_seconds now : ℕ) where
  -- A refill adds at most `limit / window_seconds` tokens per second.
  pub refill-le :
      (refill b limit window_seconds now).tokens * (window_seconds * second)
      ≤ b.tokens * (window_seconds * second) + (now - b.last_update) * (limit * token)
  unfolding refill
  refill-le = refilled-le (limit * token) b.tokens (now - b.last_update) (window_seconds * second)

  -- A refill never fills a bucket past its limit.
  pub refill-le-limit : (refill b limit window_seconds now).tokens ≤ limit * token
  unfolding refill
  refill-le-limit = omega arith

  pub last_update-refill : (refill b limit window_seconds now).last_update ≡ now
  unfolding refill
  last_update-refill = refl

  -- A bucket that the cleanup would drop is, once it is refilled, the bucket of a new key: under
  -- its own window nothing is lost by dropping it.
  refill-is_stale :
      0 < window_seconds
      → is_stale window_seconds now b ≡ true
      → refill b limit window_seconds now ≡ refill (new_bucket limit now) limit window_seconds now
  unfolding refill is_stale new_bucket
  refill-is_stale p h =
      let full : ℕ = limit * token in
      let width : ℕ = window_seconds * second in
      let wide : 0 < width = mul-pos p second-pos in
      let idle : 2 * width < now - b.last_update = omega (arith, ltb→lt _ _ h) in
      let old : min full (b.tokens + (now - b.last_update) * full / width) ≡ full =
        omega (arith, filled full b.tokens (now - b.last_update) width wide idle) in
      let new : min full (full + (now - now) * full / width) ≡ full = omega arith in
      rw (old, new) (ground arith)
