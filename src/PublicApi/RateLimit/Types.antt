-- ===== src/PublicApi/RateLimit/Types.antt =====
-- The results of a rate-limit check, and the units in which time and tokens are counted.
-- The program counts both in floats. Here a time is a number of ticks, a token is a number of
-- shares, and a refill is rounded down to a whole share. With 1000 ticks to the second and
-- 2592000000 shares to the token no refill is rounded for a window of a minute, a day or 30 days.
use inherent.Prelude.{ℕ, ◌<◌, Bool, true, false, Option, none, some, arith}

unfoldable pub second : ℕ
second = 1000

unfoldable pub token : ℕ
token = 2592000000

pub second-pos : 0 < second
unfolding second
second-pos = omega arith

pub token-pos : 0 < token
unfolding token
token-pos = omega arith

pub record RateLimitInfo : Type 0 where
  pub limit : ℕ
  pub remaining : ℕ
  pub reset_at : ℕ
  pub window_seconds : ℕ

pub record RateLimitResult : Type 0 where
  pub allowed : Bool
  pub info : RateLimitInfo

abbrev pub one_if : Bool → ℕ
one_if true = 1
one_if false = 0

-- `none` is a check that raised.
abbrev pub is_allowed : Option RateLimitResult → Bool
is_allowed none = false
is_allowed (some r) = r.allowed
