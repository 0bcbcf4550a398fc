-- ===== src/PublicApi/RateLimit/Backend.antt =====
-- `RateLimiterBackend`, the protocol that both backends fill, and the limiter in front of it.
-- A call of a backend that raises is `none`; the two that are written out always return.
use inherent.Prelude.{ℕ, String, Option, some}
use inherent.PublicApi.RateLimit.Types.{RateLimitInfo, RateLimitResult}
use inherent.PublicApi.RateLimit.InMemory
use inherent.PublicApi.RateLimit.InMemory.{InMemoryBackend}
use inherent.PublicApi.RateLimit.Redis
use inherent.PublicApi.RateLimit.Redis.{RedisClient}

-- A backend on a state `S`, asked at a time; `none` is a call that raised.
pub record RateLimiterBackend (S : Type 0) : Type 0 where
  pub check_and_consume : ℕ → String → ℕ → ℕ → S → Option RateLimitResult × S
  pub get_info : ℕ → String → ℕ → ℕ → S → Option RateLimitInfo × S

-- The two readings of the clock in one check are taken to be the same.
unfoldable pub in_memory : RateLimiterBackend InMemoryBackend
in_memory = record {
  check_and_consume = λ now. InMemory.check_and_consume now now;
  get_info = InMemory.get_info;
}

module _ {S : Type 0} (client : RedisClient S) (key_prefix : String) where
  redis_check : ℕ → String → ℕ → ℕ → S → Option RateLimitResult × S
  redis_check now key limit window_seconds s =
      let (r, s') = Redis.check_and_consume client key_prefix now key limit window_seconds s in
      (some r, s')

  unfoldable pub redis : RateLimiterBackend S
  unfolding redis_check
  redis = record {
    check_and_consume = redis_check;
    get_info = λ now key limit window_seconds s.
        (some (Redis.get_info client key_prefix now key limit window_seconds s), s);
  }

module _ {S : Type 0} (backend : RateLimiterBackend S) where
  -- `TokenBucketRateLimiter` passes both calls on.
  unfoldable pub check_rate_limit : ℕ → String → ℕ → ℕ → S → Option RateLimitResult × S
  check_rate_limit = backend.check_and_consume

  unfoldable pub get_current_state : ℕ → String → ℕ → ℕ → S → Option RateLimitInfo × S
  get_current_state = backend.get_info
