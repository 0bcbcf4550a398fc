-- ===== src/PublicApi/RateLimit/Redis.antt =====
-- `RedisBackend`: a fixed-window counter on a Redis client, which is a parameter.
-- Its calls return; a client that raises is not represented here, but by the quotas, whose limiter may.
pub mod Window
use Prim.Native.String.{◌++◌}
use inherent.Prelude.{
  ℕ, zero, suc, ◌+◌, ◌-◌, ◌*◌, ◌/◌, ◌%◌, ◌<◌, String, ◌≡◌, ◌≢◌, Bool, Option, none, some, ltb, leb,
  ◌==◌, str_eq, if◌then◌else◌,
}
use inherent.Prelude.Text.{show}
use inherent.PublicApi.RateLimit.Types.{second, RateLimitInfo, RateLimitResult}

-- The commands that the backend calls, on the state `S` of the server.
pub record RedisClient (S : Type 0) : Type 0 where
  -- the value after the increment
  pub incr : String → S → ℕ × S
  -- `none` is a negative reply: no key, or a key that never expires
  pub ttl : String → S → Option ℕ
  pub expire : String → ℕ → S → S
  pub get : String → S → Option ℕ

-- An absent counter counts as zero.
abbrev pub or_zero : Option ℕ → ℕ
or_zero none = 0
or_zero (some n) = n

-- What Redis documents of these commands, as far as the backend relies on it. Keys that expire
-- between two calls of the backend are a change of the state between the calls.
pub record IsRedis {S : Type 0} (client : RedisClient S) : Type 0 where
  pub incr_counts : (k : String) (s : S) → (client.incr k s).0 ≡ or_zero (client.get k s) + 1
  pub get-incr : (k : String) (s : S) → client.get k (client.incr k s).1 ≡ some (client.incr k s).0
  pub get-expire :
      (k : String) (n : ℕ) (s : S) → 0 < n → client.get k (client.expire k n s) ≡ client.get k s
  pub ttl-expire :
      (k : String) (n : ℕ) (s : S)
      → 0 < n
      → client.get k s ≢ none
      → client.ttl k (client.expire k n s) ≡ some n

module _ {S : Type 0} (client : RedisClient S) (key_prefix : String) where
  -- `_bucket_key`
  unfoldable pub bucket_key : String → ℕ → String
  unfolding show
  bucket_key key window_seconds = key_prefix ++ (key ++ (":" ++ show window_seconds))

  -- `if ttl < 0: expire`, with the seconds that are left.
  unfoldable pub ensure_expiry : String → ℕ → S → ℕ × S
  ensure_expiry bucket window_seconds s = elim (client.ttl bucket s) [
    | none ↦ (window_seconds, client.expire bucket window_seconds s)
    | some left ↦ (left, s)
  ]

  unfoldable pub check_and_consume : ℕ → String → ℕ → ℕ → S → RateLimitResult × S
  check_and_consume now key limit window_seconds s =
      let bucket = bucket_key key window_seconds in
      let (count, counted) = client.incr bucket s in
      let (ttl, s') = ensure_expiry bucket window_seconds counted in
      (
        record {
          allowed = leb count limit;
          info = record {
            limit = limit;
            remaining = limit - count;
            reset_at = now + ttl * second;
            window_seconds = window_seconds;
          };
        },
        s',
      )

  unfoldable pub get_info : ℕ → String → ℕ → ℕ → S → RateLimitInfo
  get_info now key limit window_seconds s =
      let bucket = bucket_key key window_seconds in
      let count = or_zero (client.get bucket s) in
      let left = or_zero (client.ttl bucket s) in
      record {
        limit = limit;
        remaining = limit - count;
        reset_at = now + (if ltb 0 left then left else window_seconds) * second;
        window_seconds = window_seconds;
      }
