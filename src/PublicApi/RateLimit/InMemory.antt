-- ===== src/PublicApi/RateLimit/InMemory.antt =====
-- `InMemoryBackend`: one token bucket per key. Every call holds the lock from its first read to its
-- last write, so calls are steps on the state, one after another.
pub mod Refill
pub mod Ledger
pub mod Step
pub mod Admission
pub mod Cleanup
use inherent.Prelude.{
  ℕ, ◌+◌, ◌-◌, ◌*◌, ◌/◌, min, String, Bool, true, false, not, Option, none, some, ltb, leb, ◌==◌,
  if◌then◌else◌,
}
use inherent.Prelude.Dict
use inherent.Prelude.Dict.{Dict}
use inherent.PublicApi.RateLimit.Types.{second, token, RateLimitInfo, RateLimitResult}

pub record BucketState : Type 0 where
  pub tokens : ℕ
  pub last_update : ℕ
  pub window_start : ℕ

pub record InMemoryBackend : Type 0 where
  pub buckets : Dict BucketState
  pub last_cleanup : ℕ

-- `__init__`
unfoldable pub new_backend : ℕ → InMemoryBackend
new_backend now = record { buckets = Dict.empty; last_cleanup = now }

-- `_cleanup_interval`, five minutes
abbrev pub cleanup_interval : ℕ
cleanup_interval = 300 * second

-- A new bucket is full.
unfoldable pub new_bucket : ℕ → ℕ → BucketState
new_bucket limit now = record { tokens = limit * token; last_update = now; window_start = now }

-- The bucket that `_get_or_create_bucket` returns; it is written back with the refill.
unfoldable pub get_or_create : String → ℕ → ℕ → InMemoryBackend → BucketState
get_or_create key limit now s = elim (Dict.get key s.buckets) [
  | none ↦ new_bucket limit now
  | some b ↦ b
]

-- `_refill_tokens`. The clock is taken not to run backwards: an earlier `now` refills nothing.
unfoldable pub refill : BucketState → ℕ → ℕ → ℕ → BucketState
refill b limit window_seconds now =
    let tokens =
      min (limit * token)
        (b.tokens + (now - b.last_update) * (limit * token) / (window_seconds * second)) in
    record {
      tokens = tokens;
      last_update = now;
      window_start = if leb (limit * token) tokens then now else b.window_start;
    }

-- `now - bucket.last_update > window_seconds * 2`
unfoldable pub is_stale : ℕ → ℕ → BucketState → Bool
is_stale window_seconds now b = ltb (window_seconds * 2 * second) (now - b.last_update)

-- `_cleanup_stale_buckets`: the window is the calling request's, the buckets are everybody's.
unfoldable pub cleanup_stale_buckets : ℕ → ℕ → InMemoryBackend → InMemoryBackend
unfolding is_stale
cleanup_stale_buckets window_seconds now s = record s {
  buckets = Dict.retain (λ b. not (is_stale window_seconds now b)) s.buckets;
}

-- The periodic cleanup at the head of a check; the cleanup reads the clock once more, at `later`.
unfoldable pub maybe_cleanup : ℕ → ℕ → ℕ → InMemoryBackend → InMemoryBackend
maybe_cleanup window_seconds now later s =
    if ltb cleanup_interval (now - s.last_cleanup)
    then record (cleanup_stale_buckets window_seconds later s) { last_cleanup = now }
    else s

unfoldable pub put_bucket : String → BucketState → InMemoryBackend → InMemoryBackend
put_bucket key b s = record s { buckets = Dict.insert key b s.buckets }

-- The info of a bucket after its refill or its payment.
info_of : BucketState → ℕ → ℕ → ℕ → RateLimitInfo
info_of b limit remaining window_seconds = record {
  limit = limit;
  remaining = remaining;
  reset_at = b.window_start + window_seconds * second;
  window_seconds = window_seconds;
}

-- What the check does with the refilled bucket.
unfoldable pub consume :
    String → ℕ → ℕ → BucketState → InMemoryBackend → RateLimitResult × InMemoryBackend
unfolding info_of put_bucket
consume key limit window_seconds b s =
    let paid = record b { tokens = b.tokens - token } in
    if leb token b.tokens
    then (
      record { allowed = true; info = info_of paid limit (paid.tokens / token) window_seconds },
      put_bucket key paid s,
    )
    else (record { allowed = false; info = info_of b limit 0 window_seconds }, put_bucket key b s)

-- `check_and_consume`; `none` is the division by a window of zero, which leaves the new bucket.
unfoldable pub check_and_consume :
    ℕ → ℕ → String → ℕ → ℕ → InMemoryBackend → Option RateLimitResult × InMemoryBackend
check_and_consume now later key limit window_seconds s =
    let swept = maybe_cleanup window_seconds now later s in
    let b = get_or_create key limit now swept in
    let (result, s') = consume key limit window_seconds (refill b limit window_seconds now) swept in
    if window_seconds == 0 then (none, put_bucket key b swept) else (some result, s')

-- `get_info`: refills, and consumes nothing.
unfoldable pub get_info :
    ℕ → String → ℕ → ℕ → InMemoryBackend → Option RateLimitInfo × InMemoryBackend
unfolding info_of
get_info now key limit window_seconds s =
    let b = get_or_create key limit now s in
    let full = refill b limit window_seconds now in
    if window_seconds == 0
    then (none, put_bucket key b s)
    else (some (info_of full limit (full.tokens / token) window_seconds), put_bucket key full s)
