-- ===== src/PublicApi/RateLimit/Tests.antt =====
-- The limiter on sample keys, and its theorems there.
use inherent.Prelude.{
  ℕ, suc, ◌≢◌, ◌+◌, ◌*◌, ◌≤◌, ◌≡◌, refl, true, false, Option, none, some, List, [], ◌∷◌, arith,
  str_eq, if◌then◌else◌,
}
use inherent.Prelude.Dict
use inherent.PublicApi.RateLimit.Types.{is_allowed, second, token}
use inherent.PublicApi.RateLimit.InMemory.{
  BucketState, InMemoryBackend, new_backend, new_bucket, refill, is_stale, check_and_consume,
  maybe_cleanup, get_or_create, consume,
}
use inherent.PublicApi.RateLimit.InMemory.Admission.{Call, admitted, admitted-le, finish}
use inherent.PublicApi.RateLimit.InMemory.Cleanup.{check_forgets}
use inherent.PublicApi.RateLimit.Redis.{RedisClient, IsRedis, or_zero}
use inherent.PublicApi.RateLimit.Redis.Window
use inherent.PublicApi.RateLimit.Redis.Window.{admitted-eq-min}

-- An exhausted bucket that was used at the time 0, and a backend that has only this one.
abbrev exhausted : BucketState
exhausted = record { tokens = 0; last_update = 0; window_start = 0 }

abbrev one_key : InMemoryBackend
one_key = record {
  buckets = λ k. if str_eq "calls_per_month" k then some exhausted else none;
  last_cleanup = 0;
}

abbrev month : ℕ
month = 2592000

abbrev calls : List Call
calls =
    record { now = 0; later = 0; key = "a"; limit = 1 }
    ∷ record { now = 1; later = 1; key = "a"; limit = 1 }
    ∷ record { now = 2; later = 2; key = "b"; limit = 5 }
    ∷ []

admitted_once : admitted "a" 60 calls (new_backend 0) ≡ 1
unfolding admitted check_and_consume maybe_cleanup get_or_create refill consume new_bucket
    new_backend Dict.get Dict.insert token second
admitted_once = refl

admitted-le_example :
    admitted "a" 60 calls (new_backend 0) * (60 * second) + 0 * 1
    ≤ 1 * (60 * second) + finish "a" 60 0 calls * 1
unfolding second
admitted-le_example = admitted-le "a" 60 1 0 calls (omega arith) (
  omega arith,
  omega arith,
  omega arith,
  (λ e. refl),
  (
    omega arith,
    omega arith,
    omega arith,
    (λ e. refl),
    (omega arith, omega arith, omega arith, (λ e. cc), tt),
  ),
)

-- Ten minutes after the monthly limit was used up, a check with a window of a minute restores it.
check_forgets_example :
    (is_allowed (check_and_consume 600000 600000 "calls_per_month" 10 month one_key).0 ≡ false)
    × (is_allowed
          (check_and_consume 600000 600000 "calls_per_month" 10 month
            (check_and_consume 600000 600000 "calls_per_minute" 60 60 one_key).1).0
        ≡ true)
unfolding is_stale refill token second Dict.get
check_forgets_example =
    check_forgets "calls_per_month" "calls_per_minute" 10 month 60 60 600000 600000 600000 600000
      one_key exhausted (omega arith) (omega arith) (omega arith) refl refl refl (omega arith)
      (omega arith) refl

-- A server with one key, which may be absent: `EXPIRE` on an absent key does nothing.
abbrev one_counter : RedisClient (Option ℕ × Option ℕ)
one_counter = record {
  incr = λ k s. (suc (or_zero s.0), (some (suc (or_zero s.0)), s.1));
  ttl = λ k s. s.1;
  expire = λ k n s. elim s.0 [ none ↦ s | some count ↦ (some count, some n) ];
  get = λ k s. s.0;
}

one_counter-IsRedis : IsRedis one_counter
one_counter-IsRedis = record {
  incr_counts = λ k s. omega arith;
  get-incr = λ k s. refl;
  get-expire = λ k n s h. same_count n s.0 s.1;
  ttl-expire = λ k n s h there. expires n s.0 s.1 there;
}
  where
    same_count :
        (n : ℕ) (count left : Option ℕ)
        → one_counter.get "" (one_counter.expire "" n (count, left)) ≡ count
    same_count n none left = refl
    same_count n (some c) left = refl

    expires :
        (n : ℕ) (count left : Option ℕ)
        → count ≢ none
        → one_counter.ttl "" (one_counter.expire "" n (count, left)) ≡ some n
    expires n none left there = absurd (there refl)
    expires n (some c) left there = refl

admitted-eq-min_example :
    Window.admitted one_counter "p:" "a" 60 2 (0 ∷ 1 ∷ 2 ∷ []) (none, none) ≡ 2
admitted-eq-min_example =
    admitted-eq-min one_counter one_counter-IsRedis "p:" "a" 2 60 (0 ∷ 1 ∷ 2 ∷ []) (none, none)
      (omega arith)
