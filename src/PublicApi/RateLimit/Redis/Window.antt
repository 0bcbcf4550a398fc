-- ===== src/PublicApi/RateLimit/Redis/Window.antt =====
-- What the counter promises within a window: every check counts, the first `limit` are allowed, and
-- the key expires.
use inherent.Prelude.{
  ◌≢◌, none, ℕ, ◌+◌, ◌-◌, ◌<◌, min, String, ◌≡◌, ◌∙◌, ap, inl, inr, List, [], ◌∷◌, length, arith,
  leb, Option-cases,
}
use inherent.PublicApi.RateLimit.Types.{RateLimitResult, one_if}
use inherent.PublicApi.RateLimit.Redis.{
  RedisClient, IsRedis, or_zero, bucket_key, ensure_expiry, check_and_consume,
}

module _ {S : Type 0} (client : RedisClient S) (key_prefix key : String) (window_seconds : ℕ) where
  -- How often the bucket has been counted.
  abbrev pub counter : S → ℕ
  counter s = or_zero (client.get (bucket_key client key_prefix key window_seconds) s)

  -- How many of the checks at these times are allowed, one after another.
  unfoldable pub admitted : ℕ → List ℕ → S → ℕ
  admitted limit [] s = 0
  admitted limit (now ∷ later) s =
      let (r, s') = check_and_consume client key_prefix now key limit window_seconds s in
      one_if r.allowed + admitted limit later s'

module _ {S : Type 0} (client : RedisClient S) (redis : IsRedis client) (key_prefix : String) where
  module _ (bucket : String) (window_seconds : ℕ) (width : 0 < window_seconds) (s : S) where
    get-ensure_expiry :
        client.get bucket (ensure_expiry client key_prefix bucket window_seconds s).1
        ≡ client.get bucket s
    unfolding ensure_expiry
    get-ensure_expiry = elim (Option-cases (client.ttl bucket s)) [
      | inl unset ↦ rw (unset, ensure_expiry) (redis.get-expire bucket window_seconds s width)
      | inr (left, e) ↦ rw (e, ensure_expiry)
    ]

    ttl-ensure_expiry :
        client.get bucket s ≢ none
        → client.ttl bucket (ensure_expiry client key_prefix bucket window_seconds s).1 ≢ none
    unfolding ensure_expiry
    ttl-ensure_expiry there = elim (Option-cases (client.ttl bucket s)) [
      | inl unset ↦
          rw (unset, ensure_expiry, redis.ttl-expire bucket window_seconds s width there) (λ e. cc)
      | inr (left, e) ↦ rw (e, ensure_expiry, e) (λ h. cc)
    ]

  module _ (key : String) (limit window_seconds now : ℕ) (width : 0 < window_seconds) (s : S) where
    abbrev checked : RateLimitResult × S
    checked = check_and_consume client key_prefix now key limit window_seconds s

    -- A check counts: the counter goes up by one, also when the check is refused, the check is
    -- allowed exactly if the new count is within the limit, and it reports what is left of it.
    check-counts :
        (counter client key_prefix key window_seconds checked.1
          ≡ counter client key_prefix key window_seconds s + 1)
        × (checked.0.allowed ≡ leb (counter client key_prefix key window_seconds s + 1) limit)
        × (checked.0.info.remaining ≡ limit - (counter client key_prefix key window_seconds s + 1))
    unfolding check_and_consume
    check-counts =
        let bucket : String = bucket_key client key_prefix key window_seconds in
        let counted : S = (client.incr bucket s).1 in
        let one_more : or_zero (client.get bucket counted) ≡ or_zero (client.get bucket s) + 1 =
          ap or_zero (redis.get-incr bucket s) ∙ redis.incr_counts bucket s in
        (
          ap or_zero (get-ensure_expiry bucket window_seconds width counted) ∙ one_more,
          ap (λ n. leb n limit) (redis.incr_counts bucket s),
          ap (λ n. limit - n) (redis.incr_counts bucket s),
        )

    -- After a check the key expires: no key counts forever.
    check-expires : client.ttl (bucket_key client key_prefix key window_seconds) checked.1 ≢ none
    unfolding check_and_consume
    check-expires =
        ttl-ensure_expiry (bucket_key client key_prefix key window_seconds) window_seconds width
          (client.incr (bucket_key client key_prefix key window_seconds) s).1
          (λ gone.
            let set = redis.get-incr (bucket_key client key_prefix key window_seconds) s in cc)

  module _ (key : String) (limit window_seconds : ℕ) where
    -- While the key does not expire, exactly the first checks up to the limit are allowed.
    pub admitted-eq-min :
        (times : List ℕ) (s : S)
        → 0 < window_seconds
        → admitted client key_prefix key window_seconds limit times s
          ≡ min (length times) (limit - counter client key_prefix key window_seconds s)
    unfolding admitted
    admitted-eq-min [] s width = omega arith
    admitted-eq-min (now ∷ later) s width =
        let (count, allowed, remaining) = check-counts key limit window_seconds now width s in
        rw allowed (
          ground (
            arith,
            count,
            admitted-eq-min later
                (check_and_consume client key_prefix now key limit window_seconds s).1 width,
          ))
