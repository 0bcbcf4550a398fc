-- ===== src/PublicApi/RateLimit/InMemory/Cleanup.antt =====
-- What the cleanup of one request does to the buckets of the other keys.
use native.Mathlib.Nat.{mul-le-mul_right}
use inherent.Prelude.{
  ℕ, ◌-◌, ◌≤◌, ◌<◌, String, ◌≡◌, ◌∙◌, inl, inr, true, false, none, some, arith, ltb, leb, ◌==◌,
  lt→ltb, le→leb, str_eq, Bool-cases,
}
use inherent.Prelude.Dict
use inherent.PublicApi.RateLimit.Types.{is_allowed, token}
use inherent.PublicApi.RateLimit.InMemory.{
  BucketState, InMemoryBackend, cleanup_interval, new_bucket, get_or_create, refill, is_stale,
  cleanup_stale_buckets, maybe_cleanup, consume, check_and_consume,
}

module _ (key : String) (limit window_seconds now later : ℕ) (s : InMemoryBackend) where
  -- The cleanup keeps a bucket that is not stale, and makes none.
  get-maybe_cleanup-none :
      Dict.get key s.buckets ≡ none
      → Dict.get key (maybe_cleanup window_seconds now later s).buckets ≡ none
  unfolding maybe_cleanup cleanup_stale_buckets
  get-maybe_cleanup-none absent = elim (Bool-cases (ltb cleanup_interval (now - s.last_cleanup))) [
    | inl due ↦ rw (due, Dict.get-retain, absent)
    | inr not_due ↦ rw (not_due, absent)
  ]

  get-maybe_cleanup_kept :
      (b : BucketState)
      → Dict.get key s.buckets ≡ some b
      → is_stale window_seconds later b ≡ false
      → Dict.get key (maybe_cleanup window_seconds now later s).buckets ≡ some b
  unfolding maybe_cleanup cleanup_stale_buckets
  get-maybe_cleanup_kept b found kept =
      elim (Bool-cases (ltb cleanup_interval (now - s.last_cleanup))) [
        | inl due ↦ rw (due, Dict.get-retain, found, kept)
        | inr not_due ↦ rw (not_due, found)
      ]

  -- A check is decided by the refilled bucket.
  check-is_allowed :
      (b : BucketState)
      → 0 < window_seconds
      → get_or_create key limit now (maybe_cleanup window_seconds now later s) ≡ b
      → is_allowed (check_and_consume now later key limit window_seconds s).0
        ≡ leb token (refill b limit window_seconds now).tokens
  unfolding check_and_consume consume
  check-is_allowed b width e =
      let no_division_by_zero : (window_seconds == 0) ≡ false = ground arith in
      elim (Bool-cases (leb token (refill b limit window_seconds now).tokens)) [
        | inl enough ↦ rw (no_division_by_zero, e, enough)
        | inr short ↦ rw (no_division_by_zero, e, short)
      ]

  -- Without a bucket the key starts with a full one.
  check_new :
      1 ≤ limit
      → 0 < window_seconds
      → Dict.get key s.buckets ≡ none
      → is_allowed (check_and_consume now later key limit window_seconds s).0 ≡ true
  unfolding get_or_create
  check_new some_limit width absent =
      let made : get_or_create key limit now (maybe_cleanup window_seconds now later s)
          ≡ new_bucket limit now =
        rw (get-maybe_cleanup-none absent, get_or_create) in
      let full : token ≤ (refill (new_bucket limit now) limit window_seconds now).tokens =
        unfold refill new_bucket in omega (arith, mul-le-mul_right token some_limit) in
      check-is_allowed (new_bucket limit now) width made ∙ le→leb _ _ full

  -- With a bucket that its own window keeps, a refill below one token is refused.
  check_kept :
      (b : BucketState)
      → 0 < window_seconds
      → Dict.get key s.buckets ≡ some b
      → is_stale window_seconds later b ≡ false
      → (refill b limit window_seconds now).tokens < token
      → is_allowed (check_and_consume now later key limit window_seconds s).0 ≡ false
  unfolding get_or_create
  check_kept b width found kept short =
      let held : get_or_create key limit now (maybe_cleanup window_seconds now later s) ≡ b =
        rw (get-maybe_cleanup_kept b found kept, get_or_create) in
      check-is_allowed b width held ∙ ground arith

module _ (key other : String) (limit' window' now later : ℕ) (s : InMemoryBackend) where
  get-consume_other :
      (b : BucketState)
      → str_eq other key ≡ false
      → Dict.get key (consume other limit' window' b s).1.buckets ≡ Dict.get key s.buckets
  unfolding consume
  get-consume_other b differ = elim (Bool-cases (leb token b.tokens)) [
    | inl enough ↦ rw (enough, Dict.get-insert, differ)
    | inr short ↦ rw (short, Dict.get-insert, differ)
  ]

  get-maybe_cleanup-stale :
      (b : BucketState)
      → cleanup_interval < now - s.last_cleanup
      → Dict.get key s.buckets ≡ some b
      → is_stale window' later b ≡ true
      → Dict.get key (maybe_cleanup window' now later s).buckets ≡ none
  unfolding maybe_cleanup cleanup_stale_buckets
  get-maybe_cleanup-stale b due found stale = rw (lt→ltb _ _ due, Dict.get-retain, found, stale)

-- A cleanup on behalf of another key drops what is stale under the other key's window.
dropped :
    (key other : String) (limit' window' now later : ℕ) (s : InMemoryBackend) (b : BucketState)
    → str_eq other key ≡ false
    → 0 < window'
    → cleanup_interval < now - s.last_cleanup
    → Dict.get key s.buckets ≡ some b
    → is_stale window' later b ≡ true
    → Dict.get key (check_and_consume now later other limit' window' s).1.buckets ≡ none
unfolding check_and_consume
dropped key other limit' window' now later s b differ width due found stale =
    let no_division_by_zero : (window' == 0) ≡ false = ground arith in
    rw no_division_by_zero (
      get-consume_other key other limit' window' now later (maybe_cleanup window' now later s) _
        differ
      ∙ get-maybe_cleanup-stale key other limit' window' now later s b due found stale)

-- A check of one key with a short window refills the exhausted bucket of another key with a long
-- one. Say that a key holds a bucket whose refill is below one token, so that its own check is
-- refused. If a check of another key comes when a cleanup is due, and the bucket has been idle for
-- two of the other key's windows, then after that check the same check is allowed.
pub check_forgets :
    (key other : String) (limit window limit' window' now later now' later' : ℕ)
    (s : InMemoryBackend) (b : BucketState)
    → 1 ≤ limit
    → 0 < window
    → 0 < window'
    → str_eq other key ≡ false
    → Dict.get key s.buckets ≡ some b
    → is_stale window later b ≡ false
    → (refill b limit window now).tokens < token
    → cleanup_interval < now' - s.last_cleanup
    → is_stale window' later' b ≡ true
    → (is_allowed (check_and_consume now later key limit window s).0 ≡ false)
      × (is_allowed
            (check_and_consume now later key limit window
              (check_and_consume now' later' other limit' window' s).1).0
          ≡ true)
check_forgets key other limit window limit' window' now later now' later' s b some_limit wide wide'
      differ found kept short due stale =
    (
      check_kept key limit window now later s b wide found kept short,
      check_new key limit window now later (check_and_consume now' later' other limit' window' s).1
          some_limit wide
          (dropped key other limit' window' now' later' s b differ wide' due found stale),
    )
