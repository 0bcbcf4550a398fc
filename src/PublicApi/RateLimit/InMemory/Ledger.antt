-- ===== src/PublicApi/RateLimit/InMemory/Ledger.antt =====
-- What a key has spent and what its bucket still holds, through the cleanup and the refill.
use native.Mathlib.Nat.{mul-le-mul_right}
use inherent.Prelude.{
  ℕ, ◌+◌, ◌-◌, ◌*◌, ◌≤◌, String, ◌≡◌, ap, inl, inr, not, Option, none, some, arith, ltb→lt, ltb,
  if◌then◌else◌, Bool-cases,
}
use inherent.Prelude.Dict
use inherent.Prelude.Dict.{Dict, empty, dict_laws}
use inherent.PublicApi.RateLimit.Types.{second, token}
use inherent.PublicApi.RateLimit.InMemory.{
  BucketState, InMemoryBackend, cleanup_interval, new_bucket, get_or_create, refill, is_stale,
  cleanup_stale_buckets, maybe_cleanup,
}
use inherent.PublicApi.RateLimit.InMemory.Refill.{refill-le, refill-le-limit, last_update-refill}

-- What the bucket of a key holds after `n` admissions since `start`: held and admitted shares are
-- at most the full bucket and the refills until the bucket's last update. Times are multiplied by
-- the full bucket, and shares by the window's width.
abbrev pub Holds : (full width start n now : ℕ) → Option BucketState → Type 0
Holds full width start n now none = (start ≤ now) × (n * token * width + start * full ≤ now * full)
Holds full width start n now (some b) =
    (start ≤ now)
    × (b.last_update ≤ now)
    × ((b.tokens + n * token) * width + start * full ≤ full * width + b.last_update * full)

-- A pause of a window and more pays for a full bucket.
pause : (full width last now : ℕ) → last + width ≤ now → full * width + last * full ≤ now * full
pause full width last now h = omega (arith, mul-le-mul_right full h)

module _ (full width start n : ℕ) where
  -- Time alone keeps it.
  pub Holds-later :
      (now now' : ℕ) (o : Option BucketState)
      → now ≤ now'
      → Holds full width start n now o
      → Holds full width start n now' o
  Holds-later now now' none le h = omega (arith, mul-le-mul_right full le)
  Holds-later now now' (some b) le h = omega arith

  -- So does the loss of a bucket that has been idle for two windows.
  pub Holds-dropped :
      (now : ℕ) (b : BucketState)
      → b.last_update + width ≤ now
      → Holds full width start n now (some b)
      → Holds full width start n now none
  Holds-dropped now b idle h = omega (arith, pause full width b.last_update now idle)

module _ (key : String) (window_seconds limit start n : ℕ) where
  abbrev pub Keeps : ℕ → InMemoryBackend → Type 0
  Keeps now s = Holds (limit * token) (window_seconds * second) start n now (Dict.get key s.buckets)

  retained :
      (now later : ℕ) (o : Option BucketState)
      → later ≤ now + window_seconds * second
      → Holds (limit * token) (window_seconds * second) start n now o
      → Holds (limit * token) (window_seconds * second) start n now (elim o [
        | none ↦ none
        | some b ↦ if not (is_stale window_seconds later b) then some b else none
      ])
  unfolding is_stale
  retained now later none near h = h
  retained now later (some b) near h = elim (Bool-cases (is_stale window_seconds later b)) [
    | inl stale ↦ rw stale (
        Holds-dropped (limit * token) (window_seconds * second) start n now b
          (omega (arith, ltb→lt _ _ stale)) h)
    | inr fresh ↦ rw fresh h
  ]

  pub maybe_cleanup-Keeps :
      (now later : ℕ) (s : InMemoryBackend)
      → later ≤ now + window_seconds * second
      → Keeps now s
      → Keeps now (maybe_cleanup window_seconds now later s)
  unfolding maybe_cleanup cleanup_stale_buckets
  maybe_cleanup-Keeps now later s near h =
      elim (Bool-cases (ltb cleanup_interval (now - s.last_cleanup))) [
        | inl due ↦ rw (due, Dict.get-retain) (retained now later (Dict.get key s.buckets) near h)
        | inr not_due ↦ rw not_due h
      ]

  refilled :
      (now : ℕ) (o : Option BucketState)
      → Holds (limit * token) (window_seconds * second) start n now o
      → Holds (limit * token) (window_seconds * second) start n now (
          some
            (refill (elim o [ none ↦ new_bucket limit now | some b ↦ b ]) limit window_seconds now))
  refilled now none h = (
    h.0,
    rw last_update-refill (omega arith),
    rw last_update-refill (
        omega (
          arith,
          mul-le-mul_right (window_seconds * second)
              (refill-le-limit (new_bucket limit now) limit window_seconds now),
        )),
  )
  refilled now (some b) h =
      let passed : now ≡ b.last_update + (now - b.last_update) = omega arith in
      (
        h.0,
        rw last_update-refill (omega arith),
        rw last_update-refill (
            omega (
              arith,
              refill-le b limit window_seconds now,
              ap (λ (t : ℕ). t * (limit * token)) passed,
            )),
      )

  -- The refilled bucket of the key, be it old or new.
  pub refilled-Holds :
      (now : ℕ) (s : InMemoryBackend)
      → Keeps now s
      → Holds
          (limit * token)
          (window_seconds * second)
          start
          n
          now
          (some (refill (get_or_create key limit now s) limit window_seconds now))
  unfolding get_or_create
  refilled-Holds now s h = refilled now (Dict.get key s.buckets) h
