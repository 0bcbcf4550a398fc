-- ===== src/PublicApi/RateLimit/InMemory/Admission.antt =====
-- How many calls of one key are admitted over time.
use native.Mathlib.Nat.{add-zero, add_assoc, mul-le-mul_right, le_of_mul-le-mul_right}
use inherent.Prelude.{
  ℕ, ◌+◌, ◌*◌, ◌≤◌, ◌<◌, String, ◌≡◌, true, Option, none, some, List, [], ◌∷◌, arith, str_eq,
  if◌then◌else◌,
}
use inherent.Prelude.Dict
use inherent.Prelude.Dict.{Dict, empty, dict_laws}
use inherent.PublicApi.RateLimit.Types.{one_if, is_allowed, second, token, token-pos}
use inherent.PublicApi.RateLimit.InMemory.{
  BucketState, InMemoryBackend, new_backend, check_and_consume,
}
use inherent.PublicApi.RateLimit.InMemory.Ledger.{Holds, Keeps}
use inherent.PublicApi.RateLimit.InMemory.Step.{check-Keeps}

-- A check of some key, with the two readings of the clock that it makes.
pub record Call : Type 0 where
  pub now : ℕ
  pub later : ℕ
  pub key : String
  pub limit : ℕ

module _ (key : String) (window_seconds : ℕ) where
  -- How many of the calls are allowed calls of `key`, when the calls run one after another.
  unfoldable pub admitted : List Call → InMemoryBackend → ℕ
  admitted [] s = 0
  admitted (c ∷ calls) s =
      let (r, s') = check_and_consume c.now c.later c.key c.limit window_seconds s in
      (if str_eq c.key key then one_if (is_allowed r) else 0) + admitted calls s'

  -- The clock does not run backwards and a cleanup reads it within one window of its check; every
  -- call of `key` has the same limit.
  abbrev pub Timely : ℕ → ℕ → List Call → Type 0
  Timely limit start [] = Unit
  Timely limit start (c ∷ calls) =
      (start ≤ c.now)
      × (c.now ≤ c.later)
      × (c.later ≤ c.now + window_seconds * second)
      × (str_eq c.key key ≡ true → c.limit ≡ limit)
      × Timely limit c.now calls

  -- The time of the last call.
  abbrev pub finish : ℕ → List Call → ℕ
  finish start [] = start
  finish start (c ∷ calls) = finish c.now calls

module _ (key : String) (window_seconds limit start : ℕ) where
  spent_of :
      (full width n now : ℕ) (o : Option BucketState)
      → Holds full width start n now o
      → n * token * width + start * full ≤ full * width + now * full
  spent_of full width n now none h = omega arith
  spent_of full width n now (some b) h = omega (arith, mul-le-mul_right full h.1)

  admissions :
      (calls : List Call) (n now : ℕ) (s : InMemoryBackend)
      → 0 < window_seconds
      → Timely key window_seconds limit now calls
      → Keeps key window_seconds limit start n now s
      → (n + admitted key window_seconds calls s) * token * (window_seconds * second)
          + start * (limit * token)
        ≤ limit * token * (window_seconds * second)
          + finish key window_seconds now calls * (limit * token)
  unfolding admitted
  admissions [] n now s width timely h =
      rw add-zero (spent_of (limit * token) (window_seconds * second) n now _ h)
  admissions (c ∷ calls) n now s width timely h = rw (← add_assoc n) (
      admissions calls _ c.now _ width timely.4 (
        check-Keeps key window_seconds limit start n now c.later c.now s width c.key c.limit
          timely.0 timely.2 timely.3 h))

  -- From an empty backend, with one window for all keys and a clock that does not run backwards,
  -- the admitted calls of a key number at most its limit for the first window and its limit for
  -- each further window's length of time, whatever the other keys do and whatever the cleanup drops.
  pub admitted-le :
      (calls : List Call)
      → 0 < window_seconds
      → Timely key window_seconds limit start calls
      → admitted key window_seconds calls (new_backend start) * (window_seconds * second)
          + start * limit
        ≤ limit * (window_seconds * second) + finish key window_seconds start calls * limit
  unfolding new_backend
  admitted-le calls width timely =
      let none_yet : Keeps key window_seconds limit start 0 start (new_backend start) =
        unfold Dict.get in omega arith in
      le_of_mul-le-mul_right
        (omega (arith, admissions calls 0 start (new_backend start) width timely none_yet))
        token-pos
