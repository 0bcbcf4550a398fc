-- ===== src/PublicApi/Chunks/Retries.antt =====
-- A retried call that keeps a property of the stores.
use inherent.Prelude.{ℕ, zero, suc, ◌+◌, String, ◌≡◌, refl, arith}
use inherent.PublicApi.Chunks.Stores.{Failure, Result, ok, err}
use inherent.PublicApi.Chunks.Compensation.{
  World, Step, sleep, alarm, after_attempt, attempts_from, with_retry,
}

module _ {A : Type 0} where
  -- How a retry ends that keeps `P` while it fails: with a result for which `Q` holds, or with the
  -- alarm on top of `P`.
  pub data Ending (operation : String) (P : World → Type 0) (Q : A → World → Type 0)
      : Result A → World → Type 0 where
    landing : (a : A) (w : World) → Q a w → Ending operation P Q (ok a) w
    exhausting : (e : Failure) (w : World) → P w → Ending operation P Q (err e) (alarm operation w)

  -- What an attempt leaves: `Q` with its result, or `P` when it raises.
  unfoldable pub Attempt : {W : Type 0} → (W → Type 0) → (A → W → Type 0) → Result A → W → Type 0
  Attempt P Q (ok a) w = Q a w
  Attempt P Q (err e) w = P w

  module _ (operation : String) (backoff : ℕ) (P : World → Type 0) (Q : A → World → Type 0)
      (m : Step A) (attempt_keeps : (w : World) → P w → Attempt P Q (m w).0 (m w).1)
      (sleep_keeps : (ms : ℕ) (w : World) → P w → P (sleep ms w)) where
    after_attempt-Ending :
        (ms : ℕ) (left : ℕ) (rest : Step A) (r : Result A) (w : World)
        → Attempt P Q r w
        → ((n : ℕ)
            → left ≡ suc n
            → (w' : World) → P w'
            → Ending operation P Q (rest w').0 (rest w').1)
        → Ending operation P Q
            (after_attempt operation ms left rest r w).0
            (after_attempt operation ms left rest r w).1
    unfolding after_attempt Attempt
    after_attempt-Ending ms left rest (ok a) w q go = landing a w q
    after_attempt-Ending ms zero rest (err e) w p go = exhausting e w p
    after_attempt-Ending ms (suc n) rest (err e) w p go =
        go n refl (sleep ms w) (sleep_keeps ms w p)

    attempts_from-Ending :
        (attempt : ℕ) (left : ℕ) (w : World)
        → P w
        → Ending operation P Q
            (attempts_from operation backoff m attempt (suc left) w).0
            (attempts_from operation backoff m attempt (suc left) w).1
    unfolding attempts_from
    attempts_from-Ending attempt zero w p =
        after_attempt-Ending _ zero _ _ _ (attempt_keeps w p) (λ n e. absurd (ground arith))
    attempts_from-Ending attempt (suc left) w p =
        after_attempt-Ending _ (suc left) _ _ _ (attempt_keeps w p)
          (λ n e w'. attempts_from-Ending (attempt + 1) left w')

    pub with_retry-Ending :
        (left : ℕ) (w : World)
        → P w
        → Ending operation P Q
            (with_retry operation (suc left) backoff m w).0
            (with_retry operation (suc left) backoff m w).1
    unfolding with_retry
    with_retry-Ending left w p = attempts_from-Ending 1 left w p
