-- ===== src/PublicApi/Chunks/Course.antt =====
-- Which attempts of a retried call are made, and how long they sleep.
use inherent.Prelude.{
  ℕ, zero, suc, ◌+◌, ◌-◌, ◌*◌, ◌^◌, ◌≤◌, ◌<◌, String, ◌≡◌, ◌≢◌, refl, sym, ap, subst, ◌∙◌, ◌∷◌,
  arith,
}
use native.Mathlib.Nat.{two-pow-succ, mul-add}
use inherent.PublicApi.Chunks.Stores.{Failure, Result, ok, err, Stores, Operation}
use inherent.PublicApi.Chunks.Compensation.{
  Fate, done, refused, unknown, World, Step, answer, perform, sleep, alarm, after_attempt,
  attempts_from, with_retry,
}

module _ {A : Type 0} (fates : ℕ → Fate) (operation : String) (backoff : ℕ) where
  -- From `w`, after `start` attempts: either the first `k` of up to `n + 1` more calls raise and the
  -- next one is done, or all raise; and the time slept, for each case.
  pub data Course (start : ℕ) (n : ℕ) (w : World) : Result A → World → Type 0 where
    landing :
        (k : ℕ) (a : A) (w' : World)
        → k ≤ n
        → ((j : ℕ) → j < k → fates (w.calls + j) ≢ done)
        → fates (w.calls + k) ≡ done
        → w'.calls ≡ w.calls + suc k
        → w'.exhausted ≡ w.exhausted
        → w'.slept + backoff * 2 ^ start ≡ w.slept + backoff * 2 ^ (start + k)
        → Course start n w (ok a) w'
    exhausting :
        (e : Failure) (w' : World)
        → ((k : ℕ) → k ≤ n → fates (w.calls + k) ≢ done)
        → w'.calls ≡ w.calls + suc n
        → w'.exhausted ≡ operation ∷ w.exhausted
        → w'.slept + backoff * 2 ^ start ≡ w.slept + backoff * 2 ^ (start + n)
        → Course start n w (err e) w'

double : (backoff start : ℕ) → backoff * 2 ^ suc start ≡ backoff * 2 ^ start + backoff * 2 ^ start
double backoff start =
    ap (λ x. backoff * x) (two-pow-succ start) ∙ mul-add backoff (2 ^ start) (2 ^ start)

-- An operation that does not raise by itself.
pub record Total {A : Type 0} (f : Operation A) : Type 0 where
  pub returns : (s : Stores) → (a : A) × ((f s).0 ≡ ok a)

module _ {A : Type 0} (fates : ℕ → Fate) (operation : String) (backoff : ℕ) (f : Operation A)
    (total : Total f) where
  -- One more failed attempt before a course.
  later :
      (start : ℕ) (n : ℕ) (w w1 : World) (r : Result A) (w' : World)
      → fates w.calls ≢ done
      → w1.calls ≡ w.calls + 1
      → w1.exhausted ≡ w.exhausted
      → w1.slept ≡ w.slept + backoff * 2 ^ start
      → Course fates operation backoff (suc start) n w1 r w'
      → Course fates operation backoff start (suc n) w r w'
  later start n w w1 r w' raised c x s (landing k a w2 le before at made same slept) =
      let index : w1.calls + k ≡ w.calls + suc k = omega arith in
      let power : backoff * 2 ^ (suc start + k) ≡ backoff * 2 ^ (start + suc k) =
        ap (λ i. backoff * 2 ^ i) (omega arith) in
      let twice = double backoff start in
      landing (suc k) a w2 (omega arith) (none_before before) (subst (λ i. fates i ≡ done) index at)
        (omega arith) (same ∙ x) (omega arith)
    where
      none_before :
          {k : ℕ}
          → ((j : ℕ) → j < k → fates (w1.calls + j) ≢ done)
          → (j : ℕ) → j < suc k
          → fates (w.calls + j) ≢ done
      none_before before zero le = subst (λ i. fates i ≢ done) (omega arith) raised
      none_before before (suc j) le =
          let index : w1.calls + j ≡ w.calls + suc j = omega arith in
          subst (λ i. fates i ≢ done) index (before j (omega arith))
  later start n w w1 r w' raised c x s (exhausting e w2 never made rang slept) =
      let power : backoff * 2 ^ (suc start + n) ≡ backoff * 2 ^ (start + suc n) =
        ap (λ i. backoff * 2 ^ i) (omega arith) in
      let twice = double backoff start in
      exhausting e w2 (none_done never) (omega arith) (rang ∙ ap (λ l. operation ∷ l) x)
        (omega arith)
    where
      none_done :
          ((k : ℕ) → k ≤ n → fates (w1.calls + k) ≢ done)
          → (k : ℕ) → k ≤ suc n
          → fates (w.calls + k) ≢ done
      none_done never zero le = subst (λ i. fates i ≢ done) (omega arith) raised
      none_done never (suc k) le =
          let index : w1.calls + k ≡ w.calls + suc k = omega arith in
          subst (λ i. fates i ≢ done) index (never k (omega arith))

  module _ (start : ℕ) (w : World) where
    -- What is left to do after the first attempt, at `w1`.
    Rest : ℕ → Step A → Type 0
    Rest left rest =
        (n : ℕ)
        → left ≡ suc n
        → (w1 : World) → w1.calls ≡ w.calls + 1
        → w1.exhausted ≡ w.exhausted
        → w1.slept ≡ w.slept + backoff * 2 ^ start
        → Course fates operation backoff (suc start) n w1 (rest w1).0 (rest w1).1

    After : ℕ → Step A → Result A → World → Type 0
    After left rest r w0 =
        Course fates operation backoff start left w
          (after_attempt operation (backoff * 2 ^ start) left rest r w0).0
          (after_attempt operation (backoff * 2 ^ start) left rest r w0).1

    first_raised :
        (left : ℕ) (rest : Step A) (e : Failure) (w0 : World)
        → fates w.calls ≢ done
        → w0.calls ≡ w.calls + 1
        → w0.exhausted ≡ w.exhausted
        → w0.slept ≡ w.slept
        → Rest left rest
        → After left rest (err e) w0
    unfolding After Rest after_attempt sleep alarm
    first_raised zero rest e w0 raised c x s go =
        exhausting e (alarm operation w0) (λ k le. subst (λ i. fates i ≢ done) (omega arith) raised)
          (omega arith) (ap (λ l. operation ∷ l) x)
          (ap (λ t. t + backoff * 2 ^ start) s ∙ ap (λ i. w.slept + backoff * 2 ^ i) (omega arith))
    first_raised (suc n) rest e w0 raised c x s go =
        later start n w (sleep (backoff * 2 ^ start) w0) _ _ raised c x
          (ap (λ t. t + backoff * 2 ^ start) s)
          (go n refl (sleep (backoff * 2 ^ start) w0) c x (ap (λ t. t + backoff * 2 ^ start) s))

    first_done :
        (left : ℕ) (rest : Step A) (r : Result A) (w0 : World) (a : A)
        → r ≡ ok a
        → fates w.calls ≡ done
        → w0.calls ≡ w.calls + 1
        → w0.exhausted ≡ w.exhausted
        → w0.slept ≡ w.slept
        → After left rest r w0
    unfolding After after_attempt
    first_done left rest r w0 a e at c x s =
        subst (λ r. After left rest r w0) (sym e)
          (landing 0 a w0 (omega arith) (λ j le. absurd (omega arith))
            (subst (λ i. fates i ≡ done) (omega arith) at) (omega arith) x
            (ap (λ t. t + backoff * 2 ^ start) s
              ∙ ap (λ i. w.slept + backoff * 2 ^ i) (omega arith)))

    -- The first attempt, by its fate.
    first :
        (left : ℕ) (rest : Step A) (fate : Fate)
        → fates w.calls ≡ fate
        → Rest left rest
        → After left rest
            (answer fate f (record w { calls = w.calls + 1 })).0
            (answer fate f (record w { calls = w.calls + 1 })).1
    unfolding answer
    first left rest done e go =
        let (a, returns) = total.returns w.stores in
        first_done left rest _ _ a returns e refl refl refl
    first left rest (refused x) e go =
        first_raised left rest x _ (λ d. ground arith) refl refl refl go
    first left rest (unknown x) e go =
        first_raised left rest x _ (λ d. ground arith) refl refl refl go

  attempts_from-Course :
      (left : ℕ) (start : ℕ) (attempt : ℕ) (w : World)
      → attempt ≡ suc start
      → Course fates operation backoff start left w
          (attempts_from operation backoff (perform fates f) attempt (suc left) w).0
          (attempts_from operation backoff (perform fates f) attempt (suc left) w).1
  unfolding attempts_from perform After Rest
  attempts_from-Course zero start attempt w h =
      let before : attempt - 1 ≡ start = omega arith in
      rw before (first start w zero _ (fates w.calls) refl (λ n e. absurd (ground arith)))
  attempts_from-Course (suc left) start attempt w h =
      let before : attempt - 1 ≡ start = omega arith in
      rw before (
        first start w (suc left)
          (attempts_from operation backoff (perform fates f) (attempt + 1) (suc left))
          (fates w.calls) refl
          (λ n e w1 c x s.
            subst
              (λ n.
                Course fates operation backoff (suc start) n w1
                  (attempts_from operation backoff (perform fates f) (attempt + 1) (suc left) w1).0
                  (attempts_from operation backoff (perform fates f) (attempt + 1) (suc left) w1).1)
              (omega (arith, e))
              (attempts_from-Course left (suc start) (attempt + 1) w1 (omega arith))))

  -- A retry of up to `left + 1` attempts of a call that does not raise by itself: it returns exactly
  -- if some attempt is done, it stops at the first such one, with one call for each attempt up to
  -- that one and no attempt before it done, and it sleeps `backoff`, then twice as
  -- long, and so on, `backoff * (2 ^ k - 1)` in all for `k` failed attempts before it. Otherwise it
  -- raises after the last one, with exactly one alarm under the operation's name.
  pub with_retry-Course :
      (left : ℕ) (w : World)
      → Course fates operation backoff 0 left w
          (with_retry operation (suc left) backoff (perform fates f) w).0
          (with_retry operation (suc left) backoff (perform fates f) w).1
  unfolding with_retry
  with_retry-Course left w = attempts_from-Course left 0 1 w refl
