-- ===== src/PublicApi/Chunks/Outcome.antt =====
-- How a write to both stores can end, and the rules to establish it.
use inherent.Prelude.{ℕ, suc, ◌+◌, String, ◌≡◌, refl, ap, List, ◌∷◌}
use inherent.PublicApi.Chunks.Stores.{Failure, Result, ok, err, Stores, Operation}
use inherent.PublicApi.Chunks.Compensation
use inherent.PublicApi.Chunks.Compensation.{
  Fate, done, refused, unknown, World, Step, answer, perform, sleep, alarm, with_retry, landed,
  ◌>>=◌,
}
use inherent.PublicApi.Chunks.Retries.{Attempt, Ending, landing, exhausting, with_retry-Ending}
use inherent.PublicApi.Chunks.Sync.{IsSynced}

-- A write that returns has left the stores in sync. One that raises has left them in sync, or has
-- bumped the exhaustion metric once under its name, or it has left, silently, what `Left` says.
pub data Verdict {A : Type 0} (operation : String) (old : List String)
    (Left : Failure → Stores → Type 0) : Result A → World → Type 0 where
  in_sync : {r : Result A} (w : World) → IsSynced w.stores → Verdict operation old Left r w
  alarmed :
      (e : Failure) (w : World)
      → w.exhausted ≡ operation ∷ old
      → Verdict operation old Left (err e) w
  unanswered :
      (e : Failure) (w : World)
      → w.exhausted ≡ old
      → Left e w.stores
      → Verdict operation old Left (err e) w

-- A property of the stores, while no alarm is raised.
pub record At (S : Stores → Type 0) (old : List String) (w : World) : Type 0 where
  pub holds : S w.stores
  pub quiet : w.exhausted ≡ old

-- An operation that returns, and leaves `T`.
abbrev pub Returns : {A : Type 0} → (A → Stores → Type 0) → Result A → Stores → Type 0
Returns T r s = Attempt (λ s. ⊥) T r s

-- The end of a call: it returns; or it is refused, and the stores are as they were; or it has taken
-- effect and raises.
pub data Called {A : Type 0} (fates : ℕ → Fate) (S : Stores → Type 0) (T : A → Stores → Type 0)
    (U : Stores → Type 0) (old : List String) : Result A → World → Type 0 where
  returned : (a : A) (w : World) → At (T a) old w → Called fates S T U old (ok a) w
  turned_down :
      (n : ℕ) (e : Failure) (w : World)
      → fates n ≡ refused e
      → At S old w
      → Called fates S T U old (err e) w
  lost :
      (n : ℕ) (e : Failure) (w : World)
      → fates n ≡ unknown e
      → At U old w
      → Called fates S T U old (err e) w

module _ {A : Type 0} (fates : ℕ → Fate) (f : Operation A) (S : Stores → Type 0)
    (T : A → Stores → Type 0) (U : Stores → Type 0) (old : List String)
    (keeps : (s : Stores) → S s → Returns T (f s).0 (f s).1)
    (effect : (a : A) (s : Stores) → T a s → U s) where
  returned-Called :
      (r : Result A) (w : World)
      → w.exhausted ≡ old
      → Returns T r w.stores
      → Called fates S T U old r w
  unfolding Attempt
  returned-Called (ok a) w quiet t = returned a w (record { holds = t; quiet = quiet })
  returned-Called (err e) w quiet t = absurd t

  lost-Called :
      (n : ℕ) (e : Failure) (r : Result A) (w : World)
      → fates n ≡ unknown e
      → w.exhausted ≡ old
      → Returns T r w.stores
      → Called fates S T U old (err e) w
  unfolding Attempt
  lost-Called n e (ok a) w h quiet t =
      lost n e w h (record { holds = effect a w.stores t; quiet = quiet })
  lost-Called n e (err x) w h quiet t = absurd t

  answer-Called :
      (n : ℕ) (fate : Fate) (w : World)
      → fates n ≡ fate
      → At S old w
      → Called fates S T U old (answer fate f w).0 (answer fate f w).1
  unfolding answer
  answer-Called n done w h at =
      returned-Called (f w.stores).0 (record w { stores = (f w.stores).1 }) at.quiet
        (keeps w.stores at.holds)
  answer-Called n (refused e) w h at = turned_down n e w h at
  answer-Called n (unknown e) w h at =
      lost-Called n e (f w.stores).0 (record w { stores = (f w.stores).1 }) h at.quiet
        (keeps w.stores at.holds)

  perform-Called :
      (w : World) → At S old w → Called fates S T U old (perform fates f w).0 (perform fates f w).1
  unfolding perform
  perform-Called w at =
      answer-Called w.calls (fates w.calls) (record w { calls = w.calls + 1 }) refl
        (record { holds = at.holds; quiet = at.quiet })

  Called-Verdict :
      {B : Type 0} (operation : String) (Left : Failure → Stores → Type 0)
      (handle : Result A → Step B) (r : Result A) (w : World)
      → Called fates S T U old r w
      → ((a : A) (w : World)
          → At (T a) old w
          → Verdict operation old Left (handle (ok a) w).0 (handle (ok a) w).1)
      → ((n : ℕ) (e : Failure) (w : World)
          → fates n ≡ refused e
          → At S old w
          → Verdict operation old Left (handle (err e) w).0 (handle (err e) w).1)
      → ((n : ℕ) (e : Failure) (w : World)
          → fates n ≡ unknown e
          → At U old w
          → Verdict operation old Left (handle (err e) w).0 (handle (err e) w).1)
      → Verdict operation old Left (handle r w).0 (handle r w).1
  Called-Verdict operation Left handle r w (returned a w1 at) on_ok on_refused on_lost =
      on_ok a w1 at
  Called-Verdict operation Left handle r w (turned_down n e w1 h at) on_ok on_refused on_lost =
      on_refused n e w1 h at
  Called-Verdict operation Left handle r w (lost n e w1 h at) on_ok on_refused on_lost =
      on_lost n e w1 h at

  -- A call, and what the write does with its result.
  pub perform-Verdict :
      {B : Type 0} (operation : String) (Left : Failure → Stores → Type 0)
      (handle : Result A → Step B) (w : World)
      → At S old w
      → ((a : A) (w : World)
          → At (T a) old w
          → Verdict operation old Left (handle (ok a) w).0 (handle (ok a) w).1)
      → ((n : ℕ) (e : Failure) (w : World)
          → fates n ≡ refused e
          → At S old w
          → Verdict operation old Left (handle (err e) w).0 (handle (err e) w).1)
      → ((n : ℕ) (e : Failure) (w : World)
          → fates n ≡ unknown e
          → At U old w
          → Verdict operation old Left (handle (err e) w).0 (handle (err e) w).1)
      → Verdict operation old Left
          (handle (perform fates f w).0 (perform fates f w).1).0
          (handle (perform fates f w).0 (perform fates f w).1).1
  perform-Verdict operation Left handle w at =
      Called-Verdict operation Left handle _ _ (perform-Called w at)

  -- A call whose exception the write passes on.
  pub bind-Verdict :
      {B : Type 0} (operation : String) (Left : Failure → Stores → Type 0) (g : A → Step B)
      (w : World)
      → At S old w
      → ((s : Stores) → S s → IsSynced s)
      → ((a : A) (w : World) → At (T a) old w → Verdict operation old Left (g a w).0 (g a w).1)
      → ((n : ℕ) (e : Failure) (w : World)
          → fates n ≡ unknown e
          → At U old w
          → Verdict {A = B} operation old Left (err e) w)
      → Verdict operation old Left ((perform fates f >>= g) w).0 ((perform fates f >>= g) w).1
  unfolding ◌>>=◌
  bind-Verdict operation Left g w at synced on_ok on_lost =
      perform-Verdict operation Left (λ r. Compensation.continue r g) w at on_ok
        (λ n e w h at. in_sync w (synced w.stores at.holds)) on_lost

-- A retry, where an attempt leads from `S` to `T`, and `T` is a case of `S`.
module _ {A : Type 0} (fates : ℕ → Fate) (f : Operation A) (S T : Stores → Type 0)
    (old : List String) (keeps : (s : Stores) → S s → Returns (λ a. T) (f s).0 (f s).1)
    (weaker : (s : Stores) → T s → S s) where
  Called-Attempt :
      (r : Result A) (w : World)
      → Called fates S (λ a. T) S old r w
      → Attempt (At S old) (λ a. At T old) r w
  unfolding Attempt
  Called-Attempt r w (returned a w1 at) = at
  Called-Attempt r w (turned_down n e w1 h at) = at
  Called-Attempt r w (lost n e w1 h at) = at

  pub retry-At :
      (operation : String) (left backoff : ℕ) (w : World)
      → At S old w
      → Ending operation
          (At S old)
          (λ a. At T old)
          (with_retry operation (suc left) backoff (perform fates f) w).0
          (with_retry operation (suc left) backoff (perform fates f) w).1
  retry-At operation left backoff w at =
      with_retry-Ending operation backoff (At S old) (λ a. At T old) (perform fates f)
        (λ w at.
          Called-Attempt _ _ (perform-Called fates f S (λ a. T) S old keeps (λ a. weaker) w at))
        (λ ms w at. unfold sleep in record { holds = at.holds; quiet = at.quiet }) left w at

-- A rollback, whatever its caller raises then.
pub rollback-Verdict :
    {A B : Type 0} (operation : String) (old : List String) (Left : Failure → Stores → Type 0)
    (S T : Stores → Type 0) (r : Result A) (w : World) (e : Failure)
    → Ending operation (At S old) (λ a. At T old) r w
    → ((w : World) → At T old w → Verdict {A = B} operation old Left (err e) w)
    → Verdict {A = B} operation old Left (err e) (landed (r, w)).1
unfolding landed alarm
rollback-Verdict operation old Left S T r w e (landing a w1 at) go = go w1 at
rollback-Verdict operation old Left S T r w e (exhausting x w1 at) go =
    alarmed e (alarm operation w1) (ap (λ l. operation ∷ l) at.quiet)
