-- ===== src/PublicApi/Chunks/Compensation.antt =====
-- Calls of the stores, and the retry loop of src/services/compensation.py.
-- A call has a fate: it is done, or it raises, and then it may or may not have taken effect.
use inherent.Prelude.{ℕ, zero, suc, ◌+◌, ◌-◌, ◌*◌, ◌^◌, String, Bool, true, false, List, ◌∷◌}
use inherent.PublicApi.Chunks.Stores.{Failure, failed, Result, ok, err, Stores, Operation}

pub data Fate : Type 0 where
  done : Fate
  refused : Failure → Fate
  unknown : Failure → Fate

-- The stores, the number of calls so far, the labels under which
-- `document_compensation_exhausted_total` was bumped, and the milliseconds slept.
pub record World : Type 0 where
  pub stores : Stores
  pub calls : ℕ
  pub exhausted : List String
  pub slept : ℕ

abbrev pub Step : Type 0 → Type 0
Step A = World → Result A × World

-- The fate of each call of the database and of the vector store, by the number of calls before it.
pub record Env : Type 0 where
  pub database : ℕ → Fate
  pub vector_store : ℕ → Fate

unfoldable pub sleep : ℕ → World → World
sleep ms w = record w { slept = w.slept + ms }

-- `record_compensation_exhausted`
unfoldable pub alarm : String → World → World
alarm operation w = record w { exhausted = operation ∷ w.exhausted }

module _ {A : Type 0} where
  unfoldable pub pure : A → Step A
  pure a w = (ok a, w)

  unfoldable pub answer : Fate → Operation A → Step A
  answer done f w = ((f w.stores).0, record w { stores = (f w.stores).1 })
  answer (refused e) f w = (err e, w)
  answer (unknown e) f w = (err e, record w { stores = (f w.stores).1 })

  unfoldable pub perform : (ℕ → Fate) → Operation A → Step A
  unfolding answer
  perform fates f w = answer (fates w.calls) f (record w { calls = w.calls + 1 })

  -- After an attempt: return, or sleep and go on, or, after the last one, raise the alarm.
  unfoldable pub after_attempt : String → ℕ → ℕ → Step A → Result A → Step A
  unfolding sleep alarm
  after_attempt operation ms left rest (ok a) w = (ok a, w)
  after_attempt operation ms zero rest (err e) w = (err e, alarm operation w)
  after_attempt operation ms (suc left) rest (err e) w = rest (sleep ms w)

  -- `for attempt in range(attempt, attempts + 1)`, with the number of attempts that are left.
  unfoldable pub attempts_from : String → ℕ → Step A → ℕ → ℕ → Step A
  attempts_from operation backoff m attempt zero w = (err failed, w)
  attempts_from operation backoff m attempt (suc left) w =
      let rest = attempts_from operation backoff m (attempt + 1) left in
      after_attempt operation (backoff * 2 ^ (attempt - 1)) left rest (m w).0 (m w).1

  unfoldable pub with_retry : String → ℕ → ℕ → Step A → Step A
  with_retry operation attempts backoff m = attempts_from operation backoff m 1 attempts

  -- Whether a retried call landed, for the three loops that return a Boolean.
  unfoldable pub landed : Result A × World → Result Bool × World
  landed (ok a, w) = (ok true, w)
  landed (err e, w) = (ok false, w)

module _ {A B : Type 0} where
  abbrev pub continue : Result A → (A → Step B) → Step B
  continue (ok a) f w = f a w
  continue (err e) f w = (err e, w)

  infixl 5 ◌>>=◌
  unfoldable pub ◌>>=◌ : Step A → (A → Step B) → Step B
  ◌>>=◌ m f w = continue (m w).0 f (m w).1

-- `MARK_FAILED_ATTEMPTS`, and `MARK_FAILED_BACKOFF_SECONDS` in milliseconds
abbrev pub mark_failed_attempts : ℕ
mark_failed_attempts = 3

abbrev pub mark_failed_backoff : ℕ
mark_failed_backoff = 200
