-- ===== src/Ingestion/Workflow/Quiet.antt =====
-- How often a run of the workflow has scheduled each activity that the outside world counts, and
-- the steps that schedule none of them.
use inherent.Prelude.{ℕ, suc, String, ◌≡◌, ◌∙◌, refl, [], ◌∷◌, if◌then◌else◌}
use inherent.Ingestion.Workflow.Activities.{
  Result, ok, err, Activity, History, Env, publish_completion, record_dead_letter,
  resolve_dead_letter_jobs, cleanup_staging,
}
use inherent.Ingestion.Workflow.Steps.{
  Workflow, Step, pure, gets, modify, best_effort, continue, ◌>>=◌, set_step, set_progress, execute,
}

pub record Tally : Type 0 where
  -- completion events that say success, and that say failure
  pub processed : ℕ
  pub failed : ℕ
  pub dead_letters : ℕ
  pub resolutions : ℕ
  pub cleanups : ℕ

abbrev pub count : Activity → Tally → Tally
count (publish_completion c) t =
    if c.success
    then record t { processed = suc t.processed }
    else record t { failed = suc t.failed }
count (record_dead_letter d) t = record t { dead_letters = suc t.dead_letters }
count (resolve_dead_letter_jobs d) t = record t { resolutions = suc t.resolutions }
count (cleanup_staging r) t = record t { cleanups = suc t.cleanups }
count _ t = t

abbrev pub tally : History → Tally
tally [] = record { processed = 0; failed = 0; dead_letters = 0; resolutions = 0; cleanups = 0 }
tally (a ∷ h) = count a (tally h)

-- A step that leaves every count alone, whether it returns or raises.
pub record Quiet {A : Type 0} (m : Step A) : Type 0 where
  pub at : (w : Workflow) → tally (m w).1.history ≡ tally w.history

pub record IsSilent (a : Activity) : Type 0 where
  pub uncounted : (t : Tally) → count a t ≡ t

module _ {A : Type 0} where
  pub Quiet-pure : (a : A) → Quiet (pure a)
  unfolding pure
  Quiet-pure a = record { at = λ w. refl }

  pub Quiet-gets : (f : Workflow → A) → Quiet (gets f)
  unfolding gets
  Quiet-gets f = record { at = λ w. refl }

  pub Quiet-best_effort : (m : Step A) → Quiet m → Quiet (best_effort m)
  unfolding best_effort
  Quiet-best_effort m q = record { at = q.at }

pub Quiet-modify :
    (f : Workflow → Workflow) → ((w : Workflow) → (f w).history ≡ w.history) → Quiet (modify f)
unfolding modify
Quiet-modify f e = record { at = λ w. rw (e w) }

pub Quiet-set_step : (step : String) → Quiet (set_step step)
unfolding set_step
Quiet-set_step step = record { at = λ w. refl }

pub Quiet-set_progress : (percent : ℕ) → Quiet (set_progress percent)
unfolding set_progress
Quiet-set_progress percent = record { at = λ w. refl }

pub Quiet-execute : (env : Env) (a : Activity) → IsSilent a → Quiet (execute env a)
unfolding execute
Quiet-execute env a s = record { at = λ w. s.uncounted (tally w.history) }

module _ {A B : Type 0} where
  continue-tally :
      (r : Result A) (f : A → Step B) (w : Workflow)
      → ((a : A) → Quiet (f a))
      → tally (continue r f w).1.history ≡ tally w.history
  continue-tally (ok a) f w qf = (qf a).at w
  continue-tally (err e) f w qf = refl

  pub Quiet-bind :
      (m : Step A) (f : A → Step B) → Quiet m → ((a : A) → Quiet (f a)) → Quiet (m >>= f)
  unfolding ◌>>=◌
  Quiet-bind m f q qf = record { at = λ w. continue-tally (m w).0 f (m w).1 qf ∙ q.at w }

pub ruleset quiet_rules = (
  Quiet-pure, Quiet-gets, Quiet-best_effort, Quiet-modify, Quiet-set_step, Quiet-set_progress,
  Quiet-execute, Quiet-bind,
)
