-- ===== src/Ingestion/Workflow/Steps.antt =====
-- The workflow's state, the monad of its steps, and the best-effort side channels:
-- `_set_status_best_effort`, `_record_dead_letter_best_effort`, `_resolve_dead_letter_best_effort`
-- and `_publish_completion_best_effort` of DocumentIngestionWorkflow.
use inherent.Prelude.{ℕ, ◌-◌, String, Bool, false, Option, none, some, [], ◌∷◌}
use inherent.Ingestion.Workflow.Messages.{DocumentIngestionInput, reconstruct_original_message}
use inherent.Ingestion.Workflow.Classify.{classify_error}
use inherent.Ingestion.Workflow.Activities.{
  Result, ok, err, Status, Activity, Output, History, Env, set_document_status, record_dead_letter,
  resolve_dead_letter_jobs, publish_completion,
}

-- The fields of the workflow object, and what it has scheduled.
pub record Workflow : Type 0 where
  pub current_step : String
  pub progress_percent : ℕ
  pub chunks_created : ℕ
  pub tenant_id : Option ℕ
  pub history : History

-- `__init__`
abbrev pub initial : Workflow
initial = record {
  current_step = "initialized";
  progress_percent = 0;
  chunks_created = 0;
  tenant_id = none;
  history = [];
}

-- A step may raise; what it wrote before stays written.
abbrev pub Step : Type 0 → Type 0
Step A = Workflow → Result A × Workflow

module _ {A : Type 0} where
  unfoldable pub pure : A → Step A
  pure a w = (ok a, w)

  unfoldable pub gets : (Workflow → A) → Step A
  gets f w = (ok (f w), w)

  -- `try: ... except Exception: log`
  unfoldable pub best_effort : Step A → Step (Unit {0})
  best_effort m w = (ok tt, (m w).1)

unfoldable pub modify : (Workflow → Workflow) → Step (Unit {0})
modify f w = (ok tt, f w)

module _ {A B : Type 0} where
  abbrev pub continue : Result A → (A → Step B) → Step B
  continue (ok a) f w = f a w
  continue (err e) f w = (err e, w)

  infixl 5 ◌>>=◌ ◌>>◌
  unfoldable pub ◌>>=◌ : Step A → (A → Step B) → Step B
  ◌>>=◌ m f w = continue (m w).0 f (m w).1

  abbrev pub ◌>>◌ : Step A → Step B → Step B
  m >> k = m >>= λ _. k

unfoldable pub set_step : String → Step (Unit {0})
unfolding modify
set_step step = modify (λ w. record w { current_step = step })

unfoldable pub set_progress : ℕ → Step (Unit {0})
unfolding modify
set_progress percent = modify (λ w. record w { progress_percent = percent })

module _ (env : Env) where
  -- `await workflow.execute_activity(a)`
  unfoldable pub execute : (a : Activity) → Step (Output a)
  execute a w = (env.reply w.history a, record w { history = a ∷ w.history })

  -- `int((workflow.now() - start_time).total_seconds() * 1000)`
  unfoldable pub elapsed : Step ℕ
  unfolding gets
  elapsed = gets (λ w. env.now w.history - env.now [])

  unfoldable pub set_status : DocumentIngestionInput → Status → Option String → Step (Unit {0})
  unfolding best_effort
  set_status input status error =
      best_effort
        (execute (set_document_status input.document_id input.workspace_id status error env.run_id))

  unfoldable pub record_dead_letter_job : DocumentIngestionInput → String → Step (Unit {0})
  unfolding best_effort
  record_dead_letter_job input error = best_effort (
      execute (
        record_dead_letter (record {
          document_id = input.document_id;
          workspace_id = input.workspace_id;
          user_id = input.user_id;
          workflow_run_id = env.run_id;
          original_message = reconstruct_original_message input;
          error_message = error;
          error_type = classify_error error;
        })))

  unfoldable pub resolve_dead_letters : DocumentIngestionInput → Step (Unit {0})
  unfolding best_effort
  resolve_dead_letters input = best_effort (execute (resolve_dead_letter_jobs input.document_id))

  unfoldable pub publish : DocumentIngestionInput → Bool → ℕ → Option String → ℕ → Step (Unit {0})
  unfolding best_effort
  publish input success chunks error ms = best_effort (
      execute (
        publish_completion (record {
          input = input;
          success = success;
          chunks_created = chunks;
          error = error;
          processing_time_ms = ms;
        })))

  -- What each of the three failure branches does: status, dead letter, completion event.
  unfoldable pub report_failure : DocumentIngestionInput → String → ℕ → Step (Unit {0})
  unfolding set_status record_dead_letter_job publish ◌>>=◌
  report_failure input error ms = do
    set_status input Status.failed (some error)
    record_dead_letter_job input error
    publish input false 0 (some error) ms
