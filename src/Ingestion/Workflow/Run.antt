-- ===== src/Ingestion/Workflow/Run.antt =====
-- `DocumentIngestionWorkflow.run`, cut where its own comments number the steps.
use Prim.Native.String.{◌++◌}
use inherent.Prelude.{ℕ, String, Bool, true, not, Option, none, some, ◌∷◌, str_eq, if◌then◌else◌}
use inherent.Ingestion.Workflow.Messages.{DocumentIngestionInput, WorkflowResult, or_else}
use inherent.Ingestion.Workflow.Activities.{
  Exception, Result, ok, err, Status, ExtractOutput, ChunkOutput, StoreResult, StoreInput, Env,
  create_pending_document, ensure_tenant_ready, fetch_document, extract_text, chunk_text,
  tag_chunks, store_in_postgresql, store_in_weaviate, update_workspace_stats, cleanup_staging,
}
use inherent.Ingestion.Workflow.Steps.{
  Workflow, initial, Step, pure, gets, modify, best_effort, ◌>>=◌, ◌>>◌, set_step, set_progress,
  execute, elapsed, set_status, resolve_dead_letters, publish, report_failure,
}

-- How the body of the `try` ends when it does not raise: `terminal_failure` is set, or a result
-- is returned.
pub data Outcome : Type 0 where
  terminal_failure : String → Outcome
  returned : WorkflowResult → Outcome

-- The close status that Temporal shows: Completed with the result, or Failed with the
-- non-retryable error of `_document_failure`.
pub data Close : Type 0 where
  completed : WorkflowResult → Close
  document_failure : String → Close

-- How Python prints an optional text in an f-string.
str_of : Option String → String
str_of none = "None"
str_of (some s) = s

-- `str(getattr(e, "cause", None) or e)`; an exception object is truthy.
unfoldable pub cause_message : Exception → String
cause_message e = elim e.cause [ none ↦ e.text | some c ↦ c ]

-- `asyncio.gather` raises the error of the task that fails first, and returns both results.
unfoldable pub gather : {A B : Type 0} → Bool → Result A → Result B → Result (A × B)
gather first (ok a) (ok b) = ok (a, b)
gather first (ok a) (err e) = err e
gather first (err e) (ok b) = err e
gather first (err e) (err f) = if first then err e else err f

-- `raise terminal_failure` or `return WorkflowResult`
unfoldable pub close_as : Result Outcome → Close
close_as (ok (terminal_failure message)) = document_failure message
close_as (ok (returned result)) = completed result
close_as (err e) = document_failure (cause_message e)

module _ (env : Env) (input : DocumentIngestionInput) where
  -- The row that claims the run's fencing token, then the status 'processing'; both best-effort.
  unfoldable pub claim : Step (Unit {0})
  unfolding best_effort execute set_status ◌>>=◌
  claim = do
    best_effort (execute env (create_pending_document input env.run_id env.start_time))
    set_status env input Status.processing none

  -- Step 1
  unfoldable pub ensure_tenant : Step (Unit {0})
  unfolding set_step set_progress execute modify ◌>>=◌
  ensure_tenant = do
    set_step "ensuring_tenant_ready"
    set_progress 5
    tenant ← execute env (ensure_tenant_ready input env.run_id)
    modify (λ w. record w { tenant_id = some tenant.tenant_id })
    set_progress 10

  -- Step 2
  unfoldable pub fetch : Step (Unit {0})
  unfolding set_step set_progress execute ◌>>=◌
  fetch = do
    set_step "fetching_document"
    execute env (fetch_document input env.run_id)
    set_progress 30

  -- Step 3
  unfoldable pub extract : Step ExtractOutput
  unfolding set_step set_progress execute pure ◌>>=◌
  extract = do
    set_step "extracting_text"
    output ← execute env (extract_text input env.run_id)
    set_progress 50
    pure output

  -- Step 4
  unfoldable pub chunk : Step ChunkOutput
  unfolding set_step set_progress execute modify pure ◌>>=◌
  chunk = do
    set_step "chunking_text"
    output ← execute env (chunk_text input env.run_id)
    modify (λ w. record w { chunks_created = output.chunk_count })
    set_progress 60
    pure output

  -- Step 4b, for a workspace that is bound to a pack: `if input.vertical_pack`
  unfoldable pub tag : Step (Unit {0})
  unfolding best_effort execute pure or_else
  tag =
      let pack = or_else input.vertical_pack "" in
      if str_eq pack ""
      then pure tt
      else best_effort (execute env (tag_chunks input env.run_id pack))

  -- Both store activities are scheduled before either reply is read.
  unfoldable pub run_stores : StoreInput → Step (StoreResult × StoreResult)
  unfolding gather
  run_stores store w =
      let postgres = store_in_postgresql store in
      let weaviate = store_in_weaviate store in
      let before = w.history in
      (
        gather (env.postgres_first before) (env.reply before postgres)
            (env.reply (postgres ∷ before) weaviate),
        record w { history = weaviate ∷ postgres ∷ before },
      )

  -- Step 6 and the success path that ends the `try`.
  unfoldable pub finish : ChunkOutput → Step Outcome
  finish chunks = do
    set_step "updating_stats"
    execute env (update_workspace_stats input chunks.chunk_count input.size_bytes env.run_id)
    set_step "completed"
    set_progress 100
    ms ← elapsed env
    resolve_dead_letters env input
    publish env input true chunks.chunk_count none ms
    pure (
        returned (record {
          document_id = input.document_id;
          success = true;
          chunks_created = chunks.chunk_count;
          error = none;
          processing_time_ms = ms;
        }))

  -- A store that reports failure ends the run as failed; PostgreSQL is looked at first.
  unfoldable pub conclude : ChunkOutput → ℕ → StoreResult → StoreResult → Step Outcome
  unfolding report_failure finish str_of pure ◌>>=◌
  conclude chunks ms postgres weaviate =
      let postgres_error = "PostgreSQL storage failed: " ++ str_of postgres.error in
      let weaviate_error = "Weaviate storage failed: " ++ str_of weaviate.error in
      if not postgres.success
      then (report_failure env input postgres_error ms >> pure (terminal_failure postgres_error))
      else if not weaviate.success
      then (report_failure env input weaviate_error ms >> pure (terminal_failure weaviate_error))
      else finish chunks

  -- Step 5 and what follows it
  unfoldable pub store : ExtractOutput → ChunkOutput → Step Outcome
  store extracted chunks = do
    ms ← elapsed env
    set_step "storing_document"
    tenant ← gets (λ w. w.tenant_id)
    results ← run_stores (record {
      workflow_run_id = env.run_id;
      input = input;
      text_length = extracted.text_length;
      processing_time_ms = ms;
      tenant_id = tenant;
    })
    set_progress 90
    conclude chunks ms results.0 results.1

  -- The body of the `try`.
  unfoldable pub body : Step Outcome
  body = do
    claim
    ensure_tenant
    fetch
    extracted ← extract
    chunks ← chunk
    tag
    store extracted chunks

  -- `except Exception as e`
  unfoldable pub on_exception : Exception → Step Outcome
  unfolding set_step elapsed cause_message report_failure pure ◌>>=◌
  on_exception e = do
    set_step "failed"
    ms ← elapsed env
    report_failure env input (cause_message e) ms
    pure (terminal_failure (cause_message e))

  -- The handler of the `try`; it does not raise.
  unfoldable pub except : Result Outcome → Step Outcome
  except (ok outcome) w = (ok outcome, w)
  except (err e) w = on_exception e w

  unfoldable pub try_body : Step Outcome
  try_body w = except (body w).0 (body w).1

  -- `finally`
  unfoldable pub cleanup : Step (Unit {0})
  unfolding best_effort execute
  cleanup = best_effort (execute env (cleanup_staging env.run_id))

  unfoldable pub run : Close × Workflow
  unfolding cleanup close_as
  run = (close_as (try_body initial).0, (cleanup (try_body initial).1).1)
