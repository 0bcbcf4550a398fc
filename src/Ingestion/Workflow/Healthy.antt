-- ===== src/Ingestion/Workflow/Healthy.antt =====
-- Runs whose critical activities succeed, whatever the best-effort ones reply.
use inherent.Prelude.{ℕ, String, ◌≡◌, true, Option}
use inherent.Ingestion.Workflow.Messages.{DocumentIngestionInput, WorkflowResult}
use inherent.Ingestion.Workflow.Activities.{
  ok, TenantOutput, ExtractOutput, ChunkOutput, StoreInput, Env, History, ensure_tenant_ready,
  fetch_document, extract_text, chunk_text, store_in_postgresql, store_in_weaviate,
  update_workspace_stats,
}
use inherent.Ingestion.Workflow.Steps.{Workflow, Step}
use inherent.Ingestion.Workflow.Run.{Outcome, terminal_failure, returned}

-- The critical activities reply, and the stores report success. Nothing is said of the pending
-- row, the status writes, the tags, the dead letters, the completion event or the cleanup.
pub record IsHealthy (env : Env) (input : DocumentIngestionInput) : Type 0 where
  pub tenant : History → TenantOutput
  pub extracted : History → ExtractOutput
  pub chunks : History → ChunkOutput
  pub error : Option String
  pub tenant_replies :
      (h : History) → env.reply h (ensure_tenant_ready input env.run_id) ≡ ok (tenant h)
  pub fetch_replies : (h : History) → env.reply h (fetch_document input env.run_id) ≡ ok tt
  pub extract_replies :
      (h : History) → env.reply h (extract_text input env.run_id) ≡ ok (extracted h)
  pub chunk_replies : (h : History) → env.reply h (chunk_text input env.run_id) ≡ ok (chunks h)
  pub postgres_replies :
      (h : History) (s : StoreInput)
      → env.reply h (store_in_postgresql s) ≡ ok (record { success = true; error = error })
  pub weaviate_replies :
      (h : History) (s : StoreInput)
      → env.reply h (store_in_weaviate s) ≡ ok (record { success = true; error = error })
  pub stats_replies :
      (h : History) (n size : ℕ) (id : String)
      → env.reply h (update_workspace_stats input n size id) ≡ ok tt

-- The result of a completed run: success, with the count of some reply of `chunk_text`.
abbrev pub IsComplete : DocumentIngestionInput → (History → ChunkOutput) → WorkflowResult → Type 0
IsComplete input chunks r =
    (r.document_id ≡ input.document_id)
    × (r.success ≡ true)
    × ((h : History) × (r.chunks_created ≡ (chunks h).chunk_count))

-- From every state the step returns a value with the property.
record Succeeds {A : Type 0} (m : Step A) (P : A → Type 0) : Type 0 where
  at : (w : Workflow) → (a : A) × ((m w).0 ≡ ok a) × P a

module _ (env : Env) (input : DocumentIngestionInput) (healthy : IsHealthy env input) where
  open healthy use {
    chunks, tenant_replies, fetch_replies, extract_replies, chunk_replies, postgres_replies,
    weaviate_replies, stats_replies,
  }

  abbrev CountsChunks : ℕ → Type 0
  CountsChunks n = (h : History) × (n ≡ (chunks h).chunk_count)

  abbrev Delivers : Outcome → Type 0
  Delivers (returned r) = IsComplete input chunks r
  Delivers (terminal_failure m) = ⊥
