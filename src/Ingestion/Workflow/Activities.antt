-- ===== src/Ingestion/Workflow/Activities.antt =====
-- The activities that the workflow schedules, and the environment that answers them. Temporal runs
-- an activity with its retries and timeouts; the workflow sees one reply, which may be an exception.
use inherent.Prelude.{ℕ, String, Bool, Option, List}
use inherent.Ingestion.Workflow.Messages.{DocumentUploadMessage, DocumentIngestionInput}

-- `ActivityError` has a generic text of its own, and the activity's own error as its `cause`.
pub record Exception : Type 0 where
  pub text : String
  pub cause : Option String

pub data Result (A : Type 0) : Type 0 where
  ok : A → Result A
  err : Exception → Result A

pub data Status : Type 0 where
  processing failed : Status

pub record TenantOutput : Type 0 where
  pub tenant_id : ℕ

pub record ExtractOutput : Type 0 where
  pub text_length : ℕ

pub record ChunkOutput : Type 0 where
  pub chunk_count : ℕ

pub record StoreResult : Type 0 where
  pub success : Bool
  pub error : Option String

-- `StoreDocumentInput`: the fields that it copies are those of `input`.
pub record StoreInput : Type 0 where
  pub workflow_run_id : String
  pub input : DocumentIngestionInput
  pub text_length : ℕ
  pub processing_time_ms : ℕ
  pub tenant_id : Option ℕ

-- `PublishCompletionInput`: the fields that it copies are those of `input`.
pub record CompletionInput : Type 0 where
  pub input : DocumentIngestionInput
  pub success : Bool
  pub chunks_created : ℕ
  pub error : Option String
  pub processing_time_ms : ℕ

pub record DeadLetterInput : Type 0 where
  pub document_id : String
  pub workspace_id : String
  pub user_id : String
  pub workflow_run_id : String
  pub original_message : DocumentUploadMessage
  pub error_message : String
  pub error_type : String

-- An activity with its input. An input that only selects fields of the workflow's input, next to
-- the run's id, is written as that input and the id.
pub data Activity : Type 0 where
  create_pending_document : DocumentIngestionInput → String → ℕ → Activity
  set_document_status : String → String → Status → Option String → String → Activity
  ensure_tenant_ready : DocumentIngestionInput → String → Activity
  fetch_document : DocumentIngestionInput → String → Activity
  extract_text : DocumentIngestionInput → String → Activity
  chunk_text : DocumentIngestionInput → String → Activity
  tag_chunks : DocumentIngestionInput → String → String → Activity
  store_in_postgresql : StoreInput → Activity
  store_in_weaviate : StoreInput → Activity
  update_workspace_stats : DocumentIngestionInput → ℕ → ℕ → String → Activity
  resolve_dead_letter_jobs : String → Activity
  record_dead_letter : DeadLetterInput → Activity
  publish_completion : CompletionInput → Activity
  cleanup_staging : String → Activity

-- What the workflow reads of an activity's output.
abbrev pub Output : Activity → Type 0
Output (ensure_tenant_ready _ _) = TenantOutput
Output (extract_text _ _) = ExtractOutput
Output (chunk_text _ _) = ChunkOutput
Output (store_in_postgresql _) = StoreResult
Output (store_in_weaviate _) = StoreResult
Output _ = Unit

-- The activities scheduled so far, the latest first.
abbrev pub History : Type 0
History = List Activity

-- Temporal and the workers: any reply that depends on what was scheduled before.
pub record Env : Type 0 where
  pub run_id : String
  pub start_time : ℕ
  -- `workflow.now()` in milliseconds
  pub now : History → ℕ
  pub reply : History → (a : Activity) → Result (Output a)
  -- which of the two store activities settles first in `asyncio.gather`
  pub postgres_first : History → Bool
