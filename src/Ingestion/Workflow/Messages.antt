-- ===== src/Ingestion/Workflow/Messages.antt =====
-- The records that pass through the workflow: the upload message of inh_contracts/events.py, the
-- dataclasses of src/temporal/models.py, and the two functions that turn one into the other.
use inherent.Prelude.{ℕ, String, Bool, Option, none, some, str_eq, if◌then◌else◌}
use inherent.Prelude.Dict.{Dict, get}

-- `event_type` and `contract_version` are constants and are left out.
pub record DocumentUploadMessage : Type 0 where
  pub document_id : String
  pub workspace_id : String
  pub user_id : String
  pub uploaded_by : Option String
  pub filename : String
  pub original_filename : String
  pub content_type : String
  pub size_bytes : ℕ
  pub storage_backend : String
  pub storage_path : String
  pub storage_bucket : Option String
  pub storage_url : Option String
  pub timestamp : String
  pub source : Option String
  pub connection_id : Option String
  pub sync_id : Option String
  pub source_url : Option String

pub record DocumentIngestionInput : Type 0 where
  pub document_id : String
  pub workspace_id : String
  pub user_id : String
  pub filename : String
  pub original_filename : String
  pub content_type : String
  pub size_bytes : ℕ
  pub storage_backend : String
  pub storage_path : String
  pub storage_bucket : Option String
  pub storage_url : Option String
  pub uploaded_by : Option String
  pub source_url : Option String
  pub timestamp : String
  pub chunking_strategy : Option String
  pub max_chunk_size : Option ℕ
  pub chunk_overlap : Option ℕ
  pub vertical_pack : Option String

pub record WorkflowResult : Type 0 where
  pub document_id : String
  pub success : Bool
  pub chunks_created : ℕ
  pub error : Option String
  pub processing_time_ms : ℕ

-- `_reconstruct_original_message`: a key that the dict does not have is validated to its default,
-- `None`, when the dead-letter retry reads the message back.
unfoldable pub reconstruct_original_message : DocumentIngestionInput → DocumentUploadMessage
reconstruct_original_message input = record {
  document_id = input.document_id;
  workspace_id = input.workspace_id;
  user_id = input.user_id;
  uploaded_by = none;
  filename = input.filename;
  original_filename = input.original_filename;
  content_type = input.content_type;
  size_bytes = input.size_bytes;
  storage_backend = input.storage_backend;
  storage_path = input.storage_path;
  storage_bucket = input.storage_bucket;
  storage_url = input.storage_url;
  timestamp = input.timestamp;
  source = none;
  connection_id = none;
  sync_id = none;
  source_url = none;
}

-- Python's `a or b` on an optional text: the empty text is falsy.
unfoldable pub or_else : Option String → String → String
or_else none b = b
or_else (some a) b = if str_eq a "" then b else a

-- What `trigger_workflow` builds from a validated message. The tenant's user comes from the
-- control plane (`resolve_tenant_user_id`), and the packs from the settings.
unfoldable pub workflow_input :
    (String → String → String) → Dict String → DocumentUploadMessage → DocumentIngestionInput
unfolding or_else get
workflow_input tenant_user packs m = record {
  document_id = m.document_id;
  workspace_id = m.workspace_id;
  user_id = tenant_user m.workspace_id m.user_id;
  filename = m.filename;
  original_filename = m.original_filename;
  content_type = m.content_type;
  size_bytes = m.size_bytes;
  storage_backend = m.storage_backend;
  storage_path = m.storage_path;
  storage_bucket = m.storage_bucket;
  storage_url = m.storage_url;
  uploaded_by = some (or_else m.uploaded_by m.user_id);
  source_url = m.source_url;
  timestamp = m.timestamp;
  chunking_strategy = none;
  max_chunk_size = none;
  chunk_overlap = none;
  vertical_pack = get m.workspace_id packs;
}
