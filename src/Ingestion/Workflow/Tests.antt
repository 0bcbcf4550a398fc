-- ===== src/Ingestion/Workflow/Tests.antt =====
-- Runs of the workflow on a sample document, and the theorems at these runs.
use inherent.Prelude.{String, ◌≡◌, refl, Bool, true, false, none, some}
use inherent.Prelude.Dict.{Dict, empty}
use inherent.Ingestion.Workflow.Messages.{
  DocumentUploadMessage, DocumentIngestionInput, workflow_input, reconstruct_original_message,
}
use inherent.Ingestion.Workflow.Activities.{
  Result, ok, err, Activity, Output, Env, ensure_tenant_ready, extract_text, chunk_text,
  store_in_postgresql, store_in_weaviate, publish_completion,
}
use inherent.Ingestion.Workflow.Classify.{classify_error}
use inherent.Ingestion.Workflow.Steps.{gets, ◌>>=◌, elapsed, resolve_dead_letters, publish}
use inherent.Ingestion.Workflow.Run.{
  completed, document_failure, claim, ensure_tenant, fetch, extract, chunk, tag, run_stores, finish,
  conclude, store, body, except, try_body, close_as, run,
}
use inherent.Ingestion.Workflow.Accounting.{Accounts, run-Accounts}
use inherent.Ingestion.Workflow.Stored.{IsStored, run-IsStored}
use inherent.Ingestion.Workflow.Healthy.{IsHealthy}
use inherent.Ingestion.Workflow.Replay.{replay_lem}

abbrev message : DocumentUploadMessage
message = record {
  document_id = "d1";
  workspace_id = "w1";
  user_id = "owner";
  uploaded_by = some "member";
  filename = "1-a.pdf";
  original_filename = "a.pdf";
  content_type = "application/pdf";
  size_bytes = 10;
  storage_backend = "s3";
  storage_path = "p/a.pdf";
  storage_bucket = none;
  storage_url = none;
  timestamp = "t";
  source = some "connector:drive";
  connection_id = none;
  sync_id = none;
  source_url = some "https://drive.example/a";
}

abbrev tenant_of : String → String → String
tenant_of workspace user = user

abbrev no_packs : Dict String
no_packs = empty

abbrev document : DocumentIngestionInput
document = unfold workflow_input in workflow_input tenant_of no_packs message

-- Every activity replies but the completion event, which raises; Weaviate reports as it is told.
abbrev reply : Bool → (a : Activity) → Result (Output a)
reply stored (ensure_tenant_ready _ _) = ok (record { tenant_id = 7 })
reply stored (extract_text _ _) = ok (record { text_length = 40 })
reply stored (chunk_text _ _) = ok (record { chunk_count = 3 })
reply stored (store_in_postgresql _) = ok (record { success = true; error = none })
reply stored (store_in_weaviate _) = ok (record { success = stored; error = none })
reply stored (publish_completion _) = err (record { text = "Activity task failed"; cause = none })
reply stored _ = ok tt

abbrev env : Bool → Env
env stored = record {
  run_id = "r1";
  start_time = 0;
  now = λ h. 5;
  reply = λ h a. reply stored a;
  postgres_first = λ h. true;
}

document_completed :
    (run (env true) document).0
    ≡ completed (record {
      document_id = "d1";
      success = true;
      chunks_created = 3;
      error = none;
      processing_time_ms = 0;
    })
unfolding run try_body except body claim ensure_tenant fetch extract chunk tag store run_stores
    conclude finish elapsed gets resolve_dead_letters publish close_as workflow_input ◌>>=◌
document_completed = refl

document_half_stored :
    (run (env false) document).0 ≡ document_failure "Weaviate storage failed: None"
unfolding run try_body except body claim ensure_tenant fetch extract chunk tag store run_stores
    conclude elapsed gets close_as workflow_input ◌>>=◌
document_half_stored = refl

-- The one completion event is scheduled, and could not be published.
run-Accounts_example : Accounts (run (env true) document)
run-Accounts_example = run-Accounts (env true) document

run-IsStored_example : IsStored (env true) document (run (env true) document).1.history
run-IsStored_example = run-IsStored (env true) document document_completed

abbrev env-IsHealthy : IsHealthy (env true) document
env-IsHealthy = record {
  tenant = λ h. record { tenant_id = 7 };
  extracted = λ h. record { text_length = 40 };
  chunks = λ h. record { chunk_count = 3 };
  error = none;
  tenant_replies = λ h. refl;
  fetch_replies = λ h. refl;
  extract_replies = λ h. refl;
  chunk_replies = λ h. refl;
  postgres_replies = λ h s. refl;
  weaviate_replies = λ h s. refl;
  stats_replies = λ h n size id. refl;
}

-- A retry of the document that a member uploaded from a connector.
replay_lem_example :
    workflow_input tenant_of no_packs
      (reconstruct_original_message (workflow_input tenant_of no_packs message))
    ≡ record (workflow_input tenant_of no_packs message) {
      user_id = "owner";
      uploaded_by = some "owner";
      source_url = none;
    }
replay_lem_example = replay_lem tenant_of no_packs message

retry_attributes_to_owner : document.uploaded_by ≡ some "member"
unfolding workflow_input
retry_attributes_to_owner = refl

classified : classify_error "PostgreSQL storage failed: None" ≡ "storage_failed"
unfolding classify_error
classified = refl
