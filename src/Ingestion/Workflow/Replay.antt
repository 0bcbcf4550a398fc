-- ===== src/Ingestion/Workflow/Replay.antt =====
-- The dead-letter retry: the message that a failed run leaves, read back into a workflow input.
use inherent.Prelude.{String, ◌≡◌, refl, none, some}
use inherent.Prelude.Dict.{Dict}
use inherent.Ingestion.Workflow.Messages.{
  DocumentUploadMessage, workflow_input, reconstruct_original_message,
}

module _ (tenant_user : String → String → String) (packs : Dict String) where
  -- A retry starts from the input of the first run, with three fields changed: the link to the
  -- original file is gone, the uploader is now the tenant's user, and the tenant's user is resolved
  -- from the tenant's user.
  pub replay_lem :
      (m : DocumentUploadMessage)
      → let input = workflow_input tenant_user packs m in
        workflow_input tenant_user packs (reconstruct_original_message input) ≡ record input {
          user_id = tenant_user m.workspace_id (tenant_user m.workspace_id m.user_id);
          uploaded_by = some (tenant_user m.workspace_id m.user_id);
          source_url = none;
        }
  unfolding workflow_input reconstruct_original_message
  replay_lem m = refl
