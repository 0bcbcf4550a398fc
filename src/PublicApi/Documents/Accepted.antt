-- ===== src/PublicApi/Documents/Accepted.antt =====
-- How an upload ends, and its last call: the publication, with its handler.
use inherent.Prelude.{String, ◌≡◌, ◌≢◌, ap, Bool, some, ◌∷◌, ◌⊎◌, inl, inr}
use inherent.PublicApi.Documents.Rows.{
  DocumentRow, find_document, document_id_by_content_hash, mark_document_failed,
}
use inherent.PublicApi.Documents.Site.{
  DocumentUploaded, Site, Raised, give, call, mark_document_failed_with_retry,
}
use inherent.PublicApi.Documents.Calls.{
  After, call-After, bind-After, branch-After, Marked, marked, orphaned,
  mark_document_failed_with_retry-Marked,
}
use inherent.PublicApi.Documents.Found.{find-fail, failed_row}
use inherent.PublicApi.Documents.Intake.{
  Upload, Services, UploadResponse, row_of, message_of, response_of, put_message, enqueue,
  existing_response,
}

abbrev pub enqueue_failed : String
enqueue_failed = "ingestion enqueue failed"

module _ (env : Services) (up : Upload) (start : Site) where
  -- The queue and the alarms are as they were at the start.
  abbrev pub Quiet : Site → Type 0
  Quiet w = (w.published ≡ start.published) × (w.exhausted ≡ start.exhausted)

  -- The document's row is the upload's.
  abbrev pub Recorded : String → DocumentRow → Site → Type 0
  Recorded id row w = find_document id up.workspace_id w.tables.documents ≡ some row

  -- The queue has what it had, or the upload's message too.
  abbrev pub SentOrNot : DocumentUploaded → Site → Type 0
  SentOrNot m w = (w.published ≡ start.published) ⊎ (w.published ≡ m ∷ start.published)

  -- How an upload ends: raising, with nothing enqueued; with the response for a document that has
  -- its content, and nothing changed; pending, recorded and enqueued; or failed, with the row marked
  -- so, or with an alarm.
  pub data Ending (mime : String) : (Raised ⊎ UploadResponse) × Site → Type 0 where
    raising : (e : Raised) (w : Site) → Quiet w → Ending mime (inl e, w)
    known :
        (id : String) (d : DocumentRow) (w : Site)
        → document_id_by_content_hash up.workspace_id
            (env.sha256 up.content_bytes)
            start.tables.documents
          ≡ some id
        → find_document id up.workspace_id start.tables.documents ≡ some d
        → d.status ≢ "failed"
        → Quiet w
        → w.tables ≡ start.tables
        → w.objects ≡ start.objects
        → Ending mime (inr (existing_response env up mime d (some d)), w)
    pending :
        (id tenant key : String) (w : Site)
        → Recorded id (row_of env up mime id tenant key) w
        → w.objects ≡ key ∷ start.objects
        → w.published ≡ message_of env up mime id tenant key ∷ start.published
        → w.exhausted ≡ start.exhausted
        → Ending mime (inr (response_of env up mime id key "pending"), w)
    marked_failed :
        (id tenant key : String) (w : Site)
        → Recorded id (failed_row enqueue_failed (row_of env up mime id tenant key)) w
        → w.objects ≡ key ∷ start.objects
        → SentOrNot (message_of env up mime id tenant key) w
        → w.exhausted ≡ start.exhausted
        → Ending mime (inr (response_of env up mime id key "failed"), w)
    alarmed :
        (id tenant key : String) (w : Site)
        → Recorded id (row_of env up mime id tenant key) w
          ⊎ Recorded id (failed_row enqueue_failed (row_of env up mime id tenant key)) w
        → w.objects ≡ key ∷ start.objects
        → SentOrNot (message_of env up mime id tenant key) w
        → w.exhausted ≡ "upload_enqueue" ∷ start.exhausted
        → Ending mime (inr (response_of env up mime id key "failed"), w)

  module _ (mime id tenant key : String) where
    abbrev pub row : DocumentRow
    row = row_of env up mime id tenant key

    abbrev message : DocumentUploaded
    message = message_of env up mime id tenant key

    -- The row is recorded and the bytes are stored.
    unfoldable pub Stored : Site → Type 0
    Stored w = Recorded id row w × (w.objects ≡ key ∷ start.objects) × Quiet w

    -- After a publication that raised, while no mark has returned.
    Unqueued : Site → Type 0
    Unqueued w =
        (Recorded id row w ⊎ Recorded id (failed_row enqueue_failed row) w)
        × (w.objects ≡ key ∷ start.objects)
        × SentOrNot message w
        × (w.exhausted ≡ start.exhausted)

    MarkedFailed : Site → Type 0
    MarkedFailed w =
        Recorded id (failed_row enqueue_failed row) w
        × (w.objects ≡ key ∷ start.objects)
        × SentOrNot message w
        × (w.exhausted ≡ start.exhausted)

    fail-Recorded :
        (w : Site)
        → Recorded id row w ⊎ Recorded id (failed_row enqueue_failed row) w
        → find_document id up.workspace_id
            (mark_document_failed id up.workspace_id enqueue_failed w.tables).documents
          ≡ some (failed_row enqueue_failed row)
    unfolding mark_document_failed
    fail-Recorded w (inl found) = find-fail id up.workspace_id enqueue_failed _ row found
    fail-Recorded w (inr found) =
        find-fail id up.workspace_id enqueue_failed _ (failed_row enqueue_failed row) found

    marks-Marked :
        (w : Site)
        → Unqueued w
        → Marked "upload_enqueue" Unqueued MarkedFailed (
            mark_document_failed_with_retry env.database id up.workspace_id enqueue_failed
              "upload_enqueue" w)
    unfolding Unqueued MarkedFailed
    marks-Marked w h =
        mark_document_failed_with_retry-Marked "upload_enqueue" Unqueued MarkedFailed (λ ms w h. h)
          env.database id up.workspace_id enqueue_failed w
          (λ w (found, objects, sent, quiet). (
            (fail-Recorded w found, objects, sent, quiet),
            (inr (fail-Recorded w found), objects, sent, quiet),
            (found, objects, sent, quiet),
          ))
          h

    after_marks-Ending :
        (x : (Raised ⊎ Bool) × Site)
        → Marked "upload_enqueue" Unqueued MarkedFailed x
        → After (λ b w. Ending mime (inr (response_of env up mime id key "failed"), w)) (λ e w. ⊥) x
    unfolding Unqueued MarkedFailed After
    after_marks-Ending x (marked w (found, objects, sent, quiet)) =
        marked_failed id tenant key w found objects sent quiet
    after_marks-Ending x (orphaned w (found, objects, sent, quiet)) =
        alarmed id tenant key _ found objects sent (ap (λ l. "upload_enqueue" ∷ l) quiet)

    pub enqueue-Ending : (w : Site) → Stored w → Ending mime (enqueue env up mime id tenant key w)
    unfolding enqueue give Stored Unqueued
    enqueue-Ending w (found, objects, quiet) =
        branch-After
          (λ u w.
            Recorded id row w
            × (w.objects ≡ key ∷ start.objects)
            × (w.published ≡ message ∷ start.published)
            × (w.exhausted ≡ start.exhausted))
          (λ e. Unqueued) (Ending mime) _ _ (call env.queue (put_message env up mime message) w)
          (call-After _ _ env.queue (put_message env up mime message) w
            (found, objects, ap (λ l. message ∷ l) quiet.0, quiet.1)
            (λ e. (inl found, objects, inl quiet.0, quiet.1))
            (λ e. (inl found, objects, inr (ap (λ l. message ∷ l) quiet.0), quiet.1)))
          (λ e w h.
            bind-After (λ b w. Ending mime (inr (response_of env up mime id key "failed"), w))
              (λ e w. ⊥) (Ending mime)
              (mark_document_failed_with_retry env.database id up.workspace_id enqueue_failed
                "upload_enqueue")
              (λ b. give (response_of env up mime id key "failed")) w
              (after_marks-Ending _ (marks-Marked w h)) (λ e w. absurd) (λ b w h. h))
          (λ u w (found, objects, sent, quiet). pending id tenant key w found objects sent quiet)
