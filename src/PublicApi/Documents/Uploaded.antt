-- ===== src/PublicApi/Documents/Uploaded.antt =====
-- An upload, call by call: what is stored and what is enqueued, whatever its calls do.
use inherent.Prelude.{
  ℕ, String, ◌≡◌, ◌≢◌, refl, sym, ap, subst, true, not, Option, none, some, ◌∷◌, ◌⊎◌, inl, inr,
  arith, str_eq, eq_iff, if_cases,
}
use inherent.PublicApi.Chunks.Compensation.{Fate}
use inherent.PublicApi.Documents.Rows.{
  DocumentRow, Tables, find_document, document_id_by_content_hash, document_id_by_filename,
  create_or_reset_pending_document,
}
use inherent.PublicApi.Documents.Site.{
  Site, service_unavailable, bad_request, Action, give, throw, call, ◌>>=◌, write, query, Rejection,
}
use inherent.PublicApi.Documents.Calls.{call-After, bind-After, branch-After}
use inherent.PublicApi.Documents.Found.{find-create}
use inherent.PublicApi.Documents.Accepted.{Ending, raising, known, Quiet, Stored, enqueue-Ending}
use inherent.PublicApi.Documents.Intake.{
  Upload, FileTypes, Services, UploadResponse, row_of, put_object, persist, store, upload_as,
  existing_response, known_content, after_filename, after_hash, deduplicate, after_checks,
  intake_document, tenant_of, by_id, checked_upload,
}

module _ (env : Services) (up : Upload) (start : Site) (mime : String) where
  -- Nothing is done yet but reads.
  Unchanged : Site → Type 0
  Unchanged w = (w.tables ≡ start.tables) × (w.objects ≡ start.objects) × Quiet env up start w

  -- The bytes are stored.
  Kept : String → Site → Type 0
  Kept key w = (w.objects ≡ key ∷ start.objects) × Quiet env up start w

  persist-Ending :
      (id tenant key : String) (w : Site)
      → Kept key w
      → Ending env up start mime (persist env up mime id tenant key w)
  unfolding persist throw Kept Stored
  persist-Ending id tenant key w (objects, quiet) =
      branch-After (λ u. Stored env up start mime id tenant key) (λ e. Quiet env up start)
        (Ending env up start mime) _ _
        (call env.database
          (write (create_or_reset_pending_document (row_of env up mime id tenant key))) w)
        (call-After _ _ env.database
          (write (create_or_reset_pending_document (row_of env up mime id tenant key))) w
          (
            find-create (row_of env up mime id tenant key) (λ old. refl) w.tables refl refl,
            objects,
            quiet,
          )
          (λ e. quiet) (λ e. quiet))
        (λ e w quiet. raising (service_unavailable "database") w quiet)
        (λ u. enqueue-Ending env up start mime id tenant key)

  store-Ending :
      (id tenant : String) (w : Site)
      → Unchanged w
      → Ending env up start mime (store env up mime id tenant w)
  unfolding store throw Unchanged Kept
  store-Ending id tenant w (tables, objects, quiet) =
      let key = env.generate_key w.calls up.workspace_id up.filename in
      branch-After (λ u. Kept key) (λ e. Quiet env up start) (Ending env up start mime) _ _
        (call env.storage (put_object env up mime key) w)
        (call-After _ _ env.storage (put_object env up mime key) w
          (ap (λ l. key ∷ l) objects, quiet) (λ e. quiet) (λ e. quiet))
        (λ e w quiet. raising (service_unavailable "storage") w quiet)
        (λ u. persist-Ending id tenant key)

  -- A read of the tables, and what follows it.
  read-Ending :
      {A : Type 0} (fates : ℕ → Fate) (f : Tables → A) (g : A → Action UploadResponse) (w : Site)
      → Unchanged w
      → ((v : Site) → Unchanged v → Ending env up start mime (g (f start.tables) v))
      → Ending env up start mime ((call fates (query f) >>= g) w)
  unfolding Unchanged
  read-Ending fates f g w (tables, objects, quiet) good =
      bind-After
        (λ a v.
          (a ≡ f start.tables)
          × (v.tables ≡ start.tables)
          × (v.objects ≡ start.objects)
          × Quiet env up start v)
        (λ e. Quiet env up start) (Ending env up start mime) (call fates (query f)) g w
        (call-After _ _ fates (query f) w (ap f tables, tables, objects, quiet) (λ e. quiet)
          (λ e. quiet))
        (λ e v quiet. raising e v quiet)
        (λ a v (same, tables, objects, quiet).
          subst (λ a. Ending env up start mime (g a v)) (sym same)
            (good v (tables, objects, quiet)))

  upload_as-Ending :
      (id : String) (w : Site) → Unchanged w → Ending env up start mime (upload_as env up mime id w)
  unfolding upload_as
  upload_as-Ending id w h =
      read-Ending env.mongo (λ t. tenant_of env up mime (env.owner up.workspace_id))
        (store env up mime id) w h (store-Ending id _)

  known_content-Ending :
      (id : String) (o : Option DocumentRow) (w : Site)
      → document_id_by_content_hash up.workspace_id
          (env.sha256 up.content_bytes)
          start.tables.documents
        ≡ some id
      → find_document id up.workspace_id start.tables.documents ≡ o
      → Unchanged w
      → Ending env up start mime (known_content env up mime id o w)
  unfolding known_content give Unchanged
  known_content-Ending id none w hash found h = upload_as-Ending id w h
  known_content-Ending id (some d) w hash found h =
      if_cases (λ m. Ending env up start mime (m w)) (not (str_eq d.status "failed"))
        (call env.database (by_id env up mime id)
          >>= (λ fields. give (existing_response env up mime d fields)))
        (upload_as env up mime id)
        (λ alive.
          read-Ending env.database (λ t. find_document id up.workspace_id t.documents)
            (λ fields. give (existing_response env up mime d fields)) w h
            (λ v (tables, objects, quiet).
              subst (λ o. Ending env up start mime (inr (existing_response env up mime d o), v))
                (sym found) (known id d v hash found (not_failed d alive) quiet tables objects)))
        (λ e. upload_as-Ending id w h)
    where
      not_failed : (d : DocumentRow) → not (str_eq d.status "failed") ≡ true → d.status ≢ "failed"
      not_failed d alive e = ground (arith, eq_iff d.status "failed")

  after_filename-Ending :
      (o : Option String) (w : Site)
      → Unchanged w
      → Ending env up start mime (after_filename env up mime o w)
  unfolding after_filename
  after_filename-Ending none w h = upload_as-Ending _ w h
  after_filename-Ending (some id) w h = upload_as-Ending id w h

  after_hash-Ending :
      (o : Option String) (w : Site)
      → document_id_by_content_hash up.workspace_id
          (env.sha256 up.content_bytes)
          start.tables.documents
        ≡ o
      → Unchanged w
      → Ending env up start mime (after_hash env up mime o w)
  unfolding after_hash
  after_hash-Ending none w hash h =
      read-Ending env.database
        (λ t. document_id_by_filename up.workspace_id up.filename t.documents)
        (after_filename env up mime) w h (after_filename-Ending _)
  after_hash-Ending (some id) w hash h =
      read-Ending env.database (λ t. find_document id up.workspace_id t.documents)
        (known_content env up mime id) w h (λ v. known_content-Ending id _ v hash refl)

  deduplicate-Ending : Ending env up start mime (deduplicate env up mime start)
  unfolding deduplicate Unchanged
  deduplicate-Ending =
      read-Ending env.database
        (λ t. document_id_by_content_hash up.workspace_id (env.sha256 up.content_bytes) t.documents)
        (after_hash env up mime) start (refl, refl, (refl, refl)) (λ v. after_hash-Ending _ v refl)

-- The content type that is stored.
abbrev pub mime_of : Upload → Rejection ⊎ String → String
mime_of up (inl why) = up.content_type
mime_of up (inr mime) = mime

module _ (types : FileTypes) (env : Services) (up : Upload) (start : Site) where
  after_checks-Ending :
      (r : Rejection ⊎ String) → Ending env up start (mime_of up r) (after_checks env up r start)
  unfolding throw after_checks
  after_checks-Ending (inl why) = raising (bad_request why) start (refl, refl)
  after_checks-Ending (inr mime) = deduplicate-Ending env up start mime

  -- An upload, whatever the fates of its calls: it raises, with nothing enqueued and no alarm; or it
  -- returns the state of a document of the workspace that its content was found under and that has
  -- not failed, with the tables, the bytes, the queue and the alarms as they were; or it returns
  -- `pending`, with the upload's row recorded, its bytes stored and its message enqueued; or it
  -- returns `failed`, with the bytes stored, and with the row recorded as failed and no alarm, or as
  -- pending or failed and one alarm: then its message may have been enqueued.
  pub intake_document-Ending :
      Ending env up start
        (mime_of up (checked_upload types up))
        (intake_document types env up start)
  unfolding intake_document
  intake_document-Ending = after_checks-Ending (checked_upload types up)
