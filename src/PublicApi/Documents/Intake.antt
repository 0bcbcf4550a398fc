-- ===== src/PublicApi/Documents/Intake.antt =====
-- src/services/document_intake.py. The contracts package's tables, the hash, the new identifier and
-- the storage's key and URL are parameters.
use inherent.Prelude.{
  ℕ, String, not, Option, none, some, List, ◌∷◌, ◌⊎◌, inl, inr, str_eq, ◌==◌, ltb, length,
  if◌then◌else◌,
}
use inherent.Prelude.Text.{codes}
use inherent.Contracts.FileTypes.{
  FileTypeSpec, ExplicitlyUnsupportedSpec, UploadResolution,
  explicitly_unsupported_message_for_mime, resolve_upload_spec, extension_of,
  mime_type_for_extension,
}
use inherent.Contracts.Checks.{sniff_content_type, check_extension_consistency}
use inherent.PublicApi.Chunks.Compensation.{Fate}
use inherent.PublicApi.Documents.Rows.{
  DocumentRow, find_document, document_id_by_content_hash, document_id_by_filename,
  create_or_reset_pending_document,
}
use inherent.PublicApi.Documents.Site.{
  DocumentUploaded, Site, Rejection, explicitly_unsupported, unsupported, extension_mismatch, empty,
  too_large, content_mismatch, bad_request, service_unavailable, Action, give, throw, call, branch,
  ◌>>=◌, write, query, mark_document_failed_with_retry,
}

pub record Upload : Type 0 where
  pub workspace_id : String
  pub user_id : String
  pub content_bytes : List ℕ
  pub filename : String
  pub content_type : String

-- `FILE_TYPE_REGISTRY` and `EXPLICITLY_UNSUPPORTED`.
pub record FileTypes : Type 0 where
  pub registry : List FileTypeSpec
  pub unsupported_formats : List ExplicitlyUnsupportedSpec

-- The fates of the calls of the four services, by the number of calls before them, the owner that
-- MongoDB has for a workspace, and the storage's bounds and names.
pub record Services : Type 0 where
  pub database : ℕ → Fate
  pub mongo : ℕ → Fate
  pub storage : ℕ → Fate
  pub queue : ℕ → Fate
  pub owner : String → Option String
  pub sha256 : List ℕ → String
  pub new_id : ℕ → String
  pub generate_key : ℕ → String → String → String
  pub build_storage_url : String → String
  pub key_name : String → String

pub record UploadResponse : Type 0 where
  pub document_id : String
  pub name : String
  pub size_bytes : ℕ
  pub mime_type : String
  pub storage_url : String
  pub status : String

-- `MAX_UPLOAD_SIZE_BYTES`
abbrev pub max_upload_size_bytes : ℕ
max_upload_size_bytes = 52428800

abbrev pub max_size_of : Option ℕ → ℕ
max_size_of none = max_upload_size_bytes
max_size_of (some size) = size

-- Step 4b: a generic type gives way to the file's own.
unfoldable pub stored_mime : Upload → UploadResolution → String
unfolding codes extension_of mime_type_for_extension
stored_mime up r =
    if r.via_generic_fallback
    then mime_type_for_extension r.spec (elim (extension_of (codes up.filename)) [
      | none ↦ b'.' ∷ codes up.filename
      | some extension ↦ extension
    ])
    else up.content_type

-- Steps 3 to 4b: the size, the magic bytes, and the content type that is stored.
unfoldable pub checked_content : FileTypes → Upload → UploadResolution → Rejection ⊎ String
unfolding sniff_content_type stored_mime
checked_content types up r =
    let size = length up.content_bytes in
    let max_size = max_size_of r.spec.max_size_bytes in
    if size == 0
    then inl empty
    else if ltb max_size size
    then inl (too_large size max_size)
    else elim (sniff_content_type types.registry up.content_bytes r.spec) [
      | some why ↦ inl (content_mismatch why)
      | none ↦ inr (stored_mime up r)
    ]

-- Step 2, then the others.
unfoldable pub checked_name : FileTypes → Upload → Option UploadResolution → Rejection ⊎ String
unfolding check_extension_consistency checked_content
checked_name types up none = inl unsupported
checked_name types up (some r) =
    elim (check_extension_consistency types.registry up.filename r.spec) [
      | some key ↦ inl (extension_mismatch key)
      | none ↦ checked_content types up r
    ]

-- Step 1, then the others.
unfoldable pub checked_upload : FileTypes → Upload → Rejection ⊎ String
unfolding explicitly_unsupported_message_for_mime resolve_upload_spec checked_name
checked_upload types up =
    elim (explicitly_unsupported_message_for_mime types.unsupported_formats up.content_type) [
      | some message ↦ inl (explicitly_unsupported message)
      | none ↦
          checked_name types up (resolve_upload_spec types.registry up.content_type up.filename)
    ]

module _ (env : Services) (up : Upload) (mime : String) where
  abbrev pub content_hash : String
  content_hash = env.sha256 up.content_bytes

  abbrev pub row_of : String → String → String → DocumentRow
  row_of id tenant key = record {
    document_id = id;
    workspace_id = up.workspace_id;
    user_id = tenant;
    uploaded_by = some up.user_id;
    filename = env.key_name key;
    original_filename = up.filename;
    content_type = mime;
    size_bytes = length up.content_bytes;
    storage_backend = "s3";
    storage_path = key;
    storage_url = some (env.build_storage_url key);
    content_hash = some content_hash;
    status = "pending";
    error_message = none;
    chunk_count = 0;
  }

  abbrev pub message_of : String → String → String → DocumentUploaded
  message_of id tenant key = record {
    document_id = id;
    workspace_id = up.workspace_id;
    user_id = tenant;
    uploaded_by = up.user_id;
    original_filename = up.filename;
    content_type = mime;
    size_bytes = length up.content_bytes;
    storage_path = key;
    storage_url = env.build_storage_url key;
  }

  abbrev pub response_of : String → String → String → UploadResponse
  response_of id key status = record {
    document_id = id;
    name = up.filename;
    size_bytes = length up.content_bytes;
    mime_type = mime;
    storage_url = env.build_storage_url key;
    status = status;
  }

  abbrev pub put_object : String → Site → Unit {0} × Site
  put_object key w = (tt, record w { objects = key ∷ w.objects })

  abbrev pub put_message : DocumentUploaded → Site → Unit {0} × Site
  put_message m w = (tt, record w { published = m ∷ w.published })

  -- Step 8's handler and step 9.
  unfoldable pub enqueue : String → String → String → Action UploadResponse
  unfolding give call branch ◌>>=◌ mark_document_failed_with_retry
  enqueue id tenant key w =
      branch
        (λ e.
          mark_document_failed_with_retry env.database id up.workspace_id "ingestion enqueue failed"
            "upload_enqueue"
          >>= (λ marked. give (response_of id key "failed")))
        (λ u. give (response_of id key "pending"))
        (call env.queue (put_message (message_of id tenant key)) w)

  -- Step 7, and what raises there is the database's unavailability.
  unfoldable pub persist : String → String → String → Action UploadResponse
  unfolding call branch throw enqueue create_or_reset_pending_document
  persist id tenant key w =
      branch (λ e. throw (service_unavailable "database")) (λ u. enqueue id tenant key)
        (call env.database (write (create_or_reset_pending_document (row_of id tenant key))) w)

  -- Step 6, the same for the storage.
  unfoldable pub store : String → String → Action UploadResponse
  unfolding call branch throw persist
  store id tenant w =
      let key = env.generate_key w.calls up.workspace_id up.filename in
      branch (λ e. throw (service_unavailable "storage")) (λ u. persist id tenant key)
        (call env.storage (put_object key) w)

  abbrev pub tenant_of : Option String → String
  tenant_of none = up.user_id
  tenant_of (some owner) = owner

  unfoldable pub upload_as : String → Action UploadResponse
  unfolding call store ◌>>=◌
  upload_as id = call env.mongo (λ w. (tenant_of (env.owner up.workspace_id), w)) >>= store id

  abbrev pub url_or_empty : Option DocumentRow → String
  url_or_empty none = ""
  url_or_empty (some fields) = elim fields.storage_url [ none ↦ "" | some url ↦ url ]

  -- The response of the short-circuit.
  abbrev pub existing_response : DocumentRow → Option DocumentRow → UploadResponse
  existing_response d fields = record {
    document_id = d.document_id;
    name = d.original_filename;
    size_bytes = if d.size_bytes == 0 then length up.content_bytes else d.size_bytes;
    mime_type = if str_eq d.content_type "" then mime else d.content_type;
    storage_url = url_or_empty fields;
    status = d.status;
  }

  abbrev pub by_id : String → Site → Option DocumentRow × Site
  by_id id = query (λ t. find_document id up.workspace_id t.documents)

  -- A match by content: the document as it is, unless it has failed.
  unfoldable pub known_content : String → Option DocumentRow → Action UploadResponse
  unfolding give call upload_as ◌>>=◌
  known_content id none = upload_as id
  known_content id (some d) =
      if not (str_eq d.status "failed")
      then call env.database (by_id id) >>= (λ fields. give (existing_response d fields))
      else upload_as id

  unfoldable pub after_filename : Option String → Action UploadResponse
  unfolding upload_as
  after_filename none w = upload_as (env.new_id w.calls) w
  after_filename (some id) w = upload_as id w

  unfoldable pub after_hash : Option String → Action UploadResponse
  unfolding call known_content after_filename document_id_by_filename ◌>>=◌
  after_hash (some id) = call env.database (by_id id) >>= known_content id
  after_hash none =
      call env.database
        (query (λ t. document_id_by_filename up.workspace_id up.filename t.documents))
      >>= after_filename

  -- Steps 5 to 9, for an upload that passed the checks.
  unfoldable pub deduplicate : Action UploadResponse
  unfolding call after_hash document_id_by_content_hash ◌>>=◌
  deduplicate =
      call env.database
        (query (λ t. document_id_by_content_hash up.workspace_id content_hash t.documents))
      >>= after_hash

unfoldable pub after_checks : Services → Upload → Rejection ⊎ String → Action UploadResponse
unfolding throw deduplicate
after_checks env up (inl why) = throw (bad_request why)
after_checks env up (inr mime) = deduplicate env up mime

unfoldable pub intake_document : FileTypes → Services → Upload → Action UploadResponse
unfolding checked_upload after_checks
intake_document types env up = after_checks env up (checked_upload types up)
