-- ===== src/PublicApi/Documents/Tests.antt =====
-- Uploads and deletions on small tables, and their theorems there.
use inherent.Prelude.{
  ℕ, ◌≤◌, ltb, String, ◌≡◌, refl, subst, true, false, none, some, List, [], ◌∷◌, ◌⊎◌, inl, inr,
  arith, if◌then◌else◌, if_cases, ◌==◌,
}
use inherent.Prelude.Text.{codes}
use inherent.Ingestion.Chunking.Text.{rstrip, lstrip, is_space}
use inherent.Contracts.FileTypes.{FileTypeSpec}
use inherent.Contracts.Checks.{other_found}
use inherent.PublicApi.Chunks.Stores.{failed}
use inherent.PublicApi.Chunks.Compensation.{Fate, done, refused, unknown}
use inherent.PublicApi.Documents.Rows.{
  DocumentRow, mark_document_failed, fail_document, create_or_reset_pending_document, has_document,
  reset_document, find_document, document_id_by_content_hash, document_id_by_filename, has_hash,
  delete_document, delete_read, drop_document, drop_chunks,
}
use inherent.PublicApi.Documents.Site.{
  Site, VectorKey, Raised, call, fated, explicitly_unsupported, unsupported, extension_mismatch,
  empty, content_mismatch, branch, ◌>>=◌, throw, give, mark_document_failed_with_retry, marks_from,
  after_mark,
}
use inherent.PublicApi.Documents.Vectors.{IsBatchDelete, is_at, matches, NoVectors}
use inherent.PublicApi.Documents.Deletion.{
  response, Backends, place, delete_document_everywhere, after_fields, delete_document_vectors,
  read_batch, after_delete,
}
use inherent.PublicApi.Documents.Intake.{
  Upload, FileTypes, Services, UploadResponse, intake_document, checked_upload, checked_content,
  after_checks, deduplicate, after_hash, after_filename, known_content, upload_as, store, persist,
  enqueue,
}
use inherent.PublicApi.Documents.Deleted.{delete_document_everywhere-Ending}
use mathlib.Core.Option.{some-injective}
use inherent.PublicApi.Documents.Accepted
use inherent.PublicApi.Documents.Checked
use inherent.PublicApi.Documents.Checked.{checked_upload-Accepted}
use inherent.PublicApi.Documents.Deleted
use inherent.PublicApi.Documents.Uploaded.{intake_document-Ending, mime_of}

abbrev blank : Site
blank = record {
  tables = record {
    documents = [];
    chunks = [];
    counters = λ w. record { document_count = 0; chunk_count = 0; total_size_bytes = 0 };
  };
  vectors = [];
  objects = [];
  published = [];
  calls = 0;
  exhausted = [];
  slept = 0;
}

abbrev text_spec : FileTypeSpec
text_spec = record {
  key = "text";
  mime_types = "text/plain" ∷ [];
  extensions = codes ".txt" ∷ [];
  magic = none;
  max_size_bytes = none;
  magic_anchor_window = none;
  extension_check_exempt = false;
  mime_type_by_extension = none;
}

abbrev pdf_spec : FileTypeSpec
pdf_spec = record text_spec {
  key = "pdf";
  mime_types = "application/pdf" ∷ [];
  extensions = codes ".pdf" ∷ [];
  magic = some (codes "%PDF");
}

-- A registry of plain text and of one binary format.
abbrev plain : FileTypes
plain = record {
  registry = text_spec ∷ pdf_spec ∷ [];
  unsupported_formats = record { mime_types = "application/msword" ∷ []; message = "convert" } ∷ [];
}

-- Every call is done, but for those of the queue, and those of the database from `from` on.
abbrev outage : Fate → ℕ → Services
outage queue from = record {
  database = λ n. if ltb n from then done else refused failed;
  mongo = λ n. done;
  storage = λ n. done;
  queue = λ n. queue;
  owner = λ workspace. some "owner";
  sha256 = λ bytes. "hash";
  new_id = λ n. "d1";
  generate_key = λ n workspace name. "key";
  build_storage_url = λ key. key;
  key_name = λ key. key;
}

abbrev note : Upload
note = record {
  workspace_id = "w1";
  user_id = "member";
  content_bytes = 65 ∷ [];
  filename = "a.txt";
  content_type = "text/plain";
}

abbrev response_status : (Raised ⊎ UploadResponse) × Site → String
response_status (inl e, w) = "raised"
response_status (inr r, w) = r.status

abbrev statuses : List DocumentRow → List String
statuses [] = []
statuses (d ∷ rows) = d.status ∷ statuses rows

-- The queue refuses the message and the database then all marks: the response says `failed`, the row
-- stays `pending`, and the alarm is raised.
abbrev stranded : (Raised ⊎ UploadResponse) × Site
stranded = intake_document plain (outage (refused failed) 5) note blank

stranded_row :
    (response_status stranded ≡ "failed")
    × (statuses stranded.1.tables.documents ≡ "pending" ∷ [])
    × (stranded.1.exhausted ≡ "upload_enqueue" ∷ [])
    × (stranded.1.slept ≡ 600)
unfolding intake_document checked_upload checked_content after_checks deduplicate after_hash
    after_filename known_content upload_as store persist enqueue call fated branch ◌>>=◌ throw give
    mark_document_failed_with_retry marks_from after_mark mark_document_failed fail_document
    create_or_reset_pending_document has_document reset_document find_document
    document_id_by_content_hash document_id_by_filename has_hash rstrip lstrip is_space
stranded_row = (refl, refl, refl, refl)

-- The upload that the response asks for, with every call done: `pending`, and nothing is enqueued.
stranded_again :
    (let again = intake_document plain (outage done 100) note stranded.1 in
      (response_status again ≡ "pending") × (again.1.published ≡ []))
unfolding intake_document checked_upload checked_content after_checks deduplicate after_hash
    after_filename known_content upload_as store persist enqueue call fated branch ◌>>=◌ throw give
    mark_document_failed_with_retry marks_from after_mark mark_document_failed fail_document
    create_or_reset_pending_document has_document reset_document find_document
    document_id_by_content_hash document_id_by_filename has_hash rstrip lstrip is_space
stranded_again = (refl, refl)

intake_document-Ending_example :
    Accepted.Ending
      (outage (refused failed) 5)
      note
      blank
      (mime_of note (checked_upload plain note))
      (intake_document plain (outage (refused failed) 5) note blank)
intake_document-Ending_example = intake_document-Ending plain (outage (refused failed) 5) note blank

-- A vector store that deletes all that matches.
abbrev keep_others : VectorKey → List VectorKey → List VectorKey
keep_others at [] = []
keep_others at (v ∷ vectors) =
    let rest = keep_others at vectors in if is_at at v then rest else v ∷ rest

keep_others-NoVectors :
    (at : VectorKey) (vectors : List VectorKey) → NoVectors at (keep_others at vectors)
keep_others-NoVectors at [] = tt
keep_others-NoVectors at (v ∷ vectors) =
    if_cases (NoVectors at) (is_at at v) (keep_others at vectors) (v ∷ keep_others at vectors)
      (λ e. keep_others-NoVectors at vectors) (λ e. (e, keep_others-NoVectors at vectors))

-- The call of the database with the number 2, the transaction, is done, but its answer is lost.
abbrev backends : Backends
backends = record {
  database = λ n. if n == 2 then unknown failed else done;
  storage = λ n. done;
  collection_name = λ workspace. workspace;
  tenant_name = λ user. user;
  is_safe_name = λ name. true;
  batch_delete =
      λ n at vectors. (response 200 false (matches at vectors) 0, keep_others at vectors);
}

backends-IsBatchDelete : IsBatchDelete backends 10000
backends-IsBatchDelete = record {
  complete = λ n at vectors no_class successful le e. keep_others-NoVectors at vectors;
  absent_class = λ n at vectors status successful left e odd. absurd (ground arith);
}

abbrev one_row : DocumentRow
one_row = record {
  document_id = "d1";
  workspace_id = "w1";
  user_id = "owner";
  uploaded_by = some "member";
  filename = "a.txt";
  original_filename = "a.txt";
  content_type = "text/plain";
  size_bytes = 1;
  storage_backend = "s3";
  storage_path = "key";
  storage_url = none;
  content_hash = some "hash";
  status = "processed";
  error_message = none;
  chunk_count = 2;
}

abbrev at : ℕ → VectorKey
at n = record { collection = "w1"; tenant = "owner"; document_id = "d1"; chunk_index = n }

abbrev stored : Site
stored = record blank {
  tables = record blank.tables { documents = one_row ∷ [] };
  vectors = at 0 ∷ at 1 ∷ [];
  objects = "key" ∷ [];
}

stored_few :
    (d : DocumentRow)
    → find_document "d1" "w1" stored.tables.documents ≡ some d
    → matches (place backends "w1" d.user_id "d1") stored.vectors ≤ 10000
unfolding find_document
stored_few d e =
    subst (λ d. matches (place backends "w1" d.user_id "d1") stored.vectors ≤ 10000)
      (some-injective _ _ e) (ground arith)

delete_document_everywhere-Ending_example :
    Deleted.Ending backends 10000 backends-IsBatchDelete "d1" "w1" stored
      (delete_document_everywhere backends "d1" "w1" stored)
delete_document_everywhere-Ending_example =
    delete_document_everywhere-Ending backends 10000 backends-IsBatchDelete "d1" "w1" stored
      stored_few

-- The transaction is done and its answer lost: the deletion raises with everything but the bytes gone.
lost_answer :
    (let run = delete_document_everywhere backends "d1" "w1" stored in
      (statuses run.1.tables.documents ≡ []) × (run.1.vectors ≡ []) × (run.1.objects ≡ "key" ∷ []))
unfolding delete_document_everywhere after_fields delete_document_vectors read_batch after_delete
    delete_document delete_read drop_document drop_chunks find_document call fated ◌>>=◌ branch
    throw give
lost_answer = (refl, refl, refl)

note_passes : checked_upload plain note ≡ inr "text/plain"
unfolding checked_upload rstrip lstrip is_space
note_passes = refl

-- A PDF under the name of a text, and an unregistered type under a registered name.
refusals :
    (checked_upload plain (record note { content_bytes = codes "%PDF-1.7" })
      ≡ inl (content_mismatch (other_found "pdf")))
    × (checked_upload plain (record note { content_type = "made/up" }) ≡ inl unsupported)
    × (checked_upload plain (record note { content_type = "application/msword; v=1" })
        ≡ inl (explicitly_unsupported "convert"))
    × (checked_upload plain (record note { filename = "a.pdf" }) ≡ inl (extension_mismatch "pdf"))
    × (checked_upload plain (record note { content_bytes = [] }) ≡ inl empty)
unfolding checked_upload rstrip lstrip is_space
refusals = (refl, refl, refl, refl, refl)

checked_upload-Accepted_example : Checked.Accepted plain note "text/plain"
checked_upload-Accepted_example = checked_upload-Accepted plain note "text/plain" note_passes
