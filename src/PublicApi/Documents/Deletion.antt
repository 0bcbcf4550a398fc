-- ===== src/PublicApi/Documents/Deletion.antt =====
-- src/services/deletion.py, with `delete_document_vectors` of src/services/search.py. The two names
-- of the vector store's place are the contracts package's, the batch delete is the vector store's.
use inherent.Prelude.{
  ◌+◌, ℕ, String, Bool, true, false, ◌&&◌, not, Option, none, some, List, [], ◌∷◌, ◌⊎◌, inl, inr,
  str_eq, ◌==◌, if◌then◌else◌,
}
use inherent.PublicApi.Chunks.Stores.{Failure, failed}
use inherent.PublicApi.Chunks.Compensation.{Fate}
use inherent.PublicApi.Documents.Rows.{DocumentRow, find_document, delete_document}
use inherent.PublicApi.Documents.Site.{
  VectorKey, Site, Raised, raised, Action, give, throw, call, branch, ◌>>=◌, query,
}

-- The answer to a batch delete: the connection fails, or a status with what the code reads of the
-- body, that it says `could not find class` of this collection and the two numbers of its results.
pub data BatchReply : Type 0 where
  lost : Failure → BatchReply
  response : (status : ℕ) (no_class : Bool) (successful failed : ℕ) → BatchReply

-- Who answers: the fates of the calls of the database and of the object storage, and the vector
-- store, with the names of its places.
pub record Backends : Type 0 where
  pub database : ℕ → Fate
  pub storage : ℕ → Fate
  pub collection_name : String → String
  pub tenant_name : String → String
  pub is_safe_name : String → Bool
  pub batch_delete : ℕ → VectorKey → List VectorKey → BatchReply × List VectorKey

pub record DeletionOutcome : Type 0 where
  pub found : Bool
  pub vectors_deleted : ℕ
  pub chunks_deleted : ℕ
  pub storage_deleted : Bool

-- What `delete_document_vectors` returns or raises on an answer.
unfoldable pub read_batch : BatchReply → Raised ⊎ ℕ
read_batch (lost e) = inl (raised e)
read_batch (response status no_class successful left) =
    if status == 200
    then if left == 0 then inr successful else inl (raised failed)
    else if no_class
    then inr 0
    else inl (raised failed)

-- Where the objects of a document are; the index is not read.
abbrev pub place : Backends → String → String → String → VectorKey
place env workspace user id = record {
  collection = env.collection_name workspace;
  tenant = env.tenant_name user;
  document_id = id;
  chunk_index = 0;
}

unfoldable pub delete_document_vectors : Backends → String → String → String → Action ℕ
unfolding throw read_batch
delete_document_vectors env workspace user id w =
    let at = place env workspace user id in
    let reply = env.batch_delete w.calls at w.vectors in
    if env.is_safe_name at.collection && env.is_safe_name at.tenant
    then (read_batch reply.0, record w { vectors = reply.1; calls = w.calls + 1 })
    else throw (raised failed) w

abbrev pub remove_object : String → List String → List String
remove_object key [] = []
remove_object key (o ∷ objects) =
    let rest = remove_object key objects in if str_eq o key then rest else o ∷ rest

abbrev pub delete_file : String → Site → Unit {0} × Site
delete_file key w = (tt, record w { objects = remove_object key w.objects })

abbrev pub absent : ℕ → DeletionOutcome
absent vectors = record {
  found = false;
  vectors_deleted = vectors;
  chunks_deleted = 0;
  storage_deleted = false;
}

abbrev pub removed : ℕ → DocumentRow → Bool → DeletionOutcome
removed vectors d storage = record {
  found = true;
  vectors_deleted = vectors;
  chunks_deleted = d.chunk_count;
  storage_deleted = storage;
}

-- Step 3, best effort, on the row of the first read: whatever the storage raises is logged.
unfoldable pub delete_object : Backends → ℕ → DocumentRow → DocumentRow → Action DeletionOutcome
unfolding give call branch
delete_object env vectors fields d w =
    if str_eq fields.storage_backend "s3" && not (str_eq fields.storage_path "")
    then branch (λ e. give (removed vectors d false)) (λ u. give (removed vectors d true))
        (call env.storage (delete_file fields.storage_path) w)
    else give (removed vectors d false) w

-- After step 2: what the transaction returned, with the row of the first read.
unfoldable pub after_delete :
    Backends → ℕ → DocumentRow → Option DocumentRow → Action DeletionOutcome
unfolding give delete_object
after_delete env vectors fields none = give (absent vectors)
after_delete env vectors fields (some d) = delete_object env vectors fields d

abbrev pub delete_rows : String → String → Site → Option DocumentRow × Site
delete_rows id workspace w =
    let result = delete_document id workspace w.tables in (result.0, record w { tables = result.1 })

unfoldable pub after_fields :
    Backends → String → String → Option DocumentRow → Action DeletionOutcome
unfolding give call after_delete delete_document_vectors ◌>>=◌
after_fields env id workspace none = give (absent 0)
after_fields env id workspace (some fields) =
    delete_document_vectors env workspace fields.user_id id >>= (λ vectors.
      call env.database (delete_rows id workspace) >>= after_delete env vectors fields)

unfoldable pub delete_document_everywhere : Backends → String → String → Action DeletionOutcome
unfolding call after_fields find_document ◌>>=◌
delete_document_everywhere env id workspace =
    call env.database (query (λ t. find_document id workspace t.documents))
    >>= after_fields env id workspace
