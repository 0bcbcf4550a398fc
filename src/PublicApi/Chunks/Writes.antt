-- ===== src/PublicApi/Chunks/Writes.antt =====
-- `create_chunk_everywhere`, `update_chunk_everywhere` and `delete_chunk_everywhere`.
use inherent.Prelude.{ℕ, String, Bool, true, false, Option, none, some}
use inherent.PublicApi.Chunks.Stores.{
  timeout, failed, Result, ok, err, UploadFields, DocumentChunk, text_or,
  get_document_upload_fields, get_document_chunk_by_index, append_document_chunk,
  update_document_chunk, delete_document_chunk, create_vector, update_vector, delete_chunk_vector,
}
use inherent.PublicApi.Chunks.Compensation.{
  World, Step, Env, perform, with_retry, landed, pure, ◌>>=◌, mark_failed_attempts,
  mark_failed_backoff,
}

-- `ChunkWriteOutcome`; `found=False` has no chunk.
pub data ChunkWriteOutcome : Type 0 where
  not_found : ChunkWriteOutcome
  written : DocumentChunk → ChunkWriteOutcome

-- `ChunkDeleteOutcome`
pub record ChunkDeleteOutcome : Type 0 where
  pub found : Bool

abbrev pub create_rollback : String
create_rollback = "chunk_create_vector_rollback"

abbrev pub update_rollback : String
update_rollback = "chunk_update_vector_rollback"

abbrev pub delete_row : String
delete_row = "chunk_delete_pg_row"

module _ (hash : String → String) (env : Env) where
  -- `delete_chunk_with_retry`
  unfoldable pub delete_chunk_with_retry : ℕ → String → World → Result Bool × World
  delete_chunk_with_retry i operation w = landed (
      with_retry operation mark_failed_attempts mark_failed_backoff
        (perform env.database (delete_document_chunk i)) w)

  -- `delete_chunk_row_with_retry`
  unfoldable pub delete_chunk_row_with_retry : ℕ → String → Step (Option DocumentChunk)
  delete_chunk_row_with_retry i operation =
      with_retry operation mark_failed_attempts mark_failed_backoff
        (perform env.database (delete_document_chunk i))

  -- `restore_chunk_content_with_retry`
  unfoldable pub restore_chunk_content_with_retry :
      ℕ → String → Option String → String → World → Result Bool × World
  restore_chunk_content_with_retry i content only_if operation w = landed (
      with_retry operation mark_failed_attempts mark_failed_backoff
        (perform env.database (update_document_chunk hash i content only_if)) w)

  -- After the vector write of a create: a timeout leaves the row, another failure deletes it again,
  -- and both are raised again.
  unfoldable pub after_create : DocumentChunk → Result (Unit {0}) → Step ChunkWriteOutcome
  after_create c (ok u) w = (ok (written c), w)
  after_create c (err timeout) w = (err timeout, w)
  after_create c (err failed) w =
      (err failed, (delete_chunk_with_retry c.chunk_index create_rollback w).1)

  unfoldable pub write_vector :
      UploadFields → String → Option DocumentChunk → Step ChunkWriteOutcome
  write_vector fields content none w = (ok not_found, w)
  write_vector fields content (some c) w =
      let (r, w') =
        perform env.vector_store
          (create_vector c.chunk_index content (text_or c.content_hash) fields) w in
      after_create c r w'

  unfoldable pub create_chunk : String → Option UploadFields → Step ChunkWriteOutcome
  create_chunk content none = pure not_found
  create_chunk content (some fields) =
      perform env.database (append_document_chunk hash content) >>= write_vector fields content

  unfoldable pub create_chunk_everywhere : String → Step ChunkWriteOutcome
  create_chunk_everywhere content =
      perform env.database get_document_upload_fields >>= create_chunk content

  -- After the vector write of an update: any failure restores the content, unless another writer
  -- has changed it since, and is raised again.
  unfoldable pub after_update :
      ℕ → DocumentChunk → DocumentChunk → Result (Unit {0}) → Step ChunkWriteOutcome
  after_update i prior c (ok u) w = (ok (written c), w)
  after_update i prior c (err e) w = (
    err e,
    (restore_chunk_content_with_retry i prior.content (some (text_or c.content_hash))
        update_rollback w).1,
  )

  unfoldable pub rewrite_vector :
      ℕ → String → DocumentChunk → Option DocumentChunk → Step ChunkWriteOutcome
  rewrite_vector i content prior none w = (ok not_found, w)
  rewrite_vector i content prior (some c) w =
      let (r, w') = perform env.vector_store (update_vector i content (text_or c.content_hash)) w in
      after_update i prior c r w'

  unfoldable pub rewrite_row : ℕ → String → Option DocumentChunk → Step ChunkWriteOutcome
  rewrite_row i content none = pure not_found
  rewrite_row i content (some prior) =
      perform env.database (update_document_chunk hash i content prior.content_hash)
      >>= rewrite_vector i content prior

  unfoldable pub update_chunk : ℕ → String → Option UploadFields → Step ChunkWriteOutcome
  update_chunk i content none = pure not_found
  update_chunk i content (some fields) =
      perform env.database (get_document_chunk_by_index i) >>= rewrite_row i content

  unfoldable pub update_chunk_everywhere : ℕ → String → Step ChunkWriteOutcome
  update_chunk_everywhere i content =
      perform env.database get_document_upload_fields >>= update_chunk i content

  unfoldable pub deleted_outcome : Option DocumentChunk → Step ChunkDeleteOutcome
  deleted_outcome none = pure (record { found = false })
  deleted_outcome (some c) = pure (record { found = true })

  unfoldable pub delete_existing : ℕ → Option DocumentChunk → Step ChunkDeleteOutcome
  delete_existing i none = pure (record { found = false })
  delete_existing i (some c) =
      perform env.vector_store (delete_chunk_vector i)
      >>= (λ u. delete_chunk_row_with_retry i delete_row >>= deleted_outcome)

  unfoldable pub delete_chunk : ℕ → Option UploadFields → Step ChunkDeleteOutcome
  delete_chunk i none = pure (record { found = false })
  delete_chunk i (some fields) =
      perform env.database (get_document_chunk_by_index i) >>= delete_existing i

  unfoldable pub delete_chunk_everywhere : ℕ → Step ChunkDeleteOutcome
  delete_chunk_everywhere i = perform env.database get_document_upload_fields >>= delete_chunk i
