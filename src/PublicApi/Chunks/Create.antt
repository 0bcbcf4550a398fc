-- ===== src/PublicApi/Chunks/Create.antt =====
-- A create, call by call: what the stores hold after each.
use inherent.Prelude.{
  ℕ, ◌⊎◌, String, ◌≡◌, refl, ap, inl, inr, Option, none, some, List, arith, Option-cases,
}
use inherent.PublicApi.Chunks.Stores.{
  Failure, timeout, failed, err, UploadFields, DocumentChunk, Stores, find,
  get_document_upload_fields, append_document_chunk, delete_document_chunk, create_vector,
}
use inherent.PublicApi.Chunks.Compensation.{
  refused, unknown, World, Env, pure, mark_failed_backoff, with_retry, perform,
}
use inherent.PublicApi.Chunks.Writes.{
  create_rollback, ChunkWriteOutcome, delete_chunk_with_retry, after_create, write_vector,
  create_chunk, create_chunk_everywhere,
}
use inherent.PublicApi.Chunks.Retries.{Attempt, Ending}
use inherent.PublicApi.Chunks.Sync.{
  row_content, IsSynced, IsSyncedBut, IsSynced-complete, unset, append-IsSyncedBut,
  remove-IsSyncedBut, set_vector-IsSyncedBut,
}
use inherent.PublicApi.Chunks.Outcome.{
  Verdict, in_sync, unanswered, At, Returns, perform-Verdict, retry-At, bind-Verdict,
  rollback-Verdict,
}

-- In sync, with the document's row read.
unfoldable pub Read : Option UploadFields → Stores → Type 0
Read o s = IsSynced s × (s.fields ≡ o)

pub fields-Attempt :
    (s : Stores)
    → IsSynced s
    → Returns Read (get_document_upload_fields s).0 (get_document_upload_fields s).1
unfolding Attempt get_document_upload_fields Read
fields-Attempt s synced = (synced, refl)

-- A row without its vector, or none.
RowOnly : String → Option DocumentChunk → Stores → Type 0
RowOnly content none s = IsSynced s
RowOnly content (some c) s = IsSyncedBut c.chunk_index (some content) none s

append-Attempt :
    (hash : String → String) (content : String) (fields : UploadFields) (s : Stores)
    → Read (some fields) s
    → Returns
        (RowOnly content)
        (append_document_chunk hash content s).0
        (append_document_chunk hash content s).1
unfolding Attempt Read RowOnly append_document_chunk
append-Attempt hash content fields s (synced, e) =
    rw (e, append_document_chunk) (append-IsSyncedBut hash content s synced (λ n. ground arith))

create_vector-Attempt :
    (i : ℕ) (row : Option String) (content content_hash : String) (fields : UploadFields)
    (s : Stores)
    → IsSyncedBut i row none s
    → Returns
        (λ u. IsSyncedBut i row (some content))
        (create_vector i content content_hash fields s).0
        (create_vector i content content_hash fields s).1
unfolding Attempt create_vector
create_vector-Attempt i row content content_hash fields s but =
    rw (unset (s.vectors i) but.at_vector, create_vector)
      (set_vector-IsSyncedBut i row none _ s but)

-- The row at an index may be there or not, and the vector there is as given.
abbrev pub RowOpen : ℕ → Option String → Stores → Type 0
RowOpen i vector s = (row : Option String) × IsSyncedBut i row vector s

pub delete-Attempt :
    (i : ℕ) (vector : Option String) (s : Stores)
    → RowOpen i vector s
    → Returns
        (λ c. IsSyncedBut i none vector)
        (delete_document_chunk i s).0
        (delete_document_chunk i s).1
unfolding Attempt delete_document_chunk
delete-Attempt i vector s (row, but) = elim (Option-cases s.fields) [
  | inl none_known ↦ absurd (but.known none_known)
  | inr (f, found) ↦ elim (Option-cases (find i s.rows)) [
    | inl gone ↦
        rw (found, delete_document_chunk, gone)
          (record {
            at_row = ap row_content gone;
            at_vector = but.at_vector;
            elsewhere = but.elsewhere;
            known = but.known;
          })
    | inr (c, there) ↦
        rw (found, delete_document_chunk, there) (remove-IsSyncedBut i row vector _ s but)
  ]
]

-- A retried delete of the row.
pub retry_delete-Ending :
    (env : Env) (operation : String) (old : List String) (i : ℕ) (vector : Option String)
    (w : World)
    → At (RowOpen i vector) old w
    → Ending operation
        (At (RowOpen i vector) old)
        (λ c. At (IsSyncedBut i none vector) old)
        (with_retry operation 3 mark_failed_backoff
          (perform env.database (delete_document_chunk i))
          w).0
        (with_retry operation 3 mark_failed_backoff
          (perform env.database (delete_document_chunk i))
          w).1
retry_delete-Ending env operation old i vector w at =
    retry-At env.database (delete_document_chunk i) (RowOpen i vector) (IsSyncedBut i none vector)
      old (delete-Attempt i vector) (λ s but. (none, but)) operation 2 mark_failed_backoff w at

-- What a create can leave behind without an alarm, by what its failing call did. The row of the
-- database, whose INSERT has taken effect and raised; the row, where the vector store has timed out
-- without effect; or the vector, which was written by a call that has raised otherwise.
pub data CreateLeft (env : Env) (content : String) : Failure → Stores → Type 0 where
  row_unanswered :
      (n : ℕ) (e : Failure) (i : ℕ) (s : Stores)
      → env.database n ≡ unknown e
      → IsSyncedBut i (some content) none s
      → CreateLeft env content e s
  vector_timed_out :
      (n i : ℕ) (s : Stores)
      → env.vector_store n ≡ refused timeout
      → IsSyncedBut i (some content) none s
      → CreateLeft env content timeout s
  vector_unanswered :
      (n i : ℕ) (s : Stores)
      → env.vector_store n ≡ unknown failed
      → IsSyncedBut i none (some content) s
      → CreateLeft env content failed s

-- A row that was appended, in sync with its vector or not.
Appended : String → Stores → Type 0
Appended content s = IsSynced s ⊎ ((i : ℕ) × IsSyncedBut i (some content) none s)

RowOnly-Appended :
    (content : String) (o : Option DocumentChunk) (s : Stores)
    → RowOnly content o s
    → Appended content s
unfolding RowOnly Appended
RowOnly-Appended content none s h = inl h
RowOnly-Appended content (some c) s h = inr (c.chunk_index, h)

module _ (hash : String → String) (env : Env) (old : List String) where
  rolled_back-Verdict :
      (c : DocumentChunk) (content : String) (vector : Option String) (w : World)
      → At (IsSyncedBut c.chunk_index (some content) vector) old w
      → ((w : World)
          → At (IsSyncedBut c.chunk_index none vector) old w
          → Verdict {A = ChunkWriteOutcome} create_rollback old
              (CreateLeft env content)
              (err failed)
              w)
      → Verdict create_rollback old
          (CreateLeft env content)
          (after_create hash env c (err failed) w).0
          (after_create hash env c (err failed) w).1
  unfolding after_create delete_chunk_with_retry
  rolled_back-Verdict c content vector w at go =
      rollback-Verdict create_rollback old (CreateLeft env content) (RowOpen c.chunk_index vector)
        (IsSyncedBut c.chunk_index none vector) _ _ failed
        (retry_delete-Ending env create_rollback old c.chunk_index vector w
          (record { holds = (some content, at.holds); quiet = at.quiet }))
        go

  refused-Verdict :
      (c : DocumentChunk) (content : String) (n : ℕ) (e : Failure) (w : World)
      → env.vector_store n ≡ refused e
      → At (IsSyncedBut c.chunk_index (some content) none) old w
      → Verdict create_rollback old
          (CreateLeft env content)
          (after_create hash env c (err e) w).0
          (after_create hash env c (err e) w).1
  refused-Verdict c content n timeout w h at =
      unfold after_create in
      unanswered timeout w at.quiet (vector_timed_out n c.chunk_index w.stores h at.holds)
  refused-Verdict c content n failed w h at =
      rolled_back-Verdict c content none w at
        (λ w at. in_sync w (IsSynced-complete c.chunk_index none w.stores at.holds))

  unknown-Verdict :
      (c : DocumentChunk) (content : String) (n : ℕ) (e : Failure) (w : World)
      → env.vector_store n ≡ unknown e
      → At (IsSyncedBut c.chunk_index (some content) (some content)) old w
      → Verdict create_rollback old
          (CreateLeft env content)
          (after_create hash env c (err e) w).0
          (after_create hash env c (err e) w).1
  unknown-Verdict c content n timeout w h at =
      unfold after_create in
      in_sync w (IsSynced-complete c.chunk_index (some content) w.stores at.holds)
  unknown-Verdict c content n failed w h at =
      rolled_back-Verdict c content (some content) w at (λ w at.
        unanswered failed w at.quiet (vector_unanswered n c.chunk_index w.stores h at.holds))

  write_vector-Verdict :
      (fields : UploadFields) (content : String) (o : Option DocumentChunk) (w : World)
      → At (RowOnly content o) old w
      → Verdict create_rollback old
          (CreateLeft env content)
          (write_vector hash env fields content o w).0
          (write_vector hash env fields content o w).1
  unfolding write_vector RowOnly
  write_vector-Verdict fields content none w at = in_sync w at.holds
  write_vector-Verdict fields content (some c) w at =
      perform-Verdict env.vector_store _ _ _
        (IsSyncedBut c.chunk_index (some content) (some content)) old
        (create_vector-Attempt c.chunk_index (some content) content _ fields) (λ u s h. h)
        create_rollback (CreateLeft env content) (after_create hash env c) w at
        (λ u w at.
          unfold after_create in
          in_sync w (IsSynced-complete c.chunk_index (some content) w.stores at.holds))
        (refused-Verdict c content) (unknown-Verdict c content)

  Appended-Verdict :
      (content : String) (n : ℕ) (e : Failure) (w : World)
      → env.database n ≡ unknown e
      → w.exhausted ≡ old
      → Appended content w.stores
      → Verdict {A = ChunkWriteOutcome} create_rollback old (CreateLeft env content) (err e) w
  unfolding Appended
  Appended-Verdict content n e w h quiet (inl synced) = in_sync w synced
  Appended-Verdict content n e w h quiet (inr (i, but)) =
      unanswered e w quiet (row_unanswered n e i w.stores h but)

  create_chunk-Verdict :
      (content : String) (o : Option UploadFields) (w : World)
      → At (Read o) old w
      → Verdict create_rollback old
          (CreateLeft env content)
          (create_chunk hash env content o w).0
          (create_chunk hash env content o w).1
  unfolding create_chunk Read
  create_chunk-Verdict content none w at = unfold pure in in_sync w at.holds.0
  create_chunk-Verdict content (some fields) w at =
      bind-Verdict env.database _ (Read (some fields)) (RowOnly content) (Appended content) old
        (append-Attempt hash content fields) (RowOnly-Appended content) create_rollback
        (CreateLeft env content) (write_vector hash env fields content) w at (λ s read. read.0)
        (write_vector-Verdict fields content)
        (λ n e w h at. Appended-Verdict content n e w h at.quiet at.holds)

  -- From stores in sync, whatever the fates of its calls, a create that returns leaves them in sync.
  -- One that raises leaves them in sync too; or its rollback has bumped the exhaustion metric; or
  -- it has left one index apart without an alarm, and a call is to blame: its row without a vector,
  -- where the append has taken effect and raised, or where the vector store has timed out without
  -- effect; or its vector without a row, where the vector store has taken it and raised something
  -- else than a timeout.
  pub create_chunk_everywhere-Verdict :
      (content : String) (w : World)
      → IsSynced w.stores
      → w.exhausted ≡ old
      → Verdict create_rollback old
          (CreateLeft env content)
          (create_chunk_everywhere hash env content w).0
          (create_chunk_everywhere hash env content w).1
  unfolding create_chunk_everywhere Read
  create_chunk_everywhere-Verdict content w synced quiet =
      bind-Verdict env.database _ IsSynced Read IsSynced old fields-Attempt (λ o s read. read.0)
        create_rollback (CreateLeft env content) (create_chunk hash env content) w
        (record { holds = synced; quiet = quiet }) (λ s h. h) (create_chunk-Verdict content)
        (λ n e w h at. in_sync w at.holds)
