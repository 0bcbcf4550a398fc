-- ===== src/Ingestion/Store/Writes.antt =====
-- The writes of a run, each one transaction: `create_pending_document`, `update_document_status`
-- and `store_processed_document`, with the read `is_active_run`.
use inherent.Prelude.{
  ℕ, ◌+◌, String, Bool, true, false, Option, none, some, List, [], ◌∷◌, map, length, leb, ◌==◌,
  str_eq, if◌then◌else◌,
}
use inherent.Ingestion.Store.Rows.{
  DocumentStatus, processing, processed, UploadOrigin, DocumentRow, ChunkInput, ChunkRow, Document,
  chunk_row, insert_chunks,
}

pub record PendingInput : Type 0 where
  pub origin : UploadOrigin
  pub size_bytes : ℕ
  pub workflow_run_id : String
  pub workflow_start_time : ℕ

pub record StatusInput : Type 0 where
  pub status : DocumentStatus
  pub error_message : Option String
  pub workflow_run_id : Option String

pub record StoreWrite : Type 0 where
  pub origin : UploadOrigin
  pub size_bytes : ℕ
  pub chunks : List ChunkInput
  pub text_length : ℕ
  pub processing_time_ms : ℕ
  pub workflow_run_id : String
  pub tenant_id : Option ℕ
  pub append : Bool
  pub document_type : String
  pub external_id : Option String
  pub metadata : Option String

-- The row that `create_pending_document` inserts if there is none.
unfoldable pub pending_row : PendingInput → DocumentRow
pending_row i = record {
  origin = record i.origin { source_url = none };
  tenant_id = none;
  size_bytes = i.size_bytes;
  status = processing;
  error_message = none;
  chunk_count = 0;
  text_length = 0;
  processing_time_ms = 0;
  metadata = none;
  active_run_id = some i.workflow_run_id;
  active_run_claimed_at = some i.workflow_start_time;
  document_type = "file";
  external_id = none;
}

-- `active_run_claimed_at IS NULL OR active_run_claimed_at <= :start`
unfoldable pub may_claim : Option ℕ → ℕ → Bool
may_claim none start = true
may_claim (some claimed_at) start = leb claimed_at start

-- `active_run_id IS NULL OR active_run_id = :run`
unfoldable pub may_write : Option String → String → Bool
may_write none run = true
may_write (some active) run = str_eq active run

unfoldable pub claim_row : PendingInput → DocumentRow → DocumentRow
unfolding may_claim
claim_row i r =
    if may_claim r.active_run_claimed_at i.workflow_start_time
    then record r {
      active_run_id = some i.workflow_run_id;
      active_run_claimed_at = some i.workflow_start_time;
    }
    else r

unfoldable pub create_pending_document : PendingInput → Document → Bool × Document
unfolding pending_row claim_row
create_pending_document i d = elim d.row [
  | none ↦ (true, record d { row = some (claim_row i (pending_row i)) })
  | some r ↦ (false, record d { row = some (claim_row i r) })
]

unfoldable pub is_active_run : String → Document → Bool
unfolding may_write
is_active_run run d = elim d.row [ none ↦ true | some r ↦ may_write r.active_run_id run ]

-- No run given, no fence.
unfoldable pub may_set_status : Option String → Option String → Bool
unfolding may_write
may_set_status none active = true
may_set_status (some run) active = may_write active run

unfoldable pub update_document_status : StatusInput → Document → Bool × Document
unfolding may_set_status
update_document_status i d = elim d.row [
  | none ↦ (false, d)
  | some r ↦
      if may_set_status i.workflow_run_id r.active_run_id
      then (
        true,
        record d { row = some (record r { status = i.status; error_message = i.error_message }) },
      )
      else (false, d)
]

-- The row of the INSERT; the counters of an append start at 0, but for the size.
unfoldable pub inserted_row : StoreWrite → DocumentRow
inserted_row i = record {
  origin = i.origin;
  tenant_id = i.tenant_id;
  size_bytes = i.size_bytes;
  status = processed;
  error_message = none;
  chunk_count = if i.append then 0 else length i.chunks;
  text_length = if i.append then 0 else i.text_length;
  processing_time_ms = i.processing_time_ms;
  metadata = i.metadata;
  active_run_id = some i.workflow_run_id;
  active_run_claimed_at = none;
  document_type = i.document_type;
  external_id = i.external_id;
}

abbrev pub or_kept : Option String → Option String → Option String
or_kept none old = old
or_kept (some new) old = some new

-- The row after ON CONFLICT DO UPDATE.
unfoldable pub updated_row : StoreWrite → DocumentRow → DocumentRow
updated_row i r = record r {
  status = processed;
  processing_time_ms = i.processing_time_ms;
  tenant_id = i.tenant_id;
  active_run_id = some i.workflow_run_id;
  error_message = none;
  document_type = i.document_type;
  external_id = i.external_id;
  chunk_count = if i.append then r.chunk_count else length i.chunks;
  text_length = if i.append then r.text_length else i.text_length;
  size_bytes = if i.append then r.size_bytes else i.size_bytes;
  metadata = or_kept i.metadata r.metadata;
}

-- The counters of an append grow by what was inserted.
unfoldable pub grown_row : StoreWrite → Bool → ℕ → DocumentRow → DocumentRow
grown_row i was_inserted inserted r =
    if i.append
    then if inserted == 0 then r else record r {
      chunk_count = r.chunk_count + inserted;
      text_length = r.text_length + i.text_length;
      size_bytes = if was_inserted then r.size_bytes else r.size_bytes + i.size_bytes;
    }
    else r

module _ (hash : String → String) where
  -- The chunks: deleted first unless appending, then inserted.
  unfoldable pub replaced_chunks : StoreWrite → List ChunkRow → List ChunkRow × ℕ
  unfolding insert_chunks chunk_row
  replaced_chunks i rows =
      insert_chunks (map (chunk_row hash i.origin i.tenant_id) i.chunks)
        (if i.append then rows else [], 0)

  unfoldable pub write_document : StoreWrite → Bool → DocumentRow → List ChunkRow → Document
  unfolding replaced_chunks grown_row
  write_document i was_inserted r rows =
      let (rows', inserted) = replaced_chunks i rows in
      record { row = some (grown_row i was_inserted inserted r); chunks = rows' }

  -- Whether the row was inserted, or `none` for a fenced write.
  unfoldable pub store_processed_document : StoreWrite → Document → Option Bool × Document
  unfolding inserted_row updated_row write_document may_write
  store_processed_document i d = elim d.row [
    | none ↦ (some true, write_document i true (inserted_row i) [])
    | some r ↦
        if may_write r.active_run_id i.workflow_run_id
        then (some false, write_document i false (updated_row i r) d.chunks)
        else (none, d)
  ]

-- A write of some run, one transaction at a time.
pub data Write : Type 0 where
  claim : PendingInput → Write
  set_status : StatusInput → Write
  store : StoreWrite → Write

module _ (hash : String → String) where
  unfoldable pub apply : Write → Document → Document
  unfolding create_pending_document update_document_status store_processed_document
  apply (claim i) d = (create_pending_document i d).1
  apply (set_status i) d = (update_document_status i d).1
  apply (store i) d = (store_processed_document hash i d).1

  unfoldable pub apply_all : List Write → Document → Document
  unfolding apply
  apply_all [] d = d
  apply_all (w ∷ writes) d = apply_all writes (apply w d)
