-- ===== src/PublicApi/Documents/Rows.antt =====
-- The tables of src/services/database.py that an upload and a deletion touch, and its statements
-- on them. Timestamps and the metadata column are left out: the rows stand in the order of their
-- creation, the newest first, which is what `ORDER BY created_at DESC` reads.
use inherent.Prelude.{
  ℕ, ◌-◌, String, Bool, ◌&&◌, Option, none, some, List, [], ◌∷◌, str_eq, if◌then◌else◌,
}

-- A row of `processed_documents`.
pub record DocumentRow : Type 0 where
  pub document_id : String
  pub workspace_id : String
  pub user_id : String
  pub uploaded_by : Option String
  pub filename : String
  pub original_filename : String
  pub content_type : String
  pub size_bytes : ℕ
  pub storage_backend : String
  pub storage_path : String
  pub storage_url : Option String
  pub content_hash : Option String
  pub status : String
  pub error_message : Option String
  pub chunk_count : ℕ

-- A row of `document_chunks`, by its key.
pub record ChunkKey : Type 0 where
  pub document_id : String
  pub chunk_index : ℕ

-- A row of `workspace_metadata`.
pub record WorkspaceCounters : Type 0 where
  pub document_count : ℕ
  pub chunk_count : ℕ
  pub total_size_bytes : ℕ

pub record Tables : Type 0 where
  pub documents : List DocumentRow
  pub chunks : List ChunkKey
  pub counters : String → WorkspaceCounters

-- `WHERE document_id = :document_id AND workspace_id = :workspace_id`
abbrev pub has_key : String → String → DocumentRow → Bool
has_key id workspace d = str_eq d.document_id id && str_eq d.workspace_id workspace

-- `get_document` and `get_document_upload_fields`
unfoldable pub find_document : String → String → List DocumentRow → Option DocumentRow
find_document id workspace [] = none
find_document id workspace (d ∷ rows) =
    if has_key id workspace d then some d else find_document id workspace rows

-- A null hash equals nothing.
unfoldable pub has_hash : String → DocumentRow → Bool
has_hash hash d = elim d.content_hash [ none ↦ Bool.false | some h ↦ str_eq h hash ]

unfoldable pub document_id_by_content_hash : String → String → List DocumentRow → Option String
unfolding has_hash
document_id_by_content_hash workspace hash [] = none
document_id_by_content_hash workspace hash (d ∷ rows) =
    if str_eq d.workspace_id workspace && has_hash hash d
    then some d.document_id
    else document_id_by_content_hash workspace hash rows

unfoldable pub document_id_by_filename : String → String → List DocumentRow → Option String
document_id_by_filename workspace name [] = none
document_id_by_filename workspace name (d ∷ rows) =
    if str_eq d.workspace_id workspace && str_eq d.original_filename name
    then some d.document_id
    else document_id_by_filename workspace name rows

-- `COALESCE(new, old)`
abbrev pub coalesce : Option String → Option String → Option String
coalesce none old = old
coalesce (some s) old = some s

-- `ON CONFLICT (document_id) DO UPDATE`: every column is the new row's, but for the two that a null
-- keeps.
abbrev pub reset_row : DocumentRow → DocumentRow → DocumentRow
reset_row new old = record new {
  uploaded_by = coalesce new.uploaded_by old.uploaded_by;
  content_hash = coalesce new.content_hash old.content_hash;
}

unfoldable pub has_document : String → List DocumentRow → Bool
has_document id [] = Bool.false
has_document id (d ∷ rows) = if str_eq d.document_id id then Bool.true else has_document id rows

unfoldable pub reset_document : DocumentRow → List DocumentRow → List DocumentRow
reset_document new [] = []
reset_document new (d ∷ rows) =
    if str_eq d.document_id new.document_id
    then reset_row new d ∷ rows
    else d ∷ reset_document new rows

-- `create_or_reset_pending_document`, with the row that its INSERT names
unfoldable pub create_or_reset_pending_document : DocumentRow → Tables → Tables
create_or_reset_pending_document given t =
    let new = record given { status = "pending"; error_message = none; chunk_count = 0 } in
    record t {
      documents =
          if has_document new.document_id t.documents
          then reset_document new t.documents
          else new ∷ t.documents;
    }

unfoldable pub fail_document : String → String → String → List DocumentRow → List DocumentRow
fail_document id workspace message [] = []
fail_document id workspace message (d ∷ rows) =
    (if has_key id workspace d
      then record d { status = "failed"; error_message = some message }
      else d)
    ∷ fail_document id workspace message rows

unfoldable pub mark_document_failed : String → String → String → Tables → Tables
mark_document_failed id workspace message t = record t {
  documents = fail_document id workspace message t.documents;
}

unfoldable pub drop_document : String → String → List DocumentRow → List DocumentRow
drop_document id workspace [] = []
drop_document id workspace (d ∷ rows) =
    let rest = drop_document id workspace rows in if has_key id workspace d then rest else d ∷ rest

unfoldable pub drop_chunks : String → List ChunkKey → List ChunkKey
drop_chunks id [] = []
drop_chunks id (c ∷ rows) =
    let rest = drop_chunks id rows in if str_eq c.document_id id then rest else c ∷ rest

-- `GREATEST(document_count - 1, 0)` and its like, for the one workspace
abbrev pub uncount :
    String → DocumentRow → (String → WorkspaceCounters) → String → WorkspaceCounters
uncount workspace d counters other =
    if str_eq other workspace
    then record {
      document_count = (counters other).document_count - 1;
      chunk_count = (counters other).chunk_count - d.chunk_count;
      total_size_bytes = (counters other).total_size_bytes - d.size_bytes;
    }
    else counters other

-- The statements of the transaction, for the row that it read, if there is one.
unfoldable pub delete_read :
    String → String → Tables → Option DocumentRow → Option DocumentRow × Tables
delete_read id workspace t none = (none, t)
delete_read id workspace t (some d) = (
  some d,
  record {
    documents = drop_document id workspace t.documents;
    chunks = drop_chunks id t.chunks;
    counters = uncount workspace d t.counters;
  },
)

-- `delete_document`: one transaction, with the row that it read
unfoldable pub delete_document : String → String → Tables → Option DocumentRow × Tables
unfolding delete_read
delete_document id workspace t = delete_read id workspace t (find_document id workspace t.documents)
