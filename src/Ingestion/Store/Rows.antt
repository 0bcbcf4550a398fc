-- ===== src/Ingestion/Store/Rows.antt =====
-- One document's row of `processed_documents` and its rows of `document_chunks`. The times of
-- creation, update, processing and ingestion are left out.
use inherent.Prelude.{
  ℕ, suc, String, Bool, false, ◌||◌, Option, none, some, List, [], ◌∷◌, ◌++◌, ◌==◌, str_eq,
  if◌then◌else◌,
}
use inherent.Prelude.Text.{codes}
use inherent.Ingestion.Chunking.Tokens.{estimate_tokens}

pub data DocumentStatus : Type 0 where
  pending : DocumentStatus
  processing : DocumentStatus
  processed : DocumentStatus
  failed : DocumentStatus
  deleted : DocumentStatus

-- The columns that only an INSERT sets.
pub record UploadOrigin : Type 0 where
  pub workspace_id : String
  pub user_id : String
  pub uploaded_by : Option String
  pub filename : String
  pub original_filename : String
  pub content_type : String
  pub storage_backend : String
  pub storage_path : String
  pub storage_bucket : Option String
  pub storage_url : Option String
  pub source_url : Option String

pub record DocumentRow : Type 0 where
  pub origin : UploadOrigin
  pub tenant_id : Option ℕ
  pub size_bytes : ℕ
  pub status : DocumentStatus
  pub error_message : Option String
  pub chunk_count : ℕ
  pub text_length : ℕ
  pub processing_time_ms : ℕ
  pub metadata : Option String
  pub active_run_id : Option String
  pub active_run_claimed_at : Option ℕ
  pub document_type : String
  pub external_id : Option String

-- The part of a `DocumentChunk` that is stored.
pub record ChunkInput : Type 0 where
  pub chunk_index : ℕ
  pub content : String
  pub token_count : Option ℕ
  pub start_char : ℕ
  pub end_char : ℕ
  pub metadata : Option String

pub record ChunkRow : Type 0 where
  pub workspace_id : String
  pub tenant_id : Option ℕ
  pub chunk_index : ℕ
  pub content : String
  pub token_count : ℕ
  pub start_char : ℕ
  pub end_char : ℕ
  pub metadata : Option String
  pub content_hash : String
  pub source_uri : Option String
  pub source_url : Option String

-- The chunks of no row are gone with it.
pub record Document : Type 0 where
  pub row : Option DocumentRow
  pub chunks : List ChunkRow

abbrev pub absent_document : Document
absent_document = record { row = none; chunks = [] }

-- `a or b` of a text and an optional one
unfoldable pub source_uri_of : UploadOrigin → Option String
source_uri_of o = if str_eq o.storage_path "" then o.storage_url else some o.storage_path

unfoldable pub tokens_of : ChunkInput → ℕ
tokens_of c = elim c.token_count [ none ↦ estimate_tokens (codes c.content) | some n ↦ n ]

unfoldable pub has_index : ℕ → List ChunkRow → Bool
has_index i [] = false
has_index i (c ∷ rows) = c.chunk_index == i || has_index i rows

-- One row of `INSERT ... ON CONFLICT DO NOTHING` on the document and the index, and the count of
-- inserted rows.
unfoldable pub insert_chunk : ChunkRow → List ChunkRow × ℕ → List ChunkRow × ℕ
insert_chunk c (rows, inserted) =
    if has_index c.chunk_index rows then (rows, inserted) else (rows ++ (c ∷ []), suc inserted)

unfoldable pub insert_chunks : List ChunkRow → List ChunkRow × ℕ → List ChunkRow × ℕ
unfolding insert_chunk has_index
insert_chunks [] acc = acc
insert_chunks (c ∷ chunks) acc = insert_chunks chunks (insert_chunk c acc)

module _ (hash : String → String) where
  unfoldable pub chunk_row : UploadOrigin → Option ℕ → ChunkInput → ChunkRow
  unfolding source_uri_of tokens_of
  chunk_row o tenant_id c = record {
    workspace_id = o.workspace_id;
    tenant_id = tenant_id;
    chunk_index = c.chunk_index;
    content = c.content;
    token_count = tokens_of c;
    start_char = c.start_char;
    end_char = c.end_char;
    metadata = c.metadata;
    content_hash = hash c.content;
    source_uri = source_uri_of o;
    source_url = o.source_url;
  }
