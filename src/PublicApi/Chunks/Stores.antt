-- ===== src/PublicApi/Chunks/Stores.antt =====
-- One document in both stores, and the single-row operations of src/services/database.py and
-- src/services/search.py that the chunk writes call. The rows' token counts, provenance and
-- timestamps are left out, and the counter of the workspace; the hash is a parameter.
use inherent.Prelude.{
  ℕ, ◌+◌, ◌-◌, max, String, Bool, true, false, Option, none, some, List, [], ◌∷◌, ◌==◌, str_eq,
  if◌then◌else◌,
}

-- What a raising call raises: `httpx.TimeoutException`, or anything else.
pub data Failure : Type 0 where
  timeout : Failure
  failed : Failure

pub data Result (A : Type 0) : Type 0 where
  ok : A → Result A
  err : Failure → Result A

-- The part of a `processed_documents` row that `get_document_upload_fields` hands to the writes.
pub record UploadFields : Type 0 where
  pub user_id : String
  pub filename : Option String
  pub original_filename : Option String
  pub content_type : Option String
  pub storage_path : Option String
  pub storage_url : Option String

-- A row of `document_chunks`.
pub record DocumentChunk : Type 0 where
  pub chunk_index : ℕ
  pub content : String
  pub content_hash : Option String

-- An object of the vector store, with the text that its vector was computed from.
pub record VectorObject : Type 0 where
  pub content : String
  pub content_hash : String
  pub original_filename : String
  pub content_type : String
  pub source_uri : Option String

-- The document's row, its chunks, its counter, and its objects by their chunk's index.
pub record Stores : Type 0 where
  pub fields : Option UploadFields
  pub rows : List DocumentChunk
  pub chunk_count : ℕ
  pub vectors : ℕ → Option VectorObject

unfoldable pub find : ℕ → List DocumentChunk → Option DocumentChunk
find i [] = none
find i (c ∷ rows) = if c.chunk_index == i then some c else find i rows

-- `COALESCE(MAX(chunk_index), -1) + 1`
unfoldable pub next_index : List DocumentChunk → ℕ
next_index [] = 0
next_index (c ∷ rows) = max (c.chunk_index + 1) (next_index rows)

unfoldable pub remove : ℕ → List DocumentChunk → List DocumentChunk
remove i [] = []
remove i (c ∷ rows) = if c.chunk_index == i then remove i rows else c ∷ remove i rows

unfoldable pub replace : DocumentChunk → List DocumentChunk → List DocumentChunk
replace new [] = []
replace new (c ∷ rows) =
    if c.chunk_index == new.chunk_index then new ∷ replace new rows else c ∷ replace new rows

unfoldable pub set_vector :
    ℕ → Option VectorObject → (ℕ → Option VectorObject) → ℕ → Option VectorObject
set_vector i o vectors j = if i == j then o else vectors j

-- Does the row pass `:only_if IS NULL OR content_hash = :only_if`? A null hash equals nothing.
unfoldable pub hash_matches : Option String → Option String → Bool
hash_matches none stored = true
hash_matches (some wanted) none = false
hash_matches (some wanted) (some stored) = str_eq stored wanted

abbrev pub text_or : Option String → String
text_or none = ""
text_or (some s) = s

-- `a or b` on optional texts: an empty text is falsy.
abbrev pub or_text : Option String → Option String → Option String
or_text none b = b
or_text (some a) b = if str_eq a "" then b else some a

-- An operation on the stores, which may raise.
abbrev pub Operation : Type 0 → Type 0
Operation A = Stores → Result A × Stores

unfoldable pub get_document_upload_fields : Operation (Option UploadFields)
get_document_upload_fields s = (ok s.fields, s)

unfoldable pub get_document_chunk_by_index : ℕ → Operation (Option DocumentChunk)
get_document_chunk_by_index i s = (ok (elim s.fields [ none ↦ none | some f ↦ find i s.rows ]), s)

unfoldable pub delete_document_chunk : ℕ → Operation (Option DocumentChunk)
delete_document_chunk i s = elim s.fields [
  | none ↦ (ok none, s)
  | some f ↦ elim (find i s.rows) [
    | none ↦ (ok none, s)
    | some c ↦ (ok (some c), record s { rows = remove i s.rows; chunk_count = s.chunk_count - 1 })
  ]
]

-- A delete of an absent object is already clean.
unfoldable pub delete_chunk_vector : ℕ → Operation (Unit {0})
delete_chunk_vector i s = (ok tt, record s { vectors = set_vector i none s.vectors })

module _ (hash : String → String) where
  abbrev pub chunk_of : ℕ → String → DocumentChunk
  chunk_of i content = record {
    chunk_index = i;
    content = content;
    content_hash = some (hash content);
  }

  unfoldable pub append_document_chunk : String → Operation (Option DocumentChunk)
  append_document_chunk content s = elim s.fields [
    | none ↦ (ok none, s)
    | some f ↦
        let new = chunk_of (next_index s.rows) content in
        (ok (some new), record s { rows = new ∷ s.rows; chunk_count = s.chunk_count + 1 })
  ]

  unfoldable pub update_document_chunk :
      ℕ → String → Option String → Operation (Option DocumentChunk)
  update_document_chunk i content only_if s = elim s.fields [
    | none ↦ (ok none, s)
    | some f ↦ elim (find i s.rows) [
      | none ↦ (ok none, s)
      | some c ↦
          let new = chunk_of i content in
          if hash_matches only_if c.content_hash
          then (ok (some new), record s { rows = replace new s.rows })
          else (ok none, s)
    ]
  ]

-- `upsert_chunk_vector` with `create=True`: a POST, which the store refuses for an id that it has.
unfoldable pub create_vector : ℕ → String → String → UploadFields → Operation (Unit {0})
create_vector i content content_hash fields s = elim (s.vectors i) [
  | some o ↦ (err failed, s)
  | none ↦ (
    ok tt,
    record s {
      vectors =
          set_vector i
            (some (record {
              content = content;
              content_hash = content_hash;
              original_filename = text_or (or_text fields.original_filename fields.filename);
              content_type = text_or fields.content_type;
              source_uri = or_text fields.storage_path fields.storage_url;
            }))
            s.vectors;
    },
  )
]

-- `upsert_chunk_vector` with `create=False`: a PATCH, which the store refuses for an unknown id.
unfoldable pub update_vector : ℕ → String → String → Operation (Unit {0})
update_vector i content content_hash s = elim (s.vectors i) [
  | none ↦ (err failed, s)
  | some o ↦ (
    ok tt,
    record s {
      vectors =
          set_vector i (some (record o { content = content; content_hash = content_hash }))
            s.vectors;
    },
  )
]
