-- ===== src/PublicApi/Context/Expand.antt =====
-- `_assign_windows` and `ContextWindowBuilder.expand`, on a database that may raise, and the query
-- `get_context_chunks` of src/services/database.py, on tables.
use inherent.Prelude.{
  ℕ, ◌+◌, String, Bool, false, ◌&&◌, ◌||◌, Option, none, some, List, [], ◌∷◌, map, ltb, leb, ◌==◌,
  str_eq, if◌then◌else◌,
}
use inherent.PublicApi.Context.{Span, SearchResult, compute_ranges}
use inherent.PublicApi.Context.Cover.{in_ranges}

-- A row of `document_chunks`.
pub record StoredChunk : Type 0 where
  pub id : String
  pub workspace_id : String
  pub document_id : String
  pub chunk_index : ℕ
  pub content : String
  pub token_count : Option ℕ

-- A row of `processed_documents`, as far as the query looks at it.
pub record OwnedDocument : Type 0 where
  pub document_id : String
  pub workspace_id : String
  pub user_id : String

pub record ContextChunk : Type 0 where
  pub chunk_id : String
  pub chunk_index : ℕ
  pub content : String
  pub token_count : ℕ

-- A result with its contexts, which are `None` at first.
pub record Match : Type 0 where
  pub result : SearchResult
  pub context_before : Option (List ContextChunk)
  pub context_after : Option (List ContextChunk)

unfoldable pub keep {ℓ} : {A : Type ℓ} → (A → Bool) → List A → List A
keep p [] = []
keep p (x ∷ xs) = let rest = keep p xs in if p x then x ∷ rest else rest

-- Insertion into a list that is sorted by `first`.
unfoldable pub insert_by :
    (StoredChunk → StoredChunk → Bool) → StoredChunk → List StoredChunk → List StoredChunk
insert_by first r [] = r ∷ []
insert_by first r (s ∷ rows) =
    let rest = insert_by first r rows in if first r s then r ∷ s ∷ rows else s ∷ rest

unfoldable pub sort_by : (StoredChunk → StoredChunk → Bool) → List StoredChunk → List StoredChunk
unfolding insert_by
sort_by first [] = []
sort_by first (r ∷ rows) = insert_by first r (sort_by first rows)

-- `key=lambda r: r.chunk_index`
unfoldable pub by_index : StoredChunk → StoredChunk → Bool
by_index r s = leb r.chunk_index s.chunk_index

-- What `by_doc` holds for a document, once it is sorted.
unfoldable pub document_rows : String → List StoredChunk → List StoredChunk
unfolding keep sort_by by_index
document_rows doc rows = sort_by by_index (keep (λ r. str_eq r.document_id doc) rows)

unfoldable pub tokens_or_zero : Option ℕ → ℕ
tokens_or_zero none = 0
tokens_or_zero (some n) = n

unfoldable pub context_chunk : StoredChunk → ContextChunk
unfolding tokens_or_zero
context_chunk r = record {
  chunk_id = r.id;
  chunk_index = r.chunk_index;
  content = r.content;
  token_count = tokens_or_zero r.token_count;
}

-- `idx - k <= r.chunk_index < idx`, where `idx - k` may be negative
unfoldable pub is_before : ℕ → ℕ → StoredChunk → Bool
is_before k idx r = leb idx (r.chunk_index + k) && ltb r.chunk_index idx

-- `idx < r.chunk_index <= idx + k`
unfoldable pub is_after : ℕ → ℕ → StoredChunk → Bool
is_after k idx r = ltb idx r.chunk_index && leb r.chunk_index (idx + k)

-- The body of the loop over the matches; a match with no index is skipped.
unfoldable pub assign_at : Option ℕ → List StoredChunk → ℕ → Match → Match
unfolding document_rows context_chunk is_before is_after
assign_at none rows k m = m
assign_at (some idx) rows k m =
    let doc_rows = document_rows m.result.document_id rows in
    record m {
      context_before = some (map context_chunk (keep (is_before k idx) doc_rows));
      context_after = some (map context_chunk (keep (is_after k idx) doc_rows));
    }

unfoldable pub assign_window : List StoredChunk → ℕ → Match → Match
unfolding assign_at
assign_window rows k m = assign_at m.result.match_chunk_index rows k m

unfoldable pub assign_windows : List Match → List StoredChunk → ℕ → List Match
unfolding assign_window
assign_windows matches rows k = map (assign_window rows k) matches

-- For k = 0
unfoldable pub without_context : Match → Match
without_context m = record m { context_before = some []; context_after = some [] }

unfoldable pub results_of : List Match → List SearchResult
results_of [] = []
results_of (m ∷ matches) = m.result ∷ results_of matches

-- `_ContextCapableDatabase`; `none` is an exception.
abbrev pub ContextDatabase : Type 0
ContextDatabase = String → String → List (String × Span) → Option (List StoredChunk)

unfoldable pub expand_ranges :
    ContextDatabase → List Match → String → String → ℕ → List (String × Span) → List Match
unfolding assign_windows
expand_ranges database matches workspace user k [] = matches
expand_ranges database matches workspace user k (r ∷ ranges) =
    elim (database workspace user (r ∷ ranges)) [
      | none ↦ matches
      | some rows ↦ assign_windows matches rows k
    ]

-- With no matches there is nothing to expand, and none is what comes back.
unfoldable pub expand : ContextDatabase → List Match → String → String → ℕ → List Match
unfolding without_context results_of expand_ranges
expand database matches workspace user k =
    if k == 0
    then map without_context matches
    else expand_ranges database matches workspace user k (compute_ranges (results_of matches) k)

-- The two tables; the order of `ORDER BY document_id, chunk_index` has the collation for the first.
module _ (collate : StoredChunk → StoredChunk → Bool) (chunks : List StoredChunk)
    (documents : List OwnedDocument) where
  -- The join with a document of the user; a document has one row.
  unfoldable pub is_owned : String → StoredChunk → List OwnedDocument → Bool
  is_owned user r [] = false
  is_owned user r (d ∷ docs) =
      (str_eq d.document_id r.document_id
        && (str_eq d.workspace_id r.workspace_id && str_eq d.user_id user))
      || is_owned user r docs

  -- Does a row pass the query but for its ranges?
  unfoldable pub is_visible : String → String → StoredChunk → Bool
  unfolding is_owned
  is_visible workspace user r = str_eq r.workspace_id workspace && is_owned user r documents

  unfoldable pub get_context_chunks : ContextDatabase
  unfolding is_visible keep sort_by
  get_context_chunks workspace user ranges = some (
      sort_by collate (
        keep (λ r. is_visible workspace user r && in_ranges r.document_id r.chunk_index ranges)
          chunks))
