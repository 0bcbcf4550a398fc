-- ===== src/Ingestion/Store/Tests.antt =====
-- Sample writes of the runs of one document, and the theorems there.
use inherent.Prelude.{
  ℕ, String, ◌≡◌, refl, Bool, true, false, none, some, List, [], ◌∷◌, str_eq, arith, if◌then◌else◌,
  length, map,
}
use inherent.Ingestion.Store.Rows.{
  UploadOrigin, DocumentRow, ChunkInput, Document, failed, absent_document, chunk_row, has_index,
  insert_chunks,
}
use inherent.Ingestion.Store.Writes.{
  PendingInput, StoreWrite, Write, claim, set_status, store, may_write, inserted_row, updated_row,
  grown_row, replaced_chunks, write_document, store_processed_document, apply, apply_all,
}
use inherent.Ingestion.Store.Fence.{current, started_before}
use inherent.Ingestion.Store.Superseded.{claim-fences}
use inherent.Ingestion.Store.Retry.{store_processed_document-retried}
use inherent.Ingestion.Store.Counters.{Counts, apply_all-Counts}
use inherent.Ingestion.Store.Flushes.{IsFlushed, store_processed_document-IsFlushed}

abbrev hash : String → String
hash text = text

abbrev origin : UploadOrigin
origin = record {
  workspace_id = "w";
  user_id = "u";
  uploaded_by = none;
  filename = "notes.md";
  original_filename = "notes.md";
  content_type = "text/markdown";
  storage_backend = "s3";
  storage_path = "w/notes.md";
  storage_bucket = none;
  storage_url = none;
  source_url = none;
}

-- Two runs: the second starts later.
abbrev start : String → ℕ
start run = if str_eq run "run-2" then 20 else 10

abbrev claim_of : String → ℕ → PendingInput
claim_of run time = record {
  origin = origin;
  size_bytes = 7;
  workflow_run_id = run;
  workflow_start_time = time;
}

abbrev chunk_of : ℕ → String → ChunkInput
chunk_of i content = record {
  chunk_index = i;
  content = content;
  token_count = some 1;
  start_char = 0;
  end_char = 1;
  metadata = none;
}

abbrev store_of : String → Bool → List ChunkInput → StoreWrite
store_of run append chunks = record {
  origin = origin;
  size_bytes = 7;
  chunks = chunks;
  text_length = 9;
  processing_time_ms = 5;
  workflow_run_id = run;
  tenant_id = none;
  append = append;
  document_type = "file";
  external_id = none;
  metadata = none;
}

-- The first run claims; then the second claims and stores; then the first stores and fails, late.
abbrev late : List Write
late =
    store (store_of "run-2" false (chunk_of 0 "new" ∷ []))
    ∷ store (store_of "run-1" false (chunk_of 0 "old" ∷ chunk_of 1 "older" ∷ []))
    ∷ set_status
        (record { status = failed; error_message = some "late"; workflow_run_id = some "run-1" })
    ∷ []

current_of_late : length (current start 20 late) ≡ 1
unfolding current started_before
current_of_late = refl

claim-fences_example :
    apply_all hash late (
      apply hash
        (claim (claim_of "run-2" 20))
        (apply_all hash (claim (claim_of "run-1" 10) ∷ []) absent_document))
    ≡ apply_all hash (current start 20 late) (
        apply hash
          (claim (claim_of "run-2" 20))
          (apply_all hash (claim (claim_of "run-1" 10) ∷ []) absent_document))
claim-fences_example =
    claim-fences start hash (claim_of "run-2" 20) (claim (claim_of "run-1" 10) ∷ []) late refl
      (refl, tt) (tt, (tt, (tt, tt)))

-- A conversation with the chunks 0 and 1.
abbrev first_flush : StoreWrite
first_flush = store_of "run-1" true (chunk_of 0 "a" ∷ chunk_of 1 "b" ∷ [])

abbrev conversation_row : DocumentRow
conversation_row = record (inserted_row first_flush) { chunk_count = 2; text_length = 9 }

abbrev conversation : Document
conversation = record {
  row = some conversation_row;
  chunks = map (chunk_row hash origin none) (chunk_of 0 "a" ∷ chunk_of 1 "b" ∷ []);
}

first_flush_stores : (store_processed_document hash first_flush absent_document).1 ≡ conversation
unfolding store_processed_document inserted_row write_document replaced_chunks grown_row
    insert_chunks chunk_row
first_flush_stores = refl

store_processed_document-retried_example :
    (store_processed_document hash first_flush
      (store_processed_document hash first_flush absent_document).1).1
    ≡ (store_processed_document hash first_flush absent_document).1
store_processed_document-retried_example =
    store_processed_document-retried hash first_flush absent_document

apply_all-Counts_example :
    Counts (apply_all hash (claim (claim_of "run-2" 20) ∷ late) absent_document)
unfolding has_index chunk_row
apply_all-Counts_example =
    apply_all-Counts hash (claim (claim_of "run-2" 20) ∷ late)
      (tt, ((refl, tt), ((refl, (refl, tt)), (tt, tt))))

abbrev second_flush : StoreWrite
second_flush = store_of "run-1" true (chunk_of 2 "c" ∷ chunk_of 3 "d" ∷ [])

store_processed_document-IsFlushed_example :
    IsFlushed hash second_flush conversation_row conversation.chunks
      (store_processed_document hash second_flush conversation).1
unfolding inserted_row may_write chunk_row
store_processed_document-IsFlushed_example =
    store_processed_document-IsFlushed hash second_flush conversation conversation_row refl refl
      refl (omega arith, (omega arith, tt)) (refl, (refl, tt))

-- The same conversation after the public API has deleted its first chunk: the counter is 1, and so
-- is the index of the chunk that is left. The next flush is reported as stored, and is not.
abbrev thinned : Document
thinned = record {
  row = some (record conversation_row { chunk_count = 1 });
  chunks = map (chunk_row hash origin none) (chunk_of 1 "b" ∷ []);
}

flush_lost :
    store_processed_document hash (store_of "run-1" true (chunk_of 1 "c" ∷ [])) thinned
    ≡ (some false, thinned)
unfolding store_processed_document updated_row inserted_row write_document replaced_chunks grown_row
    insert_chunks chunk_row
flush_lost = refl
