-- ===== src/PublicApi/Chunks/Tests.antt =====
-- The chunk writes on a sample document, and their theorems there.
use inherent.Prelude.{
  String, ◌≡◌, refl, none, some, [], ◌∷◌, arith, ◌==◌, inl, inr, Option-cases, if◌then◌else◌,
}
use Prim.Native.String.{◌++◌}
use inherent.PublicApi.Chunks.Stores.{
  timeout, failed, UploadFields, VectorObject, Stores, find, chunk_of, delete_document_chunk,
}
use inherent.PublicApi.Chunks.Compensation.{
  done, refused, unknown, World, Env, perform, with_retry, mark_failed_backoff,
}
use inherent.PublicApi.Chunks.Writes.{
  create_rollback, update_rollback, delete_row, create_chunk_everywhere, update_chunk_everywhere,
  delete_chunk_everywhere,
}
use inherent.PublicApi.Chunks.Course.{Course, Total, with_retry-Course}
use inherent.PublicApi.Chunks.Sync.{IsSynced, AgreesAt}
use inherent.PublicApi.Chunks.Outcome.{Verdict}
use inherent.PublicApi.Chunks.Create.{CreateLeft, create_chunk_everywhere-Verdict}
use inherent.PublicApi.Chunks.Update.{UpdateLeft, update_chunk_everywhere-Verdict}
use inherent.PublicApi.Chunks.Delete.{DeleteLeft, delete_chunk_everywhere-Verdict}
use inherent.PublicApi.Chunks.Timeout.{Diverged, update_chunk_everywhere-Diverged}

abbrev tag : String → String
tag s = "#" ++ s

abbrev file : UploadFields
file = record {
  user_id = "u";
  filename = some "a.txt";
  original_filename = none;
  content_type = none;
  storage_path = some "s3";
  storage_url = none;
}

abbrev vector_of : String → VectorObject
vector_of content = record {
  content = content;
  content_hash = tag content;
  original_filename = "a.txt";
  content_type = "";
  source_uri = some "s3";
}

-- One chunk at index 0, in both stores.
abbrev one_chunk : Stores
one_chunk = record {
  fields = some file;
  rows = chunk_of tag 0 "old" ∷ [];
  chunk_count = 1;
  vectors = λ i. if i == 0 then some (vector_of "old") else none;
}

abbrev start : World
start = record { stores = one_chunk; calls = 0; exhausted = []; slept = 0 }

one_chunk-IsSynced : IsSynced one_chunk
unfolding IsSynced AgreesAt find
one_chunk-IsSynced i = ground arith

-- The vector store refuses its calls, and the first call of the database after three is refused too.
abbrev shaky : Env
shaky = record {
  database = λ n. if n == 3 then refused failed else done;
  vector_store = λ n. refused failed;
}

create_chunk_everywhere-Verdict_example :
    Verdict create_rollback []
      (CreateLeft shaky "new")
      (create_chunk_everywhere tag shaky "new" start).0
      (create_chunk_everywhere tag shaky "new" start).1
create_chunk_everywhere-Verdict_example =
    create_chunk_everywhere-Verdict tag shaky [] "new" start one_chunk-IsSynced refl

update_chunk_everywhere-Verdict_example :
    Verdict update_rollback []
      (UpdateLeft shaky 0 "new")
      (update_chunk_everywhere tag shaky 0 "new" start).0
      (update_chunk_everywhere tag shaky 0 "new" start).1
update_chunk_everywhere-Verdict_example =
    update_chunk_everywhere-Verdict tag shaky [] 0 "new" start one_chunk-IsSynced refl

delete_chunk_everywhere-Verdict_example :
    Verdict delete_row []
      (DeleteLeft shaky 0)
      (delete_chunk_everywhere tag shaky 0 start).0
      (delete_chunk_everywhere tag shaky 0 start).1
delete_chunk_everywhere-Verdict_example =
    delete_chunk_everywhere-Verdict tag shaky [] 0 start one_chunk-IsSynced refl

found : find 0 one_chunk.rows ≡ some (chunk_of tag 0 "old")
unfolding find
found = refl

-- The vector store takes its calls, and they time out.
abbrev late : Env
late = record { database = λ n. done; vector_store = λ n. unknown timeout }

update_chunk_everywhere-Diverged_example :
    Diverged 0 "old" "new" [] (update_chunk_everywhere tag late 0 "new" start)
update_chunk_everywhere-Diverged_example =
    update_chunk_everywhere-Diverged tag late 0 "new" file (chunk_of tag 0 "old") (λ n. refl)
      (λ n. refl) start (vector_of "old") refl found refl

delete-Total : Total (delete_document_chunk 0)
unfolding delete_document_chunk
delete-Total = record {
  returns = λ s. elim (Option-cases s.fields) [
    | inl unset ↦ (none, rw (unset, delete_document_chunk) refl)
    | inr (f, set) ↦ elim (Option-cases (find 0 s.rows)) [
      | inl gone ↦ (none, rw (set, delete_document_chunk, gone) refl)
      | inr (c, there) ↦ (some c, rw (set, delete_document_chunk, there) refl)
    ]
  ];
}

with_retry-Course_example :
    Course shaky.database delete_row mark_failed_backoff 0 2 start
      (with_retry delete_row 3 mark_failed_backoff
        (perform shaky.database (delete_document_chunk 0))
        start).0
      (with_retry delete_row 3 mark_failed_backoff
        (perform shaky.database (delete_document_chunk 0))
        start).1
with_retry-Course_example =
    with_retry-Course shaky.database delete_row mark_failed_backoff (delete_document_chunk 0)
      delete-Total 2 start
