-- ===== src/PublicApi/Chunks/Timeout.antt =====
-- An update whose vector write times out after it took effect.
use inherent.Prelude.{
  ℕ, suc, ◌+◌, String, ◌≡◌, refl, ap, true, Option, none, some, List, arith, eq_refl,
}
use inherent.PublicApi.Chunks.Stores.{
  replace, Operation, Failure, timeout, Result, ok, err, UploadFields, DocumentChunk, VectorObject,
  Stores, find, hash_matches, set_vector, get_document_upload_fields, get_document_chunk_by_index,
  update_document_chunk, update_vector, chunk_of,
}
use inherent.PublicApi.Chunks.Compensation.{
  done, unknown, World, Env, answer, perform, with_retry, attempts_from, after_attempt, landed,
  Fate, Step, mark_failed_backoff, ◌>>=◌,
}
use inherent.PublicApi.Chunks.Writes.{
  update_rollback, ChunkWriteOutcome, update_chunk_everywhere, update_chunk, rewrite_row,
  rewrite_vector, after_update, restore_chunk_content_with_retry,
}
use inherent.PublicApi.Chunks.Sync.{row_content, vector_content, find-replace_self}

hash_matches_same : (o : Option String) → hash_matches o o ≡ true
unfolding hash_matches
hash_matches_same none = refl
hash_matches_same (some h) = eq_refl h

update-done :
    (hash : String → String) (i : ℕ) (content : String) (only_if : Option String) (s : Stores)
    (fields : UploadFields) (c : DocumentChunk)
    → s.fields ≡ some fields
    → find i s.rows ≡ some c
    → hash_matches only_if c.content_hash ≡ true
    → update_document_chunk hash i content only_if s ≡ (
      ok (some (chunk_of hash i content)),
      record s { rows = replace (chunk_of hash i content) s.rows },
    )
unfolding update_document_chunk
update-done hash i content only_if s fields c known there same =
    simp (known, update_document_chunk, there, same)

module _ {A : Type 0} where
  perform-done :
      (fates : ℕ → Fate) (f : Operation A) (w : World) (r : Result A) (s : Stores)
      → fates w.calls ≡ done
      → f w.stores ≡ (r, s)
      → perform fates f w ≡ (r, record w { stores = s; calls = w.calls + 1 })
  unfolding perform answer
  perform-done fates f w r s calm e = rw (calm, e) refl

  -- A call that takes effect and raises all the same.
  perform-unknown :
      (fates : ℕ → Fate) (f : Operation A) (w : World) (e : Failure) (r : Result A) (s : Stores)
      → fates w.calls ≡ unknown e
      → f w.stores ≡ (r, s)
      → perform fates f w ≡ (err e, record w { stores = s; calls = w.calls + 1 })
  unfolding perform answer
  perform-unknown fates f w e r s late h = rw (late, h) refl

  with_retry-done :
      (operation : String) (left backoff : ℕ) (m : Step A) (w w1 : World) (a : A)
      → m w ≡ (ok a, w1)
      → with_retry operation (suc left) backoff m w ≡ (ok a, w1)
  unfolding with_retry attempts_from after_attempt
  with_retry-done operation left backoff m w w1 a e = rw e refl

  bind-done :
      {B : Type 0} (m : Step A) (f : A → Step B) (w w1 : World) (a : A)
      → m w ≡ (ok a, w1)
      → (m >>= f) w ≡ f a w1
  unfolding ◌>>=◌
  bind-done m f w w1 a e = rw e refl

update_vector-done :
    (i : ℕ) (content content_hash : String) (s : Stores) (o : VectorObject)
    → s.vectors i ≡ some o
    → update_vector i content content_hash s ≡ (
      ok tt,
      record s {
        vectors =
            set_vector i
              (some (record o { content = content; content_hash = content_hash }))
              s.vectors;
      },
    )
unfolding update_vector
update_vector-done i content content_hash s o there = rw (there, update_vector) refl

fields-done :
    (s : Stores) (fields : UploadFields)
    → s.fields ≡ some fields
    → get_document_upload_fields s ≡ (ok (some fields), s)
unfolding get_document_upload_fields
fields-done s fields known = ap (λ x. (ok x, s)) known

chunk-done :
    (i : ℕ) (s : Stores) (fields : UploadFields) (c : DocumentChunk)
    → s.fields ≡ some fields
    → find i s.rows ≡ some c
    → get_document_chunk_by_index i s ≡ (ok (some c), s)
unfolding get_document_chunk_by_index
chunk-done i s fields c known there = simp (known, there, get_document_chunk_by_index)

-- The end of such an update: the timeout, the row with one text and the vector with another.
pub Diverged : ℕ → String → String → List String → Result ChunkWriteOutcome × World → Type 0
Diverged i row vector old end =
    (end.0 ≡ err timeout)
    × (row_content (find i end.1.stores.rows) ≡ some row)
    × (vector_content (end.1.stores.vectors i) ≡ some vector)
    × (end.1.exhausted ≡ old)

module _ (hash : String → String) (env : Env) (i : ℕ) (content : String) (fields : UploadFields)
    (prior : DocumentChunk) (calm : (n : ℕ) → env.database n ≡ done)
    (late : (n : ℕ) → env.vector_store n ≡ unknown timeout) where
  rolled_back :
      (w : World)
      → w.stores.fields ≡ some fields
      → find i w.stores.rows ≡ some (chunk_of hash i content)
      → vector_content (w.stores.vectors i) ≡ some content
      → Diverged i prior.content content w.exhausted
          (after_update hash env i prior (chunk_of hash i content) (err timeout) w)
  unfolding Diverged after_update restore_chunk_content_with_retry landed
  rolled_back w known there vector =
      let old = chunk_of hash i prior.content in
      let restored =
        with_retry-done update_rollback 2 mark_failed_backoff
          (perform env.database (update_document_chunk hash i prior.content (some (hash content))))
          w _ _
          (perform-done env.database _ w _ _ (calm w.calls) (
            update-done hash i prior.content (some (hash content)) w.stores fields _ known there
              (hash_matches_same (some (hash content))))) in
      rw restored (
        refl,
        ap row_content (find-replace_self old content w.stores.rows (ap row_content there)),
        vector,
        refl,
      )

  new_vector_late :
      (w : World) (o : VectorObject)
      → w.stores.fields ≡ some fields
      → find i w.stores.rows ≡ some (chunk_of hash i content)
      → w.stores.vectors i ≡ some o
      → Diverged i prior.content content w.exhausted
          (rewrite_vector hash env i content prior (some (chunk_of hash i content)) w)
  unfolding rewrite_vector set_vector
  new_vector_late w o known there vector =
      let sent =
        perform-unknown env.vector_store (update_vector i content (hash content)) w timeout _ _
          (late w.calls) (update_vector-done i content (hash content) w.stores o vector) in
      rw sent (rolled_back _ known there (ground arith))

  row_and_vector_late :
      (w : World) (o : VectorObject)
      → w.stores.fields ≡ some fields
      → find i w.stores.rows ≡ some prior
      → w.stores.vectors i ≡ some o
      → Diverged i prior.content content w.exhausted (rewrite_row hash env i content (some prior) w)
  unfolding rewrite_row
  row_and_vector_late w o known there vector =
      let new = chunk_of hash i content in
      rw
        (bind-done (perform env.database (update_document_chunk hash i content prior.content_hash))
          (rewrite_vector hash env i content prior) w _ _
          (perform-done env.database _ w _ _ (calm w.calls) (
            update-done hash i content prior.content_hash w.stores fields prior known there
              (hash_matches_same prior.content_hash))))
        (new_vector_late _ o known
          (find-replace_self new prior.content w.stores.rows (ap row_content there)) vector)

  -- Say that every call of the database is done, and that the vector store takes the update but
  -- times out. Then the update raises the timeout with its row rolled back and its vector not: the
  -- row has the prior text, the vector the new one, and no alarm is raised.
  pub update_chunk_everywhere-Diverged :
      (w : World) (o : VectorObject)
      → w.stores.fields ≡ some fields
      → find i w.stores.rows ≡ some prior
      → w.stores.vectors i ≡ some o
      → Diverged i prior.content content w.exhausted (update_chunk_everywhere hash env i content w)
  unfolding update_chunk_everywhere update_chunk
  update_chunk_everywhere-Diverged w o known there vector =
      rw
        (
          bind-done (perform env.database get_document_upload_fields)
              (update_chunk hash env i content) w _ _
              (perform-done env.database _ w _ _ (calm w.calls)
                (fields-done w.stores fields known)),
          bind-done (perform env.database (get_document_chunk_by_index i))
              (rewrite_row hash env i content) (record w { calls = w.calls + 1 }) _ _
              (perform-done env.database _ (record w { calls = w.calls + 1 }) _ _
                (calm (w.calls + 1)) (chunk-done i w.stores fields prior known there)),
        )
        (row_and_vector_late _ o known there vector)
