-- ===== src/PublicApi/Chunks/Delete.antt =====
-- A delete, call by call: what the stores hold after each.
use inherent.Prelude.{ℕ, String, ◌≡◌, ◌≢◌, refl, ap, ◌∙◌, Option, none, some, List, ◌∷◌, arith}
use inherent.PublicApi.Chunks.Stores.{
  Failure, Result, UploadFields, DocumentChunk, Stores, find, get_document_chunk_by_index,
  delete_chunk_vector,
}
use inherent.PublicApi.Chunks.Compensation.{unknown, World, Env, pure, ◌>>=◌, continue, alarm}
use inherent.PublicApi.Chunks.Writes.{
  delete_row, delete_chunk_row_with_retry, deleted_outcome, delete_existing, delete_chunk,
  delete_chunk_everywhere,
}
use inherent.PublicApi.Chunks.Retries.{Attempt, Ending, landing, exhausting}
use inherent.PublicApi.Chunks.Sync.{
  row_content, AgreesAt, IsSynced, IsSyncedBut, IsSynced-complete, set_vector-IsSyncedBut,
}
use inherent.PublicApi.Chunks.Outcome.{
  Verdict, in_sync, alarmed, unanswered, At, Returns, bind-Verdict,
}
use inherent.PublicApi.Chunks.Create.{Read, fields-Attempt, retry_delete-Ending}

-- In sync, with the chunk at an index read.
unfoldable pub ReadChunk : ℕ → Option DocumentChunk → Stores → Type 0
ReadChunk i o s = IsSynced s × (row_content (find i s.rows) ≡ row_content o) × (s.fields ≢ none)

pub chunk-Attempt :
    (i : ℕ) (fields : UploadFields) (s : Stores)
    → Read (some fields) s
    → Returns (ReadChunk i) (get_document_chunk_by_index i s).0 (get_document_chunk_by_index i s).1
unfolding Attempt get_document_chunk_by_index Read ReadChunk IsSynced
chunk-Attempt i fields s (synced, e) =
    rw (e, get_document_chunk_by_index) (synced, refl, (λ n. ground arith))

-- An agreeing index is one to write at.
pub IsSyncedBut-at :
    (i : ℕ) (c : DocumentChunk) (s : Stores)
    → ReadChunk i (some c) s
    → IsSyncedBut i (some c.content) (some c.content) s
unfolding ReadChunk IsSynced AgreesAt
IsSyncedBut-at i c s (synced, there, known) = record {
  at_row = there;
  at_vector = synced i ∙ there;
  elsewhere = λ j other. synced j;
  known = known;
}

delete_vector-Attempt :
    (i : ℕ) (c : DocumentChunk) (s : Stores)
    → ReadChunk i (some c) s
    → Returns
        (λ u. IsSyncedBut i (some c.content) none)
        (delete_chunk_vector i s).0
        (delete_chunk_vector i s).1
unfolding Attempt delete_chunk_vector
delete_vector-Attempt i c s h = set_vector-IsSyncedBut i _ _ none s (IsSyncedBut-at i c s h)

-- What a delete can leave behind without an alarm: a row without its vector, where the delete of
-- the vector has taken effect and raised.
pub data DeleteLeft (env : Env) (i : ℕ) : Failure → Stores → Type 0 where
  vector_unanswered :
      (n : ℕ) (e : Failure) (text : String) (s : Stores)
      → env.vector_store n ≡ unknown e
      → IsSyncedBut i (some text) none s
      → DeleteLeft env i e s

module _ (hash : String → String) (env : Env) (old : List String) (i : ℕ) where
  deleted_outcome-Verdict :
      (r : Result (Option DocumentChunk)) (w : World) (S : Stores → Type 0)
      → Ending delete_row (At S old) (λ c. At (IsSyncedBut i none none) old) r w
      → Verdict delete_row old
          (DeleteLeft env i)
          (continue r (deleted_outcome hash env) w).0
          (continue r (deleted_outcome hash env) w).1
  unfolding deleted_outcome pure alarm
  deleted_outcome-Verdict r w S (landing none w1 at) =
      in_sync w1 (IsSynced-complete i none w1.stores at.holds)
  deleted_outcome-Verdict r w S (landing (some c) w1 at) =
      in_sync w1 (IsSynced-complete i none w1.stores at.holds)
  deleted_outcome-Verdict r w S (exhausting e w1 at) =
      alarmed e (alarm delete_row w1) (ap (λ l. delete_row ∷ l) at.quiet)

  row-Verdict :
      (c : DocumentChunk) (w : World)
      → At (IsSyncedBut i (some c.content) none) old w
      → Verdict delete_row old
          (DeleteLeft env i)
          ((delete_chunk_row_with_retry hash env i delete_row >>= deleted_outcome hash env) w).0
          ((delete_chunk_row_with_retry hash env i delete_row >>= deleted_outcome hash env) w).1
  unfolding ◌>>=◌ delete_chunk_row_with_retry
  row-Verdict c w at = deleted_outcome-Verdict _ _ _ (
      retry_delete-Ending env delete_row old i none w
        (record { holds = (some c.content, at.holds); quiet = at.quiet }))

  delete_existing-Verdict :
      (o : Option DocumentChunk) (w : World)
      → At (ReadChunk i o) old w
      → Verdict delete_row old
          (DeleteLeft env i)
          (delete_existing hash env i o w).0
          (delete_existing hash env i o w).1
  unfolding delete_existing ReadChunk pure
  delete_existing-Verdict none w at = in_sync w at.holds.0
  delete_existing-Verdict (some c) w at =
      bind-Verdict env.vector_store (delete_chunk_vector i) (ReadChunk i (some c))
        (λ u. IsSyncedBut i (some c.content) none) (IsSyncedBut i (some c.content) none) old
        (delete_vector-Attempt i c) (λ u s but. but) delete_row (DeleteLeft env i) _ w at
        (λ s read. read.0) (λ u w at. row-Verdict c w at)
        (λ n e w h at.
          unanswered e w at.quiet (vector_unanswered n e c.content w.stores h at.holds))

  delete_chunk-Verdict :
      (o : Option UploadFields) (w : World)
      → At (Read o) old w
      → Verdict delete_row old
          (DeleteLeft env i)
          (delete_chunk hash env i o w).0
          (delete_chunk hash env i o w).1
  unfolding delete_chunk Read ReadChunk pure
  delete_chunk-Verdict none w at = in_sync w at.holds.0
  delete_chunk-Verdict (some fields) w at =
      bind-Verdict env.database _ (Read (some fields)) (ReadChunk i) IsSynced old
        (chunk-Attempt i fields) (λ o s read. read.0) delete_row (DeleteLeft env i)
        (delete_existing hash env i) w at (λ s read. read.0) delete_existing-Verdict
        (λ n e w h at. in_sync w at.holds)

  -- From stores in sync, whatever the fates of its calls, a delete that returns leaves them in sync.
  -- One that raises leaves them in sync too; or the retries of the row have bumped the exhaustion
  -- metric; or it has left the row without its vector and no alarm, where the vector store has
  -- deleted the vector and raised.
  pub delete_chunk_everywhere-Verdict :
      (w : World)
      → IsSynced w.stores
      → w.exhausted ≡ old
      → Verdict delete_row old
          (DeleteLeft env i)
          (delete_chunk_everywhere hash env i w).0
          (delete_chunk_everywhere hash env i w).1
  unfolding delete_chunk_everywhere Read
  delete_chunk_everywhere-Verdict w synced quiet =
      bind-Verdict env.database _ IsSynced Read IsSynced old fields-Attempt (λ o s read. read.0)
        delete_row (DeleteLeft env i) (delete_chunk hash env i) w
        (record { holds = synced; quiet = quiet }) (λ s h. h) delete_chunk-Verdict
        (λ n e w h at. in_sync w at.holds)
