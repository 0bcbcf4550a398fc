-- ===== src/PublicApi/Chunks/Update.antt =====
-- An update, call by call: how each stage of it ends.
use inherent.Prelude.{ℕ, ◌⊎◌, String, ◌≡◌, sym, subst, inl, inr, Option, none, some, List}
use inherent.PublicApi.Chunks.Stores.{Failure, err, UploadFields, DocumentChunk, Stores, chunk_of}
use inherent.PublicApi.Chunks.Compensation.{unknown, World, Env, pure, mark_failed_backoff}
use inherent.PublicApi.Chunks.Writes.{
  update_rollback, ChunkWriteOutcome, restore_chunk_content_with_retry, after_update,
  rewrite_vector, rewrite_row, update_chunk, update_chunk_everywhere,
}
use inherent.PublicApi.Chunks.Sync.{IsSynced, IsSyncedBut, IsSynced-complete}
use inherent.PublicApi.Chunks.Outcome.{
  Verdict, in_sync, unanswered, At, perform-Verdict, retry-At, bind-Verdict, rollback-Verdict,
}
use inherent.PublicApi.Chunks.Create.{Read, fields-Attempt}
use inherent.PublicApi.Chunks.Restore.{
  Ahead, Rewritten, RestoreOpen, update-Attempt, update_vector-Attempt, restore-Attempt,
}
use inherent.PublicApi.Chunks.Delete.{ReadChunk, chunk-Attempt}

-- What an update can leave behind without an alarm, by what its failing call did: the new row and
-- the former vector, where the UPDATE of the row has taken effect and raised; or the former row and
-- the new vector, where the vector store has taken the vector and raised.
pub data UpdateLeft (env : Env) (i : ℕ) (content : String) : Failure → Stores → Type 0 where
  row_unanswered :
      (n : ℕ) (e : Failure) (former : String) (s : Stores)
      → env.database n ≡ unknown e
      → IsSyncedBut i (some content) (some former) s
      → UpdateLeft env i content e s
  vector_unanswered :
      (n : ℕ) (e : Failure) (former : String) (s : Stores)
      → env.vector_store n ≡ unknown e
      → IsSyncedBut i (some former) (some content) s
      → UpdateLeft env i content e s

-- After the UPDATE of the row: in sync, or the new row beside the former vector.
abbrev RowAhead : ℕ → String → String → Stores → Type 0
RowAhead i content former s = IsSynced s ⊎ IsSyncedBut i (some content) (some former) s

Rewritten-RowAhead :
    (hash : String → String) (i : ℕ) (content : String) (prior : DocumentChunk)
    (o : Option DocumentChunk) (s : Stores)
    → Rewritten hash i content prior o s
    → RowAhead i content prior.content s
unfolding Rewritten
Rewritten-RowAhead hash i content prior none s h = inl h
Rewritten-RowAhead hash i content prior (some c) s h = inr h.1.but

module _ (hash : String → String) (env : Env) (old : List String) (i : ℕ) (content : String) where
  after_update-Verdict :
      (prior : DocumentChunk) (vector : String) (e : Failure) (w : World)
      → At (Ahead hash i content vector) old w
      → ((w : World)
          → At (IsSyncedBut i (some prior.content) (some vector)) old w
          → Verdict {A = ChunkWriteOutcome} update_rollback old
              (UpdateLeft env i content)
              (err e)
              w)
      → Verdict update_rollback old
          (UpdateLeft env i content)
          (after_update hash env i prior (chunk_of hash i content) (err e) w).0
          (after_update hash env i prior (chunk_of hash i content) (err e) w).1
  unfolding after_update restore_chunk_content_with_retry
  after_update-Verdict prior vector e w at =
      rollback-Verdict update_rollback old (UpdateLeft env i content)
        (RestoreOpen hash i content prior.content vector)
        (IsSyncedBut i (some prior.content) (some vector)) _ _ e
        (retry-At env.database _ (RestoreOpen hash i content prior.content vector)
          (IsSyncedBut i (some prior.content) (some vector)) old
          (restore-Attempt hash i content prior.content vector) (λ s but. inr but) update_rollback 2
          mark_failed_backoff w (record { holds = inl at.holds; quiet = at.quiet }))

  new_vector-Verdict :
      (prior : DocumentChunk) (w : World)
      → At (Ahead hash i content prior.content) old w
      → Verdict update_rollback old
          (UpdateLeft env i content)
          (rewrite_vector hash env i content prior (some (chunk_of hash i content)) w).0
          (rewrite_vector hash env i content prior (some (chunk_of hash i content)) w).1
  unfolding rewrite_vector
  new_vector-Verdict prior w at =
      perform-Verdict env.vector_store _ _ _ (Ahead hash i content content) old
        (update_vector-Attempt hash i content (hash content) prior.content) (λ u s h. h)
        update_rollback (UpdateLeft env i content)
        (after_update hash env i prior (chunk_of hash i content)) w at
        (λ u w at.
          unfold after_update in
          in_sync w (IsSynced-complete i (some content) w.stores at.holds.but))
        (λ n e w h at.
          after_update-Verdict prior prior.content e w at
            (λ w at. in_sync w (IsSynced-complete i (some prior.content) w.stores at.holds)))
        (λ n e w h at. after_update-Verdict prior content e w at (λ w at.
          unanswered e w at.quiet (vector_unanswered n e prior.content w.stores h at.holds)))

  rewrite_vector-Verdict :
      (prior : DocumentChunk) (o : Option DocumentChunk) (w : World)
      → At (Rewritten hash i content prior o) old w
      → Verdict update_rollback old
          (UpdateLeft env i content)
          (rewrite_vector hash env i content prior o w).0
          (rewrite_vector hash env i content prior o w).1
  unfolding Rewritten
  rewrite_vector-Verdict prior none w at = unfold rewrite_vector in in_sync w at.holds
  rewrite_vector-Verdict prior (some c) w at =
      subst
        (λ c.
          Verdict update_rollback old (UpdateLeft env i content)
            (rewrite_vector hash env i content prior (some c) w).0
            (rewrite_vector hash env i content prior (some c) w).1)
        (sym at.holds.0)
        (new_vector-Verdict prior w (record { holds = at.holds.1; quiet = at.quiet }))

  RowAhead-Verdict :
      (former : String) (n : ℕ) (e : Failure) (w : World)
      → env.database n ≡ unknown e
      → w.exhausted ≡ old
      → RowAhead i content former w.stores
      → Verdict {A = ChunkWriteOutcome} update_rollback old (UpdateLeft env i content) (err e) w
  RowAhead-Verdict former n e w h quiet (inl synced) = in_sync w synced
  RowAhead-Verdict former n e w h quiet (inr but) =
      unanswered e w quiet (row_unanswered n e former w.stores h but)

  rewrite_row-Verdict :
      (o : Option DocumentChunk) (w : World)
      → At (ReadChunk i o) old w
      → Verdict update_rollback old
          (UpdateLeft env i content)
          (rewrite_row hash env i content o w).0
          (rewrite_row hash env i content o w).1
  unfolding rewrite_row ReadChunk
  rewrite_row-Verdict none w at = unfold pure in in_sync w at.holds.0
  rewrite_row-Verdict (some prior) w at =
      bind-Verdict env.database _ (ReadChunk i (some prior)) (Rewritten hash i content prior)
        (RowAhead i content prior.content) old
        (update-Attempt hash i content prior prior.content_hash)
        (Rewritten-RowAhead hash i content prior) update_rollback (UpdateLeft env i content)
        (rewrite_vector hash env i content prior) w at (λ s h. h.0) (rewrite_vector-Verdict prior)
        (λ n e w h at. RowAhead-Verdict prior.content n e w h at.quiet at.holds)

  update_chunk-Verdict :
      (o : Option UploadFields) (w : World)
      → At (Read o) old w
      → Verdict update_rollback old
          (UpdateLeft env i content)
          (update_chunk hash env i content o w).0
          (update_chunk hash env i content o w).1
  unfolding update_chunk Read ReadChunk
  update_chunk-Verdict none w at = unfold pure in in_sync w at.holds.0
  update_chunk-Verdict (some fields) w at =
      bind-Verdict env.database _ (Read (some fields)) (ReadChunk i) IsSynced old
        (chunk-Attempt i fields) (λ o s read. read.0) update_rollback (UpdateLeft env i content)
        (rewrite_row hash env i content) w at (λ s read. read.0) rewrite_row-Verdict
        (λ n e w h at. in_sync w at.holds)

  -- From stores in sync, whatever the fates of its calls, an update that returns leaves them in
  -- sync. One that raises leaves them in sync too; or its rollback has bumped the exhaustion
  -- metric; or it has left the two texts apart at its index without an alarm, and a call is to
  -- blame: the new row and the former vector, where the UPDATE of the row has taken effect and
  -- raised; or the former row and the new vector, where the vector store has taken it and raised.
  pub update_chunk_everywhere-Verdict :
      (w : World)
      → IsSynced w.stores
      → w.exhausted ≡ old
      → Verdict update_rollback old
          (UpdateLeft env i content)
          (update_chunk_everywhere hash env i content w).0
          (update_chunk_everywhere hash env i content w).1
  unfolding update_chunk_everywhere Read
  update_chunk_everywhere-Verdict w synced quiet =
      bind-Verdict env.database _ IsSynced Read IsSynced old fields-Attempt (λ o s read. read.0)
        update_rollback (UpdateLeft env i content) (update_chunk hash env i content) w
        (record { holds = synced; quiet = quiet }) (λ s h. h) update_chunk-Verdict
        (λ n e w h at. in_sync w at.holds)
