-- ===== src/PublicApi/Documents/Deleted.antt =====
-- A deletion, call by call: the row goes only after the vectors.
use inherent.Prelude.{
  ◌-◌, ℕ, ◌+◌, ◌≤◌, String, ◌≡◌, ◌≢◌, refl, sym, ap, subst, ◌∙◌, Bool, true, false, ◌&&◌, Option,
  none, some, List, ◌⊎◌, inl, inr, All, arith, str_eq, if_elim,
}
use mathlib.Core.Option.{some-injective}
use inherent.PublicApi.Chunks.Stores.{failed}
use inherent.PublicApi.Documents.Rows.{
  DocumentRow, Tables, find_document, delete_document, delete_read,
}
use inherent.PublicApi.Documents.Site.{
  VectorKey, Site, Raised, raised, give, throw, call, ◌>>=◌, query,
}
use inherent.PublicApi.Documents.Calls.{After, call-After, bind-After, branch-After}
use inherent.PublicApi.Documents.Dropped.{
  find-drop, find-drop_other, drop_chunks-All, chunks_at, chunks_at-drop_other, uncount_self,
  uncount_other,
}
use inherent.PublicApi.Documents.Vectors.{
  IsBatchDelete, matches, NoVectors, returned-After, read_batch-NoVectors,
}
use inherent.PublicApi.Documents.Deletion.{
  Backends, DeletionOutcome, read_batch, place, delete_document_vectors, absent, removed,
  remove_object, delete_file, delete_object, after_delete, delete_rows, after_fields,
  delete_document_everywhere,
}

module _ (env : Backends) (limit : ℕ) (laws : IsBatchDelete env limit) where
  module _ (id workspace : String) (start : Site) where
    -- The place where ingestion wrote the document's objects: its uploader's tenant.
    abbrev pub place_of : DocumentRow → VectorKey
    place_of d = place env workspace d.user_id id

    -- The transaction, with the vectors gone before it.
    pub record Gone (d : DocumentRow) (tables : Tables) (vectors : List VectorKey) : Type 0 where
      pub was : find_document id workspace start.tables.documents ≡ some d
      pub no_vectors : NoVectors (place_of d) vectors
      pub no_row : find_document id workspace tables.documents ≡ none
      pub no_chunks : All (λ c. str_eq c.document_id id ≡ false) tables.chunks
      pub others :
          (other_id other_workspace : String)
          → (other_id ≢ id) ⊎ (other_workspace ≢ workspace)
          → find_document other_id other_workspace tables.documents
            ≡ find_document other_id other_workspace start.tables.documents
      pub other_chunks :
          (other_id : String) (n : ℕ)
          → other_id ≢ id
          → chunks_at other_id n tables.chunks ≡ chunks_at other_id n start.tables.chunks
      pub counters : tables.counters workspace ≡ record {
        document_count = (start.tables.counters workspace).document_count - 1;
        chunk_count = (start.tables.counters workspace).chunk_count - d.chunk_count;
        total_size_bytes = (start.tables.counters workspace).total_size_bytes - d.size_bytes;
      }
      pub other_counters :
          (other : String) → other ≢ workspace → tables.counters other ≡ start.tables.counters other

    -- How a deletion ends: on an unknown document with nothing done; raising, before the transaction
    -- or with its answer lost after it; or deleted, with its bytes gone or left over.
    pub data Ending : (Raised ⊎ DeletionOutcome) × Site → Type 0 where
      unknown_document :
          (w : Site)
          → find_document id workspace start.tables.documents ≡ none
          → w.tables ≡ start.tables
          → w.vectors ≡ start.vectors
          → w.objects ≡ start.objects
          → Ending (inr (absent 0), w)
      kept :
          (e : Raised) (w : Site)
          → w.tables ≡ start.tables
          → w.objects ≡ start.objects
          → Ending (inl e, w)
      answer_lost :
          (e : Raised) (d : DocumentRow) (w : Site)
          → Gone d w.tables w.vectors
          → w.objects ≡ start.objects
          → Ending (inl e, w)
      deleted :
          (vectors : ℕ) (d : DocumentRow) (storage : Bool) (w : Site)
          → Gone d w.tables w.vectors
          → (storage ≡ true → w.objects ≡ remove_object d.storage_path start.objects)
          → (w.objects ≡ start.objects) ⊎ (w.objects ≡ remove_object d.storage_path start.objects)
          → Ending (inr (removed vectors d storage), w)

    delete_object-Ending :
        (vectors : ℕ) (d : DocumentRow) (w : Site)
        → Gone d w.tables w.vectors
        → w.objects ≡ start.objects
        → Ending (delete_object env vectors d d w)
    unfolding delete_object give
    delete_object-Ending vectors d w gone e =
        if_elim Ending _ _ _
          (branch-After
            (λ u w.
              Gone d w.tables w.vectors × (w.objects ≡ remove_object d.storage_path start.objects))
            (λ e w.
              Gone d w.tables w.vectors
              × ((w.objects ≡ start.objects)
                  ⊎ (w.objects ≡ remove_object d.storage_path start.objects)))
            Ending _ _ (call env.storage (delete_file d.storage_path) w)
            (call-After _ _ env.storage (delete_file d.storage_path) w
              (gone, ap (remove_object d.storage_path) e) (λ x. (gone, inl e))
              (λ x. (gone, inr (ap (remove_object d.storage_path) e))))
            (λ x w h. deleted vectors d false w h.0 (λ n. absurd (ground arith)) h.1)
            (λ u w h. deleted vectors d true w h.0 (λ n. h.1) (inr h.1)))
          (deleted vectors d false w gone (λ n. absurd (ground arith)) (inl e))

    module _ (d : DocumentRow)
        (found : find_document id workspace start.tables.documents ≡ some d) where
      delete_document-eq :
          (tables : Tables)
          → tables ≡ start.tables
          → (delete_document id workspace tables).0 ≡ some d
      unfolding delete_document delete_read
      delete_document-eq tables e = rw (e, found) refl

      delete_document-Gone :
          (tables : Tables) (vectors : List VectorKey)
          → tables ≡ start.tables
          → NoVectors (place_of d) vectors
          → Gone d (delete_document id workspace tables).1 vectors
      unfolding delete_document delete_read
      delete_document-Gone tables vectors e clean =
          rw (e, found)
            (record {
              was = found;
              no_vectors = clean;
              no_row = find-drop id workspace start.tables.documents;
              no_chunks = drop_chunks-All id start.tables.chunks;
              others = λ i v apart. find-drop_other id workspace i v start.tables.documents apart;
              other_chunks = λ i n apart. chunks_at-drop_other id i n start.tables.chunks apart;
              counters = uncount_self workspace d start.tables.counters;
              other_counters = uncount_other workspace d start.tables.counters;
            })

      after_delete-Ending :
          (vectors : ℕ) (o : Option DocumentRow) (w : Site)
          → (o ≡ some d) × Gone d w.tables w.vectors × (w.objects ≡ start.objects)
          → Ending (after_delete env vectors d o w)
      unfolding after_delete
      after_delete-Ending vectors none w (e, gone, same) = absurd (ground arith)
      after_delete-Ending vectors (some r) w (e, gone, same) =
          subst (λ r. Ending (delete_object env vectors d r w)) (sym (some-injective r d e))
            (delete_object-Ending vectors d w gone same)

      -- The transaction, once the vectors are gone.
      delete_rows-Ending :
          (vectors : ℕ) (w : Site)
          → NoVectors (place_of d) w.vectors
            × (w.tables ≡ start.tables)
            × (w.objects ≡ start.objects)
          → Ending ((call env.database (delete_rows id workspace) >>= after_delete env vectors d) w)
      delete_rows-Ending vectors w (clean, same, objects) =
          bind-After (λ o w. (o ≡ some d) × Gone d w.tables w.vectors × (w.objects ≡ start.objects))
            (λ e w.
              ((w.tables ≡ start.tables) ⊎ Gone d w.tables w.vectors) × (w.objects ≡ start.objects))
            Ending _ _ w
            (call-After _ _ env.database (delete_rows id workspace) w
              (
                delete_document-eq w.tables same,
                delete_document-Gone w.tables w.vectors same clean,
                objects,
              )
              (λ e. (inl same, objects))
              (λ e. (inr (delete_document-Gone w.tables w.vectors same clean), objects)))
            (λ e w h. elim h.0 [
              | inl kept_tables ↦ kept e w kept_tables h.1
              | inr gone ↦ answer_lost e d w gone h.1
            ])
            (after_delete-Ending vectors)

      vectors-After :
          (w : Site)
          → matches (place_of d) start.vectors ≤ limit
          → (w.tables ≡ start.tables) × (w.objects ≡ start.objects) × (w.vectors ≡ start.vectors)
          → After
              (λ n w.
                NoVectors (place_of d) w.vectors
                × (w.tables ≡ start.tables)
                × (w.objects ≡ start.objects))
              (λ e w. (w.tables ≡ start.tables) × (w.objects ≡ start.objects))
              (delete_document_vectors env workspace d.user_id id w)
      unfolding delete_document_vectors throw After
      vectors-After w le (tables, objects, vectors) =
          let at = place_of d in
          let reply = env.batch_delete w.calls at w.vectors in
          let after = record w { vectors = reply.1; calls = w.calls + 1 } in
          if_elim
            (After
              (λ n w.
                NoVectors at w.vectors × (w.tables ≡ start.tables) × (w.objects ≡ start.objects))
              (λ e w. (w.tables ≡ start.tables) × (w.objects ≡ start.objects)))
            (env.is_safe_name at.collection && env.is_safe_name at.tenant)
            (read_batch reply.0, after) (throw (raised failed) w)
            (returned-After _ _ (read_batch reply.0) after
              (λ n e. (
                read_batch-NoVectors env limit laws w.calls at w.vectors reply.0 n
                    (subst (λ v. matches at v ≤ limit) (sym vectors) le) refl e,
                tables,
                objects,
              ))
              (λ e. (tables, objects)))
            (tables, objects)

    after_fields-Ending :
        (o : Option DocumentRow) (w : Site)
        → (find_document id workspace start.tables.documents ≡ o)
          × (w.tables ≡ start.tables)
          × (w.objects ≡ start.objects)
          × (w.vectors ≡ start.vectors)
        → ((d : DocumentRow) → o ≡ some d → matches (place_of d) start.vectors ≤ limit)
        → Ending (after_fields env id workspace o w)
    unfolding after_fields give
    after_fields-Ending none w (found, tables, objects, vectors) le =
        unknown_document w found tables vectors objects
    after_fields-Ending (some d) w (found, tables, objects, vectors) le =
        bind-After
          (λ n w.
            NoVectors (place_of d) w.vectors
            × (w.tables ≡ start.tables)
            × (w.objects ≡ start.objects))
          (λ e w. (w.tables ≡ start.tables) × (w.objects ≡ start.objects)) Ending
          (delete_document_vectors env workspace d.user_id id)
          (λ n. call env.database (delete_rows id workspace) >>= after_delete env n d) w
          (vectors-After d found w (le d refl) (tables, objects, vectors))
          (λ e w h. kept e w h.0 h.1) (delete_rows-Ending d found)

  -- A deletion, whatever the fates of its calls, of a document with at most `limit` objects, where
  -- the vector store deletes as it documents: it leaves the tables and the bytes as they were, and
  -- then it raises, or has found no document and left the vectors too; or none of the document's
  -- objects is left in its uploader's tenant, the row and its chunks are gone, the counters of its
  -- workspace are down by the row's numbers, and all other rows, the chunks of all other documents
  -- and the counters of all other workspaces are as they were. Then it returns, with the bytes
  -- gone if it says so, or the answer of the transaction was lost.
  pub delete_document_everywhere-Ending :
      (id workspace : String) (w : Site)
      → ((d : DocumentRow)
          → find_document id workspace w.tables.documents ≡ some d
          → matches (place env workspace d.user_id id) w.vectors ≤ limit)
      → Ending id workspace w (delete_document_everywhere env id workspace w)
  unfolding delete_document_everywhere
  delete_document_everywhere-Ending id workspace w le =
      bind-After
        (λ o v.
          (find_document id workspace w.tables.documents ≡ o)
          × (v.tables ≡ w.tables)
          × (v.objects ≡ w.objects)
          × (v.vectors ≡ w.vectors))
        (λ e v. (v.tables ≡ w.tables) × (v.objects ≡ w.objects)) (Ending id workspace w)
        (call env.database (query (λ t. find_document id workspace t.documents)))
        (after_fields env id workspace) w
        (call-After _ _ env.database (query (λ t. find_document id workspace t.documents)) w
          (refl, refl, refl, refl) (λ e. (refl, refl)) (λ e. (refl, refl)))
        (λ e v h. kept e v h.0 h.1)
        (λ o v h. after_fields-Ending id workspace w o v h (λ d e. le d (h.0 ∙ e)))
