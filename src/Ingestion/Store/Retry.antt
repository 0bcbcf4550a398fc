-- ===== src/Ingestion/Store/Retry.antt =====
-- A retried store: the engine may run the activity again after the write has committed.
use inherent.Prelude.{
  ℕ, String, ◌≡◌, refl, ap, ◌∙◌, inl, inr, Bool, true, false, Option, none, some, List, [], map,
  arith, Bool-cases, if_cases, if-of_true, if-of_false, eq_refl,
}
use inherent.Ingestion.Store.Rows.{DocumentRow, ChunkRow, Document, chunk_row, insert_chunks}
use inherent.Ingestion.Store.Writes.{
  StoreWrite, may_write, or_kept, inserted_row, updated_row, grown_row, replaced_chunks,
  write_document, store_processed_document,
}
use inherent.Ingestion.Store.Inserted.{insert_chunks-IsPresent, insert_chunks-none}

or_kept_twice : (a b : Option String) → or_kept a (or_kept a b) ≡ or_kept a b
or_kept_twice none b = refl
or_kept_twice (some x) b = refl

or_kept_self : (a : Option String) → or_kept a a ≡ a
or_kept_self none = refl
or_kept_self (some x) = refl

-- A row that a store has written: a second update, which grows nothing, leaves it.
inserted-settled :
    (i : StoreWrite) (n : ℕ)
    → updated_row i (grown_row i true n (inserted_row i)) ≡ grown_row i true n (inserted_row i)
unfolding updated_row grown_row inserted_row
inserted-settled i n = ground (arith, or_kept_self i.metadata)

updated-settled :
    (i : StoreWrite) (n : ℕ) (r : DocumentRow)
    → updated_row i (grown_row i false n (updated_row i r)) ≡ grown_row i false n (updated_row i r)
unfolding updated_row grown_row
updated-settled i n r = ground (arith, or_kept_twice i.metadata r.metadata)

grown-zero : (i : StoreWrite) (b : Bool) (r : DocumentRow) → grown_row i b 0 r ≡ r
unfolding grown_row
grown-zero i b r = ground arith

grown-replaced :
    (i : StoreWrite) (b : Bool) (n : ℕ) (r : DocumentRow) → i.append ≡ false → grown_row i b n r ≡ r
unfolding grown_row
grown-replaced i b n r h = rw h

grown-owner :
    (i : StoreWrite) (b : Bool) (n : ℕ) (r : DocumentRow)
    → (grown_row i b n r).active_run_id ≡ r.active_run_id
unfolding grown_row
grown-owner i b n r = ground arith

insert_twice :
    (chunks rows : List ChunkRow)
    → insert_chunks chunks ((insert_chunks chunks (rows, 0)).0, 0)
      ≡ ((insert_chunks chunks (rows, 0)).0, 0)
insert_twice chunks rows =
    insert_chunks-none chunks (insert_chunks chunks (rows, 0)).0 0
      (insert_chunks-IsPresent chunks rows 0)

module _ (hash : String → String) where
  -- A second replacement of the chunks leaves the first one's, and inserts none of an append.
  replaced-rows :
      (i : StoreWrite) (rows : List ChunkRow)
      → (replaced_chunks hash i (replaced_chunks hash i rows).0).0 ≡ (replaced_chunks hash i rows).0
  unfolding replaced_chunks
  replaced-rows i rows = elim (Bool-cases i.append) [
    | inl appends ↦ rw appends (
        ap (λ (p : List ChunkRow × ℕ). p.0)
          (insert_twice (map (chunk_row hash i.origin i.tenant_id) i.chunks) rows))
    | inr replaces ↦ rw replaces
  ]

  replaced-count :
      (i : StoreWrite) (rows : List ChunkRow)
      → i.append ≡ true
      → (replaced_chunks hash i (replaced_chunks hash i rows).0).1 ≡ 0
  unfolding replaced_chunks
  replaced-count i rows appends = rw appends (
      ap (λ (p : List ChunkRow × ℕ). p.1)
        (insert_twice (map (chunk_row hash i.origin i.tenant_id) i.chunks) rows))

  grown-again :
      (i : StoreWrite) (r : DocumentRow) (rows : List ChunkRow)
      → updated_row i r ≡ r
      → grown_row i false
          (replaced_chunks hash i (replaced_chunks hash i rows).0).1
          (updated_row i r)
        ≡ r
  grown-again i r rows e = elim (Bool-cases i.append) [
    | inl appends ↦ rw (replaced-count i rows appends) (grown-zero i false (updated_row i r) ∙ e)
    | inr replaces ↦ grown-replaced i false _ (updated_row i r) replaces ∙ e
  ]

  -- A write over what the same write has left.
  rewrite-settled :
      (i : StoreWrite) (r : DocumentRow) (rows : List ChunkRow)
      → updated_row i r ≡ r
      → write_document hash i false (updated_row i r) (replaced_chunks hash i rows).0
        ≡ record { row = some r; chunks = (replaced_chunks hash i rows).0 }
  unfolding write_document
  rewrite-settled i r rows e =
      λ k. record { row = some (grown-again i r rows e k); chunks = replaced-rows i rows k }

  may_write-own :
      (i : StoreWrite) (r : DocumentRow)
      → r.active_run_id ≡ some i.workflow_run_id
      → may_write r.active_run_id i.workflow_run_id ≡ true
  unfolding may_write
  may_write-own i r e = rw e (eq_refl i.workflow_run_id)

  store-settled :
      (i : StoreWrite) (r : DocumentRow) (rows : List ChunkRow)
      → r.active_run_id ≡ some i.workflow_run_id
      → updated_row i r ≡ r
      → store_processed_document hash i
          (record { row = some r; chunks = (replaced_chunks hash i rows).0 })
        ≡ (some false, record { row = some r; chunks = (replaced_chunks hash i rows).0 })
  unfolding store_processed_document
  store-settled i r rows o e =
      if-of_true (may_write r.active_run_id i.workflow_run_id) _ _ (may_write-own i r o)
      ∙ ap (λ d. (some false, d)) (rewrite-settled i r rows e)

  inserted-retried :
      (i : StoreWrite) (n : ℕ)
      → (store_processed_document hash i (record {
        row = some (grown_row i true n (inserted_row i));
        chunks = (replaced_chunks hash i []).0;
      })).1
        ≡ record {
          row = some (grown_row i true n (inserted_row i));
          chunks = (replaced_chunks hash i []).0;
        }
  unfolding inserted_row
  inserted-retried i n =
      ap (λ (p : Option Bool × Document). p.1)
        (store-settled i (grown_row i true n (inserted_row i)) []
          (grown-owner i true n (inserted_row i)) (inserted-settled i n))

  updated-retried :
      (i : StoreWrite) (n : ℕ) (r : DocumentRow) (rows : List ChunkRow)
      → (store_processed_document hash i (record {
        row = some (grown_row i false n (updated_row i r));
        chunks = (replaced_chunks hash i rows).0;
      })).1
        ≡ record {
          row = some (grown_row i false n (updated_row i r));
          chunks = (replaced_chunks hash i rows).0;
        }
  unfolding updated_row
  updated-retried i n r rows =
      ap (λ (p : Option Bool × Document). p.1)
        (store-settled i (grown_row i false n (updated_row i r)) rows
          (grown-owner i false n (updated_row i r)) (updated-settled i n r))

  store-retried :
      (i : StoreWrite) (row : Option DocumentRow) (rows : List ChunkRow)
      → let d = (store_processed_document hash i (record { row = row; chunks = rows })).1 in
        (store_processed_document hash i d).1 ≡ d
  unfolding store_processed_document write_document
  store-retried i none rows = inserted-retried i (replaced_chunks hash i []).1
  store-retried i (some r) rows =
      if_cases {A = Option Bool × Document} (λ p. (store_processed_document hash i p.1).1 ≡ p.1)
        (may_write r.active_run_id i.workflow_run_id) _ _
        (λ h. updated-retried i (replaced_chunks hash i rows).1 r rows)
        (λ h.
          ap (λ (p : Option Bool × Document). p.1)
            (if-of_false (may_write r.active_run_id i.workflow_run_id) _ _ h))

  -- A store that is run again leaves the document as it was after the first time, row, counters and
  -- chunks, whether it replaces the chunks or appends, and whether the document was there or not.
  pub store_processed_document-retried :
      (i : StoreWrite) (d : Document)
      → (store_processed_document hash i (store_processed_document hash i d).1).1
        ≡ (store_processed_document hash i d).1
  store_processed_document-retried i d = store-retried i d.row d.chunks
