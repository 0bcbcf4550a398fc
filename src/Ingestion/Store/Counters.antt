-- ===== src/Ingestion/Store/Counters.antt =====
-- The counter `chunk_count` and the rows that it counts.
use inherent.Prelude.{
  ℕ, suc, ◌+◌, String, ◌≡◌, refl, sym, ap, ◌∙◌, inl, inr, Bool, true, false, Option, none, some,
  List, [], ◌∷◌, All, map, length, arith, Bool-cases, if_cases,
}
use inherent.Ingestion.Store.Rows.{
  UploadOrigin, DocumentRow, ChunkInput, ChunkRow, Document, absent_document, chunk_row, has_index,
}
use inherent.Ingestion.Store.Writes.{
  PendingInput, StatusInput, StoreWrite, Write, claim, set_status, store, pending_row, may_write,
  may_set_status, claim_row, create_pending_document, update_document_status, inserted_row,
  updated_row, grown_row, replaced_chunks, write_document, store_processed_document, apply,
  apply_all,
}
use inherent.Ingestion.Store.Inserted.{IsDistinct, insert_chunks-length, insert_chunks-append}

abbrev pub CountsRow : Option DocumentRow → List ChunkRow → Type 0
CountsRow none rows = rows ≡ []
CountsRow (some r) rows = r.chunk_count ≡ length rows

-- The counter is the number of the chunks that are stored.
abbrev pub Counts : Document → Type 0
Counts d = CountsRow d.row d.chunks

claim_row-count : (i : PendingInput) (r : DocumentRow) → (claim_row i r).chunk_count ≡ r.chunk_count
unfolding claim_row
claim_row-count i r = ground arith

pub grown-count :
    (i : StoreWrite) (b : Bool) (n : ℕ) (r : DocumentRow)
    → i.append ≡ true
    → (grown_row i b n r).chunk_count ≡ r.chunk_count + n
unfolding grown_row
grown-count i b n r h = ground arith

grown-replaced :
    (i : StoreWrite) (b : Bool) (n : ℕ) (r : DocumentRow) → i.append ≡ false → grown_row i b n r ≡ r
unfolding grown_row
grown-replaced i b n r h = rw h

free_in_none : (chunks : List ChunkRow) → All (λ c. has_index c.chunk_index [] ≡ false) chunks
unfolding has_index
free_in_none [] = tt
free_in_none (c ∷ chunks) = (refl, free_in_none chunks)

module _ (hash : String → String) where
  abbrev pub rows_of : StoreWrite → List ChunkRow
  rows_of i = map (chunk_row hash i.origin i.tenant_id) i.chunks

  pub length-rows :
      (o : UploadOrigin) (t : Option ℕ) (chunks : List ChunkInput)
      → length (map (chunk_row hash o t) chunks) ≡ length chunks
  length-rows o t [] = refl
  length-rows o t (c ∷ chunks) = ap suc (length-rows o t chunks)

  -- A write whose chunks have distinct indices.
  abbrev pub HasDistinct : Write → Type 0
  HasDistinct (store i) = IsDistinct (rows_of i)
  HasDistinct w = Unit

  -- The counter of a row that is written over rows of which `count` are counted before.
  write-Counts :
      (i : StoreWrite) (b : Bool) (r : DocumentRow) (rows : List ChunkRow)
      → IsDistinct (rows_of i)
      → (i.append ≡ true → r.chunk_count ≡ length rows)
      → (i.append ≡ false → r.chunk_count ≡ length i.chunks)
      → Counts (write_document hash i b r rows)
  unfolding write_document replaced_chunks
  write-Counts i b r rows d p q = elim (Bool-cases i.append) [
    | inl appends ↦
        grown-count i b _ r appends
        ∙ rw appends (omega (arith, p appends, insert_chunks-length (rows_of i) rows 0))
    | inr replaces ↦
        ap (λ (s : DocumentRow). s.chunk_count) (grown-replaced i b _ r replaces)
        ∙ q replaces
        ∙ rw replaces (
            sym (length-rows i.origin i.tenant_id i.chunks)
            ∙ sym (
                ap (λ (p : List ChunkRow × ℕ). length p.0)
                  (insert_chunks-append (rows_of i) [] 0 (free_in_none (rows_of i)) d)))
  ]

  inserted-Counts :
      (i : StoreWrite)
      → IsDistinct (rows_of i)
      → Counts (write_document hash i true (inserted_row i) [])
  unfolding inserted_row
  inserted-Counts i d =
      write-Counts i true (inserted_row i) [] d (λ h. ground arith) (λ h. ground arith)

  updated-Counts :
      (i : StoreWrite) (r : DocumentRow) (rows : List ChunkRow)
      → IsDistinct (rows_of i)
      → r.chunk_count ≡ length rows
      → Counts (write_document hash i false (updated_row i r) rows)
  unfolding updated_row
  updated-Counts i r rows d c =
      write-Counts i false (updated_row i r) rows d (λ h. ground arith) (λ h. ground arith)

  store-Counts :
      (i : StoreWrite) (row : Option DocumentRow) (rows : List ChunkRow)
      → IsDistinct (rows_of i)
      → CountsRow row rows
      → Counts (store_processed_document hash i (record { row = row; chunks = rows })).1
  unfolding store_processed_document
  store-Counts i none rows d c = inserted-Counts i d
  store-Counts i (some r) rows d c =
      if_cases {A = Option Bool × Document} (λ p. Counts p.1)
        (may_write r.active_run_id i.workflow_run_id) _ _ (λ h. updated-Counts i r rows d c)
        (λ h. c)

  claim-Counts :
      (i : PendingInput) (row : Option DocumentRow) (rows : List ChunkRow)
      → CountsRow row rows
      → Counts (create_pending_document i (record { row = row; chunks = rows })).1
  unfolding create_pending_document pending_row
  claim-Counts i none rows c = claim_row-count i (pending_row i) ∙ sym (ap length c)
  claim-Counts i (some r) rows c = claim_row-count i r ∙ c

  status-Counts :
      (i : StatusInput) (row : Option DocumentRow) (rows : List ChunkRow)
      → CountsRow row rows
      → Counts (update_document_status i (record { row = row; chunks = rows })).1
  unfolding update_document_status
  status-Counts i none rows c = c
  status-Counts i (some r) rows c =
      if_cases {A = Bool × Document} (λ p. Counts p.1)
        (may_set_status i.workflow_run_id r.active_run_id) _ _ (λ h. c) (λ h. c)

  apply-Counts : (w : Write) (d : Document) → HasDistinct w → Counts d → Counts (apply hash w d)
  unfolding apply
  apply-Counts (claim i) d k c = claim-Counts i d.row d.chunks c
  apply-Counts (set_status i) d k c = status-Counts i d.row d.chunks c
  apply-Counts (store i) d k c = store-Counts i d.row d.chunks k c

  apply_all-keeps :
      (writes : List Write) (d : Document)
      → All HasDistinct writes
      → Counts d
      → Counts (apply_all hash writes d)
  unfolding apply_all
  apply_all-keeps [] d k c = c
  apply_all-keeps (w ∷ writes) d (k, ks) c =
      apply_all-keeps writes (apply hash w d) ks (apply-Counts w d k c)

  -- After any writes of any runs to a new document, claims, status writes, replacing and appending
  -- stores, fenced and repeated ones too, its `chunk_count` is the number of its chunk rows. The
  -- chunks of one store have distinct indices.
  pub apply_all-Counts :
      (writes : List Write)
      → All HasDistinct writes
      → Counts (apply_all hash writes absent_document)
  apply_all-Counts writes k = apply_all-keeps writes absent_document k refl
