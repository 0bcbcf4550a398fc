-- ===== src/Ingestion/Store/Flushes.antt =====
-- The flushes of a conversation: each numbers its chunks from the counter on, and appends them.
use inherent.Prelude.{
  ℕ, suc, ◌+◌, ◌≤◌, ◌<◌, String, ◌≡◌, refl, sym, ap, Bool, true, false, Option, some, List, [], ◌∷◌,
  ◌++◌, All, map, length, arith, if-of_true, subst,
}
use inherent.Ingestion.Store.Rows.{
  UploadOrigin, DocumentRow, ChunkInput, ChunkRow, Document, chunk_row, has_index,
}
use inherent.Ingestion.Store.Writes.{
  StoreWrite, may_write, updated_row, grown_row, replaced_chunks, write_document,
  store_processed_document,
}
use inherent.Ingestion.Store.Inserted.{IsDistinct, insert_chunks-append}
use inherent.Ingestion.Store.Counters.{rows_of, grown-count, length-rows}

-- Chunks that are numbered one after another.
abbrev pub IsNumbered : ℕ → List ChunkInput → Type 0
IsNumbered n [] = Unit
IsNumbered n (c ∷ chunks) = (c.chunk_index ≡ n) × IsNumbered (suc n) chunks

-- All indices are below the counter.
abbrev pub IsBelow : ℕ → List ChunkRow → Type 0
IsBelow n rows = All (λ c. c.chunk_index < n) rows

fresh : (i n : ℕ) (rows : List ChunkRow) → IsBelow n rows → n ≤ i → has_index i rows ≡ false
unfolding has_index
fresh i n [] b l = refl
fresh i n (c ∷ rows) (b, bs) l = ground (arith, fresh i n rows bs l)

IsBelow-append :
    (n m : ℕ) (rows more : List ChunkRow)
    → n ≤ m
    → IsBelow n rows
    → IsBelow m more
    → IsBelow m (rows ++ more)
IsBelow-append n m [] more l b k = k
IsBelow-append n m (c ∷ rows) more l (b, bs) k = (omega arith, IsBelow-append n m rows more l bs k)

module _ (hash : String → String) (o : UploadOrigin) (t : Option ℕ) where
  numbered-fresh :
      (n i : ℕ) (chunks : List ChunkInput)
      → IsNumbered n chunks
      → i < n
      → has_index i (map (chunk_row hash o t) chunks) ≡ false
  unfolding has_index chunk_row
  numbered-fresh n i [] h l = refl
  numbered-fresh n i (c ∷ chunks) (e, h) l =
      let rest = numbered-fresh (suc n) i chunks h (omega arith) in ground (arith, rest)

  numbered-IsDistinct :
      (n : ℕ) (chunks : List ChunkInput)
      → IsNumbered n chunks
      → IsDistinct (map (chunk_row hash o t) chunks)
  unfolding chunk_row
  numbered-IsDistinct n [] h = tt
  numbered-IsDistinct n (c ∷ chunks) (e, h) = (
    numbered-fresh (suc n) c.chunk_index chunks h (omega (arith, e)),
    numbered-IsDistinct (suc n) chunks h,
  )

  numbered-free :
      (n : ℕ) (rows : List ChunkRow) (m : ℕ) (chunks : List ChunkInput)
      → IsBelow n rows
      → n ≤ m
      → IsNumbered m chunks
      → All (λ c. has_index c.chunk_index rows ≡ false) (map (chunk_row hash o t) chunks)
  unfolding chunk_row
  numbered-free n rows m [] b l h = tt
  numbered-free n rows m (c ∷ chunks) b l (e, h) = (
    fresh c.chunk_index n rows b (omega (arith, e)),
    numbered-free n rows (suc m) chunks b (omega arith) h,
  )

  numbered-IsBelow :
      (n : ℕ) (chunks : List ChunkInput)
      → IsNumbered n chunks
      → IsBelow (n + length chunks) (map (chunk_row hash o t) chunks)
  unfolding chunk_row
  numbered-IsBelow n [] h = tt
  numbered-IsBelow n (c ∷ chunks) (e, h) =
      (omega (arith, e), shift (numbered-IsBelow (suc n) chunks h))
    where
      shift :
          IsBelow (suc n + length chunks) (map (chunk_row hash o t) chunks)
          → IsBelow (n + suc (length chunks)) (map (chunk_row hash o t) chunks)
      shift = subst (λ k. IsBelow k (map (chunk_row hash o t) chunks)) (omega arith)

module _ (hash : String → String) where
  -- What a flush leaves: its chunks behind the former ones, a counter that has grown by their
  -- number, and all indices below it.
  pub record IsFlushed (i : StoreWrite) (r : DocumentRow) (rows : List ChunkRow) (d : Document)
      : Type 0 where
    pub row : DocumentRow
    pub stored : d.row ≡ some row
    pub chunks : d.chunks ≡ rows ++ rows_of hash i
    pub count : row.chunk_count ≡ r.chunk_count + length i.chunks
    pub below : IsBelow row.chunk_count d.chunks

  appended :
      (i : StoreWrite) (n : ℕ) (rows : List ChunkRow)
      → i.append ≡ true
      → IsBelow n rows
      → IsNumbered n i.chunks
      → replaced_chunks hash i rows ≡ (rows ++ rows_of hash i, length (rows_of hash i) + 0)
  unfolding replaced_chunks
  appended i n rows a b h = rw a (
      insert_chunks-append (rows_of hash i) rows 0
        (numbered-free hash i.origin i.tenant_id n rows n i.chunks b (omega arith) h)
        (numbered-IsDistinct hash i.origin i.tenant_id n i.chunks h))

  updated-count :
      (i : StoreWrite) (r : DocumentRow)
      → i.append ≡ true
      → (updated_row i r).chunk_count ≡ r.chunk_count
  unfolding updated_row
  updated-count i r a = ground arith

  flushed-count :
      (i : StoreWrite) (r : DocumentRow) (rows : List ChunkRow)
      → i.append ≡ true
      → replaced_chunks hash i rows ≡ (rows ++ rows_of hash i, length (rows_of hash i) + 0)
      → (grown_row i false (replaced_chunks hash i rows).1 (updated_row i r)).chunk_count
        ≡ r.chunk_count + length i.chunks
  flushed-count i r rows a e = omega (
    arith,
    grown-count i false (replaced_chunks hash i rows).1 (updated_row i r) a,
    updated-count i r a,
    ap (λ (p : List ChunkRow × ℕ). p.1) e,
    length-rows hash i.origin i.tenant_id i.chunks,
  )

  write-IsFlushed :
      (i : StoreWrite) (r : DocumentRow) (rows : List ChunkRow)
      → i.append ≡ true
      → IsBelow r.chunk_count rows
      → IsNumbered r.chunk_count i.chunks
      → IsFlushed i r rows (write_document hash i false (updated_row i r) rows)
  unfolding write_document
  write-IsFlushed i r rows a b h =
      let e = appended i r.chunk_count rows a b h in
      let count = flushed-count i r rows a e in
      let chunks = ap (λ (p : List ChunkRow × ℕ). p.0) e in
      let below =
        IsBelow-append r.chunk_count (r.chunk_count + length i.chunks) rows (rows_of hash i)
          (omega arith) b (numbered-IsBelow hash i.origin i.tenant_id r.chunk_count i.chunks h) in
      record {
        row = grown_row i false (replaced_chunks hash i rows).1 (updated_row i r);
        stored = refl;
        chunks = chunks;
        count = count;
        below =
            subst (λ k. IsBelow k (replaced_chunks hash i rows).0) (sym count)
              (subst (λ l. IsBelow (r.chunk_count + length i.chunks) l) (sym chunks) below);
      }

  store-IsFlushed :
      (i : StoreWrite) (r : DocumentRow) (rows : List ChunkRow)
      → may_write r.active_run_id i.workflow_run_id ≡ true
      → i.append ≡ true
      → IsBelow r.chunk_count rows
      → IsNumbered r.chunk_count i.chunks
      → IsFlushed i r rows
          (store_processed_document hash i (record { row = some r; chunks = rows })).1
  unfolding store_processed_document
  store-IsFlushed i r rows m a b h =
      subst (λ (p : Option Bool × Document). IsFlushed i r rows p.1)
        (sym (if-of_true (may_write r.active_run_id i.workflow_run_id) _ _ m))
        (write-IsFlushed i r rows a b h)

  -- A flush into a conversation whose indices are all below its counter, by a run that the fence
  -- lets through, with chunks that are numbered from the counter on: all its chunks are stored, in
  -- order, behind the former ones, the counter grows by their number, and all indices are below it
  -- again.
  pub store_processed_document-IsFlushed :
      (i : StoreWrite) (d : Document) (r : DocumentRow)
      → d.row ≡ some r
      → may_write r.active_run_id i.workflow_run_id ≡ true
      → i.append ≡ true
      → IsBelow r.chunk_count d.chunks
      → IsNumbered r.chunk_count i.chunks
      → IsFlushed i r d.chunks (store_processed_document hash i d).1
  store_processed_document-IsFlushed i d r e m a b h =
      subst
        (λ row.
          IsFlushed i r d.chunks
            (store_processed_document hash i (record { row = row; chunks = d.chunks })).1)
        (sym e) (store-IsFlushed i r d.chunks m a b h)
