-- ===== src/Ingestion/Store/Inserted.antt =====
-- `INSERT ... ON CONFLICT DO NOTHING` of the chunks of a store.
use inherent.Prelude.{
  ℕ, suc, ◌+◌, ◌≡◌, refl, sym, ◌∙◌, true, false, ◌||◌, List, [], ◌∷◌, ◌++◌, All, length,
  length-append, arith, if_cases, append_assoc, append-nil,
}
use inherent.Ingestion.Store.Rows.{ChunkRow, has_index, insert_chunk, insert_chunks}

pair_path {ℓ κ} :
    {A : Type ℓ} {B : Type κ} {a a' : A} {b b' : B}
    → a ≡ a'
    → b ≡ b'
    → ◌≡◌ {A = A × B} (a, b) (a', b')
pair_path p q = λ i. (p i, q i)

abbrev pub IsPresent : List ChunkRow → ChunkRow → Type 0
IsPresent rows c = has_index c.chunk_index rows ≡ true

-- The chunks' indices are distinct.
abbrev pub IsDistinct : List ChunkRow → Type 0
IsDistinct [] = Unit
IsDistinct (c ∷ chunks) = (has_index c.chunk_index chunks ≡ false) × IsDistinct chunks

pub has_index-append :
    (i : ℕ) (rows more : List ChunkRow)
    → has_index i (rows ++ more) ≡ (has_index i rows || has_index i more)
unfolding has_index
has_index-append i [] more = refl
has_index-append i (c ∷ rows) more = ground (arith, has_index-append i rows more)

has_index-insert :
    (i : ℕ) (c : ChunkRow) (rows : List ChunkRow) (n : ℕ)
    → has_index i rows ≡ true
    → has_index i (insert_chunk c (rows, n)).0 ≡ true
unfolding insert_chunk
has_index-insert i c rows n h = ground (arith, has_index-append i rows (c ∷ []))

insert_chunk-IsPresent :
    (c : ChunkRow) (rows : List ChunkRow) (n : ℕ) → IsPresent (insert_chunk c (rows, n)).0 c
unfolding insert_chunk has_index
insert_chunk-IsPresent c rows n = ground (arith, has_index-append c.chunk_index rows (c ∷ []))

has_index-insert_chunks :
    (i : ℕ) (chunks rows : List ChunkRow) (n : ℕ)
    → has_index i rows ≡ true
    → has_index i (insert_chunks chunks (rows, n)).0 ≡ true
unfolding insert_chunks
has_index-insert_chunks i [] rows n h = h
has_index-insert_chunks i (c ∷ chunks) rows n h =
    has_index-insert_chunks i chunks (insert_chunk c (rows, n)).0 (insert_chunk c (rows, n)).1
      (has_index-insert i c rows n h)

-- After an insertion every chunk's index is there.
pub insert_chunks-IsPresent :
    (chunks rows : List ChunkRow) (n : ℕ)
    → All (IsPresent (insert_chunks chunks (rows, n)).0) chunks
unfolding insert_chunks
insert_chunks-IsPresent [] rows n = tt
insert_chunks-IsPresent (c ∷ chunks) rows n =
    let next = insert_chunk c (rows, n) in
    (
      has_index-insert_chunks c.chunk_index chunks next.0 next.1 (insert_chunk-IsPresent c rows n),
      insert_chunks-IsPresent chunks next.0 next.1,
    )

-- Where they all are there, nothing is inserted.
pub insert_chunks-none :
    (chunks rows : List ChunkRow) (n : ℕ)
    → All (IsPresent rows) chunks
    → insert_chunks chunks (rows, n) ≡ (rows, n)
unfolding insert_chunks insert_chunk
insert_chunks-none [] rows n h = refl
insert_chunks-none (c ∷ chunks) rows n (h, hs) = rw h (insert_chunks-none chunks rows n hs)

insert_chunk-length :
    (c : ChunkRow) (rows : List ChunkRow) (n : ℕ)
    → length (insert_chunk c (rows, n)).0 + n ≡ length rows + (insert_chunk c (rows, n)).1
unfolding insert_chunk
insert_chunk-length c rows n =
    if_cases {A = List ChunkRow × ℕ} (λ p. length p.0 + n ≡ length rows + p.1)
      (has_index c.chunk_index rows) _ _ (λ h. refl)
      (λ h. omega (arith, length-append rows (c ∷ [])))

-- The count is that of the inserted rows.
pub insert_chunks-length :
    (chunks rows : List ChunkRow) (n : ℕ)
    → length (insert_chunks chunks (rows, n)).0 + n
      ≡ length rows + (insert_chunks chunks (rows, n)).1
unfolding insert_chunks
insert_chunks-length [] rows n = refl
insert_chunks-length (c ∷ chunks) rows n =
    let next = insert_chunk c (rows, n) in
    omega (arith, insert_chunks-length chunks next.0 next.1, insert_chunk-length c rows n)

free-append :
    (c : ChunkRow) (chunks rows : List ChunkRow)
    → has_index c.chunk_index chunks ≡ false
    → All (λ b. has_index b.chunk_index rows ≡ false) chunks
    → All (λ b. has_index b.chunk_index (rows ++ (c ∷ [])) ≡ false) chunks
unfolding has_index
free-append c [] rows d h = tt
free-append c (b ∷ chunks) rows d (h, hs) = (
  ground (arith, has_index-append b.chunk_index rows (c ∷ [])),
  free-append c chunks rows (ground arith) hs,
)

-- Chunks with free and distinct indices are all inserted, in order.
pub insert_chunks-append :
    (chunks rows : List ChunkRow) (n : ℕ)
    → All (λ c. has_index c.chunk_index rows ≡ false) chunks
    → IsDistinct chunks
    → insert_chunks chunks (rows, n) ≡ (rows ++ chunks, length chunks + n)
unfolding insert_chunks insert_chunk
insert_chunks-append [] rows n h d = pair_path (sym (append-nil rows)) (omega arith)
insert_chunks-append (c ∷ chunks) rows n (h, hs) (d, ds) = rw h (
    insert_chunks-append chunks (rows ++ (c ∷ [])) (suc n) (free-append c chunks rows d hs) ds
    ∙ pair_path (append_assoc rows (c ∷ []) chunks) (omega arith))
