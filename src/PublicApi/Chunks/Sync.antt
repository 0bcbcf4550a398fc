-- ===== src/PublicApi/Chunks/Sync.antt =====
-- What it means that the two stores hold the same chunks with the same texts.
use inherent.Prelude.{
  ℕ, ◌+◌, String, ◌≡◌, ◌≢◌, refl, sym, ap, subst, ◌∙◌, inl, inr, true, false, Option, none, some,
  List, ◌∷◌, arith, ◌==◌, Bool-cases,
}
use inherent.PublicApi.Chunks.Stores.{
  DocumentChunk, VectorObject, Stores, find, next_index, remove, replace, set_vector, chunk_of,
}
use inherent.PublicApi.Chunks.Rows.{find-next_index, find-remove, find-replace, in_place}

abbrev pub row_content : Option DocumentChunk → Option String
row_content none = none
row_content (some c) = some c.content

abbrev pub vector_content : Option VectorObject → Option String
vector_content none = none
vector_content (some o) = some o.content

-- The vector of a chunk is there exactly if its row is, and was computed from the row's text.
unfoldable pub AgreesAt : Stores → ℕ → Type 0
AgreesAt s i = vector_content (s.vectors i) ≡ row_content (find i s.rows)

unfoldable pub IsSynced : Stores → Type 0
unfolding AgreesAt
IsSynced s = (i : ℕ) → AgreesAt s i

-- In sync but for the index `i`, where there is a text in the row and another in the vector.
pub record IsSyncedBut (i : ℕ) (row vector : Option String) (s : Stores) : Type 0 where
  pub at_row : row_content (find i s.rows) ≡ row
  pub at_vector : vector_content (s.vectors i) ≡ vector
  pub elsewhere : (j : ℕ) → (i == j) ≡ false → AgreesAt s j
  pub known : s.fields ≢ none

same_index : (i j : ℕ) → (i == j) ≡ true → i ≡ j
same_index i j h = ground arith

-- An index where both have the same text completes the agreement.
pub IsSynced-complete :
    (i : ℕ) (text : Option String) (s : Stores) → IsSyncedBut i text text s → IsSynced s
unfolding IsSynced AgreesAt
IsSynced-complete i text s but j = elim (Bool-cases (i == j)) [
  | inl same ↦
      subst (λ j. vector_content (s.vectors j) ≡ row_content (find j s.rows)) (same_index i j same)
        (but.at_vector ∙ sym but.at_row)
  | inr other ↦ but.elsewhere j other
]

same_index_refl : (i : ℕ) → (i == i) ≡ true
same_index_refl i = ground arith

rewritten :
    (new : DocumentChunk) (row : String) (o : Option DocumentChunk)
    → row_content o ≡ some row
    → row_content (in_place new o) ≡ some new.content
rewritten new row none h = absurd (ground arith)
rewritten new row (some c) h = refl

in_place-some :
    (new : DocumentChunk) (row : String) (o : Option DocumentChunk)
    → row_content o ≡ some row
    → in_place new o ≡ some new
in_place-some new row none h = absurd (ground arith)
in_place-some new row (some c) h = refl

-- A rewritten row is found.
pub find-replace_self :
    (new : DocumentChunk) (row : String) (rows : List DocumentChunk)
    → row_content (find new.chunk_index rows) ≡ some row
    → find new.chunk_index (replace new rows) ≡ some new
find-replace_self new row rows there =
    find-replace new new.chunk_index rows
    ∙ rw (same_index_refl new.chunk_index) (in_place-some new row (find new.chunk_index rows) there)

pub unset : (o : Option VectorObject) → vector_content o ≡ none → o ≡ none
unset none h = refl
unset (some c) h = absurd (ground arith)

-- A create's row, before its vector.
pub append-IsSyncedBut :
    (hash : String → String) (content : String) (s : Stores)
    → IsSynced s
    → s.fields ≢ none
    → IsSyncedBut (next_index s.rows) (some content) none (record s {
      rows = chunk_of hash (next_index s.rows) content ∷ s.rows;
      chunk_count = s.chunk_count + 1;
    })
unfolding IsSynced AgreesAt find
append-IsSyncedBut hash content s synced known = record {
  at_row = ground arith;
  at_vector = synced (next_index s.rows) ∙ ap row_content (find-next_index s.rows);
  elsewhere = λ j other. rw other (synced j);
  known = known;
}

-- A row taken away.
pub remove-IsSyncedBut :
    (i : ℕ) (row vector : Option String) (n : ℕ) (s : Stores)
    → IsSyncedBut i row vector s
    → IsSyncedBut i none vector (record s { rows = remove i s.rows; chunk_count = n })
unfolding AgreesAt
remove-IsSyncedBut i row vector n s but = record {
  at_row = let here = find-remove i i s.rows in ground arith;
  at_vector = but.at_vector;
  elsewhere = λ j other.
      but.elsewhere j other ∙ ap row_content (sym (find-remove i j s.rows ∙ rw other refl));
  known = but.known;
}

-- A row rewritten.
pub replace-IsSyncedBut :
    (i : ℕ) (row : String) (vector : Option String) (new : DocumentChunk) (s : Stores)
    → new.chunk_index ≡ i
    → IsSyncedBut i (some row) vector s
    → IsSyncedBut i (some new.content) vector (record s { rows = replace new s.rows })
unfolding AgreesAt
replace-IsSyncedBut i row vector new s index but = record {
  at_row =
      ap row_content (find-replace new i s.rows ∙ rw (index, same_index_refl i) refl)
      ∙ rewritten new row (find i s.rows) but.at_row;
  at_vector = but.at_vector;
  elsewhere = λ j other.
      but.elsewhere j other
      ∙ ap row_content (sym (find-replace new j s.rows ∙ rw (index, other) refl));
  known = but.known;
}

-- A vector written or taken away.
pub set_vector-IsSyncedBut :
    (i : ℕ) (row vector : Option String) (o : Option VectorObject) (s : Stores)
    → IsSyncedBut i row vector s
    → IsSyncedBut i row (vector_content o) (record s { vectors = set_vector i o s.vectors })
unfolding AgreesAt set_vector
set_vector-IsSyncedBut i row vector o s but = record {
  at_row = but.at_row;
  at_vector = ground arith;
  elsewhere = λ j other. rw other (but.elsewhere j other);
  known = but.known;
}
