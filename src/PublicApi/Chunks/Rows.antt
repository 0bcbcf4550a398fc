-- ===== src/PublicApi/Chunks/Rows.antt =====
-- Lookups in the rows after an insert, a delete and an update.
use inherent.Prelude.{
  ℕ, ◌≤◌, ◌≡◌, refl, inl, inr, Option, none, some, List, [], ◌∷◌, arith, ◌==◌, Bool-cases,
  if◌then◌else◌,
}
use inherent.PublicApi.Chunks.Stores.{DocumentChunk, find, next_index, remove, replace}

-- An index from the next one on is free.
find-above : (i : ℕ) (rows : List DocumentChunk) → next_index rows ≤ i → find i rows ≡ none
unfolding find next_index
find-above i [] h = refl
find-above i (c ∷ rows) h = let rest = find-above i rows (omega arith) in ground arith

pub find-next_index : (rows : List DocumentChunk) → find (next_index rows) rows ≡ none
find-next_index rows = find-above (next_index rows) rows (omega arith)

pub find-remove :
    (i j : ℕ) (rows : List DocumentChunk)
    → find j (remove i rows) ≡ (if i == j then none else find j rows)
unfolding find remove
find-remove i j [] = ground arith
find-remove i j (c ∷ rows) = let rest = find-remove i j rows in ground arith

pub find-index :
    (i : ℕ) (rows : List DocumentChunk) (c : DocumentChunk)
    → find i rows ≡ some c
    → c.chunk_index ≡ i
unfolding find
find-index i [] c h = absurd (ground arith)
find-index i (d ∷ rows) c h = elim (Bool-cases (d.chunk_index == i)) [
  | inl same ↦ ground arith
  | inr other ↦ find-index i rows c (ground arith)
]

abbrev pub in_place : DocumentChunk → Option DocumentChunk → Option DocumentChunk
in_place new none = none
in_place new (some c) = some new

pub find-replace :
    (new : DocumentChunk) (j : ℕ) (rows : List DocumentChunk)
    → find j (replace new rows)
      ≡ (if new.chunk_index == j then in_place new (find j rows) else find j rows)
unfolding find replace
find-replace new j [] = ground arith
find-replace new j (d ∷ rows) = let rest = find-replace new j rows in ground arith
