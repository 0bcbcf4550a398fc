-- ===== src/Ingestion/Chunking/Slices.antt =====
-- `_bounded_context` and `_slice_oversized_line`.
use inherent.Prelude.{
  ℕ, zero, suc, ◌+◌, ◌-◌, ◌/◌, min, max, String, Option, none, some, List, [], ◌∷◌, ◌++◌, length,
  leb, ltb, if◌then◌else◌,
}
use inherent.Prelude.Text.{codes, show}
use inherent.Ingestion.Chunking.Text.{strip, slice, take}
use inherent.Ingestion.Chunking.Size.{ChunkData}

unfoldable pub context_cap : ℕ → ℕ
context_cap max_size =
    min (max 20 (min max_size (if ltb 60 max_size then max_size / 3 else max_size))) 500

unfoldable pub bounded_context : List ℕ → ℕ → List ℕ
bounded_context text max_size =
    let cap = context_cap max_size in
    if leb (length text) cap
    then text
    else take cap text ++ (codes "...[+" ++ (codes (show (length text - cap)) ++ codes " chars]"))

-- A context and the blank line below it, if there is any context.
abbrev pub with_gap : List ℕ → List ℕ
with_gap [] = []
with_gap (c ∷ s) = (c ∷ s) ++ (10 ∷ 10 ∷ [])

abbrev pub first_block : List ℕ → ℕ → List ℕ
first_block [] max_size = []
first_block (c ∷ s) max_size = bounded_context (c ∷ s) max_size ++ (10 ∷ 10 ∷ [])

unfoldable pub floor : ℕ → ℕ
floor max_size = max 1 (max_size / 5)

-- The context that every slice begins with, cut once more if it leaves too little.
unfoldable pub context_block : List ℕ → ℕ → List ℕ
context_block context max_size =
    let block = first_block context max_size in
    if ltb max_size (length block + floor max_size)
    then with_gap (take (max_size - (floor max_size + 2)) context)
    else block

unfoldable pub budget : List ℕ → ℕ → ℕ
budget context max_size = max (floor max_size) (max_size - length (context_block context max_size))

module _ (line : List ℕ) (start : ℕ) (document_id : String) (max_size : ℕ) (context : List ℕ) where
  abbrev pub append_slice : ChunkData → Option (List ChunkData) → Option (List ChunkData)
  append_slice c none = none
  append_slice c (some out) = some (c ∷ out)

  -- The rounds of the loop; `none` when they are used up before the loop ends.
  unfoldable pub slice_rounds : ℕ → ℕ → ℕ → Option (List ChunkData)
  slice_rounds zero pos idx = if ltb pos (length line) then none else some []
  slice_rounds (suc fuel) pos idx =
      let piece_end = min (pos + budget context max_size) (length line) in
      let rest = slice_rounds fuel piece_end (suc idx) in
      let piece : ChunkData = record {
        document_id = document_id;
        content = strip (context_block context max_size ++ slice line pos piece_end);
        chunk_index = idx;
        start_char = start + pos;
        end_char = start + piece_end;
      } in
      if ltb pos (length line) then append_slice piece rest else some []

  unfoldable pub slice_oversized_line : ℕ → Option (List ChunkData)
  slice_oversized_line first_index = slice_rounds (length line) 0 first_index
