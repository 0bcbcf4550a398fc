-- ===== src/Ingestion/Chunking/Size.antt =====
-- `_chunk_by_size`.
use inherent.Prelude.{
  ℕ, zero, suc, ◌+◌, ◌-◌, min, String, Bool, false, Option, none, some, List, [], ◌∷◌, length, ltb,
  ◌==◌, if◌then◌else◌,
}
use inherent.Ingestion.Chunking.Text.{strip, slice, get_elem?}

pub record ChunkData : Type 0 where
  pub document_id : String
  pub content : List ℕ
  pub chunk_index : ℕ
  pub start_char : ℕ
  pub end_char : ℕ

abbrev pub is_blank : Option ℕ → Bool
is_blank none = false
is_blank (some c) = c == 32

-- `text.rfind(" ", start, end)`, where the code asks whether it is above start.
unfoldable pub last_space : List ℕ → ℕ → ℕ → Option ℕ
last_space text start zero = none
last_space text start (suc i) =
    let before = last_space text start i in
    if ltb i start then none else if is_blank (get_elem? text i) then some i else before

-- The end of the chunk that starts there: at a word boundary, unless it is the last.
unfoldable pub word_end : ℕ → ℕ → Option ℕ → ℕ
word_end start end none = end
word_end start end (some space) = if ltb start space then space else end

-- Append the chunk, unless it is empty.
unfoldable pub emit :
    String → List ℕ → ℕ → ℕ → ℕ → Option (List ChunkData) → Option (List ChunkData)
emit document_id content index start end none = none
emit document_id [] index start end (some chunks) = some chunks
emit document_id (c ∷ s) index start end (some chunks) = some (
    record {
      document_id = document_id;
      content = c ∷ s;
      chunk_index = index;
      start_char = start;
      end_char = end;
    }
    ∷ chunks)

abbrev pub next_index : List ℕ → ℕ → ℕ
next_index [] index = index
next_index (c ∷ s) index = suc index

module _ (text : List ℕ) (document_id : String) (max_size overlap : ℕ) where
  unfoldable pub chunk_end : ℕ → ℕ
  chunk_end start =
      let end = min (start + max_size) (length text) in
      if ltb end (length text) then word_end start end (last_space text start end) else end

  unfoldable pub next_start : ℕ → ℕ → ℕ
  next_start start end = if ltb (start + overlap) end then end - overlap else end

  -- The rounds of the loop; `none` when they are used up before the loop ends.
  unfoldable pub rounds : ℕ → ℕ → ℕ → Option (List ChunkData)
  rounds zero start index = if ltb start (length text) then none else some []
  rounds (suc fuel) start index =
      let end = chunk_end start in
      let content = strip (slice text start end) in
      let rest = rounds fuel (next_start start end) (next_index content index) in
      if ltb start (length text) then emit document_id content index start end rest else some []

  -- A round moves the start, so there are no more of them than characters.
  unfoldable pub chunk_by_size : Option (List ChunkData)
  chunk_by_size = rounds (length text) 0 0
