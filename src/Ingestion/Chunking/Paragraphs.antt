-- ===== src/Ingestion/Chunking/Paragraphs.antt =====
-- `_chunk_by_paragraphs`.
use inherent.Prelude.{
  ℕ, suc, ◌+◌, String, ◌&&◌, Option, none, some, List, [], ◌∷◌, ◌++◌, length, ltb, ◌==◌,
  if◌then◌else◌,
}
use inherent.Prelude.Text.{starts_with}
use inherent.Ingestion.Chunking.Text.{strip, drop}
use inherent.Ingestion.Chunking.Size.{ChunkData, next_index}

abbrev pub push : ℕ → List (List ℕ) → List (List ℕ)
push c [] = (c ∷ []) ∷ []
push c (p ∷ ps) = (c ∷ p) ∷ ps

-- `text.split("\n\n")`
unfoldable pub split_paragraphs : List ℕ → List (List ℕ)
split_paragraphs [] = [] ∷ []
split_paragraphs (c ∷ []) = (c ∷ []) ∷ []
split_paragraphs (c ∷ d ∷ s) =
    let after = split_paragraphs s in
    let along = split_paragraphs (d ∷ s) in if c == 10 && d == 10 then [] ∷ after else push c along

-- `text.find(needle, pos)` of a needle that is not empty, on the text from pos on
unfoldable pub find_from : List ℕ → List ℕ → ℕ → Option ℕ
unfolding starts_with
find_from needle [] pos = none
find_from needle (c ∷ s) pos =
    let later = find_from needle s (suc pos) in
    if starts_with (c ∷ s) needle then some pos else later

-- A paragraph with its span.
pub record Entry : Type 0 where
  pub para : List ℕ
  pub start : ℕ
  pub end : ℕ

-- Where the paragraph is found, or else the start of its block.
abbrev pub located : Option ℕ → ℕ → ℕ
located none block_start = block_start
located (some idx) block_start = idx

module _ (text : List ℕ) where
  -- An empty paragraph is skipped.
  unfoldable pub add_entry : List ℕ → ℕ → List Entry → List Entry
  add_entry [] block_start entries = entries
  add_entry (c ∷ s) block_start entries =
      let idx = located (find_from (c ∷ s) (drop block_start text) block_start) block_start in
      record { para = c ∷ s; start = idx; end = idx + length (c ∷ s) } ∷ entries

  unfoldable pub entries_from : List (List ℕ) → ℕ → List Entry
  entries_from [] cursor = []
  entries_from (raw ∷ raws) cursor =
      let later = entries_from raws (cursor + (length raw + 2)) in
      add_entry (strip raw) cursor later

  unfoldable pub paragraph_entries : List Entry
  paragraph_entries = entries_from (split_paragraphs text) 0

-- The loop that fills one chunk after another.
unfoldable pub pack : ℕ → List Entry → ℕ → List Entry → List (List Entry)
pack max_size [] current_size [] = []
pack max_size (e ∷ current) current_size [] = (e ∷ current) ∷ []
pack max_size [] current_size (e ∷ entries) =
    pack max_size (e ∷ []) (current_size + length e.para) entries
pack max_size (c ∷ current) current_size (e ∷ entries) =
    let flushed = pack max_size (e ∷ []) (length e.para) entries in
    let grown = pack max_size (c ∷ (current ++ (e ∷ []))) (current_size + length e.para) entries in
    if ltb max_size (current_size + length e.para) then (c ∷ current) ∷ flushed else grown

-- `"\n\n".join(...)`
unfoldable pub join_paragraphs : List Entry → List ℕ
join_paragraphs [] = []
join_paragraphs (e ∷ []) = e.para
join_paragraphs (e ∷ f ∷ entries) = e.para ++ (10 ∷ 10 ∷ join_paragraphs (f ∷ entries))

abbrev pub first_start : List Entry → ℕ
first_start [] = 0
first_start (e ∷ entries) = e.start

unfoldable pub last_end : List Entry → ℕ
last_end [] = 0
last_end (e ∷ []) = e.end
last_end (e ∷ f ∷ entries) = last_end (f ∷ entries)

-- `_emit`
unfoldable pub emit_group : String → List ℕ → List Entry → ℕ → List ChunkData → List ChunkData
emit_group document_id [] items index chunks = chunks
emit_group document_id (c ∷ s) items index chunks =
    record {
      document_id = document_id;
      content = c ∷ s;
      chunk_index = index;
      start_char = first_start items;
      end_char = last_end items;
    }
    ∷ chunks

unfoldable pub emit_groups : String → List (List Entry) → ℕ → List ChunkData
emit_groups document_id [] index = []
emit_groups document_id (items ∷ groups) index =
    let content = strip (join_paragraphs items) in
    let rest = emit_groups document_id groups (next_index content index) in
    emit_group document_id content items index rest

unfoldable pub chunk_by_paragraphs : List ℕ → String → ℕ → List ChunkData
chunk_by_paragraphs text document_id max_size =
    emit_groups document_id (pack max_size [] 0 (paragraph_entries text)) 0
