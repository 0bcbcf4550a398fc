-- ===== src/Ingestion/Chunking/Tests.antt =====
-- The chunkers on sample texts, and the theorems there.
use inherent.Prelude.{
  map, ℕ, zero, suc, ◌≤◌, ◌≡◌, refl, none, some, List, [], ◌∷◌, length, All, arith,
}
use inherent.Prelude.Text.{codes, starts_with}
use inherent.Ingestion.Chunking.Text.{is_space, strip, lstrip, rstrip, take, drop, slice, get_elem?}
use inherent.Ingestion.Chunking.Tokens.{
  words_from, words, estimate, estimate_tokens, token_budget_char_cap, estimate_tokens-le,
}
use inherent.Ingestion.Chunking.Size.{
  ChunkData, last_space, word_end, emit, chunk_end, next_start, rounds, chunk_by_size,
}
use inherent.Ingestion.Chunking.Cover.{IsCut, Covers, chunk_by_size-IsCut}
use inherent.Ingestion.Chunking.Stuck.{rounds-eq-none}
use inherent.Ingestion.Chunking.Paragraphs.{
  split_paragraphs, find_from, add_entry, entries_from, paragraph_entries, pack, join_paragraphs,
  last_end, emit_group, emit_groups, chunk_by_paragraphs,
}
use inherent.Ingestion.Chunking.Offsets.{IsExact}
use inherent.Ingestion.Chunking.Order.{InOrder, shown, paras, paragraph_entries-IsExact}
use inherent.Ingestion.Chunking.Packing.{concat, Fits, pack-Fits-All}
use inherent.Ingestion.Chunking.Sliced.{IsSliced, slice_oversized_line-IsSliced}
use inherent.Ingestion.Chunking.Slices.{slice_oversized_line}

-- n + 1 words of one letter, one space apart
abbrev letters : ℕ → List ℕ
letters zero = 97 ∷ []
letters (suc n) = 97 ∷ (32 ∷ letters n)

-- A text at the character cap of 512 tokens, which is estimated at 513.
over_budget :
    (length (letters 393) ≡ token_budget_char_cap 512) × (estimate_tokens (letters 393) ≡ 513)
unfolding is_space words_from words estimate estimate_tokens token_budget_char_cap
over_budget = (refl, refl)

letters_fit : length (letters 393) ≤ token_budget_char_cap 512
unfolding token_budget_char_cap
letters_fit = omega arith

estimate_tokens-le_example : estimate_tokens (letters 393) ≤ 513
estimate_tokens-le_example = estimate_tokens-le (letters 393) 512 (omega arith) letters_fit

abbrev fox : List ℕ
fox = codes "the quick brown fox"

fox_run :
    chunk_by_size fox "d" 12 4
    ≡ some (
        record {
          document_id = "d";
          content = codes "the quick";
          chunk_index = 0;
          start_char = 0;
          end_char = 9;
        }
        ∷ record {
          document_id = "d";
          content = codes "uick brown";
          chunk_index = 1;
          start_char = 5;
          end_char = 15;
        }
        ∷ record {
          document_id = "d";
          content = codes "rown fox";
          chunk_index = 2;
          start_char = 11;
          end_char = 19;
        }
        ∷ record {
          document_id = "d";
          content = codes "fox";
          chunk_index = 3;
          start_char = 15;
          end_char = 19;
        }
        ∷ [])
unfolding is_space lstrip rstrip strip take drop slice get_elem? last_space word_end emit chunk_end
    next_start rounds chunk_by_size codes
fox_run = refl

chunk_by_size-IsCut_example :
    (chunks : List ChunkData) × (chunk_by_size fox "d" 12 4 ≡ some chunks)
    × IsCut fox 12 0 0 chunks
    × Covers fox "d" 12 4 0 chunks
chunk_by_size-IsCut_example = chunk_by_size-IsCut fox "d" 12 4 (omega arith)

rounds-eq-none_example : rounds (97 ∷ []) "d" 0 4 1000 0 0 ≡ none
rounds-eq-none_example = rounds-eq-none (97 ∷ []) "d" 4 1000 0 0 (omega arith)

-- Two paragraphs of two characters each, with a stray space.
abbrev two : List ℕ
two = 97 ∷ 97 ∷ 10 ∷ 10 ∷ 32 ∷ 98 ∷ 98 ∷ []

-- The chunk of both is longer than the maximal size, since the separators do not count.
over_size :
    chunk_by_paragraphs two "d" 4
    ≡ record {
      document_id = "d";
      content = 97 ∷ 97 ∷ 10 ∷ 10 ∷ 98 ∷ 98 ∷ [];
      chunk_index = 0;
      start_char = 0;
      end_char = 7;
    }
      ∷ []
unfolding is_space lstrip rstrip strip drop starts_with split_paragraphs find_from add_entry
    entries_from paragraph_entries pack join_paragraphs last_end emit_group emit_groups
    chunk_by_paragraphs
over_size = refl

paragraph_entries-IsExact_example :
    (paras (paragraph_entries two) ≡ shown (map strip (split_paragraphs two)))
    × All (IsExact two) (paragraph_entries two)
    × InOrder 0 (paragraph_entries two)
paragraph_entries-IsExact_example = paragraph_entries-IsExact two

pack-Fits-All_example :
    (concat (pack 4 [] 0 (paragraph_entries two)) ≡ paragraph_entries two)
    × All (Fits 4) (pack 4 [] 0 (paragraph_entries two))
pack-Fits-All_example = pack-Fits-All 4 (paragraph_entries two)

slice_oversized_line-IsSliced_example :
    (out : List ChunkData) × (slice_oversized_line fox 100 "d" 10 (codes "head") 3 ≡ some out)
    × IsSliced fox 100 (codes "head") 10 0 3 out
slice_oversized_line-IsSliced_example =
    slice_oversized_line-IsSliced fox 100 "d" 10 (codes "head") 3 (omega arith)
