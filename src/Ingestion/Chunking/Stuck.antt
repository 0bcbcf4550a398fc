-- ===== src/Ingestion/Chunking/Stuck.antt =====
-- The loop of `_chunk_by_size` for a size of nothing.
use inherent.Prelude.{
  ℕ, zero, suc, ◌+◌, ◌-◌, ◌<◌, min, String, ◌≡◌, refl, ap, ◌∙◌, Option, none, some, List, length,
  arith, ltb, if◌then◌else◌, if-of_true, lt→ltb,
}
use inherent.Ingestion.Chunking.Text.{strip, slice}
use inherent.Ingestion.Chunking.Size.{
  ChunkData, last_space, word_end, emit, next_index, chunk_end, next_start, rounds,
}
use inherent.Ingestion.Chunking.Cover.{last_space-lt}

module _ (text : List ℕ) (document_id : String) (overlap : ℕ) where
  word_end-eq :
      (start : ℕ) (space : Option ℕ)
      → ((k : ℕ) → space ≡ some k → k < start)
      → word_end start start space ≡ start
  unfolding word_end
  word_end-eq start none below = refl
  word_end-eq start (some k) below = let b = below k refl in ground arith

  next_start-eq :
      (start : ℕ)
      → start < length text
      → next_start text document_id 0 overlap start (chunk_end text document_id 0 overlap start)
        ≡ start
  unfolding next_start chunk_end
  next_start-eq start h =
      let here : min (start + 0) (length text) ≡ start = omega arith in
      let stays : chunk_end text document_id 0 overlap start ≡ start =
        ap (λ e. if ltb e (length text) then word_end start e (last_space text start e) else e) here
        ∙ if-of_true _ _ _ (lt→ltb _ _ h)
        ∙ word_end-eq start (last_space text start start) (last_space-lt text start start) in
      ap (λ e. if ltb (start + overlap) e then e - overlap else e) stays ∙ ground arith

  emit-none :
      (content : List ℕ) (index start end : ℕ) (rest : Option (List ChunkData))
      → rest ≡ none
      → emit document_id content index start end rest ≡ none
  unfolding emit
  emit-none content index start end none h = refl
  emit-none content index start end (some cs) h = absurd (ground arith)

  -- With a size of 0 the loop on a text that is not empty never ends, whatever the overlap: no
  -- number of rounds is enough.
  pub rounds-eq-none :
      (fuel start index : ℕ)
      → start < length text
      → rounds text document_id 0 overlap fuel start index ≡ none
  unfolding rounds
  rounds-eq-none zero start index h = if-of_true _ _ _ (lt→ltb _ _ h)
  rounds-eq-none (suc fuel) start index h =
      let end = chunk_end text document_id 0 overlap start in
      let content = strip (slice text start end) in
      let stays = next_start-eq start h in
      if-of_true _ _ _ (lt→ltb _ _ h)
      ∙ emit-none content index start end _ (
          rounds-eq-none fuel (next_start text document_id 0 overlap start end)
            (next_index content index) (omega (arith, stays)))
