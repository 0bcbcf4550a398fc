-- ===== src/Ingestion/Chunking/Cover.antt =====
-- What the rounds of `_chunk_by_size` leave.
use inherent.Prelude.{
  ℕ, zero, suc, ◌+◌, ◌-◌, ◌≤◌, ◌<◌, min, String, ◌≡◌, refl, sym, ◌∙◌, subst, Bool, true, false,
  ◌&&◌, ◌||◌, Option, none, some, List, [], ◌∷◌, length, arith, leb, ltb, if-eq_of_true,
  if-eq_of_false, if_elim, ltb→lt, if-of_true, if-of_false, Bool-cases, inl, inr,
}
use inherent.Ingestion.Chunking.Text.{
  is_space, strip, slice, get_elem?, get_elem?-slice, get_elem?-lt, strip-ne_empty,
}
use inherent.Ingestion.Chunking.Size.{
  ChunkData, is_blank, last_space, word_end, emit, next_index, chunk_end, next_start, rounds,
  chunk_by_size,
}

pub last_space-lt : (text : List ℕ) (start i k : ℕ) → last_space text start i ≡ some k → k < i
unfolding last_space
last_space-lt text start zero k h = absurd (ground arith)
last_space-lt text start (suc i) k h = elim (Bool-cases (ltb i start)) [
  | inl below ↦ absurd (ground arith)
  | inr above ↦ elim (Bool-cases (is_blank (get_elem? text i))) [
    | inl blank ↦ ground arith
    | inr other ↦ let earlier = last_space-lt text start i k (ground arith) in omega arith
  ]
]

word_end-bounds :
    (start end : ℕ) (space : Option ℕ)
    → start < end
    → ((k : ℕ) → space ≡ some k → k < end)
    → (start < word_end start end space) × (word_end start end space ≤ end)
unfolding word_end
word_end-bounds start end none h below = (h, omega arith)
word_end-bounds start end (some k) h below = let b = below k refl in (ground arith, ground arith)

-- Does a chunk's span hold the index?
pub in_chunks : ℕ → List ChunkData → Bool
in_chunks i [] = false
in_chunks i (c ∷ chunks) = (leb c.start_char i && ltb i c.end_char) || in_chunks i chunks

-- The chunks are numbered in order, they start one after another from there on, each one is as long
-- as it may be at most and lies in the text, and its content is that span, stripped.
pub IsCut : List ℕ → ℕ → ℕ → ℕ → List ChunkData → Type 0
IsCut text max_size start index [] = Unit
IsCut text max_size start index (c ∷ chunks) =
    (c.chunk_index ≡ index)
    × (start ≤ c.start_char)
    × (c.start_char < c.end_char)
    × (c.end_char ≤ c.start_char + max_size)
    × (c.end_char ≤ length text)
    × (c.content ≡ strip (slice text c.start_char c.end_char))
    × IsCut text max_size (suc c.start_char) (suc index) chunks

IsCut-weaken :
    (text : List ℕ) (max_size a b index : ℕ) (chunks : List ChunkData)
    → a ≤ b
    → IsCut text max_size b index chunks
    → IsCut text max_size a index chunks
unfolding IsCut
IsCut-weaken text max_size a b index [] h cut = tt
IsCut-weaken text max_size a b index (c ∷ chunks) h
      (numbered, from, nonempty, size, within, same, rest) =
    (numbered, omega arith, nonempty, size, within, same, rest)

module _ (text : List ℕ) (document_id : String) (max_size overlap : ℕ) where
  -- A chunk ends after its start, at most max_size further on and within the text.
  chunk_end-bounds :
      (start : ℕ)
      → 1 ≤ max_size
      → start < length text
      → (start < chunk_end text document_id max_size overlap start)
        × (chunk_end text document_id max_size overlap start ≤ start + max_size)
        × (chunk_end text document_id max_size overlap start ≤ length text)
  unfolding chunk_end
  chunk_end-bounds start positive h =
      let end = min (start + max_size) (length text) in
      let (after, before) =
        word_end-bounds start end (last_space text start end) (omega arith)
          (last_space-lt text start end) in
      if_elim (λ e. (start < e) × (e ≤ start + max_size) × (e ≤ length text))
        (ltb end (length text)) _ _ (after, omega arith, omega arith)
        (omega arith, omega arith, omega arith)

  -- The next round starts further on, and not after the end of the chunk.
  next_start-bounds :
      (start end : ℕ)
      → start < end
      → (start < next_start text document_id max_size overlap start end)
        × (next_start text document_id max_size overlap start end ≤ end)
  unfolding next_start
  next_start-bounds start end h = elim (Bool-cases (ltb (start + overlap) end)) [
    | inl back ↦ (ground arith, ground arith)
    | inr along ↦ (ground arith, ground arith)
  ]

  emit-some :
      (content : List ℕ) (index start end : ℕ) (rest : Option (List ChunkData))
      (chunks : List ChunkData)
      → rest ≡ some chunks
      → (cs : List ChunkData) × (emit document_id content index start end rest ≡ some cs)
  unfolding emit
  emit-some content index start end none chunks h = absurd (ground arith)
  emit-some [] index start end (some cs) chunks h = (cs, refl)
  emit-some (c ∷ s) index start end (some cs) chunks h = (_, refl)

  rounds-some :
      (fuel start index : ℕ)
      → 1 ≤ max_size
      → length text ≤ start + fuel
      → (chunks : List ChunkData) × (rounds text document_id max_size overlap fuel start index
          ≡ some chunks)
  unfolding rounds
  rounds-some zero start index positive enough = ([], ground arith)
  rounds-some (suc fuel) start index positive enough =
      let end = chunk_end text document_id max_size overlap start in
      let content = strip (slice text start end) in
      elim (Bool-cases (ltb start (length text))) [
        | inr done ↦ ([], if-of_false _ _ _ done)
        | inl more ↦
            let (after, size, within) = chunk_end-bounds start positive (ltb→lt _ _ more) in
            let (ahead, inside) = next_start-bounds start end after in
            let (rest, e) =
              rounds-some fuel (next_start text document_id max_size overlap start end)
                (next_index content index) positive (omega arith) in
            let (cs, shown) = emit-some content index start end _ rest e in
            (cs, if-of_true _ _ _ more ∙ shown)
      ]

  -- Every index from there on that holds no space is in one of the chunks.
  pub Covers : ℕ → List ChunkData → Type 0
  Covers start chunks =
      (i c : ℕ)
      → start ≤ i
      → get_elem? text i ≡ some c
      → is_space c ≡ false
      → in_chunks i chunks ≡ true

  emit-IsCut :
      (content : List ℕ) (index start end : ℕ) (rest : Option (List ChunkData))
      (chunks : List ChunkData)
      → content ≡ strip (slice text start end)
      → (start < end) × (end ≤ start + max_size) × (end ≤ length text)
      → ((cs : List ChunkData)
          → rest ≡ some cs
          → IsCut text max_size (suc start) (next_index content index) cs × Covers end cs)
      → emit document_id content index start end rest ≡ some chunks
      → IsCut text max_size start index chunks × Covers start chunks
  unfolding emit IsCut Covers in_chunks
  emit-IsCut content index start end none chunks same span ih h = absurd (ground arith)
  emit-IsCut [] index start end (some cs) chunks same span ih h =
      let (cut, covers) = ih cs refl in
      let these : cs ≡ chunks = cc in
      subst (λ l. IsCut text max_size start index l × Covers start l) these
        (
          IsCut-weaken text max_size start (suc start) index cs (omega arith) cut,
          (λ i c from at shown. elim (Bool-cases (ltb i end)) [
            | inl before ↦ absurd (
                strip-ne_empty (slice text start end) (i - start) c
                  (get_elem?-slice text start end i from (ltb→lt _ _ before) ∙ at) shown (sym same))
            | inr after ↦ covers i c (ground arith) at shown
          ]),
        )
  emit-IsCut (d ∷ s) index start end (some cs) chunks same (some_, size, within) ih h =
      let (cut, covers) = ih cs refl in
      let first : ChunkData = record {
        document_id = document_id;
        content = d ∷ s;
        chunk_index = index;
        start_char = start;
        end_char = end;
      } in
      let these : (first ∷ cs) ≡ chunks = cc in
      subst (λ l. IsCut text max_size start index l × Covers start l) these
        (
          (refl, omega arith, some_, size, within, same, cut),
          (λ i c from at shown. elim (Bool-cases (ltb i end)) [
            | inl before ↦ ground arith
            | inr after ↦ let there = covers i c (ground arith) at shown in ground arith
          ]),
        )

  over :
      (start index : ℕ) (chunks : List ChunkData)
      → ltb start (length text) ≡ false
      → ◌≡◌ {A = Option (List ChunkData)} (some []) (some chunks)
      → IsCut text max_size start index chunks × Covers start chunks
  unfolding Covers IsCut
  over start index chunks done h =
      let these : [] ≡ chunks = cc in
      subst (λ l. IsCut text max_size start index l × Covers start l) these
        (tt, (λ i c from at shown. let within = get_elem?-lt text i c at in absurd (ground arith)))

  rounds-IsCut :
      (fuel start index : ℕ) (chunks : List ChunkData)
      → 1 ≤ max_size
      → rounds text document_id max_size overlap fuel start index ≡ some chunks
      → IsCut text max_size start index chunks × Covers start chunks
  unfolding rounds Covers
  rounds-IsCut zero start index chunks positive h = elim (Bool-cases (ltb start (length text))) [
    | inl more ↦ let none_left = if-eq_of_true _ _ _ more h in absurd (ground arith)
    | inr done ↦ over start index chunks done (if-eq_of_false _ _ _ done h)
  ]
  rounds-IsCut (suc fuel) start index chunks positive h =
      let end = chunk_end text document_id max_size overlap start in
      let content = strip (slice text start end) in
      elim (Bool-cases (ltb start (length text))) [
        | inr done ↦ over start index chunks done (if-eq_of_false _ _ _ done h)
        | inl more ↦
            let (after, size, within) = chunk_end-bounds start positive (ltb→lt _ _ more) in
            let (ahead, inside) = next_start-bounds start end after in
            emit-IsCut content index start end _ chunks refl (after, size, within)
              (λ cs e.
                let (cut, covers) =
                  rounds-IsCut fuel (next_start text document_id max_size overlap start end)
                    (next_index content index) cs positive e in
                (
                  IsCut-weaken text max_size (suc start) _ (next_index content index) cs
                      (omega arith) cut,
                  (λ i c from. covers i c (omega arith)),
                ))
              (if-eq_of_true _ _ _ more h)
      ]

  -- With a positive size the loop ends. Its chunks are numbered from 0 and start one after another;
  -- each is the stripped content of a span of the text of at most max_size characters; and every
  -- character of the text that is no space is in the span of some chunk.
  pub chunk_by_size-IsCut :
      1 ≤ max_size
      → (chunks : List ChunkData) × (chunk_by_size text document_id max_size overlap ≡ some chunks)
        × IsCut text max_size 0 0 chunks
        × Covers 0 chunks
  unfolding chunk_by_size
  chunk_by_size-IsCut positive =
      let (chunks, e) = rounds-some (length text) 0 0 positive (omega arith) in
      let (cut, covers) = rounds-IsCut (length text) 0 0 chunks positive e in
      (chunks, e, cut, covers)
