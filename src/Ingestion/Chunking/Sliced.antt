-- ===== src/Ingestion/Chunking/Sliced.antt =====
-- The slices of an oversized line.
use inherent.Prelude.{
  ℕ, zero, suc, ◌+◌, ◌-◌, ◌/◌, ◌≤◌, ◌<◌, min, String, ◌≡◌, ◌⊎◌, refl, ap, ◌∙◌, Option, none, some,
  List, [], ◌∷◌, ◌++◌, length, length-append, arith, ltb, if_elim, if_cases, if-of_true,
  if-of_false, ltb→lt, Bool-cases, inl, inr,
}
use inherent.Ingestion.Chunking.Text.{is_space, strip, lstrip, rstrip, slice, take, drop}
use inherent.Ingestion.Chunking.Size.{ChunkData}
use inherent.Ingestion.Chunking.Slices.{
  with_gap, first_block, floor, context_block, budget, append_slice, slice_rounds,
  slice_oversized_line,
}

length-take : (n : ℕ) (s : List ℕ) → length (take n s) ≤ n
unfolding take
length-take zero s = omega arith
length-take (suc n) [] = omega arith
length-take (suc n) (c ∷ s) = let rest = length-take n s in omega arith

length-lstrip : (s : List ℕ) → length (lstrip s) ≤ length s
unfolding lstrip
length-lstrip [] = omega arith
length-lstrip (c ∷ s) =
    let rest = length-lstrip s in
    if_elim (λ t. length t ≤ suc (length s)) (is_space c) (lstrip s) (c ∷ s) (omega arith)
      (omega arith)

length-rstrip : (s : List ℕ) → length (rstrip s) ≤ length s
unfolding rstrip
length-rstrip [] = omega arith
length-rstrip (c ∷ s) =
    let rest = length-rstrip s in
    if_elim (λ t. length t ≤ suc (length s)) _ [] (c ∷ rstrip s) (omega arith) (omega arith)

length-strip : (s : List ℕ) → length (strip s) ≤ length s
unfolding strip
length-strip s = let left = length-lstrip s in let right = length-rstrip (lstrip s) in omega arith

length-with_gap : (s : List ℕ) (n : ℕ) → length s ≤ n → length (with_gap s) ≤ n + 2
length-with_gap [] n h = omega arith
length-with_gap (c ∷ s) n h = let sum = length-append s (10 ∷ 10 ∷ []) in omega arith

with_gap-take_zero : (s : List ℕ) → length (with_gap (take 0 s)) ≡ 0
unfolding take
with_gap-take_zero s = refl

floor-le : (m : ℕ) → 1 ≤ m → floor m ≤ m
unfolding floor
floor-le m h = omega arith

floor-positive : (m : ℕ) → 1 ≤ floor m
unfolding floor
floor-positive m = omega arith

-- The context leaves the floor.
context_block-le :
    (context : List ℕ) (max_size : ℕ)
    → 1 ≤ max_size
    → length (context_block context max_size) + floor max_size ≤ max_size
unfolding context_block
context_block-le context m h =
    if_cases (λ b. length b + floor m ≤ m) (ltb m (length (first_block context m) + floor m))
      (with_gap (take (m - (floor m + 2)) context)) (first_block context m)
      (λ tight. by_room (m - (floor m + 2)) refl) (λ room. ground arith)
  where
    by_room :
        (left_over : ℕ)
        → (m - (floor m + 2)) ≡ left_over
        → length (with_gap (take left_over context)) + floor m ≤ m
    by_room zero e =
        let none_left = with_gap-take_zero context in let low = floor-le m h in omega arith
    by_room (suc n) e =
        let long = length-with_gap (take (suc n) context) (suc n) (length-take (suc n) context) in
        omega arith

-- From `pos` on the slices follow each other without a gap or an overlap to the end of the line, and
-- are numbered in order. Each one but the last has at least `max_size // 5` characters of the line,
-- and each has the context, those characters and no more than max_size characters in all.
pub IsSliced : List ℕ → ℕ → List ℕ → ℕ → ℕ → ℕ → List ChunkData → Type 0
IsSliced line start context max_size pos idx [] = pos ≡ length line
IsSliced line start context max_size pos idx (c ∷ out) =
    (piece_end : ℕ) × (c.chunk_index ≡ idx)
    × (c.start_char ≡ start + pos)
    × (c.end_char ≡ start + piece_end)
    × (pos < piece_end)
    × ((pos + max_size / 5 ≤ piece_end) ⊎ (piece_end ≡ length line))
    × (c.content ≡ strip (context_block context max_size ++ slice line pos piece_end))
    × (length c.content ≤ max_size)
    × IsSliced line start context max_size piece_end (suc idx) out

length-content :
    (line context : List ℕ) (max_size a b : ℕ)
    → 1 ≤ max_size
    → b ≤ a + budget context max_size
    → length (strip (context_block context max_size ++ slice line a b)) ≤ max_size
unfolding budget slice
length-content line context m a b h size =
    let fits = context_block-le context m h in
    let block = context_block context m in
    let sum = length-append block (take (b - a) (drop a line)) in
    let piece = length-take (b - a) (drop a line) in
    let all = length-strip (block ++ take (b - a) (drop a line)) in omega arith

budget-le :
    (context : List ℕ) (max_size : ℕ)
    → (1 ≤ budget context max_size) × (max_size / 5 ≤ budget context max_size)
unfolding budget floor
budget-le context m = (omega arith, omega arith)

module _ (line : List ℕ) (start : ℕ) (document_id : String) (max_size : ℕ) (context : List ℕ) where
  append_slice-IsSliced :
      (c : ChunkData) (rest : Option (List ChunkData)) (out : List ChunkData)
      → rest ≡ some out
      → append_slice line start document_id max_size context c rest ≡ some (c ∷ out)
  append_slice-IsSliced c none out e = absurd (ground arith)
  append_slice-IsSliced c (some cs) out e = let same : cs ≡ out = cc in ap (λ l. some (c ∷ l)) same

  slice_rounds-IsSliced :
      (fuel pos idx : ℕ)
      → 1 ≤ max_size
      → pos ≤ length line
      → length line ≤ pos + fuel
      → (out : List ChunkData) × (slice_rounds line start document_id max_size context fuel pos idx
          ≡ some out)
        × IsSliced line start context max_size pos idx out
  unfolding slice_rounds IsSliced
  slice_rounds-IsSliced zero pos idx h within enough = ([], ground arith, omega arith)
  slice_rounds-IsSliced (suc fuel) pos idx h within enough =
      let (some_, part) = budget-le context max_size in
      let piece_end = min (pos + budget context max_size) (length line) in
      elim (Bool-cases (ltb pos (length line))) [
        | inr done ↦ ([], if-of_false _ _ _ done, ground arith)
        | inl more ↦
            let inside = ltb→lt _ _ more in
            let (out, e, sliced) =
              slice_rounds-IsSliced fuel piece_end (suc idx) h (omega arith) (omega arith) in
            (
              _,
              if-of_true _ _ _ more ∙ append_slice-IsSliced _ _ out e,
              (
                piece_end,
                refl,
                refl,
                refl,
                omega arith,
                grows pos piece_end part,
                refl,
                length-content line context max_size pos piece_end h (omega arith),
                sliced,
              ),
            )
      ]
    where
      grows :
          (a b : ℕ)
          → max_size / 5 ≤ budget context max_size
          → (a + max_size / 5 ≤ min (a + budget context max_size) (length line))
            ⊎ (min (a + budget context max_size) (length line) ≡ length line)
      grows a b h = ground arith

  -- With a positive size the loop ends, and its slices, from the first index on, are the whole line
  -- in order: without a gap or an overlap, each but the last with at least `max_size // 5` of its
  -- characters, and none with a content, context included, of more than max_size characters.
  pub slice_oversized_line-IsSliced :
      (first_index : ℕ)
      → 1 ≤ max_size
      → (out : List ChunkData) × (slice_oversized_line line start document_id max_size context
            first_index
          ≡ some out)
        × IsSliced line start context max_size 0 first_index out
  unfolding slice_oversized_line
  slice_oversized_line-IsSliced first_index h =
      slice_rounds-IsSliced (length line) 0 first_index h (omega arith) (omega arith)
