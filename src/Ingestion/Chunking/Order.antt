-- ===== src/Ingestion/Chunking/Order.antt =====
-- The order of the paragraphs, and which are recorded.
use inherent.Prelude.{
  ℕ, suc, ◌+◌, ◌≤◌, ◌≡◌, refl, sym, ap, ◌∙◌, subst, none, some, Option, List, [], ◌∷◌, ◌++◌,
  append_assoc, length, length-append, All, arith, map, if-eq_of_true, if-eq_of_false, Bool-cases,
  inl, inr,
}
use inherent.Prelude.Text.{starts_with}
use inherent.Ingestion.Chunking.Text.{strip, drop}
use inherent.Ingestion.Chunking.Paragraphs.{
  split_paragraphs, find_from, Entry, located, add_entry, entries_from, paragraph_entries,
}
use inherent.Ingestion.Chunking.Offsets.{
  join_raw, join-split, strip-within, starts_with-append, find_from-some, find_from-ne_none,
  next_block, IsExact, entries_from-IsExact,
}

-- A text is found no later than where it is known to stand.
find_from-le :
    (c : ℕ) (needle a b : List ℕ) (pos k : ℕ)
    → find_from (c ∷ needle) (a ++ ((c ∷ needle) ++ b)) pos ≡ some k
    → k ≤ pos + length a
unfolding find_from
find_from-le c needle [] b pos k h =
    let found = if-eq_of_true _ _ _ (starts_with-append (c ∷ needle) b) h in
    let same : pos ≡ k = cc in omega arith
find_from-le c needle (d ∷ a) b pos k h =
    elim (Bool-cases (starts_with (d ∷ (a ++ ((c ∷ needle) ++ b))) (c ∷ needle))) [
      | inl here ↦ let found = if-eq_of_true _ _ _ here h in let same : pos ≡ k = cc in omega arith
      | inr away ↦
          let later = find_from-le c needle a b (suc pos) k (if-eq_of_false _ _ _ away h) in
          omega (arith, later)
    ]

-- Each span begins at or after the end of the one before it.
pub InOrder : ℕ → List Entry → Type 0
InOrder pos [] = Unit
InOrder pos (e ∷ entries) = (pos ≤ e.start) × (e.start ≤ e.end) × InOrder e.end entries

InOrder-mono : (a b : ℕ) (entries : List Entry) → a ≤ b → InOrder b entries → InOrder a entries
unfolding InOrder
InOrder-mono a b [] le h = tt
InOrder-mono a b (e ∷ entries) le (p, q, h) = (omega (arith, le, p), q, h)

-- The paragraphs that are not empty.
abbrev pub shown : List (List ℕ) → List (List ℕ)
shown [] = []
shown ([] ∷ paras) = shown paras
shown ((c ∷ s) ∷ paras) = (c ∷ s) ∷ shown paras

abbrev pub paras : List Entry → List (List ℕ)
paras [] = []
paras (e ∷ entries) = e.para ∷ paras entries

module _ (text : List ℕ) where
  add_entry-InOrder :
      (para a b : List ℕ) (cursor next : ℕ) (entries : List Entry)
      → drop cursor text ≡ a ++ (para ++ b)
      → cursor + (length a + length para) ≤ next
      → InOrder next entries
      → InOrder cursor (add_entry text para cursor entries)
  unfolding add_entry InOrder
  add_entry-InOrder [] a b cursor next entries stands le h =
      InOrder-mono cursor next entries (omega (arith, le)) h
  add_entry-InOrder (c ∷ para) a b cursor next entries stands le h =
      by_find (find_from (c ∷ para) (drop cursor text) cursor) refl
    where
      by_find :
          (found : Option ℕ)
          → find_from (c ∷ para) (drop cursor text) cursor ≡ found
          → (cursor ≤ located found cursor)
            × (located found cursor ≤ located found cursor + length (c ∷ para))
            × InOrder (located found cursor + length (c ∷ para)) entries
      by_find none e = absurd (
          find_from-ne_none c para a b cursor
            (subst (λ t. find_from (c ∷ para) t cursor ≡ none) stands e))
      by_find (some k) e =
          let (after, found) = find_from-some (c ∷ para) (drop cursor text) cursor k e in
          let early =
            find_from-le c para a b cursor k
              (subst (λ t. find_from (c ∷ para) t cursor ≡ some k) stands e) in
          (
            after,
            omega arith,
            InOrder-mono (k + length (c ∷ para)) next entries (omega (arith, early, le)) h,
          )

  entries_from-InOrder :
      (raws : List (List ℕ)) (cursor : ℕ)
      → drop cursor text ≡ join_raw raws
      → InOrder cursor (entries_from text raws cursor)
  unfolding entries_from join_raw InOrder
  entries_from-InOrder [] cursor stands = tt
  entries_from-InOrder (raw ∷ []) cursor stands =
      let (a, b, e) = strip-within raw in
      add_entry-InOrder (strip raw) a b cursor (cursor + (length a + length (strip raw))) []
        (stands ∙ e) (omega arith) tt
  entries_from-InOrder (raw ∷ next ∷ raws) cursor stands =
      let (a, b, e) = strip-within raw in
      let tail = 10 ∷ 10 ∷ join_raw (next ∷ raws) in
      let size : length raw ≡ length a + (length (strip raw) + length b) =
        ap length e
        ∙ length-append a (strip raw ++ b)
        ∙ ap (λ n. length a + n) (length-append (strip raw) b) in
      add_entry-InOrder (strip raw) a (b ++ tail) cursor (cursor + (length raw + 2))
        (entries_from text (next ∷ raws) (cursor + (length raw + 2)))
        (stands
          ∙ ap (λ t. t ++ tail) e
          ∙ append_assoc a (strip raw ++ b) tail
          ∙ ap (λ t. a ++ t) (append_assoc (strip raw) b tail))
        (omega (arith, size))
        (entries_from-InOrder (next ∷ raws) (cursor + (length raw + 2))
          (next_block text raw (join_raw (next ∷ raws)) cursor stands))

  add_entry-paras :
      (para : List ℕ) (cursor : ℕ) (entries : List Entry) (others : List (List ℕ))
      → paras entries ≡ shown others
      → paras (add_entry text para cursor entries) ≡ shown (para ∷ others)
  unfolding add_entry
  add_entry-paras [] cursor entries others h = h
  add_entry-paras (c ∷ para) cursor entries others h = ap (λ l. (c ∷ para) ∷ l) h

  entries_from-paras :
      (raws : List (List ℕ)) (cursor : ℕ)
      → paras (entries_from text raws cursor) ≡ shown (map strip raws)
  unfolding entries_from
  entries_from-paras [] cursor = refl
  entries_from-paras (raw ∷ raws) cursor =
      add_entry-paras (strip raw) cursor _ (map strip raws)
        (entries_from-paras raws (cursor + (length raw + 2)))

  -- The recorded paragraphs are the parts between blank lines, stripped, without the empty ones and
  -- in their order. The span of each is where the source has that paragraph, character for
  -- character, and begins no earlier than the one before it ends.
  pub paragraph_entries-IsExact :
      (paras (paragraph_entries text) ≡ shown (map strip (split_paragraphs text)))
      × All (IsExact text) (paragraph_entries text)
      × InOrder 0 (paragraph_entries text)
  unfolding paragraph_entries drop
  paragraph_entries-IsExact = (
    entries_from-paras (split_paragraphs text) 0,
    entries_from-IsExact text (split_paragraphs text) 0 (sym (join-split text)),
    entries_from-InOrder (split_paragraphs text) 0 (sym (join-split text)),
  )
