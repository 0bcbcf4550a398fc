-- ===== src/PublicApi/Context/Sorting.antt =====
-- Sorting rows by their index, and leaving some out, in either order.
use inherent.Prelude.{
  ◌≤◌, ◌≡◌, ◌≢◌, refl, sym, ap, ◌∙◌, ◌⊎◌, inl, inr, Bool, true, false, List, [], ◌∷◌, All, arith,
  leb, leb→le, Bool-cases, if_cases, if-of_false,
}
use inherent.PublicApi.Context.Expand.{StoredChunk, keep, insert_by, sort_by, by_index}

module _ (p : StoredChunk → Bool) where
  pub keep-take :
      (r : StoredChunk) (rows : List StoredChunk) → p r ≡ true → keep p (r ∷ rows) ≡ r ∷ keep p rows
  unfolding keep
  keep-take r rows h = rw h

  pub keep-drop :
      (r : StoredChunk) (rows : List StoredChunk) → p r ≡ false → keep p (r ∷ rows) ≡ keep p rows
  unfolding keep
  keep-drop r rows h = rw h

All-insert_by {ℓ} :
    (P : StoredChunk → Type ℓ) (first : StoredChunk → StoredChunk → Bool) (r : StoredChunk)
    (rows : List StoredChunk)
    → P r
    → All P rows
    → All P (insert_by first r rows)
unfolding insert_by
All-insert_by P first r [] h hs = (h, tt)
All-insert_by P first r (s ∷ rows) h (k, ks) =
    if_cases (All P) (first r s) _ _ (λ e. (h, (k, ks)))
      (λ e. (k, All-insert_by P first r rows h ks))

All-sort_by {ℓ} :
    (P : StoredChunk → Type ℓ) (first : StoredChunk → StoredChunk → Bool) (rows : List StoredChunk)
    → All P rows
    → All P (sort_by first rows)
unfolding sort_by
All-sort_by P first [] h = tt
All-sort_by P first (r ∷ rows) (h, hs) =
    All-insert_by P first r (sort_by first rows) h (All-sort_by P first rows hs)

insert_comm :
    (x y : StoredChunk) (rows : List StoredChunk)
    → x.chunk_index ≢ y.chunk_index
    → insert_by by_index x (insert_by by_index y rows)
      ≡ insert_by by_index y (insert_by by_index x rows)
unfolding insert_by by_index
insert_comm x y [] d = ground arith
insert_comm x y (r ∷ rows) d = ground (arith, insert_comm x y rows d)

module _ (p : StoredChunk → Bool) where
  -- None of the rows that are kept has the index of `r`; no two of them have one index.
  abbrev pub IsFresh : StoredChunk → List StoredChunk → Type 0
  IsFresh r rows = All (λ s. p s ≡ true → r.chunk_index ≢ s.chunk_index) rows

  abbrev pub HasDistinctIndices : List StoredChunk → Type 0
  HasDistinctIndices [] = Unit
  HasDistinctIndices (r ∷ rows) = (p r ≡ true → IsFresh r rows) × HasDistinctIndices rows

module _ (collate : StoredChunk → StoredChunk → Bool) (p : StoredChunk → Bool) where
  sort-insert :
      (x : StoredChunk) (rows : List StoredChunk)
      → p x ≡ true
      → IsFresh p x rows
      → sort_by by_index (keep p (insert_by collate x rows))
        ≡ insert_by by_index x (sort_by by_index (keep p rows))
  unfolding insert_by sort_by
  sort-insert x [] h f = ap (sort_by by_index) (keep-take p x [] h)
  sort-insert x (y ∷ rows) h (f, fs) =
      if_cases
        (λ l.
          sort_by by_index (keep p l) ≡ insert_by by_index x (sort_by by_index (keep p (y ∷ rows))))
        (collate x y) _ _ (λ e. ap (sort_by by_index) (keep-take p x (y ∷ rows) h))
        (λ e. behind (Bool-cases (p y)) (sort-insert x rows h fs))
    where
      behind :
          (p y ≡ true) ⊎ (p y ≡ false)
          → sort_by by_index (keep p (insert_by collate x rows))
            ≡ insert_by by_index x (sort_by by_index (keep p rows))
          → sort_by by_index (keep p (y ∷ insert_by collate x rows))
            ≡ insert_by by_index x (sort_by by_index (keep p (y ∷ rows)))
      behind (inl kept) ih =
          ap (sort_by by_index) (keep-take p y (insert_by collate x rows) kept)
          ∙ ap (insert_by by_index y) ih
          ∙ insert_comm y x (sort_by by_index (keep p rows)) (λ e. f kept (sym e))
          ∙ sym (ap (λ l. insert_by by_index x (sort_by by_index l)) (keep-take p y rows kept))
      behind (inr left) ih =
          ap (sort_by by_index) (keep-drop p y (insert_by collate x rows) left)
          ∙ ih
          ∙ sym (ap (λ l. insert_by by_index x (sort_by by_index l)) (keep-drop p y rows left))

  insert-dropped :
      (x : StoredChunk) (rows : List StoredChunk)
      → p x ≡ false
      → keep p (insert_by collate x rows) ≡ keep p rows
  unfolding insert_by keep
  insert-dropped x [] h = rw h
  insert-dropped x (y ∷ rows) h = ground (arith, insert-dropped x rows h)

  -- The order in which rows come does not matter to their order by index.
  pub sort-keep-sort :
      (rows : List StoredChunk)
      → HasDistinctIndices p rows
      → sort_by by_index (keep p (sort_by collate rows)) ≡ sort_by by_index (keep p rows)
  unfolding sort_by
  sort-keep-sort [] d = refl
  sort-keep-sort (r ∷ rows) (f, d) = elim (Bool-cases (p r)) [
    | inl kept ↦
        sort-insert r (sort_by collate rows) kept
          (All-sort_by (λ s. p s ≡ true → r.chunk_index ≢ s.chunk_index) collate rows (f kept))
        ∙ ap (insert_by by_index r) (sort-keep-sort rows d)
        ∙ sym (ap (sort_by by_index) (keep-take p r rows kept))
    | inr left ↦
        ap (sort_by by_index) (insert-dropped r (sort_by collate rows) left)
        ∙ sort-keep-sort rows d
        ∙ sym (ap (sort_by by_index) (keep-drop p r rows left))
  ]

abbrev Above : StoredChunk → List StoredChunk → Type 0
Above r rows = All (λ s. r.chunk_index ≤ s.chunk_index) rows

abbrev IsAscending : List StoredChunk → Type 0
IsAscending [] = Unit
IsAscending (r ∷ rows) = Above r rows × IsAscending rows

Above-trans :
    (r s : StoredChunk) (rows : List StoredChunk)
    → r.chunk_index ≤ s.chunk_index
    → Above s rows
    → Above r rows
Above-trans r s [] l h = tt
Above-trans r s (t ∷ rows) l (h, hs) = (omega arith, Above-trans r s rows l hs)

insert-IsAscending :
    (r : StoredChunk) (rows : List StoredChunk)
    → IsAscending rows
    → IsAscending (insert_by by_index r rows)
unfolding insert_by by_index
insert-IsAscending r [] h = (tt, tt)
insert-IsAscending r (s ∷ rows) (h, hs) =
    if_cases IsAscending (leb r.chunk_index s.chunk_index) _ _
      (λ e.
        let l = leb→le r.chunk_index s.chunk_index e in ((l, Above-trans r s rows l h), (h, hs)))
      (λ e. (
        All-insert_by (λ t. s.chunk_index ≤ t.chunk_index) by_index r rows (ground arith) h,
        insert-IsAscending r rows hs,
      ))

sort-IsAscending : (rows : List StoredChunk) → IsAscending (sort_by by_index rows)
unfolding sort_by
sort-IsAscending [] = tt
sort-IsAscending (r ∷ rows) = insert-IsAscending r (sort_by by_index rows) (sort-IsAscending rows)

insert-first :
    (r : StoredChunk) (rows : List StoredChunk)
    → Above r rows
    → insert_by by_index r rows ≡ r ∷ rows
unfolding insert_by by_index
insert-first r [] h = refl
insert-first r (s ∷ rows) (h, hs) = ground arith

module _ (q : StoredChunk → Bool) where
  Above-keep : (r : StoredChunk) (rows : List StoredChunk) → Above r rows → Above r (keep q rows)
  unfolding keep
  Above-keep r [] h = tt
  Above-keep r (s ∷ rows) (h, hs) =
      if_cases (Above r) (q s) _ _ (λ e. (h, Above-keep r rows hs)) (λ e. Above-keep r rows hs)

  insert-later :
      (r s : StoredChunk) (rows : List StoredChunk)
      → by_index r s ≡ false
      → insert_by by_index r (s ∷ rows) ≡ s ∷ insert_by by_index r rows
  unfolding insert_by
  insert-later r s rows h = if-of_false (by_index r s) _ _ h

  keep-insert :
      (r : StoredChunk) (rows : List StoredChunk)
      → q r ≡ true
      → IsAscending rows
      → keep q (insert_by by_index r rows) ≡ insert_by by_index r (keep q rows)
  unfolding insert_by by_index keep
  keep-insert r [] h a = keep-take q r [] h
  keep-insert r (s ∷ rows) h (above, a) =
      if_cases (λ l. keep q l ≡ insert_by by_index r (keep q (s ∷ rows)))
        (leb r.chunk_index s.chunk_index) _ _
        (λ e.
          let l = leb→le r.chunk_index s.chunk_index e in
          keep-take q r (s ∷ rows) h
          ∙ sym (
              insert-first r (keep q (s ∷ rows))
                (Above-keep r (s ∷ rows) (l, Above-trans r s rows l above))))
        (λ e. behind (Bool-cases (q s)) e (keep-insert r rows h a))
    where
      behind :
          (q s ≡ true) ⊎ (q s ≡ false)
          → leb r.chunk_index s.chunk_index ≡ false
          → keep q (insert_by by_index r rows) ≡ insert_by by_index r (keep q rows)
          → keep q (s ∷ insert_by by_index r rows) ≡ insert_by by_index r (keep q (s ∷ rows))
      behind (inl kept) e ih =
          keep-take q s (insert_by by_index r rows) kept
          ∙ ap (λ l. s ∷ l) ih
          ∙ sym (insert-later r s (keep q rows) e)
          ∙ sym (ap (insert_by by_index r) (keep-take q s rows kept))
      behind (inr left) e ih =
          keep-drop q s (insert_by by_index r rows) left
          ∙ ih
          ∙ sym (ap (insert_by by_index r) (keep-drop q s rows left))

module _ (q s : StoredChunk → Bool) (included : (r : StoredChunk) → q r ≡ true → s r ≡ true) where
  -- What a later choice would leave out anyway may be left out before.
  pub keep-sort-keep :
      (rows : List StoredChunk)
      → keep q (sort_by by_index (keep s rows)) ≡ keep q (sort_by by_index rows)
  unfolding sort_by
  keep-sort-keep [] = unfold keep in refl
  keep-sort-keep (r ∷ rows) = elim (Bool-cases (q r)) [
    | inl wanted ↦
        ap (λ l. keep q (sort_by by_index l)) (keep-take s r rows (included r wanted))
        ∙ keep-insert q r (sort_by by_index (keep s rows)) wanted (sort-IsAscending (keep s rows))
        ∙ ap (insert_by by_index r) (keep-sort-keep rows)
        ∙ sym (keep-insert q r (sort_by by_index rows) wanted (sort-IsAscending rows))
    | inr unwanted ↦
        skipped (Bool-cases (s r)) unwanted
        ∙ keep-sort-keep rows
        ∙ sym (insert-dropped by_index q r (sort_by by_index rows) unwanted)
  ]
    where
      skipped :
          (s r ≡ true) ⊎ (s r ≡ false)
          → q r ≡ false
          → keep q (sort_by by_index (keep s (r ∷ rows))) ≡ keep q (sort_by by_index (keep s rows))
      skipped (inl kept) unwanted =
          ap (λ l. keep q (sort_by by_index l)) (keep-take s r rows kept)
          ∙ insert-dropped by_index q r (sort_by by_index (keep s rows)) unwanted
      skipped (inr left) unwanted = ap (λ l. keep q (sort_by by_index l)) (keep-drop s r rows left)
