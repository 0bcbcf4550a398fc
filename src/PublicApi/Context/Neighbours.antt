-- ===== src/PublicApi/Context/Neighbours.antt =====
-- The expansion of search results against its direct definition on the whole table.
use inherent.Prelude.{
  ℕ, ◌+◌, ◌<◌, ◌≤◌, String, ◌≡◌, ◌≢◌, refl, sym, ap, ◌∙◌, subst, Bool, true, ◌&&◌, Option, none,
  some, List, [], ◌∷◌, All, map, arith, ◌==◌, str_eq, eq_iff, eq_refl, if_cases, if-of_false,
}
use inherent.PublicApi.Context.{Span, SearchResult, compute_ranges}
use inherent.PublicApi.Context.Cover.{in_ranges, is_wanted, compute_ranges-eq-wanted}
use inherent.PublicApi.Context.Expand.{
  StoredChunk, OwnedDocument, Match, keep, sort_by, by_index, document_rows, context_chunk,
  is_before, is_after, assign_at, assign_window, assign_windows, results_of, expand_ranges, expand,
  is_visible, get_context_chunks,
}
use inherent.PublicApi.Context.Sorting.{IsFresh, HasDistinctIndices, sort-keep-sort, keep-sort-keep}

-- No two rows have one document and one index.
abbrev pub HasUniqueKeys : List StoredChunk → Type 0
HasUniqueKeys [] = Unit
HasUniqueKeys (r ∷ rows) =
    All (λ s. r.document_id ≡ s.document_id → r.chunk_index ≢ s.chunk_index) rows
    × HasUniqueKeys rows

-- The rows of one document that pass a test and lie in ranges, in two ways.
keep-keep :
    (doc : String) (visible : StoredChunk → Bool) (ranges : List (String × Span))
    (rows : List StoredChunk)
    → keep
        (λ r. str_eq r.document_id doc)
        (keep (λ r. visible r && in_ranges r.document_id r.chunk_index ranges) rows)
      ≡ keep
          (λ r. in_ranges doc r.chunk_index ranges)
          (keep (λ r. str_eq r.document_id doc) (keep visible rows))
unfolding keep
keep-keep doc visible ranges [] = refl
keep-keep doc visible ranges (r ∷ rows) =
    ground (arith, keep-keep doc visible ranges rows, eq_iff r.document_id doc)

All-keep {κ} :
    (P : StoredChunk → Type κ) (w : StoredChunk → Bool) (rows : List StoredChunk)
    → All P rows
    → All P (keep w rows)
unfolding keep
All-keep P w [] h = tt
All-keep P w (r ∷ rows) (h, hs) =
    if_cases (All P) (w r) _ _ (λ e. (h, All-keep P w rows hs)) (λ e. All-keep P w rows hs)

IsFresh-of_keys :
    (doc : String) (r : StoredChunk) (rows : List StoredChunk)
    → str_eq r.document_id doc ≡ true
    → All (λ s. r.document_id ≡ s.document_id → r.chunk_index ≢ s.chunk_index) rows
    → IsFresh (λ s. str_eq s.document_id doc) r rows
IsFresh-of_keys doc r [] e h = tt
IsFresh-of_keys doc r (s ∷ rows) e (h, hs) = (
  λ d. h ((eq_iff r.document_id doc).0 e ∙ sym ((eq_iff s.document_id doc).0 d)),
  IsFresh-of_keys doc r rows e hs,
)

HasDistinctIndices-of_keys :
    (doc : String) (w : StoredChunk → Bool) (rows : List StoredChunk)
    → HasUniqueKeys rows
    → HasDistinctIndices (λ s. str_eq s.document_id doc) (keep w rows)
unfolding keep
HasDistinctIndices-of_keys doc w [] u = tt
HasDistinctIndices-of_keys doc w (r ∷ rows) (h, u) =
    if_cases (HasDistinctIndices (λ s. str_eq s.document_id doc)) (w r) _ _
      (λ e. (
        λ d. IsFresh-of_keys doc r (keep w rows) d (All-keep _ w rows h),
        HasDistinctIndices-of_keys doc w rows u,
      ))
      (λ e. HasDistinctIndices-of_keys doc w rows u)

-- The neighbours of a match are wanted.
abbrev IsServed : ℕ → List SearchResult → SearchResult → Type 0
IsServed k results m =
    (idx i : ℕ)
    → m.match_chunk_index ≡ some idx
    → idx ≤ i + k
    → i ≤ idx + k
    → is_wanted k m.document_id i results ≡ true

is_wanted-head :
    (k : ℕ) (m : SearchResult) (results : List SearchResult) → IsServed k (m ∷ results) m
unfolding is_wanted
is_wanted-head k m results idx i e l u = ground (arith, eq_refl m.document_id)

is_wanted-tail :
    (k : ℕ) (m n : SearchResult) (results : List SearchResult)
    → IsServed k results n
    → IsServed k (m ∷ results) n
unfolding is_wanted
is_wanted-tail k m n results s idx i e l u = ground (arith, s idx i e l u)

served :
    (k : ℕ) (m : SearchResult) (matches : List Match) (results : List SearchResult)
    → All (λ n. IsServed k results n.result) matches
    → All (λ n. IsServed k (m ∷ results) n.result) matches
served k m [] results h = tt
served k m (n ∷ matches) results (h, hs) =
    (is_wanted-tail k m n.result results h, served k m matches results hs)

all_served :
    (k : ℕ) (matches : List Match) → All (λ n. IsServed k (results_of matches) n.result) matches
unfolding results_of
all_served k [] = tt
all_served k (m ∷ matches) = (
  is_wanted-head k m.result (results_of matches),
  served k m.result matches (results_of matches) (all_served k matches),
)

map-eq {ℓ} :
    {A : Type ℓ} (f g : A → A) (xs : List A) → All (λ x. f x ≡ g x) xs → map f xs ≡ map g xs
map-eq f g [] h = refl
map-eq f g (x ∷ xs) (h, hs) = λ i. h i ∷ map-eq f g xs hs i

map-eq_self {ℓ} : {A : Type ℓ} (g : A → A) (xs : List A) → All (λ x. x ≡ g x) xs → xs ≡ map g xs
map-eq_self g [] h = refl
map-eq_self g (x ∷ xs) (h, hs) = λ i. h i ∷ map-eq_self g xs hs i

All-map_of {ℓ κ μ} :
    {A : Type ℓ} (P : A → Type κ) (Q : A → Type μ) (f : (x : A) → P x → Q x) (xs : List A)
    → All P xs
    → All Q xs
All-map_of P Q f [] h = tt
All-map_of P Q f (x ∷ xs) (h, hs) = (f x h, All-map_of P Q f xs hs)

module _ (collate : StoredChunk → StoredChunk → Bool) (visible : StoredChunk → Bool)
    (chunks : List StoredChunk) (unique : HasUniqueKeys chunks) where
  abbrev fetched : List (String × Span) → List StoredChunk
  fetched ranges =
      sort_by collate (keep (λ r. visible r && in_ranges r.document_id r.chunk_index ranges) chunks)

  chosen-fetched :
      (q : StoredChunk → Bool) (doc : String) (ranges : List (String × Span))
      → ((r : StoredChunk) → q r ≡ true → in_ranges doc r.chunk_index ranges ≡ true)
      → keep q (document_rows doc (fetched ranges))
        ≡ keep q (document_rows doc (keep visible chunks))
  unfolding document_rows
  chosen-fetched q doc ranges included =
      let w : StoredChunk → Bool = λ r. visible r && in_ranges r.document_id r.chunk_index ranges in
      let mine : StoredChunk → Bool = λ r. str_eq r.document_id doc in
      ap (keep q) (
        sort-keep-sort collate mine (keep w chunks)
          (HasDistinctIndices-of_keys doc w chunks unique))
      ∙ ap (λ l. keep q (sort_by by_index l)) (keep-keep doc visible ranges chunks)
      ∙ keep-sort-keep q (λ r. in_ranges doc r.chunk_index ranges) included
          (keep mine (keep visible chunks))

  module _ (k : ℕ) (results : List SearchResult) (positive : 0 < k) where
    near :
        (m : SearchResult) (idx i : ℕ)
        → IsServed k results m
        → m.match_chunk_index ≡ some idx
        → idx ≤ i + k
        → i ≤ idx + k
        → in_ranges m.document_id i (compute_ranges results k) ≡ true
    near m idx i s e l u =
        compute_ranges-eq-wanted results k m.document_id i positive ∙ s idx i e l u

    before-included :
        (m : SearchResult) (idx : ℕ) (r : StoredChunk)
        → IsServed k results m
        → m.match_chunk_index ≡ some idx
        → is_before k idx r ≡ true
        → in_ranges m.document_id r.chunk_index (compute_ranges results k) ≡ true
    unfolding is_before
    before-included m idx r s e h = near m idx r.chunk_index s e (ground arith) (ground arith)

    after-included :
        (m : SearchResult) (idx : ℕ) (r : StoredChunk)
        → IsServed k results m
        → m.match_chunk_index ≡ some idx
        → is_after k idx r ≡ true
        → in_ranges m.document_id r.chunk_index (compute_ranges results k) ≡ true
    unfolding is_after
    after-included m idx r s e h = near m idx r.chunk_index s e (ground arith) (ground arith)

    at-fetched :
        (m : Match) (o : Option ℕ)
        → m.result.match_chunk_index ≡ o
        → IsServed k results m.result
        → assign_at o (fetched (compute_ranges results k)) k m
          ≡ assign_at o (keep visible chunks) k m
    unfolding assign_at
    at-fetched m none e s = refl
    at-fetched m (some idx) e s =
        let doc = m.result.document_id in
        let ranges = compute_ranges results k in
        let before =
          chosen-fetched (is_before k idx) doc ranges (λ r. before-included m.result idx r s e) in
        let after =
          chosen-fetched (is_after k idx) doc ranges (λ r. after-included m.result idx r s e) in
        λ i. record m {
          context_before = some (map context_chunk (before i));
          context_after = some (map context_chunk (after i));
        }

    window-fetched :
        (m : Match)
        → IsServed k results m.result
        → assign_window (fetched (compute_ranges results k)) k m
          ≡ assign_window (keep visible chunks) k m
    unfolding assign_window
    window-fetched m s = at-fetched m m.result.match_chunk_index refl s

    -- With no range to fetch, no match has an index.
    at-no_ranges :
        (m : Match) (o : Option ℕ)
        → compute_ranges results k ≡ []
        → m.result.match_chunk_index ≡ o
        → IsServed k results m.result
        → m ≡ assign_at o (keep visible chunks) k m
    unfolding assign_at in_ranges
    at-no_ranges m none n e s = refl
    at-no_ranges m (some idx) n e s =
        let there = near m.result idx idx s e (omega arith) (omega arith) in
        absurd (ground (arith, ap (in_ranges m.result.document_id idx) n, there))

    window-no_ranges :
        (m : Match)
        → compute_ranges results k ≡ []
        → IsServed k results m.result
        → m ≡ assign_window (keep visible chunks) k m
    unfolding assign_window
    window-no_ranges m n s = at-no_ranges m m.result.match_chunk_index n refl s

module _ (collate : StoredChunk → StoredChunk → Bool) (chunks : List StoredChunk)
    (documents : List OwnedDocument) (unique : HasUniqueKeys chunks) where
  expand_ranges-eq :
      (matches : List Match) (workspace user : String) (k : ℕ) (ranges : List (String × Span))
      → 0 < k
      → compute_ranges (results_of matches) k ≡ ranges
      → expand_ranges (get_context_chunks collate chunks documents) matches workspace user k ranges
        ≡ assign_windows matches
            (keep (is_visible collate chunks documents workspace user) chunks)
            k
  unfolding expand_ranges assign_windows get_context_chunks
  expand_ranges-eq matches workspace user k [] positive e =
      let visible = is_visible collate chunks documents workspace user in
      map-eq_self (assign_window (keep visible chunks) k) matches (
        All-map_of _ _
          (λ m. window-no_ranges collate visible chunks unique k (results_of matches) positive m e)
          matches (all_served k matches))
  expand_ranges-eq matches workspace user k (r ∷ ranges) positive e =
      let visible = is_visible collate chunks documents workspace user in
      subst
        (λ l.
          map (assign_window (fetched collate visible chunks unique l) k) matches
          ≡ map (assign_window (keep visible chunks) k) matches)
        e
        (map-eq _ _ matches (
          All-map_of _ _
            (window-fetched collate visible chunks unique k (results_of matches) positive) matches
            (all_served k matches)))

  -- For a positive `k`, on tables in which no two chunks have one document and one index: fetching
  -- the ranges in one query, in whatever order they come, and assigning from what was fetched gives
  -- each match the contexts that the whole table of the chunks that the user may see in the
  -- workspace would give.
  pub expand-eq-assign_windows :
      (matches : List Match) (workspace user : String) (k : ℕ)
      → 0 < k
      → expand (get_context_chunks collate chunks documents) matches workspace user k
        ≡ assign_windows matches
            (keep (is_visible collate chunks documents workspace user) chunks)
            k
  unfolding expand
  expand-eq-assign_windows matches workspace user k positive =
      if-of_false (k == 0) _ _ (ground arith)
      ∙ expand_ranges-eq matches workspace user k (compute_ranges (results_of matches) k) positive
          refl
