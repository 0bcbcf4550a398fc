-- ===== src/Ingestion/Chunking/Offsets.antt =====
-- The spans of the paragraphs.
use inherent.Prelude.{
  ℕ, zero, suc, ◌+◌, ◌-◌, ◌≤◌, ◌≡◌, refl, sym, ap, ◌∙◌, subst, true, ◌&&◌, Option, none, some, List,
  [], ◌∷◌, ◌++◌, append_assoc, length, All, arith, ◌==◌, if-of_true, if-of_false, if-eq_of_true,
  if-eq_of_false, Bool-cases, and-right, ◌≢◌, inl, inr,
}
use inherent.Prelude.Text.{starts_with}
use inherent.Ingestion.Chunking.Text.{is_space, is_empty, strip, lstrip, rstrip, take, drop, slice}
use inherent.Ingestion.Chunking.Paragraphs.{
  push, split_paragraphs, find_from, Entry, located, add_entry, entries_from,
}

-- The text that the parts of a split come from.
unfoldable pub join_raw : List (List ℕ) → List ℕ
join_raw [] = []
join_raw (p ∷ []) = p
join_raw (p ∷ q ∷ ps) = p ++ (10 ∷ 10 ∷ join_raw (q ∷ ps))

join_raw-push :
    (c : ℕ) (p : List ℕ) (ps : List (List ℕ)) → join_raw (push c (p ∷ ps)) ≡ c ∷ join_raw (p ∷ ps)
unfolding join_raw
join_raw-push c p [] = refl
join_raw-push c p (q ∷ ps) = refl

-- A split has a first part.
split-some : (s : List ℕ) → (p : List ℕ) × (ps : List (List ℕ)) × (split_paragraphs s ≡ p ∷ ps)
unfolding split_paragraphs
split-some [] = ([], [], refl)
split-some (c ∷ []) = (c ∷ [], [], refl)
split-some (c ∷ d ∷ s) =
    let (p, ps, e) = split-some (d ∷ s) in
    elim (Bool-cases (c == 10 && d == 10)) [
      | inl blank ↦ ([], split_paragraphs s, if-of_true _ _ _ blank)
      | inr other ↦ (c ∷ p, ps, if-of_false _ _ _ other ∙ ap (push c) e)
    ]

pub join-split : (s : List ℕ) → join_raw (split_paragraphs s) ≡ s
unfolding split_paragraphs join_raw
join-split [] = refl
join-split (c ∷ []) = refl
join-split (c ∷ d ∷ s) =
    let (p, ps, e) = split-some (d ∷ s) in
    let (q, qs, f) = split-some s in
    let along = join-split (d ∷ s) in
    let after = join-split s in
    elim (Bool-cases (c == 10 && d == 10)) [
      | inl blank ↦
          let c_is : 10 ≡ c = ground arith in
          let d_is : 10 ≡ d = ground arith in
          ap join_raw (if-of_true _ _ _ blank ∙ ap (λ l. [] ∷ l) f)
          ∙ ap (λ t. 10 ∷ (10 ∷ t)) (ap join_raw (sym f) ∙ after)
          ∙ ap (λ x. x ∷ (10 ∷ s)) c_is
          ∙ ap (λ x. c ∷ (x ∷ s)) d_is
      | inr other ↦
          ap join_raw (if-of_false _ _ _ other ∙ ap (push c) e)
          ∙ join_raw-push c p ps
          ∙ ap (λ t. c ∷ t) (ap join_raw (sym e) ∙ along)
    ]

lstrip-suffix : (s : List ℕ) → (a : List ℕ) × (s ≡ a ++ lstrip s)
unfolding lstrip
lstrip-suffix [] = ([], refl)
lstrip-suffix (c ∷ s) =
    let (a, e) = lstrip-suffix s in
    elim (Bool-cases (is_space c)) [
      | inl blank ↦
          (c ∷ a, ap (λ t. c ∷ t) e ∙ ap (λ t. c ∷ (a ++ t)) (sym (if-of_true _ _ _ blank)))
      | inr shown ↦ ([], sym (if-of_false _ _ _ shown))
    ]

rstrip-prefix : (s : List ℕ) → (b : List ℕ) × (s ≡ rstrip s ++ b)
unfolding rstrip
rstrip-prefix [] = ([], refl)
rstrip-prefix (c ∷ s) =
    let (b, e) = rstrip-prefix s in
    elim (Bool-cases (is_empty (rstrip s) && is_space c)) [
      | inl blank ↦ (c ∷ s, ap (λ t. t ++ (c ∷ s)) (sym (if-of_true _ _ _ blank)))
      | inr shown ↦ (b, ap (λ t. c ∷ t) e ∙ ap (λ t. t ++ b) (sym (if-of_false _ _ _ shown)))
    ]

-- A stripped text stands in the text.
pub strip-within : (s : List ℕ) → (a b : List ℕ) × (s ≡ a ++ (strip s ++ b))
unfolding strip
strip-within s =
    let (a, e) = lstrip-suffix s in
    let (b, f) = rstrip-prefix (lstrip s) in (a, b, e ∙ ap (λ t. a ++ t) f)

pub starts_with-append : (s t : List ℕ) → starts_with (s ++ t) s ≡ true
unfolding starts_with
starts_with-append [] [] = refl
starts_with-append [] (c ∷ t) = refl
starts_with-append (c ∷ s) t = let rest = starts_with-append s t in ground arith

take-starts_with : (s t : List ℕ) → starts_with s t ≡ true → take (length t) s ≡ t
unfolding starts_with take
take-starts_with s [] h = refl
take-starts_with [] (c ∷ t) h = absurd (ground arith)
take-starts_with (d ∷ s) (c ∷ t) h =
    let same : d ≡ c = ground arith in
    ap (λ x. x ∷ take (length t) s) same
    ∙ ap (λ r. c ∷ r) (take-starts_with s t (and-right (d == c) (starts_with s t) h))

drop-nil : (n : ℕ) → drop n [] ≡ []
unfolding drop
drop-nil zero = refl
drop-nil (suc n) = refl

drop-drop : (a b : ℕ) (s : List ℕ) → drop a (drop b s) ≡ drop (b + a) s
unfolding drop
drop-drop a zero s = let same : a ≡ 0 + a = omega arith in ap (λ n. drop n s) same
drop-drop a (suc b) [] = drop-nil a ∙ sym (drop-nil (suc b + a))
drop-drop a (suc b) (c ∷ s) =
    let same : suc (b + a) ≡ suc b + a = omega arith in
    drop-drop a b s ∙ ap (λ n. drop n (c ∷ s)) same

drop-append : (p s : List ℕ) → drop (length p) (p ++ s) ≡ s
unfolding drop
drop-append [] s = refl
drop-append (c ∷ p) s = drop-append p s

pub find_from-some :
    (needle s : List ℕ) (pos k : ℕ)
    → find_from needle s pos ≡ some k
    → (pos ≤ k) × (starts_with (drop (k - pos) s) needle ≡ true)
unfolding find_from drop
find_from-some needle [] pos k h = absurd (ground arith)
find_from-some needle (c ∷ s) pos k h = elim (Bool-cases (starts_with (c ∷ s) needle)) [
  | inl here ↦
      let found = if-eq_of_true _ _ _ here h in
      let same : pos ≡ k = cc in
      let none_left : k - pos ≡ 0 = omega arith in
      (omega arith, subst (λ n. starts_with (drop n (c ∷ s)) needle ≡ true) (sym none_left) here)
  | inr away ↦
      let (after, found) = find_from-some needle s (suc pos) k (if-eq_of_false _ _ _ away h) in
      let step : k - pos ≡ suc (k - suc pos) = omega arith in
      (omega arith, subst (λ n. starts_with (drop n (c ∷ s)) needle ≡ true) (sym step) found)
]

pub find_from-ne_none :
    (c : ℕ) (needle a b : List ℕ) (pos : ℕ)
    → find_from (c ∷ needle) (a ++ ((c ∷ needle) ++ b)) pos ≢ none
unfolding find_from
find_from-ne_none c needle [] b pos h =
    let found = if-eq_of_true _ _ _ (starts_with-append (c ∷ needle) b) h in absurd (ground arith)
find_from-ne_none c needle (d ∷ a) b pos h =
    elim (Bool-cases (starts_with (d ∷ (a ++ ((c ∷ needle) ++ b))) (c ∷ needle))) [
      | inl here ↦ let found = if-eq_of_true _ _ _ here h in absurd (ground arith)
      | inr away ↦ find_from-ne_none c needle a b (suc pos) (if-eq_of_false _ _ _ away h)
    ]

module _ (text : List ℕ) where
  -- The span of an entry is its paragraph in the text.
  pub IsExact : Entry → Type 0
  IsExact e = slice text e.start e.end ≡ e.para

  found-IsExact :
      (c : ℕ) (para : List ℕ) (k cursor : ℕ)
      → find_from (c ∷ para) (drop cursor text) cursor ≡ some k
      → slice text k (k + length (c ∷ para)) ≡ c ∷ para
  unfolding slice
  found-IsExact c para k cursor h =
      let (after, found) = find_from-some (c ∷ para) (drop cursor text) cursor k h in
      let back : (k + length (c ∷ para)) - k ≡ length (c ∷ para) = omega arith in
      let there : cursor + (k - cursor) ≡ k = omega arith in
      ap (λ n. take n (drop k text)) back
      ∙ ap (λ n. take (length (c ∷ para)) (drop n text)) (sym there)
      ∙ ap (take (length (c ∷ para))) (sym (drop-drop (k - cursor) cursor text))
      ∙ take-starts_with (drop (k - cursor) (drop cursor text)) (c ∷ para) found

  add_entry-IsExact :
      (para a b : List ℕ) (cursor : ℕ) (entries : List Entry)
      → drop cursor text ≡ a ++ (para ++ b)
      → All IsExact entries
      → All IsExact (add_entry text para cursor entries)
  unfolding add_entry IsExact
  add_entry-IsExact [] a b cursor entries stands rest = rest
  add_entry-IsExact (c ∷ para) a b cursor entries stands rest =
      (by_find (find_from (c ∷ para) (drop cursor text) cursor) refl, rest)
    where
      by_find :
          (found : Option ℕ)
          → find_from (c ∷ para) (drop cursor text) cursor ≡ found
          → slice text (located found cursor) (located found cursor + length (c ∷ para)) ≡ c ∷ para
      by_find none e = absurd (
          find_from-ne_none c para a b cursor
            (subst (λ t. find_from (c ∷ para) t cursor ≡ none) stands e))
      by_find (some k) e = found-IsExact c para k cursor e

  -- After a part and its blank line.
  pub next_block :
      (raw t : List ℕ) (cursor : ℕ)
      → drop cursor text ≡ raw ++ (10 ∷ 10 ∷ t)
      → drop (cursor + (length raw + 2)) text ≡ t
  unfolding drop
  next_block raw t cursor stands =
      sym (drop-drop (length raw + 2) cursor text)
      ∙ ap (drop (length raw + 2)) stands
      ∙ sym (drop-drop 2 (length raw) (raw ++ (10 ∷ 10 ∷ t)))
      ∙ ap (drop 2) (drop-append raw (10 ∷ 10 ∷ t))

  pub entries_from-IsExact :
      (raws : List (List ℕ)) (cursor : ℕ)
      → drop cursor text ≡ join_raw raws
      → All IsExact (entries_from text raws cursor)
  unfolding entries_from join_raw drop
  entries_from-IsExact [] cursor stands = tt
  entries_from-IsExact (raw ∷ []) cursor stands =
      let (a, b, e) = strip-within raw in
      add_entry-IsExact (strip raw) a b cursor [] (stands ∙ e) tt
  entries_from-IsExact (raw ∷ next ∷ raws) cursor stands =
      let (a, b, e) = strip-within raw in
      let tail = 10 ∷ 10 ∷ join_raw (next ∷ raws) in
      let later = entries_from text (next ∷ raws) (cursor + (length raw + 2)) in
      add_entry-IsExact (strip raw) a (b ++ tail) cursor later
        (stands
          ∙ ap (λ t. t ++ tail) e
          ∙ append_assoc a (strip raw ++ b) tail
          ∙ ap (λ t. a ++ t) (append_assoc (strip raw) b tail))
        (entries_from-IsExact (next ∷ raws) (cursor + (length raw + 2))
          (next_block raw (join_raw (next ∷ raws)) cursor stands))
