-- ===== src/Ingestion/Chunking/Packing.antt =====
-- How the paragraphs are divided among the chunks.
use inherent.Prelude.{
  ℕ, ◌+◌, ◌≤◌, ◌≡◌, ◌⊎◌, refl, sym, ap, ◌∙◌, subst, List, [], ◌∷◌, ◌++◌, append_assoc, length, All,
  arith, ltb, if_elim, if-of_true, if-of_false, Bool-cases, inl, inr,
}
use inherent.Ingestion.Chunking.Paragraphs.{Entry, pack}

pub total : List Entry → ℕ
total [] = 0
total (e ∷ entries) = length e.para + total entries

pub concat : List (List Entry) → List Entry
concat [] = []
concat (items ∷ groups) = items ++ concat groups

-- A single paragraph, or paragraphs of at most that size together.
pub Fits : ℕ → List Entry → Type 0
Fits max_size items = (length items ≡ 1) ⊎ (total items ≤ max_size)

total-append : (xs : List Entry) (e : Entry) → total (xs ++ (e ∷ [])) ≡ total xs + length e.para
unfolding total
total-append [] e = omega arith
total-append (x ∷ xs) e = let rest = total-append xs e in omega arith

concat-pack :
    (max_size : ℕ) (current : List Entry) (size : ℕ) (entries : List Entry)
    → concat (pack max_size current size entries) ≡ current ++ entries
unfolding concat pack
concat-pack m [] size [] = refl
concat-pack m (e ∷ current) size [] = refl
concat-pack m [] size (e ∷ entries) = concat-pack m (e ∷ []) (size + length e.para) entries
concat-pack m (c ∷ current) size (e ∷ entries) =
    if_elim (λ g. concat g ≡ (c ∷ current) ++ (e ∷ entries)) (ltb m (size + length e.para)) _ _
      (ap (λ r. (c ∷ current) ++ r) (concat-pack m (e ∷ []) (length e.para) entries))
      (concat-pack m (c ∷ (current ++ (e ∷ []))) (size + length e.para) entries
        ∙ ap (λ r. c ∷ r) (append_assoc current (e ∷ []) entries))

pack-Fits :
    (max_size : ℕ) (current : List Entry) (size : ℕ) (entries : List Entry)
    → size ≡ total current
    → Fits max_size current
    → All (Fits max_size) (pack max_size current size entries)
unfolding pack total Fits
pack-Fits m [] size [] same fits = tt
pack-Fits m (c ∷ current) size [] same fits = (fits, tt)
pack-Fits m [] size (e ∷ entries) same fits =
    pack-Fits m (e ∷ []) (size + length e.para) entries (omega arith) (inl refl)
pack-Fits m (c ∷ current) size (e ∷ entries) same fits =
    let flushed = pack-Fits m (e ∷ []) (length e.para) entries (omega arith) (inl refl) in
    elim (Bool-cases (ltb m (size + length e.para))) [
      | inl full ↦ subst (All (Fits m)) (sym (if-of_true _ _ _ full)) (fits, flushed)
      | inr room ↦
          let sum = total-append (c ∷ current) e in
          subst (All (Fits m)) (sym (if-of_false _ _ _ room)) (
            pack-Fits m (c ∷ (current ++ (e ∷ []))) (size + length e.para) entries
              (omega (arith, sum, same)) (inr (ground arith)))
    ]

-- The groups that the loop fills are the paragraphs in their order, none left out and none twice,
-- and each group is a single paragraph or one whose paragraphs have together at most the maximal
-- size.
pub pack-Fits-All :
    (max_size : ℕ) (entries : List Entry)
    → (concat (pack max_size [] 0 entries) ≡ entries)
      × All (Fits max_size) (pack max_size [] 0 entries)
unfolding total Fits
pack-Fits-All m entries =
    (concat-pack m [] 0 entries, pack-Fits m [] 0 entries refl (inr (omega arith)))
