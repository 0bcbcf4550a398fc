-- ===== src/Ingestion/Chunking/Text.antt =====
-- What the chunkers use of Python's `str`, on lists of code points.
use inherent.Prelude.{
  ℕ, zero, suc, ◌+◌, ◌-◌, ◌≤◌, ◌<◌, ◌≡◌, ◌≢◌, refl, ap, ◌∙◌, Bool, true, false, ◌&&◌, ◌||◌, Option,
  none, some, List, [], ◌∷◌, length, arith, leb, ◌==◌, if◌then◌else◌, if-eq_of_false, Bool-cases,
  and-left, and-right, subst, inl, inr,
}

-- `c.isspace()`
unfoldable pub is_space : ℕ → Bool
is_space c =
    (leb 9 c && leb c 13)
    || (leb 28 c && leb c 32)
    || (c == 133)
    || (c == 160)
    || (c == 5760)
    || (leb 8192 c && leb c 8202)
    || (c == 8232)
    || (c == 8233)
    || (c == 8239)
    || (c == 8287)
    || (c == 12288)

abbrev pub is_empty : List ℕ → Bool
is_empty [] = true
is_empty (c ∷ s) = false

unfoldable pub lstrip : List ℕ → List ℕ
lstrip [] = []
lstrip (c ∷ s) = let rest = lstrip s in if is_space c then rest else c ∷ s

unfoldable pub rstrip : List ℕ → List ℕ
rstrip [] = []
rstrip (c ∷ s) = let rest = rstrip s in if is_empty rest && is_space c then [] else c ∷ rest

-- `s.strip()`
unfoldable pub strip : List ℕ → List ℕ
strip s = rstrip (lstrip s)

-- `s[:n]` and `s[n:]`
unfoldable pub take : ℕ → List ℕ → List ℕ
take zero s = []
take (suc n) [] = []
take (suc n) (c ∷ s) = c ∷ take n s

unfoldable pub drop : ℕ → List ℕ → List ℕ
drop zero s = s
drop (suc n) [] = []
drop (suc n) (c ∷ s) = drop n s

-- `s[a:b]`
unfoldable pub slice : List ℕ → ℕ → ℕ → List ℕ
slice s a b = take (b - a) (drop a s)

unfoldable pub get_elem? : List ℕ → ℕ → Option ℕ
get_elem? [] i = none
get_elem? (c ∷ s) zero = some c
get_elem? (c ∷ s) (suc i) = get_elem? s i

pub get_elem?-lt : (s : List ℕ) (i c : ℕ) → get_elem? s i ≡ some c → i < length s
unfolding get_elem?
get_elem?-lt [] i c h = absurd (ground arith)
get_elem?-lt (d ∷ s) zero c h = omega arith
get_elem?-lt (d ∷ s) (suc i) c h = let rest = get_elem?-lt s i c h in omega arith

pub all_space : List ℕ → Bool
all_space [] = true
all_space (c ∷ s) = is_space c && all_space s

get_elem?-take : (n i : ℕ) (s : List ℕ) → i < n → get_elem? (take n s) i ≡ get_elem? s i
unfolding get_elem? take
get_elem?-take zero i s h = absurd (omega arith)
get_elem?-take (suc n) i [] h = refl
get_elem?-take (suc n) zero (c ∷ s) h = refl
get_elem?-take (suc n) (suc i) (c ∷ s) h = get_elem?-take n i s (omega arith)

get_elem?-drop : (n i : ℕ) (s : List ℕ) → get_elem? (drop n s) i ≡ get_elem? s (n + i)
unfolding get_elem? drop
get_elem?-drop zero i s = let same : i ≡ 0 + i = omega arith in ap (get_elem? s) same
get_elem?-drop (suc n) i [] = refl
get_elem?-drop (suc n) i (c ∷ s) =
    let same : suc (n + i) ≡ suc n + i = omega arith in
    get_elem?-drop n i s ∙ ap (get_elem? (c ∷ s)) same

pub get_elem?-slice :
    (s : List ℕ) (a b i : ℕ) → a ≤ i → i < b → get_elem? (slice s a b) (i - a) ≡ get_elem? s i
unfolding slice
get_elem?-slice s a b i lo hi =
    let there : a + (i - a) ≡ i = omega arith in
    get_elem?-take (b - a) (i - a) (drop a s) (omega arith)
    ∙ get_elem?-drop a (i - a) s
    ∙ ap (get_elem? s) there

get_elem?-all_space :
    (s : List ℕ) (i c : ℕ) → all_space s ≡ true → get_elem? s i ≡ some c → is_space c ≡ true
unfolding get_elem? all_space
get_elem?-all_space [] i c h e = absurd (ground arith)
get_elem?-all_space (d ∷ s) zero c h e =
    let same : d ≡ c = cc in
    subst (λ x. is_space x ≡ true) same (and-left (is_space d) (all_space s) h)
get_elem?-all_space (d ∷ s) (suc i) c h e =
    get_elem?-all_space s i c (and-right (is_space d) (all_space s) h) e

rstrip-empty : (s : List ℕ) → rstrip s ≡ [] → all_space s ≡ true
unfolding rstrip all_space
rstrip-empty [] h = refl
rstrip-empty (c ∷ s) h = elim (Bool-cases (is_empty (rstrip s) && is_space c)) [
  | inl blank ↦ let rest = rstrip-empty s (emptied (rstrip s) (ground arith)) in ground arith
  | inr shown ↦ let kept = if-eq_of_false _ _ _ shown h in absurd (ground arith)
]
  where
    emptied : (r : List ℕ) → is_empty r ≡ true → r ≡ []
    emptied [] e = refl
    emptied (d ∷ r) e = absurd (ground arith)

lstrip-all_space : (s : List ℕ) → all_space (lstrip s) ≡ true → all_space s ≡ true
unfolding lstrip all_space
lstrip-all_space [] h = refl
lstrip-all_space (c ∷ s) h = elim (Bool-cases (is_space c)) [
  | inl blank ↦ let rest = lstrip-all_space s in ground arith
  | inr shown ↦ ground arith
]

-- A character that is no space is left over when the text is stripped.
pub strip-ne_empty :
    (s : List ℕ) (i c : ℕ) → get_elem? s i ≡ some c → is_space c ≡ false → strip s ≢ []
unfolding strip
strip-ne_empty s i c e shown h =
    let blank = get_elem?-all_space s i c (lstrip-all_space s (rstrip-empty (lstrip s) h)) e in
    ground arith
