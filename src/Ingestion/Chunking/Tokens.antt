-- ===== src/Ingestion/Chunking/Tokens.antt =====
-- `estimate_tokens` and `_token_budget_char_cap`. The code multiplies and divides floats by 1.3;
-- the results are whole numbers, and the same as those of the fractions here.
use inherent.Prelude.{
  ℕ, suc, ◌+◌, ◌*◌, ◌/◌, ◌≤◌, Bool, true, false, List, [], ◌∷◌, length, min, max, arith,
  if◌then◌else◌, Bool-cases, inl, inr,
}
use inherent.Ingestion.Chunking.Text.{is_space}

-- The words that begin in a text, from inside of a word or from outside.
unfoldable pub words_from : Bool → List ℕ → ℕ
words_from inside [] = 0
words_from inside (c ∷ s) =
    let outside = words_from false s in
    let within = words_from true s in
    if is_space c then outside else if inside then within else suc within

-- `len(text.split())`
unfoldable pub words : List ℕ → ℕ
words text = words_from false text

-- The larger of the two fractions, rounded up.
unfoldable pub estimate : ℕ → ℕ → ℕ
estimate words chars = max ((words * 13 + 9) / 10) ((chars + 3) / 4)

unfoldable pub estimate_tokens : List ℕ → ℕ
estimate_tokens [] = 0
estimate_tokens (c ∷ s) = estimate (words (c ∷ s)) (length (c ∷ s))

unfoldable pub token_budget_char_cap : ℕ → ℕ
token_budget_char_cap embedding_max_tokens =
    max 1 (min (embedding_max_tokens * 4) ((20 * embedding_max_tokens) / 13))

words_from-le :
    (s : List ℕ) → (words_from true s * 2 ≤ length s) × (words_from false s * 2 ≤ length s + 1)
unfolding words_from
words_from-le [] = (omega arith, omega arith)
words_from-le (c ∷ s) =
    let (within, outside) = words_from-le s in
    elim (Bool-cases (is_space c)) [
      | inl blank ↦ (ground arith, ground arith)
      | inr shown ↦ (ground arith, ground arith)
    ]

estimate-le :
    (w n t : ℕ) → w * 2 ≤ n + 1 → n ≤ token_budget_char_cap t → 1 ≤ t → estimate w n ≤ t + 1
unfolding estimate token_budget_char_cap
estimate-le w n t h fits budget = omega arith

-- A text that is no longer than the character cap of a positive token budget is estimated at no
-- more than one token above that budget.
pub estimate_tokens-le :
    (text : List ℕ) (embedding_max_tokens : ℕ)
    → 1 ≤ embedding_max_tokens
    → length text ≤ token_budget_char_cap embedding_max_tokens
    → estimate_tokens text ≤ embedding_max_tokens + 1
unfolding estimate_tokens words
estimate_tokens-le [] t budget fits = omega arith
estimate_tokens-le (c ∷ s) t budget fits =
    let (within, outside) = words_from-le (c ∷ s) in
    estimate-le (words_from false (c ∷ s)) (length (c ∷ s)) t outside fits budget
