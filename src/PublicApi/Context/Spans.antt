-- ===== src/PublicApi/Context/Spans.antt =====
-- The indices that spans contain, through sorting and merging.
use inherent.Prelude.{
  ℕ, ◌+◌, ◌≤◌, max, ◌≡◌, refl, ap, ◌∙◌, Bool, true, false, ◌&&◌, ◌||◌, List, [], ◌∷◌, arith, leb,
  All, leb→le, Bool-cases, inl, inr,
}
use inherent.PublicApi.Context.{Span, before, insert_span, sort_spans, merge, merge_sorted}

-- Is the index in the span, and in one of the spans?
abbrev pub within : ℕ → Span → Bool
within i s = leb s.0 i && leb i s.1

unfoldable pub contains : ℕ → List Span → Bool
contains i [] = false
contains i (s ∷ spans) = within i s || contains i spans

-- A span that ends at its first index or later.
abbrev pub IsOrdered : Span → Type 0
IsOrdered s = s.0 ≤ s.1

-- Each span starts no earlier than `lo`, nor than the span before it.
unfoldable pub IsSorted : ℕ → List Span → Type 0
IsSorted lo [] = Unit
IsSorted lo (s ∷ spans) = (lo ≤ s.0) × (s.0 ≤ s.1) × IsSorted s.0 spans

pub or_swap : (a b c : Bool) → (a || (b || c)) ≡ (b || (a || c))
or_swap true true c = refl
or_swap true false c = refl
or_swap false true c = refl
or_swap false false c = refl

contains-insert_span :
    (i : ℕ) (s : Span) (spans : List Span)
    → contains i (insert_span s spans) ≡ (within i s || contains i spans)
unfolding contains insert_span
contains-insert_span i s [] = refl
contains-insert_span i s (t ∷ spans) = elim (Bool-cases (before s t)) [
  | inl first ↦ rw (first, insert_span) refl
  | inr later ↦
      rw (later, insert_span)
        (ap (λ b. within i t || b) (contains-insert_span i s spans)
          ∙ or_swap (within i t) (within i s) (contains i spans))
]

pub contains-sort_spans :
    (i : ℕ) (spans : List Span) → contains i (sort_spans spans) ≡ contains i spans
unfolding contains sort_spans
contains-sort_spans i [] = refl
contains-sort_spans i (s ∷ spans) =
    contains-insert_span i s (sort_spans spans)
    ∙ ap (λ b. within i s || b) (contains-sort_spans i spans)

insert_span-IsSorted :
    (lo : ℕ) (s : Span) (spans : List Span)
    → lo ≤ s.0
    → s.0 ≤ s.1
    → IsSorted lo spans
    → IsSorted lo (insert_span s spans)
unfolding insert_span IsSorted before
insert_span-IsSorted lo s [] h o sorted = (h, o, tt)
insert_span-IsSorted lo s (t ∷ spans) h o (first, ordered, rest) = elim (Bool-cases (before s t)) [
  | inl earlier ↦ rw (earlier, insert_span) (h, o, (ground arith, ordered, rest))
  | inr later ↦
      rw (later, insert_span)
        (first, ordered, insert_span-IsSorted t.0 s spans (ground arith) o rest)
]

pub sort_spans-IsSorted : (spans : List Span) → All IsOrdered spans → IsSorted 0 (sort_spans spans)
unfolding sort_spans IsSorted
sort_spans-IsSorted [] h = tt
sort_spans-IsSorted (s ∷ spans) (o, h) =
    insert_span-IsSorted 0 s (sort_spans spans) (omega arith) o (sort_spans-IsSorted spans h)

pub IsSorted-weaken :
    (lo lo' : ℕ) (spans : List Span) → lo ≤ lo' → IsSorted lo' spans → IsSorted lo spans
unfolding IsSorted
IsSorted-weaken lo lo' [] h sorted = tt
IsSorted-weaken lo lo' (s ∷ spans) h (first, ordered, rest) = (omega arith, ordered, rest)

-- Two spans that overlap or adjoin contain the indices from the first one's start to the later end.
within-join :
    (i lo hi : ℕ) (s : Span)
    → lo ≤ s.0
    → s.0 ≤ hi + 1
    → s.0 ≤ s.1
    → lo ≤ hi
    → within i (lo, max hi s.1) ≡ (within i (lo, hi) || within i s)
within-join i lo hi s h j o w = elim (Bool-cases (leb lo i)) [
  | inl after ↦ ground arith
  | inr early ↦ ground arith
]

pub or_assoc : (a b c : Bool) → ((a || b) || c) ≡ (a || (b || c))
or_assoc true b c = refl
or_assoc false b c = refl

-- Merging overlapping and adjacent spans keeps the set of indices.
contains-merge :
    (i lo hi : ℕ) (spans : List Span)
    → lo ≤ hi
    → IsSorted lo spans
    → contains i (merge lo hi spans) ≡ (within i (lo, hi) || contains i spans)
unfolding contains merge IsSorted
contains-merge i lo hi [] h sorted = refl
contains-merge i lo hi (s ∷ spans) h (first, ordered, rest) = elim (Bool-cases (leb s.0 (hi + 1))) [
  | inl joins ↦
      rw (joins, merge)
        (contains-merge i lo (max hi s.1) spans (omega arith)
            (IsSorted-weaken lo s.0 spans first rest)
          ∙ ap (λ b. b || contains i spans)
              (within-join i lo hi s first (leb→le s.0 (hi + 1) joins) ordered h)
          ∙ or_assoc (within i (lo, hi)) (within i s) (contains i spans))
  | inr apart ↦
      rw (apart, merge)
        (ap (λ b. within i (lo, hi) || b) (contains-merge i s.0 s.1 spans ordered rest))
]

-- Sorted and merged, the spans contain the same indices.
pub contains-merge_sorted :
    (i : ℕ) (spans : List Span)
    → All IsOrdered spans
    → contains i (merge_sorted (sort_spans spans)) ≡ contains i spans
unfolding merge_sorted IsSorted contains
contains-merge_sorted i spans h =
    merged (sort_spans spans) (sort_spans-IsSorted spans h) ∙ contains-sort_spans i spans
  where
    merged :
        (sorted : List Span)
        → IsSorted 0 sorted
        → contains i (merge_sorted sorted) ≡ contains i sorted
    merged [] h = refl
    merged (s ∷ spans) (first, ordered, rest) = contains-merge i s.0 s.1 spans ordered rest
