-- ===== src/PublicApi/Context/Apart.antt =====
-- The gaps between the merged ranges of a document.
use inherent.Prelude.{ℕ, ◌+◌, ◌≤◌, List, [], ◌∷◌, max, arith, leb, All, Bool-cases, inl, inr}
use inherent.PublicApi.Context.{Span, sort_spans, merge, merge_sorted}
use inherent.PublicApi.Context.Spans.{IsOrdered, IsSorted, IsSorted-weaken, sort_spans-IsSorted}

-- Ranges from `free` on, in ascending order, with an index in between that is in neither neighbour.
unfoldable pub IsApart : ℕ → List Span → Type 0
IsApart free [] = Unit
IsApart free (s ∷ ranges) = (free ≤ s.0) × (s.0 ≤ s.1) × IsApart (s.1 + 2) ranges

merge-IsApart :
    (free lo hi : ℕ) (spans : List Span)
    → free ≤ lo
    → lo ≤ hi
    → IsSorted lo spans
    → IsApart free (merge lo hi spans)
unfolding merge IsSorted IsApart
merge-IsApart free lo hi [] f h sorted = (f, h, tt)
merge-IsApart free lo hi (s ∷ spans) f h (first, ordered, rest) =
    elim (Bool-cases (leb s.0 (hi + 1))) [
      | inl joins ↦
          rw (joins, merge)
            (merge-IsApart free lo (max hi s.1) spans f (omega arith)
              (IsSorted-weaken lo s.0 spans first rest))
      | inr apart ↦
          rw (apart, merge) (f, h, merge-IsApart (hi + 2) s.0 s.1 spans (ground arith) ordered rest)
    ]

-- The ranges that a document's spans are merged to ascend, and between two of them there is an
-- index that is in neither: no chunk is fetched twice, and no two ranges could be one.
pub merge_sorted-IsApart :
    (spans : List Span) → All IsOrdered spans → IsApart 0 (merge_sorted (sort_spans spans))
unfolding merge_sorted IsSorted IsApart
merge_sorted-IsApart spans h = merged (sort_spans spans) (sort_spans-IsSorted spans h)
  where
    merged : (sorted : List Span) → IsSorted 0 sorted → IsApart 0 (merge_sorted sorted)
    merged [] h = tt
    merged (s ∷ spans) (first, ordered, rest) = merge-IsApart 0 s.0 s.1 spans first ordered rest
