-- ===== src/PublicApi/Context.antt =====
-- The chunks around search results: src/services/context_window.py of the public API service, with
-- `_compute_ranges` here. The results come as search.py makes them, with an index that is a number
-- from 0 on, if any.
pub mod Spans
pub mod Cover
pub mod Apart
pub mod Expand
pub mod Sorting
pub mod Neighbours
mod Tests
use inherent.Prelude.{
  ℕ, zero, suc, ◌+◌, ◌-◌, max, String, Bool, true, false, ◌&&◌, Option, none, some, List, [], ◌∷◌,
  ◌++◌, map, ltb, leb, ◌==◌, str_eq, if◌then◌else◌,
}

-- A result: its document, and what `_match_chunk_index` finds in its metadata.
pub record SearchResult : Type 0 where
  pub document_id : String
  pub match_chunk_index : Option ℕ

-- A first and a last index.
abbrev pub Span : Type 0
Span = ℕ × ℕ

-- `per_doc.setdefault(document_id, []).append(span)`, in the order of first insertion
unfoldable pub append_span : String → Span → List (String × List Span) → List (String × List Span)
append_span doc span [] = (doc, span ∷ []) ∷ []
append_span doc span (d ∷ per_doc) =
    let rest = append_span doc span per_doc in
    if str_eq d.0 doc then (d.0, d.1 ++ (span ∷ [])) ∷ per_doc else d ∷ rest

-- `(max(0, idx - k), idx + k)`
unfoldable pub window : ℕ → ℕ → Span
window k idx = (idx - k, idx + k)

unfoldable pub spans_by_document :
    ℕ → List SearchResult → List (String × List Span) → List (String × List Span)
spans_by_document k [] per_doc = per_doc
spans_by_document k (m ∷ matches) per_doc = elim m.match_chunk_index [
  | none ↦ spans_by_document k matches per_doc
  | some idx ↦ spans_by_document k matches (append_span m.document_id (window k idx) per_doc)
]

-- The order of tuples.
unfoldable pub before : Span → Span → Bool
before a b = if ltb a.0 b.0 then true else if a.0 == b.0 then leb a.1 b.1 else false

-- `spans.sort()`
unfoldable pub insert_span : Span → List Span → List Span
insert_span s [] = s ∷ []
insert_span s (t ∷ spans) =
    let rest = insert_span s spans in if before s t then s ∷ t ∷ spans else t ∷ rest

unfoldable pub sort_spans : List Span → List Span
sort_spans [] = []
sort_spans (s ∷ spans) = insert_span s (sort_spans spans)

-- The loop over `spans[1:]`, with `cur_lo` and `cur_hi`.
unfoldable pub merge : ℕ → ℕ → List Span → List Span
merge cur_lo cur_hi [] = (cur_lo, cur_hi) ∷ []
merge cur_lo cur_hi (s ∷ spans) =
    let merged = merge cur_lo (max cur_hi s.1) spans in
    let apart = merge s.0 s.1 spans in
    if leb s.0 (cur_hi + 1) then merged else (cur_lo, cur_hi) ∷ apart

-- The ranges of a document; no document has an empty list of spans.
unfoldable pub merge_sorted : List Span → List Span
merge_sorted [] = []
merge_sorted (s ∷ spans) = merge s.0 s.1 spans

unfoldable pub document_ranges : List (String × List Span) → List (String × Span)
document_ranges [] = []
document_ranges (d ∷ per_doc) =
    map (λ s. (d.0, s)) (merge_sorted (sort_spans d.1)) ++ document_ranges per_doc

-- `_compute_ranges`
unfoldable pub compute_ranges : List SearchResult → ℕ → List (String × Span)
compute_ranges matches k = if k == 0 then [] else document_ranges (spans_by_document k matches [])
