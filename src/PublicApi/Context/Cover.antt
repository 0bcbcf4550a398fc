-- ===== src/PublicApi/Context/Cover.antt =====
-- The indices of the fetched ranges, and the wanted neighbours.
use inherent.Prelude.{
  ℕ, ◌+◌, ◌<◌, String, ◌≡◌, refl, sym, ap, ◌∙◌, Bool, true, false, ◌&&◌, ◌||◌, none, some, List, [],
  ◌∷◌, ◌++◌, map, arith, leb, ◌==◌, str_eq, eq_iff, All, Bool-cases, Option-cases, inl, inr,
}
use inherent.PublicApi.Context.{
  SearchResult, Span, append_span, window, spans_by_document, sort_spans, merge_sorted,
  document_ranges, compute_ranges,
}
use inherent.PublicApi.Context.Spans.{
  within, contains, IsOrdered, or_assoc, or_swap, contains-merge_sorted,
}

-- Is the chunk `i` of `doc` in one of the ranges, or in one of the documents' spans?
unfoldable pub in_ranges : String → ℕ → List (String × Span) → Bool
in_ranges doc i [] = false
in_ranges doc i (r ∷ ranges) = (str_eq r.0 doc && within i r.1) || in_ranges doc i ranges

in_spans : String → ℕ → List (String × List Span) → Bool
in_spans doc i [] = false
in_spans doc i (d ∷ per_doc) = (str_eq d.0 doc && contains i d.1) || in_spans doc i per_doc

-- Is it within `k` of the index of a match in its document?
unfoldable pub is_wanted : ℕ → String → ℕ → List SearchResult → Bool
is_wanted k doc i [] = false
is_wanted k doc i (m ∷ matches) = elim m.match_chunk_index [
  | none ↦ is_wanted k doc i matches
  | some idx ↦
      (str_eq m.document_id doc && (leb idx (i + k) && leb i (idx + k)))
      || is_wanted k doc i matches
]

or_comm : (a b : Bool) → (a || b) ≡ (b || a)
or_comm true true = refl
or_comm true false = refl
or_comm false true = refl
or_comm false false = refl

and_or : (a b c : Bool) → (a && (b || c)) ≡ ((a && b) || (a && c))
and_or true b c = refl
and_or false b c = refl

in_ranges-append :
    (doc : String) (i : ℕ) (a b : List (String × Span))
    → in_ranges doc i (a ++ b) ≡ (in_ranges doc i a || in_ranges doc i b)
unfolding in_ranges
in_ranges-append doc i [] b = refl
in_ranges-append doc i (r ∷ a) b =
    ap (λ x. (str_eq r.0 doc && within i r.1) || x) (in_ranges-append doc i a b)
    ∙ sym (or_assoc (str_eq r.0 doc && within i r.1) (in_ranges doc i a) (in_ranges doc i b))

and_false : (a : Bool) → false ≡ (a && false)
and_false true = refl
and_false false = refl

in_ranges-map :
    (doc d : String) (i : ℕ) (spans : List Span)
    → in_ranges doc i (map (λ s. (d, s)) spans) ≡ (str_eq d doc && contains i spans)
unfolding in_ranges contains
in_ranges-map doc d i [] = and_false (str_eq d doc)
in_ranges-map doc d i (s ∷ spans) =
    ap (λ x. (str_eq d doc && within i s) || x) (in_ranges-map doc d i spans)
    ∙ sym (and_or (str_eq d doc) (within i s) (contains i spans))

-- Every document's spans are ordered.
AllOrdered : List (String × List Span) → Type 0
AllOrdered per_doc = All (λ d. All IsOrdered d.1) per_doc

in_ranges-document_ranges :
    (doc : String) (i : ℕ) (per_doc : List (String × List Span))
    → AllOrdered per_doc
    → in_ranges doc i (document_ranges per_doc) ≡ in_spans doc i per_doc
unfolding in_spans document_ranges AllOrdered in_ranges
in_ranges-document_ranges doc i [] h = refl
in_ranges-document_ranges doc i (d ∷ per_doc) (o, h) =
    in_ranges-append doc i (map (λ s. (d.0, s)) (merge_sorted (sort_spans d.1)))
      (document_ranges per_doc)
    ∙ ap (λ x. x || in_ranges doc i (document_ranges per_doc))
        (in_ranges-map doc d.0 i (merge_sorted (sort_spans d.1))
          ∙ ap (λ x. str_eq d.0 doc && x) (contains-merge_sorted i d.1 o))
    ∙ ap (λ x. (str_eq d.0 doc && contains i d.1) || x) (in_ranges-document_ranges doc i per_doc h)

or_false : (b : Bool) → (b || false) ≡ b
or_false true = refl
or_false false = refl

contains-append_one :
    (i : ℕ) (spans : List Span) (s : Span)
    → contains i (spans ++ (s ∷ [])) ≡ (within i s || contains i spans)
unfolding contains
contains-append_one i [] s = refl
contains-append_one i (t ∷ spans) s =
    ap (λ x. within i t || x) (contains-append_one i spans s)
    ∙ sym (or_assoc (within i t) (within i s) (contains i spans))
    ∙ ap (λ x. x || contains i spans) (or_comm (within i t) (within i s))
    ∙ or_assoc (within i s) (within i t) (contains i spans)

both : (t w c r : Bool) → ((t && (w || c)) || r) ≡ ((t && w) || ((t && c) || r))
both true w c r = or_assoc w c r
both false w c r = refl

in_spans-append_span :
    (doc : String) (i : ℕ) (d : String) (s : Span) (per_doc : List (String × List Span))
    → in_spans doc i (append_span d s per_doc)
      ≡ ((str_eq d doc && within i s) || in_spans doc i per_doc)
unfolding in_spans append_span contains
in_spans-append_span doc i d s [] = ap (λ x. (str_eq d doc && x) || false) (or_false (within i s))
in_spans-append_span doc i d s (e ∷ per_doc) = elim (Bool-cases (str_eq e.0 d)) [
  | inl same ↦
      rw (same, append_span)
        (ap (λ x. (str_eq e.0 doc && x) || in_spans doc i per_doc) (contains-append_one i e.1 s)
          ∙ both (str_eq e.0 doc) (within i s) (contains i e.1) (in_spans doc i per_doc)
          ∙ ap
              (λ n.
                (str_eq n doc && within i s)
                || ((str_eq e.0 doc && contains i e.1) || in_spans doc i per_doc))
              ((eq_iff e.0 d).0 same))
  | inr other ↦
      rw (other, append_span)
        (ap (λ x. (str_eq e.0 doc && contains i e.1) || x) (in_spans-append_span doc i d s per_doc)
          ∙ or_swap (str_eq e.0 doc && contains i e.1) (str_eq d doc && within i s)
              (in_spans doc i per_doc))
]

All-append_one :
    (spans : List Span) (s : Span)
    → All IsOrdered spans
    → IsOrdered s
    → All IsOrdered (spans ++ (s ∷ []))
All-append_one [] s h o = (o, tt)
All-append_one (t ∷ spans) s (p, h) o = (p, All-append_one spans s h o)

append_span-AllOrdered :
    (d : String) (s : Span) (per_doc : List (String × List Span))
    → IsOrdered s
    → AllOrdered per_doc
    → AllOrdered (append_span d s per_doc)
unfolding AllOrdered append_span
append_span-AllOrdered d s [] o h = ((o, tt), tt)
append_span-AllOrdered d s (e ∷ per_doc) o (p, h) = elim (Bool-cases (str_eq e.0 d)) [
  | inl same ↦ rw (same, append_span) (All-append_one e.1 s p o, h)
  | inr other ↦ rw (other, append_span) (p, append_span-AllOrdered d s per_doc o h)
]

window-IsOrdered : (k idx : ℕ) → IsOrdered (window k idx)
unfolding window
window-IsOrdered k idx = omega arith

within-window : (k idx i : ℕ) → within i (window k idx) ≡ (leb idx (i + k) && leb i (idx + k))
unfolding window
within-window k idx i = ap (λ b. b && leb i (idx + k)) (ground arith)

collected :
    (k : ℕ) (doc : String) (i : ℕ) (matches : List SearchResult)
    (per_doc : List (String × List Span))
    → AllOrdered per_doc
    → (in_spans doc i (spans_by_document k matches per_doc)
        ≡ (in_spans doc i per_doc || is_wanted k doc i matches))
      × AllOrdered (spans_by_document k matches per_doc)
unfolding spans_by_document is_wanted
collected k doc i [] per_doc h = (sym (or_false (in_spans doc i per_doc)), h)
collected k doc i (m ∷ matches) per_doc h = elim (Option-cases m.match_chunk_index) [
  | inl unplaced ↦ rw (unplaced, spans_by_document, is_wanted) (collected k doc i matches per_doc h)
  | inr (idx, placed) ↦
      let here = str_eq m.document_id doc && (leb idx (i + k) && leb i (idx + k)) in
      let (rest, ordered) =
        collected k doc i matches (append_span m.document_id (window k idx) per_doc) (
          append_span-AllOrdered m.document_id (window k idx) per_doc (window-IsOrdered k idx) h) in
      rw (placed, spans_by_document, is_wanted)
        (
          rest
              ∙ ap (λ x. x || is_wanted k doc i matches)
                  (in_spans-append_span doc i m.document_id (window k idx) per_doc
                    ∙ ap (λ x. (str_eq m.document_id doc && x) || in_spans doc i per_doc)
                        (within-window k idx i)
                    ∙ or_comm here (in_spans doc i per_doc))
              ∙ or_assoc (in_spans doc i per_doc) here (is_wanted k doc i matches),
          ordered,
        )
]

-- For a positive `k`, a chunk of a document is in a fetched range exactly if its index is within `k`
-- of the index of a match in that document: no neighbour is missed, and no chunk between two
-- far-apart matches is fetched.
pub compute_ranges-eq-wanted :
    (matches : List SearchResult) (k : ℕ) (doc : String) (i : ℕ)
    → 0 < k
    → in_ranges doc i (compute_ranges matches k) ≡ is_wanted k doc i matches
unfolding compute_ranges
compute_ranges-eq-wanted matches k doc i positive =
    let (all, ordered) = collected k doc i matches [] (unfold AllOrdered in tt) in
    let some_width : (k == 0) ≡ false = ground arith in
    rw some_width (
      in_ranges-document_ranges doc i (spans_by_document k matches []) ordered
      ∙ all
      ∙ (unfold in_spans in refl))
