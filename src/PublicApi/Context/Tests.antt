-- ===== src/PublicApi/Context/Tests.antt =====
-- The ranges of sample results, and the theorem there.
use inherent.Prelude.{ℕ, String, ◌≡◌, refl, none, some, List, [], ◌∷◌, arith}
use inherent.PublicApi.Context.{
  Span, SearchResult, append_span, window, spans_by_document, before, insert_span, sort_spans,
  merge, merge_sorted, document_ranges, compute_ranges,
}
use inherent.PublicApi.Context.Apart.{IsApart, merge_sorted-IsApart}
use inherent.PublicApi.Context.Expand.{
  StoredChunk, OwnedDocument, Match, keep, by_index, context_chunk, assign_windows, expand,
  is_visible, get_context_chunks,
}
use inherent.PublicApi.Context.Neighbours.{HasUniqueKeys, expand-eq-assign_windows}
use inherent.PublicApi.Context.Cover.{in_ranges, is_wanted, compute_ranges-eq-wanted}

-- Two far-apart matches in one document, an adjoining one, one without an index, one elsewhere.
abbrev results : List SearchResult
results =
    record { document_id = "a"; match_chunk_index = some 50 }
    ∷ record { document_id = "b"; match_chunk_index = some 1 }
    ∷ record { document_id = "a"; match_chunk_index = some 3 }
    ∷ record { document_id = "a"; match_chunk_index = none }
    ∷ record { document_id = "a"; match_chunk_index = some 8 }
    ∷ []

ranges_of_results : compute_ranges results 2 ≡ ("a", (1, 10)) ∷ ("a", (48, 52)) ∷ ("b", (0, 3)) ∷ []
unfolding append_span window spans_by_document before insert_span sort_spans merge merge_sorted
    document_ranges compute_ranges
ranges_of_results = refl

compute_ranges-eq-wanted_example :
    in_ranges "a" 49 (compute_ranges results 2) ≡ is_wanted 2 "a" 49 results
compute_ranges-eq-wanted_example = compute_ranges-eq-wanted results 2 "a" 49 (omega arith)

abbrev spans : List Span
spans = (48, 52) ∷ (1, 5) ∷ (6, 10) ∷ []

merge_sorted-IsApart_example : IsApart 0 (merge_sorted (sort_spans spans))
merge_sorted-IsApart_example =
    merge_sorted-IsApart spans (omega arith, (omega arith, (omega arith, tt)))

-- A table with one document of the user and one of another, and matches in both.
abbrev chunk_at : String → ℕ → StoredChunk
chunk_at doc i = record {
  id = doc;
  workspace_id = "w";
  document_id = doc;
  chunk_index = i;
  content = doc;
  token_count = none;
}

abbrev table : List StoredChunk
table = chunk_at "a" 2 ∷ chunk_at "b" 5 ∷ chunk_at "a" 1 ∷ chunk_at "a" 0 ∷ chunk_at "a" 3 ∷ []

abbrev documents : List OwnedDocument
documents =
    record { document_id = "a"; workspace_id = "w"; user_id = "u" }
    ∷ record { document_id = "b"; workspace_id = "w"; user_id = "v" }
    ∷ []

abbrev match_at : String → ℕ → Match
match_at doc i = record {
  result = record { document_id = doc; match_chunk_index = some i };
  context_before = none;
  context_after = none;
}

table-HasUniqueKeys : HasUniqueKeys table
table-HasUniqueKeys = (
  (λ e. omega arith, (λ e. omega arith, (λ e. omega arith, (λ e. omega arith, tt)))),
  (
    (λ e. omega arith, (λ e. omega arith, (λ e. omega arith, tt))),
    ((λ e. omega arith, (λ e. omega arith, tt)), ((λ e. omega arith, tt), (tt, tt))),
  ),
)

expand-eq-assign_windows_example :
    expand
      (get_context_chunks by_index table documents)
      (match_at "a" 2 ∷ match_at "b" 4 ∷ [])
      "w"
      "u"
      1
    ≡ assign_windows
        (match_at "a" 2 ∷ match_at "b" 4 ∷ [])
        (keep (is_visible by_index table documents "w" "u") table)
        1
expand-eq-assign_windows_example =
    expand-eq-assign_windows by_index table documents table-HasUniqueKeys
      (match_at "a" 2 ∷ match_at "b" 4 ∷ []) "w" "u" 1 (omega arith)

-- The chunk before and the chunk after the first match; nothing of the other user's document.
contexts_of_matches :
    expand
      (get_context_chunks by_index table documents)
      (match_at "a" 2 ∷ match_at "b" 4 ∷ [])
      "w"
      "u"
      1
    ≡ record (match_at "a" 2) {
      context_before = some (context_chunk (chunk_at "a" 1) ∷ []);
      context_after = some (context_chunk (chunk_at "a" 3) ∷ []);
    }
      ∷ record (match_at "b" 4) { context_before = some []; context_after = some [] }
      ∷ []
unfolding expand get_context_chunks assign_windows in_ranges append_span window spans_by_document
    before insert_span sort_spans merge merge_sorted document_ranges compute_ranges by_index
contexts_of_matches = refl
