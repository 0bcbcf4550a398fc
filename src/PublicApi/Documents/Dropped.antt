-- ===== src/PublicApi/Documents/Dropped.antt =====
-- What the transaction of a deletion leaves in the tables.
use inherent.Prelude.{
  ◌-◌, Bool-cases, if-of_true, inl, inr, eq_refl, ℕ, suc, ◌==◌, String, ◌≡◌, ◌≢◌, ◌⊎◌, ◌&&◌, refl,
  sym, ap, ◌∙◌, true, false, none, some, List, [], ◌∷◌, All, arith, str_eq, eq_iff, if◌then◌else◌,
  if_cases, if-of_false,
}
use inherent.PublicApi.Documents.Rows.{
  DocumentRow, ChunkKey, WorkspaceCounters, uncount, has_key, find_document, drop_document,
  drop_chunks,
}

pub find-drop :
    (id workspace : String) (rows : List DocumentRow)
    → find_document id workspace (drop_document id workspace rows) ≡ none
unfolding find_document drop_document
find-drop id workspace [] = refl
find-drop id workspace (d ∷ rows) = ground (arith, find-drop id workspace rows)

-- Only the one key is dropped.
key_same :
    (id workspace other_id other_workspace : String) (d : DocumentRow)
    → (other_id ≢ id) ⊎ (other_workspace ≢ workspace)
    → has_key id workspace d ≡ true
    → has_key other_id other_workspace d ≡ false
key_same id workspace other_id other_workspace d apart e = ground (
  arith,
  eq_iff d.document_id id,
  eq_iff d.document_id other_id,
  eq_iff d.workspace_id workspace,
  eq_iff d.workspace_id other_workspace,
)

pub find-drop_other :
    (id workspace other_id other_workspace : String) (rows : List DocumentRow)
    → (other_id ≢ id) ⊎ (other_workspace ≢ workspace)
    → find_document other_id other_workspace (drop_document id workspace rows)
      ≡ find_document other_id other_workspace rows
unfolding find_document drop_document
find-drop_other id workspace other_id other_workspace [] apart = refl
find-drop_other id workspace other_id other_workspace (d ∷ rows) apart =
    let there = find-drop_other id workspace other_id other_workspace rows apart in
    let same = key_same id workspace other_id other_workspace d apart in
    let found = has_key other_id other_workspace d in
    if_cases
      (λ l.
        find_document other_id other_workspace l
        ≡ find_document other_id other_workspace (d ∷ rows))
      (has_key id workspace d) _ _ (λ e. there ∙ sym (if-of_false found (some d) _ (same e)))
      (λ e. ap (λ o. if found then some d else o) there)

-- How many chunks a document has under an index.
abbrev pub chunks_at : String → ℕ → List ChunkKey → ℕ
chunks_at id n [] = 0
chunks_at id n (c ∷ rows) =
    let rest = chunks_at id n rows in
    if str_eq c.document_id id && c.chunk_index == n then suc rest else rest

-- The chunks of the other documents stay.
pub chunks_at-drop_other :
    (id other_id : String) (n : ℕ) (rows : List ChunkKey)
    → other_id ≢ id
    → chunks_at other_id n (drop_chunks id rows) ≡ chunks_at other_id n rows
unfolding drop_chunks
chunks_at-drop_other id other_id n [] apart = refl
chunks_at-drop_other id other_id n (c ∷ rows) apart =
    let there = chunks_at-drop_other id other_id n rows apart in
    ground (arith, there, eq_iff c.document_id id, eq_iff c.document_id other_id)

pub drop_chunks-All :
    (id : String) (rows : List ChunkKey)
    → All (λ c. str_eq c.document_id id ≡ false) (drop_chunks id rows)
unfolding drop_chunks
drop_chunks-All id [] = tt
drop_chunks-All id (c ∷ rows) =
    if_cases (All (λ c. str_eq c.document_id id ≡ false)) (str_eq c.document_id id) _ _
      (λ e. drop_chunks-All id rows) (λ e. (e, drop_chunks-All id rows))

pub uncount_self :
    (workspace : String) (d : DocumentRow) (counters : String → WorkspaceCounters)
    → uncount workspace d counters workspace ≡ record {
      document_count = (counters workspace).document_count - 1;
      chunk_count = (counters workspace).chunk_count - d.chunk_count;
      total_size_bytes = (counters workspace).total_size_bytes - d.size_bytes;
    }
uncount_self workspace d counters = if-of_true _ _ _ (eq_refl workspace)

pub uncount_other :
    (workspace : String) (d : DocumentRow) (counters : String → WorkspaceCounters) (other : String)
    → other ≢ workspace
    → uncount workspace d counters other ≡ counters other
uncount_other workspace d counters other apart = elim (Bool-cases (str_eq other workspace)) [
  | inl same ↦ absurd (apart ((eq_iff other workspace).0 same))
  | inr different ↦ if-of_false _ _ _ different
]
