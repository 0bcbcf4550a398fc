-- ===== src/PublicApi/Documents/Found.antt =====
-- Which row a key finds, after each statement on the table.
use inherent.Prelude.{
  String, ◌≡◌, refl, ap, ◌∙◌, true, false, none, some, List, [], ◌∷◌, arith, str_eq, eq_refl,
  Bool-cases, inl, inr, if-of_true, if-of_false, if-eq_of_false,
}
use inherent.PublicApi.Documents.Rows.{
  DocumentRow, Tables, has_key, find_document, reset_row, has_document, reset_document,
  create_or_reset_pending_document, fail_document,
}

find-here :
    (id workspace : String) (d : DocumentRow) (rows : List DocumentRow)
    → has_key id workspace d ≡ true
    → find_document id workspace (d ∷ rows) ≡ some d
unfolding find_document
find-here id workspace d rows e = ground arith

find-there :
    (id workspace : String) (d : DocumentRow) (rows : List DocumentRow)
    → has_key id workspace d ≡ false
    → find_document id workspace (d ∷ rows) ≡ find_document id workspace rows
unfolding find_document
find-there id workspace d rows e = ground arith

has_key_self : (d : DocumentRow) → has_key d.document_id d.workspace_id d ≡ true
has_key_self d = rw (eq_refl d.document_id, eq_refl d.workspace_id) refl

has_key_other :
    (id workspace : String) (d : DocumentRow)
    → str_eq d.document_id id ≡ false
    → has_key id workspace d ≡ false
has_key_other id workspace d e = rw e refl

module _ (row : DocumentRow) (keeps : (old : DocumentRow) → reset_row row old ≡ row) where
  find-reset :
      (rows : List DocumentRow)
      → has_document row.document_id rows ≡ true
      → find_document row.document_id row.workspace_id (reset_document row rows) ≡ some row
  unfolding reset_document has_document
  find-reset [] h = absurd (ground arith)
  find-reset (d ∷ rows) h = elim (Bool-cases (str_eq d.document_id row.document_id)) [
    | inl e ↦
        ap (λ rows. find_document row.document_id row.workspace_id rows)
          (if-of_true _ (reset_row row d ∷ rows) (d ∷ reset_document row rows) e)
        ∙ ap (λ r. find_document row.document_id row.workspace_id (r ∷ rows)) (keeps d)
        ∙ find-here row.document_id row.workspace_id row rows (has_key_self row)
    | inr e ↦
        ap (λ rows. find_document row.document_id row.workspace_id rows)
          (if-of_false _ (reset_row row d ∷ rows) (d ∷ reset_document row rows) e)
        ∙ find-there row.document_id row.workspace_id d (reset_document row rows)
            (has_key_other row.document_id row.workspace_id d e)
        ∙ find-reset rows (if-eq_of_false _ true _ e h)
  ]

  -- A row that names its uploader and its hash is found as it was written, whether it is new or
  -- replaces one with its identifier, of whichever workspace.
  pub find-create :
      (t : Tables)
      → row.status ≡ "pending"
      → record row { status = "pending"; error_message = none; chunk_count = 0 } ≡ row
      → find_document row.document_id row.workspace_id
          (create_or_reset_pending_document row t).documents
        ≡ some row
  unfolding create_or_reset_pending_document
  find-create t p e = elim (Bool-cases (has_document row.document_id t.documents)) [
    | inl known ↦ rw (e, known) (find-reset t.documents known)
    | inr fresh ↦
        rw (e, fresh)
          (find-here row.document_id row.workspace_id row t.documents (has_key_self row))
  ]

abbrev pub failed_row : String → DocumentRow → DocumentRow
failed_row message d = record d { status = "failed"; error_message = some message }

pub find-fail :
    (id workspace message : String) (rows : List DocumentRow) (d : DocumentRow)
    → find_document id workspace rows ≡ some d
    → find_document id workspace (fail_document id workspace message rows)
      ≡ some (failed_row message d)
unfolding find_document fail_document
find-fail id workspace message [] d h = absurd (ground arith)
find-fail id workspace message (c ∷ rows) d h =
    let there = find-fail id workspace message rows d in ground (arith, there)
