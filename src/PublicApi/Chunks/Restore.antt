-- ===== src/PublicApi/Chunks/Restore.antt =====
-- The rows and the vector of an update and of its rollback: what the stores hold after each call.
use inherent.Prelude.{
  ℕ, ◌⊎◌, String, ◌≡◌, refl, inl, inr, true, Option, none, some, arith, Bool-cases, Option-cases,
  eq_refl,
}
use inherent.PublicApi.Chunks.Stores.{
  DocumentChunk, Stores, find, replace, hash_matches, chunk_of, update_document_chunk,
  update_vector,
}
use inherent.PublicApi.Chunks.Retries.{Attempt}
use inherent.PublicApi.Chunks.Sync.{
  row_content, IsSynced, IsSyncedBut, replace-IsSyncedBut, set_vector-IsSyncedBut,
  find-replace_self,
}
use inherent.PublicApi.Chunks.Outcome.{Returns}
use inherent.PublicApi.Chunks.Delete.{ReadChunk, IsSyncedBut-at}

-- The row at `i` is the new one, and the vector there still that of a former text.
pub record Ahead (hash : String → String) (i : ℕ) (content former : String) (s : Stores)
    : Type 0 where
  pub new_row : find i s.rows ≡ some (chunk_of hash i content)
  pub but : IsSyncedBut i (some content) (some former) s

-- A rewritten row at `i`, before its vector, or none.
unfoldable pub Rewritten :
    (String → String) → ℕ → String → DocumentChunk → Option DocumentChunk → Stores → Type 0
Rewritten hash i content prior none s = IsSynced s
Rewritten hash i content prior (some c) s =
    (c ≡ chunk_of hash i content) × Ahead hash i content prior.content s

Ahead-replace :
    (hash : String → String) (i : ℕ) (content former before : String) (s : Stores)
    → IsSyncedBut i (some before) (some former) s
    → Ahead hash i content former (record s { rows = replace (chunk_of hash i content) s.rows })
Ahead-replace hash i content former before s but = record {
  new_row = find-replace_self (chunk_of hash i content) before s.rows but.at_row;
  but = replace-IsSyncedBut i before (some former) (chunk_of hash i content) s refl but;
}

pub update-Attempt :
    (hash : String → String) (i : ℕ) (content : String) (prior : DocumentChunk)
    (only_if : Option String) (s : Stores)
    → ReadChunk i (some prior) s
    → Returns
        (Rewritten hash i content prior)
        (update_document_chunk hash i content only_if s).0
        (update_document_chunk hash i content only_if s).1
unfolding Attempt Rewritten update_document_chunk ReadChunk IsSynced
update-Attempt hash i content prior only_if s h = elim (Option-cases s.fields) [
  | inl unset ↦ absurd (h.2 unset)
  | inr (f, found) ↦ elim (Option-cases (find i s.rows)) [
    | inl gone ↦ rw (found, update_document_chunk, gone) h.0
    | inr (c, there) ↦ elim (Bool-cases (hash_matches only_if c.content_hash)) [
      | inl same ↦
          rw (found, update_document_chunk, there, same)
            (
              refl,
              Ahead-replace hash i content prior.content prior.content s
                  (IsSyncedBut-at i prior s h),
            )
      | inr other ↦ rw (found, update_document_chunk, there, other) h.0
    ]
  ]
]

hash_matches_self : (h : String) → hash_matches (some h) (some h) ≡ true
unfolding hash_matches
hash_matches_self h = eq_refl h

pub update_vector-Attempt :
    (hash : String → String) (i : ℕ) (content content_hash : String) (prior : String) (s : Stores)
    → Ahead hash i content prior s
    → Returns
        (λ u. Ahead hash i content content)
        (update_vector i content content_hash s).0
        (update_vector i content content_hash s).1
unfolding Attempt update_vector
update_vector-Attempt hash i content content_hash prior s h = elim (Option-cases (s.vectors i)) [
  | inl gone ↦ absurd (let there = h.but.at_vector in ground arith)
  | inr (o, there) ↦
      rw (there, update_vector)
        (record {
          new_row = h.new_row;
          but =
              set_vector-IsSyncedBut i _ _
                (some (record o { content = content; content_hash = content_hash })) s h.but;
        })
]

-- While the row at `i` is restored: it is still the new one, or the former one again.
abbrev pub RestoreOpen : (String → String) → ℕ → String → String → String → Stores → Type 0
RestoreOpen hash i content before vector s =
    Ahead hash i content vector s ⊎ IsSyncedBut i (some before) (some vector) s

known_row :
    (o : Option DocumentChunk) (before : String)
    → row_content o ≡ some before
    → (c : DocumentChunk) × (o ≡ some c)
known_row none before h = absurd (ground arith)
known_row (some c) before h = (c, refl)

restored-Attempt :
    (hash : String → String) (i : ℕ) (before vector : String) (only_if : Option String) (s : Stores)
    → IsSyncedBut i (some before) (some vector) s
    → Returns
        (λ c. IsSyncedBut i (some before) (some vector))
        (update_document_chunk hash i before only_if s).0
        (update_document_chunk hash i before only_if s).1
unfolding Attempt update_document_chunk
restored-Attempt hash i before vector only_if s but =
    let (c, there) = known_row (find i s.rows) before but.at_row in
    elim (Option-cases s.fields) [
      | inl unset ↦ absurd (but.known unset)
      | inr (f, found) ↦ elim (Bool-cases (hash_matches only_if c.content_hash)) [
        | inl same ↦
            rw (found, update_document_chunk, there, same)
              (replace-IsSyncedBut i before (some vector) (chunk_of hash i before) s refl but)
        | inr other ↦ rw (found, update_document_chunk, there, other) but
      ]
    ]

pub restore-Attempt :
    (hash : String → String) (i : ℕ) (content before vector : String) (s : Stores)
    → RestoreOpen hash i content before vector s
    → Returns
        (λ c. IsSyncedBut i (some before) (some vector))
        (update_document_chunk hash i before (some (hash content)) s).0
        (update_document_chunk hash i before (some (hash content)) s).1
restore-Attempt hash i content before vector s (inr but) =
    restored-Attempt hash i before vector (some (hash content)) s but
restore-Attempt hash i content before vector s (inl h) = elim (Option-cases s.fields) [
  | inl unset ↦ absurd (h.but.known unset)
  | inr (f, found) ↦
      unfold Attempt update_document_chunk in
      rw (found, update_document_chunk, h.new_row, hash_matches_self (hash content))
        (replace-IsSyncedBut i content (some vector) (chunk_of hash i before) s refl h.but)
]
