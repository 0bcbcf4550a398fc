-- ===== src/Ingestion/Store/Superseded.antt =====
-- Superseded runs: after the claim of a run, the writes of the runs that started before it have no
-- effect.
use inherent.Prelude.{
  ℕ, ◌<◌, String, ◌≡◌, refl, sym, ap, ◌∙◌, inl, inr, Bool, true, false, Option, none, some, List,
  [], ◌∷◌, All, arith, ltb→lt, if_cases, if-of_false, Bool-cases, Option-cases,
}
use inherent.Ingestion.Store.Rows.{DocumentRow, ChunkRow, Document, absent_document}
use inherent.Ingestion.Store.Writes.{
  PendingInput, StatusInput, StoreWrite, Write, claim, set_status, store, pending_row, may_write,
  may_set_status, create_pending_document, update_document_status, inserted_row, updated_row,
  grown_row, write_document, store_processed_document, apply, apply_all,
}
use inherent.Ingestion.Store.Fence.{
  run_of, IsStamped, started_before, current, IsOwned, IsClaimed, OwnedRow, HeldRow,
  claim_row-IsOwned, claim_row-IsClaimed, claim_row-claims, claim_row-superseded,
  may_write-superseded, may_write-owner, grown-claim, grown-owner,
}

module _ (start : String → ℕ) (hash : String → String) where
  grown-IsOwned :
      (i : StoreWrite) (b : Bool) (n : ℕ) (r : DocumentRow)
      → IsOwned start r
      → IsOwned start (grown_row i b n r)
  grown-IsOwned i b n r o c p =
      let (u, a, s) = o c (sym (grown-claim start i b n r) ∙ p) in
      (u, grown-owner start i b n r ∙ a, s)

  written-IsOwned :
      (i : StoreWrite) (r : DocumentRow)
      → IsOwned start r
      → may_write r.active_run_id i.workflow_run_id ≡ true
      → IsOwned start (updated_row i r)
  unfolding updated_row
  written-IsOwned i r o h c p =
      let (u, a, s) = o c p in
      (
        i.workflow_run_id,
        refl,
        s ∙ sym (ap start (may_write-owner start r.active_run_id i.workflow_run_id u a h)),
      )

  claim-Owned :
      (i : PendingInput) (row : Option DocumentRow) (rows : List ChunkRow)
      → i.workflow_start_time ≡ start i.workflow_run_id
      → OwnedRow start row
      → OwnedRow start (create_pending_document i (record { row = row; chunks = rows })).1.row
  unfolding create_pending_document pending_row
  claim-Owned i none rows e o =
      claim_row-IsOwned start i (pending_row i) e
        (λ c p. (i.workflow_run_id, refl, ground (arith, p)))
  claim-Owned i (some r) rows e o = claim_row-IsOwned start i r e o

  status-Owned :
      (i : StatusInput) (row : Option DocumentRow) (rows : List ChunkRow)
      → OwnedRow start row
      → OwnedRow start (update_document_status i (record { row = row; chunks = rows })).1.row
  unfolding update_document_status
  status-Owned i none rows o = tt
  status-Owned i (some r) rows o =
      if_cases {A = Bool × Document} (λ p. OwnedRow start p.1.row)
        (may_set_status i.workflow_run_id r.active_run_id) _ _ (λ h. o) (λ h. o)

  store-Owned :
      (i : StoreWrite) (row : Option DocumentRow) (rows : List ChunkRow)
      → OwnedRow start row
      → OwnedRow start (store_processed_document hash i (record { row = row; chunks = rows })).1.row
  unfolding store_processed_document write_document inserted_row
  store-Owned i none rows o = grown-IsOwned i true _ (inserted_row i) (λ c p. absurd (ground arith))
  store-Owned i (some r) rows o =
      if_cases {A = Option Bool × Document} (λ p. OwnedRow start p.1.row)
        (may_write r.active_run_id i.workflow_run_id) _ _
        (λ h. grown-IsOwned i false _ (updated_row i r) (written-IsOwned i r o h)) (λ h. o)

  claim-Held :
      (t : ℕ) (i : PendingInput) (row : Option DocumentRow) (rows : List ChunkRow)
      → HeldRow start t row
      → HeldRow start t (create_pending_document i (record { row = row; chunks = rows })).1.row
  unfolding create_pending_document
  claim-Held t i none rows h = absurd h
  claim-Held t i (some r) rows h = claim_row-IsClaimed start t i r h

  status-Held :
      (t : ℕ) (i : StatusInput) (row : Option DocumentRow) (rows : List ChunkRow)
      → HeldRow start t row
      → HeldRow start t (update_document_status i (record { row = row; chunks = rows })).1.row
  unfolding update_document_status
  status-Held t i none rows h = absurd h
  status-Held t i (some r) rows h =
      if_cases {A = Bool × Document} (λ p. HeldRow start t p.1.row)
        (may_set_status i.workflow_run_id r.active_run_id) _ _ (λ e. h) (λ e. h)

  grown-IsClaimed :
      (t : ℕ) (i : StoreWrite) (b : Bool) (n : ℕ) (r : DocumentRow)
      → IsClaimed start t r
      → IsClaimed start t (grown_row i b n r)
  grown-IsClaimed t i b n r (c, e, l) = (c, grown-claim start i b n r ∙ e, l)

  written-IsClaimed :
      (t : ℕ) (i : StoreWrite) (r : DocumentRow)
      → IsClaimed start t r
      → IsClaimed start t (updated_row i r)
  unfolding updated_row
  written-IsClaimed t i r h = h

  store-Held :
      (t : ℕ) (i : StoreWrite) (row : Option DocumentRow) (rows : List ChunkRow)
      → HeldRow start t row
      → HeldRow start t
          (store_processed_document hash i (record { row = row; chunks = rows })).1.row
  unfolding store_processed_document write_document
  store-Held t i none rows h = absurd h
  store-Held t i (some r) rows h =
      if_cases {A = Option Bool × Document} (λ p. HeldRow start t p.1.row)
        (may_write r.active_run_id i.workflow_run_id) _ _
        (λ e. grown-IsClaimed t i false _ (updated_row i r) (written-IsClaimed t i r h)) (λ e. h)

  apply-Owned :
      (w : Write) (d : Document)
      → IsStamped start w
      → OwnedRow start d.row
      → OwnedRow start (apply hash w d).row
  unfolding apply
  apply-Owned (claim i) d e o = claim-Owned i d.row d.chunks e o
  apply-Owned (set_status i) d e o = status-Owned i d.row d.chunks o
  apply-Owned (store i) d e o = store-Owned i d.row d.chunks o

  apply-Held :
      (t : ℕ) (w : Write) (d : Document)
      → HeldRow start t d.row
      → HeldRow start t (apply hash w d).row
  unfolding apply
  apply-Held t (claim i) d h = claim-Held t i d.row d.chunks h
  apply-Held t (set_status i) d h = status-Held t i d.row d.chunks h
  apply-Held t (store i) d h = store-Held t i d.row d.chunks h

  claim-superseded :
      (t : ℕ) (i : PendingInput) (row : Option DocumentRow) (rows : List ChunkRow)
      → HeldRow start t row
      → i.workflow_start_time < t
      → (create_pending_document i (record { row = row; chunks = rows })).1
        ≡ record { row = row; chunks = rows }
  unfolding create_pending_document
  claim-superseded t i none rows h l = absurd h
  claim-superseded t i (some r) rows h l =
      ap (λ x. record { row = some x; chunks = rows }) (claim_row-superseded start t i r h l)

  status-superseded :
      (t : ℕ) (i : StatusInput) (run : String) (row : Option DocumentRow) (rows : List ChunkRow)
      → i.workflow_run_id ≡ some run
      → OwnedRow start row
      → HeldRow start t row
      → start run < t
      → (update_document_status i (record { row = row; chunks = rows })).1
        ≡ record { row = row; chunks = rows }
  unfolding update_document_status may_set_status
  status-superseded t i run none rows e o h l = absurd h
  status-superseded t i run (some r) rows e o h l =
      let fenced = may_write-superseded start t r run o h l in ground (arith, fenced)

  store-superseded :
      (t : ℕ) (i : StoreWrite) (row : Option DocumentRow) (rows : List ChunkRow)
      → OwnedRow start row
      → HeldRow start t row
      → start i.workflow_run_id < t
      → (store_processed_document hash i (record { row = row; chunks = rows })).1
        ≡ record { row = row; chunks = rows }
  unfolding store_processed_document
  store-superseded t i none rows o h l = absurd h
  store-superseded t i (some r) rows o h l =
      ap (λ (p : Option Bool × Document). p.1)
        (if-of_false (may_write r.active_run_id i.workflow_run_id) _ _
          (may_write-superseded start t r i.workflow_run_id o h l))

  apply-superseded :
      (t : ℕ) (w : Write) (d : Document)
      → IsStamped start w
      → started_before start t (run_of w) ≡ true
      → OwnedRow start d.row
      → HeldRow start t d.row
      → apply hash w d ≡ d
  unfolding apply started_before
  apply-superseded t (claim i) d e b o h =
      claim-superseded t i d.row d.chunks h (omega (arith, e, ltb→lt (start i.workflow_run_id) t b))
  apply-superseded t (set_status i) d e b o h = elim (Option-cases i.workflow_run_id) [
    | inl unfenced ↦ absurd (ground (arith, unfenced))
    | inr (run, p) ↦
        status-superseded t i run d.row d.chunks p o h (ltb→lt (start run) t (ground (arith, p)))
  ]
  apply-superseded t (store i) d e b o h =
      store-superseded t i d.row d.chunks o h (ltb→lt (start i.workflow_run_id) t b)

  apply_all-current :
      (t : ℕ) (writes : List Write) (d : Document)
      → All (IsStamped start) writes
      → OwnedRow start d.row
      → HeldRow start t d.row
      → apply_all hash writes d ≡ apply_all hash (current start t writes) d
  unfolding apply_all current
  apply_all-current t [] d e o h = refl
  apply_all-current t (w ∷ writes) d (e, es) o h =
      elim (Bool-cases (started_before start t (run_of w))) [
        | inl before ↦ rw before (
            ap (apply_all hash writes) (apply-superseded t w d e before o h)
            ∙ apply_all-current t writes d es o h)
        | inr not_before ↦ rw not_before (
            apply_all-current t writes (apply hash w d) es (apply-Owned w d e o)
              (apply-Held t w d h))
      ]

  apply_all-Owned :
      (writes : List Write) (d : Document)
      → All (IsStamped start) writes
      → OwnedRow start d.row
      → OwnedRow start (apply_all hash writes d).row
  unfolding apply_all
  apply_all-Owned [] d e o = o
  apply_all-Owned (w ∷ writes) d (e, es) o =
      apply_all-Owned writes (apply hash w d) es (apply-Owned w d e o)

  claim-holds :
      (i : PendingInput) (row : Option DocumentRow) (rows : List ChunkRow)
      → HeldRow start i.workflow_start_time
          (create_pending_document i (record { row = row; chunks = rows })).1.row
  unfolding create_pending_document
  claim-holds i none rows = claim_row-claims start i (pending_row i)
  claim-holds i (some r) rows = claim_row-claims start i r

  -- Whatever has been written to a document before, and in whatever order the writes of its runs
  -- commit: once a run has claimed it, the writes of the runs that started before that run have no
  -- effect. The document is the one that the other writes alone leave. Every claim carries the start
  -- time of its run.
  pub claim-fences :
      (i : PendingInput) (before after : List Write)
      → i.workflow_start_time ≡ start i.workflow_run_id
      → All (IsStamped start) before
      → All (IsStamped start) after
      → let d = apply hash (claim i) (apply_all hash before absent_document) in
        apply_all hash after d ≡ apply_all hash (current start i.workflow_start_time after) d
  unfolding apply
  claim-fences i before after e p q =
      let d = apply_all hash before absent_document in
      apply_all-current i.workflow_start_time after (apply hash (claim i) d) q
        (apply-Owned (claim i) d e (apply_all-Owned before absent_document p tt))
        (claim-holds i d.row d.chunks)
