-- ===== src/Ingestion/Store/Fence.antt =====
-- The fence on a row: who owns it, what a claim does to it, and which writes it lets through.
use inherent.Prelude.{
  ℕ, ◌≤◌, ◌<◌, String, ◌≡◌, refl, ap, inl, inr, Bool, true, false, Option, none, some, List, [],
  ◌∷◌, arith, ltb, str_eq, eq_iff, if_cases, if-of_false, Bool-cases, if◌then◌else◌,
}
use inherent.Ingestion.Store.Rows.{DocumentRow}
use inherent.Ingestion.Store.Writes.{
  PendingInput, StoreWrite, Write, claim, set_status, store, may_claim, may_write, claim_row,
  grown_row,
}

-- The run that a write names.
abbrev pub run_of : Write → Option String
run_of (claim i) = some i.workflow_run_id
run_of (set_status i) = i.workflow_run_id
run_of (store i) = some i.workflow_run_id

module _ (start : String → ℕ) where
  -- A claim carries the start time of its run.
  abbrev pub IsStamped : Write → Type 0
  IsStamped (claim i) = i.workflow_start_time ≡ start i.workflow_run_id
  IsStamped (set_status i) = Unit
  IsStamped (store i) = Unit

  unfoldable pub started_before : ℕ → Option String → Bool
  started_before t none = false
  started_before t (some run) = ltb (start run) t

  -- The writes but for those of runs that started before a time.
  unfoldable pub current : ℕ → List Write → List Write
  unfolding started_before
  current t [] = []
  current t (w ∷ writes) =
      let rest = current t writes in if started_before t (run_of w) then rest else w ∷ rest

  -- A claim that is recorded is that of the active run, at its start time.
  abbrev pub IsOwned : DocumentRow → Type 0
  IsOwned r =
      (c : ℕ)
      → r.active_run_claimed_at ≡ some c
      → (u : String) × (r.active_run_id ≡ some u) × (c ≡ start u)

  -- The claim that is recorded is of a run that started at a time or later.
  abbrev pub IsClaimed : ℕ → DocumentRow → Type 0
  IsClaimed t r = (c : ℕ) × (r.active_run_claimed_at ≡ some c) × (t ≤ c)

  pub claim_row-IsOwned :
      (i : PendingInput) (r : DocumentRow)
      → i.workflow_start_time ≡ start i.workflow_run_id
      → IsOwned r
      → IsOwned (claim_row i r)
  unfolding claim_row
  claim_row-IsOwned i r e o =
      if_cases IsOwned (may_claim r.active_run_claimed_at i.workflow_start_time) _ r
        (λ h c p. (i.workflow_run_id, refl, ground (arith, p))) (λ h. o)

  may_claim-le :
      (claimed : Option ℕ) (s c : ℕ) → claimed ≡ some c → may_claim claimed s ≡ true → c ≤ s
  unfolding may_claim
  may_claim-le none s c e h = absurd (ground arith)
  may_claim-le (some d) s c e h = ground arith

  may_claim-gt :
      (claimed : Option ℕ) (s : ℕ)
      → may_claim claimed s ≡ false
      → (c : ℕ) × (claimed ≡ some c) × (s ≤ c)
  unfolding may_claim
  may_claim-gt none s h = absurd (ground arith)
  may_claim-gt (some d) s h = (d, refl, ground arith)

  may_claim-before :
      (claimed : Option ℕ) (s c : ℕ) → claimed ≡ some c → s < c → may_claim claimed s ≡ false
  unfolding may_claim
  may_claim-before none s c e h = absurd (ground arith)
  may_claim-before (some d) s c e h = ground arith

  pub claim_row-IsClaimed :
      (t : ℕ) (i : PendingInput) (r : DocumentRow) → IsClaimed t r → IsClaimed t (claim_row i r)
  unfolding claim_row
  claim_row-IsClaimed t i r (c, e, l) =
      if_cases (IsClaimed t) (may_claim r.active_run_claimed_at i.workflow_start_time) _ r
        (λ h. (
          i.workflow_start_time,
          refl,
          omega (arith, may_claim-le r.active_run_claimed_at i.workflow_start_time c e h),
        ))
        (λ h. (c, e, l))

  -- After its claim, a run or one that started later holds the row.
  pub claim_row-claims :
      (i : PendingInput) (r : DocumentRow) → IsClaimed i.workflow_start_time (claim_row i r)
  unfolding claim_row
  claim_row-claims i r =
      if_cases (IsClaimed i.workflow_start_time)
        (may_claim r.active_run_claimed_at i.workflow_start_time) _ r
        (λ h. (i.workflow_start_time, refl, omega arith))
        (λ h. may_claim-gt r.active_run_claimed_at i.workflow_start_time h)

  pub claim_row-superseded :
      (t : ℕ) (i : PendingInput) (r : DocumentRow)
      → IsClaimed t r
      → i.workflow_start_time < t
      → claim_row i r ≡ r
  unfolding claim_row
  claim_row-superseded t i r (c, e, l) h =
      if-of_false _ _ r
        (may_claim-before r.active_run_claimed_at i.workflow_start_time c e (omega arith))

  pub may_write-superseded :
      (t : ℕ) (r : DocumentRow) (run : String)
      → IsOwned r
      → IsClaimed t r
      → start run < t
      → may_write r.active_run_id run ≡ false
  unfolding may_write
  may_write-superseded t r run o (c, e, l) h =
      let (u, a, s) = o c e in
      rw a (elim (Bool-cases (str_eq u run)) [
        | inl same ↦ absurd (omega (arith, s, ap start ((eq_iff u run).0 same)))
        | inr other ↦ other
      ])

  -- A write that is let through leaves the owner as it is.
  pub may_write-owner :
      (active : Option String) (run u : String)
      → active ≡ some u
      → may_write active run ≡ true
      → run ≡ u
  unfolding may_write
  may_write-owner none run u e h = absurd (ground arith)
  may_write-owner (some a) run u e h = ground (arith, eq_iff a run)

  pub grown-claim :
      (i : StoreWrite) (b : Bool) (n : ℕ) (r : DocumentRow)
      → (grown_row i b n r).active_run_claimed_at ≡ r.active_run_claimed_at
  unfolding grown_row
  grown-claim i b n r = ground arith

  pub grown-owner :
      (i : StoreWrite) (b : Bool) (n : ℕ) (r : DocumentRow)
      → (grown_row i b n r).active_run_id ≡ r.active_run_id
  unfolding grown_row
  grown-owner i b n r = ground arith

  -- The same of a row that may not be there.
  abbrev pub OwnedRow : Option DocumentRow → Type 0
  OwnedRow none = Unit
  OwnedRow (some r) = IsOwned r

  abbrev pub HeldRow : ℕ → Option DocumentRow → Type 0
  HeldRow t none = ⊥
  HeldRow t (some r) = IsClaimed t r
