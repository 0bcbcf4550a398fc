-- ===== src/PublicApi/Documents/Calls.antt =====
-- What holds after a call, after what follows it, and after a retried mark.
use inherent.Prelude.{
  ℕ, zero, suc, ◌+◌, ◌-◌, ◌*◌, ◌^◌, String, ◌≡◌, refl, Bool, true, false, ◌∷◌, ◌⊎◌, inl, inr, arith,
}
use inherent.PublicApi.Chunks.Stores.{Failure}
use inherent.PublicApi.Chunks.Compensation.{Fate, done, refused, unknown, mark_failed_backoff}
use inherent.PublicApi.Documents.Rows.{mark_document_failed}
use inherent.PublicApi.Documents.Site.{
  Site, Raised, raised, Action, throw, fated, call, branch, ◌>>=◌, write, after_mark, marks_from,
  mark_document_failed_with_retry,
}

-- `Q` of a result and the site it leaves, `R` of what is raised.
unfoldable pub After :
    {A : Type 0} → (A → Site → Type 0) → (Raised → Site → Type 0) → (Raised ⊎ A) × Site → Type 0
After Q R (inr a, w) = Q a w
After Q R (inl e, w) = R e w

module _ {A : Type 0} (Q : A → Site → Type 0) (R : Raised → Site → Type 0) where
  fated-After :
      (fate : Fate) (f : Site → A × Site) (w : Site)
      → Q (f w).0 (f w).1
      → ((e : Failure) → R (raised e) w)
      → ((e : Failure) → R (raised e) (f w).1)
      → After Q R (fated fate f w)
  unfolding After fated
  fated-After done f w q r u = q
  fated-After (refused e) f w q r u = r e
  fated-After (unknown e) f w q r u = u e

  pub call-After :
      (fates : ℕ → Fate) (f : Site → A × Site) (w : Site)
      → (let w1 = record w { calls = w.calls + 1 } in
          Q (f w1).0 (f w1).1
          → ((e : Failure) → R (raised e) w1)
          → ((e : Failure) → R (raised e) (f w1).1)
          → After Q R (call fates f w))
  unfolding call
  call-After fates f w q r u = fated-After (fates w.calls) f _ q r u

  module _ {B : Type 0} (P : (Raised ⊎ B) × Site → Type 0) where
    pub branch-After :
        (handler : Raised → Action B) (f : A → Action B) (x : (Raised ⊎ A) × Site)
        → After Q R x
        → ((e : Raised) (w : Site) → R e w → P (handler e w))
        → ((a : A) (w : Site) → Q a w → P (f a w))
        → P (branch handler f x)
    unfolding After branch
    branch-After handler f (inl e, w) h r q = r e w h
    branch-After handler f (inr a, w) h r q = q a w h

    pub bind-After :
        (m : Action A) (f : A → Action B) (w : Site)
        → After Q R (m w)
        → ((e : Raised) (w : Site) → R e w → P (inl e, w))
        → ((a : A) (w : Site) → Q a w → P (f a w))
        → P ((m >>= f) w)
    unfolding ◌>>=◌ throw
    bind-After m f w h r q = branch-After throw f (m w) h r q

-- How a retried mark ends that keeps `P` while it fails.
pub data Marked (operation : String) (P Q : Site → Type 0) : (Raised ⊎ Bool) × Site → Type 0 where
  marked : (w : Site) → Q w → Marked operation P Q (inr true, w)
  orphaned :
      (w : Site)
      → P w
      → Marked operation P Q (inr false, record w { exhausted = operation ∷ w.exhausted })

module _ (operation : String) (P Q : Site → Type 0)
    (sleep_keeps : (ms : ℕ) (w : Site) → P w → P (record w { slept = w.slept + ms })) where
  after_mark-Marked :
      (ms left : ℕ) (rest : Action Bool) (x : (Raised ⊎ Unit {0}) × Site)
      → After (λ u. Q) (λ e. P) x
      → ((n : ℕ) → left ≡ suc n → (w : Site) → P w → Marked operation P Q (rest w))
      → Marked operation P Q (after_mark operation ms left rest x)
  unfolding After after_mark
  after_mark-Marked ms left rest (inr u, w) h go = marked w h
  after_mark-Marked ms zero rest (inl e, w) h go = orphaned w h
  after_mark-Marked ms (suc n) rest (inl e, w) h go = go n refl _ (sleep_keeps ms w h)

  module _ (mark : Action (Unit {0}))
      (attempt_keeps : (w : Site) → P w → After (λ u. Q) (λ e. P) (mark w)) where
    marks_from-Marked :
        (attempt left : ℕ) (w : Site)
        → P w
        → Marked operation P Q (marks_from operation mark attempt (suc left) w)
    unfolding marks_from
    marks_from-Marked attempt zero w h =
        after_mark-Marked (mark_failed_backoff * 2 ^ (attempt - 1)) zero
          (marks_from operation mark (attempt + 1) zero) (mark w) (attempt_keeps w h)
          (λ n e. absurd (ground arith))
    marks_from-Marked attempt (suc left) w h =
        after_mark-Marked (mark_failed_backoff * 2 ^ (attempt - 1)) (suc left)
          (marks_from operation mark (attempt + 1) (suc left)) (mark w) (attempt_keeps w h)
          (λ n e. marks_from-Marked (attempt + 1) left)

  -- The marks of a document, on properties that only a mark changes.
  pub mark_document_failed_with_retry-Marked :
      (database : ℕ → Fate) (id workspace message : String) (w : Site)
      → ((w : Site)
          → P w
          → (let w1 = record w {
            tables = mark_document_failed id workspace message w.tables;
            calls = w.calls + 1;
          } in
              Q w1 × P w1 × P (record w { calls = w.calls + 1 })))
      → P w
      → Marked operation P Q
          (mark_document_failed_with_retry database id workspace message operation w)
  unfolding mark_document_failed_with_retry
  mark_document_failed_with_retry-Marked database id workspace message w keeps h =
      marks_from-Marked (call database (write (mark_document_failed id workspace message)))
        (λ w h.
          call-After (λ u. Q) (λ e. P) database (write (mark_document_failed id workspace message))
            w (keeps w h).0 (λ e. (keeps w h).2) (λ e. (keeps w h).1))
        1 2 w h
