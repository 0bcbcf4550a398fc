-- ===== src/Ingestion/Workflow/Accounting.antt =====
-- The activities that a run schedules to report to the outside world, on every path: completion
-- events, dead-letter rows and the cleanup of its staging data. What they reply does not count.
use inherent.Prelude.{ℕ, suc, String, ◌≡◌, refl, subst, inl, inr, true, arith, Bool-cases}
use inherent.Ingestion.Workflow.Messages.{DocumentIngestionInput}
use inherent.Ingestion.Workflow.Activities.{
  Exception, Result, ok, err, ChunkOutput, ExtractOutput, StoreResult, StoreInput, Env,
}
use inherent.Ingestion.Workflow.Steps.{
  Workflow, initial, Step, pure, gets, continue, ◌>>=◌, ◌>>◌, execute, elapsed, set_step,
  set_progress, resolve_dead_letters, publish, report_failure,
}
use inherent.Ingestion.Workflow.Quiet.{Tally, tally, Quiet, quiet_rules}
use inherent.Ingestion.Workflow.Run.{
  Outcome, terminal_failure, returned, Close, completed, document_failure, cause_message, claim,
  ensure_tenant, fetch, extract, chunk, tag, run_stores, finish, conclude, store, body,
  on_exception, except, try_body, cleanup, close_as, run,
}

abbrev after_failure : Tally → Tally
after_failure t = record t { failed = suc t.failed; dead_letters = suc t.dead_letters }

abbrev after_success : Tally → Tally
after_success t = record t { processed = suc t.processed; resolutions = suc t.resolutions }

-- What a step that began with the counts `t` has reported, by how it ended.
abbrev Settles : Tally → Result Outcome × Workflow → Type 0
Settles t (err e, w) = tally w.history ≡ t
Settles t (ok (terminal_failure m), w) = tally w.history ≡ after_failure t
Settles t (ok (returned r), w) = (tally w.history ≡ after_success t) × (r.success ≡ true)

record Settling (m : Step Outcome) : Type 0 where
  at : (w : Workflow) → Settles (tally w.history) (m w)

module _ {A : Type 0} where
  continue-Settles :
      (r : Result A) (f : A → Step Outcome) (t : Tally) (w : Workflow)
      → ((a : A) → Settling (f a))
      → tally w.history ≡ t
      → Settles t (continue r f w)
  continue-Settles (ok a) f t w sf e = subst (λ u. Settles u (f a w)) e ((sf a).at w)
  continue-Settles (err x) f t w sf e = e

  Settling-bind :
      (m : Step A) (f : A → Step Outcome)
      → Quiet m
      → ((a : A) → Settling (f a))
      → Settling (m >>= f)
  unfolding ◌>>=◌
  Settling-bind m f q sf = record {
    at = λ w. continue-Settles (m w).0 f (tally w.history) (m w).1 sf (q.at w);
  }

-- The same, when nothing may be raised any more.
abbrev Ends : Tally → Result Outcome × Workflow → Type 0
Ends t (err e, w) = ⊥
Ends t (ok (terminal_failure m), w) = tally w.history ≡ after_failure t
Ends t (ok (returned r), w) = (tally w.history ≡ after_success t) × (r.success ≡ true)

failure-Ends :
    (t : Tally) (p : Result Outcome × Workflow) {m : String}
    → p.0 ≡ ok (terminal_failure m)
    → tally p.1.history ≡ after_failure t
    → Ends t p
failure-Ends t (ok (terminal_failure n), w) e h = h
failure-Ends t (ok (returned r), w) e h = cc
failure-Ends t (err x, w) e h = cc

-- What has been reported when the run is over.
abbrev pub Accounts : Close × Workflow → Type 0
Accounts (completed r, w) =
    (r.success ≡ true)
    × (tally w.history
        ≡ record { processed = 1; failed = 0; dead_letters = 0; resolutions = 1; cleanups = 1 })
Accounts (document_failure m, w) =
    tally w.history
    ≡ record { processed = 0; failed = 1; dead_letters = 1; resolutions = 0; cleanups = 1 }

module _ (env : Env) (input : DocumentIngestionInput) where
  report_failure-tally :
      (e : String) (ms : ℕ) (w : Workflow)
      → ((report_failure env input e ms w).0 ≡ ok tt)
        × (tally (report_failure env input e ms w).1.history ≡ after_failure (tally w.history))
  unfolding report_failure execute
  report_failure-tally e ms w = (refl, refl)

  report_failure-Settling :
      (e : String) (ms : ℕ) → Settling (report_failure env input e ms >> pure (terminal_failure e))
  unfolding report_failure execute pure
  report_failure-Settling e ms = record { at = λ w. refl }

  finish-Settling : (c : ChunkOutput) → Settling (finish env input c)
  unfolding finish set_step set_progress execute elapsed resolve_dead_letters publish pure gets
      ◌>>=◌
  finish-Settling c = record { at = λ w. ground arith }

  conclude-Settling :
      (c : ChunkOutput) (ms : ℕ) (p v : StoreResult) → Settling (conclude env input c ms p v)
  unfolding conclude
  conclude-Settling c ms p v = elim (Bool-cases p.success) [
    | inr e ↦ rw e (report_failure-Settling _ ms)
    | inl e ↦ elim (Bool-cases v.success) [
      | inr g ↦ rw (e, g) (report_failure-Settling _ ms)
      | inl g ↦ rw (e, g) (finish-Settling c)
    ]
  ]

  elapsed-Quiet : Quiet (elapsed env)
  unfolding elapsed
  elapsed-Quiet = search quiet_rules

  claim-Quiet : Quiet (claim env input)
  unfolding claim
  claim-Quiet = record { at = λ w. refl }

  ensure_tenant-Quiet : Quiet (ensure_tenant env input)
  unfolding ensure_tenant
  ensure_tenant-Quiet = record { at = λ w. ground arith }

  fetch-Quiet : Quiet (fetch env input)
  unfolding fetch
  fetch-Quiet = record { at = λ w. ground arith }

  extract-Quiet : Quiet (extract env input)
  unfolding extract
  extract-Quiet = record { at = λ w. ground arith }

  chunk-Quiet : Quiet (chunk env input)
  unfolding chunk
  chunk-Quiet = record { at = λ w. ground arith }

  tag-Quiet : Quiet (tag env input)
  unfolding tag
  tag-Quiet = record { at = λ w. ground arith }

  run_stores-Quiet : (s : StoreInput) → Quiet (run_stores env input s)
  unfolding run_stores
  run_stores-Quiet s = record { at = λ w. refl }

  ruleset stage_rules = (
    quiet_rules, Settling-bind, conclude-Settling, elapsed-Quiet, claim-Quiet, ensure_tenant-Quiet,
    fetch-Quiet, extract-Quiet, chunk-Quiet, tag-Quiet, run_stores-Quiet,
  )

  store-Settling : (x : ExtractOutput) (c : ChunkOutput) → Settling (store env input x c)
  unfolding store
  store-Settling x c = search stage_rules depth 8

  body-Settling : Settling (body env input)
  unfolding body
  body-Settling = search (stage_rules, store-Settling) depth 8

  on_exception-tally :
      (e : Exception) (w : Workflow)
      → ((on_exception env input e w).0 ≡ ok (terminal_failure (cause_message e)))
        × (tally (on_exception env input e w).1.history ≡ after_failure (tally w.history))
  unfolding on_exception execute
  on_exception-tally e w = (refl, refl)

  except-Ends :
      (r : Result Outcome) (t : Tally) (w : Workflow)
      → Settles t (r, w)
      → Ends t (except env input r w)
  unfolding except
  except-Ends (ok (terminal_failure m)) t w h = h
  except-Ends (ok (returned r)) t w h = h
  except-Ends (err e) t w h =
      let (raised, counts) = on_exception-tally e w in
      subst (λ u. Ends u (on_exception env input e w)) h
        (failure-Ends (tally w.history) (on_exception env input e w) raised counts)

  try_body-Ends : (w : Workflow) → Ends (tally w.history) (try_body env input w)
  unfolding try_body
  try_body-Ends w =
      except-Ends (body env input w).0 (tally w.history) (body env input w).1 (body-Settling.at w)

  close_as-Accounts :
      (r : Result Outcome) (w : Workflow)
      → Ends (tally initial.history) (r, w)
      → Accounts (close_as r, (cleanup env input w).1)
  unfolding close_as cleanup
  close_as-Accounts (ok (terminal_failure m)) w h = rw h
  close_as-Accounts (ok (returned r)) w h = (h.1, rw h.0)
  close_as-Accounts (err e) w h = absurd h

  -- Whatever the activities reply, a run schedules its report exactly once, and the way that Temporal
  -- sees it close is the way that it set out to report: a completed run has scheduled the publication
  -- of one event that says success and one resolution of the document's dead letters, and its result
  -- says success; a failed run has scheduled the publication of one event that says failure and the
  -- record of one dead letter. Either way it has scheduled one cleanup of the staging data, and no
  -- report of the other kind. Whether a scheduled report gets through is up to its activity.
  pub run-Accounts : Accounts (run env input)
  unfolding run
  run-Accounts =
      close_as-Accounts (try_body env input initial).0 (try_body env input initial).1
        (try_body-Ends initial)
