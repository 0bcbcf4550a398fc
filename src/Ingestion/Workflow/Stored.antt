-- ===== src/Ingestion/Workflow/Stored.antt =====
-- What a run that closes as completed has scheduled and been answered by the stores.
use inherent.Prelude.{subst, sym, ◌∙◌, [], ℕ, ◌≡◌, ◌≢◌, refl, true, arith, ◌∷◌, Bool}
use inherent.Ingestion.Workflow.Messages.{DocumentIngestionInput, WorkflowResult}
use inherent.Ingestion.Workflow.Activities.{
  Exception, Result, ok, err, ChunkOutput, ExtractOutput, StoreResult, StoreInput, Env, History,
  store_in_postgresql, store_in_weaviate, cleanup_staging,
}
use inherent.Ingestion.Workflow.Steps.{
  Workflow, initial, Step, pure, continue, ◌>>=◌, ◌>>◌, set_progress, elapsed, execute,
  report_failure, best_effort,
}
use inherent.Ingestion.Workflow.Grown.{Suffix, Suffix-trans, finish-Grows}
use inherent.Ingestion.Workflow.Run.{
  Outcome, terminal_failure, returned, completed, gather, run_stores, conclude, store, body,
  on_exception, except, try_body, close_as, run, cleanup,
}

module _ {A B : Type 0} where
  continue-eq-ok :
      (r : Result A) (f : A → Step B) (w : Workflow) {b : B}
      → (continue r f w).0 ≡ ok b
      → (a : A) × (r ≡ ok a) × ((f a w).0 ≡ ok b) × ((f a w).1 ≡ (continue r f w).1)
  continue-eq-ok (ok a) f w h = (a, refl, h, refl)
  continue-eq-ok (err e) f w h = cc

  -- The parts of a step that returned.
  >>=-eq-ok :
      (m : Step A) (f : A → Step B) (w : Workflow) {b : B}
      → ((m >>= f) w).0 ≡ ok b
      → (a : A) × ((m w).0 ≡ ok a) × ((f a (m w).1).0 ≡ ok b) × ((f a (m w).1).1 ≡ ((m >>= f) w).1)
  unfolding ◌>>=◌
  >>=-eq-ok m f w h = continue-eq-ok (m w).0 f (m w).1 h

  gather-eq-ok :
      (first : Bool) (p : Result A) (q : Result B) {a : A} {b : B}
      → gather first p q ≡ ok (a, b)
      → (p ≡ ok a) × (q ≡ ok b)
  unfolding gather
  gather-eq-ok first p q h = ground arith

module _ (env : Env) (input : DocumentIngestionInput) where
  -- Both store activities stand in the history, scheduled for this document, and have replied with
  -- success.
  pub record IsStored (history : History) : Type 0 where
    pub before : History
    pub request : StoreInput
    pub same_input : request.input ≡ input
    pub scheduled :
        Suffix (store_in_weaviate request ∷ store_in_postgresql request ∷ before) history
    pub postgres : StoreResult
    pub weaviate : StoreResult
    pub postgres_reply : env.reply before (store_in_postgresql request) ≡ ok postgres
    pub weaviate_reply :
        env.reply (store_in_postgresql request ∷ before) (store_in_weaviate request) ≡ ok weaviate
    pub postgres_success : postgres.success ≡ true
    pub weaviate_success : weaviate.success ≡ true

  conclude-returned :
      (c : ChunkOutput) (ms : ℕ) (p v : StoreResult) (w : Workflow) {r : WorkflowResult}
      → (conclude env input c ms p v w).0 ≡ ok (returned r)
      → (p.success ≡ true) × (v.success ≡ true)
  unfolding conclude pure ◌>>=◌
  conclude-returned c ms p v w h = ground arith

  conclude-Suffix :
      (c : ChunkOutput) (ms : ℕ) (p v : StoreResult) (w : Workflow)
      → p.success ≡ true
      → v.success ≡ true
      → Suffix w.history (conclude env input c ms p v w).1.history
  unfolding conclude
  conclude-Suffix c ms p v w e g = rw (e, conclude, g) ((finish-Grows env input c).at w)

  -- A step that returns a result only when the document is stored.
  record Yields (m : Step Outcome) : Type 0 where
    at : (w : Workflow) {r : WorkflowResult} → (m w).0 ≡ ok (returned r) → IsStored (m w).1.history

  Yields-bind :
      {A : Type 0} (m : Step A) (f : A → Step Outcome) → ((a : A) → Yields (f a)) → Yields (m >>= f)
  Yields-bind m f y = record {
    at = λ w h.
        let (a, _, rest, same) = >>=-eq-ok m f w h in
        subst (λ v. IsStored v.history) same ((y a).at (m w).1 rest);
  }

  stores-Yields :
      (s : StoreInput) (c : ChunkOutput) (ms : ℕ)
      → s.input ≡ input
      → Yields (
          run_stores env input s >>= λ results.
          set_progress 90 >> conclude env input c ms results.0 results.1)
  unfolding run_stores set_progress
  stores-Yields s c ms same = record {
    at = λ w h.
        let (results, replies, rest, joined) = >>=-eq-ok _ _ w h in
        let (postgres_reply, weaviate_reply) = gather-eq-ok _ _ _ replies in
        let (_, _, concluded, end) = >>=-eq-ok _ _ _ rest in
        let (postgres_success, weaviate_success) =
          conclude-returned c ms results.0 results.1 _ concluded in
        record {
          before = w.history;
          request = s;
          scheduled =
              subst (λ v. Suffix (run_stores env input s w).1.history v.history) (end ∙ joined)
                (conclude-Suffix c ms results.0 results.1 _ postgres_success weaviate_success);
          same_input = same;
          postgres = results.0;
          weaviate = results.1;
          postgres_reply = postgres_reply;
          weaviate_reply = weaviate_reply;
          postgres_success = postgres_success;
          weaviate_success = weaviate_success;
        };
  }

  store-Yields : (x : ExtractOutput) (c : ChunkOutput) → Yields (store env input x c)
  unfolding store
  store-Yields x c =
      Yields-bind _ _ λ ms. Yields-bind _ _ λ _. Yields-bind _ _ λ tenant. stores-Yields _ c ms refl

  body-Yields : Yields (body env input)
  unfolding body
  body-Yields = search (Yields-bind, store-Yields) depth 8

  on_exception-fails :
      (e : Exception) (w : Workflow) {r : WorkflowResult}
      → (on_exception env input e w).0 ≢ ok (returned r)
  unfolding on_exception pure ◌>>=◌ report_failure elapsed execute
  on_exception-fails e w h = cc

  except-returned :
      (o : Result Outcome) (w : Workflow) {r : WorkflowResult}
      → (except env input o w).0 ≡ ok (returned r)
      → (o ≡ ok (returned r)) × ((except env input o w).1 ≡ w)
  unfolding except
  except-returned (ok o) w h = (h, refl)
  except-returned (err e) w h = absurd (on_exception-fails e w h)

  close_as-completed :
      (o : Result Outcome) {r : WorkflowResult} → close_as o ≡ completed r → o ≡ ok (returned r)
  unfolding close_as
  close_as-completed (ok (terminal_failure m)) h = cc
  close_as-completed (ok (returned r)) h = cc
  close_as-completed (err e) h = cc

  IsStored-later : (h h' : History) → Suffix h h' → IsStored h → IsStored h'
  IsStored-later h h' later s = record {
    before = s.before;
    request = s.request;
    same_input = s.same_input;
    scheduled = Suffix-trans _ _ _ s.scheduled later;
    postgres = s.postgres;
    weaviate = s.weaviate;
    postgres_reply = s.postgres_reply;
    weaviate_reply = s.weaviate_reply;
    postgres_success = s.postgres_success;
    weaviate_success = s.weaviate_success;
  }

  -- A run that closes as completed has both store activities in its history, one right after the
  -- other and for its document, and both have replied with success, each in the history that it was
  -- scheduled in: no document is reported as ready that is in one store only.
  pub run-IsStored :
      {r : WorkflowResult} → (run env input).0 ≡ completed r → IsStored (run env input).1.history
  unfolding run try_body cleanup best_effort execute
  run-IsStored h =
      let (finished, same) = except-returned _ _ (close_as-completed _ h) in
      IsStored-later _ _ (cleanup_staging env.run_id ∷ [], refl)
        (subst (λ v. IsStored v.history) (sym same) (body-Yields.at initial finished))
