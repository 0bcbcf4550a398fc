-- ===== src/Ingestion/Workflow/Grown.antt =====
-- Steps only add to the history of a run.
use inherent.Prelude.{ℕ, String, ◌≡◌, refl, sym, ap, ◌∙◌, [], ◌∷◌, ◌++◌, append_assoc}
use inherent.Ingestion.Workflow.Messages.{DocumentIngestionInput}
use inherent.Ingestion.Workflow.Activities.{Result, ok, err, Activity, History, Env, ChunkOutput}
use inherent.Ingestion.Workflow.Steps.{
  Workflow, Step, pure, gets, best_effort, continue, ◌>>=◌, set_step, set_progress, execute,
  elapsed, resolve_dead_letters, publish,
}
use inherent.Ingestion.Workflow.Run.{finish}

-- The second history is the first, with more on top.
abbrev pub Suffix : History → History → Type 0
Suffix h h' = (later : History) × (h' ≡ later ++ h)

pub Suffix-trans : (a b c : History) → Suffix a b → Suffix b c → Suffix a c
Suffix-trans a b c (x, e) (y, f) = (y ++ x, f ∙ ap (λ l. y ++ l) e ∙ sym (append_assoc y x a))

pub record Grows {A : Type 0} (m : Step A) : Type 0 where
  pub at : (w : Workflow) → Suffix w.history (m w).1.history

module _ {A : Type 0} where
  Grows-pure : (a : A) → Grows (pure a)
  unfolding pure
  Grows-pure a = record { at = λ w. ([], refl) }

  Grows-gets : (f : Workflow → A) → Grows (gets f)
  unfolding gets
  Grows-gets f = record { at = λ w. ([], refl) }

  Grows-best_effort : (m : Step A) → Grows m → Grows (best_effort m)
  unfolding best_effort
  Grows-best_effort m g = record { at = g.at }

Grows-set_step : (step : String) → Grows (set_step step)
unfolding set_step
Grows-set_step step = record { at = λ w. ([], refl) }

pub Grows-set_progress : (percent : ℕ) → Grows (set_progress percent)
unfolding set_progress
Grows-set_progress percent = record { at = λ w. ([], refl) }

Grows-execute : (env : Env) (a : Activity) → Grows (execute env a)
unfolding execute
Grows-execute env a = record { at = λ w. (a ∷ [], refl) }

module _ {A B : Type 0} where
  continue-Suffix :
      (r : Result A) (f : A → Step B) (w : Workflow)
      → ((a : A) → Grows (f a))
      → Suffix w.history (continue r f w).1.history
  continue-Suffix (ok a) f w g = (g a).at w
  continue-Suffix (err e) f w g = ([], refl)

  pub Grows-bind :
      (m : Step A) (f : A → Step B) → Grows m → ((a : A) → Grows (f a)) → Grows (m >>= f)
  unfolding ◌>>=◌
  Grows-bind m f g gf = record {
    at = λ w. Suffix-trans _ _ _ (g.at w) (continue-Suffix (m w).0 f (m w).1 gf);
  }

ruleset grows_rules = (
  Grows-pure, Grows-gets, Grows-best_effort, Grows-set_step, Grows-set_progress, Grows-execute,
  Grows-bind,
)

module _ (env : Env) (input : DocumentIngestionInput) where
  elapsed-Grows : Grows (elapsed env)
  unfolding elapsed
  elapsed-Grows = search grows_rules

  resolve-Grows : Grows (resolve_dead_letters env input)
  unfolding resolve_dead_letters
  resolve-Grows = search grows_rules

  publish-Grows :
      (success : _) (chunks : ℕ) (error : _) (ms : ℕ)
      → Grows (publish env input success chunks error ms)
  unfolding publish
  publish-Grows success chunks error ms = search grows_rules

  pub finish-Grows : (c : ChunkOutput) → Grows (finish env input c)
  unfolding finish
  finish-Grows c = search (grows_rules, elapsed-Grows, resolve-Grows, publish-Grows) depth 12
