-- ===== src/Ingestion/Queue/Run.antt =====
-- Runs of the consumer: any replies, to whom they come, in any order.
use inherent.Prelude.{ℕ, String, Bool, true, false, List, [], ◌∷◌}
use inherent.Ingestion.Queue.Tasks.{Reply, Task, Shared, step_at}
use inherent.Ingestion.Queue.Loop.{Service, recovering, loop_step}

-- Which of the awaiting parties gets a reply next; `stop` is the first line of `disconnect`.
pub data Move : Type 0 where
  loop : Reply → Move
  batch_task : ℕ → Reply → Move
  stray_task : ℕ → Reply → Move
  stop : Move

-- A subscriber that has just been started, with the limit that the settings give.
abbrev pub started : ℕ → Service
started limit = record {
  running = true;
  phase = recovering;
  batch = [];
  strays = [];
  shared = record { permits = limit; log = [] };
}

-- The batch, the strays and what all share, after a step of a task.
unfoldable pub with_batch : Service → List Task × Shared → Service
with_batch v r = record v { batch = r.0; shared = r.1 }

unfoldable pub with_strays : Service → List Task × Shared → Service
with_strays v r = record v { strays = r.0; shared = r.1 }

module _ (parses : String → Bool) where
  unfoldable pub step : Move → Service → Service
  unfolding with_batch with_strays
  step (loop reply) v = loop_step parses v.phase reply v
  step (batch_task i reply) v = with_batch v (step_at parses i reply v.batch v.shared)
  step (stray_task i reply) v = with_strays v (step_at parses i reply v.strays v.shared)
  step stop v = record v { running = false }

  unfoldable pub run_moves : List Move → Service → Service
  unfolding step
  run_moves [] v = v
  run_moves (m ∷ moves) v = run_moves moves (step m v)
