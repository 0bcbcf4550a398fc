-- ===== src/Ingestion/Queue/Idle.antt =====
-- A quiet stream: the consumer claims idle messages after a batch only, so while no new message
-- comes it claims none.
use inherent.Prelude.{
  ℕ, zero, suc, String, ◌≡◌, refl, ◌∙◌, Bool, List, [], ◌∷◌, All, arith, if_cases, subst, sym,
}
use inherent.Ingestion.Queue.Tasks.{
  Reply, entries, raised, cancelled, failed, Event, read, claim, TaskStatus, waiting, handling,
  acking, Task, Shared, note, release, begin, after_handler, after_ack, acquire, task_step, step_at,
}
use inherent.Ingestion.Queue.Loop.{
  Phase, polling, sleeping, stopped, Service, await, log_event, poll, poll_error, receive, resume,
  loop_step,
}
use inherent.Ingestion.Queue.Run.{
  Move, loop, batch_task, stray_task, stop, with_batch, with_strays, step, run_moves,
}

-- Calls of XAUTOCLAIM.
abbrev pub claims : List Event → ℕ
claims [] = 0
claims (claim ∷ log) = suc (claims log)
claims (e ∷ log) = claims log

-- A move that brings the loop no message.
abbrev pub IsQuiet : Move → Type 0
IsQuiet (loop (entries (m ∷ messages))) = ⊥
IsQuiet m = Unit

-- The phases between which a quiet loop moves.
abbrev pub IsResting : Phase → Type 0
IsResting polling = Unit
IsResting sleeping = Unit
IsResting stopped = Unit
IsResting phase = ⊥

-- One move of a quiet run.
abbrev Rests : Service → Service → Type 0
Rests v w = IsResting w.phase × (claims w.shared.log ≡ claims v.shared.log)

poll-Rests : (v : Service) → Rests v (poll v)
unfolding poll
poll-Rests v =
    if_cases (Rests v) v.running (await polling (log_event read v)) (await stopped v)
      (λ h. (tt, refl)) (λ h. (tt, refl))

poll_error-Rests : (v : Service) → Rests v (poll_error v)
unfolding poll_error
poll_error-Rests v = if_cases (Rests v) v.running _ _ (λ h. (tt, refl)) (λ h. (tt, refl))

module _ (parses : String → Bool) where
  task_step-claims :
      (status : TaskStatus) (reply : Reply) (t : Task) (s : Shared)
      → claims (task_step parses status reply t s).1.log ≡ claims s.log
  unfolding task_step acquire begin after_handler after_ack note release
  task_step-claims waiting reply t s = ground arith
  task_step-claims (handling text) reply t s = ground arith
  task_step-claims acking reply t s = ground arith
  task_step-claims _ reply t s = refl

  step_at-claims :
      (i : ℕ) (reply : Reply) (tasks : List Task) (s : Shared)
      → claims (step_at parses i reply tasks s).1.log ≡ claims s.log
  unfolding step_at
  step_at-claims i reply [] s = refl
  step_at-claims zero reply (t ∷ tasks) s = task_step-claims t.status reply t s
  step_at-claims (suc i) reply (t ∷ tasks) s = step_at-claims i reply tasks s

  receive-Rests :
      (reply : Reply) (v : Service) → IsQuiet (loop reply) → Rests v (receive parses reply v)
  unfolding receive
  receive-Rests (raised cancelled) v q = (tt, refl)
  receive-Rests (raised failed) v q = poll_error-Rests v
  receive-Rests (entries []) v q = poll-Rests v
  receive-Rests (entries (m ∷ messages)) v q = absurd q
  receive-Rests _ v q = poll-Rests v

  resume-Rests : (reply : Reply) (v : Service) → Rests v (resume parses reply v)
  unfolding resume
  resume-Rests (raised cancelled) v = (tt, refl)
  resume-Rests _ v = poll-Rests v

  loop_step-Rests :
      (phase : Phase) (reply : Reply) (v : Service)
      → v.phase ≡ phase
      → IsResting phase
      → IsQuiet (loop reply)
      → Rests v (loop_step parses phase reply v)
  unfolding loop_step
  loop_step-Rests polling reply v e p q = receive-Rests reply v q
  loop_step-Rests sleeping reply v e p q = resume-Rests reply v
  loop_step-Rests stopped reply v e p q = (subst IsResting (sym e) p, refl)
  loop_step-Rests _ reply v e p q = absurd p

  step-Rests : (m : Move) (v : Service) → IsResting v.phase → IsQuiet m → Rests v (step parses m v)
  unfolding step with_batch with_strays
  step-Rests (loop reply) v p q = loop_step-Rests v.phase reply v refl p q
  step-Rests (batch_task i reply) v p q = (p, step_at-claims i reply v.batch v.shared)
  step-Rests (stray_task i reply) v p q = (p, step_at-claims i reply v.strays v.shared)
  step-Rests stop v p q = (p, refl)

  -- A consumer that polls or sleeps claims no idle message as long as no new message comes,
  -- however long it runs and whatever its former tasks do.
  pub run_moves-claims :
      (moves : List Move) (v : Service)
      → IsResting v.phase
      → All IsQuiet moves
      → claims (run_moves parses moves v).shared.log ≡ claims v.shared.log
  unfolding run_moves
  run_moves-claims [] v p q = refl
  run_moves-claims (m ∷ moves) v p (q, qs) =
      let rests = step-Rests m v p q in
      run_moves-claims moves (step parses m v) rests.0 qs ∙ rests.1
