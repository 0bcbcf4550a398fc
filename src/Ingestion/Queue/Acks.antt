-- ===== src/Ingestion/Queue/Acks.antt =====
-- Whole runs of the consumer: what it acknowledges, how many handlers it lets run, and when it
-- leaves a batch.
use inherent.Prelude.{ℕ, ◌+◌, ◌≤◌, String, ◌≡◌, Bool, false, List, [], ◌∷◌, All, arith, ◌||◌}
use inherent.Ingestion.Queue.Tasks.{
  Message, Reply, raised, cancelled, Event, called, TaskStatus, waiting, handling, acking, ended,
  broken, withdrawn, Task, step_at,
}
use inherent.Ingestion.Queue.Loop.{
  Phase, serving, gathering, claiming, Service, await, log_event, poll_error, has_status, is_broken,
  is_withdrawn, is_unfinished, start_claim, await_batch, loop_step,
}
use inherent.Ingestion.Queue.Run.{
  Move, loop, batch_task, stray_task, stop, started, with_batch, with_strays, step, run_moves,
}
use inherent.Ingestion.Queue.Log.{
  Extends, IsSound, IsTask, WasCalled, HasStatus, All-IsTask-mono, busy,
}
use inherent.Ingestion.Queue.Handling.{AllKept, step_at-AllKept}
use inherent.Ingestion.Queue.Kept.{IsPhase, Invariant}
use inherent.Ingestion.Queue.Phases.{loop_step-Invariant}

module _ (parses : String → Bool) (limit : ℕ) where
  IsPhase-mono :
      (phase : Phase) (log log' : List Event)
      → Extends log log'
      → IsPhase parses limit log phase
      → IsPhase parses limit log' phase
  IsPhase-mono (serving origin m text rest) log log' x (p, l) = (p, x (called m.message_id text) l)
  IsPhase-mono _ log log' x h = tt

  with_batch-Invariant :
      (v : Service) (r : _)
      → AllKept parses v.batch v.shared r
      → Invariant parses limit v
      → Invariant parses limit (with_batch v r)
  unfolding with_batch
  with_batch-Invariant v r k i = record {
    fits = record {
      account = omega (arith, k.account, i.fits.account);
      sound = k.sound;
      batch = k.each;
      strays = All-IsTask-mono parses v.shared.log r.1.log v.strays k.grown i.fits.strays;
    };
    phase = IsPhase-mono v.phase v.shared.log r.1.log k.grown i.phase;
  }

  with_strays-Invariant :
      (v : Service) (r : _)
      → AllKept parses v.strays v.shared r
      → Invariant parses limit v
      → Invariant parses limit (with_strays v r)
  unfolding with_strays
  with_strays-Invariant v r k i = record {
    fits = record {
      account = omega (arith, k.account, i.fits.account);
      sound = k.sound;
      batch = All-IsTask-mono parses v.shared.log r.1.log v.batch k.grown i.fits.batch;
      strays = k.each;
    };
    phase = IsPhase-mono v.phase v.shared.log r.1.log k.grown i.phase;
  }

  pub step-Invariant :
      (m : Move) (v : Service) → Invariant parses limit v → Invariant parses limit (step parses m v)
  unfolding step
  step-Invariant (loop reply) v i = loop_step-Invariant parses limit v.phase reply v i.phase i
  step-Invariant (batch_task j reply) v i =
      with_batch-Invariant v (step_at parses j reply v.batch v.shared)
        (step_at-AllKept parses j reply v.batch v.shared i.fits.sound i.fits.batch) i
  step-Invariant (stray_task j reply) v i =
      with_strays-Invariant v (step_at parses j reply v.strays v.shared)
        (step_at-AllKept parses j reply v.strays v.shared i.fits.sound i.fits.strays) i
  step-Invariant stop v i = record {
    fits = record {
      account = i.fits.account;
      sound = i.fits.sound;
      batch = i.fits.batch;
      strays = i.fits.strays;
    };
    phase = i.phase;
  }

  pub run_moves-Invariant :
      (moves : List Move) (v : Service)
      → Invariant parses limit v
      → Invariant parses limit (run_moves parses moves v)
  unfolding run_moves
  run_moves-Invariant [] v i = i
  run_moves-Invariant (m ∷ moves) v i =
      run_moves-Invariant moves (step parses m v) (step-Invariant m v i)

  pub started-Invariant : Invariant parses limit (started limit)
  unfolding busy
  started-Invariant = record {
    fits = record { account = omega arith; sound = tt; batch = tt; strays = tt };
    phase = tt;
  }

  -- Whatever Redis and the handler answer, and in whatever order: an XACK is sent for a message
  -- only after its handler has returned, or after its deliveries were counted above the maximum; a
  -- handler returns only where it was called, and is called only on a payload that parses.
  pub run_moves-IsSound :
      (moves : List Move) → IsSound parses (run_moves parses moves (started limit)).shared.log
  run_moves-IsSound moves = (run_moves-Invariant moves (started limit) started-Invariant).fits.sound

  -- In every run the tasks of the batch and the strays that hold a permit, from the call of the
  -- handler to the end of the XACK, and the free permits make up the limit: no more handlers than
  -- the limit run as tasks at a time, and no permit is lost, however a task ends.
  pub run_moves-busy :
      (moves : List Move)
      → let v = run_moves parses moves (started limit) in
        (busy v.batch + busy v.strays ≤ limit)
        × (busy v.batch + busy v.strays + v.shared.permits ≡ limit)
  run_moves-busy moves =
      let account = (run_moves-Invariant moves (started limit) started-Invariant).fits.account in
      (omega (arith, account), account)

  -- A task that is neither cancelled, nor broken, nor unfinished has called its handler.
  task-WasCalled :
      (log : List Event) (m : Message) (s : TaskStatus)
      → is_withdrawn s ≡ false
      → is_broken s ≡ false
      → is_unfinished s ≡ false
      → HasStatus parses log m s
      → WasCalled parses log m
  unfolding is_withdrawn is_broken is_unfinished
  task-WasCalled log m ended w b u h = h
  task-WasCalled log m acking w b u h = h
  task-WasCalled log m waiting w b u h = absurd (ground arith)
  task-WasCalled log m (handling text) w b u h = absurd (ground arith)
  task-WasCalled log m broken w b u h = absurd (ground arith)
  task-WasCalled log m withdrawn w b u h = absurd (ground arith)

  or_false : (a b : Bool) → (a || b) ≡ false → (a ≡ false) × (b ≡ false)
  or_false a b h = ground arith

  pub batch-WasCalled :
      (log : List Event) (tasks : List Task)
      → has_status is_withdrawn tasks ≡ false
      → has_status is_broken tasks ≡ false
      → has_status is_unfinished tasks ≡ false
      → All (IsTask parses log) tasks
      → All (λ t. WasCalled parses log t.message) tasks
  unfolding has_status
  batch-WasCalled log [] w b u h = tt
  batch-WasCalled log (t ∷ tasks) w b u (h, hs) =
      let w' = or_false (is_withdrawn t.status) (has_status is_withdrawn tasks) w in
      let b' = or_false (is_broken t.status) (has_status is_broken tasks) b in
      let u' = or_false (is_unfinished t.status) (has_status is_unfinished tasks) u in
      (
        task-WasCalled log t.message t.status w'.0 b'.0 u'.0 h,
        batch-WasCalled log tasks w'.1 b'.1 u'.1 hs,
      )

  pub await_batch-claiming :
      (v : Service)
      → v.phase ≡ gathering
      → (await_batch v).phase ≡ claiming
      → (has_status is_withdrawn v.batch ≡ false)
        × (has_status is_broken v.batch ≡ false)
        × (has_status is_unfinished v.batch ≡ false)
  unfolding await_batch poll_error await start_claim log_event
  await_batch-claiming v e h = ground arith

  pub gathering-claiming :
      (reply : Reply) (v : Service)
      → v.phase ≡ gathering
      → (loop_step parses gathering reply v).phase ≡ claiming
      → (await_batch v).phase ≡ claiming
  unfolding loop_step await
  gathering-claiming (raised cancelled) v e h = absurd (ground arith)
  gathering-claiming _ v e h = h
