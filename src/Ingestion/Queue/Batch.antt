-- ===== src/Ingestion/Queue/Batch.antt =====
-- The batch of a read: `_poll_loop` from the entries of an XREADGROUP to the end of the gather.
use inherent.Prelude.{
  ℕ, zero, suc, String, ◌≡◌, refl, ◌∙◌, ap, subst, Bool, List, [], ◌∷◌, map, All, arith,
}
use inherent.Ingestion.Queue.Tasks.{
  Message, Reply, entries, TaskStatus, waiting, handling, acking, ended, broken, withdrawn, Task,
  Shared, step_at, task_step, acquire, begin, after_handler, after_ack, with_status,
}
use inherent.Ingestion.Queue.Loop.{
  polling, gathering, claiming, Service, task_of, dispatch, await, receive, loop_step,
}
use inherent.Ingestion.Queue.Run.{
  Move, loop, batch_task, stray_task, stop, started, with_batch, with_strays, step, run_moves,
}
use inherent.Ingestion.Queue.Log.{WasCalled}
use inherent.Ingestion.Queue.Kept.{Invariant}
use inherent.Ingestion.Queue.Acks.{
  step-Invariant, run_moves-Invariant, started-Invariant, batch-WasCalled, await_batch-claiming,
  gathering-claiming,
}

-- A move that is not the loop's own: a step of a task, or the call of `disconnect`.
unfoldable pub IsBeside : Move → Type 0
IsBeside (loop reply) = ⊥
IsBeside _ = Unit

unfoldable messages_of : List Task → List Message
messages_of [] = []
messages_of (t ∷ tasks) = t.message ∷ messages_of tasks

messages_of-map : (messages : List Message) → messages_of (map task_of messages) ≡ messages
unfolding messages_of task_of
messages_of-map [] = refl
messages_of-map (m ∷ messages) = ap (λ l. m ∷ l) (messages_of-map messages)

All-messages :
    (P : Message → Type 0) (tasks : List Task)
    → All (λ t. P t.message) tasks
    → All P (messages_of tasks)
unfolding messages_of
All-messages P [] h = tt
All-messages P (t ∷ tasks) (h, hs) = (h, All-messages P tasks hs)

module _ (parses : String → Bool) where
  begin-message : (t : Task) (s : Shared) → (begin parses t s).0.message ≡ t.message
  unfolding begin with_status
  begin-message t s = ground arith

  acquire-message :
      (reply : Reply) (t : Task) (s : Shared) → (acquire parses reply t s).0.message ≡ t.message
  unfolding acquire with_status
  acquire-message reply t s = ground (arith, begin-message t s)

  after_handler-message :
      (text : String) (reply : Reply) (t : Task) (s : Shared)
      → (after_handler parses text reply t s).0.message ≡ t.message
  unfolding after_handler with_status
  after_handler-message text reply t s = ground arith

  after_ack-message :
      (reply : Reply) (t : Task) (s : Shared) → (after_ack parses reply t s).0.message ≡ t.message
  unfolding after_ack with_status
  after_ack-message reply t s = ground arith

  task_step-message :
      (status : TaskStatus) (reply : Reply) (t : Task) (s : Shared)
      → (task_step parses status reply t s).0.message ≡ t.message
  unfolding task_step
  task_step-message waiting reply t s = acquire-message reply t s
  task_step-message (handling text) reply t s = after_handler-message text reply t s
  task_step-message acking reply t s = after_ack-message reply t s
  task_step-message ended reply t s = refl
  task_step-message broken reply t s = refl
  task_step-message withdrawn reply t s = refl

  -- A step of a task changes the status of the task, not its message.
  step_at-messages_of :
      (i : ℕ) (reply : Reply) (tasks : List Task) (s : Shared)
      → messages_of (step_at parses i reply tasks s).0 ≡ messages_of tasks
  unfolding step_at messages_of
  step_at-messages_of i reply [] s = refl
  step_at-messages_of zero reply (t ∷ tasks) s =
      ap (λ m. m ∷ messages_of tasks) (task_step-message t.status reply t s)
  step_at-messages_of (suc i) reply (t ∷ tasks) s =
      ap (λ l. t.message ∷ l) (step_at-messages_of i reply tasks s)

  step-messages_of :
      (m : Move) (v : Service)
      → IsBeside m
      → messages_of (step parses m v).batch ≡ messages_of v.batch
  unfolding step with_batch with_strays IsBeside
  step-messages_of (loop reply) v h = absurd h
  step-messages_of (batch_task i reply) v h = step_at-messages_of i reply v.batch v.shared
  step-messages_of (stray_task i reply) v h = refl
  step-messages_of stop v h = refl

  run_moves-messages_of :
      (moves : List Move) (v : Service)
      → All IsBeside moves
      → messages_of (run_moves parses moves v).batch ≡ messages_of v.batch
  unfolding run_moves
  run_moves-messages_of [] v h = refl
  run_moves-messages_of (m ∷ moves) v (h, hs) =
      run_moves-messages_of moves (step parses m v) hs ∙ step-messages_of m v h

  dispatch-messages_of :
      (m : Message) (messages : List Message) (v : Service)
      → messages_of (dispatch (m ∷ messages) v).batch ≡ m ∷ messages
  unfolding dispatch await
  dispatch-messages_of m messages v = messages_of-map (m ∷ messages)

  step-batch :
      (m : Message) (messages : List Message) (v : Service)
      → v.phase ≡ polling
      → messages_of (step parses (loop (entries (m ∷ messages))) v).batch ≡ m ∷ messages
  unfolding step
  step-batch m messages v e =
      ap (λ p. messages_of (loop_step parses p (entries (m ∷ messages)) v).batch) e
      ∙ (unfold loop_step receive in dispatch-messages_of m messages v)

  batch_run-WasCalled :
      (v : Service) (limit : ℕ) (reply : Reply)
      → Invariant parses limit v
      → v.phase ≡ gathering
      → (step parses (loop reply) v).phase ≡ claiming
      → All (WasCalled parses v.shared.log) (messages_of v.batch)
  unfolding step
  batch_run-WasCalled v limit reply i e h =
      let left = subst (λ p. (loop_step parses p reply v).phase ≡ claiming) e h in
      let tests =
        await_batch-claiming parses limit v e (gathering-claiming parses limit reply v e left) in
      All-messages (WasCalled parses v.shared.log) v.batch
        (batch-WasCalled parses limit v.shared.log v.batch tests.0 tests.1 tests.2 i.fits.batch)

  -- A read returns messages while the loop awaits it, and then only tasks get replies, or the
  -- subscriber is told to stop. If the loop then goes on to the reclaim, the handler has been called
  -- for each message of the read, on the text of its payload: none is passed over, whatever came
  -- before, whatever came back and in whatever order.
  pub run_moves-WasCalled :
      (limit : ℕ) (before moves : List Move) (messages : List Message) (reply : Reply)
      → let v0 = run_moves parses before (started limit) in
        let v = run_moves parses moves (step parses (loop (entries messages)) v0) in
        v0.phase ≡ polling
        → All IsBeside moves
        → v.phase ≡ gathering
        → (step parses (loop reply) v).phase ≡ claiming
        → All (WasCalled parses v.shared.log) messages
  run_moves-WasCalled limit before moves [] reply awaits beside e h = tt
  run_moves-WasCalled limit before moves (m ∷ messages) reply awaits beside e h =
      let v0 = run_moves parses before (started limit) in
      let v1 = step parses (loop (entries (m ∷ messages))) v0 in
      let v = run_moves parses moves v1 in
      let i0 =
        run_moves-Invariant parses limit before (started limit) (started-Invariant parses limit) in
      let i = run_moves-Invariant parses limit moves v1 (step-Invariant parses limit _ v0 i0) in
      subst (All (WasCalled parses v.shared.log))
        (run_moves-messages_of moves v1 beside ∙ step-batch m messages v0 awaits)
        (batch_run-WasCalled v limit reply i e h)
