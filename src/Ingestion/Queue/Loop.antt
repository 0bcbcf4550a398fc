-- ===== src/Ingestion/Queue/Loop.antt =====
-- The polling loop, `_poll_loop`, with `_process_pending` and `_reclaim_pending`, beside the tasks
-- of its batch. A batch whose gather has raised goes on as strays.
use inherent.Prelude.{
  ℕ, String, Bool, true, false, ◌||◌, none, some, List, [], ◌∷◌, ◌++◌, map, ltb, if◌then◌else◌,
}
use inherent.Ingestion.Queue.Tasks.{
  Message, timeout, cancelled, failed, Reply, entries, times_delivered, raised, Event, read, claim,
  counted, called, handled, ack, is_tombstone, parsed, TaskStatus, waiting, handling, acking,
  broken, withdrawn, Task, Shared, note,
}

-- Where a message that the loop handles itself comes from.
pub data Origin : Type 0 where
  recovery : Origin
  reclaim : Origin

-- What the loop awaits.
pub data Phase : Type 0 where
  recovering : Phase
  polling : Phase
  gathering : Phase
  claiming : Phase
  counting : Message → List Message → Phase
  dropping : List Message → Phase
  serving : Origin → Message → String → List Message → Phase
  confirming : Origin → List Message → Phase
  gauging : Phase
  sleeping : Phase
  stopped : Phase

pub record Service : Type 0 where
  pub running : Bool
  pub phase : Phase
  pub batch : List Task
  pub strays : List Task
  pub shared : Shared

-- `self._max_deliveries`
abbrev pub max_deliveries : ℕ
max_deliveries = 5

unfoldable pub await : Phase → Service → Service
await phase v = record v { phase = phase }

unfoldable pub log_event : Event → Service → Service
unfolding note
log_event e v = record v { shared = note e v.shared }

-- `while self._running`, and the read of new messages
unfoldable pub poll : Service → Service
unfolding await log_event note
poll v = if v.running then await polling (log_event read v) else await stopped v

-- `except Exception` of the loop
unfoldable pub poll_error : Service → Service
unfolding await
poll_error v =
    let v' = record v { batch = []; strays = v.batch ++ v.strays } in
    if v.running then await sleeping v' else await stopped v'

unfoldable pub task_of : Message → Task
task_of m = record { message = m; status = waiting }

-- `if not results: continue`, or a task for each message
unfoldable pub dispatch : List Message → Service → Service
unfolding poll await task_of
dispatch [] v = poll v
dispatch (m ∷ messages) v =
    await gathering (record v { batch = map task_of (m ∷ messages); strays = v.batch ++ v.strays })

unfoldable pub has_status : (TaskStatus → Bool) → List Task → Bool
has_status p [] = false
has_status p (t ∷ tasks) = p t.status || has_status p tasks

unfoldable pub is_broken : TaskStatus → Bool
is_broken broken = true
is_broken status = false

unfoldable pub is_withdrawn : TaskStatus → Bool
is_withdrawn withdrawn = true
is_withdrawn status = false

unfoldable pub is_unfinished : TaskStatus → Bool
is_unfinished waiting = true
is_unfinished (handling text) = true
is_unfinished acking = true
is_unfinished status = false

unfoldable pub start_claim : Service → Service
unfolding await log_event note
start_claim v = await claiming (log_event claim v)

-- `await asyncio.gather(*tasks)`: it raises as soon as a task has raised, and returns when all have
-- returned.
unfoldable pub await_batch : Service → Service
unfolding poll_error await has_status is_broken is_withdrawn is_unfinished start_claim
await_batch v =
    if has_status is_withdrawn v.batch
    then await stopped v
    else if has_status is_broken v.batch
    then poll_error v
    else if has_status is_unfinished v.batch
    then v
    else start_claim v

module _ (parses : String → Bool) where
  -- Call the handler from the loop itself, with no permit.
  unfoldable pub serve : Origin → Message → List Message → String → Service → Service
  unfolding await log_event note
  serve origin m rest text v =
      await (serving origin m text rest) (log_event (called m.message_id text) v)

  -- The loop of `_process_pending`; a payload that does not parse ends it.
  unfoldable pub next_pending : List Message → Service → Service
  unfolding is_tombstone parsed serve poll
  next_pending [] v = poll v
  next_pending (m ∷ rest) v =
      let later = next_pending rest v in
      if is_tombstone m.fields then later else elim (parsed parses m.fields) [
        | none ↦ poll v
        | some text ↦ serve recovery m rest text v
      ]

  -- The loop of `_reclaim_pending`, up to the count of deliveries.
  unfoldable pub next_claimed : List Message → Service → Service
  unfolding is_tombstone await
  next_claimed [] v = await gauging v
  next_claimed (m ∷ rest) v =
      let later = next_claimed rest v in
      if is_tombstone m.fields then later else await (counting m rest) v

  -- A message with too many deliveries is dropped by an XACK, any other handled.
  unfoldable pub after_count : Message → List Message → ℕ → Service → Service
  unfolding await log_event note parsed serve poll_error
  after_count m rest n v =
      let v' = log_event (counted m.message_id n) v in
      if ltb max_deliveries n
      then await (dropping rest) (log_event (ack m.message_id) v')
      else elim (parsed parses m.fields) [
        | none ↦ poll_error v'
        | some text ↦ serve reclaim m rest text v'
      ]

  unfoldable pub after_serving : Origin → List Message → Service → Service
  unfolding next_pending next_claimed
  after_serving recovery rest v = next_pending rest v
  after_serving reclaim rest v = next_claimed rest v

  unfoldable pub recover : Reply → Service → Service
  unfolding next_pending await poll
  recover (raised cancelled) v = await stopped v
  recover (entries messages) v = next_pending messages v
  recover reply v = poll v

  -- After the read of new messages: an expired block is read again.
  unfoldable pub receive : Reply → Service → Service
  unfolding dispatch poll await poll_error
  receive (raised cancelled) v = await stopped v
  receive (raised timeout) v = poll v
  receive (raised failed) v = poll_error v
  receive (entries messages) v = dispatch messages v
  receive reply v = poll v

  -- After XAUTOCLAIM, whose failure only ends the reclaim.
  unfoldable pub claimed : Reply → Service → Service
  unfolding next_claimed await
  claimed (raised cancelled) v = await stopped v
  claimed (entries messages) v = next_claimed messages v
  claimed reply v = await gauging v

  -- `_delivery_count`: a failure, or no pending entry, counts as one delivery.
  unfoldable pub counted_reply : Message → List Message → Reply → Service → Service
  unfolding after_count await
  counted_reply m rest (raised cancelled) v = await stopped v
  counted_reply m rest (times_delivered (some n)) v = after_count m rest n v
  counted_reply m rest reply v = after_count m rest 1 v

  unfoldable pub dropped : List Message → Reply → Service → Service
  unfolding next_claimed await poll_error
  dropped rest (raised cancelled) v = await stopped v
  dropped rest (raised e) v = poll_error v
  dropped rest reply v = next_claimed rest v

  -- After the handler of a message that the loop handles itself.
  unfoldable pub served : Origin → Message → String → List Message → Reply → Service → Service
  unfolding after_serving await log_event note
  served origin m text rest (raised cancelled) v = await stopped v
  served origin m text rest (raised e) v = after_serving origin rest v
  served origin m text rest reply v =
      await (confirming origin rest)
        (log_event (ack m.message_id) (log_event (handled m.message_id text) v))

  unfoldable pub confirmed : Origin → List Message → Reply → Service → Service
  unfolding after_serving await
  confirmed origin rest (raised cancelled) v = await stopped v
  confirmed origin rest reply v = after_serving origin rest v

  -- After the gauge, whose failure is logged only, and after the pause of a second.
  unfoldable pub resume : Reply → Service → Service
  unfolding poll await
  resume (raised cancelled) v = await stopped v
  resume reply v = poll v

  unfoldable pub loop_step : Phase → Reply → Service → Service
  unfolding recover receive await_batch claimed counted_reply dropped served confirmed resume
  loop_step recovering reply v = recover reply v
  loop_step polling reply v = receive reply v
  loop_step gathering (raised cancelled) v = await stopped v
  loop_step gathering reply v = await_batch v
  loop_step claiming reply v = claimed reply v
  loop_step (counting m rest) reply v = counted_reply m rest reply v
  loop_step (dropping rest) reply v = dropped rest reply v
  loop_step (serving origin m text rest) reply v = served origin m text rest reply v
  loop_step (confirming origin rest) reply v = confirmed origin rest reply v
  loop_step gauging reply v = resume reply v
  loop_step sleeping reply v = resume reply v
  loop_step stopped reply v = v
