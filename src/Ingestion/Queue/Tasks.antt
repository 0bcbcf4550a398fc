-- ===== src/Ingestion/Queue/Tasks.antt =====
-- A delivered message and its handling: `_handle_message` and `_handle_message_bounded`.
-- What runs between two awaits is one step. Redis and the handler answer an awaited call by a
-- reply, which may come at any time and be any.
use inherent.Prelude.{
  ℕ, zero, suc, ◌+◌, ◌-◌, String, Bool, true, false, Option, none, some, List, [], ◌∷◌, ltb,
  if◌then◌else◌,
}

-- The fields of a stream entry: `None`, an empty mapping, or a mapping with what it has under
-- "payload".
pub data Fields : Type 0 where
  absent : Fields
  no_fields : Fields
  entry : Option String → Fields

pub record Message : Type 0 where
  pub message_id : String
  pub fields : Fields

-- What an awaited call raises: a TimeoutError, a CancelledError, or anything else.
pub data Exception : Type 0 where
  timeout : Exception
  cancelled : Exception
  failed : Exception

-- What comes back from an awaited call: the entries of a read, the pending entry of a count, a
-- plain return, or an exception.
pub data Reply : Type 0 where
  entries : List Message → Reply
  times_delivered : Option ℕ → Reply
  returned : Reply
  raised : Exception → Reply

-- What the consumer does that others see: it reads new messages, claims the idle ones, counts the
-- deliveries of one, calls the handler on a text, sees it return, and sends an XACK.
pub data Event : Type 0 where
  read : Event
  claim : Event
  counted : String → ℕ → Event
  called : String → String → Event
  handled : String → String → Event
  ack : String → Event

-- `not fields`
unfoldable pub is_tombstone : Fields → Bool
is_tombstone absent = true
is_tombstone no_fields = true
is_tombstone (entry payload) = false

-- The text that `fields.get("payload", "{}")` hands to `json.loads`; without a mapping it raises.
unfoldable pub payload_text : Fields → Option String
payload_text absent = none
payload_text no_fields = some "{}"
payload_text (entry none) = some "{}"
payload_text (entry (some text)) = some text

pub data TaskStatus : Type 0 where
  waiting : TaskStatus
  handling : String → TaskStatus
  acking : TaskStatus
  ended : TaskStatus
  broken : TaskStatus
  withdrawn : TaskStatus

pub record Task : Type 0 where
  pub message : Message
  pub status : TaskStatus

-- The free permits of the semaphore, and the events so far, the latest first.
pub record Shared : Type 0 where
  pub permits : ℕ
  pub log : List Event

unfoldable pub note : Event → Shared → Shared
note e s = record s { log = e ∷ s.log }

unfoldable pub release : Shared → Shared
release s = record s { permits = s.permits + 1 }

unfoldable pub with_status : TaskStatus → Task → Task
with_status status t = record t { status = status }

module _ (parses : String → Bool) where
  -- The text that the handler's payload is read from, if `json.loads` returns.
  unfoldable pub parsed : Fields → Option String
  parsed fields = elim (payload_text fields) [
    | none ↦ none
    | some text ↦ if parses text then some text else none
  ]

  -- Enter `async with self._semaphore` and call the handler; a payload that does not parse raises,
  -- and gives the permit back.
  unfoldable pub begin : Task → Shared → Task × Shared
  unfolding parsed
  begin t s = elim (parsed t.message.fields) [
    | none ↦ (with_status broken t, s)
    | some text ↦ (
      with_status (handling text) t,
      note (called t.message.message_id text) (record s { permits = s.permits - 1 }),
    )
  ]

  -- After the handler: an XACK, or the exception, which is caught unless it cancels the task.
  unfoldable pub after_handler : String → Reply → Task → Shared → Task × Shared
  after_handler text (raised cancelled) t s = (with_status withdrawn t, release s)
  after_handler text (raised e) t s = (with_status ended t, release s)
  after_handler text reply t s = (
    with_status acking t,
    note (ack t.message.message_id) (note (handled t.message.message_id text) s),
  )

  -- After the XACK; its exception is caught too.
  unfoldable pub after_ack : Reply → Task → Shared → Task × Shared
  after_ack (raised cancelled) t s = (with_status withdrawn t, release s)
  after_ack reply t s = (with_status ended t, release s)

  -- While a task waits for a permit, only a cancellation reaches it without one.
  unfoldable pub acquire : Reply → Task → Shared → Task × Shared
  acquire (raised cancelled) t s = (with_status withdrawn t, s)
  acquire reply t s = if ltb 0 s.permits then begin t s else (t, s)

  unfoldable pub task_step : TaskStatus → Reply → Task → Shared → Task × Shared
  task_step waiting reply t s = acquire reply t s
  task_step (handling text) reply t s = after_handler text reply t s
  task_step acking reply t s = after_ack reply t s
  task_step status reply t s = (t, s)

  -- A step of the task at an index.
  unfoldable pub step_at : ℕ → Reply → List Task → Shared → List Task × Shared
  step_at i reply [] s = ([], s)
  step_at zero reply (t ∷ tasks) s = let (t', s') = task_step t.status reply t s in (t' ∷ tasks, s')
  step_at (suc i) reply (t ∷ tasks) s =
      let (tasks', s') = step_at i reply tasks s in (t ∷ tasks', s')
