-- ===== src/Ingestion/Queue/Log.antt =====
-- What the log of a consumer justifies, and what it says of tasks.
use inherent.Prelude.{
  ℕ, ◌+◌, ◌<◌, String, ◌≡◌, ◌⊎◌, Bool, true, some, List, [], ◌∷◌, ◌++◌, All, arith,
}
use inherent.Ingestion.Queue.Tasks.{
  Fields, Message, Event, called, counted, handled, ack, parsed, payload_text, TaskStatus, waiting,
  handling, acking, ended, broken, withdrawn, Task,
}
use inherent.Ingestion.Queue.Loop.{max_deliveries}

abbrev pub Logged : Event → List Event → Type 0
Logged e [] = ⊥
Logged e (x ∷ log) = (x ≡ e) ⊎ Logged e log

abbrev pub Extends : List Event → List Event → Type 0
Extends log log' = (e : Event) → Logged e log → Logged e log'

module _ (parses : String → Bool) where
  -- What must stand in the log below an event: a handler is called on a text that parses, and
  -- returns only where it was called; an XACK is sent for a message that the handler has returned
  -- for, or that was counted with too many deliveries.
  abbrev pub Justifies : List Event → Event → Type 0
  Justifies log (called id text) = parses text ≡ true
  Justifies log (handled id text) = (parses text ≡ true) × Logged (called id text) log
  Justifies log (ack id) =
      ((text : String) × Logged (handled id text) log)
      ⊎ ((n : ℕ) × (max_deliveries < n) × Logged (counted id n) log)
  Justifies log e = Unit

  abbrev pub IsSound : List Event → Type 0
  IsSound [] = Unit
  IsSound (e ∷ log) = Justifies log e × IsSound log

  -- The handler was called for a message, on the text of its payload.
  abbrev pub WasCalled : List Event → Message → Type 0
  WasCalled log m =
      (text : String) × (parsed parses m.fields ≡ some text) × Logged (called m.message_id text) log

  abbrev pub IsCalling : List Event → Message → String → Type 0
  IsCalling log m text =
      (parses text ≡ true)
      × (parsed parses m.fields ≡ some text)
      × Logged (called m.message_id text) log

  abbrev pub HasStatus : List Event → Message → TaskStatus → Type 0
  HasStatus log m (handling text) = IsCalling log m text
  HasStatus log m acking = WasCalled log m
  HasStatus log m ended = WasCalled log m
  HasStatus log m waiting = Unit
  HasStatus log m broken = Unit
  HasStatus log m withdrawn = Unit

  abbrev pub IsTask : List Event → Task → Type 0
  IsTask log t = HasStatus log t.message t.status

  pub HasStatus-mono :
      (log log' : List Event) (m : Message) (s : TaskStatus)
      → Extends log log'
      → HasStatus log m s
      → HasStatus log' m s
  HasStatus-mono log log' m (handling text) x (p, q, l) = (p, q, x (called m.message_id text) l)
  HasStatus-mono log log' m acking x (text, p, l) = (text, p, x (called m.message_id text) l)
  HasStatus-mono log log' m ended x (text, p, l) = (text, p, x (called m.message_id text) l)
  HasStatus-mono log log' m waiting x h = tt
  HasStatus-mono log log' m broken x h = tt
  HasStatus-mono log log' m withdrawn x h = tt

  pub All-IsTask-mono :
      (log log' : List Event) (tasks : List Task)
      → Extends log log'
      → All (IsTask log) tasks
      → All (IsTask log') tasks
  All-IsTask-mono log log' [] x h = tt
  All-IsTask-mono log log' (t ∷ tasks) x (h, hs) =
      (HasStatus-mono log log' t.message t.status x h, All-IsTask-mono log log' tasks x hs)

  pub parsed-parses :
      (f : Fields) (text : String) → parsed parses f ≡ some text → parses text ≡ true
  unfolding parsed payload_text
  parsed-parses f text h = ground arith

-- Does a task hold a permit?
abbrev pub holds : TaskStatus → ℕ
holds (handling text) = 1
holds acking = 1
holds status = 0

-- How many tasks hold a permit of the semaphore.
unfoldable pub busy : List Task → ℕ
busy [] = 0
busy (t ∷ tasks) = holds t.status + busy tasks

pub busy-append : (a b : List Task) → busy (a ++ b) ≡ busy a + busy b
unfolding busy
busy-append [] b = omega arith
busy-append (t ∷ a) b = omega (arith, busy-append a b)
