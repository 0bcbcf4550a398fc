-- ===== src/Ingestion/Queue/Tests.antt =====
-- Sample runs of the consumer, and the theorems there.
use inherent.Prelude.{◌+◌, ◌≤◌, String, ◌≡◌, refl, Bool, not, some, List, [], ◌∷◌, All, str_eq}
use inherent.Ingestion.Queue.Tasks.{
  Message, entry, entries, times_delivered, returned, raised, timeout, failed, step_at, task_step,
  acquire, begin, after_handler, after_ack, note, release, with_status, parsed, payload_text,
}
use inherent.Ingestion.Queue.Loop.{Service, gathering, polling, sleeping, loop_step}
use inherent.Ingestion.Queue.Run.{Move, loop, batch_task, started, run_moves}
use inherent.Ingestion.Queue.Log.{IsSound, WasCalled, busy}
use inherent.Ingestion.Queue.Acks.{run_moves-IsSound, run_moves-busy}
use inherent.Ingestion.Queue.Batch.{IsBeside, run_moves-WasCalled}
use inherent.Ingestion.Queue.Idle.{claims, run_moves-claims}

abbrev parses : String → Bool
parses text = not (str_eq text "{")

abbrev first : Message
first = record { message_id = "1-0"; fields = entry (some "{\"n\": 1}") }

abbrev second : Message
second = record { message_id = "2-0"; fields = entry (some "{\"n\": 2}") }

abbrev malformed : Message
malformed = record { message_id = "3-0"; fields = entry (some "{") }

-- Two messages at once with one permit: the second handler waits, and fails.
abbrev task_moves : List Move
task_moves =
    batch_task 0 returned
    ∷ batch_task 1 returned
    ∷ batch_task 0 returned
    ∷ batch_task 0 returned
    ∷ batch_task 1 returned
    ∷ batch_task 1 (raised failed)
    ∷ []

abbrev batch_moves : List Move
batch_moves = loop (entries []) ∷ loop (entries (first ∷ second ∷ [])) ∷ task_moves

-- The consumer while it awaits its first read.
abbrev idle : Service
idle = run_moves parses (loop (entries []) ∷ []) (started 1)

abbrev batch_done : Service
batch_done = run_moves parses batch_moves (started 1)

-- After the batch: a claim of a message with six deliveries, which is dropped, the gauge, and a read.
abbrev reclaim_moves : List Move
reclaim_moves =
    loop returned
    ∷ loop (entries (second ∷ []))
    ∷ loop (times_delivered (some 6))
    ∷ loop returned
    ∷ loop returned
    ∷ []

-- After the batch: a claim that finds no message idle for long enough, the gauge, and a read.
abbrev settled : Service
settled = run_moves parses (loop returned ∷ loop (entries []) ∷ loop returned ∷ []) batch_done

after_batch : batch_done.phase ≡ gathering
unfolding run_moves loop_step step_at task_step acquire begin after_handler after_ack note release
    with_status parsed payload_text
after_batch = refl

after_reclaim : (run_moves parses reclaim_moves batch_done).phase ≡ polling
unfolding run_moves loop_step step_at task_step acquire begin after_handler after_ack note release
    with_status parsed payload_text
after_reclaim = refl

claims_once : claims (run_moves parses reclaim_moves batch_done).shared.log ≡ 1
unfolding run_moves loop_step step_at task_step acquire begin after_handler after_ack note release
    with_status parsed payload_text
claims_once = refl

-- A payload that does not parse ends the round: the loop pauses without a reclaim.
malformed_pauses :
    (run_moves parses
      (loop (entries [])
        ∷ loop (entries (malformed ∷ []))
        ∷ batch_task 0 returned
        ∷ loop returned
        ∷ [])
      (started 1)).phase
    ≡ sleeping
unfolding run_moves loop_step step_at task_step acquire begin after_handler after_ack note release
    with_status parsed payload_text
malformed_pauses = refl

run_moves-IsSound_example : IsSound parses (run_moves parses batch_moves (started 1)).shared.log
run_moves-IsSound_example = run_moves-IsSound parses 1 batch_moves

run_moves-busy_example :
    (busy batch_done.batch + busy batch_done.strays ≤ 1)
    × (busy batch_done.batch + busy batch_done.strays + batch_done.shared.permits ≡ 1)
run_moves-busy_example = run_moves-busy parses 1 batch_moves

run_moves-WasCalled_example :
    All
      (WasCalled parses
        (run_moves parses task_moves
          (loop_step parses polling (entries (first ∷ second ∷ [])) idle)).shared.log)
      (first ∷ second ∷ [])
unfolding run_moves loop_step step_at task_step acquire begin after_handler after_ack note release
    with_status parsed payload_text IsBeside
run_moves-WasCalled_example =
    run_moves-WasCalled parses 1 (loop (entries []) ∷ []) task_moves (first ∷ second ∷ []) returned
      refl (tt, (tt, (tt, (tt, (tt, (tt, tt)))))) refl refl

-- The claim right after the batch is too early for the second message, whose handler failed: it
-- stays pending through the reads that follow.
run_moves-claims_example :
    claims (run_moves parses (loop (raised timeout) ∷ loop (entries []) ∷ []) settled).shared.log
    ≡ claims settled.shared.log
unfolding run_moves loop_step step_at task_step acquire begin after_handler after_ack note release
    with_status parsed payload_text
run_moves-claims_example =
    run_moves-claims parses (loop (raised timeout) ∷ loop (entries []) ∷ []) settled tt
      (tt, (tt, tt))
