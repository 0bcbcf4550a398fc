-- ===== src/Ingestion/Queue/Handling.antt =====
-- A step of a task keeps the account of the semaphore, and only adds justified events to the log.
use inherent.Prelude.{
  ℕ, zero, suc, ◌+◌, String, ◌≡◌, refl, inl, inr, Bool, true, List, [], ◌∷◌, All, arith,
  Option-cases, ltb, if_cases, if◌then◌else◌, ap,
}
use inherent.Ingestion.Queue.Tasks.{
  Reply, raised, timeout, cancelled, failed, handled, ack, parsed, TaskStatus, waiting, handling,
  acking, ended, broken, withdrawn, Task, Shared, note, release, with_status, begin, after_handler,
  after_ack, acquire, task_step, step_at,
}
use inherent.Ingestion.Queue.Log.{
  Extends, IsSound, IsTask, HasStatus, All-IsTask-mono, HasStatus-mono, WasCalled, IsCalling, holds,
  busy, parsed-parses,
}

module _ (parses : String → Bool) where
  -- A step from a task and the shared state to another pair.
  pub record Kept (t : Task) (s : Shared) (r : Task × Shared) : Type 0 where
    pub message : r.0.message ≡ t.message
    pub account : holds r.0.status + r.1.permits ≡ holds t.status + s.permits
    pub grown : Extends s.log r.1.log
    pub sound : IsSound parses r.1.log
    pub task : IsTask parses r.1.log r.0

  begin-Kept :
      (t : Task) (s : Shared)
      → t.status ≡ waiting
      → ltb 0 s.permits ≡ true
      → IsSound parses s.log
      → Kept t s (begin parses t s)
  unfolding begin note with_status
  begin-Kept t s w p i = elim (Option-cases (parsed parses t.message.fields)) [
    | inl e ↦
        rw (e, begin)
          (record {
            message = refl;
            account = ground arith;
            grown = λ x l. l;
            sound = i;
            task = tt;
          })
    | inr (text, e) ↦
        rw (e, begin)
          (record {
            message = refl;
            account = ground arith;
            grown = λ x l. inr l;
            sound = (parsed-parses parses t.message.fields text e, i);
            task = (parsed-parses parses t.message.fields text e, e, inl refl);
          })
  ]

  stay-Kept :
      (t : Task) (s : Shared) → IsSound parses s.log → IsTask parses s.log t → Kept t s (t, s)
  stay-Kept t s i h = record {
    message = refl;
    account = refl;
    grown = λ x l. l;
    sound = i;
    task = h;
  }

  -- The permit is given back, and the log stays.
  release-Kept :
      (status : TaskStatus) (t : Task) (s : Shared)
      → holds t.status ≡ 1
      → holds status ≡ 0
      → IsSound parses s.log
      → HasStatus parses s.log t.message status
      → Kept t s (with_status status t, release s)
  unfolding with_status release
  release-Kept status t s b f i h = record {
    message = refl;
    account = omega (arith, b, f);
    grown = λ x l. l;
    sound = i;
    task = h;
  }

  withdraw-Kept :
      (t : Task) (s : Shared)
      → t.status ≡ waiting
      → IsSound parses s.log
      → Kept t s (with_status withdrawn t, s)
  unfolding with_status
  withdraw-Kept t s w i = record {
    message = refl;
    account = ground arith;
    grown = λ x l. l;
    sound = i;
    task = tt;
  }

  admit-Kept :
      (t : Task) (s : Shared)
      → t.status ≡ waiting
      → IsSound parses s.log
      → IsTask parses s.log t
      → Kept t s (if ltb 0 s.permits then begin parses t s else (t, s))
  admit-Kept t s w i h =
      if_cases (Kept t s) (ltb 0 s.permits) (begin parses t s) (t, s) (λ p. begin-Kept t s w p i)
        (λ p. stay-Kept t s i h)

  acquire-Kept :
      (reply : Reply) (t : Task) (s : Shared)
      → t.status ≡ waiting
      → IsSound parses s.log
      → IsTask parses s.log t
      → Kept t s (acquire parses reply t s)
  unfolding acquire
  acquire-Kept (raised cancelled) t s w i h = withdraw-Kept t s w i
  acquire-Kept _ t s w i h = admit-Kept t s w i h

  acked-Kept :
      (text : String) (t : Task) (s : Shared)
      → t.status ≡ handling text
      → IsSound parses s.log
      → IsCalling parses s.log t.message text
      → Kept t s (
        with_status acking t,
        note (ack t.message.message_id) (note (handled t.message.message_id text) s),
      )
  unfolding with_status note
  acked-Kept text t s w i (p, q, l) = record {
    message = refl;
    account = ground arith;
    grown = λ x h. inr (inr h);
    sound = (inl (text, inl refl), ((p, l), i));
    task = (text, q, inr (inr l));
  }

  after_handler-Kept :
      (text : String) (reply : Reply) (t : Task) (s : Shared)
      → t.status ≡ handling text
      → IsSound parses s.log
      → IsCalling parses s.log t.message text
      → Kept t s (after_handler parses text reply t s)
  unfolding after_handler
  after_handler-Kept text (raised cancelled) t s w i h =
      release-Kept withdrawn t s (ap holds w) refl i tt
  after_handler-Kept text (raised timeout) t s w i (p, q, l) =
      release-Kept ended t s (ap holds w) refl i (text, q, l)
  after_handler-Kept text (raised failed) t s w i (p, q, l) =
      release-Kept ended t s (ap holds w) refl i (text, q, l)
  after_handler-Kept text _ t s w i h = acked-Kept text t s w i h

  after_ack-Kept :
      (reply : Reply) (t : Task) (s : Shared)
      → t.status ≡ acking
      → IsSound parses s.log
      → WasCalled parses s.log t.message
      → Kept t s (after_ack parses reply t s)
  unfolding after_ack
  after_ack-Kept (raised cancelled) t s w i h = release-Kept withdrawn t s (ap holds w) refl i tt
  after_ack-Kept _ t s w i h = release-Kept ended t s (ap holds w) refl i h

  -- Every step of a task is such.
  task_step-Kept :
      (status : TaskStatus) (reply : Reply) (t : Task) (s : Shared)
      → t.status ≡ status
      → IsSound parses s.log
      → HasStatus parses s.log t.message status
      → IsTask parses s.log t
      → Kept t s (task_step parses status reply t s)
  unfolding task_step
  task_step-Kept waiting reply t s w i h k = acquire-Kept reply t s w i k
  task_step-Kept (handling text) reply t s w i h k = after_handler-Kept text reply t s w i h
  task_step-Kept acking reply t s w i h k = after_ack-Kept reply t s w i h
  task_step-Kept ended reply t s w i h k = stay-Kept t s i k
  task_step-Kept broken reply t s w i h k = stay-Kept t s i k
  task_step-Kept withdrawn reply t s w i h k = stay-Kept t s i k

  -- The same of a list of tasks.
  pub record AllKept (tasks : List Task) (s : Shared) (r : List Task × Shared) : Type 0 where
    pub account : busy r.0 + r.1.permits ≡ busy tasks + s.permits
    pub grown : Extends s.log r.1.log
    pub sound : IsSound parses r.1.log
    pub each : All (IsTask parses r.1.log) r.0

  pub step_at-AllKept :
      (i : ℕ) (reply : Reply) (tasks : List Task) (s : Shared)
      → IsSound parses s.log
      → All (IsTask parses s.log) tasks
      → AllKept tasks s (step_at parses i reply tasks s)
  unfolding step_at busy
  step_at-AllKept i reply [] s k h = record {
    account = refl;
    grown = λ x l. l;
    sound = k;
    each = tt;
  }
  step_at-AllKept zero reply (t ∷ tasks) s k (h, hs) =
      let kept = task_step-Kept t.status reply t s refl k h h in
      record {
        account = omega (arith, kept.account);
        grown = kept.grown;
        sound = kept.sound;
        each = (
          kept.task,
          All-IsTask-mono parses s.log (task_step parses t.status reply t s).1.log tasks kept.grown
              hs,
        );
      }
  step_at-AllKept (suc i) reply (t ∷ tasks) s k (h, hs) =
      let kept = step_at-AllKept i reply tasks s k hs in
      record {
        account = omega (arith, kept.account);
        grown = kept.grown;
        sound = kept.sound;
        each = (
          HasStatus-mono parses s.log (step_at parses i reply tasks s).1.log t.message t.status
              kept.grown h,
          kept.each,
        );
      }
