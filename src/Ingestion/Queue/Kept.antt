-- ===== src/Ingestion/Queue/Kept.antt =====
-- Every step of the polling loop keeps the account of the semaphore and the soundness of the log.
use inherent.Prelude.{
  ℕ, ◌+◌, String, ◌≡◌, refl, inl, inr, Bool, true, List, [], ◌∷◌, ◌++◌, map, All, arith, if_cases,
}
use inherent.Ingestion.Queue.Tasks.{Message, Event, read, claim, called, Task, note}
use inherent.Ingestion.Queue.Loop.{
  Origin, Phase, polling, gathering, claiming, serving, sleeping, stopped, Service, await,
  log_event, poll, poll_error, task_of, dispatch, has_status, start_claim, await_batch, is_broken,
  is_withdrawn, is_unfinished, serve,
}
use inherent.Ingestion.Queue.Log.{
  Logged, Justifies, IsSound, IsTask, All-IsTask-mono, busy, busy-append,
}

All-append {ℓ κ} :
    {A : Type ℓ} (P : A → Type κ) (xs ys : List A) → All P xs → All P ys → All P (xs ++ ys)
All-append P [] ys h k = k
All-append P (x ∷ xs) ys (p, h) k = (p, All-append P xs ys h k)

module _ (parses : String → Bool) (limit : ℕ) where
  -- The permits that are free and those that tasks hold make up the limit, and the log is sound.
  pub record Fits (v : Service) : Type 0 where
    pub account : busy v.batch + busy v.strays + v.shared.permits ≡ limit
    pub sound : IsSound parses v.shared.log
    pub batch : All (IsTask parses v.shared.log) v.batch
    pub strays : All (IsTask parses v.shared.log) v.strays

  -- What the log says of the message that the loop handles itself.
  abbrev pub IsPhase : List Event → Phase → Type 0
  IsPhase log (serving origin m text rest) =
      (parses text ≡ true) × Logged (called m.message_id text) log
  IsPhase log phase = Unit

  pub record Invariant (v : Service) : Type 0 where
    pub fits : Fits v
    pub phase : IsPhase v.shared.log v.phase

  pub log_event-Fits :
      (e : Event) (v : Service) → Justifies parses v.shared.log e → Fits v → Fits (log_event e v)
  unfolding log_event note
  log_event-Fits e v j f = record {
    account = f.account;
    sound = (j, f.sound);
    batch = All-IsTask-mono parses v.shared.log (e ∷ v.shared.log) v.batch (λ x. inr) f.batch;
    strays = All-IsTask-mono parses v.shared.log (e ∷ v.shared.log) v.strays (λ x. inr) f.strays;
  }

  pub await-Invariant :
      (phase : Phase) (v : Service)
      → IsPhase v.shared.log phase
      → Fits v
      → Invariant (await phase v)
  unfolding await
  await-Invariant phase v p f = record {
    fits = record { account = f.account; sound = f.sound; batch = f.batch; strays = f.strays };
    phase = p;
  }

  -- A batch is set aside, for new tasks that hold no permit.
  spill-Fits :
      (tasks : List Task) (v : Service)
      → busy tasks ≡ 0
      → All (IsTask parses v.shared.log) tasks
      → Fits v
      → Fits (record v { batch = tasks; strays = v.batch ++ v.strays })
  spill-Fits tasks v b h f = record {
    account = omega (arith, f.account, b, busy-append v.batch v.strays);
    sound = f.sound;
    batch = h;
    strays = All-append (IsTask parses v.shared.log) v.batch v.strays f.batch f.strays;
  }

  pub poll-Invariant : (v : Service) → Fits v → Invariant (poll v)
  unfolding poll
  poll-Invariant v f =
      if_cases Invariant v.running (await polling (log_event read v)) (await stopped v)
        (λ h. await-Invariant polling (log_event read v) tt (log_event-Fits read v tt f))
        (λ h. await-Invariant stopped v tt f)

  pub poll_error-Invariant : (v : Service) → Fits v → Invariant (poll_error v)
  unfolding poll_error busy
  poll_error-Invariant v f =
      let v' : Service = record v { batch = []; strays = v.batch ++ v.strays } in
      if_cases Invariant v.running (await sleeping v') (await stopped v')
        (λ h. await-Invariant sleeping v' tt (spill-Fits [] v refl tt f))
        (λ h. await-Invariant stopped v' tt (spill-Fits [] v refl tt f))

  busy-map : (messages : List Message) → busy (map task_of messages) ≡ 0
  unfolding busy task_of
  busy-map [] = refl
  busy-map (m ∷ messages) = omega (arith, busy-map messages)

  All-map :
      (log : List Event) (messages : List Message) → All (IsTask parses log) (map task_of messages)
  unfolding task_of
  All-map log [] = tt
  All-map log (m ∷ messages) = (tt, All-map log messages)

  pub dispatch-Invariant :
      (messages : List Message) (v : Service) → Fits v → Invariant (dispatch messages v)
  unfolding dispatch
  dispatch-Invariant [] v f = poll-Invariant v f
  dispatch-Invariant (m ∷ messages) v f =
      await-Invariant gathering
        (record v { batch = map task_of (m ∷ messages); strays = v.batch ++ v.strays }) tt
        (spill-Fits (map task_of (m ∷ messages)) v (busy-map (m ∷ messages))
          (All-map v.shared.log (m ∷ messages)) f)

  start_claim-Invariant : (v : Service) → Fits v → Invariant (start_claim v)
  unfolding start_claim
  start_claim-Invariant v f =
      await-Invariant claiming (log_event claim v) tt (log_event-Fits claim v tt f)

  pub await_batch-Invariant : (v : Service) → Invariant v → Invariant (await_batch v)
  unfolding await_batch
  await_batch-Invariant v i =
      if_cases Invariant (has_status is_withdrawn v.batch) _ _
        (λ h. await-Invariant stopped v tt i.fits)
        (λ h.
          if_cases Invariant (has_status is_broken v.batch) _ _ (λ h. poll_error-Invariant v i.fits)
            (λ h.
              if_cases Invariant (has_status is_unfinished v.batch) _ _ (λ h. i)
                (λ h. start_claim-Invariant v i.fits)))

  pub serve-Invariant :
      (origin : Origin) (m : Message) (rest : List Message) (text : String) (v : Service)
      → parses text ≡ true
      → Fits v
      → Invariant (serve parses origin m rest text v)
  unfolding serve log_event note
  serve-Invariant origin m rest text v p f =
      await-Invariant (serving origin m text rest) (log_event (called m.message_id text) v)
        (p, inl refl) (log_event-Fits (called m.message_id text) v p f)
