-- ===== src/Ingestion/Queue/Phases.antt =====
-- The steps of the polling loop, phase by phase: each keeps the invariant.
use inherent.Prelude.{
  ℕ, String, ◌≡◌, refl, inl, inr, Bool, true, Option, some, none, List, [], ◌∷◌, if_cases, ltb,
  ltb→lt,
}
use inherent.Ingestion.Queue.Tasks.{
  Message, Reply, entries, times_delivered, raised, timeout, cancelled, failed, called, counted,
  handled, ack, parsed, is_tombstone, note,
}
use inherent.Ingestion.Queue.Loop.{
  Origin, recovery, reclaim, Phase, recovering, polling, gathering, claiming, counting, dropping,
  serving, confirming, gauging, sleeping, stopped, Service, max_deliveries, await, log_event, poll,
  poll_error, serve, next_pending, next_claimed, after_count, after_serving, recover, receive,
  claimed, counted_reply, dropped, served, confirmed, resume, loop_step,
}
use inherent.Ingestion.Queue.Log.{Logged, parsed-parses}
use inherent.Ingestion.Queue.Kept.{
  Fits, IsPhase, Invariant, log_event-Fits, await-Invariant, poll-Invariant, poll_error-Invariant,
  dispatch-Invariant, await_batch-Invariant, serve-Invariant,
}

module _ (parses : String → Bool) (limit : ℕ) where
  -- Where a payload that does not parse leads.
  serve_or-Invariant :
      (origin : Origin) (m : Message) (rest : List Message) (v other : Service)
      (text : Option String)
      → ((t : String) → text ≡ some t → parses t ≡ true)
      → Fits parses limit v
      → Invariant parses limit other
      → Invariant parses limit
          (elim text [ none ↦ other | some t ↦ serve parses origin m rest t v ])
  serve_or-Invariant origin m rest v other none p f o = o
  serve_or-Invariant origin m rest v other (some t) p f o =
      serve-Invariant parses limit origin m rest t v (p t refl) f

  next_pending-Invariant :
      (messages : List Message) (v : Service)
      → Fits parses limit v
      → Invariant parses limit (next_pending parses messages v)
  unfolding next_pending
  next_pending-Invariant [] v f = poll-Invariant parses limit v f
  next_pending-Invariant (m ∷ rest) v f =
      if_cases (Invariant parses limit) (is_tombstone m.fields) _ _
        (λ h. next_pending-Invariant rest v f)
        (λ h.
          serve_or-Invariant recovery m rest v (poll v) (parsed parses m.fields)
            (parsed-parses parses m.fields) f (poll-Invariant parses limit v f))

  next_claimed-Invariant :
      (messages : List Message) (v : Service)
      → Fits parses limit v
      → Invariant parses limit (next_claimed parses messages v)
  unfolding next_claimed
  next_claimed-Invariant [] v f = await-Invariant parses limit gauging v tt f
  next_claimed-Invariant (m ∷ rest) v f =
      if_cases (Invariant parses limit) (is_tombstone m.fields) _ _
        (λ h. next_claimed-Invariant rest v f)
        (λ h. await-Invariant parses limit (counting m rest) v tt f)

  after_count-Invariant :
      (m : Message) (rest : List Message) (n : ℕ) (v : Service)
      → Fits parses limit v
      → Invariant parses limit (after_count parses m rest n v)
  unfolding after_count
  after_count-Invariant m rest n v f =
      let v' = log_event (counted m.message_id n) v in
      let f' = log_event-Fits parses limit (counted m.message_id n) v tt f in
      if_cases (Invariant parses limit) (ltb max_deliveries n) _ _
        (λ h. await-Invariant parses limit (dropping rest) (log_event (ack m.message_id) v') tt (
          log_event-Fits parses limit (ack m.message_id) v'
            (inr (n, ltb→lt max_deliveries n h, logged v)) f'))
        (λ h.
          serve_or-Invariant reclaim m rest v' (poll_error v') (parsed parses m.fields)
            (parsed-parses parses m.fields) f' (poll_error-Invariant parses limit v' f'))
    where
      logged :
          (v : Service)
          → Logged (counted m.message_id n) (log_event (counted m.message_id n) v).shared.log
      logged v = inl refl

  after_serving-Invariant :
      (origin : Origin) (rest : List Message) (v : Service)
      → Fits parses limit v
      → Invariant parses limit (after_serving parses origin rest v)
  unfolding after_serving
  after_serving-Invariant recovery rest v f = next_pending-Invariant rest v f
  after_serving-Invariant reclaim rest v f = next_claimed-Invariant rest v f

  recover-Invariant :
      (reply : Reply) (v : Service)
      → Fits parses limit v
      → Invariant parses limit (recover parses reply v)
  unfolding recover
  recover-Invariant (raised cancelled) v f = await-Invariant parses limit stopped v tt f
  recover-Invariant (entries messages) v f = next_pending-Invariant messages v f
  recover-Invariant _ v f = poll-Invariant parses limit v f

  receive-Invariant :
      (reply : Reply) (v : Service)
      → Fits parses limit v
      → Invariant parses limit (receive parses reply v)
  unfolding receive
  receive-Invariant (raised cancelled) v f = await-Invariant parses limit stopped v tt f
  receive-Invariant (raised failed) v f = poll_error-Invariant parses limit v f
  receive-Invariant (entries messages) v f = dispatch-Invariant parses limit messages v f
  receive-Invariant _ v f = poll-Invariant parses limit v f

  claimed-Invariant :
      (reply : Reply) (v : Service)
      → Fits parses limit v
      → Invariant parses limit (claimed parses reply v)
  unfolding claimed
  claimed-Invariant (raised cancelled) v f = await-Invariant parses limit stopped v tt f
  claimed-Invariant (entries messages) v f = next_claimed-Invariant messages v f
  claimed-Invariant _ v f = await-Invariant parses limit gauging v tt f

  counted_reply-Invariant :
      (m : Message) (rest : List Message) (reply : Reply) (v : Service)
      → Fits parses limit v
      → Invariant parses limit (counted_reply parses m rest reply v)
  unfolding counted_reply
  counted_reply-Invariant m rest (raised cancelled) v f =
      await-Invariant parses limit stopped v tt f
  counted_reply-Invariant m rest (times_delivered (some n)) v f = after_count-Invariant m rest n v f
  counted_reply-Invariant m rest _ v f = after_count-Invariant m rest 1 v f

  dropped-Invariant :
      (rest : List Message) (reply : Reply) (v : Service)
      → Fits parses limit v
      → Invariant parses limit (dropped parses rest reply v)
  unfolding dropped
  dropped-Invariant rest (raised cancelled) v f = await-Invariant parses limit stopped v tt f
  dropped-Invariant rest (raised timeout) v f = poll_error-Invariant parses limit v f
  dropped-Invariant rest (raised failed) v f = poll_error-Invariant parses limit v f
  dropped-Invariant rest _ v f = next_claimed-Invariant rest v f

  acked-Invariant :
      (origin : Origin) (m : Message) (text : String) (rest : List Message) (v : Service)
      → (parses text ≡ true) × Logged (called m.message_id text) v.shared.log
      → Fits parses limit v
      → Invariant parses limit (
          await
            (confirming origin rest)
            (log_event (ack m.message_id) (log_event (handled m.message_id text) v)))
  unfolding log_event note
  acked-Invariant origin m text rest v h f =
      let v' = log_event (handled m.message_id text) v in
      await-Invariant parses limit (confirming origin rest) (log_event (ack m.message_id) v') tt (
        log_event-Fits parses limit (ack m.message_id) v' (inl (text, inl refl))
          (log_event-Fits parses limit (handled m.message_id text) v h f))

  served-Invariant :
      (origin : Origin) (m : Message) (text : String) (rest : List Message) (reply : Reply)
      (v : Service)
      → (parses text ≡ true) × Logged (called m.message_id text) v.shared.log
      → Fits parses limit v
      → Invariant parses limit (served parses origin m text rest reply v)
  unfolding served
  served-Invariant origin m text rest (raised cancelled) v h f =
      await-Invariant parses limit stopped v tt f
  served-Invariant origin m text rest (raised timeout) v h f =
      after_serving-Invariant origin rest v f
  served-Invariant origin m text rest (raised failed) v h f =
      after_serving-Invariant origin rest v f
  served-Invariant origin m text rest _ v h f = acked-Invariant origin m text rest v h f

  confirmed-Invariant :
      (origin : Origin) (rest : List Message) (reply : Reply) (v : Service)
      → Fits parses limit v
      → Invariant parses limit (confirmed parses origin rest reply v)
  unfolding confirmed
  confirmed-Invariant origin rest (raised cancelled) v f =
      await-Invariant parses limit stopped v tt f
  confirmed-Invariant origin rest _ v f = after_serving-Invariant origin rest v f

  resume-Invariant :
      (reply : Reply) (v : Service)
      → Fits parses limit v
      → Invariant parses limit (resume parses reply v)
  unfolding resume
  resume-Invariant (raised cancelled) v f = await-Invariant parses limit stopped v tt f
  resume-Invariant _ v f = poll-Invariant parses limit v f

  gathering-Invariant :
      (reply : Reply) (v : Service)
      → Invariant parses limit v
      → Invariant parses limit (loop_step parses gathering reply v)
  unfolding loop_step
  gathering-Invariant (raised cancelled) v i = await-Invariant parses limit stopped v tt i.fits
  gathering-Invariant _ v i = await_batch-Invariant parses limit v i

  pub loop_step-Invariant :
      (phase : Phase) (reply : Reply) (v : Service)
      → IsPhase parses limit v.shared.log phase
      → Invariant parses limit v
      → Invariant parses limit (loop_step parses phase reply v)
  unfolding loop_step
  loop_step-Invariant recovering reply v h i = recover-Invariant reply v i.fits
  loop_step-Invariant polling reply v h i = receive-Invariant reply v i.fits
  loop_step-Invariant gathering reply v h i = gathering-Invariant reply v i
  loop_step-Invariant claiming reply v h i = claimed-Invariant reply v i.fits
  loop_step-Invariant (counting m rest) reply v h i = counted_reply-Invariant m rest reply v i.fits
  loop_step-Invariant (dropping rest) reply v h i = dropped-Invariant rest reply v i.fits
  loop_step-Invariant (serving origin m text rest) reply v h i =
      served-Invariant origin m text rest reply v h i.fits
  loop_step-Invariant (confirming origin rest) reply v h i =
      confirmed-Invariant origin rest reply v i.fits
  loop_step-Invariant gauging reply v h i = resume-Invariant reply v i.fits
  loop_step-Invariant sleeping reply v h i = resume-Invariant reply v i.fits
  loop_step-Invariant stopped reply v h i = i
