-- ===== src/Scheduler/Again.antt =====
-- A request that is enqueued again (`enqueueSyncRequest`,
-- gitrank/services/scheduler-worker/internal/service/service.go).
use gitrank.Common.{subst, ◌≡◌, ap, refl, ◌∙◌, sym, true, Option, List, [], ◌∷◌, String, arith}
use gitrank.Common.Clock.{Time}
use gitrank.Contracts.Sync.{SyncRequest}
use gitrank.Contracts.Modes.{normalize}
use gitrank.Store.Built.{build_sync_jobs-IsDraft, build_sync_jobs-key, key_of}
use gitrank.Store.Jobs.{Bytes, QueueJob}
use gitrank.Store.SyncJobs.{Payload, Built, built, failed, build_sync_jobs}
use gitrank.Store.Queue.State.{reap}
use gitrank.Store.Queue.Admission.{duplicates}
use gitrank.Scheduler.State.{SchedulerConfig, Scheduler, done, Draw}
use gitrank.Scheduler.Enqueue.{
  Enqueued, admit, enqueue_built, enqueue_sync_request, allow_scoped_rates, capture,
  primary_queue_name,
}
use gitrank.Scheduler.Rates.{allow_scoped_rates-Keeps}
use gitrank.Scheduler.Remembered.{
  Remembers, IsRepeat, admit-Remembers, admit-IsRepeat, duplicates-itself, Remembers-reap,
}

module _ (marshal : Payload → Option Bytes) (config : SchedulerConfig) where
  enqueue_built-done :
      (req : SyncRequest) (correlation : String) (now : Time) (s : Scheduler) (b : Built)
      (e : Enqueued)
      → (enqueue_built marshal config req correlation now s b).1 ≡ done e
      → (jobs : List QueueJob) × (b ≡ built jobs)
  unfolding enqueue_built
  enqueue_built-done req correlation now s (failed x) e h = ground arith
  enqueue_built-done req correlation now s (built jobs) e h = (jobs, refl)

  -- The job of a successful enqueue
  enqueued-job :
      (req : SyncRequest) (correlation : String) (now : Time) (draw : Draw) (s : Scheduler)
      (e : Enqueued)
      → (enqueue_sync_request marshal config req correlation now draw s).1 ≡ done e
      → (job : QueueJob) × (build_sync_jobs marshal draw.clock draw.new_id req primary_queue_name
            correlation config.max_attempts
          ≡ built (job ∷ []))
        × (duplicates job job ≡ true)
        × (job.dedupe_key ≡ key_of (normalize req))
  unfolding enqueue_sync_request
  enqueued-job req correlation now draw s e h =
      let b =
        build_sync_jobs marshal draw.clock draw.new_id req primary_queue_name correlation
          config.max_attempts in
      let (jobs, made) = enqueue_built-done req correlation now (capture draw.captured s) b e h in
      let (mode, job, alone, known) =
        build_sync_jobs-IsDraft marshal draw.clock draw.new_id req primary_queue_name correlation
          config.max_attempts jobs made in
      let made_one = made ∙ ap built alone in
      (
        job,
        made_one,
        duplicates-itself job known.known known.fresh,
        build_sync_jobs-key marshal draw.clock draw.new_id primary_queue_name correlation
            config.max_attempts req job made_one,
      )

  enqueue_built-Remembers :
      (req : SyncRequest) (correlation : String) (now : Time) (s : Scheduler) (b : Built)
      (job : QueueJob) (e : Enqueued)
      → b ≡ built (job ∷ [])
      → duplicates job job ≡ true
      → (enqueue_built marshal config req correlation now s b).1 ≡ done e
      → Remembers job (enqueue_built marshal config req correlation now s b).0.queue e
  unfolding enqueue_built
  enqueue_built-Remembers req correlation now s b job e made self h =
      let limited = allow_scoped_rates req now s in
      subst
        (λ b'.
          (enqueue_built marshal config req correlation now s b').1 ≡ done e
          → Remembers job (enqueue_built marshal config req correlation now s b').0.queue e)
        (sym made) (admit-Remembers correlation now limited job e self) h

  enqueue_built-IsRepeat :
      (req : SyncRequest) (correlation : String) (now : Time) (s : Scheduler) (b : Built)
      (job : QueueJob) (e again : Enqueued)
      → b ≡ built (job ∷ [])
      → Remembers job s.queue e
      → (enqueue_built marshal config req correlation now s b).1 ≡ done again
      → IsRepeat s.queue e again (enqueue_built marshal config req correlation now s b).0.queue
  unfolding enqueue_built
  enqueue_built-IsRepeat req correlation now s b job e again made known h =
      let limited = allow_scoped_rates req now s in
      let kept = (allow_scoped_rates-Keeps req now s).0 in
      subst
        (λ b'.
          (enqueue_built marshal config req correlation now s b').1 ≡ done again
          → IsRepeat s.queue e again
              (enqueue_built marshal config req correlation now s b').0.queue)
        (sym made)
        (λ g.
          subst
            (λ q.
              Remembers job q e
              → IsRepeat q e again (admit (job ∷ []) correlation now limited).0.queue)
            kept (λ k. admit-IsRepeat correlation now limited job e again k g) known)
        h

  -- A request that is enqueued a second time, with no other call between, is answered with the ids of
  -- the first answer and as deduplicated, if both calls succeed, at whatever times and under whatever
  -- correlation ids; it adds no job to the queue, which only gives its expired leases back.
  pub enqueue_sync_request-again :
      (req : SyncRequest) (first second : String) (now later : Time) (draw redraw : Draw)
      (s : Scheduler) (e again : Enqueued)
      → (enqueue_sync_request marshal config req first now draw s).1 ≡ done e
      → (enqueue_sync_request marshal config req second later redraw
          (enqueue_sync_request marshal config req first now draw s).0).1
        ≡ done again
      → IsRepeat
          (reap redraw.captured (enqueue_sync_request marshal config req first now draw s).0.queue)
          e
          again
          (enqueue_sync_request marshal config req second later redraw
            (enqueue_sync_request marshal config req first now draw s).0).0.queue
  unfolding enqueue_sync_request
  enqueue_sync_request-again req first second now later draw redraw s e again h h' =
      let served = (enqueue_sync_request marshal config req first now draw s).0 in
      let (job, made, self, key) = enqueued-job req first now draw s e h in
      let (job', made', self', key') = enqueued-job req second later redraw served again h' in
      let known =
        enqueue_built-Remembers req first now (capture draw.captured s) _ job e made self h in
      enqueue_built-IsRepeat req second later (capture redraw.captured served) _ job' e again made'
        (Remembers-reap job job' redraw.captured served.queue e (key ∙ sym key') known) h'
