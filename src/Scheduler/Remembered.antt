-- ===== src/Scheduler/Remembered.antt =====
-- What the queue remembers of a request, and its answer to the next one (`enqueueSyncRequest`,
-- gitrank/services/scheduler-worker/internal/service/service.go).
use text.Mathlib.Text.{◌==◌ as str_eq}
use gitrank.Common.{
  eq_iff, ◌≡◌, ◌⊎◌, ap, refl, ◌∙◌, sym, inl, inr, Bool, true, false, ◌&&◌, Option, none, some, List,
  [], ◌∷◌, String, arith,
}
use gitrank.Common.Clock.{Time}
use gitrank.Store.Jobs.{QueueJob, Result, ok, err}
use gitrank.Store.Queue.State.{JobQueue, reap, reap_job}
use gitrank.Store.Queue.Admission.{duplicates, find_duplicate, enqueue_unique}
use gitrank.Store.Queue.Duplicates.{
  find_duplicate-key, find_duplicate-reap, enqueue_unique-found, enqueue_unique-again,
}
use gitrank.Store.Queue.History.{IsNew}
use gitrank.Scheduler.State.{Scheduler, Refusal, done}
use gitrank.Scheduler.Enqueue.{Enqueued, enqueue_jobs, answer, admit}

-- The queue holds an active job with the key of `job`, and the response names it.
pub record Remembers (job : QueueJob) (q : JobQueue) (e : Enqueued) : Type 0 where
  pub entry : QueueJob
  pub found : find_duplicate job q.jobs ≡ some entry
  pub named : e.job_ids ≡ entry.id ∷ []

Result-cases : {A : Type 0} (r : Result A) → ((a : A) × (r ≡ ok a)) ⊎ ((e : _) × (r ≡ err e))
Result-cases (ok a) = inl (a, refl)
Result-cases (err e) = inr (e, refl)

enqueue_jobs-one :
    (job entry : QueueJob) (duplicate : Bool) (q : JobQueue)
    → (enqueue_unique job q).1 ≡ ok (entry, duplicate)
    → enqueue_jobs (job ∷ []) q ≡ ((enqueue_unique job q).0, ok (entry.id ∷ [], duplicate && true))
unfolding enqueue_jobs
enqueue_jobs-one job entry duplicate q r = rw (r, enqueue_jobs) refl

answer-queue :
    (correlation : String) (now : Time) (s : Scheduler) (r : JobQueue × Result (List String × Bool))
    → (answer correlation now s r).0.queue ≡ r.0
unfolding answer
answer-queue correlation now s (q, err e) = refl
answer-queue correlation now s (q, ok (ids, all)) = refl

answer-Remembers :
    (correlation : String) (now : Time) (s : Scheduler) (job : QueueJob) (e : Enqueued)
    → duplicates job job ≡ true
    → (answer correlation now s (enqueue_jobs (job ∷ []) s.queue)).1 ≡ done e
    → Remembers job (answer correlation now s (enqueue_jobs (job ∷ []) s.queue)).0.queue e
unfolding answer enqueue_jobs
answer-Remembers correlation now s job e self h =
    elim (Result-cases (enqueue_unique job s.queue).1) [
      | inl ((entry, duplicate), r) ↦
          let found = enqueue_unique-found job entry duplicate s.queue self r in
          record {
            entry = entry;
            found =
                rw
                  (
                    answer-queue correlation now s (enqueue_jobs (job ∷ []) s.queue),
                    enqueue_jobs-one job entry duplicate s.queue r,
                  )
                  found;
            named = ground arith;
          }
      | inr (x, r) ↦ ground arith
    ]

-- The answer to a request for a job that the queue remembers
pub record IsRepeat (q : JobQueue) (e again : Enqueued) (next : JobQueue) : Type 0 where
  pub deduplicated : again.deduplicated ≡ true
  pub same_ids : again.job_ids ≡ e.job_ids
  pub same_queue : next ≡ q

answer-IsRepeat :
    (correlation : String) (now : Time) (s : Scheduler) (job : QueueJob) (e again : Enqueued)
    → Remembers job s.queue e
    → (answer correlation now s (enqueue_jobs (job ∷ []) s.queue)).1 ≡ done again
    → IsRepeat s.queue e again (answer correlation now s (enqueue_jobs (job ∷ []) s.queue)).0.queue
unfolding answer enqueue_jobs
answer-IsRepeat correlation now s job e again known h =
    elim (enqueue_unique-again job known.entry s.queue known.found) [
      | inl refusal ↦ ground arith
      | inr same ↦ record {
        deduplicated = ground arith;
        same_ids = ground (arith, known.named);
        same_queue =
            rw
              (
                answer-queue correlation now s (enqueue_jobs (job ∷ []) s.queue),
                enqueue_jobs-one job known.entry true s.queue (ap (λ o. o.1) same),
              )
              (ap (λ o. o.0) same);
      }
    ]

pub admit-Remembers :
    (correlation : String) (now : Time) (r : Scheduler × Option Refusal) (job : QueueJob)
    (e : Enqueued)
    → duplicates job job ≡ true
    → (admit (job ∷ []) correlation now r).1 ≡ done e
    → Remembers job (admit (job ∷ []) correlation now r).0.queue e
unfolding admit
admit-Remembers correlation now (s, some refusal) job e self h = ground arith
admit-Remembers correlation now (s, none) job e self h =
    answer-Remembers correlation now s job e self h

pub admit-IsRepeat :
    (correlation : String) (now : Time) (r : Scheduler × Option Refusal) (job : QueueJob)
    (e again : Enqueued)
    → Remembers job r.0.queue e
    → (admit (job ∷ []) correlation now r).1 ≡ done again
    → IsRepeat r.0.queue e again (admit (job ∷ []) correlation now r).0.queue
unfolding admit
admit-IsRepeat correlation now (s, some refusal) job e again known h = ground arith
admit-IsRepeat correlation now (s, none) job e again known h =
    answer-IsRepeat correlation now s job e again known h

pub duplicates-itself :
    (job : QueueJob) → str_eq job.dedupe_key "" ≡ false → IsNew job → duplicates job job ≡ true
duplicates-itself job keyed new =
    rw (keyed, (eq_iff job.dedupe_key job.dedupe_key).1 refl, new.queued) refl

-- Another job with the same key, once expired leases have been given back
pub Remembers-reap :
    (job other : QueueJob) (now : Time) (q : JobQueue) (e : Enqueued)
    → job.dedupe_key ≡ other.dedupe_key
    → Remembers job q e
    → Remembers other (reap now q) e
unfolding reap reap_job
Remembers-reap job other now q e same known = record {
  entry = reap_job now known.entry;
  found =
      find_duplicate-reap other now q.jobs known.entry
        (find_duplicate-key other job q.jobs (sym same) ∙ known.found);
  named = ground (arith, known.named);
}
