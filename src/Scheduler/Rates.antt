-- ===== src/Scheduler/Rates.antt =====
-- What `allowScopedRates` and `enqueueSyncRequest` leave alone
-- (gitrank/services/scheduler-worker/internal/service/service.go).
use text.Mathlib.Text.{◌==◌ as str_eq}
use gitrank.Common.{
  ◌≡◌, refl, ◌∙◌, inl, inr, Bool, true, false, Bool-cases, String, Option, none, some, List,
  trim_space,
}
use gitrank.Common.Clock.{Time, Duration}
use gitrank.Common.Words.{itoa}
use gitrank.Contracts.Sync.{SyncRequest}
use gitrank.Store.Jobs.{Bytes, QueueJob, Result, ok, err}
use gitrank.Store.SyncJobs.{Payload, positive, Built, built, failed, build_sync_jobs}
use gitrank.Store.Queue.State.{JobQueue}
use gitrank.RateLimits.Scoped.{ScopeRateLimiter, allow}
use gitrank.Scheduler.State.{SchedulerConfig, Scheduler, BackfillPlan, Refusal, Draw}
use gitrank.Scheduler.Enqueue.{
  judged, allow_user, allow_installation, then_installation, allow_scoped_rates, capture, answer,
  admit, enqueue_built, enqueue_sync_request, enqueue_jobs, record_rate_limited, primary_queue_name,
}

-- The queue and the plans are left alone.
abbrev Keeps : JobQueue → List BackfillPlan → Scheduler → Type 0
Keeps q plans s = (s.queue ≡ q) × (s.plans ≡ plans)

judged-Keeps :
    (scope key : String) (answer : ScopeRateLimiter × Bool × Duration)
    (keep : ScopeRateLimiter → Scheduler) (q : JobQueue) (plans : List BackfillPlan)
    → ((limiter : ScopeRateLimiter) → Keeps q plans (keep limiter))
    → Keeps q plans (judged scope key answer keep).0
unfolding record_rate_limited
judged-Keeps scope key (limiter, true, delay) keep q plans h = h limiter
judged-Keeps scope key (limiter, false, delay) keep q plans h = h limiter

allow_user-Keeps :
    (req : SyncRequest) (now : Time) (s : Scheduler)
    → Keeps s.queue s.plans (allow_user req now s).0
unfolding allow_user
allow_user-Keeps req now s = elim (Bool-cases (str_eq (trim_space req.user) "")) [
  | inl blank ↦ rw blank (refl, refl)
  | inr given ↦ rw given (
      judged-Keeps "user" (trim_space req.user) (allow (trim_space req.user) now s.user_limiter)
        (λ limiter. record s { user_limiter = limiter }) s.queue s.plans (λ limiter. (refl, refl)))
]

allow_installation-Keeps :
    (req : SyncRequest) (now : Time) (s : Scheduler)
    → Keeps s.queue s.plans (allow_installation req now s).0
unfolding allow_installation
allow_installation-Keeps req now s = elim (Bool-cases (positive req.installation_id)) [
  | inl given ↦ rw given (
      judged-Keeps "installation" (itoa req.installation_id)
        (allow (itoa req.installation_id) now s.installation_limiter)
        (λ limiter. record s { installation_limiter = limiter }) s.queue s.plans
        (λ limiter. (refl, refl)))
  | inr absent ↦ rw absent (refl, refl)
]

then_installation-Keeps :
    (req : SyncRequest) (now : Time) (r : Scheduler × Option Refusal)
    → Keeps r.0.queue r.0.plans (then_installation req now r).0
then_installation-Keeps req now (s, some refusal) = (refl, refl)
then_installation-Keeps req now (s, none) = allow_installation-Keeps req now s

pub allow_scoped_rates-Keeps :
    (req : SyncRequest) (now : Time) (s : Scheduler)
    → Keeps s.queue s.plans (allow_scoped_rates req now s).0
unfolding allow_scoped_rates
allow_scoped_rates-Keeps req now s =
    let user = allow_user-Keeps req now s in
    let both = then_installation-Keeps req now (allow_user req now s) in
    (both.0 ∙ user.0, both.1 ∙ user.1)

answer-plans :
    (correlation : String) (now : Time) (s : Scheduler) (r : JobQueue × Result (List String × Bool))
    → (answer correlation now s r).0.plans ≡ s.plans
unfolding answer
answer-plans correlation now s (q, err e) = refl
answer-plans correlation now s (q, ok (ids, all)) = refl

admit-plans :
    (jobs : List QueueJob) (correlation : String) (now : Time) (r : Scheduler × Option Refusal)
    → (admit jobs correlation now r).0.plans ≡ r.0.plans
unfolding admit
admit-plans jobs correlation now (s, some refusal) = refl
admit-plans jobs correlation now (s, none) =
    answer-plans correlation now s (enqueue_jobs jobs s.queue)

module _ (marshal : Payload → Option Bytes) (config : SchedulerConfig) where
  enqueue_built-plans :
      (req : SyncRequest) (correlation : String) (now : Time) (s : Scheduler) (b : Built)
      → (enqueue_built marshal config req correlation now s b).0.plans ≡ s.plans
  unfolding enqueue_built
  enqueue_built-plans req correlation now s (failed e) = refl
  enqueue_built-plans req correlation now s (built jobs) =
      admit-plans jobs correlation now (allow_scoped_rates req now s)
      ∙ (allow_scoped_rates-Keeps req now s).1

  pub enqueue_sync_request-plans :
      (req : SyncRequest) (correlation : String) (now : Time) (draw : Draw) (s : Scheduler)
      → (enqueue_sync_request marshal config req correlation now draw s).0.plans ≡ s.plans
  unfolding enqueue_sync_request
  enqueue_sync_request-plans req correlation now draw s =
      enqueue_built-plans req correlation now (capture draw.captured s) (
        build_sync_jobs marshal draw.clock draw.new_id req primary_queue_name correlation
          config.max_attempts)
