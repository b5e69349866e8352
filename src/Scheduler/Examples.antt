-- ===== src/Scheduler/Examples.antt =====
-- Small runs of the scheduler (gitrank/services/scheduler-worker/internal/service).
use gitrank.Common.{
  ◌+◌, ◌≡◌, refl, true, false, inr, Option, none, some, String, [], ◌∷◌, All, arith, length,
  trim_space,
}
use gitrank.Common.Int.{pos}
use gitrank.Contracts.Sync.{normalize_github_login, is_login}
use gitrank.Common.Words.{to_lower}
use gitrank.Contracts.Modes.{normalize}
use gitrank.Store.Jobs.{QueueJob, new_queue_job}
use gitrank.Store.SyncJobs.{built, build_sync_jobs, lacks}
use text.Mathlib.Text.{◌==◌ as str_eq}
use gitrank.Store.Queue.History.{IsNew}
use gitrank.Store.Typed.{listed, job_types, build_sync_jobs-listed}
use gitrank.Store.Queue.State.{reap}
use gitrank.Scheduler.State.{Scheduler, BackfillPlan, done, new_service, find_plan}
use gitrank.RateLimits.Scoped.{allow, judge}
use gitrank.Store.Queue.Admission.{enqueue_unique, find_duplicate}
use gitrank.Scheduler.Enqueue.{
  Enqueued, enqueue_sync_request, allow_scoped_rates, allow_user, allow_installation,
}
use gitrank.Scheduler.Plans.{acted, plan_by_id, delete_backfill_plan}
use gitrank.Scheduler.Tick.{TickResponse, due_of, is_due, tick}
use gitrank.Scheduler.Dues.{Advances, tick-rests}
use gitrank.Scheduler.Accounts.{targets_of, tick-counts}
use gitrank.Scheduler.Remembered.{IsRepeat}
use gitrank.Scheduler.Again.{enqueue_sync_request-again}
use gitrank.Scheduler.Durable.{
  restore_plans, restore_durable_state, save_fails, zero_state, with_durable_mutation,
}
use gitrank.Scheduler.Atomic.{Commits, Holds, with_durable_mutation-Commits}
use gitrank.Scheduler.Deletes.{delete_backfill_plan-padded}
use gitrank.Scheduler.Samples.{
  blank, config, draw_a, draw_b, draws, parse, planned, user_job, user_plan, user_sync,
}

user_job_built :
    build_sync_jobs blank 101 "a" user_sync "github-sync" "c" (pos 3) ≡ built (user_job ∷ [])
unfolding build_sync_jobs normalize to_lower trim_space normalize_github_login is_login lacks
    new_queue_job
user_job_built = refl

build_sync_jobs-listed_example :
    (job : QueueJob) × (user_job ∷ [] ≡ job ∷ [])
    × (listed job_types (to_lower (trim_space user_sync.mode)) ≡ some job.type)
    × (job.id ≡ "a")
    × (str_eq job.dedupe_key "" ≡ false)
    × IsNew job
build_sync_jobs-listed_example =
    build_sync_jobs-listed blank 101 "a" user_sync "github-sync" "c" (pos 3) (user_job ∷ [])
      user_job_built

abbrev ticked : TickResponse
ticked = record {
  due_plans = 1;
  executed_plans = 1;
  queued_jobs = 1;
  deduplicated_jobs = 1;
  rate_limited_targets = 0;
  last_tick_at = 600;
}

tick_run : (tick blank config 600 draws planned).1 ≡ done ticked
unfolding tick new_service enqueue_sync_request build_sync_jobs normalize to_lower trim_space
    normalize_github_login is_login lacks new_queue_job allow_scoped_rates allow_user allow judge
    allow_installation enqueue_unique reap
tick_run = refl

abbrev enqueued : Enqueued
enqueued = record {
  job_ids = "a" ∷ [];
  deduplicated = false;
  correlation_id = "c";
  accepted_at = 100;
}

abbrev repeated : Enqueued
repeated = record {
  job_ids = "a" ∷ [];
  deduplicated = true;
  correlation_id = "d";
  accepted_at = 200;
}

first_run :
    (enqueue_sync_request blank config user_sync "c" 100 draw_a (new_service config)).1
    ≡ done enqueued
unfolding enqueue_sync_request new_service build_sync_jobs normalize to_lower trim_space
    normalize_github_login is_login lacks new_queue_job allow_scoped_rates allow_user allow judge
    allow_installation enqueue_unique reap
first_run = refl

second_run :
    (enqueue_sync_request blank config user_sync "d" 200 draw_b
      (enqueue_sync_request blank config user_sync "c" 100 draw_a (new_service config)).0).1
    ≡ done repeated
unfolding enqueue_sync_request new_service build_sync_jobs normalize to_lower trim_space
    normalize_github_login is_login lacks new_queue_job allow_scoped_rates allow_user allow judge
    allow_installation enqueue_unique reap find_duplicate
second_run = refl

enqueue_sync_request-again_example :
    IsRepeat
      (reap 200
        (enqueue_sync_request blank config user_sync "c" 100 draw_a (new_service config)).0.queue)
      enqueued
      repeated
      (enqueue_sync_request blank config user_sync "d" 200 draw_b
        (enqueue_sync_request blank config user_sync "c" 100 draw_a (new_service config)).0).0.queue
enqueue_sync_request-again_example =
    enqueue_sync_request-again blank config user_sync "c" "d" 100 200 draw_a draw_b
      (new_service config) enqueued repeated first_run second_run

tick-counts_example :
    (1 ≡ length (due_of 600 (user_plan ∷ [])))
    × (1 ≡ length (due_of 600 (user_plan ∷ [])))
    × (1 + 1 + 0 ≡ targets_of (due_of 600 (user_plan ∷ [])))
tick-counts_example = tick-counts blank config 600 draws planned ticked tick_run

abbrev run_user_plan : BackfillPlan
run_user_plan = record user_plan {
  last_run_at = some 600;
  next_run_at = 4200;
  updated_at = 600;
  last_correlation_id = "backfill:p:j";
  queued_jobs_total = 1;
  deduplicated_total = 1;
}

hourly-Advances : All Advances (user_plan ∷ [])
hourly-Advances = (λ now. inr (omega arith), tt)

found_run : find_plan "p" (tick blank config 600 draws planned).0.plans ≡ some run_user_plan
unfolding tick new_service enqueue_sync_request build_sync_jobs normalize to_lower trim_space
    normalize_github_login is_login lacks new_queue_job allow_scoped_rates allow_user allow judge
    allow_installation enqueue_unique reap find_plan
found_run = refl

tick-rests_example : is_due 600 run_user_plan ≡ false
tick-rests_example =
    tick-rests blank config 600 draws planned ticked "p" run_user_plan hourly-Advances tick_run
      found_run

found_plan : plan_by_id "p" planned ≡ some user_plan
unfolding plan_by_id trim_space
found_plan = refl

found_padded : plan_by_id " p" planned ≡ some user_plan
unfolding plan_by_id trim_space
found_padded = refl

absent_padded : find_plan " p" (user_plan ∷ []) ≡ none
unfolding find_plan
absent_padded = refl

delete_backfill_plan-padded_example :
    ((delete_backfill_plan " p" 600 draw_b planned).1 ≡ acted "deleted" user_plan 600)
    × (plan_by_id " p" (delete_backfill_plan " p" 600 draw_b planned).0 ≡ some user_plan)
delete_backfill_plan-padded_example =
    delete_backfill_plan-padded " p" 600 draw_b planned user_plan absent_padded found_padded

abbrev adding_plan : Scheduler → Scheduler × Option String
adding_plan s = (record s { plans = user_plan ∷ s.plans }, some "p")

no_plans : restore_plans parse zero_state.plans [] ≡ some []
unfolding restore_plans
no_plans = refl

with_durable_mutation-Commits_example :
    let restored = (restore_durable_state parse zero_state planned).0 in
    Holds zero_state [] restored
    × Commits 600 save_fails zero_state []
        (adding_plan restored)
        (with_durable_mutation parse adding_plan 600 save_fails zero_state planned)
with_durable_mutation-Commits_example =
    with_durable_mutation-Commits parse adding_plan 600 zero_state [] no_plans save_fails planned
      refl
