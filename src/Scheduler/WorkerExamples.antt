-- ===== src/Scheduler/WorkerExamples.antt =====
-- Small runs of the worker (gitrank/services/scheduler-worker/internal/service/runner.go).
use gitrank.Common.{refl, suc, zero, ℕ, ◌≡◌, true, Option, none, some, String, List, [], ◌∷◌, All}
use gitrank.Common.Int.{pos}
use gitrank.Contracts.Sync.{SyncRequest}
use gitrank.Store.Jobs.{Bytes, already_terminal}
use gitrank.Store.Queue.State.{new_job_queue}
use gitrank.Store.Queue.Dedupe.{KeysUnique}
use gitrank.Store.Queue.Lifecycle.{HasBudget}
use gitrank.Scheduler.State.{refused, store_refused, new_service}
use gitrank.Scheduler.Requests.{enqueues, creates_plan, ticks, cancels}
use gitrank.Scheduler.Reaches.{Reaches}
use gitrank.Scheduler.Decode.{RunError, service_failed, Attempt, fine, broken}
use gitrank.Scheduler.Execute.{Runners, ServiceCall}
use gitrank.Scheduler.Runs.{lease_next_executable_job, Worker, run_next, new_execution_counters}
use gitrank.Scheduler.Worked.{
  Event, serves, runs, begins, ends, serve_all, serve_all-Reaches, work_all, new_worker,
  work_all-Reaches, worked-IsSound,
}
use gitrank.Scheduler.Settles.{Rests, run_next-Rests}
use gitrank.Scheduler.Samples.{
  blank, config, draw_a, draw_b, draws, parse, user_job, user_sync, verbatim,
}

-- Services that count their calls, and fail each third one.
abbrev answering : ServiceCall → String → ℕ → ℕ × Attempt String
answering call correlation zero = (1, fine "done")
answering call correlation (suc zero) = (2, fine "done")
answering call correlation (suc (suc n)) = (0, broken (service_failed "down"))

abbrev reading : Bytes → Option SyncRequest
reading payload = some user_sync

abbrev texts : RunError → String
texts (service_failed text) = text
texts e = "job failed"

abbrev all_runners : Runners
all_runners = record {
  repository = true;
  analysis = true;
  score = true;
  profile = true;
  report = true;
  leaderboard = true;
  backfill_weeks = pos 4;
}

abbrev events : List (Event ℕ String)
events =
    serves (enqueues user_sync "c" 100 draw_a)
    ∷ runs 200 200 210 draw_b (enqueues user_sync "d" 205 draw_b ∷ [])
    ∷ serves (
        creates_plan
          (record { name = "nightly"; cron = ""; enabled = none; targets = user_sync ∷ [] }) 300
          draw_b)
    ∷ begins 3000 3000
    ∷ serves (ticks 4000 draws)
    ∷ ends user_job 4010 draw_a (fine []) 0
    ∷ []

abbrev worked : Worker ℕ
worked =
    work_all answering reading texts all_runners parse blank verbatim config (new_worker config 0)
      events

work_all-Reaches_example : Reaches verbatim (new_service config).queue worked.scheduler.queue
work_all-Reaches_example =
    work_all-Reaches answering reading texts all_runners parse blank verbatim config
      (new_worker config 0) events

worked-IsSound_example :
    KeysUnique worked.scheduler.queue.jobs × All HasBudget worked.scheduler.queue.jobs
worked-IsSound_example =
    worked-IsSound answering reading texts all_runners parse blank verbatim config 0 events

abbrev waiting : Worker ℕ
waiting = record {
  scheduler = record (new_service config) { queue = record new_job_queue { jobs = user_job ∷ [] } };
  runs = new_execution_counters;
  world = 2;
}

-- The job is canceled while it is executed.
abbrev canceling : Worker ℕ → Worker ℕ
canceling =
    serve_all answering reading texts all_runners parse blank verbatim config
      (cancels user_job.id draw_a ∷ [])

run_next-Rests_example :
    Rests waiting.scheduler.queue
      (lease_next_executable_job config 200 200 waiting.scheduler.queue).1
      (run_next answering reading texts all_runners config canceling 200 200 210 draw_b waiting)
run_next-Rests_example =
    run_next-Rests answering reading texts all_runners config verbatim canceling
      (serve_all-Reaches answering reading texts all_runners parse blank verbatim config
        (cancels user_job.id draw_a ∷ []))
      200 200 210 draw_b waiting

-- The services fail the job, which is canceled by then, so that the run is refused.
run_next_canceled :
    (run_next answering reading texts all_runners config canceling 200 200 210 draw_b waiting).1
    ≡ refused (store_refused already_terminal)
unfolding run_next serve_all gitrank.Store.Queue.State.reap gitrank.Store.Queue.Leases.lease_job
    gitrank.Store.Queue.State.find_job gitrank.Common.trim_space
    gitrank.Scheduler.Actions.fail_job_call gitrank.Scheduler.Actions.should_dead_letter_immediately
    gitrank.Common.Words.to_lower gitrank.Common.Words.contains gitrank.Scheduler.Requests.serve
    gitrank.Scheduler.Actions.cancel_job_call
run_next_canceled = refl
