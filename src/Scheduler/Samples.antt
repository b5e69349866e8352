-- ===== src/Scheduler/Samples.antt =====
-- A configuration, a plan, a request and its job, for small runs of the scheduler
-- (gitrank/services/scheduler-worker/internal/service).
use gitrank.Common.{ℕ, ◌+◌, true, Option, none, some, String, [], ◌∷◌}
use gitrank.Common.Int.{pos}
use gitrank.Common.Clock.{Time}
use gitrank.Contracts.Sync.{SyncRequest}
use gitrank.Store.Jobs.{Bytes, QueueJob, pending}
use gitrank.Store.SyncJobs.{Payload}
use gitrank.Scheduler.State.{SchedulerConfig, Scheduler, BackfillPlan, Draw, new_service}

abbrev pub config : SchedulerConfig
config = record {
  sync_cron = "@hourly";
  max_attempts = pos 3;
  retry_backoff = pos 10;
  worker_concurrency = pos 2;
  lease_ttl = pos 100;
  per_user_rate_window = pos 1000;
  per_user_rate_max = pos 2;
  per_installation_rate_window = pos 1000;
  per_installation_rate_max = pos 2;
}

abbrev pub blank : Payload → Option Bytes
blank payload = some []

abbrev pub verbatim : Bytes → Option Bytes
verbatim payload = some payload

abbrev pub hourly : Time → Time
hourly now = 3600 + now

abbrev pub parse : String → Option (Time → Time)
parse expression = some hourly

abbrev pub user_sync : SyncRequest
user_sync = record {
  user = "Octocat";
  user_id = "";
  repository = "";
  mode = "user";
  installation_id = pos 0;
  number = pos 0;
  sha = "";
}

abbrev pub draw_a : Draw
draw_a = record { captured = 100; clock = 101; new_id = "a" }

abbrev pub draw_b : Draw
draw_b = record { captured = 200; clock = 201; new_id = "b" }

abbrev pub user_job : QueueJob
user_job = record {
  id = "a";
  queue_name = "github-sync";
  type = "sync.user_history";
  status = pending;
  correlation_id = "c";
  delivery_id = "";
  installation_id = pos 0;
  repository = "";
  subject = "octocat";
  dedupe_key = "user:octocat";
  attempt_count = 0;
  max_attempts = pos 3;
  scheduled_at = 101;
  not_before = 101;
  lease_expires_at = 0;
  last_error = "";
  payload = [];
}

abbrev pub user_plan : BackfillPlan
user_plan = record {
  id = "p";
  name = "nightly";
  cron = "@hourly";
  schedule = hourly;
  enabled = true;
  targets = user_sync ∷ user_sync ∷ [];
  last_run_at = none;
  next_run_at = 500;
  queued_jobs_total = 0;
  deduplicated_total = 0;
  rate_limited_total = 0;
  created_at = 100;
  updated_at = 100;
  last_correlation_id = "";
}

abbrev pub planned : Scheduler
planned = record (new_service config) { plans = user_plan ∷ [] }

abbrev pub draws : ℕ → Draw
draws n = record { captured = 600; clock = 601; new_id = "j" }
