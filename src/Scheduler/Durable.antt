-- ===== src/Scheduler/Durable.antt =====
-- The durable state of the scheduler: what is stored of the service, how it is restored, and
-- `withDurableMutation` (gitrank/services/scheduler-worker/internal/service: durable.go,
-- state_store.go, ratelimit.go, backfill.go). The database is an argument: what is stored, and where
-- `Mutate` fails. The cron library's parser is another.
use gitrank.Common.{
  ℕ, Bool, true, false, String, Option, none, some, List, [], ◌∷◌, map, trim_space, if◌then◌else◌,
}
use gitrank.Common.Clock.{Time}
use gitrank.Common.Words.{less_string}
use gitrank.Contracts.Sync.{SyncRequest}
use gitrank.Store.Queue.Admission.{JobQueueState, export_state, restore_state}
use gitrank.RateLimits.Scoped.{ScopeWindow, ScopeRateLimiter, no_window}
use gitrank.Scheduler.State.{Scheduler, BackfillPlan, TickCounters, new_tick_counters, put_plan}

-- `persistedPlanRecord`
pub record PersistedPlan : Type 0 where
  pub id : String
  pub name : String
  pub cron : String
  pub enabled : Bool
  pub targets : List SyncRequest
  pub last_run_at : Option Time
  pub next_run_at : Time
  pub queued_jobs_total : ℕ
  pub deduplicated_total : ℕ
  pub rate_limited_total : ℕ
  pub created_at : Time
  pub updated_at : Time
  pub last_correlation_id : String

-- `durableSchedulerState`; a snapshot of the counters or of a limiter's hits copies a map.
pub record DurableState : Type 0 where
  pub queue : JobQueueState
  pub plans : List PersistedPlan
  pub ticks : TickCounters
  pub user_hits : String → ScopeWindow
  pub installation_hits : String → ScopeWindow

-- durableSchedulerState{}
abbrev pub zero_state : DurableState
zero_state = record {
  queue = record {
    jobs = [];
    dead_letters = [];
    retry_count = 0;
    failure_count = 0;
    replay_count = 0;
  };
  plans = [];
  ticks = new_tick_counters;
  user_hits = λ key. no_window;
  installation_hits = λ key. no_window;
}

-- `persisted`
abbrev pub persisted : BackfillPlan → PersistedPlan
persisted p = record {
  id = p.id;
  name = p.name;
  cron = p.cron;
  enabled = p.enabled;
  targets = p.targets;
  last_run_at = p.last_run_at;
  next_run_at = p.next_run_at;
  queued_jobs_total = p.queued_jobs_total;
  deduplicated_total = p.deduplicated_total;
  rate_limited_total = p.rate_limited_total;
  created_at = p.created_at;
  updated_at = p.updated_at;
  last_correlation_id = p.last_correlation_id;
}

insert_by_id : PersistedPlan → List PersistedPlan → List PersistedPlan
insert_by_id plan [] = plan ∷ []
insert_by_id plan (next ∷ plans) =
    let later = insert_by_id plan plans in
    if less_string next.id plan.id then next ∷ later else plan ∷ next ∷ plans

-- The records in the order of their ids
unfoldable pub sorted_by_id : List PersistedPlan → List PersistedPlan
unfolding insert_by_id
sorted_by_id [] = []
sorted_by_id (plan ∷ plans) = insert_by_id plan (sorted_by_id plans)

-- `captureDurableState`: the service afterwards, and what is stored of it.
unfoldable pub capture_durable_state : Time → Scheduler → Scheduler × DurableState
unfolding export_state sorted_by_id
capture_durable_state now s =
    let (queue, exported) = export_state now s.queue in
    (
      record s { queue = queue },
      record {
        queue = exported;
        plans = sorted_by_id (map persisted s.plans);
        ticks = s.ticks;
        user_hits = s.user_limiter.hits;
        installation_hits = s.installation_limiter.hits;
      },
    )

-- Where `Mutate` fails, if it does: before it has loaded the state, or when it saves the next one.
pub data Fault : Type 0 where
  sound unreachable save_fails : Fault

module _ (parse : String → Option (Time → Time)) where
  -- `runtime`
  unfoldable pub runtime : PersistedPlan → Option BackfillPlan
  runtime p = elim (parse (trim_space p.cron)) [
    | none ↦ none
    | some schedule ↦ some (record {
      id = p.id;
      name = p.name;
      cron = p.cron;
      schedule = schedule;
      enabled = p.enabled;
      targets = p.targets;
      last_run_at = p.last_run_at;
      next_run_at = p.next_run_at;
      queued_jobs_total = p.queued_jobs_total;
      deduplicated_total = p.deduplicated_total;
      rate_limited_total = p.rate_limited_total;
      created_at = p.created_at;
      updated_at = p.updated_at;
      last_correlation_id = p.last_correlation_id;
    })
  ]

  -- The loop of `restorePlans`, with the map as it has grown
  unfoldable pub restore_plans : List PersistedPlan → List BackfillPlan → Option (List BackfillPlan)
  unfolding runtime put_plan
  restore_plans [] plans = some plans
  restore_plans (p ∷ ps) plans = elim (runtime p) [
    | none ↦ none
    | some plan ↦ restore_plans ps (put_plan plan plans)
  ]

  abbrev restored_hits : (String → ScopeWindow) → ScopeRateLimiter → ScopeRateLimiter
  restored_hits hits limiter = record limiter { hits = hits }

  -- `restoreDurableState`; the queue is restored even when a plan cannot be.
  unfoldable pub restore_durable_state : DurableState → Scheduler → Scheduler × Bool
  unfolding restore_state restore_plans
  restore_durable_state state s =
      let s' = record s { queue = restore_state state.queue s.queue } in
      elim (restore_plans state.plans []) [
        | none ↦ (s', false)
        | some plans ↦ (
          record s' {
            plans = plans;
            ticks = state.ticks;
            user_limiter = restored_hits state.user_hits s.user_limiter;
            installation_limiter = restored_hits state.installation_hits s.installation_limiter;
          },
          true,
        )
      ]

  -- The end of a mutation: an error is `none`, in which case the state that was loaded is restored.
  abbrev pub rolled_back :
      {A : Type 0} → DurableState → Scheduler → DurableState × Scheduler × Option A
  rolled_back stored s = (stored, (restore_durable_state stored s).0, none)

  module _ {A : Type 0} (fn : Scheduler → Scheduler × Option A) (now : Time) where
    abbrev pub saved :
        Fault → DurableState → A → Scheduler × DurableState → DurableState × Scheduler × Option A
    saved save_fails stored a (s, next) = rolled_back stored s
    saved fault stored a (s, next) = (next, s, some a)

    unfoldable pub mutated :
        Fault → DurableState → Scheduler × Option A → DurableState × Scheduler × Option A
    unfolding capture_durable_state
    mutated fault stored (s, none) = rolled_back stored (restore_durable_state stored s).0
    mutated fault stored (s, some a) = saved fault stored a (capture_durable_state now s)

    unfoldable pub loaded :
        Fault → DurableState → Scheduler × Bool → DurableState × Scheduler × Option A
    unfolding mutated
    loaded fault stored (s, false) = rolled_back stored s
    loaded fault stored (s, true) = mutated fault stored (fn s)

    -- `withDurableMutation`, with a state store: what is stored afterwards, the service in memory,
    -- and the result.
    unfoldable pub with_durable_mutation :
        Fault → DurableState → Scheduler → DurableState × Scheduler × Option A
    unfolding loaded restore_durable_state
    with_durable_mutation unreachable stored s =
        (stored, (restore_durable_state zero_state s).0, none)
    with_durable_mutation fault stored s = loaded fault stored (restore_durable_state stored s)
