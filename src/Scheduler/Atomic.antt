-- ===== src/Scheduler/Atomic.antt =====
-- What a durable mutation leaves stored and in memory (`withDurableMutation`,
-- gitrank/services/scheduler-worker/internal/service/durable.go).
use gitrank.Common.{
  ◌≡◌, refl, ap, sym, ◌∙◌, inl, inr, Bool, true, false, arith, String, Option, none, some, List, [],
  ◌⊎◌,
}
use gitrank.Common.Clock.{Time}
use gitrank.Store.Queue.State.{new_job_queue}
use gitrank.Store.Queue.Admission.{export_state, restore_state}
use gitrank.Store.Queue.Views.{restore-export}
use gitrank.Scheduler.State.{Scheduler, BackfillPlan}
use gitrank.Scheduler.Durable.{
  DurableState, capture_durable_state, restore_plans, restore_durable_state, Fault, sound,
  unreachable, save_fails, saved, mutated, loaded, with_durable_mutation,
}

-- `Mutate` gets as far as the state.
abbrev pub reaches : Fault → Bool
reaches unreachable = false
reaches fault = true

-- A capture right after a capture stores the same.
capture_idem :
    (now : Time) (s : Scheduler)
    → (capture_durable_state now (capture_durable_state now s).0).1
      ≡ (capture_durable_state now s).1
unfolding capture_durable_state
capture_idem now s =
    let (restored, again) = restore-export now s.queue s.queue in
    ap (λ q. record (capture_durable_state now s).1 { queue = q })
      (ap (λ q. (export_state now q).1) (sym restored) ∙ again)

-- The service holds what is stored: the queue, the counters of ticks and both limiters' hits as they
-- are stored, and these plans.
pub record Holds (stored : DurableState) (plans : List BackfillPlan) (s : Scheduler) : Type 0 where
  pub same_jobs : s.queue.jobs ≡ stored.queue.jobs
  pub same_letters : s.queue.dead_letters ≡ stored.queue.dead_letters
  pub same_retries : s.queue.retry_count ≡ stored.queue.retry_count
  pub same_failures : s.queue.failure_count ≡ stored.queue.failure_count
  pub same_replays : s.queue.replay_count ≡ stored.queue.replay_count
  pub same_plans : s.plans ≡ plans
  pub same_ticks : s.ticks ≡ stored.ticks
  pub same_user_hits : s.user_limiter.hits ≡ stored.user_hits
  pub same_installation_hits : s.installation_limiter.hits ≡ stored.installation_hits

-- How a mutation ends whose function made `changed` of the restored service, `plans` being the stored
-- plans. If it succeeds, so did the function, and what is stored is what the service in memory would
-- store: the work of the function. If it fails, the function failed or the saving did, what is stored
-- is as before, and the service in memory holds just that.
abbrev pub Commits :
    {A : Type 0}
    → Time
    → Fault
    → DurableState
    → List BackfillPlan
    → Scheduler × Option A
    → DurableState × Scheduler × Option A
    → Type 0
Commits now fault stored plans changed (next, s, some a) =
    (fault ≡ sound)
    × (changed.1 ≡ some a)
    × (s ≡ (capture_durable_state now changed.0).0)
    × (next ≡ (capture_durable_state now changed.0).1)
    × ((capture_durable_state now s).1 ≡ next)
Commits now fault stored plans changed (next, s, none) =
    ((changed.1 ≡ none) ⊎ (fault ≡ save_fails)) × (next ≡ stored) × Holds stored plans s

module _ (parse : String → Option (Time → Time)) where
  restored-Holds :
      (stored : DurableState) (plans : List BackfillPlan) (s : Scheduler)
      → restore_plans parse stored.plans [] ≡ some plans
      → ((restore_durable_state parse stored s).1 ≡ true)
        × Holds stored plans (restore_durable_state parse stored s).0
  unfolding restore_durable_state restore_state
  restored-Holds stored plans s parsed =
      rw (parsed, restore_durable_state)
        (
          refl,
          record {
            same_jobs = refl;
            same_letters = refl;
            same_retries = refl;
            same_failures = refl;
            same_replays = refl;
            same_plans = refl;
            same_ticks = refl;
            same_user_hits = refl;
            same_installation_hits = refl;
          },
        )

  module _ {A : Type 0} (fn : Scheduler → Scheduler × Option A) (now : Time) (stored : DurableState)
      (plans : List BackfillPlan) (parsed : restore_plans parse stored.plans [] ≡ some plans) where
    saved-Commits :
        (fault : Fault) (a : A) (s : Scheduler)
        → reaches fault ≡ true
        → Commits now fault stored plans
            (s, some a)
            (saved parse fn now fault stored a (capture_durable_state now s))
    saved-Commits save_fails a s h = (inr refl, refl, (restored-Holds stored plans _ parsed).1)
    saved-Commits sound a s h = (refl, refl, refl, refl, capture_idem now s)
    saved-Commits unreachable a s h = ground arith

    mutated-Commits :
        (fault : Fault) (changed : Scheduler × Option A)
        → reaches fault ≡ true
        → Commits now fault stored plans changed (mutated parse fn now fault stored changed)
    unfolding mutated
    mutated-Commits fault (s, none) h = (inl refl, refl, (restored-Holds stored plans _ parsed).1)
    mutated-Commits fault (s, some a) h = saved-Commits fault a s h

    loaded-Commits :
        (fault : Fault) (r : Scheduler × Bool)
        → r.1 ≡ true
        → reaches fault ≡ true
        → Commits now fault stored plans (fn r.0) (loaded parse fn now fault stored r)
    unfolding loaded
    loaded-Commits fault (s, false) e h = ground arith
    loaded-Commits fault (s, true) e h = mutated-Commits fault (fn s) h

    -- Where the store can be reached and all the stored plans can be restored, a durable mutation
    -- runs its function on a service that holds what is stored, and is all or nothing. It succeeds
    -- only if the function and the saving do: then what is stored is the capture of the service
    -- that the function made, and that service, its expired leases given back, is in memory. It
    -- fails only if one of the two does: then what is stored is as it was, and the service in
    -- memory holds just that: jobs, dead letters, counters, plans and hits.
    pub with_durable_mutation-Commits :
        (fault : Fault) (s : Scheduler)
        → reaches fault ≡ true
        → let restored = (restore_durable_state parse stored s).0 in
          Holds stored plans restored
          × Commits now fault stored plans
              (fn restored)
              (with_durable_mutation parse fn now fault stored s)
    unfolding with_durable_mutation
    with_durable_mutation-Commits sound s h =
        let (read, holds) = restored-Holds stored plans s parsed in
        (holds, loaded-Commits sound (restore_durable_state parse stored s) read h)
    with_durable_mutation-Commits save_fails s h =
        let (read, holds) = restored-Holds stored plans s parsed in
        (holds, loaded-Commits save_fails (restore_durable_state parse stored s) read h)
    with_durable_mutation-Commits unreachable s h = ground arith

  module _ {A : Type 0} (fn : Scheduler → Scheduler × Option A) (now : Time) where
    -- If the store cannot be reached, the mutation leaves what is stored as it was, and the service
    -- in memory with an empty queue and without plans.
    with_durable_mutation-unreachable :
        (stored : DurableState) (s : Scheduler)
        → (with_durable_mutation parse fn now unreachable stored s).0 ≡ stored
          × ((with_durable_mutation parse fn now unreachable stored s).1.queue ≡ new_job_queue)
          × ((with_durable_mutation parse fn now unreachable stored s).1.plans ≡ [])
    unfolding with_durable_mutation restore_durable_state restore_plans restore_state
    with_durable_mutation-unreachable stored s = (refl, refl, refl)

    -- If a stored plan cannot be restored, the queue in memory is the stored one all the same, while
    -- the plans, the counters of ticks and the hits are still those from before.
    with_durable_mutation-halves :
        (stored : DurableState) (s : Scheduler)
        → restore_plans parse stored.plans [] ≡ none
        → with_durable_mutation parse fn now sound stored s
          ≡ (stored, record s { queue = restore_state stored.queue s.queue }, none)
    unfolding with_durable_mutation loaded restore_durable_state restore_state
    with_durable_mutation-halves stored s broken =
        rw (broken, restore_durable_state) (rw (broken, restore_durable_state) refl)
