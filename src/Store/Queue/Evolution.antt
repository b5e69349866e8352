-- ===== src/Store/Queue/Evolution.antt =====
-- Every history of calls on an `InMemoryJobQueue` (gitrank/packages/store/memory.go): what becomes
-- of the jobs.
use gitrank.Common.{
  ◌≡◌, refl, inl, inr, String, Option, List, [], ◌∷◌, ◌++◌, All, Option-cases, Bool-cases, Bool,
  true, false, ◌&&◌, not, length, ℕ, arith, trim_space,
}
use gitrank.Common.Int.{ℤ, nonpos, leb_ℤ, pos}
use gitrank.Common.Clock.{Time, Duration}
use gitrank.Common.Grown.{Grown-append, Grown-trans}
use text.Mathlib.Text.{◌==◌ as str_eq}
use gitrank.Store.Jobs.{Bytes, QueueJob, DeadLetterRecord, Result, ok, err, new_queue_job}
use gitrank.Store.Queue.State.{JobQueue, reap, find_job, find_record}
use gitrank.Store.Queue.Transitions.{
  complete, pause, resume, cancel, cancel_by_correlation, fail, fail_non_retryable,
  record_dead_letter,
}
use gitrank.Store.Queue.Leases.{lease_ready, lease_job, lease_limit, active_leases, lease_one}
use gitrank.Store.Queue.Admission.{
  enqueue, enqueue_unique, replay_dead_letter, replay_at, admit_replay, correlated, replay_input,
  mark_replayed,
}
use gitrank.Store.Queue.Steps.{
  Call, enqueues, enqueues_unique, leases_ready, leases_job, completes, pauses, cancels,
  cancels_correlation, resumes, records_dead_letter, fails, fails_for_good, replays, reads, step,
  run,
}
use gitrank.Store.Queue.Lifecycle.{
  Moves, Moves-trans, lease_one-Moves, complete_job-Moves, pause_job-Moves, resume_job-Moves,
  cancel_job-Moves,
}
use gitrank.Store.Queue.History.{
  IsNew, new_queue_job-IsNew, Follows, Follows-refl, Follows-reap, Follows-with_job,
  Follows-cancel_matching, Follows-lease_loop, Follows-fail_at, Follows-fail_non_retryable_at,
}

-- What the calls that add a job ask of it.
abbrev pub Admits : (QueueJob → Type 0) → Call → Type 0
Admits N (enqueues job) = N job
Admits N (enqueues_unique job) = N job
Admits N _ = Unit

module _ (N : QueueJob → Type 0) where
  Follows-added :
      (jobs : List QueueJob) (job : QueueJob) → N job → Follows N jobs (jobs ++ job ∷ [])
  Follows-added jobs job n = Grown-append Moves N jobs jobs (job ∷ []) (Follows-refl N jobs) (n, tt)

  Follows-enqueue :
      (job : QueueJob) (q : JobQueue) → N job → Follows N q.jobs (enqueue job q).0.jobs
  unfolding enqueue
  Follows-enqueue job q n = ground (arith, Follows-refl N q.jobs, Follows-added q.jobs job n)

  Follows-enqueue_unique :
      (job : QueueJob) (q : JobQueue) → N job → Follows N q.jobs (enqueue_unique job q).0.jobs
  unfolding enqueue_unique
  Follows-enqueue_unique job q n = ground (arith, Follows-refl N q.jobs, Follows-added q.jobs job n)

  Follows-admit_replay :
      (job : QueueJob) (q : JobQueue) → N job → Follows N q.jobs (admit_replay job q).0.jobs
  unfolding admit_replay
  Follows-admit_replay job q n = ground (arith, Follows-refl N q.jobs, Follows-added q.jobs job n)

  Follows-fail :
      (id : String) (error : Option String) (now : Time) (base : Duration) (new_id : String)
      (q : JobQueue)
      → Follows N q.jobs (fail id error now base new_id q).0.jobs
  unfolding fail
  Follows-fail id error now base new_id q = elim (Option-cases (find_job id q.jobs)) [
    | inl gone ↦ rw (gone, fail) (Follows-refl N q.jobs)
    | inr ((index, job), found) ↦
        rw (found, fail) (Follows-fail_at N id index job error now base new_id q found)
  ]

  Follows-fail_non_retryable :
      (id : String) (error : Option String) (now : Time) (new_id : String) (q : JobQueue)
      → Follows N q.jobs (fail_non_retryable id error now new_id q).0.jobs
  unfolding fail_non_retryable
  Follows-fail_non_retryable id error now new_id q = elim (Option-cases (find_job id q.jobs)) [
    | inl gone ↦ rw (gone, fail_non_retryable) (Follows-refl N q.jobs)
    | inr ((index, job), found) ↦
        rw (found, fail_non_retryable)
          (Follows-fail_non_retryable_at N id index job error now new_id q found)
  ]

  Follows-cancel_by_correlation :
      (correlation : String) (q : JobQueue)
      → Follows N q.jobs (cancel_by_correlation correlation q).0.jobs
  unfolding cancel_by_correlation
  Follows-cancel_by_correlation correlation q =
      elim (Bool-cases (str_eq (trim_space correlation) "")) [
        | inl blank ↦ rw blank (Follows-refl N q.jobs)
        | inr given ↦ rw given (Follows-cancel_matching N (trim_space correlation) q.jobs)
      ]

-- The calls that may add a job.
abbrev pub adds : Call → Bool
adds (enqueues job) = true
adds (enqueues_unique job) = true
adds (replays record_id correlation now clock new_id) = true
adds _ = false

-- `N` stays true as a job moves on.
module _ (N : QueueJob → Type 0)
    (kept : (job next : QueueJob) → Moves job next → N job → N next) where
  Follows-trans : (xs ys zs : List QueueJob) → Follows N xs ys → Follows N ys zs → Follows N xs zs
  Follows-trans = Grown-trans Moves N Moves-trans kept

  Follows-lease_ready :
      (now : Time) (limit max_concurrency : ℤ) (ttl : Duration) (q : JobQueue)
      → Follows N q.jobs (lease_ready now limit max_concurrency ttl q).0.jobs
  unfolding lease_ready
  Follows-lease_ready now limit max_concurrency ttl q =
      elim (Option-cases (
        lease_limit limit max_concurrency (active_leases (reap now q).jobs)
          (length (reap now q).jobs))) [
            | inl full ↦ rw (full, lease_ready) (Follows-reap N now q)
            | inr (room, e) ↦
                rw (e, lease_ready)
                  (Follows-trans q.jobs (reap now q).jobs _ (Follows-reap N now q)
                    (Follows-lease_loop N now ttl room (reap now q).jobs))
          ]

  Follows-lease_job :
      (id : String) (now : Time) (max_concurrency : ℤ) (ttl : Duration) (q : JobQueue)
      → Follows N q.jobs (lease_job id now max_concurrency ttl q).0.jobs
  unfolding lease_job
  Follows-lease_job id now max_concurrency ttl q =
      elim (Bool-cases (
        not (nonpos max_concurrency)
        && leb_ℤ max_concurrency (pos (active_leases (reap now q).jobs)))) [
          | inl full ↦ rw full (Follows-reap N now q)
          | inr room ↦ rw room (
              Follows-trans q.jobs (reap now q).jobs _ (Follows-reap N now q)
                (Follows-with_job N (reap now q) id (lease_one now ttl) (lease_one-Moves now ttl)))
        ]

  pub step-Follows_kept :
      (marshal : Bytes → Option Bytes) (q : JobQueue) (c : Call)
      → adds c ≡ false
      → Follows N q.jobs (step marshal q c).jobs
  unfolding step complete pause resume cancel record_dead_letter
  step-Follows_kept marshal q (enqueues job) h = cc
  step-Follows_kept marshal q (enqueues_unique job) h = cc
  step-Follows_kept marshal q (replays record_id correlation now clock new_id) h = cc
  step-Follows_kept marshal q (leases_ready now limit max_concurrency ttl) h =
      Follows-lease_ready now limit max_concurrency ttl q
  step-Follows_kept marshal q (leases_job id now max_concurrency ttl) h =
      Follows-lease_job id now max_concurrency ttl q
  step-Follows_kept marshal q (completes id) h = Follows-with_job N q id _ complete_job-Moves
  step-Follows_kept marshal q (pauses id) h = Follows-with_job N q id _ pause_job-Moves
  step-Follows_kept marshal q (cancels id) h = Follows-with_job N q id _ cancel_job-Moves
  step-Follows_kept marshal q (cancels_correlation correlation) h =
      Follows-cancel_by_correlation N correlation q
  step-Follows_kept marshal q (resumes id now) h = Follows-with_job N q id _ (resume_job-Moves now)
  step-Follows_kept marshal q (records_dead_letter job error now new_id) h = Follows-refl N q.jobs
  step-Follows_kept marshal q (fails id error now base new_id) h =
      Follows-fail N id error now base new_id q
  step-Follows_kept marshal q (fails_for_good id error now new_id) h =
      Follows-fail_non_retryable N id error now new_id q
  step-Follows_kept marshal q (reads now) h = Follows-reap N now q

-- And it holds of a job that the queue makes by `NewQueueJob`.
module _ (N : QueueJob → Type 0) (kept : (job next : QueueJob) → Moves job next → N job → N next)
    (born : (job : QueueJob) → IsNew job → N job) where
  correlated-N :
      (marshal : Bytes → Option Bytes) (letter : DeadLetterRecord) (correlation : String)
      (clock : Time) (new_id : String) (job : QueueJob)
      → new_queue_job marshal (replay_input letter correlation) clock new_id ≡ ok job
      → N (correlated job letter)
  correlated-N marshal letter correlation clock new_id job e = born (correlated job letter) (
      ground
        (arith, new_queue_job-IsNew marshal (replay_input letter correlation) clock new_id job))

  module _ (marshal : Bytes → Option Bytes) where
    Follows-replay_at :
        (index : ℕ) (letter : DeadLetterRecord) (correlation : String) (now clock : Time)
        (new_id : String) (q : JobQueue)
        → Follows N q.jobs (replay_at marshal index letter correlation now clock new_id q).0.jobs
    unfolding replay_at
    Follows-replay_at index letter correlation now clock new_id q =
        made (new_queue_job marshal (replay_input letter correlation) clock new_id) refl
      where
        made :
            (r : Result QueueJob)
            → new_queue_job marshal (replay_input letter correlation) clock new_id ≡ r
            → Follows N q.jobs
                (replay_at marshal index letter correlation now clock new_id q).0.jobs
        made (ok job) e =
            rw (e, replay_at)
              (Follows-admit_replay N (correlated job letter) (mark_replayed q index letter now)
                (correlated-N marshal letter correlation clock new_id job e))
        made (err x) e = rw (e, replay_at) (Follows-refl N q.jobs)

    Follows-replay :
        (record_id correlation : String) (now clock : Time) (new_id : String) (q : JobQueue)
        → Follows N q.jobs
            (replay_dead_letter marshal record_id correlation now clock new_id q).0.jobs
    unfolding replay_dead_letter
    Follows-replay record_id correlation now clock new_id q =
        elim (Option-cases (find_record record_id q.dead_letters)) [
          | inl gone ↦ rw (gone, replay_dead_letter) (Follows-refl N q.jobs)
          | inr ((index, letter), found) ↦
              rw (found, replay_dead_letter)
                (Follows-replay_at index letter correlation now clock new_id q)
        ]

    pub step-Follows :
        (q : JobQueue) (c : Call) → Admits N c → Follows N q.jobs (step marshal q c).jobs
    unfolding step
    step-Follows q (enqueues job) n = Follows-enqueue N job q n
    step-Follows q (enqueues_unique job) n = Follows-enqueue_unique N job q n
    step-Follows q (replays record_id correlation now clock new_id) n =
        Follows-replay record_id correlation now clock new_id q
    step-Follows q c n = step-Follows_kept N kept marshal q c refl

    pub run-Follows :
        (q : JobQueue) (cs : List Call)
        → All (Admits N) cs
        → Follows N q.jobs (run marshal q cs).jobs
    unfolding run
    run-Follows q [] ns = Follows-refl N q.jobs
    run-Follows q (c ∷ cs) ns =
        Follows-trans N kept q.jobs (step marshal q c).jobs (run marshal (step marshal q c) cs).jobs
          (step-Follows q c ns.0) (run-Follows (step marshal q c) cs ns.1)
