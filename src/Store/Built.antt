-- ===== src/Store/Built.antt =====
-- What `BuildSyncJobs` makes (gitrank/packages/store/sync_builder.go).
use text.Mathlib.Text.{◌==◌ as str_eq}
use gitrank.Common.{
  ◌≡◌, refl, inl, inr, Bool-cases, Option-cases, false, String, Option, none, some, List, [], ◌∷◌,
  trim_space, append-ne, is_space, arith,
}
use gitrank.Common.Int.{ℤ}
use gitrank.Common.Clock.{Time}
use gitrank.Contracts.Sync.{SyncRequest, Normal, normal, abnormal}
use gitrank.Contracts.Modes.{Mode, mode_of, normalize}
use gitrank.Store.Jobs.{Bytes, QueueJob, QueueJobInput, Result, ok, err, new_queue_job}
use gitrank.Store.Queue.History.{IsNew, new_queue_job-IsNew}
use gitrank.Store.SyncJobs.{
  Payload, built, draft, keyed, resource_draft, job_input, job_type, lacks, one_job, build_mode,
  build_normal, build_sync_jobs,
}

-- A key begins with the text of its mode.
draft-key :
    (mode : Mode) (req : SyncRequest)
    → (rest : String) × ((draft mode req).dedupe_key ≡ keyed mode rest)
unfolding draft resource_draft
draft-key Mode.installation req = (_, refl)
draft-key Mode.user req = (_, refl)
draft-key Mode.repository req = (_, refl)
draft-key Mode.pull_request req = (_, refl)
draft-key Mode.review req = (_, refl)
draft-key Mode.issue req = (_, refl)
draft-key Mode.analysis_pull_request req = (_, refl)
draft-key Mode.report_materialize_pull_request req = (_, refl)
draft-key Mode.commit req = (_, refl)
draft-key Mode.grade_pull_request req = (_, refl)
draft-key Mode.leaderboard_materialize_season req = ("current", refl)
draft-key Mode.leaderboard_backfill_history req = ("global", refl)
draft-key mode req = (req.user_id, refl)

key-ne : (mode : Mode) (rest : String) → str_eq (trim_space (keyed mode rest)) "" ≡ false
unfolding is_space
key-ne Mode.installation rest = append-ne "i" "nstallation" _ refl
key-ne Mode.user rest = append-ne "u" "ser" _ refl
key-ne Mode.repository rest = append-ne "r" "epository" _ refl
key-ne Mode.pull_request rest = append-ne "p" "ull_request" _ refl
key-ne Mode.review rest = append-ne "r" "eview" _ refl
key-ne Mode.issue rest = append-ne "i" "ssue" _ refl
key-ne Mode.analysis_pull_request rest = append-ne "a" "nalysis_pull_request" _ refl
key-ne Mode.report_materialize_pull_request rest =
    append-ne "r" "eport_materialize_pull_request" _ refl
key-ne Mode.commit rest = append-ne "c" "ommit" _ refl
key-ne Mode.grade_pull_request rest = append-ne "g" "rade_pull_request" _ refl
key-ne Mode.report_backfill_user_pull_requests rest =
    append-ne "r" "eport_backfill_user_pull_requests" _ refl
key-ne Mode.quest_backfill_user rest = append-ne "q" "uest_backfill_user" _ refl
key-ne Mode.score_history_backfill_user rest = append-ne "s" "core_history_backfill_user" _ refl
key-ne Mode.badge_backfill_user rest = append-ne "b" "adge_backfill_user" _ refl
key-ne Mode.backfill_user_history rest = append-ne "b" "ackfill_user_history" _ refl
key-ne Mode.score_replay rest = append-ne "s" "core_replay" _ refl
key-ne Mode.profile_refresh rest = append-ne "p" "rofile_refresh" _ refl
key-ne Mode.leaderboard_materialize_season rest =
    append-ne "l" "eaderboard_materialize_season" _ refl
key-ne Mode.leaderboard_backfill_history rest = append-ne "l" "eaderboard_backfill_history" _ refl

-- What the queue is told to add: a fresh job whose key is not empty.
pub record IsDraft (id : String) (mode : Mode) (job : QueueJob) : Type 0 where
  pub fresh : IsNew job
  pub same_id : job.id ≡ id
  pub same_type : job.type ≡ job_type mode
  pub known : str_eq job.dedupe_key "" ≡ false

-- The normal request has this mode.
abbrev pub IsAsked : Normal SyncRequest → Mode → Type 0
IsAsked (normal req) mode = mode_of req.mode ≡ some mode
IsAsked (abnormal e) mode = ⊥

new_queue_job-fields :
    {A : Type 0} (marshal : A → Option Bytes) (input : QueueJobInput A) (now : Time) (id : String)
    (job : QueueJob)
    → new_queue_job marshal input now id ≡ ok job
    → (job.id ≡ id) × (job.type ≡ input.type) × (job.dedupe_key ≡ trim_space input.dedupe_key)
unfolding new_queue_job
new_queue_job-fields marshal input now id job h = ground arith

draft_key-ne :
    (mode : Mode) (req : SyncRequest) → str_eq (trim_space (draft mode req).dedupe_key) "" ≡ false
draft_key-ne mode req = let (rest, key) = draft-key mode req in rw key (key-ne mode rest)

one_job-built :
    (r : Result QueueJob) (jobs : List QueueJob)
    → one_job r ≡ built jobs
    → (job : QueueJob) × (r ≡ ok job) × (jobs ≡ job ∷ [])
one_job-built (ok job) jobs h = (job, refl, ground arith)
one_job-built (err e) jobs h = ground arith

module _ (marshal : Payload → Option Bytes) (clock : Time) (new_id : String) where
  build_mode-IsDraft :
      (queue_name correlation : String) (max_attempts : ℤ) (mode : Mode) (req : SyncRequest)
      (jobs : List QueueJob)
      → build_mode marshal clock new_id queue_name correlation max_attempts mode req ≡ built jobs
      → (job : QueueJob) × (jobs ≡ job ∷ []) × IsDraft new_id mode job
  unfolding build_mode
  build_mode-IsDraft queue_name correlation max_attempts mode req jobs h =
      elim (Bool-cases (lacks mode req)) [
        | inl absent ↦ ground arith
        | inr present ↦
            let input = job_input queue_name correlation max_attempts mode (draft mode req) in
            let (job, made, alone) =
              one_job-built (new_queue_job marshal input clock new_id) jobs (ground arith) in
            let (same_id, same_type, key) =
              new_queue_job-fields marshal input clock new_id job made in
            (
              job,
              alone,
              record {
                fresh = new_queue_job-IsNew marshal input clock new_id job made;
                same_id = same_id;
                same_type = same_type;
                known = rw key (draft_key-ne mode req);
              },
            )
      ]

  build_normal-IsAsked :
      (queue_name correlation : String) (max_attempts : ℤ) (n : Normal SyncRequest)
      (jobs : List QueueJob)
      → build_normal marshal clock new_id queue_name correlation max_attempts n ≡ built jobs
      → (mode : Mode) × (job : QueueJob) × (jobs ≡ job ∷ [])
        × IsAsked n mode
        × IsDraft new_id mode job
  unfolding build_normal
  build_normal-IsAsked queue_name correlation max_attempts (abnormal e) jobs h = ground arith
  build_normal-IsAsked queue_name correlation max_attempts (normal req) jobs h =
      elim (Option-cases (mode_of req.mode)) [
        | inl unknown ↦ ground arith
        | inr (mode, known) ↦
            let (job, alone, drafted) =
              build_mode-IsDraft queue_name correlation max_attempts mode req jobs (ground arith) in
            (mode, job, alone, known, drafted)
      ]

  -- The one job of a build, and the mode that the request has once it is normal.
  pub build_sync_jobs-IsAsked :
      (req : SyncRequest) (queue_name correlation : String) (max_attempts : ℤ)
      (jobs : List QueueJob)
      → build_sync_jobs marshal clock new_id req queue_name correlation max_attempts ≡ built jobs
      → (mode : Mode) × (job : QueueJob) × (jobs ≡ job ∷ [])
        × IsAsked (normalize req) mode
        × IsDraft new_id mode job
  unfolding build_sync_jobs
  build_sync_jobs-IsAsked req queue_name correlation max_attempts jobs h =
      build_normal-IsAsked queue_name correlation max_attempts (normalize req) jobs h

  pub build_sync_jobs-IsDraft :
      (req : SyncRequest) (queue_name correlation : String) (max_attempts : ℤ)
      (jobs : List QueueJob)
      → build_sync_jobs marshal clock new_id req queue_name correlation max_attempts ≡ built jobs
      → (mode : Mode) × (job : QueueJob) × (jobs ≡ job ∷ []) × IsDraft new_id mode job
  build_sync_jobs-IsDraft req queue_name correlation max_attempts jobs h =
      let (mode, job, alone, asked, drafted) =
        build_sync_jobs-IsAsked req queue_name correlation max_attempts jobs h in
      (mode, job, alone, drafted)

-- The key of the job for a request
abbrev key_of_mode : SyncRequest → Option Mode → String
key_of_mode req none = ""
key_of_mode req (some mode) = trim_space (draft mode req).dedupe_key

abbrev pub key_of : Normal SyncRequest → String
key_of (abnormal e) = ""
key_of (normal req) = key_of_mode req (mode_of req.mode)

module _ (marshal : Payload → Option Bytes) (clock : Time) (new_id queue_name correlation : String)
    (max_attempts : ℤ) where
  build_mode-key :
      (mode : Mode) (req : SyncRequest) (job : QueueJob)
      → build_mode marshal clock new_id queue_name correlation max_attempts mode req
        ≡ built (job ∷ [])
      → job.dedupe_key ≡ key_of_mode req (some mode)
  unfolding build_mode
  build_mode-key mode req job h = elim (Bool-cases (lacks mode req)) [
    | inl absent ↦ ground arith
    | inr present ↦
        let input = job_input queue_name correlation max_attempts mode (draft mode req) in
        let (made_job, made, alone) =
          one_job-built (new_queue_job marshal input clock new_id) (job ∷ []) (ground arith) in
        let (same_id, same_type, key) =
          new_queue_job-fields marshal input clock new_id made_job made in
        ground (arith, alone, key)
  ]

  build_normal-key :
      (n : Normal SyncRequest) (job : QueueJob)
      → build_normal marshal clock new_id queue_name correlation max_attempts n ≡ built (job ∷ [])
      → job.dedupe_key ≡ key_of n
  unfolding build_normal
  build_normal-key (abnormal e) job h = ground arith
  build_normal-key (normal req) job h = elim (Option-cases (mode_of req.mode)) [
    | inl unknown ↦ ground arith
    | inr (mode, known) ↦ rw known (build_mode-key mode req job (ground arith))
  ]

  pub build_sync_jobs-key :
      (req : SyncRequest) (job : QueueJob)
      → build_sync_jobs marshal clock new_id req queue_name correlation max_attempts
        ≡ built (job ∷ [])
      → job.dedupe_key ≡ key_of (normalize req)
  unfolding build_sync_jobs
  build_sync_jobs-key req job h = build_normal-key (normalize req) job h
