-- ===== src/Store/SyncJobs.antt =====
-- gitrank/packages/store/sync_builder.go: the job that a sync request asks for.
use Prim.Native.String.{◌++◌ as append}
use text.Mathlib.Text.{◌==◌ as str_eq}
use gitrank.Common.{
  Bool, true, false, ◌||◌, not, String, Option, none, some, List, [], ◌∷◌, ◌++◌, if◌then◌else◌,
}
use gitrank.Common.Int.{ℤ, pos, nonpos}
use gitrank.Common.Clock.{Time, zero_time}
use gitrank.Common.Words.{to_lower, itoa}
use gitrank.Contracts.Sync.{SyncRequest, SyncError, Normal, normal, abnormal}
use gitrank.Contracts.Modes.{Mode, mode_of, mode_name, normalize}
use gitrank.Store.Jobs.{Bytes, QueueJob, QueueJobInput, StoreError, Result, ok, err, new_queue_job}

-- A value in a payload; the payload is a map with text keys.
pub data Value : Type 0 where
  word : String → Value
  number : ℤ → Value

abbrev pub Payload : Type 0
Payload = List (String × Value)

pub data BuildError : Type 0 where
  not_normal : SyncError → BuildError
  missing : (field : String) → BuildError
  mode_unsupported : BuildError
  not_built : StoreError → BuildError

pub data Built : Type 0 where
  built : List QueueJob → Built
  failed : BuildError → Built

-- payload[key] = value under a test
abbrev entry_if : Bool → String → Value → Payload
entry_if true key value = (key, value) ∷ []
entry_if false key value = []

abbrev pub positive : ℤ → Bool
positive n = not (nonpos n)

-- The types of the jobs, of jobs.go
unfoldable pub job_type : Mode → String
job_type Mode.installation = "sync.installation"
job_type Mode.user = "sync.user_history"
job_type Mode.repository = "sync.repository"
job_type Mode.pull_request = "sync.pull_request"
job_type Mode.review = "sync.review"
job_type Mode.issue = "sync.issue"
job_type Mode.analysis_pull_request = "analysis.pull_request"
job_type Mode.report_materialize_pull_request = "report.materialize_pull_request"
job_type Mode.commit = "sync.commit"
job_type Mode.grade_pull_request = "pipeline.grade_pull_request"
job_type Mode.report_backfill_user_pull_requests = "report.backfill_user_pull_requests"
job_type Mode.quest_backfill_user = "quest.backfill_user"
job_type Mode.score_history_backfill_user = "score_history.backfill_user"
job_type Mode.badge_backfill_user = "badge.backfill_user"
job_type Mode.backfill_user_history = "pipeline.backfill_user_history"
job_type Mode.score_replay = "score.replay_user"
job_type Mode.profile_refresh = "profile.refresh_user"
job_type Mode.leaderboard_materialize_season = "leaderboard.materialize_season"
job_type Mode.leaderboard_backfill_history = "leaderboard.backfill_history"

-- What a request asks for: the resource of the job, its subject, the key by which the queue tells
-- duplicates, and the payload.
pub record Draft : Type 0 where
  pub installation_id : ℤ
  pub repository : String
  pub subject : String
  pub dedupe_key : String
  pub payload : Payload

-- mode + ":" + rest
abbrev pub keyed : Mode → String → String
keyed mode rest = append (mode_name mode) (append ":" rest)

-- The jobs on a user's id
abbrev user_id_draft : Mode → SyncRequest → Draft
user_id_draft mode req = record {
  installation_id = pos 0;
  repository = "";
  subject = req.user_id;
  dedupe_key = keyed mode req.user_id;
  payload = ("mode", word (mode_name mode)) ∷ ("user_id", word req.user_id) ∷ [];
}

-- The subject of `resourceJobs`
abbrev resource_subject : String → ℤ → String → String
resource_subject repository n sha =
    if not (str_eq sha "")
    then append repository (append "@" sha)
    else if positive n
    then append repository (append "#" (itoa n))
    else repository

-- `resourceJobs`, with the number and the commit that its caller hands over
unfoldable pub resource_draft : Mode → SyncRequest → ℤ → String → Draft
resource_draft mode req n sha =
    let subject = resource_subject req.repository n sha in
    record {
      installation_id = req.installation_id;
      repository = req.repository;
      subject = subject;
      dedupe_key = keyed mode subject;
      payload =
          ("repository", word req.repository)
          ∷ ("mode", word (mode_name mode))
          ∷ (entry_if (not (str_eq req.user "")) "user" (word req.user)
              ++ (entry_if (positive req.installation_id) "installation_id"
                    (number req.installation_id)
                  ++ (entry_if (positive n) "number" (number n)
                      ++ entry_if (not (str_eq sha "")) "sha" (word sha))));
    }

abbrev numbered_draft : Mode → SyncRequest → Draft
numbered_draft mode req = resource_draft mode req req.number ""

abbrev pub leaderboard_draft : Mode → String → String → Draft
leaderboard_draft mode subject key = record {
  installation_id = pos 0;
  repository = "";
  subject = subject;
  dedupe_key = keyed mode key;
  payload = ("mode", word (mode_name mode)) ∷ [];
}

abbrev graded : SyncRequest → String
graded req = append req.repository (append "#" (itoa req.number))

-- The input of `NewQueueJob` in each case of `BuildSyncJobs`
unfoldable pub draft : Mode → SyncRequest → Draft
unfolding resource_draft
draft Mode.installation req = record {
  installation_id = req.installation_id;
  repository = "";
  subject = itoa req.installation_id;
  dedupe_key = keyed Mode.installation (itoa req.installation_id);
  payload = ("installation_id", number req.installation_id) ∷ ("mode", word "installation") ∷ [];
}
draft Mode.user req = record {
  installation_id = pos 0;
  repository = "";
  subject = to_lower req.user;
  dedupe_key = keyed Mode.user (to_lower req.user);
  payload = ("user", word req.user) ∷ ("mode", word "user") ∷ [];
}
draft Mode.repository req = resource_draft Mode.repository req (pos 0) ""
draft Mode.commit req = resource_draft Mode.commit req (pos 0) req.sha
draft Mode.grade_pull_request req = record {
  installation_id = pos 0;
  repository = req.repository;
  subject = graded req;
  dedupe_key = keyed Mode.grade_pull_request (append req.user_id (append ":" (graded req)));
  payload =
      ("mode", word "grade_pull_request")
      ∷ ("user_id", word req.user_id)
      ∷ ("repository", word req.repository)
      ∷ ("number", number req.number)
      ∷ [];
}
draft Mode.leaderboard_materialize_season req =
    leaderboard_draft Mode.leaderboard_materialize_season "current" "current"
draft Mode.leaderboard_backfill_history req =
    leaderboard_draft Mode.leaderboard_backfill_history "history" "global"
draft Mode.pull_request req = numbered_draft Mode.pull_request req
draft Mode.review req = numbered_draft Mode.review req
draft Mode.issue req = numbered_draft Mode.issue req
draft Mode.analysis_pull_request req = numbered_draft Mode.analysis_pull_request req
draft Mode.report_materialize_pull_request req =
    numbered_draft Mode.report_materialize_pull_request req
draft mode req = user_id_draft mode req

-- The test of each case of `BuildSyncJobs`: a field that its mode requires is missing.
unfoldable pub lacks : Mode → SyncRequest → Bool
lacks Mode.installation req = nonpos req.installation_id
lacks Mode.user req = str_eq req.user ""
lacks Mode.repository req = str_eq req.repository ""
lacks Mode.pull_request req = str_eq req.repository "" || nonpos req.number
lacks Mode.review req = str_eq req.repository "" || nonpos req.number
lacks Mode.issue req = str_eq req.repository "" || nonpos req.number
lacks Mode.analysis_pull_request req = str_eq req.repository "" || nonpos req.number
lacks Mode.report_materialize_pull_request req = str_eq req.repository "" || nonpos req.number
lacks Mode.commit req = str_eq req.repository "" || str_eq req.sha ""
lacks Mode.grade_pull_request req =
    str_eq req.user_id "" || str_eq req.repository "" || nonpos req.number
lacks Mode.leaderboard_materialize_season req = false
lacks Mode.leaderboard_backfill_history req = false
lacks mode req = str_eq req.user_id ""

abbrev pub job_input : String → String → ℤ → Mode → Draft → QueueJobInput Payload
job_input queue_name correlation max_attempts mode d = record {
  queue_name = queue_name;
  type = job_type mode;
  correlation_id = correlation;
  delivery_id = "";
  installation_id = d.installation_id;
  repository = d.repository;
  subject = d.subject;
  dedupe_key = d.dedupe_key;
  max_attempts = max_attempts;
  scheduled_at = zero_time;
  not_before = zero_time;
  payload = d.payload;
}

abbrev pub one_job : Result QueueJob → Built
one_job (ok job) = built (job ∷ [])
one_job (err e) = failed (not_built e)

module _ (marshal : Payload → Option Bytes) (clock : Time) (new_id : String) where
  unfoldable pub build_mode : String → String → ℤ → Mode → SyncRequest → Built
  unfolding job_type draft
  build_mode queue_name correlation max_attempts mode req =
      if lacks mode req
      then failed (missing (mode_name mode))
      else one_job (
          new_queue_job marshal
            (job_input queue_name correlation max_attempts mode (draft mode req)) clock new_id)

  unfoldable pub build_normal : String → String → ℤ → Normal SyncRequest → Built
  unfolding build_mode
  build_normal queue_name correlation max_attempts (abnormal e) = failed (not_normal e)
  build_normal queue_name correlation max_attempts (normal req) = elim (mode_of req.mode) [
    | none ↦ failed mode_unsupported
    | some mode ↦ build_mode queue_name correlation max_attempts mode req
  ]

  -- `BuildSyncJobs`; `json.Marshal`, the clock's reading and the new random id are handed in.
  unfoldable pub build_sync_jobs : SyncRequest → String → String → ℤ → Built
  unfolding build_normal
  build_sync_jobs req queue_name correlation max_attempts =
      build_normal queue_name correlation max_attempts (normalize req)
