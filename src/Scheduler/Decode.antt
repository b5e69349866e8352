-- ===== src/Scheduler/Decode.antt =====
-- `isExecutableJob` and `syncRequestFromJob`: which jobs the worker runs, and the request in a job
-- (gitrank/services/scheduler-worker/internal/service/runner.go).
use Prim.Native.Char.{code}
use text.Mathlib.Text.{◌==◌ as str_eq}
use gitrank.Common.{
  Bool, true, false, ◌&&◌, ◌||◌, not, String, Option, none, some, List, [], ◌∷◌, ◌==◌, trim_space,
  if◌then◌else◌,
}
use gitrank.Common.Int.{pos, nonpos}
use gitrank.Common.Clock.{Time, after}
use gitrank.Common.Words.{equal_fold}
use gitrank.Contracts.Sync.{SyncRequest, SyncError, Normal, normal, abnormal, normalize_uuid}
use gitrank.Contracts.Modes.{Mode, all_modes, mode_name, normalize}
use gitrank.Store.Jobs.{Bytes, QueueJob, status_eq, pending}
use gitrank.Store.SyncJobs.{job_type}

-- Why a job cannot be run.
pub data RunError : Type 0 where
  not_configured : (runner : String) → RunError
  not_decoded installation_missing repository_missing user_missing : RunError
  number_missing sha_missing not_executable : RunError
  not_normal : SyncError → RunError
  service_failed : (text : String) → RunError

pub data Attempt {ℓ} (A : Type ℓ) : Type ℓ where
  fine : A → Attempt A
  broken : RunError → Attempt A

mode_with_type : List Mode → String → Option Mode
unfolding job_type
mode_with_type [] type = none
mode_with_type (mode ∷ modes) type =
    let rest = mode_with_type modes type in if str_eq (job_type mode) type then some mode else rest

-- The case of a `switch` on a job's type
unfoldable pub mode_of_type : String → Option Mode
unfolding mode_with_type
mode_of_type type = mode_with_type all_modes type

abbrev is_some : Option Mode → Bool
is_some none = false
is_some (some mode) = true

-- `isExecutableJob`
unfoldable pub is_executable_job : QueueJob → Time → Bool
unfolding mode_of_type
is_executable_job job now =
    is_some (mode_of_type job.type)
    && status_eq job.status pending
    && not (after job.not_before now)

-- `correlationIDForJob`
abbrev pub correlation_id_for_job : QueueJob → String
correlation_id_for_job job =
    if not (str_eq (trim_space job.correlation_id) "")
    then trim_space job.correlation_id
    else job.id

-- What the payload does not tell is taken from the job.
abbrev or_else : String → String → String
or_else value fallback = if str_eq (trim_space value) "" then trim_space fallback else value

abbrev with_repository : QueueJob → SyncRequest → SyncRequest
with_repository job req = record req { repository = or_else req.repository job.repository }

abbrev with_installation : QueueJob → SyncRequest → SyncRequest
with_installation job req =
    if nonpos req.installation_id then record req { installation_id = job.installation_id } else req

abbrev in_mode : Mode → SyncRequest → SyncRequest
in_mode mode req = record req { mode = mode_name mode }

abbrev trimmed_repository : SyncRequest → SyncRequest
trimmed_repository req = record req { repository = trim_space req.repository }

-- The check of the numbered resources
abbrev numbered : SyncRequest → Attempt SyncRequest
numbered req =
    if str_eq req.repository "" || nonpos req.number then broken number_missing else fine req

unfoldable pub numbered_from_job : Mode → QueueJob → SyncRequest → Attempt SyncRequest
numbered_from_job mode job req =
    numbered (trimmed_repository (in_mode mode (with_installation job (with_repository job req))))

abbrev decoded : Normal SyncRequest → Attempt SyncRequest
decoded (normal req) = fine req
decoded (abnormal e) = broken (not_normal e)

abbrev with_uuid : SyncRequest → Normal String → Attempt SyncRequest
with_uuid req (normal id) = fine (record req { user_id = id })
with_uuid req (abnormal e) = broken (not_normal e)

unfoldable pub user_id_from_job : Mode → QueueJob → SyncRequest → Attempt SyncRequest
user_id_from_job mode job req =
    let told = in_mode mode (record req { user_id = or_else req.user_id job.subject }) in
    with_uuid told (normalize_uuid told.user_id)

-- strings.Cut(text, "@")
cut_at : String → String × Option String
cut_at String.[] = (String.[], none)
cut_at (String.◌∷◌ c s) =
    let (before, behind) = cut_at s in
    if code c == b'@' then (String.[], some s) else (String.◌∷◌ c before, behind)

-- The commit of a subject "repository@sha"
unfoldable pub subject_sha : QueueJob → String
unfolding cut_at
subject_sha job =
    let subject = trim_space job.subject in
    elim (cut_at subject).1 [
      | none ↦ subject
      | some sha ↦
          if equal_fold (trim_space (cut_at subject).0) (trim_space job.repository)
          then trim_space sha
          else subject
    ]

abbrev with_sha : QueueJob → SyncRequest → SyncRequest
with_sha job req =
    if str_eq (trim_space req.sha) "" then record req { sha = subject_sha job } else req

abbrev trimmed_sha : SyncRequest → SyncRequest
trimmed_sha req = record req { sha = trim_space req.sha }

abbrev checked : Bool → RunError → SyncRequest → Attempt SyncRequest
checked fails e req = if fails then broken e else fine req

-- The `switch` of `syncRequestFromJob`
unfoldable pub request_in_mode : Mode → QueueJob → SyncRequest → Attempt SyncRequest
unfolding numbered_from_job user_id_from_job subject_sha
request_in_mode Mode.installation job req =
    let told = in_mode Mode.installation (with_installation job req) in
    checked (nonpos told.installation_id) installation_missing told
request_in_mode Mode.repository job req =
    let told =
      trimmed_repository
        (in_mode Mode.repository (with_installation job (with_repository job req))) in
    checked (str_eq told.repository "") repository_missing told
request_in_mode Mode.user job req =
    let told = record req {
      user = trim_space (or_else req.user job.subject);
      mode = mode_name Mode.user;
    } in
    checked (str_eq told.user "") user_missing told
request_in_mode Mode.commit job req =
    let told = trimmed_sha (
      trimmed_repository
        (in_mode Mode.commit (with_sha job (with_installation job (with_repository job req))))) in
    checked (str_eq told.repository "" || str_eq told.sha "") sha_missing told
request_in_mode Mode.analysis_pull_request job req =
    numbered (trimmed_repository (in_mode Mode.analysis_pull_request (with_repository job req)))
request_in_mode Mode.report_materialize_pull_request job req =
    decoded (normalize (in_mode Mode.report_materialize_pull_request (with_repository job req)))
request_in_mode Mode.grade_pull_request job req =
    decoded (normalize (in_mode Mode.grade_pull_request (with_repository job req)))
request_in_mode Mode.leaderboard_materialize_season job req =
    decoded (normalize (in_mode Mode.leaderboard_materialize_season req))
request_in_mode Mode.leaderboard_backfill_history job req =
    decoded (normalize (in_mode Mode.leaderboard_backfill_history req))
request_in_mode Mode.pull_request job req = numbered_from_job Mode.pull_request job req
request_in_mode Mode.review job req = numbered_from_job Mode.review job req
request_in_mode Mode.issue job req = numbered_from_job Mode.issue job req
request_in_mode mode job req = user_id_from_job mode job req

abbrev pub blank_request : SyncRequest
blank_request = record {
  user = "";
  user_id = "";
  repository = "";
  mode = "";
  installation_id = pos 0;
  number = pos 0;
  sha = "";
}

module _ (unmarshal : Bytes → Option SyncRequest) where
  abbrev payload_request : QueueJob → Option SyncRequest
  payload_request job = elim job.payload [
    | [] ↦ some blank_request
    | ◌∷◌ byte bytes ↦ unmarshal job.payload
  ]

  -- `syncRequestFromJob`; `json.Unmarshal` of a payload is handed in.
  unfoldable pub sync_request_from_job : QueueJob → Attempt SyncRequest
  unfolding mode_of_type request_in_mode
  sync_request_from_job job = elim (payload_request job) [
    | none ↦ broken not_decoded
    | some req ↦ elim (mode_of_type job.type) [
      | none ↦ broken not_executable
      | some mode ↦ request_in_mode mode job req
    ]
  ]
