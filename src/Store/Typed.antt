-- ===== src/Store/Typed.antt =====
-- Which type of job `BuildSyncJobs` (gitrank/packages/store/sync_builder.go) makes for the mode
-- that a request names, with `SyncRequest.Normalize`
-- (gitrank/packages/contracts/sync_validation.go).
use text.Mathlib.Text.{◌==◌ as str_eq}
use gitrank.Common.{
  eq_iff, ◌≡◌, refl, sym, ◌∙◌, ap, subst, inl, inr, Bool-cases, Option-cases, false, String, Option,
  none, some, List, [], ◌∷◌, trim_space, if◌then◌else◌, arith,
}
use gitrank.Common.Int.{ℤ, nonpos}
use gitrank.Common.Words.{to_lower}
use gitrank.Common.Clock.{Time}
use gitrank.Contracts.Sync.{
  SyncRequest, Normal, normal, abnormal, ◌>>=◌, number_required, normalize_github_login,
  normalize_github_repository, normalize_commit_sha, normalize_uuid, normalize_optional_sync_user,
}
use gitrank.Contracts.Modes.{
  Mode, mode_name, all_modes, mode_in, mode_of, trimmed, normalize, normalize_mode,
  normalize_resource, normalize_user_id,
}
use gitrank.Store.Jobs.{Bytes, QueueJob}
use gitrank.Store.Queue.History.{IsNew}
use gitrank.Store.SyncJobs.{Payload, built, job_type, build_sync_jobs}
use gitrank.Store.Built.{IsAsked, build_sync_jobs-IsAsked}

-- The types of jobs by the texts of the modes.
abbrev pub job_types : List (String × String)
job_types =
    ("installation", "sync.installation")
    ∷ ("user", "sync.user_history")
    ∷ ("repository", "sync.repository")
    ∷ ("pull_request", "sync.pull_request")
    ∷ ("review", "sync.review")
    ∷ ("issue", "sync.issue")
    ∷ ("commit", "sync.commit")
    ∷ ("analysis_pull_request", "analysis.pull_request")
    ∷ ("report_materialize_pull_request", "report.materialize_pull_request")
    ∷ ("report_backfill_user_pull_requests", "report.backfill_user_pull_requests")
    ∷ ("grade_pull_request", "pipeline.grade_pull_request")
    ∷ ("backfill_user_history", "pipeline.backfill_user_history")
    ∷ ("score_replay", "score.replay_user")
    ∷ ("score_history_backfill_user", "score_history.backfill_user")
    ∷ ("quest_backfill_user", "quest.backfill_user")
    ∷ ("badge_backfill_user", "badge.backfill_user")
    ∷ ("profile_refresh", "profile.refresh_user")
    ∷ ("leaderboard_materialize_season", "leaderboard.materialize_season")
    ∷ ("leaderboard_backfill_history", "leaderboard.backfill_history")
    ∷ []

unfoldable pub listed : List (String × String) → String → Option String
listed [] text = none
listed ((name, type) ∷ rows) text =
    let rest = listed rows text in if str_eq name text then some type else rest

job_type-listed : (mode : Mode) → listed job_types (mode_name mode) ≡ some (job_type mode)
unfolding listed job_type
job_type-listed Mode.installation = refl
job_type-listed Mode.user = refl
job_type-listed Mode.repository = refl
job_type-listed Mode.pull_request = refl
job_type-listed Mode.review = refl
job_type-listed Mode.issue = refl
job_type-listed Mode.analysis_pull_request = refl
job_type-listed Mode.report_materialize_pull_request = refl
job_type-listed Mode.commit = refl
job_type-listed Mode.grade_pull_request = refl
job_type-listed Mode.report_backfill_user_pull_requests = refl
job_type-listed Mode.quest_backfill_user = refl
job_type-listed Mode.score_history_backfill_user = refl
job_type-listed Mode.badge_backfill_user = refl
job_type-listed Mode.backfill_user_history = refl
job_type-listed Mode.score_replay = refl
job_type-listed Mode.profile_refresh = refl
job_type-listed Mode.leaderboard_materialize_season = refl
job_type-listed Mode.leaderboard_backfill_history = refl

mode_in-name :
    (modes : List Mode) (text : String) (mode : Mode)
    → mode_in modes text ≡ some mode
    → mode_name mode ≡ text
unfolding mode_in
mode_in-name [] text mode h = ground arith
mode_in-name (first ∷ modes) text mode h = elim (Bool-cases (str_eq (mode_name first) text)) [
  | inl hit ↦
      let same : first ≡ mode = ground arith in
      subst (λ m. mode_name m ≡ text) same ((eq_iff (mode_name first) text).0 hit)
  | inr miss ↦ mode_in-name modes text mode (ground arith)
]

mode_of-name : (text : String) (mode : Mode) → mode_of text ≡ some mode → mode_name mode ≡ text
unfolding mode_of
mode_of-name text mode h = mode_in-name all_modes text mode h

-- A request that is normal has the mode `text`.
abbrev KeepsMode : String → Normal SyncRequest → Type 0
KeepsMode text (normal req) = req.mode ≡ text
KeepsMode text (abnormal e) = Unit

then-KeepsMode :
    {A : Type 0} (text : String) (n : Normal A) (f : A → Normal SyncRequest)
    → ((a : A) → KeepsMode text (f a))
    → KeepsMode text (n >>= f)
then-KeepsMode text (normal a) f h = h a
then-KeepsMode text (abnormal e) f h = tt

numbered-KeepsMode :
    (req : SyncRequest) (f : SyncRequest → Normal SyncRequest)
    → KeepsMode req.mode (f req)
    → KeepsMode req.mode
        ((if nonpos req.number then abnormal number_required else normal req) >>= f)
numbered-KeepsMode req f h = elim (Bool-cases (nonpos req.number)) [
  | inl none_given ↦ rw none_given tt
  | inr given ↦ rw given h
]

normalize_resource-KeepsMode : (req : SyncRequest) → KeepsMode req.mode (normalize_resource req)
unfolding normalize_resource
normalize_resource-KeepsMode req =
    then-KeepsMode req.mode (normalize_github_repository req.repository) _ (λ name.
      numbered-KeepsMode req _
        (then-KeepsMode req.mode (normalize_optional_sync_user req.user) _ (λ login. refl)))

normalize_user_id-KeepsMode : (req : SyncRequest) → KeepsMode req.mode (normalize_user_id req)
unfolding normalize_user_id
normalize_user_id-KeepsMode req =
    then-KeepsMode req.mode (normalize_uuid req.user_id) _ (λ id. refl)

normalize_mode-KeepsMode :
    (mode : Mode) (req : SyncRequest) → KeepsMode req.mode (normalize_mode mode req)
unfolding normalize_mode
normalize_mode-KeepsMode Mode.installation req = elim (Bool-cases (nonpos req.installation_id)) [
  | inl none_given ↦ rw none_given tt
  | inr given ↦ rw given refl
]
normalize_mode-KeepsMode Mode.user req =
    then-KeepsMode req.mode (normalize_github_login req.user) _ (λ login. refl)
normalize_mode-KeepsMode Mode.repository req =
    then-KeepsMode req.mode (normalize_github_repository req.repository) _
      (λ name. then-KeepsMode req.mode (normalize_optional_sync_user req.user) _ (λ login. refl))
normalize_mode-KeepsMode Mode.pull_request req = normalize_resource-KeepsMode req
normalize_mode-KeepsMode Mode.review req = normalize_resource-KeepsMode req
normalize_mode-KeepsMode Mode.issue req = normalize_resource-KeepsMode req
normalize_mode-KeepsMode Mode.analysis_pull_request req = normalize_resource-KeepsMode req
normalize_mode-KeepsMode Mode.report_materialize_pull_request req = normalize_resource-KeepsMode req
normalize_mode-KeepsMode Mode.grade_pull_request req =
    then-KeepsMode req.mode (normalize_github_repository req.repository) _ (λ name.
      numbered-KeepsMode req _
        (then-KeepsMode req.mode (normalize_uuid req.user_id) _ (λ id. refl)))
normalize_mode-KeepsMode Mode.commit req =
    then-KeepsMode req.mode (normalize_github_repository req.repository) _ (λ name.
      then-KeepsMode req.mode (normalize_commit_sha req.sha) _ (λ commit.
        then-KeepsMode req.mode (normalize_optional_sync_user req.user) _ (λ login. refl)))
normalize_mode-KeepsMode Mode.leaderboard_materialize_season req = refl
normalize_mode-KeepsMode Mode.leaderboard_backfill_history req = refl
normalize_mode-KeepsMode mode req = normalize_user_id-KeepsMode req

normalize-KeepsMode :
    (req : SyncRequest) → KeepsMode (to_lower (trim_space req.mode)) (normalize req)
unfolding normalize
normalize-KeepsMode req = elim (Option-cases (mode_of (to_lower (trim_space req.mode)))) [
  | inl unknown ↦ rw (unknown, normalize) tt
  | inr (mode, known) ↦ rw (known, normalize) (normalize_mode-KeepsMode mode (trimmed req))
]

asked-listed :
    (text : String) (n : Normal SyncRequest) (mode : Mode)
    → KeepsMode text n
    → IsAsked n mode
    → listed job_types text ≡ some (job_type mode)
asked-listed text (normal req) mode keeps known =
    subst (λ t. listed job_types t ≡ some (job_type mode))
      (mode_of-name req.mode mode known ∙ keeps) (job_type-listed mode)
asked-listed text (abnormal e) mode keeps known = elim known [ ]

-- If a build of sync jobs succeeds, it made exactly one job: its type is the one that stands beside
-- the mode of the request, trimmed and in lower case, in the list of modes; it has the handed id and
-- a dedupe key that is not empty; and it is pending, with no attempt used and at least one allowed.
pub build_sync_jobs-listed :
    (marshal : Payload → Option Bytes) (clock : Time) (new_id : String) (req : SyncRequest)
    (queue_name correlation : String) (max_attempts : ℤ) (jobs : List QueueJob)
    → build_sync_jobs marshal clock new_id req queue_name correlation max_attempts ≡ built jobs
    → (job : QueueJob) × (jobs ≡ job ∷ [])
      × (listed job_types (to_lower (trim_space req.mode)) ≡ some job.type)
      × (job.id ≡ new_id)
      × (str_eq job.dedupe_key "" ≡ false)
      × IsNew job
build_sync_jobs-listed marshal clock new_id req queue_name correlation max_attempts jobs h =
    let (mode, job, alone, asked, drafted) =
      build_sync_jobs-IsAsked marshal clock new_id req queue_name correlation max_attempts jobs h in
    (
      job,
      alone,
      asked-listed (to_lower (trim_space req.mode)) (normalize req) mode (normalize-KeepsMode req)
            asked
          ∙ ap some (sym drafted.same_type),
      drafted.same_id,
      drafted.known,
      drafted.fresh,
    )
