-- ===== src/Contracts/Modes.antt =====
-- gitrank/packages/contracts/sync_validation.go: `SyncRequest.Normalize`, with the modes that its
-- `switch` knows.
use text.Mathlib.Text.{◌==◌ as str_eq}
use gitrank.Common.{String, Option, none, some, List, [], ◌∷◌, trim_space, if◌then◌else◌}
use gitrank.Common.Int.{nonpos}
use gitrank.Common.Words.{to_lower}
use gitrank.Contracts.Sync.{
  SyncRequest, Normal, normal, abnormal, ◌>>=◌, installation_required, number_required,
  unsupported_mode, normalize_github_login, normalize_github_repository, normalize_commit_sha,
  normalize_uuid, normalize_optional_sync_user,
}

-- The modes by what they act on: an installation, a user, a repository, a numbered resource, a
-- commit, a pull request to grade, a user's id, or the leaderboard.
pub data Mode : Type 0 where
  installation user repository : Mode
  pull_request review issue analysis_pull_request report_materialize_pull_request : Mode
  commit grade_pull_request : Mode
  report_backfill_user_pull_requests quest_backfill_user score_history_backfill_user : Mode
  badge_backfill_user backfill_user_history score_replay profile_refresh : Mode
  leaderboard_materialize_season leaderboard_backfill_history : Mode

-- The text of a mode
abbrev pub mode_name : Mode → String
mode_name installation = "installation"
mode_name user = "user"
mode_name repository = "repository"
mode_name pull_request = "pull_request"
mode_name review = "review"
mode_name issue = "issue"
mode_name analysis_pull_request = "analysis_pull_request"
mode_name report_materialize_pull_request = "report_materialize_pull_request"
mode_name commit = "commit"
mode_name grade_pull_request = "grade_pull_request"
mode_name report_backfill_user_pull_requests = "report_backfill_user_pull_requests"
mode_name quest_backfill_user = "quest_backfill_user"
mode_name score_history_backfill_user = "score_history_backfill_user"
mode_name badge_backfill_user = "badge_backfill_user"
mode_name backfill_user_history = "backfill_user_history"
mode_name score_replay = "score_replay"
mode_name profile_refresh = "profile_refresh"
mode_name leaderboard_materialize_season = "leaderboard_materialize_season"
mode_name leaderboard_backfill_history = "leaderboard_backfill_history"

abbrev pub all_modes : List Mode
all_modes =
    installation ∷ user ∷ repository ∷ pull_request ∷ review ∷ issue ∷ analysis_pull_request
    ∷ report_materialize_pull_request ∷ commit ∷ grade_pull_request
    ∷ report_backfill_user_pull_requests ∷ quest_backfill_user ∷ score_history_backfill_user
    ∷ badge_backfill_user ∷ backfill_user_history ∷ score_replay ∷ profile_refresh
    ∷ leaderboard_materialize_season ∷ leaderboard_backfill_history ∷ []

unfoldable pub mode_in : List Mode → String → Option Mode
mode_in [] text = none
mode_in (mode ∷ modes) text =
    let rest = mode_in modes text in if str_eq (mode_name mode) text then some mode else rest

-- The case of the two `switch`es on a mode, that of `Normalize` and that of `BuildSyncJobs`.
unfoldable pub mode_of : String → Option Mode
unfolding mode_in
mode_of text = mode_in all_modes text

abbrev pub trimmed : SyncRequest → SyncRequest
trimmed req = record {
  user = trim_space req.user;
  user_id = trim_space req.user_id;
  repository = trim_space req.repository;
  mode = to_lower (trim_space req.mode);
  installation_id = req.installation_id;
  number = req.number;
  sha = trim_space req.sha;
}

-- The numbered resources: repository, number, then the optional user.
unfoldable pub normalize_resource : SyncRequest → Normal SyncRequest
normalize_resource req = do
  full_name ← normalize_github_repository req.repository
  numbered ← if nonpos req.number then abnormal number_required else normal req
  login ← normalize_optional_sync_user req.user
  normal (record numbered { repository = full_name; user = login })

unfoldable pub normalize_user_id : SyncRequest → Normal SyncRequest
normalize_user_id req = do id ← normalize_uuid req.user_id; normal (record req { user_id = id })

-- The `switch` of `Normalize`
unfoldable pub normalize_mode : Mode → SyncRequest → Normal SyncRequest
unfolding normalize_resource normalize_user_id
normalize_mode installation req =
    if nonpos req.installation_id then abnormal installation_required else normal req
normalize_mode user req = do
  login ← normalize_github_login req.user
  normal (record req { user = login })
normalize_mode repository req = do
  full_name ← normalize_github_repository req.repository
  login ← normalize_optional_sync_user req.user
  normal (record req { repository = full_name; user = login })
normalize_mode pull_request req = normalize_resource req
normalize_mode review req = normalize_resource req
normalize_mode issue req = normalize_resource req
normalize_mode analysis_pull_request req = normalize_resource req
normalize_mode report_materialize_pull_request req = normalize_resource req
normalize_mode grade_pull_request req = do
  full_name ← normalize_github_repository req.repository
  numbered ← if nonpos req.number then abnormal number_required else normal req
  id ← normalize_uuid req.user_id
  normal (record numbered { repository = full_name; user_id = id })
normalize_mode commit req = do
  full_name ← normalize_github_repository req.repository
  commit_id ← normalize_commit_sha req.sha
  login ← normalize_optional_sync_user req.user
  normal (record req { repository = full_name; sha = commit_id; user = login })
normalize_mode leaderboard_materialize_season req = normal req
normalize_mode leaderboard_backfill_history req = normal req
normalize_mode report_backfill_user_pull_requests req = normalize_user_id req
normalize_mode quest_backfill_user req = normalize_user_id req
normalize_mode score_history_backfill_user req = normalize_user_id req
normalize_mode badge_backfill_user req = normalize_user_id req
normalize_mode backfill_user_history req = normalize_user_id req
normalize_mode score_replay req = normalize_user_id req
normalize_mode profile_refresh req = normalize_user_id req

-- `SyncRequest.Normalize`; the request is passed by value where the source changes it in place.
unfoldable pub normalize : SyncRequest → Normal SyncRequest
unfolding mode_of normalize_mode
normalize req = elim (mode_of (to_lower (trim_space req.mode))) [
  | none ↦ abnormal unsupported_mode
  | some mode ↦ normalize_mode mode (trimmed req)
]
