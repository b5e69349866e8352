-- ===== src/Scheduler/Execute.antt =====
-- `executeLeasedJob` and the jobs that are made of several calls
-- (gitrank/services/scheduler-worker/internal/service/runner.go). The services behind the runners
-- are an argument, `perform`, which has a state of its own.
use gitrank.Common.{Bool, true, false, String, Option, none, some, List, [], ◌∷◌, if◌then◌else◌}
use gitrank.Common.Int.{ℤ}
use gitrank.Contracts.Sync.{SyncRequest}
use gitrank.Contracts.Modes.{Mode}
use gitrank.Store.Jobs.{Bytes, QueueJob}
use gitrank.Scheduler.Decode.{
  not_configured, not_executable, Attempt, fine, broken, sync_request_from_job,
  correlation_id_for_job, mode_of_type, blank_request,
}

-- The runners that are configured: the others are nil.
pub record Runners : Type 0 where
  pub repository : Bool
  pub analysis : Bool
  pub score : Bool
  pub profile : Bool
  pub report : Bool
  pub leaderboard : Bool
  pub backfill_weeks : ℤ

-- The methods of the executors, by what they ask of a service.
pub data ServiceCall : Type 0 where
  syncs : Mode → SyncRequest → ServiceCall
  analyzes : SyncRequest → ServiceCall
  replays_user refreshes_profile backfills_quests backfills_reports :
      (user_id : String) → ServiceCall
  materializes_report loads_report : (repository : String) (number : ℤ) → ServiceCall
  materializes_leaderboard : ServiceCall
  backfills_leaderboard : (weeks : ℤ) → ServiceCall

-- What runners a kind of job asks for, in the order in which they are missed.
pub record Need : Type 0 where
  pub present : Bool
  pub runner : String

unfoldable pub first_missing : List Need → Option String
first_missing [] = none
first_missing (need ∷ needs) =
    let later = first_missing needs in if need.present then later else some need.runner

-- `executeScoreHistoryBackfillJob`, as the calls that it makes
abbrev pub score_history_calls : SyncRequest → List ServiceCall
score_history_calls req = replays_user req.user_id ∷ refreshes_profile req.user_id ∷ []

-- `executeBadgeBackfillJob`
abbrev pub badge_calls : SyncRequest → List ServiceCall
badge_calls req =
    replays_user req.user_id ∷ backfills_quests req.user_id ∷ refreshes_profile req.user_id ∷ []

-- `executePullRequestGradeJob`
abbrev pub grade_calls : SyncRequest → List ServiceCall
grade_calls req =
    syncs Mode.pull_request req
    ∷ analyzes req
    ∷ replays_user req.user_id
    ∷ refreshes_profile req.user_id
    ∷ materializes_report req.repository req.number
    ∷ loads_report req.repository req.number
    ∷ []

-- `executeUserHistoryBackfillJob`
abbrev pub user_history_calls : SyncRequest → List ServiceCall
user_history_calls req =
    replays_user req.user_id
    ∷ refreshes_profile req.user_id
    ∷ backfills_quests req.user_id
    ∷ refreshes_profile req.user_id
    ∷ backfills_reports req.user_id
    ∷ materializes_leaderboard
    ∷ []

module _ (runners : Runners) where
  abbrev repository_need : Need
  repository_need = record { present = runners.repository; runner = "bounded sync runner" }

  abbrev analysis_need : Need
  analysis_need = record { present = runners.analysis; runner = "pull request analysis runner" }

  abbrev score_need : Need
  score_need = record { present = runners.score; runner = "score replay runner" }

  abbrev profile_need : Need
  profile_need = record { present = runners.profile; runner = "profile refresh runner" }

  abbrev report_need : Need
  report_need = record { present = runners.report; runner = "pull request report runner" }

  abbrev leaderboard_need : Need
  leaderboard_need = record { present = runners.leaderboard; runner = "leaderboard runner" }

  -- The checks against nil at the head of each case
  unfoldable pub needs : Mode → List Need
  needs Mode.analysis_pull_request = analysis_need ∷ []
  needs Mode.score_replay = score_need ∷ []
  needs Mode.profile_refresh = profile_need ∷ []
  needs Mode.report_materialize_pull_request = report_need ∷ []
  needs Mode.report_backfill_user_pull_requests = report_need ∷ []
  needs Mode.score_history_backfill_user = score_need ∷ profile_need ∷ []
  needs Mode.badge_backfill_user = score_need ∷ profile_need ∷ []
  needs Mode.quest_backfill_user = profile_need ∷ []
  needs Mode.leaderboard_materialize_season = leaderboard_need ∷ []
  needs Mode.leaderboard_backfill_history = leaderboard_need ∷ []
  needs Mode.backfill_user_history = score_need ∷ profile_need ∷ report_need ∷ leaderboard_need ∷ []
  needs Mode.grade_pull_request =
      repository_need ∷ analysis_need ∷ score_need ∷ profile_need ∷ report_need ∷ []
  needs mode = repository_need ∷ []

  -- The calls of each case, in their order
  unfoldable pub calls_of : Mode → SyncRequest → List ServiceCall
  calls_of Mode.analysis_pull_request req = analyzes req ∷ []
  calls_of Mode.score_replay req = replays_user req.user_id ∷ []
  calls_of Mode.profile_refresh req = refreshes_profile req.user_id ∷ []
  calls_of Mode.report_materialize_pull_request req =
      materializes_report req.repository req.number ∷ []
  calls_of Mode.report_backfill_user_pull_requests req = backfills_reports req.user_id ∷ []
  calls_of Mode.score_history_backfill_user req = score_history_calls req
  calls_of Mode.badge_backfill_user req = badge_calls req
  calls_of Mode.quest_backfill_user req = backfills_quests req.user_id ∷ []
  calls_of Mode.leaderboard_materialize_season req = materializes_leaderboard ∷ []
  calls_of Mode.leaderboard_backfill_history req = backfills_leaderboard runners.backfill_weeks ∷ []
  calls_of Mode.backfill_user_history req = user_history_calls req
  calls_of Mode.grade_pull_request req = grade_calls req
  calls_of mode req = syncs mode req ∷ []

-- The leaderboard jobs do not read their request.
abbrev reads_request : Mode → Bool
reads_request Mode.leaderboard_materialize_season = false
reads_request Mode.leaderboard_backfill_history = false
reads_request mode = true

module _ {W R : Type 0} (perform : ServiceCall → String → W → W × Attempt R) where
  -- The calls one after the other, up to the first that fails
  unfoldable pub call_all : List ServiceCall → String → W → W × Attempt (List R)
  call_all [] correlation world = (world, fine [])
  call_all (c ∷ cs) correlation world =
      let (next, answer) = perform c correlation world in
      elim answer [
        | broken e ↦ (next, broken e)
        | fine r ↦
            let (last, answers) = call_all cs correlation next in
            elim answers [ broken e ↦ (last, broken e) | fine rs ↦ (last, fine (r ∷ rs)) ]
      ]

  abbrev call_decoded : Runners → Mode → Attempt SyncRequest → String → W → W × Attempt (List R)
  call_decoded runners mode (broken e) correlation world = (world, broken e)
  call_decoded runners mode (fine req) correlation world =
      call_all (calls_of runners mode req) correlation world

  unfoldable pub execute_mode :
      (Bytes → Option SyncRequest) → Runners → Mode → QueueJob → W → W × Attempt (List R)
  unfolding call_all first_missing needs calls_of sync_request_from_job
  execute_mode unmarshal runners mode job world = elim (first_missing (needs runners mode)) [
    | some runner ↦ (world, broken (not_configured runner))
    | none ↦
        if reads_request mode
        then call_decoded runners mode (sync_request_from_job unmarshal job)
            (correlation_id_for_job job) world
        else call_all (calls_of runners mode blank_request) (correlation_id_for_job job) world
  ]

  -- `executeLeasedJob`; the responses are in the order of the calls.
  unfoldable pub execute_leased_job :
      (Bytes → Option SyncRequest) → Runners → QueueJob → W → W × Attempt (List R)
  unfolding execute_mode mode_of_type
  execute_leased_job unmarshal runners job world = elim (mode_of_type job.type) [
    | none ↦ (world, broken not_executable)
    | some mode ↦ execute_mode unmarshal runners mode job world
  ]
