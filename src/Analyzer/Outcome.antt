-- ===== src/Analyzer/Outcome.antt =====
-- What `Service.analyze` gives (gitrank/services/pr-analyzer/internal/analyzer/analyzer.go), and what
-- the scoring engine makes of it.
use text.Mathlib.Text.{◌==◌ as str_eq}
use gitrank.Common.{
  ◌≡◌, refl, sym, ◌∙◌, inl, inr, Bool-cases, ap, true, false, String, Option, none, some, List, [],
  ◌∷◌, trim_space,
}
use gitrank.Common.Words.{member}
use gitrank.Common.Checks.{◌or_then◌}
use gitrank.Common.Float.{Float64}
use gitrank.Contracts.{
  ChangedFile, PullRequestAnalysisRequest, PullRequestAnalysisResponse, ContributorContext,
  ScoreContributionResponse,
}
use gitrank.Contracts.Validation.{Invalid, validate_request, validate}
use gitrank.Scoring.Policy.{ScoringPolicy}
use gitrank.Scoring.Engine.{score, level_for_xp, category_weight, spam_penalty, build_explanation}
use gitrank.Scoring.Shares.{distribute_skill_xp}
use gitrank.Analyzer.Policy.{AnalyzerPolicy}
use gitrank.Analyzer.Paths.{classify_files}
use gitrank.Analyzer.Features.{derive_features}
use gitrank.Analyzer.Languages.{normalize_language_name}
use gitrank.Analyzer.Detected.{AreUnlisted, detect_languages-unlisted}
use gitrank.Analyzer.Checks.{guardrails-deterministic}
use gitrank.Analyzer.Guardrails.{Ungrounded, apply_hallucination_guardrails, primary_error}
use gitrank.Analyzer.Service.{
  refused, analyzed, failed_guardrails, Analyzed, SummaryClient, Answer, said, settle, decide, ask,
  went_wrong, reworded, with_answer, checked, analyze, deterministic, guardrails,
}

module _ (fl : Float64) (policy : AnalyzerPolicy fl.F) where
  open fl use {F}

  -- What is in a response beside the words, the provenance and the signals.
  abbrev evidence : PullRequestAnalysisResponse F → PullRequestAnalysisResponse F
  evidence response = record response {
    summary = "";
    analysis_source = "";
    prompt_version = "";
    model_name = "";
    fallback_reason = "";
    signals = [];
  }

  settle-evidence :
      (ungrounded : Option Ungrounded) (invalid : Option Invalid)
      (response new : PullRequestAnalysisResponse F)
      → evidence new ≡ evidence response
      → evidence (settle ungrounded invalid response new) ≡ evidence response
  unfolding settle
  settle-evidence (some error) invalid response new e = refl
  settle-evidence none (some error) response new e = refl
  settle-evidence none none response new e = e

  with_answer-evidence :
      (req : PullRequestAnalysisRequest) (model : String) (answer : Answer)
      (response : PullRequestAnalysisResponse F)
      → evidence (with_answer fl policy req model answer response) ≡ evidence response
  unfolding with_answer
  with_answer-evidence req model (went_wrong reason) response = refl
  with_answer-evidence req model (said summary) response =
      elim (Bool-cases (str_eq (trim_space summary) "")) [
        | inl blank ↦ rw blank refl
        | inr words ↦ rw words (settle-evidence _ _ response (reworded model summary response) refl)
      ]

  -- The score of an analysis that was given.
  abbrev pub score_of :
      ScoringPolicy F
      → PullRequestAnalysisRequest
      → ContributorContext F
      → Analyzed F
      → Option (ScoreContributionResponse F)
  score_of scoring req contributor (refused error) = none
  score_of scoring req contributor (analyzed response) = some (
      score fl scoring (record {
        repository = req.repository;
        pull_request = req.pull_request;
        analysis = response;
        contributor = contributor;
      }))

  ask-score :
      (scoring : ScoringPolicy F) (contributor : ContributorContext F)
      (client : Option (SummaryClient F)) (req : PullRequestAnalysisRequest) (a : Analyzed F)
      → score_of scoring req contributor (ask fl policy client req a)
        ≡ score_of scoring req contributor a
  unfolding ask score level_for_xp category_weight spam_penalty distribute_skill_xp
      build_explanation
  ask-score scoring contributor client req (refused error) = refl
  ask-score scoring contributor none req (analyzed response) = refl
  ask-score scoring contributor (some c) req (analyzed response) =
      ap (λ e. score_of scoring req contributor (analyzed e))
        (with_answer-evidence req c.model (c.summarize req response) response)

  -- Whatever the language model answers, it changes no score: the scoring engine gives the whole of
  -- its response, total, skills and explanation, as it would without a model, and a pull request that
  -- is refused is refused either way.
  pub score-analyze :
      (scoring : ScoringPolicy F) (contributor : ContributorContext F) (client : SummaryClient F)
      (req : PullRequestAnalysisRequest)
      → score_of scoring req contributor (analyze fl policy (some client) req)
        ≡ score_of scoring req contributor (analyze fl policy none req)
  unfolding analyze
  score-analyze scoring contributor client req =
      ask-score scoring contributor (some client) req (checked fl policy req)
      ∙ sym (ask-score scoring contributor none req (checked fl policy req))

  settle-guardrails :
      (req : PullRequestAnalysisRequest) (ungrounded : Option Ungrounded) (invalid : Option Invalid)
      (response new : PullRequestAnalysisResponse F)
      → guardrails fl policy req response ≡ none
      → guardrails fl policy req new ≡ ungrounded
      → guardrails fl policy req (settle ungrounded invalid response new) ≡ none
  unfolding settle apply_hallucination_guardrails
  settle-guardrails req (some error) invalid response new old e = old
  settle-guardrails req none (some error) response new old e = old
  settle-guardrails req none none response new old e = e

  with_answer-guardrails :
      (req : PullRequestAnalysisRequest) (model : String) (answer : Answer)
      (response : PullRequestAnalysisResponse F)
      → guardrails fl policy req response ≡ none
      → guardrails fl policy req (with_answer fl policy req model answer response) ≡ none
  unfolding with_answer apply_hallucination_guardrails
  with_answer-guardrails req model (went_wrong reason) response old = old
  with_answer-guardrails req model (said summary) response old =
      elim (Bool-cases (str_eq (trim_space summary) "")) [
        | inl blank ↦ rw blank old
        | inr words ↦
            rw words (settle-guardrails req _ _ response (reworded model summary response) old refl)
      ]

  -- The response, if there is one, has the property.
  abbrev pub Given : (PullRequestAnalysisResponse F → Type 0) → Analyzed F → Type 0
  Given P (refused error) = Unit
  Given P (analyzed response) = P response

  ask-guardrails :
      (client : Option (SummaryClient F)) (req : PullRequestAnalysisRequest) (bad : Option Invalid)
      (ungrounded : Option Ungrounded) (invalid : Option Invalid)
      (response : PullRequestAnalysisResponse F)
      → guardrails fl policy req response ≡ ungrounded
      → Given
          (λ r. guardrails fl policy req r ≡ none)
          (ask fl policy client req (decide bad ungrounded invalid response))
  unfolding ask decide
  ask-guardrails client req (some reason) ungrounded invalid response g = tt
  ask-guardrails client req none (some reason) invalid response g = tt
  ask-guardrails client req none none (some reason) response g = tt
  ask-guardrails none req none none none response g = g
  ask-guardrails (some c) req none none none response g =
      with_answer-guardrails req c.model (c.summarize req response) response g

  -- Every response that `analyze` gives passes all guardrails against the request, with a model or
  -- without, whatever the model answers: its category, languages, tags, references, skills and flags
  -- are grounded and its summary has no guarded phrase.
  pub analyze-guardrails :
      (client : Option (SummaryClient F)) (req : PullRequestAnalysisRequest)
      → Given (λ r. guardrails fl policy req r ≡ none) (analyze fl policy client req)
  unfolding analyze checked
  analyze-guardrails client req =
      ask-guardrails client req (validate_request req)
        (guardrails fl policy req (deterministic fl policy req))
        (validate fl (deterministic fl policy req) true) (deterministic fl policy req) refl

  guardrails-unlisted :
      (req : PullRequestAnalysisRequest) (file : ChangedFile) (files : List ChangedFile)
      → req.pull_request.files ≡ file ∷ files
      → AreUnlisted (file ∷ files)
      → (classify_files (file ∷ files)).source ≡ 0
      → str_eq (normalize_language_name req.repository.primary_language) "" ≡ false
      → guardrails fl policy req (deterministic fl policy req)
        ≡ some (primary_error (normalize_language_name req.repository.primary_language))
  unfolding deterministic derive_features ◌or_then◌ member
  guardrails-unlisted req file files changed u s l =
      guardrails-deterministic fl policy req
      ∙ rw changed rw s rw (detect_languages-unlisted req.repository.primary_language file files u)
          rw l refl

  -- A valid request with changed files, none of which has a language of its own or is a source file,
  -- in a repository whose primary language is known, is never analyzed: the primary language is taken
  -- from the repository, but not detected, and the guardrails refuse it.
  pub analyze-unlisted :
      (client : Option (SummaryClient F)) (req : PullRequestAnalysisRequest) (file : ChangedFile)
      (files : List ChangedFile)
      → validate_request req ≡ none
      → req.pull_request.files ≡ file ∷ files
      → AreUnlisted (file ∷ files)
      → (classify_files (file ∷ files)).source ≡ 0
      → let language = normalize_language_name req.repository.primary_language in
        str_eq language "" ≡ false
        → analyze fl policy client req ≡ refused (failed_guardrails (primary_error language))
  unfolding analyze checked decide ask
  analyze-unlisted client req file files valid changed u s l =
      rw valid rw (guardrails-unlisted req file files changed u s l) refl
