-- ===== src/Analyzer/Service.antt =====
-- `Service.analyze` of gitrank/services/pr-analyzer/internal/analyzer/analyzer.go. What the language
-- model answers is an argument.
use Prim.Native.String.{◌++◌ as append}
use text.Mathlib.Text.{◌==◌ as str_eq}
use gitrank.Common.{
  Bool, true, false, ◌||◌, String, Option, none, some, List, [], ◌∷◌, ◌++◌, trim_space,
  if◌then◌else◌,
}
use gitrank.Common.Words.{equal_fold}
use gitrank.Common.Float.{Float64}
use gitrank.Contracts.{PullRequestAnalysisRequest, PullRequestAnalysisResponse}
use gitrank.Contracts.Validation.{Invalid, validate_request, validate}
use gitrank.Analyzer.Policy.{AnalyzerPolicy}
use gitrank.Analyzer.Paths.{classify_files}
use gitrank.Analyzer.Features.{derive_features}
use gitrank.Analyzer.Measures.{
  classify_category, category_confidence, technical_depth, review_strength,
}
use gitrank.Analyzer.Report.{build_signals, build_skills, build_flags, build_summary}
use gitrank.Analyzer.Guardrails.{Ungrounded, apply_hallucination_guardrails}

pub data AnalyzeError : Type 0 where
  bad_request : (reason : Invalid) → AnalyzeError
  failed_guardrails : (reason : Ungrounded) → AnalyzeError
  failed_validation : (reason : Invalid) → AnalyzeError

pub data Analyzed (F : Type 0) : Type 0 where
  refused : (error : AnalyzeError) → Analyzed F
  analyzed : (response : PullRequestAnalysisResponse F) → Analyzed F

-- What `Summarize` gives: a text, or an error, with its reason where it is an `aiSummaryError`.
pub data Answer : Type 0 where
  said : (summary : String) → Answer
  went_wrong : (reason : Option String) → Answer

pub record SummaryClient (F : Type 0) : Type 0 where
  pub model : String
  pub summarize : PullRequestAnalysisRequest → PullRequestAnalysisResponse F → Answer

-- `aiFallbackReason`
unfoldable pub ai_fallback_reason : Option String → String
ai_fallback_reason none = "ai_request_failed"
ai_fallback_reason (some reason) =
    if str_eq (trim_space reason) "" then "ai_request_failed" else trim_space reason

listed_already : List String → String → Bool
listed_already [] signal = false
listed_already (existing ∷ signals) signal =
    equal_fold existing signal || listed_already signals signal

-- `appendFallbackReasonSignal`
unfoldable pub append_fallback_reason_signal : List String → String → List String
unfolding listed_already
append_fallback_reason_signal signals reason =
    let signal = append "fallback_reason=" (trim_space reason) in
    if str_eq (trim_space reason) "" || listed_already signals signal
    then signals
    else signals ++ signal ∷ []

-- The response falls back on the deterministic summary, and says why.
abbrev pub fall_back :
    {F : Type 0} → String → PullRequestAnalysisResponse F → PullRequestAnalysisResponse F
fall_back reason response = record response {
  fallback_reason = reason;
  signals = append_fallback_reason_signal response.signals reason;
}

-- The response with the summary of the model.
abbrev pub reworded :
    {F : Type 0} → String → String → PullRequestAnalysisResponse F → PullRequestAnalysisResponse F
reworded model summary response = record response {
  summary = summary;
  analysis_source = "hybrid";
  prompt_version = "ai.summary.v1";
  model_name = model;
  fallback_reason = "";
}

-- What the two checks of the reworded response make of it.
unfoldable pub settle :
    {F : Type 0}
    → Option Ungrounded
    → Option Invalid
    → PullRequestAnalysisResponse F
    → PullRequestAnalysisResponse F
    → PullRequestAnalysisResponse F
settle (some error) invalid response new = fall_back "ai_guardrail_rejected" response
settle none (some error) response new = fall_back "ai_validation_failed" response
settle none none response new = new

-- The three early returns of `analyze`.
unfoldable pub decide :
    {F : Type 0}
    → Option Invalid
    → Option Ungrounded
    → Option Invalid
    → PullRequestAnalysisResponse F
    → Analyzed F
decide (some reason) ungrounded invalid response = refused (bad_request reason)
decide none (some reason) invalid response = refused (failed_guardrails reason)
decide none none (some reason) response = refused (failed_validation reason)
decide none none none response = analyzed response

module _ (fl : Float64) (policy : AnalyzerPolicy fl.F) where
  open fl use {F}

  -- The response before the model is asked.
  unfoldable pub deterministic : PullRequestAnalysisRequest → PullRequestAnalysisResponse F
  deterministic req =
      let pr = req.pull_request in
      let breakdown = classify_files pr.files in
      let features = derive_features req breakdown in
      let category = classify_category req breakdown policy in
      let review = review_strength fl policy pr.reviews features.review_cycles in
      record {
        analysis_id = "";
        pull_request_id = "";
        schema_version = "pr-analysis.v1";
        analyzer_version = "deterministic.v1";
        analysis_source = "deterministic";
        prompt_version = "";
        model_name = "";
        validation_status = "validated";
        fallback_reason = "ai_not_enabled";
        category = category;
        summary = build_summary fl policy category breakdown pr req.repository review features;
        confidence = category_confidence fl policy category breakdown pr features;
        technical_depth = technical_depth fl policy pr breakdown features;
        review_strength = review;
        detected_languages = features.detected_languages;
        primary_detected_language = features.primary_detected_language;
        criticality_tags = features.criticality_tags;
        issue_references = features.issue_references;
        review_cycles = features.review_cycles;
        signals = build_signals req breakdown category features;
        skills = build_skills category breakdown policy;
        flags = build_flags req breakdown features policy;
        file_breakdown = breakdown;
        prompt_suggested = false;
      }

  -- `applyHallucinationGuardrails`, with the breakdown and the features of the request.
  abbrev pub guardrails :
      PullRequestAnalysisRequest → PullRequestAnalysisResponse F → Option Ungrounded
  guardrails req response =
      let breakdown = classify_files req.pull_request.files in
      apply_hallucination_guardrails req breakdown (derive_features req breakdown) response policy

  -- What becomes of the answer of the model.
  unfoldable pub with_answer :
      PullRequestAnalysisRequest
      → String
      → Answer
      → PullRequestAnalysisResponse F
      → PullRequestAnalysisResponse F
  unfolding settle
  with_answer req model (went_wrong reason) response =
      fall_back (ai_fallback_reason reason) response
  with_answer req model (said summary) response =
      if str_eq (trim_space summary) ""
      then fall_back "ai_empty_summary" response
      else settle (guardrails req (reworded model summary response))
          (validate fl (reworded model summary response) true) response
          (reworded model summary response)

  -- The deterministic response, if it is fit to be given.
  unfoldable pub checked : PullRequestAnalysisRequest → Analyzed F
  unfolding decide
  checked req =
      decide (validate_request req) (guardrails req (deterministic req))
        (validate fl (deterministic req) true) (deterministic req)

  -- The model is asked if there is one.
  unfoldable pub ask :
      Option (SummaryClient F) → PullRequestAnalysisRequest → Analyzed F → Analyzed F
  unfolding with_answer
  ask client req (refused error) = refused error
  ask none req (analyzed response) = analyzed response
  ask (some c) req (analyzed response) =
      analyzed (with_answer req c.model (c.summarize req response) response)

  -- `Service.analyze`
  unfoldable pub analyze : Option (SummaryClient F) → PullRequestAnalysisRequest → Analyzed F
  unfolding checked ask
  analyze client req = ask client req (checked req)
