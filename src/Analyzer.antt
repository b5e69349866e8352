-- ===== src/Analyzer.antt =====
-- The pull request analyzer: gitrank/services/pr-analyzer/internal/analyzer.
pub mod Policy
pub mod Paths
pub mod Languages
pub mod References
pub mod Features
pub mod Measures
pub mod Report
pub mod Guardrails
pub mod Service
pub mod Grounded
pub mod Detected
pub mod Checks
pub mod Outcome
pub mod Counted
pub mod Bounds
pub mod Normalize
pub mod Loaded
mod Examples
