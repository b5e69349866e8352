-- ===== src/Scoring.antt =====
-- The scoring engine: gitrank/services/scoring-engine/internal/scoring/engine.go.
pub mod Policy
pub mod Shares
pub mod Engine
pub mod Bounds
pub mod Skills
mod Examples
