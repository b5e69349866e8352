-- ===== src/Replay.antt =====
-- The replay of a user's contributions: gitrank/services/scoring-engine/internal/service.
pub mod History
pub mod Streaks
mod Examples
