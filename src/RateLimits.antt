-- ===== src/RateLimits.antt =====
-- The three in-memory rate limiters: gitrank/services/api-gateway/internal/httpapi/ratelimit.go,
-- gitrank/services/auth-service/internal/service/ratelimit.go and
-- gitrank/services/scheduler-worker/internal/service/ratelimit.go.
pub mod Sliding
pub mod Scoped
mod Examples
