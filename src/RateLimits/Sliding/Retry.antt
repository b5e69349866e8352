-- ===== src/RateLimits/Sliding/Retry.antt =====
-- The delay that a refusal of a sliding-window limiter names
-- (gitrank/services/api-gateway/internal/httpapi and gitrank/services/auth-service/internal/service,
-- ratelimit.go in each).
