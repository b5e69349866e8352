-- ===== src/GithubApi.antt =====
-- gitrank/packages/githubapi: the circuit breaker, and the retry loops of the clients behind it.
pub mod Breaker
pub mod Client
mod Examples
