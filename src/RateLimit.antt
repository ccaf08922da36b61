-- ===== src/RateLimit.antt =====
-- packages/rate-limit-controller: calls of an API that each origin may make in a while.
pub mod Controller
pub mod Timers
pub mod Quota
mod Tests
