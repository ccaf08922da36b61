-- ===== src/Queue.antt =====
-- packages/queued-request-controller: requests that should run one after the other.
pub mod Controller
pub mod Progress
pub mod Overlap
mod Tests
