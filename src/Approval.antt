-- ===== src/Approval.antt =====
-- packages/approval-controller: requests that wait for the user's decision, and approval flows.
pub mod State
pub mod Queries
pub mod Requests
pub mod Flows
mod Counts
pub mod Invariant
pub mod Deletion
pub mod Settling
pub mod Adding
pub mod Calls
pub mod Runs
pub mod Promises
pub mod Limits
pub mod Answers
pub mod Outcomes
pub mod Sessions
mod Tests
