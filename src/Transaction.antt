-- ===== src/Transaction.antt =====
-- packages/transaction-controller: the transactions of the wallet, from the request to the chain.
pub mod State
pub mod Trim
pub mod Trimmed
pub mod Order
pub mod Params
pub mod GasFees
pub mod Fees
pub mod Store
pub mod Controller
pub mod Approve
pub mod Replace
pub mod Raised
pub mod Replaced
pub mod External
pub mod Tracker
pub mod Lock
pub mod Quiet
pub mod Stuck
pub mod Lost
pub mod Removal
pub mod Normal
pub mod Answered
pub mod Process
pub mod Steps
pub mod Waiting
mod Samples
mod Tests
