-- ===== src/Permission.antt =====
-- packages/permission-controller: what each origin may call, under which caveats.
pub mod State
pub mod Validation
pub mod Subjects
pub mod Caveats
pub mod Grants
pub mod Requests
pub mod Methods
pub mod Sound
pub mod Keeps
pub mod Changes
pub mod Mutating
mod Filling
pub mod Granting
pub mod Runs
pub mod Atomic
pub mod Guarded
pub mod Decorated
pub mod Reads
pub mod Revoking
pub mod Rights
pub mod Granted
pub mod Kept
pub mod Refines
pub mod Metadata
pub mod Known
pub mod Approvals
pub mod RpcMethods
mod Tests
mod OtherTests
