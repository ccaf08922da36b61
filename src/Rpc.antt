-- ===== src/Rpc.antt =====
-- merged-packages/json-rpc-engine: requests that run down a stack of middleware.
pub mod Engine
pub mod Handle
pub mod Nested
pub mod Replies
pub mod Remap
pub mod Merge
pub mod Async
mod Tests
