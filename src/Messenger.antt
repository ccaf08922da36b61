-- ===== src/Messenger.antt =====
-- packages/base-controller: the messenger by which the controllers call and notify one another.
pub mod Bus
pub mod Restricted
pub mod Actions
pub mod Delivery
pub mod Changes
pub mod Stale
pub mod Namespaces
mod Tests
