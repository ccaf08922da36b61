-- ===== src/Messages.antt =====
-- packages/message-manager: messages that wait for the user, and the promises of their ends.
pub mod Manager
pub mod Saved
pub mod Finish
pub mod Waits
mod Tests
