-- ===== src/Announcement.antt =====
-- packages/announcement-controller: announcements and which of them the user has seen.
pub mod Controller
pub mod Shown
mod Tests
