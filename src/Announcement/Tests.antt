-- ===== src/Announcement/Tests.antt =====
-- The theorems on AnnouncementController.ts at concrete inputs.
use fork_metamask_core.Common.{ℕ, Bool, true, false, [], ◌∷◌, nat_eq}
use fork_metamask_core.Common.Assoc.{Assoc}
use fork_metamask_core.Announcement.Controller.{Announcement, State}

abbrev persisted : State
persisted = record {
  announcements =
      (1, record { id = 1; date = "a"; is_shown = true })
      ∷ (2, record { id = 2; date = "b"; is_shown = false })
      ∷ [];
}

abbrev release : Assoc ℕ Announcement
release = (1, record { id = 1; date = "a" }) ∷ (3, record { id = 3; date = "c" }) ∷ []

abbrev seen : Assoc ℕ Bool
seen = (2, true) ∷ []
