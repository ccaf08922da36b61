-- ===== src/Announcement/Controller.antt =====
-- packages/announcement-controller/src/AnnouncementController.ts. Ids are numbers, and an object by
-- id is a list of entries. A throw inside `update` drops what was written to the draft.
use fork_metamask_core.Common.{ℕ, String, Bool, false, Option, none, some, List, [], ◌∷◌, nat_eq}
use fork_metamask_core.Common.Assoc.{Assoc}
use fork_metamask_core.Common.Assoc
use fork_metamask_core.Common.Monad.{ok, err, Action}

pub record Announcement : Type 0 where
  pub id : ℕ
  pub date : String

pub record StateAnnouncement : Type 0 where
  pub id : ℕ
  pub date : String
  pub is_shown : Bool

pub record State : Type 0 where
  pub announcements : Assoc ℕ StateAnnouncement

-- A property is written of `undefined`.
pub data Error : Type 0 where
  type_error : Error

-- `state.announcements[id] ?? { ...announcement, isShown: false }`.
abbrev pub shown_or_new : Option StateAnnouncement → Announcement → StateAnnouncement
shown_or_new (some x) a = x
shown_or_new none a = record { id = a.id; date = a.date; is_shown = false }

abbrev pub add_announcement : Announcement → Assoc ℕ StateAnnouncement → Assoc ℕ StateAnnouncement
add_announcement a table = Assoc.set a.id (shown_or_new (Assoc.get a.id table) a) table

-- The `forEach` over the values.
unfoldable pub add_all : List Announcement → Assoc ℕ StateAnnouncement → Assoc ℕ StateAnnouncement
add_all [] table = table
add_all (a ∷ xs) table = add_all xs (add_announcement a table)

-- `#addAnnouncements`.
unfoldable pub add_announcements : Assoc ℕ Announcement → State → State
add_announcements all s = record s { announcements = add_all (Assoc.values all) s.announcements }

-- The constructor, with the state that was persisted.
unfoldable pub new_controller : Option State → Assoc ℕ Announcement → State
new_controller none all = add_announcements all (record { announcements = [] })
new_controller (some s) all = add_announcements all s

-- The loop of `updateViewed` on a draft; `none` is a throw.
abbrev pub view_one :
    ℕ
    → Bool
    → Option StateAnnouncement
    → Assoc ℕ StateAnnouncement
    → Option (Assoc ℕ StateAnnouncement)
view_one id shown none table = none
view_one id shown (some x) table = some (Assoc.set id (record x { is_shown = shown }) table)

unfoldable pub view_all :
    Assoc ℕ Bool → Assoc ℕ StateAnnouncement → Option (Assoc ℕ StateAnnouncement)
view_all [] table = some table
view_all ((id, shown) ∷ viewed) table = elim (view_one id shown (Assoc.get id table) table) [
  | none ↦ none
  | some next ↦ view_all viewed next
]

abbrev pub written : Option (Assoc ℕ StateAnnouncement) → Action State Error (Unit {0})
written none s = (err type_error, s)
written (some table) s = (ok tt, record s { announcements = table })

unfoldable pub update_viewed : Assoc ℕ Bool → Action State Error (Unit {0})
update_viewed viewed s = written (view_all viewed s.announcements) s
