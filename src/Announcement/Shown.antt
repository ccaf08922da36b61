-- ===== src/Announcement/Shown.antt =====
-- What AnnouncementController.ts remembers of announcements that were seen.
use fork_metamask_core.Common.{
  ℕ, ◌≡◌, refl, Bool, true, false, Option, none, some, List, [], ◌∷◌, nat_eq, arith, inl, inr, find,
  if◌then◌else◌, eqb, eqb_iff, Option-cases, is_some,
}
use fork_metamask_core.Common.Assoc.{Assoc, Distinct, get-set}
use fork_metamask_core.Common.Assoc
use fork_metamask_core.Common.Monad.{ok, err}
use fork_metamask_core.Announcement.Controller.{
  Announcement, StateAnnouncement, State, type_error, shown_or_new, add_announcement, add_all,
  add_announcements, new_controller, view_all, update_viewed,
}

abbrev pub is_about : ℕ → Announcement → Bool
is_about j a = eqb a.id j

abbrev pub first_new : Option Announcement → Option StateAnnouncement
first_new none = none
first_new (some a) = some (shown_or_new none a)

-- What stands under an id: what stood there before, else the first new announcement of the id.
abbrev pub joined : Option StateAnnouncement → Option StateAnnouncement → Option StateAnnouncement
joined (some x) y = some x
joined none y = y

get-add_all :
    (j : ℕ) (xs : List Announcement) (table : Assoc ℕ StateAnnouncement)
    → Assoc.get j (add_all xs table) ≡ joined (Assoc.get j table) (first_new (find (is_about j) xs))
unfolding add_all
get-add_all j [] table = ground (arith, Option-cases (Assoc.get j table))
get-add_all j (a ∷ xs) table = ground (
  arith,
  get-add_all j xs (add_announcement a table),
  get-set a.id j (shown_or_new (Assoc.get a.id table) a) table,
  eqb_iff a.id j,
  Option-cases (Assoc.get j table),
)

-- The flags that a view sets.
abbrev pub reshown : Option Bool → Option StateAnnouncement → Option StateAnnouncement
reshown none x = x
reshown (some b) none = none
reshown (some b) (some x) = some (record x { is_shown = b })

abbrev pub is_known : Assoc ℕ Bool → Assoc ℕ StateAnnouncement → Bool
is_known [] table = true
is_known ((id, b) ∷ viewed) table = if Assoc.has id table then is_known viewed table else false

is_known-set :
    (id : ℕ) (x : StateAnnouncement) (viewed : Assoc ℕ Bool) (table : Assoc ℕ StateAnnouncement)
    → Assoc.has id table ≡ true
    → is_known viewed (Assoc.set id x table) ≡ is_known viewed table
is_known-set id x [] table h = refl
is_known-set id x ((j, b) ∷ viewed) table h =
    ground (arith, h, is_known-set id x viewed table h, get-set id j x table, eqb_iff id j)

view_all-is_known :
    (viewed : Assoc ℕ Bool) (table : Assoc ℕ StateAnnouncement)
    → is_some (view_all viewed table) ≡ is_known viewed table
unfolding view_all
view_all-is_known [] table = refl
view_all-is_known ((id, b) ∷ viewed) table = elim (Option-cases (Assoc.get id table)) [
  | inl n ↦ ground (arith, n)
  | inr (x, e) ↦
      let y = record x { is_shown = b } in
      ground (
        arith,
        e,
        view_all-is_known viewed (Assoc.set id y table),
        is_known-set id y viewed table (ground (arith, e)),
      )
]

get-view_all :
    (j : ℕ) (viewed : Assoc ℕ Bool) (table next : Assoc ℕ StateAnnouncement)
    → Distinct viewed
    → view_all viewed table ≡ some next
    → Assoc.get j next ≡ reshown (Assoc.get j viewed) (Assoc.get j table)
unfolding view_all Assoc.get
get-view_all j [] table next d h = ground (arith, h)
get-view_all j ((id, b) ∷ viewed) table next d h = elim (Option-cases (Assoc.get id table)) [
  | inl n ↦ absurd (ground (arith, h, n))
  | inr (x, e) ↦
      let y = record x { is_shown = b } in
      ground (
        arith,
        e,
        h,
        d,
        get-view_all j viewed (Assoc.set id y table) next d.1 (ground (arith, h, e)),
        get-set id j y table,
        eqb_iff id j,
      )
]

-- A restart with some announcements, whatever they are: what the persisted state holds under an id
-- stays as it is, and where it holds nothing, the first announcement of the id is there, unseen.
pub new_controller_lem :
    (s : State) (all : Assoc ℕ Announcement) (j : ℕ)
    → Assoc.get j (new_controller (some s) all).announcements
      ≡ joined (Assoc.get j s.announcements) (first_new (find (is_about j) (Assoc.values all)))
unfolding new_controller add_announcements
new_controller_lem s all j = get-add_all j (Assoc.values all) s.announcements

-- Viewing announcements, each id once: where all of them are there, their flags are set and nothing
-- else changes; else updateViewed throws and nothing changes.
pub update_viewed_lem :
    (viewed : Assoc ℕ Bool) (s : State) (j : ℕ)
    → Distinct viewed
    → let known = is_known viewed s.announcements in
      let r = update_viewed viewed s in
      (r.0 ≡ (if known then ok tt else err type_error))
      × (Assoc.get j r.1.announcements ≡ (
          if known
          then reshown (Assoc.get j viewed) (Assoc.get j s.announcements)
          else Assoc.get j s.announcements))
unfolding update_viewed
update_viewed_lem viewed s j d =
    let k = view_all-is_known viewed s.announcements in
    elim (Option-cases (view_all viewed s.announcements)) [
      | inl n ↦ (ground (arith, n, k), ground (arith, n, k))
      | inr (next, e) ↦ (
        ground (arith, e, k),
        ground (arith, e, k, get-view_all j viewed s.announcements next d e),
      )
    ]
