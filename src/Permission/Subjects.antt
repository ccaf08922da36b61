-- ===== src/Permission/Subjects.antt =====
-- The methods of PermissionController.ts that read the table of subjects and revoke permissions.
use fork_metamask_core.Common.{
  String, Bool, Option, none, some, List, [], ◌∷◌, if◌then◌else◌, length, ltb, is_some, string_eq,
}
use fork_metamask_core.Common.Assoc.{Assoc, keys}
use fork_metamask_core.Common.Assoc
use fork_metamask_core.Common.Monad.{
  Result, ok, err, Action, ◌>>=◌, ◌>>◌, pure, throw, get_state, modify, from_option, for_each,
}
use fork_metamask_core.Permission.State.{
  Permission, Subject, Subjects, State, Error, unrecognized_subject, permission_does_not_exist,
  type_error,
}

-- A function on a draft of the subjects, and a method of the controller.
abbrev pub D : Type 0 → Type 0
D = Action Subjects Error

abbrev pub M : Type 0 → Type 0
M = Action State Error

-- `this.update` on the subjects: a throw drops the draft.
abbrev pub stored : Result Error (Unit {0}) × Subjects → State → Result Error (Unit {0}) × State
stored (ok u, subjects) s = (ok tt, record s { subjects = subjects })
stored (err e, subjects) s = (err e, s)

abbrev pub update_subjects : D (Unit {0}) → M (Unit {0})
update_subjects recipe s = stored (recipe s.subjects) s

abbrev pub empty_state : State
empty_state = record { subjects = []; effects = [] }

unfoldable pub clear_state : M (Unit {0})
clear_state s = (ok tt, record s { subjects = [] })

abbrev pub get_subject_names : State → List String
get_subject_names s = keys s.subjects

abbrev pub get_permissions : String → Subjects → Option (Assoc String Permission)
get_permissions origin subjects = elim (Assoc.get origin subjects) [
  | none ↦ none
  | some x ↦ some x.permissions
]

abbrev pub get_permission : String → String → Subjects → Option Permission
get_permission origin target subjects = elim (Assoc.get origin subjects) [
  | none ↦ none
  | some x ↦ Assoc.get target x.permissions
]

abbrev pub has_permission : String → String → Subjects → Bool
has_permission origin target subjects = is_some (get_permission origin target subjects)

abbrev pub has_permissions : String → Subjects → Bool
has_permissions origin subjects = Assoc.has origin subjects

abbrev pub delete_subject : String → D (Unit {0})
delete_subject origin = do
  d ← get_state
  if Assoc.has origin d then pure tt else throw (unrecognized_subject origin)
  modify (Assoc.delete origin)

unfoldable pub revoke_all_permissions : String → M (Unit {0})
revoke_all_permissions origin = update_subjects (delete_subject origin)

-- `deletePermission`: the last permission of a subject goes with the subject.
abbrev pub without_permission : String → String → Subject → Subjects → Subjects
without_permission origin target x d =
    if ltb 1 (length x.permissions)
    then Assoc.set origin (record x { permissions = Assoc.delete target x.permissions }) d
    else Assoc.delete origin d

unfoldable pub delete_permission : String → String → D (Unit {0})
delete_permission origin target = do
  d ← get_state
  x ← from_option (Assoc.get origin d) type_error
  modify (without_permission origin target x)

-- The inner and the outer loop of `revokePermissions`.
unfoldable pub revoke_target : String → String → D (Unit {0})
revoke_target origin target = do
  d ← get_state
  x ← from_option (Assoc.get origin d) type_error
  if Assoc.has target x.permissions
      then pure tt
      else throw (permission_does_not_exist origin target)
  delete_permission origin target

abbrev pub revoke_targets : String × List String → D (Unit {0})
revoke_targets (origin, targets) = do
  d ← get_state
  if Assoc.has origin d then pure tt else throw (unrecognized_subject origin)
  for_each (revoke_target origin) targets

unfoldable pub revoke_permissions : Assoc String (List String) → M (Unit {0})
revoke_permissions revoked = update_subjects (for_each revoke_targets revoked)

abbrev pub revoke_permission : String → String → M (Unit {0})
revoke_permission origin target = revoke_permissions ((origin, target ∷ []) ∷ [])

-- The loop of `revokePermissionForAllSubjects`, over the entries that are there when it starts.
abbrev pub revoke_from : String → String × Subject → D (Unit {0})
revoke_from target (origin, x) =
    if Assoc.has target x.permissions then delete_permission origin target else pure tt

unfoldable pub revoke_permission_for_all_subjects : String → M (Unit {0})
revoke_permission_for_all_subjects target = do
  s ← get_state
  update_subjects (for_each (revoke_from target) s.subjects)
