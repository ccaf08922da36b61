-- ===== src/Permission/Caveats.antt =====
-- The methods of PermissionController.ts on caveats.
use fork_metamask_core.Common.{
  String, Bool, Option, none, some, List, [], ◌∷◌, if◌then◌else◌, length, any, find, eqb, is_some,
  ◌==◌, string_eq,
}
use fork_metamask_core.Common.Assoc.{Assoc}
use fork_metamask_core.Common.Assoc
use fork_metamask_core.Common.Monad.{
  Result, ok, err, ◌>>=◌, ◌>>◌, pure, throw, get_state, modify, lift, from_option, for_each,
}
use fork_metamask_core.Common.Js.{Value}
use fork_metamask_core.Permission.State.{
  Caveat, raw_caveat, Permission, Subject, Subjects, Error, unrecognized_subject,
  permission_does_not_exist, caveat_does_not_exist, caveat_already_exists, unrecognized_mutation,
  Config,
}
use fork_metamask_core.Permission.Validation.{
  or_throw, validate_caveat, validate_modified_permission,
}
use fork_metamask_core.Permission.Subjects.{
  D, M, update_subjects, get_permission, delete_permission,
}

abbrev pub has_caveat_type : String → Caveat → Bool
has_caveat_type type c = c.type == type

-- `findCaveat`.
abbrev pub find_caveat : String → Option (List Caveat) → Option Caveat
find_caveat type none = none
find_caveat type (some cs) = find (has_caveat_type type) cs

-- The write at `findIndex`, or the `push`.
abbrev pub put_caveat : Caveat → List Caveat → List Caveat
put_caveat c [] = c ∷ []
put_caveat c (x ∷ xs) = if x.type == c.type then c ∷ xs else x ∷ put_caveat c xs

-- `splice(index, 1)` at the first of a type.
abbrev pub drop_caveat : String → List Caveat → List Caveat
drop_caveat type [] = []
drop_caveat type (x ∷ xs) = if x.type == type then xs else x ∷ drop_caveat type xs

abbrev pub put_in : Caveat → Option (List Caveat) → List Caveat
put_in c none = c ∷ []
put_in c (some cs) = put_caveat c cs

abbrev pub with_permission : String → String → Permission → Subjects → Subjects
with_permission origin target p d = elim (Assoc.get origin d) [
  | none ↦ d
  | some x ↦ Assoc.set origin (record x { permissions = Assoc.set target p x.permissions }) d
]

unfoldable pub get_caveat : String → String → String → M (Option Caveat)
get_caveat origin target type = do
  s ← get_state
  p ←
      from_option (get_permission origin target s.subjects)
        (permission_does_not_exist origin target)
  pure (find_caveat type p.caveats)

-- What a mutator does to a caveat: the value that it leaves in place, and what is to follow.
pub data Mutation : Type 0 where
  noop delete_it revoke_it unrecognized : Mutation
  update_value : Value → Mutation

abbrev pub Mutator : Type 0
Mutator = Value → Result Error (Value × Mutation)

module _ (config : Config) where
  unfoldable pub has_caveat : String → String → String → M Bool
  has_caveat origin target type = do c ← get_caveat origin target type; pure (is_some c)

  -- `setCaveat`.
  unfoldable pub set_caveat_draft : String → String → Caveat → D (Unit {0})
  set_caveat_draft origin target c = do
    d ← get_state
    x ← from_option (Assoc.get origin d) (unrecognized_subject origin)
    p ← from_option (Assoc.get target x.permissions) (permission_does_not_exist origin target)
    or_throw (validate_caveat config (raw_caveat c) origin target)
    let q = record p { caveats = some (put_in c p.caveats) }
    or_throw (validate_modified_permission config q origin)
    modify (with_permission origin target q)

  unfoldable pub set_caveat : String → String → String → Value → M (Unit {0})
  set_caveat origin target type value =
      update_subjects (set_caveat_draft origin target (record { type = type; value = value }))

  unfoldable pub add_caveat : String → String → String → Value → M (Unit {0})
  add_caveat origin target type value = do
    there ← has_caveat origin target type
    if there then throw (caveat_already_exists origin target type) else pure tt
    set_caveat origin target type value

  unfoldable pub update_caveat : String → String → String → Value → M (Unit {0})
  update_caveat origin target type value = do
    there ← has_caveat origin target type
    if there then pure tt else throw (caveat_does_not_exist origin target type)
    set_caveat origin target type value

  -- `deleteCaveat`: the permission as it leaves it.
  abbrev pub rest_caveats : String → List Caveat → Option (List Caveat)
  rest_caveats type cs = if eqb (length cs) 1 then none else some (drop_caveat type cs)

  abbrev pub checked : Permission → String → Result Error Permission
  checked p origin = elim (validate_modified_permission config p origin) [
    | none ↦ ok p
    | some e ↦ err e
  ]

  unfoldable pub delete_caveat :
      Permission → String → String → Option (List Caveat) → Result Error Permission
  delete_caveat p type origin none = err (caveat_does_not_exist origin p.parent_capability type)
  delete_caveat p type origin (some cs) =
      if any (has_caveat_type type) cs
      then checked (record p { caveats = rest_caveats type cs }) origin
      else err (caveat_does_not_exist origin p.parent_capability type)

  abbrev pub removed :
      String → String → String → Permission → Option (List Caveat) → Result Error Permission
  removed origin target type p none = err (caveat_does_not_exist origin target type)
  removed origin target type p (some cs) = delete_caveat p type origin (some cs)

  unfoldable pub remove_caveat_draft : String → String → String → D (Unit {0})
  remove_caveat_draft origin target type = do
    d ← get_state
    p ← from_option (get_permission origin target d) (permission_does_not_exist origin target)
    q ← lift (removed origin target type p p.caveats)
    modify (with_permission origin target q)

  unfoldable pub remove_caveat : String → String → String → M (Unit {0})
  remove_caveat origin target type = update_subjects (remove_caveat_draft origin target type)

  -- The body of the loops of `updatePermissionsByCaveat`, on the permission under a key of the
  -- object of a subject. A permission that is gone is written to no more.
  abbrev pub still_there : String → String → Permission → Subjects → Subjects
  still_there key target p d =
      if is_some (get_permission key target d) then with_permission key target p d else d

  abbrev pub with_value : Value → Caveat → Permission → Permission
  with_value v c p = record p { caveats = some (put_in (record c { value = v }) p.caveats) }

  unfoldable pub mutate :
      String → String → String → Permission → Caveat → Value × Mutation → D (Unit {0})
  mutate key origin target p c (left, noop) = modify (still_there key target (with_value left c p))
  mutate key origin target p c (left, update_value v) = do
    or_throw
        (validate_caveat config (raw_caveat (record c { value = v })) origin p.parent_capability)
    modify (still_there key target (with_value v c p))
  mutate key origin target p c (left, delete_it) = do
    let q = with_value left c p
    r ← lift (delete_caveat q c.type origin q.caveats)
    modify (still_there key target r)
  mutate key origin target p c (left, revoke_it) = do
    modify (still_there key target (with_value left c p))
    delete_permission origin p.parent_capability
  mutate key origin target p c (left, unrecognized) = throw unrecognized_mutation

  abbrev pub visit_caveat :
      Mutator → String → String → String → Permission → Option Caveat → D (Unit {0})
  visit_caveat mutator key origin target p none = pure tt
  visit_caveat mutator key origin target p (some c) = do
    r ← lift (mutator c.value)
    mutate key origin target p c r

  abbrev pub visit_permission :
      String → Mutator → String → String → String × Permission → D (Unit {0})
  visit_permission type mutator key origin (target, p) =
      visit_caveat mutator key origin target p (find_caveat type p.caveats)

  abbrev pub visit_subject : String → Mutator → String × Subject → D (Unit {0})
  visit_subject type mutator (key, x) =
      for_each (visit_permission type mutator key x.origin) x.permissions

  unfoldable pub update_permissions_by_caveat : String → Mutator → M (Unit {0})
  update_permissions_by_caveat type mutator = do
    s ← get_state
    update_subjects (for_each (visit_subject type mutator) s.subjects)
