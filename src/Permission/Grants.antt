-- ===== src/Permission/Grants.antt =====
-- `grantPermissions` of PermissionController.ts.
use fork_metamask_core.Common.{
  ℕ, String, Bool, true, false, not, Option, none, some, List, [], ◌∷◌, if◌then◌else◌, get_or, ◌==◌,
  ◌&&◌, ◌||◌, string_eq,
}
use fork_metamask_core.Common.Assoc.{Assoc}
use fork_metamask_core.Common.Assoc
use fork_metamask_core.Common.Monad.{
  Result, ok, err, Action, ◌>>=◌, ◌>>◌, pure, throw, modify, lift, from_option, for_each,
}
use fork_metamask_core.Common.Js.{Value, undefined, str, is_string, string_of, truthy}
use fork_metamask_core.Common.JsEq.{value_eq}
use fork_metamask_core.Permission.State.{
  Caveat, RawCaveat, not_plain, plain, Permission, Subjects, CaveatsProperty, missing, null_caveats,
  not_array, caveat_array, RawPermission, nothing, requested, PermissionOptions,
  PermissionSpecification, State, Error, invalid_subject_identifier, invalid_approved_permission,
  method_not_found, type_error, Config,
}
use fork_metamask_core.Permission.Validation.{
  raw_type, validate_caveat, validate_permission, caveats_property,
}
use fork_metamask_core.Permission.Subjects.{M, get_permissions}

-- A loop over a table of permissions to be.
abbrev pub P : Type 0 → Type 0
P = Action (Assoc String Permission) Error

-- `{ type, value }` of a caveat that was checked.
abbrev pub fresh_caveat : RawCaveat → Caveat
fresh_caveat not_plain = record { type = ""; value = undefined }
fresh_caveat (plain fields) = record {
  type = string_of (raw_type (plain fields));
  value = get_or (Assoc.get "value" fields) undefined;
}

abbrev pub fresh_caveats : List RawCaveat → List Caveat
fresh_caveats [] = []
fresh_caveats (c ∷ cs) = fresh_caveat c ∷ fresh_caveats cs

abbrev pub non_empty : List Caveat → Option (List Caveat)
non_empty [] = none
non_empty (c ∷ cs) = some (c ∷ cs)

abbrev pub approved_caveats : RawPermission → CaveatsProperty
approved_caveats (requested parent caveats) = caveats
approved_caveats _ = missing

abbrev pub approved_parent : RawPermission → Value
approved_parent (requested parent caveats) = parent
approved_parent _ = undefined

abbrev pub is_nothing : RawPermission → Bool
is_nothing nothing = true
is_nothing _ = false

module _ (config : Config) where
  unfoldable pub check_each : String → String → List RawCaveat → Option Error
  check_each origin target [] = none
  check_each origin target (c ∷ cs) = elim (validate_caveat config c origin target) [
    | some e ↦ some e
    | none ↦ check_each origin target cs
  ]

  abbrev pub constructed : Option Error → List RawCaveat → Result Error (Option (List Caveat))
  constructed none cs = ok (non_empty (fresh_caveats cs))
  constructed (some e) cs = err e

  -- `constructCaveats`; a value that is no array has no `map`.
  unfoldable pub construct_caveats :
      String → String → CaveatsProperty → Result Error (Option (List Caveat))
  construct_caveats origin target missing = ok none
  construct_caveats origin target null_caveats = ok none
  construct_caveats origin target not_array = err type_error
  construct_caveats origin target (caveat_array cs) = constructed (check_each origin target cs) cs

  -- `constructPermission`, with what `nanoid` and the clock give.
  abbrev pub construct_permission : String → ℕ → PermissionOptions → Permission
  construct_permission id now o = record {
    id = id;
    parent_capability = o.target;
    invoker = o.invoker;
    caveats = o.caveats;
    date = now;
  }

  abbrev pub validated : Permission → Option Error → Result Error Permission
  validated p none = ok p
  validated p (some e) = err e

  -- The permission of the factory, or the plain one; either is checked.
  abbrev pub from_factory :
      PermissionSpecification → String → Result Error Permission → Result Error Permission
  from_factory spec origin (err e) = err e
  from_factory spec origin (ok p) =
      validated p
        (validate_permission config spec (caveats_property config p.caveats) origin (some p) true)

  abbrev pub plain_permission :
      PermissionSpecification → String → Permission → Result Error Permission
  plain_permission spec origin p =
      validated p
        (validate_permission config spec (caveats_property config p.caveats) origin (some p) false)

  unfoldable pub new_permission :
      String
      → ℕ
      → Value
      → String
      → PermissionSpecification
      → PermissionOptions
      → Result Error Permission
  new_permission id now request_data origin spec o = elim spec.factory [
    | none ↦ plain_permission spec origin (construct_permission id now o)
    | some f ↦ from_factory spec origin (f o request_data)
  ]

  abbrev pub is_other_parent : String → Value → Bool
  is_other_parent target parent = not (parent == undefined) && not (str target == parent)

  module _ (ids : String → String) (now : ℕ) where
    -- The body of the loop over the approved permissions.
    unfoldable pub grant_one : String → Value → String × RawPermission → P (Unit {0})
    grant_one origin request_data (target, approved) = do
      spec ←
          from_option (Assoc.get target config.permission_specifications) (method_not_found target)
      if is_nothing approved then throw type_error else pure tt
      if is_other_parent target (approved_parent approved)
          then throw (invalid_approved_permission origin target)
          else pure tt
      caveats ← lift (construct_caveats origin target (approved_caveats approved))
      p ← lift (
          new_permission (ids target) now request_data origin spec
            (record { target = target; invoker = origin; caveats = caveats }))
      modify (Assoc.set target p)

    abbrev pub kept_permissions : Bool → String → Subjects → Assoc String Permission
    kept_permissions preserve origin d =
        if preserve then get_or (get_permissions origin d) [] else []

    -- `setValidatedPermissions`.
    abbrev pub set_validated_permissions : String → Assoc String Permission → State → State
    set_validated_permissions origin permissions s = record s {
      subjects =
          Assoc.set origin (record { origin = origin; permissions = permissions }) s.subjects;
    }

    abbrev pub granted :
        String → Result Error (Unit {0}) × Assoc String Permission → M (Assoc String Permission)
    granted origin (ok u, permissions) s =
        (ok permissions, set_validated_permissions origin permissions s)
    granted origin (err e, permissions) s = (err e, s)

    abbrev pub grant_to :
        String → Value → Bool → Assoc String RawPermission → M (Assoc String Permission)
    grant_to origin request_data preserve approved s =
        granted origin
          (for_each (grant_one origin request_data) approved
            (kept_permissions preserve origin s.subjects))
          s

    unfoldable pub grant_permissions :
        Value → Value → Bool → Assoc String RawPermission → M (Assoc String Permission)
    grant_permissions origin request_data preserve approved =
        if not (truthy origin) || not (is_string origin)
        then throw invalid_subject_identifier
        else grant_to (string_of origin) request_data preserve approved
