-- ===== src/Permission/Requests.antt =====
-- Requests of permissions in PermissionController.ts: the checks before and after the user's
-- approval, the side effects, and the answer of the user through ApprovalController.ts.
use fork_metamask_core.Common.{
  ℕ, String, Bool, true, not, Option, none, some, List, [], ◌∷◌, if◌then◌else◌, length, ◌==◌,
  string_eq,
}
use fork_metamask_core.Common.Assoc.{Assoc}
use fork_metamask_core.Common.Assoc
use fork_metamask_core.Common.Monad.{Result, ok, err, ◌>>=◌, ◌>>◌, pure, throw, modify, lift}
use fork_metamask_core.Common.Js.{Value, str}
use fork_metamask_core.Common.JsEq.{value_eq}
use fork_metamask_core.Permission.State.{
  Permission, RawPermission, nothing, opaque, requested, SideEffect, PermissionSpecification, State,
  Effect, on_permitted, on_failure, Error, method_not_found, invalid_params, internal,
  side_effects_failed, is_json_rpc_error, Config,
}
use fork_metamask_core.Permission.Validation.{or_throw, ◌or_else◌, throw_if, validate_permission}
use fork_metamask_core.Permission.Subjects.{M}
use fork_metamask_core.Permission.Grants.{is_other_parent, grant_permissions}

-- Permissions as they are requested: no plain object, or one with these entries.
pub data RawPermissions : Type 0 where
  not_plain : RawPermissions
  table : Assoc String RawPermission → RawPermissions

-- What the user's approval gives: no plain object, one with no plain metadata, or one with the id and
-- the origin of its metadata, its permissions and its other properties.
pub data RawApproval : Type 0 where
  not_plain no_metadata : RawApproval
  approval : Value → Value → RawPermissions → Value → RawApproval

module _ (config : Config) where
  abbrev pub check_requested :
      String → String → RawPermission → PermissionSpecification → Option Error
  check_requested origin target nothing spec = some invalid_params
  check_requested origin target opaque spec = some invalid_params
  check_requested origin target (requested parent caveats) spec =
      throw_if (is_other_parent config target parent) invalid_params
      or_else validate_permission config spec caveats origin none true

  unfoldable pub check_table : String → Assoc String RawPermission → Option Error
  check_table origin [] = none
  check_table origin ((target, raw) ∷ rest) =
      elim (Assoc.get target config.permission_specifications) [
        | none ↦ some (method_not_found target)
        | some spec ↦ check_requested origin target raw spec or_else check_table origin rest
      ]

  unfoldable pub validate_requested_permissions : String → RawPermissions → Option Error
  validate_requested_permissions origin RawPermissions.not_plain = some invalid_params
  validate_requested_permissions origin (table []) = some invalid_params
  validate_requested_permissions origin (table (p ∷ ps)) = check_table origin (p ∷ ps)

  abbrev pub as_internal : Error → Error
  as_internal e =
      if is_json_rpc_error e
      then internal "Invalid approved permissions request"
      else internal "Unrecognized error type"

  abbrev pub approved_table :
      String
      → Option Error
      → RawPermissions
      → Value
      → Result Error (Assoc String RawPermission × Value)
  approved_table origin (some e) permissions data' = err (as_internal e)
  approved_table origin none RawPermissions.not_plain data' = ok ([], data')
  approved_table origin none (table t) data' = ok (t, data')

  -- `validateApprovedPermissions`, and the permissions and the other data of the approved request.
  unfoldable pub validate_approved_permissions :
      String → String → RawApproval → Result Error (Assoc String RawPermission × Value)
  validate_approved_permissions id origin RawApproval.not_plain = err (internal "invalid")
  validate_approved_permissions id origin no_metadata = err (internal "invalid")
  validate_approved_permissions id origin (approval new_id new_origin permissions data') =
      if not (new_id == str id)
      then err (internal "mutated its id")
      else if not (new_origin == str origin)
      then err (internal "mutated its origin")
      else approved_table origin (validate_requested_permissions origin permissions) permissions
          data'

  -- `getSideEffects`: the handlers by target.
  abbrev pub side_effect_of : Option PermissionSpecification → Option SideEffect
  side_effect_of none = none
  side_effect_of (some spec) = spec.side_effect

  abbrev pub with_effect :
      String → Option SideEffect → Assoc String SideEffect → Assoc String SideEffect
  with_effect target none effects = effects
  with_effect target (some e) effects = (target, e) ∷ effects

  unfoldable pub get_side_effects : Assoc String RawPermission → Assoc String SideEffect
  get_side_effects [] = []
  get_side_effects ((target, raw) ∷ rest) =
      with_effect target (side_effect_of (Assoc.get target config.permission_specifications))
        (get_side_effects rest)

  abbrev pub log_effect : Effect → State → State
  log_effect e s = record s { effects = e ∷ s.effects }

  -- Every permitted handler is called, also after one that rejects.
  abbrev pub permitted_log : Assoc String SideEffect → List Effect → List Effect
  permitted_log [] log = log
  permitted_log ((target, e) ∷ es) log = permitted_log es (on_permitted target ∷ log)

  abbrev pub failure_log : Assoc String SideEffect → List Effect → List Effect
  failure_log [] log = log
  failure_log ((target, e) ∷ es) log = elim e.on_failure [
    | none ↦ failure_log es log
    | some f ↦ failure_log es (on_failure target ∷ log)
  ]

  -- The reasons of the handlers that reject, and the values of the others.
  abbrev pub reason : Result Error Value → List Error → List Error
  reason (ok v) es = es
  reason (err e) es = e ∷ es

  abbrev pub reasons : Value → Assoc String SideEffect → List Error
  reasons request [] = []
  reasons request ((target, e) ∷ es) = reason (e.on_permitted request) (reasons request es)

  abbrev pub failure_reason : Option (Value → Result Error Value) → Value → List Error → List Error
  failure_reason none request es = es
  failure_reason (some f) request es = reason (f request) es

  abbrev pub failure_reasons : Value → Assoc String SideEffect → List Error
  failure_reasons request [] = []
  failure_reasons request ((target, e) ∷ es) =
      failure_reason e.on_failure request (failure_reasons request es)

  -- What `executeSideEffects` throws after a handler rejected.
  abbrev pub failure : List Error → List Error → Error
  failure (e ∷ es) _ = internal "Unexpected error in side-effects"
  failure [] [] = internal ""
  failure [] (e ∷ []) = e
  failure [] (e ∷ f ∷ es) = side_effects_failed (length (e ∷ f ∷ es))

  abbrev pub ended_effects : Value → Assoc String SideEffect → List Error → M (Unit {0})
  ended_effects request effects [] = pure tt
  ended_effects request effects (e ∷ es) = do
    modify (λ (s : State). record s { effects = failure_log effects s.effects })
    throw (failure (failure_reasons request effects) (e ∷ es))

  unfoldable pub execute_side_effects : Value → Assoc String SideEffect → M (Unit {0})
  execute_side_effects request effects = do
    modify (λ (s : State). record s { effects = permitted_log effects s.effects })
    ended_effects request effects (reasons request effects)

  module _ (ids : String → String) (now : ℕ) where
    -- `requestPermissions` once the user has answered. Nothing of it reads the state before.
    unfoldable pub finish_request :
        String → String → Bool → Value → RawApproval → M (Assoc String Permission)
    finish_request id origin preserve request approved = do
      r ← lift (validate_approved_permissions id origin approved)
      execute_side_effects request (get_side_effects r.0)
      grant_permissions config ids now (str origin) r.1 preserve r.0

    -- `request_permissions`, with the end of the promise of the approval.
    unfoldable pub request_permissions :
        String
        → String
        → Bool
        → RawPermissions
        → Value
        → Result Error RawApproval
        → M (Assoc String Permission)
    request_permissions id origin preserve permissions request answer = do
      or_throw (validate_requested_permissions origin permissions)
      approved ← lift answer
      finish_request id origin preserve request approved
