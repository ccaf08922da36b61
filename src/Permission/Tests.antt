-- ===== src/Permission/Tests.antt =====
-- Runs of PermissionController.ts on small inputs, and its theorems at concrete inputs.
use fork_metamask_core.Common.{
  ◌≡◌, refl, sym, ap, ◌∙◌, String, true, false, Option, none, some, List, [], ◌∷◌, arith, string_eq,
  is_some, inl, inr, Bool-cases, ◌==◌,
}
use fork_metamask_core.Common.Assoc.{Assoc}
use fork_metamask_core.Common.Assoc
use fork_metamask_core.Common.Monad.{Result, ok, err}
use fork_metamask_core.Common.Js.{Value, undefined, number, str, object, array}
use fork_metamask_core.Permission.State.{
  Caveat, Permission, PermissionOptions, RawPermission, requested, caveat_array, raw_caveat, Error,
  type_error, RestrictedMethod, restricted_method, PermissionSpecification, Config, State,
}
use fork_metamask_core.Permission.Validation.{
  validate_permission_specifications, validate_caveat, validate_permission, check_caveats,
  validate_modified_permission,
}
use fork_metamask_core.Permission.Subjects.{
  empty_state, revoke_permissions, revoke_target, delete_permission,
}
use fork_metamask_core.Permission.Caveats.{
  update_caveat, has_caveat, get_caveat, set_caveat, set_caveat_draft,
}
use fork_metamask_core.Permission.Grants.{
  grant_permissions, grant_one, construct_caveats, check_each, new_permission,
}
use fork_metamask_core.Permission.Methods.{
  get_restricted_method, decorate_with_caveats, execute, executed, permission_middleware,
}
use fork_metamask_core.Permission.Sound.{IsConsistent}
use fork_metamask_core.Permission.Granting.{KeepTargets}
use fork_metamask_core.Permission.Runs.{
  Call, grants, updates, revokes, run, serve, run-IsConsistent,
}
use fork_metamask_core.Permission.Atomic.{serve_failed}
use fork_metamask_core.Permission.Guarded.{guarded, process_request-guarded}
use fork_metamask_core.Permission.Decorated.{execute-decorated}
use fork_metamask_core.Permission.Reads.{caveat_at, caveat_at-update_caveat}
use fork_metamask_core.Rpc.Engine.{Request, Thrown, process_request}
use fork_metamask_core.Rpc.Async.{create_async_middleware}
use fork_metamask_core.Rpc.Handle.{start}
use fork_metamask_core.Permission.Requests.{
  RawPermissions, table, RawApproval, approval, request_permissions, validate_requested_permissions,
  check_table, finish_request, validate_approved_permissions, get_side_effects,
  execute_side_effects,
}
use fork_metamask_core.Permission.RpcMethods.{
  first_entry, request_permissions_implementation, get_permissions_implementation, implemented,
  get_permissions-request_permissions,
}

-- A restricted method that gives its parameters back, and a caveat that puts its value in their place.
abbrev echo : RestrictedMethod
echo o = ok o.params

abbrev fix : RestrictedMethod → Caveat → RestrictedMethod
fix f c o = f (record o { params = c.value })

abbrev made : PermissionOptions → Value → Result Error Permission
made o data' = ok (record {
  id = "made";
  parent_capability = o.target;
  invoker = o.invoker;
  caveats = o.caveats;
  date = 0;
})

abbrev echoing : PermissionSpecification
echoing = record {
  kind = restricted_method echo;
  target_name = "echo";
  allowed_caveats = some ("fix" ∷ []);
  factory = some made;
  validator = none;
  side_effect = none;
  subject_types = [];
}

abbrev config : Config
config = record {
  caveat_specifications =
      ("fix", record { type = "fix"; decorator = some fix; validator = none }) ∷ [];
  permission_specifications = ("echo", echoing) ∷ [];
  unrestricted_methods = "open" ∷ [];
  is_valid_json = λ v. true;
  get_subject_metadata = λ o. none;
}

abbrev ids : String → String
ids target = "id"

abbrev fixed : Value → Caveat
fixed v = record { type = "fix"; value = v }

abbrev with_fix : RawPermission
with_fix = requested undefined (caveat_array (raw_caveat (fixed (number 1)) ∷ []))

abbrev history : List Call
history =
    grants (str "app") undefined false ("echo", with_fix) []
    ∷ updates "app" "echo" "fix" (number 2)
    ∷ []

abbrev granted_state : State
granted_state = run config ids 5 history empty_state

-- The value that was granted and then updated.
updated : caveat_at "app" "echo" "fix" granted_state.subjects ≡ some (fixed (number 2))
unfolding run serve Assoc.get update_caveat has_caveat get_caveat grant_permissions grant_one
    construct_caveats check_each validate_caveat new_permission validate_permission check_caveats
    Assoc.set set_caveat set_caveat_draft validate_modified_permission
updated = refl

config-KeepTargets : KeepTargets config
unfolding Assoc.get
config-KeepTargets target spec f o data' p g h r = elim (Bool-cases ("echo" == target)) [
  | inr n ↦ absurd (ground (arith, g, n))
  | inl y ↦
      let same_spec : echoing ≡ spec = ground (arith, g, y) in
      let same_factory : some made ≡ some f =
        ap (λ (w : PermissionSpecification). w.factory) same_spec ∙ h in
      let same : made o data' ≡ ok p = ap (λ w. factory_result w o data') same_factory ∙ r in
      sym (ap (λ w. parent_of w) same)
]
  where
    factory_result :
        Option (PermissionOptions → Value → Result Error Permission)
        → PermissionOptions
        → Value
        → Result Error Permission
    factory_result none o data' = err type_error
    factory_result (some g) o data' = g o data'

    parent_of : Result Error Permission → String
    parent_of (ok q) = q.parent_capability
    parent_of (err e) = o.target

run-IsConsistent_example : IsConsistent config (run config ids 5 history empty_state).subjects
run-IsConsistent_example = run-IsConsistent config ids 5 history config-KeepTargets

serve_failed_example :
    (serve config ids 5 (revokes (("app", "echo" ∷ "other" ∷ []) ∷ [])) granted_state).1.subjects
    ≡ granted_state.subjects
unfolding run serve Assoc.get update_caveat has_caveat get_caveat grant_permissions grant_one
    construct_caveats check_each validate_caveat new_permission validate_permission check_caveats
    Assoc.set set_caveat set_caveat_draft validate_modified_permission revoke_permissions
    revoke_target delete_permission Assoc.delete
serve_failed_example =
    serve_failed config ids 5 (revokes (("app", "echo" ∷ "other" ∷ []) ∷ [])) granted_state
      (type_error) refl

caveat_at-update_caveat_example :
    (is_some (caveat_at "app" "echo" "fix" granted_state.subjects) ≡ true)
    × (caveat_at "app" "echo" "fix"
          (update_caveat config "app" "echo" "fix" (number 3) granted_state).1.subjects
        ≡ some (fixed (number 3)))
unfolding run serve Assoc.get update_caveat has_caveat get_caveat grant_permissions grant_one
    construct_caveats check_each validate_caveat new_permission validate_permission check_caveats
    Assoc.set set_caveat set_caveat_draft validate_modified_permission
caveat_at-update_caveat_example =
    caveat_at-update_caveat config "app" "echo" "fix" (number 3) granted_state "app" "echo" "fix"
      refl

-- A request of the origin without the permission is refused, whatever is below.
abbrev as_value : Error → Value
as_value e = object 0

abbrev serialize : Thrown → Value
serialize e = object 1

abbrev query : Request
query = record { id = number 3; jsonrpc = str "2.0"; method = str "echo"; params = undefined }

process_request-guarded_example :
    process_request serialize
      (create_async_middleware
          (permission_middleware config as_value "other" granted_state.subjects)
        ∷ [])
      (start query)
    ≡ guarded serialize as_value
        (executed config
          (get_restricted_method config "echo")
          "other"
          "echo"
          undefined
          granted_state.subjects)
        (start query)
process_request-guarded_example =
    process_request-guarded serialize as_value config "other" granted_state.subjects []
      (start query) (λ e. refl) refl refl

abbrev held : Permission
held = record {
  id = "made";
  parent_capability = "echo";
  invoker = "app";
  caveats = some (fixed (number 2) ∷ []);
  date = 0;
}

execute-decorated_example :
    (g : RestrictedMethod) × (decorate_with_caveats config echo held ≡ ok g)
    × (execute config echo "app" "echo" undefined granted_state.subjects
        ≡ g (record { method = "echo"; params = array 0; origin = "app" }))
unfolding run serve Assoc.get update_caveat has_caveat get_caveat grant_permissions grant_one
    construct_caveats check_each validate_caveat new_permission validate_permission check_caveats
    Assoc.set set_caveat set_caveat_draft validate_modified_permission
    validate_permission_specifications get_restricted_method
execute-decorated_example =
    execute-decorated config "app" "echo" undefined granted_state.subjects held echo refl
      run-IsConsistent_example refl refl

-- A grant, an update, a revocation that throws and one that does not.
abbrev changes : List Call
changes =
    grants (str "app") undefined false ("echo", with_fix) []
    ∷ revokes (("app", "other" ∷ []) ∷ [])
    ∷ revokes (("app", "echo" ∷ []) ∷ [])
    ∷ []

abbrev asked_for : RawPermissions
asked_for = table (("echo", with_fix) ∷ [])

abbrev approved : RawApproval
approved = approval (str "r") (str "app") asked_for undefined

get_permissions-request_permissions_example :
    get_permissions_implementation "app"
      (implemented config ids 5 "app" false undefined
        (ok approved)
        (λ n. "n")
        (str "r")
        (first_entry asked_for)
        empty_state).1.subjects
    ≡ record held { caveats = some (fixed (number 1) ∷ []) } ∷ []
unfolding request_permissions_implementation request_permissions validate_requested_permissions
    check_table finish_request validate_approved_permissions get_side_effects execute_side_effects
    grant_permissions grant_one construct_caveats check_each validate_caveat new_permission
    validate_permission check_caveats Assoc.get Assoc.set
get_permissions-request_permissions_example =
    get_permissions-request_permissions config ids 5 (λ n. "n") "app" false undefined (ok approved)
      (str "r") (first_entry asked_for) empty_state
      (record held { caveats = some (fixed (number 1) ∷ []) } ∷ []) refl
