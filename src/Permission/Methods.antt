-- ===== src/Permission/Methods.antt =====
-- The methods of PermissionController.ts that run what a permission permits, `decorateWithCaveats` of
-- Caveat.ts, and permission-middleware.ts.
use fork_metamask_core.Common.{
  String, Option, none, some, List, [], ◌∷◌, if◌then◌else◌, ◌==◌, string_eq,
}
use fork_metamask_core.Common.Assoc.{Assoc}
use fork_metamask_core.Common.Assoc
use fork_metamask_core.Common.Monad.{Result, ok, err}
use fork_metamask_core.Common.Js.{Value, undefined, array, string_of}
use fork_metamask_core.Common.JsEq.{value_eq}
use fork_metamask_core.Permission.State.{
  Caveat, Permission, Subjects, Error, method_not_found, endowment_does_not_exist, unauthorized,
  internal, no_result, unrecognized_caveat_type, caveat_specification_mismatch, CaveatSpecification,
  RestrictedMethod, MethodOptions, restricted_method, endowment, invalid_type,
  PermissionSpecification, Config,
}
use fork_metamask_core.Permission.Validation.{includes}
use fork_metamask_core.Rpc.Engine.{Exchange, raised, given, with_error}
use fork_metamask_core.Rpc.Async.{AsyncMove, AsyncMiddleware, finishes, throws, awaits_next}
use fork_metamask_core.Permission.Subjects.{get_permission}

module _ (config : Config) where
  -- `getTypedPermissionSpecification` for restricted methods, then the implementation.
  abbrev pub method_of : String → Option PermissionSpecification → Result Error RestrictedMethod
  method_of method none = err (method_not_found method)
  method_of method (some spec) = elim spec.kind [
    | restricted_method f ↦ ok f
    | endowment g ↦ err (method_not_found method)
    | invalid_type ↦ err (method_not_found method)
  ]

  unfoldable pub get_restricted_method : String → Result Error RestrictedMethod
  get_restricted_method method =
      method_of method (Assoc.get method config.permission_specifications)

  -- The same for endowments.
  abbrev pub endowment_of :
      String
      → String
      → Option PermissionSpecification
      → Result Error (String → Value → Result Error Value)
  endowment_of target origin none = err (endowment_does_not_exist target origin)
  endowment_of target origin (some spec) = elim spec.kind [
    | restricted_method f ↦ err (endowment_does_not_exist target origin)
    | endowment g ↦ ok g
    | invalid_type ↦ err (endowment_does_not_exist target origin)
  ]

  abbrev pub got :
      Result Error (String → Value → Result Error Value) → String → Value → Result Error Value
  got (err e) origin request_data = err e
  got (ok g) origin request_data = g origin request_data

  unfoldable pub get_endowments : String → String → Value → Subjects → Result Error Value
  get_endowments origin target request_data d = elim (get_permission origin target d) [
    | none ↦ err (unauthorized target)
    | some p ↦
        got (endowment_of target origin (Assoc.get target config.permission_specifications)) origin
          request_data
  ]

  -- The loop of `decorateWithCaveats`: the last caveat is the outermost.
  abbrev pub decorated_by :
      Option CaveatSpecification → Caveat → RestrictedMethod → Result Error RestrictedMethod
  decorated_by none c f = err (unrecognized_caveat_type c.type)
  decorated_by (some spec) c f = elim spec.decorator [
    | none ↦ err (caveat_specification_mismatch c.type)
    | some decorate ↦ ok (decorate f c)
  ]

  unfoldable pub decorate_each : List Caveat → RestrictedMethod → Result Error RestrictedMethod
  decorate_each [] f = ok f
  decorate_each (c ∷ cs) f =
      elim (decorated_by (Assoc.get c.type config.caveat_specifications) c f) [
        | err e ↦ err e
        | ok g ↦ decorate_each cs g
      ]

  abbrev pub decorate_with_caveats : RestrictedMethod → Permission → Result Error RestrictedMethod
  decorate_with_caveats f p = elim p.caveats [ none ↦ ok f | some cs ↦ decorate_each cs f ]

  abbrev pub applied : Result Error RestrictedMethod → MethodOptions → Result Error Value
  applied (err e) o = err e
  applied (ok f) o = f o

  -- `_executeRestrictedMethod`. Parameters that are missing are an empty array.
  abbrev pub params_or_empty : Value → Value
  params_or_empty params = if params == undefined then array 0 else params

  unfoldable pub execute :
      RestrictedMethod → String → String → Value → Subjects → Result Error Value
  execute f origin method params d = elim (get_permission origin method d) [
    | none ↦ err (unauthorized method)
    | some p ↦
        applied (decorate_with_caveats f p)
          (record { method = method; params = params_or_empty params; origin = origin })
  ]

  abbrev pub with_result : String → Result Error Value → Result Error Value
  with_result method (err e) = err e
  with_result method (ok v) = if v == undefined then err (no_result method) else ok v

  abbrev pub executed :
      Result Error RestrictedMethod → String → String → Value → Subjects → Result Error Value
  executed (err e) origin method params d = err e
  executed (ok f) origin method params d = execute f origin method params d

  unfoldable pub execute_restricted_method : String → String → Value → Subjects → Result Error Value
  execute_restricted_method origin method params d =
      with_result method (executed (get_restricted_method method) origin method params d)

  -- The middleware that `createPermissionMiddleware` makes for an origin, before
  -- `createAsyncMiddleware`; `as_value` gives an error as a value. A request has a string for its
  -- method, since the engine refuses any other before.
  abbrev pub answered : (Error → Value) → Exchange → Result Error Value → Exchange × AsyncMove
  answered as_value x (err e) = (x, throws (raised (as_value e)))
  answered as_value x (ok v) =
      if v == undefined
      then (with_error (given (as_value (internal "undefined result"))) x, finishes)
      else (record x { response = record (x.response) { result = some v } }, finishes)

  unfoldable pub permission_middleware : (Error → Value) → String → Subjects → AsyncMiddleware
  permission_middleware as_value origin d x =
      let method = string_of x.request.method in
      if includes config.unrestricted_methods method
      then (x, awaits_next (λ y. (y, none)))
      else answered as_value x
          (executed (get_restricted_method method) origin method x.request.params d)
