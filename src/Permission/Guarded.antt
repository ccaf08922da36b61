-- ===== src/Permission/Guarded.antt =====
-- What a restricted method of PermissionController.ts runs, and under which caveats.
use fork_metamask_core.Common.{
  ◌≡◌, String, true, false, Option, none, some, List, ◌∷◌, if◌then◌else◌, arith, inl, inr,
  Bool-cases, string_eq, ◌==◌,
}
use fork_metamask_core.Common.Monad.{Result, ok, err}
use fork_metamask_core.Common.Js.{Value, undefined, truthy, string_of}
use fork_metamask_core.Common.JsEq.{value_eq}
use fork_metamask_core.Permission.State.{
  Subjects, Error, internal, unauthorized, RestrictedMethod, Config,
}
use fork_metamask_core.Permission.Validation.{includes}
use fork_metamask_core.Permission.Subjects.{get_permission}
use fork_metamask_core.Permission.Methods.{
  get_restricted_method, execute, executed, answered, permission_middleware,
}
use fork_metamask_core.Rpc.Engine.{
  Exchange, Middleware, Thrown, raised, from_response, given, serialized, with_error, is_error,
  response_error, process_request, run_all_middleware, run_loop, run_middleware,
  run_return_handlers, check_for_completion,
}
use fork_metamask_core.Rpc.Async.{create_async_middleware}

-- What the engine makes of a request whose method is restricted, by the result of the method.
abbrev pub guarded :
    (Thrown → Value) → (Error → Value) → Result Error Value → Exchange → Exchange × Option Thrown
guarded serialize as_value (err e) x =
    (with_error (serialized (serialize (raised (as_value e)))) x, some (raised (as_value e)))
guarded serialize as_value (ok v) x =
    if v == undefined
    then (
      with_error
          (serialized (serialize (from_response (given (as_value (internal "undefined result"))))))
          x,
      some (from_response (given (as_value (internal "undefined result")))),
    )
    else (record x { response = record (x.response) { result = some v } }, none)

module _ (serialize : Thrown → Value) (as_value : Error → Value)
    (errors : (e : Error) → truthy (as_value e) ≡ true) where
  answered-guarded :
      (config : Config) (r : Result Error Value) (ms : List Middleware) (x : Exchange)
      → is_error (response_error x.response) ≡ false
      → process_request serialize
          (create_async_middleware (λ y. answered config as_value y r) ∷ ms)
          x
        ≡ guarded serialize as_value r x
  unfolding create_async_middleware process_request run_all_middleware run_loop run_middleware
      run_return_handlers check_for_completion
  answered-guarded config (err e) ms x n = ground (arith, n, errors e)
  answered-guarded config (ok v) ms x n = elim (Bool-cases (v == undefined)) [
    | inl y ↦ ground (arith, n, y, errors (internal "undefined result"))
    | inr z ↦ ground (arith, n, z)
  ]

-- The engine with the permission middleware of an origin on top, where errors have truthy values and
-- the method is not unrestricted: the request ends with what the restricted method gives for the
-- origin, an error of the permissions included, and no middleware below runs, whatever it is.
pub process_request-guarded :
    (serialize : Thrown → Value) (as_value : Error → Value) (config : Config) (origin : String)
    → (d : Subjects) (ms : List Middleware) (x : Exchange)
    → ((e : Error) → truthy (as_value e) ≡ true)
    → includes config.unrestricted_methods (string_of x.request.method) ≡ false
    → is_error (response_error x.response) ≡ false
    → let method = string_of x.request.method in
      let r =
        executed config (get_restricted_method config method) origin method x.request.params d in
      process_request serialize
        (create_async_middleware (permission_middleware config as_value origin d) ∷ ms)
        x
      ≡ guarded serialize as_value r x
unfolding permission_middleware create_async_middleware process_request run_all_middleware run_loop
    run_middleware
process_request-guarded serialize as_value config origin d ms x errors u n =
    let method = string_of x.request.method in
    let r =
      executed config (get_restricted_method config method) origin method x.request.params d in
    rw (u) (answered-guarded serialize as_value errors config r ms x n)

-- Without the permission a method that exists is refused, whatever its implementation does.
pub execute-unauthorized :
    (config : Config) (f : RestrictedMethod) (origin method : String) (params : Value)
    (d : Subjects)
    → get_permission origin method d ≡ none
    → execute config f origin method params d ≡ err (unauthorized method)
unfolding execute
execute-unauthorized config f origin method params d h = ground (arith, h)
