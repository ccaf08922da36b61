-- ===== src/Rpc/Handle.antt =====
-- The entry points of merged-packages/json-rpc-engine/src/JsonRpcEngine.ts.
use fork_metamask_core.Common.{
  Bool, true, false, not, Option, none, some, List, [], ◌∷◌, ◌++◌, if◌then◌else◌,
}
use fork_metamask_core.Common.Monad.{
  Result, ok, err, Action, ◌>>=◌, ◌>>◌, pure, throw, get_state, modify,
}
use fork_metamask_core.Common.Js.{Value, null, undefined, str, is_string}
use fork_metamask_core.Rpc.Engine.{
  Request, Response, Exchange, Middleware, RpcError, Thrown, raw, rpc, serialized, not_plain_object,
  no_string_method, empty_batch, is_error, no_error, process_request, field_truthy,
}

-- What a caller may hand over: anything that is no plain object, or a plain object.
pub data Incoming : Type 0 where
  other : Value → Incoming
  plain : Request → Incoming

-- The arguments of the callback.
pub record Reply : Type 0 where
  pub error : Thrown
  pub response : Option Response

pub record Engine : Type 0 where
  pub middleware : List Middleware
  pub is_destroyed : Bool
  pub notification_handler : Option (Request → Option Thrown)

pub data EngineError : Type 0 where
  destroyed : EngineError

abbrev pub M : Type 0 → Type 0
M = Action Engine EngineError

-- `new JsonRpcEngine({ notificationHandler })`.
abbrev pub new_engine : Option (Request → Option Thrown) → Engine
new_engine handler = record {
  middleware = [];
  is_destroyed = false;
  notification_handler = handler;
}

unfoldable pub assert_is_not_destroyed : M (Unit {0})
assert_is_not_destroyed = do e ← get_state; if e.is_destroyed then throw destroyed else pure tt

-- The `destroy` methods of the middleware are not part of the engine.
unfoldable pub destroy : M (Unit {0})
destroy = modify (λ e. record e { middleware = []; is_destroyed = true })

unfoldable pub push : Middleware → M (Unit {0})
unfolding assert_is_not_destroyed
push m = do assert_is_not_destroyed; modify (λ e. record e { middleware = e.middleware ++ m ∷ [] })

abbrev pub error_response : Value → RpcError → Response
error_response id e = record { id = id; jsonrpc = str "2.0"; result = none; error = some (raw e) }

-- `callerReq.id ?? null`.
abbrev pub id_or_null : Value → Value
id_or_null undefined = null
id_or_null v = v

abbrev pub start : Request → Exchange
start q = record {
  request = q;
  response = record { id = q.id; jsonrpc = q.jsonrpc; result = none; error = none };
}

-- `serializeError` and `isJsonRpcRequest` are other packages'.
module _ (serialize : Thrown → Value) (is_request : Request → Bool) where
  -- An errored response has no result, and some error.
  abbrev pub errored : Thrown → Response → Response
  errored e r = elim r.error [
    | none ↦ record r { result = none; error = some (serialized (serialize e)) }
    | some f ↦
        (if field_truthy f
          then record r { result = none }
          else record r { result = none; error = some (serialized (serialize e)) })
  ]

  abbrev pub replied : Exchange × Option Thrown → Reply
  replied (x, none) = record { error = no_error; response = some x.response }
  replied (x, some e) =
      if is_error e
      then record { error = e; response = some (errored e x.response) }
      else record { error = e; response = some x.response }

  abbrev pub notified : Option Thrown → Reply
  notified none = record { error = no_error; response = none }
  notified (some e) = record { error = e; response = none }

  abbrev pub malformed : Request → Reply
  malformed q = record {
    error = rpc no_string_method;
    response = some (error_response (id_or_null q.id) no_string_method);
  }

  abbrev pub no_method : Option (Request → Option Thrown) → Request → Reply
  no_method none q = malformed q
  no_method (some handler) q =
      if not (is_request q) then record { error = no_error; response = none } else malformed q

  abbrev pub with_method : Option (Request → Option Thrown) → List Middleware → Request → Reply
  with_method none ms q = replied (process_request serialize ms (start q))
  with_method (some handler) ms q =
      if not (is_request q)
      then notified (handler q)
      else replied (process_request serialize ms (start q))

  -- `#handle`, with what it passes to its callback.
  unfoldable pub handle_one : Engine → Incoming → Reply
  handle_one engine (other v) = record {
    error = rpc not_plain_object;
    response = some (error_response null not_plain_object);
  }
  handle_one engine (plain q) =
      if not (is_string q.method)
      then no_method engine.notification_handler q
      else with_method engine.notification_handler engine.middleware q

  -- `_promiseHandle`: it rejects at an error with no response, and else resolves.
  unfoldable pub promise_handle : Engine → Incoming → Result Thrown (Option Response)
  promise_handle engine q =
      let reply = handle_one engine q in
      elim reply.response [
        | none ↦ if is_error reply.error then err reply.error else ok none
        | some r ↦ ok (some r)
      ]

  -- `Promise.all` and the filter of `#handleBatch`, for requests that end in the order given.
  abbrev pub collected :
      Result Thrown (Option Response)
      → Result Thrown (List Response)
      → Result Thrown (List Response)
  collected (err e) rest = err e
  collected (ok o) (err e) = err e
  collected (ok none) (ok rs) = ok rs
  collected (ok (some r)) (ok rs) = ok (r ∷ rs)

  unfoldable pub handle_each : Engine → List Incoming → Result Thrown (List Response)
  handle_each engine [] = ok []
  handle_each engine (q ∷ qs) = collected (promise_handle engine q) (handle_each engine qs)

  unfoldable pub handle_batch : Engine → List Incoming → Result Thrown (List Response)
  handle_batch engine [] = ok (error_response null empty_batch ∷ [])
  handle_batch engine (q ∷ qs) = handle_each engine (q ∷ qs)

  -- `handle` of one request or notification, and of a batch.
  unfoldable pub handle : Incoming → M Reply
  unfolding assert_is_not_destroyed
  handle q = do assert_is_not_destroyed; e ← get_state; pure (handle_one e q)

  unfoldable pub handle_all : List Incoming → M (Result Thrown (List Response))
  unfolding assert_is_not_destroyed
  handle_all qs = do assert_is_not_destroyed; e ← get_state; pure (handle_batch e qs)
