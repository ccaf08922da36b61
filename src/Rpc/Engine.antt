-- ===== src/Rpc/Engine.antt =====
-- The processing of one request in merged-packages/json-rpc-engine/src/JsonRpcEngine.ts.
use fork_metamask_core.Common.{
  Bool, true, false, not, ◌&&◌, Option, none, some, List, [], ◌∷◌, ◌++◌, if◌then◌else◌, is_some,
}
use mathlib.Core.List.{reverse}
use fork_metamask_core.Common.Js.{Value, null, undefined, truthy}

pub record Request : Type 0 where
  pub id : Value
  pub jsonrpc : Value
  pub method : Value
  pub params : Value

-- The errors that the engine makes itself.
pub data RpcError : Type 0 where
  not_plain_object no_string_method bad_return_handler no_error_or_result nothing_ended : RpcError
  empty_batch : RpcError

-- The property `error` of a response: set by a middleware, by `serializeError`, or by the engine.
pub data ErrorField : Type 0 where
  given serialized : Value → ErrorField
  raw : RpcError → ErrorField

-- What is thrown or passed on as an error; `raised null` is no error.
pub data Thrown : Type 0 where
  raised : Value → Thrown
  from_response : ErrorField → Thrown
  rpc : RpcError → Thrown
  type_error : Thrown

pub record Response : Type 0 where
  pub id : Value
  pub jsonrpc : Value
  pub result : Option Value
  pub error : Option ErrorField

-- A request and its response: the objects that the middleware share and write to.
pub record Exchange : Type 0 where
  pub request : Request
  pub response : Response

-- A return handler writes to the two, and calls back with an error or without.
pub data Handler : Type 0 where
  fn : (Exchange → Exchange × Thrown) → Handler
  not_function : Handler

-- How a middleware leaves: by `end`, by `next` with or without a return handler, or by a throw.
pub data Move : Type 0 where
  ended threw : Thrown → Move
  continued : Option Handler → Move

abbrev pub Middleware : Type 0
Middleware = Exchange → Exchange × Move

abbrev pub field_truthy : ErrorField → Bool
field_truthy (given v) = truthy v
field_truthy (serialized v) = truthy v
field_truthy (raw e) = true

abbrev pub is_error : Thrown → Bool
is_error (raised v) = truthy v
is_error (from_response f) = field_truthy f
is_error (rpc e) = true
is_error type_error = true

abbrev pub no_error : Thrown
no_error = raised null

-- `response.error`, as a value that may be missing.
abbrev pub response_error : Response → Thrown
response_error r = elim r.error [ none ↦ raised undefined | some f ↦ from_response f ]

abbrev pub with_error : ErrorField → Exchange → Exchange
with_error f x = record x { response = record (x.response) { error = some f } }

-- What `#runMiddleware` and `#runAllMiddleware` give.
pub record Ran : Type 0 where
  pub exchange : Exchange
  pub error : Thrown
  pub complete : Bool
  pub handlers : List Handler

module _ (serialize : Thrown → Value) where
  -- The callback `end`.
  abbrev pub finish : Thrown → Exchange → List Handler → Ran
  finish e x hs =
      let parsed = if is_error e then e else response_error x.response in
      record {
        exchange = if is_error parsed then with_error (serialized (serialize parsed)) x else x;
        error = parsed;
        complete = true;
        handlers = hs;
      }

  abbrev pub offered : Option Handler → Exchange → List Handler → Ran
  offered none x hs = record { exchange = x; error = no_error; complete = false; handlers = hs }
  offered (some (fn f)) x hs = record {
    exchange = x;
    error = no_error;
    complete = false;
    handlers = hs ++ fn f ∷ [];
  }
  offered (some not_function) x hs = finish (rpc bad_return_handler) x (hs ++ not_function ∷ [])

  abbrev pub moved : Move → Exchange → List Handler → Ran
  moved (ended e) x hs = finish e x hs
  moved (threw e) x hs = finish e x hs
  moved (continued h) x hs =
      if is_error (response_error x.response)
      then finish (response_error x.response) x hs
      else offered h x hs

  -- A middleware calls one of its callbacks, once, or throws.
  unfoldable pub run_middleware : Middleware → Exchange → List Handler → Ran
  run_middleware m x hs = moved (m x).1 (m x).0 hs

  -- The loop of `#runAllMiddleware`; the handlers stand in the order in which they came.
  unfoldable pub run_loop : List Middleware → Exchange → List Handler → Ran
  run_loop [] x hs = record { exchange = x; error = no_error; complete = false; handlers = hs }
  run_loop (m ∷ ms) x hs =
      let r = run_middleware m x hs in
      let rest = run_loop ms r.exchange r.handlers in if r.complete then r else rest

  unfoldable pub run_all_middleware : List Middleware → Exchange → Ran
  run_all_middleware ms x = let r = run_loop ms x [] in record r { handlers = reverse r.handlers }

-- `#checkForCompletion`; `none` where it does not throw.
unfoldable pub check_for_completion : Response → Bool → Option Thrown
check_for_completion r complete =
    if not (is_some r.result) && not (is_some r.error)
    then some (rpc no_error_or_result)
    else if not complete
    then some (rpc nothing_ended)
    else none

-- `#runReturnHandlers`: the first error ends the loop.
abbrev pub then_if_fine :
    Exchange × Thrown → (Exchange → Exchange × Option Thrown) → Exchange × Option Thrown
then_if_fine (x, e) next = let rest = next x in if is_error e then (x, some e) else rest

unfoldable pub run_return_handlers : List Handler → Exchange → Exchange × Option Thrown
run_return_handlers [] x = (x, none)
run_return_handlers (fn f ∷ hs) x = then_if_fine (f x) (run_return_handlers hs)
run_return_handlers (not_function ∷ hs) x = (x, some type_error)

-- The end of `#processRequest`: an error of the middleware is thrown after the handlers.
abbrev pub rethrow : Thrown → Exchange × Option Thrown → Exchange × Option Thrown
rethrow e (x, some f) = (x, some f)
rethrow e (x, none) = (x, if is_error e then some e else none)

abbrev pub complete_request : Ran → Exchange × Option Thrown
complete_request r = elim (check_for_completion r.exchange.response r.complete) [
  | some e ↦ (r.exchange, some e)
  | none ↦ rethrow r.error (run_return_handlers r.handlers r.exchange)
]

unfoldable pub process_request :
    (Thrown → Value) → List Middleware → Exchange → Exchange × Option Thrown
process_request serialize ms x = complete_request (run_all_middleware serialize ms x)
