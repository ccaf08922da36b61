-- ===== src/RateLimit/Controller.antt =====
-- packages/rate-limit-controller/src/RateLimitController.ts. Timers fire when the environment likes.
use fork_metamask_core.Common.{
  ℕ, ◌+◌, String, Bool, false, ◌&&◌, Option, none, some, List, [], ◌∷◌, if◌then◌else◌, get_or, any,
  leb, eqb, ◌==◌, string_eq,
}
use fork_metamask_core.Common.Assoc.{Assoc}
use fork_metamask_core.Common.Assoc
use fork_metamask_core.Common.Monad.{
  Result, ok, err, Action, ◌>>=◌, ◌>>◌, pure, throw, get_state, modify, from_option, lift,
}
use fork_metamask_core.Common.Js.{Value}

-- `RateLimitedApi`. The methods are the client's; one may be missing at run time.
pub record RateLimitedApi : Type 0 where
  pub method : Option (List Value → Value)
  pub rate_limit_timeout : Option ℕ
  pub rate_limit_count : Option ℕ

-- A call of `setTimeout` whose callback has not run.
pub record Timer : Type 0 where
  pub api : String
  pub origin : String
  pub timeout : ℕ

pub record State : Type 0 where
  pub requests : Assoc String (Assoc String ℕ)
  pub implementations : Assoc String RateLimitedApi
  pub rate_limit_timeout : ℕ
  pub rate_limit_count : ℕ
  pub timers : List Timer

-- `type_error` is the engine's, at a property of `undefined`.
pub data Error : Type 0 where
  limit_exceeded : String → Error
  invalid_api_type type_error : Error

abbrev pub M : Type 0 → Type 0
M = Action State Error

-- An empty table for each implementation.
abbrev pub no_requests : Assoc String RateLimitedApi → Assoc String (Assoc String ℕ)
no_requests [] = []
no_requests ((api, i) ∷ m) = (api, []) ∷ no_requests m

-- The constructor with no initial state given.
abbrev pub init : Assoc String RateLimitedApi → Option ℕ → Option ℕ → State
init implementations timeout count = record {
  requests = no_requests implementations;
  implementations = implementations;
  rate_limit_timeout = get_or timeout 5000;
  rate_limit_count = get_or count 1;
  timers = [];
}

-- `undefined >= n` is false.
abbrev pub reaches : Option ℕ → ℕ → Bool
reaches none n = false
reaches (some k) n = leb n k

unfoldable pub is_rate_limited : String → String → State → Result Error Bool
is_rate_limited api origin s = elim (Assoc.get api s.implementations) [
  | none ↦ err type_error
  | some i ↦ elim (Assoc.get api s.requests) [
    | none ↦ err type_error
    | some m ↦ ok (reaches (Assoc.get origin m) (get_or i.rate_limit_count s.rate_limit_count))
  ]
]

-- `state.requests[api][origin] = n`.
abbrev pub with_count : String → String → ℕ → State → State
with_count api origin n s = record s {
  requests = Assoc.set api (Assoc.set origin n (get_or (Assoc.get api s.requests) [])) s.requests;
}

abbrev pub add_timer : Timer → State → State
add_timer t s = record s { timers = t ∷ s.timers }

unfoldable pub record_request : String → String → M (Unit {0})
record_request api origin = do
  s ← get_state
  i ← from_option (Assoc.get api s.implementations) type_error
  m ← from_option (Assoc.get api s.requests) type_error
  let previous = get_or (Assoc.get origin m) 0
  modify (with_count api origin (previous + 1))
  if eqb previous 0
      then modify (
          add_timer (record {
            api = api;
            origin = origin;
            timeout = get_or i.rate_limit_timeout s.rate_limit_timeout;
          }))
      else pure tt

-- `call`, with the result of the API's method.
unfoldable pub call : String → String → List Value → M Value
call origin api args = do
  s ← get_state
  limited ← lift (is_rate_limited api origin s)
  if limited then throw (limit_exceeded api) else pure tt
  record_request api origin
  i ← from_option (Assoc.get api s.implementations) type_error
  method ← from_option i.method invalid_api_type
  pure (method args)

-- The callback of a timer, `resetRequestCount`.
unfoldable pub reset_request_count : String → String → State → State
reset_request_count api origin s = with_count api origin 0 s

-- The first timer for an API and an origin fires.
abbrev pub is_for : String → String → Timer → Bool
is_for api origin t = t.api == api && t.origin == origin

abbrev pub without_first : (Timer → Bool) → List Timer → List Timer
without_first p [] = []
without_first p (t ∷ ts) = if p t then ts else t ∷ without_first p ts

unfoldable pub fire : String → String → State → State
unfolding reset_request_count
fire api origin s =
    reset_request_count api origin
      (record s { timers = without_first (is_for api origin) s.timers })

pub data Event : Type 0 where
  calls : String → String → List Value → Event
  fires : String → String → Event

abbrev pub may_fire : String → String → State → Bool
may_fire api origin s = any (is_for api origin) s.timers

-- A timer that is not there does not fire.
unfoldable pub step : State → Event → State
step s (calls origin api args) = (call origin api args s).1
step s (fires origin api) = if may_fire api origin s then fire api origin s else s

unfoldable pub run : State → List Event → State
run s [] = s
run s (e ∷ es) = run (step s e) es
