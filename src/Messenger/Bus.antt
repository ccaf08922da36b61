-- ===== src/Messenger/Bus.antt =====
-- `ControllerMessenger` of packages/base-controller/src/ControllerMessenger.ts.
use fork_metamask_core.Common.{
  ℕ, String, not, Option, none, some, List, [], ◌∷◌, ◌++◌, if◌then◌else◌, get_or, ◌==◌, string_eq,
  nat_eq,
}
use fork_metamask_core.Common.Assoc.{Assoc}
use fork_metamask_core.Common.Assoc
use fork_metamask_core.Common.Monad.{
  Result, ok, err, Action, ◌>>=◌, pure, throw, get_state, modify, from_option,
}
use fork_metamask_core.Common.Js.{Value, undefined}
use fork_metamask_core.Common.JsEq.{value_eq}

-- A handler of an action returns a value or throws one.
abbrev pub ActionHandler : Type 0
ActionHandler = List Value → Result Value Value

-- A selector may throw (`none`). Event handlers are named by numbers, which stand for their identity.
abbrev pub Selector : Type 0
Selector = List Value → Option Value

abbrev pub Subscribers : Type 0
Subscribers = Assoc ℕ (Option Selector)

pub record Messenger : Type 0 where
  pub actions : Assoc String ActionHandler
  pub events : Assoc String Subscribers
  pub payload_cache : Assoc ℕ Value

pub data Error : Type 0 where
  already_registered not_registered no_subscription : String → Error
  no_actions_allowed no_events_allowed : Error
  missing_from_allow_list not_prefixed : String → Error
  thrown : Value → Error

abbrev pub M : Type 0 → Type 0
M = Action Messenger Error

-- The class as it is constructed.
abbrev pub empty : Messenger
empty = record { actions = []; events = []; payload_cache = [] }

unfoldable pub register_action_handler : String → ActionHandler → M (Unit {0})
register_action_handler type handler = do
  m ← get_state
  if Assoc.has type m.actions
      then throw (already_registered type)
      else modify (λ m'. record m' { actions = Assoc.set type handler m'.actions })

unfoldable pub unregister_action_handler : String → M (Unit {0})
unregister_action_handler type = modify (λ m. record m { actions = Assoc.delete type m.actions })

unfoldable pub clear_actions : M (Unit {0})
clear_actions = modify (λ m. record m { actions = [] })

abbrev pub answered : Result Value Value → M Value
answered (ok v) = pure v
answered (err e) = throw (thrown e)

unfoldable pub call : String → List Value → M Value
call type params = do
  m ← get_state
  handler ← from_option (Assoc.get type m.actions) (not_registered type)
  answered (handler params)

-- What one subscriber gets from a publication: the payload, the new and the old value of its
-- selector, or an error that is thrown later.
pub data Delivery : Type 0 where
  payload : ℕ → List Value → Delivery
  change : ℕ → Value → Value → Delivery
  failure : ℕ → Delivery

abbrev pub offer : ℕ → Value → Assoc ℕ Value → List Delivery × Assoc ℕ Value
offer handler new cache =
    let previous = get_or (Assoc.get handler cache) undefined in
    if not (new == previous)
    then (change handler new previous ∷ [], Assoc.set handler new cache)
    else ([], cache)

-- The body of the loop of `publish`.
abbrev pub deliver :
    ℕ → Option Selector → List Value → Assoc ℕ Value → List Delivery × Assoc ℕ Value
deliver handler none args cache = (payload handler args ∷ [], cache)
deliver handler (some selector) args cache = elim (selector args) [
  | none ↦ (failure handler ∷ [], cache)
  | some new ↦ offer handler new cache
]

abbrev pub joined : List Delivery → List Delivery × Assoc ℕ Value → List Delivery × Assoc ℕ Value
joined ds (es, cache) = (ds ++ es, cache)

unfoldable pub deliver_all :
    Subscribers → List Value → Assoc ℕ Value → List Delivery × Assoc ℕ Value
deliver_all [] args cache = ([], cache)
deliver_all ((handler, selector) ∷ subs) args cache =
    let r = deliver handler selector args cache in joined r.0 (deliver_all subs args r.1)

abbrev pub subscribers : String → Messenger → Subscribers
subscribers type m = get_or (Assoc.get type m.events) []

-- The deliveries, in order. What the handlers do is not part of the messenger.
unfoldable pub publish : String → List Value → M (List Delivery)
publish type args m =
    let r = deliver_all (subscribers type m) args m.payload_cache in
    (ok r.0, record m { payload_cache = r.1 })

unfoldable pub subscribe : String → ℕ → Option Selector → M (Unit {0})
subscribe type handler selector = modify (λ m. record m {
  events = Assoc.set type (Assoc.set handler selector (subscribers type m)) m.events;
})

abbrev pub uncached : Option Selector → ℕ → Assoc ℕ Value → Assoc ℕ Value
uncached none handler cache = cache
uncached (some selector) handler cache = Assoc.delete handler cache

unfoldable pub unsubscribe : String → ℕ → M (Unit {0})
unsubscribe type handler = do
  m ← get_state
  selector ← from_option (Assoc.get handler (subscribers type m)) (no_subscription type)
  modify (λ m'. record m' {
    payload_cache = uncached selector handler m'.payload_cache;
    events = Assoc.set type (Assoc.delete handler (subscribers type m')) m'.events;
  })

unfoldable pub clear_event_subscriptions : String → M (Unit {0})
clear_event_subscriptions type = modify (λ m. record m { events = Assoc.delete type m.events })

unfoldable pub clear_subscriptions : M (Unit {0})
clear_subscriptions = modify (λ m. record m { events = [] })
