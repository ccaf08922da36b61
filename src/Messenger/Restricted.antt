-- ===== src/Messenger/Restricted.antt =====
-- `RestrictedControllerMessenger` of packages/base-controller/src/ControllerMessenger.ts.
use text.Mathlib.Text.{starts_with}
use Prim.Native.String.{◌++◌}
use fork_metamask_core.Common.{
  ℕ, String, Bool, not, Option, none, some, List, if◌then◌else◌, any, ◌==◌, string_eq,
}
use fork_metamask_core.Common.Monad.{◌>>◌, pure, throw}
use fork_metamask_core.Common.Js.{Value}
use fork_metamask_core.Messenger.Bus.{
  Selector, ActionHandler, Delivery, M, Error, not_prefixed, no_actions_allowed, no_events_allowed,
  missing_from_allow_list, register_action_handler, unregister_action_handler, call, publish,
  subscribe, unsubscribe, clear_event_subscriptions,
}

-- The messenger that it wraps is the state of its methods.
pub record Restricted : Type 0 where
  pub name : String
  pub allowed_actions : Option (List String)
  pub allowed_events : Option (List String)

-- `getRestricted` and the constructor: options that are left out become null.
abbrev pub get_restricted : String → Option (List String) → Option (List String) → Restricted
get_restricted name actions events = record {
  name = name;
  allowed_actions = actions;
  allowed_events = events;
}

-- `type.startsWith(`${this.controllerName}:`)`.
unfoldable pub is_own : Restricted → String → Bool
is_own r type = starts_with type (r.name ++ ":")

abbrev pub check_own : Restricted → String → M (Unit {0})
check_own r type = if not (is_own r type) then throw (not_prefixed r.name) else pure tt

abbrev pub check_allowed : Option (List String) → Error → String → M (Unit {0})
check_allowed none refusal type = throw refusal
check_allowed (some types) refusal type =
    if not (any (λ t. t == type) types) then throw (missing_from_allow_list type) else pure tt

unfoldable pub restricted_register : Restricted → String → ActionHandler → M (Unit {0})
restricted_register r type handler = do check_own r type; register_action_handler type handler

unfoldable pub restricted_unregister : Restricted → String → M (Unit {0})
restricted_unregister r type = do check_own r type; unregister_action_handler type

unfoldable pub restricted_call : Restricted → String → List Value → M Value
restricted_call r type params = do
  check_allowed r.allowed_actions no_actions_allowed type
  call type params

unfoldable pub restricted_publish : Restricted → String → List Value → M (List Delivery)
restricted_publish r type args = do check_own r type; publish type args

unfoldable pub restricted_subscribe : Restricted → String → ℕ → Option Selector → M (Unit {0})
restricted_subscribe r type handler selector = do
  check_allowed r.allowed_events no_events_allowed type
  subscribe type handler selector

unfoldable pub restricted_unsubscribe : Restricted → String → ℕ → M (Unit {0})
restricted_unsubscribe r type handler = do
  check_allowed r.allowed_events no_events_allowed type
  unsubscribe type handler

unfoldable pub restricted_clear : Restricted → String → M (Unit {0})
restricted_clear r type = do check_own r type; clear_event_subscriptions type
