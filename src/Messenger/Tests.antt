-- ===== src/Messenger/Tests.antt =====
-- The theorems on ControllerMessenger.ts at concrete inputs.
use fork_metamask_core.Common.{◌≡◌, refl, none, some, List, [], ◌∷◌, string_eq}
use fork_metamask_core.Common.Assoc
use fork_metamask_core.Common.Monad.{ok}
use fork_metamask_core.Common.Js.{Value, undefined, number}
use fork_metamask_core.Common.JsEq.{value_eq}
use fork_metamask_core.Messenger.Bus.{
  Messenger, ActionHandler, Selector, Subscribers, empty, change, unsubscribe,
  clear_event_subscriptions,
}
use fork_metamask_core.Messenger.Restricted.{Restricted, get_restricted, is_own}
use fork_metamask_core.Messenger.Delivery.{HasDistinctSubscribers}
use fork_metamask_core.Messenger.Changes.{publish_all, publish_all-changes, changes, selected}
use fork_metamask_core.Messenger.Stale.{resubscribed, resubscribed_lem}
use fork_metamask_core.Messenger.Namespaces.{
  Request, registers, subscribes, clears, serve_all, serve_all-action,
}

abbrev echo : ActionHandler
echo params = ok (number 1)

-- A selector that takes the first value of the payload.
abbrev first : Selector
first [] = none
first (v ∷ vs) = some v

abbrev subs : Subscribers
subs = (4, none) ∷ (5, some first) ∷ []

abbrev busy : Messenger
busy = record { actions = []; events = ("a:tick", subs) ∷ []; payload_cache = [] }

abbrev lone : Messenger
lone = record { actions = []; events = ("a:tick", (5, some first) ∷ []) ∷ []; payload_cache = [] }

abbrev ticks : List (List Value)
ticks = (number 1 ∷ []) ∷ (number 1 ∷ []) ∷ [] ∷ (number 2 ∷ []) ∷ []

publish_all-changes_example :
    (publish_all "a:tick" ticks lone).0 ≡ ok (changes 5 undefined (selected first ticks))
unfolding Assoc.get
publish_all-changes_example = publish_all-changes "a:tick" 5 first lone ticks refl

resubscribed_lem_example :
    ((resubscribed (unsubscribe "a:tick" 5) "a:tick" 5 first (number 1 ∷ []) empty).0
      ≡ ok (change 5 (number 1) undefined ∷ []))
    × ((resubscribed (clear_event_subscriptions "a:tick") "a:tick" 5 first (number 1 ∷ []) empty).0
        ≡ ok [])
unfolding Assoc.get
resubscribed_lem_example =
    resubscribed_lem "a:tick" 5 first (number 1 ∷ []) (number 1) empty refl refl

abbrev client : Restricted
client = get_restricted "b" none (some ("c:tock" ∷ []))

abbrev requests : List Request
requests =
    registers "b:go" echo
    ∷ registers "a:go" echo
    ∷ clears "a:tick"
    ∷ subscribes "c:tock" 6 none
    ∷ []

serve_all-action_example :
    Assoc.get "a:go" (serve_all client busy requests).actions ≡ Assoc.get "a:go" busy.actions
unfolding is_own
serve_all-action_example = serve_all-action client "a:go" refl busy requests

empty-Distinct : HasDistinctSubscribers empty
unfolding Assoc.get
empty-Distinct type = tt
