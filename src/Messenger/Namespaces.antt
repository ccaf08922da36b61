-- ===== src/Messenger/Namespaces.antt =====
-- What a client of a restricted messenger of ControllerMessenger.ts can reach.
use text.Mathlib.TextEquality.{eq_iff}
use fork_metamask_core.Common.{
  ℕ, ◌≡◌, refl, ◌∙◌, String, Bool, false, Option, none, some, List, [], ◌∷◌, arith, any, ◌==◌,
  string_eq, nat_eq,
}
use fork_metamask_core.Common.Assoc.{get-set, get-delete, Distinct, set-Distinct, delete-Distinct}
use fork_metamask_core.Common.Assoc
use fork_metamask_core.Common.Js.{Value}
use fork_metamask_core.Messenger.Bus.{
  Messenger, ActionHandler, Selector, register_action_handler, unregister_action_handler, call,
  publish, subscribe, unsubscribe, clear_event_subscriptions, subscribers,
}
use fork_metamask_core.Messenger.Restricted.{
  Restricted, is_own, restricted_register, restricted_unregister, restricted_call,
  restricted_publish, restricted_subscribe, restricted_unsubscribe, restricted_clear,
}
use fork_metamask_core.Messenger.Delivery.{HasDistinctSubscribers}

pub data Request : Type 0 where
  registers : String → ActionHandler → Request
  unregisters clears : String → Request
  calls publishes : String → List Value → Request
  subscribes : String → ℕ → Option Selector → Request
  unsubscribes : String → ℕ → Request

unfoldable pub serve : Restricted → Messenger → Request → Messenger
serve r m (registers type handler) = (restricted_register r type handler m).1
serve r m (unregisters type) = (restricted_unregister r type m).1
serve r m (clears type) = (restricted_clear r type m).1
serve r m (calls type params) = (restricted_call r type params m).1
serve r m (publishes type args) = (restricted_publish r type args m).1
serve r m (subscribes type handler selector) = (restricted_subscribe r type handler selector m).1
serve r m (unsubscribes type handler) = (restricted_unsubscribe r type handler m).1

unfoldable pub serve_all : Restricted → Messenger → List Request → Messenger
serve_all r m [] = m
serve_all r m (q ∷ qs) = serve_all r (serve r m q) qs

-- Whether the messenger may subscribe to an event.
abbrev pub may_hear : Restricted → String → Bool
may_hear r k = elim r.allowed_events [ none ↦ false | some types ↦ any (λ t. t == k) types ]

module _ (r : Restricted) (k : String) (other : is_own r k ≡ false) where
  serve-action :
      (m : Messenger) (q : Request) → Assoc.get k (serve r m q).actions ≡ Assoc.get k m.actions
  unfolding serve restricted_register restricted_unregister restricted_clear restricted_call
      restricted_publish restricted_subscribe restricted_unsubscribe register_action_handler
      unregister_action_handler call publish subscribe unsubscribe clear_event_subscriptions
  serve-action m (registers type handler) =
      ground (arith, other, get-set type k handler m.actions, eq_iff type k)
  serve-action m (unregisters type) =
      ground (arith, other, get-delete type k m.actions, eq_iff type k)
  serve-action m (clears type) = ground arith
  serve-action m (calls type params) = ground arith
  serve-action m (publishes type args) = ground arith
  serve-action m (subscribes type handler selector) = ground arith
  serve-action m (unsubscribes type handler) = ground arith

  serve-event :
      (m : Messenger) (q : Request)
      → may_hear r k ≡ false
      → Assoc.get k (serve r m q).events ≡ Assoc.get k m.events
  unfolding serve restricted_register restricted_unregister restricted_clear restricted_call
      restricted_publish restricted_subscribe restricted_unsubscribe register_action_handler
      unregister_action_handler call publish subscribe unsubscribe clear_event_subscriptions
  serve-event m (registers type handler) h = ground arith
  serve-event m (unregisters type) h = ground arith
  serve-event m (clears type) h = ground (arith, other, get-delete type k m.events, eq_iff type k)
  serve-event m (calls type params) h = ground arith
  serve-event m (publishes type args) h = ground arith
  serve-event m (subscribes type handler selector) h =
      let subs = Assoc.set handler selector (subscribers type m) in
      ground (arith, get-set type k subs m.events, eq_iff type k)
  serve-event m (unsubscribes type handler) h =
      let subs = Assoc.delete handler (subscribers type m) in
      ground (arith, get-set type k subs m.events, eq_iff type k)

  -- No requests of a restricted messenger change the action handler of a type outside its namespace.
  pub serve_all-action :
      (m : Messenger) (qs : List Request)
      → Assoc.get k (serve_all r m qs).actions ≡ Assoc.get k m.actions
  unfolding serve_all
  serve_all-action m [] = refl
  serve_all-action m (q ∷ qs) = serve_all-action (serve r m q) qs ∙ serve-action m q

  -- No requests of a restricted messenger change the subscribers of an event outside its namespace
  -- that it may not subscribe to.
  pub serve_all-event :
      (m : Messenger) (qs : List Request)
      → may_hear r k ≡ false
      → Assoc.get k (serve_all r m qs).events ≡ Assoc.get k m.events
  unfolding serve_all
  serve_all-event m [] h = refl
  serve_all-event m (q ∷ qs) h = serve_all-event (serve r m q) qs h ∙ serve-event m q h

serve-Distinct :
    (r : Restricted) (m : Messenger) (q : Request)
    → HasDistinctSubscribers m
    → HasDistinctSubscribers (serve r m q)
unfolding serve restricted_register restricted_unregister restricted_clear restricted_call
    restricted_publish restricted_subscribe restricted_unsubscribe register_action_handler
    unregister_action_handler call publish subscribe unsubscribe clear_event_subscriptions
serve-Distinct r m (registers type handler) d k = ground (arith, d k)
serve-Distinct r m (unregisters type) d k = ground (arith, d k)
serve-Distinct r m (clears type) d k = ground (arith, d k, get-delete type k m.events)
serve-Distinct r m (calls type params) d k = ground (arith, d k)
serve-Distinct r m (publishes type args) d k = ground (arith, d k)
serve-Distinct r m (subscribes type handler selector) d k =
    let subs = Assoc.set handler selector (subscribers type m) in
    ground (
      arith,
      d k,
      get-set type k subs m.events,
      set-Distinct handler selector (subscribers type m) (d type),
    )
serve-Distinct r m (unsubscribes type handler) d k =
    let subs = Assoc.delete handler (subscribers type m) in
    ground (
      arith,
      d k,
      get-set type k subs m.events,
      delete-Distinct handler (subscribers type m) (d type),
    )

-- Subscribers stay distinct along any requests.
pub serve_all-Distinct :
    (r : Restricted) (m : Messenger) (qs : List Request)
    → HasDistinctSubscribers m
    → HasDistinctSubscribers (serve_all r m qs)
unfolding serve_all
serve_all-Distinct r m [] d = d
serve_all-Distinct r m (q ∷ qs) d = serve_all-Distinct r (serve r m q) qs (serve-Distinct r m q d)
