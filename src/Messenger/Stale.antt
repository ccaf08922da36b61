-- ===== src/Messenger/Stale.antt =====
-- What `clearEventSubscriptions` of ControllerMessenger.ts leaves in the cache of selected values.
use fork_metamask_core.Common.{
  ℕ, ◌≡◌, sym, ap, String, some, List, [], ◌∷◌, arith, inl, inr, if◌then◌else◌, get_or, ◌==◌,
  nat_eq, string_eq, beq_refl, Bool-cases,
}
use fork_metamask_core.Common.Assoc.{Assoc, get-set, get-delete, get-set_self, get-delete_self}
use fork_metamask_core.Common.Assoc
use fork_metamask_core.Common.Monad.{ok, ◌>>=◌, ◌>>◌}
use fork_metamask_core.Common.Js.{Value, undefined}
use fork_metamask_core.Common.JsEq.{value_eq, value_eqb_iff}
use fork_metamask_core.Messenger.Bus.{
  Messenger, Selector, Delivery, M, change, deliver_all, publish, subscribe, unsubscribe,
  clear_event_subscriptions, subscribers,
}

-- A subscription with a selector, and a publication.
unfoldable pub subscribed_publish : String → ℕ → Selector → List Value → M (List Delivery)
unfolding subscribe publish
subscribed_publish type h f args = do subscribe type h (some f); publish type args

module _ (type : String) (h : ℕ) (f : Selector) (args : List Value) (v : Value) (m : Messenger)
    (fresh : subscribers type m ≡ []) (value : f args ≡ some v) where
  abbrev cached : Value
  cached = get_or (Assoc.get h m.payload_cache) undefined

  -- The first publication leaves the value in the cache.
  first :
      (m' : Messenger) × (subscribed_publish type h f args m
        ≡ (ok (if v == cached then [] else change h v cached ∷ []), m'))
      × (get_or (Assoc.get h m'.payload_cache) undefined ≡ v)
      × (Assoc.get type m'.events ≡ some ((h, some f) ∷ []))
  unfolding subscribed_publish deliver_all Assoc.set
  first =
      let e = get-set_self type ((h, some f) ∷ []) m.events in
      elim (Bool-cases (v == cached)) [
        | inl same ↦ (
          record m { events = Assoc.set type ((h, some f) ∷ []) m.events },
          ground (arith, fresh, value, same, e),
          sym ((value_eqb_iff v cached).0 same),
          e,
        )
        | inr new ↦ (
          record m {
            events = Assoc.set type ((h, some f) ∷ []) m.events;
            payload_cache = Assoc.set h v m.payload_cache;
          },
          ground (arith, fresh, value, new, e),
          ap (λ o. get_or o undefined) (get-set_self h v m.payload_cache),
          e,
        )
      ]

-- A client that subscribes, hears of a publication, ends the subscription and does it all again.
unfoldable pub resubscribed : M (Unit {0}) → String → ℕ → Selector → List Value → M (List Delivery)
resubscribed ending type h f args = do
  _ ← subscribed_publish type h f args
  ending
  subscribed_publish type h f args

module _ (type : String) (h : ℕ) (f : Selector) (args : List Value) (v : Value) (m : Messenger)
    (fresh : subscribers type m ≡ []) (value : f args ≡ some v) where
  -- After `unsubscribe` the subscriber is told the value again, unless it is `undefined`; after
  -- `clearEventSubscriptions` it is not told, since its old value is still cached.
  pub resubscribed_lem :
      ((resubscribed (unsubscribe type h) type h f args m).0
        ≡ ok (if v == undefined then [] else change h v undefined ∷ []))
      × ((resubscribed (clear_event_subscriptions type) type h f args m).0 ≡ ok [])
  unfolding resubscribed unsubscribe clear_event_subscriptions Assoc.get Assoc.delete
  resubscribed_lem =
      let (m1, run, cache, subs) = first type h f args v m fresh value in
      let subs' = Assoc.delete h ((h, some f) ∷ []) in
      let left = record m1 {
        payload_cache = Assoc.delete h m1.payload_cache;
        events = Assoc.set type subs' m1.events;
      } in
      let emptied = record m1 { events = Assoc.delete type m1.events } in
      let none_left : subscribers type left ≡ [] =
        ground (arith, get-set_self type subs' m1.events, beq_refl h) in
      let none_emptied : subscribers type emptied ≡ [] =
        ground (arith, get-delete_self type m1.events) in
      let (_, run_left, _, _) = first type h f args v left none_left value in
      let (_, run_emptied, _, _) = first type h f args v emptied none_emptied value in
      (
        ground (arith, run, subs, run_left, get-delete_self h m1.payload_cache, beq_refl h),
        ground (arith, run, run_emptied, cache, value_eqb_iff v v),
      )
