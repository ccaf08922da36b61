-- ===== src/Messenger/Delivery.antt =====
-- `publish` of ControllerMessenger.ts: the subscribers of an event do not disturb one another.
use fork_metamask_core.Common.{
  ℕ, ◌≡◌, refl, ap, ap₂, ◌∙◌, String, true, false, Option, none, some, List, [], ◌∷◌, ◌++◌, arith,
  inl, inr, nat_eq, eqb, eqb_iff, Option-cases,
}
use fork_metamask_core.Common.Assoc.{Assoc, Distinct, get-set}
use fork_metamask_core.Common.Assoc
use fork_metamask_core.Common.Monad.{ok}
use fork_metamask_core.Common.Js.{Value}
use fork_metamask_core.Common.JsEq.{value_eq}
use fork_metamask_core.Messenger.Bus.{
  Messenger, Selector, Subscribers, Delivery, deliver, joined, deliver_all, publish, subscribers,
}

-- What each subscriber gets, from the cache as it is before the publication.
abbrev pub each : Subscribers → List Value → Assoc ℕ Value → List Delivery
each [] args cache = []
each ((h, sel) ∷ subs) args cache = (deliver h sel args cache).0 ++ each subs args cache

deliver-elsewhere :
    (h k : ℕ) (sel : Option Selector) (args : List Value) (cache : Assoc ℕ Value)
    → eqb h k ≡ false
    → Assoc.get k (deliver h sel args cache).1 ≡ Assoc.get k cache
deliver-elsewhere h k none args cache e = refl
deliver-elsewhere h k (some f) args cache e = elim (Option-cases (f args)) [
  | inl g ↦ ground (arith, g)
  | inr (new, g) ↦ ground (arith, g, get-set h k new cache)
]

deliver-cached :
    (h : ℕ) (sel : Option Selector) (args : List Value) (c d : Assoc ℕ Value)
    → Assoc.get h c ≡ Assoc.get h d
    → (deliver h sel args c).0 ≡ (deliver h sel args d).0
deliver-cached h none args c d e = refl
deliver-cached h (some f) args c d e = ground (arith, e)

each-cached :
    (subs : Subscribers) (args : List Value) (c d : Assoc ℕ Value)
    → ((k : ℕ) → Assoc.has k subs ≡ true → Assoc.get k c ≡ Assoc.get k d)
    → each subs args c ≡ each subs args d
unfolding Assoc.get
each-cached [] args c d h = refl
each-cached ((j, sel) ∷ subs) args c d h =
    ap₂ ◌++◌ (deliver-cached j sel args c d (h j (ground arith)))
      (each-cached subs args c d (λ k e. h k (ground (arith, e))))

joined-first :
    (ds : List Delivery) (r : List Delivery × Assoc ℕ Value) → (joined ds r).0 ≡ ds ++ r.0
joined-first ds (es, cache) = refl

pub deliver_all-each :
    (subs : Subscribers) (args : List Value) (cache : Assoc ℕ Value)
    → Distinct subs
    → (deliver_all subs args cache).0 ≡ each subs args cache
unfolding deliver_all
deliver_all-each [] args cache d = refl
deliver_all-each ((j, sel) ∷ subs) args cache d =
    let r = deliver j sel args cache in
    joined-first r.0 (deliver_all subs args r.1)
    ∙ ap (◌++◌ r.0) (
        deliver_all-each subs args r.1 d.1
        ∙ each-cached subs args r.1 cache
            (λ k e. deliver-elsewhere j k sel args cache (ground (arith, d.0, e, eqb_iff j k))))

-- A publication reaches the subscribers of its event, in the order of subscription, and what one of
-- them gets depends on its own selector and its own cached value alone.
pub publish-each :
    (type : String) (args : List Value) (m : Messenger)
    → Distinct (subscribers type m)
    → (publish type args m).0 ≡ ok (each (subscribers type m) args m.payload_cache)
unfolding publish
publish-each type args m d = ap ok (deliver_all-each (subscribers type m) args m.payload_cache d)

-- Each event's subscribers are distinct.
abbrev pub HasDistinctSubscribers : Messenger → Type 0
HasDistinctSubscribers m = (type : String) → Distinct (subscribers type m)
