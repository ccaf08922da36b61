-- ===== src/Messenger/Changes.antt =====
-- Selector subscriptions of ControllerMessenger.ts along a sequence of publications.
use fork_metamask_core.Common.{
  ℕ, ◌≡◌, refl, sym, ap, ◌∙◌, String, Option, none, some, List, [], ◌∷◌, arith, inl, inr,
  if◌then◌else◌, get_or, ◌==◌, nat_eq, string_eq, Option-cases, Bool-cases,
}
use fork_metamask_core.Common.Assoc.{Assoc, get-set, get-set_self, get-delete_self, delete_absent}
use fork_metamask_core.Common.Assoc
use fork_metamask_core.Common.Monad.{ok, ◌>>=◌, pure}
use fork_metamask_core.Common.Js.{Value, undefined}
use fork_metamask_core.Common.JsEq.{value_eq, value_eqb_iff}
use fork_metamask_core.Messenger.Bus.{
  Messenger, Selector, Delivery, M, change, failure, deliver_all, publish, subscribers,
}

-- Publications of one event, one after the other.
pub publish_all : String → List (List Value) → M (List (List Delivery))
publish_all type [] = pure []
publish_all type (args ∷ rest) = do
  ds ← publish type args
  more ← publish_all type rest
  pure (ds ∷ more)

-- What a subscriber with a selector should get: a call at each value that differs from the one
-- before, and nothing else; a selector that throws changes nothing.
abbrev pub changes : ℕ → Value → List (Option Value) → List (List Delivery)
changes h previous [] = []
changes h previous (none ∷ rest) = (failure h ∷ []) ∷ changes h previous rest
changes h previous (some v ∷ rest) =
    (if v == previous then [] else change h v previous ∷ []) ∷ changes h v rest

abbrev pub selected : Selector → List (List Value) → List (Option Value)
selected f [] = []
selected f (args ∷ rest) = f args ∷ selected f rest

module _ (type : String) (h : ℕ) (f : Selector) where
  abbrev Alone : Messenger → Type 0
  Alone m = subscribers type m ≡ (h, some f) ∷ []

  abbrev cached : Messenger → Value
  cached m = get_or (Assoc.get h m.payload_cache) undefined

  -- One publication, where the selector throws, and where it gives a value.
  publish_throws :
      (args : List Value) (m : Messenger)
      → Alone m
      → f args ≡ none
      → publish type args m ≡ (ok (failure h ∷ []), m)
  unfolding publish deliver_all
  publish_throws args m alone e = ground (arith, alone, e)

  publish_value :
      (args : List Value) (m : Messenger) (v : Value)
      → Alone m
      → f args ≡ some v
      → (m' : Messenger) × (publish type args m
          ≡ (ok (if v == cached m then [] else change h v (cached m) ∷ []), m'))
        × (cached m' ≡ v)
        × (m'.events ≡ m.events)
  unfolding publish deliver_all
  publish_value args m v alone e = elim (Bool-cases (v == cached m)) [
    | inl same ↦
        (m, ground (arith, alone, e, same), sym ((value_eqb_iff v (cached m)).0 same), refl)
    | inr new ↦ (
      record m { payload_cache = Assoc.set h v m.payload_cache },
      ground (arith, alone, e, new),
      ap (λ o. get_or o undefined) (get-set_self h v m.payload_cache),
      refl,
    )
  ]

  -- Along any publications, a subscriber with a selector is called at the changes of the selected
  -- value, with the new and the old one.
  pub publish_all-changes :
      (m : Messenger) (payloads : List (List Value))
      → Alone m
      → (publish_all type payloads m).0 ≡ ok (changes h (cached m) (selected f payloads))
  unfolding publish_all
  publish_all-changes m [] alone = refl
  publish_all-changes m (args ∷ rest) alone = elim (Option-cases (f args)) [
    | inl e ↦ ground (arith, e, publish_throws args m alone e, publish_all-changes m rest alone)
    | inr (v, e) ↦
        let (m', run, now, same) = publish_value args m v alone e in
        let alone' : Alone m' = ap (λ es. get_or (Assoc.get type es) []) same ∙ alone in
        ground (arith, e, run, now, publish_all-changes m' rest alone')
  ]
