-- ===== src/Permission/Rights.antt =====
-- What the revocations and grants of PermissionController.ts do to the rights of subjects: who has which
-- permission.
use text.Mathlib.TextEquality.{eq_iff}
use fork_metamask_core.Common.{
  ◌≡◌, refl, ap, ◌∙◌, String, Bool, false, not, ◌&&◌, ◌||◌, none, some, List, [], ◌∷◌, arith, inl,
  inr, Bool-cases, Option-cases, string_eq, ◌==◌, is_some,
}
use fork_metamask_core.Common.Assoc.{Assoc, Distinct, keys, get-set, get-delete, get-delete_self}
use fork_metamask_core.Common.Assoc
use fork_metamask_core.Common.Monad.{Result, ok, err, and_then, for_each}
use fork_metamask_core.Permission.State.{Permission, Subject, Subjects, State, Error, Config}
use fork_metamask_core.Permission.Validation.{includes}
use fork_metamask_core.Permission.Subjects.{
  D, has_permission, stored, update_subjects, delete_permission, revoke_from, revoke_target,
  revoke_targets, without_permission,
}
use fork_metamask_core.Permission.Sound.{IsConsistent}
use fork_metamask_core.Permission.Keeps.{
  IsSubject-there, without_permission-IsConsistent, revoke_target-IsConsistent,
  revoke_targets-IsConsistent,
}
use fork_metamask_core.Permission.Revoking.{get_permission-without_permission}

-- Which origin has the permission of which target.
abbrev pub Rights : Type 0
Rights = String → String → Bool

abbrev pub rights : Subjects → Rights
rights d origin target = has_permission origin target d

-- What is left of rights without some.
abbrev pub except : Rights → Rights → Rights
except lost r origin target = not (lost origin target) && r origin target

abbrev pub AreRights : Rights → Subjects → Type 0
AreRights r d = (j u : String) → rights d j u ≡ r j u

-- A change of the table that does not throw leaves these rights.
abbrev pub Leaves : {A : Type 0} → Rights → Result Error A × Subjects → Type 0
Leaves r (ok a, d) = AreRights r d
Leaves r (err e, d) = Unit

abbrev pub is_named : String → List String → Rights
is_named origin targets j u = origin == j && includes targets u

abbrev pub are_named : Assoc String (List String) → Rights
are_named [] j u = false
are_named ((origin, targets) ∷ rest) j u = is_named origin targets j u || are_named rest j u

module _ (config : Config) where
  leaves_after :
      (f : D (Unit {0})) (q r : Rights) (a : Result Error (Unit {0}) × Subjects)
      → IsConsistent config a.1
      → Leaves q a
      → ((d : Subjects) → IsConsistent config d → AreRights q d → Leaves r (f d))
      → Leaves r (and_then a (λ _. f))
  leaves_after f q r (ok u, d) v h k = k d v h
  leaves_after f q r (err e, d) v h k = tt

  rights-without_permission :
      (o t : String) (p : Permission) (x : Subject) (d : Subjects)
      → IsConsistent config d
      → Assoc.get o d ≡ some x
      → Assoc.get t x.permissions ≡ some p
      → AreRights (except (is_named o (t ∷ [])) (rights d)) (without_permission o t x d)
  rights-without_permission o t p x d v e f j u =
      let h = IsSubject-there config o d v x e in
      ap is_some (get_permission-without_permission o t j u p x d e f h.distinct) ∙ ground (arith)

  pub leaves_same :
      {A : Type 0} (q r : Rights) (a : Result Error A × Subjects)
      → ((j u : String) → q j u ≡ r j u)
      → Leaves q a
      → Leaves r a
  leaves_same q r (ok x, d) k h = λ j u. h j u ∙ k j u
  leaves_same q r (err e, d) k h = tt

  delete_permission-Leaves :
      (o t : String) (p : Permission) (x : Subject) (d : Subjects)
      → IsConsistent config d
      → Assoc.get o d ≡ some x
      → Assoc.get t x.permissions ≡ some p
      → Leaves (except (is_named o (t ∷ [])) (rights d)) (delete_permission o t d)
  unfolding delete_permission
  delete_permission-Leaves o t p x d v e f =
      rw (e, delete_permission) (rights-without_permission o t p x d v e f)

  revoke_target-Leaves :
      (o t : String) (d : Subjects)
      → IsConsistent config d
      → Leaves (except (is_named o (t ∷ [])) (rights d)) (revoke_target o t d)
  unfolding revoke_target
  revoke_target-Leaves o t d v = elim (Option-cases (Assoc.get o d)) [
    | inl n ↦ rw (n, revoke_target) tt
    | inr (x, e) ↦ elim (Option-cases (Assoc.get t x.permissions)) [
      | inl n ↦ rw (e, n, revoke_target) tt
      | inr (p, f) ↦ rw (e, f, revoke_target) (delete_permission-Leaves o t p x d v e f)
    ]
  ]

  revoke_each-Leaves :
      (o : String) (ts : List String) (d : Subjects)
      → IsConsistent config d
      → Leaves (except (is_named o ts) (rights d)) (for_each (revoke_target o) ts d)
  revoke_each-Leaves o [] d v = λ j u. ground (arith)
  revoke_each-Leaves o (t ∷ ts) d v =
      let q = except (is_named o (t ∷ [])) (rights d) in
      let r = except (is_named o (t ∷ ts)) (rights d) in
      leaves_after (for_each (revoke_target o) ts) q r (revoke_target o t d)
        (revoke_target-IsConsistent config o t d v) (revoke_target-Leaves o t d v)
        (λ c w h.
          leaves_same (except (is_named o ts) (rights c)) r (for_each (revoke_target o) ts c)
            (λ j u. ground (arith, h j u)) (revoke_each-Leaves o ts c w))

  revoke_targets-Leaves :
      (e : String × List String) (d : Subjects)
      → IsConsistent config d
      → Leaves (except (is_named e.0 e.1) (rights d)) (revoke_targets e d)
  revoke_targets-Leaves (o, ts) d v = elim (Bool-cases (Assoc.has o d)) [
    | inl y ↦ rw (y, revoke_targets) (revoke_each-Leaves o ts d v)
    | inr n ↦ rw (n, revoke_targets) tt
  ]

  pub revoke_all-Leaves :
      (m : Assoc String (List String)) (d : Subjects)
      → IsConsistent config d
      → Leaves (except (are_named m) (rights d)) (for_each revoke_targets m d)
  revoke_all-Leaves [] d v = λ j u. ground (arith)
  revoke_all-Leaves ((o, ts) ∷ m) d v =
      let q = except (is_named o ts) (rights d) in
      let r = except (are_named ((o, ts) ∷ m)) (rights d) in
      leaves_after (for_each revoke_targets m) q r (revoke_targets (o, ts) d)
        (revoke_targets-IsConsistent config (o, ts) d v) (revoke_targets-Leaves (o, ts) d v)
        (λ c w h.
          leaves_same (except (are_named m) (rights c)) r (for_each revoke_targets m c)
            (λ j u. ground (arith, h j u)) (revoke_all-Leaves m c w))

  -- The loop over the entries that were there: each that is still to come is as it was.
  abbrev pub AreThere : Assoc String Subject → Subjects → Type 0
  AreThere m d = (o : String) (x : Subject) → Assoc.get o m ≡ some x → Assoc.get o d ≡ some x

  abbrev pub is_target : String → Assoc String Subject → Rights
  is_target t m j u = Assoc.has j m && t == u

  there_after :
      (o t : String) (x : Subject) (m d : Subjects)
      → Assoc.get o m ≡ none
      → AreThere ((o, x) ∷ m) d
      → AreThere m (without_permission o t x d)
  unfolding Assoc.get
  there_after o t x m d n h k y g =
      let other : (o == k) ≡ false = ground (arith, n, g, eq_iff o k) in
      let before = h k y (ground (arith, g, other)) in
      let w = record x { permissions = Assoc.delete t x.permissions } in
      ground (arith, before, other, get-set o k w d, get-delete o k d)

  there_next :
      (o : String) (x : Subject) (m d : Subjects)
      → Assoc.get o m ≡ none
      → AreThere ((o, x) ∷ m) d
      → AreThere m d
  unfolding Assoc.get
  there_next o x m d n h k y g = h k y (ground (arith, n, g, eq_iff o k))

  written :
      (o t : String) (x : Subject) (d : Subjects)
      → Assoc.get o d ≡ some x
      → delete_permission o t d ≡ (ok tt, without_permission o t x d)
  unfolding delete_permission
  written o t x d e = rw (e, delete_permission) refl

  pub revoke_from-Leaves :
      (t : String) (m d : Subjects)
      → Distinct m
      → AreThere m d
      → IsConsistent config d
      → Leaves (except (is_target t m) (rights d)) (for_each (revoke_from t) m d)
  unfolding Assoc.get
  revoke_from-Leaves t [] d distinct there v = λ j u. ground (arith)
  revoke_from-Leaves t ((o, x) ∷ m) d distinct there v =
      let e : Assoc.get o d ≡ some x = there o x (ground (arith, eq_iff o o)) in
      let r = except (is_target t ((o, x) ∷ m)) (rights d) in
      elim (Option-cases (Assoc.get t x.permissions)) [
        | inl n ↦ rw (n) (
            leaves_same (except (is_target t m) (rights d)) r (for_each (revoke_from t) m d)
              (λ j u. ground (arith, e, n, eq_iff o j, eq_iff t u))
              (revoke_from-Leaves t m d distinct.1 (there_next o x m d distinct.0 there) v))
        | inr (p, f) ↦
            let c = without_permission o t x d in
            let h = rights-without_permission o t p x d v e f in
            let w : IsConsistent config c = without_permission-IsConsistent config o d v x e t in
            rw (f, written o t x d e)
              (leaves_same (except (is_target t m) (rights c)) r (for_each (revoke_from t) m c)
                (λ j u. ground (arith, e, f, h j u, eq_iff o j, eq_iff t u))
                (revoke_from-Leaves t m c distinct.1 (there_after o t x m d distinct.0 there) w))
      ]

  -- An update of the table.
  pub updated :
      (m : D (Unit {0})) (r : Rights) (s : State)
      → Leaves r (m s.subjects)
      → Leaves r ((update_subjects m s).0, (update_subjects m s).1.subjects)
  updated m r s h = after (m s.subjects) h
    where
      after :
          (a : Result Error (Unit {0}) × Subjects)
          → Leaves r a
          → Leaves r ((stored a s).0, (stored a s).1.subjects)
      after (ok u, d) h = h
      after (err e, d) h = tt
