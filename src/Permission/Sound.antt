-- ===== src/Permission/Sound.antt =====
-- What the checks of PermissionController.ts mean for a permission that passes them.
use text.Mathlib.TextEquality.{eq_iff}
use fork_metamask_core.Common.{
  ◌≡◌, ◌≤◌, refl, sym, ap, ◌∙◌, String, Bool, true, false, not, Option, none, some, List, [], ◌∷◌,
  if◌then◌else◌, any, length, find, ◌==◌, string_eq, arith, All, inl, inr, Option-cases,
}
use fork_metamask_core.Common.Assoc.{Assoc, Distinct}
use fork_metamask_core.Common.Assoc
use fork_metamask_core.Common.Js.{Value, str}
use fork_metamask_core.Common.JsEq.{value_eq}
use fork_metamask_core.Permission.State.{
  Caveat, raw_caveat, Permission, Subject, Subjects, Error, PermissionSpecification, Config,
}
use fork_metamask_core.Permission.Validation.{
  ◌or_else◌, throw_if, includes, validate_caveat, is_allowed, check_caveats, check_property,
  validate_permission, validate_modified_permission, caveats_property, raw_caveats,
  check_subject_type,
}
use fork_metamask_core.Permission.Caveats.{has_caveat_type, put_caveat}

abbrev pub types : List Caveat → List String
types [] = []
types (c ∷ cs) = c.type ∷ types cs

abbrev pub is_allowed_type : Option (List String) → String → Bool
is_allowed_type none type = false
is_allowed_type (some types) type = includes types type

-- Each type is one that the specification allows, and none comes twice.
abbrev pub AreAllowed : Option (List String) → List String → Type 0
AreAllowed allowed [] = Unit
AreAllowed allowed (t ∷ ts) =
    (is_allowed_type allowed t ≡ true) × (includes ts t ≡ false) × AreAllowed allowed ts

-- The list is not empty where there is one, and its types are allowed.
abbrev pub AreCaveats : PermissionSpecification → Option (List Caveat) → Type 0
AreCaveats spec none = Unit
AreCaveats spec (some cs) = (1 ≤ length cs) × AreAllowed spec.allowed_caveats (types cs)

-- A permission under a target: the target has a specification, which allows its caveats.
abbrev pub IsSound : Config → String × Permission → Type 0
IsSound config (target, p) =
    (p.parent_capability ≡ target)
    × ((spec : PermissionSpecification) × (Assoc.get target config.permission_specifications
          ≡ some spec)
        × AreCaveats spec p.caveats)

-- A subject under an origin: it has permissions, under distinct targets, each of them sound.
pub record IsSubject (config : Config) (e : String × Subject) : Type 0 where
  pub named : e.1.origin ≡ e.0
  pub some_permission : 1 ≤ length e.1.permissions
  pub distinct : Distinct e.1.permissions
  pub sound : All (IsSound config) e.1.permissions

pub record IsConsistent (config : Config) (d : Subjects) : Type 0 where
  pub distinct : Distinct d
  pub subjects : All (IsSubject config) d

pub or_else-none : (a b : Option Error) → a or_else b ≡ none → (a ≡ none) × (b ≡ none)
or_else-none none b h = (refl, h)
or_else-none (some e) b h = absurd (ground (arith, h))

pub throw_if-none : (b : Bool) (e : Error) → throw_if b e ≡ none → b ≡ false
throw_if-none true e h = absurd (ground (arith, h))
throw_if-none false e h = refl

-- The types that the loop has seen.
abbrev strs : List String → List Value
strs [] = []
strs (t ∷ ts) = str t ∷ strs ts

any-strs : (t : String) (ts : List String) → any (λ u. u == str t) (strs ts) ≡ includes ts t
any-strs t [] = refl
any-strs t (u ∷ us) = ground (arith, any-strs t us)

abbrev NoneSeen : List String → List String → Type 0
NoneSeen seen [] = Unit
NoneSeen seen (t ∷ ts) = (includes seen t ≡ false) × NoneSeen seen ts

NoneSeen-includes :
    (t : String) (seen ts : List String) → NoneSeen (t ∷ seen) ts → includes ts t ≡ false
NoneSeen-includes t seen [] h = refl
NoneSeen-includes t seen (u ∷ us) h =
    ground (arith, h, NoneSeen-includes t seen us h.1, eq_iff t u, eq_iff u t)

NoneSeen-weaken : (t : String) (seen ts : List String) → NoneSeen (t ∷ seen) ts → NoneSeen seen ts
NoneSeen-weaken t seen [] h = tt
NoneSeen-weaken t seen (u ∷ us) h = (ground (arith, h.0), NoneSeen-weaken t seen us h.1)

module _ (config : Config) where
  allowed_type :
      (allowed : Option (List String)) (t : String)
      → not (is_allowed config allowed (str t)) ≡ false
      → is_allowed_type allowed t ≡ true
  allowed_type none t h = absurd (ground (arith, h))
  allowed_type (some ts) t h = ground (arith, h)

  check_caveats_sound :
      (perform : Bool) (allowed : Option (List String)) (o t : String) (seen : List String)
      (cs : List Caveat)
      → check_caveats config perform allowed o t (strs seen) (raw_caveats config cs) ≡ none
      → AreAllowed allowed (types cs) × NoneSeen seen (types cs)
  unfolding check_caveats Assoc.get
  check_caveats_sound perform allowed o t seen [] h = (tt, tt)
  check_caveats_sound perform allowed o t seen (c ∷ cs) h =
      let a =
        or_else-none (if perform then validate_caveat config (raw_caveat c) o t else none) _ h in
      let b = or_else-none (throw_if (not (is_allowed config allowed (str c.type))) _) _ a.1 in
      let d = or_else-none (throw_if (any (λ u. u == str c.type) (strs seen)) _) _ b.1 in
      let rest = check_caveats_sound perform allowed o t (c.type ∷ seen) cs d.1 in
      let fine = throw_if-none _ _ b.0 in
      let new = throw_if-none _ _ d.0 in
      (
        (allowed_type allowed c.type fine, NoneSeen-includes c.type seen (types cs) rest.1, rest.0),
        (sym (any-strs c.type seen) ∙ new, NoneSeen-weaken c.type seen (types cs) rest.1),
      )

  property_sound :
      (spec : PermissionSpecification) (o : String) (cs : Option (List Caveat)) (perform : Bool)
      → check_property config perform spec o (caveats_property config cs) ≡ none
      → AreCaveats spec cs
  property_sound spec o none perform h = tt
  property_sound spec o (some []) perform h = absurd (ground (arith, h))
  property_sound spec o (some (c ∷ cs)) perform h = (
    omega arith,
    (check_caveats_sound perform spec.allowed_caveats o spec.target_name [] (c ∷ cs) h).0,
  )

  -- A permission that passes the checks has caveats that its specification allows.
  pub validate_permission_sound :
      (spec : PermissionSpecification) (o : String) (p : Permission) (perform : Bool)
      → validate_permission config spec (caveats_property config p.caveats) o (some p) perform
        ≡ none
      → AreCaveats spec p.caveats
  unfolding validate_permission
  validate_permission_sound spec o p perform h =
      let a = or_else-none (check_subject_type config spec o spec.subject_types) _ h in
      let b =
        or_else-none (check_property config perform spec o (caveats_property config p.caveats)) _
          a.1 in
      property_sound spec o p.caveats perform b.0

  pub validate_modified_permission-IsSound :
      (target o : String) (p : Permission)
      → p.parent_capability ≡ target
      → validate_modified_permission config p o ≡ none
      → IsSound config (target, p)
  unfolding validate_modified_permission
  validate_modified_permission-IsSound target o p e h =
      elim (Option-cases (Assoc.get p.parent_capability config.permission_specifications)) [
        | inl n ↦ absurd (ground (arith, h, n))
        | inr (spec, g) ↦ (
          e,
          (
            spec,
            ap (λ t. Assoc.get t config.permission_specifications) (sym e) ∙ g,
            validate_permission_sound spec o p true (ground (arith, h, g)),
          ),
        )
      ]

-- Writes to the list of caveats that keep its types.
pub types-put_caveat :
    (v : Value) (c : Caveat) (cs : List Caveat)
    → find (has_caveat_type c.type) cs ≡ some c
    → types (put_caveat (record c { value = v }) cs) ≡ types cs
types-put_caveat v c [] h = absurd (ground (arith, h))
types-put_caveat v c (x ∷ xs) h = ground (arith, h, types-put_caveat v c xs, eq_iff x.type c.type)

pub length-put_caveat : (c : Caveat) (cs : List Caveat) → 1 ≤ length (put_caveat c cs)
length-put_caveat c [] = omega arith
length-put_caveat c (x ∷ xs) = ground (arith)
