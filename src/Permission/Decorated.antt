-- ===== src/Permission/Decorated.antt =====
-- The caveats of a permission of PermissionController.ts decorate the method that is executed.
use text.Mathlib.TextEquality.{eq_iff}
use fork_metamask_core.Common.{
  ◌≡◌, refl, sym, ap, subst, ◌∙◌, String, true, not, Option, none, some, List, [], ◌∷◌, arith, inl,
  inr, Bool-cases, Option-cases, string_eq, ◌==◌, get_or,
}
use fork_metamask_core.Common.Assoc.{Assoc, All-get}
use fork_metamask_core.Common.Assoc
use fork_metamask_core.Common.Monad.{ok}
use fork_metamask_core.Common.Js.{Value}
use fork_metamask_core.Common.JsEq.{value_eq}
use fork_metamask_core.Permission.State.{
  Caveat, Permission, Subjects, caveat_specification_mismatch, invalid_specification,
  CaveatSpecification, RestrictedMethod, Kind, restricted_method, endowment, invalid_type,
  PermissionSpecification, Config,
}
use fork_metamask_core.Permission.Validation.{
  ◌or_else◌, throw_if, includes, is_mismatch, check_allowed, check_specification,
  validate_permission_specifications, is_invalid,
}
use fork_metamask_core.Permission.Subjects.{get_permission}
use fork_metamask_core.Permission.Methods.{
  params_or_empty, get_restricted_method, decorate_each, decorate_with_caveats, execute,
}
use fork_metamask_core.Permission.Sound.{
  types, AreAllowed, AreCaveats, IsConsistent, is_allowed_type, or_else-none, throw_if-none,
}
use fork_metamask_core.Permission.Changes.{permission_found}

-- Specifications that were checked: each caveat that a restricted method allows has a decorator.
check_allowed-decorator :
    (specs : Assoc String CaveatSpecification) (f : RestrictedMethod) (ts : List String)
    (t : String)
    → check_allowed specs (restricted_method f) ts ≡ none
    → includes ts t ≡ true
    → (spec : CaveatSpecification) × (decorate : RestrictedMethod → Caveat → RestrictedMethod)
      × (Assoc.get t specs ≡ some spec)
      × (spec.decorator ≡ some decorate)
check_allowed-decorator specs f [] t h i = absurd (ground (arith, i))
check_allowed-decorator specs f (u ∷ us) t h i = elim (Option-cases (Assoc.get u specs)) [
  | inl n ↦ absurd (ground (arith, h, n))
  | inr (spec, e) ↦
      let a =
        or_else-none (throw_if (is_mismatch (restricted_method f) spec) _)
          (check_allowed specs (restricted_method f) us) (found u us spec e h) in
      elim (Bool-cases (u == t)) [
        | inr n ↦ check_allowed-decorator specs f us t a.1 (ground (arith, i, n))
        | inl y ↦ elim (Option-cases spec.decorator) [
          | inl n ↦ absurd (ground (arith, throw_if-none _ _ a.0, n))
          | inr (decorate, g) ↦
              (spec, decorate, ap (λ w. Assoc.get w specs) (sym ((eq_iff u t).0 y)) ∙ e, g)
        ]
      ]
]
  where
    found :
        (u : String) (us : List String) (spec : CaveatSpecification)
        → Assoc.get u specs ≡ some spec
        → check_allowed specs (restricted_method f) (u ∷ us) ≡ none
        → throw_if (is_mismatch (restricted_method f) spec) (caveat_specification_mismatch u)
            or_else check_allowed specs (restricted_method f) us
          ≡ none
    found u us spec e h = ground (arith, h, e)

specification-checked :
    (cspecs : Assoc String CaveatSpecification) (pspecs : Assoc String PermissionSpecification)
    → (target : String) (spec : PermissionSpecification)
    → validate_permission_specifications cspecs pspecs ≡ none
    → Assoc.get target pspecs ≡ some spec
    → check_specification cspecs target spec ≡ none
unfolding validate_permission_specifications Assoc.get
specification-checked cspecs [] target spec h g = absurd (ground (arith, g))
specification-checked cspecs ((name, s) ∷ rest) target spec h g =
    let a =
      or_else-none (check_specification cspecs name s)
        (validate_permission_specifications cspecs rest) h in
    elim (Bool-cases (name == target)) [
      | inl y ↦
          let same_name : name ≡ target = (eq_iff name target).0 y in
          let same_spec : s ≡ spec = ground (arith, g, y) in
          subst (λ n. check_specification cspecs n spec ≡ none) same_name
            (subst (λ u. check_specification cspecs name u ≡ none) same_spec a.0)
      | inr n ↦ specification-checked cspecs rest target spec a.1 (ground (arith, g, n))
    ]

allowed-checked :
    (cspecs : Assoc String CaveatSpecification) (name : String) (spec : PermissionSpecification)
    → check_specification cspecs name spec ≡ none
    → check_allowed cspecs spec.kind (get_or spec.allowed_caveats []) ≡ none
allowed-checked cspecs name spec h =
    let a = or_else-none (throw_if (is_invalid spec.kind) (invalid_specification name)) _ h in
    let b = or_else-none (throw_if (name == "") (invalid_specification name)) _ a.1 in
    (or_else-none (throw_if (not (name == spec.target_name)) (invalid_specification name)) _ b.1).1

allowed-included :
    (allowed : Option (List String)) (t : String)
    → is_allowed_type allowed t ≡ true
    → includes (get_or allowed []) t ≡ true
allowed-included none t h = absurd (ground (arith, h))
allowed-included (some ts) t h = h

module _ (config : Config) (f0 : RestrictedMethod) (allowed : Option (List String)) where
  decorate_each-total :
      check_allowed config.caveat_specifications (restricted_method f0) (get_or allowed []) ≡ none
      → (cs : List Caveat) (f : RestrictedMethod) → AreAllowed allowed (types cs)
      → (g : RestrictedMethod) × (decorate_each config cs f ≡ ok g)
  unfolding decorate_each
  decorate_each-total h [] f a = (f, refl)
  decorate_each-total h (c ∷ cs) f a =
      let (spec, decorate, e, k) =
        check_allowed-decorator config.caveat_specifications f0 (get_or allowed []) c.type h
          (allowed-included allowed c.type a.0) in
      let (g, r) = decorate_each-total h cs (decorate f c) a.2 in (g, ground (arith, e, k, r))

  decorate-total :
      check_allowed config.caveat_specifications (restricted_method f0) (get_or allowed []) ≡ none
      → (cs : Option (List Caveat)) (spec : PermissionSpecification)
      → spec.allowed_caveats ≡ allowed
      → AreCaveats spec cs
      → (p : Permission) → p.caveats ≡ cs
      → (g : RestrictedMethod) × (decorate_with_caveats config f0 p ≡ ok g)
  decorate-total h none spec s a p e = (f0, ground (arith, e))
  decorate-total h (some cs) spec s a p e =
      let (g, r) = decorate_each-total h cs f0 (subst (λ w. AreAllowed w (types cs)) s a.1) in
      (g, ground (arith, e, r))

restricted-kind :
    (method : String) (config : Config) (spec : PermissionSpecification) (f : RestrictedMethod)
    → Assoc.get method config.permission_specifications ≡ some spec
    → get_restricted_method config method ≡ ok f
    → spec.kind ≡ restricted_method f
unfolding get_restricted_method
restricted-kind method config spec f e h = kind spec.kind refl
  where
    kind : (k : Kind) → spec.kind ≡ k → spec.kind ≡ restricted_method f
    kind (restricted_method g) s = ground (arith, e, h, s)
    kind (endowment g) s = absurd (ground (arith, e, h, s))
    kind invalid_type s = absurd (ground (arith, e, h, s))

-- With specifications that the constructor has checked and a consistent table, a permission for a
-- restricted method always lets its origin in: the caveats of the permission decorate the
-- implementation without an error, and what is executed is the decorated implementation.
pub execute-decorated :
    (config : Config) (origin method : String) (params : Value) (d : Subjects)
    → (p : Permission) (f : RestrictedMethod)
    → validate_permission_specifications config.caveat_specifications
        config.permission_specifications
      ≡ none
    → IsConsistent config d
    → get_permission origin method d ≡ some p
    → get_restricted_method config method ≡ ok f
    → (g : RestrictedMethod) × (decorate_with_caveats config f p ≡ ok g)
      × (execute config f origin method params d
          ≡ g (record { method = method; params = params_or_empty config params; origin = origin }))
unfolding execute
execute-decorated config origin method params d p f h v e k =
    let (parent, (spec, s, a)) = permission_found config origin method p d v e in
    let kind = restricted-kind method config spec f s k in
    let checked = allowed-checked config.caveat_specifications method spec (
      specification-checked config.caveat_specifications config.permission_specifications method
        spec h s) in
    let (g, r) =
      decorate-total config f spec.allowed_caveats
        (subst
          (λ w.
            check_allowed config.caveat_specifications w (get_or spec.allowed_caveats []) ≡ none)
          kind checked)
        p.caveats spec refl a p refl in
    (g, r, ground (arith, e, r))
