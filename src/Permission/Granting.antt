-- ===== src/Permission/Granting.antt =====
-- `grantPermissions` and `requestPermissions` of PermissionController.ts keep the table valid.
use fork_metamask_core.Common.{
  ℕ, ◌≡◌, refl, subst, ◌∙◌, String, Bool, true, false, not, Option, none, some, List, [], ◌∷◌,
  string_eq, arith, All, inl, inr, Bool-cases, Option-cases, ◌||◌,
}
use fork_metamask_core.Common.Assoc.{Assoc, Distinct, set-Distinct, All-set}
use fork_metamask_core.Common.Assoc
use fork_metamask_core.Common.Monad.{Result, ok, err, for_each, and_then, lift, modify, ◌>>=◌}
use fork_metamask_core.Common.Js.{Value, is_string, truthy, string_of}
use fork_metamask_core.Permission.State.{
  Caveat, Permission, RawPermission, PermissionOptions, PermissionSpecification, Subjects, State,
  Error, Config,
}
use fork_metamask_core.Permission.Validation.{validate_permission, caveats_property}
use fork_metamask_core.Permission.Subjects.{get_permissions}
use fork_metamask_core.Permission.Grants.{
  is_nothing, approved_parent, approved_caveats, construct_caveats, construct_permission, validated,
  new_permission, is_other_parent, grant_one, kept_permissions, granted, grant_to,
  grant_permissions,
}
use fork_metamask_core.Permission.Sound.{IsSound, IsConsistent, validate_permission_sound}
use fork_metamask_core.Permission.Keeps.{
  Keeps, Keeps-each, IsSubject-there, set_subject-IsConsistent,
}
use fork_metamask_core.Permission.Filling.{FillsIfOk, loop_fills_first}

-- The factories of the client make a permission for the target that they are asked for.
abbrev pub KeepTargets : Config → Type 0
KeepTargets config =
    (target : String) (spec : PermissionSpecification)
    (f : PermissionOptions → Value → Result Error Permission)
    → (o : PermissionOptions) (data' : Value) (p : Permission)
    → Assoc.get target config.permission_specifications ≡ some spec
    → spec.factory ≡ some f
    → f o data' ≡ ok p
    → p.parent_capability ≡ o.target

-- A table of permissions to be.
pub record AreSound (config : Config) (m : Assoc String Permission) : Type 0 where
  pub distinct : Distinct m
  pub sound : All (IsSound config) m

module _ (config : Config) (ids : String → String) (now : ℕ) (keep : KeepTargets config) where
  validated-eq :
      (p q : Permission) (e : Option Error) → validated config p e ≡ ok q → (p ≡ q) × (e ≡ none)
  validated-eq p q none h = (ground (arith, h), refl)
  validated-eq p q (some z) h = absurd (ground (arith, h))

  new_permission-IsSound :
      (id origin target : String) (data' : Value) (spec : PermissionSpecification)
      (o : PermissionOptions) (q : Permission)
      → Assoc.get target config.permission_specifications ≡ some spec
      → o.target ≡ target
      → new_permission config id now data' origin spec o ≡ ok q
      → IsSound config (target, q)
  unfolding new_permission
  new_permission-IsSound id origin target data' spec o q g t h = elim (Option-cases spec.factory) [
    | inl n ↦
        let p = construct_permission config id now o in
        let u =
          validated-eq p q
            (validate_permission config spec (caveats_property config p.caveats) origin (some p)
              false)
            (ground (arith, h, n)) in
        subst (λ x. IsSound config (target, x)) u.0
          (t, (spec, g, validate_permission_sound config spec origin p false u.1))
    | inr (f, n) ↦ made f n (f o data') refl
  ]
    where
      made :
          (f : PermissionOptions → Value → Result Error Permission)
          → spec.factory ≡ some f
          → (r : Result Error Permission) → f o data' ≡ r
          → IsSound config (target, q)
      made f n (err z) e = absurd (ground (arith, h, n, e))
      made f n (ok p) e =
          let u =
            validated-eq p q
              (validate_permission config spec (caveats_property config p.caveats) origin (some p)
                true)
              (ground (arith, h, n, e)) in
          subst (λ x. IsSound config (target, x)) u.0
            (
              keep target spec f o data' p g n e ∙ t,
              (spec, g, validate_permission_sound config spec origin p true u.1),
            )

  grant_one-AreSound :
      (origin : String) (data' : Value) (e : String × RawPermission)
      → Keeps (AreSound config) (grant_one config ids now origin data' e)
  unfolding grant_one
  grant_one-AreSound origin data' (target, raw) m v =
      elim (Option-cases (Assoc.get target config.permission_specifications)) [
        | inl n ↦ rw (n, grant_one) v
        | inr (spec, g) ↦ elim (Bool-cases (is_nothing raw)) [
          | inl y ↦ rw (g, y, grant_one) v
          | inr n ↦ elim (Bool-cases (is_other_parent config target (approved_parent raw))) [
            | inl y ↦ rw (g, n, y, grant_one) v
            | inr k ↦
                rw (g, n, k, grant_one)
                  (constructed spec g
                    (construct_caveats config origin target (approved_caveats raw)))
          ]
        ]
      ]
    where
      stays :
          (r : Result Error Permission)
          → ((q : Permission) → r ≡ ok q → IsSound config (target, q))
          → AreSound config (and_then (lift r m) (λ p. modify (Assoc.set target p))).1
      stays (err z) h = v
      stays (ok q) h = record {
        distinct = set-Distinct target q m v.distinct;
        sound = All-set (IsSound config) target q m v.sound (h q refl);
      }

      constructed :
          (spec : PermissionSpecification)
          → Assoc.get target config.permission_specifications ≡ some spec
          → (r : Result Error (Option (List Caveat)))
          → AreSound config
              (and_then (lift r m) (λ caveats.
                lift (
                  new_permission config
                    (ids target)
                    now
                    data'
                    origin
                    spec
                    (record { target = target; invoker = origin; caveats = caveats }))
                >>= λ p. modify (Assoc.set target p))).1
      constructed spec g (err z) = v
      constructed spec g (ok caveats) =
          let o : PermissionOptions = record {
            target = target;
            invoker = origin;
            caveats = caveats;
          } in
          stays (new_permission config (ids target) now data' origin spec o)
            (λ q h. new_permission-IsSound (ids target) origin target data' spec o q g refl h)

  All-true : {A : Type 0} (xs : List A) → All (λ _. Unit {0}) xs
  All-true [] = tt
  All-true (x ∷ xs) = (tt, All-true xs)

  kept-AreSound :
      (preserve : Bool) (origin : String) (d : Subjects)
      → IsConsistent config d
      → AreSound config (kept_permissions config ids now preserve origin d)
  kept-AreSound false origin d v = record { distinct = tt; sound = tt }
  kept-AreSound true origin d v = elim (Option-cases (Assoc.get origin d)) [
    | inl n ↦ rw (n, kept_permissions, get_permissions) (record { distinct = tt; sound = tt })
    | inr (x, e) ↦
        let h = IsSubject-there config origin d v x e in
        rw (e, kept_permissions, get_permissions)
          (record { distinct = h.distinct; sound = h.sound })
  ]

  grant_to-IsConsistent :
      (origin : String) (data' : Value) (preserve : Bool)
      → (x : String × RawPermission) (xs : List (String × RawPermission)) (s : State)
      → IsConsistent config s.subjects
      → IsConsistent config (grant_to config ids now origin data' preserve (x ∷ xs) s).1.subjects
  grant_to-IsConsistent origin data' preserve x xs s v =
      let m = kept_permissions config ids now preserve origin s.subjects in
      let loop = for_each (grant_one config ids now origin data') (x ∷ xs) in
      after (loop m)
        (Keeps-each (AreSound config) (λ _. Unit {0}) (grant_one config ids now origin data')
          (λ e _. grant_one-AreSound origin data' e) (x ∷ xs) (All-true (x ∷ xs)) m
          (kept-AreSound preserve origin s.subjects v))
        (loop_fills_first config ids now origin data' x xs m)
    where
      after :
          (r : Result Error (Unit {0}) × Assoc String Permission)
          → AreSound config r.1
          → FillsIfOk config ids now r
          → IsConsistent config (granted config ids now origin r s).1.subjects
      after (err e, t) a f = v
      after (ok u, t) a f =
          set_subject-IsConsistent config origin (record { origin = origin; permissions = t })
            s.subjects v
            (record { named = refl; some_permission = f; distinct = a.distinct; sound = a.sound })

  -- A grant of one permission or more.
  pub grant_permissions-IsConsistent :
      (origin data' : Value) (preserve : Bool)
      → (x : String × RawPermission) (xs : List (String × RawPermission)) (s : State)
      → IsConsistent config s.subjects
      → IsConsistent config
          (grant_permissions config ids now origin data' preserve (x ∷ xs) s).1.subjects
  unfolding grant_permissions
  grant_permissions-IsConsistent origin data' preserve x xs s v =
      elim (Bool-cases (not (truthy origin) || not (is_string origin))) [
        | inl y ↦ rw (y, grant_permissions) v
        | inr n ↦
            rw (n, grant_permissions)
              (grant_to-IsConsistent (string_of origin) data' preserve x xs s v)
      ]
