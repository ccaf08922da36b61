-- ===== src/Permission/Filling.antt =====
-- A grant of PermissionController.ts of one permission or more leaves a permission.
use fork_metamask_core.Common.{
  ℕ, ◌≡◌, ◌≤◌, refl, sym, subst, String, Option, List, [], ◌∷◌, length, string_eq, inl, inr,
  Bool-cases, Option-cases,
}
use fork_metamask_core.Common.Assoc.{Assoc, Distinct, set-Distinct, All-set}
use fork_metamask_core.Common.Assoc
use fork_metamask_core.Common.Monad.{Result, ok, err, for_each, and_then, lift, modify, ◌>>=◌}
use fork_metamask_core.Common.Js.{Value}
use fork_metamask_core.Permission.State.{
  Caveat, Permission, RawPermission, PermissionSpecification, Error, Config,
}
use fork_metamask_core.Permission.Grants.{
  is_nothing, approved_parent, approved_caveats, construct_caveats, new_permission, is_other_parent,
  grant_one,
}
use fork_metamask_core.Permission.Keeps.{set_not_empty}

module _ (config : Config) (ids : String → String) (now : ℕ) where
  -- A step of the loop that does not throw leaves an entry.
  abbrev pub FillsIfOk : Result Error (Unit {0}) × Assoc String Permission → Type 0
  FillsIfOk (ok u, m) = 1 ≤ length m
  FillsIfOk (err e, m) = Unit

  -- A step of the loop that does not throw writes one permission.
  abbrev pub SetsOne :
      String → Assoc String Permission → Result Error (Unit {0}) × Assoc String Permission → Type 0
  SetsOne target m (ok u, t) = (q : Permission) × (t ≡ Assoc.set target q m)
  SetsOne target m (err e, t) = Unit

  pub grant_one-SetsOne :
      (origin : String) (data' : Value) (e : String × RawPermission) (m : Assoc String Permission)
      → SetsOne e.0 m (grant_one config ids now origin data' e m)
  unfolding grant_one
  grant_one-SetsOne origin data' (target, raw) m =
      elim (Option-cases (Assoc.get target config.permission_specifications)) [
        | inl n ↦ rw (n, grant_one) tt
        | inr (spec, g) ↦ elim (Bool-cases (is_nothing raw)) [
          | inl y ↦ rw (g, y, grant_one) tt
          | inr n ↦ elim (Bool-cases (is_other_parent config target (approved_parent raw))) [
            | inl y ↦ rw (g, n, y, grant_one) tt
            | inr k ↦
                rw (g, n, k, grant_one)
                  (constructed spec (construct_caveats config origin target (approved_caveats raw)))
          ]
        ]
      ]
    where
      one :
          (r : Result Error Permission)
          → SetsOne target m (and_then (lift r m) (λ p. modify (Assoc.set target p)))
      one (err z) = tt
      one (ok q) = (q, refl)

      constructed :
          (spec : PermissionSpecification) (r : Result Error (Option (List Caveat)))
          → SetsOne target m (
              and_then (lift r m) (λ caveats.
                lift (
                  new_permission config
                    (ids target)
                    now
                    data'
                    origin
                    spec
                    (record { target = target; invoker = origin; caveats = caveats }))
                >>= λ p. modify (Assoc.set target p)))
      constructed spec (err z) = tt
      constructed spec (ok caveats) = one (
          new_permission config (ids target) now data' origin spec
            (record { target = target; invoker = origin; caveats = caveats }))

  grant_one-fills :
      (origin : String) (data' : Value) (e : String × RawPermission) (m : Assoc String Permission)
      → FillsIfOk (grant_one config ids now origin data' e m)
  grant_one-fills origin data' e m =
      after (grant_one config ids now origin data' e m) (grant_one-SetsOne origin data' e m)
    where
      after :
          (r : Result Error (Unit {0}) × Assoc String Permission) → SetsOne e.0 m r → FillsIfOk r
      after (ok u, t) (q, h) = subst (λ w. 1 ≤ length w) (sym h) (set_not_empty config e.0 q m)
      after (err z, t) h = tt

  loop_fills :
      (origin : String) (data' : Value) (xs : List (String × RawPermission))
      (m : Assoc String Permission)
      → 1 ≤ length m
      → FillsIfOk (for_each (grant_one config ids now origin data') xs m)
  loop_fills origin data' [] m h = h
  loop_fills origin data' (x ∷ xs) m h =
      after (grant_one config ids now origin data' x m) (grant_one-fills origin data' x m)
        (loop_fills origin data' xs)
    where
      after :
          (r : Result Error (Unit {0}) × Assoc String Permission)
          → FillsIfOk r
          → ((t : Assoc String Permission)
              → 1 ≤ length t
              → FillsIfOk (for_each (grant_one config ids now origin data') xs t))
          → FillsIfOk (and_then r (λ _. for_each (grant_one config ids now origin data') xs))
      after (ok u, t) f k = k t f
      after (err e, t) f k = tt

  pub loop_fills_first :
      (origin : String) (data' : Value) (x : String × RawPermission)
      (xs : List (String × RawPermission))
      → (m : Assoc String Permission)
      → FillsIfOk (for_each (grant_one config ids now origin data') (x ∷ xs) m)
  loop_fills_first origin data' x xs m =
      after (grant_one config ids now origin data' x m) (grant_one-fills origin data' x m)
    where
      after :
          (r : Result Error (Unit {0}) × Assoc String Permission)
          → FillsIfOk r
          → FillsIfOk (and_then r (λ _. for_each (grant_one config ids now origin data') xs))
      after (ok u, t) f = loop_fills origin data' xs t f
      after (err e, t) f = tt
