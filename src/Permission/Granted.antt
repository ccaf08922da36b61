-- ===== src/Permission/Granted.antt =====
-- The rights that a grant of PermissionController.ts leaves.
use text.Mathlib.TextEquality.{eq_iff}
use fork_metamask_core.Common.{
  ℕ, ◌≡◌, refl, ap, String, Bool, true, false, ◌&&◌, ◌||◌, List, [], ◌∷◌, if◌then◌else◌, arith, inl,
  inr, Option-cases, string_eq, ◌==◌,
}
use fork_metamask_core.Common.Assoc.{Assoc, keys, get-set}
use fork_metamask_core.Common.Assoc
use fork_metamask_core.Common.Monad.{Result, ok, err, and_then, for_each}
use fork_metamask_core.Common.Js.{Value}
use fork_metamask_core.Permission.State.{Permission, RawPermission, Subjects, State, Error, Config}
use fork_metamask_core.Permission.Validation.{includes}
use fork_metamask_core.Permission.Grants.{grant_one, kept_permissions, granted, grant_to}
use fork_metamask_core.Permission.Filling.{SetsOne, grant_one-SetsOne}
use fork_metamask_core.Permission.Rights.{Rights, rights, Leaves}

-- A loop that does not throw leaves these keys.
abbrev pub HasKeys : (String → Bool) → Result Error (Unit {0}) × Assoc String Permission → Type 0
HasKeys k (ok u, m) = (t : String) → Assoc.has t m ≡ k t
HasKeys k (err e, m) = Unit

-- The rights with those that a grant of the targets to an origin gives, with or without the ones that
-- the origin had.
abbrev pub with_granted : String → Bool → List String → Rights → Rights
with_granted origin preserve targets r j u =
    if origin == j then includes targets u || (preserve && r j u) else r j u

module _ (config : Config) (ids : String → String) (now : ℕ) where
  loop-HasKeys :
      (origin : String) (data' : Value) (xs : List (String × RawPermission))
      (m : Assoc String Permission)
      → HasKeys
          (λ t. includes (keys xs) t || Assoc.has t m)
          (for_each (grant_one config ids now origin data') xs m)
  loop-HasKeys origin data' [] m = λ t. ground (arith)
  loop-HasKeys origin data' ((target, raw) ∷ xs) m =
      after (grant_one config ids now origin data' (target, raw) m)
        (grant_one-SetsOne config ids now origin data' (target, raw) m)
        (loop-HasKeys origin data' xs)
    where
      same :
          (q : Permission) (u : Assoc String Permission)
          (r : Result Error (Unit {0}) × Assoc String Permission)
          → u ≡ Assoc.set target q m
          → HasKeys (λ t. includes (keys xs) t || Assoc.has t u) r
          → HasKeys (λ t. includes (keys ((target, raw) ∷ xs)) t || Assoc.has t m) r
      same q u (ok w, z) h k = λ t. ground (arith, k t, ap (Assoc.has t) h, get-set target t q m)
      same q u (err e, z) h k = tt

      after :
          (r : Result Error (Unit {0}) × Assoc String Permission)
          → SetsOne config ids now target m r
          → ((u : Assoc String Permission)
              → HasKeys
                  (λ t. includes (keys xs) t || Assoc.has t u)
                  (for_each (grant_one config ids now origin data') xs u))
          → HasKeys
              (λ t. includes (keys ((target, raw) ∷ xs)) t || Assoc.has t m)
              (and_then r (λ _. for_each (grant_one config ids now origin data') xs))
      after (ok w, u) (q, h) k =
          same q u (for_each (grant_one config ids now origin data') xs u) h (k u)
      after (err e, u) h k = tt

  has-kept_permissions :
      (preserve : Bool) (origin t : String) (d : Subjects)
      → Assoc.has t (kept_permissions config ids now preserve origin d)
        ≡ (preserve && rights d origin t)
  unfolding Assoc.get
  has-kept_permissions false origin t d = refl
  has-kept_permissions true origin t d = elim (Option-cases (Assoc.get origin d)) [
    | inl n ↦ ground (arith, n)
    | inr (x, e) ↦ ground (arith, e)
  ]

  pub grant_to-Leaves :
      (origin : String) (data' : Value) (preserve : Bool) (xs : Assoc String RawPermission)
      (s : State)
      → let r = grant_to config ids now origin data' preserve xs s in
        Leaves (with_granted origin preserve (keys xs) (rights s.subjects)) (r.0, r.1.subjects)
  grant_to-Leaves origin data' preserve xs s =
      let m = kept_permissions config ids now preserve origin s.subjects in
      after (for_each (grant_one config ids now origin data') xs m) (loop-HasKeys origin data' xs m)
    where
      after :
          (r : Result Error (Unit {0}) × Assoc String Permission)
          → HasKeys
              (λ t.
                includes (keys xs) t
                || Assoc.has t (kept_permissions config ids now preserve origin s.subjects))
              r
          → Leaves (with_granted origin preserve (keys xs) (rights s.subjects)) (
            (granted config ids now origin r s).0,
            (granted config ids now origin r s).1.subjects,
          )
      after (err e, m) h = tt
      after (ok w, m) h = λ j u. ground (
        arith,
        h u,
        has-kept_permissions preserve origin u s.subjects,
        get-set origin j (record { origin = origin; permissions = m }) s.subjects,
        eq_iff origin j,
      )
