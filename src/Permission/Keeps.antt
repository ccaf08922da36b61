-- ===== src/Permission/Keeps.antt =====
-- The writes of PermissionController.ts keep the table of subjects valid.
use fork_metamask_core.Common.{
  ◌≡◌, ◌≤◌, ap, String, some, List, [], ◌∷◌, length, ltb, string_eq, arith, All, inl, inr,
  Bool-cases, Option-cases,
}
use fork_metamask_core.Common.Assoc.{
  Assoc, Distinct, set-Distinct, delete-Distinct, All-set, All-get, All-delete, length-delete,
  length-set_present, delete_absent,
}
use fork_metamask_core.Common.Assoc
use fork_metamask_core.Common.Monad.{Result, ok, err, Action, and_then, for_each}
use fork_metamask_core.Permission.State.{Permission, Subject, Subjects, State, Error, Config}
use fork_metamask_core.Permission.Subjects.{
  D, stored, update_subjects, delete_permission, without_permission, revoke_target, revoke_targets,
  revoke_permissions, revoke_all_permissions, revoke_from, revoke_permission_for_all_subjects,
  clear_state,
}
use fork_metamask_core.Permission.Caveats.{with_permission}
use fork_metamask_core.Permission.Sound.{IsSound, IsSubject, IsConsistent}

-- A recipe keeps a predicate of the draft.
abbrev pub Keeps : {S : Type 0} → (S → Type 0) → {A : Type 0} → Action S Error A → Type 0
Keeps {S} P m = (d : S) → P d → P (m d).1

module _ {S : Type 0} (P : S → Type 0) {A B : Type 0} where
  pub keeps_after :
      (f : A → Action S Error B) (r : Result Error A × S)
      → P r.1
      → ((a : A) → Keeps P (f a))
      → P (and_then r f).1
  keeps_after f (ok a, t) q k = k a t q
  keeps_after f (err e, t) q k = q

module _ {S : Type 0} (P : S → Type 0) {A : Type 0} where
  pub Keeps-each :
      (Q : A → Type 0) (f : A → Action S Error (Unit {0}))
      → ((x : A) → Q x → Keeps P (f x))
      → (xs : List A) → All Q xs
      → Keeps P (for_each f xs)
  Keeps-each Q f k [] q d p = p
  Keeps-each Q f k (x ∷ xs) q d p =
      keeps_after P (λ (_ : Unit {0}). for_each f xs) (f x d) (k x q.0 d p)
        (λ _. Keeps-each Q f k xs q.1)

-- A transaction keeps what its recipe keeps.
pub keeps_update :
    (P : Subjects → Type 0) (m : D (Unit {0})) (s : State)
    → Keeps P m
    → P s.subjects
    → P (update_subjects m s).1.subjects
keeps_update P m s k p = after (m s.subjects) (k s.subjects p)
  where
    after : (r : Result Error (Unit {0}) × Subjects) → P r.1 → P (stored r s).1.subjects
    after (ok u, t) h = h
    after (err e, t) h = p

module _ (config : Config) where
  pub set_subject-IsConsistent :
      (k : String) (x : Subject) (d : Subjects)
      → IsConsistent config d
      → IsSubject config (k, x)
      → IsConsistent config (Assoc.set k x d)
  set_subject-IsConsistent k x d v h = record {
    distinct = set-Distinct k x d v.distinct;
    subjects = All-set (IsSubject config) k x d v.subjects h;
  }

  pub delete_subject-IsConsistent :
      (k : String) (d : Subjects) → IsConsistent config d → IsConsistent config (Assoc.delete k d)
  delete_subject-IsConsistent k d v = record {
    distinct = delete-Distinct k d v.distinct;
    subjects = All-delete (IsSubject config) k d v.subjects;
  }

  rest_not_empty :
      (target : String) (m : Assoc String Permission)
      → Distinct m
      → 2 ≤ length m
      → 1 ≤ length (Assoc.delete target m)
  rest_not_empty target m d h = elim (Option-cases (Assoc.get target m)) [
    | inl n ↦ omega (arith, ap length (delete_absent target m n))
    | inr (p, e) ↦ omega (arith, length-delete target p m d e)
  ]

  module _ (k : String) (d : Subjects) (v : IsConsistent config d) (x : Subject)
      (e : Assoc.get k d ≡ some x) where
    pub IsSubject-there : IsSubject config (k, x)
    IsSubject-there = All-get (IsSubject config) k x d v.subjects e

    pub without_permission-IsConsistent :
        (target : String) → IsConsistent config (without_permission k target x d)
    without_permission-IsConsistent target = elim (Bool-cases (ltb 1 (length x.permissions))) [
      | inl more ↦ rw (more) (
          set_subject-IsConsistent k (record x { permissions = Assoc.delete target x.permissions })
            d v
            (record {
              named = IsSubject-there.named;
              some_permission =
                  rest_not_empty target x.permissions IsSubject-there.distinct
                    (ground (arith, more));
              distinct = delete-Distinct target x.permissions IsSubject-there.distinct;
              sound = All-delete (IsSound config) target x.permissions IsSubject-there.sound;
            }))
      | inr last ↦ rw (last) (delete_subject-IsConsistent k d v)
    ]

    -- A write of a sound permission.
    set_permission-IsConsistent :
        (target : String) (p : Permission)
        → IsSound config (target, p)
        → 1 ≤ length (Assoc.set target p x.permissions)
        → IsConsistent config
            (Assoc.set k (record x { permissions = Assoc.set target p x.permissions }) d)
    set_permission-IsConsistent target p h l =
        set_subject-IsConsistent k (record x { permissions = Assoc.set target p x.permissions }) d v
          (record {
            named = IsSubject-there.named;
            some_permission = l;
            distinct = set-Distinct target p x.permissions IsSubject-there.distinct;
            sound = All-set (IsSound config) target p x.permissions IsSubject-there.sound h;
          })

  pub delete_permission-IsConsistent :
      (origin target : String) → Keeps (IsConsistent config) (delete_permission origin target)
  unfolding delete_permission
  delete_permission-IsConsistent origin target d v = elim (Option-cases (Assoc.get origin d)) [
    | inl n ↦ rw (n) v
    | inr (x, e) ↦ rw (e) (without_permission-IsConsistent origin d v x e target)
  ]

  pub set_not_empty :
      (k : String) (p : Permission) (m : Assoc String Permission) → 1 ≤ length (Assoc.set k p m)
  unfolding Assoc.set
  set_not_empty k p [] = omega arith
  set_not_empty k p ((j, q) ∷ m) = ground arith

  pub with_permission-IsConsistent :
      (origin target : String) (p : Permission) (d : Subjects)
      → IsConsistent config d
      → IsSound config (target, p)
      → IsConsistent config (with_permission origin target p d)
  with_permission-IsConsistent origin target p d v h = elim (Option-cases (Assoc.get origin d)) [
    | inl n ↦ rw (n, with_permission) v
    | inr (x, e) ↦
        rw (e, with_permission)
          (set_permission-IsConsistent origin d v x e target p h
            (set_not_empty target p x.permissions))
  ]

  pub revoke_target-IsConsistent :
      (origin target : String) → Keeps (IsConsistent config) (revoke_target origin target)
  unfolding revoke_target
  revoke_target-IsConsistent origin target d v = elim (Option-cases (Assoc.get origin d)) [
    | inl n ↦ rw (n) v
    | inr (x, e) ↦ elim (Bool-cases (Assoc.has target x.permissions)) [
      | inl y ↦ rw (e, y) (delete_permission-IsConsistent origin target d v)
      | inr n ↦ rw (e, n) v
    ]
  ]

  All-trivial : {A : Type 0} (xs : List A) → All (λ _. Unit {0}) xs
  All-trivial [] = tt
  All-trivial (x ∷ xs) = (tt, All-trivial xs)

  pub revoke_targets-IsConsistent :
      (e : String × List String) → Keeps (IsConsistent config) (revoke_targets e)
  revoke_targets-IsConsistent (origin, targets) d v = elim (Bool-cases (Assoc.has origin d)) [
    | inl y ↦ rw (y) (
        Keeps-each (IsConsistent config) (λ _. Unit {0}) (revoke_target origin)
          (λ t _. revoke_target-IsConsistent origin t) targets (All-trivial targets) d v)
    | inr n ↦ rw (n) v
  ]

  pub revoke_permissions-IsConsistent :
      (revoked : Assoc String (List String)) (s : State)
      → IsConsistent config s.subjects
      → IsConsistent config (revoke_permissions revoked s).1.subjects
  unfolding revoke_permissions
  revoke_permissions-IsConsistent revoked s v =
      keeps_update (IsConsistent config) (for_each revoke_targets revoked) s
        (Keeps-each (IsConsistent config) (λ _. Unit {0}) revoke_targets
          (λ e _. revoke_targets-IsConsistent e) revoked (All-trivial revoked))
        v

  pub revoke_from-IsConsistent :
      (target : String) (e : String × Subject) → Keeps (IsConsistent config) (revoke_from target e)
  revoke_from-IsConsistent target (origin, x) d v =
      elim (Bool-cases (Assoc.has target x.permissions)) [
        | inl y ↦ rw (y) (delete_permission-IsConsistent origin target d v)
        | inr n ↦ rw (n) v
      ]

  pub revoke_permission_for_all_subjects-IsConsistent :
      (target : String) (s : State)
      → IsConsistent config s.subjects
      → IsConsistent config (revoke_permission_for_all_subjects target s).1.subjects
  unfolding revoke_permission_for_all_subjects
  revoke_permission_for_all_subjects-IsConsistent target s v =
      keeps_update (IsConsistent config) (for_each (revoke_from target) s.subjects) s
        (Keeps-each (IsConsistent config) (λ _. Unit {0}) (revoke_from target)
          (λ e _. revoke_from-IsConsistent target e) s.subjects (All-trivial s.subjects))
        v

  pub revoke_all_permissions-IsConsistent :
      (origin : String) (s : State)
      → IsConsistent config s.subjects
      → IsConsistent config (revoke_all_permissions origin s).1.subjects
  unfolding revoke_all_permissions
  revoke_all_permissions-IsConsistent origin s v = elim (Bool-cases (Assoc.has origin s.subjects)) [
    | inl y ↦ rw (y, revoke_all_permissions) (delete_subject-IsConsistent origin s.subjects v)
    | inr n ↦ rw (n, revoke_all_permissions) v
  ]

  pub clear_state-IsConsistent : (s : State) → IsConsistent config (clear_state s).1.subjects
  unfolding clear_state
  clear_state-IsConsistent s = record { distinct = tt; subjects = tt }
