-- ===== src/Permission/Kept.antt =====
-- The rights that revocations and changes of caveats in PermissionController.ts leave.
use text.Mathlib.TextEquality.{eq_iff}
use fork_metamask_core.Common.{
  ◌≡◌, ap, ◌∙◌, String, some, List, arith, inl, inr, Bool-cases, Option-cases, string_eq, ◌==◌,
  is_some,
}
use fork_metamask_core.Common.Assoc.{Assoc, keys, get-delete}
use fork_metamask_core.Common.Assoc
use fork_metamask_core.Common.Monad.{Result, ok, err, and_then, lift, modify, for_each}
use fork_metamask_core.Common.Js.{Value}
use fork_metamask_core.Permission.State.{
  Caveat, raw_caveat, Permission, Subject, Subjects, State, Error, Config,
}
use fork_metamask_core.Permission.Validation.{validate_caveat, validate_modified_permission}
use fork_metamask_core.Permission.Subjects.{
  get_permission, delete_subject, revoke_all_permissions, revoke_permissions, revoke_from,
  revoke_permission_for_all_subjects, revoke_targets,
}
use fork_metamask_core.Permission.Caveats.{
  find_caveat, put_in, with_permission, has_caveat, get_caveat, set_caveat_draft, set_caveat,
  add_caveat, update_caveat, removed, remove_caveat_draft, remove_caveat,
}
use fork_metamask_core.Permission.Sound.{IsConsistent}
use fork_metamask_core.Permission.Reads.{get_permission-with_permission}
use fork_metamask_core.Permission.Rights.{
  rights, except, AreRights, Leaves, are_named, leaves_same, revoke_all-Leaves, revoke_from-Leaves,
  is_target, updated,
}

module _ (config : Config) where
  rights-with_permission :
      (o t : String) (q p : Permission) (x : Subject) (d : Subjects)
      → Assoc.get o d ≡ some x
      → Assoc.get t x.permissions ≡ some p
      → AreRights (rights d) (with_permission o t q d)
  rights-with_permission o t q p x d e f j u =
      ap is_some (get_permission-with_permission o t j u q x d e)
      ∙ ground (arith, e, f, eq_iff o j, eq_iff t u)

  set_caveat_draft-Leaves :
      (o t : String) (c : Caveat) (d : Subjects)
      → Leaves (rights d) (set_caveat_draft config o t c d)
  unfolding set_caveat_draft
  set_caveat_draft-Leaves o t c d = elim (Option-cases (Assoc.get o d)) [
    | inl n ↦ rw (n, set_caveat_draft) tt
    | inr (x, e) ↦ elim (Option-cases (Assoc.get t x.permissions)) [
      | inl n ↦ rw (e, n, set_caveat_draft) tt
      | inr (p, f) ↦
          let q = record p { caveats = some (put_in c p.caveats) } in
          elim (Option-cases (validate_caveat config (raw_caveat c) o t)) [
            | inr (z, n) ↦ rw (e, f, n, set_caveat_draft) tt
            | inl k ↦ elim (Option-cases (validate_modified_permission config q o)) [
              | inr (z, n) ↦ rw (e, f, k, n, set_caveat_draft) tt
              | inl l ↦ rw (e, f, k, l, set_caveat_draft) (rights-with_permission o t q p x d e f)
            ]
          ]
    ]
  ]

  abbrev pub AreKept : State → Result Error (Unit {0}) × State → Type 0
  AreKept s r = Leaves (rights s.subjects) (r.0, r.1.subjects)

  set_caveat-AreKept :
      (o t type : String) (value : Value) (s : State)
      → AreKept s (set_caveat config o t type value s)
  unfolding set_caveat
  set_caveat-AreKept o t type value s =
      let c : Caveat = record { type = type; value = value } in
      updated config (set_caveat_draft config o t c) (rights s.subjects) s
        (set_caveat_draft-Leaves o t c s.subjects)

  pub add_caveat-AreKept :
      (o t type : String) (value : Value) (s : State)
      → AreKept s (add_caveat config o t type value s)
  unfolding add_caveat has_caveat get_caveat
  add_caveat-AreKept o t type value s = elim (Option-cases (get_permission o t s.subjects)) [
    | inl n ↦ rw (n, add_caveat) tt
    | inr (p, e) ↦ elim (Bool-cases (is_some (find_caveat type p.caveats))) [
      | inl y ↦ rw (e, y, add_caveat) tt
      | inr n ↦ rw (e, n, add_caveat) (set_caveat-AreKept o t type value s)
    ]
  ]

  pub update_caveat-AreKept :
      (o t type : String) (value : Value) (s : State)
      → AreKept s (update_caveat config o t type value s)
  unfolding update_caveat has_caveat get_caveat
  update_caveat-AreKept o t type value s = elim (Option-cases (get_permission o t s.subjects)) [
    | inl n ↦ rw (n, update_caveat) tt
    | inr (p, e) ↦ elim (Bool-cases (is_some (find_caveat type p.caveats))) [
      | inl y ↦ rw (e, y, update_caveat) (set_caveat-AreKept o t type value s)
      | inr n ↦ rw (e, n, update_caveat) tt
    ]
  ]

  remove_caveat_draft-Leaves :
      (o t type : String) (d : Subjects) → Leaves (rights d) (remove_caveat_draft config o t type d)
  unfolding remove_caveat_draft
  remove_caveat_draft-Leaves o t type d = elim (Option-cases (get_permission o t d)) [
    | inl n ↦ rw (n, remove_caveat_draft) tt
    | inr (p, g) ↦ rw (g, remove_caveat_draft) (after p g (removed config o t type p p.caveats))
  ]
    where
      after :
          (p : Permission)
          → get_permission o t d ≡ some p
          → (r : Result Error Permission)
          → Leaves (rights d) (and_then (lift r d) (λ q. modify (with_permission o t q)))
      after p g (err z) = tt
      after p g (ok q) = elim (Option-cases (Assoc.get o d)) [
        | inl n ↦ absurd (ground (arith, g, n))
        | inr (x, e) ↦ rights-with_permission o t q p x d e (ground (arith, g, e))
      ]

  pub remove_caveat-AreKept :
      (o t type : String) (s : State) → AreKept s (remove_caveat config o t type s)
  unfolding remove_caveat
  remove_caveat-AreKept o t type s =
      updated config (remove_caveat_draft config o t type) (rights s.subjects) s
        (remove_caveat_draft-Leaves o t type s.subjects)

  delete_subject-Leaves :
      (o : String) (d : Subjects) → Leaves (except (λ j u. o == j) (rights d)) (delete_subject o d)
  delete_subject-Leaves o d = elim (Bool-cases (Assoc.has o d)) [
    | inr n ↦ rw (n, delete_subject) tt
    | inl y ↦ rw (y, delete_subject) (λ j u. ground (arith, get-delete o j d))
  ]

  pub revoke_all_permissions-Leaves :
      (o : String) (s : State)
      → let r = revoke_all_permissions o s in
        Leaves (except (λ j u. o == j) (rights s.subjects)) (r.0, r.1.subjects)
  unfolding revoke_all_permissions
  revoke_all_permissions-Leaves o s =
      updated config (delete_subject o) (except (λ j u. o == j) (rights s.subjects)) s
        (delete_subject-Leaves o s.subjects)

  pub revoke_permissions-Leaves :
      (revoked : Assoc String (List String)) (s : State)
      → IsConsistent config s.subjects
      → let r = revoke_permissions revoked s in
        Leaves (except (are_named revoked) (rights s.subjects)) (r.0, r.1.subjects)
  unfolding revoke_permissions
  revoke_permissions-Leaves revoked s v =
      updated config (for_each revoke_targets revoked)
        (except (are_named revoked) (rights s.subjects)) s
        (revoke_all-Leaves config revoked s.subjects v)

  pub revoke_permission_for_all_subjects-Leaves :
      (t : String) (s : State)
      → IsConsistent config s.subjects
      → let r = revoke_permission_for_all_subjects t s in
        Leaves (except (λ j u. t == u) (rights s.subjects)) (r.0, r.1.subjects)
  unfolding revoke_permission_for_all_subjects
  revoke_permission_for_all_subjects-Leaves t s v =
      let d = s.subjects in
      updated config (for_each (revoke_from t) d) (except (λ j u. t == u) (rights d)) s (
        leaves_same config (except (is_target config t d) (rights d))
          (except (λ j u. t == u) (rights d)) (for_each (revoke_from t) d d) (λ j u. ground (arith))
          (revoke_from-Leaves config t d d v.distinct (λ o x h. h) v))
