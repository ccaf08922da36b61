-- ===== src/Permission/Atomic.antt =====
-- A method of PermissionController.ts that throws has written nothing to the subjects.
use fork_metamask_core.Common.{
  ℕ, ◌≡◌, refl, ◌∙◌, String, Bool, not, ◌∷◌, arith, inl, inr, Bool-cases, Option-cases, string_eq,
  ◌||◌, is_some,
}
use fork_metamask_core.Common.Assoc.{Assoc}
use fork_metamask_core.Common.Monad.{Result, ok, err, and_then, lift, for_each}
use fork_metamask_core.Common.Js.{Value, str, truthy, is_string, string_of}
use fork_metamask_core.Permission.State.{Permission, RawPermission, State, Subjects, Error, Config}
use fork_metamask_core.Permission.Subjects.{
  D, stored, delete_subject, revoke_from, revoke_targets, update_subjects, clear_state,
  revoke_all_permissions, revoke_permissions, revoke_permission_for_all_subjects, get_permission,
}
use fork_metamask_core.Permission.Caveats.{
  has_caveat, get_caveat, set_caveat_draft, remove_caveat_draft, visit_subject, set_caveat,
  add_caveat, update_caveat, remove_caveat, update_permissions_by_caveat, find_caveat,
}
use fork_metamask_core.Permission.Grants.{
  granted, grant_to, grant_permissions, grant_one, kept_permissions,
}
use fork_metamask_core.Permission.Requests.{
  RawPermissions, RawApproval, validate_requested_permissions, validate_approved_permissions,
  get_side_effects, execute_side_effects, finish_request, request_permissions,
}
use fork_metamask_core.Permission.Runs.{
  Call, clears, revokes_all, revokes_for_all, revokes, adds, updates, removes, mutates, grants,
  requests, serve, without_result, execute_side_effects-subjects,
}

-- What a call that throws has done to the subjects.
abbrev IsAtomic : {A : Type 0} → State → Result Error A × State → Type 0
IsAtomic s (ok a, t) = Unit
IsAtomic s (err e, t) = t.subjects ≡ s.subjects

update_subjects-IsAtomic :
    (recipe : D (Unit {0})) (s : State) → IsAtomic s (update_subjects recipe s)
update_subjects-IsAtomic recipe s = dropped (recipe s.subjects)
  where
    dropped : (r : Result Error (Unit {0}) × Subjects) → IsAtomic s (stored r s)
    dropped (ok u, d) = tt
    dropped (err e, d) = refl

without_result-IsAtomic :
    {A : Type 0} (s : State) (r : Result Error A × State)
    → IsAtomic s r
    → IsAtomic s (without_result r)
without_result-IsAtomic s (ok a, t) h = tt
without_result-IsAtomic s (err e, t) h = h

moved_on :
    {A : Type 0} (s t : State) (r : Result Error A × State)
    → t.subjects ≡ s.subjects
    → IsAtomic t r
    → IsAtomic s r
moved_on s t (ok a, u) e h = tt
moved_on s t (err z, u) e h = h ∙ e

module _ (config : Config) (ids : String → String) (now : ℕ) where
  set_caveat-IsAtomic :
      (origin target type : String) (value : Value) (s : State)
      → IsAtomic s (set_caveat config origin target type value s)
  unfolding set_caveat
  set_caveat-IsAtomic origin target type value s =
      update_subjects-IsAtomic
        (set_caveat_draft config origin target (record { type = type; value = value })) s

  add_caveat-IsAtomic :
      (origin target type : String) (value : Value) (s : State)
      → IsAtomic s (add_caveat config origin target type value s)
  unfolding add_caveat has_caveat get_caveat
  add_caveat-IsAtomic origin target type value s =
      elim (Option-cases (get_permission origin target s.subjects)) [
        | inl n ↦ rw (n, add_caveat) refl
        | inr (p, e) ↦ elim (Bool-cases (is_some (find_caveat type p.caveats))) [
          | inl y ↦ rw (e, y, add_caveat) refl
          | inr n ↦ rw (e, n, add_caveat) (set_caveat-IsAtomic origin target type value s)
        ]
      ]

  update_caveat-IsAtomic :
      (origin target type : String) (value : Value) (s : State)
      → IsAtomic s (update_caveat config origin target type value s)
  unfolding update_caveat has_caveat get_caveat
  update_caveat-IsAtomic origin target type value s =
      elim (Option-cases (get_permission origin target s.subjects)) [
        | inl n ↦ rw (n, update_caveat) refl
        | inr (p, e) ↦ elim (Bool-cases (is_some (find_caveat type p.caveats))) [
          | inl y ↦ rw (e, y, update_caveat) (set_caveat-IsAtomic origin target type value s)
          | inr n ↦ rw (e, n, update_caveat) refl
        ]
      ]

  grant_to-IsAtomic :
      (origin : String) (data' : Value) (preserve : Bool) (xs : Assoc String RawPermission)
      (s : State)
      → IsAtomic s (grant_to config ids now origin data' preserve xs s)
  grant_to-IsAtomic origin data' preserve xs s = ended (
      for_each (grant_one config ids now origin data') xs
        (kept_permissions config ids now preserve origin s.subjects))
    where
      ended :
          (r : Result Error (Unit {0}) × Assoc String Permission)
          → IsAtomic s (granted config ids now origin r s)
      ended (ok u, m) = tt
      ended (err e, m) = refl

  grant_permissions-IsAtomic :
      (origin data' : Value) (preserve : Bool) (xs : Assoc String RawPermission) (s : State)
      → IsAtomic s (grant_permissions config ids now origin data' preserve xs s)
  unfolding grant_permissions
  grant_permissions-IsAtomic origin data' preserve xs s =
      elim (Bool-cases (not (truthy origin) || not (is_string origin))) [
        | inl y ↦ rw (y, grant_permissions) refl
        | inr n ↦
            rw (n, grant_permissions) (grant_to-IsAtomic (string_of origin) data' preserve xs s)
      ]

  finish_request-IsAtomic :
      (id origin : String) (preserve : Bool) (request : Value) (a : RawApproval) (s : State)
      → IsAtomic s (finish_request config ids now id origin preserve request a s)
  unfolding finish_request
  finish_request-IsAtomic id origin preserve request a s =
      checked (validate_approved_permissions config id origin a) refl
    where
      after :
          (t : Assoc String RawPermission) (data' : Value) (r : Result Error (Unit {0}) × State)
          → r.1.subjects ≡ s.subjects
          → IsAtomic s
              (and_then r (λ _. grant_permissions config ids now (str origin) data' preserve t))
      after t data' (err e, u) same = same
      after t data' (ok w, u) same =
          moved_on s u _ same (grant_permissions-IsAtomic (str origin) data' preserve t u)

      checked :
          (r : Result Error (Assoc String RawPermission × Value))
          → validate_approved_permissions config id origin a ≡ r
          → IsAtomic s (finish_request config ids now id origin preserve request a s)
      checked (err e) h = rw (h, finish_request) refl
      checked (ok (t, data')) h =
          rw (h, finish_request)
            (after t data' (execute_side_effects config request (get_side_effects config t) s)
              (execute_side_effects-subjects config ids now request (get_side_effects config t) s))

  request_permissions-IsAtomic :
      (id origin : String) (preserve : Bool) (permissions : RawPermissions) (request : Value)
      → (answer : Result Error RawApproval) (s : State)
      → IsAtomic s
          (request_permissions config ids now id origin preserve permissions request answer s)
  unfolding request_permissions
  request_permissions-IsAtomic id origin preserve permissions request answer s =
      elim (Option-cases (validate_requested_permissions config origin permissions)) [
        | inr (e, n) ↦ rw (n, request_permissions) refl
        | inl n ↦ rw (n, request_permissions) (answered answer)
      ]
    where
      answered :
          (a : Result Error RawApproval)
          → IsAtomic s
              (and_then (lift a s) (finish_request config ids now id origin preserve request))
      answered (err e) = refl
      answered (ok a) = finish_request-IsAtomic id origin preserve request a s

  serve-IsAtomic : (c : Call) (s : State) → IsAtomic s (serve config ids now c s)
  unfolding serve clear_state revoke_all_permissions revoke_permission_for_all_subjects
      revoke_permissions remove_caveat update_permissions_by_caveat
  serve-IsAtomic clears s = tt
  serve-IsAtomic (revokes_all origin) s = update_subjects-IsAtomic (delete_subject origin) s
  serve-IsAtomic (revokes_for_all target) s =
      update_subjects-IsAtomic (for_each (revoke_from target) s.subjects) s
  serve-IsAtomic (revokes revoked) s = update_subjects-IsAtomic (for_each revoke_targets revoked) s
  serve-IsAtomic (adds o t type value) s = add_caveat-IsAtomic o t type value s
  serve-IsAtomic (updates o t type value) s = update_caveat-IsAtomic o t type value s
  serve-IsAtomic (removes o t type) s =
      update_subjects-IsAtomic (remove_caveat_draft config o t type) s
  serve-IsAtomic (mutates type mutator) s =
      update_subjects-IsAtomic (for_each (visit_subject config type mutator) s.subjects) s
  serve-IsAtomic (grants origin data' preserve x xs) s =
      without_result-IsAtomic s (grant_permissions config ids now origin data' preserve (x ∷ xs) s)
        (grant_permissions-IsAtomic origin data' preserve (x ∷ xs) s)
  serve-IsAtomic (requests id origin preserve permissions request answer) s =
      without_result-IsAtomic s
        (request_permissions config ids now id origin preserve permissions request answer s)
        (request_permissions-IsAtomic id origin preserve permissions request answer s)

atomic :
    (s : State) (r : Result Error (Unit {0}) × State) (e : Error)
    → IsAtomic s r
    → r.0 ≡ err e
    → r.1.subjects ≡ s.subjects
atomic s (ok a, t) e h f = absurd (ground (arith, f))
atomic s (err z, t) e h f = h

-- A call that throws, at whatever step of its loops and checks, leaves the subjects and their
-- permissions as they were.
pub serve_failed :
    (config : Config) (ids : String → String) (now : ℕ) (c : Call) (s : State) (e : Error)
    → (serve config ids now c s).0 ≡ err e
    → (serve config ids now c s).1.subjects ≡ s.subjects
serve_failed config ids now c s e h =
    atomic s (serve config ids now c s) e (serve-IsAtomic config ids now c s) h
