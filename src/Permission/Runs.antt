-- ===== src/Permission/Runs.antt =====
-- Sequences of calls of the methods of PermissionController.ts that write.
use fork_metamask_core.Common.{
  ℕ, ◌≡◌, refl, sym, subst, String, Bool, List, [], ◌∷◌, arith, inl, inr, Option-cases, string_eq,
}
use fork_metamask_core.Common.Assoc.{Assoc}
use fork_metamask_core.Common.Monad.{Result, ok, err, and_then, lift}
use fork_metamask_core.Common.Js.{Value, str}
use fork_metamask_core.Common.JsEq.{value_eq}
use fork_metamask_core.Permission.State.{RawPermission, SideEffect, State, Error, Config}
use fork_metamask_core.Permission.Subjects.{
  empty_state, M, clear_state, revoke_all_permissions, revoke_permissions,
  revoke_permission_for_all_subjects,
}
use fork_metamask_core.Permission.Caveats.{
  Mutator, add_caveat, update_caveat, remove_caveat, update_permissions_by_caveat,
}
use fork_metamask_core.Permission.Grants.{grant_permissions}
use fork_metamask_core.Permission.Requests.{
  RawPermissions, table, RawApproval, no_metadata, approval, validate_requested_permissions,
  validate_approved_permissions, get_side_effects, ended_effects, reasons, permitted_log,
  execute_side_effects, finish_request, request_permissions, check_table,
}
use fork_metamask_core.Permission.Sound.{IsConsistent}
use fork_metamask_core.Permission.Keeps.{
  revoke_permissions-IsConsistent, revoke_permission_for_all_subjects-IsConsistent,
  revoke_all_permissions-IsConsistent, clear_state-IsConsistent,
}
use fork_metamask_core.Permission.Changes.{
  add_caveat-IsConsistent, update_caveat-IsConsistent, remove_caveat-IsConsistent,
}
use fork_metamask_core.Permission.Mutating.{update_permissions_by_caveat-IsConsistent}
use fork_metamask_core.Permission.Granting.{KeepTargets, grant_permissions-IsConsistent}

-- A call of a method that writes. A grant is of one permission or more.
pub data Call : Type 0 where
  clears : Call
  revokes_all revokes_for_all : String → Call
  revokes : Assoc String (List String) → Call
  adds updates : String → String → String → Value → Call
  removes : String → String → String → Call
  mutates : String → Mutator → Call
  grants : Value → Value → Bool → String × RawPermission → Assoc String RawPermission → Call
  requests : String → String → Bool → RawPermissions → Value → Result Error RawApproval → Call

abbrev pub without_result : {A : Type 0} → Result Error A × State → Result Error (Unit {0}) × State
without_result (ok a, s) = (ok tt, s)
without_result (err e, s) = (err e, s)

module _ (config : Config) (ids : String → String) (now : ℕ) where
  unfoldable pub serve : Call → M (Unit {0})
  serve clears s = clear_state s
  serve (revokes_all origin) s = revoke_all_permissions origin s
  serve (revokes_for_all target) s = revoke_permission_for_all_subjects target s
  serve (revokes revoked) s = revoke_permissions revoked s
  serve (adds origin target type value) s = add_caveat config origin target type value s
  serve (updates origin target type value) s = update_caveat config origin target type value s
  serve (removes origin target type) s = remove_caveat config origin target type s
  serve (mutates type mutator) s = update_permissions_by_caveat config type mutator s
  serve (grants origin data' preserve x xs) s =
      without_result (grant_permissions config ids now origin data' preserve (x ∷ xs) s)
  serve (requests id origin preserve permissions request answer) s =
      without_result
        (request_permissions config ids now id origin preserve permissions request answer s)

  unfoldable pub run : List Call → State → State
  run [] s = s
  run (c ∷ cs) s = run cs (serve c s).1

  same_state : {A : Type 0} (r : Result Error A × State) → (without_result r).1 ≡ r.1
  same_state (ok a, s) = refl
  same_state (err e, s) = refl

  pub execute_side_effects-subjects :
      (request : Value) (effects : Assoc String SideEffect) (s : State)
      → (execute_side_effects config request effects s).1.subjects ≡ s.subjects
  unfolding execute_side_effects
  execute_side_effects-subjects request effects s =
      elim (reasons config request effects)
        as (λ es.
          (ended_effects config request effects es
            (record s { effects = permitted_log config effects s.effects })).1.subjects
          ≡ s.subjects) [ [] ↦ refl | e ∷ es ↦ refl ]

  -- What was approved is not empty.
  approved-not_empty :
      (id origin : String) (a : RawApproval) (t : Assoc String RawPermission) (data' : Value)
      → validate_approved_permissions config id origin a ≡ ok (t, data')
      → (x : String × RawPermission) × (xs : Assoc String RawPermission) × (t ≡ x ∷ xs)
  unfolding validate_approved_permissions validate_requested_permissions
  approved-not_empty id origin RawApproval.not_plain t data' h = absurd (ground (arith, h))
  approved-not_empty id origin no_metadata t data' h = absurd (ground (arith, h))
  approved-not_empty id origin (approval i o RawPermissions.not_plain v) t data' h =
      absurd (ground (arith, h))
  approved-not_empty id origin (approval i o (table []) v) t data' h = absurd (ground (arith, h))
  approved-not_empty id origin (approval i o (table (x ∷ xs)) v) t data' h =
      (x, xs, ground (arith, h, Option-cases (check_table config origin (x ∷ xs))))

  module _ (keep : KeepTargets config) where
    grant_approved-IsConsistent :
        (id origin : String) (preserve : Bool) (a : RawApproval) (t : Assoc String RawPermission)
        (data' : Value) (s : State)
        → validate_approved_permissions config id origin a ≡ ok (t, data')
        → IsConsistent config s.subjects
        → IsConsistent config
            (grant_permissions config ids now (str origin) data' preserve t s).1.subjects
    grant_approved-IsConsistent id origin preserve a t data' s h v =
        let (x, xs, e) = approved-not_empty id origin a t data' h in
        subst
          (λ u.
            IsConsistent config
              (grant_permissions config ids now (str origin) data' preserve u s).1.subjects)
          (sym e)
          (grant_permissions-IsConsistent config ids now keep (str origin) data' preserve x xs s v)

    finish_request-IsConsistent :
        (id origin : String) (preserve : Bool) (request : Value) (a : RawApproval) (s : State)
        → IsConsistent config s.subjects
        → IsConsistent config
            (finish_request config ids now id origin preserve request a s).1.subjects
    unfolding finish_request
    finish_request-IsConsistent id origin preserve request a s v =
        checked (validate_approved_permissions config id origin a) refl
      where
        after :
            (t : Assoc String RawPermission) (data' : Value) (r : Result Error (Unit {0}) × State)
            → validate_approved_permissions config id origin a ≡ ok (t, data')
            → r.1.subjects ≡ s.subjects
            → IsConsistent config
                (and_then r
                  (λ _. grant_permissions config ids now (str origin) data' preserve t)).1.subjects
        after t data' (err e, u) h same = subst (IsConsistent config) (sym same) v
        after t data' (ok w, u) h same =
            grant_approved-IsConsistent id origin preserve a t data' u h
              (subst (IsConsistent config) (sym same) v)

        checked :
            (r : Result Error (Assoc String RawPermission × Value))
            → validate_approved_permissions config id origin a ≡ r
            → IsConsistent config
                (finish_request config ids now id origin preserve request a s).1.subjects
        checked (err e) h = rw (h, finish_request) v
        checked (ok (t, data')) h =
            rw (h, finish_request)
              (after t data' (execute_side_effects config request (get_side_effects config t) s) h
                (execute_side_effects-subjects request (get_side_effects config t) s))

    request_permissions-IsConsistent :
        (id origin : String) (preserve : Bool) (permissions : RawPermissions) (request : Value)
        → (answer : Result Error RawApproval) (s : State) → IsConsistent config s.subjects
        → IsConsistent config
            (request_permissions config ids now id origin preserve permissions request answer
              s).1.subjects
    unfolding request_permissions
    request_permissions-IsConsistent id origin preserve permissions request answer s v =
        elim (Option-cases (validate_requested_permissions config origin permissions)) [
          | inr (e, n) ↦ rw (n, request_permissions) v
          | inl n ↦ rw (n, request_permissions) (answered answer)
        ]
      where
        answered :
            (a : Result Error RawApproval)
            → IsConsistent config
                (and_then
                  (lift a s)
                  (finish_request config ids now id origin preserve request)).1.subjects
        answered (err e) = v
        answered (ok a) = finish_request-IsConsistent id origin preserve request a s v

    pub serve-IsConsistent :
        (c : Call) (s : State)
        → IsConsistent config s.subjects
        → IsConsistent config (serve c s).1.subjects
    unfolding serve
    serve-IsConsistent clears s v = clear_state-IsConsistent config s
    serve-IsConsistent (revokes_all origin) s v =
        revoke_all_permissions-IsConsistent config origin s v
    serve-IsConsistent (revokes_for_all target) s v =
        revoke_permission_for_all_subjects-IsConsistent config target s v
    serve-IsConsistent (revokes revoked) s v = revoke_permissions-IsConsistent config revoked s v
    serve-IsConsistent (adds o t type value) s v = add_caveat-IsConsistent config o t type value s v
    serve-IsConsistent (updates o t type value) s v =
        update_caveat-IsConsistent config o t type value s v
    serve-IsConsistent (removes o t type) s v = remove_caveat-IsConsistent config o t type s v
    serve-IsConsistent (mutates type mutator) s v =
        update_permissions_by_caveat-IsConsistent config type mutator s v
    serve-IsConsistent (grants origin data' preserve x xs) s v =
        let r = grant_permissions config ids now origin data' preserve (x ∷ xs) s in
        subst (λ (t : State). IsConsistent config t.subjects) (sym (same_state r))
          (grant_permissions-IsConsistent config ids now keep origin data' preserve x xs s v)
    serve-IsConsistent (requests id origin preserve permissions request answer) s v =
        let r =
          request_permissions config ids now id origin preserve permissions request answer s in
        subst (λ (t : State). IsConsistent config t.subjects) (sym (same_state r))
          (request_permissions-IsConsistent id origin preserve permissions request answer s v)

    run_keeps :
        (cs : List Call) (s : State)
        → IsConsistent config s.subjects
        → IsConsistent config (run cs s).subjects
    unfolding run
    run_keeps [] s v = v
    run_keeps (c ∷ cs) s v = run_keeps cs (serve c s).1 (serve-IsConsistent c s v)

-- Where the factories of the specifications make permissions for the target that they are asked for,
-- calls of the methods, whatever their arguments, lead from no subjects to a table in which no
-- subject is without permissions and each permission stands under its target, which has a
-- specification, with no caveats or with some that it allows, no type twice. A grant with no
-- permission is left out.
pub run-IsConsistent :
    (config : Config) (ids : String → String) (now : ℕ) (cs : List Call)
    → KeepTargets config
    → IsConsistent config (run config ids now cs empty_state).subjects
run-IsConsistent config ids now cs keep =
    run_keeps config ids now keep cs empty_state (record { distinct = tt; subjects = tt })
