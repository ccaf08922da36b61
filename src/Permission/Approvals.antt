-- ===== src/Permission/Approvals.antt =====
-- How PermissionController.ts answers a permissions request that waits in ApprovalController.
use fork_metamask_core.Common.{
  ℕ, ◌≡◌, refl, String, Bool, false, Option, none, some, [], ◌∷◌, if◌then◌else◌, arith, inl, inr,
  Option-cases, string_eq, ◌==◌,
}
use fork_metamask_core.Common.Assoc.{Assoc}
use fork_metamask_core.Common.Assoc
use fork_metamask_core.Common.Monad.{Result, ok, err, Action, ◌>>=◌, ◌>>◌, pure, throw, lift}
use fork_metamask_core.Common.Js.{Value, undefined, str}
use fork_metamask_core.Approval.State
use fork_metamask_core.Approval.State.{ApprovalRequest, Settlement, rejected}
use fork_metamask_core.Approval.Queries.{has_request}
use fork_metamask_core.Approval.Requests.{Acceptance, accept, reject, resolution}
use fork_metamask_core.Approval.Invariant.{IsValid}
use fork_metamask_core.Approval.Deletion.{deleted-approvals, deleted-pending, deleted-settled}
use fork_metamask_core.Approval.Settling.{approval_of_pending, reject_found}
use fork_metamask_core.Approval.Outcomes.{accept_found}
use fork_metamask_core.Permission.State.{RawPermission, Error, invalid_params, user_rejected}

-- What these methods throw: an error of their own, or one that an action of ApprovalController throws.
pub data Failure : Type 0 where
  request_not_found : String → Failure
  from_approvals : State.Error → Failure

abbrev A : Type 0 → Type 0
A = Action State.State Failure

abbrev answered : {B : Type 0} → Result State.Error B × State.State → Result Failure B × State.State
answered (ok a, s) = (ok a, s)
answered (err e, s) = (err (from_approvals e), s)

abbrev calling : {B : Type 0} → State.M B → A B
calling m s = answered (m s)

-- `hasApprovalRequest`.
abbrev pub has_approval_request : String → A Bool
has_approval_request id s = calling (lift (has_request (str id) undefined undefined s)) s

abbrev check_pending : String → A (Unit {0})
check_pending id = do
  found ← has_approval_request id
  if found then pure tt else throw (request_not_found id)

module _ (as_value : Error → Value) (caught : State.Error → Value) where
  -- `_rejectPermissionsRequest`.
  abbrev pub reject_approval : String → Value → A (Unit {0})
  reject_approval id error = calling (reject id error)

  -- The request is rejected with what accepting it threw, which is thrown again.
  abbrev pub accepting :
      String → Result State.Error Acceptance × State.State → Result Failure (Unit {0}) × State.State
  accepting id (ok a, s) = (ok tt, s)
  accepting id (err e, s) = (do reject_approval id (caught e); throw (from_approvals e)) s

  abbrev pub finish_accept : String → Assoc String RawPermission → Value → A (Unit {0})
  finish_accept id [] request = reject_approval id (as_value invalid_params)
  finish_accept id (p ∷ ps) request = λ s. accepting id (accept id request false s)

  unfoldable pub accept_permissions_request :
      String → Assoc String RawPermission → Value → A (Unit {0})
  accept_permissions_request id permissions request = do
    check_pending id
    finish_accept id permissions request

  unfoldable pub reject_permissions_request : String → A (Unit {0})
  reject_permissions_request id = do check_pending id; reject_approval id (as_value user_rejected)

  -- The end of the promise of an approval, by the permissions that the user left in the request.
  abbrev pub outcome : Assoc String RawPermission → Value → ApprovalRequest → Settlement
  outcome [] request a = rejected (as_value invalid_params)
  outcome (p ∷ ps) request a = resolution a.expects_result false request

  -- A method that settled the promise of an approval, and took the request away.
  abbrev pub IsSettled :
      String → ℕ → Settlement → State.State → Result Failure (Unit {0}) × State.State → Type 0
  IsSettled id promise settlement s r =
      (r.0 ≡ ok tt)
      × (r.1.settled ≡ (promise, settlement) ∷ s.settled)
      × (r.1.pending_approvals ≡ Assoc.delete id s.pending_approvals)
      × (r.1.approvals ≡ Assoc.delete id s.approvals)

  module _ (id : String) (s : State.State) (v : IsValid s) where
    check_found :
        (p : ℕ)
        → id == "" ≡ false
        → Assoc.get id s.approvals ≡ some p
        → check_pending id s ≡ (ok tt, s)
    unfolding has_request
    check_found p n e = ground (arith, n, e)

    check_missing :
        id == "" ≡ false
        → Assoc.get id s.approvals ≡ none
        → check_pending id s ≡ (err (request_not_found id), s)
    unfolding has_request
    check_missing n e = ground (arith, n, e)

    reject-IsSettled :
        (error : Value) (p : ℕ) (a : ApprovalRequest)
        → (g : Assoc.get id s.pending_approvals ≡ some a) → Assoc.get id s.approvals ≡ some p
        → IsSettled id p (rejected error) s (reject_approval id error s)
    reject-IsSettled error p a g e =
        let r = reject_found id error s v p a g e in
        (
          ground (arith, r),
          ground (arith, r, deleted-settled id a s v g),
          ground (arith, r, deleted-pending id a s v g),
          ground (arith, r, deleted-approvals id a s v g),
        )

    finish_accept-IsSettled :
        (permissions : Assoc String RawPermission) (request : Value) (p : ℕ) (a : ApprovalRequest)
        → (g : Assoc.get id s.pending_approvals ≡ some a) → Assoc.get id s.approvals ≡ some p
        → IsSettled id p (outcome permissions request a) s (finish_accept id permissions request s)
    finish_accept-IsSettled [] request p a g e = reject-IsSettled (as_value invalid_params) p a g e
    finish_accept-IsSettled (x ∷ xs) request p a g e =
        let r = accept_found id request false s v p a g e in
        (
          ground (arith, r),
          ground (arith, r, deleted-settled id a s v g),
          ground (arith, r, deleted-pending id a s v g),
          ground (arith, r, deleted-approvals id a s v g),
        )

  -- How a method answers an id, with the request that is pending under it and the end it is given.
  abbrev pub IsAnswer :
      String
      → (ApprovalRequest → Settlement)
      → State.State
      → Result Failure (Unit {0}) × State.State
      → Option ApprovalRequest
      → Type 0
  IsAnswer id settlement s r none = r ≡ (err (request_not_found id), s)
  IsAnswer id settlement s r (some a) =
      (p : ℕ) × (Assoc.get id s.approvals ≡ some p) × IsSettled id p (settlement a) s r

  no_callbacks :
      (id : String) (s : State.State)
      → IsValid s
      → Assoc.get id s.pending_approvals ≡ none
      → Assoc.get id s.approvals ≡ none
  no_callbacks id s v g = ground (arith, g, v.same_ids id, Option-cases (Assoc.get id s.approvals))

  -- In a valid state of ApprovalController, a permissions request with an id that is not empty: where
  -- it is pending, accepting it never throws, resolves its promise with the request, or rejects it
  -- where no permission is left in it, and takes it away; where it is not, it throws and changes
  -- nothing.
  pub accept_permissions_request_lem :
      (id : String) (s : State.State) (permissions : Assoc String RawPermission) (request : Value)
      → IsValid s
      → id == "" ≡ false
      → IsAnswer id
          (outcome permissions request)
          s
          (accept_permissions_request id permissions request s)
          (Assoc.get id s.pending_approvals)
  unfolding accept_permissions_request
  accept_permissions_request_lem id s permissions request v n =
      elim (Option-cases (Assoc.get id s.pending_approvals)) [
        | inl g ↦
            rw (g, check_missing id s v n (no_callbacks id s v g), accept_permissions_request) refl
        | inr (a, g) ↦
            let (p, e) = approval_of_pending id s v a g in
            rw (g, check_found id s v p n e, accept_permissions_request)
              (p, e, finish_accept-IsSettled id s v permissions request p a g e)
      ]

  -- The same of a rejection, by which the promise is rejected with the user's refusal.
  pub reject_permissions_request_lem :
      (id : String) (s : State.State)
      → IsValid s
      → id == "" ≡ false
      → IsAnswer id
          (λ a. rejected (as_value user_rejected))
          s
          (reject_permissions_request id s)
          (Assoc.get id s.pending_approvals)
  unfolding reject_permissions_request
  reject_permissions_request_lem id s v n = elim (Option-cases (Assoc.get id s.pending_approvals)) [
    | inl g ↦
        rw (g, check_missing id s v n (no_callbacks id s v g), reject_permissions_request) refl
    | inr (a, g) ↦
        let (p, e) = approval_of_pending id s v a g in
        rw (g, check_found id s v p n e, reject_permissions_request)
          (p, e, reject-IsSettled id s v (as_value user_rejected) p a g e)
  ]
