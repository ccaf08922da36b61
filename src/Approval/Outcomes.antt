-- ===== src/Approval/Outcomes.antt =====
-- What `accept` of ApprovalController.ts returns and does.
use fork_metamask_core.Common.{
  ℕ, ◌<◌, eqb, ◌∷◌, ◌≡◌, refl, String, Bool, true, false, not, ◌&&◌, none, some, arith,
  if◌then◌else◌, string_eq,
}
use fork_metamask_core.Common.Assoc
use fork_metamask_core.Common.Assoc.{values, count-delete}
use fork_metamask_core.Common.Monad.{ok, err}
use fork_metamask_core.Common.Js.{Value}
use fork_metamask_core.Approval.State.{State, ApprovalRequest, not_found, no_result_support}
use fork_metamask_core.Approval.Queries.{get_request}
use fork_metamask_core.Approval.Requests.{accept, accepted, waiting, refused, resolution, settle}
use fork_metamask_core.Approval.Invariant.{IsValid}
use fork_metamask_core.Approval.Deletion.{
  deleted, deleted-approvals, deleted-pending, deleted-settled, deleted-rest,
}
use fork_metamask_core.Approval.Promises.{IsConserved, settlements, waits}
use fork_metamask_core.Approval.Settling.{callbacks_missing, callbacks_found, approval_of_pending}

module _ (id : String) (value : Value) (wait : Bool) (s : State) (v : IsValid s) where
  -- `accept` of an id with no request throws, and changes nothing.
  pub accept_missing :
      Assoc.get id s.pending_approvals ≡ none → accept id value wait s ≡ (err (not_found id), s)
  unfolding accept get_request
  accept_missing e =
      let absent : Assoc.get id s.approvals ≡ none = ground (arith, e, v.same_ids id) in
      rw (callbacks_missing id s v absent, accept) refl

  pub accept_found :
      (p : ℕ) (a : ApprovalRequest) (g : Assoc.get id s.pending_approvals ≡ some a)
      → Assoc.get id s.approvals ≡ some p
      → accept id value wait s ≡ (
          if wait && not a.expects_result
          then (ok (refused (no_result_support id)), deleted id a s v g)
          else (
            ok (if wait then waiting else accepted),
            settle p (resolution a.expects_result wait value) (deleted id a s v g),
          ))
  unfolding accept get_request
  accept_found p a g e = rw (callbacks_found id s v p a g e, g, accept) (ground arith)

  -- What is left of an accepted request `a`: neither a request nor callbacks, and its promise in the
  -- log with the value, unless a result was asked for that the request does not support.
  pub record IsAccepted (a : ApprovalRequest) : Type 0 where
    pub promise : ℕ
    pub was_waiting : Assoc.get id s.approvals ≡ some promise
    pub answer :
        (accept id value wait s).0
        ≡ ok (
            if wait && not a.expects_result
            then refused (no_result_support id)
            else if wait
            then waiting
            else accepted)
    pub log : (accept id value wait s).1.settled ≡ (
        if wait && not a.expects_result
        then s.settled
        else (promise, resolution a.expects_result wait value) ∷ s.settled)
    pub no_request :
        (accept id value wait s).1.pending_approvals ≡ Assoc.delete id s.pending_approvals
    pub no_callbacks : (accept id value wait s).1.approvals ≡ Assoc.delete id s.approvals
    pub next : (accept id value wait s).1.next_promise ≡ s.next_promise

  -- `accept` of a pending request deletes it, on every branch, and resolves its promise, on every
  -- branch but one.
  pub accept-IsAccepted :
      (a : ApprovalRequest) → Assoc.get id s.pending_approvals ≡ some a → IsAccepted a
  accept-IsAccepted a g =
      let (p, e) = approval_of_pending id s v a g in
      let r = accept_found p a g e in
      let t = deleted id a s v g in
      record {
        promise = p;
        was_waiting = e;
        answer = ground (arith, r);
        log = ground (arith, r, deleted-settled id a s v g);
        no_request = ground (arith, r, deleted-pending id a s v g);
        no_callbacks = ground (arith, r, deleted-approvals id a s v g);
        next = ground (arith, r, (deleted-rest id a s v g).next);
      }

  -- The promise of a request that expects no result is lost when `accept` is asked to wait for one: of
  -- its callbacks none was called before and none is called then, so nobody is told, and it waits no
  -- longer.
  pub accept_loses :
      (a : ApprovalRequest) (p : ℕ)
      → IsConserved s
      → Assoc.get id s.pending_approvals ≡ some a
      → Assoc.get id s.approvals ≡ some p
      → a.expects_result ≡ false
      → wait ≡ true
      → let t = (accept id value wait s).1 in
        (t.settled ≡ s.settled) × (settlements p t ≡ 0) × (waits p t ≡ 0) × (p < t.next_promise)
  accept_loses a p h g e plain asked =
      let r = accept_found p a g e in
      let t = (accept id value wait s).1 in
      let log : t.settled ≡ s.settled =
        ground (arith, r, plain, asked, deleted-settled id a s v g) in
      let approvals : t.approvals ≡ Assoc.delete id s.approvals =
        ground (arith, r, plain, asked, deleted-approvals id a s v g) in
      let next : t.next_promise ≡ s.next_promise =
        ground (arith, r, plain, asked, (deleted-rest id a s v g).next) in
      let gone = count-delete (eqb p) id p s.approvals v.distinct_approvals e in
      (
        log,
        ground (arith, log, h p, gone),
        ground (arith, approvals, h p, gone),
        ground (arith, next, h p, gone),
      )
