-- ===== src/Approval/Deletion.antt =====
-- What `#delete` of ApprovalController.ts does in a state that meets the invariant.
use fork_metamask_core.Common.{
  ℕ, ◌-◌, ◌≤◌, ◌≡◌, refl, String, some, arith, inl, inr, string_eq, beq_refl, Option-cases,
}
use fork_metamask_core.Common.Assoc.{
  Assoc, Distinct, values, get-set, get-delete, set-Distinct, delete-Distinct, count-delete,
}
use fork_metamask_core.Common.Assoc
use fork_metamask_core.Common.Monad.{ok}
use fork_metamask_core.Approval.State.{State, ApprovalRequest}
use fork_metamask_core.Approval.Queries.{
  sum, type_count, origin_count, has_origin, get_request, get_approval_count,
}
use fork_metamask_core.Approval.Requests.{released, remove_from_store, delete_request}
use fork_metamask_core.Approval.Counts.{
  has_both, sum-set, get-le-sum, type_count-released, origin_count-released,
}
use fork_metamask_core.Approval.Invariant.{IsValid}

abbrev pub without_callbacks : String → State → State
without_callbacks id s = record s { approvals = Assoc.delete id s.approvals }

-- What the deletion of a request leaves alone.
pub record SameRest (s t : State) : Type 0 where
  pub flows : t.approval_flows ≡ s.approval_flows
  pub excluded : t.excluded ≡ s.excluded
  pub next : t.next_promise ≡ s.next_promise
  pub shown : t.shown ≡ s.shown

module _ (id : String) (a : ApprovalRequest) (s : State) (v : IsValid s)
    (pending : Assoc.get id s.pending_approvals ≡ some a) where
  counted_once : 1 ≤ type_count s a.origin a.type
  counted_once = ground (
    arith,
    v.type_counts a.origin a.type,
    count-delete (has_both a.origin a.type) id a s.pending_approvals v.distinct_pending,
    beq_refl a.origin,
    beq_refl a.type,
  )

  pub entries :
      (m : Assoc String ℕ) × (n : ℕ) × (Assoc.get a.origin s.origins ≡ some m)
      × (Assoc.get a.type m ≡ some n)
      × (1 ≤ n)
  unfolding type_count Assoc.get
  entries = elim (Option-cases (Assoc.get a.origin s.origins)) [
    | inl e ↦ absurd (ground (arith, counted_once))
    | inr (m, e) ↦ elim (Option-cases (Assoc.get a.type m)) [
      | inl f ↦ absurd (ground (arith, counted_once))
      | inr (n, f) ↦ (m, n, e, f, ground (arith, counted_once))
    ]
  ]

  -- The state after `#delete`.
  pub deleted : State
  deleted =
      let (m, n, _, _, _) = entries in
      remove_from_store id (released a.origin a.type (sum (values m)) n m (without_callbacks id s))

  pub delete_request_lem : delete_request id s ≡ (ok tt, deleted)
  unfolding delete_request deleted get_request get_approval_count origin_count
  delete_request_lem =
      let (m, n, e, f, pos) = entries in ground (arith, v.named_origin id a, e, f, pos)

  pub deleted-IsValid : IsValid deleted
  unfolding deleted type_count origin_count
  deleted-IsValid =
      let (m, n, e, f, pos) = entries in
      record {
        distinct_pending = delete-Distinct id s.pending_approvals v.distinct_pending;
        distinct_approvals = delete-Distinct id s.approvals v.distinct_approvals;
        same_ids = λ i.
            ground (
              arith,
              v.same_ids i,
              get-delete id i s.pending_approvals,
              get-delete id i s.approvals,
            );
        counted = refl;
        type_counts = λ o t. ground (
          arith,
          v.type_counts o t,
          type_count-released a.origin a.type n m (without_callbacks id s) o t e f pos,
          count-delete (has_both o t) id a s.pending_approvals v.distinct_pending,
        );
        origin_counts = λ o. ground (
          arith,
          v.origin_counts o,
          origin_count-released a.origin a.type n m (without_callbacks id s) o e f pos,
          count-delete (has_origin o) id a s.pending_approvals v.distinct_pending,
        );
        no_stale_origin = λ o m' g. ground (
          arith,
          v.no_stale_origin o m',
          get-set a.origin o (Assoc.set a.type (n - 1) m) s.origins,
          get-delete a.origin o s.origins,
          sum-set a.type (n - 1) m,
          get-le-sum a.type m,
          v.no_stale_origin a.origin m e,
        );
        named_origin =
            λ i b g. ground (arith, v.named_origin i b, get-delete id i s.pending_approvals);
      }

  pub deleted-approvals : deleted.approvals ≡ Assoc.delete id s.approvals
  unfolding deleted
  deleted-approvals = refl

  pub deleted-pending : deleted.pending_approvals ≡ Assoc.delete id s.pending_approvals
  unfolding deleted
  deleted-pending = refl

  pub deleted-settled : deleted.settled ≡ s.settled
  unfolding deleted
  deleted-settled = refl

  pub deleted-rest : SameRest s deleted
  unfolding deleted
  deleted-rest = record { flows = refl; excluded = refl; next = refl; shown = refl }
