-- ===== src/Approval/Invariant.antt =====
-- The invariant of ApprovalController.ts: its three tables of requests describe the same requests.
use fork_metamask_core.Common.{
  ℕ, suc, ◌+◌, ◌≤◌, ◌≡◌, refl, String, false, none, some, List, [], arith, get_or, count, length,
  ◌==◌, string_eq,
}
use fork_metamask_core.Common.Assoc.{
  Assoc, Distinct, values, get-set, get-delete, set-Distinct, delete-Distinct, count-set_absent,
  count-delete, length-set_absent,
}
use fork_metamask_core.Common.Assoc
use fork_metamask_core.Approval.State.{State, ApprovalRequest, init}
use fork_metamask_core.Approval.Queries.{sum, type_count, origin_count, has_origin}
use fork_metamask_core.Approval.Requests.{register}
use fork_metamask_core.Approval.Counts.{
  has_both, sum-set, get-le-sum, type_count-add, origin_count-add,
}

-- `pendingApprovals`, `#approvals` and `#origins` agree, and the count in the state is right.
pub record IsValid (s : State) : Type 0 where
  pub distinct_pending : Distinct s.pending_approvals
  pub distinct_approvals : Distinct s.approvals
  pub same_ids : (i : String) → Assoc.has i s.approvals ≡ Assoc.has i s.pending_approvals
  pub counted : s.pending_approval_count ≡ length s.pending_approvals
  pub type_counts :
      (o t : String) → type_count s o t ≡ count (has_both o t) (values s.pending_approvals)
  pub origin_counts :
      (o : String) → origin_count s o ≡ count (has_origin o) (values s.pending_approvals)
  pub no_stale_origin :
      (o : String) (m : Assoc String ℕ) → Assoc.get o s.origins ≡ some m → 1 ≤ sum (values m)
  pub named_origin :
      (i : String) (a : ApprovalRequest)
      → Assoc.get i s.pending_approvals ≡ some a
      → (a.origin == "") ≡ false

pub init-IsValid : (excluded : List String) → IsValid (init excluded)
unfolding type_count origin_count Assoc.get
init-IsValid excluded = record {
  distinct_pending = tt;
  distinct_approvals = tt;
  same_ids = λ i. refl;
  counted = refl;
  type_counts = λ o t. refl;
  origin_counts = λ o. refl;
  no_stale_origin = λ o m e. absurd (ground arith);
  named_origin = λ i a e. absurd (ground arith);
}

module _ (a : ApprovalRequest) (s : State) (v : IsValid s)
    (new : Assoc.get a.id s.approvals ≡ none) where
  pub not_pending : Assoc.get a.id s.pending_approvals ≡ none
  not_pending = ground (arith, v.same_ids a.id)

  -- The state with the callbacks set: `#origins` is as it was.
  abbrev with_callbacks : State
  with_callbacks = record s {
    approvals = Assoc.set a.id s.next_promise s.approvals;
    next_promise = suc s.next_promise;
  }

  register-type_counts :
      (o t : String)
      → type_count (register a s) o t
        ≡ count (has_both o t) (values (register a s).pending_approvals)
  unfolding register type_count
  register-type_counts o t = ground (
    arith,
    v.type_counts o t,
    type_count-add a.origin a.type with_callbacks o t,
    count-set_absent (has_both o t) a.id a s.pending_approvals not_pending,
  )

  register-origin_counts :
      (o : String)
      → origin_count (register a s) o
        ≡ count (has_origin o) (values (register a s).pending_approvals)
  unfolding register origin_count
  register-origin_counts o = ground (
    arith,
    v.origin_counts o,
    origin_count-add a.origin a.type with_callbacks o,
    count-set_absent (has_origin o) a.id a s.pending_approvals not_pending,
  )

  register-no_stale_origin :
      (o : String) (m : Assoc String ℕ)
      → Assoc.get o (register a s).origins ≡ some m
      → 1 ≤ sum (values m)
  unfolding register
  register-no_stale_origin o m e =
      let old = get_or (Assoc.get a.origin s.origins) [] in
      let n = get_or (Assoc.get a.type old) 0 + 1 in
      ground (
        arith,
        v.no_stale_origin o m,
        get-set a.origin o (Assoc.set a.type n old) s.origins,
        sum-set a.type n old,
        get-le-sum a.type old,
      )

  pub register-IsValid : (a.origin == "") ≡ false → IsValid (register a s)
  unfolding register
  register-IsValid named = record {
    distinct_pending = set-Distinct a.id a s.pending_approvals v.distinct_pending;
    distinct_approvals = set-Distinct a.id s.next_promise s.approvals v.distinct_approvals;
    same_ids = λ i. ground (
      arith,
      v.same_ids i,
      get-set a.id i a s.pending_approvals,
      get-set a.id i s.next_promise s.approvals,
    );
    counted = refl;
    type_counts = register-type_counts;
    origin_counts = register-origin_counts;
    no_stale_origin = register-no_stale_origin;
    named_origin =
        λ i b e. ground (arith, v.named_origin i b, get-set a.id i a s.pending_approvals);
  }
