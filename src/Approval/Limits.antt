-- ===== src/Approval/Limits.antt =====
-- The rate limit of `add` in ApprovalController.ts.
use fork_metamask_core.Common.{
  ℕ, ◌≤◌, ◌≡◌, refl, String, false, List, some, arith, count, string_eq,
}
use text.Mathlib.TextEquality.{eq_iff}
use fork_metamask_core.Common.Assoc.{values, count-set_absent, count-delete, count-set_present}
use fork_metamask_core.Common.Assoc
use fork_metamask_core.Approval.State.{State, ApprovalRequest, init}
use fork_metamask_core.Approval.Requests.{AddOptions, id_of, request_of, register}
use fork_metamask_core.Approval.Calls.{Call, run}
use fork_metamask_core.Approval.Counts.{has_both}
use fork_metamask_core.Approval.Invariant.{IsValid, init-IsValid, not_pending}
use fork_metamask_core.Approval.Adding.{Admitted, is_excluded}
use fork_metamask_core.Approval.Deletion.{deleted, deleted-pending, deleted-rest}
use fork_metamask_core.Approval.Runs.{Kept, run_keeps, All-Unit}

-- How many requests of a type from an origin are pending.
abbrev pub pending_count : String → String → State → ℕ
pending_count o t s = count (has_both o t) (values s.pending_approvals)

abbrev pub IsLimited : State → Type 0
IsLimited s = (o t : String) → is_excluded t s ≡ false → pending_count o t s ≤ 1

registered-IsLimited :
    (op : AddOptions) (s : State)
    → IsValid s
    → Admitted op s
    → IsLimited s
    → IsLimited (register (request_of op (id_of op)) s)
unfolding register
registered-IsLimited op s v w h o t x =
    let a = request_of op (id_of op) in
    ground (
      arith,
      h o t,
      w.within_limit,
      v.type_counts a.origin a.type,
      eq_iff a.origin o,
      eq_iff a.type t,
      count-set_absent (has_both o t) (id_of op) a s.pending_approvals (not_pending a s v w.new_id),
    )

deleted-IsLimited :
    (id : String) (s : State) (v : IsValid s) (a : ApprovalRequest)
    (g : Assoc.get id s.pending_approvals ≡ some a)
    → IsLimited s
    → IsLimited (deleted id a s v g)
deleted-IsLimited id s v a g h o t =
    rw (deleted-pending id a s v g, (deleted-rest id a s v g).excluded)
      λ x.
        omega (
          arith,
          h o t x,
          count-delete (has_both o t) id a s.pending_approvals v.distinct_pending g,
        )

Kept-IsLimited : Kept (λ _. Unit {0}) IsLimited
Kept-IsLimited = record {
  registered = registered-IsLimited;
  settled = λ id p outcome s v a g e h. deleted-IsLimited id s v a g h;
  dropped = λ id value p s v a g w e h. deleted-IsLimited id s v a g h;
  updates = λ id a r s v e h o t x.
      rw
        (count-set_present (has_both o t) id a (record a { request_state = r }) s.pending_approvals
          e refl)
        (h o t x);
  clears = λ error s v h o t x. omega arith;
  flows = λ f n s h. h;
}

-- From the start and after any calls, at most one request is pending for an origin and a type, but
-- for the types that are excluded from the limit.
pub pending_count-run :
    (excluded : List String) (cs : List Call) (o t : String)
    → is_excluded t (run (init excluded) cs) ≡ false
    → pending_count o t (run (init excluded) cs) ≤ 1
pending_count-run excluded cs =
    run_keeps Kept-IsLimited (init excluded) cs (All-Unit cs) (init-IsValid excluded)
      (λ o t x. omega arith)
