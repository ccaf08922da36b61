-- ===== src/Approval/Promises.antt =====
-- The promises of ApprovalController.ts: none is settled twice, and none is lost.
use fork_metamask_core.Common.{
  All, ℕ, ◌+◌, ◌≤◌, ◌≡◌, ap, ◌∙◌, String, Bool, false, List, [], ◌∷◌, some, arith, eqb, ltb, count,
  bit, string_eq,
}
use fork_metamask_core.Common.Assoc.{Assoc, values, count-set_absent, count-delete}
use fork_metamask_core.Common.Assoc
use fork_metamask_core.Common.Js.{Value}
use fork_metamask_core.Approval.State.{State, ApprovalRequest, Settlement, init}
use fork_metamask_core.Approval.Requests.{AddOptions, id_of, request_of, register, settle}
use fork_metamask_core.Approval.Calls.{Call, accepts, clears, step, run}
use fork_metamask_core.Approval.Invariant.{IsValid, init-IsValid}
use fork_metamask_core.Approval.Adding.{Admitted}
use fork_metamask_core.Approval.Deletion.{deleted, deleted-approvals, deleted-settled, deleted-rest}
use fork_metamask_core.Approval.Settling.{rejections, cleared, clear_lem}
use fork_metamask_core.Approval.Runs.{Kept, run_keeps, All-Unit, run-IsValid}

-- How often a promise waits in `#approvals`, and how often one of its callbacks was called.
abbrev pub waits : ℕ → State → ℕ
waits p s = count (eqb p) (values s.approvals)

abbrev pub settlements : ℕ → State → ℕ
settlements p s = count (λ e. eqb p e.0) s.settled

count-rejections :
    (p : ℕ) (m : Assoc String ℕ) (error : Value) (l : List (ℕ × Settlement))
    → count (λ e. eqb p e.0) (rejections m error l)
      ≡ count (eqb p) (values m) + count (λ e. eqb p e.0) l
count-rejections p [] error l = omega arith
count-rejections p ((k, q) ∷ m) error l = omega (arith, count-rejections p m error ((q, _) ∷ l))

-- Each promise that was made, and no other, stands in one of the two places, and once.
abbrev pub IsConserved : State → Type 0
IsConserved s = (p : ℕ) → waits p s + settlements p s ≡ bit (ltb p s.next_promise)

abbrev pub IsSettledOnce : State → Type 0
IsSettledOnce s = (p : ℕ) → waits p s + settlements p s ≤ bit (ltb p s.next_promise)

module _ (p : ℕ) where
  abbrev places : State → ℕ
  places s = waits p s + settlements p s

  places-register :
      (o : AddOptions) (s : State)
      → Admitted o s
      → places (register (request_of o (id_of o)) s) ≡ places s + bit (eqb p s.next_promise)
  unfolding register
  places-register o s w =
      omega (arith, count-set_absent (eqb p) (id_of o) s.next_promise s.approvals w.new_id)

  module _ (id : String) (q : ℕ) (s : State) (v : IsValid s) (a : ApprovalRequest)
      (g : Assoc.get id s.pending_approvals ≡ some a) (e : Assoc.get id s.approvals ≡ some q) where
    places-deleted : places (deleted id a s v g) + bit (eqb p q) ≡ places s
    places-deleted =
        rw (deleted-approvals id a s v g, deleted-settled id a s v g)
          (omega (arith, count-delete (eqb p) id q s.approvals v.distinct_approvals e))

    places-settled :
        (outcome : Settlement) → places (settle q outcome (deleted id a s v g)) ≡ places s
    places-settled outcome = omega (arith, places-deleted)

    next-deleted : (deleted id a s v g).next_promise ≡ s.next_promise
    next-deleted = (deleted-rest id a s v g).next

  places-cleared : (error : Value) (s : State) → places (cleared error s) ≡ places s
  places-cleared error s = omega (arith, count-rejections p s.approvals error s.settled)

-- `accept` with `waitForResult`.
abbrev pub waits_for_result : Call → Bool
waits_for_result (accepts id value wait) = wait
waits_for_result _ = false

Kept-IsConserved : Kept (λ c. waits_for_result c ≡ false) IsConserved
unfolding register
Kept-IsConserved = record {
  registered = λ o s v w h p. ground (arith, h p, places-register p o s w);
  settled = λ id q outcome s v a g e h p.
      rw (next-deleted p id q s v a g e) (places-settled p id q s v a g e outcome ∙ h p);
  dropped = λ id value q s v a g w e h p. absurd (ground (arith, w));
  updates = λ id a r s v e h. h;
  clears = λ error s v h p. places-cleared p error s ∙ h p;
  flows = λ f n s h. h;
}

Kept-IsSettledOnce : Kept (λ _. Unit {0}) IsSettledOnce
unfolding register
Kept-IsSettledOnce = record {
  registered = λ o s v w h p. ground (arith, h p, places-register p o s w);
  settled = λ id q outcome s v a g e h p.
      rw (next-deleted p id q s v a g e)
        (omega (arith, places-settled p id q s v a g e outcome, h p));
  dropped = λ id value q s v a g w e h p.
      rw (next-deleted p id q s v a g e) (omega (arith, places-deleted p id q s v a g e, h p));
  updates = λ id a r s v e h. h;
  clears = λ error s v h p. omega (arith, places-cleared p error s, h p);
  flows = λ f n s h. h;
}

-- From the start and after any calls, each promise has at most one place: a callback is called at
-- most once, never for a promise that still waits, and never for one that was not made.
pub settlements-run :
    (excluded : List String) (cs : List Call) (p : ℕ)
    → let s = run (init excluded) cs in waits p s + settlements p s ≤ bit (ltb p s.next_promise)
settlements-run excluded cs =
    run_keeps Kept-IsSettledOnce (init excluded) cs (All-Unit cs) (init-IsValid excluded)
      (λ p. omega arith)

init-IsConserved : (excluded : List String) → IsConserved (init excluded)
init-IsConserved excluded p = ground arith

pub run-IsConserved :
    (excluded : List String) (cs : List Call)
    → All (λ c. waits_for_result c ≡ false) cs
    → IsConserved (run (init excluded) cs)
run-IsConserved excluded cs w =
    run_keeps Kept-IsConserved (init excluded) cs w (init-IsValid excluded)
      (init-IsConserved excluded)

-- Where no call of `accept` waits for a result, no promise is lost: after any calls and a `clear`,
-- the callbacks of each promise that was made were called exactly once, and those of no other.
pub clear-settles_each :
    (excluded : List String) (cs : List Call) (error : Value) (p : ℕ)
    → All (λ c. waits_for_result c ≡ false) cs
    → let s = run (init excluded) cs in
      settlements p (step s (clears error)) ≡ bit (ltb p s.next_promise)
unfolding step
clear-settles_each excluded cs error p w =
    let s = run (init excluded) cs in
    let v = run-IsValid (init excluded) cs (init-IsValid excluded) in
    ap (λ r. settlements p r.1) (clear_lem error s v)
    ∙ omega (arith, run-IsConserved excluded cs w p, count-rejections p s.approvals error s.settled)
