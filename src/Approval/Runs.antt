-- ===== src/Approval/Runs.antt =====
-- Sequences of calls of ApprovalController.ts, and its invariant along them.
use fork_metamask_core.Common.{
  ℕ, ◌≡◌, refl, String, Bool, true, some, List, [], ◌∷◌, arith, inl, inr, All, ◌&&◌, sym, ap, subst,
  Option-cases, string_eq, ◌∙◌,
}
use fork_metamask_core.Common.Assoc
use fork_metamask_core.Common.Assoc.{set-Distinct, get-set, length-set_present, count-set_present}
use text.Mathlib.TextEquality.{eq_iff}
use fork_metamask_core.Common.Monad.{Result, ok, err}
use fork_metamask_core.Common.Js.{Value}
use fork_metamask_core.Approval.State.{State, ApprovalRequest, ApprovalFlow, Settlement, Error}
use fork_metamask_core.Approval.Queries.{type_count, origin_count, get_request, has_origin}
use fork_metamask_core.Approval.Counts.{has_both}
use fork_metamask_core.Approval.Requests.{
  AddOptions, id_of, request_of, register, add, add_and_show_approval_request, update_request_state,
  settle,
}
use fork_metamask_core.Approval.Calls.{
  Call, adds, shows, accepts, rejects, updates, clears, starts, ends, sets_text, opens_page,
  leaves_page, step, run,
}
use fork_metamask_core.Approval.Flows.{
  with_flows, start_flow-frame, end_flow-frame, set_flow_loading_text-frame, finish_result-frame,
  begin_result, page_options, caught,
}
use fork_metamask_core.Approval.Invariant.{IsValid, register-IsValid}
use fork_metamask_core.Approval.Adding.{Admitted, add_outcomes}
use fork_metamask_core.Approval.Deletion.{deleted, deleted-IsValid}
use fork_metamask_core.Approval.Settling.{
  clear_lem, accept_cases, reject_cases, settle-IsValid, cleared,
}

with_flows-IsValid :
    (flows : List ApprovalFlow) (n : ℕ) (s : State) → IsValid s → IsValid (with_flows flows n s)
unfolding type_count origin_count
with_flows-IsValid flows n s v = record {
  distinct_pending = v.distinct_pending;
  distinct_approvals = v.distinct_approvals;
  same_ids = v.same_ids;
  counted = v.counted;
  type_counts = v.type_counts;
  origin_counts = v.origin_counts;
  no_stale_origin = v.no_stale_origin;
  named_origin = v.named_origin;
}

cleared-IsValid : (error : Value) (s : State) → IsValid (cleared error s)
unfolding type_count origin_count Assoc.get
cleared-IsValid error s = record {
  distinct_pending = tt;
  distinct_approvals = tt;
  same_ids = λ i. refl;
  counted = refl;
  type_counts = λ o t. refl;
  origin_counts = λ o. refl;
  no_stale_origin = λ o m e. absurd (ground arith);
  named_origin = λ i a e. absurd (ground arith);
}

-- The state after `updateRequestState`.
abbrev pub updated : String → ApprovalRequest → Value → State → State
updated id a request_state s = record s {
  pending_approvals = Assoc.set id (record a { request_state = request_state }) s.pending_approvals;
}

-- What a predicate of valid states needs for every allowed call to keep it.
pub record Kept {ℓ κ} (Allowed : Call → Type κ) (P : State → Type ℓ) : Type (ℓ ⊔ κ) where
  pub registered :
      (o : AddOptions) (s : State)
      → IsValid s
      → Admitted o s
      → P s
      → P (register (request_of o (id_of o)) s)
  pub settled :
      (id : String) (p : ℕ) (outcome : Settlement) (s : State) (v : IsValid s) (a : ApprovalRequest)
      (g : Assoc.get id s.pending_approvals ≡ some a)
      → Assoc.get id s.approvals ≡ some p
      → P s
      → P (settle p outcome (deleted id a s v g))
  pub dropped :
      (id : String) (value : Value) (p : ℕ) (s : State) (v : IsValid s) (a : ApprovalRequest)
      (g : Assoc.get id s.pending_approvals ≡ some a)
      → Allowed (accepts id value true)
      → Assoc.get id s.approvals ≡ some p
      → P s
      → P (deleted id a s v g)
  pub updates :
      (id : String) (a : ApprovalRequest) (r : Value) (s : State)
      → IsValid s
      → Assoc.get id s.pending_approvals ≡ some a
      → P s
      → P (updated id a r s)
  pub clears : (error : Value) (s : State) → IsValid s → P s → P (cleared error s)
  pub flows : (f : List ApprovalFlow) (n : ℕ) (s : State) → P s → P (with_flows f n s)

updated-IsValid :
    (id : String) (a : ApprovalRequest) (r : Value) (s : State)
    → IsValid s
    → Assoc.get id s.pending_approvals ≡ some a
    → IsValid (updated id a r s)
unfolding type_count origin_count
updated-IsValid id a r s v e =
    let b = record a { request_state = r } in
    record {
      distinct_pending = set-Distinct id b s.pending_approvals v.distinct_pending;
      distinct_approvals = v.distinct_approvals;
      same_ids =
          λ i. ground (arith, v.same_ids i, e, get-set id i b s.pending_approvals, eq_iff id i);
      counted = v.counted ∙ sym (length-set_present id a b s.pending_approvals e);
      type_counts = λ o t.
          v.type_counts o t
          ∙ sym (count-set_present (has_both o t) id a b s.pending_approvals e refl);
      origin_counts = λ o.
          v.origin_counts o
          ∙ sym (count-set_present (has_origin o) id a b s.pending_approvals e refl);
      no_stale_origin = v.no_stale_origin;
      named_origin = λ i c f.
          ground (
            arith,
            v.named_origin i c,
            v.named_origin id a e,
            f,
            get-set id i b s.pending_approvals,
          );
    }

caught_state : (r : Result Error ℕ × State) → (caught r).1 ≡ r.1
caught_state (ok p, s) = refl
caught_state (err e, s) = refl

and_left : (a b : Bool) → a && b ≡ true → a ≡ true
and_left a b h = ground arith

module _ {ℓ κ} {Allowed : Call → Type κ} {P : State → Type ℓ} (k : Kept Allowed P) where
  add_keeps : (o : AddOptions) (s : State) → IsValid s → P s → P (add o s).1
  add_keeps o s v h = elim (add_outcomes o s) [
    | inl (e, r) ↦ rw r h
    | inr (w, r) ↦ rw r (k.registered o s v w h)
  ]

  shows_keeps :
      (o : AddOptions) (s : State) → IsValid s → P s → P (add_and_show_approval_request o s).1
  unfolding add_and_show_approval_request
  shows_keeps o s v h = elim (add_outcomes o s) [
    | inl (e, r) ↦ rw (r, add_and_show_approval_request) h
    | inr (w, r) ↦
        rw (r, add_and_show_approval_request)
          (k.flows _ _ (register (request_of o (id_of o)) s) (k.registered o s v w h))
  ]

  pages_keeps :
      (type : String) (page : Value) (now : ℕ) (fresh : String) (s : State)
      → IsValid s
      → P s
      → P (begin_result type page now fresh s).1
  unfolding begin_result
  pages_keeps type page now fresh s v h =
      let o = page_options type page now fresh in
      subst P (sym (caught_state (add_and_show_approval_request o s))) (shows_keeps o s v h)

  updates_keeps :
      (id : String) (r : Value) (s : State) → IsValid s → P s → P (update_request_state id r s).1
  unfolding update_request_state get_request
  updates_keeps id r s v h = elim (Option-cases (Assoc.get id s.pending_approvals)) [
    | inl e ↦ rw (e, update_request_state) h
    | inr (a, e) ↦ rw (e, update_request_state) (k.updates id a r s v e h)
  ]

  -- Every allowed call in a valid state keeps such a predicate.
  pub step_keeps : (s : State) (c : Call) → Allowed c → IsValid s → P s → P (step s c)
  unfolding step
  step_keeps s (adds o) w v h = add_keeps o s v h
  step_keeps s (shows o) w v h = shows_keeps o s v h
  step_keeps s (accepts id value wait) w v h =
      accept_cases P id s v h value wait (λ p a g e _. k.settled id p _ s v a g e h)
        λ p a g e u.
          k.dropped id value p s v a g
            (subst (λ b. Allowed (accepts id value b)) (and_left wait _ u) w) e h
  step_keeps s (rejects id error) w v h =
      reject_cases P id s v h error (λ p a g e. k.settled id p _ s v a g e h)
  step_keeps s (updates id r) w v h = updates_keeps id r s v h
  step_keeps s (clears error) w v h =
      subst P (sym (ap (λ r. r.1) (clear_lem error s v))) (k.clears error s v h)
  step_keeps s (starts id loading shown fresh) w v h =
      subst P (sym (start_flow-frame id loading shown fresh s)) (k.flows _ _ s h)
  step_keeps s (ends id) w v h = subst P (sym (end_flow-frame id s)) (k.flows _ _ s h)
  step_keeps s (sets_text id loading) w v h =
      subst P (sym (set_flow_loading_text-frame id loading s)) (k.flows _ _ s h)
  step_keeps s (opens_page type page now fresh) w v h = pages_keeps type page now fresh s v h
  step_keeps s (leaves_page flow) w v h =
      subst P (sym (finish_result-frame flow s)) (k.flows _ _ s h)

-- Every call keeps the invariant.
Kept-IsValid : Kept (λ _. Unit {0}) IsValid
Kept-IsValid = record {
  registered = λ o s v w h. register-IsValid (request_of o (id_of o)) s h w.new_id w.named_origin;
  settled = λ id p outcome s v a g e h. settle-IsValid p outcome _ (deleted-IsValid id a s v g);
  dropped = λ id value p s v a g w e h. deleted-IsValid id a s v g;
  updates = λ id a r s v e h. updated-IsValid id a r s v e;
  clears = λ error s v h. cleared-IsValid error s;
  flows = λ f n s h. with_flows-IsValid f n s h;
}

pub step-IsValid : (s : State) (c : Call) → IsValid s → IsValid (step s c)
step-IsValid s c v = step_keeps Kept-IsValid s c tt v v

-- In a valid state any calls lead to a valid state.
pub run-IsValid : (s : State) (cs : List Call) → IsValid s → IsValid (run s cs)
unfolding run
run-IsValid s [] v = v
run-IsValid s (c ∷ cs) v = run-IsValid (step s c) cs (step-IsValid s c v)

pub run_keeps {ℓ κ} :
    {Allowed : Call → Type κ} {P : State → Type ℓ}
    → Kept Allowed P
    → (s : State) (cs : List Call) → All Allowed cs
    → IsValid s
    → P s
    → P (run s cs)
unfolding run
run_keeps k s [] w v h = h
run_keeps k s (c ∷ cs) w v h =
    run_keeps k (step s c) cs w.1 (step-IsValid s c v) (step_keeps k s c w.0 v h)

pub All-Unit {ℓ} : {A : Type ℓ} (xs : List A) → All (λ _. Unit {0}) xs
All-Unit [] = tt
All-Unit (x ∷ xs) = (tt, All-Unit xs)
