-- ===== src/Approval/Settling.antt =====
-- `#deleteApprovalAndGetCallbacks`, `accept`, `reject` and `clear` of ApprovalController.ts.
use fork_metamask_core.Common.{
  ℕ, ◌≡◌, refl, ap, ◌∙◌, subst, String, Bool, true, false, not, ◌&&◌, none, some, List, [], ◌∷◌,
  arith, inl, inr, string_eq, beq_refl, Option-cases, Bool-cases,
}
use fork_metamask_core.Common.Assoc.{Assoc, Distinct, values, keys, get-delete, delete_absent}
use fork_metamask_core.Common.Assoc
use fork_metamask_core.Common.Monad.{ok, err}
use fork_metamask_core.Common.Js.{Value}
use fork_metamask_core.Approval.State.{State, ApprovalRequest, Settlement, not_found, rejected}
use fork_metamask_core.Approval.Queries.{get_request, type_count, origin_count}
use fork_metamask_core.Approval.Requests.{
  delete_approval_and_get_callbacks, settle, reject, reject_all, clear, accept, resolution,
}
use fork_metamask_core.Approval.Invariant.{IsValid}
use fork_metamask_core.Approval.Deletion.{
  SameRest, deleted, delete_request_lem, deleted-IsValid, deleted-approvals, deleted-settled,
  deleted-rest,
}

module _ (id : String) (s : State) (v : IsValid s) where
  -- A request with callbacks is pending.
  pub pending_of_approval :
      (p : ℕ)
      → Assoc.get id s.approvals ≡ some p
      → (a : ApprovalRequest) × (Assoc.get id s.pending_approvals ≡ some a)
  pending_of_approval p e = elim (Option-cases (Assoc.get id s.pending_approvals)) [
    | inl f ↦ absurd (ground (arith, v.same_ids id))
    | inr g ↦ g
  ]

  -- A pending request has callbacks.
  pub approval_of_pending :
      (a : ApprovalRequest)
      → Assoc.get id s.pending_approvals ≡ some a
      → (p : ℕ) × (Assoc.get id s.approvals ≡ some p)
  approval_of_pending a e = elim (Option-cases (Assoc.get id s.approvals)) [
    | inl f ↦ absurd (ground (arith, v.same_ids id))
    | inr g ↦ g
  ]

  pub callbacks_missing :
      Assoc.get id s.approvals ≡ none
      → delete_approval_and_get_callbacks id s ≡ (err (not_found id), s)
  unfolding delete_approval_and_get_callbacks
  callbacks_missing e = ground (arith, e)

  pub callbacks_found :
      (p : ℕ) (a : ApprovalRequest) (g : Assoc.get id s.pending_approvals ≡ some a)
      → Assoc.get id s.approvals ≡ some p
      → delete_approval_and_get_callbacks id s ≡ (ok p, deleted id a s v g)
  unfolding delete_approval_and_get_callbacks
  callbacks_found p a g e = ground (arith, e, delete_request_lem id a s v g)

-- A request that is rejected is deleted, and its promise gets the error.
pub reject_found :
    (id : String) (error : Value) (s : State) (v : IsValid s) (p : ℕ) (a : ApprovalRequest)
    (g : Assoc.get id s.pending_approvals ≡ some a)
    → Assoc.get id s.approvals ≡ some p
    → reject id error s ≡ (ok tt, settle p (rejected error) (deleted id a s v g))
unfolding reject
reject_found id error s v p a g e = ground (arith, callbacks_found id s v p a g e)

pub settle-IsValid : (p : ℕ) (o : Settlement) (s : State) → IsValid s → IsValid (settle p o s)
unfolding type_count origin_count
settle-IsValid p o s v = record {
  distinct_pending = v.distinct_pending;
  distinct_approvals = v.distinct_approvals;
  same_ids = v.same_ids;
  counted = v.counted;
  type_counts = v.type_counts;
  origin_counts = v.origin_counts;
  no_stale_origin = v.no_stale_origin;
  named_origin = v.named_origin;
}

-- The log after every promise of a table is rejected.
abbrev pub rejections : Assoc String ℕ → Value → List (ℕ × Settlement) → List (ℕ × Settlement)
rejections [] error l = l
rejections ((k, p) ∷ m) error l = rejections m error ((p, rejected error) ∷ l)

pub record AllRejected (m : Assoc String ℕ) (error : Value) (s t : State) : Type 0 where
  pub empty : t.approvals ≡ []
  pub log : t.settled ≡ rejections m error s.settled
  pub rest : SameRest s t

pub reject_all_lem :
    (m : Assoc String ℕ) (error : Value) (s : State)
    → IsValid s
    → s.approvals ≡ m
    → (t : State) × (reject_all (keys m) error s ≡ (ok tt, t)) × AllRejected m error s t
unfolding reject_all Assoc.get Assoc.delete
reject_all_lem [] error s v e = (
  s,
  refl,
  record {
    empty = e;
    log = refl;
    rest = record { flows = refl; excluded = refl; next = refl; shown = refl };
  },
)
reject_all_lem ((k, p) ∷ m) error s v e =
    let found : Assoc.get k s.approvals ≡ some p = ground (arith, e, beq_refl k) in
    let unique : Assoc.get k m ≡ none = (subst Distinct e v.distinct_approvals).0 in
    let (a, g) = pending_of_approval k s v p found in
    let t = deleted k a s v g in
    let shorter : t.approvals ≡ m =
      ground (arith, e, beq_refl k, delete_absent k m unique, deleted-approvals k a s v g) in
    let s' = settle p (rejected error) t in
    let v' = settle-IsValid p (rejected error) t (deleted-IsValid k a s v g) in
    let (u, run, all) = reject_all_lem m error s' v' shorter in
    (
      u,
      ground (arith, reject_found k error s v p a g found, run),
      record {
        empty = all.empty;
        log =
            all.log
            ∙ ap (λ l. rejections m error ((p, rejected error) ∷ l)) (deleted-settled k a s v g);
        rest = record {
          flows = all.rest.flows ∙ (deleted-rest k a s v g).flows;
          excluded = all.rest.excluded ∙ (deleted-rest k a s v g).excluded;
          next = all.rest.next ∙ (deleted-rest k a s v g).next;
          shown = all.rest.shown ∙ (deleted-rest k a s v g).shown;
        };
      },
    )

-- The state after `clear`.
abbrev pub cleared : Value → State → State
cleared error s = record s {
  pending_approvals = [];
  pending_approval_count = 0;
  approvals = [];
  origins = [];
  settled = rejections s.approvals error s.settled;
}

-- `clear` never throws: it rejects every approval promise, in the order of the requests, and leaves
-- no request.
pub clear_lem : (error : Value) (s : State) → IsValid s → clear error s ≡ (ok tt, cleared error s)
unfolding clear
clear_lem error s v =
    let (t, run, all) = reject_all_lem s.approvals error s v refl in ground (arith, run, all)

module _ {ℓ} (P : State → Type ℓ) (id : String) (s : State) (v : IsValid s) (same : P s) where
  -- A proof rule for `reject`.
  pub reject_cases :
      (error : Value)
      → ((p : ℕ) (a : ApprovalRequest) (g : Assoc.get id s.pending_approvals ≡ some a)
          → Assoc.get id s.approvals ≡ some p
          → P (settle p (rejected error) (deleted id a s v g)))
      → P (reject id error s).1
  unfolding reject
  reject_cases error found = elim (Option-cases (Assoc.get id s.approvals)) [
    | inl e ↦ rw (callbacks_missing id s v e, reject) same
    | inr (p, e) ↦
        let (a, g) = pending_of_approval id s v p e in
        rw (callbacks_found id s v p a g e, reject) (found p a g e)
  ]

  -- A proof rule for `accept`.
  pub accept_cases :
      (value : Value) (wait : Bool)
      → ((p : ℕ) (a : ApprovalRequest) (g : Assoc.get id s.pending_approvals ≡ some a)
          → Assoc.get id s.approvals ≡ some p
          → wait && not a.expects_result ≡ false
          → P (settle p (resolution a.expects_result wait value) (deleted id a s v g)))
      → ((p : ℕ) (a : ApprovalRequest) (g : Assoc.get id s.pending_approvals ≡ some a)
          → Assoc.get id s.approvals ≡ some p
          → wait && not a.expects_result ≡ true
          → P (deleted id a s v g))
      → P (accept id value wait s).1
  unfolding accept get_request
  accept_cases value wait found dropped = elim (Option-cases (Assoc.get id s.approvals)) [
    | inl e ↦ rw (callbacks_missing id s v e, accept) same
    | inr (p, e) ↦
        let (a, g) = pending_of_approval id s v p e in
        rw (callbacks_found id s v p a g e, g, accept)
          (elim (Bool-cases (wait && not a.expects_result)) [
            | inl h ↦ rw h (dropped p a g e h)
            | inr h ↦ rw h (found p a g e h)
          ])
  ]
