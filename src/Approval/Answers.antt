-- ===== src/Approval/Answers.antt =====
-- `has` and `getApprovalCount` of ApprovalController.ts answer from `#origins` and `#approvals`; here
-- their answers are read off the pending requests.
use fork_metamask_core.Common.{
  ℕ, ◌≡◌, refl, ◌∙◌, String, Bool, true, false, not, ◌&&◌, ◌||◌, List, [], ◌∷◌, arith, inl, inr,
  if◌then◌else◌, eqb, any, count, ◌==◌, string_eq, Option-cases,
}
use fork_metamask_core.Common.Assoc.{values}
use fork_metamask_core.Common.Assoc
use fork_metamask_core.Common.Monad.{ok, err}
use fork_metamask_core.Common.Js.{str}
use fork_metamask_core.Approval.State.{State, ApprovalRequest, must_specify, invalid_combination}
use fork_metamask_core.Approval.Queries.{
  type_count, origin_count, has_type, has_origin, get_approval_count, has_request,
}
use fork_metamask_core.Approval.Counts.{has_both}
use fork_metamask_core.Approval.Invariant.{IsValid}

-- An option that is the empty text asks for nothing.
abbrev pub matches : String → String → ApprovalRequest → Bool
matches o t a = (o == "" || a.origin == o) && (t == "" || a.type == t)

count_ext {ℓ} :
    {A : Type ℓ} (p q : A → Bool) (xs : List A) → ((x : A) → p x ≡ q x) → count p xs ≡ count q xs
count_ext p q [] h = refl
count_ext p q (x ∷ xs) h = ground (arith, h x, count_ext p q xs h)

any-count {ℓ} : {A : Type ℓ} (p : A → Bool) (xs : List A) → any p xs ≡ not (eqb (count p xs) 0)
any-count p [] = refl
any-count p (x ∷ xs) = ground (arith, any-count p xs)

module _ (s : State) (v : IsValid s) where
  abbrev pub found : String → String → ℕ
  found o t = count (matches o t) (values s.pending_approvals)

  has_origin-found :
      (o : String) → (o == "") ≡ false → Assoc.has o s.origins ≡ not (eqb (found o "") 0)
  unfolding origin_count Assoc.get
  has_origin-found o h = elim (Option-cases (Assoc.get o s.origins)) [
    | inl e ↦ ground (arith, e, v.origin_counts o, same)
    | inr (m, e) ↦ ground (arith, e, v.origin_counts o, v.no_stale_origin o m e, same)
  ]
    where
      same : found o "" ≡ count (has_origin o) (values s.pending_approvals)
      same =
          count_ext (matches o "") (has_origin o) (values s.pending_approvals)
            (λ a. ground (arith, h))

  module _ (o t : String) where
    both_count : (o == "") ≡ false → (t == "") ≡ false → type_count s o t ≡ found o t
    both_count h k =
        v.type_counts o t
        ∙ count_ext (has_both o t) (matches o t) (values s.pending_approvals)
            (λ a. ground (arith, h, k))

    type_count_only :
        (o == "") ≡ true
        → (t == "") ≡ false
        → count (has_type t) (values s.pending_approvals) ≡ found o t
    type_count_only h k =
        count_ext (has_type t) (matches o t) (values s.pending_approvals)
          (λ a. ground (arith, h, k))

    origin_count_only : (o == "") ≡ false → (t == "") ≡ true → origin_count s o ≡ found o t
    origin_count_only h k =
        v.origin_counts o
        ∙ count_ext (has_origin o) (matches o t) (values s.pending_approvals)
            (λ a. ground (arith, h, k))

    -- In a valid state `getApprovalCount` is the number of pending requests that match the options,
    -- and throws where both are empty.
    pub get_approval_count_lem :
        get_approval_count (str o) (str t) s
        ≡ (if o == "" && t == "" then err must_specify else ok (found o t))
    unfolding get_approval_count
    get_approval_count_lem = ground (arith, both_count, type_count_only, origin_count_only)

    -- In a valid state `has` looks for the id alone where one is given; else it says whether a pending
    -- request matches the options, and throws where both are empty.
    pub has_request_lem :
        (id : String)
        → has_request (str id) (str o) (str t) s ≡ (
            if not (id == "")
            then ok (Assoc.has id s.pending_approvals)
            else if o == "" && t == ""
            then err invalid_combination
            else ok (any (matches o t) (values s.pending_approvals)))
    unfolding has_request
    has_request_lem id = ground (
      arith,
      both_count,
      type_count_only,
      has_origin-found o,
      any-count (matches o t) (values s.pending_approvals),
      any-count (has_type t) (values s.pending_approvals),
      v.same_ids id,
    )
