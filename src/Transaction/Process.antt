-- ===== src/Transaction/Process.antt =====
-- `processApproval` of TransactionController.ts, from the answer of ApprovalController on.
use fork_metamask_core.Common.{
  ℕ, ◌≡◌, refl, ◌∙◌, String, Bool, true, false, Option, none, some, ◌∷◌, if◌then◌else◌, string_eq,
  count, not, ◌&&◌, is_some, arith, Bool-cases, inl, inr,
}
use fork_metamask_core.Common.Monad.{Result, ok, err}
use fork_metamask_core.Transaction.State.{
  TransactionMeta, Env, Error, user_rejected, State, M, current, has_id, rejected,
  finished_transaction,
}
use fork_metamask_core.Transaction.Store.{fail_transaction, final_of, update_fresh}
use fork_metamask_core.Transaction.Controller.{get_transaction, cancel_transaction}
use fork_metamask_core.Transaction.Approve.{
  ApproveOptions, Progress, ended, approve_transaction, transaction_at, is_local_final_state,
}
use fork_metamask_core.Transaction.Lock.{fail_transaction-IsQuiet}
use fork_metamask_core.Transaction.Stuck.{approve_locked, approve_transaction_lock}
use fork_metamask_core.Transaction.Removal.{cancel_transaction_lem}

-- How the request of an approval ends: accepted, rejected by the user, or with another error.
pub data ApprovalAnswer : Type 0 where
  accepts rejects : ApprovalAnswer
  fails : Error → ApprovalAnswer

abbrev pub is_acceptance : ApprovalAnswer → Bool
is_acceptance accepts = true
is_acceptance _ = false

-- `isTransactionCompleted`.
abbrev pub is_completed : (ℕ → TransactionMeta) → Option ℕ → Bool
is_completed objects none = false
is_completed objects (some r) = is_local_final_state (objects r).status

abbrev pub is_transaction_completed : String → State → Bool
is_transaction_completed id s = is_completed s.objects (get_transaction id s)

module _ (env : Env) (o : ApproveOptions) (r : ℕ) (id : String) where
  abbrev pub then_ended : Result Error (Unit {0}) × State → Result Error Progress × State
  then_ended (ok u, s) = (ok ended, s)
  then_ended (err e, s) = (err e, s)

  -- The catch block, for an error and for a rejection.
  abbrev pub after_error : Error → M Progress
  after_error e s =
      if is_transaction_completed id s
      then (ok ended, s)
      else then_ended (fail_transaction env r e s)

  abbrev pub after_rejection : M Progress
  after_rejection s =
      if is_transaction_completed id s
      then (ok ended, s)
      else (err user_rejected, cancel_transaction env id s)

  abbrev pub approved_or : Result Error Progress × State → Result Error Progress × State
  approved_or (ok p, s) = (ok p, s)
  approved_or (err e, s) = after_error e s

  -- The answer for the object under a reference; what `finishedPromise` resolves to is read after it.
  unfoldable pub approval_answered : ApprovalAnswer → M Progress
  approval_answered accepts s =
      if is_transaction_completed id s
      then (ok ended, s)
      else approved_or (approve_transaction env o s.transactions id s)
  approval_answered rejects s = after_rejection s
  approval_answered (fails e) s = after_error e s

  completed_there :
      (s : State)
      → is_transaction_completed id s ≡ true
      → false ≡ not (is_some (transaction_at env s.transactions id s))
  completed_there s y = ground (arith, y)

  then_ended_locked :
      (x : Result Error (Unit {0}) × State) → (then_ended x).1.is_locked ≡ x.1.is_locked
  then_ended_locked (ok u, s) = refl
  then_ended_locked (err e, s) = refl

  after_error_locked : (e : Error) (s : State) → (after_error e s).1.is_locked ≡ s.is_locked
  after_error_locked e s = elim (Bool-cases (is_transaction_completed id s)) [
    | inl y ↦ rw (y) refl
    | inr n ↦
        rw (n) (then_ended_locked (fail_transaction env r e s) ∙ fail_transaction-IsQuiet env r e s)
  ]

  approved_or_locked :
      (x : Result Error Progress × State) → (approved_or x).1.is_locked ≡ x.1.is_locked
  approved_or_locked (ok p, s) = refl
  approved_or_locked (err e, s) = after_error_locked e s

  -- After an answer that comes while the mutex is free, it is held if and only if the answer accepts and
  -- there is no transaction at the index that `findIndex` gives.
  pub approval_answered_lock :
      (answer : ApprovalAnswer) (s : State)
      → s.is_locked ≡ false
      → (approval_answered answer s).1.is_locked
        ≡ (is_acceptance answer && not (is_some (transaction_at env s.transactions id s)))
  unfolding approval_answered cancel_transaction update_fresh
  approval_answered_lock accepts s l = elim (Bool-cases (is_transaction_completed id s)) [
    | inl y ↦ rw (y) (l ∙ completed_there s y)
    | inr n ↦ rw (n) (
        approved_or_locked (approve_transaction env o s.transactions id s)
        ∙ approve_transaction_lock env o s.transactions id s l)
  ]
  approval_answered_lock rejects s l = ground (arith, l)
  approval_answered_lock (fails e) s l = after_error_locked e s ∙ l

  -- While the mutex is held, any answer leaves it so.
  pub approval_answered_locked :
      (answer : ApprovalAnswer) (s : State)
      → s.is_locked ≡ true
      → (approval_answered answer s).1.is_locked ≡ true
  unfolding approval_answered cancel_transaction update_fresh
  approval_answered_locked accepts s l = elim (Bool-cases (is_transaction_completed id s)) [
    | inl y ↦ rw (y) l
    | inr n ↦ rw (n, approve_locked env o s.transactions id s l) l
  ]
  approval_answered_locked rejects s l = ground (arith, l)
  approval_answered_locked (fails e) s l = after_error_locked e s ∙ l

  -- A rejection by the user of a transaction that is there and has not ended: the caller is told so, none
  -- of its id is left, each other that is not in a final state is kept, and those who wait are told.
  pub approval_answered_rejects :
      (s : State) (p : ℕ → Bool) (q : ℕ)
      → get_transaction id s ≡ some q
      → is_local_final_state (s.objects q).status ≡ false
      → ((n : ℕ) → p n ≡ true → has_id id (s.objects n) ≡ false)
      → ((n : ℕ) → p n ≡ true → final_of env s n ≡ false)
      → let x = approval_answered rejects s in
        (x.0 ≡ err user_rejected)
        × (count (λ n. has_id id (x.1.objects n)) (current x.1) ≡ 0)
        × (count p (current x.1) ≡ count p (current s))
        × (x.1.emitted ≡ finished_transaction id rejected ∷ s.emitted)
  unfolding approval_answered
  approval_answered_rejects s p q e l h f =
      let removed = cancel_transaction_lem env id s p q e h f in
      rw (e, l) (refl, removed.0, removed.1, removed.2)
