-- ===== src/Transaction/Stuck.antt =====
-- Who holds the mutex of approvals in TransactionController.ts, and for how long.
use fork_metamask_core.Common.{
  ℕ, ◌≡◌, refl, String, true, false, not, Option, none, some, string_eq, is_some,
}
use fork_metamask_core.Common.Monad.{Result, ok, err}
use fork_metamask_core.Transaction.State.{Env, Error, State}
use fork_metamask_core.Transaction.Approve.{
  ApproveOptions, transaction_at, approve_transaction, with_lock, released, caught, try_approve,
  waits,
}

module _ (env : Env) where
  pub approve_locked :
      (o : ApproveOptions) (array : ℕ) (id : String) (s : State)
      → s.is_locked ≡ true
      → approve_transaction env o array id s ≡ (ok waits, s)
  unfolding approve_transaction
  approve_locked o array id s l = rw (l) refl

  released-unlocks :
      (o : ApproveOptions) (r : Result Error (Unit {0}) × State)
      → (released env o r).1.is_locked ≡ false
  released-unlocks o (ok u, s) = refl
  released-unlocks o (err e, s) = refl

  with_lock-locked :
      (o : ApproveOptions) (r : Option ℕ) (s : State)
      → s.is_locked ≡ true
      → (with_lock env o r s).1.is_locked ≡ not (is_some r)
  with_lock-locked o none s l = l
  with_lock-locked o (some r) s l = released-unlocks o (caught env o r (try_approve env o r s))

  -- An approval that gets the mutex, on all of its branches, errors included, gives it back if and only
  -- if there is a transaction at the index that `findIndex` gives.
  pub approve_transaction_lock :
      (o : ApproveOptions) (array : ℕ) (id : String) (s : State)
      → s.is_locked ≡ false
      → (approve_transaction env o array id s).1.is_locked
        ≡ not (is_some (transaction_at env array id s))
  unfolding approve_transaction
  approve_transaction_lock o array id s l =
      rw (l) (with_lock-locked o _ (record s { is_locked = true }) refl)
