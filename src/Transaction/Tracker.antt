-- ===== src/Transaction/Tracker.antt =====
-- PendingTransactionTracker.ts: what the chain says of the transactions that were submitted.
use fork_metamask_core.Common.{
  ℕ, zero, suc, Bool, true, false, not, ◌&&◌, ◌||◌, Option, none, some, List, [], ◌∷◌,
  if◌then◌else◌, ◌==◌, string_eq, nat_eq,
}
use fork_metamask_core.Common.Monad.{Result, ok, err, ◌>>=◌, ◌>>◌, pure, get_state, modify, lift}
use fork_metamask_core.Transaction.State.{
  Status, confirmed, submitted, Field, TransactionMeta, Env, Error, thrown, State, M, written, emit,
  confirmed_transaction,
}
use fork_metamask_core.Common.Js.{undefined}
use fork_metamask_core.Transaction.Store.{set_object, fail_transaction}
use fork_metamask_core.Transaction.External.{on_pending_transactions_update}

-- A receipt says whether the transaction failed, and the gas that it used.
pub record Receipt : Type 0 where
  pub has_failed : Bool
  pub gas_used : Field

-- What the chain answers about a transaction, or its rejection: the receipt, the block of the receipt,
-- and the transaction, if it is known, with whether it is in a block.
pub record Chain : Type 0 where
  pub receipt : Result Error (Option Receipt)
  pub receipt_block : Result Error (Unit {0})
  pub transaction : Result Error (Option Bool)

abbrev pub is_failed : Option Receipt → Bool
is_failed none = false
is_failed (some r) = r.has_failed

abbrev pub reversed : Error
reversed = thrown undefined

module _ (env : Env) where
  -- `#blockchainTransactionStateReconciler`: whether an update is required. The receipt itself, and the
  -- fee and the time of its block, are left out.
  abbrev pub fail_reversed : ℕ → M Bool
  fail_reversed r = fail_transaction env r reversed >>= λ _. pure false

  abbrev pub verified : ℕ → Receipt → M Bool
  verified r receipt =
      modify (
        set_object r (λ m. record m {
          verified_on_blockchain = true;
          tx_params = record (m.tx_params) { gas_used = receipt.gas_used };
        }))
      >> (if receipt.has_failed then fail_reversed r else pure true)

  abbrev pub verify_receipt : ℕ → Chain → Option Receipt → M Bool
  verify_receipt r c none = pure false
  verify_receipt r c (some receipt) = lift c.receipt_block >> verified r receipt

  abbrev pub verify : ℕ → Chain → M Bool
  verify r c = lift c.receipt >>= verify_receipt r c

  -- A transaction that was submitted and is not known, and one that is in a block.
  abbrev pub settle_unknown : ℕ → Option Receipt → M Bool
  settle_unknown r receipt = if is_failed receipt then fail_reversed r else pure false

  abbrev pub settle_in_block : ℕ → Option Receipt → M Bool
  settle_in_block r receipt = if is_failed receipt then fail_reversed r else (do
    modify (set_object r (λ m. record m { status = confirmed }))
    modify (λ s. emit (confirmed_transaction (s.objects r).id) s)
    pure true)

  abbrev pub settle_found : ℕ → Chain → Option Bool → M Bool
  settle_found r c none = lift c.receipt >>= settle_unknown r
  settle_found r c (some false) = pure false
  settle_found r c (some true) = lift c.receipt >>= settle_in_block r

  abbrev pub settle_submitted : ℕ → Chain → M Bool
  settle_submitted r c = lift c.transaction >>= settle_found r c

  abbrev pub reconcile_by : Status → ℕ → Chain → M Bool
  reconcile_by confirmed r c = verify r c
  reconcile_by submitted r c = settle_submitted r c
  reconcile_by _ r c = pure false

  unfoldable pub reconcile : ℕ → Chain → M Bool
  reconcile r c s = reconcile_by (s.objects r).status r c s

  abbrev pub set_index : ℕ → ℕ → List ℕ → List ℕ
  set_index i r [] = []
  set_index zero r (q ∷ qs) = r ∷ qs
  set_index (suc i) r (q ∷ qs) = q ∷ set_index i r qs

  abbrev pub put_at : ℕ → ℕ → ℕ → State → State
  put_at array index r s = record s {
    arrays = written array (set_index index r (s.arrays array)) s.arrays;
  }

  -- The body of the loop of `#onLatestBlock`, for the item that was at an index of the array when the
  -- block came.
  abbrev pub is_checked : TransactionMeta → Bool
  is_checked m = not m.verified_on_blockchain && (m.chain_id == env.chain_id)

  unfoldable pub check_transaction : ℕ → ℕ → ℕ → Chain → M Bool
  check_transaction array index r c = do
    s ← get_state
    if is_checked (s.objects r)
        then (do
          required ← reconcile r c
          if required then modify (put_at array index r) else pure tt
          pure required)
        else pure false

  -- Its end.
  unfoldable pub emit_updates : ℕ → Bool → State → State
  emit_updates array got_updates s =
      if got_updates then on_pending_transactions_update env array s else s

  -- The checks that end after an error: the updates of theirs are not reported.
  abbrev pub check_late : ℕ → ℕ → List (ℕ × Chain) → State → State
  check_late array index [] s = s
  check_late array index ((r, c) ∷ rest) s =
      check_late array (suc index) rest (check_transaction array index r c s).1

  -- A block, with nothing in between at the awaits, and the checks in their order. The first error ends
  -- the wait for the others; the updates so far are reported.
  unfoldable pub on_latest_block : ℕ → ℕ → List (ℕ × Chain) → Bool → State → State
  on_latest_block array index [] got s = emit_updates array got s
  on_latest_block array index ((r, c) ∷ rest) got s =
      let x = check_transaction array index r c s in
      elim (x.0) [
        | ok required ↦ on_latest_block array (suc index) rest (got || required) x.1
        | err e ↦ check_late array (suc index) rest (emit_updates array got x.1)
      ]
