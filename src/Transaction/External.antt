-- ===== src/Transaction/External.antt =====
-- The transactions that TransactionController.ts learns of from others.
use fork_metamask_core.Common.{
  ℕ, String, Bool, true, false, not, ◌&&◌, Option, none, some, List, [], ◌∷◌, ◌++◌, if◌then◌else◌,
  ◌==◌, keep, find, map, string_eq, nat_eq,
}
use fork_metamask_core.Common.Monad.{Result, ◌>>=◌, ◌>>◌, pure, get_state, modify, for_each}
use fork_metamask_core.Transaction.State.{
  Status, confirmed, submitted, failed, dropped, status_eqb, Field, absent, same_field,
  TransactionMeta, Env, Error, State, M, current,
}
use fork_metamask_core.Transaction.Params.{validate_confirmed_external_transaction}
use fork_metamask_core.Transaction.Store.{
  set_object, update_trimmed, update_fresh, or_throw, update_transaction,
}
use fork_metamask_core.Transaction.Controller.{same_text, get_transaction}

module _ (env : Env) where
  abbrev pub is_alike : Field → TransactionMeta → Bool
  is_alike from m = same_field m.tx_params.from from && (m.chain_id == env.chain_id)

  abbrev pub with_status : Status → State → List ℕ → List TransactionMeta
  with_status status s rs = map s.objects (keep (λ r. status_eqb (s.objects r).status status) rs)

  abbrev pub is_empty : Option (List ℕ) → Bool
  is_empty none = true
  is_empty (some []) = true
  is_empty (some (e ∷ es)) = false

  abbrev pub with_first_entry : TransactionMeta → TransactionMeta
  with_first_entry m =
      if is_empty m.history && not env.is_history_disabled
      then record m { history = some (env.snapshot m ∷ []) }
      else m

  -- `addExternalTransaction`, of an object that the caller made.
  unfoldable pub add_external_transaction : ℕ → M (Unit {0})
  add_external_transaction r = do
    s ← get_state
    let alike = keep (λ q. is_alike (s.objects r).tx_params.from (s.objects q)) (current s)
    or_throw env (
        validate_confirmed_external_transaction (s.objects r) (with_status confirmed s alike)
          (with_status submitted s alike))
    modify (set_object r with_first_entry)
    modify (λ t. update_fresh env (current t ++ r ∷ []) t)

  -- `setTransactionStatusDropped`.
  abbrev pub set_transaction_status_dropped : ℕ → M (Unit {0})
  set_transaction_status_dropped q = do
    modify (set_object q (λ m. record m { status = dropped }))
    update_transaction env q "Transaction dropped"

  -- The body of the loop of `markNonceDuplicatesDropped`.
  abbrev pub drop_duplicate : String → Option String → Option String → ℕ → M (Unit {0})
  drop_duplicate id hash by q = do
    s ← get_state
    if (s.objects q).id == id then pure tt else (do
      modify (set_object q (λ m. record m { replaced_by = hash; replaced_by_id = by }))
      if status_eqb (s.objects q).status failed then pure tt else set_transaction_status_dropped q)

  abbrev pub nonce_of : State → Option ℕ → Field
  nonce_of s none = absent
  nonce_of s (some r) = (s.objects r).tx_params.nonce

  abbrev pub from_of : State → Option ℕ → Field
  from_of s none = absent
  from_of s (some r) = (s.objects r).tx_params.from

  abbrev pub hash_of : State → Option ℕ → Option String
  hash_of s none = none
  hash_of s (some r) = (s.objects r).hash

  abbrev pub id_of : State → Option ℕ → Option String
  id_of s none = none
  id_of s (some r) = some (s.objects r).id

  abbrev pub is_duplicate : Field → Field → TransactionMeta → Bool
  is_duplicate nonce from m = is_alike from m && same_field m.tx_params.nonce nonce

  unfoldable pub mark_nonce_duplicates_dropped : String → M (Unit {0})
  mark_nonce_duplicates_dropped id = do
    s ← get_state
    let r = get_transaction id s
    for_each (drop_duplicate id (hash_of s r) (id_of s r))
        (keep (λ q. is_duplicate (nonce_of s r) (from_of s r) (s.objects q)) (current s))

  -- `confirmExternalTransaction`: the promise of `addExternalTransaction` is not awaited, and an error
  -- of the rest is logged.
  abbrev pub swallowed : Result Error (Unit {0}) × State → State
  swallowed (r, s) = s

  unfoldable pub confirm_external_transaction : ℕ → State → State
  confirm_external_transaction r s =
      let t = swallowed (add_external_transaction r s) in
      swallowed (
        (do
          modify (set_object r (λ m. record m { status = confirmed }))
          mark_nonce_duplicates_dropped (t.objects r).id
          update_transaction env r "confirmExternalTransaction")
          t)

  -- `onIncomingTransactions`, of objects that the helper made.
  abbrev pub updated_for : State → List ℕ → ℕ → ℕ
  updated_for s updated r =
      elim (find (λ u. same_text (s.objects u).hash (s.objects r).hash) updated) [
        | none ↦ r
        | some u ↦ u
      ]

  unfoldable pub on_incoming_transactions : List ℕ → List ℕ → State → State
  on_incoming_transactions added updated s =
      update_fresh env (added ++ map (updated_for s updated) (current s)) s

  -- `onPendingTransactionsUpdate`, of an array that the tracker holds.
  unfoldable pub on_pending_transactions_update : ℕ → State → State
  on_pending_transactions_update array s = update_trimmed env array s
