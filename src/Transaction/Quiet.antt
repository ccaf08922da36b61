-- ===== src/Transaction/Quiet.antt =====
-- The operations of TransactionController.ts that leave the mutex of approvals as it is.
use fork_metamask_core.Common.{
  ℕ, suc, ◌≡◌, refl, ◌∙◌, String, Bool, true, false, ◌||◌, Option, none, some, List, [], ◌∷◌, ◌++◌,
  arith, inl, inr, keep, string_eq,
}
use fork_metamask_core.Common.Monad.{modify, Result-cases, pure}
use fork_metamask_core.Common.Js.{Value}
use fork_metamask_core.Transaction.State.{
  TransactionParams, TransactionMeta, Env, State, Status, dropped, current, submitted, confirmed,
}
use fork_metamask_core.Transaction.Store.{
  update_trimmed, update_fresh, or_throw, update_transaction, fail_transaction, set_object,
}
use fork_metamask_core.Transaction.Controller.{
  flow_allowed, extend_flow, AddOptions, push_transaction, add_transaction, cancel_transaction,
  wipe_transactions, update_transaction_send_flow_history, found, get_transaction, flow_of,
}
use fork_metamask_core.Transaction.Params.{check_unapproved}
use fork_metamask_core.Transaction.Replace.{
  ReplaceOptions, GasValues, Fees, sent, stop, stop_found, stop_transaction, cancel_params,
  speedup_params, values_of, push_replacement, speed_up_found, speed_up_transaction,
}
use fork_metamask_core.Transaction.External.{
  add_external_transaction, confirm_external_transaction, mark_nonce_duplicates_dropped,
  on_incoming_transactions, drop_duplicate, hash_of, id_of, nonce_of, from_of, is_duplicate,
  set_transaction_status_dropped, on_pending_transactions_update,
}
use fork_metamask_core.Transaction.Tracker.{
  fail_reversed, verified, verify_receipt, settle_unknown, settle_in_block, settle_found,
  check_late, on_latest_block, reversed, Chain, Receipt, reconcile, reconcile_by, check_transaction,
  emit_updates,
}
use fork_metamask_core.Transaction.Lock.{
  IsQuiet, quiet_after, IsQuiet-each, or_throw-IsQuiet, update_transaction-IsQuiet,
  fail_transaction-IsQuiet,
}

module _ (env : Env) where
  push_transaction-IsQuiet :
      (array : ℕ) (m : TransactionMeta) → IsQuiet (push_transaction env array m)
  unfolding push_transaction update_trimmed
  push_transaction-IsQuiet array m s = refl

  pub add_transaction-IsQuiet :
      (o : AddOptions) (p : TransactionParams) → IsQuiet (add_transaction env o p)
  unfolding add_transaction push_transaction update_trimmed
  add_transaction-IsQuiet o p s = ground arith

  pub cancel_transaction_quiet :
      (id : String) (s : State) → (cancel_transaction env id s).is_locked ≡ s.is_locked
  unfolding cancel_transaction update_fresh
  cancel_transaction_quiet id s = ground arith

  pub wipe_transactions_quiet :
      (i : Bool) (a : Option String) (s : State)
      → (wipe_transactions env i a s).is_locked ≡ s.is_locked
  unfolding wipe_transactions update_fresh
  wipe_transactions_quiet i a s = ground arith

  extend_flow-IsQuiet : (r n : ℕ) (added : List Value) → IsQuiet (extend_flow env r n added)
  extend_flow-IsQuiet r n added s =
      let t =
        set_object r (λ m. record m { send_flow_history = some (flow_of env m ++ added) }) s in
      ground (arith, update_transaction-IsQuiet env r "sendFlowHistory updated" t)

  found-IsQuiet : (r : Option ℕ) → IsQuiet (found env r)
  found-IsQuiet none s = refl
  found-IsQuiet (some r) s = refl

  pub update_transaction_send_flow_history-IsQuiet :
      (id : String) (n : ℕ) (added : List Value)
      → IsQuiet (update_transaction_send_flow_history env id n added)
  unfolding update_transaction_send_flow_history
  update_transaction_send_flow_history-IsQuiet id n added s =
      quiet_after _ (flow_allowed env s) s.is_locked (ground arith) (λ _ t.
        quiet_after _ (found env (get_transaction id t) t) t.is_locked
          (found-IsQuiet (get_transaction id t) t)
          (λ r u.
            quiet_after _ (or_throw env (check_unapproved (t.objects r)) u) u.is_locked
              (or_throw-IsQuiet env _ u)
              (λ _ v.
                quiet_after _ (extend_flow env r n added v) v.is_locked
                  (extend_flow-IsQuiet r n added v) (λ _ _. refl))))

  pub add_external_transaction-IsQuiet : (r : ℕ) → IsQuiet (add_external_transaction env r)
  unfolding add_external_transaction update_fresh
  add_external_transaction-IsQuiet r s = ground arith

  set_transaction_status_dropped-IsQuiet : (q : ℕ) → IsQuiet (set_transaction_status_dropped env q)
  set_transaction_status_dropped-IsQuiet q s =
      update_transaction-IsQuiet env q "Transaction dropped"
        (set_object q (λ m. record m { status = dropped }) s)

  drop_duplicate-IsQuiet :
      (id : String) (h b : Option String) (q : ℕ) → IsQuiet (drop_duplicate env id h b q)
  drop_duplicate-IsQuiet id h b q s =
      let t = set_object q (λ m. record m { replaced_by = h; replaced_by_id = b }) s in
      ground (arith, set_transaction_status_dropped-IsQuiet q t)

  pub mark_nonce_duplicates_dropped-IsQuiet :
      (id : String) → IsQuiet (mark_nonce_duplicates_dropped env id)
  unfolding mark_nonce_duplicates_dropped
  mark_nonce_duplicates_dropped-IsQuiet id s =
      let r = get_transaction id s in
      IsQuiet-each (drop_duplicate env id (hash_of env s r) (id_of env s r))
        (drop_duplicate-IsQuiet id (hash_of env s r) (id_of env s r))
        (keep (λ q. is_duplicate env (nonce_of env s r) (from_of env s r) (s.objects q))
          (current s))
        s

  pub confirm_external_transaction_quiet :
      (r : ℕ) (s : State) → (confirm_external_transaction env r s).is_locked ≡ s.is_locked
  unfolding confirm_external_transaction
  confirm_external_transaction_quiet r s =
      let t = (add_external_transaction env r s).1 in
      let u = set_object r (λ m. record m { status = confirmed }) t in
      quiet_after (λ _. update_transaction env r "confirmExternalTransaction")
        (mark_nonce_duplicates_dropped env (t.objects r).id u) t.is_locked
        (mark_nonce_duplicates_dropped-IsQuiet (t.objects r).id u)
        (λ _. update_transaction-IsQuiet env r "confirmExternalTransaction")
      ∙ add_external_transaction-IsQuiet r s

  pub on_incoming_transactions_quiet :
      (xs ys : List ℕ) (s : State) → (on_incoming_transactions env xs ys s).is_locked ≡ s.is_locked
  unfolding on_incoming_transactions update_fresh
  on_incoming_transactions_quiet xs ys s = refl

  fail_reversed-IsQuiet : (r : ℕ) → IsQuiet (fail_reversed env r)
  fail_reversed-IsQuiet r s =
      quiet_after (λ _. pure false) (fail_transaction env r reversed s) s.is_locked
        (fail_transaction-IsQuiet env r reversed s) (λ _ _. refl)

  verified-IsQuiet : (r : ℕ) (c : Receipt) → IsQuiet (verified env r c)
  verified-IsQuiet r c s =
      let t =
        set_object r
          (λ m. record m {
            verified_on_blockchain = true;
            tx_params = record (m.tx_params) { gas_used = c.gas_used };
          })
          s in
      ground (arith, fail_reversed-IsQuiet r t)

  verify_receipt-IsQuiet :
      (r : ℕ) (c : Chain) (x : Option Receipt) → IsQuiet (verify_receipt env r c x)
  verify_receipt-IsQuiet r c none s = refl
  verify_receipt-IsQuiet r c (some x) s =
      quiet_after (λ _. verified env r x) (c.receipt_block, s) s.is_locked refl
        (λ _. verified-IsQuiet r x)

  settle_unknown-IsQuiet : (r : ℕ) (x : Option Receipt) → IsQuiet (settle_unknown env r x)
  settle_unknown-IsQuiet r x s = ground (arith, fail_reversed-IsQuiet r s)

  settle_in_block-IsQuiet : (r : ℕ) (x : Option Receipt) → IsQuiet (settle_in_block env r x)
  settle_in_block-IsQuiet r x s = ground (arith, fail_reversed-IsQuiet r s)

  settle_found-IsQuiet : (r : ℕ) (c : Chain) (x : Option Bool) → IsQuiet (settle_found env r c x)
  settle_found-IsQuiet r c none s =
      quiet_after (settle_unknown env r) (c.receipt, s) s.is_locked refl (settle_unknown-IsQuiet r)
  settle_found-IsQuiet r c (some false) s = refl
  settle_found-IsQuiet r c (some true) s =
      quiet_after (settle_in_block env r) (c.receipt, s) s.is_locked refl
        (settle_in_block-IsQuiet r)

  reconcile_by-IsQuiet : (x : Status) (r : ℕ) (c : Chain) → IsQuiet (reconcile_by env x r c)
  reconcile_by-IsQuiet confirmed r c s =
      quiet_after (verify_receipt env r c) (c.receipt, s) s.is_locked refl
        (verify_receipt-IsQuiet r c)
  reconcile_by-IsQuiet submitted r c s =
      quiet_after (settle_found env r c) (c.transaction, s) s.is_locked refl
        (settle_found-IsQuiet r c)
  reconcile_by-IsQuiet _ r c s = refl

  check_transaction-IsQuiet :
      (array i r : ℕ) (c : Chain) → IsQuiet (check_transaction env array i r c)
  unfolding check_transaction reconcile
  check_transaction-IsQuiet array i r c s =
      ground (arith, reconcile_by-IsQuiet (s.objects r).status r c s)

  pub on_pending_transactions_update_quiet :
      (array : ℕ) (s : State) → (on_pending_transactions_update env array s).is_locked ≡ s.is_locked
  unfolding on_pending_transactions_update update_trimmed
  on_pending_transactions_update_quiet array s = refl

  emit_updates_quiet :
      (array : ℕ) (got : Bool) (s : State) → (emit_updates env array got s).is_locked ≡ s.is_locked
  unfolding emit_updates
  emit_updates_quiet array got s = ground (arith, on_pending_transactions_update_quiet array s)

  check_late_quiet :
      (array i : ℕ) (xs : List (ℕ × Chain)) (s : State)
      → (check_late env array i xs s).is_locked ≡ s.is_locked
  check_late_quiet array i [] s = refl
  check_late_quiet array i ((r, c) ∷ xs) s =
      check_late_quiet array (suc i) xs (check_transaction env array i r c s).1
      ∙ check_transaction-IsQuiet array i r c s

  pub on_latest_block_quiet :
      (array i : ℕ) (xs : List (ℕ × Chain)) (got : Bool) (s : State)
      → (on_latest_block env array i xs got s).is_locked ≡ s.is_locked
  unfolding on_latest_block
  on_latest_block_quiet array i [] got s = emit_updates_quiet array got s
  on_latest_block_quiet array i ((r, c) ∷ xs) got s =
      let x = check_transaction env array i r c s in
      elim (Result-cases x.0) [
        | inl (required, h) ↦
            rw (on_latest_block, h)
              (on_latest_block_quiet array (suc i) xs (got || required) x.1
                ∙ check_transaction-IsQuiet array i r c s)
        | inr (e, h) ↦
            rw (on_latest_block, h)
              (check_late_quiet array (suc i) xs (emit_updates env array got x.1)
                ∙ emit_updates_quiet array got x.1
                ∙ check_transaction-IsQuiet array i r c s)
      ]

  sent-IsQuiet :
      (o : ReplaceOptions) (g : Fees → TransactionParams → TransactionParams) (v : GasValues)
      (r : ℕ)
      → IsQuiet (sent env o g v r)
  sent-IsQuiet o g v r s = ground arith

  stop_found-IsQuiet :
      (o : ReplaceOptions) (v : GasValues) (r : Option ℕ) → IsQuiet (stop_found env o v r)
  stop_found-IsQuiet o v none s = refl
  stop_found-IsQuiet o v (some r) s =
      quiet_after (λ _. stop env o r) (sent env o (cancel_params env o) v r s) s.is_locked
        (sent-IsQuiet o (cancel_params env o) v r s) (λ _ _. refl)

  pub stop_transaction-IsQuiet :
      (o : ReplaceOptions) (id : String) (given : Option GasValues)
      → IsQuiet (stop_transaction env o id given)
  unfolding stop_transaction
  stop_transaction-IsQuiet o id given s =
      ground (arith, stop_found-IsQuiet o (values_of given) (get_transaction id s) s)

  speed_up_found-IsQuiet :
      (o : ReplaceOptions) (v : GasValues) (r : Option ℕ) → IsQuiet (speed_up_found env o v r)
  unfolding push_replacement update_trimmed
  speed_up_found-IsQuiet o v none s = refl
  speed_up_found-IsQuiet o v (some r) s =
      quiet_after (λ x. modify (λ t. push_replacement env o s.transactions x.0 x.1 (t.objects r) t))
        (sent env o (speedup_params env o) v r s) s.is_locked
        (sent-IsQuiet o (speedup_params env o) v r s) (λ _ _. refl)

  pub speed_up_transaction-IsQuiet :
      (o : ReplaceOptions) (id : String) (given : Option GasValues)
      → IsQuiet (speed_up_transaction env o id given)
  unfolding speed_up_transaction
  speed_up_transaction-IsQuiet o id given s =
      ground (arith, speed_up_found-IsQuiet o (values_of given) (get_transaction id s) s)
