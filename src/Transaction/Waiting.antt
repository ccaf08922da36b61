-- ===== src/Transaction/Waiting.antt =====
-- What happens in TransactionController.ts once the mutex of approvals is held for ever.
use fork_metamask_core.Common.{
  ℕ, zero, ◌≡◌, ap, ◌∙◌, String, true, false, not, none, List, [], ◌∷◌, string_eq, is_some,
}
use fork_metamask_core.Common.Monad.{ok}
use fork_metamask_core.Transaction.State.{Env, State}
use fork_metamask_core.Transaction.Approve.{
  ApproveOptions, approve_transaction, transaction_at, waits,
}
use fork_metamask_core.Transaction.Steps.{
  stops, speeds_up, Step, adds, approves, cancels, wipes, extends, confirms, receives, sees_block,
  reports, updates, fails_with, adds_external, drops, answers, step, run,
}
use fork_metamask_core.Transaction.Lock.{update_transaction-IsQuiet, fail_transaction-IsQuiet}
use fork_metamask_core.Transaction.Process.{approval_answered_locked}
use fork_metamask_core.Transaction.Quiet.{
  stop_transaction-IsQuiet, speed_up_transaction-IsQuiet, add_transaction-IsQuiet,
  cancel_transaction_quiet, wipe_transactions_quiet, update_transaction_send_flow_history-IsQuiet,
  confirm_external_transaction_quiet, on_incoming_transactions_quiet, on_latest_block_quiet,
  on_pending_transactions_update_quiet, add_external_transaction-IsQuiet,
  mark_nonce_duplicates_dropped-IsQuiet,
}
use fork_metamask_core.Transaction.Stuck.{approve_locked, approve_transaction_lock}

module _ (env : Env) where
  step_locked : (x : Step) (s : State) → s.is_locked ≡ true → (step env x s).is_locked ≡ true
  step_locked (adds o p) s l = add_transaction-IsQuiet env o p s ∙ l
  step_locked (approves o array id) s l =
      ap (λ r. r.1.is_locked) (approve_locked env o array id s l) ∙ l
  step_locked (cancels id) s l = cancel_transaction_quiet env id s ∙ l
  step_locked (wipes i a) s l = wipe_transactions_quiet env i a s ∙ l
  step_locked (extends id n added) s l =
      update_transaction_send_flow_history-IsQuiet env id n added s ∙ l
  step_locked (confirms r) s l = confirm_external_transaction_quiet env r s ∙ l
  step_locked (receives xs ys) s l = on_incoming_transactions_quiet env xs ys s ∙ l
  step_locked (stops o id given) s l = stop_transaction-IsQuiet env o id given s ∙ l
  step_locked (speeds_up o id given) s l = speed_up_transaction-IsQuiet env o id given s ∙ l
  step_locked (sees_block array xs) s l = on_latest_block_quiet env array zero xs false s ∙ l
  step_locked (reports array) s l = on_pending_transactions_update_quiet env array s ∙ l
  step_locked (updates r note) s l = update_transaction-IsQuiet env r note s ∙ l
  step_locked (fails_with r e) s l = fail_transaction-IsQuiet env r e s ∙ l
  step_locked (adds_external r) s l = add_external_transaction-IsQuiet env r s ∙ l
  step_locked (drops id) s l = mark_nonce_duplicates_dropped-IsQuiet env id s ∙ l
  step_locked (answers o r id answer) s l = approval_answered_locked env o r id answer s l

  run_locked : (xs : List Step) (s : State) → s.is_locked ≡ true → (run env xs s).is_locked ≡ true
  unfolding run
  run_locked [] s l = l
  run_locked (x ∷ xs) s l = run_locked xs (step env x s) (step_locked x s l)

  -- Once an approval got the mutex with no transaction at its index of the array, each later approval of
  -- any transaction waits and changes nothing, whatever operations, answers and blocks come in between.
  pub run-waits :
      (o p : ApproveOptions) (array later : ℕ) (id other : String) (xs : List Step) (s : State)
      → s.is_locked ≡ false
      → transaction_at env array id s ≡ none
      → let t = run env xs (approve_transaction env o array id s).1 in
        approve_transaction env p later other t ≡ (ok waits, t)
  run-waits o p array later id other xs s l n =
      let held = approve_transaction_lock env o array id s l ∙ ap (λ q. not (is_some q)) n in
      approve_locked env p later other (run env xs (approve_transaction env o array id s).1)
        (run_locked xs _ held)
