-- ===== src/Transaction/Steps.antt =====
-- The operations of TransactionController.ts, one after another.
use fork_metamask_core.Common.{ℕ, zero, String, Bool, false, Option, List, [], ◌∷◌}
use fork_metamask_core.Common.Js.{Value}
use fork_metamask_core.Transaction.State.{TransactionParams, Env, State, Error}
use fork_metamask_core.Transaction.Controller.{
  AddOptions, add_transaction, cancel_transaction, wipe_transactions,
  update_transaction_send_flow_history,
}
use fork_metamask_core.Transaction.Approve.{ApproveOptions, approve_transaction}
use fork_metamask_core.Transaction.Replace.{
  ReplaceOptions, GasValues, stop_transaction, speed_up_transaction,
}
use fork_metamask_core.Transaction.External.{
  add_external_transaction, mark_nonce_duplicates_dropped, on_pending_transactions_update,
  confirm_external_transaction, on_incoming_transactions,
}
use fork_metamask_core.Transaction.Tracker.{Chain, on_latest_block}
use fork_metamask_core.Transaction.Store.{update_transaction, fail_transaction}
use fork_metamask_core.Transaction.Process.{ApprovalAnswer, approval_answered}

-- An operation with its arguments, and with what others answer meanwhile: each that is modelled, those
-- that only others call included. A block has the array of the transactions that were pending when it
-- came.
pub data Step : Type 0 where
  adds : AddOptions → TransactionParams → Step
  approves : ApproveOptions → ℕ → String → Step
  cancels : String → Step
  wipes : Bool → Option String → Step
  extends : String → ℕ → List Value → Step
  confirms : ℕ → Step
  receives : List ℕ → List ℕ → Step
  stops : ReplaceOptions → String → Option GasValues → Step
  speeds_up : ReplaceOptions → String → Option GasValues → Step
  sees_block : ℕ → List (ℕ × Chain) → Step
  reports : ℕ → Step
  updates : ℕ → String → Step
  fails_with : ℕ → Error → Step
  adds_external : ℕ → Step
  drops : String → Step
  answers : ApproveOptions → ℕ → String → ApprovalAnswer → Step

module _ (env : Env) where
  abbrev pub step : Step → State → State
  step (adds o given) s = (add_transaction env o given s).1
  step (approves o array id) s = (approve_transaction env o array id s).1
  step (cancels id) s = cancel_transaction env id s
  step (wipes ignore_network address) s = wipe_transactions env ignore_network address s
  step (extends id current_length added) s =
      (update_transaction_send_flow_history env id current_length added s).1
  step (confirms r) s = confirm_external_transaction env r s
  step (receives added updated) s = on_incoming_transactions env added updated s
  step (stops o id given) s = (stop_transaction env o id given s).1
  step (speeds_up o id given) s = (speed_up_transaction env o id given s).1
  step (sees_block array xs) s = on_latest_block env array zero xs false s
  step (reports array) s = on_pending_transactions_update env array s
  step (updates r note) s = (update_transaction env r note s).1
  step (fails_with r e) s = (fail_transaction env r e s).1
  step (adds_external r) s = (add_external_transaction env r s).1
  step (drops id) s = (mark_nonce_duplicates_dropped env id s).1
  step (answers o r id answer) s = (approval_answered env o r id answer s).1

  unfoldable pub run : List Step → State → State
  run [] s = s
  run (x ∷ xs) s = run xs (step x s)
