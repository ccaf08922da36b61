-- ===== src/Transaction/Controller.antt =====
-- The methods of TransactionController.ts that add, end and remove transactions.
use fork_metamask_core.Common.{
  ℕ, String, Bool, true, false, not, ◌&&◌, ◌||◌, Option, none, some, List, [], ◌∷◌, ◌++◌,
  if◌then◌else◌, eqb, ◌==◌, get_or, keep, string_eq, nat_eq, length,
}
use fork_metamask_core.Common.Monad.{
  Result, ok, err, ◌>>=◌, ◌>>◌, pure, throw, get_state, modify, lift,
}
use fork_metamask_core.Common.Js.{Value}
use fork_metamask_core.Transaction.State.{
  absent, rejected, unapproved, Field, holds, is_truthy, same_field, TransactionParams,
  TransactionMeta, Env, Error, no_metadata, send_flow_disabled, State, M, written, current,
  find_ref, has_id, emit, unapproved_transaction, finished_transaction,
}
use fork_metamask_core.Transaction.Params.{
  normalize_tx_params, validate_tx_params, validate_transaction_origin, check_unapproved,
}
use fork_metamask_core.Transaction.GasFees.{Estimates, update_gas_fees, defaults_of}
use fork_metamask_core.Transaction.Store.{
  set_object, new_object, new_array, update_trimmed, update_fresh, or_throw, update_transaction,
}

-- The options of `addTransaction`, and what the functions that it awaits resolve to. `gas` is what
-- `getGas` gives for parameters without gas.
pub record AddOptions : Type 0 where
  pub action_id : Option String
  pub origin : Option String
  pub send_flow_history : Option (List Value)
  pub id : String
  pub now : ℕ
  pub rest : Value
  pub is_eip1559_compatible : Bool
  pub permitted_accounts : List String
  pub selected_address : String
  pub gas : Result Error Field
  pub to_wei_hex : String → String
  pub estimates : Estimates
  pub gas_price : Result Error Field

abbrev pub is_given : Option String → Bool
is_given none = false
is_given (some s) = not (s == "")

-- `getTransactionWithActionId`.
abbrev pub same_text : Option String → Option String → Bool
same_text (some a) (some b) = a == b
same_text none none = true
same_text _ _ = false

abbrev pub has_action_id : Option String → TransactionMeta → Bool
has_action_id a m = is_given a && same_text m.action_id a

abbrev pub get_transaction_with_action_id : Option String → State → Option ℕ
get_transaction_with_action_id a s = find_ref (has_action_id a) s

-- `getTransaction`.
abbrev pub get_transaction : String → State → Option ℕ
get_transaction id s = find_ref (has_id id) s

module _ (env : Env) where
  -- `updateGas` without the simulation.
  abbrev pub with_gas : Field → TransactionMeta → TransactionMeta
  with_gas gas m = record m {
    tx_params = record (m.tx_params) { gas = gas };
    default_gas_estimates = some (record (defaults_of m.default_gas_estimates) { gas = gas });
  }

  abbrev pub update_gas : Result Error Field → TransactionMeta → Result Error TransactionMeta
  update_gas gas m =
      if is_truthy m.tx_params.gas
      then ok (with_gas m.tx_params.gas m)
      else elim gas [ ok g ↦ ok (with_gas g m) | err e ↦ err e ]

  -- The parameters that `addTransaction` works with, or what it throws before it looks at the state.
  abbrev pub check_origin : AddOptions → Field → Option Error
  check_origin o from = elim o.origin [
    | none ↦ none
    | some origin ↦
        if origin == ""
        then none
        else validate_transaction_origin o.permitted_accounts o.selected_address from origin
  ]

  unfoldable pub accepted_params : AddOptions → TransactionParams → Result Error TransactionParams
  accepted_params o given =
      let validated =
        validate_tx_params env (normalize_tx_params env given) o.is_eip1559_compatible in
      elim validated.0 [
        | some e ↦ err e
        | none ↦ elim (check_origin o validated.1.from) [ some e ↦ err e | none ↦ ok validated.1 ]
      ]

  abbrev pub new_transaction_meta : AddOptions → TransactionParams → TransactionMeta
  new_transaction_meta o p = record {
    id = o.id;
    action_id = o.action_id;
    chain_id = env.chain_id;
    origin = o.origin;
    status = unapproved;
    time = o.now;
    hash = none;
    tx_params = p;
    user_fee_level = none;
    default_gas_estimates = none;
    error = none;
    raw_tx = none;
    r = absent;
    s = absent;
    v = absent;
    submitted_time = none;
    estimated_base_fee = none;
    replaced_by = none;
    replaced_by_id = none;
    verified_on_blockchain = false;
    send_flow_history = none;
    history = none;
    rest = o.rest;
  }

  -- Its gas and fees, which are set on an existing transaction, too.
  abbrev pub with_fees : AddOptions → Result Error TransactionMeta → Result Error TransactionMeta
  with_fees o (err e) = err e
  with_fees o (ok m) =
      update_gas_fees o.to_wei_hex o.is_eip1559_compatible o.estimates o.gas_price m

  abbrev pub priced : AddOptions → TransactionMeta → Result Error TransactionMeta
  priced o m = with_fees o (update_gas o.gas m)

  -- The send flow and the first entry of the history.
  abbrev pub with_flow : AddOptions → TransactionMeta → TransactionMeta
  with_flow o m =
      if env.is_send_flow_history_disabled
      then m
      else record m { send_flow_history = some (get_or o.send_flow_history []) }

  abbrev pub with_snapshot : TransactionMeta → TransactionMeta
  with_snapshot m =
      if env.is_history_disabled then m else record m { history = some (env.snapshot m ∷ []) }

  -- The end of `addTransaction` for a new transaction, after all that is awaited. The array is the one
  -- that was the state's when the method was called.
  unfoldable pub push_transaction : ℕ → TransactionMeta → M ℕ
  push_transaction array m = do
    s ← get_state
    modify (new_object m)
    modify
        (λ t. record t { arrays = written array (t.arrays array ++ s.next_object ∷ []) t.arrays })
    modify (update_trimmed env array)
    modify (emit (unapproved_transaction m.id))
    pure s.next_object

  abbrev pub add_new : ℕ → AddOptions → TransactionParams → M ℕ
  add_new array o p = do
    m ← lift (priced o (new_transaction_meta o p))
    push_transaction array (with_snapshot (with_flow o m))

  abbrev pub add_existing : AddOptions → ℕ → M ℕ
  add_existing o r = do
    s ← get_state
    m ← lift (priced o (s.objects r))
    modify (set_object r (λ old. m))
    pure r

  -- `addTransaction` up to `processApproval`, with nothing in between at its awaits.
  unfoldable pub add_transaction : AddOptions → TransactionParams → M ℕ
  add_transaction o given = do
    s ← get_state
    p ← lift (accepted_params o given)
    elim (get_transaction_with_action_id o.action_id s) [
      | some r ↦ add_existing o r
      | none ↦ add_new s.transactions o p
    ]

  -- `cancelTransaction`, of the reference that was found.
  abbrev pub cancel_found : String → Option ℕ → State → State
  cancel_found id none s = s
  cancel_found id (some r) s =
      let t =
        emit (finished_transaction id rejected)
          (set_object r (λ m. record m { status = rejected }) s) in
      update_fresh env (keep (λ q. not (has_id id (t.objects q))) (current t)) t

  unfoldable pub cancel_transaction : String → State → State
  cancel_transaction id s = cancel_found id (get_transaction id s) s

  -- `wipeTransactions`.
  abbrev pub lower_field : Field → Field
  lower_field (holds s) = holds (env.to_lower s)
  lower_field f = f

  abbrev pub is_wiped : Bool → Option String → TransactionMeta → Bool
  is_wiped ignore_network address m =
      (ignore_network || (m.chain_id == env.chain_id)) && elim address [
        | none ↦ true
        | some a ↦ (a == "") || same_field (lower_field m.tx_params.from) (holds (env.to_lower a))
      ]

  unfoldable pub wipe_transactions : Bool → Option String → State → State
  wipe_transactions ignore_network address s =
      if ignore_network && not (is_given address)
      then new_array [] s
      else update_fresh env
          (keep (λ r. not (is_wiped ignore_network address (s.objects r))) (current s)) s

  -- `updateTransactionSendFlowHistory`.
  abbrev pub flow_of : TransactionMeta → List Value
  flow_of m = get_or m.send_flow_history []

  abbrev pub found : Option ℕ → M ℕ
  found none = throw no_metadata
  found (some r) = pure r

  abbrev pub flow_allowed : M (Unit {0})
  flow_allowed = if env.is_send_flow_history_disabled then throw send_flow_disabled else pure tt

  abbrev pub extend_flow : ℕ → ℕ → List Value → M (Unit {0})
  extend_flow r current_length added = do
    s ← get_state
    if eqb current_length (length (flow_of (s.objects r)))
        then (do
          modify (set_object r (λ m. record m { send_flow_history = some (flow_of m ++ added) }))
          update_transaction env r "sendFlowHistory updated")
        else pure tt

  unfoldable pub update_transaction_send_flow_history : String → ℕ → List Value → M (Option ℕ)
  update_transaction_send_flow_history id current_length added = do
    flow_allowed
    s ← get_state
    r ← found (get_transaction id s)
    or_throw env (check_unapproved (s.objects r))
    extend_flow r current_length added
    t ← get_state
    pure (get_transaction id t)
