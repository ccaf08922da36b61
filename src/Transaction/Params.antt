-- ===== src/Transaction/Params.antt =====
-- utils.ts, validation.ts and external-transactions.ts of packages/transaction-controller/src/utils.
use fork_metamask_core.Common.{
  String, Bool, true, false, not, ◌&&◌, ◌||◌, Option, none, some, List, if◌then◌else◌, any, ◌==◌,
  string_eq,
}
use fork_metamask_core.Transaction.State.{
  confirmed, unapproved, status_eqb, Field, absent, unset, holds, is_truthy, is_own, same_field,
  TransactionParams, TransactionMeta, Env, Error, eip1559_not_supported, invalid_from, invalid_to,
  negative_value, fractional_value, invalid_value, buffer_overrun, invalid_account, unauthorized,
  external_not_confirmed, external_nonce_pending, external_nonce_confirmed, not_unapproved,
}

-- `normalizeTxParams`: a property that is truthy is normalized, and any other is left out.
abbrev pub normalized : (String → Field) → Field → Field
normalized f (holds s) = if s == "" then absent else f s
normalized f _ = absent

abbrev pub or_empty : Field → Field
or_empty absent = holds ""
or_empty f = f

abbrev pub normal_type : String → Field
normal_type s = if s == "0x0" then holds "0x0" else unset

module _ (env : Env) where
  abbrev pub hex : String → Field
  hex s = holds (env.add_hex_prefix s)

  abbrev pub lower_hex : String → Field
  lower_hex s = holds (env.to_lower (env.add_hex_prefix s))

  unfoldable pub normalize_tx_params : TransactionParams → TransactionParams
  normalize_tx_params p = record {
    from = or_empty (normalized lower_hex p.from);
    to = normalized lower_hex p.to;
    data' = normalized hex p.data';
    value = normalized hex p.value;
    nonce = normalized hex p.nonce;
    gas = normalized hex p.gas;
    gas_limit = normalized hex p.gas_limit;
    gas_price = normalized hex p.gas_price;
    max_fee_per_gas = normalized hex p.max_fee_per_gas;
    max_priority_fee_per_gas = normalized hex p.max_priority_fee_per_gas;
    estimated_base_fee = normalized hex p.estimated_base_fee;
    type = normalized normal_type p.type;
    chain_id = absent;
    gas_used = absent;
  }

  abbrev pub is_eip1559_transaction : TransactionParams → Bool
  is_eip1559_transaction p = is_own p.max_fee_per_gas && is_own p.max_priority_fee_per_gas

  -- `validateParamFrom`.
  abbrev pub check_from : Field → Option Error
  check_from (holds s) =
      if s == "" || not (env.is_valid_hex_address s) then some invalid_from else none
  check_from _ = some invalid_from

  -- `validateParamRecipient`; a contract creation loses its recipient.
  abbrev pub is_creation : Field → Bool
  is_creation (holds s) = s == "0x"
  is_creation _ = true

  abbrev pub is_address : Field → Bool
  is_address (holds s) = env.is_valid_hex_address s
  is_address _ = false

  abbrev pub check_recipient : TransactionParams → Option Error
  check_recipient p =
      if is_creation p.to
      then (if is_truthy p.data' then none else some invalid_to)
      else if is_address p.to
      then none
      else some invalid_to

  abbrev pub after_recipient : TransactionParams → TransactionParams
  after_recipient p = if is_creation p.to && is_truthy p.data' then record p { to = absent } else p

  -- `validateParamValue`.
  abbrev pub check_value : Field → Option Error
  check_value (holds s) =
      if env.has_minus s
      then some negative_value
      else if env.has_dot s
      then some fractional_value
      else if env.is_valid_number s
      then none
      else some invalid_value
  check_value _ = none

  -- `validateParamData`.
  abbrev pub check_data : Field → Option Error
  check_data (holds s) =
      if not (s == "") && env.has_buffer_overrun s then some buffer_overrun else none
  check_data _ = none

  abbrev pub first_error : Option Error → Option Error → Option Error
  first_error none f = f
  first_error (some e) f = some e

  -- `validateTxParams`: what it throws, if it does, and the parameters as it leaves them. A chain id
  -- is a text where there is one.
  unfoldable pub validate_tx_params : TransactionParams → Bool → Option Error × TransactionParams
  validate_tx_params p is_eip1559_compatible =
      if is_eip1559_transaction p && not is_eip1559_compatible
      then (some eip1559_not_supported, p)
      else elim (check_from p.from) [
        | some e ↦ (some e, p)
        | none ↦ (
          first_error (check_recipient p) (first_error (check_value p.value) (check_data p.data')),
          after_recipient p,
        )
      ]

-- `validateTransactionOrigin`.
unfoldable pub validate_transaction_origin : List String → String → Field → String → Option Error
validate_transaction_origin permitted selected from origin =
    if origin == "metamask"
    then (if same_field from (holds selected) then none else some invalid_account)
    else if any (λ a. same_field (holds a) from) permitted
    then none
    else some unauthorized

-- `validateIfTransactionUnapproved`.
abbrev pub check_unapproved : TransactionMeta → Option Error
check_unapproved m = if status_eqb m.status unapproved then none else some (not_unapproved m.status)

-- `validateConfirmedExternalTransaction`.
abbrev pub has_nonce : Field → TransactionMeta → Bool
has_nonce nonce m = same_field m.tx_params.nonce nonce

unfoldable pub validate_confirmed_external_transaction :
    TransactionMeta → List TransactionMeta → List TransactionMeta → Option Error
validate_confirmed_external_transaction m confirmed_txs pending_txs =
    if not (status_eqb m.status confirmed)
    then some external_not_confirmed
    else if any (has_nonce m.tx_params.nonce) pending_txs
    then some external_nonce_pending
    else if any (has_nonce m.tx_params.nonce) confirmed_txs
    then some external_nonce_confirmed
    else none
