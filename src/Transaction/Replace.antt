-- ===== src/Transaction/Replace.antt =====
-- `stopTransaction` and `speedUpTransaction` of TransactionController.ts.
use fork_metamask_core.Common.{
  ℕ, String, Bool, true, false, ◌&&◌, ◌||◌, Option, none, some, [], ◌∷◌, ◌++◌, if◌then◌else◌, leb,
  ◌==◌, string_eq,
}
use fork_metamask_core.Common.Monad.{Result, ok, err, ◌>>=◌, ◌>>◌, pure, get_state, modify, lift}
use fork_metamask_core.Common.Js.{Value}
use fork_metamask_core.Transaction.State.{
  Field, absent, unset, holds, is_truthy, TransactionParams, TransactionMeta, Env, Error,
  type_error, no_sign, too_low, State, M, cancelled, emit, finished_transaction,
  speedup_transaction, written,
}
use fork_metamask_core.Transaction.Store.{set_object, new_object, update_trimmed}
use fork_metamask_core.Transaction.Approve.{SignedTx, update_transaction_meta_rsv}
use fork_metamask_core.Transaction.Controller.{get_transaction_with_action_id, get_transaction}

-- `GasPriceValue | FeeMarketEIP1559Values`.
pub record GasValues : Type 0 where
  pub gas_price : Field
  pub max_fee_per_gas : Field
  pub max_priority_fee_per_gas : Field

-- Functions on numbers: of a hexadecimal text, to one with its prefix, the product with the rate as
-- JavaScript has it, without its fraction; and what the operation gets from others. The type 2 is given
-- to `sign` as a text.
pub record ReplaceOptions : Type 0 where
  pub to_number : String → ℕ
  pub to_hex : ℕ → String
  pub raised : ℕ → ℕ
  pub is_hex : String → Bool
  pub has_sign : Bool
  pub sign : TransactionParams → Result Error SignedTx
  pub send : String → Result Error String
  pub action_id : Option String
  pub estimated_base_fee : Option String
  pub id : String
  pub now : ℕ
  pub rest : Value

-- `isGasPriceValue` and `isFeeMarketEIP1559Values`.
abbrev pub is_defined : Field → Bool
is_defined (holds s) = true
is_defined _ = false

abbrev pub no_values : GasValues
no_values = record {
  gas_price = absent;
  max_fee_per_gas = absent;
  max_priority_fee_per_gas = absent;
}

abbrev pub values_of : Option GasValues → GasValues
values_of none = no_values
values_of (some v) = v

abbrev pub is_gas_price_value : GasValues → Bool
is_gas_price_value v = is_defined v.gas_price

abbrev pub is_fee_market_values : GasValues → Bool
is_fee_market_values v = is_defined v.max_fee_per_gas || is_defined v.max_priority_fee_per_gas

-- The fees of the replacement, or the first error on the way to them.
pub record Fees : Type 0 where
  pub gas_price : Field
  pub max_fee : Field
  pub priority : Field

abbrev pub collected :
    Result Error Field → Result Error Field → Result Error Field → Result Error Fees
collected (ok price) (ok max_fee) (ok priority) =
    ok (record { gas_price = price; max_fee = max_fee; priority = priority })
collected (ok price) (ok max_fee) (err e) = err e
collected (ok price) (err e) z = err e
collected (err e) y z = err e

module _ (env : Env) (o : ReplaceOptions) where
  -- `validateGasValues`.
  abbrev pub is_hex_field : Field → Bool
  is_hex_field absent = true
  is_hex_field unset = false
  is_hex_field (holds s) = o.is_hex s

  abbrev pub are_hex : GasValues → Bool
  are_hex v =
      is_hex_field v.gas_price
      && (is_hex_field v.max_fee_per_gas && is_hex_field v.max_priority_fee_per_gas)

  abbrev pub validate_gas_values : GasValues → Result Error (Unit {0})
  validate_gas_values v = if are_hex v then ok tt else err type_error

  -- `getIncreasedPriceFromExisting`; a text that is missing is taken as 0x0.
  abbrev pub number_of : Field → ℕ
  number_of (holds s) = o.to_number s
  number_of _ = o.to_number "0x0"

  abbrev pub get_increased_price : Field → String
  get_increased_price f = o.to_hex (o.raised (number_of f))

  abbrev pub validate_minimum_increase : String → String → Result Error String
  validate_minimum_increase proposed min =
      if leb (o.to_number min) (o.to_number proposed) then ok proposed else err too_low

  -- The value that is proposed, if there is one, or the one otherwise.
  abbrev pub proposed_or : Field → String → Field → Result Error Field
  proposed_or (holds s) min other =
      if s == ""
      then ok other
      else elim (validate_minimum_increase s min) [ ok t ↦ ok (holds t) | err e ↦ err e ]
  proposed_or _ min other = ok other

  abbrev pub new_gas_price : GasValues → TransactionParams → Result Error Field
  new_gas_price v p =
      let min = get_increased_price p.gas_price in
      proposed_or (if is_gas_price_value v then v.gas_price else absent) min (holds min)

  abbrev pub new_fee : Field → Field → Result Error Field
  new_fee given existing =
      let min = get_increased_price existing in
      proposed_or given min (if is_truthy existing then holds min else existing)

  abbrev pub market_given : GasValues → Field → Field
  market_given v f = if is_fee_market_values v then f else absent

  unfoldable pub new_fees : GasValues → TransactionParams → Result Error Fees
  new_fees v p =
      collected (new_gas_price v p) (new_fee (market_given v v.max_fee_per_gas) p.max_fee_per_gas)
        (new_fee (market_given v v.max_priority_fee_per_gas) p.max_priority_fee_per_gas)

  abbrev pub is_market : Fees → Bool
  is_market f = is_truthy f.max_fee && is_truthy f.priority

  -- The parameters with the fees of a replacement.
  unfoldable pub with_new_fees : Fees → TransactionParams → TransactionParams
  with_new_fees f p =
      if is_market f
      then record p { max_fee_per_gas = f.max_fee; max_priority_fee_per_gas = f.priority }
      else record p { gas_price = f.gas_price }

  -- The parameters that are signed.
  abbrev pub cancel_params : Fees → TransactionParams → TransactionParams
  cancel_params f p =
      let base : TransactionParams = record {
        from = p.from;
        to = p.from;
        data' = absent;
        value = holds "0x0";
        nonce = p.nonce;
        gas = absent;
        gas_limit = p.gas;
        gas_price = absent;
        max_fee_per_gas = absent;
        max_priority_fee_per_gas = absent;
        estimated_base_fee = absent;
        type = absent;
        chain_id = absent;
        gas_used = absent;
      } in
      if is_market f
      then record base {
        max_fee_per_gas = f.max_fee;
        max_priority_fee_per_gas = f.priority;
        type = holds "2";
      }
      else record base { gas_price = f.gas_price }

  abbrev pub speedup_params : Fees → TransactionParams → TransactionParams
  speedup_params f p =
      let q = record (with_new_fees f p) { gas_limit = p.gas } in
      if is_market f then record q { type = holds "2" } else q

  -- What both operations do with a transaction that is there: the fees, the signature, which is put
  -- into the transaction, and the hash of what was sent.
  abbrev pub check_sign : Result Error (Unit {0})
  check_sign = if o.has_sign then ok tt else err no_sign

  abbrev pub signed :
      (Fees → TransactionParams → TransactionParams)
      → GasValues
      → TransactionParams
      → Result Error (Fees × SignedTx)
  signed params v p = elim check_sign [
    | err e ↦ err e
    | ok u ↦ elim (new_fees v p) [
      | err e ↦ err e
      | ok f ↦ elim (o.sign (params f p)) [ err e ↦ err e | ok tx ↦ ok (f, tx) ]
    ]
  ]

  abbrev pub sent :
      (Fees → TransactionParams → TransactionParams) → GasValues → ℕ → M (Fees × String)
  sent params v r = do
    s ← get_state
    x ← lift (signed params v (s.objects r).tx_params)
    modify (set_object r (update_transaction_meta_rsv env x.1))
    hash ← lift (o.send x.1.serialized)
    pure (x.0, hash)

  -- `stopTransaction`.
  abbrev pub stop : ℕ → M (Unit {0})
  stop r = do
    modify (
        set_object r
          (λ m. record m { estimated_base_fee = o.estimated_base_fee; status = cancelled }))
    modify (λ s. emit (finished_transaction (s.objects r).id cancelled) s)

  abbrev pub stop_found : GasValues → Option ℕ → M (Unit {0})
  stop_found v none = pure tt
  stop_found v (some r) = do x ← sent cancel_params v r; stop r

  unfoldable pub stop_transaction : String → Option GasValues → M (Unit {0})
  stop_transaction id given = do
    lift (validate_gas_values (values_of given))
    s ← get_state
    stop_found (values_of given) (get_transaction id s)

  -- `speedUpTransaction`.
  abbrev pub replacement : Fees → String → TransactionMeta → TransactionMeta
  replacement f hash m = record m {
    id = o.id;
    time = o.now;
    hash = some hash;
    action_id = o.action_id;
    estimated_base_fee = o.estimated_base_fee;
    rest = o.rest;
    tx_params = with_new_fees f m.tx_params;
  }

  unfoldable pub push_replacement : ℕ → Fees → String → TransactionMeta → State → State
  push_replacement array f hash m s =
      let t = new_object (replacement f hash m) s in
      emit (speedup_transaction m.id o.id) (
        update_trimmed env array
          (record t { arrays = written array (t.arrays array ++ s.next_object ∷ []) t.arrays }))

  abbrev pub speed_up_found : GasValues → Option ℕ → M (Unit {0})
  speed_up_found v none = pure tt
  speed_up_found v (some r) = do
    s ← get_state
    x ← sent speedup_params v r
    modify (λ t. push_replacement s.transactions x.0 x.1 (t.objects r) t)

  abbrev pub speed_up_new : String → Option GasValues → Option ℕ → M (Unit {0})
  speed_up_new id given (some q) = pure tt
  speed_up_new id given none = do
    lift (validate_gas_values (values_of given))
    s ← get_state
    speed_up_found (values_of given) (get_transaction id s)

  unfoldable pub speed_up_transaction : String → Option GasValues → M (Unit {0})
  speed_up_transaction id given s =
      speed_up_new id given (get_transaction_with_action_id o.action_id s) s
