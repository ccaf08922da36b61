-- ===== src/Transaction/GasFees.antt =====
-- utils/gas-fees.ts of packages/transaction-controller/src.
use fork_metamask_core.Common.{
  String, Bool, false, not, ◌&&◌, ◌||◌, Option, none, some, if◌then◌else◌, ◌==◌, string_eq,
}
use fork_metamask_core.Common.Monad.{Result, ok, err}
use fork_metamask_core.Transaction.State.{
  Field, absent, unset, holds, is_truthy, TransactionParams, TransactionMeta, DefaultGasEstimates,
  UserFeeLevel, custom, dapp_suggested, medium, Error,
}

-- What `getGasFeeEstimates` resolves to, by its type, or its rejection. The values are in gwei.
pub data Estimates : Type 0 where
  fee_market : Field → Field → Estimates
  legacy eth_gas_price : String → Estimates
  no_estimates rejects : Estimates

-- `Awaited<ReturnType<typeof getSuggestedGasFees>>`.
pub record SuggestedGasFees : Type 0 where
  pub gas_price : Field
  pub max_fee_per_gas : Field
  pub max_priority_fee_per_gas : Field

abbrev pub nothing_suggested : SuggestedGasFees
nothing_suggested = record {
  gas_price = absent;
  max_fee_per_gas = absent;
  max_priority_fee_per_gas = absent;
}

abbrev pub price_suggested : Field → SuggestedGasFees
price_suggested price = record nothing_suggested { gas_price = price }

-- `a ? a : b`.
abbrev pub first_of : Field → Field → Field
first_of a b = if is_truthy a then a else b

module _ (to_wei_hex : String → String) where
  abbrev pub market_suggested : Field → Field → Option SuggestedGasFees
  market_suggested (holds p) (holds m) =
      if p == "" || m == ""
      then none
      else some (record {
        gas_price = absent;
        max_fee_per_gas = holds (to_wei_hex m);
        max_priority_fee_per_gas = holds (to_wei_hex p);
      })
  market_suggested _ _ = none

  abbrev pub estimated : Bool → Estimates → Option SuggestedGasFees
  estimated eip1559 (fee_market priority max) =
      if eip1559 then market_suggested priority max else none
  estimated eip1559 (legacy medium_price) = some (price_suggested (holds (to_wei_hex medium_price)))
  estimated eip1559 (eth_gas_price price) = some (price_suggested (holds (to_wei_hex price)))
  estimated eip1559 no_estimates = none
  estimated eip1559 rejects = none

  -- `getSuggestedGasFees`, with the answer of `eth_gasPrice`, which may be an error: it is thrown.
  unfoldable pub get_suggested_gas_fees :
      Bool → TransactionParams → Estimates → Result Error Field → Result Error SuggestedGasFees
  get_suggested_gas_fees eip1559 p estimates gas_price =
      if (not eip1559 && is_truthy p.gas_price)
        || (eip1559 && (is_truthy p.max_fee_per_gas && is_truthy p.max_priority_fee_per_gas))
      then ok nothing_suggested
      else elim (estimated eip1559 estimates) [
        | some suggested ↦ ok suggested
        | none ↦ elim gas_price [ ok price ↦ ok (price_suggested price) | err e ↦ err e ]
      ]

abbrev pub get_max_fee_per_gas : Bool → TransactionParams → SuggestedGasFees → Field
get_max_fee_per_gas eip1559 initial suggested =
    if not eip1559
    then unset
    else if is_truthy initial.max_fee_per_gas
    then initial.max_fee_per_gas
    else if is_truthy initial.gas_price && not (is_truthy initial.max_priority_fee_per_gas)
    then initial.gas_price
    else first_of suggested.max_fee_per_gas (first_of suggested.gas_price unset)

-- The last argument is the maximum fee that was set just before.
abbrev pub get_max_priority_fee_per_gas :
    Bool → TransactionParams → SuggestedGasFees → Field → Field
get_max_priority_fee_per_gas eip1559 initial suggested max_fee =
    if not eip1559
    then unset
    else if is_truthy initial.max_priority_fee_per_gas
    then initial.max_priority_fee_per_gas
    else if is_truthy initial.gas_price && not (is_truthy initial.max_fee_per_gas)
    then initial.gas_price
    else first_of suggested.max_priority_fee_per_gas (first_of max_fee unset)

abbrev pub get_gas_price : Bool → TransactionParams → SuggestedGasFees → Field
get_gas_price eip1559 initial suggested =
    if eip1559 then unset else first_of initial.gas_price (first_of suggested.gas_price unset)

abbrev pub is_internal : Option String → Bool
is_internal none = false
is_internal (some origin) = origin == "metamask"

abbrev pub get_user_fee_level :
    Bool → TransactionParams → SuggestedGasFees → Option String → Option UserFeeLevel
get_user_fee_level eip1559 initial suggested origin =
    let no_market =
      not (is_truthy initial.max_fee_per_gas) && not (is_truthy initial.max_priority_fee_per_gas) in
    if not eip1559
    then none
    else if no_market && is_truthy initial.gas_price
    then some (if is_internal origin then custom else dapp_suggested)
    else if no_market
        && (is_truthy suggested.max_fee_per_gas && is_truthy suggested.max_priority_fee_per_gas)
    then some medium
    else if is_internal origin
    then some medium
    else some dapp_suggested

-- The two deletions of `updateGasFees`.
abbrev pub without_gas_price : TransactionParams → TransactionParams
without_gas_price p =
    if is_truthy p.max_fee_per_gas || is_truthy p.max_priority_fee_per_gas
    then record p { gas_price = absent }
    else p

abbrev pub without_market : TransactionParams → TransactionParams
without_market p =
    if is_truthy p.gas_price
    then record p { max_fee_per_gas = absent; max_priority_fee_per_gas = absent }
    else p

abbrev pub no_defaults : DefaultGasEstimates
no_defaults = record {
  gas = absent;
  gas_price = absent;
  max_fee_per_gas = absent;
  max_priority_fee_per_gas = absent;
  estimate_type = none;
}

abbrev pub defaults_of : Option DefaultGasEstimates → DefaultGasEstimates
defaults_of none = no_defaults
defaults_of (some g) = g

-- `updateDefaultGasEstimates`.
abbrev pub update_default_gas_estimates : TransactionMeta → TransactionMeta
update_default_gas_estimates m = record m {
  default_gas_estimates = some (record (defaults_of m.default_gas_estimates) {
    gas_price = m.tx_params.gas_price;
    max_fee_per_gas = m.tx_params.max_fee_per_gas;
    max_priority_fee_per_gas = m.tx_params.max_priority_fee_per_gas;
    estimate_type = m.user_fee_level;
  });
}

-- The writes of `updateGasFees`, once there are suggested fees.
unfoldable pub with_gas_fees : Bool → SuggestedGasFees → TransactionMeta → TransactionMeta
with_gas_fees eip1559 suggested m =
    let initial = m.tx_params in
    let max_fee = get_max_fee_per_gas eip1559 initial suggested in
    let priced = record initial {
      max_fee_per_gas = max_fee;
      max_priority_fee_per_gas = get_max_priority_fee_per_gas eip1559 initial suggested max_fee;
      gas_price = get_gas_price eip1559 initial suggested;
    } in
    update_default_gas_estimates (record m {
      tx_params = without_market (without_gas_price priced);
      user_fee_level = get_user_fee_level eip1559 initial suggested m.origin;
    })

unfoldable pub update_gas_fees :
    (String → String)
    → Bool
    → Estimates
    → Result Error Field
    → TransactionMeta
    → Result Error TransactionMeta
update_gas_fees to_wei_hex eip1559 estimates gas_price m =
    elim (get_suggested_gas_fees to_wei_hex eip1559 m.tx_params estimates gas_price) [
      | ok suggested ↦ ok (with_gas_fees eip1559 suggested m)
      | err e ↦ err e
    ]
