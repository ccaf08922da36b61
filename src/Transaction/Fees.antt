-- ===== src/Transaction/Fees.antt =====
-- What utils/gas-fees.ts of packages/transaction-controller/src leaves in the parameters.
use fork_metamask_core.Common.{◌≡◌, true, false, not, ◌||◌, string_eq, arith, inl, inr, Bool-cases}
use fork_metamask_core.Transaction.State.{is_truthy, TransactionParams, TransactionMeta}
use fork_metamask_core.Transaction.GasFees.{SuggestedGasFees, with_gas_fees, first_of}

-- The fees of a network with EIP-1559: no gas price, a priority fee where there is a maximum fee, and
-- the two that were given before.
abbrev pub IsMarket : TransactionParams → TransactionParams → Type 0
IsMarket given p =
    (is_truthy p.gas_price ≡ false)
    × ((not (is_truthy p.max_fee_per_gas) || is_truthy p.max_priority_fee_per_gas) ≡ true)
    × (first_of given.max_fee_per_gas p.max_fee_per_gas ≡ p.max_fee_per_gas)
    × (first_of given.max_priority_fee_per_gas p.max_priority_fee_per_gas
        ≡ p.max_priority_fee_per_gas)

-- Those of one without: only a gas price, the one that was given before.
abbrev pub IsLegacy : TransactionParams → TransactionParams → Type 0
IsLegacy given p =
    (is_truthy p.max_fee_per_gas ≡ false)
    × (is_truthy p.max_priority_fee_per_gas ≡ false)
    × (first_of given.gas_price p.gas_price ≡ p.gas_price)

with_gas_fees-IsMarket :
    (suggested : SuggestedGasFees) (m : TransactionMeta)
    → IsMarket m.tx_params (with_gas_fees true suggested m).tx_params
unfolding with_gas_fees
with_gas_fees-IsMarket suggested m = elim (Bool-cases (is_truthy m.tx_params.gas_price)) [
  | inl g ↦ elim (Bool-cases (is_truthy m.tx_params.max_fee_per_gas)) [
    | inl x ↦ ground (arith, g, x)
    | inr x ↦ ground (arith, g, x)
  ]
  | inr g ↦ elim (Bool-cases (is_truthy m.tx_params.max_fee_per_gas)) [
    | inl x ↦ ground (arith, g, x)
    | inr x ↦ ground (arith, g, x)
  ]
]

with_gas_fees-IsLegacy :
    (suggested : SuggestedGasFees) (m : TransactionMeta)
    → IsLegacy m.tx_params (with_gas_fees false suggested m).tx_params
unfolding with_gas_fees
with_gas_fees-IsLegacy suggested m = ground arith

-- Whatever fees are suggested, on a network with EIP-1559 the parameters have no gas price, a priority
-- fee where they have a maximum fee, and the fees that were given; on one without they have neither fee,
-- and the gas price that was given.
pub with_gas_fees-IsPriced :
    (suggested : SuggestedGasFees) (m : TransactionMeta)
    → IsMarket m.tx_params (with_gas_fees true suggested m).tx_params
      × IsLegacy m.tx_params (with_gas_fees false suggested m).tx_params
with_gas_fees-IsPriced suggested m =
    (with_gas_fees-IsMarket suggested m, with_gas_fees-IsLegacy suggested m)
