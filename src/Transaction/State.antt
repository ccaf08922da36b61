-- ===== src/Transaction/State.antt =====
-- The data of TransactionController.ts and types.ts of packages/transaction-controller/src.
use fork_metamask_core.Common.{
  ℕ, String, Bool, true, false, not, Option, List, ◌∷◌, ◌==◌, string_eq, nat_eq, if◌then◌else◌,
  find,
}
use fork_metamask_core.Common.Monad.{Action}
use fork_metamask_core.Common.Js.{Value}

-- `TransactionStatus`.
pub data Status : Type 0 where
  approved cancelled confirmed dropped failed rejected signed submitted unapproved : Status

abbrev pub status_eqb : Status → Status → Bool
status_eqb approved approved = true
status_eqb cancelled cancelled = true
status_eqb confirmed confirmed = true
status_eqb dropped dropped = true
status_eqb failed failed = true
status_eqb rejected rejected = true
status_eqb signed signed = true
status_eqb submitted submitted = true
status_eqb unapproved unapproved = true
status_eqb _ _ = false

-- A property of an object: no own property, an own one that is undefined, or a text.
pub data Field : Type 0 where
  absent unset : Field
  holds : String → Field

abbrev pub is_truthy : Field → Bool
is_truthy (holds s) = not (s == "")
is_truthy _ = false

-- `hasOwnProperty`.
abbrev pub is_own : Field → Bool
is_own absent = false
is_own _ = true

-- `a === b`, where a property that is missing is undefined.
abbrev pub same_field : Field → Field → Bool
same_field (holds s) (holds t) = s == t
same_field (holds s) _ = false
same_field _ (holds t) = false
same_field _ _ = true

pub record TransactionParams : Type 0 where
  pub from : Field
  pub to : Field
  pub data' : Field
  pub value : Field
  pub nonce : Field
  pub gas : Field
  pub gas_limit : Field
  pub gas_price : Field
  pub max_fee_per_gas : Field
  pub max_priority_fee_per_gas : Field
  pub estimated_base_fee : Field
  pub type : Field
  pub chain_id : Field
  pub gas_used : Field

pub data UserFeeLevel : Type 0 where
  custom dapp_suggested medium : UserFeeLevel

pub record DefaultGasEstimates : Type 0 where
  pub gas : Field
  pub gas_price : Field
  pub max_fee_per_gas : Field
  pub max_priority_fee_per_gas : Field
  pub estimate_type : Option UserFeeLevel

-- `TransactionMeta`. The entries of its history are tokens, in a list that copies do not share, and
-- `rest` stands for the properties that the controller only passes on.
pub record TransactionMeta : Type 0 where
  pub id : String
  pub action_id : Option String
  pub chain_id : String
  pub origin : Option String
  pub status : Status
  pub time : ℕ
  pub hash : Option String
  pub tx_params : TransactionParams
  pub user_fee_level : Option UserFeeLevel
  pub default_gas_estimates : Option DefaultGasEstimates
  pub error : Option Value
  pub raw_tx : Option String
  pub r : Field
  pub s : Field
  pub v : Field
  pub submitted_time : Option ℕ
  pub estimated_base_fee : Option String
  pub replaced_by : Option String
  pub replaced_by_id : Option String
  pub verified_on_blockchain : Bool
  pub send_flow_history : Option (List Value)
  pub history : Option (List ℕ)
  pub rest : Value

-- The messages of the errors are left out. `thrown` is what a function of a client throws.
pub data Error : Type 0 where
  eip1559_not_supported invalid_from invalid_to negative_value fractional_value invalid_value :
      Error
  buffer_overrun invalid_account unauthorized send_flow_disabled no_metadata : Error
  external_not_confirmed external_nonce_pending external_nonce_confirmed type_error : Error
  not_unapproved : Status → Error
  no_sign no_chain_id too_low user_rejected : Error
  thrown : Value → Error

-- What the controller has besides its state: its configuration, the network, and functions of other
-- packages. `day` is the date of a time in the user's time zone, `chain_number` the number of a
-- chain id, `history_entry` the difference to the last entry of the history, if there is any, and
-- `as_value` an error as a value.
pub record Env : Type 0 where
  pub tx_history_limit : ℕ
  pub is_history_disabled : Bool
  pub is_send_flow_history_disabled : Bool
  pub chain_id : String
  pub add_hex_prefix : String → String
  pub to_lower : String → String
  pub is_valid_hex_address : String → Bool
  pub is_valid_number : String → Bool
  pub has_minus : String → Bool
  pub has_dot : String → Bool
  pub has_buffer_overrun : String → Bool
  pub chain_number : String → ℕ
  pub day : ℕ → ℕ
  pub history_entry : TransactionMeta → String → Option ℕ
  pub snapshot : TransactionMeta → ℕ
  pub as_value : Error → Value

-- What the hub emits.
pub data Emitted : Type 0 where
  unapproved_transaction : String → Emitted
  finished_transaction : String → Status → Emitted
  confirmed_transaction : String → Emitted
  speedup_transaction : String → String → Emitted

-- The store: objects and arrays under references, the array of the state, and the events that were
-- emitted, the newest first.
pub record State : Type 0 where
  pub objects : ℕ → TransactionMeta
  pub arrays : ℕ → List ℕ
  -- The property "-1" of an array, which the write at the index of a missing item sets.
  pub strays : ℕ → Option ℕ
  pub transactions : ℕ
  pub next_object : ℕ
  pub next_array : ℕ
  -- The mutex of approvals.
  pub is_locked : Bool
  pub emitted : List Emitted

abbrev pub M : Type 0 → Type 0
M = Action State Error

-- A store with one reference written.
abbrev pub written {ℓ} : {A : Type ℓ} → ℕ → A → (ℕ → A) → ℕ → A
written r a store q = if q == r then a else store q

abbrev pub current : State → List ℕ
current s = s.arrays s.transactions

-- The references of the state's array to objects that pass a test.
abbrev pub find_ref : (TransactionMeta → Bool) → State → Option ℕ
find_ref p s = find (λ r. p (s.objects r)) (current s)

abbrev pub has_id : String → TransactionMeta → Bool
has_id id m = m.id == id

abbrev pub emit : Emitted → State → State
emit e s = record s { emitted = e ∷ s.emitted }
