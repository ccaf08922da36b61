-- ===== src/Transaction/Samples.antt =====
-- Small inputs for TransactionController.ts.
use Prim.Native.Char.{nul}
use Prim.Native.String.compare
use fork_metamask_core.Common.{
  false, Option, ap, ℕ, zero, suc, ◌≡◌, refl, String, true, false, not, none, some, [], ◌∷◌, ◌==◌,
  string_eq, nat_eq, if◌then◌else◌,
}
use fork_metamask_core.Common.Monad.{ok}
use fork_metamask_core.Common.Js.{undefined}
use fork_metamask_core.Transaction.State.{
  absent, holds, TransactionParams, TransactionMeta, Env, State, Status, submitted, unapproved,
}
use fork_metamask_core.Transaction.Approve.{ApproveOptions, SignedTx}
use fork_metamask_core.Transaction.Replace.{ReplaceOptions, GasValues}

-- `addHexPrefix` on texts that have the prefix, or nothing.
abbrev pub prefixed : String → String
prefixed s = if s == "" then "0x" else s

abbrev pub env : Env
env = record {
  tx_history_limit = 2;
  is_history_disabled = true;
  is_send_flow_history_disabled = true;
  chain_id = "0x1";
  add_hex_prefix = prefixed;
  to_lower = λ s. s;
  is_valid_hex_address = λ s. not (s == "");
  is_valid_number = λ s. true;
  has_minus = λ s. false;
  has_dot = λ s. false;
  has_buffer_overrun = λ s. false;
  chain_number = λ s. 1;
  day = λ n. 0;
  history_entry = λ m note. none;
  snapshot = λ m. 0;
  as_value = λ e. undefined;
}

abbrev pub params : TransactionParams
params = record {
  from = holds "0xa";
  to = holds "0xb";
  data' = absent;
  value = holds "0x0";
  nonce = holds "0x7";
  gas = holds "0x5208";
  gas_limit = absent;
  gas_price = absent;
  max_fee_per_gas = holds "0x9";
  max_priority_fee_per_gas = absent;
  estimated_base_fee = absent;
  type = absent;
  chain_id = absent;
  gas_used = absent;
}

abbrev pub meta : String → Status → ℕ → TransactionMeta
meta id status time = record {
  id = id;
  action_id = none;
  chain_id = "0x1";
  origin = some "dapp";
  status = status;
  time = time;
  hash = none;
  tx_params = params;
  user_fee_level = none;
  default_gas_estimates = none;
  error = none;
  raw_tx = none;
  r = absent;
  s = absent;
  v = absent;
  submitted_time = none;
  estimated_base_fee = none;
  replaced_by = none;
  replaced_by_id = none;
  verified_on_blockchain = false;
  send_flow_history = none;
  history = none;
  rest = undefined;
}

-- Two transactions, the first of them sent.
abbrev pub object : ℕ → TransactionMeta
object zero = meta "first" submitted 1
object (suc n) = meta "second" unapproved 2

abbrev pub two : State
two = record {
  objects = object;
  arrays = λ r. 0 ∷ 1 ∷ [];
  strays = λ r. none;
  transactions = 0;
  next_object = 2;
  next_array = 1;
  is_locked = false;
  emitted = [];
}

abbrev pub signed : SignedTx
signed = record { r = some "0x1"; s = some "0x2"; v = none; serialized = "0xf8" }

abbrev pub all_well : ApproveOptions
all_well = record {
  has_sign = true;
  next_nonce = ok "0x7";
  signed_tx = ok signed;
  sent = ok "0xhash";
  now = 8;
}

-- Numbers are written by the length of a text after its first character, and the rate adds one.
abbrev ones : ℕ → String
ones zero = ""
ones (suc n) = String.◌∷◌ nul (ones n)

abbrev size : String → ℕ
size String.[] = 0
size (String.◌∷◌ c s) = suc (size s)

abbrev pub text_of_number : ℕ → String
text_of_number n = String.◌∷◌ nul (ones n)

abbrev pub number_of_text : String → ℕ
number_of_text String.[] = 0
number_of_text (String.◌∷◌ c s) = size s

size-ones : (n : ℕ) → size (ones n) ≡ n
size-ones zero = refl
size-ones (suc n) = ap suc (size-ones n)

pub number-text :
    (n : ℕ) → (number_of_text (text_of_number n) ≡ n) × ((text_of_number n == "") ≡ false)
number-text n = (size-ones n, rw (compare.cons-nil nul (ones n)) refl)

abbrev pub both_fees : Option GasValues
both_fees = some (record {
  gas_price = absent;
  max_fee_per_gas = holds (text_of_number 5);
  max_priority_fee_per_gas = holds (text_of_number 6);
})

abbrev pub replace_options : ReplaceOptions
replace_options = record {
  to_number = number_of_text;
  to_hex = text_of_number;
  raised = λ n. suc n;
  is_hex = λ s. true;
  has_sign = true;
  sign = λ p. ok signed;
  send = λ raw. ok "0xhash";
  action_id = none;
  estimated_base_fee = none;
  id = "faster";
  now = 9;
  rest = undefined;
}
