-- ===== src/Transaction/Normal.antt =====
-- The normal form of the parameters in utils.ts of packages/transaction-controller/src/utils.
use fork_metamask_core.Common.{◌≡◌, ◌≢◌, refl, String, false, arith, ◌==◌, string_eq}
use fork_metamask_core.Transaction.State.{Field, absent, unset, holds, TransactionParams, Env}
use fork_metamask_core.Transaction.Params.{normalized, or_empty, normal_type, normalize_tx_params}

-- A normal form of a text that is not empty, and is its own normal form.
abbrev pub IsNormal : (String → String) → Type 0
IsNormal f = (x : String) → ((f x == "") ≡ false) × (f (f x) ≡ f x)

normalized-normalized :
    (f : String → String) (x : Field)
    → IsNormal f
    → normalized (λ s. holds (f s)) (normalized (λ s. holds (f s)) x)
      ≡ normalized (λ s. holds (f s)) x
normalized-normalized f absent h = refl
normalized-normalized f unset h = refl
normalized-normalized f (holds s) h = ground (arith, h s)

from_again :
    (f : String → String) (x : Field)
    → IsNormal f
    → let from = or_empty (normalized (λ s. holds (f s)) x) in
      or_empty (normalized (λ s. holds (f s)) from) ≡ from
from_again f absent h = refl
from_again f unset h = refl
from_again f (holds s) h = ground (arith, h s)

type_again :
    (x : Field)
    → normalized normal_type x ≢ unset
    → normalized normal_type (normalized normal_type x) ≡ normalized normal_type x
type_again absent h = refl
type_again unset h = refl
type_again (holds s) h = ground (arith, h)

module _ (env : Env) where
  -- Normal parameters stay as they are, where the type of the transaction is not one that is removed.
  pub normalize_tx_params-normalize_tx_params :
      (p : TransactionParams)
      → IsNormal env.add_hex_prefix
      → IsNormal (λ x. env.to_lower (env.add_hex_prefix x))
      → normalized normal_type p.type ≢ unset
      → normalize_tx_params env (normalize_tx_params env p) ≡ normalize_tx_params env p
  unfolding normalize_tx_params
  normalize_tx_params-normalize_tx_params p h g t =
      let again = λ (x : Field). normalized-normalized env.add_hex_prefix x h in
      let lower_again =
        λ (x : Field). normalized-normalized (λ y. env.to_lower (env.add_hex_prefix y)) x g in
      rw
        (
          from_again (λ y. env.to_lower (env.add_hex_prefix y)) p.from g,
          lower_again p.to,
          again p.data',
          again p.value,
          again p.nonce,
          again p.gas,
          again p.gas_limit,
          again p.gas_price,
          again p.max_fee_per_gas,
          again p.max_priority_fee_per_gas,
          again p.estimated_base_fee,
          type_again p.type t,
        )
        refl
