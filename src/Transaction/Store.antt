-- ===== src/Transaction/Store.antt =====
-- The array of transactions in the state of TransactionController.ts, and `updateTransaction`.
use fork_metamask_core.Common.{
  any, ℕ, suc, ◌≡◌, ◌↔◌, String, Bool, true, false, ◌&&◌, Option, none, some, List, [], ◌∷◌, ◌++◌,
  if◌then◌else◌, arith, eqb, ◌==◌, HasEquality, string_eq, nat_eq,
}
use fork_metamask_core.Common.Monad.{
  Result, ok, err, ◌>>=◌, ◌>>◌, pure, throw, get_state, modify, lift,
}
use fork_metamask_core.Transaction.State.{
  Status, confirmed, rejected, failed, cancelled, Field, holds, TransactionMeta, Env, Error,
  type_error, State, M, written, current, has_id, emit, finished_transaction,
}
use fork_metamask_core.Transaction.Trim.{sort_by_time, trimmed}
use fork_metamask_core.Transaction.Params.{normalize_tx_params, validate_tx_params}

-- The key of `nonceNetworkSet`: the nonce, the number of the chain and the day.
pub record Key : Type 0 where
  pub nonce : String
  pub chain : ℕ
  pub day : ℕ

abbrev pub key_eqb : Key → Key → Bool
key_eqb a b = a.nonce == b.nonce && (eqb a.chain b.chain && eqb a.day b.day)

pub key_eqb_iff : (a b : Key) → (key_eqb a b ≡ true) ↔ (a ≡ b)
key_eqb_iff a b = ground (arith, string_eq.same_iff a.nonce b.nonce)

instance abbrev pub key_eq : HasEquality Key
key_eq = record { same_iff = key_eqb_iff; same = key_eqb }

abbrev pub nonce_text : Field → String
nonce_text (holds s) = s
nonce_text _ = "undefined"

-- `isFinalState`.
abbrev pub is_final_state : Status → Bool
is_final_state rejected = true
is_final_state confirmed = true
is_final_state failed = true
is_final_state cancelled = true
is_final_state _ = false

abbrev pub set_object : ℕ → (TransactionMeta → TransactionMeta) → State → State
set_object r f s = record s { objects = written r (f (s.objects r)) s.objects }

abbrev pub new_object : TransactionMeta → State → State
new_object m s = record s {
  objects = written s.next_object m s.objects;
  next_object = suc s.next_object;
}

-- A new array, which is then the state's.
abbrev pub new_array : List ℕ → State → State
new_array xs s = record s {
  arrays = written s.next_array xs s.arrays;
  strays = written s.next_array none s.strays;
  transactions = s.next_array;
  next_array = suc s.next_array;
}

-- The write at `findIndex`; at index -1 it changes no item of the array, but its property "-1".
abbrev pub set_first : (ℕ → Bool) → ℕ → List ℕ → List ℕ
set_first p r [] = []
set_first p r (q ∷ qs) = if p q then r ∷ qs else q ∷ set_first p r qs

module _ (env : Env) where
  abbrev pub time_of : State → ℕ → ℕ
  time_of s r = (s.objects r).time

  abbrev pub key_of : State → ℕ → Key
  key_of s r = record {
    nonce = nonce_text (s.objects r).tx_params.nonce;
    chain = env.chain_number (s.objects r).chain_id;
    day = env.day (s.objects r).time;
  }

  abbrev pub final_of : State → ℕ → Bool
  final_of s r = is_final_state (s.objects r).status

  abbrev pub sorted_of : State → List ℕ → List ℕ
  sorted_of s xs = sort_by_time (time_of s) (key_of s) (final_of s) xs

  abbrev pub trimmed_of : State → List ℕ → List ℕ
  trimmed_of s xs = trimmed (time_of s) (key_of s) (final_of s) env.tx_history_limit xs

  -- `this.update({ transactions: this.trimTransactionsForState(array) })`, for an array that others
  -- hold: it is sorted in place. And for one that the caller has just made.
  unfoldable pub update_trimmed : ℕ → State → State
  update_trimmed array s =
      let sorted = sorted_of s (s.arrays array) in
      new_array (trimmed_of s sorted) (record s { arrays = written array sorted s.arrays })

  unfoldable pub update_fresh : List ℕ → State → State
  update_fresh xs s = new_array (trimmed_of s (sorted_of s xs)) s

  -- `updateTransactionHistory`.
  abbrev pub pushed : Option ℕ → List ℕ → List ℕ
  pushed none entries = entries
  pushed (some e) entries = entries ++ e ∷ []

  abbrev pub update_transaction_history : TransactionMeta → String → Result Error TransactionMeta
  update_transaction_history m note = elim m.history [
    | none ↦ err type_error
    | some entries ↦ ok (record m { history = some (pushed (env.history_entry m note) entries) })
  ]

  abbrev pub with_history : TransactionMeta → String → Result Error TransactionMeta
  with_history m note = if env.is_history_disabled then ok m else update_transaction_history m note

  abbrev pub put_in_array : ℕ → String → State → State
  put_in_array r id s =
      let is_it = λ (q : ℕ). has_id id (s.objects q) in
      record s {
        arrays = written s.transactions (set_first is_it r (current s)) s.arrays;
        strays =
            if any is_it (current s) then s.strays else written s.transactions (some r) s.strays;
      }

  abbrev pub or_throw : Option Error → M (Unit {0})
  or_throw none = pure tt
  or_throw (some e) = throw e

  -- `updateTransaction`, of the object under a reference. The parameters are normalized also where
  -- the checks throw.
  unfoldable pub update_transaction : ℕ → String → M (Unit {0})
  update_transaction r note = do
    modify (set_object r (λ m. record m { tx_params = normalize_tx_params env m.tx_params }))
    s ← get_state
    let validated = validate_tx_params env (s.objects r).tx_params true
    modify (set_object r (λ m. record m { tx_params = validated.1 }))
    or_throw validated.0
    t ← get_state
    m ← lift (with_history (t.objects r) note)
    modify (set_object r (λ old. m))
    modify (put_in_array r m.id)
    modify (λ u. update_trimmed u.transactions u)

  -- `failTransaction`.
  unfoldable pub fail_transaction : ℕ → Error → M (Unit {0})
  fail_transaction r error = do
    s ← get_state
    let m = s.objects r
    modify (new_object (record m { error = some (env.as_value error); status = failed }))
    update_transaction s.next_object "failTransaction"
    modify (emit (finished_transaction m.id failed))
