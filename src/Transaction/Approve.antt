-- ===== src/Transaction/Approve.antt =====
-- `approveTransaction` of TransactionController.ts, and how `processApproval` ends.
use fork_metamask_core.Common.{
  ℕ, String, Bool, true, false, not, Option, none, some, if◌then◌else◌, ◌==◌, string_eq, find,
}
use fork_metamask_core.Common.Monad.{
  Result, ok, err, ◌>>=◌, ◌>>◌, pure, throw, get_state, modify, lift,
}
use fork_metamask_core.Transaction.State.{
  Status, approved, cancelled, confirmed, failed, rejected, signed, submitted, Field, holds,
  is_truthy, TransactionMeta, Env, Error, no_sign, no_chain_id, type_error, State, M, has_id, emit,
  finished_transaction,
}
use fork_metamask_core.Transaction.Store.{set_object, update_transaction, fail_transaction}

-- `TypedTransaction` as it was signed: r, s and v in hexadecimal, where there are any, and the text of
-- what it serializes to.
pub record SignedTx : Type 0 where
  pub r : Option String
  pub s : Option String
  pub v : Option String
  pub serialized : String

-- What an approval awaits: the next nonce of the tracker, what is signed, and the hash that the network
-- answers. `now` is the time of the submission.
pub record ApproveOptions : Type 0 where
  pub has_sign : Bool
  pub next_nonce : Result Error String
  pub signed_tx : Result Error SignedTx
  pub sent : Result Error String
  pub now : ℕ

-- An approval waits for the mutex, or it came to its end.
pub data Progress : Type 0 where
  waits ended : Progress

module _ (env : Env) where
  -- `updateTransactionMetaRSV`.
  abbrev pub prefixed_or : Option String → Field → Field
  prefixed_or none old = old
  prefixed_or (some t) old = holds (env.add_hex_prefix t)

  abbrev pub update_transaction_meta_rsv : SignedTx → TransactionMeta → TransactionMeta
  update_transaction_meta_rsv tx m = record m {
    r = prefixed_or tx.r m.r;
    s = prefixed_or tx.s m.s;
    v = prefixed_or tx.v m.v;
  }

  -- `transactions[index]`, with the index that `findIndex` gave.
  abbrev pub or_stray : Option ℕ → Option ℕ → Option ℕ
  or_stray (some r) stray = some r
  or_stray none stray = stray

  abbrev pub transaction_at : ℕ → String → State → Option ℕ
  transaction_at array id s =
      or_stray (find (λ r. has_id id (s.objects r)) (s.arrays array)) (s.strays array)

module _ (env : Env) (o : ApproveOptions) where
  abbrev pub nonce_to_use : Field → M Field
  nonce_to_use nonce =
      if is_truthy nonce then pure nonce else (lift o.next_nonce >>= λ n. pure (holds n))

  abbrev pub set_status : Status → TransactionMeta → TransactionMeta
  set_status status m = record m { status = status }

  abbrev pub changed : ℕ → (TransactionMeta → TransactionMeta) → String → M (Unit {0})
  changed r f note = modify (set_object r f) >> update_transaction env r note

  abbrev pub finish : ℕ → M (Unit {0})
  finish r = modify (λ t. emit (finished_transaction (t.objects r).id submitted) t)

  abbrev pub signed_with : SignedTx → TransactionMeta → TransactionMeta
  signed_with tx m = set_status signed (update_transaction_meta_rsv env tx m)

  abbrev pub with_raw : String → TransactionMeta → TransactionMeta
  with_raw raw m = record m { raw_tx = some raw }

  abbrev pub submitted_as : String → TransactionMeta → TransactionMeta
  submitted_as hash m = record m {
    hash = some hash;
    status = submitted;
    submitted_time = some o.now;
  }

  abbrev pub approved_with : Field → TransactionMeta → TransactionMeta
  approved_with nonce m = record m {
    status = approved;
    tx_params = record (m.tx_params) { nonce = nonce; chain_id = holds env.chain_id };
  }

  -- The `try` block once there is a method to sign and a chain, from its end.
  abbrev pub send : ℕ → M (Unit {0})
  send r = do hash ← lift o.sent; changed r (submitted_as hash) "Transaction submitted"; finish r

  abbrev pub sign_with : ℕ → M (Unit {0})
  sign_with r = do
    tx ← lift o.signed_tx
    changed r (signed_with tx) "Transaction signed"
    changed r (with_raw tx.serialized) "RawTransaction added"
    send r

  unfoldable pub sign_and_send : ℕ → M (Unit {0})
  sign_and_send r = do
    s ← get_state
    nonce ← nonce_to_use (s.objects r).tx_params.nonce
    modify (set_object r (approved_with nonce))
    sign_with r

  abbrev pub try_approve : ℕ → M (Unit {0})
  try_approve r =
      if not o.has_sign
      then fail_transaction env r no_sign
      else if env.chain_id == ""
      then fail_transaction env r no_chain_id
      else sign_and_send r

  -- `catch` and `finally`.
  abbrev pub released : Result Error (Unit {0}) × State → Result Error Progress × State
  released (ok u, s) = (ok ended, record s { is_locked = false })
  released (err e, s) = (err e, record s { is_locked = false })

  abbrev pub caught : ℕ → Result Error (Unit {0}) × State → Result Error (Unit {0}) × State
  caught r (ok u, s) = (ok u, s)
  caught r (err e, s) = fail_transaction env r e s

  -- With the lock, and the array that was the state's before it was waited for. Where the array has
  -- no transaction at the index, its properties are read of `undefined`, before the `try` block.
  abbrev pub with_lock : Option ℕ → M Progress
  with_lock none = throw type_error
  with_lock (some r) = λ s. released (caught r (try_approve r s))

  unfoldable pub approve_transaction : ℕ → String → M Progress
  approve_transaction array id s =
      if s.is_locked
      then (ok waits, s)
      else with_lock (transaction_at env array id s) (record s { is_locked = true })

-- The end of `processApproval`, by the status of the transaction that finished.
pub data Answer : Type 0 where
  answers_hash : Option String → Answer
  throws_failure throws_cancelled throws_unknown : Answer

unfoldable pub process_result : Status → Option String → Answer
process_result failed hash = throws_failure
process_result cancelled hash = throws_cancelled
process_result submitted hash = answers_hash hash
process_result _ hash = throws_unknown

-- `isLocalFinalState`.
abbrev pub is_local_final_state : Status → Bool
is_local_final_state cancelled = true
is_local_final_state confirmed = true
is_local_final_state failed = true
is_local_final_state rejected = true
is_local_final_state submitted = true
is_local_final_state _ = false
