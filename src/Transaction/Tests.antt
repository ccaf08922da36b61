-- ===== src/Transaction/Tests.antt =====
-- Runs of TransactionController.ts on small inputs, and its theorems at concrete inputs.
use fork_metamask_core.Common.{
  Option, ◌⊎◌, ℕ, zero, suc, ◌≡◌, ◌≤◌, ◌+◌, refl, Bool, true, false, not, none, some, List, [], ◌∷◌,
  length, count, eqb, arith, All, string_eq, nat_eq,
}
use fork_metamask_core.Common.Monad.{err, ok}
use fork_metamask_core.Transaction.State.{
  submitted, user_rejected, cancelled, absent, holds, TransactionMeta, current, unapproved, has_id,
  finished_transaction, rejected,
}
use fork_metamask_core.Transaction.Trim.{txs_to_keep, sort_by_time, insert_by_time, is_seen, trim}
use fork_metamask_core.Transaction.Trimmed.{count-trim, trim-keys}
use fork_metamask_core.Transaction.Order.{trim-trim}
use fork_metamask_core.Transaction.Store.{
  update_transaction, update_fresh, update_trimmed, final_of,
}
use fork_metamask_core.Transaction.GasFees.{SuggestedGasFees, with_gas_fees}
use fork_metamask_core.Transaction.Fees.{IsMarket, IsLegacy, with_gas_fees-IsPriced}
use fork_metamask_core.Transaction.Controller.{cancel_transaction, is_wiped, wipe_transactions}
use fork_metamask_core.Transaction.Approve.{transaction_at, approve_transaction, waits}
use fork_metamask_core.Transaction.Params.{validate_tx_params, normalize_tx_params}
use fork_metamask_core.Transaction.Replace.{
  cancel_params, speedup_params, values_of, no_values, stop_transaction, speed_up_transaction,
  new_fees, with_new_fees, push_replacement,
}
use fork_metamask_core.Transaction.Raised.{pays_more}
use fork_metamask_core.Transaction.Replaced.{
  HasThrown, stop_transaction_lem, speed_up_transaction_lem,
}
use fork_metamask_core.Transaction.Process.{
  approval_answered, accepts, rejects, approval_answered_lock, approval_answered_rejects,
}
use fork_metamask_core.Transaction.Steps.{cancels, wipes, run}
use fork_metamask_core.Transaction.Stuck.{approve_transaction_lock}
use fork_metamask_core.Transaction.Waiting.{run-waits}
use fork_metamask_core.Transaction.Answered.{IsAnswered, approve_transaction-IsAnswered}
use fork_metamask_core.Transaction.Removal.{wipe_transactions_lem}
use fork_metamask_core.Transaction.Tracker.{Chain, Receipt}
use fork_metamask_core.Transaction.Lost.{emit_updates_loses, added, reported}
use fork_metamask_core.Transaction.Samples.{
  env, params, meta, two, all_well, text_of_number, number-text, both_fees, replace_options,
}

abbrev times : ℕ → ℕ
times n = n

abbrev suggested : SuggestedGasFees
suggested = record {
  gas_price = holds "0x3";
  max_fee_per_gas = absent;
  max_priority_fee_per_gas = absent;
}

with_gas_fees-IsPriced_example :
    IsMarket params (with_gas_fees true suggested (meta "first" unapproved 1)).tx_params
    × IsLegacy params (with_gas_fees false suggested (meta "first" unapproved 1)).tx_params
with_gas_fees-IsPriced_example = with_gas_fees-IsPriced suggested (meta "first" unapproved 1)

-- Five items, of which the second is not final, under a limit of two.
abbrev is_done : ℕ → Bool
is_done n = not (eqb n 2)

abbrev five : List ℕ
five = 1 ∷ 2 ∷ 3 ∷ 4 ∷ 5 ∷ []

trimmed_five : trim times times is_done 2 five ≡ 2 ∷ 4 ∷ 5 ∷ []
unfolding txs_to_keep sort_by_time insert_by_time
trimmed_five = refl

count-trim_example : count (eqb 2) (trim times times is_done 2 five) ≡ count (eqb 2) five
count-trim_example = count-trim times times is_done (eqb 2) 2 five (λ x e. ground (arith, e))

trim-keys_example :
    (keys : List ℕ) × (length keys ≤ 2 + count (λ x. not (is_done x)) five)
    × All (λ x. is_seen times times is_done x keys ≡ true) (trim times times is_done 2 five)
trim-keys_example = trim-keys times times is_done 2 five

trim-trim_example :
    trim times times is_done 2 (trim times times is_done 2 five) ≡ trim times times is_done 2 five
trim-trim_example = trim-trim times times is_done 2 five ground arith

approve_transaction_lock_example :
    (approve_transaction env all_well 0 "second" two).1.is_locked ≡ false
approve_transaction_lock_example = approve_transaction_lock env all_well 0 "second" two refl

run-waits_example :
    let t =
      run env
        (cancels "first" ∷ wipes false none ∷ [])
        (approve_transaction env all_well 0 "third" two).1 in
    approve_transaction env all_well 0 "second" t ≡ (ok waits, t)
run-waits_example =
    run-waits env all_well all_well 0 0 "third" "second" (cancels "first" ∷ wipes false none ∷ [])
      two refl refl

approve_transaction-IsAnswered_example :
    IsAnswered env all_well 1 "second" [] (approve_transaction env all_well 0 "second" two)
approve_transaction-IsAnswered_example =
    approve_transaction-IsAnswered env all_well 0 1 "second" two refl refl

-- The mutex is held for ever after an approval of a transaction that is not there.
missing_locks : (approve_transaction env all_well 0 "third" two).1.is_locked ≡ true
unfolding approve_transaction
missing_locks = refl

not_wiped : (r : ℕ) → is_wiped env false (some "0xc") (two.objects r) ≡ false
not_wiped zero = refl
not_wiped (suc n) = refl

not_final : (r : ℕ) → final_of env two r ≡ false
not_final zero = refl
not_final (suc n) = refl

wipe_transactions_lem_example :
    (count
        (λ r. is_wiped env false (some "0xc") (two.objects r))
        (current (wipe_transactions env false (some "0xc") two))
      ≡ 0)
    × (count (eqb 1) (current (wipe_transactions env false (some "0xc") two))
        ≡ count (eqb 1) (current two))
wipe_transactions_lem_example =
    wipe_transactions_lem env false (some "0xc") two (eqb 1) (λ r e. not_wiped r)
      (λ r e. not_final r)

abbrev receipt : Option Receipt
receipt = some (record { has_failed = false; gas_used = absent })

abbrev found : Chain
found = record { receipt = ok receipt; receipt_block = ok tt; transaction = ok (some true) }

abbrev third : TransactionMeta
third = meta "third" unapproved 3

emit_updates_loses_example :
    (count (eqb 2) (current (added env third two)) ≡ 1)
    × (count (eqb 2) (current (reported env third two 0 (1 ∷ []) refl found receipt)) ≡ 0)
emit_updates_loses_example =
    emit_updates_loses env third two 0 (1 ∷ []) refl found receipt ground arith (omega arith) refl
      refl refl refl refl refl

stop_transaction_lem_example :
    let x = stop_transaction env replace_options "first" none two in
    ((x.0 ≡ ok tt)
      × ((x.1.objects 0).status ≡ cancelled)
      × (current x.1 ≡ current two)
      × (x.1.emitted ≡ finished_transaction "first" cancelled ∷ []))
    ⊎ HasThrown env replace_options (cancel_params env replace_options) no_values 0 two x
stop_transaction_lem_example = stop_transaction_lem env replace_options "first" none two 0 refl

speed_up_transaction_lem_example :
    let x = speed_up_transaction env replace_options "first" both_fees two in
    let m = x.1.objects 2 in
    ((x.0 ≡ ok tt)
      × (count (eqb 2) (current x.1) ≡ 1)
      × (m.tx_params.nonce ≡ holds "0x7")
      × (pays_more env replace_options number-text params m.tx_params ≡ true))
    ⊎ HasThrown env replace_options
        (speedup_params env replace_options)
        (values_of both_fees)
        0
        two
        x
speed_up_transaction_lem_example =
    speed_up_transaction_lem env replace_options number-text "first" both_fees two 0 refl refl refl
      refl

-- It is sent, and the new transaction has both fees.
sped_up :
    ((speed_up_transaction env replace_options "first" both_fees two).1.objects
      2).tx_params.max_fee_per_gas
    ≡ holds (text_of_number 5)
unfolding speed_up_transaction new_fees with_new_fees push_replacement update_trimmed
sped_up = refl

-- Sending is refused after the signature.
not_stopped :
    let refused = record replace_options { send = λ raw. err user_rejected } in
    let x = stop_transaction env refused "first" none two in
    (x.0 ≡ err user_rejected)
    × ((x.1.objects 0).r ≡ holds "0x1")
    × ((x.1.objects 0).status ≡ submitted)
unfolding stop_transaction new_fees
not_stopped = (refl, refl, refl)

-- A transaction that is gone is updated: it stands at the index of a missing one in the array before, and
-- an approval that waited with that array finds it there.
updated_stray :
    transaction_at env 1 "third"
      (update_transaction env 1 "gone" (cancel_transaction env "second" two)).1
    ≡ some 1
unfolding normalize_tx_params validate_tx_params update_transaction cancel_transaction update_fresh
    update_trimmed txs_to_keep sort_by_time insert_by_time
updated_stray = refl

approval_answered_lock_example :
    (approval_answered env all_well 1 "third" accepts two).1.is_locked ≡ true
approval_answered_lock_example = approval_answered_lock env all_well 1 "third" accepts two refl

not_second : (r : ℕ) → eqb 0 r ≡ true → has_id "second" (two.objects r) ≡ false
not_second zero e = refl
not_second (suc n) e = absurd (ground (arith, e))

approval_answered_rejects_example :
    let x = approval_answered env all_well 1 "second" rejects two in
    (x.0 ≡ err user_rejected)
    × (count (λ n. has_id "second" (x.1.objects n)) (current x.1) ≡ 0)
    × (count (eqb 0) (current x.1) ≡ count (eqb 0) (current two))
    × (x.1.emitted ≡ finished_transaction "second" rejected ∷ [])
approval_answered_rejects_example =
    approval_answered_rejects env all_well 1 "second" two (eqb 0) 1 refl refl not_second
      (λ n e. not_final n)
