-- ===== src/Transaction/Answered.antt =====
-- How an approval of TransactionController.ts ends.
use fork_metamask_core.Common.{
  ℕ, ◌≡◌, ◌⊎◌, refl, ◌∙◌, String, true, false, not, some, List, ◌∷◌, inl, inr, Bool-cases, arith,
  find, find-holds, ◌==◌, string_eq,
}
use fork_metamask_core.Common.Monad.{Result, ok, err, and_then, ◌>>◌, modify}
use fork_metamask_core.Transaction.State.{
  Field, Status, TransactionMeta, Env, Error, State, M, has_id, no_sign, no_chain_id, submitted,
  failed, finished_transaction, Emitted,
}
use fork_metamask_core.Transaction.Store.{
  update_trimmed, update_transaction, fail_transaction, set_object, new_object, with_history,
}
use fork_metamask_core.Transaction.Approve.{
  ApproveOptions, approve_transaction, sign_and_send, released, caught, try_approve, nonce_to_use,
  changed, finish, with_raw, submitted_as, approved_with, send, sign_with, signed_with,
}

module _ (env : Env) where
  update_transaction_silent :
      (r : ℕ) (note : String) (s : State) → (update_transaction env r note s).1.emitted ≡ s.emitted
  unfolding update_transaction update_trimmed
  update_transaction_silent r note s = ground arith

  with_history-id :
      (m n : TransactionMeta) (note : String) → with_history env m note ≡ ok n → n.id ≡ m.id
  with_history-id m n note e = ground (arith, e)

  update_transaction-id :
      (r q : ℕ) (note : String) (s : State)
      → ((update_transaction env r note s).1.objects q).id ≡ (s.objects q).id
  unfolding update_transaction update_trimmed
  update_transaction-id r q note s = ground (arith)

  -- Up to an event, the transaction keeps its id and nothing is emitted.
  module _ (o : ApproveOptions) (r : ℕ) (i : String) (l : List Emitted) where
    abbrev pub IsPending : State → Type 0
    IsPending t = (t.emitted ≡ l) × ((t.objects r).id ≡ i)

    -- The one event of a run that succeeds, and of one that throws.
    abbrev Ends : Status → {A : Type 0} → Result Error A × State → Type 0
    Ends status (ok a, t) = t.emitted ≡ finished_transaction i status ∷ l
    Ends status (err e, t) = IsPending t

    Ends-and_then :
        {A B : Type 0} (status : Status) (f : A → M B) (x : Result Error A × State)
        → IsPending x.1
        → ((a : A) (t : State) → IsPending t → Ends status (f a t))
        → Ends status (and_then x f)
    Ends-and_then status f (ok a, t) j k = k a t j
    Ends-and_then status f (err e, t) j k = j

    set_object-IsPending :
        (f : TransactionMeta → TransactionMeta) (t : State)
        → ((m : TransactionMeta) → (f m).id ≡ m.id)
        → IsPending t
        → IsPending (set_object r f t)
    set_object-IsPending f t h j = (j.0, ground (arith, h (t.objects r), j.1))

    update_transaction-IsPending :
        (note : String) (t : State) → IsPending t → IsPending (update_transaction env r note t).1
    update_transaction-IsPending note t j =
        (update_transaction_silent r note t ∙ j.0, update_transaction-id r r note t ∙ j.1)

    nonce_to_use-IsPending :
        (n : Field) (t : State) → IsPending t → IsPending (nonce_to_use env o n t).1
    nonce_to_use-IsPending n t j = ground (arith, j)

    changed-IsPending :
        (f : TransactionMeta → TransactionMeta) (note : String) (t : State)
        → ((m : TransactionMeta) → (f m).id ≡ m.id)
        → IsPending t
        → IsPending (changed env o r f note t).1
    changed-IsPending f note t h j =
        update_transaction-IsPending note (set_object r f t) (set_object-IsPending f t h j)

    finish-Ends : (t : State) → IsPending t → Ends submitted (finish env o r t)
    finish-Ends t j = ground (arith, j.0, j.1)

    send-Ends : (t : State) → IsPending t → Ends submitted (send env o r t)
    send-Ends t j =
        Ends-and_then submitted
          (λ hash.
            changed env o r (submitted_as env o hash) "Transaction submitted" >> finish env o r)
          (o.sent, t) j
          (λ hash u k.
            Ends-and_then submitted (λ _. finish env o r)
              (changed env o r (submitted_as env o hash) "Transaction submitted" u)
              (changed-IsPending (submitted_as env o hash) "Transaction submitted" u (λ m. refl) k)
              (λ _. finish-Ends))

    sign_with-Ends : (t : State) → IsPending t → Ends submitted (sign_with env o r t)
    sign_with-Ends t j =
        Ends-and_then submitted
          (λ tx.
            changed env o r (signed_with env o tx) "Transaction signed"
            >> (changed env o r (with_raw env o tx.serialized) "RawTransaction added"
                >> send env o r))
          (o.signed_tx, t) j
          (λ tx u k.
            Ends-and_then submitted
              (λ _.
                changed env o r (with_raw env o tx.serialized) "RawTransaction added"
                >> send env o r)
              (changed env o r (signed_with env o tx) "Transaction signed" u)
              (changed-IsPending (signed_with env o tx) "Transaction signed" u (λ m. refl) k)
              (λ _ v h.
                Ends-and_then submitted (λ _. send env o r)
                  (changed env o r (with_raw env o tx.serialized) "RawTransaction added" v)
                  (changed-IsPending (with_raw env o tx.serialized) "RawTransaction added" v
                    (λ m. refl) h)
                  (λ _. send-Ends)))

    sign_and_send-Ends : (t : State) → IsPending t → Ends submitted (sign_and_send env o r t)
    unfolding sign_and_send
    sign_and_send-Ends t j =
        let n = (t.objects r).tx_params.nonce in
        Ends-and_then submitted
          (λ nonce. modify (set_object r (approved_with env o nonce)) >> sign_with env o r)
          (nonce_to_use env o n t) (nonce_to_use-IsPending n t j)
          (λ nonce u k.
            sign_with-Ends (set_object r (approved_with env o nonce) u)
              (set_object-IsPending (approved_with env o nonce) u (λ m. refl) k))

    fail_transaction-Ends :
        (e : Error) (t : State) → IsPending t → Ends failed (fail_transaction env r e t)
    unfolding fail_transaction
    fail_transaction-Ends e t j =
        let n = t.next_object in
        let m = t.objects r in
        let u = new_object (record m { error = some (env.as_value e); status = failed }) t in
        ground (
          arith,
          j.0,
          j.1,
          update_transaction_silent n "failTransaction" u,
          update_transaction-id n r "failTransaction" u,
        )

    -- One event of the end of the transaction, or none and an error.
    abbrev pub IsAnswered : {A : Type 0} → Result Error A × State → Type 0
    IsAnswered (ok a, t) =
        (t.emitted ≡ finished_transaction i submitted ∷ l)
        ⊎ (t.emitted ≡ finished_transaction i failed ∷ l)
    IsAnswered (err e, t) = IsPending t

    IsAnswered-submitted : (x : Result Error (Unit {0}) × State) → Ends submitted x → IsAnswered x
    IsAnswered-submitted (ok a, t) h = inl h
    IsAnswered-submitted (err e, t) h = h

    IsAnswered-failed : (x : Result Error (Unit {0}) × State) → Ends failed x → IsAnswered x
    IsAnswered-failed (ok a, t) h = inr h
    IsAnswered-failed (err e, t) h = h

    try_approve-IsAnswered : (t : State) → IsPending t → IsAnswered (try_approve env o r t)
    try_approve-IsAnswered t j = elim (Bool-cases (not o.has_sign)) [
      | inl n ↦
          rw (n) (
            IsAnswered-failed (fail_transaction env r no_sign t)
              (fail_transaction-Ends no_sign t j))
      | inr y ↦ elim (Bool-cases (env.chain_id == "")) [
        | inl n ↦
            rw (y, n)
              (IsAnswered-failed (fail_transaction env r no_chain_id t)
                (fail_transaction-Ends no_chain_id t j))
        | inr h ↦
            rw (y, h) (IsAnswered-submitted (sign_and_send env o r t) (sign_and_send-Ends t j))
      ]
    ]

    caught-IsAnswered :
        (x : Result Error (Unit {0}) × State) → IsAnswered x → IsAnswered (caught env o r x)
    caught-IsAnswered (ok a, t) h = h
    caught-IsAnswered (err e, t) h =
        IsAnswered-failed (fail_transaction env r e t) (fail_transaction-Ends e t h)

    released-IsAnswered :
        (x : Result Error (Unit {0}) × State) → IsAnswered x → IsAnswered (released env o x)
    released-IsAnswered (ok a, t) h = h
    released-IsAnswered (err e, t) h = h

  -- An approval of a transaction that is there, while the mutex is free, emits one event, that the
  -- transaction is finished as submitted or as failed, or none, where it throws.
  pub approve_transaction-IsAnswered :
      (o : ApproveOptions) (array r : ℕ) (id : String) (s : State)
      → s.is_locked ≡ false
      → find (λ q. has_id id (s.objects q)) (s.arrays array) ≡ some r
      → IsAnswered o r id s.emitted (approve_transaction env o array id s)
  unfolding approve_transaction
  approve_transaction-IsAnswered o array r id s l e =
      let t = record s { is_locked = true } in
      let tried = try_approve env o r t in
      let there : (s.objects r).id ≡ id = ground (
        arith,
        string_eq.same_iff (s.objects r).id id,
        find-holds (λ q. has_id id (s.objects q)) (s.arrays array) r e,
      ) in
      rw (l, e)
        (released-IsAnswered o r id s.emitted (caught env o r tried) (
          caught-IsAnswered o r id s.emitted tried
            (try_approve-IsAnswered o r id s.emitted t (refl, there))))
