-- ===== src/Transaction/Lost.antt =====
-- A new transaction while PendingTransactionTracker.ts waits for the chain.
use fork_metamask_core.Common.{
  ℕ, zero, ◌≡◌, ◌≤◌, ◌<◌, refl, sym, ap, subst, ◌∙◌, Bool, true, false, Option, some, List, [], ◌∷◌,
  ◌++◌, arith, eqb, string_eq, count, count-append, nat_same, bit, All,
}
use fork_metamask_core.Common.Monad.{ok}
use fork_metamask_core.Transaction.State.{
  submitted, unapproved, TransactionMeta, Env, State, current,
}
use fork_metamask_core.Transaction.Trim.{sort_by_time}
use fork_metamask_core.Transaction.Trimmed.{count-sort_by_time, count-trim, count-trim-le}
use fork_metamask_core.Transaction.Order.{sort_snoc}
use fork_metamask_core.Transaction.Store.{
  update_trimmed, time_of, key_of, final_of, key_eq, new_object,
}
use fork_metamask_core.Transaction.Controller.{push_transaction}
use fork_metamask_core.Transaction.External.{on_pending_transactions_update}
use fork_metamask_core.Transaction.Tracker.{
  Chain, Receipt, is_failed, check_transaction, emit_updates, reconcile, is_checked, set_index,
}

-- The references are to objects that were made before, with a time before another one.
abbrev pub AreOlder : State → ℕ → List ℕ → Type 0
AreOlder s now = All (λ q. (q < s.next_object) × ((s.objects q).time < now))

count-older :
    (s : State) (now : ℕ) (xs : List ℕ) → AreOlder s now xs → count (eqb s.next_object) xs ≡ 0
count-older s now [] a = refl
count-older s now (x ∷ xs) a = ground (arith, a.0.0, count-older s now xs a.1)

module _ (env : Env) where
  pub count-update_trimmed-le :
      (p : ℕ → Bool) (array : ℕ) (t : State)
      → count p (current (update_trimmed env array t)) ≤ count p (t.arrays array)
  unfolding update_trimmed
  count-update_trimmed-le p array t = rw (nat_same t.next_array) (
      count-trim-le (time_of env t) (key_of env t) (final_of env t) p env.tx_history_limit
        (t.arrays array))

  -- A transaction that is found in a block is written at its index.
  pub check_transaction-written :
      (array i r : ℕ) (c : Chain) (x : Option Receipt) (t : State)
      → (t.objects r).status ≡ submitted
      → is_checked env (t.objects r) ≡ true
      → c.transaction ≡ ok (some true)
      → c.receipt ≡ ok x
      → is_failed x ≡ false
      → (check_transaction env array i r c t).1.arrays array ≡ set_index env i r (t.arrays array)
  unfolding check_transaction reconcile
  check_transaction-written array i r c x t p k b d f = rw (k, p, b, d, f, nat_same array) refl

module _ (env : Env) (m : TransactionMeta) (s : State) where
  -- The store with the new object.
  abbrev pub grown : State
  grown = new_object m s

  earlier :
      (xs : List ℕ)
      → AreOlder s m.time xs
      → All (λ q. time_of env grown q < time_of env grown s.next_object) xs
  earlier [] a = tt
  earlier (x ∷ xs) a = (ground (arith, a.0.0, a.0.1), earlier xs a.1)

  final_new :
      (x : ℕ) → m.status ≡ unapproved → eqb s.next_object x ≡ true → final_of env grown x ≡ false
  final_new x u e = ground (arith, e, u)

  abbrev pub added : State
  added = (push_transaction env s.transactions m s).1

  push_transaction_adds :
      AreOlder s m.time (current s)
      → m.status ≡ unapproved
      → count (eqb s.next_object) (current added) ≡ 1
  unfolding push_transaction update_trimmed
  push_transaction_adds a u =
      let n = s.next_object in
      let same = nat_same s.next_array in
      let here = nat_same s.transactions in
      let older = count-older s m.time (current s) a in
      rw (nat_same s.next_array, nat_same s.transactions)
        (count-trim (time_of env grown) (key_of env grown) (final_of env grown) (eqb n)
            env.tx_history_limit (current s ++ n ∷ []) (λ x e. final_new x u e)
          ∙ omega (arith, count-append (eqb n) (current s) (n ∷ []), older, ap bit (nat_same n)))

  objects_added : (r : ℕ) → eqb r s.next_object ≡ false → added.objects r ≡ s.objects r
  unfolding push_transaction update_trimmed
  objects_added r apart = rw (apart) refl

  sorted_added :
      AreOlder s m.time (current s)
      → s.transactions < s.next_array
      → added.arrays s.transactions
        ≡ s.next_object
          ∷ sort_by_time (time_of env grown) (key_of env grown) (final_of env grown) (current s)
  unfolding push_transaction update_trimmed
  sorted_added a l =
      let apart : eqb s.transactions s.next_array ≡ false = ground (arith, l) in
      rw (apart, nat_same s.transactions)
        (sort_snoc (time_of env grown) (key_of env grown) (final_of env grown) (current s)
          s.next_object (earlier (current s) a))

  -- The transaction at index 0, which is found in a block.
  module _ (r : ℕ) (rs : List ℕ) (e : current s ≡ r ∷ rs) (c : Chain) (x : Option Receipt) where
    abbrev pub checked : State
    checked = (check_transaction env s.transactions zero r c added).1

    abbrev pub reported : State
    reported = emit_updates env s.transactions true checked

    nowhere :
        AreOlder s m.time (r ∷ rs)
        → s.transactions < s.next_array
        → (s.objects r).status ≡ submitted
        → is_checked env (s.objects r) ≡ true
        → c.transaction ≡ ok (some true)
        → c.receipt ≡ ok x
        → is_failed x ≡ false
        → count (eqb s.next_object) (current reported) ≡ 0
    unfolding emit_updates on_pending_transactions_update
    nowhere a l p k b d f =
        let apart : eqb r s.next_object ≡ false = ground (arith, a.0.0) in
        let there : added.objects r ≡ s.objects r = objects_added r apart in
        let done =
          check_transaction-written env s.transactions zero r c x added
            (ap (λ x. x.status) there ∙ p) (ap (is_checked env) there ∙ k) b d f in
        let older = count-older s m.time (r ∷ rs) a in
        let sorted =
          sort_by_time (time_of env grown) (key_of env grown) (final_of env grown) (current s) in
        let written_back : checked.arrays s.transactions ≡ r ∷ sorted =
          done ∙ ap (set_index env zero r) (sorted_added (subst (AreOlder s m.time) (sym e) a) l) in
        omega (
          arith,
          count-update_trimmed-le env (eqb s.next_object) s.transactions checked,
          ap (count (eqb s.next_object)) written_back,
          count-sort_by_time (time_of env grown) (key_of env grown) (final_of env grown)
              (eqb s.next_object) (current s),
          ap (count (eqb s.next_object)) e,
          older,
        )

    -- The controller adds a transaction while the tracker waits for the chain with the array that is the
    -- state's. When the first transaction of the array is then found in a block, and the tracker reports
    -- its array, the new transaction is in the state before the report and not after it.
    pub emit_updates_loses :
        AreOlder s m.time (r ∷ rs)
        → s.transactions < s.next_array
        → m.status ≡ unapproved
        → (s.objects r).status ≡ submitted
        → is_checked env (s.objects r) ≡ true
        → c.transaction ≡ ok (some true)
        → c.receipt ≡ ok x
        → is_failed x ≡ false
        → (count (eqb s.next_object) (current added) ≡ 1)
          × (count (eqb s.next_object) (current reported) ≡ 0)
    emit_updates_loses a l u p k b d f =
        (push_transaction_adds (subst (AreOlder s m.time) (sym e) a) u, nowhere a l p k b d f)
