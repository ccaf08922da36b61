-- ===== src/Transaction/Removal.antt =====
-- What `wipeTransactions` and `cancelTransaction` of TransactionController.ts remove.
use fork_metamask_core.Common.{
  ℕ, ◌≡◌, refl, sym, ◌∙◌, String, Bool, true, false, not, ◌&&◌, Option, some, List, ◌∷◌, inl, inr,
  Bool-cases, Option-cases, arith, find-holds, count-keep_none, count-keep_all, count_none,
  nat_same, keep, count, string_eq,
}
use fork_metamask_core.Transaction.State.{
  emit, Env, State, current, has_id, rejected, finished_transaction,
}
use fork_metamask_core.Transaction.Store.{
  set_object, update_fresh, time_of, key_of, final_of, key_eq,
}
use fork_metamask_core.Transaction.Trimmed.{count-trim, count-trim-le}
use fork_metamask_core.Transaction.Controller.{
  is_wiped, is_given, wipe_transactions, cancel_transaction, get_transaction,
}

module _ (env : Env) where
  -- The new array of the state, made from those that a test keeps.
  kept_none :
      (p q : ℕ → Bool) (xs : List ℕ) (s : State)
      → ((r : ℕ) → q r ≡ true → p r ≡ false)
      → count p (current (update_fresh env (keep q xs) s)) ≡ 0
  unfolding update_fresh
  kept_none p q xs s h = rw (nat_same s.next_array) (
      omega (
        arith,
        count-trim-le (time_of env s) (key_of env s) (final_of env s) p env.tx_history_limit
            (keep q xs),
        count-keep_none p q xs h,
      ))

  kept_all :
      (p q : ℕ → Bool) (xs : List ℕ) (s : State)
      → ((r : ℕ) → p r ≡ true → q r ≡ true)
      → ((r : ℕ) → p r ≡ true → final_of env s r ≡ false)
      → count p (current (update_fresh env (keep q xs) s)) ≡ count p xs
  unfolding update_fresh
  kept_all p q xs s h f = rw (nat_same s.next_array) (
      count-trim (time_of env s) (key_of env s) (final_of env s) p env.tx_history_limit (keep q xs)
        f
      ∙ count-keep_all p q xs h)

  module _ (ignore_network : Bool) (address : Option String) (s : State) where
    abbrev is_gone : ℕ → Bool
    is_gone r = is_wiped env ignore_network address (s.objects r)

    all_gone : (ignore_network && not (is_given address)) ≡ true → (r : ℕ) → is_gone r ≡ true
    all_gone e r = elim (Option-cases address) [
      | inl n ↦ ground (arith, e, n)
      | inr (a, h) ↦ ground (arith, e, h)
    ]

    abbrev wiped : State
    wiped = wipe_transactions env ignore_network address s

    wiped_none : count is_gone (current wiped) ≡ 0
    unfolding wipe_transactions
    wiped_none = elim (Bool-cases (ignore_network && not (is_given address))) [
      | inl y ↦ rw (y, nat_same s.next_array) refl
      | inr n ↦
          rw (n) (kept_none is_gone (λ r. not (is_gone r)) (current s) s (λ r e. ground (arith, e)))
    ]

    wiped_rest :
        (p : ℕ → Bool)
        → ((r : ℕ) → p r ≡ true → is_gone r ≡ false)
        → ((r : ℕ) → p r ≡ true → final_of env s r ≡ false)
        → count p (current wiped) ≡ count p (current s)
    unfolding wipe_transactions
    wiped_rest p h f = elim (Bool-cases (ignore_network && not (is_given address))) [
      | inl y ↦
          rw (y, nat_same s.next_array)
            (sym (count_none p (current s) (λ r. ground (arith, h r, all_gone y r))))
      | inr n ↦
          rw (n) (kept_all p (λ r. not (is_gone r)) (current s) s (λ r e. ground (arith, h r, e)) f)
    ]

    -- `wipeTransactions` removes each transaction of the address on the network, or of all of them,
    -- and keeps each other transaction that is not in a final state.
    pub wipe_transactions_lem :
        (p : ℕ → Bool)
        → ((r : ℕ) → p r ≡ true → is_wiped env ignore_network address (s.objects r) ≡ false)
        → ((r : ℕ) → p r ≡ true → final_of env s r ≡ false)
        → (count (λ r. is_wiped env ignore_network address (s.objects r)) (current wiped) ≡ 0)
          × (count p (current wiped) ≡ count p (current s))
    wipe_transactions_lem p h f = (wiped_none, wiped_rest p h f)

  -- Canceling a transaction that is there leaves none of its id, keeps each other that is not in a
  -- final state, and tells those who wait that it was rejected.
  pub cancel_transaction_lem :
      (id : String) (s : State) (p : ℕ → Bool) (q : ℕ)
      → get_transaction id s ≡ some q
      → ((r : ℕ) → p r ≡ true → has_id id (s.objects r) ≡ false)
      → ((r : ℕ) → p r ≡ true → final_of env s r ≡ false)
      → let t = cancel_transaction env id s in
        (count (λ r. has_id id (t.objects r)) (current t) ≡ 0)
        × (count p (current t) ≡ count p (current s))
        × (t.emitted ≡ finished_transaction id rejected ∷ s.emitted)
  unfolding cancel_transaction update_fresh
  cancel_transaction_lem id s p q e h f =
      let t =
        emit (finished_transaction id rejected)
          (set_object q (λ m. record m { status = rejected }) s) in
      let gone = λ (r : ℕ). has_id id (t.objects r) in
      let there = find-holds (λ r. has_id id (s.objects r)) (current s) q e in
      rw (e) (
        kept_none gone (λ r. not (gone r)) (current t) t (λ r g. ground (arith, g)),
        kept_all p (λ r. not (gone r)) (current t) t (λ r x. ground (arith, h r x))
            (λ r x. ground (arith, h r x, f r x, there)),
        refl,
      )
