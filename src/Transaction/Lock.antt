-- ===== src/Transaction/Lock.antt =====
-- The mutex of approvals in TransactionController.ts, and what leaves it as it is.
use fork_metamask_core.Common.{
  ℕ, ◌≡◌, refl, ◌∙◌, String, Bool, Option, none, some, List, [], ◌∷◌, arith,
}
use fork_metamask_core.Common.Monad.{Result, ok, err, and_then, for_each, modify}
use fork_metamask_core.Transaction.State.{
  TransactionMeta, Env, Error, State, M, emit, failed, finished_transaction,
}
use fork_metamask_core.Transaction.Store.{
  new_object, update_trimmed, or_throw, update_transaction, fail_transaction,
}

-- An operation leaves the mutex as it is.
abbrev pub IsQuiet : {A : Type 0} → M A → Type 0
IsQuiet m = (s : State) → (m s).1.is_locked ≡ s.is_locked

pub quiet_after :
    {A B : Type 0} (f : A → M B) (r : Result Error A × State) (l : Bool)
    → r.1.is_locked ≡ l
    → ((a : A) → IsQuiet (f a))
    → (and_then r f).1.is_locked ≡ l
quiet_after f (ok a, t) l e k = k a t ∙ e
quiet_after f (err x, t) l e k = e

pub IsQuiet-each :
    {A : Type 0} (f : A → M (Unit {0}))
    → ((x : A) → IsQuiet (f x))
    → (xs : List A) → IsQuiet (for_each f xs)
IsQuiet-each f k [] s = refl
IsQuiet-each f k (x ∷ xs) s =
    quiet_after (λ _. for_each f xs) (f x s) s.is_locked (k x s) (λ _. IsQuiet-each f k xs)

module _ (env : Env) where
  abbrev failed_meta : Error → TransactionMeta → TransactionMeta
  failed_meta e m = record m { error = some (env.as_value e); status = failed }

  pub or_throw-IsQuiet : (e : Option Error) → IsQuiet (or_throw env e)
  or_throw-IsQuiet none s = refl
  or_throw-IsQuiet (some e) s = refl

  pub update_transaction-IsQuiet : (r : ℕ) (note : String) → IsQuiet (update_transaction env r note)
  unfolding update_transaction update_trimmed
  update_transaction-IsQuiet r note s = ground arith

  pub fail_transaction-IsQuiet : (r : ℕ) (e : Error) → IsQuiet (fail_transaction env r e)
  unfolding fail_transaction
  fail_transaction-IsQuiet r e s =
      let t = new_object (failed_meta e (s.objects r)) s in
      quiet_after (λ _. modify (emit (finished_transaction (s.objects r).id failed)))
        (update_transaction env s.next_object "failTransaction" t) s.is_locked
        (update_transaction-IsQuiet s.next_object "failTransaction" t) (λ _ _. refl)
