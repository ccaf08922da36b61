-- ===== src/Transaction/Raised.antt =====
-- What a replacement by TransactionController.ts pays.
use fork_metamask_core.Common.{
  ℕ, String, false, ◌≡◌, subst, Bool, true, not, ◌&&◌, ◌||◌, inl, inr, Bool-cases, arith,
  if◌then◌else◌, leb, ◌==◌, string_eq,
}
use fork_metamask_core.Common.Monad.{Result, ok, err}
use fork_metamask_core.Transaction.State.{
  Field, absent, unset, holds, is_truthy, TransactionParams, Env, Error,
}
use fork_metamask_core.Transaction.Store.{key_eq}
use fork_metamask_core.Transaction.Replace.{
  GasValues, ReplaceOptions, Fees, number_of, proposed_or, collected, new_fee, new_gas_price,
  new_fees, with_new_fees, market_given, is_gas_price_value,
}

module _ (env : Env) (o : ReplaceOptions)
    (hex : (n : ℕ) → (o.to_number (o.to_hex n) ≡ n) × ((o.to_hex n == "") ≡ false)) where
  -- A field has at least the number of the one before with the rate.
  abbrev pub is_raised : Field → Field → Bool
  is_raised before after = leb (o.raised (number_of env o before)) (number_of env o after)

  -- The same of a fee, which is there if it was before.
  abbrev is_fee_raised : Field → Field → Bool
  is_fee_raised before after =
      (not (is_truthy before) || is_truthy after)
      && (not (is_truthy after) || is_raised before after)

  abbrev IsTrue : (Field → Bool) → Result Error Field → Type 0
  IsTrue p (ok f) = p f ≡ true
  IsTrue p (err e) = Unit

  -- What is proposed is at least the minimum.
  proposed_or-IsTrue :
      (p : Field → Bool) (given : Field) (min : ℕ) (other : Field)
      → p other ≡ true
      → ((s : String) → (s == "") ≡ false → leb min (o.to_number s) ≡ true → p (holds s) ≡ true)
      → IsTrue p (proposed_or env o given (o.to_hex min) other)
  proposed_or-IsTrue p absent min other h k = h
  proposed_or-IsTrue p unset min other h k = h
  proposed_or-IsTrue p (holds s) min other h k = elim (Bool-cases (s == "")) [
    | inl y ↦ rw (y) h
    | inr n ↦ elim (Bool-cases (leb (o.to_number (o.to_hex min)) (o.to_number s))) [
      | inl l ↦ rw (n, l) (k s n (ground (arith, l, (hex min).0)))
      | inr g ↦ rw (n, g) tt
    ]
  ]

  new_gas_price_raised :
      (v : GasValues) (p : TransactionParams)
      → IsTrue (is_raised p.gas_price) (new_gas_price env o v p)
  new_gas_price_raised v p =
      let min = o.raised (number_of env o p.gas_price) in
      proposed_or-IsTrue (is_raised p.gas_price)
        (if is_gas_price_value v then v.gas_price else absent) min (holds (o.to_hex min))
        (ground (arith, (hex min).0)) (λ s n l. l)

  new_fee_raised :
      (given existing : Field) → IsTrue (is_fee_raised existing) (new_fee env o given existing)
  new_fee_raised given existing =
      let min = o.raised (number_of env o existing) in
      proposed_or-IsTrue (is_fee_raised existing) given min
        (if is_truthy existing then holds (o.to_hex min) else existing)
        (ground (arith, (hex min).0, (hex min).1)) (λ s n l. ground (arith, n, l))

  abbrev AreRaised : TransactionParams → Result Error Fees → Type 0
  AreRaised p (err e) = Unit
  AreRaised p (ok f) =
      (is_raised p.gas_price f.gas_price ≡ true)
      × (is_fee_raised p.max_fee_per_gas f.max_fee ≡ true)
      × (is_fee_raised p.max_priority_fee_per_gas f.priority ≡ true)

  collected-AreRaised :
      (p : TransactionParams) (x y z : Result Error Field)
      → IsTrue (is_raised p.gas_price) x
      → IsTrue (is_fee_raised p.max_fee_per_gas) y
      → IsTrue (is_fee_raised p.max_priority_fee_per_gas) z
      → AreRaised p (collected x y z)
  collected-AreRaised p (ok a) (ok b) (ok c) h i j = (h, i, j)
  collected-AreRaised p (ok a) (ok b) (err e) h i j = tt
  collected-AreRaised p (ok a) (err e) z h i j = tt
  collected-AreRaised p (err e) y z h i j = tt

  new_fees-AreRaised : (v : GasValues) (p : TransactionParams) → AreRaised p (new_fees env o v p)
  unfolding new_fees
  new_fees-AreRaised v p =
      let max_given = market_given env o v v.max_fee_per_gas in
      let priority_given = market_given env o v v.max_priority_fee_per_gas in
      collected-AreRaised p (new_gas_price env o v p) (new_fee env o max_given p.max_fee_per_gas)
        (new_fee env o priority_given p.max_priority_fee_per_gas) (new_gas_price_raised v p)
        (new_fee_raised max_given p.max_fee_per_gas)
        (new_fee_raised priority_given p.max_priority_fee_per_gas)

  -- With both fees of EIP-1559 each is raised, and without one of them the gas price.
  abbrev pub pays_more : TransactionParams → TransactionParams → Bool
  pays_more p q =
      if is_truthy q.max_fee_per_gas && is_truthy q.max_priority_fee_per_gas
      then is_raised p.max_fee_per_gas q.max_fee_per_gas
        && is_raised p.max_priority_fee_per_gas q.max_priority_fee_per_gas
      else is_raised p.gas_price q.gas_price

  pub with_new_fees_raised :
      (v : GasValues) (p : TransactionParams) (f : Fees)
      → new_fees env o v p ≡ ok f
      → pays_more p (with_new_fees env o f p) ≡ true
  unfolding with_new_fees
  with_new_fees_raised v p f e =
      let r : AreRaised p (ok f) = subst (AreRaised p) e (new_fees-AreRaised v p) in
      ground (arith, r.0, r.1, r.2)
