-- ===== src/Transaction/Replaced.antt =====
-- What a replacement by TransactionController.ts leaves in the state.
use fork_metamask_core.Common.{
  ℕ, ◌⊎◌, find-holds, ◌≡◌, refl, ap, ◌∙◌, String, true, false, Option, none, some, [], ◌∷◌, ◌++◌,
  inl, inr, Bool-cases, arith, string_eq, eqb, count, ◌==◌, bit, nat_same, count-append,
}
use fork_metamask_core.Common.Monad.{Result, ok, err, Result-cases}
use fork_metamask_core.Transaction.State.{
  TransactionParams, TransactionMeta, Env, Error, State, current, cancelled, finished_transaction,
  type_error, has_id,
}
use fork_metamask_core.Transaction.Controller.{get_transaction, get_transaction_with_action_id}
use fork_metamask_core.Transaction.Store.{
  set_object, is_final_state, update_trimmed, new_object, time_of, key_of, final_of, key_eq,
}
use fork_metamask_core.Transaction.Trimmed.{count-trim}
use fork_metamask_core.Transaction.Replace.{
  GasValues, ReplaceOptions, Fees, new_fees, with_new_fees, stop_transaction, speed_up_transaction,
  sent, signed, cancel_params, speedup_params, values_of, are_hex, push_replacement, replacement,
}
use fork_metamask_core.Transaction.Approve.{SignedTx, update_transaction_meta_rsv}
use fork_metamask_core.Transaction.Raised.{pays_more, with_new_fees_raised}

module _ (env : Env) (o : ReplaceOptions) where
  -- What is signed has the fees.
  signed_fees :
      (g : Fees → TransactionParams → TransactionParams) (v : GasValues) (p : TransactionParams)
      (x : Fees × SignedTx)
      → signed env o g v p ≡ ok x
      → new_fees env o v p ≡ ok x.0
  signed_fees g v p x e = ground (arith, e)

  found_id :
      (id : String) (s : State) (r : ℕ) → get_transaction id s ≡ some r → (s.objects r).id ≡ id
  found_id id s r h = ground (
    arith,
    string_eq.same_iff (s.objects r).id id,
    find-holds (λ q. has_id id (s.objects q)) (current s) r h,
  )

  -- The state with r, s and v of a signature in a transaction.
  abbrev pub with_rsv : ℕ → SignedTx → State → State
  with_rsv r tx s = set_object r (update_transaction_meta_rsv env tx) s

  -- How sending ends: an error before anything is signed, or a signature, and then the answer to what it
  -- serializes to.
  pub data Sending (g : Fees → TransactionParams → TransactionParams) (v : GasValues) (r : ℕ)
      (s : State) : Type 0 where
    unsigned : (e : Error) → sent env o g v r s ≡ (err e, s) → Sending g v r s
    unsent :
        (e : Error) (x : Fees × SignedTx)
        → signed env o g v (s.objects r).tx_params ≡ ok x
        → o.send x.1.serialized ≡ err e
        → sent env o g v r s ≡ (err e, with_rsv r x.1 s)
        → Sending g v r s
    done :
        (hash : String) (x : Fees × SignedTx)
        → signed env o g v (s.objects r).tx_params ≡ ok x
        → sent env o g v r s ≡ (ok (x.0, hash), with_rsv r x.1 s)
        → Sending g v r s

  sent-Sending :
      (g : Fees → TransactionParams → TransactionParams) (v : GasValues) (r : ℕ) (s : State)
      → Sending g v r s
  sent-Sending g v r s = elim (Result-cases (signed env o g v (s.objects r).tx_params)) [
    | inr (e, h) ↦ unsigned e (rw (h) refl)
    | inl (x, h) ↦ elim (Result-cases (o.send x.1.serialized)) [
      | inr (e, k) ↦ unsent e x h k (rw (h, k) refl)
      | inl (hash, k) ↦ done hash x h (rw (h, k) refl)
    ]
  ]

  -- The call threw: with the state as it was, or, where sending was refused, with r, s and v of the
  -- signature in the transaction, and nothing else changed.
  abbrev pub HasThrown :
      (Fees → TransactionParams → TransactionParams)
      → GasValues
      → ℕ
      → State
      → Result Error (Unit {0}) × State
      → Type 0
  HasThrown g v r s x =
      ((e : Error) × (x ≡ (err e, s)))
      ⊎ ((e : Error) × (y : Fees × SignedTx) × (signed env o g v (s.objects r).tx_params ≡ ok y)
          × (o.send y.1.serialized ≡ err e)
          × (x ≡ (err e, with_rsv r y.1 s)))

  -- Stopping a transaction that is there cancels it, and tells those who wait; or it throws, and leaves
  -- the state as it was, but for r, s and v of the signature where sending was refused.
  pub stop_transaction_lem :
      (id : String) (given : Option GasValues) (s : State) (r : ℕ)
      → get_transaction id s ≡ some r
      → let x = stop_transaction env o id given s in
        ((x.0 ≡ ok tt)
          × ((x.1.objects r).status ≡ cancelled)
          × (current x.1 ≡ current s)
          × (x.1.emitted ≡ finished_transaction id cancelled ∷ s.emitted))
        ⊎ HasThrown (cancel_params env o) (values_of given) r s x
  unfolding stop_transaction
  stop_transaction_lem id given s r h = elim (Bool-cases (are_hex env o (values_of given))) [
    | inr n ↦ inr (inl (type_error, rw (n) refl))
    | inl y ↦ elim (sent-Sending (cancel_params env o) (values_of given) r s) [
      | unsigned e fails ↦ inr (inl (e, rw (y, h, fails) refl))
      | unsent e x g k fails ↦ inr (inr (e, x, g, k, rw (y, h, fails) refl))
      | done hash x g sends ↦ inl (
          rw (y, h, sends)
            (
              refl,
              rw (nat_same r) refl,
              refl,
              rw (nat_same r)
                  (ap (λ i. finished_transaction i cancelled ∷ s.emitted) (found_id id s r h)),
            ))
    ]
  ]

  nonce_kept : (f : Fees) (p : TransactionParams) → (with_new_fees env o f p).nonce ≡ p.nonce
  unfolding with_new_fees
  nonce_kept f p = ground arith

  module _ (f : Fees) (hash : String) (m : TransactionMeta) (s : State) where
    abbrev pushed : State
    pushed = push_replacement env o s.transactions f hash m s

    pushed_object : pushed.objects s.next_object ≡ replacement env o f hash m
    unfolding push_replacement update_trimmed
    pushed_object = rw (nat_same s.next_object) refl

    abbrev grown : State
    grown = new_object (replacement env o f hash m) s

    pushed_once :
        is_final_state m.status ≡ false
        → count (eqb s.next_object) (current s) ≡ 0
        → count (eqb s.next_object) (current pushed) ≡ 1
    unfolding push_replacement update_trimmed
    pushed_once u c =
        let n = s.next_object in
        rw (nat_same s.next_array, nat_same s.transactions)
          (count-trim (time_of env grown) (key_of env grown) (final_of env grown) (eqb n)
              env.tx_history_limit (current s ++ n ∷ []) (λ x e. ground (arith, e, u))
            ∙ omega (arith, count-append (eqb n) (current s) (n ∷ []), c, ap bit (nat_same n)))

  module _ (hex : (n : ℕ) → (o.to_number (o.to_hex n) ≡ n) × ((o.to_hex n == "") ≡ false)) where
    -- A number in hexadecimal is a text that is not empty, and is read back as it was. Speeding up a
    -- transaction that is there and not in a final state, where none has the action id yet and the new
    -- object is in no place of the array, puts the new object there, once, with the nonce of the one that
    -- it replaces. If the new one has both fees of EIP-1559, each is at least the one before with the
    -- rate, and if not, the gas price is. Or it throws, and leaves the state as it was, but for r, s and v
    -- of the signature where sending was refused.
    pub speed_up_transaction_lem :
        (id : String) (given : Option GasValues) (s : State) (r : ℕ)
        → get_transaction_with_action_id o.action_id s ≡ none
        → get_transaction id s ≡ some r
        → is_final_state (s.objects r).status ≡ false
        → count (eqb s.next_object) (current s) ≡ 0
        → let x = speed_up_transaction env o id given s in
          let m = x.1.objects s.next_object in
          ((x.0 ≡ ok tt)
            × (count (eqb s.next_object) (current x.1) ≡ 1)
            × (m.tx_params.nonce ≡ (s.objects r).tx_params.nonce)
            × (pays_more env o hex (s.objects r).tx_params m.tx_params ≡ true))
          ⊎ HasThrown (speedup_params env o) (values_of given) r s x
    unfolding speed_up_transaction
    speed_up_transaction_lem id given s r a h f c =
        let p = (s.objects r).tx_params in
        elim (Bool-cases (are_hex env o (values_of given))) [
          | inr n ↦ inr (inl (type_error, rw (a, n) refl))
          | inl y ↦ elim (sent-Sending (speedup_params env o) (values_of given) r s) [
            | unsigned e fails ↦ inr (inl (e, rw (a, y, h, fails) refl))
            | unsent e x g k fails ↦ inr (inr (e, x, g, k, rw (a, y, h, fails) refl))
            | done hash x g sends ↦
                let t = with_rsv r x.1 s in
                let same : (t.objects r).tx_params ≡ p = ground arith in
                let is_open : is_final_state (t.objects r).status ≡ false = ground (arith, f) in
                let new = pushed_object x.0 hash (t.objects r) t in
                inl (
                  rw (a, y, h, sends)
                    (
                      refl,
                      pushed_once x.0 hash (t.objects r) t is_open c,
                      ap (λ m. m.tx_params.nonce) new
                          ∙ nonce_kept x.0 (t.objects r).tx_params
                          ∙ ap (λ q. q.nonce) same,
                      ap (λ m. pays_more env o hex p m.tx_params) new
                          ∙ ap (λ q. pays_more env o hex p (with_new_fees env o x.0 q)) same
                          ∙ with_new_fees_raised env o hex (values_of given) p x.0
                              (signed_fees (speedup_params env o) (values_of given) p x g),
                    ))
          ]
        ]
