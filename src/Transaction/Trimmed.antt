-- ===== src/Transaction/Trimmed.antt =====
-- What the trimming of TransactionController.ts keeps.
use mathlib.Core.List.{reverse, reverse-append}
use fork_metamask_core.Common.{
  ℕ, ◌≡◌, ◌≤◌, ◌+◌, ◌-◌, refl, sym, ap, subst, ◌∙◌, Bool, true, false, not, ◌||◌, List, [], ◌∷◌,
  ◌++◌, ltb, length, count, count-append, bit, arith, inl, inr, Bool-cases, All, HasEquality,
}
use fork_metamask_core.Transaction.Trim.{insert_by_time, sort_by_time, is_seen, txs_to_keep, trim}

pub count-reverse : {A : Type 0} (p : A → Bool) (xs : List A) → count p (reverse xs) ≡ count p xs
count-reverse p [] = refl
count-reverse p (x ∷ xs) = omega (
  arith,
  ap (count p) (reverse-append (x ∷ []) xs),
  count-append p (reverse xs) (x ∷ []),
  count-reverse p xs,
)

pub All-snoc {κ} :
    {A : Type 0} (P : A → Type κ) (xs : List A) (x : A) → All P xs → P x → All P (xs ++ x ∷ [])
All-snoc P [] x a h = (h, tt)
All-snoc P (y ∷ ys) x a h = (a.0, All-snoc P ys x a.1 h)

pub All-reverse {κ} : {A : Type 0} (P : A → Type κ) (xs : List A) → All P xs → All P (reverse xs)
All-reverse P [] a = tt
All-reverse P (x ∷ xs) a =
    subst (All P) (sym (reverse-append (x ∷ []) xs))
      (All-snoc P (reverse xs) x (All-reverse P xs a.1) a.0)

module _ {A K : Type 0} ⦃e : HasEquality K⦄ (time : A → ℕ) (key : A → K) (is_final : A → Bool) where
  count-insert_by_time :
      (p : A → Bool) (x : A) (xs : List A)
      → count p (insert_by_time time key is_final x xs) ≡ bit (p x) + count p xs
  unfolding insert_by_time
  count-insert_by_time p x [] = refl
  count-insert_by_time p x (y ∷ ys) = ground (arith, count-insert_by_time p x ys)

  pub count-sort_by_time :
      (p : A → Bool) (xs : List A) → count p (sort_by_time time key is_final xs) ≡ count p xs
  unfolding sort_by_time
  count-sort_by_time p [] = refl
  count-sort_by_time p (x ∷ xs) =
      omega (
        arith,
        count-insert_by_time p x (sort_by_time time key is_final xs),
        count-sort_by_time p xs,
      )

  -- The filter keeps each item that is not final, and adds none.
  count-txs_to_keep :
      (p : A → Bool) (limit : ℕ) (seen : List K) (xs : List A)
      → ((x : A) → p x ≡ true → is_final x ≡ false)
      → count p (txs_to_keep time key is_final limit seen xs) ≡ count p xs
  unfolding txs_to_keep
  count-txs_to_keep p limit seen [] h = refl
  count-txs_to_keep p limit seen (x ∷ xs) h = ground (
    arith,
    h x,
    count-txs_to_keep p limit seen xs h,
    count-txs_to_keep p limit (key x ∷ seen) xs h,
  )

  count-txs_to_keep-le :
      (p : A → Bool) (limit : ℕ) (seen : List K) (xs : List A)
      → count p (txs_to_keep time key is_final limit seen xs) ≤ count p xs
  unfolding txs_to_keep
  count-txs_to_keep-le p limit seen [] = omega arith
  count-txs_to_keep-le p limit seen (x ∷ xs) =
      ground (
        arith,
        count-txs_to_keep-le p limit seen xs,
        count-txs_to_keep-le p limit (key x ∷ seen) xs,
      )

  pub count-trim-le :
      (p : A → Bool) (limit : ℕ) (xs : List A)
      → count p (trim time key is_final limit xs) ≤ count p xs
  count-trim-le p limit xs =
      let sorted = sort_by_time time key is_final xs in
      let kept = txs_to_keep time key is_final limit [] sorted in
      omega (
        arith,
        count-reverse p kept,
        count-txs_to_keep-le p limit [] sorted,
        count-sort_by_time p xs,
      )

  -- Where no item in a final state has a property, each item that has it is kept, as often as it is in
  -- the array.
  pub count-trim :
      (p : A → Bool) (limit : ℕ) (xs : List A)
      → ((x : A) → p x ≡ true → is_final x ≡ false)
      → count p (trim time key is_final limit xs) ≡ count p xs
  count-trim p limit xs h =
      let sorted = sort_by_time time key is_final xs in
      let kept = txs_to_keep time key is_final limit [] sorted in
      count-reverse p kept ∙ count-txs_to_keep p limit [] sorted h ∙ count-sort_by_time p xs

  -- The keys of the items that are kept, each once: those seen before, and at most one more for each
  -- place below the limit and each item that is not final.
  module _ (limit : ℕ) where
    pub record Keys (seen : List K) (xs : List A) : Type 0 where
      pub keys : List K
      pub few : length keys ≤ length seen + (limit - length seen) + count (λ x. not (is_final x)) xs
      pub grown :
          (k : K)
          → is_seen time key is_final k seen ≡ true
          → is_seen time key is_final k keys ≡ true
      pub all :
          All
            (λ x. is_seen time key is_final (key x) keys ≡ true)
            (txs_to_keep time key is_final limit seen xs)

    Keys-txs_to_keep : (seen : List K) (xs : List A) → Keys seen xs
    unfolding txs_to_keep
    Keys-txs_to_keep seen [] = record { keys = seen; few = omega arith; grown = λ k h. h; all = tt }
    Keys-txs_to_keep seen (x ∷ xs) = elim (Bool-cases (is_seen time key is_final (key x) seen)) [
      | inl y ↦
          let r = Keys-txs_to_keep seen xs in
          record {
            keys = r.keys;
            few = ground (arith, r.few);
            grown = r.grown;
            all = rw (y) (r.grown (key x) y, r.all);
          }
      | inr n ↦ elim (Bool-cases (ltb (length seen) limit || not (is_final x))) [
        | inl y ↦
            let r = Keys-txs_to_keep (key x ∷ seen) xs in
            record {
              keys = r.keys;
              few = ground (arith, r.few, y);
              grown = λ k h. r.grown k (ground (arith, h));
              all = rw (n, y) (r.grown (key x) (ground (arith, e.same_iff (key x) (key x))), r.all);
            }
        | inr m ↦
            let r = Keys-txs_to_keep seen xs in
            record {
              keys = r.keys;
              few = ground (arith, r.few);
              grown = r.grown;
              all = rw (n, m) r.all;
            }
      ]
    ]

  -- The items that are kept have their keys among a few: at most as many as the limit, and one more for
  -- each item that is not in a final state.
  pub trim-keys :
      (limit : ℕ) (xs : List A)
      → (keys : List K) × (length keys ≤ limit + count (λ x. not (is_final x)) xs)
        × All (λ x. is_seen time key is_final (key x) keys ≡ true) (trim time key is_final limit xs)
  trim-keys limit xs =
      let sorted = sort_by_time time key is_final xs in
      let r = Keys-txs_to_keep limit [] sorted in
      (
        r.keys,
        omega (arith, r.few, count-sort_by_time (λ x. not (is_final x)) xs),
        All-reverse (λ x. is_seen time key is_final (key x) r.keys ≡ true)
            (txs_to_keep time key is_final limit [] sorted) r.all,
      )
