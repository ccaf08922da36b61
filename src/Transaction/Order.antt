-- ===== src/Transaction/Order.antt =====
-- The order of the transactions that TransactionController.ts keeps.
use mathlib.Core.List.{reverse, reverse-append}
use fork_metamask_core.Common.{
  ℕ, ◌≡◌, ◌≢◌, ◌<◌, refl, ap, ◌∙◌, Bool, not, ◌||◌, List, [], ◌∷◌, ◌++◌, ltb, length, arith, inl,
  inr, Bool-cases, All, HasEquality,
}
use fork_metamask_core.Transaction.Trim.{
  insert_by_time, sort_by_time, is_seen, txs_to_keep, trimmed, trim,
}
use fork_metamask_core.Transaction.Trimmed.{All-reverse}

module _ {A K : Type 0} ⦃e : HasEquality K⦄ (time : A → ℕ) (key : A → K) (is_final : A → Bool) where
  -- The latest first, no two at one time.
  abbrev pub IsDescending : List A → Type 0
  IsDescending [] = Unit
  IsDescending (x ∷ xs) = All (λ y. time y < time x) xs × IsDescending xs

  abbrev pub HasDistinctTimes : List A → Type 0
  HasDistinctTimes [] = Unit
  HasDistinctTimes (x ∷ xs) = All (λ y. time y ≢ time x) xs × HasDistinctTimes xs

  All-insert_by_time {κ} :
      (P : A → Type κ) (x : A) (xs : List A)
      → P x
      → All P xs
      → All P (insert_by_time time key is_final x xs)
  unfolding insert_by_time
  All-insert_by_time P x [] h a = (h, tt)
  All-insert_by_time P x (y ∷ ys) h a = elim (Bool-cases (ltb (time x) (time y))) [
    | inl l ↦ rw (l) (a.0, All-insert_by_time P x ys h a.1)
    | inr g ↦ rw (g) (h, a)
  ]

  All-sort_by_time {κ} :
      (P : A → Type κ) (xs : List A) → All P xs → All P (sort_by_time time key is_final xs)
  unfolding sort_by_time
  All-sort_by_time P [] a = tt
  All-sort_by_time P (x ∷ xs) a =
      All-insert_by_time P x (sort_by_time time key is_final xs) a.0 (All-sort_by_time P xs a.1)

  All-below :
      (x y : A) (ys : List A)
      → time y < time x
      → All (λ z. time z < time y) ys
      → All (λ z. time z < time x) ys
  All-below x y [] h a = tt
  All-below x y (z ∷ zs) h a = (omega (arith, a.0), All-below x y zs h a.1)

  insert_by_time-IsDescending :
      (x : A) (ys : List A)
      → All (λ y. time y ≢ time x) ys
      → IsDescending ys
      → IsDescending (insert_by_time time key is_final x ys)
  unfolding insert_by_time
  insert_by_time-IsDescending x [] n d = (tt, tt)
  insert_by_time-IsDescending x (y ∷ ys) n d = elim (Bool-cases (ltb (time x) (time y))) [
    | inl l ↦ rw (l) (
      All-insert_by_time (λ z. time z < time y) x ys (ground (arith, l)) d.0,
      insert_by_time-IsDescending x ys n.1 d.1,
    )
    | inr g ↦
        let h : time y < time x = ground (arith, g, n.0) in rw (g) ((h, All-below x y ys h d.0), d)
  ]

  sort_by_time-IsDescending :
      (xs : List A) → HasDistinctTimes xs → IsDescending (sort_by_time time key is_final xs)
  unfolding sort_by_time
  sort_by_time-IsDescending [] d = tt
  sort_by_time-IsDescending (x ∷ xs) d =
      insert_by_time-IsDescending x (sort_by_time time key is_final xs)
        (All-sort_by_time (λ y. time y ≢ time x) xs d.0) (sort_by_time-IsDescending xs d.1)

  All-txs_to_keep {κ} :
      (P : A → Type κ) (limit : ℕ) (seen : List K) (xs : List A)
      → All P xs
      → All P (txs_to_keep time key is_final limit seen xs)
  unfolding txs_to_keep
  All-txs_to_keep P limit seen [] a = tt
  All-txs_to_keep P limit seen (x ∷ xs) a =
      elim (Bool-cases (is_seen time key is_final (key x) seen)) [
        | inl y ↦ rw (y) (a.0, All-txs_to_keep P limit seen xs a.1)
        | inr n ↦ elim (Bool-cases (ltb (length seen) limit || not (is_final x))) [
          | inl y ↦ rw (n, y) (a.0, All-txs_to_keep P limit (key x ∷ seen) xs a.1)
          | inr m ↦ rw (n, m) (All-txs_to_keep P limit seen xs a.1)
        ]
      ]

  txs_to_keep-IsDescending :
      (limit : ℕ) (seen : List K) (xs : List A)
      → IsDescending xs
      → IsDescending (txs_to_keep time key is_final limit seen xs)
  unfolding txs_to_keep
  txs_to_keep-IsDescending limit seen [] d = tt
  txs_to_keep-IsDescending limit seen (x ∷ xs) d =
      let below = λ (s : List K). All-txs_to_keep (λ y. time y < time x) limit s xs d.0 in
      elim (Bool-cases (is_seen time key is_final (key x) seen)) [
        | inl y ↦ rw (y) (below seen, txs_to_keep-IsDescending limit seen xs d.1)
        | inr n ↦ elim (Bool-cases (ltb (length seen) limit || not (is_final x))) [
          | inl y ↦
              rw (n, y) (below (key x ∷ seen), txs_to_keep-IsDescending limit (key x ∷ seen) xs d.1)
          | inr m ↦ rw (n, m) (txs_to_keep-IsDescending limit seen xs d.1)
        ]
      ]

  -- What was kept is kept again.
  txs_to_keep_again :
      (limit : ℕ) (seen : List K) (xs : List A)
      → let kept = txs_to_keep time key is_final limit seen xs in
        txs_to_keep time key is_final limit seen kept ≡ kept
  unfolding txs_to_keep
  txs_to_keep_again limit seen [] = refl
  txs_to_keep_again limit seen (x ∷ xs) =
      elim (Bool-cases (is_seen time key is_final (key x) seen)) [
        | inl y ↦ ground (arith, y, txs_to_keep_again limit seen xs)
        | inr n ↦ elim (Bool-cases (ltb (length seen) limit || not (is_final x))) [
          | inl y ↦ ground (arith, n, y, txs_to_keep_again limit (key x ∷ seen) xs)
          | inr m ↦ ground (arith, n, m, txs_to_keep_again limit seen xs)
        ]
      ]

  pub sort_snoc :
      (xs : List A) (x : A)
      → All (λ y. time y < time x) xs
      → sort_by_time time key is_final (xs ++ x ∷ []) ≡ x ∷ sort_by_time time key is_final xs
  unfolding sort_by_time insert_by_time
  sort_snoc [] x a = refl
  sort_snoc (y ∷ ys) x a =
      ap (insert_by_time time key is_final y) (sort_snoc ys x a.1) ∙ ground (arith, a.0)

  sort_reverse : (xs : List A) → IsDescending xs → sort_by_time time key is_final (reverse xs) ≡ xs
  unfolding sort_by_time
  sort_reverse [] d = refl
  sort_reverse (x ∷ xs) d =
      ap (sort_by_time time key is_final) (reverse-append (x ∷ []) xs)
      ∙ sort_snoc (reverse xs) x (All-reverse (λ y. time y < time x) xs d.0)
      ∙ ap (λ ys. x ∷ ys) (sort_reverse xs d.1)

  -- Trimming twice is trimming once, where no two transactions have one time.
  pub trim-trim :
      (limit : ℕ) (xs : List A)
      → HasDistinctTimes xs
      → trim time key is_final limit (trim time key is_final limit xs)
        ≡ trim time key is_final limit xs
  trim-trim limit xs d =
      let sorted = sort_by_time time key is_final xs in
      let kept = txs_to_keep time key is_final limit [] sorted in
      let descending = txs_to_keep-IsDescending limit [] sorted (sort_by_time-IsDescending xs d) in
      ap (trimmed time key is_final limit) (sort_reverse kept descending)
      ∙ ap reverse (txs_to_keep_again limit [] sorted)
